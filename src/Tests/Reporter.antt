-- ===== src/Tests/Reporter.antt =====
-- Events of a concrete reporter.
use ne_xt_server.Base.Assoc.{lookup, insert}
use ne_xt_server.Reporter.Runs.{Calls, call_of, then_call, no_calls, allow_sent}
use ne_xt_server.Reporter.History.{latest, last_sent, held_since}
use ne_xt_server.Reporter.Limit.{RateOps, allow, EventLimiter, allow_seen, rated, repeat_window}
use ne_xt_server.Base.{
  ℕ, ◌+◌, ◌≤◌, ◌≡◌, refl, ◌⊎◌, true, false, none, some, List, [], ◌∷◌, arith, ℕ_discrete,
}
use Prim.Native.String.{String}
use ne_xt_server.Reporter.Logger.{Arg, LoggedError}

-- A rate that allows every event.
abbrev free_rate : RateOps
free_rate = record { Rate = Unit {0}; allow_n = λ r now n. (true, tt) }

abbrev fresh : EventLimiter ℕ (Unit {0})
fresh = record { rate = tt; seen = [] }

abbrev once : EventLimiter ℕ (Unit {0})
once = (allow ℕ_discrete free_rate fresh 1 5).0

once-Calls : Calls ℕ_discrete free_rate once (call_of ℕ_discrete free_rate fresh 1 5 ∷ [])
once-Calls = then_call 1 5 (no_calls tt) (omega arith)

abbrev again : ℕ
again = 600000000005

again_later : latest (call_of ℕ_discrete free_rate fresh 1 5 ∷ []) ≤ again
again_later = omega arith

again_sent : (allow ℕ_discrete free_rate once 1 again).1 ≡ true
unfolding allow allow_seen rated lookup insert ℕ_discrete
again_sent = refl

allow_sent_example :
    ((last_sent ℕ_discrete 1 (call_of ℕ_discrete free_rate fresh 1 5 ∷ []) ≡ none)
      ⊎ ((t : ℕ) × (last_sent ℕ_discrete 1 (call_of ℕ_discrete free_rate fresh 1 5 ∷ []) ≡ some t)
          × (t + repeat_window ≤ again)))
    × (((allow ℕ_discrete free_rate once 1 again).2 ≡ 0)
        ⊎ ((allow ℕ_discrete free_rate once 1 again).2
            ≡ held_since ℕ_discrete 1 (call_of ℕ_discrete free_rate fresh 1 5 ∷ [])))
allow_sent_example =
    allow_sent ℕ_discrete free_rate once (call_of ℕ_discrete free_rate fresh 1 5 ∷ []) 1 again
      once-Calls again_later again_sent

-- "port 80 busy"
abbrev before : List ℕ
before = 112 ∷ 111 ∷ 114 ∷ 116 ∷ []

abbrev after : List ℕ
after = 98 ∷ 117 ∷ 115 ∷ 121 ∷ []

-- A stream that the peer has closed.
abbrev closed_stream : LoggedError
closed_stream = record {
  chain = "http2: stream closed" ∷ [];
  is_closed_or_canceled = false;
  is_canceled = false;
  stream_code = none;
}

abbrev no_text : List Arg → String
no_text args = ""
