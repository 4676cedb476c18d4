-- ===== src/Reporter/Runs.antt =====
-- common/reporter/limit.go: what every run of calls of `allow` sends.
use ne_xt_server.Reporter.Window.{Holds, suppress-Holds, sent-Holds}
use ne_xt_server.Reporter.History.{Call, latest, last_sent, Tracks, held_since}
use ne_xt_server.Reporter.Limit.{
  RateOps, allow, EventLimiter, allow_seen, rated, SeenMessage, is_repeated, repeat_window,
  is_recent,
}
use ne_xt_server.Base.{
  ℕ, ◌+◌, ◌≤◌, ◌≡◌, refl, ◌⊎◌, inl, inr, Bool, true, false, Option, none, some, List, [], ◌∷◌,
  arith, Bool-cases,
}
use ne_xt_server.Base.Assoc.{lookup}

module _ {K : Type 0} (dec : Discrete K) (ops : RateOps) where
  open ops use {Rate, allow_n}

  abbrev pub call_of : EventLimiter K Rate → K → ℕ → Call K
  call_of l key now = record { key = key; at = now; was_sent = (allow dec ops l key now).1 }

  -- Calls one after another, whose times do not go back.
  pub data Calls : EventLimiter K Rate → List (Call K) → Type 0 where
    no_calls : (rate : Rate) → Calls (record { rate = rate; seen = [] }) []
    then_call :
        {l : EventLimiter K Rate} {h : List (Call K)} (key : K) (now : ℕ)
        → Calls l h
        → latest h ≤ now
        → Calls (allow dec ops l key now).0 (call_of l key now ∷ h)

  module _ (l : EventLimiter K Rate) (h : List (Call K)) (key : K) (now : ℕ) where
    rated-Holds :
        (o : Option SeenMessage) (r : Bool × Rate)
        → Holds dec l.seen h
        → latest h ≤ now
        → lookup dec key l.seen ≡ o
        → let (l', sent, _) = rated dec ops l key now o r in
          Holds dec l'.seen (record { key = key; at = now; was_sent = sent } ∷ h)
    unfolding rated
    rated-Holds o (false, rate') holds later e =
        suppress-Holds dec (record { key = key; at = now; was_sent = false }) h l.seen o holds later
          refl e
    rated-Holds o (true, rate') holds later e =
        sent-Holds dec (record { key = key; at = now; was_sent = true }) h l.seen holds later refl

    seen-Holds :
        (o : Option SeenMessage)
        → Holds dec l.seen h
        → latest h ≤ now
        → lookup dec key l.seen ≡ o
        → let (l', sent, _) = allow_seen dec ops l key now o in
          Holds dec l'.seen (record { key = key; at = now; was_sent = sent } ∷ h)
    unfolding allow_seen
    seen-Holds o holds later e = elim (Bool-cases (is_repeated now o)) [
      | inl r ↦ rw r (
          suppress-Holds dec (record { key = key; at = now; was_sent = false }) h l.seen o holds
            later refl e)
      | inr r ↦ rw r (rated-Holds o (allow_n l.rate now 1) holds later e)
    ]

    -- What is sent was not sent before within the window, and its count is that of the held ones.
    seen_sent :
        (o : Option SeenMessage)
        → Tracks dec o key h
        → latest h ≤ now
        → (allow_seen dec ops l key now o).1 ≡ true
        → ((last_sent dec key h ≡ none)
            ⊎ ((t : ℕ) × (last_sent dec key h ≡ some t) × (t + repeat_window ≤ now)))
          × (((allow_seen dec ops l key now o).2 ≡ 0)
              ⊎ ((allow_seen dec ops l key now o).2 ≡ held_since dec key h))
    unfolding allow_seen rated
    seen_sent none (inl e) later s = (inl e, inl (ground arith))
    seen_sent none (inr (t, e, b)) later s = (inr (t, e, omega arith), inl (ground arith))
    seen_sent (some m) (e, f) later s = elim (Bool-cases (is_recent now m)) [
      | inl r ↦ absurd (ground arith)
      | inr r ↦ (inr (m.sent, e, ground arith), inr (ground arith))
    ]

  Calls-Holds : {l : EventLimiter K Rate} {h : List (Call K)} → Calls l h → Holds dec l.seen h
  unfolding lookup allow
  Calls-Holds (no_calls rate) = record { distinct = tt; tracks = λ k. inl refl }
  Calls-Holds (then_call {l} {h} key now r later) =
      seen-Holds l h key now (lookup dec key l.seen) (Calls-Holds r) later refl

  -- In every run of calls, a message is sent only if none with its key was sent before, or the last
  -- one of them was at least the window earlier. The count that comes with it is 0, or exactly the
  -- number of messages with the key that were held back since.
  pub allow_sent :
      (l : EventLimiter K Rate) (h : List (Call K)) (key : K) (now : ℕ)
      → Calls l h
      → latest h ≤ now
      → (allow dec ops l key now).1 ≡ true
      → ((last_sent dec key h ≡ none)
          ⊎ ((t : ℕ) × (last_sent dec key h ≡ some t) × (t + repeat_window ≤ now)))
        × (((allow dec ops l key now).2 ≡ 0) ⊎ ((allow dec ops l key now).2 ≡ held_since dec key h))
  unfolding allow
  allow_sent l h key now r later s =
      seen_sent l h key now (lookup dec key l.seen) ((Calls-Holds r).tracks key) later s
