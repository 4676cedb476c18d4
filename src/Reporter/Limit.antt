-- ===== src/Reporter/Limit.antt =====
-- common/reporter/limit.go: `limiter` and `allow`. Go's `rate.Limiter` is a parameter, and the map's
-- keys are the keys of the messages. Times are numbers of nanoseconds.
use ne_xt_server.Base.{
  ℕ, ◌+◌, ◌-◌, Bool, true, false, Option, none, some, List, [], ltb, leb, if◌then◌else◌, length,
  keep,
}
use ne_xt_server.Base.Assoc.{lookup, insert}

-- What `allow` needs of `rate.Limiter`: `AllowN` with the time and the number of events.
pub record RateOps : Type 1 where
  pub Rate : Type 0
  pub allow_n : Rate → ℕ → ℕ → Bool × Rate

abbrev pub repeat_window : ℕ
repeat_window = 600000000000

abbrev pub max_tracked : ℕ
max_tracked = 1000

pub record SeenMessage : Type 0 where
  pub sent : ℕ
  pub suppressed : ℕ

pub record EventLimiter (K Rate : Type 0) : Type 0 where
  pub rate : Rate
  pub seen : List (K × SeenMessage)

-- `now.Sub(seen.sent) < repeatWindow`
abbrev pub is_recent : ℕ → SeenMessage → Bool
is_recent now m = ltb (now - m.sent) repeat_window

-- `seen.suppressed++`
abbrev pub count_suppressed : SeenMessage → SeenMessage
count_suppressed m = record m { suppressed = m.suppressed + 1 }

module _ {K : Type 0} where
  -- The map when an event is sent: entries that are no longer recent go when there are too many.
  abbrev pub pruned : ℕ → List (K × SeenMessage) → List (K × SeenMessage)
  pruned now seen =
      if leb max_tracked (length seen) then keep (λ e. is_recent now e.1) seen else seen

abbrev pub suppressed_of : Option SeenMessage → ℕ
suppressed_of none = 0
suppressed_of (some m) = m.suppressed

abbrev pub is_repeated : ℕ → Option SeenMessage → Bool
is_repeated now none = false
is_repeated now (some m) = is_recent now m

module _ {K : Type 0} (dec : Discrete K) where
  -- The count of a message that is not sent.
  unfoldable pub suppress : K → Option SeenMessage → List (K × SeenMessage) → List (K × SeenMessage)
  suppress key none seen = seen
  suppress key (some m) seen = insert dec key (count_suppressed m) seen

  module _ (ops : RateOps) where
    open ops use {Rate, allow_n}

    -- The rest of `allow` for a message that is not repeated.
    unfoldable pub rated :
        EventLimiter K Rate
        → K
        → ℕ
        → Option SeenMessage
        → Bool × Rate
        → EventLimiter K Rate × Bool × ℕ
    unfolding suppress
    rated l key now m (false, rate') =
        (record { rate = rate'; seen = suppress key m l.seen }, false, 0)
    rated l key now m (true, rate') = (
      record {
        rate = rate';
        seen = insert dec key (record { sent = now; suppressed = 0 }) (pruned now l.seen);
      },
      true,
      suppressed_of m,
    )

    unfoldable pub allow_seen :
        EventLimiter K Rate → K → ℕ → Option SeenMessage → EventLimiter K Rate × Bool × ℕ
    unfolding rated suppress
    allow_seen l key now m =
        if is_repeated now m
        then (record l { seen = suppress key m l.seen }, false, 0)
        else rated l key now m (allow_n l.rate now 1)

    -- `allow`, by the key of the message and the time.
    unfoldable pub allow : EventLimiter K Rate → K → ℕ → EventLimiter K Rate × Bool × ℕ
    unfolding allow_seen
    allow l key now = allow_seen l key now (lookup dec key l.seen)

-- `newLimiter`, whose rate has `eventBurst` and `eventInterval`.
abbrev pub event_burst : ℕ
event_burst = 10

abbrev pub event_interval : ℕ
event_interval = 10000000000

abbrev pub new_event_limiter : {K Rate : Type 0} → (ℕ → ℕ → Rate) → EventLimiter K Rate
new_event_limiter new_limiter = record { rate = new_limiter event_interval event_burst; seen = [] }
