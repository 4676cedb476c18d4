-- ===== src/Reporter/History.antt =====
-- common/reporter/limit.go: the calls of `allow` that one limiter has had, the newest first.
use ne_xt_server.Reporter.Limit.{SeenMessage, count_suppressed, repeat_window, is_recent}
use ne_xt_server.Base.{
  ℕ, ◌+◌, ◌≤◌, ◌≡◌, refl, ◌∙◌, ◌≢◌, ◌⊎◌, inl, inr, ite, if_pos, if_neg, Bool, true, false, Option,
  none, some, List, [], ◌∷◌, arith, if◌then◌else◌,
}

pub record Call (K : Type 0) : Type 0 where
  pub key : K
  pub at : ℕ
  pub was_sent : Bool

module _ {K : Type 0} where
  -- The time of the newest call.
  abbrev pub latest : List (Call K) → ℕ
  latest [] = 0
  latest (c ∷ _) = c.at

module _ {K : Type 0} (dec : Discrete K) where
  -- When a message with this key was sent last.
  abbrev pub last_sent : K → List (Call K) → Option ℕ
  last_sent k [] = none
  last_sent k (c ∷ h) =
      let rest = last_sent k h in ite (dec c.key k) (if c.was_sent then some c.at else rest) rest

  -- How many messages with this key were held back since then.
  abbrev pub held_since : K → List (Call K) → ℕ
  held_since k [] = 0
  held_since k (c ∷ h) =
      let rest = held_since k h in ite (dec c.key k) (if c.was_sent then 0 else rest + 1) rest

  -- What the entry of a key says of the calls so far. Without an entry, the last event of the key is
  -- out of the window.
  abbrev pub Tracks : Option SeenMessage → K → List (Call K) → Type 0
  Tracks none k h =
      (last_sent k h ≡ none) ⊎ ((t : ℕ) × (last_sent k h ≡ some t) × (t + repeat_window ≤ latest h))
  Tracks (some m) k h = (last_sent k h ≡ some m.sent) × (held_since k h ≡ m.suppressed)

  module _ (c : Call K) (h : List (Call K)) where
    pub Tracks-other :
        (o : Option SeenMessage) (k : K)
        → c.key ≢ k
        → latest h ≤ c.at
        → Tracks o k h
        → Tracks o k (c ∷ h)
    Tracks-other none k ne later (inl e) = inl (if_neg (dec c.key k) ne _ _ ∙ e)
    Tracks-other none k ne later (inr (t, e, b)) =
        inr (t, if_neg (dec c.key k) ne _ _ ∙ e, omega arith)
    Tracks-other (some m) k ne later (e, f) =
        (if_neg (dec c.key k) ne _ _ ∙ e, if_neg (dec c.key k) ne _ _ ∙ f)

    pub Tracks-held :
        (m : SeenMessage)
        → c.was_sent ≡ false
        → Tracks (some m) c.key h
        → Tracks (some (count_suppressed m)) c.key (c ∷ h)
    Tracks-held m unsent (e, f) = rw (if_pos (dec c.key c.key) refl, unsent) (e, ground arith)

    pub Tracks-missed :
        c.was_sent ≡ false → latest h ≤ c.at → Tracks none c.key h → Tracks none c.key (c ∷ h)
    Tracks-missed unsent later (inl e) = inl (rw (if_pos (dec c.key c.key) refl, unsent) e)
    Tracks-missed unsent later (inr (t, e, b)) =
        inr (t, rw (if_pos (dec c.key c.key) refl, unsent) e, omega arith)

    pub Tracks-sent :
        c.was_sent ≡ true → Tracks (some (record { sent = c.at; suppressed = 0 })) c.key (c ∷ h)
    Tracks-sent sent =
        rw sent (if_pos (dec c.key c.key) refl _ _, if_pos (dec c.key c.key) refl _ _)

    -- An entry that is recent no longer may go.
    pub Tracks-dropped :
        (m : SeenMessage) (k : K)
        → c.key ≢ k
        → is_recent c.at m ≡ false
        → Tracks (some m) k h
        → Tracks none k (c ∷ h)
    Tracks-dropped m k ne old (e, f) = inr (m.sent, if_neg (dec c.key k) ne _ _ ∙ e, ground arith)
