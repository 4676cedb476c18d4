-- ===== src/Router/Closing.antt =====
-- router.go: `onceClose`, what ends a connection, and the blocking calls; users.go: the function that
-- `open` returns. A handler is the list of the errors that it is called with, in order.
use ne_xt_server.Base.{
  ℕ, ◌≡◌, refl, ap, ◌⊎◌, inl, inr, Bool, true, false, Option, none, some, List, [], ◌∷◌, map,
  length,
}
use ne_xt_server.Users.State.{UserState, close_connection}

-- `N.OnceClose` of sing: only the first call gets through.
pub record OnceApi (E : Type 0) : Type 0 where
  pub once : List E → List E
  pub once-nil : once [] ≡ []
  pub once-cons : (e : E) (es : List E) → once (e ∷ es) ≡ (e ∷ [])

-- A channel with one place, whose receiver takes one value: what the receiver gets, and how many of the
-- sends wait for ever.
abbrev pub received {ℓ} : {E : Type ℓ} → List E → Option E
received [] = none
received (e ∷ es) = some e

abbrev pub stuck {ℓ} : {E : Type ℓ} → List E → ℕ
stuck (_ ∷ _ ∷ es) = length es
stuck _ = 0

module _ {E : Type 0} (api : OnceApi E) where
  open api use {once, once-nil, once-cons}

  -- `onceClose`, with whether there is a handler: the calls that the handler gets.
  unfoldable pub once_close : Bool → List E → List E
  once_close false calls = []
  once_close true calls = once calls

  -- `RouteConnection` and `RoutePacketConnection`, with the calls of the handler that they give to the
  -- router: what they return, if they do, and the calls that never return.
  unfoldable pub route_blocking : List E → Option E × ℕ
  unfolding once_close
  route_blocking calls = let sent = once_close true calls in (received sent, stuck sent)

module _ {L : Type 0} where
  -- The function that `open` returns, called at a time, with whether it has run.
  unfoldable pub end_once : UserState L × Bool → ℕ → ℕ → UserState L × Bool
  end_once (u, true) activity now = (u, true)
  end_once (u, false) activity now = (close_connection u activity now, true)

  ends : {E : Type 0} → UserState L × Bool → ℕ → List (E × ℕ) → UserState L × Bool
  unfolding end_once
  ends s activity [] = s
  ends s activity ((e, now) ∷ calls) = ends (end_once s activity now) activity calls

  -- The handler that the connection manager is given, by its calls with their times: what it does to the
  -- user's state, and the calls that go on to the router's handler. It also stops watching the user's
  -- context.
  unfoldable pub close_handler :
      {E : Type 0} → UserState L → ℕ → List (E × ℕ) → UserState L × List E
  unfolding ends
  close_handler u activity calls = ((ends (u, false) activity calls).0, map (λ c. c.0) calls)

  ended_stays :
      {E : Type 0} (u : UserState L) (activity : ℕ) (calls : List (E × ℕ))
      → ends (u, true) activity calls ≡ (u, true)
  unfolding ends end_once
  ended_stays u activity [] = refl
  ended_stays u activity ((e, now) ∷ calls) = ended_stays u activity calls

-- However often sing reports the end of a connection, and from wherever: the user's state records the
-- end once, at the time of the first report, the blocking call returns with the first error, and no
-- report waits for ever. While there is no report the state stays and the call does not return.
pub route_blocking_ends :
    {L E : Type 0} (api : OnceApi E) (u : UserState L) (activity : ℕ) (calls : List (E × ℕ))
    → let (u', passed_on) = close_handler u activity calls in
      let (returned, waiting) = route_blocking api passed_on in
      (waiting ≡ 0)
      × (((calls ≡ []) × (u' ≡ u) × (returned ≡ none))
          ⊎ ((e : E) × (now : ℕ) × (rest : List (E × ℕ)) × (calls ≡ ((e, now) ∷ rest))
              × (u' ≡ close_connection u activity now)
              × (returned ≡ some e)))
unfolding close_handler route_blocking once_close ends end_once
route_blocking_ends api u activity [] = rw (api.once-nil) (refl, inl (refl, refl, refl))
route_blocking_ends api u activity ((e, now) ∷ rest) = rw (api.once-cons e (map (λ c. c.0) rest)) (
  refl,
  inr (
    e,
    now,
    rest,
    refl,
    ap (λ s. s.0) (ended_stays (close_connection u activity now) activity rest),
    refl,
  ),
)
