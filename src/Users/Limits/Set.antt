-- ===== src/Users/Limits/Set.antt =====
-- What `setSpeedLimit` leaves in a state.
use ne_xt_server.Base.{
  ℕ, ◌≡◌, refl, ap, ◌∙◌, ◌≢◌, inl, inr, false, none, some, arith, ℕ_discrete, ◌==◌, Option-cases,
  ◌<◌,
}
use ne_xt_server.Base.Sums.{put_self, put_ne}
use ne_xt_server.Users.State.{LimiterOps, UserState, set_speed_limit}

-- A limiter that the state points to is in the store.
abbrev pub HasLimiter : {L : Type 0} → UserState L → Type 0
HasLimiter {L} u = (p : ℕ) → u.limiter ≡ some p → (l : L) × (u.limiters p ≡ some l)

-- The state allows `n` bytes per second, without a limiter if that is 0.
pub data LimitedTo (ops : LimiterOps) (n : ℕ) (u : UserState ops.Limiter) : Type 0 where
  unlimited : n ≡ 0 → u.limiter ≡ none → LimitedTo ops n u
  limited :
      (p : ℕ) (l : ops.Limiter)
      → n ≢ 0
      → u.limiter ≡ some p
      → u.limiters p ≡ some l
      → ops.Allows n l
      → LimitedTo ops n u

pub LimitedTo-same :
    (ops : LimiterOps) (n : ℕ) (u u' : UserState ops.Limiter)
    → u'.limiter ≡ u.limiter
    → u'.limiters ≡ u.limiters
    → LimitedTo ops n u
    → LimitedTo ops n u'
LimitedTo-same ops n u u' a b (unlimited z e) = unlimited z (a ∙ e)
LimitedTo-same ops n u u' a b (limited p l nz e f k) =
    limited p l nz (a ∙ e) (ap (λ s. s p) b ∙ f) k

module _ (ops : LimiterOps) (n : ℕ) (u : UserState ops.Limiter) where
  fresh-LimitedTo : n ≢ 0 → u.limiter ≡ none → LimitedTo ops n (set_speed_limit ops u n)
  unfolding set_speed_limit
  fresh-LimitedTo nz e =
      let test : (n == 0) ≡ false = ground arith in
      rw (test, e, set_speed_limit)
        (limited u.next_limiter (ops.new n) nz refl
          (put_self u.limiters u.next_limiter (some (ops.new n))) (ops.new-Allows n))

  shared-LimitedTo :
      (p : ℕ) (l : ops.Limiter)
      → n ≢ 0
      → u.limiter ≡ some p
      → u.limiters p ≡ some l
      → LimitedTo ops n (set_speed_limit ops u n)
  unfolding set_speed_limit
  shared-LimitedTo p l nz e f =
      let test : (n == 0) ≡ false = ground arith in
      rw (test, e, f, set_speed_limit)
        (limited p (ops.set_limit l n) nz refl (put_self u.limiters p (some (ops.set_limit l n)))
          (ops.set_limit-Allows l n))

  -- After `setSpeedLimit` the state allows the new limit: it has no limiter for 0, and otherwise one
  -- that allows the rate.
  pub set_speed_limit-LimitedTo : HasLimiter u → LimitedTo ops n (set_speed_limit ops u n)
  set_speed_limit-LimitedTo has = elim (ℕ_discrete n 0) [
    | yes z ↦ unlimited z (unfold set_speed_limit in (ground arith))
    | no nz ↦ elim (Option-cases u.limiter) [
      | inl e ↦ fresh-LimitedTo nz e
      | inr (p, e) ↦ let (l, f) = has p e in shared-LimitedTo p l nz e f
    ]
  ]

  pub set_speed_limit-HasLimiter : HasLimiter u → HasLimiter (set_speed_limit ops u n)
  set_speed_limit-HasLimiter has p e = elim (set_speed_limit-LimitedTo has) [
    | unlimited z none_here ↦ absurd (cc none_here)
    | limited q l nz here found k ↦ (l, ground arith)
  ]

  -- A connection that throttles by the state's limiter goes on by the same limiter, which allows the
  -- new limit, as long as that is not 0.
  pub set_speed_limit_shares :
      (p : ℕ) (l : ops.Limiter)
      → n ≢ 0
      → u.limiter ≡ some p
      → u.limiters p ≡ some l
      → let u' = set_speed_limit ops u n in
        (u'.limiter ≡ some p)
        × (u'.limiters p ≡ some (ops.set_limit l n))
        × ops.Allows n (ops.set_limit l n)
  unfolding set_speed_limit
  set_speed_limit_shares p l nz e f =
      let test : (n == 0) ≡ false = ground arith in
      rw (test, e, f, set_speed_limit) (refl, ground arith, ops.set_limit-Allows l n)

  -- When a limit is lifted and then set again, the open connections keep the old limiter with the old
  -- rate, while new connections share another one, which allows the new rate: the user then has two.
  pub set_speed_limit_splits :
      (p : ℕ) (l : ops.Limiter)
      → n ≢ 0
      → u.limiter ≡ some p
      → u.limiters p ≡ some l
      → p < u.next_limiter
      → let u' = set_speed_limit ops (set_speed_limit ops u 0) n in
        (u'.limiters p ≡ some l)
        × (u'.limiter ≡ some u.next_limiter)
        × (u'.limiters u.next_limiter ≡ some (ops.new n))
        × (p ≢ u.next_limiter)
  unfolding set_speed_limit
  set_speed_limit_splits p l nz e f below =
      let test : (n == 0) ≡ false = ground arith in
      rw (test, set_speed_limit)
        (
          put_ne u.limiters u.next_limiter (some (ops.new n)) p (omega arith) ∙ f,
          refl,
          put_self u.limiters u.next_limiter (some (ops.new n)),
          omega arith,
        )
