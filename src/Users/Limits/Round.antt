-- ===== src/Users/Limits/Round.antt =====
-- What one round of the first loop of `update` does to the limiters.

use ne_xt_server.Base.{
  ℕ, ◌<◌, ◌≡◌, sym, ap, subst, ◌∙◌, ◌≢◌, inl, inr, arith, ℕ_discrete, Option-cases,
}
use ne_xt_server.Adapter.{User}
use ne_xt_server.Base.Int.{ℤ, ℤ_discrete}
use ne_xt_server.Base.Assoc.{lookup}
use ne_xt_server.Base.Sums.{put, put_self, put_ne}
use ne_xt_server.Users.State.{LimiterOps, UserState, set_speed_limit, new_user_state}
use ne_xt_server.Users.Table.{Table, modify, allocate, effective_limit, serve_user}
use ne_xt_server.Users.Update.Balance.{Entries}
use ne_xt_server.Users.Limits.Set.{
  HasLimiter, LimitedTo, set_speed_limit-LimitedTo, set_speed_limit-HasLimiter,
}

-- Every state's limiter is in the store.
abbrev pub HasLimiters : {L : Type 0} → Table L → Type 0
HasLimiters t = (p : ℕ) → HasLimiter (t.states p)

pub new-HasLimiter : {L : Type 0} (id : ℤ) → HasLimiter (new_user_state {L = L} id)
unfolding new_user_state
new-HasLimiter id p e = absurd (cc e)

pub put-HasLimiter :
    {L : Type 0} (states : ℕ → UserState L) (p : ℕ) (u : UserState L)
    → ((q : ℕ) → HasLimiter (states q))
    → HasLimiter u
    → (q : ℕ) → HasLimiter (put states p u q)
put-HasLimiter states p u has h q = elim (ℕ_discrete p q) [
  | yes e ↦ subst HasLimiter (sym (ap (put states p u) (sym e) ∙ put_self states p u)) h
  | no ne ↦ subst HasLimiter (sym (put_ne states p u q ne)) (has q)
]

module _ (ops : LimiterOps) (node_limit : ℕ) (previous : Entries) where
  abbrev pub limit_for : User → ℕ
  limit_for user = effective_limit node_limit user.speed_limit

  -- What a round does to the limiters.
  pub record Sets (t t' : Table ops.Limiter) (n p : ℕ) : Type 0 where
    pub has : HasLimiters t'
    pub allowed : LimitedTo ops n (t'.states p)
    pub others : (q : ℕ) → q ≢ p → q < t.next → t'.states q ≡ t.states q

  modify-Sets :
      (t : Table ops.Limiter) (p n : ℕ)
      → HasLimiters t
      → Sets t (modify t p (λ u. set_speed_limit ops u n)) n p
  modify-Sets t p n has =
      let u = set_speed_limit ops (t.states p) n in
      record {
        has =
            put-HasLimiter t.states p u has (set_speed_limit-HasLimiter ops n (t.states p) (has p));
        allowed =
            subst (LimitedTo ops n) (sym (put_self t.states p u))
              (set_speed_limit-LimitedTo ops n (t.states p) (has p));
        others = λ q ne below. put_ne t.states p u q (λ e. ne (sym e));
      }

  pub serve_user-Sets :
      (t : Table ops.Limiter) (user : User)
      → HasLimiters t
      → let (t', p) = serve_user ops node_limit previous t user in Sets t t' (limit_for user) p
  unfolding serve_user allocate
  serve_user-Sets t user has = elim (Option-cases (lookup ℤ_discrete user.id previous)) [
    | inl e ↦
        let t1 : Table ops.Limiter = (allocate t (new_user_state user.id)).0 in
        let x =
          modify-Sets t1 t.next (limit_for user) (
            put-HasLimiter t.states t.next (new_user_state user.id) has (new-HasLimiter user.id)) in
        rw (e, serve_user)
          (record {
            has = x.has;
            allowed = x.allowed;
            others = λ q ne below.
                x.others q ne (omega arith)
                ∙ put_ne t.states t.next (new_user_state user.id) q (omega arith);
          })
    | inr (p, e) ↦ rw (e, serve_user) (modify-Sets t p (limit_for user) has)
  ]
