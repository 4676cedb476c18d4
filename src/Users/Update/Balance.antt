-- ===== src/Users/Update/Balance.antt =====
-- `update` moves pointers between the map and the retired list: for every weight of pointers that is
-- 0 at free ones, the tracked states weigh as much after it as before.
use ne_xt_server.Base.{
  ℕ, ◌+◌, ◌≤◌, ◌≡◌, refl, ap, ◌∙◌, inl, inr, Option, none, some, List, [], ◌∷◌, arith, Option-cases,
}
use ne_xt_server.Adapter.{User}
use ne_xt_server.Base.Int.{ℤ, ℤ_discrete}
use ne_xt_server.Base.Assoc.{lookup, insert, lookup-insert}
use ne_xt_server.Base.Sums.{
  sum, values, weight_of, left_out, sum-insert, left_out-insert, sum-append, if_missing,
}
use ne_xt_server.Base.Keys.{Distinct}
use ne_xt_server.Users.Pending.{tracked}
use ne_xt_server.Users.State.{LimiterOps}
use ne_xt_server.Users.Table.{Table, serve, retire, retire_user, serve_user, update}

abbrev pub Entries : Type 0
Entries = List (ℤ × ℕ)

-- The values of `next` weigh what the values of `previous` weigh at the same keys.
abbrev Agree : (ℕ → ℕ) → Entries → Entries → Type 0
Agree w previous next =
    (k : ℤ) (p : ℕ)
    → lookup ℤ_discrete k next ≡ some p
    → w p ≡ weight_of ℤ_discrete w (lookup ℤ_discrete k previous)

left_out-nil :
    (w : ℕ → ℕ) (previous : Entries)
    → left_out ℤ_discrete w [] previous ≡ sum w (values ℤ_discrete previous)
unfolding lookup
left_out-nil w [] = refl
left_out-nil w ((k, p) ∷ previous) = omega (arith, left_out-nil w previous)

module _ (w : ℕ → ℕ) (previous : Entries) where
  insert-Agree :
      (k : ℤ) (p : ℕ) (next : Entries)
      → Agree w previous next
      → w p ≡ weight_of ℤ_discrete w (lookup ℤ_discrete k previous)
      → Agree w previous (insert ℤ_discrete k p next)
  insert-Agree k p next agree e j q h = ground (
    arith,
    lookup-insert ℤ_discrete k j p next,
    agree j q,
    λ (same : k ≡ j). ap (λ x. weight_of ℤ_discrete w (lookup ℤ_discrete x previous)) same,
  )

  insert_balance :
      (k : ℤ) (p : ℕ) (next : Entries)
      → Distinct ℤ_discrete previous
      → Agree w previous next
      → w p ≡ weight_of ℤ_discrete w (lookup ℤ_discrete k previous)
      → sum w (values ℤ_discrete (insert ℤ_discrete k p next))
          + left_out ℤ_discrete w (insert ℤ_discrete k p next) previous
        ≡ sum w (values ℤ_discrete next) + left_out ℤ_discrete w next previous
  insert_balance k p next distinct agree e = elim (Option-cases (lookup ℤ_discrete k next)) [
    | inl missing ↦ ground (
      arith,
      sum-insert ℤ_discrete w k p next,
      left_out-insert ℤ_discrete w k p next previous distinct,
    )
    | inr (q, found) ↦ ground (
      arith,
      sum-insert ℤ_discrete w k p next,
      left_out-insert ℤ_discrete w k p next previous distinct,
      agree k q found,
    )
  ]

  module _ (ops : LimiterOps) (node_limit : ℕ) where
    -- The pointer that serves a user weighs what the previous one did: a new one is free.
    serve_user_weight :
        (t : Table ops.Limiter) (user : User)
        → ((p : ℕ) → t.next ≤ p → w p ≡ 0)
        → (w (serve_user ops node_limit previous t user).1
            ≡ weight_of ℤ_discrete w (lookup ℤ_discrete user.id previous))
          × (t.next ≤ (serve_user ops node_limit previous t user).0.next)
    unfolding serve_user
    serve_user_weight t user free = elim (Option-cases (lookup ℤ_discrete user.id previous)) [
      | inl e ↦ rw (e, serve_user) (free t.next (omega arith), omega arith)
      | inr (p, e) ↦ rw (e, serve_user) (refl, omega arith)
    ]

    pub serve_balance :
        (t : Table ops.Limiter) (next : Entries) (users : List User)
        → Distinct ℤ_discrete previous
        → ((p : ℕ) → t.next ≤ p → w p ≡ 0)
        → Agree w previous next
        → let next' = (serve ops node_limit previous t next users).1 in
          sum w (values ℤ_discrete next') + left_out ℤ_discrete w next' previous
          ≡ sum w (values ℤ_discrete next) + left_out ℤ_discrete w next previous
    unfolding serve
    serve_balance t next [] distinct free agree = refl
    serve_balance t next (user ∷ users) distinct free agree =
        let (e, grown) = serve_user_weight t user free in
        let p = (serve_user ops node_limit previous t user).1 in
        serve_balance (serve_user ops node_limit previous t user).0
          (insert ℤ_discrete user.id p next) users distinct (λ q h. free q (omega arith))
          (insert-Agree user.id p next agree e)
        ∙ insert_balance user.id p next distinct agree e

sum-retire_user :
    {L : Type 0} (w : ℕ → ℕ) (t : Table L) (p : ℕ) (o : Option ℕ)
    → sum w (retire_user t p o).retired ≡ sum w t.retired + if_missing ℤ_discrete o (w p)
unfolding retire_user
sum-retire_user w t p none = omega (arith, sum-append w t.retired (p ∷ []))
sum-retire_user w t p (some q) = omega arith

pub sum-retire :
    {L : Type 0} (w : ℕ → ℕ) (next : Entries) (t : Table L) (previous : Entries)
    → sum w (retire next t previous).retired ≡ sum w t.retired + left_out ℤ_discrete w next previous
unfolding retire
sum-retire w next t [] = omega arith
sum-retire w next t ((id, p) ∷ previous) = omega (
  arith,
  sum-retire w next (retire_user t p (lookup ℤ_discrete id next)) previous,
  sum-retire_user w t p (lookup ℤ_discrete id next),
)

-- The second loop leaves the map and the free pointers alone.
retire_user_frame :
    {L : Type 0} (t : Table L) (p : ℕ) (o : Option ℕ)
    → ((retire_user t p o).current ≡ t.current) × ((retire_user t p o).next ≡ t.next)
unfolding retire_user
retire_user_frame t p none = (refl, refl)
retire_user_frame t p (some q) = (refl, refl)

pub retire_frame :
    {L : Type 0} (next : Entries) (t : Table L) (previous : Entries)
    → ((retire next t previous).current ≡ t.current) × ((retire next t previous).next ≡ t.next)
unfolding retire
retire_frame next t [] = (refl, refl)
retire_frame next t ((id, p) ∷ previous) =
    let o = lookup ℤ_discrete id next in
    let (c, n) = retire_user_frame t p o in
    let (c', n') = retire_frame next (retire_user t p o) previous in (c' ∙ c, n' ∙ n)

serve_user_retired :
    (ops : LimiterOps) (node_limit : ℕ) (previous : Entries) (t : Table ops.Limiter) (user : User)
    → (serve_user ops node_limit previous t user).0.retired ≡ t.retired
unfolding serve_user
serve_user_retired ops node_limit previous t user =
    elim (Option-cases (lookup ℤ_discrete user.id previous)) [
      | inl e ↦ rw (e, serve_user)
      | inr (p, e) ↦ rw (e, serve_user)
    ]

-- The first loop leaves the retired list alone.
pub serve_retired :
    (ops : LimiterOps) (node_limit : ℕ) (previous : Entries) (t : Table ops.Limiter)
    (next : Entries) (users : List User)
    → (serve ops node_limit previous t next users).0.retired ≡ t.retired
unfolding serve
serve_retired ops node_limit previous t next [] = refl
serve_retired ops node_limit previous t next (user ∷ users) =
    serve_retired ops node_limit previous (serve_user ops node_limit previous t user).0
      (insert ℤ_discrete user.id (serve_user ops node_limit previous t user).1 next) users
    ∙ serve_user_retired ops node_limit previous t user

-- `update` keeps the weight of what is tracked.
pub sum-update :
    (ops : LimiterOps) (w : ℕ → ℕ) (t : Table ops.Limiter) (users : List User) (node_limit : ℕ)
    → Distinct ℤ_discrete t.current
    → ((p : ℕ) → t.next ≤ p → w p ≡ 0)
    → sum w (tracked (update ops t users node_limit)) ≡ sum w (tracked t)
unfolding update
sum-update ops w t users node_limit distinct free =
    let served = serve ops node_limit t.current t [] users in
    let built = record (served.0) { current = served.1 } in
    let done = retire served.1 built t.current in
    omega (
      arith,
      sum-append w (values ℤ_discrete done.current) done.retired,
      sum-append w (values ℤ_discrete t.current) t.retired,
      ap (λ m. sum w (values ℤ_discrete m)) (retire_frame served.1 built t.current).0,
      sum-retire w served.1 built t.current,
      ap (sum w) (serve_retired ops node_limit t.current t [] users),
      serve_balance w t.current ops node_limit t [] users distinct free
          (λ k p h. unfold lookup in cc),
      left_out-nil w t.current,
    )
