-- ===== src/Users/Update/Served.antt =====
-- The loops of `update`, followed for one ID.

use ne_xt_server.Base.{
  ℕ, ◌≤◌, ◌<◌, ◌≡◌, refl, ap, subst, ◌⊎◌, inl, inr, ite, Bool, true, false, Option, none, some,
  List, [], ◌∷◌, arith, if◌then◌else◌, Option-cases,
}
use ne_xt_server.Adapter.{User}
use ne_xt_server.Base.Int.{ℤ, ℤ_discrete}
use ne_xt_server.Base.Assoc.{lookup, insert, lookup-insert}
use ne_xt_server.Base.Sums.{occurrences, sum-append, put_self, one_at}
use ne_xt_server.Users.State.{LimiterOps, cancel}
use ne_xt_server.Users.Table.{Table, serve_user, serve, retire, retire_user, modify}
use ne_xt_server.Users.Update.Balance.{Entries, sum-retire}

-- The user list has the ID.
unfoldable pub is_listed : ℤ → List User → Bool
is_listed id [] = false
is_listed id (user ∷ users) = ite (ℤ_discrete user.id id) true (is_listed id users)

module _ (ops : LimiterOps) (node_limit : ℕ) (previous : Entries) where
  -- A user with a previous state is served by it.
  serve_user_kept :
      (t : Table ops.Limiter) (user : User) (p : ℕ)
      → lookup ℤ_discrete user.id previous ≡ some p
      → (serve_user ops node_limit previous t user).1 ≡ p
  unfolding serve_user
  serve_user_kept t user p h = rw (h, serve_user)

  -- A user without one gets a free pointer.
  serve_user_new :
      (t : Table ops.Limiter) (user : User)
      → lookup ℤ_discrete user.id previous ≡ none
      → (serve_user ops node_limit previous t user).1 ≡ t.next
  unfolding serve_user
  serve_user_new t user h = rw (h, serve_user)

  serve_user_grown :
      (t : Table ops.Limiter) (user : User)
      → t.next ≤ (serve_user ops node_limit previous t user).0.next
  unfolding serve_user
  serve_user_grown t user = elim (Option-cases (lookup ℤ_discrete user.id previous)) [
    | inl e ↦ rw (e, serve_user) (omega arith)
    | inr (p, e) ↦ rw (e, serve_user) (omega arith)
  ]

  pub serve_unlisted :
      (id : ℤ) (t : Table ops.Limiter) (next : Entries) (users : List User)
      → is_listed id users ≡ false
      → lookup ℤ_discrete id (serve ops node_limit previous t next users).1
        ≡ lookup ℤ_discrete id next
  unfolding serve is_listed
  serve_unlisted id t next [] h = refl
  serve_unlisted id t next (user ∷ users) h =
      let p = (serve_user ops node_limit previous t user).1 in
      ground (
        arith,
        serve_unlisted id (serve_user ops node_limit previous t user).0
            (insert ℤ_discrete user.id p next) users,
        lookup-insert ℤ_discrete user.id id p next,
      )

  -- An ID with a previous state: the first loop gives it that state, if it is listed.
  pub serve_kept :
      (id : ℤ) (p : ℕ) (t : Table ops.Limiter) (next : Entries) (users : List User)
      → lookup ℤ_discrete id previous ≡ some p
      → (lookup ℤ_discrete id next ≡ none) ⊎ (lookup ℤ_discrete id next ≡ some p)
      → lookup ℤ_discrete id (serve ops node_limit previous t next users).1
        ≡ (if is_listed id users then some p else lookup ℤ_discrete id next)
  unfolding serve is_listed
  serve_kept id p t next [] h known = refl
  serve_kept id p t next (user ∷ users) h known =
      let t' = (serve_user ops node_limit previous t user).0 in
      let q = (serve_user ops node_limit previous t user).1 in
      elim (ℤ_discrete user.id id) [
        | yes same ↦
            let own : q ≡ p = serve_user_kept t user p (rw same h) in
            ground (
              arith,
              serve_kept id p t' (insert ℤ_discrete user.id q next) users,
              lookup-insert ℤ_discrete user.id id q next,
            )
        | no ne ↦ ground (
          arith,
          serve_kept id p t' (insert ℤ_discrete user.id q next) users,
          lookup-insert ℤ_discrete user.id id q next,
        )
      ]

  -- A listed ID without a previous state gets a pointer that was free.
  pub serve_new :
      (id : ℤ) (base : ℕ) (t : Table ops.Limiter) (next : Entries) (users : List User)
      → lookup ℤ_discrete id previous ≡ none
      → base ≤ t.next
      → (is_listed id users ≡ true) ⊎ ((q : ℕ) × (lookup ℤ_discrete id next ≡ some q) × (base ≤ q))
      → (q : ℕ) × (lookup ℤ_discrete id (serve ops node_limit previous t next users).1 ≡ some q)
        × (base ≤ q)
  unfolding serve is_listed
  serve_new id base t next [] h low (inl listed) = absurd (cc listed)
  serve_new id base t next [] h low (inr found) = found
  serve_new id base t next (user ∷ users) h low known =
      let t' = (serve_user ops node_limit previous t user).0 in
      let q = (serve_user ops node_limit previous t user).1 in
      let grown : base ≤ t'.next = omega (arith, serve_user_grown t user) in
      serve_new id base t' (insert ℤ_discrete user.id q next) users h grown
        (elim (ℤ_discrete user.id id) [
          | yes same ↦
              let own : q ≡ t.next = serve_user_new t user (rw same h) in
              inr (q, ground (arith, lookup-insert ℤ_discrete user.id id q next), omega arith)
          | no ne ↦ elim known [
            | inl listed ↦ inl (ground arith)
            | inr (r, found, above) ↦
                inr (r, ground (arith, lookup-insert ℤ_discrete user.id id q next), above)
          ]
        ])

retire_monotone :
    {L : Type 0} (next : Entries) (t : Table L) (previous : Entries) (p : ℕ)
    → (t.states p).canceled ≡ true
    → ((retire next t previous).states p).canceled ≡ true
unfolding retire
retire_monotone next t [] p h = h
retire_monotone next t ((id, q) ∷ previous) p h =
    let o = lookup ℤ_discrete id next in
    retire_monotone next (retire_user t q o) previous p (
      unfold retire_user in
      elim o as (λ x. ((retire_user t q x).states p).canceled ≡ true) [
        | none ↦ ground arith
        | some r ↦ h
      ])

put_canceled : {L : Type 0} (t : Table L) (p : ℕ) → ((modify t p cancel).states p).canceled ≡ true
put_canceled t p = ap (λ u. u.canceled) (put_self t.states p (cancel (t.states p)))

-- What is retired stays retired through the second loop.
retire_grows :
    {L : Type 0} (next : Entries) (t : Table L) (previous : Entries) (p : ℕ)
    → 0 < occurrences p t.retired
    → 0 < occurrences p (retire next t previous).retired
retire_grows next t previous p h = omega (arith, sum-retire (one_at p) next t previous)

retire_user_cancels :
    {L : Type 0} (t : Table L) (p : ℕ) (o : Option ℕ)
    → o ≡ none
    → (((retire_user t p o).states p).canceled ≡ true)
      × (0 < occurrences p (retire_user t p o).retired)
unfolding retire_user
retire_user_cancels t p none h =
    (put_canceled t p, ground (arith, sum-append (one_at p) t.retired (p ∷ [])))
retire_user_cancels t p (some q) h = absurd (cc h)

-- A previous entry whose ID the new map lacks ends up canceled, and on the retired list.
pub retire_cancels :
    {L : Type 0} (next : Entries) (t : Table L) (previous : Entries) (id : ℤ) (p : ℕ)
    → lookup ℤ_discrete id previous ≡ some p
    → lookup ℤ_discrete id next ≡ none
    → (((retire next t previous).states p).canceled ≡ true)
      × (0 < occurrences p (retire next t previous).retired)
unfolding lookup retire
retire_cancels next t [] id p h gone = absurd (cc h)
retire_cancels next t ((j, q) ∷ previous) id p h gone =
    let o = lookup ℤ_discrete j next in
    let t' = retire_user t q o in
    elim (ℤ_discrete j id) [
      | yes same ↦
          let e : q ≡ p = ground arith in
          let (canceled, listed) = retire_user_cancels t q o (rw same gone) in
          subst
            (λ r.
              (((retire next t' previous).states r).canceled ≡ true)
              × (0 < occurrences r (retire next t' previous).retired))
            e (retire_monotone next t' previous q canceled, retire_grows next t' previous q listed)
      | no ne ↦ retire_cancels next t' previous id p (ground arith) gone
    ]
