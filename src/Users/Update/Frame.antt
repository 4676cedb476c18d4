-- ===== src/Users/Update/Frame.antt =====
-- What the loops of `update` do to the states in the store: the counts, the owners, who is canceled.
use ne_xt_server.Base.{
  ℕ, ◌≤◌, ◌<◌, ◌≡◌, refl, sym, ap, ◌∙◌, ◌≢◌, inl, inr, Option, none, some, List, [], ◌∷◌, arith,
  Option-cases, All,
}
use ne_xt_server.Adapter.{User}
use ne_xt_server.Base.Int.{ℤ, ℤ_discrete}
use ne_xt_server.Base.{All-mono}
use ne_xt_server.Base.Assoc.{lookup, insert, lookup_All, insert_All}
use ne_xt_server.Base.Sums.{put_same, put_ne, put_self}
use ne_xt_server.Base.Keys.{Distinct, insert-Distinct}
use ne_xt_server.Users.State.{LimiterOps, UserState, set_speed_limit, new_user_state, cancel}
use ne_xt_server.Users.Table.{
  Table, modify, allocate, effective_limit, serve_user, serve, retire, retire_user,
}
use ne_xt_server.Users.Pending.{
  IsBlank, IsServed, Extends, Extends-refl, Extends-trans, Extends-IsBlank,
}
use ne_xt_server.Users.Update.Balance.{Entries}

-- A change of the limit leaves the account alone.
pub set_speed_limit_frame :
    (ops : LimiterOps) (u : UserState ops.Limiter) (n : ℕ)
    → ((set_speed_limit ops u n).id ≡ u.id)
      × ((set_speed_limit ops u n).upload ≡ u.upload)
      × ((set_speed_limit ops u n).download ≡ u.download)
      × ((set_speed_limit ops u n).canceled ≡ u.canceled)
unfolding set_speed_limit
set_speed_limit_frame ops u n = ground arith

-- A state that is taken is canceled in the second table exactly if it is in the first.
abbrev pub SameCanceled : {L : Type 0} → Table L → Table L → Type 0
SameCanceled t t' = (p : ℕ) → p < t.next → (t'.states p).canceled ≡ (t.states p).canceled

pub Extends-IsServed :
    {L : Type 0} (t t' : Table L)
    → Extends t t'
    → SameCanceled t t'
    → (e : ℤ × ℕ) → IsServed t e
    → IsServed t' e
Extends-IsServed t t' x same e (id, canceled, below) =
    (x.same_id e.1 below ∙ id, same e.1 below ∙ canceled, omega (arith, x.grown))

modify_frame :
    {L : Type 0} (t : Table L) (p : ℕ) (f : UserState L → UserState L)
    → ((f (t.states p)).id ≡ (t.states p).id)
      × ((f (t.states p)).upload ≡ (t.states p).upload)
      × ((f (t.states p)).download ≡ (t.states p).download)
    → Extends t (modify t p f)
modify_frame t p f (a, b, c) = record {
  grown = omega arith;
  same_upload = put_same (λ u. u.upload) t.states p (f (t.states p)) b;
  same_download = put_same (λ u. u.download) t.states p (f (t.states p)) c;
  same_id = λ q h. put_same (λ u. u.id) t.states p (f (t.states p)) a q;
}

allocate_frame :
    {L : Type 0} (t : Table L) (u : UserState L)
    → IsBlank u
    → IsBlank (t.states t.next)
    → Extends t (allocate t u).0 × SameCanceled t (allocate t u).0
unfolding allocate
allocate_frame t u (a, b) (c, d) = (
  record {
    grown = omega arith;
    same_upload = put_same (λ v. v.upload) t.states t.next u (a ∙ sym c);
    same_download = put_same (λ v. v.download) t.states t.next u (b ∙ sym d);
    same_id = λ q h. ap (λ v. v.id) (put_ne t.states t.next u q (omega arith));
  },
  λ q h. ap (λ v. v.canceled) (put_ne t.states t.next u q (omega arith)),
)

pub set_frame :
    (ops : LimiterOps) (t : Table ops.Limiter) (p n : ℕ)
    → let t' = modify t p (λ u. set_speed_limit ops u n) in Extends t t' × SameCanceled t t'
set_frame ops t p n =
    let (a, b, c, d) = set_speed_limit_frame ops (t.states p) n in
    (
      modify_frame t p (λ u. set_speed_limit ops u n) (a, b, c),
      λ q h. put_same (λ v. v.canceled) t.states p (set_speed_limit ops (t.states p) n) d q,
    )

-- A new state at a free pointer, with its limit set.
pub new_frame :
    (ops : LimiterOps) (t : Table ops.Limiter) (id : ℤ) (n : ℕ)
    → IsBlank (t.states t.next)
    → let t' = modify (allocate t (new_user_state id)).0 t.next (λ u. set_speed_limit ops u n) in
      Extends t t' × SameCanceled t t' × IsServed t' (id, t.next)
unfolding allocate new_user_state
new_frame ops t id n blank =
    let t1 : Table ops.Limiter = (allocate t (new_user_state id)).0 in
    let t2 : Table ops.Limiter = modify t1 t.next (λ u. set_speed_limit ops u n) in
    let (x, c) = allocate_frame t (new_user_state id) (refl, refl) blank in
    let (y, d) = set_frame ops t1 t.next n in
    let made = put_self t.states t.next (new_user_state id) in
    (
      Extends-trans t t1 t2 x y,
      λ q h. d q (omega arith) ∙ c q h,
      Extends-IsServed t1 t2 y d (id, t.next)
          (ap (λ u. u.id) made, ap (λ u. u.canceled) made, omega arith),
    )

module _ (ops : LimiterOps) (node_limit : ℕ) (previous : Entries) where
  -- One round keeps what is served, and serves its user by the state of that user.
  pub serve_user_frame :
      (t : Table ops.Limiter) (user : User)
      → ((p : ℕ) → t.next ≤ p → IsBlank (t.states p))
      → All (IsServed t) previous
      → let t' = (serve_user ops node_limit previous t user).0 in
        Extends t t'
        × SameCanceled t t'
        × IsServed t' (user.id, (serve_user ops node_limit previous t user).1)
  unfolding serve_user
  serve_user_frame t user blank served = elim (Option-cases (lookup ℤ_discrete user.id previous)) [
    | inl e ↦
        rw (e, serve_user)
          (new_frame ops t user.id (effective_limit node_limit user.speed_limit)
            (blank t.next (omega arith)))
    | inr (p, e) ↦
        let n = effective_limit node_limit user.speed_limit in
        let (x, c) = set_frame ops t p n in
        rw (e, serve_user)
          (
            x,
            c,
            Extends-IsServed t (modify t p (λ u. set_speed_limit ops u n)) x c (user.id, p)
                (lookup_All ℤ_discrete (IsServed t) user.id p previous served e),
          )
  ]

  -- What the first loop does to the store, and what it leaves in its map.
  pub serve_frame :
      (t : Table ops.Limiter) (next : Entries) (users : List User)
      → ((p : ℕ) → t.next ≤ p → IsBlank (t.states p))
      → All (IsServed t) previous
      → All (IsServed t) next
      → Distinct ℤ_discrete next
      → let (t', next') = serve ops node_limit previous t next users in
        Extends t t' × SameCanceled t t' × All (IsServed t') next' × Distinct ℤ_discrete next'
  unfolding serve
  serve_frame t next [] blank served all distinct = (Extends-refl t, λ q h. refl, all, distinct)
  serve_frame t next (user ∷ users) blank served all distinct =
      let t' = (serve_user ops node_limit previous t user).0 in
      let p = (serve_user ops node_limit previous t user).1 in
      let (x, c, here) = serve_user_frame t user blank served in
      let still = Extends-IsServed t t' x c in
      let (y, d, entries, keys) =
        serve_frame t' (insert ℤ_discrete user.id p next) users (Extends-IsBlank t t' x blank)
          (All-mono previous still served)
          (insert_All ℤ_discrete (IsServed t') user.id p next here (All-mono next still all))
          (insert-Distinct ℤ_discrete user.id p next distinct) in
      (Extends-trans t t' _ x y, λ q h. d q (omega (arith, x.grown)) ∙ c q h, entries, keys)

pub cancel_frame : {L : Type 0} (t : Table L) (p : ℕ) (o : Option ℕ) → Extends t (retire_user t p o)
unfolding retire_user
cancel_frame t p none =
    let x = modify_frame t p cancel (refl, refl, refl) in
    record {
      grown = omega arith;
      same_upload = x.same_upload;
      same_download = x.same_download;
      same_id = x.same_id;
    }
cancel_frame t p (some q) = Extends-refl t

pub retire-Extends :
    {L : Type 0} (next : Entries) (t : Table L) (previous : Entries)
    → Extends t (retire next t previous)
unfolding retire
retire-Extends next t [] = Extends-refl t
retire-Extends next t ((id, p) ∷ previous) =
    let t' = retire_user t p (lookup ℤ_discrete id next) in
    Extends-trans t t' _ (cancel_frame t p (lookup ℤ_discrete id next))
      (retire-Extends next t' previous)

-- Canceling one state leaves the others as they are.
retire_user_other :
    {L : Type 0} (t : Table L) (p q : ℕ) (o : Option ℕ)
    → (o ≡ none → p ≢ q)
    → ((retire_user t p o).states q).canceled ≡ (t.states q).canceled
unfolding retire_user
retire_user_other t p q none h =
    ap (λ u. u.canceled) (put_ne t.states p (cancel (t.states p)) q (h refl))
retire_user_other t p q (some _) h = refl

-- A state that the new map has is not canceled by the second loop: an entry that is left out has
-- another ID.
pub retire_keeps :
    {L : Type 0} (next : Entries) (t : Table L) (previous : Entries) (id : ℤ) (p : ℕ)
    → All (λ e. ((t.states e.1).id ≡ e.0) × (e.1 < t.next)) previous
    → (t.states p).id ≡ id
    → p < t.next
    → lookup ℤ_discrete id next ≡ some p
    → ((retire next t previous).states p).canceled ≡ (t.states p).canceled
unfolding retire
retire_keeps next t [] id p named own below h = refl
retire_keeps next t ((j, q) ∷ previous) id p named own below h =
    let o = lookup ℤ_discrete j next in
    let t' = retire_user t q o in
    let x = cancel_frame t q o in
    retire_keeps next t' previous id p
      (All-mono previous (λ e k. (x.same_id e.1 k.1 ∙ k.0, omega (arith, x.grown))) named.1)
      (x.same_id p below ∙ own) (omega (arith, x.grown)) h
    ∙ retire_user_other t q p o (λ missing same.
      let e : id ≡ j = sym own ∙ ap (λ r. (t.states r).id) (sym same) ∙ named.0.0 in
      let gone : lookup ℤ_discrete id next ≡ none = rw e missing in absurd (cc gone))
