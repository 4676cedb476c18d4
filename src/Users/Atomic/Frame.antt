-- ===== src/Users/Atomic/Frame.antt =====
-- What every atomic step keeps: users' IDs, and that pointers are to states that were made.
use ne_xt_server.Users.Atomic.{
  Phase, resting, serving, served_up, retiring, retired_up, checking, restoring, missing, adding,
  adding_down,
}
use ne_xt_server.Adapter.{User}
use ne_xt_server.Base.Assoc.{lookup, lookup_All, insert, insert_All}
use ne_xt_server.Base.Int.{ℤ, ℤ_discrete}
use ne_xt_server.Base.Sums.{put_same, put_ne, values}
use ne_xt_server.Users.State.{LimiterOps, UserState}
use ne_xt_server.Users.Pending.{IsBlank, Extends, Extends-refl, Extends-trans, Extends-IsBlank}
use ne_xt_server.Users.Table.{Table, modify, serve, serve_user, effective_limit}
use ne_xt_server.Users.Update.Frame.{set_frame, new_frame}
use ne_xt_server.Base.{
  ℕ, ◌≤◌, ◌<◌, ◌≡◌, refl, sym, subst, ◌∙◌, inl, inr, Option, none, some, List, [], ◌∷◌, arith, All,
  All-mono, Option-cases,
}

module _ {L : Type 0} where
  -- An entry of a map: the state was made, and for this ID.
  abbrev pub IsOwned : Table L → ℤ × ℕ → Type 0
  IsOwned t e = ((t.states e.1).id ≡ e.0) × (e.1 < t.next)

  abbrev pub IsMade : Table L → ℕ → Type 0
  IsMade t p = p < t.next

  abbrev pub IsBounded : Table L → Phase → Type 0
  IsBounded t (serving todo) = All (IsMade t) todo
  IsBounded t (served_up p up todo) = IsMade t p × All (IsMade t) todo
  IsBounded t (retiring todo kept) = All (IsMade t) todo × All (IsMade t) kept
  IsBounded t (retired_up p up todo kept) = IsMade t p × All (IsMade t) todo × All (IsMade t) kept
  IsBounded t (checking p todo kept) = IsMade t p × All (IsMade t) todo × All (IsMade t) kept
  IsBounded t (adding p item items) = IsOwned t (item.user_id, p)
  IsBounded t (adding_down p item items) = IsOwned t (item.user_id, p)
  IsBounded t _ = Unit

  abbrev pub IsPulled : Table L → Option (List (ℤ × ℕ) × List (ℤ × ℕ)) → Type 0
  IsPulled t none = Unit
  IsPulled t (some maps) = All (IsOwned t) maps.1

  -- States stay, and keep their IDs.
  pub record Grows (t t' : Table L) : Type 0 where
    pub grown : t.next ≤ t'.next
    pub same_id : (p : ℕ) → p < t.next → (t'.states p).id ≡ (t.states p).id

  pub Extends-Grows : (t t' : Table L) → Extends t t' → Grows t t'
  Extends-Grows t t' x = record { grown = x.grown; same_id = x.same_id }

  module _ (t t' : Table L) (g : Grows t t') where
    pub grown-IsOwned : (e : ℤ × ℕ) → IsOwned t e → IsOwned t' e
    grown-IsOwned e (same, made) = (g.same_id e.1 made ∙ same, omega (arith, g.grown))

    pub grown-IsMade : (p : ℕ) → IsMade t p → IsMade t' p
    grown-IsMade p made = omega (arith, g.grown)

    all-IsMade : (ps : List ℕ) → All (IsMade t) ps → All (IsMade t') ps
    all-IsMade ps = All-mono ps grown-IsMade

    pub grown-IsBounded : (phase : Phase) → IsBounded t phase → IsBounded t' phase
    grown-IsBounded resting h = tt
    grown-IsBounded (serving todo) h = all-IsMade todo h
    grown-IsBounded (served_up p up todo) (a, b) = (grown-IsMade p a, all-IsMade todo b)
    grown-IsBounded (retiring todo kept) (a, b) = (all-IsMade todo a, all-IsMade kept b)
    grown-IsBounded (retired_up p up todo kept) (a, b, c) =
        (grown-IsMade p a, all-IsMade todo b, all-IsMade kept c)
    grown-IsBounded (checking p todo kept) (a, b, c) =
        (grown-IsMade p a, all-IsMade todo b, all-IsMade kept c)
    grown-IsBounded (restoring items) h = tt
    grown-IsBounded (missing item items) h = tt
    grown-IsBounded (adding p item items) h = grown-IsOwned (item.user_id, p) h
    grown-IsBounded (adding_down p item items) h = grown-IsOwned (item.user_id, p) h

    pub grown-IsPulled : (o : Option (List (ℤ × ℕ) × List (ℤ × ℕ))) → IsPulled t o → IsPulled t' o
    grown-IsPulled none h = tt
    grown-IsPulled (some maps) h = All-mono (maps.1) grown-IsOwned h

  -- The frame of a world: all but its account.
  pub record Frame (t : Table L) (phase : Phase) (pulling : Option (List (ℤ × ℕ) × List (ℤ × ℕ)))
      : Type 0 where
    pub blank : (p : ℕ) → t.next ≤ p → IsBlank (t.states p)
    pub current : All (IsOwned t) t.current
    pub retired : All (IsMade t) t.retired
    pub bounded : IsBounded t phase
    pub pulled : IsPulled t pulling

  -- A change of the table that leaves its lists alone.
  pub grown-Frame :
      (t t' : Table L) (phase : Phase) (pulling : Option (List (ℤ × ℕ) × List (ℤ × ℕ)))
      → Grows t t'
      → ((p : ℕ) → t'.next ≤ p → IsBlank (t'.states p))
      → t'.current ≡ t.current
      → t'.retired ≡ t.retired
      → Frame t phase pulling
      → Frame t' phase pulling
  grown-Frame t t' phase pulling g blank same same' f = record {
    blank = blank;
    current =
        subst (All (IsOwned t')) (sym same) (All-mono t.current (grown-IsOwned t t' g) f.current);
    retired =
        subst (All (IsMade t')) (sym same') (All-mono t.retired (grown-IsMade t t' g) f.retired);
    bounded = grown-IsBounded t t' g phase f.bounded;
    pulled = grown-IsPulled t t' g pulling f.pulled;
  }

  pub modify-Grows :
      (t : Table L) (p : ℕ) (f : UserState L → UserState L)
      → (f (t.states p)).id ≡ (t.states p).id
      → Grows t (modify t p f)
  modify-Grows t p f same = record {
    grown = omega arith;
    same_id = λ q h. put_same (λ u. u.id) t.states p (f (t.states p)) same q;
  }

  -- A change of the counters of a state that was made.
  pub modify-Frame :
      (t : Table L) (phase : Phase) (pulling : Option (List (ℤ × ℕ) × List (ℤ × ℕ))) (p : ℕ)
      (f : UserState L → UserState L)
      → (f (t.states p)).id ≡ (t.states p).id
      → p < t.next
      → Frame t phase pulling
      → Frame (modify t p f) phase pulling
  modify-Frame t phase pulling p f same made k =
      grown-Frame t (modify t p f) phase pulling (modify-Grows t p f same)
        (λ q h.
          subst IsBlank (sym (put_ne t.states p (f (t.states p)) q (λ e. absurd (omega arith))))
            (k.blank q h))
        refl refl k

  pub values-IsMade :
      (t : Table L) (m : List (ℤ × ℕ)) → All (IsOwned t) m → All (IsMade t) (values ℤ_discrete m)
  values-IsMade t [] h = tt
  values-IsMade t (e ∷ m) (h, k) = (h.1, values-IsMade t m k)

-- The first loop of `update`, whatever states the previous map has.
module _ (ops : LimiterOps) (node_limit : ℕ) (previous : List (ℤ × ℕ)) where
  serve_user_grows :
      (t : Table ops.Limiter) (user : User)
      → ((p : ℕ) → t.next ≤ p → IsBlank (t.states p))
      → All (IsOwned t) previous
      → let t' = (serve_user ops node_limit previous t user).0 in
        Extends t t' × IsOwned t' (user.id, (serve_user ops node_limit previous t user).1)
  unfolding serve_user
  serve_user_grows t user blank owned =
      let n = effective_limit node_limit user.speed_limit in
      elim (Option-cases (lookup ℤ_discrete user.id previous)) [
        | inl e ↦
            let (x, c, made) = new_frame ops t user.id n (blank t.next (omega arith)) in
            rw (e, serve_user) (x, (made.0, made.2))
        | inr (p, e) ↦
            let (x, c) = set_frame ops t p n in
            rw (e, serve_user)
              (
                x,
                grown-IsOwned t _ (Extends-Grows t _ x) (user.id, p)
                    (lookup_All ℤ_discrete (IsOwned t) user.id p previous owned e),
              )
      ]

  pub serve_grows :
      (t : Table ops.Limiter) (next : List (ℤ × ℕ)) (users : List User)
      → ((p : ℕ) → t.next ≤ p → IsBlank (t.states p))
      → All (IsOwned t) previous
      → All (IsOwned t) next
      → let (t', next') = serve ops node_limit previous t next users in
        Extends t t' × All (IsOwned t') next'
  unfolding serve
  serve_grows t next [] blank owned all = (Extends-refl t, all)
  serve_grows t next (user ∷ users) blank owned all =
      let t' = (serve_user ops node_limit previous t user).0 in
      let p = (serve_user ops node_limit previous t user).1 in
      let (x, here) = serve_user_grows t user blank owned in
      let g = Extends-Grows t t' x in
      let (y, entries) =
        serve_grows t' (insert ℤ_discrete user.id p next) users (Extends-IsBlank t t' x blank)
          (All-mono previous (grown-IsOwned t t' g) owned)
          (insert_All ℤ_discrete (IsOwned t') user.id p next here
            (All-mono next (grown-IsOwned t t' g) all)) in
      (Extends-trans t t' _ x y, entries)
