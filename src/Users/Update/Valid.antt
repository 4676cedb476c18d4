-- ===== src/Users/Update/Valid.antt =====
-- `update` keeps the table valid, and loses nothing of what is pending.
use native.Mathlib.Decide.{dec_lt}
use ne_xt_server.Users.Update.Frame.{serve_frame, retire-Extends, retire_keeps}
use ne_xt_server.Users.Pending.{
  IsValid, pending, tracked, Extends-IsBlank, Extends, Direction, Extends-trans, weight, IsServed,
  Extends-weight, weight_blank,
}
use ne_xt_server.Base.{
  ℕ, ◌≤◌, ◌≡◌, refl, ◌≢◌, inl, inr, some, List, [], ◌∷◌, arith, Option-cases, ap, All, ◌∙◌,
  All-mono, All-×, subst, sym,
}
use ne_xt_server.Adapter.{User}
use ne_xt_server.Base.Int.{ℤ, ℤ_discrete}
use ne_xt_server.Base.Assoc.{lookup, insert}
use ne_xt_server.Base.Sums.{
  sum, values, occurrences, one_at, sum-insert, left_out, sum-append, sum-ext,
}
use ne_xt_server.Base.Keys.{Distinct-lookup}
use ne_xt_server.Users.State.{LimiterOps}
use ne_xt_server.Users.Table.{Table, serve_user, serve, retire, update}
use ne_xt_server.Users.Update.Balance.{Entries, retire_frame, sum-retire, sum-update, serve_retired}

-- A pointer that does not occur among the values is at no key.
lookup_other :
    (q : ℕ) (k : ℤ) (p : ℕ) (m : Entries)
    → occurrences q (values ℤ_discrete m) ≡ 0
    → lookup ℤ_discrete k m ≡ some p
    → q ≢ p
unfolding lookup
lookup_other q k p [] h e = absurd (cc e)
lookup_other q k p ((j, r) ∷ m) h e = ground (arith, lookup_other q k p m)

left_out-le :
    (w : ℕ → ℕ) (next previous : Entries)
    → left_out ℤ_discrete w next previous ≤ sum w (values ℤ_discrete previous)
left_out-le w next [] = omega arith
left_out-le w next ((k, p) ∷ previous) = ground (arith, left_out-le w next previous)

module _ (ops : LimiterOps) (node_limit : ℕ) (previous : Entries) (q : ℕ) where
  serve_user_once :
      (t : Table ops.Limiter) (next : Entries) (user : User)
      → occurrences q (values ℤ_discrete previous) ≡ 0
      → (t.next ≤ q → occurrences q (values ℤ_discrete next) ≡ 0)
      → occurrences q (values ℤ_discrete next) ≤ 1
      → let (t', p) = serve_user ops node_limit previous t user in
        let next' = insert ℤ_discrete user.id p next in
        (t'.next ≤ q → occurrences q (values ℤ_discrete next') ≡ 0)
        × (occurrences q (values ℤ_discrete next') ≤ 1)
  unfolding serve_user
  serve_user_once t next user fresh free once =
      elim (Option-cases (lookup ℤ_discrete user.id previous)) [
        | inl e ↦
            rw (e, serve_user)
              (ground (arith, sum-insert ℤ_discrete (one_at q) user.id t.next next))
        | inr (p, e) ↦
            let other = lookup_other q user.id p previous fresh e in
            rw (e, serve_user) (ground (arith, sum-insert ℤ_discrete (one_at q) user.id p next))
      ]

  -- A pointer that is free at the start comes into the map at most once, and only when it is taken.
  serve_once :
      (t : Table ops.Limiter) (next : Entries) (users : List User)
      → occurrences q (values ℤ_discrete previous) ≡ 0
      → (t.next ≤ q → occurrences q (values ℤ_discrete next) ≡ 0)
      → occurrences q (values ℤ_discrete next) ≤ 1
      → let (t', next') = serve ops node_limit previous t next users in
        (t'.next ≤ q → occurrences q (values ℤ_discrete next') ≡ 0)
        × (occurrences q (values ℤ_discrete next') ≤ 1)
  unfolding serve
  serve_once t next [] fresh free once = (free, once)
  serve_once t next (user ∷ users) fresh free once =
      let t' = (serve_user ops node_limit previous t user).0 in
      let p = (serve_user ops node_limit previous t user).1 in
      let (a, b) = serve_user_once t next user fresh free once in
      serve_once t' (insert ℤ_discrete user.id p next) users fresh a b

module _ (ops : LimiterOps) (t : Table ops.Limiter) (users : List User) (node_limit : ℕ) where
  -- The map and the store after the first loop, and the table that `update` makes.
  abbrev pub map' : Entries
  map' = (serve ops node_limit t.current t [] users).1

  abbrev pub built : Table ops.Limiter
  built = record ((serve ops node_limit t.current t [] users).0) { current = map' }

  pub update_lem : update ops t users node_limit ≡ retire map' built t.current
  unfolding update
  update_lem = refl

  module _ (v : IsValid t) where
    built-Extends : Extends t built
    built-Extends =
        let x = (serve_frame ops node_limit t.current t [] users v.blank v.served tt tt).0 in
        record {
          grown = x.grown;
          same_upload = x.same_upload;
          same_download = x.same_download;
          same_id = x.same_id;
        }

    -- The states of the table are there after `update`, with the same counts and owners.
    pub update-Extends : Extends t (update ops t users node_limit)
    unfolding update
    update-Extends = Extends-trans t built _ built-Extends (retire-Extends map' built t.current)

    -- For every user and in both directions, `update` keeps what is pending, whoever comes, stays or
    -- leaves.
    pub pending-update :
        (d : Direction) (id : ℤ) → pending d id (update ops t users node_limit) ≡ pending d id t
    unfolding pending
    pending-update d id =
        sum-ext _ (weight d id t.states) (tracked (update ops t users node_limit))
          (Extends-weight d id t (update ops t users node_limit) update-Extends v.blank)
        ∙ sum-update ops (weight d id t.states) t users node_limit v.distinct
            (λ p h. weight_blank d id t.states p (v.blank p h))

    -- How often a pointer that was free is tracked after `update`.
    occurrences-update :
        (q : ℕ)
        → t.next ≤ q
        → occurrences q (tracked (update ops t users node_limit))
          ≡ occurrences q (values ℤ_discrete map')
    unfolding update
    occurrences-update q h =
        let done = retire map' built t.current in
        omega (
          arith,
          v.bounded q h,
          sum-append (one_at q) (values ℤ_discrete done.current) done.retired,
          sum-append (one_at q) (values ℤ_discrete t.current) t.retired,
          ap (λ m. sum (one_at q) (values ℤ_discrete m)) (retire_frame map' built t.current).0,
          sum-retire (one_at q) map' built t.current,
          ap (sum (one_at q)) (serve_retired ops node_limit t.current t [] users),
          left_out-le (one_at q) map' t.current,
        )

    map'_once :
        (q : ℕ)
        → t.next ≤ q
        → (built.next ≤ q → occurrences q (values ℤ_discrete map') ≡ 0)
          × (occurrences q (values ℤ_discrete map') ≤ 1)
    map'_once q h =
        serve_once ops node_limit t.current q t [] users
          (omega
            (arith, v.bounded q h, sum-append (one_at q) (values ℤ_discrete t.current) t.retired))
          (λ _. refl) (omega arith)

    update_once : (q : ℕ) → occurrences q (tracked (update ops t users node_limit)) ≤ 1
    update_once q = elim (dec_lt q t.next) [
      | yes below ↦ omega (
        arith,
        v.once q,
        sum-update ops (one_at q) t users node_limit v.distinct
            (λ p h. let r : q ≢ p = omega arith in ground arith),
      )
      | no above ↦ omega (arith, occurrences-update q (omega arith), (map'_once q (omega arith)).1)
    ]

    update_next : (update ops t users node_limit).next ≡ built.next
    unfolding update
    update_next = (retire_frame map' built t.current).1

    update_current : (update ops t users node_limit).current ≡ map'
    unfolding update
    update_current = (retire_frame map' built t.current).0

    update_served : All (IsServed (update ops t users node_limit)) map'
    unfolding update
    update_served =
        let (x, c, entries, keys) =
          serve_frame ops node_limit t.current t [] users v.blank v.served tt tt in
        let y = retire-Extends map' built t.current in
        let before =
          All-mono t.current (λ e s. (x.same_id e.1 s.2 ∙ s.0, omega (arith, x.grown))) v.served in
        All-mono map'
          (λ e s. (
            y.same_id e.1 s.0.2 ∙ s.0.0,
            retire_keeps map' built t.current e.0 e.1 before s.0.0 s.0.2 s.1 ∙ s.0.1,
            omega (arith, update_next),
          ))
          (All-× _ (λ e. lookup ℤ_discrete e.0 map' ≡ some e.1) map' entries
            (Distinct-lookup ℤ_discrete map' keys))

    -- `update` keeps the table valid.
    pub update-IsValid : IsValid (update ops t users node_limit)
    update-IsValid = record {
      once = update_once;
      bounded = λ q h. omega (
        arith,
        update_next,
        built-Extends.grown,
        occurrences-update q (omega (arith, update_next, built-Extends.grown)),
        (map'_once q (omega (arith, update_next, built-Extends.grown))).0,
      );
      blank = Extends-IsBlank t (update ops t users node_limit) update-Extends v.blank;
      distinct =
          rw update_current
            (serve_frame ops node_limit t.current t [] users v.blank v.served tt tt).3;
      served =
          subst (All (IsServed (update ops t users node_limit))) (sym update_current) update_served;
    }
