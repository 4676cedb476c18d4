-- ===== src/Users/Update/Outcome.antt =====
-- Whom the table serves after `update`, and by which state.
use ne_xt_server.Users.Update.Served.{
  is_listed, serve_unlisted, serve_new, serve_kept, retire_cancels,
}
use ne_xt_server.Users.Update.Valid.{update-Extends, update-IsValid}
use ne_xt_server.Base.{
  ℕ, ◌≤◌, ◌<◌, ◌≡◌, refl, ap, ◌∙◌, inl, true, false, none, some, List, [], arith,
}
use ne_xt_server.Adapter.{User}
use ne_xt_server.Base.Int.{ℤ, ℤ_discrete}
use ne_xt_server.Base.Assoc.{lookup, lookup_All}
use ne_xt_server.Base.Sums.{occurrences}
use ne_xt_server.Users.State.{LimiterOps}
use ne_xt_server.Users.Table.{Table, serve, update, get}
use ne_xt_server.Users.Pending.{IsValid, IsBlank, IsServed}
use ne_xt_server.Users.Update.Balance.{retire_frame}

module _ (ops : LimiterOps) (t : Table ops.Limiter) (users : List User) (node_limit : ℕ)
    (v : IsValid t) where
  pub get-update :
      (id : ℤ)
      → get (update ops t users node_limit) id
        ≡ lookup ℤ_discrete id (serve ops node_limit t.current t [] users).1
  unfolding get update
  get-update id = ap (lookup ℤ_discrete id) (retire_frame _ _ t.current).0

  lookup-nil : (id : ℤ) → lookup {V = ℕ} ℤ_discrete id [] ≡ none
  unfolding lookup
  lookup-nil id = refl

  -- A user who was served and is listed keeps the state that served them, with its counts, and its
  -- connections are not ended.
  pub update_keeps :
      (id : ℤ) (p : ℕ)
      → get t id ≡ some p
      → is_listed id users ≡ true
      → let t' = update ops t users node_limit in
        (get t' id ≡ some p)
        × ((t'.states p).upload ≡ (t.states p).upload)
        × ((t'.states p).download ≡ (t.states p).download)
        × ((t'.states p).canceled ≡ false)
  unfolding get
  update_keeps id p h listed =
      let t' = update ops t users node_limit in
      let x = update-Extends ops t users node_limit v in
      let found : get t' id ≡ some p =
        get-update id
        ∙ serve_kept ops node_limit t.current id p t [] users h (inl (lookup-nil id))
        ∙ ground arith in
      let mine =
        lookup_All ℤ_discrete (IsServed t') id p t'.current
          (update-IsValid ops t users node_limit v).served (unfold get in found) in
      (found, x.same_upload p, x.same_download p, mine.1)

  -- A user who was not served and is listed gets a new state, with nothing counted.
  pub update_adds :
      (id : ℤ)
      → get t id ≡ none
      → is_listed id users ≡ true
      → let t' = update ops t users node_limit in
        (p : ℕ) × (get t' id ≡ some p) × (t.next ≤ p) × IsBlank (t'.states p) × IsServed t' (id, p)
  unfolding get
  update_adds id h listed =
      let t' = update ops t users node_limit in
      let x = update-Extends ops t users node_limit v in
      let (p, found, above) =
        serve_new ops node_limit t.current id t.next t [] users h (omega arith) (inl listed) in
      let (a, b) = v.blank p above in
      let got = get-update id ∙ found in
      (
        p,
        got,
        above,
        (x.same_upload p ∙ a, x.same_download p ∙ b),
        lookup_All ℤ_discrete (IsServed t') id p t'.current
            (update-IsValid ops t users node_limit v).served (unfold get in got),
      )

  -- An ID that is not listed is not served.
  pub update_removes :
      (id : ℤ) → is_listed id users ≡ false → get (update ops t users node_limit) id ≡ none
  update_removes id unlisted =
      get-update id ∙ serve_unlisted ops node_limit t.current id t [] users unlisted ∙ lookup-nil id

  -- The state of a user who was served and is not listed is canceled, and retired with its counts.
  pub update_retires :
      (id : ℤ) (p : ℕ)
      → get t id ≡ some p
      → is_listed id users ≡ false
      → let t' = update ops t users node_limit in
        ((t'.states p).canceled ≡ true)
        × (0 < occurrences p t'.retired)
        × ((t'.states p).upload ≡ (t.states p).upload)
        × ((t'.states p).download ≡ (t.states p).download)
  unfolding get update
  update_retires id p h unlisted =
      let gone = serve_unlisted ops node_limit t.current id t [] users unlisted ∙ lookup-nil id in
      let x = update-Extends ops t users node_limit v in
      let (canceled, listed) = retire_cancels _ _ t.current id p h gone in
      (canceled, listed, x.same_upload p, x.same_download p)
