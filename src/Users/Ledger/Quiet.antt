-- ===== src/Users/Ledger/Quiet.antt =====
-- The operations on the table by which no connection begins.
use ne_xt_server.Base.Assoc.{insert, lookup}
use ne_xt_server.Users.Collect.Report.{after_active}
use ne_xt_server.Base.Sums.{put, put_same, put_self, put_ne}
use ne_xt_server.Adapter.{UserTraffic, User}
use ne_xt_server.Users.State.{
  LimiterOps, UserState, set_speed_limit, cancel, new_user_state, add_traffic,
}
use ne_xt_server.Users.Table.{
  restore_item, restore_traffic, state_to_restore, retire_user, Table, retired_for, revive,
  allocate, retire, serve_user, update, state_for, collect_traffic, find_retired, serve, modify,
  get, effective_limit,
}
use ne_xt_server.Base.{
  ℕ, ◌≡◌, refl, sym, ap, subst, true, false, Option, none, some, List, [], ◌∷◌, arith, ℕ_discrete,
}
use ne_xt_server.Base.Int.{ℤ, pos, is_positive, ℤ_discrete}

-- A state that has an open connection in the second table has one in the first.
abbrev pub Quiet : {L : Type 0} → Table L → Table L → Type 0
Quiet t t' =
    (q : ℕ) → is_positive (t'.states q).active ≡ true → is_positive (t.states q).active ≡ true

module _ {L : Type 0} where
  pub modify-Quiet :
      (t : Table L) (p : ℕ) (f : UserState L → UserState L)
      → (f (t.states p)).active ≡ (t.states p).active
      → Quiet t (modify t p f)
  modify-Quiet t p f same q busy =
      rw (sym (put_same (λ u. u.active) t.states p (f (t.states p)) same q)) busy

  allocate-Quiet : (t : Table L) (u : UserState L) → u.active ≡ pos 0 → Quiet t (allocate t u).0
  unfolding allocate
  allocate-Quiet t u idle q busy = elim (ℕ_discrete t.next q) [
    | yes e ↦ absurd (
        let zero : is_positive (put t.states t.next u q).active ≡ false =
          subst (λ r. is_positive (put t.states t.next u r).active ≡ false) e
            (rw (put_self t.states t.next u) (rw idle refl)) in
        cc (busy, zero))
    | no ne ↦ rw (sym (ap (λ v. v.active) (put_ne t.states t.next u q ne))) busy
  ]

  retire_user-Quiet : (t : Table L) (p : ℕ) (o : Option ℕ) → Quiet t (retire_user t p o)
  unfolding retire_user
  retire_user-Quiet t p none q busy = modify-Quiet t p cancel refl q busy
  retire_user-Quiet t p (some _) q busy = busy

  retire-Quiet :
      (next : List (ℤ × ℕ)) (t : Table L) (previous : List (ℤ × ℕ))
      → Quiet t (retire next t previous)
  unfolding retire
  retire-Quiet next t [] q busy = busy
  retire-Quiet next t ((id, p) ∷ previous) q busy =
      let o = lookup ℤ_discrete id next in
      retire_user-Quiet t p o q (retire-Quiet next (retire_user t p o) previous q busy)

  revive-Quiet : (t : Table L) (id : ℤ) → Quiet t (revive t id).0
  unfolding revive
  revive-Quiet t id q busy =
      allocate-Quiet t (cancel (new_user_state id)) (unfold new_user_state in refl) q busy

  retired_for-Quiet : (t : Table L) (id : ℤ) (o : Option ℕ) → Quiet t (retired_for t id o).0
  unfolding retired_for
  retired_for-Quiet t id none q busy = revive-Quiet t id q busy
  retired_for-Quiet t id (some p) q busy = busy

  state_to_restore-Quiet :
      (t : Table L) (id : ℤ) (o : Option ℕ) → Quiet t (state_to_restore t id o).0
  unfolding state_to_restore
  state_to_restore-Quiet t id none q busy =
      retired_for-Quiet t id (find_retired t.states id t.retired) q busy
  state_to_restore-Quiet t id (some p) q busy = busy

  restore_item-Quiet : (t : Table L) (item : UserTraffic) → Quiet t (restore_item t item)
  unfolding restore_item
  restore_item-Quiet t item q busy =
      let o = get t item.user_id in
      let x = state_to_restore t item.user_id o in
      state_to_restore-Quiet t item.user_id o q
        (modify-Quiet (x.0) (x.1) (add_traffic item.upload item.download) refl q busy)

  pub restore-Quiet : (t : Table L) (items : List UserTraffic) → Quiet t (restore_traffic t items)
  unfolding restore_traffic
  restore-Quiet t [] q busy = busy
  restore-Quiet t (item ∷ items) q busy =
      restore_item-Quiet t item q (restore-Quiet (restore_item t item) items q busy)

  pub collect-Quiet : (t : Table L) → Quiet t (collect_traffic t).0
  collect-Quiet t q busy = rw (sym (after_active t q)) busy

module _ (ops : LimiterOps) where
  open ops use {Limiter}

  set_active : (u : UserState Limiter) (n : ℕ) → (set_speed_limit ops u n).active ≡ u.active
  unfolding set_speed_limit
  set_active u n = ground arith

  state_for-Quiet : (t : Table Limiter) (id : ℤ) (o : Option ℕ) → Quiet t (state_for t id o).0
  unfolding state_for
  state_for-Quiet t id none q busy =
      allocate-Quiet t (new_user_state id) (unfold new_user_state in refl) q busy
  state_for-Quiet t id (some p) q busy = busy

  serve_user-Quiet :
      (node_limit : ℕ) (previous : List (ℤ × ℕ)) (t : Table Limiter) (user : User)
      → Quiet t (serve_user ops node_limit previous t user).0
  unfolding serve_user
  serve_user-Quiet node_limit previous t user q busy =
      let o = lookup ℤ_discrete user.id previous in
      let x = state_for t user.id o in
      let n = effective_limit node_limit user.speed_limit in
      state_for-Quiet t user.id o q (
        modify-Quiet (x.0) (x.1) (λ u. set_speed_limit ops u n) (set_active ((x.0).states (x.1)) n)
          q busy)

  serve-Quiet :
      (node_limit : ℕ) (previous : List (ℤ × ℕ)) (t : Table Limiter) (next : List (ℤ × ℕ))
      (users : List User)
      → Quiet t (serve ops node_limit previous t next users).0
  unfolding serve
  serve-Quiet node_limit previous t next [] q busy = busy
  serve-Quiet node_limit previous t next (user ∷ users) q busy =
      let (t', p) = serve_user ops node_limit previous t user in
      serve_user-Quiet node_limit previous t user q
        (serve-Quiet node_limit previous t' (insert ℤ_discrete user.id p next) users q busy)

  pub update-Quiet :
      (t : Table Limiter) (users : List User) (node_limit : ℕ)
      → Quiet t (update ops t users node_limit)
  unfolding update
  update-Quiet t users node_limit q busy =
      let (t', next) = serve ops node_limit t.current t [] users in
      serve-Quiet node_limit t.current t [] users q
        (retire-Quiet next (record t' { current = next }) t.current q busy)
