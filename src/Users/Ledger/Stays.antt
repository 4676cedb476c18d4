-- ===== src/Users/Ledger/Stays.antt =====
-- A state with an open connection stays tracked, so that its connections may go on counting.
use ne_xt_server.Base.{
  ℕ, ◌≤◌, ◌<◌, ◌≡◌, ap, ◌≢◌, true, Option, none, some, List, [], ◌∷◌, ◌++◌, arith,
}
use ne_xt_server.Adapter.{UserTraffic}
use ne_xt_server.Base.Int.{ℤ, ℤ_discrete, is_positive}
use ne_xt_server.Base.Sums.{values, occurrences, one_at, sum-append}
use ne_xt_server.Users.State.{LimiterOps}
use ne_xt_server.Users.Table.{
  Table, get, find_retired, revive, retired_for, state_to_restore, restore_item, restore_traffic,
}
use ne_xt_server.Users.Pending.{tracked, IsValid}
use ne_xt_server.Users.Update.Balance.{sum-update}
use ne_xt_server.Users.Collect.Report.{after, after_frame, collect_keeps, is_needed}
use ne_xt_server.Users.Ledger.{
  Ledger, Step, transfer, connect, disconnect, look_online, pull, collect, accepted, failed,
}

module _ {L : Type 0} (q : ℕ) where
  revive-le :
      (t : Table L) (id : ℤ) → occurrences q (tracked t) ≤ occurrences q (tracked (revive t id).0)
  unfolding revive
  revive-le t id = omega (
    arith,
    sum-append (one_at q) (values ℤ_discrete t.current) (t.retired ++ t.next ∷ []),
    sum-append (one_at q) (values ℤ_discrete t.current) t.retired,
    sum-append (one_at q) t.retired (t.next ∷ []),
  )

  retired_for-le :
      (t : Table L) (id : ℤ) (o : Option ℕ)
      → occurrences q (tracked t) ≤ occurrences q (tracked (retired_for t id o).0)
  unfolding retired_for
  retired_for-le t id none = revive-le t id
  retired_for-le t id (some p) = omega arith

  state_to_restore-le :
      (t : Table L) (id : ℤ) (o : Option ℕ)
      → occurrences q (tracked t) ≤ occurrences q (tracked (state_to_restore t id o).0)
  unfolding state_to_restore
  state_to_restore-le t id none = retired_for-le t id (find_retired t.states id t.retired)
  state_to_restore-le t id (some p) = omega arith

  restore_item-le :
      (t : Table L) (item : UserTraffic)
      → occurrences q (tracked t) ≤ occurrences q (tracked (restore_item t item))
  unfolding restore_item
  restore_item-le t item = state_to_restore-le t item.user_id (get t item.user_id)

  restore-le :
      (t : Table L) (items : List UserTraffic)
      → occurrences q (tracked t) ≤ occurrences q (tracked (restore_traffic t items))
  unfolding restore_traffic
  restore-le t [] = omega arith
  restore-le t (item ∷ items) =
      omega (arith, restore-le (restore_item t item) items, restore_item-le t item)

  collect-tracked :
      (t : Table L)
      → IsValid t
      → is_positive (t.states q).active ≡ true
      → 0 < occurrences q (tracked t)
      → 0 < occurrences q (tracked (after t))
  collect-tracked t v busy h =
      let parts = sum-append (one_at q) (values ℤ_discrete t.current) t.retired in
      let parts' = sum-append (one_at q) (values ℤ_discrete (after t).current) (after t).retired in
      let same = ap (λ m. occurrences q (values ℤ_discrete m)) (after_frame t).1 in
      let needed : is_needed (t.states q) ≡ true = ground arith in
      ground (arith, parts, parts', same, collect_keeps t q v)

pub stays :
    {ops : LimiterOps} {l m : Ledger ops.Limiter}
    → Step ops l m
    → IsValid l.table
    → (q : ℕ) → is_positive (l.table.states q).active ≡ true
    → 0 < occurrences q (tracked l.table)
    → 0 < occurrences q (tracked m.table)
stays (transfer l p a b _) v q busy h = h
stays (connect l p address now) v q busy h = h
stays (disconnect l p activity now) v q busy h = h
stays (look_online l p since) v q busy h = h
stays {ops} (pull l users node_limit) v q busy h =
    let below : q < l.table.next = ground (arith, v.bounded q) in
    omega (
      arith,
      sum-update ops (one_at q) l.table users node_limit v.distinct
          (λ p k. let ne : q ≢ p = omega arith in ground arith),
    )
stays (collect l _) v q busy h = collect-tracked q l.table v busy h
stays (accepted l) v q busy h = h
stays (failed l) v q busy h = omega (arith, restore-le q l.table l.in_flight)
