-- ===== src/Users/Limits/Runs.antt =====
-- The limits of the users in every run of the program's loops and connections.
use ne_xt_server.Base.{
  ℕ, ◌≤◌, ◌≡◌, refl, ap, ◌∙◌, ◌↔◌, ◌⊎◌, Option, none, some, List, [], ◌∷◌, arith,
}
use ne_xt_server.Adapter.{User, UserTraffic}
use ne_xt_server.Base.Int.{ℤ, pos}
use ne_xt_server.Users.State.{
  LimiterOps, UserState, add_traffic, new_user_state, cancel, open_connection, close_connection,
  online_ips,
}
use ne_xt_server.Users.Table.{
  Table, modify, get, update, restore_traffic, restore_item, state_to_restore, retired_for, revive,
  allocate, effective_limit, find_retired,
}
use ne_xt_server.Users.Pending.{IsValid, tracked}
use ne_xt_server.Users.Collect.Loop.{collect_same}
use ne_xt_server.Users.Collect.Report.{after, after_states}
use ne_xt_server.Users.Limits.Set.{LimitedTo}
use ne_xt_server.Users.Limits.Round.{HasLimiters, put-HasLimiter, new-HasLimiter}
use ne_xt_server.Users.Limits.Served.{
  HasLimiter-same, limits_of, update-HasLimiters, update-LimitedTo,
}
use ne_xt_server.Users.Ledger.{
  Ledger, Step, transfer, connect, disconnect, look_online, pull, collect, accepted, failed, Reach,
  here, next, start,
}
use ne_xt_server.Users.Ledger.Balance.{Reach-Balances, start-Balances}

module _ {L : Type 0} where
  modify-HasLimiters :
      (t : Table L) (p : ℕ) (f : UserState L → UserState L)
      → (f (t.states p)).limiter ≡ (t.states p).limiter
      → (f (t.states p)).limiters ≡ (t.states p).limiters
      → HasLimiters t
      → HasLimiters (modify t p f)
  modify-HasLimiters t p f a b has =
      put-HasLimiter t.states p (f (t.states p)) has
        (HasLimiter-same (t.states p) (f (t.states p)) a b (has p))

  revive-HasLimiters : (t : Table L) (id : ℤ) → HasLimiters t → HasLimiters (revive t id).0
  unfolding revive allocate
  revive-HasLimiters t id has = put-HasLimiter t.states t.next (cancel (new_user_state id)) has (
      HasLimiter-same (new_user_state id) (cancel (new_user_state id)) refl refl
        (new-HasLimiter id))

  retired_for-HasLimiters :
      (t : Table L) (id : ℤ) (o : Option ℕ) → HasLimiters t → HasLimiters (retired_for t id o).0
  unfolding retired_for
  retired_for-HasLimiters t id none has = revive-HasLimiters t id has
  retired_for-HasLimiters t id (some p) has = has

  state_to_restore-HasLimiters :
      (t : Table L) (id : ℤ) (o : Option ℕ)
      → HasLimiters t
      → HasLimiters (state_to_restore t id o).0
  unfolding state_to_restore
  state_to_restore-HasLimiters t id none has =
      retired_for-HasLimiters t id (find_retired t.states id t.retired) has
  state_to_restore-HasLimiters t id (some p) has = has

  restore-HasLimiters :
      (t : Table L) (items : List UserTraffic)
      → HasLimiters t
      → HasLimiters (restore_traffic t items)
  unfolding restore_traffic restore_item
  restore-HasLimiters t [] has = has
  restore-HasLimiters t (item ∷ items) has =
      let (t', p) = state_to_restore t item.user_id (get t item.user_id) in
      restore-HasLimiters (restore_item t item) items (
        modify-HasLimiters t' p (add_traffic item.upload item.download) refl refl
          (state_to_restore-HasLimiters t item.user_id (get t item.user_id) has))

  collect-HasLimiters : (t : Table L) → HasLimiters t → HasLimiters (after t)
  collect-HasLimiters t has p =
      HasLimiter-same (t.states p) ((after t).states p)
        (ap (λ x. (x p).limiter) (after_states t)
          ∙ collect_same (λ u. u.limiter) (λ u. refl) t (tracked t) p)
        (ap (λ x. (x p).limiters) (after_states t)
          ∙ collect_same (λ u. u.limiters) (λ u. refl) t (tracked t) p)
        (has p)

Step-HasLimiters :
    {ops : LimiterOps} {l m : Ledger ops.Limiter}
    → Step ops l m
    → IsValid l.table
    → HasLimiters l.table
    → HasLimiters m.table
Step-HasLimiters (transfer l p a b h) v has =
    modify-HasLimiters l.table p (add_traffic a b) refl refl has
Step-HasLimiters (connect l p address now) v has =
    modify-HasLimiters l.table p (λ u. (open_connection u address now).0)
      (unfold open_connection in (ground arith)) (unfold open_connection in (ground arith)) has
Step-HasLimiters (disconnect l p activity now) v has =
    modify-HasLimiters l.table p (λ u. close_connection u activity now)
      (unfold close_connection in refl) (unfold close_connection in refl) has
Step-HasLimiters (look_online l p since) v has =
    modify-HasLimiters l.table p (λ u. (online_ips u since).1) (unfold online_ips in refl)
      (unfold online_ips in refl) has
Step-HasLimiters {ops} (pull l users node_limit) v has =
    update-HasLimiters ops l.table users node_limit v has
Step-HasLimiters (collect l h) v has = collect-HasLimiters l.table has
Step-HasLimiters (accepted l) v has = has
Step-HasLimiters (failed l) v has = restore-HasLimiters l.table l.in_flight has

start-HasLimiters : {L : Type 0} → HasLimiters (start {L = L}).table
unfolding start
start-HasLimiters p = new-HasLimiter (pos 0)

Reach-HasLimiters :
    {ops : LimiterOps} {l : Ledger ops.Limiter} → Reach ops start l → HasLimiters l.table
Reach-HasLimiters here = start-HasLimiters
Reach-HasLimiters (next r s) =
    Step-HasLimiters s (Reach-Balances r start-Balances).valid (Reach-HasLimiters r)

-- A limit that is the stricter of two, where 0 is no limit: it is 0 exactly if both are, it is one of
-- them, and it exceeds neither, but where that is 0.
abbrev pub IsStricter : ℕ → ℕ → ℕ → Type 0
IsStricter n a b =
    ((n ≡ 0) ↔ ((a ≡ 0) × (b ≡ 0)))
    × ((a ≡ 0) ⊎ (n ≤ a))
    × ((b ≡ 0) ⊎ (n ≤ b))
    × ((n ≡ a) ⊎ (n ≡ b))

pub effective_limit-IsStricter : (a b : ℕ) → IsStricter (effective_limit a b) a b
unfolding effective_limit
effective_limit-IsStricter a b = ground arith

-- In every run of whole operations: after a pull each user who is served is limited to the stricter of
-- the node's limit and of the limit in the user's last entry of the list: it is 0, which stands for no
-- limit, exactly if both are; it is one of the two; and it exceeds neither of them that is not 0. A
-- limiter allows it, and there is none if it is 0.
pub run_limits :
    (ops : LimiterOps) (l : Ledger ops.Limiter) (users : List User) (node_limit : ℕ) (id : ℤ)
    (p : ℕ)
    → Reach ops start l
    → get (update ops l.table users node_limit) id ≡ some p
    → (n : ℕ) × IsStricter n node_limit (limits_of (λ _. 0) users id)
      × LimitedTo ops n ((update ops l.table users node_limit).states p)
run_limits ops l users node_limit id p r h = (
  effective_limit node_limit (limits_of (λ _. 0) users id),
  effective_limit-IsStricter node_limit (limits_of (λ _. 0) users id),
  update-LimitedTo ops l.table users node_limit (Reach-Balances r start-Balances).valid
      (Reach-HasLimiters r) id p h,
)
