-- ===== src/Users/Ledger.antt =====
-- Runs over the users' table of whole operations, each of which has ended before the next begins, and
-- where each transferred byte is. Users.Atomic has the operations that overlap.
pub mod Balance
pub mod Stays
pub mod Quiet
pub mod Sound
use ne_xt_server.Base.{
  ℕ, zero, suc, ◌+◌, ◌-◌, ◌*◌, ◌/◌, ◌%◌, ◌^◌, ◌≤◌, ◌<◌, min, max, ◌≡◌, refl, sym, ap, ap₂, subst,
  ◌∙◌, ◌≢◌, ◌↔◌, ◌⊎◌, inl, inr, ite, if_pos, if_neg, Bool, true, false, not, ◌&&◌, ◌||◌, Option,
  none, some, List, [], ◌∷◌, ◌++◌, map, arith, ℕ_discrete, ltb, leb, ◌==◌, if◌then◌else◌, ==_iff,
  Bool-cases, Option-cases, length, any, keep, All,
}
use ne_xt_server.Adapter.{User, UserTraffic}
use ne_xt_server.Netip.{Addr}
use ne_xt_server.Base.{All-mono}
use ne_xt_server.Base.Int.{ℤ, ℤ_discrete}
use ne_xt_server.Base.Sums.{put_same, sum, sum-ext, occurrences}
use ne_xt_server.Users.State.{
  LimiterOps, UserState, add_traffic, new_user_state, open_connection, close_connection, online_ips,
}
use ne_xt_server.Users.Table.{
  Table, modify, new_user_table, update, collect_traffic, restore_traffic,
}
use ne_xt_server.Users.Pending.{
  Direction, up, down, weight, counter, tracked, pending, reported, reported-append, reported_item,
  IsBlank, IsServed, IsValid, amount,
}
use ne_xt_server.Users.Update.Valid.{pending-update, update-IsValid}
use ne_xt_server.Users.Collect.Report.{collect_reports, collect-IsValid}
use ne_xt_server.Users.Restore.Count.{count_pending, count-IsValid, part}
use ne_xt_server.Users.Restore.Find.{restore_pending, restore-IsValid}

-- The table, the report that is on its way to the panel, what the panel took, and what the
-- connections carried, each as items of traffic.
pub record Ledger (L : Type 0) : Type 0 where
  pub table : Table L
  pub in_flight : List UserTraffic
  pub delivered : List UserTraffic
  pub carried : List UserTraffic

-- The steps, in any order, but never two at a time: a connection carries bytes for a tracked state, begins or ends; the push
-- loop looks for online addresses, takes a report if none is on its way, and learns its fate; the
-- pull loop updates the users.
pub data Step (ops : LimiterOps) : Ledger ops.Limiter → Ledger ops.Limiter → Type 0 where
  transfer :
      (l : Ledger ops.Limiter) (p a b : ℕ)
      → 0 < occurrences p (tracked l.table)
      → Step ops l (record l {
        table = modify l.table p (add_traffic a b);
        carried = record { user_id = (l.table.states p).id; upload = a; download = b } ∷ l.carried;
      })
  connect :
      (l : Ledger ops.Limiter) (p : ℕ) (address : Addr) (now : ℕ)
      → Step ops l (record l { table = modify l.table p (λ u. (open_connection u address now).0) })
  disconnect :
      (l : Ledger ops.Limiter) (p activity now : ℕ)
      → Step ops l (record l { table = modify l.table p (λ u. close_connection u activity now) })
  look_online :
      (l : Ledger ops.Limiter) (p since : ℕ)
      → Step ops l (record l { table = modify l.table p (λ u. (online_ips u since).1) })
  pull :
      (l : Ledger ops.Limiter) (users : List User) (node_limit : ℕ)
      → Step ops l (record l { table = update ops l.table users node_limit })
  collect :
      (l : Ledger ops.Limiter)
      → l.in_flight ≡ []
      → Step ops l (record l {
        table = (collect_traffic l.table).0;
        in_flight = (collect_traffic l.table).1;
      })
  accepted :
      (l : Ledger ops.Limiter)
      → Step ops l (record l { in_flight = []; delivered = l.in_flight ++ l.delivered })
  failed :
      (l : Ledger ops.Limiter)
      → Step ops l (record l { table = restore_traffic l.table l.in_flight; in_flight = [] })

pub data Reach (ops : LimiterOps) (l : Ledger ops.Limiter) : Ledger ops.Limiter → Type 0 where
  here : Reach ops l l
  next : {m n : Ledger ops.Limiter} → Reach ops l m → Step ops m n → Reach ops l n

unfoldable pub start : {L : Type 0} → Ledger L
unfolding new_user_table new_user_state
start = record { table = new_user_table; in_flight = []; delivered = []; carried = [] }

-- The table is valid, and all that was carried is delivered, on its way or pending.
pub record Balances {L : Type 0} (l : Ledger L) : Type 0 where
  pub valid : IsValid l.table
  pub balance :
      (d : Direction) (id : ℤ)
      → (reported d id l.delivered + reported d id l.in_flight + pending d id l.table) % 2 ^ 64
        ≡ reported d id l.carried % 2 ^ 64
