-- ===== src/Tests/Users.antt =====
-- A run over the users' table: a user is served, transfers, is reported, and the report fails after
-- the user has left.
use ne_xt_server.Users.Limits.Runs.{run_limits, IsStricter}
use ne_xt_server.Netip.{unmap}
use ne_xt_server.Users.Online.Reported.{online_ips-open}
use ne_xt_server.Users.Limits.Served.{limits_of}
use ne_xt_server.Users.Limits.Set.{set_speed_limit_splits, LimitedTo}
use ne_xt_server.Base.{
  ℕ, ◌+◌, ◌%◌, ◌^◌, ◌<◌, ◌≡◌, refl, true, false, none, some, List, [], ◌∷◌, arith, ◌≢◌, All,
}
use ne_xt_server.Adapter.{User, UserTraffic}
use mathlib.Core.List.{Mem}
use ne_xt_server.Users.Online.Session.{new_user, then_event, begins, ends, Run, Session}
use ne_xt_server.Base.{◌≢◌}
use ne_xt_server.Base.Int.{pos, ℤ_discrete, is_positive}
use ne_xt_server.Base.Assoc.{lookup, insert}
use ne_xt_server.Base.Sums.{occurrences}
use ne_xt_server.Users.State.{
  new_user_state, add_traffic, set_speed_limit, open_connection, UserState, online_ips,
  close_connection,
}
use ne_xt_server.Users.Table.{
  collect_current, retire, serve, retire_user, collect_retired, serve_user, restore_item,
  find_retired, modify, get, new_user_table, effective_limit, update, collect_traffic,
  restore_traffic,
}
use ne_xt_server.Users.Pending.{up, down, pending, reported, IsValid, tracked}
use ne_xt_server.Users.Update.Outcome.{update_keeps}
use ne_xt_server.Users.Update.Served.{is_listed}
use ne_xt_server.Users.Collect.Report.{collect_reports}
use ne_xt_server.Users.Restore.Find.{restore_pending}
use ne_xt_server.Users.Ledger.{
  Ledger, Reach, here, next, start, transfer, connect, pull, collect, failed,
}
use ne_xt_server.Users.Ledger.Balance.{Reach-Balances, start-Balances}
use ne_xt_server.Tests.Data.{ops, user, public}

program : Unit {0}
unfolding new_user_table new_user_state set_speed_limit update get lookup insert collect_traffic
    restore_traffic open_connection pending reported start is_listed collect_current retire serve
    retire_user collect_retired serve_user effective_limit restore_item find_retired ℤ_discrete
program = tt

abbrev one : List User
one = user 1 ∷ []

abbrev began : Ledger ops.Limiter
began = start

abbrev pub served : Ledger ops.Limiter
served = record began { table = update ops began.table one 0 }

abbrev busy : Ledger ops.Limiter
busy = record served { table = modify served.table 0 (λ u. (open_connection u public 5).0) }

abbrev carried : Ledger ops.Limiter
carried = record busy {
  table = modify busy.table 0 (add_traffic 10 20);
  carried =
      record { user_id = (busy.table.states 0).id; upload = 10; download = 20 } ∷ busy.carried;
}

abbrev pub left : Ledger ops.Limiter
left = record carried { table = update ops carried.table [] 0 }

abbrev taken : Ledger ops.Limiter
taken = record left {
  table = (collect_traffic left.table).0;
  in_flight = (collect_traffic left.table).1;
}

abbrev returned : Ledger ops.Limiter
returned = record taken { table = restore_traffic taken.table taken.in_flight; in_flight = [] }

taken_counts : taken.in_flight ≡ (record { user_id = pos 1; upload = 10; download = 20 } ∷ [])
unfolding program
taken_counts = refl

served_tracks : 0 < occurrences 0 (tracked busy.table)
unfolding program
served_tracks = omega arith

idle : left.in_flight ≡ []
unfolding program
idle = refl

left_run : Reach ops start left
left_run =
    next
      (next (next (next here (pull began one 0)) (connect served 0 public 5))
        (transfer busy 0 10 20 served_tracks))
      (pull carried [] 0)

returned_run : Reach ops start returned
returned_run = next (next left_run (collect left idle)) (failed taken)

pub left-IsValid : IsValid left.table
left-IsValid = (Reach-Balances left_run start-Balances).valid

served-IsValid : IsValid served.table
served-IsValid = (Reach-Balances (next here (pull began one 0)) start-Balances).valid

returned_pending : pending down (pos 1) returned.table ≡ 20
unfolding program
returned_pending = refl

still_open : (left.table.states 0).active ≡ pos 1
unfolding program
still_open = refl

still_busy : is_positive (left.table.states 0).active ≡ true
unfolding program
still_busy = refl

left_tracks : 0 < occurrences 0 (tracked left.table)
unfolding program
left_tracks = omega arith

left_retired : 0 < occurrences 0 left.table.retired
unfolding program
left_retired = omega arith

served_one : get served.table (pos 1) ≡ some 0
unfolding program
served_one = refl

not_served : get served.table (pos 2) ≡ none
unfolding program
not_served = refl

listed_one : is_listed (pos 1) (user 2 ∷ one) ≡ true
unfolding program
listed_one = refl

listed_two : is_listed (pos 2) (user 2 ∷ one) ≡ true
unfolding program
listed_two = refl

unlisted_one : is_listed (pos 1) (user 2 ∷ []) ≡ false
unfolding program
unlisted_one = refl

abbrev items : List UserTraffic
items = record { user_id = pos 1; upload = 3; download = 4 } ∷ []

update_keeps_example :
    let t' = update ops served.table (user 2 ∷ one) 7 in
    (get t' (pos 1) ≡ some 0)
    × ((t'.states 0).upload ≡ (served.table.states 0).upload)
    × ((t'.states 0).download ≡ (served.table.states 0).download)
    × ((t'.states 0).canceled ≡ false)
update_keeps_example =
    update_keeps ops served.table (user 2 ∷ one) 7 served-IsValid (pos 1) 0 served_one listed_one

collect_reports_example :
    (reported up (pos 1) (collect_traffic left.table).1 ≡ pending up (pos 1) left.table)
    × (pending up (pos 1) (collect_traffic left.table).0 ≡ 0)
collect_reports_example = collect_reports left.table up (pos 1) left-IsValid

restore_pending_example :
    pending up (pos 1) (restore_traffic left.table items) % 2 ^ 64
    ≡ (pending up (pos 1) left.table + reported up (pos 1) items) % 2 ^ 64
restore_pending_example = restore_pending left.table items up (pos 1) left-IsValid

began_serves : get (update ops began.table one 500) (pos 1) ≡ some 0
unfolding program
began_serves = refl

run_limits_example :
    (n : ℕ) × IsStricter n 500 (limits_of (λ _. 0) one (pos 1))
    × LimitedTo ops n ((update ops began.table one 500).states 0)
run_limits_example = run_limits ops began one 500 (pos 1) 0 here began_serves

-- A user whose limit was set once.
abbrev limited_user : UserState ops.Limiter
limited_user = record (new_user_state (pos 1)) {
  limiter = some 0;
  limiters = λ p. some (ops.new 70000);
  next_limiter = 1;
}

set_speed_limit_splits_example :
    let u' = set_speed_limit ops (set_speed_limit ops limited_user 0) 90000 in
    (u'.limiters 0 ≡ some (ops.new 70000))
    × (u'.limiter ≡ some 1)
    × (u'.limiters 1 ≡ some (ops.new 90000))
    × (0 ≢ limited_user.next_limiter)
set_speed_limit_splits_example =
    set_speed_limit_splits ops 90000 limited_user 0 (ops.new 70000) (λ h. omega arith) refl refl
      (omega arith)

abbrev fresh_user : UserState ops.Limiter
fresh_user = new_user_state (pos 1)

-- Two connections from one address, one of which has ended.
abbrev begun : Session ops.Limiter
begun = record {
  user = (open_connection fresh_user public 5).0;
  opened = (unmap public, (open_connection fresh_user public 5).1) ∷ [];
}

abbrev begun_twice : Session ops.Limiter
begun_twice = record {
  user = (open_connection begun.user public 6).0;
  opened = (unmap public, (open_connection begun.user public 6).1) ∷ begun.opened;
}

abbrev ended_once : Session ops.Limiter
ended_once = record {
  user = close_connection begun_twice.user (open_connection begun.user public 6).1 7;
  opened = begun.opened;
}

ended-Run : Run (pos 1) ended_once
ended-Run =
    then_event (then_event (then_event new_user (begins public 5 refl)) (begins public 6 refl))
      (ends [] begun.opened (unmap public, (open_connection begun.user public 6).1) 7 refl refl)

online_ips-open_example : All (λ c. Mem c.0 (online_ips ended_once.user 100).0) ended_once.opened
online_ips-open_example = online_ips-open (pos 1) ended_once 100 ended-Run
