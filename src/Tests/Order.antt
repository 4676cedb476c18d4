-- ===== src/Tests/Order.antt =====
-- Two users, whom Go may visit in either order.
use ne_xt_server.Tests.Data.{ops, auditor, user, public}
use ne_xt_server.Tests.Nodes.{nodes}
use ne_xt_server.Panel.Config.{trojan}
use ne_xt_server.Panel.Node.{empty_config}
use ne_xt_server.Server.State.{Server}
use ne_xt_server.Server.Push.{push_once}
use ne_xt_server.Server.Order.{push_once_order}
use ne_xt_server.Users.Collect.Order.{reordered}
use ne_xt_server.Users.Ledger.{Ledger, start, here, next, pull, connect, transfer}
use ne_xt_server.Users.Ledger.Balance.{Reach-Balances, start-Balances}
use ne_xt_server.Users.Pending.{IsValid, tracked}
use ne_xt_server.Users.State.{open_connection, new_user_state, set_speed_limit, add_traffic}
use ne_xt_server.Users.Table.{
  new_user_table, modify, update, get, serve, serve_user, retire, effective_limit,
}
use ne_xt_server.Base.Assoc.{lookup, insert}
use ne_xt_server.Base.Sums.{occurrences}
use ne_xt_server.Base.Int.{ℤ, pos, ℤ_discrete}
use ne_xt_server.Base.{ℕ, ◌<◌, ◌≡◌, refl, true, false, none, List, [], ◌∷◌, arith}
use mathlib.Core.List.{Permᴰ}

program : Unit {0}
unfolding start new_user_table new_user_state set_speed_limit update get lookup insert serve
    serve_user retire effective_limit ℤ_discrete open_connection add_traffic
program = tt

abbrev both : Ledger ops.Limiter
both = record start { table = update ops start.table (user 1 ∷ user 2 ∷ []) 0 }

-- The second user is connected, and has sent something.
abbrev busy : Ledger ops.Limiter
busy = record both { table = modify both.table 1 (λ u. (open_connection u public 5).0) }

abbrev loaded : Ledger ops.Limiter
loaded = record busy {
  table = modify busy.table 1 (add_traffic 10 20);
  carried =
      record { user_id = (busy.table.states 1).id; upload = 10; download = 20 } ∷ busy.carried;
}

served : 0 < occurrences 1 (tracked busy.table)
unfolding program
served = omega arith

loaded-IsValid : IsValid loaded.table
loaded-IsValid =
    (Reach-Balances
      (next (next (next here (pull start (user 1 ∷ user 2 ∷ []) 0)) (connect both 1 public 5))
        (transfer busy 1 10 20 served))
      start-Balances).valid

abbrev backwards : List (ℤ × ℕ)
backwards = (pos 2, 1) ∷ (pos 1, 0) ∷ []

is_swapped : Permᴰ loaded.table.current backwards
unfolding program
is_swapped = Permᴰ.swap refl refl

abbrev server : Server ops nodes
server = record {
  users = loaded.table;
  auditor = auditor;
  node_config = empty_config trojan 0;
  running_config = none;
  node_server = none;
  user_list = [];
  last_push = 0;
  closed = [];
}

push_once_order_example :
    let other : Server ops nodes = record server { users = reordered server.users backwards } in
    let sent = (push_once ops nodes (λ a. "") server 9 false true).1 in
    let sent' = (push_once ops nodes (λ a. "") other 9 false true).1 in
    (sent.online_users ≡ sent'.online_users)
    × Permᴰ sent.traffic sent'.traffic
    × Permᴰ sent.online sent'.online
    × (sent.logs ≡ sent'.logs)
    × ((push_once ops nodes (λ a. "") other 9 true true).0.users
        ≡ reordered (push_once ops nodes (λ a. "") server 9 true true).0.users backwards)
push_once_order_example =
    push_once_order ops nodes (λ a. "") server backwards 9 false true is_swapped loaded-IsValid
