-- ===== src/Tests/Runs.antt =====
-- A server from its start to its close: a user connects, carries bytes, leaves, and the first report
-- fails.
use ne_xt_server.Panel.Config.{trojan}
use ne_xt_server.Base.Assoc.{lookup, insert}
use ne_xt_server.Panel.Node.{empty_config}
use ne_xt_server.Users.Pending.{reported, up, pending}
use ne_xt_server.Server.Loops.{looked, settle, taken_if}
use ne_xt_server.Server.Fetched.{users_to_apply}
use ne_xt_server.Users.State.{open_connection, new_user_state, set_speed_limit, add_traffic}
use ne_xt_server.Tests.Nodes.{nodes}
use ne_xt_server.Users.Table.{
  new_user_table, modify, update, get, serve, serve_user, retire, effective_limit, collect_traffic,
}
use ne_xt_server.Tests.Data.{ops, auditor, metadata, user, public}
use ne_xt_server.Server.Life.{close_server, start_server}
use ne_xt_server.Server.Runs.{
  Node, Run, then_step, made, starts, close_server_delivers, routes, carries, looks, takes, settles,
  applies, with_table,
}
use ne_xt_server.Router.Route.{route_connection, destination_host}
use ne_xt_server.Base.Int.{is_positive, pos, ℤ_discrete}
use ne_xt_server.Server.State.{Server, apply_fetched, start_node, sync_node_server, apply_users}
use ne_xt_server.Base.{◌%◌, ◌^◌, ◌≡◌, refl, true, false, none, some, [], ◌∷◌, ◌++◌}
use ne_xt_server.Tests.Router.{routing}
use ne_xt_server.Users.Ledger.{start}
use ne_xt_server.Audit.Auditor.{enabled, match_connection}
use ne_xt_server.Destination.Check.{check_destination}
use ne_xt_server.Destination.Filter.{private_address}
use ne_xt_server.Base.Result.{ok}

program : Unit {0}
unfolding route_connection start new_user_table new_user_state set_speed_limit update get lookup
    insert serve serve_user retire effective_limit ℤ_discrete enabled match_connection
    destination_host open_connection check_destination private_address start_server start_node
    sync_node_server apply_users
program = tt

abbrev server : Server ops nodes
server = record {
  users = start.table;
  auditor = auditor;
  node_config = empty_config trojan 0;
  running_config = none;
  node_server = none;
  user_list = [];
  last_push = 0;
  closed = [];
}

abbrev first : Node ops nodes
first = record { server = server; in_flight = []; delivered = []; carried = [] }

abbrev begun : Node ops nodes
begun = record first {
  server =
      (start_server ops nodes server (ok (some (empty_config trojan 1000)))
        (ok (some (user 1 ∷ []))) none 3).0;
}

abbrev routed : Node ops nodes
routed = record begun {
  server = record (begun.server) {
    users =
        (route_connection routing true false begun.server.users auditor (some (pos 1))
          (metadata public) 5).0;
  };
}

abbrev sent : Node ops nodes
sent = record routed {
  server = record (routed.server) { users = modify routed.server.users 0 (add_traffic 10 20) };
  carried = record { user_id = (routed.server.users.states 0).id; upload = 10; download = 20 } ∷ [];
}

abbrev looking : Node ops nodes
looking = record sent {
  server = record (sent.server) { users = looked ops nodes (λ a. "") sent.server; last_push = 9 };
}

abbrev taken : Node ops nodes
taken =
    record (with_table ops nodes routing (λ a. "") looking
      (collect_traffic looking.server.users).0) {
        in_flight = (collect_traffic looking.server.users).1;
      }

abbrev refused : Node ops nodes
refused =
    record (with_table ops nodes routing (λ a. "") taken
      (settle taken.server.users taken.in_flight false)) {
        in_flight = [];
        delivered = taken_if false taken.in_flight ++ taken.delivered;
      }

abbrev emptied : Node ops nodes
emptied = record refused {
  server = apply_fetched ops nodes refused.server (users_to_apply (ok (some [])));
}

busy : is_positive (routed.server.users.states 0).active ≡ true
unfolding program
busy = refl

full-Run : Run ops nodes routing (λ a. "") emptied
full-Run =
    then_step
      (then_step
        (then_step
          (then_step
            (then_step
              (then_step
                (then_step (made server refl) (
                  starts (ok (some (empty_config trojan 1000))) (ok (some (user 1 ∷ []))) none 3
                    refl))
                (routes true false auditor (some (pos 1)) (metadata public) 5 refl))
              (carries 0 10 20 busy refl))
            (looks 9 refl))
          (takes refl refl))
        (settles false refl))
      (applies (ok (some [])) refl)

close_server_delivers_example :
    let (s', last) = close_server ops nodes emptied.server in
    (reported up (pos 1) (last ++ emptied.delivered) % 2 ^ 64
      ≡ reported up (pos 1) emptied.carried % 2 ^ 64)
    × (pending up (pos 1) s'.users ≡ 0)
close_server_delivers_example =
    close_server_delivers ops nodes routing (λ a. "") emptied up (pos 1) full-Run refl
