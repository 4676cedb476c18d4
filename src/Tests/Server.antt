-- ===== src/Tests/Server.antt =====
-- Fetches, syncs and pushes of a concrete node.
use ne_xt_server.Tests.Users.{left-IsValid, left}
use ne_xt_server.Users.Table.{new_user_table, get as served_by}
use ne_xt_server.Server.Node.{Settles, sync_node_server-Settles, sync_node_server_down}
use ne_xt_server.Users.Pending.{reported, up, pending}
use ne_xt_server.Server.Push.{push_once, push_once-pending}
use ne_xt_server.Base.{
  ◌%◌, ◌^◌, if◌then◌else◌, ℕ, ◌≡◌, refl, ◌⊎◌, inl, inr, false, Option, none, some, List, [], ◌∷◌,
  arith, if◌then◌else◌, ◌≢◌,
}
use ne_xt_server.Tests.Nodes.{nodes, nodes_made}
use ne_xt_server.Panel.Node.{empty_config}
use ne_xt_server.Panel.Config.{trojan, NodeConfig}
use ne_xt_server.Server.State.{Server, sync_node_server, pull_once}
use ne_xt_server.Server.Unavailable.{pull_once_unavailable}
use Prim.Native.String.{String}
use ne_xt_server.Base.Int.{pos}
use ne_xt_server.Base.Result.{err, ok}
use ne_xt_server.Panel.Config.{NodeConfig}
use ne_xt_server.Panel.Client.{
  Exchange, answered, Client, node_unavailable, if_none_match, get, do_request,
}
use ne_xt_server.Panel.Fetch.{RawUser, fetch_users, users_of, users_answered, users_failed}
use ne_xt_server.Server.Fetched.{users_to_apply, apply_to}
use ne_xt_server.Server.Sync.{Answers, IsSynced, is_ok, fetch_users-IsSynced}
use ne_xt_server.Tests.Data.{floats, user, ops, auditor}

abbrev raw : RawUser floats.Float
raw = record { id = pos 1; speed_limit = 8; password = "x"; uuid = "a" }

abbrev decode : List ℕ → Option (List (RawUser floats.Float))
decode content = some (raw ∷ [])

-- A code is read from the body of every error response.
abbrev error_code : List ℕ → Option String
error_code content = some "node_disabled"

abbrev contents : String → List (RawUser floats.Float)
contents version = raw ∷ []

abbrev client : Client
client = record { local_tls = none; info_etag = ""; users_etag = ""; rules_etag = "" }

abbrev exchange : Option String → Exchange
exchange request = answered 200 "v1" (some [])

panel-Answers :
    (request : Option String)
    → Answers floats error_code decode contents "v1" request (exchange request)
panel-Answers request = record {
  unchanged = λ etag body h. absurd (ground arith);
  fresh = λ etag content raws h e. ground arith;
}

fetch_users-IsSynced_example :
    let (c', r) = fetch_users floats error_code decode exchange client in
    let applied' = apply_to (users_to_apply r) [] in
    IsSynced floats error_code decode contents c' applied'
    × ((is_ok floats error_code decode contents r ≡ false)
        ⊎ (applied' ≡ users_of floats error_code (contents "v1")))
fetch_users-IsSynced_example =
    fetch_users-IsSynced floats error_code decode contents "v1" exchange client [] panel-Answers
      (inl refl)

abbrev disabled : Option String → Exchange
disabled request = answered 403 "" (some [])

is_disabled :
    (fetch_users floats error_code decode disabled client).1
    ≡ err (node_unavailable "node_disabled")
unfolding fetch_users users_answered users_failed get do_request if_none_match
is_disabled = refl

abbrev config : NodeConfig
config = empty_config trojan 1000

abbrev slower : NodeConfig
slower = empty_config trojan 500

abbrev down : Server ops nodes
down = record {
  users = new_user_table;
  auditor = auditor;
  node_config = config;
  running_config = none;
  node_server = none;
  user_list = user 1 ∷ [];
  last_push = 0;
  closed = [];
}

abbrev running : Server ops nodes
running = record down {
  node_config = slower;
  running_config = some config;
  node_server = some (config, user 1 ∷ []);
}

sync_node_server-Settles_example : Settles ops nodes nodes_made (sync_node_server ops nodes running)
sync_node_server-Settles_example =
    sync_node_server-Settles ops nodes nodes_made running
      (inr (config, (((config, user 1 ∷ []), refl, refl), refl)))

sync_node_server_down_example :
    let (s', e) = sync_node_server ops nodes down in
    (s'.users ≡ down.users) × ((e ≢ none) ⊎ ((sync_node_server ops nodes s').0.users ≡ down.users))
sync_node_server_down_example = sync_node_server_down ops nodes down refl refl

-- A user has left with traffic.
abbrev loaded : Server ops nodes
loaded = record down { users = left.table }

push_once-pending_example :
    let (s', sent) = push_once ops nodes (λ a. "") loaded 9 false false in
    (reported up (pos 1) sent.traffic ≡ pending up (pos 1) loaded.users)
    × (pending up (pos 1) s'.users % 2 ^ 64
        ≡ (if false then 0 else pending up (pos 1) loaded.users) % 2 ^ 64)
push_once-pending_example =
    push_once-pending ops nodes (λ a. "") loaded 9 false false up (pos 1) left-IsValid

pull_once_unavailable_example :
    let (c', users) = fetch_users floats error_code decode disabled client in
    (served_by (pull_once ops nodes loaded (ok (some slower)) users none).users (pos 1) ≡ none)
    × (if_none_match c'.users_etag ≡ none)
pull_once_unavailable_example =
    pull_once_unavailable ops nodes floats error_code decode loaded (ok (some slower)) none disabled
      client "node_disabled" (pos 1) is_disabled
