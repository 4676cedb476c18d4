-- ===== src/Server/Recover.antt =====
-- server.go: a node that is down comes back up with a pull, when nothing is in its way any more.
use ne_xt_server.Base.{◌≡◌, none, List}
use ne_xt_server.Base.Result.{Result, ok}
use ne_xt_server.Panel.Config.{NodeConfig}
use ne_xt_server.Adapter.{User}
use ne_xt_server.Server.State.{NodeApi, Server}

-- Node servers can be made, take every list of users, and start.
pub record Constructs (api : NodeApi) : Type 0 where
  pub makes : (c : NodeConfig) → (n : api.NodeServer) × (api.new_server c ≡ ok n)
  pub fills : (n : api.NodeServer) (users : List User) → (api.update_users n users).1 ≡ none
  pub starts : (n : api.NodeServer) → (api.start_server n).1 ≡ none
