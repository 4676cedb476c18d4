-- ===== src/Server/State.antt =====
-- server.go: `Server` and the steps of its two loops. The node servers of proxy/ and Go's
-- `reflect.DeepEqual` are parameters; logging is left out.
use ne_xt_server.Base.{
  ℕ, ◌≡◌, ◌↔◌, Bool, true, false, ◌&&◌, Option, none, some, List, ◌∷◌, ◌==◌, if◌then◌else◌,
}
use ne_xt_server.Adapter.{User, DetectRule}
use ne_xt_server.Base.Result.{Result, ok, err}
use ne_xt_server.Panel.Config.{NodeConfig}
use ne_xt_server.Panel.Client.{ClientError}
use ne_xt_server.Users.State.{LimiterOps}
use ne_xt_server.Users.Table.{Table, update}
use ne_xt_server.Audit.Auditor.{Auditor, set_rules}
use ne_xt_server.Server.Fetched.{users_to_apply, apply_to}

-- `adapter.NodeServer`, `proxy.New` and `reflect.DeepEqual`.
pub record NodeApi : Type 1 where
  pub NodeServer : Type 0
  pub Error : Type 0
  pub Regexp : Type 0
  pub new_server : NodeConfig → Result Error NodeServer
  pub update_users : NodeServer → List User → NodeServer × Option Error
  pub start_server : NodeServer → NodeServer × Option Error
  pub deep_equal : NodeConfig → NodeConfig → Bool
  pub deep_equal_iff : (a b : NodeConfig) → (deep_equal a b ≡ true) ↔ (a ≡ b)

-- The fields that change. `closed` has the node servers that were closed.
pub record Server (ops : LimiterOps) (api : NodeApi) : Type 0 where
  pub users : Table ops.Limiter
  pub auditor : Auditor api.Regexp
  pub node_config : NodeConfig
  pub running_config : Option NodeConfig
  pub node_server : Option api.NodeServer
  pub user_list : List User
  pub last_push : ℕ
  pub closed : List api.NodeServer

abbrev pub without_limit : NodeConfig → NodeConfig
without_limit c = record c { speed_limit = 0 }

module _ (ops : LimiterOps) (api : NodeApi) where
  open api use {NodeServer, Error, Regexp, new_server, update_users, start_server, deep_equal}

  unfoldable pub same_listener : NodeConfig → Option NodeConfig → Bool
  same_listener a none = false
  same_listener a (some b) = deep_equal (without_limit a) (without_limit b)

  unfoldable pub apply_limit : Server ops api → Option NodeConfig → Server ops api
  apply_limit s none = s
  apply_limit s (some running) =
      if s.node_config.speed_limit == running.speed_limit
      then s
      else record s { users = update ops s.users s.user_list s.node_config.speed_limit }

  abbrev pub close_into : Option NodeServer → List NodeServer → List NodeServer
  close_into none closed = closed
  close_into (some n) closed = n ∷ closed

  abbrev pub is_some {ℓ} : {A : Type ℓ} → Option A → Bool
  is_some none = false
  is_some (some _) = true

  -- The node server that runs, if any, is closed.
  unfoldable pub stop_node : Server ops api → Server ops api
  stop_node s = record s {
    closed = close_into s.node_server s.closed;
    node_server = none;
    running_config = if is_some s.node_server then none else s.running_config;
  }

  -- A new node server that is ready takes over, and one that is not is closed.
  unfoldable pub started :
      Server ops api → NodeServer × Option Error → Server ops api × Option Error
  started s (n, some e) = (record s { closed = n ∷ s.closed }, some e)
  started s (n, none) =
      (record s { node_server = some n; running_config = some s.node_config }, none)

  unfoldable pub filled : Server ops api → NodeServer × Option Error → Server ops api × Option Error
  unfolding started
  filled s (n, some e) = (record s { closed = n ∷ s.closed }, some e)
  filled s (n, none) = started s (start_server n)

  unfoldable pub created : Server ops api → Result Error NodeServer → Server ops api × Option Error
  unfolding filled
  created s (err e) = (s, some e)
  created s (ok n) = filled s (update_users n s.user_list)

  -- Whether the running node server serves the config's listener already.
  abbrev pub is_current : Server ops api → Bool
  is_current s = is_some s.node_server && same_listener s.node_config s.running_config

  -- The node server stays, or is replaced.
  unfoldable pub replace_unless : Bool → Server ops api → Server ops api × Option Error
  unfolding stop_node created
  replace_unless true s = (record s { running_config = some s.node_config }, none)
  replace_unless false s = created (stop_node s) (new_server s.node_config)

  unfoldable pub sync_node_server : Server ops api → Server ops api × Option Error
  unfolding same_listener apply_limit replace_unless
  sync_node_server s = let s' = apply_limit s s.running_config in replace_unless (is_current s') s'

  unfoldable pub authenticate : Server ops api → Option NodeServer → List User → Server ops api
  authenticate s none users = s
  authenticate s (some n) users = record s { node_server = some (update_users n users).0 }

  unfoldable pub apply_users : Server ops api → List User → Server ops api
  unfolding authenticate
  apply_users s users =
      authenticate
        (record s { users = update ops s.users users s.node_config.speed_limit; user_list = users })
        s.node_server users

  abbrev pub apply_fetched : Server ops api → Option (List User) → Server ops api
  apply_fetched s none = s
  apply_fetched s (some users) = apply_users s users

  abbrev pub pull_detect_rules : Server ops api → Option (List (DetectRule Regexp)) → Server ops api
  pull_detect_rules s none = s
  pull_detect_rules s (some rules) = record s { auditor = set_rules s.auditor rules }

  abbrev pub config_to_apply : Result ClientError (Option NodeConfig) → Option NodeConfig
  config_to_apply (ok config) = config
  config_to_apply (err e) = none

  -- `pullOnce`, with what its three fetches return.
  unfoldable pub pull_once :
      Server ops api
      → Result ClientError (Option NodeConfig)
      → Result ClientError (Option (List User))
      → Option (List (DetectRule Regexp))
      → Server ops api
  unfolding sync_node_server apply_users users_to_apply
  pull_once s config users rules =
      let s' = record s { node_config = apply_to (config_to_apply config) s.node_config } in
      let s'' = (sync_node_server s').0 in
      pull_detect_rules (apply_fetched s'' (users_to_apply users)) rules

  -- The first push looks back to the start.
  abbrev pub stamped : ℕ → Server ops api × Option Error → Server ops api × Option Error
  stamped now (s, none) = (record s { last_push = now }, none)
  stamped now (s, some e) = (s, some e)

  -- `Start`, with what its fetches return; an error ends the program.
  unfoldable pub start_node :
      Server ops api
      → NodeConfig
      → List User
      → Option (List (DetectRule Regexp))
      → ℕ
      → Server ops api × Option Error
  unfolding sync_node_server apply_users
  start_node s config users rules now =
      let s' = apply_users (record s { node_config = config }) users in
      stamped now (sync_node_server (pull_detect_rules s' rules))
