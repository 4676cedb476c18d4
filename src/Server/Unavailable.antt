-- ===== src/Server/Unavailable.antt =====
-- server.go and api/serverv1/client.go: the panel serves no users to the node any more.
use Prim.Native.String.{String}
use ne_xt_server.Adapter.{User, DetectRule}
use ne_xt_server.Base.Assoc.{lookup}
use ne_xt_server.Base.Int.{ℤ, ℤ_discrete}
use ne_xt_server.Base.Result.{Result, err}
use ne_xt_server.Panel.Client.{Client, ClientError, Exchange, if_none_match, node_unavailable}
use ne_xt_server.Panel.Config.{FloatApi, NodeConfig}
use ne_xt_server.Panel.Fetch.{RawUser, fetch_users}
use ne_xt_server.Server.Fetched.{apply_to, users_to_apply}
use ne_xt_server.Server.State.{
  NodeApi, Server, pull_once, config_to_apply, sync_node_server, apply_users, authenticate,
}
use ne_xt_server.Server.Steps.{rules_users}
use ne_xt_server.Server.Sync.{fetch_users_unavailable}
use ne_xt_server.Users.State.{LimiterOps}
use ne_xt_server.Users.Table.{Table, get, update, serve}
use ne_xt_server.Users.Update.Balance.{retire_frame}
use ne_xt_server.Base.{ℕ, ◌≡◌, refl, ap, ◌∙◌, Option, none, some, List, []}

module _ (ops : LimiterOps) where
  open ops use {Limiter}

  update-nil :
      (t : Table Limiter) (node_limit : ℕ) (id : ℤ) → get (update ops t [] node_limit) id ≡ none
  unfolding get update serve lookup
  update-nil t node_limit id = ap (lookup ℤ_discrete id) (retire_frame _ _ t.current).0

  module _ (api : NodeApi) where
    authenticate_frame :
        (s : Server ops api) (o : Option api.NodeServer) (users : List User)
        → ((authenticate ops api s o users).users ≡ s.users)
          × ((authenticate ops api s o users).user_list ≡ s.user_list)
    unfolding authenticate
    authenticate_frame s none users = (refl, refl)
    authenticate_frame s (some n) users = (refl, refl)

    module _ (floats : FloatApi) (error_code : List ℕ → Option String)
        (decode : List ℕ → Option (List (RawUser floats.Float))) where
      -- A pull whose users the panel refuses to serve to the node leaves a table that serves nobody,
      -- whatever the pull's other fetches return, and the next request for the users carries no ETag, so
      -- that the panel's next list cannot be taken for an unchanged one.
      pub pull_once_unavailable :
          (s : Server ops api) (config : Result ClientError (Option NodeConfig))
          (rules : Option (List (DetectRule api.Regexp))) (exchange : Option String → Exchange)
          (c : Client) (code : String) (id : ℤ)
          → (fetch_users floats error_code decode exchange c).1 ≡ err (node_unavailable code)
          → let (c', users) = fetch_users floats error_code decode exchange c in
            (get (pull_once ops api s config users rules).users id ≡ none)
            × (if_none_match c'.users_etag ≡ none)
      unfolding pull_once apply_users users_to_apply
      pull_once_unavailable s config rules exchange c code id h =
          let c' = apply_to (config_to_apply ops api config) s.node_config in
          let s' = (sync_node_server ops api (record s { node_config = c' })).0 in
          let s'' =
            authenticate ops api
              (record s' {
                users = update ops s'.users [] s'.node_config.speed_limit;
                user_list = [];
              })
              s'.node_server [] in
          (
            rw h (
                ap (λ t. get t id)
                  (rules_users ops api s'' rules ∙ (authenticate_frame _ s'.node_server []).0)
                ∙ update-nil s'.users s'.node_config.speed_limit id),
            (fetch_users_unavailable floats error_code decode (λ v. []) exchange c [] code h).1,
          )
