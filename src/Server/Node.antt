-- ===== src/Server/Node.antt =====
-- What `syncNodeServer` leaves running.
use ne_xt_server.Base.{
  ◌≢◌, List, ap, sym, ◌∙◌, Bool-cases, if◌then◌else◌, ◌==◌, ◌≡◌, refl, ◌⊎◌, inl, inr, Bool, true,
  false, Option, none, some, arith,
}
use ne_xt_server.Base.Result.{Result, ok, err}
use ne_xt_server.Panel.Config.{NodeConfig}
use ne_xt_server.Users.Table.{update}
use ne_xt_server.Adapter.{User}
use ne_xt_server.Users.State.{LimiterOps}
use ne_xt_server.Server.State.{
  is_current, replace_unless, NodeApi, Server, sync_node_server, apply_limit, stop_node, created,
  filled, started, same_listener, without_limit,
}

-- The config that a node server was made with, which it serves to its end.
pub record Made (api : NodeApi) : Type 0 where
  pub made_with : api.NodeServer → NodeConfig
  pub made : (c : NodeConfig) (n : api.NodeServer) → api.new_server c ≡ ok n → made_with n ≡ c
  pub filled :
      (n : api.NodeServer) (users : List User)
      → made_with (api.update_users n users).0 ≡ made_with n
  pub started : (n : api.NodeServer) → made_with (api.start_server n).0 ≡ made_with n

module _ (ops : LimiterOps) (api : NodeApi) (made : Made api) where
  open api use {Error, NodeServer}

  -- A node server serves a config, but for the speed limit, which needs no listener.
  abbrev pub Serves : NodeServer → NodeConfig → Type 0
  Serves n c = without_limit (made.made_with n) ≡ without_limit c

  -- A node server runs that serves the config, and the config is the one that counts as running.
  abbrev pub Runs : NodeConfig → Server ops api → Type 0
  Runs c s =
      ((n : NodeServer) × (s.node_server ≡ some n) × Serves n c) × (s.running_config ≡ some c)

  abbrev pub IsDown : Server ops api → Type 0
  IsDown s = (s.node_server ≡ none) × (s.running_config ≡ none)

  -- Nothing runs, or a node server that serves the running config.
  abbrev pub IsConsistent : Server ops api → Type 0
  IsConsistent s = IsDown s ⊎ ((c : NodeConfig) × Runs c s)

  -- What a sync leaves: the panel's config running, or nothing.
  abbrev pub Settles : Server ops api × Option Error → Type 0
  Settles (s, none) = Runs s.node_config s
  Settles (s, some e) = IsDown s

  started-Settles :
      (s : Server ops api) (r : NodeServer × Option Error)
      → IsDown s
      → Serves r.0 s.node_config
      → Settles (started ops api s r)
  unfolding started
  started-Settles s (n, none) down serves = ((n, refl, serves), refl)
  started-Settles s (n, some e) down serves = down

  filled-Settles :
      (s : Server ops api) (r : NodeServer × Option Error)
      → IsDown s
      → Serves r.0 s.node_config
      → Settles (filled ops api s r)
  unfolding filled
  filled-Settles s (n, none) down serves =
      started-Settles s (api.start_server n) down (ap without_limit (made.started n) ∙ serves)
  filled-Settles s (n, some e) down serves = down

  created-Settles :
      (s : Server ops api) (r : Result Error NodeServer)
      → IsDown s
      → api.new_server s.node_config ≡ r
      → Settles (created ops api s r)
  unfolding created
  created-Settles s (ok n) down e =
      filled-Settles s (api.update_users n s.user_list) down
        (ap without_limit (made.filled n s.user_list ∙ made.made s.node_config n e))
  created-Settles s (err e) down same = down

  pub stop_node-IsDown : (s : Server ops api) → IsConsistent s → IsDown (stop_node ops api s)
  unfolding stop_node
  stop_node-IsDown s (inl (a, b)) = (refl, rw a b)
  stop_node-IsDown s (inr (c, ((n, e, serves), runs))) = (refl, rw e refl)

  -- The listener stays only if the running node server serves the panel's config already.
  pub current-Serves :
      (s : Server ops api)
      → IsConsistent s
      → is_current ops api s ≡ true
      → (n : NodeServer) × (s.node_server ≡ some n) × Serves n s.node_config
  unfolding same_listener
  current-Serves s (inl (a, b)) h = absurd (cc (rw a at h))
  current-Serves s (inr (c, ((n, e, serves), runs))) h =
      let same : same_listener ops api s.node_config (some c) ≡ true = rw (e, runs) at h in
      (
        n,
        e,
        serves ∙ sym ((api.deep_equal_iff (without_limit s.node_config) (without_limit c)).0 same),
      )

  replace-Settles :
      (b : Bool) (s : Server ops api)
      → IsConsistent s
      → is_current ops api s ≡ b
      → Settles (replace_unless ops api b s)
  unfolding replace_unless
  replace-Settles true s k h = (current-Serves s k h, refl)
  replace-Settles false s k h =
      created-Settles (stop_node ops api s) (api.new_server s.node_config) (stop_node-IsDown s k)
        (unfold stop_node in refl)

  pub limit-IsConsistent :
      (s : Server ops api) (o : Option NodeConfig)
      → IsConsistent s
      → IsConsistent (apply_limit ops api s o)
  unfolding apply_limit
  limit-IsConsistent s none k = k
  limit-IsConsistent s (some c) k = elim (Bool-cases (s.node_config.speed_limit == c.speed_limit)) [
    | inl e ↦ rw e k
    | inr e ↦ rw e k
  ]

  -- From a state in which nothing runs, or a node server that serves the running config: after a sync
  -- without an error a node server runs that was made with the panel's config, up to the speed limit,
  -- and this config counts as running; after an error nothing runs, so that the next pull builds a node
  -- server again.
  pub sync_node_server-Settles :
      (s : Server ops api) → IsConsistent s → Settles (sync_node_server ops api s)
  unfolding sync_node_server
  sync_node_server-Settles s k =
      let s' = apply_limit ops api s s.running_config in
      replace-Settles (is_current ops api s') s' (limit-IsConsistent s s.running_config k) refl

module _ (ops : LimiterOps) (api : NodeApi) where
  open api use {Error, NodeServer}

  -- A sync keeps the running node server when the config differs in the speed limit at most, and
  -- updates the users' table with the new limit if it does.
  pub sync_node_server-keeps :
      (s : Server ops api) (n : NodeServer) (c : NodeConfig)
      → s.node_server ≡ some n
      → s.running_config ≡ some c
      → without_limit s.node_config ≡ without_limit c
      → let (s', e) = sync_node_server ops api s in
        (e ≡ none)
        × (s'.node_server ≡ some n)
        × (s'.closed ≡ s.closed)
        × (s'.users ≡ (
            if s.node_config.speed_limit == c.speed_limit
            then s.users
            else update ops s.users s.user_list s.node_config.speed_limit))
  unfolding sync_node_server apply_limit same_listener replace_unless
  sync_node_server-keeps s n c runs config same =
      ground (arith, (api.deep_equal_iff (without_limit s.node_config) (without_limit c)).1 same)

  -- While no node server runs, a sync leaves the users' table as it is, also when the panel has
  -- changed the speed limit; and when the rebuild succeeds, the config counts as running, so that a
  -- later sync does not see the change either.
  pub sync_node_server_down :
      (s : Server ops api)
      → s.running_config ≡ none
      → s.node_server ≡ none
      → let (s', e) = sync_node_server ops api s in
        (s'.users ≡ s.users) × ((e ≢ none) ⊎ ((sync_node_server ops api s').0.users ≡ s.users))
  unfolding sync_node_server apply_limit same_listener replace_unless stop_node created filled
      started
  sync_node_server_down s idle down = ground arith
