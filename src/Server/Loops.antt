-- ===== src/Server/Loops.antt =====
-- server.go: whole operations as runs of Users.Ledger: `Start`, `pullOnce`, `pushOnce` and `Close`.
use ne_xt_server.Users.Ledger.Sound.{IsSound, restore-IsSound}
use ne_xt_server.Base.Int.{ℤ}
use Prim.Native.String.{String}
use ne_xt_server.Netip.{Addr}
use ne_xt_server.Server.Push.{push_once, online_users, push_traffic, is_nil}
use ne_xt_server.Server.Life.{
  with_users, without_config, started_node, start_server, users_at_start,
}
use ne_xt_server.Server.Fetched.{apply_to, users_to_apply}
use ne_xt_server.Adapter.{User, DetectRule, UserTraffic}
use ne_xt_server.Panel.Config.{NodeConfig}
use ne_xt_server.Panel.Client.{ClientError}
use ne_xt_server.Server.Steps.{
  Leads, rules_users, sync-Leads, apply_users-Leads, Leads-refl, Leads-trans, look-Leads, ledger,
}
use ne_xt_server.Users.Table.{Table, collect_traffic, restore_traffic, modify}
use ne_xt_server.Server.State.{
  NodeApi, pull_once, Server, config_to_apply, sync_node_server, apply_fetched, start_node, stamped,
  apply_users, pull_detect_rules,
}
use ne_xt_server.Users.State.{LimiterOps, online_ips}
use ne_xt_server.Base.{
  ℕ, ◌≡◌, refl, sym, subst, Bool, true, false, ◌||◌, Option, none, some, List, [], ◌∷◌, ◌++◌,
  if◌then◌else◌, inl, inr, Bool-cases,
}
use ne_xt_server.Users.Ledger.{Reach, next, here, accepted, failed}
use ne_xt_server.Base.Result.{Result, ok, err}

module _ (ops : LimiterOps) (api : NodeApi) where
  open ops use {Limiter}
  open api use {Error, Regexp}

  -- `pullOnce` up to `syncNodeServer`.
  abbrev pub with_config : Server ops api → Result ClientError (Option NodeConfig) → Server ops api
  with_config s config =
      (sync_node_server ops api
        (record s { node_config = apply_to (config_to_apply ops api config) s.node_config })).0

  -- The three parts of a pull, each after its own fetch.
  pub pull_once_parts :
      (s : Server ops api) (config : Result ClientError (Option NodeConfig))
      (users : Result ClientError (Option (List User))) (rules : Option (List (DetectRule Regexp)))
      → pull_once ops api s config users rules
        ≡ pull_detect_rules ops api
            (apply_fetched ops api (with_config s config) (users_to_apply users))
            rules
  unfolding pull_once
  pull_once_parts s config users rules = refl

  pub with_config-Leads :
      (s : Server ops api) (config : Result ClientError (Option NodeConfig))
      → Leads ops s.users (with_config s config).users
  with_config-Leads s config =
      sync-Leads ops api
        (record s { node_config = apply_to (config_to_apply ops api config) s.node_config })

  pub rules-Leads :
      (s : Server ops api) (rules : Option (List (DetectRule Regexp)))
      → Leads ops s.users (pull_detect_rules ops api s rules).users
  rules-Leads s rules =
      subst (Leads ops s.users) (sym (rules_users ops api s rules)) (Leads-refl ops s.users)

  stamped_users :
      (now : ℕ) (r : Server ops api × Option Error) → (stamped ops api now r).0.users ≡ r.0.users
  stamped_users now (s, none) = refl
  stamped_users now (s, some e) = refl

  start_node-Leads :
      (s : Server ops api) (config : NodeConfig) (users : List User)
      (rules : Option (List (DetectRule Regexp))) (now : ℕ)
      → Leads ops s.users (start_node ops api s config users rules now).0.users
  unfolding start_node
  start_node-Leads s config users rules now =
      let s' = apply_users ops api (record s { node_config = config }) users in
      let s'' = pull_detect_rules ops api s' rules in
      subst (Leads ops s.users) (sym (stamped_users now (sync_node_server ops api s''))) (
        Leads-trans ops (apply_users-Leads ops api (record s { node_config = config }) users) (
          Leads-trans ops
            (subst (Leads ops s'.users) (sym (rules_users ops api s' rules))
              (Leads-refl ops s'.users))
            (sync-Leads ops api s'')))

  started_node_users :
      (r : Server ops api × Option Error) → (started_node ops api r).0.users ≡ r.0.users
  unfolding started_node
  started_node_users (s, none) = refl
  started_node_users (s, some e) = refl

  with_users-Leads :
      (s : Server ops api) (config : NodeConfig) (users : Result ClientError (List User))
      (rules : Option (List (DetectRule Regexp))) (now : ℕ)
      → Leads ops s.users (with_users ops api s config users rules now).0.users
  unfolding with_users
  with_users-Leads s config (err e) rules now = Leads-refl ops s.users
  with_users-Leads s config (ok users) rules now =
      subst (Leads ops s.users)
        (sym (started_node_users (start_node ops api s config users rules now)))
        (start_node-Leads s config users rules now)

  without_config-Leads :
      (s : Server ops api) (users : Result ClientError (List User))
      → Leads ops s.users (without_config ops api s users).0.users
  without_config-Leads s (err e) = Leads-refl ops s.users
  without_config-Leads s (ok users) = Leads-refl ops s.users

  pub start_server-Leads :
      (s : Server ops api) (config : Result ClientError (Option NodeConfig))
      (users : Result ClientError (Option (List User))) (rules : Option (List (DetectRule Regexp)))
      (now : ℕ)
      → Leads ops s.users (start_server ops api s config users rules now).0.users
  unfolding start_server
  start_server-Leads s (err e) users rules now = Leads-refl ops s.users
  start_server-Leads s (ok none) users rules now = without_config-Leads s (users_at_start users)
  start_server-Leads s (ok (some config)) users rules now =
      with_users-Leads s config (users_at_start users) rules now

-- The items of a report that the panel took, or none.
abbrev pub taken_if : Bool → List UserTraffic → List UserTraffic
taken_if true items = items
taken_if false items = []

-- What becomes of the table when the panel has answered a report, or there was none.
abbrev pub settle : {L : Type 0} → Table L → List UserTraffic → Bool → Table L
settle t items took = if is_nil items || took then t else restore_traffic t items

pub settle-IsSound :
    (ops : LimiterOps) (t : Table ops.Limiter) (items : List UserTraffic) (took : Bool)
    → IsSound t
    → IsSound (settle t items took)
settle-IsSound ops t items took s = elim (Bool-cases (is_nil items || took)) [
  | inl e ↦ rw e s
  | inr e ↦ rw e (restore-IsSound ops t items s)
]

module _ {ops : LimiterOps} where
  open ops use {Limiter}

  online_users-Leads :
      (addr_string : Addr → String) (t : Table Limiter) (since : ℕ) (users : List (ℤ × ℕ))
      → Leads ops t (online_users addr_string t since users).0
  unfolding online_users
  online_users-Leads addr_string t since [] = Leads-refl ops t
  online_users-Leads addr_string t since ((id, p) ∷ users) =
      Leads-trans ops (look-Leads ops t p since)
        (online_users-Leads addr_string (modify t p (λ u. (online_ips u since).1)) since users)

  pub settled :
      (t : Table Limiter) (items : List UserTraffic) (took : Bool)
      (delivered carried : List UserTraffic)
      → Reach ops
          (ledger t items delivered carried)
          (ledger (settle t items took) [] (taken_if took items ++ delivered) carried)
  settled t [] true delivered carried = here
  settled t [] false delivered carried = here
  settled t (x ∷ items) true delivered carried =
      next here (accepted (ledger t (x ∷ items) delivered carried))
  settled t (x ∷ items) false delivered carried =
      next here (failed (ledger t (x ∷ items) delivered carried))

module _ (ops : LimiterOps) (api : NodeApi) (addr_string : Addr → String) where
  -- The loop of `pushOnce` over the users.
  abbrev pub looked : Server ops api → Table ops.Limiter
  looked s = (online_users addr_string s.users s.last_push s.users.current).0

  -- The parts of a push that concern the table: the look at the users, and after the heartbeat the
  -- report, which takes what is counted and is settled when the panel has answered.
  pub push_once_parts :
      (s : Server ops api) (now : ℕ) (traffic_accepted logs_accepted : Bool)
      → let (s', sent) = push_once ops api addr_string s now traffic_accepted logs_accepted in
        let (t, items) = collect_traffic (looked s) in
        (s'.users ≡ settle t items traffic_accepted) × (sent.traffic ≡ items) × (s'.last_push ≡ now)
  unfolding push_once push_traffic
  push_once_parts s now traffic_accepted logs_accepted = (refl, refl, refl)

  pub looked-Leads : (s : Server ops api) → Leads ops s.users (looked s)
  looked-Leads s = online_users-Leads addr_string s.users s.last_push s.users.current
