-- ===== src/Server/Life.antt =====
-- server.go: `Start` with the answers of the panel, and `Close`.
use ne_xt_server.Base.{
  ℕ, ◌≡◌, Option, none, some, List, [], ◌%◌, ◌^◌, ap, ◌∙◌, inl, inr, Bool, ◌||◌, if◌then◌else◌,
  Bool-cases,
}
use ne_xt_server.Netip.{Addr}
use ne_xt_server.Server.Push.{
  push_once, push_once-pending, online-pending, online_users, push_traffic, is_nil,
}
use ne_xt_server.Users.Collect.Report.{collect-IsValid, collect_reports}
use ne_xt_server.Users.Restore.Find.{restore-IsValid}
use ne_xt_server.Users.Table.{Table, collect_traffic}
use ne_xt_server.Base.Result.{Result, ok, err}
use ne_xt_server.Panel.Client.{ClientError, node_unavailable, request, bad_config}
use ne_xt_server.Panel.Config.{NodeConfig}
use ne_xt_server.Adapter.{User, UserTraffic, DetectRule}
use ne_xt_server.Base.Int.{ℤ}
use ne_xt_server.Users.State.{LimiterOps}
use ne_xt_server.Users.Pending.{Direction, pending, reported, IsValid}
use ne_xt_server.Server.State.{NodeApi, Server, start_node, close_into}
use Prim.Native.String.{String}

-- How a start ends. The panel answers a first request with a config; one that answered "not modified"
-- would leave no config, which the program does not survive.
pub data StartOutcome (Error : Type 0) : Type 0 where
  running panicked : StartOutcome Error
  config_failed users_failed : ClientError → StartOutcome Error
  node_failed : Error → StartOutcome Error

-- A panel that serves no users to the node is no error.
unfoldable pub users_at_start :
    Result ClientError (Option (List User)) → Result ClientError (List User)
users_at_start (err (node_unavailable code)) = ok []
users_at_start (err (request e)) = err (request e)
users_at_start (err (bad_config e)) = err (bad_config e)
users_at_start (ok none) = ok []
users_at_start (ok (some users)) = ok users

module _ (ops : LimiterOps) (api : NodeApi) where
  open api use {NodeServer, Error, Regexp}

  unfoldable pub started_node : Server ops api × Option Error → Server ops api × StartOutcome Error
  started_node (s, none) = (s, running)
  started_node (s, some e) = (s, node_failed e)

  unfoldable pub with_users :
      Server ops api
      → NodeConfig
      → Result ClientError (List User)
      → Option (List (DetectRule Regexp))
      → ℕ
      → Server ops api × StartOutcome Error
  unfolding started_node
  with_users s config (err e) rules now = (record s { node_config = config }, users_failed e)
  with_users s config (ok users) rules now =
      started_node (start_node ops api s config users rules now)

  -- Without a config an error of the second fetch still comes first.
  abbrev pub without_config :
      Server ops api → Result ClientError (List User) → Server ops api × StartOutcome Error
  without_config s (err e) = (s, users_failed e)
  without_config s (ok users) = (s, panicked)

  -- `Start`
  unfoldable pub start_server :
      Server ops api
      → Result ClientError (Option NodeConfig)
      → Result ClientError (Option (List User))
      → Option (List (DetectRule Regexp))
      → ℕ
      → Server ops api × StartOutcome Error
  unfolding with_users users_at_start
  start_server s (err e) users rules now = (s, config_failed e)
  start_server s (ok none) users rules now = without_config s (users_at_start users)
  start_server s (ok (some config)) users rules now =
      with_users s config (users_at_start users) rules now

  -- `Close`: the node server is closed, and the traffic that is left is reported, once.
  unfoldable pub close_server : Server ops api → Server ops api × List UserTraffic
  close_server s =
      let (t, items) = collect_traffic s.users in
      (record s { users = t; closed = close_into ops api s.node_server s.closed }, items)

  -- The last report has exactly what the table counts of every user, in both directions, so that
  -- nothing is left.
  pub close_server-pending :
      (s : Server ops api) (d : Direction) (id : ℤ)
      → IsValid s.users
      → (reported d id (close_server s).1 ≡ pending d id s.users)
        × (pending d id (close_server s).0.users ≡ 0)
  unfolding close_server
  close_server-pending s d id v = collect_reports s.users d id v

push_traffic-IsValid :
    {L : Type 0} (t : Table L) (accepted : Bool) → IsValid t → IsValid (push_traffic t accepted).0
unfolding push_traffic
push_traffic-IsValid t accepted v =
    let (t', items) = collect_traffic t in
    let collected : IsValid t' = collect-IsValid t v in
    elim (Bool-cases (is_nil items || accepted)) [
      | inl e ↦ rw e collected
      | inr e ↦ rw e (restore-IsValid t' items collected)
    ]

-- A close after a push: if the panel took the push's report, which has all that the table counts, the
-- last report has nothing, and if not, the last report has all of it again, modulo 2^64, the range of
-- the counters. Nothing is left in the table.
pub close_server-push_once :
    (ops : LimiterOps) (api : NodeApi) (addr_string : Addr → String) (s : Server ops api) (now : ℕ)
    (traffic_accepted logs_accepted : Bool) (d : Direction) (id : ℤ)
    → IsValid s.users
    → let (s', sent) = push_once ops api addr_string s now traffic_accepted logs_accepted in
      (reported d id sent.traffic ≡ pending d id s.users)
      × (reported d id (close_server ops api s').1 % 2 ^ 64
          ≡ (if traffic_accepted then 0 else pending d id s.users) % 2 ^ 64)
      × (pending d id (close_server ops api s').0.users ≡ 0)
close_server-push_once ops api addr_string s now traffic_accepted logs_accepted d id v =
    let s' = (push_once ops api addr_string s now traffic_accepted logs_accepted).0 in
    let (sent, left) =
      push_once-pending ops api addr_string s now traffic_accepted logs_accepted d id v in
    let v' : IsValid s'.users =
      unfold push_once in
      push_traffic-IsValid (online_users addr_string s.users s.last_push s.users.current).0
        traffic_accepted
        (online-pending addr_string d id s.users s.last_push s.users.current v).0 in
    let (taken, rest) = close_server-pending ops api s' d id v' in
    (sent, ap (λ n. n % 2 ^ 64) taken ∙ left, rest)
