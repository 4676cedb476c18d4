-- ===== src/Server/Runs.antt =====
-- server.go and router.go: a server from `NewServer` to `Close`, with the traffic of its users.
use ne_xt_server.Server.Fetched.{users_to_apply}
use ne_xt_server.Users.Ledger.Sound.{
  IsSound, start-IsSound, transfer-IsSound, disconnect-IsSound, collect-IsSound,
}
use ne_xt_server.Router.Packet.{PacketApi, route_packet_connection}
use ne_xt_server.Metadata.{Metadata}
use ne_xt_server.Audit.Auditor.{Auditor}
use ne_xt_server.Users.Ledger.Balance.{run_balances}
use ne_xt_server.Server.Life.{close_server-pending, close_server, start_server}
use ne_xt_server.Panel.Config.{NodeConfig}
use ne_xt_server.Server.Steps.{
  ledger, Reach-trans, route_connection-Leads, Leads, route_packet_connection-Leads, fetched-Leads,
}
use ne_xt_server.Server.Loops.{
  taken_if, start_server-Leads, with_config, with_config-Leads, looked, rules-Leads, looked-Leads,
  settle, settled, settle-IsSound,
}
use ne_xt_server.Base.Int.{ℤ, is_positive}
use ne_xt_server.Users.Pending.{Direction, reported, pending, reported-append}
use ne_xt_server.Panel.Client.{ClientError}
use ne_xt_server.Users.Table.{Table, modify, collect_traffic}
use Prim.Native.String.{String}
use ne_xt_server.Adapter.{UserTraffic, User, DetectRule}
use ne_xt_server.Netip.{Addr}
use ne_xt_server.Router.Route.{RouterApi, route_connection}
use ne_xt_server.Server.State.{NodeApi, Server, apply_fetched, pull_detect_rules}
use ne_xt_server.Users.State.{LimiterOps, add_traffic, close_connection}
use ne_xt_server.Base.{
  ℕ, ◌%◌, ◌^◌, ◌≡◌, refl, sym, subst, Bool, Option, List, [], ◌∷◌, ◌++◌, arith, true,
}
use ne_xt_server.Users.Ledger.{collect, start, transfer, disconnect, Reach, Ledger, here, next}
use ne_xt_server.Base.Result.{Result}

-- Beside the server: the report that is on its way, what the panel took, and what the connections
-- carried.
pub record Node (ops : LimiterOps) (api : NodeApi) : Type 0 where
  pub server : Server ops api
  pub in_flight : List UserTraffic
  pub delivered : List UserTraffic
  pub carried : List UserTraffic

module _ (ops : LimiterOps) (api : NodeApi) (router : RouterApi) (addr_string : Addr → String) where
  open ops use {Limiter}
  open api use {Regexp}

  abbrev pub with_table : Node ops api → Table Limiter → Node ops api
  with_table s t = record s { server = record (s.server) { users = t } }

  -- What happens to a server, one step after the other, none of them beside another: it starts; a pull does its parts, each with the panel's answer; a push
  -- looks at the users, takes a report when none is on its way, and settles it when the panel has
  -- answered; the router takes a connection or a packet session, with any settings and rules; and one
  -- that is open carries bytes, or ends.
  pub data Step (s s' : Node ops api) : Type 0 where
    starts :
        (config : Result ClientError (Option NodeConfig))
        (users : Result ClientError (Option (List User)))
        (rules : Option (List (DetectRule Regexp))) (now : ℕ)
        → s' ≡ record s { server = (start_server ops api s.server config users rules now).0 }
        → Step s s'
    syncs :
        (config : Result ClientError (Option NodeConfig))
        → s' ≡ record s { server = with_config ops api s.server config }
        → Step s s'
    applies :
        (users : Result ClientError (Option (List User)))
        → s' ≡ record s { server = apply_fetched ops api s.server (users_to_apply users) }
        → Step s s'
    sets_rules :
        (rules : Option (List (DetectRule Regexp)))
        → s' ≡ record s { server = pull_detect_rules ops api s.server rules }
        → Step s s'
    looks :
        (now : ℕ)
        → s' ≡ record s {
          server = record (s.server) {
            users = looked ops api addr_string s.server;
            last_push = now;
          };
        }
        → Step s s'
    takes :
        s.in_flight ≡ []
        → s' ≡ record (with_table s (collect_traffic s.server.users).0) {
          in_flight = (collect_traffic s.server.users).1;
        }
        → Step s s'
    settles :
        (took : Bool)
        → s' ≡ record (with_table s (settle s.server.users s.in_flight took)) {
          in_flight = [];
          delivered = taken_if took s.in_flight ++ s.delivered;
        }
        → Step s s'
    routes :
        (resolve_domain allow_private : Bool) (a : Auditor router.matching.Regexp)
        (user_id : Option ℤ) (m : Metadata) (now : ℕ)
        → s'
          ≡ with_table s
              (route_connection router resolve_domain allow_private s.server.users a user_id m
                now).0
        → Step s s'
    routes_packets :
        (packets : PacketApi) (resolve_domain allow_private : Bool)
        (a : Auditor router.matching.Regexp) (user_id : Option ℤ) (m : Metadata) (now : ℕ)
        → s'
          ≡ with_table s
              (route_packet_connection router packets resolve_domain allow_private s.server.users a
                user_id m now).0
        → Step s s'
    carries :
        (p up down : ℕ)
        → is_positive (s.server.users.states p).active ≡ true
        → s' ≡ record (with_table s (modify s.server.users p (add_traffic up down))) {
          carried =
              record { user_id = (s.server.users.states p).id; upload = up; download = down }
              ∷ s.carried;
        }
        → Step s s'
    ends :
        (p activity now : ℕ)
        → s' ≡ with_table s (modify s.server.users p (λ u. close_connection u activity now))
        → Step s s'

  -- Every run of a server that `NewServer` made.
  pub data Run : Node ops api → Type 0 where
    made :
        (server : Server ops api)
        → server.users ≡ start.table
        → Run (record { server = server; in_flight = []; delivered = []; carried = [] })
    then_step : {s s' : Node ops api} → Run s → Step s s' → Run s'

  abbrev pub ledger_of : Node ops api → Ledger Limiter
  ledger_of s = ledger s.server.users s.in_flight s.delivered s.carried

  -- What a run keeps: it is a run of the ledger, and the table is sound.
  record Follows (s : Node ops api) : Type 0 where
    reach : Reach ops start (ledger_of s)
    sound : IsSound s.server.users

  follow_table :
      (s : Node ops api) (server : Server ops api)
      → Follows s
      → Leads ops s.server.users server.users
      → Follows (record s { server = server })
  follow_table s server k l = record {
    reach = Reach-trans ops k.reach (l.run s.in_flight s.delivered s.carried);
    sound = l.sound k.sound;
  }

  Step-Follows : {s s' : Node ops api} → Step s s' → Follows s → Follows s'
  Step-Follows {s} (starts config users rules now e) k =
      let s' = (start_server ops api s.server config users rules now).0 in
      subst Follows (sym e)
        (follow_table s s' k (start_server-Leads ops api s.server config users rules now))
  Step-Follows {s} (syncs config e) k = subst Follows (sym e) (
      follow_table s (with_config ops api s.server config) k
        (with_config-Leads ops api s.server config))
  Step-Follows {s} (applies users e) k = subst Follows (sym e) (
      follow_table s (apply_fetched ops api s.server (users_to_apply users)) k
        (fetched-Leads ops api s.server (users_to_apply users)))
  Step-Follows {s} (sets_rules rules e) k = subst Follows (sym e) (
      follow_table s (pull_detect_rules ops api s.server rules) k
        (rules-Leads ops api s.server rules))
  Step-Follows {s} (looks now e) k =
      let t = looked ops api addr_string s.server in
      subst Follows (sym e) (
        follow_table s (record (s.server) { users = t; last_push = now }) k
          (looked-Leads ops api addr_string s.server))
  Step-Follows {s} (takes idle e) k = subst Follows (sym e) (record {
    reach = next k.reach (collect (ledger_of s) idle);
    sound = collect-IsSound ops s.server.users k.sound;
  })
  Step-Follows {s} (settles took e) k = subst Follows (sym e) (record {
    reach = Reach-trans ops k.reach (settled s.server.users s.in_flight took s.delivered s.carried);
    sound = settle-IsSound ops s.server.users s.in_flight took k.sound;
  })
  Step-Follows {s} (routes resolve_domain allow_private a user_id m now e) k =
      let t = s.server.users in
      let t' = (route_connection router resolve_domain allow_private t a user_id m now).0 in
      subst Follows (sym e) (
        follow_table s (record (s.server) { users = t' }) k
          (route_connection-Leads ops router resolve_domain allow_private t a user_id m now))
  Step-Follows {s} (routes_packets packets resolve_domain allow_private a user_id m now e) k =
      let t = s.server.users in
      let t' =
        (route_packet_connection router packets resolve_domain allow_private t a user_id m now).0 in
      subst Follows (sym e) (
        follow_table s (record (s.server) { users = t' }) k
          (route_packet_connection-Leads ops router resolve_domain allow_private t packets a user_id
            m now))
  Step-Follows {s} (carries p up down busy e) k =
      let tracks = k.sound.tracks p busy in
      subst Follows (sym e) (record {
        reach = next k.reach (transfer (ledger_of s) p up down tracks);
        sound = transfer-IsSound s.server.users p up down tracks k.sound;
      })
  Step-Follows {s} (ends p activity now e) k = subst Follows (sym e) (record {
    reach = next k.reach (disconnect (ledger_of s) p activity now);
    sound = disconnect-IsSound s.server.users p activity now k.sound;
  })

  -- Every run of the server is a run of the ledger.
  Run-Follows : {s : Node ops api} → Run s → Follows s
  Run-Follows (made server e) = record {
    reach = unfold start in subst (λ t. Reach ops start (ledger t [] [] [])) (sym e) here;
    sound = subst IsSound (sym e) start-IsSound;
  }
  Run-Follows (then_step r st) = Step-Follows st (Run-Follows r)

  -- Whatever a server did since it was made, if its steps did not overlap (each part of a pull or a push
  -- is one step, and so is the routing of a connection): if no report is on its way when it closes, and
  -- the panel takes the last report, the panel has in all reports exactly what the open connections
  -- carried, for every user and in both directions, modulo 2^64, the range of the counters; and nothing
  -- is left in the table.
  pub close_server_delivers :
      (s : Node ops api) (d : Direction) (id : ℤ)
      → Run s
      → s.in_flight ≡ []
      → let (s', last) = close_server ops api s.server in
        (reported d id (last ++ s.delivered) % 2 ^ 64 ≡ reported d id s.carried % 2 ^ 64)
        × (pending d id s'.users ≡ 0)
  close_server_delivers s d id r idle =
      let k = Run-Follows r in
      let (taken, left) = close_server-pending ops api s.server d id k.sound.valid in
      let nothing : reported d id s.in_flight ≡ 0 = rw idle (unfold reported in refl) in
      (
        omega (
          arith,
          taken,
          nothing,
          run_balances ops (ledger_of s) k.reach d id,
          reported-append d id (close_server ops api s.server).1 s.delivered,
        ),
        left,
      )
