-- ===== src/Server/Steps.antt =====
-- What the server's operations do with the users' table, as steps of Users.Ledger: server.go,
-- `Start`, `pullOnce`, `pushOnce` and `Close`; router.go, `RouteConnectionEx`.
use ne_xt_server.Users.Restore.Find.{lookup_occurs}
use ne_xt_server.Users.Pending.{tracked}
use ne_xt_server.Netip.{Addr}
use ne_xt_server.Router.Packet.{
  packet_with_user, route_packet_connection, PacketApi, audited_packet,
}
use ne_xt_server.Users.Ledger.Sound.{IsSound, update-IsSound, look-IsSound, connect-IsSound}
use ne_xt_server.Base.Sums.{occurrences, sum-append, one_at, values}
use ne_xt_server.Destination.Check.{check_destination}
use ne_xt_server.Base.Assoc.{lookup}
use ne_xt_server.Base.Int.{ℤ, ℤ_discrete}
use ne_xt_server.Base.Result.{Result, ok, err}
use ne_xt_server.Metadata.{Metadata, Refusal}
use ne_xt_server.Audit.Auditor.{Auditor}
use ne_xt_server.Panel.Config.{NodeConfig}
use ne_xt_server.Adapter.{User, UserTraffic, DetectRule}
use ne_xt_server.Router.Route.{
  RouterApi, route_connection, checked, passed, with_user, looked_up, resolve, connection_user,
  audited, user_found,
}
use ne_xt_server.Server.State.{
  NodeApi, filled, apply_limit, authenticate, sync_node_server, replace_unless, created, Server,
  started, apply_users, apply_fetched, is_current, stop_node, pull_detect_rules,
}
use ne_xt_server.Users.State.{open_connection, online_ips}
use ne_xt_server.Users.Ledger.{look_online, Ledger, Reach, next, here, pull, connect}
use ne_xt_server.Users.State.{LimiterOps}
use ne_xt_server.Users.Table.{Table, update, modify, get}
use ne_xt_server.Base.{
  ℕ, ◌≡◌, refl, sym, subst, inl, inr, Bool, true, false, Option, none, some, List, ◌==◌, Bool-cases,
  ◌<◌, arith,
}

-- The ledger with a table, a report on its way, and what was delivered and carried.
abbrev pub ledger :
    {L : Type 0} → Table L → List UserTraffic → List UserTraffic → List UserTraffic → Ledger L
ledger t in_flight delivered carried = record {
  table = t;
  in_flight = in_flight;
  delivered = delivered;
  carried = carried;
}

module _ (ops : LimiterOps) where
  open ops use {Limiter}

  pub Reach-trans : {l m n : Ledger Limiter} → Reach ops l m → Reach ops m n → Reach ops l n
  Reach-trans r here = r
  Reach-trans r (next q s) = next (Reach-trans r q) s

  -- A run leads from one table to another, while nothing is carried or delivered, and begins
  -- connections in tracked states only.
  pub record Leads (t t' : Table Limiter) : Type 0 where
    pub run :
        (in_flight delivered carried : List UserTraffic)
        → Reach ops (ledger t in_flight delivered carried) (ledger t' in_flight delivered carried)
    pub sound : IsSound t → IsSound t'

  pub Leads-refl : (t : Table Limiter) → Leads t t
  Leads-refl t = record { run = λ in_flight delivered carried. here; sound = λ s. s }

  pub Leads-trans : {t t' t'' : Table Limiter} → Leads t t' → Leads t' t'' → Leads t t''
  Leads-trans f g = record {
    run = λ in_flight delivered carried.
        Reach-trans (f.run in_flight delivered carried) (g.run in_flight delivered carried);
    sound = λ s. g.sound (f.sound s);
  }

  update-Leads :
      (t : Table Limiter) (users : List User) (node_limit : ℕ)
      → Leads t (update ops t users node_limit)
  update-Leads t users node_limit = record {
    run = λ in_flight delivered carried.
        next here (pull (ledger t in_flight delivered carried) users node_limit);
    sound = update-IsSound ops t users node_limit;
  }

  connect-Leads :
      (t : Table Limiter) (p : ℕ) (address : Addr) (now : ℕ)
      → 0 < occurrences p (tracked t)
      → Leads t (modify t p (λ u. (open_connection u address now).0))
  connect-Leads t p address now h = record {
    run = λ in_flight delivered carried.
        next here (connect (ledger t in_flight delivered carried) p address now);
    sound = connect-IsSound t p address now h;
  }

  pub look-Leads :
      (t : Table Limiter) (p since : ℕ) → Leads t (modify t p (λ u. (online_ips u since).1))
  look-Leads t p since = record {
    run = λ in_flight delivered carried.
        next here (look_online (ledger t in_flight delivered carried) p since);
    sound = look-IsSound t p since;
  }

  -- The state that the router finds is tracked.
  pub user-tracked :
      (t : Table Limiter) (user_id : Option ℤ) (p : ℕ)
      → connection_user t user_id ≡ ok p
      → 0 < occurrences p (tracked t)
  unfolding connection_user user_found get
  user-tracked t none p h = absurd (cc h)
  user-tracked t (some id) p h =
      let found : lookup ℤ_discrete id t.current ≡ some p = ground arith in
      omega (
        arith,
        lookup_occurs id p t.current found,
        sum-append (one_at p) (values ℤ_discrete t.current) t.retired,
      )

  module _ (router : RouterApi) (resolve_domain allow_private : Bool) (t : Table Limiter) where
    checked-Leads :
        (p now : ℕ) (r : Result Refusal Metadata)
        → 0 < occurrences p (tracked t)
        → Leads t (checked router resolve_domain allow_private t p now r).0
    unfolding checked
    checked-Leads p now (err e) h = Leads-refl t
    checked-Leads p now (ok m) h = connect-Leads t p m.source.addr now h

    looked_up-Leads :
        (p now : ℕ) (r : Result Refusal Metadata)
        → 0 < occurrences p (tracked t)
        → Leads t (looked_up router resolve_domain allow_private t p now r).0
    unfolding looked_up
    looked_up-Leads p now (err e) h = Leads-refl t
    looked_up-Leads p now (ok m) h =
        checked-Leads p now (check_destination router.methods allow_private m) h

    passed-Leads :
        (p now : ℕ) (m : Metadata) (e : Option Refusal)
        → 0 < occurrences p (tracked t)
        → Leads t (passed router resolve_domain allow_private t p now m e).0
    unfolding passed
    passed-Leads p now m (some e) h = Leads-refl t
    passed-Leads p now m none h = looked_up-Leads p now (resolve router resolve_domain m) h

    with_user-Leads :
        (a : Auditor router.matching.Regexp) (m : Metadata) (now : ℕ) (r : Result Refusal ℕ)
        → ((p : ℕ) → r ≡ ok p → 0 < occurrences p (tracked t))
        → Leads t (with_user router resolve_domain allow_private t a m now r).0
    unfolding with_user
    with_user-Leads a m now (err e) h = Leads-refl t
    with_user-Leads a m now (ok p) h =
        let x = audited router (t.states p).id a m in passed-Leads p now (x.1) (x.2) (h p refl)

    pub route_connection-Leads :
        (a : Auditor router.matching.Regexp) (user_id : Option ℤ) (m : Metadata) (now : ℕ)
        → Leads t (route_connection router resolve_domain allow_private t a user_id m now).0
    unfolding route_connection
    route_connection-Leads a user_id m now =
        with_user-Leads a m now (connection_user t user_id) (user-tracked t user_id)

    packet_with_user-Leads :
        (packets : PacketApi) (a : Auditor router.matching.Regexp) (m : Metadata) (now : ℕ)
        (r : Result Refusal ℕ)
        → ((p : ℕ) → r ≡ ok p → 0 < occurrences p (tracked t))
        → Leads t (packet_with_user router packets resolve_domain allow_private t a m now r).0
    unfolding packet_with_user
    packet_with_user-Leads packets a m now (err e) h = Leads-refl t
    packet_with_user-Leads packets a m now (ok p) h =
        let x = audited_packet router packets (t.states p).id a m in
        passed-Leads p now (x.1) (x.2) (h p refl)

    pub route_packet_connection-Leads :
        (packets : PacketApi) (a : Auditor router.matching.Regexp) (user_id : Option ℤ)
        (m : Metadata) (now : ℕ)
        → Leads t
            (route_packet_connection router packets resolve_domain allow_private t a user_id m
              now).0
    unfolding route_packet_connection
    route_packet_connection-Leads packets a user_id m now =
        packet_with_user-Leads packets a m now (connection_user t user_id) (user-tracked t user_id)

  module _ (api : NodeApi) where
    open api use {NodeServer, Error, Regexp}

    apply_limit-Leads :
        (s : Server ops api) (o : Option NodeConfig) → Leads s.users (apply_limit ops api s o).users
    unfolding apply_limit
    apply_limit-Leads s none = Leads-refl s.users
    apply_limit-Leads s (some c) = elim (Bool-cases (s.node_config.speed_limit == c.speed_limit)) [
      | inl e ↦ rw e (Leads-refl s.users)
      | inr e ↦ rw e (update-Leads s.users s.user_list s.node_config.speed_limit)
    ]

    started_users :
        (s : Server ops api) (r : NodeServer × Option Error)
        → (started ops api s r).0.users ≡ s.users
    unfolding started
    started_users s (n, none) = refl
    started_users s (n, some e) = refl

    filled_users :
        (s : Server ops api) (r : NodeServer × Option Error)
        → (filled ops api s r).0.users ≡ s.users
    unfolding filled
    filled_users s (n, none) = started_users s (api.start_server n)
    filled_users s (n, some e) = refl

    created_users :
        (s : Server ops api) (r : Result Error NodeServer) → (created ops api s r).0.users ≡ s.users
    unfolding created
    created_users s (ok n) = filled_users s (api.update_users n s.user_list)
    created_users s (err e) = refl

    replace_users : (b : Bool) (s : Server ops api) → (replace_unless ops api b s).0.users ≡ s.users
    unfolding replace_unless stop_node
    replace_users true s = refl
    replace_users false s = created_users (stop_node ops api s) (api.new_server s.node_config)

    pub sync-Leads : (s : Server ops api) → Leads s.users (sync_node_server ops api s).0.users
    unfolding sync_node_server
    sync-Leads s =
        let s' = apply_limit ops api s s.running_config in
        subst (Leads s.users) (sym (replace_users (is_current ops api s') s'))
          (apply_limit-Leads s s.running_config)

    authenticate_users :
        (s : Server ops api) (o : Option NodeServer) (users : List User)
        → (authenticate ops api s o users).users ≡ s.users
    unfolding authenticate
    authenticate_users s none users = refl
    authenticate_users s (some n) users = refl

    pub apply_users-Leads :
        (s : Server ops api) (users : List User) → Leads s.users (apply_users ops api s users).users
    unfolding apply_users
    apply_users-Leads s users =
        let t = update ops s.users users s.node_config.speed_limit in
        subst (Leads s.users)
          (sym (authenticate_users (record s { users = t; user_list = users }) s.node_server users))
          (update-Leads s.users users s.node_config.speed_limit)

    pub fetched-Leads :
        (s : Server ops api) (o : Option (List User))
        → Leads s.users (apply_fetched ops api s o).users
    fetched-Leads s none = Leads-refl s.users
    fetched-Leads s (some users) = apply_users-Leads s users

    pub rules_users :
        (s : Server ops api) (o : Option (List (DetectRule Regexp)))
        → (pull_detect_rules ops api s o).users ≡ s.users
    rules_users s none = refl
    rules_users s (some rules) = refl
