-- ===== src/Server/Push.antt =====
-- server.go: `pushOnce`, and that a failed push loses nothing.
use ne_xt_server.Base.{
  ◌↔◌, ℕ, ◌+◌, ◌%◌, ◌^◌, ◌≡◌, refl, ◌∙◌, ◌↔◌, Bool, true, false, ◌||◌, List, [], ◌∷◌, ◌++◌, map,
  arith, if◌then◌else◌,
}
use Prim.Native.String.{String}
use ne_xt_server.Adapter.{UserTraffic, UserOnline, DetectLog}
use ne_xt_server.Base.Int.{ℤ}
use ne_xt_server.Netip.{Addr}
use ne_xt_server.Users.State.{LimiterOps, online_ips}
use ne_xt_server.Users.Table.{Table, modify, collect_traffic, restore_traffic}
use ne_xt_server.Users.Pending.{Direction, pending, reported, IsValid}
use ne_xt_server.Users.Collect.Report.{collect_reports, collect-IsValid}
use ne_xt_server.Users.Restore.Find.{restore_pending}
use ne_xt_server.Users.Ledger.Balance.{KeepsAccount, pending-modify, modify-IsValid}
use ne_xt_server.Audit.Auditor.{Auditor, collect, restore}
use ne_xt_server.Audit.Hits.{IsWaiting, collect-IsWaiting, restore-collect}
use ne_xt_server.Server.State.{NodeApi, Server}

abbrev pub is_nil {ℓ} : {A : Type ℓ} → List A → Bool
is_nil [] = true
is_nil (_ ∷ _) = false

-- What a push sends: the number of users online, the traffic, the online addresses and the hits.
pub record Pushed : Type 0 where
  pub online_users : ℕ
  pub traffic : List UserTraffic
  pub online : List UserOnline
  pub logs : List DetectLog

module _ {L : Type 0} (addr_string : Addr → String) where
  -- The loop over the users: who is online, and from where.
  unfoldable pub online_users : Table L → ℕ → List (ℤ × ℕ) → Table L × ℕ × List UserOnline
  online_users t since [] = (t, 0, [])
  online_users t since ((id, p) ∷ users) =
      let addresses = (online_ips (t.states p) since).0 in
      let (t', count, online) =
        online_users (modify t p (λ u. (online_ips u since).1)) since users in
      (
        t',
        (if is_nil addresses then 0 else 1) + count,
        map (λ a. record { user_id = id; ip = addr_string a }) addresses ++ online,
      )

-- The traffic report, with whether the panel took it.
unfoldable pub push_traffic : {L : Type 0} → Table L → Bool → Table L × List UserTraffic
push_traffic t accepted =
    let (t', items) = collect_traffic t in
    (if is_nil items || accepted then t' else restore_traffic t' items, items)

unfoldable pub push_logs : {R : Type 0} → Auditor R → Bool → Auditor R × List DetectLog
push_logs a accepted =
    let (a', logs) = collect a in (if is_nil logs || accepted then a' else restore a' logs, logs)

unfoldable pub push_once :
    (ops : LimiterOps) (api : NodeApi)
    → (Addr → String)
    → Server ops api
    → ℕ
    → Bool
    → Bool
    → Server ops api × Pushed
unfolding online_users push_traffic push_logs
push_once ops api addr_string s now traffic_accepted logs_accepted =
    let (t, count, online) = online_users addr_string s.users s.last_push s.users.current in
    let (t', items) = push_traffic t traffic_accepted in
    let (a, logs) = push_logs s.auditor logs_accepted in
    (
      record s { users = t'; auditor = a; last_push = now },
      record { online_users = count; traffic = items; online = online; logs = logs },
    )

module _ {L : Type 0} (addr_string : Addr → String) (d : Direction) (id : ℤ) where
  pub online-pending :
      (t : Table L) (since : ℕ) (users : List (ℤ × ℕ))
      → IsValid t
      → IsValid (online_users addr_string t since users).0
        × (pending d id (online_users addr_string t since users).0 ≡ pending d id t)
  unfolding online_users
  online-pending t since [] v = (v, refl)
  online-pending t since ((j, p) ∷ users) v =
      let same : KeepsAccount (t.states p) (online_ips (t.states p) since).1 =
        unfold online_ips in (refl, refl, refl, refl) in
      let (v', e) =
        online-pending (modify t p (λ u. (online_ips u since).1)) since users
          (modify-IsValid t p (λ u. (online_ips u since).1) same v) in
      (v', e ∙ pending-modify t p (λ u. (online_ips u since).1) d id same)

push_traffic-pending :
    {L : Type 0} (d : Direction) (id : ℤ) (t : Table L) (accepted : Bool)
    → IsValid t
    → let (t', items) = push_traffic t accepted in
      (reported d id items ≡ pending d id t)
      × (pending d id t' % 2 ^ 64 ≡ (if accepted then 0 else pending d id t) % 2 ^ 64)
unfolding push_traffic reported
push_traffic-pending d id t accepted v =
    let (taken, left) = collect_reports t d id v in
    let back =
      restore_pending (collect_traffic t).0 (collect_traffic t).1 d id (collect-IsValid t v) in
    ground (arith, taken, left, back)

-- A push reports, for every user and in both directions, exactly what the table counts. If the panel
-- takes the report, nothing is pending afterwards; if not, all of it is pending again, modulo 2^64,
-- the range of the counters.
pub push_once-pending :
    (ops : LimiterOps) (api : NodeApi) (addr_string : Addr → String) (s : Server ops api) (now : ℕ)
    (traffic_accepted logs_accepted : Bool) (d : Direction) (id : ℤ)
    → IsValid s.users
    → let (s', sent) = push_once ops api addr_string s now traffic_accepted logs_accepted in
      (reported d id sent.traffic ≡ pending d id s.users)
      × (pending d id s'.users % 2 ^ 64
          ≡ (if traffic_accepted then 0 else pending d id s.users) % 2 ^ 64)
unfolding push_once
push_once-pending ops api addr_string s now traffic_accepted logs_accepted d id v =
    let (v', same) = online-pending addr_string d id s.users s.last_push s.users.current v in
    let (sent, left) =
      push_traffic-pending d id (online_users addr_string s.users s.last_push s.users.current).0
        traffic_accepted v' in
    (sent ∙ same, rw same at left)

push_logs-IsWaiting :
    {R : Type 0} (a : Auditor R) (accepted : Bool) (log : DetectLog)
    → IsWaiting log (push_logs a accepted).0 ↔ ((accepted ≡ false) × IsWaiting log a)
unfolding push_logs
push_logs-IsWaiting a accepted log =
    ground (arith, collect-IsWaiting a log, restore-collect a (collect a).0 log)

-- After a push a hit is waiting exactly if it was before and the panel refused the report.
pub push_once-IsWaiting :
    (ops : LimiterOps) (api : NodeApi) (addr_string : Addr → String) (s : Server ops api) (now : ℕ)
    (traffic_accepted logs_accepted : Bool) (log : DetectLog)
    → IsWaiting log (push_once ops api addr_string s now traffic_accepted logs_accepted).0.auditor
      ↔ ((logs_accepted ≡ false) × IsWaiting log s.auditor)
unfolding push_once
push_once-IsWaiting ops api addr_string s now traffic_accepted logs_accepted log =
    push_logs-IsWaiting s.auditor logs_accepted log
