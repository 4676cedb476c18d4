-- ===== src/Tests/Accounts.antt =====
-- A user of each protocol, from the panel's list to the counters.
use ne_xt_server.Adapter.{User}
use ne_xt_server.Base.Int.{ℤ, pos, ℤ_discrete}
use ne_xt_server.Base.Result.{ok}
use ne_xt_server.Panel.Config.{any_tls}
use ne_xt_server.Proxy.Handlers.{InboundMetadata, TypeNames, routed_user}
use ne_xt_server.Router.Route.{connection_user}
use ne_xt_server.Server.Authenticated.{authenticated_counts}
use ne_xt_server.Server.Given.{given, handled}
use ne_xt_server.Tests.Data.{ops, metadata, public, socksaddr}
use ne_xt_server.Tests.Users.{left, left-IsValid}
use ne_xt_server.Users.Pending.{pending, up}
use ne_xt_server.Users.Restore.Count.{part}
use ne_xt_server.Users.State.{add_traffic}
use ne_xt_server.Users.Table.{update, modify}
use ne_xt_server.Users.Update.Served.{is_listed}
use ne_xt_server.Base.{
  ℕ, ◌+◌, ◌%◌, ◌^◌, ◌≡◌, ite, true, false, none, some, List, [], ◌∷◌, arith, All,
}

abbrev users : List User
users =
    record { id = pos 1; uuid = "u"; password = "x"; speed_limit = 0 }
    ∷ record { id = pos 5; uuid = ""; password = "y"; speed_limit = 8 }
    ∷ []

abbrev names : TypeNames
names = record {
  trojan = "trojan";
  shadowsocks = "shadowsocks";
  vmess = "vmess";
  tuic = "tuic";
  hysteria2 = "hysteria2";
  any_tls = "anytls";
}

abbrev bare : InboundMetadata
bare = record {
  base = metadata public;
  inbound = "";
  inbound_type = "";
  user = [];
  origin_destination = none;
}

authenticated_counts_example :
    let t' = update ops left.table users 0 in
    All
      (λ ctx.
        let user =
          routed_user (handled names "" (socksaddr public) (λ s. s) false bare any_tls ctx) in
        (id : ℤ) × (user ≡ some id)
        × (is_listed id users ≡ true)
        × ((p : ℕ) × (connection_user t' user ≡ ok p)
            × ((t'.states p).canceled ≡ false)
            × (pending up (pos 5) (modify t' p (add_traffic 10 20)) % 2 ^ 64
                ≡ (pending up (pos 5) t' + ite (ℤ_discrete id (pos 5)) (part up 10 20) 0)
                  % 2 ^ 64)))
      (given (λ s. true) (λ s. none) 16 (λ s. some s) any_tls users)
authenticated_counts_example =
    authenticated_counts (λ s. true) (λ s. none) 16 (λ s. some s) names "" (socksaddr public)
      (λ s. s) false bare ops left.table users 0 any_tls 10 20 up (pos 5) left-IsValid
      (omega arith, (omega arith, tt))
