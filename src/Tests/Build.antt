-- ===== src/Tests/Build.antt =====
-- Node servers of a concrete config, and connections of concrete users.
use ne_xt_server.Server.Attribution.{trojan_counts}
use ne_xt_server.Users.State.{add_traffic}
use ne_xt_server.Router.Route.{connection_user}
use ne_xt_server.Users.Table.{update, modify}
use ne_xt_server.Proxy.Trojan
use ne_xt_server.Proxy.Trojan.{first_with, owner, count}
use text.Mathlib.TextEquality.{eq_iff}
use ne_xt_server.Tests.Users.{left, left-IsValid}
use ne_xt_server.Users.Restore.Count.{part}
use ne_xt_server.Tests.Data.{ops, metadata, public}
use ne_xt_server.Users.Pending.{pending, up}
use ne_xt_server.Proxy.Released.{IsReleased, close_node_server_releases}
use ne_xt_server.Proxy.Life.{StartAnswers, close_node_server, start_node_server}
use ne_xt_server.Proxy.Decimal.{itoa}
use ne_xt_server.Inbound.Accept.{second}
use ne_xt_server.Proxy.Handlers.{
  routed_user, TypeNames, new_any_tls_connection, user_name, any_tls_round_trip, InboundMetadata,
  new_trojan_connection, user_id,
}
use ne_xt_server.Adapter.{User}
use ne_xt_server.Proxy.New.{BuildApi, BuildOptions, BuiltServer, hysteria2_server, no_obfs}
use ne_xt_server.Base.{
  ℕ, ◌*◌, ◌≡◌, refl, true, false, not, none, some, List, [], ◌∷◌, map, arith, keep, All, ◌+◌, ◌%◌,
  ◌^◌, ◌≤◌, ite,
}
use Prim.Native.String.{String}
use ne_xt_server.Base.Int.{pos, ℤ_discrete}
use text.Mathlib.Text.{◌==◌ as str_eq}
use ne_xt_server.Base.Result.{ok}
use ne_xt_server.Proxy.AnyTls.{credentials}
use ne_xt_server.Panel.Config.{websocket, NodeConfig, trojan, default_tls, InboundTlsOptions}
use ne_xt_server.Panel.Node.{empty_config}
use ne_xt_server.Tests.Data.{socksaddr, public}

-- Everything that is asked for is made.
abbrev making : BuildApi
making = record {
  ConnPolicy = Unit {0};
  white_list = λ trusted. some tt;
  methods = "2022-blake3-aes-128-gcm" ∷ [];
  obfs_type_salamander = "salamander";
  obfs_type_gecko = "gecko";
  default_udp_timeout = 300 * second;
  default_padding = "stop=8" ∷ [];
  makes_tls = λ options. true;
  makes_router = λ enabled. true;
  makes_shadowsocks = λ method key timeout. true;
  makes_tuic = λ control timeout. true;
  makes_hysteria2 = λ obfs timeout. true;
  makes_any_tls = λ padding. true;
  makes_vmess = λ bare. true;
  makes_transport = λ t options. true;
}

abbrev no_options : BuildOptions
no_options = record {
  inbound = record {
    listen_options = record { listen = none; listen_port = 0; udp_fragment_default = false };
    proxy_protocol = false;
    proxy_protocol_trusted = [];
    multiplex = none;
  };
  udp_timeout = 0;
}

abbrev self_signed : InboundTlsOptions
self_signed = record default_tls { enabled = true; insecure = true }

abbrev trojan_config : NodeConfig
trojan_config = record (empty_config trojan 0) {
  listen_port = 8443;
  tls = some self_signed;
  transport = some (websocket "/");
}

abbrev account : ℕ → String → User
account n password = record { id = pos n; uuid = ""; password = password; speed_limit = 0 }

abbrev accounts : List User
accounts = account 12 "x" ∷ account 3 "" ∷ account 405 "y" ∷ []

abbrev names : TypeNames
names = record {
  trojan = "trojan";
  shadowsocks = "shadowsocks";
  vmess = "vmess";
  tuic = "tuic";
  hysteria2 = "hysteria2";
  any_tls = "anytls";
}

any_tls_round_trip_example :
    map
      (λ name. routed_user (
        new_any_tls_connection names
          (λ s. s)
          (user_name name)
          (socksaddr public)
          (socksaddr public)))
      (credentials itoa accounts).ids
    ≡ map (λ u. some u.id) (keep (λ u. not (str_eq u.password "")) accounts)
any_tls_round_trip_example =
    any_tls_round_trip names (λ s. s) accounts (socksaddr public) (socksaddr public)
      (omega arith, (omega arith, (omega arith, tt)))

abbrev quic_server : BuiltServer making
quic_server = hysteria2_server self_signed no_obfs 300 (record {
  options = record { listen = none; listen_port = 8443; udp_fragment_default = true };
  network = [];
  proxy_protocol = false;
  conn_policy = none;
})

-- The UDP port is taken.
abbrev port_taken : StartAnswers
port_taken = record {
  tls_starts = true;
  tcp_listens = true;
  udp_listens = false;
  service_starts = true;
}

close_node_server_releases_example :
    All
      (IsReleased (close_node_server making (λ t. "tcp" ∷ []) quic_server))
      (start_node_server making (λ t. "tcp" ∷ []) quic_server port_taken).1
close_node_server_releases_example =
    close_node_server_releases making (λ t. "tcp" ∷ []) quic_server port_taken

-- Two users share a UUID.
abbrev sharing : List User
sharing =
    record { id = pos 4; uuid = "u"; password = ""; speed_limit = 0 }
    ∷ record { id = pos 5; uuid = "u"; password = ""; speed_limit = 0 }
    ∷ []

sharing_first : first_with "u" sharing ≡ some (pos 4)
unfolding first_with
sharing_first = refl

abbrev bare : InboundMetadata
bare = record {
  base = metadata public;
  inbound = "";
  inbound_type = "";
  user = [];
  origin_destination = none;
}

trojan_counts_example :
    let t' = update ops left.table sharing 0 in
    let c = Trojan.credentials (λ s. false) sharing in
    (owner "u" c.ids c.passwords ≡ some (pos 4))
    × (count "u" c.passwords ≤ 1)
    × ((p : ℕ) × (connection_user t'
            (routed_user (new_trojan_connection names false (user_id (pos 4)) bare))
          ≡ ok p)
        × ((t'.states p).canceled ≡ false)
        × (pending up (pos 5) (modify t' p (add_traffic 10 20)) % 2 ^ 64
            ≡ (pending up (pos 5) t' + ite (ℤ_discrete (pos 4) (pos 5)) (part up 10 20) 0)
              % 2 ^ 64))
trojan_counts_example =
    trojan_counts ops left.table sharing 0 names false bare "u" (pos 4) 10 20 up (pos 5)
      left-IsValid (λ e. absurd (cc ((eq_iff "u" "").1 e))) sharing_first
