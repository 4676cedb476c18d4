-- ===== src/Panel/Config.antt =====
-- adapter/node.go: `NodeConfig`; sing-box's TLS and transport options, as far as the program reads
-- them; api/serverv1/node.go: `nodeInfo` and `customConfig`.
use ne_xt_server.Base.{ℕ, Bool, false, Option, none, some, List, [], ◌∷◌}
use Prim.Native.String.{String}
use ne_xt_server.Base.Int.{ℤ, pos, ℤ_discrete}
use ne_xt_server.Base.Assoc.{lookup}

pub data NodeType : Type 0 where
  shadowsocks2022 tuic snell hysteria2 any_tls naive vmess trojan : NodeType
  other : ℤ → NodeType

-- The constants of `NodeType`, the panel's numbers.
abbrev pub node_types : List (ℤ × NodeType)
node_types =
    (pos 1, shadowsocks2022)
    ∷ (pos 2, tuic)
    ∷ (pos 3, snell)
    ∷ (pos 4, hysteria2)
    ∷ (pos 5, any_tls)
    ∷ (pos 6, naive)
    ∷ (pos 11, vmess)
    ∷ (pos 14, trojan)
    ∷ []

unfoldable pub node_type : ℤ → NodeType
unfolding lookup ℤ_discrete
node_type n = elim (lookup ℤ_discrete n node_types) [ none ↦ other n | some t ↦ t ]

pub record AcmeOptions : Type 0 where
  pub domain : List String
  pub default_server_name : String

pub record InboundTlsOptions : Type 0 where
  pub enabled : Bool
  pub insecure : Bool
  pub server_name : String
  pub alpn : List String
  pub certificate : List String
  pub certificate_path : String
  pub acme : Option AcmeOptions
  pub certificate_provider : Option String
  pub reality : Option Bool

abbrev pub default_tls : InboundTlsOptions
default_tls = record {
  enabled = false;
  insecure = false;
  server_name = "";
  alpn = [];
  certificate = [];
  certificate_path = "";
  acme = none;
  certificate_provider = none;
  reality = none;
}

-- `V2RayTransportOptions`, with the fields that the program sets of each kind.
pub data Transport : Type 0 where
  websocket : String → Transport
  http : String → List String → Transport
  http_upgrade : String → String → Transport
  grpc : String → Transport
  quic : Transport

-- `NodeConfig`, with the fields of the embedded protocol configs.
pub record NodeConfig : Type 0 where
  pub type : NodeType
  pub listen_port : ℕ
  pub speed_limit : ℕ
  pub tls : Option InboundTlsOptions
  pub transport : Option Transport
  pub method : String
  pub server_key : String
  pub congestion_control : String
  pub obfs_type : String
  pub obfs_password : String
  pub padding_scheme : List String

-- Go's float64, as far as the client computes with it: `mbps <= 0`, the bytes per second of a
-- positive `mbps`, and the conversion to int64.
pub record FloatApi : Type 1 where
  pub Float : Type 0
  pub zero_float : Float
  pub is_not_positive : Float → Bool
  pub bytes_of_mbps : Float → ℕ
  pub to_int64 : Float → ℤ

pub record NodeInfo (Float : Type 0) : Type 0 where
  pub speed_limit : Float
  pub sort : ℤ
  pub server : String
  pub custom_config : List ℕ

pub record CustomConfig (Float : Type 0) : Type 0 where
  pub offset_port_node : Float
  pub offset_port_user : Float
  pub host : String
  pub method : String
  pub server_key : String
  pub network : String
  pub security : String
  pub path : String
  pub service_name : String
  pub request_path : List String
  pub request_host : List String
  pub congestion_control : String
  pub obfs : String
  pub obfs_password : String
  pub padding_scheme : List String
