-- ===== src/Panel/Node.antt =====
-- api/serverv1/node.go: `parseNodeConfig`, `buildTLS`, `buildTransport`, `mbpsToBytes` and
-- `firstPositive`.
use ne_xt_server.Base.{
  ℕ, Bool, true, false, not, ◌&&◌, ◌||◌, Option, none, some, List, [], ◌∷◌, ltb, ◌==◌,
  if◌then◌else◌,
}
use Prim.Native.String.{String}
use text.Mathlib.Text.{◌==◌ as str_eq}
use ne_xt_server.Base.Int.{ℤ, pos, negsuc, is_positive}
use ne_xt_server.Base.Result.{Result, ok, err, ◌>>=◌}
use ne_xt_server.Panel.Config.{
  NodeType, shadowsocks2022, tuic, snell, hysteria2, any_tls, naive, vmess, trojan, other,
  node_type, AcmeOptions, InboundTlsOptions, default_tls, Transport, websocket, http, http_upgrade,
  grpc, quic, NodeConfig, FloatApi, NodeInfo, CustomConfig,
}

pub data ConfigError : Type 0 where
  decode_failed missing_server_key missing_acme_domain : ConfigError
  invalid_port : ℤ → ConfigError
  unsupported_node_type : NodeType → ConfigError

abbrev pub is_nil {ℓ} : {A : Type ℓ} → List A → Bool
is_nil [] = true
is_nil (_ ∷ _) = false

abbrev pub has {ℓ} : {A : Type ℓ} → Option A → Bool
has none = false
has (some _) = true

-- The first of a string and its default.
abbrev pub or_default : String → String → String
or_default s d = if str_eq s "" then d else s

unfoldable pub first_positive : List ℤ → ℤ
first_positive [] = pos 0
first_positive (v ∷ values) = let rest = first_positive values in if is_positive v then v else rest

-- The part of `buildTLS` about ACME: a missing domain is the server's name.
unfoldable pub acme_domain : String → Option AcmeOptions → Result ConfigError (Option AcmeOptions)
acme_domain server_name none = ok none
acme_domain server_name (some acme) =
    if not (is_nil acme.domain)
    then ok (some acme)
    else if str_eq server_name ""
    then err missing_acme_domain
    else ok (some (record acme { domain = server_name ∷ [] }))

unfoldable pub has_certificate : InboundTlsOptions → Bool
has_certificate options =
    not (is_nil options.certificate)
    || not (str_eq options.certificate_path "")
    || has options.acme
    || has options.certificate_provider
    || has options.reality

abbrev pub local_options : Option InboundTlsOptions → InboundTlsOptions
local_options none = default_tls
local_options (some options) = options

-- The options before ACME and the certificate are looked at.
abbrev pub named_options : Option InboundTlsOptions → String → List String → InboundTlsOptions
named_options local_tls server_name alpn =
    let options = local_options local_tls in
    record options {
      enabled = true;
      server_name = or_default options.server_name server_name;
      alpn = if is_nil options.alpn then alpn else options.alpn;
    }

abbrev pub with_certificate : InboundTlsOptions → InboundTlsOptions
with_certificate options = record options {
  insecure = if has_certificate options then options.insecure else true;
}

unfoldable pub build_tls :
    Option InboundTlsOptions → String → List String → Result ConfigError InboundTlsOptions
unfolding acme_domain has_certificate
build_tls local_tls server_name alpn =
    let options = named_options local_tls server_name alpn in
    elim (acme_domain server_name options.acme) [
      | err e ↦ err e
      | ok acme ↦ ok (with_certificate (record options { acme = acme }))
    ]

abbrev pub head_or : List String → String → String
head_or [] d = d
head_or (s ∷ _) d = s

unfoldable pub build_transport : {Float : Type 0} → CustomConfig Float → Option Transport
build_transport custom =
    let host = head_or custom.request_host custom.host in
    let path = head_or custom.request_path custom.path in
    if str_eq custom.network "ws"
    then some (websocket path)
    else if str_eq custom.network "http" || str_eq custom.network "h2"
    then some (http path (if str_eq host "" then [] else host ∷ []))
    else if str_eq custom.network "httpupgrade"
    then some (http_upgrade path host)
    else if str_eq custom.network "grpc"
    then some (grpc custom.service_name)
    else if str_eq custom.network "quic"
    then some quic
    else none

abbrev pub empty_config : NodeType → ℕ → NodeConfig
empty_config type speed_limit = record {
  type = type;
  listen_port = 0;
  speed_limit = speed_limit;
  tls = none;
  transport = none;
  method = "";
  server_key = "";
  congestion_control = "";
  obfs_type = "";
  obfs_password = "";
  padding_scheme = [];
}

abbrev pub with_tls :
    NodeConfig → Result ConfigError InboundTlsOptions → Result ConfigError NodeConfig
with_tls config (err e) = err e
with_tls config (ok tls) = ok (record config { tls = some tls })

-- Obfuscation is on when there is a password for it.
abbrev pub with_obfs : {Float : Type 0} → CustomConfig Float → NodeConfig → NodeConfig
with_obfs custom config = if str_eq custom.obfs_password "" then config else record config {
  obfs_type = or_default custom.obfs "salamander";
  obfs_password = custom.obfs_password;
}

-- The switch over the node type.
unfoldable pub configure :
    {Float : Type 0}
    → Option InboundTlsOptions
    → CustomConfig Float
    → String
    → NodeConfig
    → NodeType
    → Result ConfigError NodeConfig
unfolding build_tls build_transport
configure local_tls custom server_name config shadowsocks2022 =
    if str_eq custom.server_key ""
    then err missing_server_key
    else ok (record config {
      method = or_default custom.method "2022-blake3-aes-128-gcm";
      server_key = custom.server_key;
    })
configure local_tls custom server_name config tuic =
    with_tls (record config { congestion_control = or_default custom.congestion_control "bbr" })
      (build_tls local_tls server_name ("h3" ∷ []))
configure local_tls custom server_name config hysteria2 =
    with_tls (with_obfs custom config) (build_tls local_tls server_name [])
configure local_tls custom server_name config any_tls =
    with_tls (record config { padding_scheme = custom.padding_scheme })
      (build_tls local_tls server_name [])
configure local_tls custom server_name config vmess =
    let config' = record config { transport = build_transport custom } in
    if str_eq custom.security "tls"
    then with_tls config' (build_tls local_tls server_name [])
    else ok config'
configure local_tls custom server_name config trojan =
    with_tls (record config { transport = build_transport custom })
      (build_tls local_tls server_name [])
configure local_tls custom server_name config snell = err (unsupported_node_type snell)
configure local_tls custom server_name config naive = err (unsupported_node_type naive)
configure local_tls custom server_name config (other n) = err (unsupported_node_type (other n))

-- `M.IsDomainName`, `bytes.TrimSpace` and the JSON decoding of the custom config.
pub record ParseApi (Float : Type 0) : Type 0 where
  pub is_domain_name : String → Bool
  pub trim_space : List ℕ → List ℕ
  pub unmarshal_custom : List ℕ → Option (CustomConfig Float)

module _ (floats : FloatApi) where
  open floats use {Float, zero_float, is_not_positive, bytes_of_mbps, to_int64}

  unfoldable pub mbps_to_bytes : Float → ℕ
  mbps_to_bytes mbps = if is_not_positive mbps then 0 else bytes_of_mbps mbps

  abbrev pub empty_custom : CustomConfig Float
  empty_custom = record {
    offset_port_node = zero_float;
    offset_port_user = zero_float;
    host = "";
    method = "";
    server_key = "";
    network = "";
    security = "";
    path = "";
    service_name = "";
    request_path = [];
    request_host = [];
    congestion_control = "";
    obfs = "";
    obfs_password = "";
    padding_scheme = [];
  }

  module _ (api : ParseApi Float) where
    open api use {is_domain_name, trim_space, unmarshal_custom}

    abbrev pub decoded : Option (CustomConfig Float) → Result ConfigError (CustomConfig Float)
    decoded none = err decode_failed
    decoded (some custom) = ok custom

    -- Only what starts with a brace is decoded; an empty PHP array is not an object.
    unfoldable pub custom_of : List ℕ → Result ConfigError (CustomConfig Float)
    custom_of [] = ok empty_custom
    custom_of (c ∷ cs) = if c == 0x7b then decoded (unmarshal_custom (c ∷ cs)) else ok empty_custom

    abbrev pub server_name_of : NodeInfo Float → CustomConfig Float → String
    server_name_of info custom =
        if str_eq custom.host "" && is_domain_name info.server then info.server else custom.host

    -- The port, and its limit.
    unfoldable pub with_port : NodeConfig → ℤ → Result ConfigError NodeConfig
    with_port config (pos n) =
        if ltb 65535 n then err (invalid_port (pos n)) else ok (record config { listen_port = n })
    with_port config (negsuc n) = ok (record config { listen_port = 0 })

    abbrev pub port_of : CustomConfig Float → ℤ
    port_of custom =
        first_positive
          (to_int64 custom.offset_port_node ∷ to_int64 custom.offset_port_user ∷ pos 443 ∷ [])

    unfoldable pub parse_node_config :
        Option InboundTlsOptions → NodeInfo Float → Result ConfigError NodeConfig
    unfolding custom_of with_port configure mbps_to_bytes first_positive node_type
    parse_node_config local_tls info = custom_of (trim_space info.custom_config) >>= λ custom.
        with_port (empty_config (node_type info.sort) (mbps_to_bytes info.speed_limit))
          (port_of custom)
        >>= λ config.
            configure local_tls custom (server_name_of info custom) config (node_type info.sort)
