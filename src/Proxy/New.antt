-- ===== src/Proxy/New.antt =====
-- proxy/server.go: `New`, and the constructors of proxy/*/server.go. Whether the services, the TLS
-- servers and the transports of sing can be made is a parameter.
use ne_xt_server.Proxy.Shadowsocks.{key_len}
use ne_xt_server.Inbound.Accept.{second}
use ne_xt_server.Inbound.Listen.{InboundOptions, Listener, new_listener, ListenError}
use ne_xt_server.Base.Result.{Result, err, ◌>>=◌, ok}
use ne_xt_server.Panel.Config.{Transport, NodeConfig, NodeType, InboundTlsOptions}
use Prim.Native.String.{String}
use ne_xt_server.Inbound.Tls.{contains}
use ne_xt_server.Panel.Config.{
  other, shadowsocks2022, tuic, snell, hysteria2, any_tls, naive, vmess, trojan, NodeType,
  NodeConfig, InboundTlsOptions, Transport,
}
use text.Mathlib.Text.{◌==◌ as str_eq}
use ne_xt_server.Base.{
  ℕ, ◌/◌, Bool, true, false, Option, none, some, List, [], ◌∷◌, ◌==◌, if◌then◌else◌,
}

-- What the constructors are given of `option.ServerOptions`; a duration is a number of nanoseconds.
pub record BuildOptions : Type 0 where
  pub inbound : InboundOptions
  pub udp_timeout : ℕ

pub data BuildError : Type 0 where
  tls_required tls_failed router_failed service_failed transport_failed : BuildError
  unsupported_method unknown_obfs_type : String → BuildError
  unsupported_node_type : NodeType → BuildError
  listening : ListenError → BuildError

-- How Hysteria2's packets are obfuscated.
pub data Obfs : Type 0 where
  no_obfs : Obfs
  salamander gecko : String → Obfs

-- Whether sing's code makes what it is asked for, and its names and defaults: the methods of
-- Shadowsocks 2022, the types of Hysteria2's obfuscation, the UDP timeout and the padding of AnyTLS.
pub record BuildApi : Type 1 where
  pub ConnPolicy : Type 0
  pub white_list : List String → Option ConnPolicy
  pub methods : List String
  pub obfs_type_salamander : String
  pub obfs_type_gecko : String
  pub default_udp_timeout : ℕ
  pub default_padding : List String
  pub makes_tls : InboundTlsOptions → Bool
  pub makes_router : Bool → Bool
  pub makes_shadowsocks : String → String → ℕ → Bool
  pub makes_tuic : String → ℕ → Bool
  pub makes_hysteria2 : Obfs → ℕ → Bool
  pub makes_any_tls : List String → Bool
  pub makes_vmess : Bool → Bool
  pub makes_transport : Transport → Option InboundTlsOptions → Bool

module _ (api : BuildApi) where
  open api use {
    ConnPolicy, white_list, methods, obfs_type_salamander, obfs_type_gecko, default_udp_timeout,
    default_padding, makes_tls, makes_router, makes_shadowsocks, makes_tuic, makes_hysteria2,
    makes_any_tls, makes_vmess, makes_transport,
  }

  -- A server, with what it is built from besides the panel's config.
  pub data BuiltServer : Type 0 where
    shadowsocks_server : ℕ → ℕ → Listener ConnPolicy → BuiltServer
    tuic_server : InboundTlsOptions → ℕ → Listener ConnPolicy → BuiltServer
    hysteria2_server : InboundTlsOptions → Obfs → ℕ → Listener ConnPolicy → BuiltServer
    any_tls_server : Option InboundTlsOptions → List String → Listener ConnPolicy → BuiltServer
    vmess_server : Option InboundTlsOptions → Option Transport → Listener ConnPolicy → BuiltServer
    trojan_server : InboundTlsOptions → Option Transport → Listener ConnPolicy → BuiltServer

  abbrev pub ensure : Bool → BuildError → Result BuildError (Unit {0})
  ensure true e = ok tt
  ensure false e = err e

  abbrev pub listens :
      Result ListenError (Listener ConnPolicy) → Result BuildError (Listener ConnPolicy)
  listens (ok l) = ok l
  listens (err e) = err (listening e)

  abbrev pub required_tls : Option InboundTlsOptions → Result BuildError InboundTlsOptions
  required_tls none = err tls_required
  required_tls (some options) = ok options

  -- TLS for the protocols that can do without.
  abbrev pub optional_tls : Option InboundTlsOptions → Result BuildError (Option InboundTlsOptions)
  optional_tls none = ok none
  optional_tls (some options) = ensure (makes_tls options) tls_failed >>= λ _. ok (some options)

  abbrev pub with_transport :
      Option Transport → Option InboundTlsOptions → Result BuildError (Unit {0})
  with_transport none tls = ok tt
  with_transport (some t) tls = ensure (makes_transport t tls) transport_failed

  -- `StreamRouter`: multiplexing is on unless it is configured otherwise.
  abbrev pub multiplex_enabled : Option Bool → Bool
  multiplex_enabled none = true
  multiplex_enabled (some enabled) = enabled

  abbrev pub stream_router : BuildOptions → Result BuildError (Unit {0})
  stream_router o = ensure (makes_router (multiplex_enabled o.inbound.multiplex)) router_failed

  abbrev pub udp_timeout_of : BuildOptions → ℕ
  udp_timeout_of o = if o.udp_timeout == 0 then default_udp_timeout else o.udp_timeout

  abbrev pub listener_of :
      BuildOptions → NodeConfig → List String → Bool → Result BuildError (Listener ConnPolicy)
  listener_of o c network udp_fragment =
      listens (new_listener white_list o.inbound c.listen_port network udp_fragment)

  unfoldable pub new_shadowsocks : BuildOptions → NodeConfig → Result BuildError BuiltServer
  new_shadowsocks o c = ensure (contains c.method methods) (unsupported_method c.method) >>= λ _.
      stream_router o >>= λ _.
      ensure (makes_shadowsocks c.method c.server_key (udp_timeout_of o / second)) service_failed
      >>= λ _. listener_of o c ("udp" ∷ []) false >>= λ l.
          ok (shadowsocks_server (key_len c.method) (udp_timeout_of o / second) l)

  unfoldable pub new_tuic : BuildOptions → NodeConfig → Result BuildError BuiltServer
  new_tuic o c = required_tls c.tls >>= λ tls. ensure (makes_tls tls) tls_failed >>= λ _.
      ensure (makes_tuic c.congestion_control (udp_timeout_of o)) service_failed >>= λ _.
      listener_of o c [] true >>= λ l. ok (tuic_server tls (udp_timeout_of o) l)

  abbrev pub obfs_of : NodeConfig → Result BuildError Obfs
  obfs_of c =
      if str_eq c.obfs_password ""
      then ok no_obfs
      else if str_eq c.obfs_type obfs_type_salamander
      then ok (salamander c.obfs_password)
      else if str_eq c.obfs_type obfs_type_gecko
      then ok (gecko c.obfs_password)
      else err (unknown_obfs_type c.obfs_type)

  unfoldable pub new_hysteria2 : BuildOptions → NodeConfig → Result BuildError BuiltServer
  new_hysteria2 o c = required_tls c.tls >>= λ tls. ensure (makes_tls tls) tls_failed >>= λ _.
      obfs_of c >>= λ obfs. ensure (makes_hysteria2 obfs (udp_timeout_of o)) service_failed >>= λ _.
      listener_of o c [] true >>= λ l. ok (hysteria2_server tls obfs (udp_timeout_of o) l)

  abbrev pub padding_of : List String → List String
  padding_of [] = default_padding
  padding_of (line ∷ lines) = line ∷ lines

  unfoldable pub new_any_tls : BuildOptions → NodeConfig → Result BuildError BuiltServer
  new_any_tls o c = optional_tls c.tls >>= λ tls.
      ensure (makes_any_tls (padding_of c.padding_scheme)) service_failed >>= λ _.
      listener_of o c [] false >>= λ l. ok (any_tls_server tls (padding_of c.padding_scheme) l)

  abbrev pub has_transport : Option Transport → Bool
  has_transport none = false
  has_transport (some _) = true

  unfoldable pub new_vmess : BuildOptions → NodeConfig → Result BuildError BuiltServer
  new_vmess o c = stream_router o >>= λ _.
      ensure (makes_vmess (has_transport c.transport)) service_failed >>= λ _.
      optional_tls c.tls >>= λ tls. with_transport c.transport tls >>= λ _.
      listener_of o c [] false >>= λ l. ok (vmess_server tls c.transport l)

  unfoldable pub new_trojan : BuildOptions → NodeConfig → Result BuildError BuiltServer
  new_trojan o c = required_tls c.tls >>= λ tls. stream_router o >>= λ _.
      ensure (makes_tls tls) tls_failed >>= λ _. with_transport c.transport (some tls) >>= λ _.
      listener_of o c [] false >>= λ l. ok (trojan_server tls c.transport l)

  -- `proxy.New`, by the node type.
  unfoldable pub new_of_type : NodeType → BuildOptions → NodeConfig → Result BuildError BuiltServer
  unfolding new_shadowsocks new_tuic new_hysteria2 new_any_tls new_vmess new_trojan
  new_of_type shadowsocks2022 o c = new_shadowsocks o c
  new_of_type tuic o c = new_tuic o c
  new_of_type hysteria2 o c = new_hysteria2 o c
  new_of_type any_tls o c = new_any_tls o c
  new_of_type vmess o c = new_vmess o c
  new_of_type trojan o c = new_trojan o c
  new_of_type snell o c = err (unsupported_node_type snell)
  new_of_type naive o c = err (unsupported_node_type naive)
  new_of_type (other n) o c = err (unsupported_node_type (other n))

  unfoldable pub new_node_server : BuildOptions → NodeConfig → Result BuildError BuiltServer
  unfolding new_of_type
  new_node_server o c = new_of_type c.type o c
