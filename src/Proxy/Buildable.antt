-- ===== src/Proxy/Buildable.antt =====
-- proxy/: when a node server can be built from a config that the panel client accepts.
use ne_xt_server.Base.{
  ◌⊎◌, ℕ, ◌/◌, ◌≡◌, refl, subst, inl, inr, Bool, true, false, Option, none, some, List, [], ◌∷◌,
}
use ne_xt_server.Inbound.Accept.{second}
use ne_xt_server.Base.Result.{Result, ok}
use ne_xt_server.Proxy.New.{
  BuildApi, BuildOptions, BuildError, Obfs, BuiltServer, udp_timeout_of, padding_of,
}
use Prim.Native.String.{String}
use ne_xt_server.Inbound.Tls.{contains}
use ne_xt_server.Panel.Config.{
  other, shadowsocks2022, tuic, snell, hysteria2, any_tls, naive, vmess, trojan, NodeType,
  NodeConfig, InboundTlsOptions, Transport,
}
use ne_xt_server.Panel.Settings.{Serves}
use ne_xt_server.Base.{
  ◌/◌, ◌≡◌, refl, inl, inr, Bool, true, false, Option, none, some, List, [], ◌∷◌, subst,
}

-- The surroundings work: sing's code makes what it is asked for where the panel's settings play no
-- part, and TLS with a certificate and with domains for ACME.
pub record Works (api : BuildApi) (o : BuildOptions) : Type 0 where
  pub trusted : (p : api.ConnPolicy) × (api.white_list o.inbound.proxy_protocol_trusted ≡ some p)
  pub tls : (options : InboundTlsOptions) → Serves options → api.makes_tls options ≡ true
  pub router : (enabled : Bool) → api.makes_router enabled ≡ true
  pub hysteria2_service : (obfs : Obfs) (timeout : ℕ) → api.makes_hysteria2 obfs timeout ≡ true
  pub vmess_service : (bare : Bool) → api.makes_vmess bare ≡ true

module _ (api : BuildApi) where
  -- sing makes the transport that a config names, if any, over its TLS.
  abbrev pub MakesTransport : Option Transport → Option InboundTlsOptions → Type 0
  MakesTransport none options = Unit
  MakesTransport (some t) options = api.makes_transport t options ≡ true

  -- sing accepts the settings of the config's type that the client passes on unread: the method and
  -- the key of Shadowsocks, TUIC's congestion control, Hysteria2's obfuscation, AnyTLS's padding and
  -- the transport.
  abbrev pub AcceptsUnread : BuildOptions → NodeConfig → NodeType → Type 0
  AcceptsUnread o c shadowsocks2022 =
      (contains c.method api.methods ≡ true)
      × (api.makes_shadowsocks c.method c.server_key (udp_timeout_of api o / second) ≡ true)
  AcceptsUnread o c tuic = api.makes_tuic c.congestion_control (udp_timeout_of api o) ≡ true
  AcceptsUnread o c hysteria2 =
      (c.obfs_password ≡ "")
      ⊎ ((c.obfs_type ≡ api.obfs_type_salamander) ⊎ (c.obfs_type ≡ api.obfs_type_gecko))
  AcceptsUnread o c any_tls = api.makes_any_tls (padding_of api c.padding_scheme) ≡ true
  AcceptsUnread o c vmess = MakesTransport c.transport c.tls
  AcceptsUnread o c trojan = MakesTransport c.transport c.tls
  AcceptsUnread o c snell = Unit
  AcceptsUnread o c naive = Unit
  AcceptsUnread o c (other n) = Unit

  abbrev pub Builds : Result BuildError (BuiltServer api) → Type 0
  Builds r = (s : BuiltServer api) × (r ≡ ok s)
