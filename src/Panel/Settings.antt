-- ===== src/Panel/Settings.antt =====
-- What every node config that the client accepts has.
use ne_xt_server.Base.{
  ◌≡◌, refl, ap, subst, ◌∙◌, ◌≢◌, ◌⊎◌, inl, inr, Bool, true, false, Option, none, some, List, [],
  ◌∷◌, arith, Bool-cases, ◌<◌, ◌^◌,
}
use Prim.Native.String.{String}
use text.Mathlib.Text.{◌==◌ as str_eq}
use text.Mathlib.TextEquality.{eq_iff}
use ne_xt_server.Base.Int.{negsuc, ℤ, pos, is_positive}
use ne_xt_server.Base.Result.{ok, Result-cases}
use ne_xt_server.Panel.Config.{
  node_type, NodeType, shadowsocks2022, tuic, snell, hysteria2, any_tls, naive, vmess, trojan,
  other, AcmeOptions, InboundTlsOptions, NodeConfig, CustomConfig, FloatApi, NodeInfo,
}
use ne_xt_server.Panel.Node.{
  server_name_of, first_positive, acme_domain, has_certificate, build_tls, build_transport,
  configure, is_nil, with_tls, named_options, with_port, or_default, with_obfs, ParseApi,
  parse_node_config, empty_config, mbps_to_bytes, custom_of, port_of,
}

-- The certificate source that a server is left with: enabled, with a domain for ACME, and a
-- self-signed certificate if there is no other.
pub record Serves (options : InboundTlsOptions) : Type 0 where
  pub is_enabled : options.enabled ≡ true
  pub certified : (has_certificate options ≡ true) ⊎ (options.insecure ≡ true)
  pub named : (acme : AcmeOptions) → options.acme ≡ some acme → is_nil acme.domain ≡ false

acme_domain_named :
    (server_name : String) (o o' : Option AcmeOptions) (acme : AcmeOptions)
    → acme_domain server_name o ≡ ok o'
    → o' ≡ some acme
    → is_nil acme.domain ≡ false
unfolding acme_domain
acme_domain_named server_name none o' acme h e = absurd (ground arith)
acme_domain_named server_name (some a) o' acme h e = ground arith

-- The protocols whose servers cannot do without TLS, and AnyTLS, which always gets it.
abbrev pub needs_tls : NodeType → Bool
needs_tls tuic = true
needs_tls hysteria2 = true
needs_tls any_tls = true
needs_tls trojan = true
needs_tls _ = false

abbrev pub is_supported : NodeType → Bool
is_supported snell = false
is_supported naive = false
is_supported (other _) = false
is_supported _ = true

first_positive-is_positive : (a b : ℤ) → is_positive (first_positive (a ∷ b ∷ pos 443 ∷ [])) ≡ true
unfolding first_positive
first_positive-is_positive a b = ground arith

build_tls-Serves :
    (local_tls : Option InboundTlsOptions) (server_name : String) (alpn : List String)
    (options : InboundTlsOptions)
    → build_tls local_tls server_name alpn ≡ ok options
    → Serves options
unfolding build_tls has_certificate
build_tls-Serves local_tls server_name alpn options h =
    elim (Result-cases (acme_domain server_name (named_options local_tls server_name alpn).acme)) [
      | inl (acme, e) ↦ record {
        is_enabled = ground arith;
        certified = ground arith;
        named = λ a same.
            acme_domain_named server_name (named_options local_tls server_name alpn).acme acme a e
              (ground arith);
      }
      | inr (x, e) ↦ absurd (ground arith)
    ]

module _ (local_tls : Option InboundTlsOptions) (server_name : String) where
  with_tls-ok :
      (config c : NodeConfig) (alpn : List String)
      → with_tls config (build_tls local_tls server_name alpn) ≡ ok c
      → (o : InboundTlsOptions) × (c ≡ record config { tls = some o }) × Serves o
  with_tls-ok config c alpn h = elim (Result-cases (build_tls local_tls server_name alpn)) [
    | inl (o, e) ↦ (o, ground (arith), build_tls-Serves local_tls server_name alpn o e)
    | inr (x, e) ↦ absurd (ground arith)
  ]

-- What `configure` makes of a config.
record Configures (type : NodeType) (config c : NodeConfig) : Type 0 where
  same_port : c.listen_port ≡ config.listen_port
  same_limit : c.speed_limit ≡ config.speed_limit
  same_type : c.type ≡ config.type
  supported : is_supported type ≡ true
  secured : needs_tls type ≡ true → (o : InboundTlsOptions) × (c.tls ≡ some o)
  serves : (o : InboundTlsOptions) → c.tls ≡ some o → Serves o
  keyed : type ≡ shadowsocks2022 → c.server_key ≢ ""

module _ {Float : Type 0} (local_tls : Option InboundTlsOptions) (custom : CustomConfig Float)
    (server_name : String) where
  from_tls :
      (type : NodeType) (config config' c : NodeConfig) (alpn : List String)
      → is_supported type ≡ true
      → type ≢ shadowsocks2022
      → config'.listen_port ≡ config.listen_port
      → config'.speed_limit ≡ config.speed_limit
      → config'.type ≡ config.type
      → with_tls config' (build_tls local_tls server_name alpn) ≡ ok c
      → Configures type config c
  from_tls type config config' c alpn sup other_type port limit typed h =
      let (o, e, s) = with_tls-ok local_tls server_name config' c alpn h in
      record {
        same_port = ap (λ x. x.listen_port) e ∙ port;
        same_limit = ap (λ x. x.speed_limit) e ∙ limit;
        same_type = ap (λ x. x.type) e ∙ typed;
        supported = sup;
        secured = λ _. (o, ap (λ x. x.tls) e);
        serves = λ o' e'. subst Serves (ground (arith, ap (λ x. x.tls) e)) s;
        keyed = λ e'. absurd (other_type e');
      }

  plain :
      (type : NodeType) (config c : NodeConfig)
      → is_supported type ≡ true
      → needs_tls type ≡ false
      → config.tls ≡ none
      → c.listen_port ≡ config.listen_port
      → c.speed_limit ≡ config.speed_limit
      → c.type ≡ config.type
      → c.tls ≡ none
      → (type ≡ shadowsocks2022 → c.server_key ≢ "")
      → Configures type config c
  plain type config c sup needs alone port limit typed tls key = record {
    same_port = port;
    same_limit = limit;
    same_type = typed;
    supported = sup;
    secured = λ n. absurd (ground arith);
    serves = λ o e. absurd (ground arith);
    keyed = key;
  }

  configure-Configures :
      (type : NodeType) (config c : NodeConfig)
      → config.tls ≡ none
      → configure local_tls custom server_name config type ≡ ok c
      → Configures type config c
  unfolding configure
  configure-Configures shadowsocks2022 config c alone h =
      plain shadowsocks2022 config c refl refl alone (ground arith) (ground arith) (ground arith)
        (ground arith) (λ _. ground (arith, eq_iff custom.server_key ""))
  configure-Configures tuic config c alone h =
      from_tls tuic config
        (record config { congestion_control = or_default custom.congestion_control "bbr" }) c
        ("h3" ∷ []) refl (λ e. absurd (cc e)) refl refl refl h
  configure-Configures hysteria2 config c alone h =
      from_tls hysteria2 config (with_obfs custom config) c [] refl (λ e. absurd (cc e))
        (ground arith) (ground arith) (ground arith) h
  configure-Configures any_tls config c alone h =
      from_tls any_tls config (record config { padding_scheme = custom.padding_scheme }) c [] refl
        (λ e. absurd (cc e)) refl refl refl h
  configure-Configures vmess config c alone h = elim (Bool-cases (str_eq custom.security "tls")) [
    | inl e ↦
        from_tls vmess config (record config { transport = build_transport custom }) c [] refl
          (λ x. absurd (cc x)) refl refl refl (rw e at h)
    | inr e ↦
        plain vmess config c refl refl alone (ground arith) (ground arith) (ground arith)
          (ground arith) (λ x. absurd (cc x))
  ]
  configure-Configures trojan config c alone h =
      from_tls trojan config (record config { transport = build_transport custom }) c [] refl
        (λ e. absurd (cc e)) refl refl refl h
  configure-Configures snell config c alone h = absurd (cc h)
  configure-Configures naive config c alone h = absurd (cc h)
  configure-Configures (other n) config c alone h = absurd (cc h)

-- A config that a server can be built from.
pub record IsRunnable (type : NodeType) (c : NodeConfig) : Type 0 where
  pub typed : c.type ≡ type
  pub port : (0 < c.listen_port) × (c.listen_port < 2 ^ 16)
  pub supported : is_supported type ≡ true
  pub secured : needs_tls type ≡ true → (o : InboundTlsOptions) × (c.tls ≡ some o)
  pub serves : (o : InboundTlsOptions) → c.tls ≡ some o → Serves o
  pub keyed : type ≡ shadowsocks2022 → c.server_key ≢ ""

with_port_bounds :
    (floats : FloatApi) (api : ParseApi floats.Float) (config c : NodeConfig) (n : ℤ)
    → is_positive n ≡ true
    → with_port floats api config n ≡ ok c
    → (0 < c.listen_port) × (c.listen_port < 2 ^ 16) × (c.tls ≡ config.tls) × (c.type ≡ config.type)
unfolding with_port
with_port_bounds floats api config c (pos n) p h = ground arith
with_port_bounds floats api config c (negsuc n) p h = absurd (ground arith)

module _ (floats : FloatApi) (api : ParseApi floats.Float) where
  -- Every config that the client makes of the panel's answer can be served: its type is the one that
  -- the panel names, and one that has a server, the port is between 1 and 65535, a protocol that needs TLS has it, TLS is
  -- enabled with a certificate (a self-signed one if need be) and with a domain for ACME, and
  -- Shadowsocks has a server key.
  pub parse_node_config-IsRunnable :
      (local_tls : Option InboundTlsOptions) (info : NodeInfo floats.Float) (c : NodeConfig)
      → parse_node_config floats api local_tls info ≡ ok c
      → IsRunnable (node_type info.sort) c
  unfolding parse_node_config
  parse_node_config-IsRunnable local_tls info c h =
      let type = node_type info.sort in
      let config = empty_config type (mbps_to_bytes floats info.speed_limit) in
      elim (Result-cases (custom_of floats api (api.trim_space info.custom_config))) [
        | inr (x, e) ↦ absurd (cc (rw e at h))
        | inl (custom, e) ↦
            elim (Result-cases (with_port floats api config (port_of floats api custom))) [
              | inr (x, e') ↦ absurd (cc (rw (e, e') at h))
              | inl (ported, e') ↦
                  let made : configure local_tls custom (server_name_of floats api info custom)
                        ported type
                      ≡ ok c =
                    rw (e, e') at h in
                  let (lo, hi, tls, typed) =
                    with_port_bounds floats api config ported (port_of floats api custom)
                      (first_positive-is_positive (floats.to_int64 custom.offset_port_node)
                        (floats.to_int64 custom.offset_port_user))
                      e' in
                  let k =
                    configure-Configures local_tls custom (server_name_of floats api info custom)
                      type ported c tls made in
                  record {
                    typed = k.same_type ∙ typed;
                    port = rw (k.same_port) (lo, hi);
                    supported = k.supported;
                    secured = k.secured;
                    serves = k.serves;
                    keyed = k.keyed;
                  }
            ]
      ]
