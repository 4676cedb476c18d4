-- ===== src/Inbound/Listen.antt =====
-- proxy/inbound/listener.go: `New` and `ListenTCP`; proxy/inbound/node.go: `NewListener`,
-- `StreamRouter` and `UserContext`. sing-box's listener and multiplexer, and the PROXY protocol's
-- library, are parameters.
use ne_xt_server.Base.Result.{Result, err, ok}
use ne_xt_server.Inbound.Accept.{second}
use ne_xt_server.Netip.{Addr, v6}
use Prim.Native.String.{String}
use ne_xt_server.Base.{
  ℕ, ◌*◌, ◌≡◌, refl, sym, ◌⊎◌, inl, inr, Bool, true, false, not, Option, none, some, List, [], ◌∷◌,
  if◌then◌else◌, Option-cases,
}

-- `boxOption.ListenOptions`, as far as the program sets it.
pub record ListenOptions : Type 0 where
  pub listen : Option Addr
  pub listen_port : ℕ
  pub udp_fragment_default : Bool

-- `option.ServerOptions`, as far as a listener is built from it.
pub record InboundOptions : Type 0 where
  pub listen_options : ListenOptions
  pub proxy_protocol : Bool
  pub proxy_protocol_trusted : List String
  pub multiplex : Option Bool

-- `ConnPolicy` is a policy of the PROXY protocol's library.
pub record Listener (ConnPolicy : Type 0) : Type 0 where
  pub options : ListenOptions
  pub network : List String
  pub proxy_protocol : Bool
  pub conn_policy : Option ConnPolicy

pub data ListenError : Type 0 where
  bad_trusted : ListenError
  listen_failed : ListenError

-- What `ListenTCP` returns: sing-box's listener, or the PROXY protocol's around it.
pub data TcpListener (ConnPolicy : Type 0) : Type 0 where
  plain : TcpListener ConnPolicy
  proxied : Option ConnPolicy → ℕ → TcpListener ConnPolicy

abbrev pub proxy_protocol_header_timeout : ℕ
proxy_protocol_header_timeout = 5 * second

module _ {ConnPolicy : Type 0} where
  -- `ListenTCP`, with whether sing-box's listener listens.
  unfoldable pub listen_tcp :
      Listener ConnPolicy → Bool → Result ListenError (TcpListener ConnPolicy)
  listen_tcp l false = err listen_failed
  listen_tcp l true =
      ok (
        if not l.proxy_protocol then plain else proxied l.conn_policy proxy_protocol_header_timeout)

module _ {ConnPolicy : Type 0} (white_list : List String → Option ConnPolicy) where
  with_policy : Listener ConnPolicy → Option ConnPolicy → Result ListenError (Listener ConnPolicy)
  with_policy l none = err bad_trusted
  with_policy l (some policy) = ok (record l { conn_policy = some policy })

  -- `New`
  unfoldable pub new_inbound :
      ListenOptions → List String → Bool → List String → Result ListenError (Listener ConnPolicy)
  unfolding with_policy
  new_inbound options network proxy_protocol [] = ok (record {
    options = options;
    network = network;
    proxy_protocol = proxy_protocol;
    conn_policy = none;
  })
  new_inbound options network proxy_protocol (trusted ∷ more) =
      with_policy
        (record {
          options = options;
          network = network;
          proxy_protocol = proxy_protocol;
          conn_policy = none;
        })
        (white_list (trusted ∷ more))

  abbrev pub listen_or_any : Option Addr → Addr
  listen_or_any none = v6 0 ""
  listen_or_any (some a) = a

  -- `NewListener`, with the options of the server and the panel's port.
  unfoldable pub new_listener :
      InboundOptions → ℕ → List String → Bool → Result ListenError (Listener ConnPolicy)
  unfolding new_inbound
  new_listener o port network udp_fragment =
      new_inbound
        (record {
          listen = some (listen_or_any o.listen_options.listen);
          listen_port = port;
          udp_fragment_default = udp_fragment;
        })
        network o.proxy_protocol o.proxy_protocol_trusted

  -- A listener is made with these options, or the trusted addresses cannot be read.
  abbrev pub Makes :
      ListenOptions → Bool → List String → Result ListenError (Listener ConnPolicy) → Type 0
  Makes options proxy_protocol trusted r =
      ((l : Listener ConnPolicy) × (r ≡ ok l)
        × (l.options ≡ options)
        × (l.proxy_protocol ≡ proxy_protocol)
        × ((trusted ≡ []) ⊎ (l.conn_policy ≡ white_list trusted)))
      ⊎ ((r ≡ err bad_trusted) × (white_list trusted ≡ none))

  new_inbound-Makes :
      (options : ListenOptions) (network : List String) (proxy_protocol : Bool)
      (trusted : List String)
      → Makes options proxy_protocol trusted (new_inbound options network proxy_protocol trusted)
  unfolding new_inbound with_policy
  new_inbound-Makes options network proxy_protocol [] = inl (
    record {
      options = options;
      network = network;
      proxy_protocol = proxy_protocol;
      conn_policy = none;
    },
    refl,
    refl,
    refl,
    inl refl,
  )
  new_inbound-Makes options network proxy_protocol (trusted ∷ more) =
      elim (Option-cases (white_list (trusted ∷ more))) [
        | inl e ↦ inr (rw e refl, e)
        | inr (policy, e) ↦ inl (
          record {
            options = options;
            network = network;
            proxy_protocol = proxy_protocol;
            conn_policy = some policy;
          },
          rw e refl,
          refl,
          refl,
          inr (sym e),
        )
      ]

  -- A listener binds to the panel's port, at the configured address or, without one, at all, and reads
  -- a PROXY header from connections exactly if it is configured to. With trusted addresses it has the
  -- policy of them all, and is not built without one.
  pub new_listener-Makes :
      (o : InboundOptions) (port : ℕ) (network : List String) (udp_fragment : Bool)
      → (a : Addr) × ((o.listen_options.listen ≡ some a)
          ⊎ ((o.listen_options.listen ≡ none) × (a ≡ v6 0 "")))
        × Makes
            (record { listen = some a; listen_port = port; udp_fragment_default = udp_fragment })
            o.proxy_protocol
            o.proxy_protocol_trusted
            (new_listener o port network udp_fragment)
  unfolding new_listener
  new_listener-Makes o port network udp_fragment = elim (Option-cases o.listen_options.listen) [
    | inl e ↦ (
      v6 0 "",
      inr (e, refl),
      rw e (new_inbound-Makes _ network o.proxy_protocol o.proxy_protocol_trusted),
    )
    | inr (a, e) ↦
        (a, inl e, rw e (new_inbound-Makes _ network o.proxy_protocol o.proxy_protocol_trusted))
  ]
