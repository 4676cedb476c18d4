-- ===== src/Inbound/Stream.antt =====
-- proxy/inbound/stream.go: `StartStream` and `CloseStream`. The V2Ray transport of sing-box is its
-- networks; whether TLS starts and the sockets are bound are arguments.
use ne_xt_server.Base.Result.{Result}
use ne_xt_server.Inbound.Listen.{
  ListenError, TcpListener, listen_tcp, Listener, proxied, proxy_protocol_header_timeout, plain,
  listen_failed,
}
use Prim.Native.String.{String}
use ne_xt_server.Inbound.Tls.{contains}
use ne_xt_server.Base.Result.{Result, ok, err}
use ne_xt_server.Inbound.Listen.{plain, proxied}
use ne_xt_server.Base.{
  ◌≡◌, refl, ◌≢◌, ◌⊎◌, inl, inr, Bool, true, false, not, ◌&&◌, ◌||◌, Option, none, some, List, [],
  ◌∷◌, ◌++◌, arith, if◌then◌else◌, Bool-cases,
}

pub data StreamError : Type 0 where
  start_tls_failed udp_failed : StreamError
  tcp_failed : ListenError → StreamError

-- What is served: the transport over TCP or over UDP, or TCP connections themselves, each with a TLS
-- handshake or without.
pub data Serving (ConnPolicy : Type 0) : Type 0 where
  transport_over_tcp : TcpListener ConnPolicy → Serving ConnPolicy
  transport_over_udp : Serving ConnPolicy
  connections : TcpListener ConnPolicy → Bool → Serving ConnPolicy

abbrev pub has {ℓ} : {A : Type ℓ} → Option A → Bool
has none = false
has (some _) = true

-- Whether the transport uses a network.
abbrev pub uses : String → Option (List String) → Bool
uses network none = false
uses network (some networks) = contains network networks

module _ {ConnPolicy : Type 0} where
  abbrev pub served_over_tcp : Bool → Bool → TcpListener ConnPolicy → Serving ConnPolicy
  served_over_tcp tls transport l = if transport then transport_over_tcp l else connections l tls

  serve_udp :
      Bool → Bool → List (Serving ConnPolicy) → Option StreamError × List (Serving ConnPolicy)
  serve_udp false listens serving = (none, serving)
  serve_udp true false serving = (some udp_failed, serving)
  serve_udp true true serving = (none, serving ++ (transport_over_udp ∷ []))

  serve_stream :
      Bool
      → Option (List String)
      → Bool
      → Result ListenError (TcpListener ConnPolicy)
      → Option StreamError × List (Serving ConnPolicy)
  unfolding serve_udp
  serve_stream tls transport udp_listens (err e) = (some (tcp_failed e), [])
  serve_stream tls transport udp_listens (ok l) =
      serve_udp (uses "udp" transport) udp_listens (served_over_tcp tls (has transport) l ∷ [])

  start_sockets :
      Listener ConnPolicy
      → Bool
      → Option (List String)
      → Bool
      → Bool
      → Option StreamError × List (Serving ConnPolicy)
  unfolding serve_stream listen_tcp
  start_sockets l tls transport tcp_listens udp_listens =
      if not (has transport) || uses "tcp" transport
      then serve_stream tls transport udp_listens (listen_tcp l tcp_listens)
      else serve_udp (uses "udp" transport) udp_listens []

  -- `StartStream`, with whether TLS, if there is any, starts.
  unfoldable pub start_stream :
      Listener ConnPolicy
      → Option Bool
      → Option (List String)
      → Bool
      → Bool
      → Option StreamError × List (Serving ConnPolicy)
  unfolding start_sockets
  start_stream l (some false) transport tcp_listens udp_listens = (some start_tls_failed, [])
  start_stream l (some true) transport tcp_listens udp_listens =
      start_sockets l true transport tcp_listens udp_listens
  start_stream l none transport tcp_listens udp_listens =
      start_sockets l false transport tcp_listens udp_listens

  -- What a stream server should serve.
  abbrev pub expected :
      Bool → Option (List String) → TcpListener ConnPolicy → List (Serving ConnPolicy)
  expected tls none l = connections l tls ∷ []
  expected tls (some networks) l =
      (if contains "tcp" networks then transport_over_tcp l ∷ [] else [])
      ++ (if contains "udp" networks then transport_over_udp ∷ [] else [])

  Serves :
      Listener ConnPolicy
      → Bool
      → Option (List String)
      → Bool
      → Bool
      → Option StreamError × List (Serving ConnPolicy)
      → Type 0
  Serves l tls transport tcp_listens udp_listens r =
      (r ≡ (
        none,
        expected tls transport (
            if l.proxy_protocol
            then proxied l.conn_policy proxy_protocol_header_timeout
            else plain),
      ))
      ⊎ ((r.0 ≢ none) × ((tcp_listens ≡ false) ⊎ (udp_listens ≡ false)))

  failed :
      (e : StreamError) (tls : Bool) (transport : Option (List String)) (l : Listener ConnPolicy)
      (serving : List (Serving ConnPolicy)) (tcp_listens udp_listens : Bool)
      → (tcp_listens ≡ false) ⊎ (udp_listens ≡ false)
      → Serves l tls transport tcp_listens udp_listens (some e, serving)
  unfolding Serves
  failed e tls transport l serving tcp_listens udp_listens h = inr ((λ x. absurd (ground arith)), h)

  start_sockets-Serves :
      (l : Listener ConnPolicy) (tls : Bool) (transport : Option (List String))
      (tcp_listens udp_listens : Bool)
      → Serves l tls transport tcp_listens udp_listens
          (start_sockets l tls transport tcp_listens udp_listens)
  unfolding start_sockets serve_stream serve_udp listen_tcp Serves
  start_sockets-Serves l tls none false udp_listens =
      failed (tcp_failed listen_failed) tls none l [] false udp_listens (inl refl)
  start_sockets-Serves l tls none true udp_listens = inl (ground arith)
  start_sockets-Serves l tls (some networks) false udp_listens =
      elim (Bool-cases (contains "tcp" networks)) [
        | inl t ↦ inr ((λ e. absurd (ground (arith, t))), inl refl)
        | inr t ↦ elim (Bool-cases (contains "udp" networks && not udp_listens)) [
          | inl u ↦ inr ((λ e. absurd (ground (arith, t, u))), inl refl)
          | inr u ↦ inl (ground (arith, t, u))
        ]
      ]
  start_sockets-Serves l tls (some networks) true udp_listens =
      elim (Bool-cases (contains "udp" networks && not udp_listens)) [
        | inl u ↦ inr ((λ e. absurd (ground (arith, u))), inr (ground (arith, u)))
        | inr u ↦ inl (ground (arith, u))
      ]

  -- When TLS starts and the sockets are bound, a stream server serves each network of its transport
  -- once, and without a transport each TCP connection, with a TLS handshake exactly if there is TLS;
  -- TCP goes through the PROXY protocol's listener exactly if that is configured. A start that fails
  -- says so: then TLS did not start or a socket was not bound.
  pub start_stream-expected :
      (l : Listener ConnPolicy) (tls : Option Bool) (transport : Option (List String))
      (tcp_listens udp_listens : Bool)
      → (start_stream l tls transport tcp_listens udp_listens ≡ (
        none,
        expected (has tls) transport (
            if l.proxy_protocol
            then proxied l.conn_policy proxy_protocol_header_timeout
            else plain),
      ))
        ⊎ (((start_stream l tls transport tcp_listens udp_listens).0 ≢ none)
            × ((tls ≡ some false) ⊎ ((tcp_listens ≡ false) ⊎ (udp_listens ≡ false))))
  unfolding start_stream Serves
  start_stream-expected l (some false) transport tcp_listens udp_listens =
      inr ((λ e. absurd (ground arith)), inl refl)
  start_stream-expected l (some true) transport tcp_listens udp_listens =
      elim (start_sockets-Serves l true transport tcp_listens udp_listens) [
        | inl e ↦ inl e
        | inr (ne, h) ↦ inr (ne, inr h)
      ]
  start_stream-expected l none transport tcp_listens udp_listens =
      elim (start_sockets-Serves l false transport tcp_listens udp_listens) [
        | inl e ↦ inl e
        | inr (ne, h) ↦ inr (ne, inr h)
      ]

-- What a close does, in order.
pub data CloseEffect : Type 0 where
  listener_closed serving_ended transport_closed : CloseEffect

-- `CloseStream`: the transport is closed after everything that serves it has ended.
unfoldable pub close_stream : Bool → List CloseEffect
close_stream transport =
    listener_closed ∷ serving_ended ∷ (if transport then transport_closed ∷ [] else [])
