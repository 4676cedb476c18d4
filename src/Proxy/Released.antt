-- ===== src/Proxy/Released.antt =====
-- proxy/*/server.go: a close of a node server releases what its start took.
use ne_xt_server.Proxy.Life.{
  Part, StartAnswers, NodeClose, tls_answer, if_tls, tls_parts, all_parts, start_stream_server,
  start_shadowsocks, start_quic, start_node_server, close_node_server, tls_part, tcp_socket,
  udp_socket, serving_loop, transport_part, service_part, stream_closed, tls_closed, service_closed,
}
use ne_xt_server.Inbound.Stream.{
  transport_over_tcp, transport_over_udp, connections, listener_closed, serving_ended,
  transport_closed, Serving, start_stream,
}
use ne_xt_server.Proxy.New.{
  BuildApi, BuiltServer, shadowsocks_server, tuic_server, hysteria2_server, any_tls_server,
  vmess_server, trojan_server,
}
use Prim.Native.String.{String}
use ne_xt_server.Panel.Config.{Transport, InboundTlsOptions}
use ne_xt_server.Inbound.Listen.{Listener, listen_tcp}
use ne_xt_server.Proxy.New.{BuildApi, BuiltServer}
use ne_xt_server.Inbound.Stream.{Serving, start_stream}
use ne_xt_server.Base.{
  ◌≡◌, refl, inl, inr, Bool, true, false, Option, none, some, List, [], ◌∷◌, Bool-cases, any, All,
  All-append,
}

-- What each closing call releases: the listener closes both sockets, and the loops that serve the
-- transport have ended when they have been waited for.
abbrev pub releases : NodeClose → Part → Bool
releases (stream_closed listener_closed) tcp_socket = true
releases (stream_closed listener_closed) udp_socket = true
releases (stream_closed serving_ended) serving_loop = true
releases (stream_closed transport_closed) transport_part = true
releases tls_closed tls_part = true
releases service_closed service_part = true
releases _ _ = false

abbrev pub IsReleased : List NodeClose → Part → Type 0
IsReleased closes part = any (λ c. releases c part) closes ≡ true

module _ (closes : List NodeClose) where
  abbrev AllReleased : List Part → Type 0
  AllReleased = All (IsReleased closes)

  servings-AllReleased :
      {ConnPolicy : Type 0} (servings : List (Serving ConnPolicy))
      → IsReleased closes tcp_socket
      → IsReleased closes udp_socket
      → IsReleased closes serving_loop
      → AllReleased (all_parts servings)
  servings-AllReleased [] t u l = tt
  servings-AllReleased (transport_over_tcp x ∷ servings) t u l =
      (t, (l, servings-AllReleased servings t u l))
  servings-AllReleased (transport_over_udp ∷ servings) t u l =
      (u, (l, servings-AllReleased servings t u l))
  servings-AllReleased (connections x tls ∷ servings) t u l =
      (t, servings-AllReleased servings t u l)

  stream-AllReleased :
      {ConnPolicy : Type 0} (l : Listener ConnPolicy) (tls : Option Bool)
      (transport : Option (List String)) (a : StartAnswers)
      → AllReleased (tls_parts tls)
      → IsReleased closes tcp_socket
      → IsReleased closes udp_socket
      → IsReleased closes serving_loop
      → AllReleased (start_stream_server l tls transport a).1
  unfolding start_stream_server
  stream-AllReleased l tls transport a k t u loop =
      let servings = (start_stream l tls transport a.tcp_listens a.udp_listens).1 in
      All-append (IsReleased closes) (tls_parts tls) (all_parts servings) k
        (servings-AllReleased servings t u loop)

  -- Without a transport nothing but connections is served.
  connections-AllReleased :
      {ConnPolicy : Type 0} (l : Listener ConnPolicy) (tls : Option Bool)
      (tcp_listens udp_listens : Bool)
      → IsReleased closes tcp_socket
      → AllReleased (all_parts (start_stream l tls none tcp_listens udp_listens).1)
  unfolding start_stream
  connections-AllReleased l (some false) tcp_listens udp_listens t = tt
  connections-AllReleased l (some true) false udp_listens t = tt
  connections-AllReleased l (some true) true udp_listens t = (t, tt)
  connections-AllReleased l none false udp_listens t = tt
  connections-AllReleased l none true udp_listens t = (t, tt)

shadowsocks-IsReleased :
    {ConnPolicy : Type 0} (l : Listener ConnPolicy) (a : StartAnswers)
    → All (IsReleased (stream_closed listener_closed ∷ [])) (start_shadowsocks l a).1
unfolding start_shadowsocks listen_tcp
shadowsocks-IsReleased l a = elim (Bool-cases a.tcp_listens) [
  | inl e ↦ elim (Bool-cases a.udp_listens) [
    | inl k ↦ rw (e, k) (refl, (refl, tt))
    | inr k ↦ rw (e, k) (refl, tt)
  ]
  | inr e ↦ rw e tt
]

quic-IsReleased :
    (a : StartAnswers)
    → All
        (IsReleased (stream_closed listener_closed ∷ tls_closed ∷ service_closed ∷ []))
        (start_quic a).1
unfolding start_quic
quic-IsReleased a = elim (Bool-cases a.tls_starts) [
  | inl e ↦ elim (Bool-cases a.udp_listens) [
    | inl k ↦ elim (Bool-cases a.service_starts) [
      | inl l ↦ rw (e, k, l) (refl, (refl, (refl, tt)))
      | inr l ↦ rw (e, k, l) (refl, (refl, (refl, tt)))
    ]
    | inr k ↦ rw (e, k) (refl, tt)
  ]
  | inr e ↦ rw e tt
]

tls-IsReleased :
    (closes : List NodeClose) (starts : Bool)
    → IsReleased closes tls_part
    → All (IsReleased closes) (tls_parts (some starts))
tls-IsReleased closes true k = (k, tt)
tls-IsReleased closes false k = tt

module _ (api : BuildApi) (networks : Transport → List String) where
  -- The closing calls of VMess and Trojan, without a transport and with one.
  abbrev plain_closes : List NodeClose → List NodeClose
  plain_closes more = stream_closed listener_closed ∷ stream_closed serving_ended ∷ more

  abbrev transport_closes : List NodeClose → List NodeClose
  transport_closes more = plain_closes (stream_closed transport_closed ∷ more)

  any_tls-IsReleased :
      (tls : Option InboundTlsOptions) (l : Listener api.ConnPolicy) (a : StartAnswers)
      → All
          (IsReleased (stream_closed listener_closed ∷ if_tls tls))
          (start_stream_server l (tls_answer tls a.tls_starts) none a).1
  unfolding start_stream_server
  any_tls-IsReleased none l a =
      connections-AllReleased (stream_closed listener_closed ∷ []) l none a.tcp_listens
        a.udp_listens refl
  any_tls-IsReleased (some tls) l a = elim (Bool-cases a.tls_starts) [
    | inl e ↦ rw e (
      refl,
      connections-AllReleased (stream_closed listener_closed ∷ tls_closed ∷ []) l (some true)
          a.tcp_listens a.udp_listens refl,
    )
    | inr e ↦ rw e (
        connections-AllReleased (stream_closed listener_closed ∷ tls_closed ∷ []) l (some false)
          a.tcp_listens a.udp_listens refl)
  ]

  -- Whatever a start of a node server came to, what it has taken is released by the close: TLS, the
  -- sockets, the loops that serve a transport, the transport and the service, in each protocol. So a
  -- failed start, which `syncNodeServer` closes, leaves nothing behind.
  pub close_node_server_releases :
      (s : BuiltServer api) (a : StartAnswers)
      → All (IsReleased (close_node_server api networks s)) (start_node_server api networks s a).1
  unfolding start_node_server close_node_server
  close_node_server_releases (shadowsocks_server key_len timeout l) a = shadowsocks-IsReleased l a
  close_node_server_releases (tuic_server tls timeout l) a = quic-IsReleased a
  close_node_server_releases (hysteria2_server tls obfs timeout l) a = quic-IsReleased a
  close_node_server_releases (any_tls_server tls padding l) a = any_tls-IsReleased tls l a
  close_node_server_releases (vmess_server none none l) a = (
    refl,
    stream-AllReleased (plain_closes (service_closed ∷ [])) l none none a tt refl refl refl,
  )
  close_node_server_releases (vmess_server none (some t) l) a = (
    refl,
    (
      refl,
      stream-AllReleased (transport_closes (service_closed ∷ [])) l none (some (networks t)) a tt
          refl refl refl,
    ),
  )
  close_node_server_releases (vmess_server (some tls) none l) a = (
    refl,
    stream-AllReleased (plain_closes (service_closed ∷ tls_closed ∷ [])) l (some a.tls_starts) none
        a (tls-IsReleased (plain_closes (service_closed ∷ tls_closed ∷ [])) a.tls_starts refl) refl
        refl refl,
  )
  close_node_server_releases (vmess_server (some tls) (some t) l) a = (
    refl,
    (
      refl,
      stream-AllReleased (transport_closes (service_closed ∷ tls_closed ∷ [])) l (some a.tls_starts)
          (some (networks t)) a
          (tls-IsReleased (transport_closes (service_closed ∷ tls_closed ∷ [])) a.tls_starts refl)
          refl refl refl,
    ),
  )
  close_node_server_releases (trojan_server tls none l) a =
      stream-AllReleased (plain_closes (tls_closed ∷ [])) l (some a.tls_starts) none a
        (tls-IsReleased (plain_closes (tls_closed ∷ [])) a.tls_starts refl) refl refl refl
  close_node_server_releases (trojan_server tls (some t) l) a = (
    refl,
    stream-AllReleased (transport_closes (tls_closed ∷ [])) l (some a.tls_starts)
        (some (networks t)) a
        (tls-IsReleased (transport_closes (tls_closed ∷ [])) a.tls_starts refl) refl refl refl,
  )
