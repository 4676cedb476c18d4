-- ===== src/Proxy/Life.antt =====
-- proxy/*/server.go: `Start` and `Close`. Whether TLS starts, the sockets are bound and sing's service
-- starts is an argument.
use ne_xt_server.Inbound.Stream.{
  transport_over_tcp, transport_over_udp, connections, listener_closed, CloseEffect, Serving,
  start_stream, close_stream, has, StreamError,
}
use ne_xt_server.Proxy.New.{
  BuildApi, BuiltServer, shadowsocks_server, tuic_server, hysteria2_server, any_tls_server,
  vmess_server, trojan_server,
}
use Prim.Native.String.{String}
use ne_xt_server.Panel.Config.{Transport}
use ne_xt_server.Inbound.Listen.{ListenError, Listener, TcpListener, listen_tcp}
use ne_xt_server.Proxy.New.{BuildApi, BuiltServer}
use ne_xt_server.Inbound.Stream.{CloseEffect, Serving, StreamError, close_stream, start_stream}
use ne_xt_server.Base.{
  Bool, true, false, not, Option, none, some, List, [], ◌∷◌, ◌++◌, map, if◌then◌else◌,
}
use ne_xt_server.Base.Result.{Result, ok, err}

-- What a node server holds while it runs: the certificates of TLS, the sockets, the loops that serve the
-- transport, the transport, and sing's service with what it runs.
pub data Part : Type 0 where
  tls_part tcp_socket udp_socket serving_loop transport_part service_part : Part

pub record StartAnswers : Type 0 where
  pub tls_starts : Bool
  pub tcp_listens : Bool
  pub udp_listens : Bool
  pub service_starts : Bool

pub data StartError : Type 0 where
  tls_failed no_udp service_failed : StartError
  stream_failed : StreamError → StartError
  tcp_failed : ListenError → StartError

-- What a close closes, in order.
pub data NodeClose : Type 0 where
  stream_closed : CloseEffect → NodeClose
  tls_closed service_closed : NodeClose

abbrev pub tls_answer : {A : Type 0} → Option A → Bool → Option Bool
tls_answer none starts = none
tls_answer (some _) starts = some starts

abbrev pub if_tls : {A : Type 0} → Option A → List NodeClose
if_tls none = []
if_tls (some _) = tls_closed ∷ []

-- The closing calls of a stream server; each of them closes what it is given if there is any.
abbrev pub stream_closes : Bool → List NodeClose
stream_closes transport = map stream_closed (close_stream transport)

abbrev pub tls_parts : Option Bool → List Part
tls_parts (some true) = tls_part ∷ []
tls_parts (some false) = []
tls_parts none = []

abbrev pub stream_outcome : Option StreamError → Option StartError
stream_outcome none = none
stream_outcome (some e) = some (stream_failed e)

module _ {ConnPolicy : Type 0} where
  abbrev pub serving_parts : Serving ConnPolicy → List Part
  serving_parts (transport_over_tcp l) = tcp_socket ∷ serving_loop ∷ []
  serving_parts transport_over_udp = udp_socket ∷ serving_loop ∷ []
  serving_parts (connections l tls) = tcp_socket ∷ []

  abbrev pub all_parts : List (Serving ConnPolicy) → List Part
  all_parts [] = []
  all_parts (s ∷ servings) = serving_parts s ++ all_parts servings

  -- `Start` of Trojan, VMess and AnyTLS.
  unfoldable pub start_stream_server :
      Listener ConnPolicy
      → Option Bool
      → Option (List String)
      → StartAnswers
      → Option StartError × List Part
  start_stream_server l tls transport a =
      let (e, servings) = start_stream l tls transport a.tcp_listens a.udp_listens in
      (stream_outcome e, tls_parts tls ++ all_parts servings)

  after_listen :
      Result ListenError (TcpListener ConnPolicy) → StartAnswers → Option StartError × List Part
  after_listen (err e) a = (some (tcp_failed e), [])
  after_listen (ok l) a =
      if a.udp_listens then (none, tcp_socket ∷ udp_socket ∷ []) else (some no_udp, tcp_socket ∷ [])

  -- `Start` of Shadowsocks: TCP, and then the listener's own network, which is UDP.
  unfoldable pub start_shadowsocks :
      Listener ConnPolicy → StartAnswers → Option StartError × List Part
  unfolding after_listen
  start_shadowsocks l a = after_listen (listen_tcp l a.tcp_listens) a

-- `Start` of TUIC and Hysteria2. A service that fails to start may have started a part.
unfoldable pub start_quic : StartAnswers → Option StartError × List Part
start_quic a =
    if not a.tls_starts
    then (some tls_failed, [])
    else if not a.udp_listens
    then (some no_udp, tls_part ∷ [])
    else if not a.service_starts
    then (some service_failed, tls_part ∷ udp_socket ∷ service_part ∷ [])
    else (none, tls_part ∷ udp_socket ∷ service_part ∷ [])

abbrev pub close_shadowsocks : List NodeClose
close_shadowsocks = stream_closed listener_closed ∷ []

abbrev pub close_tuic : List NodeClose
close_tuic = stream_closed listener_closed ∷ tls_closed ∷ service_closed ∷ []

abbrev pub close_hysteria2 : List NodeClose
close_hysteria2 = stream_closed listener_closed ∷ tls_closed ∷ service_closed ∷ []

abbrev pub close_any_tls : {A : Type 0} → Option A → List NodeClose
close_any_tls tls = stream_closed listener_closed ∷ if_tls tls

abbrev pub close_vmess : {A : Type 0} → Bool → Option A → List NodeClose
close_vmess transport tls = stream_closes transport ++ (service_closed ∷ if_tls tls)

abbrev pub close_trojan : Bool → List NodeClose
close_trojan transport = stream_closes transport ++ (tls_closed ∷ [])

module _ (api : BuildApi) (networks : Transport → List String) where
  abbrev pub transport_parts : Option Transport → List Part
  transport_parts none = []
  transport_parts (some t) = transport_part ∷ []

  abbrev pub networks_of : Option Transport → Option (List String)
  networks_of none = none
  networks_of (some t) = some (networks t)

  abbrev pub held : List Part → Option StartError × List Part → Option StartError × List Part
  held parts (e, more) = (e, parts ++ more)

  -- `Start` of a node server, with all that the server holds afterwards: also the transport, and VMess's
  -- service, which run from the time that the server is made.
  unfoldable pub start_node_server : BuiltServer api → StartAnswers → Option StartError × List Part
  start_node_server (shadowsocks_server key_len timeout l) a = start_shadowsocks l a
  start_node_server (tuic_server tls timeout l) a = start_quic a
  start_node_server (hysteria2_server tls obfs timeout l) a = start_quic a
  start_node_server (any_tls_server tls padding l) a =
      start_stream_server l (tls_answer tls a.tls_starts) none a
  start_node_server (vmess_server tls transport l) a =
      held (service_part ∷ transport_parts transport)
        (start_stream_server l (tls_answer tls a.tls_starts) (networks_of transport) a)
  start_node_server (trojan_server tls transport l) a =
      held (transport_parts transport)
        (start_stream_server l (some a.tls_starts) (networks_of transport) a)

  -- `Close` of a node server.
  unfoldable pub close_node_server : BuiltServer api → List NodeClose
  unfolding close_stream
  close_node_server (shadowsocks_server key_len timeout l) = close_shadowsocks
  close_node_server (tuic_server tls timeout l) = close_tuic
  close_node_server (hysteria2_server tls obfs timeout l) = close_hysteria2
  close_node_server (any_tls_server tls padding l) = close_any_tls tls
  close_node_server (vmess_server tls transport l) = close_vmess (has transport) tls
  close_node_server (trojan_server tls transport l) = close_trojan (has transport)
