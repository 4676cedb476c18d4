-- ===== src/Tests/Inbound.antt =====
-- Listeners and handshakes at concrete inputs.

use ne_xt_server.Base.{
  ℕ, ◌≡◌, refl, ◌≢◌, ◌⊎◌, true, false, none, some, List, [], ◌∷◌, if◌then◌else◌, All, ◌&&◌, not,
}
use text.Mathlib.Text.{◌==◌ as str_eq}
use ne_xt_server.Base.Result.{Result, ok, err}
use ne_xt_server.Inbound.Accept.{
  temporary, listener_closed, handled_by, Accepted, serve_tcp, connection, IsPause, accept_loop,
  handled, serve_tcp-handles, slept,
}
use ne_xt_server.Inbound.Tls.{
  contains, ClientHello, fallback_certificate, acme_tls1, fallback_certificate_serves,
}
use ne_xt_server.Inbound.Listen.{proxied, Listener, proxy_protocol_header_timeout}
use ne_xt_server.Inbound.Stream.{has, start_stream, expected, start_stream-expected}

abbrev results : List (Accepted ℕ)
results = connection 1 ∷ temporary ∷ temporary ∷ connection 2 ∷ listener_closed ∷ connection 3 ∷ []

serves_two : serve_tcp results ≡ handled 1 ∷ slept 5000000 ∷ slept 10000000 ∷ handled 2 ∷ []
unfolding serve_tcp accept_loop
serves_two = refl

serve_tcp-handles_example :
    (handled_by (serve_tcp results) ≡ 1 ∷ 2 ∷ []) × All IsPause (serve_tcp results)
serve_tcp-handles_example = serve_tcp-handles results

abbrev hello : ClientHello
hello = record { server_name = "cdn.example"; supported_protos = "h3" ∷ []; connection = 0 }

-- There is a certificate for one name only, and no challenge is pending.
abbrev certificate_for : ClientHello → Result (Unit {0}) ℕ
certificate_for h =
    if str_eq h.server_name "example.org" && not (contains acme_tls1 h.supported_protos)
    then ok 7
    else err tt

covers :
    (h : ClientHello)
    → str_eq h.server_name "example.org" ≡ true
    → contains acme_tls1 h.supported_protos ≡ false
    → (c : ℕ) × (certificate_for h ≡ ok c)
covers h e e' = (7, rw (e, e') refl)

fallback_certificate_serves_example :
    let answer = fallback_certificate str_eq certificate_for "example.org" hello in
    ((contains acme_tls1 hello.supported_protos ≡ true) × (answer ≡ certificate_for hello))
    ⊎ ((contains acme_tls1 hello.supported_protos ≡ false)
        × ((c : ℕ) × (answer ≡ ok c)
            × ((certificate_for hello ≡ ok c)
                ⊎ (certificate_for (record hello { server_name = "example.org" }) ≡ ok c))))
fallback_certificate_serves_example =
    fallback_certificate_serves str_eq certificate_for "example.org" hello covers refl

abbrev listening_on : Listener ℕ
listening_on = record {
  options = record { listen = none; listen_port = 443; udp_fragment_default = false };
  network = [];
  proxy_protocol = true;
  conn_policy = some 1;
}

start_stream-expected_example :
    (start_stream listening_on (some true) none true true
      ≡ (none, expected (has (some true)) none (proxied (some 1) proxy_protocol_header_timeout)))
    ⊎ (((start_stream listening_on (some true) none true true).0 ≢ none)
        × ((some true ≡ some false) ⊎ ((true ≡ false) ⊎ (true ≡ false))))
start_stream-expected_example = start_stream-expected listening_on (some true) none true true
