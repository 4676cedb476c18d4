-- ===== src/Tests/Router.antt =====
-- A connection that is let through, and one that is refused.
use ne_xt_server.Router.Closing.{close_handler, OnceApi, route_blocking, route_blocking_ends}
use ne_xt_server.Router.Packet.{
  PacketApi, audited_packet, route_packet_connection, route_packet_connection_sound,
}
use ne_xt_server.Tests.Data.{socksaddr}
use ne_xt_server.Netip.{is_unspecified}
use ne_xt_server.Base.{◌≡◌, refl, ◌⊎◌, true, false, none, some, [], ◌∷◌, All, ℕ, List}
use ne_xt_server.Users.State.{new_user_state, set_speed_limit, open_connection, close_connection}
use ne_xt_server.Users.Ledger.{start}
use ne_xt_server.Base.Assoc.{lookup, insert}
use ne_xt_server.Audit.Auditor.{enabled, match_connection}
use ne_xt_server.Destination.Check.{check_destination}
use ne_xt_server.Router.Route.{destination_host}
use ne_xt_server.Base.Int.{ℤ_discrete, ℤ, pos}
use ne_xt_server.Base.Result.{ok, err}
use ne_xt_server.Metadata.{no_longer_served}
use ne_xt_server.Users.Table.{
  new_user_table, update, serve, serve_user, retire, effective_limit, get, update, new_user_table,
}
use ne_xt_server.Destination.Filter.{private_address}
use ne_xt_server.Destination.Check.{public_address}
use ne_xt_server.Router.Route.{RouterApi, Routed, audited, route_connection}
use ne_xt_server.Router.Admission.{route_connection_sound}
use ne_xt_server.Tests.Data.{methods, matching, auditor, metadata, public}
use ne_xt_server.Tests.Users.{served}

program : Unit {0}
unfolding route_connection start new_user_table new_user_state set_speed_limit update get lookup
    insert serve serve_user retire effective_limit ℤ_discrete enabled match_connection
    destination_host open_connection check_destination private_address
program = tt

abbrev pub routing : RouterApi
routing = record {
  methods = methods;
  addr_string = λ a. "8.8.8.8";
  matching = matching;
  peek = λ m. ("", []);
  lookup_ip = λ s. none;
}

abbrev routed : Routed routing
routed = record {
  metadata = record (metadata public) { destination_addresses = public ∷ [] };
  state = 0;
  activity = 0;
  limiter = some 0;
}

lets_through :
    (route_connection routing true false served.table auditor (some (pos 1)) (metadata public) 5).2
    ≡ ok routed
unfolding program
lets_through = refl

unknown_user :
    (route_connection routing true false served.table auditor (some (pos 2)) (metadata public) 5).2
    ≡ err (no_longer_served (pos 2))
unfolding program
unknown_user = refl

route_connection_sound_example :
    (id : ℤ) × (some (pos 1) ≡ some id)
    × (get served.table id ≡ some 0)
    × ((audited routing (served.table.states 0).id auditor (metadata public)).2 ≡ none)
    × ((methods.is_ip (metadata public).destination ≡ false)
        ⊎ (private_address (metadata public).destination.addr ≡ false))
    × All (λ x. public_address x ≡ true) (public ∷ [])
route_connection_sound_example =
    route_connection_sound routing true false served.table auditor (some (pos 1)) (metadata public)
      5 routed refl lets_through

abbrev packets : PacketApi
packets = record {
  first_packet = some (socksaddr public, []);
  peek_packet = λ m payload. "";
  is_valid_destination = λ s. true;
}

packet_lets_through :
    (route_packet_connection routing packets true false served.table auditor
      (some (pos 1))
      (metadata public)
      5).2
    ≡ ok routed
unfolding program route_packet_connection is_unspecified
packet_lets_through = refl

route_packet_connection_sound_example :
    (id : ℤ) × (some (pos 1) ≡ some id)
    × (get served.table id ≡ some 0)
    × ((audited_packet routing packets (served.table.states 0).id auditor (metadata public)).2
        ≡ none)
    × ((methods.is_ip (metadata public).destination ≡ false)
        ⊎ (private_address (metadata public).destination.addr ≡ false))
    × All (λ x. public_address x ≡ true) (public ∷ [])
route_packet_connection_sound_example =
    route_packet_connection_sound routing packets true false served.table auditor (some (pos 1))
      (metadata public) 5 routed refl packet_lets_through

-- Only the first error of a list gets through.
abbrev first_only : List ℕ → List ℕ
first_only [] = []
first_only (e ∷ es) = e ∷ []

abbrev once_api : OnceApi ℕ
once_api = record { once = first_only; once-nil = refl; once-cons = λ e es. refl }

-- Both directions of a connection end, with different errors.
abbrev two_ends : List (ℕ × ℕ)
two_ends = (7, 100) ∷ (8, 200) ∷ []

route_blocking_ends_example :
    let u = served.table.states 0 in
    let (u', passed_on) = close_handler u 0 two_ends in
    let (returned, waiting) = route_blocking once_api passed_on in
    (waiting ≡ 0)
    × (((two_ends ≡ []) × (u' ≡ u) × (returned ≡ none))
        ⊎ ((e : ℕ) × (now : ℕ) × (rest : List (ℕ × ℕ)) × ((7, 100) ∷ (8, 200) ∷ []
              ≡ ((e, now) ∷ rest))
            × (u' ≡ close_connection u 0 now)
            × (returned ≡ some e)))
route_blocking_ends_example = route_blocking_ends once_api (served.table.states 0) 0 two_ends
