-- ===== src/Proxy/Handlers.antt =====
-- proxy/*/server.go: the handlers that give an authenticated connection to the router, and
-- proxy/inbound/node.go: `UserContext`.
use ne_xt_server.Adapter.{User}
use ne_xt_server.Base.Int.{ℤ, pos}
use ne_xt_server.Proxy.Decimal.{itoa, atoi, IsInt, atoi-itoa}
use ne_xt_server.Metadata.{Socksaddr, Metadata}
use Prim.Native.String.{String}
use ne_xt_server.Netip.{invalid}
use ne_xt_server.Proxy.AnyTls.{credentials}
use text.Mathlib.Text.{◌==◌ as str_eq}
use ne_xt_server.Base.{
  ℕ, ◌≡◌, refl, inl, inr, Bool, true, false, not, Option, none, some, List, [], ◌∷◌, map,
  if◌then◌else◌, Bool-cases, keep, All,
}

-- The user in a connection's context, which is of the type that the service was made with: AnyTLS
-- puts a name, the others the panel's ID.
pub data ContextUser : Type 0 where
  nobody : ContextUser
  user_id : ℤ → ContextUser
  user_name : List ℕ → ContextUser

-- `auth.UserFromContext[int]` and `auth.UserFromContext[string]`
abbrev pub int_user : ContextUser → Option ℤ
int_user (user_id id) = some id
int_user nobody = none
int_user (user_name name) = none

abbrev pub name_user : ContextUser → List ℕ
name_user (user_name name) = name
name_user nobody = []
name_user (user_id id) = []

-- `boxAdapter.InboundContext`, with the fields that the handlers set.
pub record InboundMetadata : Type 0 where
  pub base : Metadata
  pub inbound : String
  pub inbound_type : String
  pub user : List ℕ
  pub origin_destination : Option Socksaddr

-- `C.TypeTrojan` and the like, the names of sing-box for the protocols.
pub record TypeNames : Type 0 where
  pub trojan : String
  pub shadowsocks : String
  pub vmess : String
  pub tuic : String
  pub hysteria2 : String
  pub any_tls : String

-- What a handler does: it ends the connection with `os.ErrInvalid`, or hands it to the router.
pub data Handed : Type 0 where
  refused : Handed
  routed routed_packets : ContextUser → InboundMetadata → Handed

-- `UserContext`: the context's user, and the metadata's.
unfoldable pub user_context : InboundMetadata → ℤ → ContextUser × InboundMetadata
unfolding itoa
user_context metadata id = (user_id id, record metadata { user = itoa id })

abbrev pub tagged : String → InboundMetadata → InboundMetadata
tagged type metadata = record metadata { inbound = type; inbound_type = type }

abbrev pub hand : Bool → ContextUser × InboundMetadata → Handed
hand packets (ctx, metadata) = if packets then routed_packets ctx metadata else routed ctx metadata

hand_user : Bool → InboundMetadata → Option ℤ → Handed
unfolding user_context
hand_user packets metadata none = refused
hand_user packets metadata (some id) = hand packets (user_context metadata id)

-- `newConnectionEx` and `newPacketConnectionEx` of Trojan, and `newConnection` and
-- `newPacketConnection` of Shadowsocks.
unfoldable pub new_trojan_connection : TypeNames → Bool → ContextUser → InboundMetadata → Handed
unfolding hand_user
new_trojan_connection types packets ctx metadata =
    hand_user packets (tagged types.trojan metadata) (int_user ctx)

unfoldable pub new_shadowsocks_connection :
    TypeNames → Bool → ContextUser → InboundMetadata → Handed
unfolding hand_user
new_shadowsocks_connection types packets ctx metadata =
    hand_user packets (tagged types.shadowsocks metadata) (int_user ctx)

unfoldable pub new_vmess_connection : TypeNames → ContextUser → InboundMetadata → Handed
unfolding hand_user
new_vmess_connection types ctx metadata =
    hand_user false (tagged types.vmess metadata) (int_user ctx)

abbrev pub no_address : Socksaddr
no_address = record { addr = invalid; port = 0; fqdn = "" }

-- VMess's packets whose destination is the magic address, a name of sing-vmess, have their own
-- destinations each.
abbrev pub packet_destination : String → InboundMetadata → InboundMetadata
packet_destination magic metadata =
    if str_eq metadata.base.destination.fqdn magic
    then record metadata { base = record (metadata.base) { destination = no_address } }
    else metadata

unfoldable pub new_vmess_packet_connection :
    TypeNames → String → ContextUser → InboundMetadata → Handed
unfolding hand_user
new_vmess_packet_connection types magic ctx metadata =
    hand_user true (packet_destination magic (tagged types.vmess metadata)) (int_user ctx)

-- An ID is 0 when the context has none.
abbrev pub or_zero : Option ℤ → ℤ
or_zero none = pos 0
or_zero (some id) = id

-- `newMetadata` of TUIC and of Hysteria2.
abbrev pub quic_start : String → Socksaddr → Socksaddr → Socksaddr → InboundMetadata
quic_start type udp_addr source destination = record {
  base = record {
    source = source;
    destination = destination;
    destination_addresses = [];
    domain = "";
  };
  inbound = type;
  inbound_type = type;
  user = [];
  origin_destination = some udp_addr;
}

unfoldable pub quic_metadata :
    String → Socksaddr → ContextUser → Socksaddr → Socksaddr → ContextUser × InboundMetadata
unfolding user_context
quic_metadata type udp_addr ctx source destination =
    user_context (quic_start type udp_addr source destination) (or_zero (int_user ctx))

unfoldable pub new_tuic_connection :
    TypeNames → Bool → Socksaddr → ContextUser → Socksaddr → Socksaddr → Handed
unfolding quic_metadata
new_tuic_connection types packets udp_addr ctx source destination =
    hand packets (quic_metadata types.tuic udp_addr ctx source destination)

unfoldable pub new_hysteria2_connection :
    TypeNames → Bool → Socksaddr → ContextUser → Socksaddr → Socksaddr → Handed
unfolding quic_metadata
new_hysteria2_connection types packets udp_addr ctx source destination =
    hand packets (quic_metadata types.hysteria2 udp_addr ctx source destination)

-- `serviceHandler.NewConnectionEx` of AnyTLS; `unwrap` is `Socksaddr.Unwrap`.
unfoldable pub new_any_tls_connection :
    TypeNames → (Socksaddr → Socksaddr) → ContextUser → Socksaddr → Socksaddr → Handed
unfolding hand_user atoi
new_any_tls_connection types unwrap ctx source destination =
    hand_user false
      (record {
        base = record {
          source = source;
          destination = unwrap destination;
          destination_addresses = [];
          domain = "";
        };
        inbound = types.any_tls;
        inbound_type = types.any_tls;
        user = [];
        origin_destination = none;
      })
      (atoi (name_user ctx))

-- The user that the router finds in the context.
abbrev pub routed_user : Handed → Option ℤ
routed_user refused = none
routed_user (routed ctx metadata) = int_user ctx
routed_user (routed_packets ctx metadata) = int_user ctx

-- The two users that a connection is routed and logged with are one.
abbrev pub IsNamed : Handed → Type 0
IsNamed refused = Unit
IsNamed (routed ctx metadata) = (id : ℤ) × (ctx ≡ user_id id) × (metadata.user ≡ itoa id)
IsNamed (routed_packets ctx metadata) = (id : ℤ) × (ctx ≡ user_id id) × (metadata.user ≡ itoa id)

hand_names :
    (packets : Bool) (metadata : InboundMetadata) (id : ℤ)
    → (routed_user (hand packets (user_context metadata id)) ≡ some id)
      × IsNamed (hand packets (user_context metadata id))
unfolding user_context
hand_names true metadata id = (refl, (id, refl, refl))
hand_names false metadata id = (refl, (id, refl, refl))

-- Every protocol but AnyTLS routes a connection, or packets, of an authenticated user under the user's
-- ID in the panel, and names the same user in the metadata.
pub handlers_user :
    (types : TypeNames) (id : ℤ) (packets : Bool) (metadata : InboundMetadata) (magic : String)
    (udp_addr source destination : Socksaddr)
    → All
        (λ h. (routed_user h ≡ some id) × IsNamed h)
        (new_trojan_connection types packets (user_id id) metadata
          ∷ new_shadowsocks_connection types packets (user_id id) metadata
          ∷ new_vmess_connection types (user_id id) metadata
          ∷ new_vmess_packet_connection types magic (user_id id) metadata
          ∷ new_tuic_connection types packets udp_addr (user_id id) source destination
          ∷ new_hysteria2_connection types packets udp_addr (user_id id) source destination
          ∷ [])
unfolding new_trojan_connection new_shadowsocks_connection new_vmess_connection
    new_vmess_packet_connection new_tuic_connection new_hysteria2_connection user_context hand_user
    quic_metadata
handlers_user types id packets metadata magic udp_addr source destination = (
  hand_names packets (tagged types.trojan metadata) id,
  (
    hand_names packets (tagged types.shadowsocks metadata) id,
    (
      hand_names false (tagged types.vmess metadata) id,
      (
        hand_names true (packet_destination magic (tagged types.vmess metadata)) id,
        (
          hand_names packets (quic_start types.tuic udp_addr source destination) id,
          (hand_names packets (quic_start types.hysteria2 udp_addr source destination) id, tt),
        ),
      ),
    ),
  ),
)

-- AnyTLS knows users by name only: each user who has a password is routed under the panel's ID, which
-- is read back from the name that `UpdateUsers` gives the service.
pub any_tls_round_trip :
    (types : TypeNames) (unwrap : Socksaddr → Socksaddr) (users : List User)
    (source destination : Socksaddr)
    → All (λ u. IsInt u.id) users
    → map
        (λ name.
          routed_user (new_any_tls_connection types unwrap (user_name name) source destination))
        (credentials itoa users).ids
      ≡ map (λ u. some u.id) (keep (λ u. not (str_eq u.password "")) users)
unfolding new_any_tls_connection hand_user credentials
any_tls_round_trip types unwrap [] source destination h = refl
any_tls_round_trip types unwrap (u ∷ users) source destination h =
    let rest = any_tls_round_trip types unwrap users source destination h.1 in
    elim (Bool-cases (str_eq u.password "")) [
      | inl e ↦ rw e rest
      | inr e ↦ rw (e, atoi-itoa u.id h.0, rest) refl
    ]
