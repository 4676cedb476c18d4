-- ===== src/Router/Packet.antt =====
-- router.go: `auditPacket` and `RoutePacketConnectionEx`, which differ from the stream side in how
-- the first payload is read.
use ne_xt_server.Base.{
  ℕ, ◌≡◌, ap, subst, ◌⊎◌, Bool, true, false, not, ◌||◌, Option, none, some, List, if◌then◌else◌,
  All,
}
use Prim.Native.String.{String}
use ne_xt_server.Base.Int.{ℤ}
use ne_xt_server.Base.Result.{Result, ok, err}
use ne_xt_server.Netip.{is_unspecified}
use ne_xt_server.Metadata.{Socksaddr, Metadata, Refusal, read_failed}
use ne_xt_server.Users.Table.{Table, get}
use ne_xt_server.Audit.Auditor.{Auditor, enabled, match_connection}
use ne_xt_server.Destination.Filter.{private_address}
use ne_xt_server.Destination.Check.{public_address, check_destination_sound}
use ne_xt_server.Router.Route.{RouterApi, Routed, hit, destination_host, connection_user, passed}
use ne_xt_server.Router.Admission.{passed_ok, user_of}

-- The first packet, with its destination, if it can be read; the packet sniffers, which may set the
-- domain; and `Socksaddr.IsValid`.
pub record PacketApi : Type 0 where
  pub first_packet : Option (Socksaddr × List ℕ)
  pub peek_packet : Metadata → List ℕ → String
  pub is_valid_destination : Socksaddr → Bool

module _ (api : RouterApi) (packets : PacketApi) where
  open api use {matching}
  open packets use {first_packet, peek_packet, is_valid_destination}

  -- A session without a destination gets that of its first packet.
  abbrev pub with_destination : Metadata → Socksaddr → Metadata
  with_destination metadata destination =
      if not (is_valid_destination metadata.destination) || is_unspecified metadata.destination.addr
      then record metadata { destination = destination }
      else metadata

  packet_read :
      ℤ
      → Auditor matching.Regexp
      → Metadata
      → Option (Socksaddr × List ℕ)
      → Auditor matching.Regexp × Metadata × Option Refusal
  packet_read user_id a metadata none = (a, metadata, some read_failed)
  packet_read user_id a metadata (some (destination, payload)) =
      let metadata' = with_destination metadata destination in
      let domain = peek_packet metadata' payload in
      let (a', e) =
        hit api user_id a
          (match_connection matching (destination_host api destination) domain payload a) in
      (a', record metadata' { domain = domain }, e)

  unfoldable pub audit_packet :
      ℤ → Auditor matching.Regexp → Metadata → Auditor matching.Regexp × Metadata × Option Refusal
  unfolding packet_read
  audit_packet user_id a metadata = packet_read user_id a metadata first_packet

  unfoldable pub audited_packet :
      ℤ → Auditor matching.Regexp → Metadata → Auditor matching.Regexp × Metadata × Option Refusal
  unfolding audit_packet
  audited_packet user_id a metadata =
      if enabled a then audit_packet user_id a metadata else (a, metadata, none)

module _ {L : Type 0} (api : RouterApi) (packets : PacketApi) (resolve_domain allow_private : Bool)
    (t : Table L) where
  unfoldable pub packet_with_user :
      Auditor api.matching.Regexp
      → Metadata
      → ℕ
      → Result Refusal ℕ
      → Table L × Auditor api.matching.Regexp × Result Refusal (Routed api)
  unfolding audited_packet
  packet_with_user a metadata now (err e) = (t, a, err e)
  packet_with_user a metadata now (ok p) =
      let (a', metadata', e) = audited_packet api packets (t.states p).id a metadata in
      let (t', r) = passed api resolve_domain allow_private t p now metadata' e in (t', a', r)

  unfoldable pub route_packet_connection :
      Auditor api.matching.Regexp
      → Option ℤ
      → Metadata
      → ℕ
      → Table L × Auditor api.matching.Regexp × Result Refusal (Routed api)
  unfolding packet_with_user
  route_packet_connection a user_id metadata now =
      packet_with_user a metadata now (connection_user t user_id)

  with_user_sound :
      (a : Auditor api.matching.Regexp) (m : Metadata) (now : ℕ) (r : Result Refusal ℕ)
      (routed : Routed api)
      → allow_private ≡ false
      → (packet_with_user a m now r).2 ≡ ok routed
      → (r ≡ ok routed.state)
        × ((audited_packet api packets (t.states routed.state).id a m).2 ≡ none)
        × ((api.methods.is_ip routed.metadata.destination ≡ false)
            ⊎ (private_address routed.metadata.destination.addr ≡ false))
        × All (λ x. public_address x ≡ true) routed.metadata.destination_addresses
  unfolding packet_with_user
  with_user_sound a m now (err e) routed off h = absurd (cc h)
  with_user_sound a m now (ok p) routed off h =
      let x = audited_packet api packets (t.states p).id a m in
      let (clear, (m', res, chk, st)) =
        passed_ok api resolve_domain allow_private t p now (x.1) (x.2) routed h in
      let (plain, publics, some_left, dest) =
        check_destination_sound api.methods allow_private m' routed.metadata off chk in
      (
        ap ok st,
        subst (λ q. (audited_packet api packets (t.states q).id a m).2 ≡ none) st clear,
        rw dest plain,
        publics,
      )

  -- With private destinations refused: a packet session that the router lets through belongs to a
  -- user who is served, counts in that user's state, was refused by no detect rule, does not start at a
  -- private address, and keeps only public ones of its resolved addresses.
  pub route_packet_connection_sound :
      (a : Auditor api.matching.Regexp) (user_id : Option ℤ) (m : Metadata) (now : ℕ)
      (routed : Routed api)
      → allow_private ≡ false
      → (route_packet_connection a user_id m now).2 ≡ ok routed
      → (id : ℤ) × (user_id ≡ some id)
        × (get t id ≡ some routed.state)
        × ((audited_packet api packets (t.states routed.state).id a m).2 ≡ none)
        × ((api.methods.is_ip routed.metadata.destination ≡ false)
            ⊎ (private_address routed.metadata.destination.addr ≡ false))
        × All (λ x. public_address x ≡ true) routed.metadata.destination_addresses
  unfolding route_packet_connection
  route_packet_connection_sound a user_id m now routed off h =
      let (found, clear, plain, publics) =
        with_user_sound a m now (connection_user t user_id) routed off h in
      let (id, same, served) =
        user_of api resolve_domain allow_private t user_id routed.state found in
      (id, same, served, clear, plain, publics)
