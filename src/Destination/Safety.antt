-- ===== src/Destination/Safety.antt =====
-- What the checks of the router and of the dialer promise together.
use ne_xt_server.Base.{
  ◌≡◌, refl, ◌↔◌, ◌⊎◌, inl, inr, Bool, true, false, not, Option, List, [], ◌∷◌, ◌++◌, arith,
  if◌then◌else◌, Bool-cases, keep, All,
}
use mathlib.Core.List.{reverse, reverse-cons, append_assoc}
use ne_xt_server.Base.{keep-All_of}
use ne_xt_server.Base.Result.{Result, ok, err}
use ne_xt_server.Metadata.{Socksaddr, SocksaddrMethods, Metadata, Refusal, private_destination}
use ne_xt_server.Netip.{is_valid}
use ne_xt_server.Destination.Ranges.{reserved, FitsWidth, private_address-reserved}
use ne_xt_server.Destination.Check.{public_address, check_destination, check_destination-keep}
use ne_xt_server.Destination.Dialer.{Packet, Sent, refuses, dial_context, write_packet, write_all}

module _ (methods : SocksaddrMethods) where
  open methods use {is_ip, is_fqdn, is_ip-is_valid, is_fqdn-is_ip}

  -- The dialer and the router agree on every destination that is a valid address: the dialer
  -- refuses it exactly when the router does, with or without a proxy that takes domains.
  pub refuses-check_destination :
      (pass_domains : Bool) (metadata : Metadata)
      → is_fqdn metadata.destination ≡ false
      → is_valid metadata.destination.addr ≡ true
      → metadata.destination_addresses ≡ []
      → (refuses methods pass_domains metadata.destination ≡ true)
        ↔ (check_destination methods false metadata ≡ err private_destination)
  unfolding refuses check_destination
  refuses-check_destination pass_domains metadata plain valid alone =
      ground (arith, is_ip-is_valid metadata.destination)

  -- What the filter lets be dialled is what the wrapped dialer dials, and its destination is no
  -- reserved address: it is a domain left to the front proxy, or a valid address outside the
  -- reserved ranges.
  pub dial_context_sound :
      {Conn : Type 0} (pass_domains : Bool) (dial : Socksaddr → Result Refusal Conn) (s : Socksaddr)
      (conn : Conn)
      → FitsWidth s.addr
      → dial_context methods pass_domains dial s ≡ ok conn
      → (dial s ≡ ok conn)
        × (((is_fqdn s ≡ true) × (pass_domains ≡ true))
            ⊎ ((is_valid s.addr ≡ true) × (reserved s.addr ≡ false)))
  unfolding dial_context refuses
  dial_context_sound pass_domains dial s conn fits h =
      ground (arith, private_address-reserved s.addr fits)

  write_packet_lem :
      (pass_domains : Bool) (write : Packet → Option Refusal) (p : Packet) (sent : Sent)
      → (write_packet methods pass_domains write p sent).0
        ≡ (if refuses methods pass_domains p.0 then sent else p ∷ sent)
  unfolding write_packet
  write_packet_lem pass_domains write p sent = ground arith

  -- A session sends the packets that are not refused, all of them and in order, and no other: a
  -- refused packet neither reaches the socket nor stops the session.
  pub write_all-keep :
      (pass_domains : Bool) (write : Packet → Option Refusal) (packets : List Packet) (sent : Sent)
      → write_all methods pass_domains write packets sent
        ≡ reverse (keep (λ p. not (refuses methods pass_domains p.0)) packets) ++ sent
  unfolding write_all
  write_all-keep pass_domains write [] sent = refl
  write_all-keep pass_domains write (p ∷ packets) sent =
      rw (write_packet_lem pass_domains write p sent)
        (elim (Bool-cases (refuses methods pass_domains p.0)) [
          | inl e ↦ rw (e, not) (write_all-keep pass_domains write packets sent)
          | inr e ↦
              rw (e, not, reverse-cons, append_assoc)
                (write_all-keep pass_domains write packets (p ∷ sent))
        ])

  -- With every address of its family's width, what passes the router resolves to addresses outside
  -- the reserved ranges only.
  pub check_destination-reserved :
      (metadata checked : Metadata)
      → All FitsWidth metadata.destination_addresses
      → check_destination methods false metadata ≡ ok checked
      → All (λ a. reserved a ≡ false) checked.destination_addresses
  check_destination-reserved metadata checked fits h =
      rw (check_destination-keep methods false metadata checked refl h) (
        keep-All_of public_address FitsWidth (λ a f e. ground (arith, private_address-reserved a f))
          metadata.destination_addresses fits)
