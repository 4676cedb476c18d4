-- ===== src/Destination/Check.antt =====
-- destination.go: `checkDestination`.
use ne_xt_server.Base.{
  ◌≡◌, ◌≢◌, ◌↔◌, ◌⊎◌, Bool, true, false, not, ◌&&◌, List, [], ◌∷◌, arith, if◌then◌else◌, keep, All,
}
use ne_xt_server.Base.{All-keep, keep-nil_iff}
use ne_xt_server.Base.Result.{Result, ok, err}
use ne_xt_server.Metadata.{SocksaddrMethods, Metadata, Refusal, private_destination}
use ne_xt_server.Netip.{Addr}
use ne_xt_server.Destination.Filter.{private_address}

abbrev pub public_address : Addr → Bool
public_address addr = not (private_address addr)

-- `len(public) == 0` decides; what is left of the addresses is stored.
check_addresses : Metadata → List Addr → Result Refusal Metadata
check_addresses metadata [] = err private_destination
check_addresses metadata (addr ∷ addrs) =
    ok (record metadata { destination_addresses = addr ∷ addrs })

check_resolved : Metadata → List Addr → Result Refusal Metadata
unfolding check_addresses
check_resolved metadata [] = ok metadata
check_resolved metadata (addr ∷ addrs) =
    check_addresses metadata (keep public_address (addr ∷ addrs))

module _ (methods : SocksaddrMethods) (allow_private : Bool) where
  open methods use {is_ip}

  unfoldable pub check_destination : Metadata → Result Refusal Metadata
  unfolding check_resolved
  check_destination metadata =
      if allow_private
      then ok metadata
      else if is_ip metadata.destination && private_address metadata.destination.addr
      then err private_destination
      else check_resolved metadata metadata.destination_addresses

  -- When private destinations are not allowed, what passes has no private destination address, keeps
  -- only public ones of its resolved addresses, and keeps at least one where there were any; the
  -- destination itself stays.
  pub check_destination_sound :
      (metadata checked : Metadata)
      → allow_private ≡ false
      → check_destination metadata ≡ ok checked
      → ((is_ip metadata.destination ≡ false) ⊎ (private_address metadata.destination.addr ≡ false))
        × All (λ a. public_address a ≡ true) checked.destination_addresses
        × ((checked.destination_addresses ≢ []) ⊎ (metadata.destination_addresses ≡ []))
        × (checked.destination ≡ metadata.destination)
  unfolding check_destination
  check_destination_sound metadata checked off h =
      ground (arith, All-keep public_address metadata.destination_addresses)

  -- A destination is refused exactly when it is a private address, or resolves to private addresses
  -- only (and to at least one).
  pub check_destination_refuses_iff :
      (metadata : Metadata)
      → allow_private ≡ false
      → (check_destination metadata ≡ err private_destination) ↔ (
          ((is_ip metadata.destination ≡ true) × (private_address metadata.destination.addr ≡ true))
          ⊎ ((metadata.destination_addresses ≢ [])
              × All (λ a. public_address a ≡ false) metadata.destination_addresses))
  unfolding check_destination
  check_destination_refuses_iff metadata off =
      grind (arith, keep-nil_iff public_address metadata.destination_addresses)

  -- The resolved addresses that stay are the public ones, in order.
  pub check_destination-keep :
      (metadata checked : Metadata)
      → allow_private ≡ false
      → check_destination metadata ≡ ok checked
      → checked.destination_addresses ≡ keep public_address metadata.destination_addresses
  unfolding check_destination
  check_destination-keep metadata checked off h =
      ground (arith, All-keep public_address metadata.destination_addresses)
