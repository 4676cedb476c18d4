-- ===== src/Tests/Destination.antt =====
-- The private filter on a public, a private and an unspecified address.
use Prim.Native.String.{String}
use text.Mathlib.Text.{◌==◌ as str_eq}
use text.Mathlib.TextEquality.{eq_iff}
use ne_xt_server.Base.{◌≡◌, refl, ◌≢◌, ◌↔◌, ◌⊎◌, true, false, List, [], ◌∷◌, arith, All}
use ne_xt_server.Base.Result.{Result, ok, err}
use ne_xt_server.Metadata.{Metadata, Socksaddr, Refusal, private_destination}
use ne_xt_server.Netip.{v6, is_valid}
use ne_xt_server.Destination.Filter.{private_unmapped, private_address}
use ne_xt_server.Destination.Ranges.{
  reserved, private_address-reserved, private_address-zone, FitsWidth,
}
use ne_xt_server.Destination.Check.{
  public_address, check_destination, check_destination_refuses_iff,
}
use ne_xt_server.Destination.Dialer.{Packet, refuses, dial_context, write_all, write_packet}
use ne_xt_server.Destination.Safety.{dial_context_sound}
use ne_xt_server.Tests.Data.{methods, metadata, socksaddr, public, private}

program : Unit {0}
unfolding check_destination private_address private_unmapped refuses dial_context write_all
    write_packet
program = tt

abbrev checked : Metadata
checked = record (metadata public) { destination_addresses = public ∷ [] }

passes : check_destination methods false (metadata public) ≡ ok checked
unfolding program
passes = refl

private_refused : check_destination methods false (metadata private) ≡ err private_destination
unfolding program
private_refused = refl

private_address-reserved_example : private_address private ≡ reserved private
private_address-reserved_example = private_address-reserved private (omega arith)

abbrev eth0 : String
eth0 = "eth0"

eth0_named : eth0 ≢ ""
eth0_named h = let same : str_eq eth0 "" ≡ true = (eq_iff eth0 "").1 h in cc same

private_address-zone_example : private_address (v6 0 eth0) ≡ false
private_address-zone_example = private_address-zone eth0 eth0_named

check_destination_refuses_iff_example :
    (check_destination methods false (metadata private) ≡ err private_destination) ↔ (
      ((methods.is_ip (metadata private).destination ≡ true)
        × (private_address (metadata private).destination.addr ≡ true))
      ⊎ (((metadata private).destination_addresses ≢ [])
          × All (λ a. public_address a ≡ false) (metadata private).destination_addresses))
check_destination_refuses_iff_example =
    check_destination_refuses_iff methods false (metadata private) refl

public_fits : All FitsWidth (metadata public).destination_addresses
public_fits = (omega arith, omega arith)

abbrev alone : Metadata
alone = record (metadata private) { destination_addresses = [] }

abbrev dial : Socksaddr → Result Refusal (List Socksaddr)
dial s = ok (s ∷ [])

dialled : dial_context methods false dial (socksaddr public) ≡ ok (socksaddr public ∷ [])
unfolding program
dialled = refl

dial_context_sound_example :
    (dial (socksaddr public) ≡ ok (socksaddr public ∷ []))
    × (((methods.is_fqdn (socksaddr public) ≡ true) × (false ≡ true))
        ⊎ ((is_valid public ≡ true) × (reserved public ≡ false)))
dial_context_sound_example =
    dial_context_sound methods false dial (socksaddr public) (socksaddr public ∷ []) (omega arith)
      dialled

abbrev packets : List Packet
packets = (socksaddr private, 1 ∷ []) ∷ (socksaddr public, 2 ∷ []) ∷ []
