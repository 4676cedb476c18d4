-- ===== src/Destination/Ranges.antt =====
-- What `privateAddress` decides, against tables of the address ranges.
use Prim.Native.String.{String}
use text.Mathlib.Text.{◌==◌ as str_eq}
use text.Mathlib.TextEquality.{eq_iff}
use ne_xt_server.Base.{
  ℕ, ◌-◌, ◌/◌, ◌%◌, ◌^◌, ◌<◌, ◌≡◌, refl, ◌≢◌, inl, inr, Bool, true, false, ◌&&◌, ◌||◌, List, [],
  ◌∷◌, arith, leb, ◌==◌, if◌then◌else◌, Bool-cases, any,
}
use ne_xt_server.Netip.{Addr, invalid, v4, v6, unmap}
use ne_xt_server.Destination.Filter.{private_unmapped, private_address}

-- First and last address of a range.
abbrev within : ℕ → ℕ × ℕ → Bool
within n (first, last) = leb first n && leb n last

abbrev ranges4 : List (ℕ × ℕ)
ranges4 =
    (0x0000_0000, 0x00ff_ffff)
    ∷ (0x0a00_0000, 0x0aff_ffff)
    ∷ (0x6440_0000, 0x647f_ffff)
    ∷ (0x7f00_0000, 0x7fff_ffff)
    ∷ (0xa9fe_0000, 0xa9fe_ffff)
    ∷ (0xac10_0000, 0xac1f_ffff)
    ∷ (0xc0a8_0000, 0xc0a8_ffff)
    ∷ (0xe000_0000, 0xefff_ffff)
    ∷ (0xffff_ffff, 0xffff_ffff)
    ∷ []

-- ::1, fc00::/7, fe80::/10 and ff00::/8.
abbrev ranges6 : List (ℕ × ℕ)
ranges6 =
    (1, 1)
    ∷ (0xfc00_0000_0000_0000_0000_0000_0000_0000, 0xfdff_ffff_ffff_ffff_ffff_ffff_ffff_ffff)
    ∷ (0xfe80_0000_0000_0000_0000_0000_0000_0000, 0xfebf_ffff_ffff_ffff_ffff_ffff_ffff_ffff)
    ∷ (0xff00_0000_0000_0000_0000_0000_0000_0000, 0xffff_ffff_ffff_ffff_ffff_ffff_ffff_ffff)
    ∷ []

-- ::ffff:0.0.0.0 to ::ffff:255.255.255.255
abbrev mapped : ℕ × ℕ
mapped = (0xffff_0000_0000, 0xffff_ffff_ffff)

-- The addresses that the tables list; `::` is one of them only without a zone.
unfoldable pub reserved : Addr → Bool
reserved invalid = false
reserved (v4 n) = any (within n) ranges4
reserved (v6 n zone) =
    if within n mapped
    then any (within (n - 0xffff_0000_0000)) ranges4
    else any (within n) ranges6 || (n == 0 && str_eq zone "")

abbrev pub FitsWidth : Addr → Type 0
FitsWidth invalid = Unit
FitsWidth (v4 n) = n < 2 ^ 32
FitsWidth (v6 n zone) = n < 2 ^ 128

private_unmapped-v4 : (n : ℕ) → n < 2 ^ 32 → private_unmapped (v4 n) ≡ any (within n) ranges4
unfolding private_unmapped
private_unmapped-v4 n h = ground arith

private_unmapped-v6 :
    (n : ℕ) (zone : String)
    → n < 2 ^ 128
    → private_unmapped (v6 n zone) ≡ (any (within n) ranges6 || (n == 0 && str_eq zone ""))
unfolding private_unmapped
private_unmapped-v6 n zone h = ground arith

mapped-quotient : (n : ℕ) → (n / 2 ^ 32 == 0xffff) ≡ within n mapped
mapped-quotient n = ground arith

private_address_lem : (a : Addr) → private_address a ≡ private_unmapped (unmap a)
unfolding private_address
private_address_lem a = refl

private_unmapped-mapped :
    (n : ℕ)
    → within n mapped ≡ true
    → private_unmapped (v4 (n % 2 ^ 32)) ≡ any (within (n - 0xffff_0000_0000)) ranges4
private_unmapped-mapped n h =
    let e : n % 2 ^ 32 ≡ n - 0xffff_0000_0000 = ground arith in
    rw e (private_unmapped-v4 (n - 0xffff_0000_0000) (ground arith))

-- For every address of its family's width, `privateAddress` answers what the tables of address
-- ranges say: an IPv4 address, an IPv4-mapped one by its IPv4 address, and any other IPv6 address.
pub private_address-reserved : (a : Addr) → FitsWidth a → private_address a ≡ reserved a
unfolding unmap reserved
private_address-reserved invalid h = unfold private_address in refl
private_address-reserved (v4 n) h = rw private_address_lem (private_unmapped-v4 n h)
private_address-reserved (v6 n zone) h = elim (Bool-cases (within n mapped)) [
  | inl e ↦ rw (private_address_lem, e, mapped-quotient, e) (private_unmapped-mapped n e)
  | inr e ↦ rw (private_address_lem, e, mapped-quotient, e) (private_unmapped-v6 n zone h)
]

-- The unspecified IPv6 address passes for public as soon as it has a zone.
pub private_address-zone : (zone : String) → zone ≢ "" → private_address (v6 0 zone) ≡ false
unfolding private_address
private_address-zone zone h = ground (arith, eq_iff zone "")
