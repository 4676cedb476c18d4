-- ===== src/Netip.antt =====
-- The addresses of Go's `net/netip`, as far as the program asks about them: an address is its
-- bits, and an IPv6 address also has a zone (empty for none).
use Prim.Native.String.{String}
use text.Mathlib.Text.{◌==◌ as str_eq}
use ne_xt_server.Base.Text.{String_discrete}
use ne_xt_server.Base.{
  ℕ_discrete, ℕ, ◌-◌, ◌/◌, ◌%◌, ◌^◌, Bool, true, false, ◌&&◌, ◌||◌, ◌==◌, if◌then◌else◌,
}

-- `netip.Addr`; `invalid` is its zero value.
pub data Addr : Type 0 where
  invalid : Addr
  v4 : ℕ → Addr
  v6 : ℕ → String → Addr

abbrev pub is_valid : Addr → Bool
is_valid invalid = false
is_valid _ = true

-- `Addr.Unmap`: an IPv4-mapped IPv6 address becomes the IPv4 address, and loses its zone.
unfoldable pub unmap : Addr → Addr
unmap (v6 n zone) = if n / 2 ^ 32 == 0xffff then v4 (n % 2 ^ 32) else v6 n zone
unmap a = a

-- `IsLoopback`: 127.0.0.0/8 and ::1.
unfoldable pub is_loopback : Addr → Bool
is_loopback invalid = false
is_loopback (v4 n) = n / 2 ^ 24 == 127
is_loopback (v6 n zone) = n == 1

-- `IsPrivate`: 10.0.0.0/8, 172.16.0.0/12, 192.168.0.0/16 and fc00::/7.
unfoldable pub is_private : Addr → Bool
is_private invalid = false
is_private (v4 n) = n / 2 ^ 24 == 10 || n / 2 ^ 20 == 0xac1 || n / 2 ^ 16 == 0xc0a8
is_private (v6 n zone) = n / 2 ^ 121 == 0x7e

-- `IsLinkLocalUnicast`: 169.254.0.0/16 and fe80::/10.
unfoldable pub is_link_local_unicast : Addr → Bool
is_link_local_unicast invalid = false
is_link_local_unicast (v4 n) = n / 2 ^ 16 == 0xa9fe
is_link_local_unicast (v6 n zone) = n / 2 ^ 118 == 0x3fa

-- `IsMulticast`: 224.0.0.0/4 and ff00::/8.
unfoldable pub is_multicast : Addr → Bool
is_multicast invalid = false
is_multicast (v4 n) = n / 2 ^ 28 == 14
is_multicast (v6 n zone) = n / 2 ^ 120 == 0xff

-- `IsUnspecified` compares with `0.0.0.0` and `::` whole, the zone included.
unfoldable pub is_unspecified : Addr → Bool
is_unspecified invalid = false
is_unspecified (v4 n) = n == 0
is_unspecified (v6 n zone) = n == 0 && str_eq zone ""

-- `netip.Prefix`, for IPv4: the address and the number of leading bits that count.
pub record Prefix : Type 0 where
  pub addr : ℕ
  pub bits : ℕ

-- `Prefix.Contains` of an IPv4 prefix.
unfoldable pub contains : Prefix → Addr → Bool
contains p (v4 n) = n / 2 ^ (32 - p.bits) == p.addr / 2 ^ (32 - p.bits)
contains p _ = false

unfoldable pub Addr_discrete : Discrete Addr
unfolding String_discrete ℕ_discrete
Addr_discrete = hlevel (ℕ_discrete, String_discrete)
