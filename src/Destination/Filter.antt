-- ===== src/Destination/Filter.antt =====
-- destination.go: `privatePrefixes` and `privateAddress`.
use ne_xt_server.Base.{Bool, ◌||◌, List, [], ◌∷◌, any}
use ne_xt_server.Netip.{
  Addr, Prefix, unmap, is_loopback, is_private, is_link_local_unicast, is_multicast, is_unspecified,
  contains,
}

-- 0.0.0.0/8, 100.64.0.0/10 and 255.255.255.255/32.
abbrev pub private_prefixes : List Prefix
private_prefixes =
    record { addr = 0; bits = 8 }
    ∷ record { addr = 0x6440_0000; bits = 10 }
    ∷ record { addr = 0xffff_ffff; bits = 32 }
    ∷ []

-- The tests of `privateAddress` after `Unmap`.
unfoldable pub private_unmapped : Addr → Bool
unfolding is_loopback is_private is_link_local_unicast is_multicast is_unspecified contains
private_unmapped addr =
    (is_loopback addr
      || is_private addr
      || is_link_local_unicast addr
      || is_multicast addr
      || is_unspecified addr)
    || any (λ prefix. contains prefix addr) private_prefixes

unfoldable pub private_address : Addr → Bool
unfolding private_unmapped unmap
private_address addr = private_unmapped (unmap addr)
