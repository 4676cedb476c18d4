-- ===== src/Metadata.antt =====
-- What the router knows of a connection: sing's `Socksaddr` and sing-box's `InboundContext`, as
-- far as the program uses them, and the errors that end a connection.
use Prim.Native.String.{String}
use ne_xt_server.Base.{ℕ, ◌≡◌, Bool, true, false, List}
use ne_xt_server.Base.Int.{ℤ}
use ne_xt_server.Netip.{Addr, is_valid}

-- `M.Socksaddr`: an address, or a domain.
pub record Socksaddr : Type 0 where
  pub addr : Addr
  pub port : ℕ
  pub fqdn : String

-- Its methods are sing's; `IsIP` says whether the address is valid, and a domain is no address.
pub record SocksaddrMethods : Type 0 where
  pub is_ip : Socksaddr → Bool
  pub is_fqdn : Socksaddr → Bool
  pub is_ip-is_valid : (s : Socksaddr) → is_ip s ≡ is_valid s.addr
  pub is_fqdn-is_ip : (s : Socksaddr) → is_fqdn s ≡ true → is_ip s ≡ false

-- `boxAdapter.InboundContext`
pub record Metadata : Type 0 where
  pub source : Socksaddr
  pub destination : Socksaddr
  pub destination_addresses : List Addr
  pub domain : String

-- Why the router ends a connection: no user in its context, a user who is no longer served, a
-- detect rule, a failed read or lookup, a private destination.
pub data Refusal : Type 0 where
  without_user : Refusal
  no_longer_served : ℤ → Refusal
  blocked : ℤ → Refusal
  read_failed lookup_failed private_destination : Refusal
