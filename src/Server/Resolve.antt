-- ===== src/Server/Resolve.antt =====
-- common/frontproxy/resolve.go: `serverDialer`. Go's resolver and sing's `DialSerial` are parameters.
use Prim.Native.String.{String}
use ne_xt_server.Base.{◌≡◌, refl, inl, inr, false, not, List, if◌then◌else◌, Bool-cases}
use ne_xt_server.Base.Result.{Result, ok, err}
use ne_xt_server.Metadata.{Socksaddr, SocksaddrMethods}
use ne_xt_server.Netip.{Addr}

-- A dialer over some network.
abbrev pub Dial : Type 0 → Type 0 → Type 0
Dial Error Conn = Socksaddr → Result Error Conn

-- What is used of Go's resolver and of sing: the address of a domain, an error with a cause, and
-- dialing addresses one after the other, which looks at a dialer only at addresses.
pub record Resolving (methods : SocksaddrMethods) (Error : Type 0) (Conn : Type 0) : Type 0 where
  pub lookup : String → Result Error (List Addr)
  pub resolve_failed : Error → Error
  pub dial_serial : Dial Error Conn → Socksaddr → List Addr → Result Error Conn
  pub dial_serial-addresses :
      (dial other : Dial Error Conn)
      → ((s : Socksaddr) → methods.is_fqdn s ≡ false → dial s ≡ other s)
      → (s : Socksaddr) (addresses : List Addr)
      → dial_serial dial s addresses ≡ dial_serial other s addresses

module _ (methods : SocksaddrMethods) {Error Conn : Type 0}
    (api : Resolving methods Error Conn) where
  open methods use {is_fqdn}
  open api use {lookup, resolve_failed, dial_serial, dial_serial-addresses}

  dial_resolved : Dial Error Conn → Socksaddr → Result Error (List Addr) → Result Error Conn
  dial_resolved dial destination (err e) = err (resolve_failed e)
  dial_resolved dial destination (ok addresses) = dial_serial dial destination addresses

  -- `serverDialer.DialContext`
  unfoldable pub dial_server : Dial Error Conn → Dial Error Conn
  unfolding dial_resolved
  dial_server dial destination =
      if not (is_fqdn destination)
      then dial destination
      else dial_resolved dial destination (lookup destination.fqdn)

  dial_resolved-addresses :
      (dial other : Dial Error Conn)
      → ((s : Socksaddr) → is_fqdn s ≡ false → dial s ≡ other s)
      → (s : Socksaddr) (found : Result Error (List Addr))
      → dial_resolved dial s found ≡ dial_resolved other s found
  unfolding dial_resolved
  dial_resolved-addresses dial other same s (err e) = refl
  dial_resolved-addresses dial other same s (ok addresses) =
      dial_serial-addresses dial other same s addresses

  -- The wrapped dialer, which refuses domains, is asked for addresses only: what it does with a
  -- domain makes no difference.
  pub dial_server-addresses :
      (dial other : Dial Error Conn)
      → ((s : Socksaddr) → is_fqdn s ≡ false → dial s ≡ other s)
      → (s : Socksaddr) → dial_server dial s ≡ dial_server other s
  unfolding dial_server
  dial_server-addresses dial other same s = elim (Bool-cases (is_fqdn s)) [
    | inl e ↦ rw e (dial_resolved-addresses dial other same s (lookup s.fqdn))
    | inr e ↦ rw e (same s e)
  ]
