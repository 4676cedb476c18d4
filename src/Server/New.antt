-- ===== src/Server/New.antt =====
-- server.go: `NewServer`; common/frontproxy/proxy.go: `New`.
use ne_xt_server.Base.Int.{is_positive, ℤ, pos}
use Prim.Native.String.{String}
use text.Mathlib.Text.{◌==◌ as str_eq}
use ne_xt_server.Base.{
  ◌≡◌, refl, subst, ◌⊎◌, inl, inr, Bool, true, false, not, ◌||◌, Option, none, some, if◌then◌else◌,
  Bool-cases,
}
use ne_xt_server.Base.Result.{Result, ok, err}

pub record FrontProxyOptions : Type 0 where
  pub type : String
  pub server : String
  pub username : String
  pub password : String
  pub resolve_domain : Bool

-- The client of sing that connects through the front proxy.
pub data FrontClient : Type 0 where
  http_client socks5_client socks4_client socks4a_client : FrontClient

unfoldable pub new_front_proxy : FrontProxyOptions → Option FrontClient
new_front_proxy o =
    if str_eq o.type "http"
    then some http_client
    else if str_eq o.type "" || str_eq o.type "socks5"
    then some socks5_client
    else if str_eq o.type "socks4"
    then some socks4_client
    else if str_eq o.type "socks4a"
    then some socks4a_client
    else none

-- The dialers that stand on one another.
pub data DialerStack : Type 0 where
  default_dialer : DialerStack
  front_proxy : FrontClient → DialerStack → DialerStack
  private_filter : Bool → DialerStack → DialerStack

pub record ServerSettings : Type 0 where
  pub dialer : DialerStack
  pub resolve_domain : Bool
  pub pull_interval : ℤ
  pub push_interval : ℤ

pub record ServerOptions : Type 0 where
  pub front_proxy : Option FrontProxyOptions
  pub allow_private_destinations : Bool
  pub pull_interval : ℤ
  pub push_interval : ℤ

pub data NewServerError : Type 0 where
  client_failed dialer_failed front_proxy_failed : NewServerError

-- 60 seconds, in nanoseconds
abbrev pub default_pull_interval : ℤ
default_pull_interval = pos 60000000000

abbrev pub default_push_interval : ℤ
default_push_interval = pos 60000000000

abbrev pub front_dialer :
    FrontProxyOptions → Option FrontClient → Result NewServerError (DialerStack × Bool)
front_dialer o none = err front_proxy_failed
front_dialer o (some client) = ok (front_proxy client default_dialer, o.resolve_domain)

-- The dialer, and whether the router resolves domains.
unfoldable pub with_front_proxy :
    Option FrontProxyOptions → Result NewServerError (DialerStack × Bool)
unfolding new_front_proxy
with_front_proxy none = ok (default_dialer, true)
with_front_proxy (some o) =
    if str_eq o.type "" then ok (default_dialer, true) else front_dialer o (new_front_proxy o)

unfoldable pub finished :
    ServerOptions
    → Result NewServerError (DialerStack × Bool)
    → Result NewServerError ServerSettings
finished o (err e) = err e
finished o (ok (dialer, resolve_domain)) = ok (record {
  dialer =
      if not o.allow_private_destinations
      then private_filter (not resolve_domain) dialer
      else dialer;
  resolve_domain = resolve_domain;
  pull_interval = if is_positive o.pull_interval then o.pull_interval else default_pull_interval;
  push_interval = if is_positive o.push_interval then o.push_interval else default_push_interval;
})

-- `NewServer`, with whether the client of the panel and the default dialer can be made.
unfoldable pub new_server_settings :
    ServerOptions → Bool → Bool → Result NewServerError ServerSettings
unfolding with_front_proxy finished
new_server_settings o client_made dialer_made =
    if not client_made
    then err client_failed
    else if not dialer_made
    then err dialer_failed
    else finished o (with_front_proxy o.front_proxy)

abbrev pub HasFilter : Bool → DialerStack → Type 0
HasFilter passes (private_filter p d) = p ≡ passes
HasFilter passes _ = ⊥

abbrev pub HasFront : DialerStack → Type 0
HasFront default_dialer = ⊥
HasFront (front_proxy c d) = Unit
HasFront (private_filter p d) = HasFront d

-- What a server should be made with.
abbrev pub IsSafe : ServerOptions → ServerSettings → Type 0
IsSafe o s =
    (is_positive s.pull_interval ≡ true)
    × (is_positive s.push_interval ≡ true)
    × ((o.allow_private_destinations ≡ true) ⊎ HasFilter (not s.resolve_domain) s.dialer)
    × ((s.resolve_domain ≡ true) ⊎ HasFront s.dialer)

IsSafeResult : ServerOptions → Result NewServerError ServerSettings → Type 0
IsSafeResult o (err e) = Unit
IsSafeResult o (ok s) = IsSafe o s

or_positive : (n d : ℤ) → is_positive d ≡ true → is_positive (if is_positive n then n else d) ≡ true
or_positive n d h = elim (Bool-cases (is_positive n)) [ inl e ↦ rw e e | inr e ↦ rw e h ]

finished_safe :
    (o : ServerOptions) (dialer : DialerStack) (resolve_domain : Bool)
    → (resolve_domain ≡ true) ⊎ HasFront dialer
    → IsSafeResult o (finished o (ok (dialer, resolve_domain)))
unfolding finished IsSafeResult
finished_safe o dialer resolve_domain front =
    let pull = or_positive o.pull_interval default_pull_interval refl in
    let push = or_positive o.push_interval default_push_interval refl in
    elim (Bool-cases o.allow_private_destinations) [
      | inl e ↦ rw e (pull, push, inl refl, front)
      | inr e ↦ rw e (pull, push, inr refl, front)
    ]

front_safe :
    (o : ServerOptions) (f : FrontProxyOptions) (client : Option FrontClient)
    → IsSafeResult o (finished o (front_dialer f client))
front_safe o f none = unfold finished IsSafeResult in tt
front_safe o f (some client) =
    finished_safe o (front_proxy client default_dialer) f.resolve_domain (inr tt)

choose_safe :
    (o : ServerOptions) (f : FrontProxyOptions) (client : Option FrontClient) (none_named : Bool)
    → IsSafeResult o
        (finished o (if none_named then ok (default_dialer, true) else front_dialer f client))
choose_safe o f client true = finished_safe o default_dialer true (inl refl)
choose_safe o f client false = front_safe o f client

configured_safe :
    (o : ServerOptions) (f : Option FrontProxyOptions)
    → IsSafeResult o (finished o (with_front_proxy f))
unfolding with_front_proxy
configured_safe o none = finished_safe o default_dialer true (inl refl)
configured_safe o (some f) = choose_safe o f (new_front_proxy f) (str_eq f.type "")

-- Every server that is made pulls and pushes at a positive interval. Unless private destinations are
-- allowed, its outermost dialer is the filter, which lets domains pass unresolved exactly when the
-- router does not resolve them; and the router leaves domains unresolved only for a front proxy.
pub new_server_settings-IsSafe :
    (o : ServerOptions) (client_made dialer_made : Bool) (s : ServerSettings)
    → new_server_settings o client_made dialer_made ≡ ok s
    → IsSafe o s
unfolding new_server_settings IsSafeResult
new_server_settings-IsSafe o false dialer_made s e = absurd (cc)
new_server_settings-IsSafe o true false s e = absurd (cc)
new_server_settings-IsSafe o true true s e =
    subst (IsSafeResult o) e (configured_safe o o.front_proxy)
