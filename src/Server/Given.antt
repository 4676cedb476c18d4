-- ===== src/Server/Given.antt =====
-- proxy/*/server.go: whom `UpdateUsers` gives a service, and which handler serves them.
use ne_xt_server.Base.Int.{ℤ}
use ne_xt_server.Adapter.{User}
use ne_xt_server.Metadata.{Socksaddr}
use Prim.Native.String.{String}
use ne_xt_server.Panel.Config.{
  NodeType, trojan, shadowsocks2022, vmess, tuic, hysteria2, any_tls, snell, naive, other,
}
use ne_xt_server.Proxy.AnyTls
use ne_xt_server.Proxy.Decimal.{itoa}
use ne_xt_server.Proxy.Handlers.{
  ContextUser, user_id, user_name, TypeNames, InboundMetadata, Handed, refused, routed_user,
  new_trojan_connection, new_shadowsocks_connection, new_vmess_connection,
  new_vmess_packet_connection, new_tuic_connection, new_hysteria2_connection,
  new_any_tls_connection,
}
use ne_xt_server.Proxy.Hysteria2
use ne_xt_server.Proxy.Shadowsocks
use ne_xt_server.Proxy.Trojan
use ne_xt_server.Proxy.Tuic
use ne_xt_server.Proxy.Vmess
use ne_xt_server.Users.Update.Served.{is_listed}
use ne_xt_server.Base.{
  ℕ, ◌≡◌, inl, inr, Bool, true, false, Option, some, List, [], ◌∷◌, arith, map, if◌then◌else◌, ◌||◌,
  keep, All, All-mono, Bool-cases, ◌||◌, if◌then◌else◌,
}
use text.Mathlib.Text.{◌==◌ as str_eq}

abbrev pub IsListed : List User → ℤ → Type 0
IsListed users id = is_listed id users ≡ true

-- A user who is listed stays listed when another is put before.
IsListed-cons :
    (user : User) (users : List User) (ids : List ℤ)
    → All (IsListed users) ids
    → All (IsListed (user ∷ users)) ids
unfolding is_listed
IsListed-cons user users ids = All-mono ids (λ id h. ground arith)

IsListed-first : (user : User) (users : List User) → IsListed (user ∷ users) user.id
unfolding is_listed
IsListed-first user users = ground arith

pub kept-IsListed :
    (passes : User → Bool) (users : List User)
    → All (IsListed users) (map (λ u. u.id) (keep passes users))
kept-IsListed passes [] = tt
kept-IsListed passes (user ∷ users) =
    let rest = IsListed-cons user users _ (kept-IsListed passes users) in
    elim (Bool-cases (passes user)) [
      | inl e ↦ rw e (IsListed-first user users, rest)
      | inr e ↦ rw e rest
    ]

pub trojan-IsListed :
    (seen : String → Bool) (users : List User)
    → All (IsListed users) (Trojan.credentials seen users).ids
unfolding Trojan.credentials
trojan-IsListed seen [] = tt
trojan-IsListed seen (user ∷ users) =
    let again = str_eq user.uuid "" || seen user.uuid in
    elim (Bool-cases again) [
      | inl e ↦ rw e (IsListed-cons user users _ (trojan-IsListed seen users))
      | inr e ↦ rw e (
        IsListed-first user users,
        IsListed-cons user users _ (trojan-IsListed (λ s. str_eq s user.uuid || seen s) users),
      )
    ]

-- A context's user that a handler routes under the ID of a user of the list.
abbrev pub IsRouted : List User → (ContextUser → Handed) → ContextUser → Type 0
IsRouted users h ctx = (id : ℤ) × IsListed users id × (routed_user (h ctx) ≡ some id)

pub ids-IsRouted :
    (h : ContextUser → Handed) (users : List User) (ids : List ℤ)
    → ((id : ℤ) → routed_user (h (user_id id)) ≡ some id)
    → All (IsListed users) ids
    → All (IsRouted users h) (map user_id ids)
ids-IsRouted h users [] routes listed = tt
ids-IsRouted h users (id ∷ ids) routes (listed, rest) =
    ((id, listed, routes id), ids-IsRouted h users ids routes rest)

pub names-IsRouted :
    (h : ContextUser → Handed) (users kept : List User) (names : List (List ℕ))
    → map (λ name. routed_user (h (user_name name))) names ≡ map (λ u. some u.id) kept
    → All (IsListed users) (map (λ u. u.id) kept)
    → All (IsRouted users h) (map user_name names)
names-IsRouted h users kept [] e listed = tt
names-IsRouted h users [] (name ∷ names) e listed = absurd (cc)
names-IsRouted h users (user ∷ kept) (name ∷ names) e (listed, rest) =
    let first : routed_user (h (user_name name)) ≡ some user.id = cc in
    let others : map (λ name. routed_user (h (user_name name))) names ≡ map (λ u. some u.id) kept =
      cc in
    ((user.id, listed, first), names-IsRouted h users kept names others rest)

module _ (is_uuid : String → Bool) (decode_string : String → Option (List ℕ)) (key_len : ℕ)
    {Uuid : Type 0} (from_string : String → Option Uuid) where
  -- Whom `UpdateUsers` of each protocol gives its service, as the service puts them in a context.
  abbrev pub given : NodeType → List User → List ContextUser
  given trojan users = map user_id (Trojan.credentials (λ s. false) users).ids
  given shadowsocks2022 users =
      map user_id (Shadowsocks.credentials decode_string key_len users).ids
  given vmess users = map user_id (Vmess.credentials is_uuid users).ids
  given hysteria2 users = map user_id (Hysteria2.credentials users).ids
  given tuic users = map user_id (Tuic.accounts from_string users).ids
  given any_tls users = map user_name (AnyTls.credentials itoa users).ids
  given snell users = []
  given naive users = []
  given (other n) users = []

module _ (types : TypeNames) (magic : String) (udp_addr : Socksaddr)
    (unwrap : Socksaddr → Socksaddr) (packets : Bool) (metadata : InboundMetadata) where
  -- The handler of each protocol, of connections or of packets. AnyTLS has no packets of its own.
  abbrev pub handled : NodeType → ContextUser → Handed
  handled trojan ctx = new_trojan_connection types packets ctx metadata
  handled shadowsocks2022 ctx = new_shadowsocks_connection types packets ctx metadata
  handled vmess ctx =
      if packets
      then new_vmess_packet_connection types magic ctx metadata
      else new_vmess_connection types ctx metadata
  handled hysteria2 ctx =
      new_hysteria2_connection types packets udp_addr ctx metadata.base.source
        metadata.base.destination
  handled tuic ctx =
      new_tuic_connection types packets udp_addr ctx metadata.base.source metadata.base.destination
  handled any_tls ctx =
      new_any_tls_connection types unwrap ctx metadata.base.source metadata.base.destination
  handled snell ctx = refused
  handled naive ctx = refused
  handled (other n) ctx = refused
