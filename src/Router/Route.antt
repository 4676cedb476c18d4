-- ===== src/Router/Route.antt =====
-- router.go: `connectionUser`, `auditStream`, `resolve` and `RouteConnectionEx`. The sniffers and the
-- resolver are parameters; what happens to the connection itself is sing's.
use ne_xt_server.Base.{
  ℕ, Bool, true, false, not, ◌||◌, Option, none, some, List, [], ◌∷◌, map, if◌then◌else◌,
}
use Prim.Native.String.{String}
use ne_xt_server.Adapter.{DetectRule}
use ne_xt_server.Base.Int.{ℤ}
use ne_xt_server.Base.Result.{Result, ok, err}
use ne_xt_server.Netip.{Addr, is_valid, unmap}
use ne_xt_server.Metadata.{
  Socksaddr, SocksaddrMethods, Metadata, Refusal, without_user, no_longer_served, blocked,
  lookup_failed,
}
use ne_xt_server.Users.State.{open_connection}
use ne_xt_server.Users.Table.{Table, get, modify}
use ne_xt_server.Audit.Auditor.{MatchApi, Auditor, enabled, match_connection, record_hit}
use ne_xt_server.Destination.Check.{check_destination}

-- What the router asks other code: sing's methods, `Addr.String`, `sniff.PeekStream`, which reads the
-- first payload and may set the metadata's domain, and `LookupNetIP`.
pub record RouterApi : Type 1 where
  pub methods : SocksaddrMethods
  pub addr_string : Addr → String
  pub matching : MatchApi
  pub peek : Metadata → String × List ℕ
  pub lookup_ip : String → Option (List Addr)

unfoldable pub user_found : ℤ → Option ℕ → Result Refusal ℕ
user_found id none = err (no_longer_served id)
user_found id (some p) = ok p

module _ {L : Type 0} where
  -- The user ID is that of the connection's context.
  unfoldable pub connection_user : Table L → Option ℤ → Result Refusal ℕ
  unfolding user_found
  connection_user t none = err without_user
  connection_user t (some id) = user_found id (get t id)

module _ (api : RouterApi) where
  open api use {methods, addr_string, matching, peek, lookup_ip}

  unfoldable pub destination_host : Socksaddr → String
  destination_host s =
      if methods.is_fqdn s then s.fqdn else if is_valid s.addr then addr_string s.addr else ""

  unfoldable pub hit :
      ℤ
      → Auditor matching.Regexp
      → Option (DetectRule matching.Regexp)
      → Auditor matching.Regexp × Option Refusal
  hit user_id a none = (a, none)
  hit user_id a (some rule) = (record_hit a user_id rule.id, some (blocked rule.id))

  -- `auditStream`: the metadata with the domain that was sniffed, and why the connection is refused.
  unfoldable pub audit_stream :
      ℤ → Auditor matching.Regexp → Metadata → Auditor matching.Regexp × Metadata × Option Refusal
  unfolding hit destination_host
  audit_stream user_id a metadata =
      let (domain, payload) = peek metadata in
      let (a', e) =
        hit user_id a
          (match_connection matching (destination_host metadata.destination) domain payload a) in
      (a', record metadata { domain = domain }, e)

  -- The step of the router that audits, if there are rules.
  unfoldable pub audited :
      ℤ → Auditor matching.Regexp → Metadata → Auditor matching.Regexp × Metadata × Option Refusal
  unfolding audit_stream
  audited user_id a metadata =
      if enabled a then audit_stream user_id a metadata else (a, metadata, none)

  abbrev pub is_nil {ℓ} : {A : Type ℓ} → List A → Bool
  is_nil [] = true
  is_nil (_ ∷ _) = false

  resolved : Metadata → Option (List Addr) → Result Refusal Metadata
  resolved metadata none = err lookup_failed
  resolved metadata (some addresses) =
      ok (record metadata { destination_addresses = map unmap addresses })

  unfoldable pub resolve : Bool → Metadata → Result Refusal Metadata
  unfolding resolved
  resolve resolve_domain metadata =
      if not resolve_domain
        || not (methods.is_fqdn metadata.destination)
        || not (is_nil metadata.destination_addresses)
      then ok metadata
      else resolved metadata (lookup_ip metadata.destination.fqdn)

  -- A connection that is let through: its metadata, the state that counts it, the activity that its
  -- end is recorded on, and the limiter it loads.
  pub record Routed : Type 0 where
    pub metadata : Metadata
    pub state : ℕ
    pub activity : ℕ
    pub limiter : Option ℕ

module _ {L : Type 0} (api : RouterApi) (resolve_domain allow_private : Bool) where
  open api use {methods, matching}

  -- The last steps: the connection is opened in the user's state.
  unfoldable pub admit : Table L → ℕ → ℕ → Metadata → Table L × Routed api
  admit t p now metadata =
      let (u, activity) = open_connection (t.states p) metadata.source.addr now in
      (
        modify t p (λ _. u),
        record { metadata = metadata; state = p; activity = activity; limiter = u.limiter },
      )

  unfoldable pub checked :
      Table L → ℕ → ℕ → Result Refusal Metadata → Table L × Result Refusal (Routed api)
  unfolding admit
  checked t p now (err e) = (t, err e)
  checked t p now (ok metadata) = let (t', r) = admit t p now metadata in (t', ok r)

  unfoldable pub looked_up :
      Table L → ℕ → ℕ → Result Refusal Metadata → Table L × Result Refusal (Routed api)
  unfolding checked
  looked_up t p now (err e) = (t, err e)
  looked_up t p now (ok metadata) =
      checked t p now (check_destination methods allow_private metadata)

  unfoldable pub passed :
      Table L → ℕ → ℕ → Metadata → Option Refusal → Table L × Result Refusal (Routed api)
  unfolding looked_up resolve
  passed t p now metadata (some e) = (t, err e)
  passed t p now metadata none = looked_up t p now (resolve api resolve_domain metadata)

  unfoldable pub with_user :
      Table L
      → Auditor matching.Regexp
      → Metadata
      → ℕ
      → Result Refusal ℕ
      → Table L × Auditor matching.Regexp × Result Refusal (Routed api)
  unfolding audited passed
  with_user t a metadata now (err e) = (t, a, err e)
  with_user t a metadata now (ok p) =
      let (a', metadata', e) = audited api (t.states p).id a metadata in
      let (t', r) = passed t p now metadata' e in (t', a', r)

  unfoldable pub route_connection :
      Table L
      → Auditor matching.Regexp
      → Option ℤ
      → Metadata
      → ℕ
      → Table L × Auditor matching.Regexp × Result Refusal (Routed api)
  unfolding with_user connection_user
  route_connection t a user_id metadata now = with_user t a metadata now (connection_user t user_id)
