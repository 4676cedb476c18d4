-- ===== src/Proxy/Trojan.antt =====
-- proxy/trojan/server.go: `UpdateUsers`. The service of the protocol is a parameter.
use ne_xt_server.Base.{
  refl, ◌≡◌, ◌≢◌, Bool, false, ◌||◌, Option, none, some, List, [], ◌∷◌, arith, if◌then◌else◌, ◌≤◌,
  ℕ, ◌+◌,
}
use Prim.Native.String.{String}
use text.Mathlib.Text.{◌==◌ as str_eq}
use text.Mathlib.TextEquality.{eq_iff}
use ne_xt_server.Adapter.{User}
use ne_xt_server.Base.Int.{ℤ}
use ne_xt_server.Base.Result.{Result, ok, err}
use ne_xt_server.Proxy.Credentials.{Credentials, no_credentials, with_credential}

-- `seen` is the set of the UUIDs so far.
unfoldable pub credentials : (String → Bool) → List User → Credentials ℤ
credentials seen [] = no_credentials
credentials seen (user ∷ users) =
    let skipped = str_eq user.uuid "" || seen user.uuid in
    let seen' = if skipped then seen else λ s. str_eq s user.uuid || seen s in
    let rest = credentials seen' users in
    if skipped then rest else with_credential user.id user.uuid rest

unfoldable pub update_users :
    {Service Error : Type 0}
    → (List ℤ → List String → Result Error Service)
    → Service
    → List User
    → Service × Option Error
unfolding credentials
update_users new_service service users =
    let c = credentials (λ s. false) users in
    elim (new_service c.ids c.passwords) [
      | ok service' ↦ (service', none)
      | err e ↦ (service, some e)
    ]

-- The ID that a password stands for: the one at the same place.
unfoldable pub owner : String → List ℤ → List String → Option ℤ
owner password [] passwords = none
owner password (id ∷ ids) [] = none
owner password (id ∷ ids) (p ∷ passwords) =
    let rest = owner password ids passwords in if str_eq p password then some id else rest

-- The first user with a UUID.
unfoldable pub first_with : String → List User → Option ℤ
first_with uuid [] = none
first_with uuid (user ∷ users) =
    let rest = first_with uuid users in if str_eq user.uuid uuid then some user.id else rest

credentials-owner :
    (seen : String → Bool) (uuid : String) (users : List User)
    → uuid ≢ ""
    → owner uuid (credentials seen users).ids (credentials seen users).passwords
      ≡ (if seen uuid then none else first_with uuid users)
unfolding credentials owner first_with
credentials-owner seen uuid [] ne = ground arith
credentials-owner seen uuid (user ∷ users) ne = ground (
  arith,
  credentials-owner seen uuid users ne,
  credentials-owner (λ s. str_eq s user.uuid || seen s) uuid users ne,
  eq_iff user.uuid uuid,
  eq_iff uuid user.uuid,
  eq_iff user.uuid "",
)

-- How often a password occurs.
unfoldable pub count : String → List String → ℕ
count password [] = 0
count password (p ∷ passwords) = (if str_eq p password then 1 else 0) + count password passwords

credentials-count :
    (seen : String → Bool) (password : String) (users : List User)
    → count password (credentials seen users).passwords
      ≤ (if seen password || str_eq password "" then 0 else 1)
unfolding credentials count
credentials-count seen password [] = omega arith
credentials-count seen password (user ∷ users) = ground (
  arith,
  credentials-count seen password users,
  credentials-count (λ s. str_eq s user.uuid || seen s) password users,
  eq_iff user.uuid password,
  eq_iff password user.uuid,
  eq_iff user.uuid "",
)

-- Each UUID authenticates the first user of the list who has it, and only that user; users who share
-- a UUID with an earlier one are skipped.
pub trojan-first_with :
    (uuid : String) (users : List User)
    → uuid ≢ ""
    → let c = credentials (λ s. false) users in
      (owner uuid c.ids c.passwords ≡ first_with uuid users) × (count uuid c.passwords ≤ 1)
trojan-first_with uuid users ne = (
  credentials-owner (λ s. false) uuid users ne,
  ground (arith, credentials-count (λ s. false) uuid users),
)

-- A service that refuses only lists with an empty or a repeated password takes every list that the
-- panel sends, so that no user can keep the others from being updated.
pub trojan_updates :
    {Service Error : Type 0} (new_service : List ℤ → List String → Result Error Service)
    (service : Service) (users : List User)
    → ((ids : List ℤ) (passwords : List String)
        → ((p : String) → count p passwords ≤ 1)
        → count "" passwords ≡ 0
        → (s : Service) × (new_service ids passwords ≡ ok s))
    → (update_users new_service service users).1 ≡ none
unfolding update_users
trojan_updates new_service service users accepts =
    let c = credentials (λ s. false) users in
    let (s, e) =
      accepts c.ids c.passwords (λ p. ground (arith, credentials-count (λ s. false) p users))
        (ground (arith, credentials-count (λ s. false) "" users, eq_iff "" "")) in
    rw (e, update_users) refl
