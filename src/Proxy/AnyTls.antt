-- ===== src/Proxy/AnyTls.antt =====
-- proxy/anytls/server.go: `UpdateUsers`. The service of the protocol is a parameter.
use ne_xt_server.Base.{◌≡◌, refl, not, Option, none, some, List, [], ◌∷◌, arith, if◌then◌else◌}
use Prim.Native.String.{String}
use text.Mathlib.Text.{◌==◌ as str_eq}
use ne_xt_server.Adapter.{User}
use ne_xt_server.Base.Int.{ℤ}
use ne_xt_server.Base.Result.{Result, ok, err}
use ne_xt_server.Proxy.Credentials.{Credentials, no_credentials, with_credential, of_users}

-- `Name` is the type of the names, which are texts.
module _ {Name : Type 0} (itoa : ℤ → Name) where
  unfoldable pub credentials : List User → Credentials Name
  credentials [] = no_credentials
  credentials (user ∷ users) =
      let rest = credentials users in
      if str_eq user.password "" then rest else with_credential (itoa user.id) user.password rest

  -- A new service replaces the old one, unless it cannot be made.
  unfoldable pub update_users :
      {Service Error : Type 0}
      → (List Name → List String → Result Error Service)
      → Service
      → List User
      → Service × Option Error
  unfolding credentials
  update_users new_service service users =
      elim (new_service (credentials users).ids (credentials users).passwords) [
        | ok service' ↦ (service', none)
        | err e ↦ (service, some e)
      ]

  -- AnyTLS serves every user who has a password, in order and under the panel's ID as a name, and
  -- nobody else.
  pub any_tls-of_users :
      (users : List User)
      → credentials users
        ≡ of_users (λ u. itoa u.id) (λ u. u.password) (λ u. not (str_eq u.password "")) users
  unfolding credentials
  any_tls-of_users [] = refl
  any_tls-of_users (user ∷ users) = ground (arith, any_tls-of_users users)
