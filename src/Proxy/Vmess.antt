-- ===== src/Proxy/Vmess.antt =====
-- proxy/vmess/server.go: `UpdateUsers`. The service of the protocol is a parameter.
use ne_xt_server.Base.{
  ℕ, ◌≡◌, refl, Bool, not, Option, none, some, List, [], ◌∷◌, map, arith, if◌then◌else◌,
}
use Prim.Native.String.{String}
use mathlib.Core.Option
use ne_xt_server.Adapter.{User}
use ne_xt_server.Base.Int.{ℤ}
use ne_xt_server.Base.Result.{Result, ok, err}
use ne_xt_server.Proxy.Credentials.{Credentials, no_credentials, with_credential, of_users}

module _ (is_uuid : String → Bool) where
  unfoldable pub credentials : List User → Credentials ℤ
  credentials [] = no_credentials
  credentials (user ∷ users) =
      let rest = credentials users in
      if not (is_uuid user.uuid) then rest else with_credential user.id user.uuid rest

  -- A new service that starts replaces the old one, which is closed; the alter IDs are all 0.
  unfoldable pub update_users :
      {Service Error : Type 0}
      → (List ℤ → List String → List ℕ → Result Error Service)
      → (Service → Result Error Service)
      → (Service → Service)
      → Option Service
      → List User
      → Option Service × Option Service × Option Error
  unfolding credentials
  update_users new_service start close previous users =
      let c = credentials users in
      elim (new_service c.ids c.passwords (map (λ _. 0) c.ids)) [
        | err e ↦ (previous, none, some e)
        | ok service ↦ elim (start service) [
          | err e ↦ (previous, none, some e)
          | ok service' ↦ (some service', Option.map close previous, none)
        ]
      ]

  -- VMess serves the users whose UUID can be read, in order and under the panel's ID, and nobody else.
  pub vmess-of_users :
      (users : List User)
      → credentials users ≡ of_users (λ u. u.id) (λ u. u.uuid) (λ u. is_uuid u.uuid) users
  unfolding credentials
  vmess-of_users [] = refl
  vmess-of_users (user ∷ users) = ground (arith, vmess-of_users users)
