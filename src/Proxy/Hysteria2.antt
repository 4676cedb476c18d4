-- ===== src/Proxy/Hysteria2.antt =====
-- proxy/hysteria2/server.go: `UpdateUsers`. The service of the protocol is a parameter.
use ne_xt_server.Base.{◌≡◌, refl, not, List, [], ◌∷◌, arith, if◌then◌else◌}
use Prim.Native.String.{String}
use text.Mathlib.Text.{◌==◌ as str_eq}
use ne_xt_server.Adapter.{User}
use ne_xt_server.Base.Int.{ℤ}
use ne_xt_server.Proxy.Credentials.{Credentials, no_credentials, with_credential, of_users}

unfoldable pub credentials : List User → Credentials ℤ
credentials [] = no_credentials
credentials (user ∷ users) =
    let rest = credentials users in
    if str_eq user.password "" then rest else with_credential user.id user.password rest

-- The service of the protocol takes the new users in place.
unfoldable pub update_users :
    {Service : Type 0} → (Service → List ℤ → List String → Service) → Service → List User → Service
unfolding credentials
update_users update service users =
    update service (credentials users).ids (credentials users).passwords

-- Hysteria2 serves every user who has a password, in order and under the panel's ID, and nobody else.
pub hysteria2-of_users :
    (users : List User)
    → credentials users
      ≡ of_users (λ u. u.id) (λ u. u.password) (λ u. not (str_eq u.password "")) users
unfolding credentials
hysteria2-of_users [] = refl
hysteria2-of_users (user ∷ users) = ground (arith, hysteria2-of_users users)
