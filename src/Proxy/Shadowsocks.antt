-- ===== src/Proxy/Shadowsocks.antt =====
-- proxy/shadowsocks/server.go: `UpdateUsers`. The service of the protocol is a parameter.
use ne_xt_server.Base.{
  ℕ, ◌≡◌, refl, Bool, false, not, Option, none, some, List, [], ◌∷◌, arith, ◌==◌, if◌then◌else◌,
  length,
}
use Prim.Native.String.{String}
use text.Mathlib.Text.{◌==◌ as str_eq}
use ne_xt_server.Adapter.{User}
use ne_xt_server.Base.Int.{ℤ}
use ne_xt_server.Proxy.Credentials.{Credentials, no_credentials, with_credential, of_users}

abbrev pub key_len : String → ℕ
key_len method = if str_eq method "2022-blake3-aes-128-gcm" then 16 else 32

module _ (decode_string : String → Option (List ℕ)) (key_len : ℕ) where
  abbrev pub fits_key : Option (List ℕ) → Bool
  fits_key none = false
  fits_key (some key) = length key == key_len

  unfoldable pub credentials : List User → Credentials ℤ
  credentials [] = no_credentials
  credentials (user ∷ users) =
      let rest = credentials users in
      if not (fits_key (decode_string user.password))
      then rest
      else with_credential user.id user.password rest

  unfoldable pub update_users :
      {Service Error : Type 0}
      → (Service → List ℤ → List String → Service × Option Error)
      → Service
      → List User
      → Service × Option Error
  unfolding credentials
  update_users update service users =
      update service (credentials users).ids (credentials users).passwords

  -- Shadowsocks serves the users whose password is a key of the method's length, in order and under
  -- the panel's ID, and nobody else.
  pub shadowsocks-of_users :
      (users : List User)
      → credentials users
        ≡ of_users (λ u. u.id) (λ u. u.password) (λ u. fits_key (decode_string u.password)) users
  unfolding credentials
  shadowsocks-of_users [] = refl
  shadowsocks-of_users (user ∷ users) = ground (arith, shadowsocks-of_users users)
