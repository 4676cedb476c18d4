-- ===== src/Proxy/Tuic.antt =====
-- proxy/tuic/server.go: `UpdateUsers`. The service of the protocol is a parameter.
use ne_xt_server.Base.{
  refl, arith, Bool, true, false, Option, none, some, List, [], ◌∷◌, keep, ◌≡◌, map, arith,
}
use Prim.Native.String.{String}
use ne_xt_server.Adapter.{User}
use ne_xt_server.Base.Int.{ℤ}

module _ {Uuid : Type 0} (from_string : String → Option Uuid) where
  pub record Accounts : Type 0 where
    pub ids : List ℤ
    pub uuids : List Uuid
    pub passwords : List String

  abbrev pub with_account : User → Option Uuid → Accounts → Accounts
  with_account user none c = c
  with_account user (some uuid) c = record {
    ids = user.id ∷ c.ids;
    uuids = uuid ∷ c.uuids;
    passwords = user.password ∷ c.passwords;
  }

  unfoldable pub accounts : List User → Accounts
  accounts [] = record { ids = []; uuids = []; passwords = [] }
  accounts (user ∷ users) = with_account user (from_string user.uuid) (accounts users)

  unfoldable pub update_users :
      {Service : Type 0}
      → (Service → List ℤ → List Uuid → List String → Service)
      → Service
      → List User
      → Service
  unfolding accounts
  update_users update service users =
      update service (accounts users).ids (accounts users).uuids (accounts users).passwords

  abbrev pub is_some : Option Uuid → Bool
  is_some none = false
  is_some (some _) = true

  -- TUIC serves the users whose UUID can be read, in order, each with the panel's ID, the UUID read
  -- and the password, and nobody else.
  pub tuic_accounts :
      (users : List User)
      → let kept = keep (λ u. is_some (from_string u.uuid)) users in
        ((accounts users).ids ≡ map (λ u. u.id) kept)
        × (map some (accounts users).uuids ≡ map (λ u. from_string u.uuid) kept)
        × ((accounts users).passwords ≡ map (λ u. u.password) kept)
  unfolding accounts
  tuic_accounts [] = (refl, refl, refl)
  tuic_accounts (user ∷ users) = ground (arith, tuic_accounts users)
