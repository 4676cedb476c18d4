-- ===== src/Proxy/Credentials.antt =====
-- proxy/*/server.go: the slices that `UpdateUsers` of each protocol fills.
use ne_xt_server.Base.{Bool, List, [], ◌∷◌, map, keep}
use Prim.Native.String.{String}
use ne_xt_server.Adapter.{User}

-- The two slices that the loops fill.
pub record Credentials (Key : Type 0) : Type 0 where
  pub ids : List Key
  pub passwords : List String

abbrev pub no_credentials : {Key : Type 0} → Credentials Key
no_credentials = record { ids = []; passwords = [] }

abbrev pub with_credential : {Key : Type 0} → Key → String → Credentials Key → Credentials Key
with_credential id password c = record { ids = id ∷ c.ids; passwords = password ∷ c.passwords }

-- What the credentials of a list of users should be: those of the users that pass a test, in order.
abbrev pub of_users :
    {Key : Type 0} → (User → Key) → (User → String) → (User → Bool) → List User → Credentials Key
of_users id password passes users = record {
  ids = map id (keep passes users);
  passwords = map password (keep passes users);
}
