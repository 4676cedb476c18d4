-- ===== src/Tests/Proxy.antt =====
-- Credentials of concrete users, two of whom share a UUID.
use ne_xt_server.Base.{
  ℕ, ◌≡◌, refl, ◌≢◌, Bool, true, false, not, Option, none, some, List, [], ◌∷◌, if◌then◌else◌,
}
use Prim.Native.String.{String}
use text.Mathlib.Text.{◌==◌ as str_eq}
use text.Mathlib.TextEquality.{eq_iff}
use ne_xt_server.Adapter.{User}
use ne_xt_server.Base.Int.{ℤ, pos}
use ne_xt_server.Base.Result.{Result, ok}
use ne_xt_server.Proxy.Shadowsocks
use ne_xt_server.Proxy.Trojan
use ne_xt_server.Proxy.Tuic
use ne_xt_server.Proxy.Vmess

abbrev account : ℕ → String → String → User
account n uuid password = record { id = pos n; uuid = uuid; password = password; speed_limit = 0 }

abbrev accounts : List User
accounts = account 1 "a" "x" ∷ account 2 "a" "" ∷ account 3 "" "z" ∷ account 4 "b" "" ∷ []

abbrev shared : String
shared = "a"

shared_named : shared ≢ ""
shared_named h = let same : str_eq shared "" ≡ true = (eq_iff shared "").1 h in cc same

trojan_serves : (Trojan.credentials (λ s. false) accounts).ids ≡ pos 1 ∷ pos 4 ∷ []
unfolding Trojan.credentials
trojan_serves = refl

abbrev service : List ℤ → List String → Result (Unit {0}) (List ℤ × List String)
service ids passwords = ok (ids, passwords)

-- Every password but the empty one decodes to a key of 4 bytes.
abbrev decode_string : String → Option (List ℕ)
decode_string s = if str_eq s "" then none else some (0 ∷ 1 ∷ 2 ∷ 3 ∷ [])

abbrev is_uuid : String → Bool
is_uuid s = not (str_eq s "")

abbrev from_string : String → Option String
from_string s = if str_eq s "" then none else some s

shadowsocks_serves : (Shadowsocks.credentials decode_string 4 accounts).ids ≡ pos 1 ∷ pos 3 ∷ []
unfolding Shadowsocks.credentials
shadowsocks_serves = refl

vmess_serves : (Vmess.credentials is_uuid accounts).ids ≡ pos 1 ∷ pos 2 ∷ pos 4 ∷ []
unfolding Vmess.credentials
vmess_serves = refl

tuic_serves : (Tuic.accounts from_string accounts).ids ≡ pos 1 ∷ pos 2 ∷ pos 4 ∷ []
unfolding Tuic.accounts Tuic.with_account
tuic_serves = refl
