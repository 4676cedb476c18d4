-- ===== src/Server/Fetched.antt =====
-- server.go: what `pullOnce` makes of a fetch of the users.
use ne_xt_server.Base.{Option, none, some, List, []}
use ne_xt_server.Adapter.{User}
use ne_xt_server.Base.Result.{Result, ok, err}
use ne_xt_server.Panel.Client.{ClientError, node_unavailable}

-- The list to apply: none where it is unchanged or the fetch failed, and no users where the panel
-- serves none to the node.
unfoldable pub users_to_apply : Result ClientError (Option (List User)) → Option (List User)
users_to_apply (ok users) = users
users_to_apply (err (node_unavailable code)) = some []
users_to_apply (err _) = none

abbrev pub apply_to {ℓ} : {A : Type ℓ} → Option A → A → A
apply_to none old = old
apply_to (some new) old = new
