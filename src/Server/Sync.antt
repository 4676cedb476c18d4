-- ===== src/Server/Sync.antt =====
-- The user list that the node applies is the panel's: conditional requests never leave it behind.
use ne_xt_server.Base.{
  refl, ap, Option-cases, inl, inr, ℕ, ◌≡◌, refl, ap, ◌⊎◌, inl, inr, Bool, true, false, Option,
  none, some, List, [], arith, Option-cases,
}
use Prim.Native.String.{String}
use text.Mathlib.TextEquality.{eq_iff}
use ne_xt_server.Adapter.{User}
use ne_xt_server.Base.Result.{Result, ok, err}
use ne_xt_server.Panel.Config.{FloatApi}
use ne_xt_server.Panel.Client.{
  get, RequestError, request_failed, read_failed, decode_failed, api_error, Exchange, failed,
  answered, api_error, node_unavailable, Client, get, if_none_match,
}
use ne_xt_server.Panel.Fetch.{users_answered, RawUser, fetch_users, users_of, users_failed}
use ne_xt_server.Server.Fetched.{users_to_apply, apply_to}

module _ (floats : FloatApi) (error_code : List ℕ → Option String)
    (decode : List ℕ → Option (List (RawUser floats.Float)))
    (contents : String → List (RawUser floats.Float)) where
  -- How a panel whose list has the ETag `version` answers a request: "not modified" only to that
  -- ETag, and else, if it answers, its list, under its ETag or none.
  pub record Answers (version : String) (request : Option String) (e : Exchange) : Type 0 where
    pub unchanged :
        (etag : String) (body : Option (List ℕ))
        → e ≡ answered 304 etag body
        → request ≡ some version
    pub fresh :
        (etag : String) (content : List ℕ) (raws : List (RawUser floats.Float))
        → e ≡ answered 200 etag (some content)
        → decode content ≡ some raws
        → (raws ≡ contents version) × ((etag ≡ version) ⊎ (etag ≡ ""))

  -- What the node has applied is what the ETag stands for, if there is one.
  abbrev pub IsSynced : Client → List User → Type 0
  IsSynced c applied =
      (c.users_etag ≡ "") ⊎ (applied ≡ users_of floats error_code (contents c.users_etag))

  abbrev pub is_ok {ℓ} : {E A : Type ℓ} → Result E A → Bool
  is_ok (ok a) = true
  is_ok (err e) = false

  -- The same, by the answer.
  sync_answer :
      (version : String) (c : Client) (applied : List User) (e : Exchange)
      → Answers version (if_none_match c.users_etag) e
      → IsSynced c applied
      → let (c', r) = fetch_users floats error_code decode (λ _. e) c in
        let applied' = apply_to (users_to_apply r) applied in
        IsSynced c' applied'
        × ((is_ok r ≡ false) ⊎ (applied' ≡ users_of floats error_code (contents version)))
  unfolding fetch_users users_to_apply if_none_match
  sync_answer version c applied failed a s = ground arith
  sync_answer version c applied (answered status etag none) a s =
      ground (arith, a.unchanged etag none, eq_iff c.users_etag "")
  sync_answer version c applied (answered status etag (some content)) a s =
      elim (Option-cases (decode content)) [
        | inl e ↦ ground (arith, a.unchanged etag (some content), eq_iff c.users_etag "")
        | inr (raws, e) ↦
            let found : status ≡ 200
                → (raws ≡ contents version) × ((etag ≡ version) ⊎ (etag ≡ "")) =
              λ h. a.fresh etag content raws (ap (λ n. answered n etag (some content)) h) e in
            ground (arith, a.unchanged etag (some content), eq_iff c.users_etag "", found)
      ]

  -- However the panel's list and the ETag headers change, a fetch keeps the applied list in step with
  -- the ETag that the client remembers, and a fetch without an error leaves the node with exactly the
  -- users of the panel's list, also when the panel answers that it is unchanged. The panel is asked to
  -- answer "not modified" only to the ETag of its list.
  pub fetch_users-IsSynced :
      (version : String) (exchange : Option String → Exchange) (c : Client) (applied : List User)
      → ((request : Option String) → Answers version request (exchange request))
      → IsSynced c applied
      → let (c', r) = fetch_users floats error_code decode exchange c in
        let applied' = apply_to (users_to_apply r) applied in
        IsSynced c' applied'
        × ((is_ok r ≡ false) ⊎ (applied' ≡ users_of floats error_code (contents version)))
  unfolding fetch_users
  fetch_users-IsSynced version exchange c applied a s =
      sync_answer version c applied (exchange (if_none_match c.users_etag))
        (a (if_none_match c.users_etag)) s

  failed_unavailable :
      (c : Client) (e : RequestError) (code : String)
      → (users_failed floats error_code c e).1 ≡ err (node_unavailable code)
      → (users_failed floats error_code c e).0.users_etag ≡ ""
  unfolding users_failed
  failed_unavailable c (api_error status code') code h = ground arith
  failed_unavailable c (request_failed) code h = absurd (cc h)
  failed_unavailable c (read_failed) code h = absurd (cc h)
  failed_unavailable c (decode_failed) code h = absurd (cc h)

  answered_unavailable :
      (c : Client) (x : String × Result RequestError (Option (List (RawUser floats.Float))))
      (code : String)
      → (users_answered floats error_code c x).1 ≡ err (node_unavailable code)
      → (users_answered floats error_code c x).0.users_etag ≡ ""
  unfolding users_answered
  answered_unavailable c (etag, ok none) code h = absurd (cc h)
  answered_unavailable c (etag, ok (some raws)) code h = absurd (cc h)
  answered_unavailable c (etag, err e) code h =
      failed_unavailable (record c { users_etag = etag }) e code h

  -- When the panel stops serving users to the node, the node serves nobody, and its next request
  -- carries no ETag, so that the panel's next list cannot be taken for an unchanged one.
  pub fetch_users_unavailable :
      (exchange : Option String → Exchange) (c : Client) (applied : List User) (code : String)
      → (fetch_users floats error_code decode exchange c).1 ≡ err (node_unavailable code)
      → let (c', r) = fetch_users floats error_code decode exchange c in
        (apply_to (users_to_apply r) applied ≡ []) × (if_none_match c'.users_etag ≡ none)
  unfolding fetch_users users_to_apply if_none_match
  fetch_users_unavailable exchange c applied code h =
      let gone = answered_unavailable c (get error_code decode exchange c.users_etag) code h in
      (rw h refl, rw gone refl)
