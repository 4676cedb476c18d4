-- ===== src/Panel/Client.antt =====
-- api/serverv1/client.go and the Fetch methods of api/serverv1/node.go. An HTTP exchange and the
-- decoding of JSON are parameters.
use ne_xt_server.Base.{ℕ, not, Option, none, some, List, ◌==◌, if◌then◌else◌}
use Prim.Native.String.{String}
use text.Mathlib.Text.{◌==◌ as str_eq}
use ne_xt_server.Base.Result.{Result, ok, err}
use ne_xt_server.Panel.Config.{InboundTlsOptions}
use ne_xt_server.Panel.Node.{ConfigError}

-- What comes of `httpClient.Do` and of reading the body: an error, or a status, the ETag header, and
-- the body, if it could be read.
pub data Exchange : Type 0 where
  failed : Exchange
  answered : ℕ → String → Option (List ℕ) → Exchange

-- `Error` is `api_error`, with its status and code.
pub data RequestError : Type 0 where
  request_failed read_failed decode_failed : RequestError
  api_error : ℕ → String → RequestError

pub data ClientError : Type 0 where
  request : RequestError → ClientError
  node_unavailable : String → ClientError
  bad_config : ConfigError → ClientError

-- The rest of the client's fields does not change.
pub record Client : Type 0 where
  pub local_tls : Option InboundTlsOptions
  pub info_etag : String
  pub users_etag : String
  pub rules_etag : String

-- The code of an error response, which is empty where there is none.
abbrev pub code_of : Option String → String
code_of none = ""
code_of (some code) = code

abbrev pub decode_body :
    {Data : Type 0} → Option Data → String → Result RequestError (Option (String × Data))
decode_body none etag = err decode_failed
decode_body (some d) etag = ok (some (etag, d))

-- The request's `If-None-Match` header.
unfoldable pub if_none_match : String → Option String
if_none_match etag = if str_eq etag "" then none else some etag

module _ {Data : Type 0} (error_code : List ℕ → Option String) (decode : List ℕ → Option Data) where
  answer : ℕ → String → Option (List ℕ) → Result RequestError (Option (String × Data))
  answer status etag none = err read_failed
  answer status etag (some content) =
      if not (status == 200)
      then err (api_error status (code_of (error_code content)))
      else decode_body (decode content) etag

  -- `do`: not modified, or the ETag header and the data of a response.
  unfoldable pub do_request : Exchange → Result RequestError (Option (String × Data))
  unfolding answer
  do_request failed = err request_failed
  do_request (answered status etag body) =
      if status == 304 then ok none else answer status etag body

  -- `get`: the ETag afterwards, and the data unless it is unchanged.
  unfoldable pub get :
      (Option String → Exchange) → String → String × Result RequestError (Option Data)
  unfolding do_request if_none_match
  get exchange etag = elim (do_request (exchange (if_none_match etag))) [
    | err e ↦ (etag, err e)
    | ok none ↦ (etag, ok none)
    | ok (some (etag', d)) ↦ (etag', ok (some d))
  ]
