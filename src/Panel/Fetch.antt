-- ===== src/Panel/Fetch.antt =====
-- api/serverv1/node.go: `FetchNodeConfig`, `FetchUsers` and `FetchDetectRules`. Each takes the
-- exchange of its request, which depends on the If-None-Match header.
use ne_xt_server.Base.{ℕ, Bool, false, not, ◌||◌, Option, none, some, List, [], ◌∷◌, if◌then◌else◌}
use Prim.Native.String.{String}
use text.Mathlib.Text.{◌==◌ as str_eq}
use ne_xt_server.Adapter.{User, DetectRule}
use ne_xt_server.Base.Int.{ℤ, is_positive}
use ne_xt_server.Base.Result.{Result, ok, err}
use ne_xt_server.Panel.Config.{NodeConfig, FloatApi, NodeInfo}
use ne_xt_server.Panel.Node.{ConfigError, ParseApi, mbps_to_bytes, parse_node_config}
use ne_xt_server.Panel.Client.{
  RequestError, request, Exchange, ClientError, api_error, node_unavailable, bad_config, Client,
  get,
}

-- `user` and `detectRule`, as the panel sends them.
pub record RawUser (Float : Type 0) : Type 0 where
  pub id : ℤ
  pub speed_limit : Float
  pub password : String
  pub uuid : String

pub record RawRule : Type 0 where
  pub id : ℤ
  pub regex : String
  pub type : ℤ

abbrev pub is_unavailable : RequestError → Bool
is_unavailable (api_error status code) =
    str_eq code "out_of_bandwidth" || str_eq code "node_disabled"
is_unavailable _ = false

module _ (floats : FloatApi) (error_code : List ℕ → Option String) where
  open floats use {Float}

  abbrev pub user_of : RawUser Float → User
  user_of raw = record {
    id = raw.id;
    uuid = raw.uuid;
    password = raw.password;
    speed_limit = mbps_to_bytes floats raw.speed_limit;
  }

  -- The loop of `FetchUsers`.
  unfoldable pub users_of : List (RawUser Float) → List User
  users_of [] = []
  users_of (raw ∷ raws) =
      let rest = users_of raws in if not (is_positive raw.id) then rest else user_of raw ∷ rest

  -- An error: when the panel serves no users to the node, the ETag is forgotten.
  unfoldable pub users_failed :
      Client → RequestError → Client × Result ClientError (Option (List User))
  users_failed c (api_error status code) =
      if is_unavailable (api_error status code)
      then (record c { users_etag = "" }, err (node_unavailable code))
      else (c, err (request (api_error status code)))
  users_failed c e = (c, err (request e))

  unfoldable pub users_answered :
      Client
      → String × Result RequestError (Option (List (RawUser Float)))
      → Client × Result ClientError (Option (List User))
  unfolding users_of users_failed
  users_answered c (etag, err e) = users_failed (record c { users_etag = etag }) e
  users_answered c (etag, ok none) = (record c { users_etag = etag }, ok none)
  users_answered c (etag, ok (some raws)) =
      (record c { users_etag = etag }, ok (some (users_of raws)))

  unfoldable pub fetch_users :
      (List ℕ → Option (List (RawUser Float)))
      → (Option String → Exchange)
      → Client
      → Client × Result ClientError (Option (List User))
  unfolding users_answered get
  fetch_users decode exchange c = users_answered c (get error_code decode exchange c.users_etag)

  module _ (api : ParseApi Float) where
    -- A config that cannot be used: the ETag is forgotten, so that the next fetch says so again.
    config_parsed :
        Client → Result ConfigError NodeConfig → Client × Result ClientError (Option NodeConfig)
    config_parsed c (err e) = (record c { info_etag = "" }, err (bad_config e))
    config_parsed c (ok config) = (c, ok (some config))

    config_answered :
        Client
        → String × Result RequestError (Option (NodeInfo Float))
        → Client × Result ClientError (Option NodeConfig)
    unfolding config_parsed
    config_answered c (etag, err e) = (record c { info_etag = etag }, err (request e))
    config_answered c (etag, ok none) = (record c { info_etag = etag }, ok none)
    config_answered c (etag, ok (some info)) =
        config_parsed (record c { info_etag = etag })
          (parse_node_config floats api c.local_tls info)

    unfoldable pub fetch_node_config :
        (List ℕ → Option (NodeInfo Float))
        → (Option String → Exchange)
        → Client
        → Client × Result ClientError (Option NodeConfig)
    unfolding config_answered get
    fetch_node_config decode exchange c =
        config_answered c (get error_code decode exchange c.info_etag)

-- `compile` is `regexp.Compile`.
module _ {Regexp : Type 0} (compile : String → Option Regexp)
    (error_code : List ℕ → Option String) where
  add_rule :
      RawRule
      → Option Regexp
      → List (DetectRule Regexp) × List ℤ
      → List (DetectRule Regexp) × List ℤ
  add_rule raw none (rules, bad) = (rules, raw.id ∷ bad)
  add_rule raw (some r) (rules, bad) =
      (record { id = raw.id; type = raw.type; regexp = r } ∷ rules, bad)

  -- The loop of `FetchDetectRules`: the rules that compile, and the IDs of the others.
  unfoldable pub compile_rules : List RawRule → List (DetectRule Regexp) × List ℤ
  unfolding add_rule
  compile_rules [] = ([], [])
  compile_rules (raw ∷ raws) = add_rule raw (compile raw.regex) (compile_rules raws)

  rules_answered :
      Client
      → String × Result RequestError (Option (List RawRule))
      → Client × Result ClientError (Option (List (DetectRule Regexp) × List ℤ))
  unfolding compile_rules
  rules_answered c (etag, err e) = (record c { rules_etag = etag }, err (request e))
  rules_answered c (etag, ok none) = (record c { rules_etag = etag }, ok none)
  rules_answered c (etag, ok (some raws)) =
      (record c { rules_etag = etag }, ok (some (compile_rules raws)))

  -- The rules come with the errors of those that do not compile.
  unfoldable pub fetch_detect_rules :
      (List ℕ → Option (List RawRule))
      → (Option String → Exchange)
      → Client
      → Client × Result ClientError (Option (List (DetectRule Regexp) × List ℤ))
  unfolding rules_answered get
  fetch_detect_rules decode exchange c =
      rules_answered c (get error_code decode exchange c.rules_etag)
