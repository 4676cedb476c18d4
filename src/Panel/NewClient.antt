-- ===== src/Panel/NewClient.antt =====
-- api/client.go and api/serverv1/client.go: `NewClient`, and `send` with the requests that report.
-- `url.Parse`, `strings.TrimSuffix` and an HTTP exchange are parameters; a duration is in nanoseconds.
use ne_xt_server.Adapter.{DetectLog, UserOnline, UserTraffic}
use Prim.Native.String.{String, ◌++◌ as str_append}
use text.Mathlib.Text.{◌==◌ as str_eq}
use ne_xt_server.Base.{ℕ, not, ◌&&◌, ◌||◌, Option, none, some, List, map, ◌==◌, if◌then◌else◌}
use ne_xt_server.Base.Result.{Result, ok, err}
use ne_xt_server.Panel.Client.{RequestError, Exchange, do_request}
use ne_xt_server.Base.Int.{negsuc, pos, ℤ}

-- `option.ServerOptions`, as far as the client is made from it.
pub record ClientOptions : Type 0 where
  pub api : String
  pub url : String
  pub key : String
  pub timeout : ℤ

-- What `url.Parse` reads: the scheme, and the URL as a text.
pub record ParsedUrl : Type 0 where
  pub scheme : String
  pub text : String

pub data NewClientError : Type 0 where
  unknown_api bad_url bad_scheme missing_key : NewClientError

-- The fields of a new client; its ETags are empty.
pub record ClientSettings : Type 0 where
  pub timeout : ℤ
  pub base_url : String
  pub key : String

abbrev pub default_timeout : ℤ
default_timeout = pos 30000000000

abbrev pub or_default_timeout : ℤ → ℤ
or_default_timeout (pos n) = if n == 0 then default_timeout else pos n
or_default_timeout (negsuc n) = negsuc n

module _ (parse : String → Option ParsedUrl) (trim_slash : String → String) where
  with_url : ClientOptions → Option ParsedUrl → Result NewClientError ClientSettings
  with_url o none = err bad_url
  with_url o (some u) =
      if not (str_eq u.scheme "http") && not (str_eq u.scheme "https")
      then err bad_scheme
      else if str_eq o.key ""
      then err missing_key
      else ok (record {
        timeout = or_default_timeout o.timeout;
        base_url = str_append (trim_slash u.text) "/api/server/v1";
        key = o.key;
      })

  -- `serverv1.NewClient`
  unfoldable pub new_serverv1 : ClientOptions → Result NewClientError ClientSettings
  unfolding with_url
  new_serverv1 o = with_url o (parse o.url)

  -- `api.NewClient`
  unfoldable pub new_client : ClientOptions → Result NewClientError ClientSettings
  unfolding new_serverv1
  new_client o =
      if str_eq o.api "" || str_eq o.api "server_v1" then new_serverv1 o else err unknown_api

-- A report: its method, its path, and the body that `json.Marshal` makes of the items.
pub data ReportKind : Type 0 where
  heartbeat traffic online detect_logs : ReportKind

abbrev pub method_of : ReportKind → String
method_of heartbeat = "PUT"
method_of traffic = "POST"
method_of online = "POST"
method_of detect_logs = "POST"

abbrev pub path_of : ReportKind → String
path_of heartbeat = "/heartbeat"
path_of traffic = "/users/traffic"
path_of online = "/users/online"
path_of detect_logs = "/users/detect_logs"

-- The entries that are encoded for each item.
abbrev pub traffic_entry : UserTraffic → ℤ × ℕ × ℕ
traffic_entry item = (item.user_id, item.upload, item.download)

abbrev pub online_entry : UserOnline → ℤ × String
online_entry item = (item.user_id, item.ip)

abbrev pub detect_log_entry : DetectLog → ℤ × ℤ
detect_log_entry item = (item.user_id, item.rule_id)

-- What `Marshal` encodes.
pub data Body : Type 0 where
  online_user : ℕ → Body
  traffic_entries : List (ℤ × ℕ × ℕ) → Body
  online_entries : List (ℤ × String) → Body
  log_entries : List (ℤ × ℤ) → Body

abbrev pub kind_of : Body → ReportKind
kind_of (online_user n) = heartbeat
kind_of (traffic_entries es) = traffic
kind_of (online_entries es) = online
kind_of (log_entries es) = detect_logs

pub record SentRequest : Type 0 where
  pub method : String
  pub url : String
  pub body : List ℕ

module _ (c : ClientSettings) (marshal : Body → List ℕ) (error_code : List ℕ → Option String) where
  sent_failed : Result RequestError (Option (String × Unit {0})) → Option RequestError
  sent_failed (err e) = some e
  sent_failed (ok _) = none

  request_of : Body → SentRequest
  request_of body = record {
    method = method_of (kind_of body);
    url = str_append c.base_url (path_of (kind_of body));
    body = marshal body;
  }

  -- `send`, of a body that can be encoded; what comes back is not decoded.
  unfoldable pub send : (SentRequest → Exchange) → Body → Option RequestError
  unfolding sent_failed request_of do_request
  send exchange body =
      sent_failed (do_request error_code (λ _. some tt) (exchange (request_of body)))

  unfoldable pub send_heartbeat : (SentRequest → Exchange) → ℕ → Option RequestError
  unfolding send
  send_heartbeat exchange online_users = send exchange (online_user online_users)

  unfoldable pub report_traffic : (SentRequest → Exchange) → List UserTraffic → Option RequestError
  unfolding send
  report_traffic exchange items = send exchange (traffic_entries (map traffic_entry items))

  unfoldable pub report_online : (SentRequest → Exchange) → List UserOnline → Option RequestError
  unfolding send
  report_online exchange items = send exchange (online_entries (map online_entry items))

  unfoldable pub report_detect_logs :
      (SentRequest → Exchange) → List DetectLog → Option RequestError
  unfolding send
  report_detect_logs exchange items = send exchange (log_entries (map detect_log_entry items))
