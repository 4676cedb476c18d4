-- ===== src/Adapter.antt =====
-- adapter/node.go: the data that the panel and the node exchange. `int` is ℤ; an `int64` count and
-- a `uint64` speed limit are numbers below 2^64.
use ne_xt_server.Base.{ℕ}
use Prim.Native.String.{String}
use ne_xt_server.Base.Int.{ℤ, pos, ℤ_discrete}

pub record User : Type 0 where
  pub id : ℤ
  pub uuid : String
  pub password : String
  pub speed_limit : ℕ

-- `upload` and `download` are the bits of an `int64`.
pub record UserTraffic : Type 0 where
  pub user_id : ℤ
  pub upload : ℕ
  pub download : ℕ

pub record UserOnline : Type 0 where
  pub user_id : ℤ
  pub ip : String

pub record DetectLog : Type 0 where
  pub user_id : ℤ
  pub rule_id : ℤ

-- `DetectRuleTypePlain` and `DetectRuleTypeHex`
abbrev pub detect_rule_type_plain : ℤ
detect_rule_type_plain = pos 1

abbrev pub detect_rule_type_hex : ℤ
detect_rule_type_hex = pos 2

-- A rule over the compiled expressions of Go's regexp.
pub record DetectRule (Regexp : Type 0) : Type 0 where
  pub id : ℤ
  pub type : ℤ
  pub regexp : Regexp

unfoldable pub DetectLog_discrete : Discrete DetectLog
unfolding ℤ_discrete
DetectLog_discrete = hlevel ℤ_discrete
