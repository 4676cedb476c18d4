-- ===== src/Audit/Auditor.antt =====
-- audit.go: `auditor` and its operations.
use ne_xt_server.Base.{
  ℕ, ite, Bool, true, false, not, ◌&&◌, ◌||◌, Option, none, some, List, [], ◌∷◌, map, if◌then◌else◌,
}
use Prim.Native.String.{String}
use text.Mathlib.Text.{◌==◌ as str_eq}
use ne_xt_server.Adapter.{DetectRule, DetectLog, DetectLog_discrete, detect_rule_type_hex}
use ne_xt_server.Base.Int.{ℤ, ℤ_discrete}
use ne_xt_server.Base.Assoc.{insert}

-- Go's regexp and encoding/hex: `Regexp.MatchString`, `Regexp.Match` and `hex.EncodeToString`.
pub record MatchApi : Type 1 where
  pub Regexp : Type 0
  pub match_string : Regexp → String → Bool
  pub match_bytes : Regexp → List ℕ → Bool
  pub encode_to_string : List ℕ → String

abbrev pub is_empty : List ℕ → Bool
is_empty [] = true
is_empty (_ ∷ _) = false

-- The pointer to the rules, which is nil at first, and the set of hits.
pub record Auditor (Regexp : Type 0) : Type 0 where
  pub rules : Option (List (DetectRule Regexp))
  pub hits : List (DetectLog × Unit {0})

module _ {Regexp : Type 0} where
  unfoldable pub new_auditor : Auditor Regexp
  new_auditor = record { rules = none; hits = [] }

  unfoldable pub set_rules : Auditor Regexp → List (DetectRule Regexp) → Auditor Regexp
  set_rules a rules = record a { rules = some rules }

  enabled_rules : Option (List (DetectRule Regexp)) → Bool
  enabled_rules none = false
  enabled_rules (some []) = false
  enabled_rules (some (_ ∷ _)) = true

  unfoldable pub enabled : Auditor Regexp → Bool
  unfolding enabled_rules
  enabled a = enabled_rules a.rules

  -- A hit counts once, however often it is recorded.
  unfoldable pub record_hit : Auditor Regexp → ℤ → ℤ → Auditor Regexp
  record_hit a user_id rule_id = record a {
    hits = insert DetectLog_discrete (record { user_id = user_id; rule_id = rule_id }) tt a.hits;
  }

  unfoldable pub collect : Auditor Regexp → Auditor Regexp × List DetectLog
  collect a = (record a { hits = [] }, map (λ e. e.0) a.hits)

  unfoldable pub restore : Auditor Regexp → List DetectLog → Auditor Regexp
  restore a [] = a
  restore a (log ∷ logs) =
      restore (record a { hits = insert DetectLog_discrete log tt a.hits }) logs

module _ (api : MatchApi) (host domain : String) (payload : List ℕ) where
  open api use {Regexp, match_string, match_bytes, encode_to_string}

  -- `rule.Type` is the hex type.
  abbrev pub is_hex : DetectRule Regexp → Bool
  is_hex rule = ite (ℤ_discrete rule.type detect_rule_type_hex) true false

  -- The default case of the switch.
  unfoldable pub matches_plain : DetectRule Regexp → Bool
  matches_plain rule =
      (not (str_eq host "") && match_string rule.regexp host)
      || (not (str_eq domain "") && not (str_eq domain host) && match_string rule.regexp domain)
      || (not (is_empty payload) && match_bytes rule.regexp payload)

  -- `hexPayload` after a rule was looked at: encoded when a hex rule first asks for it.
  unfoldable pub hex_after : DetectRule Regexp → String → String
  hex_after rule hex =
      if is_hex rule && not (is_empty payload) && str_eq hex ""
      then encode_to_string payload
      else hex

  unfoldable pub matches : DetectRule Regexp → String → Bool
  unfolding matches_plain
  matches rule hex =
      if is_hex rule
      then not (is_empty payload) && match_string rule.regexp hex
      else matches_plain rule

  -- The loop of `match`.
  unfoldable pub match_rules : String → List (DetectRule Regexp) → Option (DetectRule Regexp)
  unfolding hex_after matches
  match_rules hex [] = none
  match_rules hex (rule ∷ rules) =
      let hex' = hex_after rule hex in
      let rest = match_rules hex' rules in if matches rule hex' then some rule else rest

  match_loaded : Option (List (DetectRule Regexp)) → Option (DetectRule Regexp)
  unfolding match_rules
  match_loaded none = none
  match_loaded (some rules) = match_rules "" rules

  unfoldable pub match_connection : Auditor Regexp → Option (DetectRule Regexp)
  unfolding match_loaded
  match_connection a = match_loaded a.rules
