-- ===== src/Audit/Match.antt =====
-- What `match` finds: the first rule that matches, with the payload encoded at once.
use ne_xt_server.Base.{
  ℕ, ◌≡◌, refl, ◌⊎◌, inl, inr, Bool, false, Option, none, some, List, [], ◌∷◌, arith, if◌then◌else◌,
  Option-cases,
}
use Prim.Native.String.{String}
use text.Mathlib.TextEquality.{eq_iff}
use ne_xt_server.Adapter.{DetectRule}
use ne_xt_server.Audit.Auditor.{
  MatchApi, Auditor, enabled, matches, hex_after, match_rules, match_connection,
}

-- The first element that passes a test.
unfoldable pub first {ℓ} : {A : Type ℓ} → (A → Bool) → List A → Option A
first f [] = none
first f (x ∷ xs) = let rest = first f xs in if f x then some x else rest

abbrev pub rules_of : {Regexp : Type 0} → Auditor Regexp → List (DetectRule Regexp)
rules_of a = elim a.rules [ none ↦ [] | some rules ↦ rules ]

module _ (api : MatchApi) (host domain : String) (payload : List ℕ) where
  open api use {Regexp, match_string, encode_to_string}

  -- The rule types as the panel describes them: a hex rule sees the encoded payload, a plain rule
  -- the host, the domain and the payload.
  unfoldable pub applies : DetectRule Regexp → Bool
  applies rule = matches api host domain payload rule (encode_to_string payload)

  abbrev IsCached : String → Type 0
  IsCached hex = (hex ≡ "") ⊎ (hex ≡ encode_to_string payload)

  hex_after-IsCached :
      (rule : DetectRule Regexp) (hex : String)
      → IsCached hex
      → IsCached (hex_after api host domain payload rule hex)
  unfolding hex_after
  hex_after-IsCached rule hex c = ground arith

  matches-applies :
      (rule : DetectRule Regexp) (hex : String)
      → IsCached hex
      → matches api host domain payload rule (hex_after api host domain payload rule hex)
        ≡ applies rule
  unfolding hex_after matches applies
  matches-applies rule hex c = ground (arith, eq_iff hex "")

  match_rules-first :
      (hex : String) (rules : List (DetectRule Regexp))
      → IsCached hex
      → match_rules api host domain payload hex rules ≡ first applies rules
  unfolding match_rules first
  match_rules-first hex [] c = refl
  match_rules-first hex (rule ∷ rules) c =
      rw
        (
          matches-applies rule hex c,
          match_rules-first (hex_after api host domain payload rule hex) rules
              (hex_after-IsCached rule hex c),
        )
        refl

  -- `match` returns the first of the rules that applies to the connection, where a hex rule sees the
  -- encoded payload: that the payload is encoded once, on demand, changes nothing.
  pub match_connection-first :
      (a : Auditor Regexp) → match_connection api host domain payload a ≡ first applies (rules_of a)
  unfolding match_connection first
  match_connection-first a = elim (Option-cases a.rules) [
    | inl e ↦ rw e refl
    | inr (rules, e) ↦ rw e (match_rules-first "" rules (inl refl))
  ]

  -- An auditor that is not enabled matches no connection, so that the router may skip it.
  pub match_connection_disabled :
      (a : Auditor Regexp) → enabled a ≡ false → match_connection api host domain payload a ≡ none
  unfolding enabled match_connection match_rules
  match_connection_disabled a h = ground arith
