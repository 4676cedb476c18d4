-- ===== src/Panel/Number.antt =====
-- api/serverv1/types.go: `Number.UnmarshalJSON`. JSON's decoding of a text and of a number, Go's
-- `strings.TrimSpace` and `strconv.ParseFloat` are parameters.
use Prim.Native.String.{String}
use text.Mathlib.TextEquality.{eq_iff}
use text.Mathlib.Text.{◌==◌ as str_eq}
use ne_xt_server.Base.{
  ℕ, ◌≡◌, refl, ◌⊎◌, inl, inr, Bool, true, false, Option, none, some, List, if◌then◌else◌,
  Bool-cases, Option-cases,
}
use ne_xt_server.Panel.Config.{FloatApi}

pub record NumberApi (Float : Type 0) : Type 0 where
  pub is_null : List ℕ → Bool
  pub unmarshal_string : List ℕ → Option String
  pub unmarshal_float : List ℕ → Option Float
  pub trim_space : String → String
  pub parse_float : String → Option Float

module _ (floats : FloatApi) (api : NumberApi floats.Float) where
  open floats use {Float, zero_float}
  open api use {is_null, unmarshal_string, unmarshal_float, trim_space, parse_float}

  -- A text is a number, or empty.
  numeric_string : String → Option Float
  numeric_string s = if str_eq s "" then some zero_float else parse_float s

  of_string : List ℕ → Option String → Option Float
  unfolding numeric_string
  of_string content none = unmarshal_float content
  of_string content (some s) = numeric_string (trim_space s)

  -- `UnmarshalJSON`, with no number for an error.
  unfoldable pub unmarshal_number : List ℕ → Option Float
  unfolding of_string
  unmarshal_number content =
      if is_null content then some zero_float else of_string content (unmarshal_string content)

  -- What the panel leaves unset, null or a blank text, is 0; a text stands for the number in it, and
  -- anything else for the number that JSON reads.
  pub unmarshal_number_cases :
      (content : List ℕ)
      → ((unmarshal_number content ≡ some zero_float)
          × ((is_null content ≡ true)
              ⊎ ((s : String) × (unmarshal_string content ≡ some s) × (trim_space s ≡ ""))))
        ⊎ ((is_null content ≡ false)
            × (((s : String) × (unmarshal_string content ≡ some s)
                  × (unmarshal_number content ≡ parse_float (trim_space s)))
                ⊎ ((unmarshal_string content ≡ none)
                    × (unmarshal_number content ≡ unmarshal_float content))))
  unfolding unmarshal_number of_string numeric_string
  unmarshal_number_cases content = elim (Bool-cases (is_null content)) [
    | inl e ↦ inl (rw e refl, inl e)
    | inr e ↦ elim (Option-cases (unmarshal_string content)) [
      | inl f ↦ inr (e, inr (f, rw (e, f) refl))
      | inr (s, f) ↦ elim (Bool-cases (str_eq (trim_space s) "")) [
        | inl g ↦ inl (rw (e, f, g) refl, inr (s, f, (eq_iff (trim_space s) "").0 g))
        | inr g ↦ inr (e, inl (s, f, rw (e, f, g) refl))
      ]
    ]
  ]
