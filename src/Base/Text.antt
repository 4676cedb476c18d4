-- ===== src/Base/Text.antt =====
-- Texts have a decidable equality.
use Prim.Native.String.{String}
use text.Mathlib.Text.{◌==◌ as str_eq}
use text.Mathlib.TextEquality.{eq_iff}
use ne_xt_server.Base.{◌≡◌, false, inl, inr, Bool-cases}

text_ne : (s t : String) → str_eq s t ≡ false → ¬ (s ≡ t)
text_ne s t h e = let q = (eq_iff s t).1 e in cc

unfoldable pub String_discrete : Discrete String
unfolding Bool-cases text_ne
String_discrete s t = elim (Bool-cases (str_eq s t)) [
  | inl e ↦ yes ((eq_iff s t).0 e)
  | inr e ↦ no (text_ne s t e)
]
