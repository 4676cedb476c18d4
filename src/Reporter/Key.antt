-- ===== src/Reporter/Key.antt =====
-- common/reporter/limit.go: the key of a message, which is `variablePart.ReplaceAllString` with "#".
-- A message is the list of its characters' code points.
use mathlib.Core.List.{append_assoc}
use ne_xt_server.Base.{
  ℕ, ◌≡◌, refl, sym, ap, ◌∙◌, ◌⊎◌, inl, inr, Bool, true, false, ◌&&◌, ◌||◌, List, [], ◌∷◌, ◌++◌,
  arith, leb, if◌then◌else◌, Bool-cases, any, All,
}

abbrev pub is_digit : ℕ → Bool
is_digit c = leb 48 c && leb c 57

-- `[0-9a-fA-F]`
abbrev pub is_hex_digit : ℕ → Bool
is_hex_digit c = is_digit c || (leb 97 c && leb c 102) || (leb 65 c && leb c 70)

-- A longest run of hexadecimal digits matches when one of them is decimal.
abbrev pub replaced : Bool → List ℕ → List ℕ
replaced true run = 35 ∷ []
replaced false run = run

-- The replacement, with the current run and whether it has a decimal digit.
unfoldable pub replace_from : List ℕ → Bool → List ℕ → List ℕ
replace_from run digit [] = replaced digit run
replace_from run digit (c ∷ cs) =
    let longer = replace_from (run ++ (c ∷ [])) (digit || is_digit c) cs in
    let rest = replace_from [] false cs in
    if is_hex_digit c then longer else replaced digit run ++ (c ∷ rest)

unfoldable pub event_key : List ℕ → List ℕ
unfolding replace_from
event_key message = replace_from [] false message

-- A character that is no hexadecimal digit ends a run.
replace_from-append :
    (run : List ℕ) (digit : Bool) (xs : List ℕ) (c : ℕ) (ys : List ℕ)
    → is_hex_digit c ≡ false
    → replace_from run digit (xs ++ (c ∷ ys)) ≡ replace_from run digit xs ++ (c ∷ event_key ys)
unfolding replace_from event_key
replace_from-append run digit [] c ys h = rw h refl
replace_from-append run digit (x ∷ xs) c ys h = elim (Bool-cases (is_hex_digit x)) [
  | inl e ↦ rw e (replace_from-append (run ++ (x ∷ [])) (digit || is_digit x) xs c ys h)
  | inr e ↦
      rw (e, replace_from-append [] false xs c ys h)
        (sym (
          append_assoc (replaced digit run) (x ∷ replace_from [] false xs)
            (c ∷ replace_from [] false ys)))
]

-- A run with a decimal digit is one "#".
replace_from-number :
    (run : List ℕ) (digit : Bool) (number : List ℕ)
    → All (λ c. is_hex_digit c ≡ true) number
    → (digit ≡ true) ⊎ (any is_digit number ≡ true)
    → replace_from run digit number ≡ 35 ∷ []
unfolding replace_from
replace_from-number run digit [] h (inl e) = rw e refl
replace_from-number run digit [] h (inr e) = absurd (cc)
replace_from-number run digit (c ∷ cs) h d =
    rw (h.0) (replace_from-number (run ++ (c ∷ [])) (digit || is_digit c) cs h.1 (ground arith))

-- Messages that differ in one number have one key: a number is a run of hexadecimal digits, one of
-- them decimal, between two characters that are not.
pub event_key-number :
    (before number after : List ℕ) (a b : ℕ)
    → is_hex_digit a ≡ false
    → is_hex_digit b ≡ false
    → All (λ c. is_hex_digit c ≡ true) number
    → any is_digit number ≡ true
    → event_key (before ++ (a ∷ (number ++ (b ∷ after))))
      ≡ event_key before ++ (a ∷ 35 ∷ b ∷ event_key after)
event_key-number before number after a b ha hb hex d =
    unfold event_key in
    (replace_from-append [] false before a (number ++ (b ∷ after)) ha
      ∙ ap (λ ks. event_key before ++ (a ∷ ks))
          (replace_from-append [] false number b after hb
            ∙ ap (λ ks. ks ++ (b ∷ event_key after))
                (replace_from-number [] false number hex (inr d))))
