-- ===== src/Proxy/Decimal.antt =====
-- proxy/anytls/server.go: `strconv.Itoa` and `strconv.Atoi`, by which the name of an AnyTLS user is
-- the panel's ID. A text is the list of its characters' code points, and `int` has 64 bits.
use ne_xt_server.Base.Int.{ℤ, pos, negsuc}
use ne_xt_server.Base.{
  ℕ, zero, suc, ◌+◌, ◌-◌, ◌*◌, ◌/◌, ◌%◌, ◌^◌, ◌≤◌, ◌<◌, ◌≡◌, ap, ◌∙◌, inl, inr, Bool, true, false,
  ◌&&◌, Option, none, some, List, [], ◌∷◌, ◌++◌, arith, ltb, leb, ◌==◌, if◌then◌else◌, Bool-cases,
}

-- The decimal digits, with fuel for them.
unfoldable pub digits : ℕ → ℕ → List ℕ
digits zero n = []
digits (suc fuel) n =
    let more = digits fuel (n / 10) in
    if ltb n 10 then (48 + n) ∷ [] else more ++ ((48 + n % 10) ∷ [])

unfoldable pub itoa : ℤ → List ℕ
unfolding digits
itoa (pos n) = digits (n + 1) n
itoa (negsuc n) = 45 ∷ digits (n + 2) (n + 1)

-- The value of the digits, after those that were read.
unfoldable pub atoi_from : ℕ → List ℕ → Option ℕ
atoi_from acc [] = some acc
atoi_from acc (c ∷ cs) =
    let rest = atoi_from (acc * 10 + (c - 48)) cs in if leb 48 c && leb c 57 then rest else none

abbrev pub atoi_digits : List ℕ → Option ℕ
atoi_digits [] = none
atoi_digits (c ∷ cs) = atoi_from 0 (c ∷ cs)

abbrev pub negated : ℕ → ℤ
negated zero = pos 0
negated (suc n) = negsuc n

-- The range of `int`.
abbrev pub in_range : Bool → Option ℕ → Option ℤ
in_range negative none = none
in_range true (some m) = if leb m (2 ^ 63) then some (negated m) else none
in_range false (some m) = if ltb m (2 ^ 63) then some (pos m) else none

unfoldable pub atoi : List ℕ → Option ℤ
unfolding atoi_from
atoi [] = none
atoi (c ∷ cs) =
    if c == 45
    then in_range true (atoi_digits cs)
    else if c == 43
    then in_range false (atoi_digits cs)
    else in_range false (atoi_digits (c ∷ cs))

-- One more digit at the end.
atoi_from-append :
    (acc v d : ℕ) (cs : List ℕ)
    → d < 10
    → atoi_from acc cs ≡ some v
    → atoi_from acc (cs ++ ((48 + d) ∷ [])) ≡ some (v * 10 + d)
unfolding atoi_from
atoi_from-append acc v d [] h e = ground arith
atoi_from-append acc v d (c ∷ cs) h e = elim (Bool-cases (leb 48 c && leb c 57)) [
  | inl t ↦ rw t (atoi_from-append (acc * 10 + (c - 48)) v d cs h (rw t at e))
  | inr t ↦ absurd (ground arith)
]

-- The digits are enough, begin with a digit, and stand for the number.
atoi_from-digits : (fuel n : ℕ) → n < fuel → atoi_from 0 (digits fuel n) ≡ some n
unfolding digits
atoi_from-digits zero n h = absurd (omega arith)
atoi_from-digits (suc fuel) n h = elim (Bool-cases (ltb n 10)) [
  | inl t ↦ rw t (unfold atoi_from in (ground arith))
  | inr t ↦ rw t (
      atoi_from-append 0 (n / 10) (n % 10) (digits fuel (n / 10)) (omega arith)
        (atoi_from-digits fuel (n / 10) (ground arith))
      ∙ ap some (omega arith))
]

abbrev pub Begins : List ℕ → Type 0
Begins [] = ⊥
Begins (c ∷ cs) = (48 ≤ c) × (c ≤ 57)

Begins-append : (xs ys : List ℕ) → Begins xs → Begins (xs ++ ys)
Begins-append [] ys h = absurd h
Begins-append (x ∷ xs) ys h = h

digits-Begins : (fuel n : ℕ) → n < fuel → Begins (digits fuel n)
unfolding digits
digits-Begins zero n h = absurd (omega arith)
digits-Begins (suc fuel) n h = elim (Bool-cases (ltb n 10)) [
  | inl t ↦ rw t (omega arith, ground arith)
  | inr t ↦ rw t (
      Begins-append (digits fuel (n / 10)) ((48 + n % 10) ∷ [])
        (digits-Begins fuel (n / 10) (ground arith)))
]

unsigned :
    (cs : List ℕ) (m : ℕ)
    → Begins cs
    → atoi_from 0 cs ≡ some m
    → (atoi cs ≡ in_range false (some m)) × (atoi (45 ∷ cs) ≡ in_range true (some m))
unfolding atoi
unsigned [] m b e = absurd b
unsigned (c ∷ cs) m b e = (ground arith, ground arith)

-- The range of Go's `int`, which is that of the panel's IDs.
abbrev pub IsInt : ℤ → Type 0
IsInt (pos n) = n < 2 ^ 63
IsInt (negsuc n) = n < 2 ^ 63

-- `Atoi` reads every `int` back that `Itoa` writes.
pub atoi-itoa : (n : ℤ) → IsInt n → atoi (itoa n) ≡ some n
unfolding itoa
atoi-itoa (pos n) h =
    (unsigned (digits (n + 1) n) n (digits-Begins (n + 1) n (omega arith))
      (atoi_from-digits (n + 1) n (omega arith))).0
    ∙ ground arith
atoi-itoa (negsuc n) h =
    (unsigned (digits (n + 2) (n + 1)) (n + 1) (digits-Begins (n + 2) (n + 1) (omega arith))
      (atoi_from-digits (n + 2) (n + 1) (omega arith))).1
    ∙ ground arith
