-- ===== src/Base/Sums.antt =====
-- Sums over lists and over the values of maps, for counting arguments.
use ne_xt_server.Base.Keys.{Distinct}
use ne_xt_server.Base.{
  ℕ, ◌+◌, ◌≡◌, refl, ap, ◌∙◌, ◌≢◌, inl, inr, Option, none, some, List, [], ◌∷◌, ◌++◌, map, arith,
  ◌==◌, if◌then◌else◌, ==_iff, Bool-cases,
}
use ne_xt_server.Base.Assoc.{lookup, insert, lookup-insert}

-- `f` with another value at `p`: a write through a pointer.
abbrev pub put {ℓ} : {A : Type ℓ} → (ℕ → A) → ℕ → A → ℕ → A
put f p v q = if p == q then v else f q

-- A write that keeps an aspect of what was there keeps it everywhere.
pub put_same {ℓ κ} :
    {A : Type ℓ} {B : Type κ} (f : A → B) (s : ℕ → A) (p : ℕ) (v : A)
    → f v ≡ f (s p)
    → (q : ℕ) → f (put s p v q) ≡ f (s q)
put_same f s p v h q = elim (Bool-cases (p == q)) [
  | inl e ↦ rw e (h ∙ ap (λ x. f (s x)) ((==_iff p q).0 e))
  | inr e ↦ rw e refl
]

pub put_self {ℓ} : {A : Type ℓ} (s : ℕ → A) (p : ℕ) (v : A) → put s p v p ≡ v
put_self s p v = ground arith

pub put_ne {ℓ} : {A : Type ℓ} (s : ℕ → A) (p : ℕ) (v : A) (q : ℕ) → p ≢ q → put s p v q ≡ s q
put_ne s p v q h = ground arith

abbrev pub sum : (ℕ → ℕ) → List ℕ → ℕ
sum w [] = 0
sum w (p ∷ ps) = w p + sum w ps

abbrev pub one_at : ℕ → ℕ → ℕ
one_at p q = if p == q then 1 else 0

-- How often a pointer occurs.
abbrev pub occurrences : ℕ → List ℕ → ℕ
occurrences p = sum (one_at p)

pub sum-append : (w : ℕ → ℕ) (ps qs : List ℕ) → sum w (ps ++ qs) ≡ sum w ps + sum w qs
sum-append w [] qs = omega arith
sum-append w (p ∷ ps) qs = omega (arith, sum-append w ps qs)

-- Weights that agree give the same sum.
pub sum-ext : (v w : ℕ → ℕ) (ps : List ℕ) → ((q : ℕ) → v q ≡ w q) → sum v ps ≡ sum w ps
sum-ext v w [] h = refl
sum-ext v w (p ∷ ps) h = omega (arith, h p, sum-ext v w ps h)

-- A weight changed at a pointer that does not occur.
pub sum_off :
    (v w : ℕ → ℕ) (p : ℕ) (ps : List ℕ)
    → ((q : ℕ) → p ≢ q → v q ≡ w q)
    → occurrences p ps ≡ 0
    → sum v ps ≡ sum w ps
sum_off v w p [] h none_here = refl
sum_off v w p (q ∷ ps) h none_here = ground (arith, h q, sum_off v w p ps h)

-- A weight changed at a pointer that occurs once.
pub sum_at :
    (v w : ℕ → ℕ) (p : ℕ) (ps : List ℕ)
    → ((q : ℕ) → p ≢ q → v q ≡ w q)
    → occurrences p ps ≡ 1
    → sum v ps + w p ≡ sum w ps + v p
sum_at v w p [] h once = absurd (omega arith)
sum_at v w p (q ∷ ps) h once = ground (arith, h q, sum_at v w p ps h, sum_off v w p ps h)

module _ {K : Type 0} (dec : Discrete K) where
  abbrev pub values : List (K × ℕ) → List ℕ
  values = map (λ e. e.1)

  lookup-none :
      (k j : K) (q : ℕ) (m : List (K × ℕ))
      → lookup dec k ((j, q) ∷ m) ≡ none
      → (j ≢ k) × (lookup dec k m ≡ none)
  unfolding lookup
  lookup-none k j q m h = ground arith

  -- The weight that a key's value has; 0 without the key.
  abbrev pub weight_of : (ℕ → ℕ) → Option ℕ → ℕ
  weight_of w none = 0
  weight_of w (some p) = w p

  pub sum-insert :
      (w : ℕ → ℕ) (k : K) (p : ℕ) (m : List (K × ℕ))
      → sum w (values (insert dec k p m)) + weight_of w (lookup dec k m) ≡ sum w (values m) + w p
  unfolding insert lookup
  sum-insert w k p [] = omega arith
  sum-insert w k p ((j, q) ∷ m) = ground (arith, sum-insert w k p m)

  -- What counts where a key is missing.
  abbrev pub if_missing : Option ℕ → ℕ → ℕ
  if_missing none n = n
  if_missing (some _) n = 0

  -- The part of `previous` whose keys are not in `next`.
  abbrev pub left_out : (ℕ → ℕ) → List (K × ℕ) → List (K × ℕ) → ℕ
  left_out w next [] = 0
  left_out w next ((k, p) ∷ previous) =
      if_missing (lookup dec k next) (w p) + left_out w next previous

  left_out-insert_absent :
      (w : ℕ → ℕ) (k : K) (p : ℕ) (next previous : List (K × ℕ))
      → lookup dec k previous ≡ none
      → left_out w (insert dec k p next) previous ≡ left_out w next previous
  left_out-insert_absent w k p next [] h = refl
  left_out-insert_absent w k p next ((j, q) ∷ previous) h =
      let (ne, rest) = lookup-none k j q previous h in
      ground (arith, lookup-insert dec k j p next, left_out-insert_absent w k p next previous rest)

  pub left_out-insert :
      (w : ℕ → ℕ) (k : K) (p : ℕ) (next previous : List (K × ℕ))
      → Distinct dec previous
      → left_out w (insert dec k p next) previous
          + if_missing (lookup dec k next) (weight_of w (lookup dec k previous))
        ≡ left_out w next previous
  unfolding lookup
  left_out-insert w k p next [] h = ground arith
  left_out-insert w k p next ((j, q) ∷ previous) h = elim (dec j k) [
    | yes e ↦ ground (
      arith,
      left_out-insert_absent w k p next previous,
      ap (λ x. lookup dec x previous) e,
      lookup-insert dec k j p next,
      ap (λ x. lookup dec x next) e,
    )
    | no ne ↦ ground (arith, left_out-insert w k p next previous h.1, lookup-insert dec k j p next)
  ]
