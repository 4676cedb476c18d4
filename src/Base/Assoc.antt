-- ===== src/Base/Assoc.antt =====
-- Go's maps as association lists without repeated keys. The order of the list stands for the
-- order of a `range` loop, which Go leaves open.
use mathlib.Core.Path.{◌≡◌, refl, sym, subst}
use mathlib.Core.Logic.{ite, if_pos, if_neg}
use mathlib.Core.Option.{Option, none, some}
use mathlib.Core.List.{List, [], ◌∷◌}
use mathlib.Core.Bool.{Bool, true}
use mathlib.Core.Logic.{inl, inr}
use ne_xt_server.Base.Tests.{Bool-cases}
use ne_xt_server.Base.Lists.{All, keep}
use native.Mathlib.Omega.{arith}

module _ {ℓ} {K V : Type ℓ} (dec : Discrete K) where
  -- `m[k]`, with `none` for a missing key.
  unfoldable pub lookup : K → List (K × V) → Option V
  lookup k [] = none
  lookup k ((j, v) ∷ m) = ite (dec j k) (some v) (lookup k m)

  -- `m[k] = v`
  unfoldable pub insert : K → V → List (K × V) → List (K × V)
  insert k v [] = (k, v) ∷ []
  insert k v ((j, w) ∷ m) = ite (dec j k) ((j, v) ∷ m) ((j, w) ∷ insert k v m)

  pub lookup-insert :
      (k j : K) (v : V) (m : List (K × V))
      → lookup j (insert k v m) ≡ ite (dec k j) (some v) (lookup j m)
  unfolding lookup insert
  lookup-insert k j v [] = refl
  lookup-insert k j v ((i, w) ∷ m) = ground (arith, lookup-insert k j v m)

  -- An entry that a lookup finds has what all entries have, and an insertion keeps it.
  pub lookup_All {μ} :
      (P : K × V → Type μ) (k : K) (v : V) (m : List (K × V))
      → All P m
      → lookup k m ≡ some v
      → P (k, v)
  unfolding lookup
  lookup_All P k v [] h e = absurd (cc)
  lookup_All P k v ((j, w) ∷ m) h e = elim (dec j k) [
    | yes same ↦
        let found : some w ≡ some v = rw (if_pos _ same) at e in
        let same_value : w ≡ v = cc in
        subst (λ x. P (x, v)) same (subst (λ y. P (j, y)) same_value h.0)
    | no ne ↦ lookup_All P k v m h.1 (ground arith)
  ]

  pub insert_All {μ} :
      (P : K × V → Type μ) (k : K) (v : V) (m : List (K × V))
      → P (k, v)
      → All P m
      → All P (insert k v m)
  unfolding insert
  insert_All P k v [] p h = (p, tt)
  insert_All P k v ((j, w) ∷ m) p h = elim (dec j k) [
    | yes same ↦ rw (if_pos _ same) (subst (λ x. P (x, v)) (sym same) p, h.1)
    | no ne ↦ rw (if_neg _ ne) (h.0, insert_All P k v m p h.1)
  ]

  -- What a filter keeps of a map.
  pub lookup-keep :
      (f : K × V → Bool) (k : K) (v : V) (m : List (K × V))
      → lookup k m ≡ some v
      → f (k, v) ≡ true
      → lookup k (keep f m) ≡ some v
  unfolding lookup
  lookup-keep f k v [] h e = absurd (cc)
  lookup-keep f k v ((j, w) ∷ m) h e = elim (dec j k) [
    | yes same ↦
        let found : some w ≡ some v = rw (if_pos _ same) at h in
        let value : w ≡ v = cc in
        let passes : f (j, w) ≡ true = rw (same, value) e in rw (passes, if_pos _ same) found
    | no ne ↦
        let rest : lookup k m ≡ some v = rw (if_neg _ ne) at h in
        elim (Bool-cases (f (j, w))) [
          | inl t ↦ rw (t, if_neg _ ne) (lookup-keep f k v m rest e)
          | inr t ↦ rw t (lookup-keep f k v m rest e)
        ]
  ]

  pub lookup-keep-none :
      (f : K × V → Bool) (k : K) (m : List (K × V)) → lookup k m ≡ none → lookup k (keep f m) ≡ none
  unfolding lookup
  lookup-keep-none f k [] h = refl
  lookup-keep-none f k ((j, w) ∷ m) h = elim (dec j k) [
    | yes same ↦ let gone : some w ≡ none = rw (if_pos _ same) at h in absurd (cc gone)
    | no ne ↦
        let rest : lookup k m ≡ none = rw (if_neg _ ne) at h in
        elim (Bool-cases (f (j, w))) [
          | inl t ↦ rw (t, if_neg _ ne) (lookup-keep-none f k m rest)
          | inr t ↦ rw t (lookup-keep-none f k m rest)
        ]
  ]
