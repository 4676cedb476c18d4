-- ===== src/Base/Keys.antt =====
-- Maps without repeated keys.
use ne_xt_server.Base.{
  ◌≡◌, refl, subst, ◌∙◌, inl, inr, if_pos, if_neg, Bool, false, none, some, List, [], ◌∷◌, arith,
  Bool-cases, keep, All, All-mono,
}
use ne_xt_server.Base.Assoc.{lookup, insert, lookup-insert, lookup-keep-none}

module _ {ℓ} {K V : Type ℓ} (dec : Discrete K) where
  -- No key occurs twice.
  abbrev pub Distinct : List (K × V) → Type ℓ
  Distinct [] = Unit
  Distinct ((k, p) ∷ m) = (lookup dec k m ≡ none) × Distinct m

  pub insert-Distinct :
      (k : K) (p : V) (m : List (K × V)) → Distinct m → Distinct (insert dec k p m)
  unfolding insert lookup
  insert-Distinct k p [] h = (refl, tt)
  insert-Distinct k p ((j, q) ∷ m) h = elim (dec j k) [
    | yes e ↦ rw (if_pos _ e) h
    | no ne ↦
        rw (if_neg _ ne) (ground (arith, lookup-insert dec k j p m), insert-Distinct k p m h.1)
  ]

  -- Without repeated keys, a lookup finds each entry.
  pub Distinct-lookup : (m : List (K × V)) → Distinct m → All (λ e. lookup dec e.0 m ≡ some e.1) m
  unfolding lookup
  Distinct-lookup [] h = tt
  Distinct-lookup ((k, p) ∷ m) h = (
    if_pos (dec k k) refl _ _,
    All-mono m
        (λ e found. elim (dec k e.0) [
          | yes same ↦
              let gone : lookup dec e.0 m ≡ none = subst (λ x. lookup dec x m ≡ none) same h.0 in
              absurd (cc)
          | no ne ↦ if_neg (dec k e.0) ne (some p) _ ∙ found
        ])
        (Distinct-lookup m h.1),
  )

  -- What a filter does not keep is not found.
  pub lookup-keep_dropped :
      (f : K × V → Bool) (k : K) (v : V) (m : List (K × V))
      → Distinct m
      → lookup dec k m ≡ some v
      → f (k, v) ≡ false
      → lookup dec k (keep f m) ≡ none
  unfolding lookup
  lookup-keep_dropped f k v [] d h e = refl
  lookup-keep_dropped f k v ((j, w) ∷ m) d h e = elim (dec j k) [
    | yes same ↦
        let found : some w ≡ some v = rw (if_pos _ same) at h in
        let value : w ≡ v = cc in
        let fails : f (j, w) ≡ false = rw (same, value) e in
        rw fails (lookup-keep-none dec f k m (subst (λ x. lookup dec x m ≡ none) same d.0))
    | no ne ↦
        let rest : lookup dec k m ≡ some v = rw (if_neg _ ne) at h in
        elim (Bool-cases (f (j, w))) [
          | inl t ↦ rw (t, if_neg _ ne) (lookup-keep_dropped f k v m d.1 rest e)
          | inr t ↦ rw t (lookup-keep_dropped f k v m d.1 rest e)
        ]
  ]

  pub keep-Distinct : (f : K × V → Bool) (m : List (K × V)) → Distinct m → Distinct (keep f m)
  keep-Distinct f [] d = tt
  keep-Distinct f ((j, w) ∷ m) d = elim (Bool-cases (f (j, w))) [
    | inl t ↦ rw t (lookup-keep-none dec f j m d.0, keep-Distinct f m d.1)
    | inr t ↦ rw t (keep-Distinct f m d.1)
  ]
