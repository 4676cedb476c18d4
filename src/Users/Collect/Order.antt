-- ===== src/Users/Collect/Order.antt =====
-- Go visits a map in any order: `collectTraffic` does the same whatever the order.
use ne_xt_server.Base.Int.{ℤ, ℤ_discrete, is_positive}
use ne_xt_server.Base.Sums.{values, put_ne}
use ne_xt_server.Adapter.{UserTraffic}
use ne_xt_server.Users.State.{UserState, active_connections}
use ne_xt_server.Users.Table.{
  Table, modify, collect_current, collect_retired, collect_traffic, item_of, add_item, reset,
  is_some,
}
use ne_xt_server.Base.{
  ℕ, ◌≡◌, refl, sym, ap, ◌∙◌, subst, ◌≢◌, Option, none, some, List, [], ◌∷◌, ◌++◌, ℕ_discrete,
  arith, ◌||◌, if◌then◌else◌,
}
use mathlib.Core.List.{Permᴰ}
use mathlib.Core.Path.{fun_ext}
use mathlib.Core.List.Permᴰ

-- The same table, with its map in another order.
abbrev pub reordered : {L : Type 0} → Table L → List (ℤ × ℕ) → Table L
reordered t n = record t { current = n }

add_item-Permᴰ :
    (o : Option UserTraffic) (xs ys : List UserTraffic)
    → Permᴰ xs ys
    → Permᴰ (add_item o xs) (add_item o ys)
add_item-Permᴰ none xs ys h = h
add_item-Permᴰ (some x) xs ys h = Permᴰ.cons refl h

add_item_swap :
    (o o' : Option UserTraffic) (xs : List UserTraffic)
    → Permᴰ (add_item o (add_item o' xs)) (add_item o' (add_item o xs))
add_item_swap none o' xs = Permᴰ.refl _
add_item_swap (some x) none xs = Permᴰ.refl _
add_item_swap (some x) (some y) xs = Permᴰ.swap refl refl

module _ {L : Type 0} where
  pub modify_comm :
      (t : Table L) (p q : ℕ) (f : UserState L → UserState L)
      → p ≢ q
      → modify (modify t p f) q f ≡ modify (modify t q f) p f
  modify_comm t p q f ne = ap (λ s. record t { states = s }) (fun_ext (λ r. ground arith))

  -- What two orders of a visit leave and report.
  abbrev SameReport : Table L → List ℕ → List ℕ → Type 0
  SameReport t ps qs =
      ((collect_current t ps).0 ≡ (collect_current t qs).0)
      × Permᴰ (collect_current t ps).1 (collect_current t qs).1

  collect_two :
      (t : Table L) (p q : ℕ) (ps : List ℕ)
      → p ≢ q
      → (collect_current t (p ∷ q ∷ ps)).1
        ≡ add_item (item_of (t.states p)) (
            add_item
              (item_of (t.states q))
              (collect_current (modify (modify t p reset) q reset) ps).1)
  unfolding collect_current
  collect_two t p q ps ne =
      ap
        (λ u.
          add_item (item_of (t.states p))
            (add_item (item_of u) (collect_current (modify (modify t p reset) q reset) ps).1))
        (put_ne t.states p (reset (t.states p)) q ne)

  collect_swap : (t : Table L) (p q : ℕ) (ps : List ℕ) → SameReport t (p ∷ q ∷ ps) (q ∷ p ∷ ps)
  unfolding collect_current
  collect_swap t p q ps = elim (ℕ_discrete p q) [
    | yes e ↦ subst (λ r. SameReport t (p ∷ r ∷ ps) (r ∷ p ∷ ps)) e (refl, Permᴰ.refl _)
    | no ne ↦
        let c = modify_comm t p q reset ne in
        let o = item_of (t.states p) in
        let o' = item_of (t.states q) in
        let first_p =
          collect_two t p q ps ne ∙ ap (λ x. add_item o (add_item o' (collect_current x ps).1)) c in
        let first_q = collect_two t q p ps (λ e. ne (sym e)) in
        (
          ap (λ x. (collect_current x ps).0) c,
          subst (λ xs. Permᴰ xs (collect_current t (q ∷ p ∷ ps)).1) (sym first_p)
              (subst (Permᴰ (add_item o (add_item o' _))) (sym first_q) (add_item_swap o o' _)),
        )
  ]

  collect_current_order :
      {m n : List (ℤ × ℕ)}
      → Permᴰ m n
      → (t : Table L) → SameReport t (values ℤ_discrete m) (values ℤ_discrete n)
  unfolding collect_current
  collect_current_order Permᴰ.nil t = (refl, Permᴰ.nil)
  collect_current_order (Permᴰ.cons {a} {b} {l₁} {l₂} e h) t =
      subst (λ c. SameReport t (values ℤ_discrete (a ∷ l₁)) (values ℤ_discrete (c ∷ l₂))) e
        (let (same, items) = collect_current_order h (modify t a.1 reset) in
          (same, add_item-Permᴰ (item_of (t.states a.1)) _ _ items))
  collect_current_order (Permᴰ.swap {a} {b} {a'} {b'} {l} e e') t =
      subst (λ c. SameReport t (values ℤ_discrete (a ∷ b ∷ l)) (values ℤ_discrete (a' ∷ c ∷ l))) e
        (subst (λ c. SameReport t (values ℤ_discrete (a ∷ b ∷ l)) (values ℤ_discrete (c ∷ a ∷ l)))
          e' (collect_swap t a.1 b.1 (values ℤ_discrete l)))
  collect_current_order (Permᴰ.trans h k) t =
      let (same, items) = collect_current_order h t in
      let (same', items') = collect_current_order k t in (same ∙ same', Permᴰ.trans items items')

  -- The loops do not look at the map, only at the states.
  collect_current-reordered :
      (t : Table L) (n : List (ℤ × ℕ)) (ps : List ℕ)
      → collect_current (reordered t n) ps
        ≡ (reordered (collect_current t ps).0 n, (collect_current t ps).1)
  unfolding collect_current
  collect_current-reordered t n [] = refl
  collect_current-reordered t n (p ∷ ps) =
      ap (λ r. (r.0, add_item (item_of (t.states p)) r.1))
        (collect_current-reordered (modify t p reset) n ps)

  collect_retired-reordered :
      (t : Table L) (n : List (ℤ × ℕ)) (ps : List ℕ)
      → collect_retired (reordered t n) ps
        ≡ (reordered (collect_retired t ps).0 n, (collect_retired t ps).1, (collect_retired t ps).2)
  unfolding collect_retired
  collect_retired-reordered t n [] = refl
  collect_retired-reordered t n (p ∷ ps) =
      let u = t.states p in
      ap
        (λ r. (
          r.0,
          add_item (item_of u) r.1,
          if is_some (item_of u) || is_positive (active_connections u) then p ∷ r.2 else r.2,
        ))
        (collect_retired-reordered (modify t p reset) n ps)

  -- What the second loop makes of what the first left and reported.
  abbrev with_retired : Table L × List UserTraffic → Table L × List UserTraffic
  with_retired r =
      let (t', more, kept) = collect_retired r.0 r.0.retired in
      (record t' { retired = kept }, r.1 ++ more)

  collect_traffic_parts :
      (t : Table L) (n : List (ℤ × ℕ))
      → let r = with_retired (collect_current t (values ℤ_discrete n)) in
        collect_traffic (reordered t n) ≡ (reordered r.0 n, r.1)
  unfolding collect_traffic
  collect_traffic_parts t n =
      let r = collect_current t (values ℤ_discrete n) in
      ap with_retired (collect_current-reordered t n (values ℤ_discrete n))
      ∙ ap (λ q. (record (q.0) { retired = q.2 }, r.1 ++ q.1))
          (collect_retired-reordered r.0 n r.0.retired)

  -- If Go visits the users in another order, `collectTraffic` reports the same items in some order,
  -- and leaves the same table, up to the order of the users.
  pub collect_traffic_order :
      (t : Table L) (n : List (ℤ × ℕ))
      → Permᴰ t.current n
      → let (t', items) = collect_traffic t in
        let (t'', items') = collect_traffic (reordered t n) in
        (t'' ≡ reordered t' n) × Permᴰ items items'
  unfolding collect_traffic
  collect_traffic_order t n h =
      let (same, items) = collect_current_order h t in
      let r = collect_current t (values ℤ_discrete t.current) in
      let r' = collect_current t (values ℤ_discrete n) in
      let more = (collect_retired r.0 r.0.retired).1 in
      let parts = collect_traffic_parts t n in
      (
        ap (λ x. x.0) parts ∙ sym (ap (λ x. reordered (with_retired (x, [])).0 n) same),
        subst (Permᴰ (r.1 ++ more)) (sym (ap (λ x. x.1) parts)) (
            subst (λ x. Permᴰ (r.1 ++ more) (r'.1 ++ (collect_retired x x.retired).1)) same
              (Permᴰ.append_right more items)),
      )
