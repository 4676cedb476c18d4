-- ===== src/Users/Collect/Loop.antt =====
-- The two loops of `collectTraffic` are one loop over the tracked states.
use ne_xt_server.Base.{
  ℕ, ◌+◌, ◌≤◌, ◌<◌, ◌≡◌, refl, sym, ap, subst, ◌∙◌, ite, Option, none, some, List, [], ◌∷◌, ◌++◌,
  arith, ℕ_discrete,
}
use ne_xt_server.Adapter.{UserTraffic}
use ne_xt_server.Base.Int.{ℤ, ℤ_discrete}
use ne_xt_server.Base.Sums.{put_same, put_ne, put_self, sum, occurrences, sum_off}
use ne_xt_server.Users.State.{UserState}
use ne_xt_server.Users.Table.{
  Table, modify, item_of, reset, add_item, collect_current, collect_retired,
}
use ne_xt_server.Users.Pending.{Direction, up, down, weight, counter, reported, IsBlank}

-- An item reports what its state counted.
reported-item_of :
    {L : Type 0} (d : Direction) (id : ℤ) (states : ℕ → UserState L) (p : ℕ)
    (items : List UserTraffic)
    → reported d id (add_item (item_of (states p)) items)
      ≡ weight d id states p + reported d id items
unfolding reported item_of
reported-item_of up id states p items = ground arith
reported-item_of down id states p items = ground arith

add_item-append :
    (o : Option UserTraffic) (xs ys : List UserTraffic)
    → add_item o (xs ++ ys) ≡ add_item o xs ++ ys
add_item-append none xs ys = refl
add_item-append (some x) xs ys = refl

module _ {L : Type 0} where
  -- The loop changes nothing but counts.
  pub collect_frame :
      (t : Table L) (ps : List ℕ)
      → let t' = (collect_current t ps).0 in
        (t'.next ≡ t.next) × (t'.current ≡ t.current) × (t'.retired ≡ t.retired)
  unfolding collect_current
  collect_frame t [] = (refl, refl, refl)
  collect_frame t (p ∷ ps) = collect_frame (modify t p reset) ps

  -- What `reset` keeps, the loop keeps.
  pub collect_same {κ} :
      {B : Type κ} (f : UserState L → B)
      → ((u : UserState L) → f (reset u) ≡ f u)
      → (t : Table L) (ps : List ℕ) (q : ℕ) → f ((collect_current t ps).0.states q) ≡ f (t.states q)
  unfolding collect_current
  collect_same f h t [] q = refl
  collect_same f h t (p ∷ ps) q =
      collect_same f h (modify t p reset) ps q
      ∙ put_same f t.states p (reset (t.states p)) (h (t.states p)) q

  -- The loop leaves the states alone that it does not visit.
  pub collect_other :
      (t : Table L) (ps : List ℕ) (q : ℕ)
      → occurrences q ps ≡ 0
      → (collect_current t ps).0.states q ≡ t.states q
  unfolding collect_current
  collect_other t [] q h = refl
  collect_other t (p ∷ ps) q h =
      collect_other (modify t p reset) ps q (omega arith)
      ∙ put_ne t.states p (reset (t.states p)) q (ground arith)

  reset-IsBlank :
      (t : Table L) (p q : ℕ) → IsBlank (t.states q) → IsBlank ((modify t p reset).states q)
  reset-IsBlank t p q h = ground arith

  pub collect-IsBlank :
      (t : Table L) (ps : List ℕ) (q : ℕ)
      → IsBlank (t.states q)
      → IsBlank ((collect_current t ps).0.states q)
  unfolding collect_current
  collect-IsBlank t [] q h = h
  collect-IsBlank t (p ∷ ps) q h = collect-IsBlank (modify t p reset) ps q (reset-IsBlank t p q h)

  -- Every state that the loop visits ends with nothing counted.
  pub collect_clears :
      (t : Table L) (ps : List ℕ) (q : ℕ)
      → 0 < occurrences q ps
      → IsBlank ((collect_current t ps).0.states q)
  unfolding collect_current
  collect_clears t [] q h = absurd (omega arith)
  collect_clears t (p ∷ ps) q h = elim (ℕ_discrete q p) [
    | yes e ↦ collect-IsBlank (modify t p reset) ps q (
        subst (λ r. IsBlank ((modify t p reset).states r)) (sym e)
          (
            ap (λ u. u.upload) (put_self t.states p (reset (t.states p))),
            ap (λ u. u.download) (put_self t.states p (reset (t.states p))),
          ))
    | no ne ↦ collect_clears (modify t p reset) ps q (ground arith)
  ]

  -- Over distinct states the items report what the states count.
  pub collect_sum :
      (d : Direction) (id : ℤ) (t : Table L) (ps : List ℕ)
      → ((q : ℕ) → occurrences q ps ≤ 1)
      → reported d id (collect_current t ps).1 ≡ sum (weight d id t.states) ps
  unfolding collect_current
  collect_sum d id t [] once = unfold reported in refl
  collect_sum d id t (p ∷ ps) once =
      let t' = modify t p reset in
      let rest = (collect_current t' ps).1 in
      let absent : occurrences p ps ≡ 0 = let h = once p in ground arith in
      omega (
        arith,
        reported-item_of d id t.states p rest,
        collect_sum d id t' ps (λ q. let h = once q in omega arith),
        sum_off (weight d id t'.states) (weight d id t.states) p ps
            (λ q ne.
              ap (λ u. ite (ℤ_discrete u.id id) (counter d u) 0)
                (put_ne t.states p (reset (t.states p)) q ne))
            absent,
      )

  pub collect-append :
      (t : Table L) (ps qs : List ℕ)
      → let (t', items) = collect_current t ps in
        ((collect_current t (ps ++ qs)).0 ≡ (collect_current t' qs).0)
        × ((collect_current t (ps ++ qs)).1 ≡ items ++ (collect_current t' qs).1)
  unfolding collect_current
  collect-append t [] qs = (refl, refl)
  collect-append t (p ∷ ps) qs =
      let (a, b) = collect-append (modify t p reset) ps qs in
      (
        a,
        ap (add_item (item_of (t.states p))) b
            ∙ add_item-append (item_of (t.states p)) (collect_current (modify t p reset) ps).1 _,
      )

  -- The loop over the retired users collects like the other one.
  pub collect_retired-current :
      (t : Table L) (ps : List ℕ)
      → ((collect_retired t ps).0 ≡ (collect_current t ps).0)
        × ((collect_retired t ps).1 ≡ (collect_current t ps).1)
  unfolding collect_retired collect_current
  collect_retired-current t [] = (refl, refl)
  collect_retired-current t (p ∷ ps) =
      let (a, b) = collect_retired-current (modify t p reset) ps in
      (a, ap (add_item (item_of (t.states p))) b)
