-- ===== src/Users/Collect/Report.antt =====
-- `collectTraffic` reports all that is pending, once, and keeps the table valid.
use ne_xt_server.Base.{
  ℕ, ◌≤◌, ◌<◌, ◌≡◌, refl, sym, ap, subst, ◌∙◌, Bool, not, ◌&&◌, ◌||◌, List, [], ◌∷◌, ◌++◌, arith,
  ℕ_discrete, ◌==◌, if◌then◌else◌, All,
}
use ne_xt_server.Adapter.{UserTraffic}
use ne_xt_server.Base.{All-mono}
use ne_xt_server.Base.Int.{ℤ, ℤ_discrete, is_positive}
use ne_xt_server.Base.Sums.{sum, values, occurrences, one_at, sum-append, put_ne}
use ne_xt_server.Users.State.{UserState}
use ne_xt_server.Users.Table.{
  Table, modify, reset, collect_current, collect_retired, collect_traffic,
}
use ne_xt_server.Users.Pending.{
  Direction, weight, weight_blank, tracked, pending, reported, IsBlank, IsServed, IsValid,
}
use ne_xt_server.Users.Collect.Loop.{
  collect_frame, collect_same, collect-IsBlank, collect_clears, collect_sum, collect-append,
  collect_retired-current, collect_other,
}

sum_zero : (w : ℕ → ℕ) (ps : List ℕ) → ((q : ℕ) → 0 < occurrences q ps → w q ≡ 0) → sum w ps ≡ 0
sum_zero w [] h = refl
sum_zero w (p ∷ ps) h = omega (arith, h p (ground arith), sum_zero w ps (λ q k. h q (omega arith)))

module _ {L : Type 0} where
  -- Who stays on the retired list was on it.
  kept-le : (w : ℕ → ℕ) (t : Table L) (ps : List ℕ) → sum w (collect_retired t ps).2 ≤ sum w ps
  unfolding collect_retired
  kept-le w t [] = omega arith
  kept-le w t (p ∷ ps) = ground (arith, kept-le w (modify t p reset) ps)

  -- A state that is still needed: it has something to report, or an open connection.
  abbrev pub is_needed : UserState L → Bool
  is_needed u = not (u.upload == 0 && u.download == 0) || is_positive u.active

  -- Of distinct states, those that are needed stay.
  kept_needed :
      (t : Table L) (ps : List ℕ) (q : ℕ)
      → occurrences q ps ≤ 1
      → occurrences q (collect_retired t ps).2
        ≡ (if is_needed (t.states q) then occurrences q ps else 0)
  unfolding collect_retired
  kept_needed t [] q once = ground arith
  kept_needed t (p ∷ ps) q once = elim (ℕ_discrete p q) [
    | yes e ↦
        subst
          (λ r.
            occurrences r (collect_retired t (p ∷ ps)).2
            ≡ (if is_needed (t.states r) then occurrences r (p ∷ ps) else 0))
          e
          (ground (
            arith,
            kept-le (one_at p) (modify t p reset) ps,
            subst (λ r. occurrences r (p ∷ ps) ≤ 1) (sym e) once,
          ))
    | no ne ↦
        ground
          (arith, kept_needed (modify t p reset) ps q, put_ne t.states p (reset (t.states p)) q ne)
  ]

  module _ (t : Table L) where
    abbrev visited : Table L × List UserTraffic
    visited = collect_current t (tracked t)

    abbrev pub after : Table L
    after = (collect_traffic t).0

    first : Table L
    first = (collect_current t (values ℤ_discrete t.current)).0

    first_retired : first.retired ≡ t.retired
    unfolding first
    first_retired = (collect_frame t (values ℤ_discrete t.current)).2

    same_store : (collect_retired first first.retired).0 ≡ visited.0
    unfolding first
    same_store =
        (collect_retired-current first first.retired).0
        ∙ ap (λ ps. (collect_current first ps).0) first_retired
        ∙ sym (collect-append t (values ℤ_discrete t.current) t.retired).0

    same_items : (collect_traffic t).1 ≡ visited.1
    unfolding collect_traffic first
    same_items =
        ap (λ items. (collect_current t (values ℤ_discrete t.current)).1 ++ items)
          ((collect_retired-current first first.retired).1
            ∙ ap (λ ps. (collect_current first ps).1) first_retired)
        ∙ sym (collect-append t (values ℤ_discrete t.current) t.retired).1

    pub after_states : after.states ≡ visited.0.states
    unfolding collect_traffic first
    after_states = ap (λ x. x.states) same_store

    -- A report changes no connection.
    pub after_active : (q : ℕ) → (after.states q).active ≡ (t.states q).active
    after_active q =
        ap (λ x. (x q).active) after_states
        ∙ collect_same (λ u. u.active) (λ u. refl) t (tracked t) q

    pub after_frame : (after.next ≡ t.next) × (after.current ≡ t.current)
    unfolding collect_traffic first
    after_frame =
        let (n, c, r) = collect_frame t (tracked t) in
        (ap (λ x. x.next) same_store ∙ n, ap (λ x. x.current) same_store ∙ c)

    after-tracked : (w : ℕ → ℕ) → sum w (tracked after) ≤ sum w (tracked t)
    unfolding collect_traffic first
    after-tracked w = omega (
      arith,
      sum-append w (values ℤ_discrete after.current) after.retired,
      sum-append w (values ℤ_discrete t.current) t.retired,
      ap (λ m. sum w (values ℤ_discrete m)) after_frame.1,
      ap (sum w) first_retired,
      kept-le w first first.retired,
    )

    after_clear : (q : ℕ) → 0 < occurrences q (tracked t) → IsBlank (after.states q)
    after_clear q h =
        subst (λ s. IsBlank (s q)) (sym after_states) (collect_clears t (tracked t) q h)

    -- The items report, for every user and in both directions, exactly what was pending, and nothing
    -- is pending afterwards.
    pub collect_reports :
        (d : Direction) (id : ℤ)
        → IsValid t
        → (reported d id (collect_traffic t).1 ≡ pending d id t) × (pending d id after ≡ 0)
    unfolding pending
    collect_reports d id v = (
      ap (reported d id) same_items ∙ collect_sum d id t (tracked t) v.once,
      sum_zero (weight d id after.states) (tracked after) (λ q h.
          weight_blank d id after.states q
            (after_clear q (omega (arith, after-tracked (one_at q))))),
    )

    -- `collectTraffic` keeps the table valid.
    pub collect-IsValid : IsValid t → IsValid after
    collect-IsValid v = record {
      once = λ q. omega (arith, v.once q, after-tracked (one_at q));
      bounded = λ q h.
          omega (arith, v.bounded q (omega (arith, after_frame.0)), after-tracked (one_at q));
      blank = λ q h.
          subst (λ s. IsBlank (s q)) (sym after_states)
            (collect-IsBlank t (tracked t) q (v.blank q (omega (arith, after_frame.0))));
      distinct = rw (after_frame.1) v.distinct;
      served = subst (All (IsServed after)) (sym after_frame.1) (
          All-mono t.current
            (λ e s. (
              ap (λ x. (x e.1).id) after_states
                  ∙ collect_same (λ u. u.id) (λ u. refl) t (tracked t) e.1
                  ∙ s.0,
              ap (λ x. (x e.1).canceled) after_states
                  ∙ collect_same (λ u. u.canceled) (λ u. refl) t (tracked t) e.1
                  ∙ s.1,
              omega (arith, after_frame.0),
            ))
            v.served);
    }

    -- A retired state stays exactly if it had something to report or has an open connection; else it
    -- is dropped.
    pub collect_keeps :
        (q : ℕ)
        → IsValid t
        → 0 < occurrences q t.retired
        → occurrences q after.retired ≡ (if is_needed (t.states q) then 1 else 0)
    unfolding collect_traffic first
    collect_keeps q v listed =
        let alone = sum-append (one_at q) (values ℤ_discrete t.current) t.retired in
        let once = v.once q in
        let unvisited : first.states q ≡ t.states q =
          collect_other t (values ℤ_discrete t.current) q (omega (arith, alone)) in
        ground (
          arith,
          alone,
          unvisited,
          ap (occurrences q) first_retired,
          kept_needed first first.retired q,
        )
