-- ===== src/Users/Restore/Count.antt =====
-- Traffic counted by a tracked state is pending for its user, modulo 2^64.
use ne_xt_server.Base.{ℕ, ◌+◌, ◌%◌, ◌^◌, ◌≡◌, refl, sym, ap, subst, ◌∙◌, ite, if_pos, if_neg, arith}
use ne_xt_server.Base.{All-mono}
use ne_xt_server.Base.Int.{ℤ, ℤ_discrete}
use ne_xt_server.Base.Sums.{put_same, put_ne, put_self, occurrences, sum_at}
use ne_xt_server.Users.State.{add_traffic, add64}
use ne_xt_server.Users.Table.{Table, modify}
use ne_xt_server.Users.Pending.{
  Direction, up, down, weight, tracked, pending, counter, IsBlank, IsValid,
}

-- The part of a transfer that a direction counts.
abbrev pub part : Direction → ℕ → ℕ → ℕ
part up a b = a
part down a b = b

module _ {L : Type 0} (t : Table L) (p a b : ℕ) where
  abbrev counted : Table L
  counted = modify t p (add_traffic a b)

  weight_counted :
      (d : Direction) (id : ℤ)
      → weight d id counted.states p
        ≡ (ite (ℤ_discrete (t.states p).id id) (add64 (counter d (t.states p)) (part d a b)) 0)
  weight_counted up id =
      ap (λ u. ite (ℤ_discrete u.id id) (u.upload) 0)
        (put_self t.states p (add_traffic a b (t.states p)))
  weight_counted down id =
      ap (λ u. ite (ℤ_discrete u.id id) (u.download) 0)
        (put_self t.states p (add_traffic a b (t.states p)))

  -- What a tracked state counts becomes pending for its user, and for nobody else.
  pub count_pending :
      (d : Direction) (id : ℤ)
      → occurrences p (tracked t) ≡ 1
      → pending d id counted % 2 ^ 64
        ≡ (pending d id t + ite (ℤ_discrete (t.states p).id id) (part d a b) 0) % 2 ^ 64
  unfolding pending
  count_pending d id once =
      let balance =
        sum_at (weight d id counted.states) (weight d id t.states) p (tracked t)
          (λ q ne.
            ap (λ u. ite (ℤ_discrete u.id id) (counter d u) 0)
              (put_ne t.states p (add_traffic a b (t.states p)) q ne))
          once in
      elim (ℤ_discrete (t.states p).id id) [
        | yes e ↦ omega (
          arith,
          balance,
          weight_counted d id,
          if_pos (ℤ_discrete (t.states p).id id) e (add64 (counter d (t.states p)) (part d a b)) 0,
          if_pos (ℤ_discrete (t.states p).id id) e (counter d (t.states p)) 0,
          if_pos (ℤ_discrete (t.states p).id id) e (part d a b) 0,
        )
        | no ne ↦ omega (
          arith,
          balance,
          weight_counted d id,
          if_neg (ℤ_discrete (t.states p).id id) ne (add64 (counter d (t.states p)) (part d a b)) 0,
          if_neg (ℤ_discrete (t.states p).id id) ne (counter d (t.states p)) 0,
          if_neg (ℤ_discrete (t.states p).id id) ne (part d a b) 0,
        )
      ]

  -- Counting keeps the table valid.
  pub count-IsValid : IsValid t → occurrences p (tracked t) ≡ 1 → IsValid counted
  count-IsValid v once = record {
    once = v.once;
    bounded = v.bounded;
    blank = λ q h.
        subst IsBlank
          (sym (
            put_ne t.states p (add_traffic a b (t.states p)) q
              (λ e. absurd (omega (arith, v.bounded q h, ap (λ r. occurrences r (tracked t)) e)))))
          (v.blank q h);
    distinct = v.distinct;
    served =
        All-mono t.current
          (λ e s. (
            put_same (λ u. u.id) t.states p (add_traffic a b (t.states p)) refl e.1 ∙ s.0,
            put_same (λ u. u.canceled) t.states p (add_traffic a b (t.states p)) refl e.1 ∙ s.1,
            s.2,
          ))
          v.served;
  }
