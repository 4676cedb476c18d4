-- ===== src/Users/Restore/Find.antt =====
-- The state that `restoreTraffic` puts an item back into.
use ne_xt_server.Base.{
  ℕ, ◌+◌, ◌%◌, ◌^◌, ◌<◌, ◌≡◌, refl, sym, ap, subst, ◌∙◌, ite, if_pos, Option, none, some, List, [],
  ◌∷◌, ◌++◌, arith,
}
use ne_xt_server.Adapter.{UserTraffic}
use ne_xt_server.Base.{All-mono}
use ne_xt_server.Base.Int.{ℤ, ℤ_discrete}
use ne_xt_server.Base.Assoc.{lookup, lookup_All}
use ne_xt_server.Base.Sums.{put_ne, put_self, sum, values, occurrences, one_at, sum-append, sum_off}
use ne_xt_server.Users.State.{UserState, new_user_state, cancel}
use ne_xt_server.Users.Table.{
  Table, get, find_retired, revive, retired_for, state_to_restore, restore_item, restore_traffic,
}
use ne_xt_server.Users.Pending.{
  Direction, up, down, weight, weight_blank, tracked, pending, counter, IsBlank, IsServed, IsValid,
  reported, reported_item, amount,
}
use ne_xt_server.Users.Restore.Count.{part, count_pending, count-IsValid}

pub lookup_occurs :
    (k : ℤ) (p : ℕ) (m : List (ℤ × ℕ))
    → lookup ℤ_discrete k m ≡ some p
    → 0 < occurrences p (values ℤ_discrete m)
unfolding lookup
lookup_occurs k p [] h = absurd (cc h)
lookup_occurs k p ((j, q) ∷ m) h = ground (arith, lookup_occurs k p m)

tracked_push :
    (w : ℕ → ℕ) (m : List (ℤ × ℕ)) (rs : List ℕ) (p : ℕ)
    → sum w (values ℤ_discrete m ++ (rs ++ p ∷ [])) ≡ sum w (values ℤ_discrete m ++ rs) + w p
tracked_push w m rs p = omega (
  arith,
  sum-append w (values ℤ_discrete m) (rs ++ p ∷ []),
  sum-append w (values ℤ_discrete m) rs,
  sum-append w rs (p ∷ []),
)

pub part-amount :
    (d : Direction) (item : UserTraffic) → part d item.upload item.download ≡ amount d item
part-amount up item = refl
part-amount down item = refl

module _ {L : Type 0} where
  find_retired_lem :
      (states : ℕ → UserState L) (id : ℤ) (ps : List ℕ) (p : ℕ)
      → find_retired states id ps ≡ some p
      → ((states p).id ≡ id) × (0 < occurrences p ps)
  unfolding find_retired
  find_retired_lem states id [] p h = absurd (cc h)
  find_retired_lem states id (q ∷ ps) p h = elim (ℤ_discrete (states q).id id) [
    | yes e ↦
        let same : some q ≡ some p =
          rw (if_pos (ℤ_discrete (states q).id id) e (some q) (find_retired states id ps)) at h in
        let pq : q ≡ p = cc in (subst (λ r. (states r).id ≡ id) pq e, ground arith)
    | no ne ↦ let (a, b) = find_retired_lem states id ps p (ground arith) in (a, omega arith)
  ]

  -- A state for the ID, tracked once, in a valid table with the same traffic pending.
  pub record Restores (t : Table L) (id : ℤ) (r : Table L × ℕ) : Type 0 where
    pub valid : IsValid (r.0)
    pub owner : (r.0.states r.1).id ≡ id
    pub once : occurrences (r.1) (tracked r.0) ≡ 1
    pub same : (d : Direction) (j : ℤ) → pending d j r.0 ≡ pending d j t

  revive-Restores : (t : Table L) (id : ℤ) → IsValid t → Restores t id (revive t id)
  unfolding revive pending
  revive-Restores t id v =
      let fresh : UserState L = cancel (new_user_state id) in
      let at = put_self t.states t.next fresh in
      let other = put_ne t.states t.next fresh in
      let r = revive t id in
      record {
        valid = record {
          once = λ q.
              ground
                (arith, v.once q, v.bounded q, tracked_push (one_at q) t.current t.retired t.next);
          bounded = λ q h. ground (
            arith,
            v.bounded q (omega arith),
            tracked_push (one_at q) t.current t.retired t.next,
          );
          blank = λ q h. subst IsBlank (sym (other q (omega arith))) (v.blank q (omega arith));
          distinct = v.distinct;
          served =
              All-mono t.current
                (λ e s.
                  let same = other e.1 (omega (arith, s.2)) in
                  (ap (λ u. u.id) same ∙ s.0, ap (λ u. u.canceled) same ∙ s.1, omega (arith, s.2)))
                v.served;
        };
        owner = ap (λ u. u.id) at;
        once = ground (
          arith,
          v.bounded t.next (omega arith),
          tracked_push (one_at t.next) t.current t.retired t.next,
        );
        same = λ d j. omega (
          arith,
          tracked_push (weight d j r.0.states) t.current t.retired t.next,
          weight_blank d j r.0.states t.next (ap (λ u. u.upload) at, ap (λ u. u.download) at),
          sum_off (weight d j r.0.states) (weight d j t.states) t.next (tracked t)
              (λ q ne. ap (λ u. ite (ℤ_discrete u.id j) (counter d u) 0) (other q ne))
              (v.bounded t.next (omega arith)),
        );
      }

  same-Restores :
      (t : Table L) (id : ℤ) (p : ℕ)
      → IsValid t
      → (t.states p).id ≡ id
      → 0 < occurrences p (tracked t)
      → Restores t id (t, p)
  same-Restores t id p v own h = record {
    valid = v;
    owner = own;
    once = omega (arith, v.once p);
    same = λ d j. refl;
  }

  retired-Restores :
      (t : Table L) (id : ℤ) (o : Option ℕ)
      → IsValid t
      → find_retired t.states id t.retired ≡ o
      → Restores t id (retired_for t id o)
  unfolding retired_for
  retired-Restores t id none v e = revive-Restores t id v
  retired-Restores t id (some p) v e =
      let (own, found) = find_retired_lem t.states id t.retired p e in
      same-Restores t id p v own
        (omega (arith, sum-append (one_at p) (values ℤ_discrete t.current) t.retired))

  pub state-Restores :
      (t : Table L) (id : ℤ) (o : Option ℕ)
      → IsValid t
      → get t id ≡ o
      → Restores t id (state_to_restore t id o)
  unfolding state_to_restore get
  state-Restores t id none v e = retired-Restores t id _ v refl
  state-Restores t id (some p) v e =
      same-Restores t id p v (lookup_All ℤ_discrete (IsServed t) id p t.current v.served e).0 (
        omega (
          arith,
          lookup_occurs id p t.current e,
          sum-append (one_at p) (values ℤ_discrete t.current) t.retired,
        ))

  -- One item: what it reports becomes pending, for its user.
  restore_item_lem :
      (t : Table L) (item : UserTraffic)
      → IsValid t
      → IsValid (restore_item t item)
        × ((d : Direction) (id : ℤ)
            → pending d id (restore_item t item) % 2 ^ 64
              ≡ (pending d id t + reported_item d id item) % 2 ^ 64)
  unfolding restore_item
  restore_item_lem t item v =
      let r = state_to_restore t item.user_id (get t item.user_id) in
      let found = state-Restores t item.user_id (get t item.user_id) v refl in
      (
        count-IsValid r.0 r.1 item.upload item.download found.valid found.once,
        λ d id.
            count_pending r.0 r.1 item.upload item.download d id found.once
            ∙ omega (
              arith,
              found.same d id,
              ap (λ j. ite (ℤ_discrete j id) (part d item.upload item.download) 0) found.owner,
              ap (λ n. ite (ℤ_discrete item.user_id id) n 0) (part-amount d item),
            ),
      )

  -- `restoreTraffic` keeps the table valid.
  pub restore-IsValid :
      (t : Table L) (items : List UserTraffic) → IsValid t → IsValid (restore_traffic t items)
  unfolding restore_traffic
  restore-IsValid t [] v = v
  restore-IsValid t (item ∷ items) v =
      restore-IsValid (restore_item t item) items (restore_item_lem t item v).0

  -- For every user and in both directions, what the items report is added to what is pending, whether
  -- the user is served, retired or forgotten (modulo 2^64, the range of the counters).
  pub restore_pending :
      (t : Table L) (items : List UserTraffic) (d : Direction) (id : ℤ)
      → IsValid t
      → pending d id (restore_traffic t items) % 2 ^ 64
        ≡ (pending d id t + reported d id items) % 2 ^ 64
  unfolding restore_traffic reported
  restore_pending t [] d id v = omega arith
  restore_pending t (item ∷ items) d id v =
      let (valid, one) = restore_item_lem t item v in
      omega (arith, restore_pending (restore_item t item) items d id valid, one d id)
