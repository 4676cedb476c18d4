-- ===== src/Users/Atomic/Restoring.antt =====
-- The step of `restoreTraffic` that looks for a state under the mutex keeps the account.
use ne_xt_server.Users.Atomic.{World, missing, push_step}
use ne_xt_server.Users.Atomic.Frame.{IsMade, IsOwned, Extends-Grows, grown-IsOwned, grown-IsPulled}
use ne_xt_server.Users.Atomic.Account.{held, counted-Extends}
use ne_xt_server.Users.Atomic.Pushing.{Keeps}
use ne_xt_server.Adapter.{UserTraffic}
use ne_xt_server.Base.Int.{ℤ, ℤ_discrete}
use ne_xt_server.Base.Sums.{put_ne, put_self, put_same}
use ne_xt_server.Users.State.{new_user_state, cancel}
use ne_xt_server.Users.Pending.{IsBlank, Extends, Extends-IsBlank, Extends-refl}
use ne_xt_server.Users.Table.{Table, find_retired, retired_for, revive, allocate}
use ne_xt_server.Base.{
  ℕ, ◌≤◌, ◌<◌, ◌+◌, ◌≡◌, refl, sym, ap, subst, Option, none, some, List, [], ◌∷◌, arith, All,
  All-append, All-mono, if_pos, if_neg,
}

module _ {L : Type 0} where
  find_retired-IsOwned :
      (t : Table L) (id : ℤ) (ps : List ℕ) (p : ℕ)
      → All (IsMade t) ps
      → find_retired t.states id ps ≡ some p
      → IsOwned t (id, p)
  unfolding find_retired
  find_retired-IsOwned t id [] p h e = absurd (cc e)
  find_retired-IsOwned t id (q ∷ ps) p (made, h) e = elim (ℤ_discrete (t.states q).id id) [
    | yes same ↦
        let here : some q ≡ some p = rw (if_pos _ same) at e in
        let it : q ≡ p = cc in subst (λ r. IsOwned t (id, r)) it (same, made)
    | no ne ↦ find_retired-IsOwned t id ps p h (rw (if_neg _ ne) at e)
  ]

  -- What looking for a state to restore to does to the table.
  record Finds (t t' : Table L) (id : ℤ) (p : ℕ) : Type 0 where
    extends : Extends t t'
    owned : IsOwned t' (id, p)
    retired : All (IsMade t') t'.retired
    current : t'.current ≡ t.current

  revive-Finds :
      (t : Table L) (id : ℤ)
      → ((p : ℕ) → t.next ≤ p → IsBlank (t.states p))
      → All (IsMade t) t.retired
      → Finds t (revive t id).0 id (revive t id).1
  unfolding revive allocate new_user_state
  revive-Finds t id blank made =
      let u = cancel (new_user_state id) in
      let (a, b) = blank t.next (omega arith) in
      record {
        extends = record {
          grown = omega arith;
          same_upload = put_same (λ v. v.upload) t.states t.next u (sym a);
          same_download = put_same (λ v. v.download) t.states t.next u (sym b);
          same_id = λ q h. ap (λ v. v.id) (put_ne t.states t.next u q (omega arith));
        };
        owned = (ap (λ v. v.id) (put_self t.states t.next u), omega arith);
        retired =
            All-append (λ p. p < t.next + 1) t.retired (t.next ∷ [])
              (All-mono t.retired (λ p h. omega arith) made) (omega arith, tt);
        current = refl;
      }

  retired_for-Finds :
      (t : Table L) (id : ℤ) (o : Option ℕ)
      → ((p : ℕ) → t.next ≤ p → IsBlank (t.states p))
      → All (IsMade t) t.retired
      → find_retired t.states id t.retired ≡ o
      → Finds t (retired_for t id o).0 id (retired_for t id o).1
  unfolding retired_for
  retired_for-Finds t id none blank made e = revive-Finds t id blank made
  retired_for-Finds t id (some p) blank made e = record {
    extends = Extends-refl t;
    owned = find_retired-IsOwned t id t.retired p made e;
    retired = made;
    current = refl;
  }

  pub missing-Keeps :
      (w : World L) (item : UserTraffic) (items : List UserTraffic)
      → w.phase ≡ missing item items
      → Keeps w
      → Keeps (push_step w (missing item items))
  unfolding push_step
  missing-Keeps w item items e k =
      let t = w.table in
      let o = find_retired t.states item.user_id t.retired in
      let t' = (retired_for t item.user_id o).0 in
      let p = (retired_for t item.user_id o).1 in
      let x = retired_for-Finds t item.user_id o k.frame.blank k.frame.retired refl in
      let g = Extends-Grows t t' x.extends in
      record {
        frame = record {
          blank = Extends-IsBlank t t' x.extends k.frame.blank;
          current =
              subst (All (IsOwned t')) (sym x.current)
                (All-mono t.current (grown-IsOwned t t' g) k.frame.current);
          retired = x.retired;
          bounded = x.owned;
          pulled = grown-IsPulled t t' g w.pulling k.frame.pulled;
        };
        balance = λ d id. omega (
          arith,
          k.balance d id,
          ap (held d id w.table) e,
          counted-Extends d id t t' x.extends k.frame.blank,
        );
      }
