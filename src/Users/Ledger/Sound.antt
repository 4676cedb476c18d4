-- ===== src/Users/Ledger/Sound.antt =====
-- The invariant of the users' table under the program's own steps, in which a connection begins only
-- in a state that the table tracks.
use ne_xt_server.Base.Sums.{put_self, put_ne}
use ne_xt_server.Users.Ledger.Stays.{stays}
use ne_xt_server.Users.Ledger.Quiet.{collect-Quiet, update-Quiet, restore-Quiet, modify-Quiet}
use ne_xt_server.Users.Ledger.Balance.{KeepsAccount, start-Balances, modify-IsValid, open_keeps}
use ne_xt_server.Base.{ℕ, zero, suc, ◌<◌, ◌≡◌, refl, sym, subst, true, List, [], arith, ℕ_discrete}
use ne_xt_server.Base.Int.{ℤ, pos, negsuc, pred_ℤ, is_positive}
use ne_xt_server.Users.State.{close_connection, online_ips}
use ne_xt_server.Users.Ledger.{
  collect, failed, Ledger, start, Table, LimiterOps, UserState, User, IsValid, UserTraffic,
  occurrences, collect_traffic, Addr, tracked, collect-IsValid, update, restore_traffic,
  restore-IsValid, update-IsValid, modify, open_connection, add_traffic, count-IsValid, pull,
}

-- A valid table that tracks every state with an open connection.
pub record IsSound {L : Type 0} (t : Table L) : Type 0 where
  pub valid : IsValid t
  pub tracks : (q : ℕ) → is_positive (t.states q).active ≡ true → 0 < occurrences q (tracked t)

pub start-IsSound : {L : Type 0} → IsSound (start {L = L}).table
unfolding start
start-IsSound = record {
  valid = unfold start in start-Balances.valid;
  tracks = λ q busy. absurd (cc busy);
}

pred_positive : (a : ℤ) → is_positive (pred_ℤ a) ≡ true → is_positive a ≡ true
pred_positive (pos zero) h = absurd (cc h)
pred_positive (pos (suc n)) h = refl
pred_positive (negsuc n) h = absurd (cc h)

module _ {L : Type 0} where
  -- A step that keeps one state's account and begins no connection.
  pub modify-IsSound :
      (t : Table L) (p : ℕ) (f : UserState L → UserState L)
      → KeepsAccount (t.states p) (f (t.states p))
      → (is_positive (f (t.states p)).active ≡ true → is_positive (t.states p).active ≡ true)
      → IsSound t
      → IsSound (modify t p f)
  modify-IsSound t p f k quiet s = record {
    valid = modify-IsValid t p f k s.valid;
    tracks = λ q busy. elim (ℕ_discrete p q) [
      | yes e ↦ s.tracks q (
          subst (λ r. is_positive (t.states r).active ≡ true) e
            (quiet (
              rw (sym (put_self t.states p (f (t.states p))))
                (subst (λ r. is_positive ((modify t p f).states r).active ≡ true) (sym e) busy))))
      | no ne ↦ s.tracks q (rw (sym (put_ne t.states p (f (t.states p)) q ne)) busy)
    ];
  }

  -- A connection begins in a tracked state.
  pub connect-IsSound :
      (t : Table L) (p : ℕ) (address : Addr) (now : ℕ)
      → 0 < occurrences p (tracked t)
      → IsSound t
      → IsSound (modify t p (λ u. (open_connection u address now).0))
  connect-IsSound t p address now h s = record {
    valid =
        modify-IsValid t p (λ u. (open_connection u address now).0)
          (open_keeps (t.states p) address now) s.valid;
    tracks = λ q busy. elim (ℕ_discrete p q) [
      | yes e ↦ subst (λ r. 0 < occurrences r (tracked t)) e h
      | no ne ↦
          s.tracks q
            (rw (sym (put_ne t.states p (open_connection (t.states p) address now).0 q ne)) busy)
    ];
  }

  pub disconnect-IsSound :
      (t : Table L) (p activity now : ℕ)
      → IsSound t
      → IsSound (modify t p (λ u. close_connection u activity now))
  unfolding close_connection
  disconnect-IsSound t p activity now s =
      modify-IsSound t p (λ u. close_connection u activity now) (refl, refl, refl, refl)
        (pred_positive (t.states p).active) s

  pub look-IsSound :
      (t : Table L) (p since : ℕ) → IsSound t → IsSound (modify t p (λ u. (online_ips u since).1))
  unfolding online_ips
  look-IsSound t p since s =
      modify-IsSound t p (λ u. (online_ips u since).1) (refl, refl, refl, refl) (λ h. h) s

  pub transfer-IsSound :
      (t : Table L) (p a b : ℕ)
      → 0 < occurrences p (tracked t)
      → IsSound t
      → IsSound (modify t p (add_traffic a b))
  transfer-IsSound t p a b h s = record {
    valid = count-IsValid t p a b s.valid (omega (arith, s.valid.once p));
    tracks = λ q busy. s.tracks q (modify-Quiet t p (add_traffic a b) refl q busy);
  }

module _ (ops : LimiterOps) where
  open ops use {Limiter}

  abbrev resting : Table Limiter → List UserTraffic → Ledger Limiter
  resting t in_flight = record { table = t; in_flight = in_flight; delivered = []; carried = [] }

  pub update-IsSound :
      (t : Table Limiter) (users : List User) (node_limit : ℕ)
      → IsSound t
      → IsSound (update ops t users node_limit)
  update-IsSound t users node_limit s = record {
    valid = update-IsValid ops t users node_limit s.valid;
    tracks = λ q busy.
        let before = update-Quiet ops t users node_limit q busy in
        stays (pull (resting t []) users node_limit) s.valid q before (s.tracks q before);
  }

  pub collect-IsSound : (t : Table Limiter) → IsSound t → IsSound (collect_traffic t).0
  collect-IsSound t s = record {
    valid = collect-IsValid t s.valid;
    tracks = λ q busy.
        let before = collect-Quiet t q busy in
        stays {ops = ops} (collect (resting t []) refl) s.valid q before (s.tracks q before);
  }

  pub restore-IsSound :
      (t : Table Limiter) (items : List UserTraffic) → IsSound t → IsSound (restore_traffic t items)
  restore-IsSound t items s = record {
    valid = restore-IsValid t items s.valid;
    tracks = λ q busy.
        let before = restore-Quiet t items q busy in
        stays {ops = ops} (failed (resting t items)) s.valid q before (s.tracks q before);
  }
