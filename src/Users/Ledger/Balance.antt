-- ===== src/Users/Ledger/Balance.antt =====
-- Every step keeps the balance of the ledger.
use ne_xt_server.Base.{ℕ, ◌+◌, ◌%◌, ◌^◌, ◌<◌, ◌≡◌, refl, ap, ◌∙◌, ite, [], ◌∷◌, arith}
use ne_xt_server.Netip.{Addr}
use ne_xt_server.Base.{All-mono}
use ne_xt_server.Base.Int.{ℤ, ℤ_discrete}
use ne_xt_server.Base.Sums.{put_same, sum-ext, occurrences}
use ne_xt_server.Users.State.{
  LimiterOps, UserState, add_traffic, open_connection, close_connection, online_ips,
}
use ne_xt_server.Users.Table.{Table, modify}
use ne_xt_server.Users.Pending.{
  Direction, up, down, weight, tracked, pending, reported, reported-append, IsValid,
}
use ne_xt_server.Users.Update.Valid.{pending-update, update-IsValid}
use ne_xt_server.Users.Collect.Report.{collect_reports, collect-IsValid}
use ne_xt_server.Users.Restore.Count.{count_pending, count-IsValid}
use ne_xt_server.Users.Restore.Find.{restore_pending, restore-IsValid, part-amount}
use ne_xt_server.Users.Ledger.{
  Ledger, Step, transfer, connect, disconnect, look_online, pull, collect, accepted, failed, Reach,
  here, next, start, Balances,
}

-- A change of one state that leaves its account alone.
abbrev pub KeepsAccount : {L : Type 0} → UserState L → UserState L → Type 0
KeepsAccount u u' =
    (u'.id ≡ u.id)
    × (u'.upload ≡ u.upload)
    × (u'.download ≡ u.download)
    × (u'.canceled ≡ u.canceled)

module _ {L : Type 0} (t : Table L) (p : ℕ) (f : UserState L → UserState L) where
  weight-modify :
      (d : Direction) (id : ℤ)
      → KeepsAccount (t.states p) (f (t.states p))
      → (q : ℕ) → weight d id (modify t p f).states q ≡ weight d id t.states q
  weight-modify up id (a, b, c, e) =
      put_same (λ u. ite (ℤ_discrete u.id id) u.upload 0) t.states p (f (t.states p)) (rw (a, b))
  weight-modify down id (a, b, c, e) =
      put_same (λ u. ite (ℤ_discrete u.id id) u.download 0) t.states p (f (t.states p)) (rw (a, c))

  pub pending-modify :
      (d : Direction) (id : ℤ)
      → KeepsAccount (t.states p) (f (t.states p))
      → pending d id (modify t p f) ≡ pending d id t
  unfolding pending
  pending-modify d id k = sum-ext _ _ (tracked t) (weight-modify d id k)

  pub modify-IsValid :
      KeepsAccount (t.states p) (f (t.states p)) → IsValid t → IsValid (modify t p f)
  modify-IsValid (a, b, c, e) v = record {
    once = v.once;
    bounded = v.bounded;
    blank = λ q h.
        let (x, y) = v.blank q h in
        (
          put_same (λ u. u.upload) t.states p (f (t.states p)) b q ∙ x,
          put_same (λ u. u.download) t.states p (f (t.states p)) c q ∙ y,
        );
    distinct = v.distinct;
    served =
        All-mono t.current
          (λ m s. (
            put_same (λ u. u.id) t.states p (f (t.states p)) a m.1 ∙ s.0,
            put_same (λ u. u.canceled) t.states p (f (t.states p)) e m.1 ∙ s.1,
            s.2,
          ))
          v.served;
  }

pub start-Balances : {L : Type 0} → Balances (start {L = L})
unfolding start reported pending
start-Balances = record {
  valid = record {
    once = λ p. omega arith;
    bounded = λ p h. refl;
    blank = λ p h. (refl, refl);
    distinct = tt;
    served = tt;
  };
  balance = λ d id. refl;
}

pub open_keeps :
    {L : Type 0} (u : UserState L) (address : Addr) (now : ℕ)
    → KeepsAccount u (open_connection u address now).0
unfolding open_connection
open_keeps u address now = ground arith

-- A step that changes one state and not its account keeps the balance.
modify-Balances :
    {L : Type 0} (l : Ledger L) (p : ℕ) (f : UserState L → UserState L)
    → KeepsAccount (l.table.states p) (f (l.table.states p))
    → Balances l
    → Balances (record l { table = modify l.table p f })
modify-Balances l p f k b = record {
  valid = modify-IsValid l.table p f k b.valid;
  balance = λ d id. omega (arith, pending-modify l.table p f d id k, b.balance d id);
}

transfer-Balances :
    {L : Type 0} (l : Ledger L) (p a b : ℕ)
    → 0 < occurrences p (tracked l.table)
    → Balances l
    → Balances (record l {
      table = modify l.table p (add_traffic a b);
      carried = record { user_id = (l.table.states p).id; upload = a; download = b } ∷ l.carried;
    })
unfolding reported
transfer-Balances l p a b h k =
    let once : occurrences p (tracked l.table) ≡ 1 = omega (arith, k.valid.once p) in
    record {
      valid = count-IsValid l.table p a b k.valid once;
      balance = λ d id. omega (
        arith,
        count_pending l.table p a b d id once,
        k.balance d id,
        ap (λ n. ite (ℤ_discrete (l.table.states p).id id) n 0)
            (part-amount d (record { user_id = (l.table.states p).id; upload = a; download = b })),
      );
    }

-- Every step keeps the table valid and the account balanced.
Step-Balances :
    {ops : LimiterOps} {l m : Ledger ops.Limiter} → Step ops l m → Balances l → Balances m
Step-Balances (transfer l p a b h) k = transfer-Balances l p a b h k
Step-Balances (connect l p address now) k =
    modify-Balances l p (λ u. (open_connection u address now).0)
      (open_keeps (l.table.states p) address now) k
Step-Balances (disconnect l p activity now) k =
    modify-Balances l p (λ u. close_connection u activity now)
      (unfold close_connection in (refl, refl, refl, refl)) k
Step-Balances (look_online l p since) k =
    modify-Balances l p (λ u. (online_ips u since).1)
      (unfold online_ips in (refl, refl, refl, refl)) k
Step-Balances {ops} (pull l users node_limit) k = record {
  valid = update-IsValid ops l.table users node_limit k.valid;
  balance = λ d id.
      omega (arith, pending-update ops l.table users node_limit k.valid d id, k.balance d id);
}
Step-Balances (collect l h) k = record {
  valid = collect-IsValid l.table k.valid;
  balance = λ d id.
      let (taken, left) = collect_reports l.table d id k.valid in
      let idle : reported d id l.in_flight ≡ 0 = rw h (unfold reported in refl) in
      omega (arith, taken, left, idle, k.balance d id);
}
Step-Balances (accepted l) k = record {
  valid = k.valid;
  balance = λ d id.
      let nothing : reported d id [] ≡ 0 = unfold reported in refl in
      omega (arith, nothing, reported-append d id l.in_flight l.delivered, k.balance d id);
}
Step-Balances (failed l) k = record {
  valid = restore-IsValid l.table l.in_flight k.valid;
  balance = λ d id.
      let nothing : reported d id [] ≡ 0 = unfold reported in refl in
      omega (arith, nothing, restore_pending l.table l.in_flight d id k.valid, k.balance d id);
}

pub Reach-Balances :
    {ops : LimiterOps} {l m : Ledger ops.Limiter} → Reach ops l m → Balances l → Balances m
Reach-Balances here k = k
Reach-Balances (next r s) k = Step-Balances s (Reach-Balances r k)

-- After any run from an empty table of whole operations, of which no two overlap, for every user and in
-- both directions: what the panel took, what
-- is on its way and what the table still counts add up to what the user's connections carried, modulo
-- 2^64, the range of the counters, as long as a connection counts in a state that the table tracks.
pub run_balances :
    (ops : LimiterOps) (l : Ledger ops.Limiter)
    → Reach ops start l
    → (d : Direction) (id : ℤ)
    → (reported d id l.delivered + reported d id l.in_flight + pending d id l.table) % 2 ^ 64
      ≡ reported d id l.carried % 2 ^ 64
run_balances ops l r d id = (Reach-Balances r start-Balances).balance d id
