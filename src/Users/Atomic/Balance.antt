-- ===== src/Users/Atomic/Balance.antt =====
-- Every step, in any interleaving, keeps the account.
use ne_xt_server.Users.Atomic.{
  World, serving, restoring, Step, uploads, downloads, opens, closes, looks, collects, pushes,
  accepted, failed, stores, retires, start, Reach, here, next,
}
use ne_xt_server.Users.Atomic.Frame.{values-IsMade}
use ne_xt_server.Users.Atomic.Account.{counted, held}
use ne_xt_server.Users.Atomic.Pushing.{Keeps}
use ne_xt_server.Users.Atomic.Rounds.{push_step-Keeps}
use ne_xt_server.Base.Int.{ℤ, ℤ_discrete}
use ne_xt_server.Base.Sums.{values}
use ne_xt_server.Users.State.{LimiterOps, open_connection, close_connection, online_ips}
use ne_xt_server.Users.Pending.{Direction, reported, reported-append}
use ne_xt_server.Users.Ledger.Balance.{open_keeps}
use ne_xt_server.Users.Table.{new_user_table}
use ne_xt_server.Base.{◌+◌, ◌%◌, ◌^◌, ◌≡◌, refl, sym, ap, subst, [], arith}
use ne_xt_server.Users.Atomic.Moves.{
  uploads-Keeps, downloads-Keeps, account-Keeps, phase-Keeps, retires-Keeps, stores-Keeps,
}

Step-Keeps : {ops : LimiterOps} {w w' : World ops.Limiter} → Step ops w w' → Keeps w → Keeps w'
Step-Keeps {w = w} (uploads p n made e) k = subst Keeps (sym e) (uploads-Keeps w p n made k)
Step-Keeps {w = w} (downloads p n made e) k = subst Keeps (sym e) (downloads-Keeps w p n made k)
Step-Keeps {w = w} (opens p address now e) k = subst Keeps (sym e) (
    account-Keeps w p (λ u. (open_connection u address now).0)
      (open_keeps (w.table.states p) address now) k)
Step-Keeps {w = w} (closes p activity now e) k = subst Keeps (sym e) (
    account-Keeps w p (λ u. close_connection u activity now)
      (unfold close_connection in (refl, refl, refl, refl)) k)
Step-Keeps {w = w} (looks p since e) k = subst Keeps (sym e) (
    account-Keeps w p (λ u. (online_ips u since).1) (unfold online_ips in (refl, refl, refl, refl))
      k)
Step-Keeps {w = w} (collects rest empty e) k = subst Keeps (sym e) (
    phase-Keeps w (serving (values ℤ_discrete w.table.current)) w.in_flight
      (values-IsMade w.table w.table.current k.frame.current)
      (λ d id. omega (arith, ap (held d id w.table) rest)) k)
Step-Keeps {w = w} (pushes e) k = subst Keeps (sym e) (push_step-Keeps w w.phase refl k)
Step-Keeps {w = w} (accepted rest e) k = subst Keeps (sym e) (record {
  frame = k.frame;
  balance = λ d id.
      let nothing : reported d id [] ≡ 0 = unfold reported in refl in
      omega (arith, nothing, reported-append d id w.in_flight w.delivered, k.balance d id);
})
Step-Keeps {w = w} (failed rest e) k = subst Keeps (sym e) (
    phase-Keeps w (restoring w.in_flight) [] tt
      (λ d id.
        let nothing : reported d id [] ≡ 0 = unfold reported in refl in
        omega (arith, nothing, ap (held d id w.table) rest))
      k)
Step-Keeps {ops} {w} (stores users node_limit idle e) k =
    subst Keeps (sym e) (stores-Keeps ops w users node_limit k)
Step-Keeps {w = w} (retires m previous pulling free e) k =
    subst Keeps (sym e) (retires-Keeps w m previous pulling k)

start-Keeps : {L : Type 0} → Keeps (start {L = L})
unfolding start new_user_table reported counted
start-Keeps = record {
  frame = record {
    blank = λ p h. (refl, refl);
    current = tt;
    retired = tt;
    bounded = tt;
    pulled = tt;
  };
  balance = λ d id. refl;
}

pub Reach-Keeps : {ops : LimiterOps} {w : World ops.Limiter} → Reach ops start w → Keeps w
Reach-Keeps here = start-Keeps
Reach-Keeps (next r s) = Step-Keeps s (Reach-Keeps r)

-- After any run from an empty table, in which the loops and the connections take their atomic steps in
-- any interleaving, for every user and in both directions: what the panel took, what is on its way, what
-- a collection or a restoration under way holds, and what all states count that were ever made, also
-- those that the table has dropped, add up to what the user's connections carried, modulo 2^64, the range
-- of the counters.
pub atomic_balances :
    (ops : LimiterOps) (w : World ops.Limiter) (d : Direction) (id : ℤ)
    → Reach ops start w
    → (reported d id w.delivered
          + reported d id w.in_flight
          + reported d id w.items
          + held d id w.table w.phase
          + counted d id w.table)
        % 2 ^ 64
      ≡ reported d id w.carried % 2 ^ 64
atomic_balances ops w d id r = (Reach-Keeps r).balance d id
