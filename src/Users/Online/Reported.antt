-- ===== src/Users/Online/Reported.antt =====
-- What the counts of a user's connections are in every order of events.
use ne_xt_server.Base.Assoc.{lookup, lookup-keep}
use ne_xt_server.Base.{
  refl, sym, subst, [], ℕ, ◌<◌, ◌≡◌, some, List, ◌∷◌, map, arith, length, keep, All, All-mono,
  All-×,
}
use mathlib.Core.List.{Mem, mem-cons_self, mem-cons_of_mem}
use ne_xt_server.Users.Online.Opened.{
  opened-Counts, closed-Counts, looked-Counts, held_online, holders_self,
}
use ne_xt_server.Users.Online.Session.{
  Session, Event, Run, begins, ends, looks, new_user, then_event, Counts, holders,
}
use ne_xt_server.Netip.{unmap, Addr, Addr_discrete}
use ne_xt_server.Base.Int.{ℤ, pos}
use ne_xt_server.Users.State.{
  new_user_state, open_connection, online_ips, active_connections, online_entries, is_online,
}

module _ {L : Type 0} where
  new-Counts : (id : ℤ) → Counts (new_user_state {L = L} id) []
  unfolding new_user_state
  new-Counts id = record {
    total = refl;
    counted = λ q. refl;
    kept = tt;
    unused = λ q _. refl;
    made = tt;
  }

  Event-Counts : {s s' : Session L} → Event s s' → Counts s.user s.opened → Counts s'.user s'.opened
  unfolding open_connection
  Event-Counts {s} {s'} (begins a now e) k =
      subst (λ x. Counts x.user x.opened) (sym e) (opened-Counts s.user s.opened (unmap a) now k)
  Event-Counts {s} {s'} (ends before rest c now o e) k =
      subst (λ x. Counts x.user x.opened) (sym e)
        (closed-Counts s.user before rest c now (subst (Counts s.user) o k))
  Event-Counts {s} {s'} (looks since e) k =
      subst (λ x. Counts x.user x.opened) (sym e) (looked-Counts s.user s.opened since k)

  Run-Counts : {id : ℤ} {s : Session L} → Run id s → Counts s.user s.opened
  Run-Counts {id} new_user = new-Counts id
  Run-Counts (then_event r e) = Event-Counts e (Run-Counts r)

-- In every run of one user's connections the number of active connections is that of the open ones.
pub active_connections-length :
    {L : Type 0} (id : ℤ) (s : Session L)
    → Run id s
    → active_connections s.user ≡ pos (length s.opened)
active_connections-length id s r = (Run-Counts r).total

lookup-Mem :
    (a : Addr) (p : ℕ) (ips : List (Addr × ℕ))
    → lookup Addr_discrete a ips ≡ some p
    → Mem a (map (λ e. e.0) ips)
unfolding lookup
lookup-Mem a p [] h = absurd (cc)
lookup-Mem a p ((b, q) ∷ ips) h = elim (Addr_discrete b a) [
  | yes same ↦ subst (λ x. Mem x (b ∷ map (λ e. e.0) ips)) same mem-cons_self
  | no ne ↦ mem-cons_of_mem b (lookup-Mem a p ips (ground arith))
]

-- In every run each address with an open connection is among the online addresses, whatever the time
-- since which they are asked for: also when other connections from it have ended.
pub online_ips-open :
    {L : Type 0} (id : ℤ) (s : Session L) (since : ℕ)
    → Run id s
    → All (λ c. Mem c.0 (online_ips s.user since).0) s.opened
unfolding online_ips online_entries
online_ips-open id s since r =
    let k = Run-Counts r in
    let online = λ (e : Addr × ℕ). is_online since (s.user.activities e.1) in
    All-mono s.opened
      (λ c h. lookup-Mem c.0 c.1 (keep online s.user.ips) (
        lookup-keep Addr_discrete online c.0 c.1 s.user.ips h.0
          (held_online s.user s.opened since c.1 k h.1)))
      (All-× (λ c. lookup Addr_discrete c.0 s.user.ips ≡ some c.1) (λ c. 0 < holders c.1 s.opened)
        s.opened k.kept (holders_self s.opened))
