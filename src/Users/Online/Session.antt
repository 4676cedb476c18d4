-- ===== src/Users/Online/Session.antt =====
-- A user's state together with the connections that are open, in any order of events.
use ne_xt_server.Base.{ℕ, ◌+◌, ◌≤◌, ◌<◌, ◌≡◌, some, List, [], ◌∷◌, ◌++◌, arith, length, All}
use ne_xt_server.Netip.{Addr, Addr_discrete, unmap}
use ne_xt_server.Base.Int.{ℤ, pos}
use ne_xt_server.Base.Assoc.{lookup}
use ne_xt_server.Base.Sums.{one_at}
use ne_xt_server.Users.State.{
  UserState, new_user_state, open_connection, close_connection, online_ips,
}

-- Each open connection has its address, unmapped, and the activity that its end is recorded on.
pub record Session (L : Type 0) : Type 0 where
  pub user : UserState L
  pub opened : List (Addr × ℕ)

-- A connection begins; one of the open connections ends, which `sync.Once` lets it do once; or the
-- push loop looks for online addresses.
pub data Event {L : Type 0} (s : Session L) (s' : Session L) : Type 0 where
  begins :
      (address : Addr) (now : ℕ)
      → s' ≡ record {
        user = (open_connection s.user address now).0;
        opened = (unmap address, (open_connection s.user address now).1) ∷ s.opened;
      }
      → Event s s'
  ends :
      (before rest : List (Addr × ℕ)) (c : Addr × ℕ) (now : ℕ)
      → s.opened ≡ before ++ (c ∷ rest)
      → s' ≡ record { user = close_connection s.user c.1 now; opened = before ++ rest }
      → Event s s'
  looks :
      (since : ℕ)
      → s' ≡ record { user = (online_ips s.user since).1; opened = s.opened }
      → Event s s'

pub data Run {L : Type 0} (id : ℤ) : Session L → Type 0 where
  new_user : Run id (record { user = new_user_state id; opened = [] })
  then_event : {s s' : Session L} → Run id s → Event s s' → Run id s'

-- How many open connections hold an activity.
abbrev pub holders : ℕ → List (Addr × ℕ) → ℕ
holders p [] = 0
holders p (c ∷ cs) = one_at p c.1 + holders p cs

pub holders-append :
    (p : ℕ) (xs ys : List (Addr × ℕ)) → holders p (xs ++ ys) ≡ holders p xs + holders p ys
holders-append p [] ys = omega arith
holders-append p (x ∷ xs) ys = omega (arith, holders-append p xs ys)

-- The counts are those of the open connections, the address of an open connection has the activity
-- that the connection holds, and the map's activities are made, one for each address.
pub record Counts {L : Type 0} (u : UserState L) (opened : List (Addr × ℕ)) : Type 0 where
  pub total : u.active ≡ pos (length opened)
  pub counted : (p : ℕ) → (u.activities p).active ≡ pos (holders p opened)
  pub kept : All (λ c. lookup Addr_discrete c.0 u.ips ≡ some c.1) opened
  pub unused : (p : ℕ) → u.next_activity ≤ p → holders p opened ≡ 0
  pub made : All (λ e. e.1 < u.next_activity) u.ips
