-- ===== src/Users/Atomic.antt =====
-- users.go: the loops and the connections beside each other. A step is one atomic operation, or what one
-- holding of a mutex does; between two steps of `collectTraffic`, `restoreTraffic` or `update` anything
-- else may happen.
pub mod Frame
pub mod Account
pub mod Pushing
pub mod Restoring
pub mod Rounds
pub mod Moves
pub mod Balance
pub mod Race
use ne_xt_server.Adapter.{User, UserTraffic}
use ne_xt_server.Base.Int.{ℤ, ℤ_discrete, is_positive}
use ne_xt_server.Base.Sums.{values}
use ne_xt_server.Netip.{Addr}
use ne_xt_server.Users.State.{
  LimiterOps, UserState, add64, open_connection, close_connection, online_ips, active_connections,
}
use ne_xt_server.Users.Table.{
  Table, modify, get, serve, retire, find_retired, retired_for, new_user_table,
}
use ne_xt_server.Base.{
  ℕ, ◌<◌, ◌≡◌, Bool, true, false, ◌&&◌, Option, none, some, List, [], ◌∷◌, ◌++◌, ◌==◌,
  if◌then◌else◌, zero, suc, ◌+◌, ◌-◌, ◌*◌, ◌/◌, ◌%◌, ◌^◌, ◌≤◌, min, max, refl, sym, ap, ap₂, subst,
  ◌∙◌, ◌≢◌, ◌↔◌, ◌⊎◌, inl, inr, ite, if_pos, if_neg, not, ◌||◌, map, arith, ℕ_discrete, ltb, leb,
  ==_iff, Bool-cases, Option-cases, length, any, keep, All,
}

-- Where the goroutine of the pushes is: in `collectTraffic`, in the loop over the served users or,
-- with the mutex, over the retired ones; or in `restoreTraffic`.
pub data Phase : Type 0 where
  resting : Phase
  serving : List ℕ → Phase
  served_up : ℕ → ℕ → List ℕ → Phase
  retiring : List ℕ → List ℕ → Phase
  retired_up : ℕ → ℕ → List ℕ → List ℕ → Phase
  checking : ℕ → List ℕ → List ℕ → Phase
  restoring : List UserTraffic → Phase
  missing : UserTraffic → List UserTraffic → Phase
  adding : ℕ → UserTraffic → List UserTraffic → Phase
  adding_down : ℕ → UserTraffic → List UserTraffic → Phase

-- Whether `collectTraffic` holds the table's mutex.
abbrev pub is_locked : Phase → Bool
is_locked (retiring todo kept) = true
is_locked (retired_up p n todo kept) = true
is_locked (checking p todo kept) = true
is_locked _ = false

-- The items so far are `collectTraffic`'s. `pulling` has the new and the previous map while `update` is
-- between the store of the new map and the lock.
pub record World (L : Type 0) : Type 0 where
  pub table : Table L
  pub phase : Phase
  pub items : List UserTraffic
  pub pulling : Option (List (ℤ × ℕ) × List (ℤ × ℕ))
  pub in_flight : List UserTraffic
  pub delivered : List UserTraffic
  pub carried : List UserTraffic

-- The item of a state, where something was counted.
abbrev pub collected : ℤ → ℕ → ℕ → List UserTraffic
collected id up down =
    if up == 0 && down == 0 then [] else record { user_id = id; upload = up; download = down } ∷ []

-- The state to restore to: the served one, or else one to be looked for under the mutex.
abbrev pub found : Option ℕ → UserTraffic → List UserTraffic → Phase
found none item items = missing item items
found (some p) item items = adding p item items

module _ {L : Type 0} where
  abbrev pub add_upload : ℕ → UserState L → UserState L
  add_upload n u = record u { upload = add64 u.upload n }

  abbrev pub add_download : ℕ → UserState L → UserState L
  add_download n u = record u { download = add64 u.download n }

  abbrev pub take_upload : UserState L → UserState L
  take_upload u = record u { upload = 0 }

  abbrev pub take_download : UserState L → UserState L
  take_download u = record u { download = 0 }

  -- The next step of `collectTraffic` or `restoreTraffic`.
  unfoldable pub push_step : World L → Phase → World L
  push_step w resting = w
  push_step w (serving []) = record w { phase = retiring w.table.retired [] }
  push_step w (serving (p ∷ todo)) = record w {
    table = modify w.table p take_upload;
    phase = served_up p (w.table.states p).upload todo;
  }
  push_step w (served_up p up todo) = record w {
    table = modify w.table p take_download;
    items = w.items ++ collected (w.table.states p).id up (w.table.states p).download;
    phase = serving todo;
  }
  push_step w (retiring [] kept) = record w {
    table = record (w.table) { retired = kept };
    in_flight = w.items ++ w.in_flight;
    items = [];
    phase = resting;
  }
  push_step w (retiring (p ∷ todo) kept) = record w {
    table = modify w.table p take_upload;
    phase = retired_up p (w.table.states p).upload todo kept;
  }
  push_step w (retired_up p up todo kept) = record w {
    table = modify w.table p take_download;
    items = w.items ++ collected (w.table.states p).id up (w.table.states p).download;
    phase =
        if up == 0 && (w.table.states p).download == 0
        then checking p todo kept
        else retiring todo (kept ++ (p ∷ []));
  }
  push_step w (checking p todo kept) = record w {
    phase =
        retiring todo
          (if is_positive (active_connections (w.table.states p)) then kept ++ (p ∷ []) else kept);
  }
  push_step w (restoring []) = record w { phase = resting }
  push_step w (restoring (item ∷ items)) = record w {
    phase = found (get w.table item.user_id) item items;
  }
  push_step w (missing item items) =
      let (t, p) =
        retired_for w.table item.user_id
          (find_retired w.table.states item.user_id w.table.retired) in
      record w { table = t; phase = adding p item items }
  push_step w (adding p item items) = record w {
    table = modify w.table p (add_upload item.upload);
    phase = adding_down p item items;
  }
  push_step w (adding_down p item items) = record w {
    table = modify w.table p (add_download item.download);
    phase = restoring items;
  }

-- The steps. A connection counts in a state that was made at some time, whether it is served, retired
-- or dropped.
pub data Step (ops : LimiterOps) (w w' : World ops.Limiter) : Type 0 where
  uploads :
      (p n : ℕ)
      → p < w.table.next
      → w' ≡ record w {
        table = modify w.table p (add_upload n);
        carried = record { user_id = (w.table.states p).id; upload = n; download = 0 } ∷ w.carried;
      }
      → Step ops w w'
  downloads :
      (p n : ℕ)
      → p < w.table.next
      → w' ≡ record w {
        table = modify w.table p (add_download n);
        carried = record { user_id = (w.table.states p).id; upload = 0; download = n } ∷ w.carried;
      }
      → Step ops w w'
  opens :
      (p : ℕ) (address : Addr) (now : ℕ)
      → w' ≡ record w { table = modify w.table p (λ u. (open_connection u address now).0) }
      → Step ops w w'
  closes :
      (p activity now : ℕ)
      → w' ≡ record w { table = modify w.table p (λ u. close_connection u activity now) }
      → Step ops w w'
  looks :
      (p since : ℕ)
      → w' ≡ record w { table = modify w.table p (λ u. (online_ips u since).1) }
      → Step ops w w'
  collects :
      w.phase ≡ resting
      → w.in_flight ≡ []
      → w' ≡ record w { phase = serving (values ℤ_discrete w.table.current) }
      → Step ops w w'
  pushes : w' ≡ push_step w w.phase → Step ops w w'
  accepted :
      w.phase ≡ resting
      → w' ≡ record w { in_flight = []; delivered = w.in_flight ++ w.delivered }
      → Step ops w w'
  failed :
      w.phase ≡ resting
      → w' ≡ record w { in_flight = []; phase = restoring w.in_flight }
      → Step ops w w'
  stores :
      (users : List User) (node_limit : ℕ)
      → w.pulling ≡ none
      → w' ≡ (
          let (t, next) = serve ops node_limit w.table.current w.table [] users in
          record w { table = record t { current = next }; pulling = some (next, w.table.current) })
      → Step ops w w'
  retires :
      (next previous : List (ℤ × ℕ))
      → w.pulling ≡ some (next, previous)
      → is_locked w.phase ≡ false
      → w' ≡ record w { table = retire next w.table previous; pulling = none }
      → Step ops w w'

unfoldable pub start : {L : Type 0} → World L
unfolding new_user_table
start = record {
  table = new_user_table;
  phase = resting;
  items = [];
  pulling = none;
  in_flight = [];
  delivered = [];
  carried = [];
}

pub data Reach (ops : LimiterOps) (w : World ops.Limiter) : World ops.Limiter → Type 0 where
  here : Reach ops w w
  next : {x y : World ops.Limiter} → Reach ops w x → Step ops x y → Reach ops w y
