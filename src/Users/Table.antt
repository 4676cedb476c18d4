-- ===== src/Users/Table.antt =====
-- users.go: `userTable`. The states that it points to stand in a store, `states`, where pointers
-- from `next` on are free.
use ne_xt_server.Base.{
  ℕ, ◌+◌, ite, Bool, true, false, not, ◌&&◌, ◌||◌, Option, none, some, List, [], ◌∷◌, ◌++◌, ltb,
  ◌==◌, if◌then◌else◌,
}
use ne_xt_server.Adapter.{User, UserTraffic}
use ne_xt_server.Base.Int.{ℤ, pos, ℤ_discrete, is_positive}
use ne_xt_server.Base.Assoc.{lookup, insert}
use ne_xt_server.Base.Sums.{put, values}
use ne_xt_server.Users.State.{
  LimiterOps, UserState, new_user_state, cancel, add_traffic, set_speed_limit, active_connections,
}

pub record Table (L : Type 0) : Type 0 where
  pub states : ℕ → UserState L
  pub next : ℕ
  pub current : List (ℤ × ℕ)
  pub retired : List ℕ

-- `effectiveLimit`
unfoldable pub effective_limit : ℕ → ℕ → ℕ
effective_limit a b = if a == 0 || (not (b == 0) && ltb b a) then b else a

module _ {L : Type 0} where
  unfoldable pub new_user_table : Table L
  unfolding new_user_state
  new_user_table = record {
    states = λ _. new_user_state (pos 0);
    next = 0;
    current = [];
    retired = [];
  }

  -- A write to the state behind a pointer.
  abbrev pub modify : Table L → ℕ → (UserState L → UserState L) → Table L
  modify t p f = record t { states = put t.states p (f (t.states p)) }

  -- `get`; the states of the users that are served are `current`.
  unfoldable pub get : Table L → ℤ → Option ℕ
  get t id = lookup ℤ_discrete id t.current

  -- A new state at the first free pointer.
  unfoldable pub allocate : Table L → UserState L → Table L × ℕ
  allocate t u = (record t { states = put t.states t.next u; next = t.next + 1 }, t.next)

  -- The state of a user in `update`: the previous one, or a new one.
  unfoldable pub state_for : Table L → ℤ → Option ℕ → Table L × ℕ
  unfolding allocate new_user_state
  state_for t id (some p) = (t, p)
  state_for t id none = allocate t (new_user_state id)

module _ (ops : LimiterOps) where
  open ops use {Limiter}

  -- One round of the first loop of `update`: the user's state, with the limit set.
  unfoldable pub serve_user : ℕ → List (ℤ × ℕ) → Table Limiter → User → Table Limiter × ℕ
  unfolding state_for
  serve_user node_limit previous t user =
      let (t', p) = state_for t user.id (lookup ℤ_discrete user.id previous) in
      (modify t' p (λ u. set_speed_limit ops u (effective_limit node_limit user.speed_limit)), p)

  -- The first loop of `update`, over the map that it builds.
  unfoldable pub serve :
      ℕ → List (ℤ × ℕ) → Table Limiter → List (ℤ × ℕ) → List User → Table Limiter × List (ℤ × ℕ)
  serve node_limit previous t next [] = (t, next)
  serve node_limit previous t next (user ∷ users) =
      let (t', p) = serve_user node_limit previous t user in
      serve node_limit previous t' (insert ℤ_discrete user.id p next) users

module _ {L : Type 0} where
  -- The second loop of `update`: who is not in the new map is canceled and retired.
  unfoldable pub retire_user : Table L → ℕ → Option ℕ → Table L
  retire_user t p (some _) = t
  retire_user t p none = record (modify t p cancel) { retired = t.retired ++ (p ∷ []) }

  unfoldable pub retire : List (ℤ × ℕ) → Table L → List (ℤ × ℕ) → Table L
  retire next t [] = t
  retire next t ((id, p) ∷ previous) =
      retire next (retire_user t p (lookup ℤ_discrete id next)) previous

unfoldable pub update : (ops : LimiterOps) → Table ops.Limiter → List User → ℕ → Table ops.Limiter
update ops t users node_limit =
    let (t', next) = serve ops node_limit t.current t [] users in
    retire next (record t' { current = next }) t.current

abbrev pub add_item : Option UserTraffic → List UserTraffic → List UserTraffic
add_item none items = items
add_item (some item) items = item ∷ items

abbrev pub is_some : Option UserTraffic → Bool
is_some none = false
is_some (some _) = true

module _ {L : Type 0} where
  -- `collect` inside `collectTraffic`: the counters are swapped for 0.
  unfoldable pub item_of : UserState L → Option UserTraffic
  item_of u =
      if u.upload == 0 && u.download == 0
      then none
      else some (record { user_id = u.id; upload = u.upload; download = u.download })

  abbrev pub reset : UserState L → UserState L
  reset u = record u { upload = 0; download = 0 }

  -- The loop over the users that are served.
  unfoldable pub collect_current : Table L → List ℕ → Table L × List UserTraffic
  unfolding item_of
  collect_current t [] = (t, [])
  collect_current t (p ∷ ps) =
      let (t', items) = collect_current (modify t p reset) ps in
      (t', add_item (item_of (t.states p)) items)

  -- The loop over the retired users, which also says who stays.
  unfoldable pub collect_retired : Table L → List ℕ → Table L × List UserTraffic × List ℕ
  unfolding item_of
  collect_retired t [] = (t, [], [])
  collect_retired t (p ∷ ps) =
      let (t', items, kept) = collect_retired (modify t p reset) ps in
      (
        t',
        add_item (item_of (t.states p)) items,
        if is_some (item_of (t.states p)) || is_positive (active_connections (t.states p))
            then p ∷ kept
            else kept,
      )

  unfoldable pub collect_traffic : Table L → Table L × List UserTraffic
  collect_traffic t =
      let (t', items) = collect_current t (values ℤ_discrete t.current) in
      let (t'', more, kept) = collect_retired t' t'.retired in
      (record t'' { retired = kept }, items ++ more)

  -- The loop of `restoreTraffic` over the retired users: the first with the ID.
  unfoldable pub find_retired : (ℕ → UserState L) → ℤ → List ℕ → Option ℕ
  find_retired states id [] = none
  find_retired states id (p ∷ ps) =
      ite (ℤ_discrete (states p).id id) (some p) (find_retired states id ps)

  -- No state is left for the ID: a canceled one is made and retired.
  unfoldable pub revive : Table L → ℤ → Table L × ℕ
  unfolding allocate new_user_state
  revive t id =
      let (t', p) = allocate t (cancel (new_user_state id)) in
      (record t' { retired = t'.retired ++ (p ∷ []) }, p)

  unfoldable pub retired_for : Table L → ℤ → Option ℕ → Table L × ℕ
  unfolding revive
  retired_for t id (some p) = (t, p)
  retired_for t id none = revive t id

  unfoldable pub state_to_restore : Table L → ℤ → Option ℕ → Table L × ℕ
  unfolding retired_for
  state_to_restore t id (some p) = (t, p)
  state_to_restore t id none = retired_for t id (find_retired t.states id t.retired)

  unfoldable pub restore_item : Table L → UserTraffic → Table L
  unfolding state_to_restore get
  restore_item t item =
      let (t', p) = state_to_restore t item.user_id (get t item.user_id) in
      modify t' p (add_traffic item.upload item.download)

  unfoldable pub restore_traffic : Table L → List UserTraffic → Table L
  restore_traffic t [] = t
  restore_traffic t (item ∷ items) = restore_traffic (restore_item t item) items
