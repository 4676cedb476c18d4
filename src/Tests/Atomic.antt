-- ===== src/Tests/Atomic.antt =====
-- Atomic steps: an upload is taken while it goes on, and a connection that ends at the wrong moment.
use ne_xt_server.Base.Assoc.{lookup, insert}
use ne_xt_server.Base.Int.{pos, ℤ_discrete}
use ne_xt_server.Base.Sums.{values}
use ne_xt_server.Tests.Data.{ops, user}
use ne_xt_server.Users.Atomic.{
  World, uploads, collects, pushes, stores, start, Reach, here, next, add_upload, push_step,
  serving, retiring, resting,
}
use ne_xt_server.Users.Atomic.Account.{counted, held}
use ne_xt_server.Users.Atomic.Balance.{atomic_balances}
use ne_xt_server.Users.Atomic.Race.{late_bytes_dropped}
use ne_xt_server.Users.Pending.{up, reported}
use ne_xt_server.Users.State.{new_user_state, set_speed_limit}
use ne_xt_server.Users.Table.{
  modify, serve, serve_user, new_user_table, effective_limit, allocate, state_for,
}
use ne_xt_server.Base.{◌+◌, ◌%◌, ◌^◌, ◌<◌, ◌≡◌, refl, none, some, [], ◌∷◌, arith}

program : Unit {0}
unfolding start new_user_table new_user_state set_speed_limit lookup insert serve serve_user
    effective_limit ℤ_discrete push_step allocate state_for
program = tt

abbrev begun : World ops.Limiter
begun = start

abbrev stored : World ops.Limiter
stored =
    let (t, m) = serve ops 0 begun.table.current begun.table [] (user 1 ∷ []) in
    record begun { table = record t { current = m }; pulling = some (m, begun.table.current) }

abbrev busy : World ops.Limiter
busy = record stored {
  table = modify stored.table 0 (add_upload 10);
  carried =
      record { user_id = (stored.table.states 0).id; upload = 10; download = 0 } ∷ stored.carried;
}

abbrev collecting : World ops.Limiter
collecting = record busy { phase = serving (values ℤ_discrete busy.table.current) }

-- The upload is taken; before the item is made, the connection goes on.
abbrev taken : World ops.Limiter
taken = push_step collecting collecting.phase

abbrev again : World ops.Limiter
again = record taken {
  table = modify taken.table 0 (add_upload 5);
  carried =
      record { user_id = (taken.table.states 0).id; upload = 5; download = 0 } ∷ taken.carried;
}

stored_made : 0 < stored.table.next
unfolding program
stored_made = omega arith

taken_made : 0 < taken.table.next
unfolding program
taken_made = omega arith

rests : busy.phase ≡ resting
unfolding program
rests = refl

empty : busy.in_flight ≡ []
unfolding program
empty = refl

idle : begun.pulling ≡ none
unfolding program
idle = refl

again-Reach : Reach ops start again
again-Reach =
    next
      (next
        (next (next (next here (stores (user 1 ∷ []) 0 idle refl)) (uploads 0 10 stored_made refl))
          (collects rests empty refl))
        (pushes refl))
      (uploads 0 5 taken_made refl)

-- 10 bytes are held, and 5 counted.
held_10 : held up (pos 1) again.table again.phase ≡ 10
unfolding program
held_10 = refl

atomic_balances_example :
    (reported up (pos 1) again.delivered
        + reported up (pos 1) again.in_flight
        + reported up (pos 1) again.items
        + held up (pos 1) again.table again.phase
        + counted up (pos 1) again.table)
      % 2 ^ 64
    ≡ reported up (pos 1) again.carried % 2 ^ 64
atomic_balances_example = atomic_balances ops again up (pos 1) again-Reach

-- A retired state with one open connection.
abbrev closing : World ops.Limiter
closing = record {
  table = record {
    states = λ p. record (new_user_state (pos 1)) { active = pos 1 };
    next = 1;
    current = [];
    retired = 0 ∷ [];
  };
  phase = retiring (0 ∷ []) [];
  items = [];
  pulling = none;
  in_flight = [];
  delivered = [];
  carried = [];
}

nothing_up : (closing.table.states 0).upload ≡ 0
unfolding program
nothing_up = refl

nothing_down : (closing.table.states 0).download ≡ 0
unfolding program
nothing_down = refl

late_bytes_dropped_example :
    (w' : World ops.Limiter) × Reach ops closing w'
    × (w'.phase ≡ retiring [] [])
    × ((w'.table.states 0).upload ≡ 700 % 2 ^ 64)
    × (w'.items ≡ closing.items)
    × (w'.carried
        ≡ record { user_id = (closing.table.states 0).id; upload = 700; download = 0 }
          ∷ closing.carried)
late_bytes_dropped_example =
    late_bytes_dropped ops closing 0 700 0 9 [] [] refl (omega arith) nothing_up nothing_down refl
