-- ===== src/Inbound/Accept.antt =====
-- proxy/inbound/listener.go: `ServeTCP`. What `Accept` returns, one call after another, is a list;
-- durations are numbers of nanoseconds.
use ne_xt_server.Base.{
  ℕ, zero, suc, ◌*◌, ◌≤◌, min, max, ◌≡◌, refl, ap, ap₂, List, [], ◌∷◌, arith, All,
}

-- A connection, an error that is temporary, one that says that the listener is closed, and any other.
pub data Accepted (Conn : Type 0) : Type 0 where
  connection : Conn → Accepted Conn
  temporary listener_closed broken : Accepted Conn

pub data ServeEffect (Conn : Type 0) : Type 0 where
  handled : Conn → ServeEffect Conn
  slept : ℕ → ServeEffect Conn
  logged_closed : ServeEffect Conn

abbrev pub millisecond : ℕ
millisecond = 1000000

abbrev pub second : ℕ
second = 1000 * millisecond

-- `acceptDelay` after a temporary error.
abbrev pub next_delay : ℕ → ℕ
next_delay delay = min (max (2 * delay) (5 * millisecond)) second

module _ {Conn : Type 0} where
  -- The loop, with the delay.
  unfoldable pub accept_loop : ℕ → List (Accepted Conn) → List (ServeEffect Conn)
  accept_loop delay [] = []
  accept_loop delay (connection c ∷ results) = handled c ∷ accept_loop 0 results
  accept_loop delay (temporary ∷ results) =
      slept (next_delay delay) ∷ accept_loop (next_delay delay) results
  accept_loop delay (listener_closed ∷ results) = []
  accept_loop delay (broken ∷ results) = logged_closed ∷ []

  unfoldable pub serve_tcp : List (Accepted Conn) → List (ServeEffect Conn)
  unfolding accept_loop
  serve_tcp results = accept_loop 0 results

  -- The connections that are accepted before the first error that is not temporary.
  abbrev pub accepted_first : List (Accepted Conn) → List Conn
  accepted_first [] = []
  accepted_first (connection c ∷ results) = c ∷ accepted_first results
  accepted_first (temporary ∷ results) = accepted_first results
  accepted_first (listener_closed ∷ results) = []
  accepted_first (broken ∷ results) = []

  abbrev pub handled_by : List (ServeEffect Conn) → List Conn
  handled_by [] = []
  handled_by (handled c ∷ effects) = c ∷ handled_by effects
  handled_by (slept n ∷ effects) = handled_by effects
  handled_by (logged_closed ∷ effects) = handled_by effects

  abbrev pub IsPause : ServeEffect Conn → Type 0
  IsPause (slept n) = (5 * millisecond ≤ n) × (n ≤ second)
  IsPause (handled c) = Unit
  IsPause logged_closed = Unit

  loop-handles :
      (delay : ℕ) (results : List (Accepted Conn))
      → (handled_by (accept_loop delay results) ≡ accepted_first results)
        × All IsPause (accept_loop delay results)
  unfolding accept_loop
  loop-handles delay [] = (refl, tt)
  loop-handles delay (connection c ∷ results) =
      let (e, h) = loop-handles 0 results in (ap (λ cs. c ∷ cs) e, (tt, h))
  loop-handles delay (temporary ∷ results) =
      let (e, h) = loop-handles (next_delay delay) results in (e, ((omega arith, omega arith), h))
  loop-handles delay (listener_closed ∷ results) = (refl, tt)
  loop-handles delay (broken ∷ results) = (refl, (tt, tt))

  -- Every connection that is accepted before the listener ends is handled, once and in order,
  -- whatever temporary errors come between, and every pause is between 5 ms and 1 s.
  pub serve_tcp-handles :
      (results : List (Accepted Conn))
      → (handled_by (serve_tcp results) ≡ accepted_first results) × All IsPause (serve_tcp results)
  unfolding serve_tcp
  serve_tcp-handles results = loop-handles 0 results

  -- `n` temporary errors one after another.
  abbrev pub temporaries : ℕ → List (Accepted Conn) → List (Accepted Conn)
  temporaries zero results = results
  temporaries (suc n) results = temporary ∷ temporaries n results

  abbrev pub doubling : ℕ → ℕ → List (ServeEffect Conn) → List (ServeEffect Conn)
  doubling first zero rest = rest
  doubling first (suc n) rest = slept (min first second) ∷ doubling (2 * first) n rest

  loop-doubling :
      (delay first n : ℕ) (results : List (Accepted Conn))
      → next_delay delay ≡ min first second
      → 5 * millisecond ≤ first
      → (d : ℕ) × (accept_loop delay (temporaries n results)
          ≡ doubling first n (accept_loop d results))
  unfolding accept_loop
  loop-doubling delay first zero results e h = (delay, refl)
  loop-doubling delay first (suc n) results e h =
      let (d, f) =
        loop-doubling (next_delay delay) (2 * first) n results (omega arith) (omega arith) in
      (d, ap₂ (λ x xs. slept x ∷ xs) e f)

  -- After a connection, temporary errors one after another are waited for 5 ms, then twice as long each
  -- time up to 1 s, and the next connection is handled.
  pub serve_tcp-doubling :
      (c c' : Conn) (n : ℕ) (results : List (Accepted Conn))
      → serve_tcp (connection c ∷ temporaries n (connection c' ∷ results))
        ≡ handled c ∷ doubling (5 * millisecond) n (handled c' ∷ serve_tcp results)
  unfolding serve_tcp accept_loop
  serve_tcp-doubling c c' n results =
      let (d, e) =
        loop-doubling 0 (5 * millisecond) n (connection c' ∷ results) (omega arith) (omega arith) in
      ap (λ xs. handled c ∷ xs) e
