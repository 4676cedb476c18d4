-- ===== src/Server/Ticker.antt =====
-- server.go: `loop`, with `Recover` of common/reporter. `select` chooses among the rounds of the
-- ticker and the end of the context.
use ne_xt_server.Base.{
  ℕ, ◌+◌, ◌≡◌, refl, Bool, true, false, ◌&&◌, List, [], ◌∷◌, ◌++◌, arith, if◌then◌else◌,
}

-- What `select` chooses: a round, which panics or not, or the end.
pub data Choice : Type 0 where
  tick : Bool → Choice
  done : Choice

-- What a loop does. `raised` is a panic that goes on, and ends the process when the deferred calls
-- are through.
pub data Effect : Type 0 where
  ran ticker_stopped captured flushed raised loop_done : Effect

-- `sentryReporter.Recover`, with whether there is a panic.
unfoldable pub recover_sentry : Bool → List Effect
recover_sentry false = []
recover_sentry true = captured ∷ flushed ∷ raised ∷ []

-- `nopReporter.Recover` does not stop a panic.
unfoldable pub recover_nop : Bool → List Effect
recover_nop false = []
recover_nop true = raised ∷ []

abbrev pub recover : Bool → Bool → List Effect
recover sentry panics = if sentry then recover_sentry panics else recover_nop panics

-- The deferred calls of `loop`, the last first.
unfoldable pub unwind : Bool → Bool → List Effect
unfolding recover_sentry recover_nop
unwind sentry panics = ticker_stopped ∷ (recover sentry panics ++ (loop_done ∷ []))

-- `loop`, on what `select` chooses one after the other.
unfoldable pub loop : Bool → List Choice → List Effect
unfolding unwind
loop sentry [] = []
loop sentry (done ∷ choices) = unwind sentry false
loop sentry (tick false ∷ choices) = ran ∷ loop sentry choices
loop sentry (tick true ∷ choices) = ran ∷ unwind sentry true

-- Whether a round before the end panics, and whether there is an end at all.
abbrev pub crashes : List Choice → Bool
crashes [] = false
crashes (done ∷ choices) = false
crashes (tick false ∷ choices) = crashes choices
crashes (tick true ∷ choices) = true

abbrev pub ends : List Choice → Bool
ends [] = false
ends (done ∷ choices) = true
ends (tick false ∷ choices) = ends choices
ends (tick true ∷ choices) = true

abbrev is_loop_done : Effect → ℕ
is_loop_done loop_done = 1
is_loop_done ran = 0
is_loop_done ticker_stopped = 0
is_loop_done captured = 0
is_loop_done flushed = 0
is_loop_done raised = 0

abbrev is_ticker_stopped : Effect → ℕ
is_ticker_stopped ticker_stopped = 1
is_ticker_stopped loop_done = 0
is_ticker_stopped ran = 0
is_ticker_stopped captured = 0
is_ticker_stopped flushed = 0
is_ticker_stopped raised = 0

abbrev is_captured : Effect → ℕ
is_captured captured = 1
is_captured loop_done = 0
is_captured ran = 0
is_captured ticker_stopped = 0
is_captured flushed = 0
is_captured raised = 0

abbrev is_raised : Effect → ℕ
is_raised raised = 1
is_raised loop_done = 0
is_raised ran = 0
is_raised ticker_stopped = 0
is_raised flushed = 0
is_raised captured = 0

abbrev times : (Effect → ℕ) → List Effect → ℕ
times f [] = 0
times f (e ∷ effects) = f e + times f effects

-- A loop that ends, also by a panic, stops its ticker and tells the wait group, once each, so that
-- `Close` does not wait for ever. A panic is captured once if there is Sentry, and goes on in any
-- case; a loop that does not panic captures and raises nothing.
pub loop_ends :
    (sentry : Bool) (choices : List Choice)
    → let effects = loop sentry choices in
      (times is_loop_done effects ≡ (if ends choices then 1 else 0))
      × (times is_ticker_stopped effects ≡ (if ends choices then 1 else 0))
      × (times is_captured effects ≡ (if sentry && crashes choices then 1 else 0))
      × (times is_raised effects ≡ (if crashes choices then 1 else 0))
unfolding loop unwind recover_sentry recover_nop
loop_ends sentry [] = ground arith
loop_ends true (done ∷ choices) = (refl, refl, refl, refl)
loop_ends false (done ∷ choices) = (refl, refl, refl, refl)
loop_ends sentry (tick false ∷ choices) = ground (arith, loop_ends sentry choices)
loop_ends true (tick true ∷ choices) = (refl, refl, refl, refl)
loop_ends false (tick true ∷ choices) = (refl, refl, refl, refl)
