-- ===== src/Reporter/Logger.antt =====
-- common/reporter/reporter.go: `WrapLogger`, and connlog.go: the logger of connections. sing's
-- logger, `F.ToString` and `E.IsClosedOrCanceled` are parameters.
use ne_xt_server.Reporter.Sentry.{sentry_reporter, nop_reporter, Reporter}
use Prim.Native.String.{String}
use text.Mathlib.Text.{◌==◌ as str_eq}
use ne_xt_server.Base.{
  ℕ, ◌≡◌, refl, sym, ◌∙◌, ◌⊎◌, inl, inr, Bool, true, false, not, ◌&&◌, ◌||◌, Option, none, some,
  List, [], ◌∷◌, ◌++◌, arith, ◌==◌, if◌then◌else◌, Bool-cases, any,
}

-- An error with the texts along its chain of `Unwrap`, the outermost first, and what the tests of
-- errors say of it: `E.IsClosedOrCanceled`, `errors.Is` with `context.Canceled`, and the code of an
-- HTTP/2 stream error, by `errors.As`.
pub record LoggedError : Type 0 where
  pub chain : List String
  pub is_closed_or_canceled : Bool
  pub is_canceled : Bool
  pub stream_code : Option ℕ

pub data Arg : Type 0 where
  error_arg : LoggedError → Arg
  other_arg : String → Arg

-- `http2.ErrCodeNo` and `http2.ErrCodeCancel`
abbrev pub is_quiet_code : Option ℕ → Bool
is_quiet_code none = false
is_quiet_code (some code) = code == 0 || code == 8

unfoldable pub is_message : LoggedError → String → Bool
is_message e message = any (λ text. str_eq text message) e.chain

abbrev pub says_closed : Arg → Bool
says_closed (other_arg text) = false
says_closed (error_arg e) =
    e.is_closed_or_canceled
    || e.is_canceled
    || is_quiet_code e.stream_code
    || is_message e "http2: stream closed"

unfoldable pub is_connection_closed : List Arg → Bool
is_connection_closed [] = false
is_connection_closed (arg ∷ args) =
    let rest = is_connection_closed args in if says_closed arg then true else rest

is_connection_closed-any : (args : List Arg) → is_connection_closed args ≡ any says_closed args
unfolding is_connection_closed
is_connection_closed-any [] = refl
is_connection_closed-any (arg ∷ args) = ground (arith, is_connection_closed-any args)

-- The methods of `log.ContextLogger` from error level up, the two that `connectionLogger` calls, and
-- the others.
pub data Method : Type 0 where
  debug_context warn_context : Method
  error error_context fatal fatal_context panic panic_context : Method
  other : ℕ → Method

-- `logger` is sing-box's; `reporting_logger` and `connection_logger` wrap another.
pub data Logger : Type 0 where
  logger : Logger
  reporting_logger : Logger → Logger
  connection_logger : Logger → Logger

-- What a call does: a call of sing-box's logger, and calls of the reporter.
pub data Effect : Type 0 where
  logged : Method → List Arg → Effect
  captured : String → Effect
  closed : Effect

unfoldable pub wrap_logger : {Rate : Type 0} → Logger → Reporter Rate → Logger
wrap_logger l nop_reporter = l
wrap_logger l (sentry_reporter _) = reporting_logger l

-- The methods that report, by their names.
abbrev pub is_reported : Method → Bool
is_reported debug_context = false
is_reported warn_context = false
is_reported (other _) = false
is_reported _ = true

abbrev pub is_error_context : Method → Bool
is_error_context error_context = true
is_error_context _ = false

abbrev pub captures : List Effect → List String
captures [] = []
captures (captured text ∷ effects) = text ∷ captures effects
captures (logged _ _ ∷ effects) = captures effects
captures (closed ∷ effects) = captures effects

module _ (to_string : List Arg → String) where
  -- The methods of `reportingLogger`, with what the wrapped logger does.
  unfoldable pub report : Method → List Arg → List Effect → List Effect
  report error args effects = effects ++ (captured (to_string args) ∷ [])
  report error_context args effects = effects ++ (captured (to_string args) ∷ [])
  report fatal args effects = captured (to_string args) ∷ closed ∷ effects
  report fatal_context args effects = captured (to_string args) ∷ closed ∷ effects
  report panic args effects = captured (to_string args) ∷ closed ∷ effects
  report panic_context args effects = captured (to_string args) ∷ closed ∷ effects
  report _ args effects = effects

  -- The method that `connectionLogger` calls.
  unfoldable pub connection_method : Method → List Arg → Method
  unfolding is_connection_closed
  connection_method error_context args =
      if is_connection_closed args then debug_context else warn_context
  connection_method m args = m

  unfoldable pub log_with : Logger → Method → List Arg → List Effect
  unfolding report connection_method
  log_with logger m args = logged m args ∷ []
  log_with (reporting_logger l) m args = report m args (log_with l m args)
  log_with (connection_logger l) m args = log_with l (connection_method m args) args

  -- The logger of a connection, over a logger that reports, reports what the other reports, once, but
  -- never a failure of one connection (`ErrorContext`). That is logged for debugging exactly when one
  -- of the logged errors says that the other side went away, and as a warning otherwise.
  pub connection_logger-reports :
      (m : Method) (args : List Arg)
      → (captures (log_with (connection_logger (reporting_logger logger)) m args)
          ≡ (if is_reported m && not (is_error_context m) then to_string args ∷ [] else []))
        × ((is_error_context m ≡ false)
            ⊎ (log_with (connection_logger (reporting_logger logger)) m args
                ≡ logged (if any says_closed args then debug_context else warn_context) args ∷ []))
  unfolding log_with connection_method report
  connection_logger-reports error_context args = elim (Bool-cases (is_connection_closed args)) [
    | inl e ↦ (rw e refl, inr (rw (e, sym (is_connection_closed-any args) ∙ e) refl))
    | inr e ↦ (rw e refl, inr (rw (e, sym (is_connection_closed-any args) ∙ e) refl))
  ]
  connection_logger-reports debug_context args = (refl, inl refl)
  connection_logger-reports warn_context args = (refl, inl refl)
  connection_logger-reports error args = (refl, inl refl)
  connection_logger-reports fatal args = (refl, inl refl)
  connection_logger-reports fatal_context args = (refl, inl refl)
  connection_logger-reports panic args = (refl, inl refl)
  connection_logger-reports panic_context args = (refl, inl refl)
  connection_logger-reports (other n) args = (refl, inl refl)
