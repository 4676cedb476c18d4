-- ===== src/Reporter/Sentry.antt =====
-- common/reporter/sentry.go: the reporter of builds with Sentry, and sentry_stub.go: that of others.
-- What Sentry's library, the environment and the file system answer are arguments.
use ne_xt_server.Reporter.Key.{event_key}
use ne_xt_server.Base.Result.{Result, ok, err}
use ne_xt_server.Reporter.Limit.{RateOps, EventLimiter, new_event_limiter, allow}
use Prim.Native.String.{String}
use text.Mathlib.Text.{◌==◌ as str_eq}
use ne_xt_server.Base.{
  ℕ, ◌≡◌, refl, ◌⊎◌, inl, inr, Bool, true, false, not, ◌&&◌, Option, none, some, List, [], ◌∷◌,
  ◌++◌, ℕ_discrete, ltb, ◌==◌, if◌then◌else◌,
}

pub record SentryOptions : Type 0 where
  pub dsn : String
  pub environment : String
  pub crash_file : String

pub data ReporterError : Type 0 where
  missing_dsn initialize_failed read_failed open_failed output_failed not_included : ReporterError

pub data Reporter (Rate : Type 0) : Type 0 where
  nop_reporter : Reporter Rate
  sentry_reporter : EventLimiter (List ℕ) Rate → Reporter Rate

-- What is given to Sentry's library: an event with the tag "suppressed", a crash with its
-- attachment, and a flush.
pub data Sent : Type 0 where
  event : List ℕ → Option ℕ → Sent
  crashed : List ℕ → List ℕ → Sent
  flushed : Sent

-- `setSuppressed`
abbrev pub set_suppressed : ℕ → Option ℕ
set_suppressed n = if ltb 0 n then some n else none

unfoldable pub List_discrete : Discrete (List ℕ)
unfolding ℕ_discrete
List_discrete = hlevel ℕ_discrete

module _ (ops : RateOps) where
  open ops use {Rate}

  -- `CaptureMessage`, and `CaptureError` with the error's text.
  unfoldable pub capture : Reporter Rate → List ℕ → ℕ → Reporter Rate × List Sent
  unfolding allow event_key List_discrete
  capture nop_reporter message now = (nop_reporter, [])
  capture (sentry_reporter l) message now =
      let (l', sent, suppressed) = allow List_discrete ops l (event_key message) now in
      (sentry_reporter l', if sent then event message (set_suppressed suppressed) ∷ [] else [])

-- The crash file when the program starts.
pub data CrashFile : Type 0 where
  missing unreadable : CrashFile
  contents : List ℕ → CrashFile

-- `strings.Cut` at the first line end.
abbrev pub first_line : List ℕ → List ℕ
first_line [] = []
first_line (c ∷ cs) = let rest = first_line cs in if c == 10 then [] else c ∷ rest

-- "crashed: "
abbrev pub crash_prefix : List ℕ
crash_prefix = 99 ∷ 114 ∷ 97 ∷ 115 ∷ 104 ∷ 101 ∷ 100 ∷ 58 ∷ 32 ∷ []

abbrev pub crash_report : List ℕ → List Sent
crash_report [] = []
crash_report (c ∷ cs) = crashed (crash_prefix ++ first_line (c ∷ cs)) (c ∷ cs) ∷ flushed ∷ []

-- The file is opened, which empties it, and given to the runtime.
abbrev pub open_crash_file :
    CrashFile → List Sent → Bool → Bool → Option ReporterError × CrashFile × List Sent
open_crash_file file sent false output = (some open_failed, file, sent)
open_crash_file file sent true false = (some output_failed, contents [], sent)
open_crash_file file sent true true = (none, contents [], sent)

-- `watchCrashes`, with whether the file can be opened and the runtime takes it.
unfoldable pub watch_crashes :
    CrashFile → Bool → Bool → Option ReporterError × CrashFile × List Sent
watch_crashes unreadable opens output = (some read_failed, unreadable, [])
watch_crashes missing opens output = open_crash_file missing [] opens output
watch_crashes (contents c) opens output = open_crash_file (contents c) (crash_report c) opens output

abbrev pub sentry_options : Option SentryOptions → SentryOptions
sentry_options none = record { dsn = ""; environment = ""; crash_file = "" }
sentry_options (some options) = options

-- Without a DSN: options that are there must have one.
abbrev pub without_dsn :
    {Rate : Type 0} → Option SentryOptions → Result ReporterError (Reporter Rate)
without_dsn none = ok nop_reporter
without_dsn (some _) = err missing_dsn

abbrev pub watched :
    {Rate : Type 0}
    → Reporter Rate
    → Option ReporterError × CrashFile × List Sent
    → Result ReporterError (Reporter Rate) × CrashFile × List Sent
watched r (none, file, sent) = (ok r, file, sent)
watched r (some e, file, sent) = (err e, file, sent ++ (flushed ∷ []))

-- `New` of builds with Sentry.
unfoldable pub new_reporter :
    {Rate : Type 0}
    → (ℕ → ℕ → Rate)
    → Option SentryOptions
    → String
    → Bool
    → CrashFile
    → Bool
    → Bool
    → Result ReporterError (Reporter Rate) × CrashFile × List Sent
unfolding watch_crashes
new_reporter new_limiter options dsn_variable initializes file opens output =
    let o = sentry_options options in
    let reporter = sentry_reporter (new_event_limiter new_limiter) in
    if str_eq o.dsn "" && str_eq dsn_variable ""
    then (without_dsn options, file, [])
    else if not initializes
    then (err initialize_failed, file, [])
    else if str_eq o.crash_file ""
    then (ok reporter, file, [])
    else watched reporter (watch_crashes file opens output)

-- `New` of builds without Sentry.
unfoldable pub new_stub_reporter :
    {Rate : Type 0} → Option SentryOptions → Result ReporterError (Reporter Rate)
new_stub_reporter none = ok nop_reporter
new_stub_reporter (some _) = err not_included

-- A crash is reported with all its text at the next start. When that start succeeds, or fails only
-- after it has emptied the file, the start after it reports nothing; so it does not report the crash
-- again.
pub watch_crashes_once :
    (c : ℕ) (cs : List ℕ) (opens output opens' output' : Bool)
    → let (e, file, sent) = watch_crashes (contents (c ∷ cs)) opens output in
      (sent ≡ crashed (crash_prefix ++ first_line (c ∷ cs)) (c ∷ cs) ∷ flushed ∷ [])
      × ((e ≡ some open_failed) ⊎ ((watch_crashes file opens' output').2 ≡ []))
unfolding watch_crashes
watch_crashes_once c cs false output opens' output' = (refl, inl refl)
watch_crashes_once c cs true false false output' = (refl, inr refl)
watch_crashes_once c cs true false true false = (refl, inr refl)
watch_crashes_once c cs true false true true = (refl, inr refl)
watch_crashes_once c cs true true false output' = (refl, inr refl)
watch_crashes_once c cs true true true false = (refl, inr refl)
watch_crashes_once c cs true true true true = (refl, inr refl)
