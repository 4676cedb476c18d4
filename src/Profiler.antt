-- ===== src/Profiler.antt =====
-- common/profiler/pprof.go: the profiler of builds with pprof, and pprof_stub.go: that of others. What
-- the file system, Go's profiler and the network answer is an argument; what is acquired and released
-- is a list of events.
use ne_xt_server.Base.{
  ◌≡◌, refl, ap, ◌∙◌, ◌⊎◌, inl, inr, Bool, true, false, not, ◌&&◌, Option, none, some, List, [],
  ◌∷◌, ◌++◌, if◌then◌else◌, Bool-cases,
}
use Prim.Native.String.{String}
use text.Mathlib.Text.{◌==◌ as str_eq}
use ne_xt_server.Base.Result.{Result, ok, err}

pub record PprofOptions : Type 0 where
  pub cpu_profile : String
  pub listen : String

pub data ProfilerError : Type 0 where
  create_failed start_failed listen_failed not_included : ProfilerError

pub data ProfilerEvent : Type 0 where
  file_created file_closed profile_started profile_stopped listening server_closed : ProfilerEvent

-- `profiler`: whether its file and its server are there. `nopCloser` has neither.
pub record Profiler : Type 0 where
  pub cpu_profile : Bool
  pub server : Bool

abbrev pub nop_closer : Profiler
nop_closer = record { cpu_profile = false; server = false }

-- `Close`: the server, then the profile.
unfoldable pub close_profiler : Profiler → List ProfilerEvent
close_profiler p =
    (if p.server then server_closed ∷ [] else [])
    ++ (if p.cpu_profile then profile_stopped ∷ file_closed ∷ [] else [])

-- The part of `Start` that records a profile, with whether the file can be created and the profile
-- started.
unfoldable pub start_cpu_profile :
    String → Bool → Bool → Result ProfilerError Profiler × List ProfilerEvent
start_cpu_profile path creates starts =
    if str_eq path ""
    then (ok nop_closer, [])
    else if not creates
    then (err create_failed, [])
    else if not starts
    then (err start_failed, file_created ∷ file_closed ∷ [])
    else (ok (record { cpu_profile = true; server = false }), file_created ∷ profile_started ∷ [])

-- The part that serves pprof: an error closes what was opened before.
unfoldable pub start_listener :
    String
    → Bool
    → Result ProfilerError Profiler × List ProfilerEvent
    → Result ProfilerError Profiler × List ProfilerEvent
unfolding close_profiler
start_listener address listens (err e, events) = (err e, events)
start_listener address listens (ok p, events) =
    if str_eq address ""
    then (ok p, events)
    else if not listens
    then (err listen_failed, events ++ close_profiler p)
    else (ok (record p { server = true }), events ++ (listening ∷ []))

-- `Start`
unfoldable pub start_profiler :
    Option PprofOptions → Bool → Bool → Bool → Result ProfilerError Profiler × List ProfilerEvent
unfolding start_cpu_profile start_listener
start_profiler none creates starts listens = (ok nop_closer, [])
start_profiler (some o) creates starts listens =
    start_listener o.listen listens (start_cpu_profile o.cpu_profile creates starts)

-- `Start` of builds without pprof.
unfoldable pub start_profiler_stub : Option PprofOptions → Result ProfilerError Profiler
start_profiler_stub none = ok nop_closer
start_profiler_stub (some o) = err not_included

-- What is held: the open file, the running profile, the server.
pub record Held : Type 0 where
  pub file : Bool
  pub profile : Bool
  pub server : Bool

abbrev pub nothing : Held
nothing = record { file = false; profile = false; server = false }

-- An event in its order: nothing is acquired twice or released before it is acquired, and a profile is
-- written to an open file from its start to its stop.
abbrev pub happen : Held → ProfilerEvent → Option Held
happen h file_created = if h.file then none else some (record h { file = true })
happen h file_closed = if h.file && not h.profile then some (record h { file = false }) else none
happen h profile_started =
    if h.file && not h.profile then some (record h { profile = true }) else none
happen h profile_stopped = if h.profile then some (record h { profile = false }) else none
happen h listening = if h.server then none else some (record h { server = true })
happen h server_closed = if h.server then some (record h { server = false }) else none

abbrev pub replay : Option Held → List ProfilerEvent → Option Held
replay o [] = o
replay none (e ∷ events) = none
replay (some h) (e ∷ events) = replay (happen h e) events

-- What the profiler should hold.
abbrev pub held_by : Profiler → Held
held_by p = record { file = p.cpu_profile; profile = p.cpu_profile; server = p.server }

replay-append :
    (o : Option Held) (xs ys : List ProfilerEvent) → replay o (xs ++ ys) ≡ replay (replay o xs) ys
replay-append o [] ys = refl
replay-append none (x ∷ xs) [] = refl
replay-append none (x ∷ xs) (y ∷ ys) = refl
replay-append (some h) (x ∷ xs) ys = replay-append (happen h x) xs ys

-- A close releases what the profiler holds.
close_replay : (p : Profiler) → replay (some (held_by p)) (close_profiler p) ≡ some nothing
unfolding close_profiler
close_replay p = elim (Bool-cases p.cpu_profile) [
  | inl c ↦ elim (Bool-cases p.server) [ inl k ↦ rw (c, k) refl | inr k ↦ rw (c, k) refl ]
  | inr c ↦ elim (Bool-cases p.server) [ inl k ↦ rw (c, k) refl | inr k ↦ rw (c, k) refl ]
]

-- What a part of the start leaves: all released after an error, and else what is asked for.
abbrev Leaves : Bool → Bool → Result ProfilerError Profiler × List ProfilerEvent → Type 0
Leaves cpu server (err e, events) = replay (some nothing) events ≡ some nothing
Leaves cpu server (ok p, events) =
    (p.cpu_profile ≡ cpu) × (p.server ≡ server) × (replay (some nothing) events ≡ some (held_by p))

start_cpu_profile-Leaves :
    (path : String) (creates starts : Bool)
    → Leaves (not (str_eq path "")) false (start_cpu_profile path creates starts)
unfolding start_cpu_profile
start_cpu_profile-Leaves path creates starts = elim (Bool-cases (str_eq path "")) [
  | inl e ↦ rw e (refl, refl, refl)
  | inr e ↦ elim (Bool-cases creates) [
    | inl c ↦ elim (Bool-cases starts) [
      | inl k ↦ rw (e, c, k) (refl, refl, refl)
      | inr k ↦ rw (e, c, k) refl
    ]
    | inr c ↦ rw (e, c) refl
  ]
]

start_listener-Leaves :
    (address : String) (listens cpu : Bool) (r : Result ProfilerError Profiler × List ProfilerEvent)
    → Leaves cpu false r
    → Leaves cpu (not (str_eq address "")) (start_listener address listens r)
unfolding start_listener
start_listener-Leaves address listens cpu (err e, events) k = k
start_listener-Leaves address listens cpu (ok p, events) (c, n, held) =
    elim (Bool-cases (str_eq address "")) [
      | inl e ↦ rw e (c, n, held)
      | inr e ↦ elim (Bool-cases listens) [
        | inl l ↦
            rw (e, l)
              (
                c,
                refl,
                replay-append (some nothing) events (listening ∷ [])
                    ∙ ap (λ x. replay x (listening ∷ [])) held
                    ∙ rw n refl,
              )
        | inr l ↦
            rw (e, l)
              (replay-append (some nothing) events (close_profiler p)
                ∙ ap (λ x. replay x (close_profiler p)) held
                ∙ close_replay p)
      ]
    ]

Started : Bool → Bool → Result ProfilerError Profiler × List ProfilerEvent → Type 0
Started cpu server r =
    ((e : ProfilerError) × (r.0 ≡ err e) × (replay (some nothing) r.1 ≡ some nothing))
    ⊎ ((p : Profiler) × (r.0 ≡ ok p)
        × (p.cpu_profile ≡ cpu)
        × (p.server ≡ server)
        × (replay (some nothing) r.1 ≡ some (held_by p))
        × (replay (some nothing) (r.1 ++ close_profiler p) ≡ some nothing))

Leaves-Started :
    (cpu server : Bool) (r : Result ProfilerError Profiler × List ProfilerEvent)
    → Leaves cpu server r
    → Started cpu server r
unfolding Started
Leaves-Started cpu server (err e, events) k = inl (e, refl, k)
Leaves-Started cpu server (ok p, events) (c, n, held) = inr (
  p,
  refl,
  c,
  n,
  held,
  replay-append (some nothing) events (close_profiler p)
      ∙ ap (λ x. replay x (close_profiler p)) held
      ∙ close_replay p,
)

-- A start that fails has released all that it acquired, in order. After one that succeeds the profiler
-- holds a profile and its file exactly if the options name one, and a server exactly if they name an
-- address; and its close releases all of that, and nothing else.
pub start_profiler_holds :
    (o : PprofOptions) (creates starts listens : Bool)
    → let (r, events) = start_profiler (some o) creates starts listens in
      ((e : ProfilerError) × (r ≡ err e) × (replay (some nothing) events ≡ some nothing))
      ⊎ ((p : Profiler) × (r ≡ ok p)
          × (p.cpu_profile ≡ not (str_eq o.cpu_profile ""))
          × (p.server ≡ not (str_eq o.listen ""))
          × (replay (some nothing) events ≡ some (held_by p))
          × (replay (some nothing) (events ++ close_profiler p) ≡ some nothing))
unfolding start_profiler Started
start_profiler_holds o creates starts listens =
    let r = start_cpu_profile o.cpu_profile creates starts in
    Leaves-Started (not (str_eq o.cpu_profile "")) (not (str_eq o.listen ""))
      (start_listener o.listen listens r)
      (start_listener-Leaves o.listen listens (not (str_eq o.cpu_profile "")) r
        (start_cpu_profile-Leaves o.cpu_profile creates starts))
