-- ===== src/Instance/Shutdown.antt =====
-- cmd/next-server/main.go: `closeMonitor` beside the close of the instance (nextserver.go), with how
-- long each part of the close takes, in nanoseconds.
use ne_xt_server.Base.{
  ℕ, ◌+◌, ◌-◌, ◌*◌, ◌≤◌, ◌≡◌, refl, ap₂, ◌∙◌, ◌⊎◌, inl, inr, Bool, true, false, Option, none, some,
  List, [], ◌∷◌, ◌++◌, map, arith, ltb, leb, if◌then◌else◌, Bool-cases, Option-cases, min,
}
use ne_xt_server.Instance.Life.{
  InstanceEvent, close_instance, log_closed, profiler_closed, server_closed, reporter_closed,
}
use ne_xt_server.Inbound.Accept.{second}

-- How a server closes: the time until its loops have ended and its node server and connections are
-- closed, whether traffic is left to report, the time after which the panel would answer, and the
-- timeout of the panel's HTTP client.
pub record ClosingServer : Type 0 where
  pub stops : ℕ
  pub has_traffic : Bool
  pub answers : ℕ
  pub timeout : ℕ

-- How long the other parts take; there may be no profiler.
pub record ClosingParts : Type 0 where
  pub profiler : Option ℕ
  pub log : ℕ
  pub reporter : ℕ

-- `constant.FinalPushTimeout`, which the context of the last report has.
abbrev pub final_push_timeout : ℕ
final_push_timeout = 10 * second

abbrev pub monitor_delay : ℕ
monitor_delay = final_push_timeout + 5 * second

abbrev pub close_time : ClosingServer → ℕ
close_time s =
    s.stops + (if s.has_traffic then min s.answers (min s.timeout final_push_timeout) else 0)

-- The parts of `Close`, one after the other, with their times.
abbrev pub Task : Type 0
Task = InstanceEvent × ℕ

abbrev has_profiler : Option ℕ → Bool
has_profiler none = false
has_profiler (some _) = true

abbrev server_tasks : List (ℕ × ClosingServer) → List Task
server_tasks [] = []
server_tasks ((index, s) ∷ servers) = (server_closed index, close_time s) ∷ server_tasks servers

abbrev profiler_tasks : Option ℕ → List Task
profiler_tasks none = []
profiler_tasks (some time) = (profiler_closed, time) ∷ []

unfoldable pub close_tasks : List (ℕ × ClosingServer) → ClosingParts → List Task
close_tasks servers parts =
    server_tasks servers
    ++ profiler_tasks parts.profiler
    ++ ((log_closed, parts.log) ∷ (reporter_closed, parts.reporter) ∷ [])

abbrev pub total : List Task → ℕ
total [] = 0
total ((e, time) ∷ tasks) = time + total tasks

-- The parts that end within a time.
unfoldable pub finished_by : ℕ → List Task → List InstanceEvent
finished_by time [] = []
finished_by time ((e, t) ∷ tasks) =
    let rest = finished_by (time - t) tasks in if leb t time then e ∷ rest else []

-- The close of the program: what is closed, and whether `closeMonitor` kills the process before the
-- rest is.
unfoldable pub monitored_close : List (ℕ × ClosingServer) → ClosingParts → List InstanceEvent × Bool
unfolding close_tasks finished_by
monitored_close servers parts =
    let tasks = close_tasks servers parts in
    (finished_by monitor_delay tasks, ltb monitor_delay (total tasks))

finished_all :
    (time : ℕ) (tasks : List Task)
    → total tasks ≤ time
    → finished_by time tasks ≡ map (λ t. t.0) tasks
unfolding finished_by
finished_all time [] h = refl
finished_all time ((e, t) ∷ tasks) h = ground (arith, finished_all (time - t) tasks)

one_total :
    (index : ℕ) (s : ClosingServer) (parts : ClosingParts)
    → s.stops + total (profiler_tasks parts.profiler) + parts.log + parts.reporter ≤ 5 * second
    → total (close_tasks ((index, s) ∷ []) parts) ≤ monitor_delay
unfolding close_tasks
one_total index s parts h = elim (Option-cases parts.profiler) [
  | inl e ↦ ground arith
  | inr (time, e) ↦ ground arith
]

one_events :
    (index : ℕ) (s : ClosingServer) (parts : ClosingParts)
    → map (λ t. t.0) (close_tasks ((index, s) ∷ []) parts)
      ≡ close_instance (index ∷ []) (has_profiler parts.profiler)
unfolding close_tasks close_instance
one_events index s parts = elim (Option-cases parts.profiler) [
  | inl e ↦ rw e refl
  | inr (time, e) ↦ rw e refl
]

-- The monitor is patient enough for one server: whenever the panel answers its last report, or does not
-- at all, the program closes everything and is not killed, if all the rest takes 5 seconds at most.
pub monitored_close_one :
    (index : ℕ) (s : ClosingServer) (parts : ClosingParts)
    → s.stops + total (profiler_tasks parts.profiler) + parts.log + parts.reporter ≤ 5 * second
    → monitored_close ((index, s) ∷ []) parts
      ≡ (close_instance (index ∷ []) (has_profiler parts.profiler), false)
unfolding monitored_close
monitored_close_one index s parts h =
    let tasks = close_tasks ((index, s) ∷ []) parts in
    let short : total tasks ≤ monitor_delay = one_total index s parts h in
    ap₂ (λ a b. (a, b)) (finished_all monitor_delay tasks short ∙ one_events index s parts)
      (ground arith)

late_time :
    (s : ClosingServer)
    → s.has_traffic ≡ true
    → final_push_timeout ≤ s.answers
    → final_push_timeout ≤ s.timeout
    → final_push_timeout ≤ close_time s
late_time s h late patient = ground arith

late_pair :
    (a b : ℕ) (e e' : InstanceEvent) (rest : List Task)
    → final_push_timeout ≤ a
    → final_push_timeout ≤ b
    → let tasks = (e, a) ∷ (e', b) ∷ rest in
      (ltb monitor_delay (total tasks) ≡ true)
      × ((finished_by monitor_delay tasks ≡ []) ⊎ (finished_by monitor_delay tasks ≡ e ∷ []))
unfolding finished_by
late_pair a b e e' rest h h' =
    let over : ltb monitor_delay (a + (b + total rest)) ≡ true = ground arith in
    let second_late : leb b (monitor_delay - a) ≡ false = ground arith in
    elim (Bool-cases (leb a monitor_delay)) [
      | inl k ↦ (over, inr (rw (k, second_late) refl))
      | inr k ↦ (over, inl (rw k refl))
    ]

-- The monitor is not patient enough for several servers: if the panel does not answer the last reports of
-- the first two in time, and the timeouts of their HTTP clients are not shorter than that of the last
-- report, the process is killed, and at most the first server is closed by then: none of the others, nor
-- the profiler, the log and the reporter.
pub monitored_close_kills :
    (i j : ℕ) (s s' : ClosingServer) (more : List (ℕ × ClosingServer)) (parts : ClosingParts)
    → s.has_traffic ≡ true
    → s'.has_traffic ≡ true
    → final_push_timeout ≤ s.answers
    → final_push_timeout ≤ s'.answers
    → final_push_timeout ≤ s.timeout
    → final_push_timeout ≤ s'.timeout
    → let (closed, killed) = monitored_close ((i, s) ∷ (j, s') ∷ more) parts in
      (killed ≡ true) × ((closed ≡ []) ⊎ (closed ≡ server_closed i ∷ []))
unfolding monitored_close close_tasks
monitored_close_kills i j s s' more parts h h' late late' patient patient' =
    late_pair (close_time s) (close_time s') (server_closed i) (server_closed j)
      (server_tasks more
        ++ profiler_tasks parts.profiler
        ++ ((log_closed, parts.log) ∷ (reporter_closed, parts.reporter) ∷ []))
      (late_time s h late patient) (late_time s' h' late' patient')
