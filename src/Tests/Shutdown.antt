-- ===== src/Tests/Shutdown.antt =====
-- The command, the monitor of its close, and the profiler at concrete inputs.
use ne_xt_server.Instance.Shutdown.{
  ClosingParts, monitored_close, ClosingServer, monitored_close_one, monitored_close_kills,
}
use ne_xt_server.Instance.Outcomes.{is_start, run_start_failed}
use ne_xt_server.Base.{
  ◌*◌, ◌≡◌, refl, ◌⊎◌, true, false, not, some, List, [], ◌∷◌, ◌++◌, map, arith, ◌==◌, All,
}
use ne_xt_server.Inbound.Accept.{second}
use ne_xt_server.Instance.Life.{
  server_failed, server_closed, error_captured, InstanceEvent, close_instance, new_next_server,
  start_instance,
}
use ne_xt_server.Instance.Command.{
  Surroundings, decoded, run, start_failed, instance_event, context_canceled,
}
use ne_xt_server.Profiler.{
  Profiler, ProfilerError, PprofOptions, start_profiler, close_profiler, replay, nothing, held_by,
  start_profiler_holds, file_created, profile_started, profile_stopped, file_closed,
}
use text.Mathlib.Text.{◌==◌ as str_eq}
use ne_xt_server.Base.Result.{ok, err}

-- A server whose panel is gone.
abbrev stuck : ClosingServer
stuck = record { stops = 1000; has_traffic = true; answers = 60 * second; timeout = 30 * second }

abbrev parts : ClosingParts
parts = record { profiler = some 2000; log = 10; reporter = 3 * second }

monitored_close_one_example :
    monitored_close ((0, stuck) ∷ []) parts ≡ (close_instance (0 ∷ []) true, false)
monitored_close_one_example = monitored_close_one 0 stuck parts (omega arith)

monitored_close_kills_example :
    let (closed, killed) = monitored_close ((0, stuck) ∷ (1, stuck) ∷ []) parts in
    (killed ≡ true) × ((closed ≡ []) ⊎ (closed ≡ server_closed 0 ∷ []))
monitored_close_kills_example =
    monitored_close_kills 0 1 stuck stuck [] parts refl refl (omega arith) (omega arith)
      (omega arith) (omega arith)

-- The second of two servers does not start.
abbrev surroundings : Surroundings
surroundings = record {
  file = some (123 ∷ 125 ∷ []);
  decode = λ content. decoded;
  reporter_made = true;
  logger_made = true;
  servers_made = true ∷ true ∷ [];
  log_starts = true;
  missing_tags = "with_quic" ∷ [];
  profiler_starts = true;
  server_starts = λ i. i == 0;
  closes = true;
}

fails : (run surroundings).0 ≡ some (start_failed (server_failed 1))
unfolding run new_next_server start_instance
fails = refl

run_start_failed_example :
    (before : List InstanceEvent) × All (λ x. is_start x ≡ true) before
    × ((run surroundings).1
        ≡ map instance_event (before ++ (error_captured (server_failed 1) ∷ []))
          ++ (context_canceled ∷ []))
run_start_failed_example = run_start_failed surroundings (server_failed 1) fails

abbrev pprof : PprofOptions
pprof = record { cpu_profile = "cpu.prof"; listen = "127.0.0.1:6060" }

-- The address is taken.
listen_fails :
    (start_profiler (some pprof) true true false).1
    ≡ (file_created ∷ profile_started ∷ profile_stopped ∷ file_closed ∷ [])
unfolding start_profiler
listen_fails = refl

start_profiler_holds_example :
    let (r, events) = start_profiler (some pprof) true true false in
    ((e : ProfilerError) × (r ≡ err e) × (replay (some nothing) events ≡ some nothing))
    ⊎ ((p : Profiler) × (r ≡ ok p)
        × (p.cpu_profile ≡ not (str_eq pprof.cpu_profile ""))
        × (p.server ≡ not (str_eq pprof.listen ""))
        × (replay (some nothing) events ≡ some (held_by p))
        × (replay (some nothing) (events ++ close_profiler p) ≡ some nothing))
start_profiler_holds_example = start_profiler_holds pprof true true false
