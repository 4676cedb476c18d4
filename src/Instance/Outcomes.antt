-- ===== src/Instance/Outcomes.antt =====
-- cmd/next-server/main.go: what `run` has done when it returns.
use mathlib.Core.List.{append-nil}
use ne_xt_server.Instance.Command.{
  Surroundings, after_start, Outcome, after_new, instance_event, close_command, after_decode, run,
  with_content, Decoded, CommandEvent,
}
use Prim.Native.String.{String}
use ne_xt_server.Instance.Life.{
  first_failed, InstanceEvent, new_servers, started_first, server_started, is_nil, InstanceError,
  start_instance, captures, start_instance_first, warned, reported_new, new_next_server,
  error_captured,
}
use ne_xt_server.Base.{
  ℕ, ◌+◌, ◌≡◌, refl, sym, ap, subst, inl, inr, Bool, true, false, Option, none, some, List, [], ◌∷◌,
  ◌++◌, map, arith, if◌then◌else◌, All, All-append,
}
use ne_xt_server.Instance.Command.{
  start_failed, context_canceled, create_failed, decode_failed, syntax_failed, read_failed, decoded,
  not_decoded, syntax_error,
}
use ne_xt_server.Base.Result.{Result, ok, err, Result-cases}

-- What a start does before anything goes wrong.
abbrev pub is_start : InstanceEvent → Bool
is_start warned = true
is_start (server_started index) = true
is_start _ = false

abbrev pub warnings : List String → List InstanceEvent
warnings missing = if is_nil missing then [] else warned ∷ []

warnings_start : (missing : List String) → All (λ x. is_start x ≡ true) (warnings missing)
warnings_start [] = tt
warnings_start (m ∷ missing) = (refl, tt)

started_start : (servers : List ℕ) → All (λ x. is_start x ≡ true) (map server_started servers)
started_start [] = tt
started_start (i ∷ servers) = (refl, started_start servers)

first_failed-none :
    (servers : List (ℕ × Bool))
    → first_failed servers ≡ none
    → started_first servers ≡ map (λ s. s.0) servers
first_failed-none [] h = refl
first_failed-none ((i, true) ∷ more) h = ap (λ x. i ∷ x) (first_failed-none more h)
first_failed-none ((i, false) ∷ more) h = absurd (cc h)

-- How a start goes: what happens before an error, which is captured at once, and everything if there is
-- none.
record Started (missing : List String) (servers : List ℕ)
    (r : List InstanceEvent × Option InstanceError) : Type 0 where
  before : List InstanceEvent
  ends : r.0 ≡ before ++ captures r.1
  starts : All (λ x. is_start x ≡ true) before
  whole : r.1 ≡ none → before ≡ warnings missing ++ map server_started servers

start_instance-Started :
    (log_starts : Bool) (missing : List String) (profiler_starts : Bool) (servers : List (ℕ × Bool))
    → Started missing
        (map (λ s. s.0) servers)
        (start_instance log_starts missing profiler_starts servers)
start_instance-Started false missing profiler_starts servers =
    unfold start_instance in
    record { before = []; ends = refl; starts = tt; whole = λ h. absurd (cc h) }
start_instance-Started true missing false servers =
    unfold start_instance in
    record {
      before = warnings missing;
      ends = refl;
      starts = warnings_start missing;
      whole = λ h. absurd (cc h);
    }
start_instance-Started true missing true servers =
    subst (Started missing (map (λ s. s.0) servers)) (sym (start_instance_first missing servers))
      (record {
        before = warnings missing ++ map server_started (started_first servers);
        ends = refl;
        starts =
            All-append (λ x. is_start x ≡ true) (warnings missing)
              (map server_started (started_first servers)) (warnings_start missing)
              (started_start (started_first servers));
        whole =
            λ h. ap (λ x. warnings missing ++ map server_started x) (first_failed-none servers h);
      })

-- The numbers of the servers.
abbrev pub indices : ℕ → List Bool → List ℕ
indices index [] = []
indices index (m ∷ made) = index ∷ indices (index + 1) made

new_servers-indices :
    (index : ℕ) (made : List Bool) (servers : List ℕ)
    → new_servers index made ≡ ok servers
    → servers ≡ indices index made
unfolding new_servers
new_servers-indices index [] servers h = ground arith
new_servers-indices index (false ∷ made) servers h = absurd (cc h)
new_servers-indices index (true ∷ made) servers h =
    elim (Result-cases (new_servers (index + 1) made)) [
      | inl (more, e) ↦ ground (arith, e, new_servers-indices (index + 1) made more e)
      | inr (x, e) ↦ absurd (ground (arith, e))
    ]

map_first :
    (f : ℕ → Bool) (servers : List ℕ)
    → map {A = ℕ × Bool} (λ s. s.0) (map (λ i. (i, f i)) servers) ≡ servers
map_first f [] = refl
map_first f (i ∷ servers) = ap (λ x. i ∷ x) (map_first f servers)

reported_ok :
    (r : Result InstanceError (List ℕ)) (servers : List ℕ)
    → (reported_new r).0 ≡ ok servers
    → r ≡ ok servers
unfolding reported_new
reported_ok (ok x) servers h = h
reported_ok (err e) servers h = absurd (cc h)

module _ (w : Surroundings) where
  -- What an outcome shows, for each error.
  Shows : Outcome → Type 0
  Shows (none, events) =
      (servers : List ℕ) × (servers ≡ indices 0 w.servers_made)
      × (events
          ≡ map instance_event (warnings w.missing_tags ++ map server_started servers)
            ++ close_command w.closes servers)
  Shows (some (start_failed e), events) =
      (before : List InstanceEvent) × All (λ x. is_start x ≡ true) before
      × (events ≡ map instance_event (before ++ (error_captured e ∷ [])) ++ (context_canceled ∷ []))
  Shows (some _, events) = Unit

  after_start-Shows :
      (servers : List ℕ) (r : List InstanceEvent × Option InstanceError)
      → servers ≡ indices 0 w.servers_made
      → Started w.missing_tags servers r
      → Shows (after_start w.closes servers r)
  unfolding Shows after_start
  after_start-Shows servers (events, none) all k =
      (servers, all, rw (k.ends, append-nil k.before, k.whole refl) refl)
  after_start-Shows servers (events, some e) all k = (k.before, k.starts, rw (k.ends) refl)

  after_new-Shows :
      (r : Result InstanceError (List ℕ) × List InstanceEvent)
      → ((servers : List ℕ) → r.0 ≡ ok servers → servers ≡ indices 0 w.servers_made)
      → Shows (after_new w r)
  unfolding after_new Shows
  after_new-Shows (err e, events) all = tt
  after_new-Shows (ok servers, events) all = after_start-Shows servers _ (all servers refl) (
      subst
        (λ x. Started w.missing_tags x (
          start_instance w.log_starts w.missing_tags w.profiler_starts
            (map (λ i. (i, w.server_starts i)) servers)))
        (map_first w.server_starts servers)
        (start_instance-Started w.log_starts w.missing_tags w.profiler_starts
          (map (λ i. (i, w.server_starts i)) servers)))

  new_next_server-indices :
      (reporter_made logger_made : Bool) (made : List Bool) (servers : List ℕ)
      → (new_next_server reporter_made logger_made made).0 ≡ ok servers
      → servers ≡ indices 0 made
  unfolding new_next_server reported_new
  new_next_server-indices reporter_made logger_made [] servers h = absurd (cc h)
  new_next_server-indices false logger_made (m ∷ made) servers h = absurd (cc h)
  new_next_server-indices true false (m ∷ made) servers h = absurd (cc h)
  new_next_server-indices true true (m ∷ made) servers h =
      new_servers-indices 0 (m ∷ made) servers (reported_ok (new_servers 0 (m ∷ made)) servers h)

  after_decode-Shows : (content : List ℕ) (d : Decoded) → Shows (after_decode w content d)
  unfolding after_decode Shows
  after_decode-Shows content not_decoded = tt
  after_decode-Shows content (syntax_error offset) = tt
  after_decode-Shows content decoded =
      after_new-Shows (new_next_server w.reporter_made w.logger_made w.servers_made)
        (new_next_server-indices w.reporter_made w.logger_made w.servers_made)

  with_content-Shows : (o : Option (List ℕ)) → Shows (with_content w o)
  unfolding with_content Shows
  with_content-Shows none = tt
  with_content-Shows (some content) = after_decode-Shows content (w.decode content)

  run-Shows : Shows (run w)
  unfolding run
  run-Shows = with_content-Shows w.file

  abbrev served_events : List ℕ → List CommandEvent
  served_events servers =
      map instance_event (warnings w.missing_tags ++ map server_started servers)
      ++ close_command w.closes servers

  shown_served :
      (o : Outcome) → Shows o → o.0 ≡ none → o.1 ≡ served_events (indices 0 w.servers_made)
  unfolding Shows
  shown_served (none, events) (servers, all, e) h = subst (λ x. events ≡ served_events x) all e
  shown_served (some e, events) k h = absurd (cc h)

  abbrev failed_events : List InstanceEvent → InstanceError → List CommandEvent
  failed_events before e =
      map instance_event (before ++ (error_captured e ∷ [])) ++ (context_canceled ∷ [])

  shown_failed :
      (o : Outcome) (x : InstanceError)
      → Shows o
      → o.0 ≡ some (start_failed x)
      → (before : List InstanceEvent) × All (λ y. is_start y ≡ true) before
        × (o.1 ≡ failed_events before x)
  unfolding Shows
  shown_failed (none, events) x k h = absurd (cc h)
  shown_failed (some (start_failed y), events) x (before, starts, e) h =
      let same : y ≡ x = cc h in
      (before, starts, subst (λ z. events ≡ failed_events before z) same e)
  shown_failed (some read_failed, events) x k h = absurd (cc h)
  shown_failed (some decode_failed, events) x k h = absurd (cc h)
  shown_failed (some (syntax_failed p), events) x k h = absurd (cc h)
  shown_failed (some (create_failed y), events) x k h = absurd (cc h)

  -- A run that returns no error has started every configured server, in order, with at most a warning
  -- before, and after the signal it has closed them all in the same order, then the profiler, the log
  -- and the reporter; an error of the close is logged, and the monitor is stopped last.
  pub run_served :
      (run w).0 ≡ none
      → (run w).1
        ≡ map instance_event
            (warnings w.missing_tags ++ map server_started (indices 0 w.servers_made))
          ++ close_command w.closes (indices 0 w.servers_made)
  run_served h = shown_served (run w) run-Shows h

  -- When an instance does not start, its error is captured after what did start, and then `run` returns:
  -- nothing is closed, neither a server that has started nor the profiler, nor the reporter, whose close
  -- sends what was captured.
  pub run_start_failed :
      (e : InstanceError)
      → (run w).0 ≡ some (start_failed e)
      → (before : List InstanceEvent) × All (λ x. is_start x ≡ true) before
        × ((run w).1
            ≡ map instance_event (before ++ (error_captured e ∷ [])) ++ (context_canceled ∷ []))
  run_start_failed e h = shown_failed (run w) e run-Shows h
