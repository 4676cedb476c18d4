-- ===== src/Instance/Life.antt =====
-- nextserver.go: `New`, `Start` and `Close` of the instance, by what each part answers; and
-- `MissingDefaultBuildTags` of constant/build.go.
use mathlib.Core.List.{append-nil}
use Prim.Native.String.{String}
use text.Mathlib.Text.{◌==◌ as str_eq}
use ne_xt_server.Base.{
  ℕ, ◌+◌, ◌≡◌, refl, sym, ap, Bool, true, false, not, Option, none, some, List, [], ◌∷◌, ◌++◌, map,
  arith, if◌then◌else◌, any,
}
use ne_xt_server.Base.Result.{Result, ok, err}

pub data InstanceError : Type 0 where
  no_servers reporter_failed logger_failed start_logger_failed profiler_failed : InstanceError
  server_failed : ℕ → InstanceError

-- What happens, in order; a server is its index.
pub data InstanceEvent : Type 0 where
  error_captured : InstanceError → InstanceEvent
  reporter_closed profiler_closed log_closed warned : InstanceEvent
  server_started server_closed : ℕ → InstanceEvent

-- The loop of `newInstance`, with whether each server can be made.
unfoldable pub new_servers : ℕ → List Bool → Result InstanceError (List ℕ)
new_servers index [] = ok []
new_servers index (made ∷ more) =
    let rest = new_servers (index + 1) more in
    if not made
    then err (server_failed index)
    else elim rest [ err e ↦ err e | ok servers ↦ ok (index ∷ servers) ]

-- `newInstance`
abbrev pub new_instance : Bool → List Bool → Result InstanceError (List ℕ)
new_instance logger_made made =
    let servers = new_servers 0 made in if logger_made then servers else err logger_failed

-- An error is captured, and the reporter closed.
unfoldable pub reported_new :
    Result InstanceError (List ℕ) → Result InstanceError (List ℕ) × List InstanceEvent
reported_new (ok servers) = (ok servers, [])
reported_new (err e) = (err e, error_captured e ∷ reporter_closed ∷ [])

-- `New`
unfoldable pub new_next_server :
    Bool → Bool → List Bool → Result InstanceError (List ℕ) × List InstanceEvent
unfolding reported_new new_servers
new_next_server reporter_made logger_made [] = (err no_servers, [])
new_next_server reporter_made logger_made (m ∷ made) =
    if not reporter_made
    then (err reporter_failed, [])
    else reported_new (new_instance logger_made (m ∷ made))

-- The loop of `start`, with whether each server starts.
unfoldable pub start_servers : List (ℕ × Bool) → List InstanceEvent × Option InstanceError
start_servers [] = ([], none)
start_servers ((index, starts) ∷ more) =
    let (events, e) = start_servers more in
    if starts then (server_started index ∷ events, e) else ([], some (server_failed index))

captured : List InstanceEvent × Option InstanceError → List InstanceEvent × Option InstanceError
captured (events, none) = (events, none)
captured (events, some e) = (events ++ (error_captured e ∷ []), some e)

abbrev pub is_nil {ℓ} : {A : Type ℓ} → List A → Bool
is_nil [] = true
is_nil (_ ∷ _) = false

-- `Start`, and what it calls; `missing` are the build tags that are missing.
unfoldable pub start_instance :
    Bool → List String → Bool → List (ℕ × Bool) → List InstanceEvent × Option InstanceError
unfolding captured start_servers
start_instance log_starts missing profiler_starts servers =
    if not log_starts
    then captured ([], some start_logger_failed)
    else let warnings = if is_nil missing then [] else warned ∷ [] in
      if not profiler_starts
      then captured (warnings, some profiler_failed)
      else let (events, e) = start_servers servers in captured (warnings ++ events, e)

-- `Close`: the servers, then the profiler if there is one, then the log, and the reporter last.
unfoldable pub close_instance : List ℕ → Bool → List InstanceEvent
close_instance servers profiler =
    map server_closed servers
    ++ (if profiler then profiler_closed ∷ [] else [])
    ++ (log_closed ∷ reporter_closed ∷ [])

abbrev pub default_build_tags : List String
default_build_tags = "with_acme" ∷ "with_utls" ∷ "with_quic" ∷ []

unfoldable pub missing_of : List String → List String → List String
missing_of build_tags [] = []
missing_of build_tags (tag ∷ tags) =
    let rest = missing_of build_tags tags in
    if not (any (λ t. str_eq t tag) build_tags) then tag ∷ rest else rest

unfoldable pub missing_default_build_tags : List String → List String
unfolding missing_of
missing_default_build_tags build_tags = missing_of build_tags default_build_tags

-- The servers that start before the first that does not.
abbrev pub started_first : List (ℕ × Bool) → List ℕ
started_first [] = []
started_first ((index, starts) ∷ more) =
    let rest = started_first more in if starts then index ∷ rest else []

abbrev pub first_failed : List (ℕ × Bool) → Option InstanceError
first_failed [] = none
first_failed ((index, starts) ∷ more) =
    let rest = first_failed more in if starts then rest else some (server_failed index)

start_servers_first :
    (servers : List (ℕ × Bool))
    → start_servers servers ≡ (map server_started (started_first servers), first_failed servers)
unfolding start_servers
start_servers_first [] = refl
start_servers_first ((index, starts) ∷ more) = ground (arith, start_servers_first more)

abbrev pub captures : Option InstanceError → List InstanceEvent
captures none = []
captures (some e) = error_captured e ∷ []

captured-captures :
    (events : List InstanceEvent) (e : Option InstanceError)
    → captured (events, e) ≡ (events ++ captures e, e)
unfolding captured
captured-captures events none = ap (λ x. (x, none)) (sym (append-nil events))
captured-captures events (some e) = refl

-- A start whose log and profiler start starts the servers in order up to the first that fails, returns
-- that server's error, and captures it once, after all that; without a failure it captures nothing.
pub start_instance_first :
    (missing : List String) (servers : List (ℕ × Bool))
    → start_instance true missing true servers ≡ (
      ((if is_nil missing then [] else warned ∷ []) ++ map server_started (started_first servers))
          ++ captures (first_failed servers),
      first_failed servers,
    )
unfolding start_instance
start_instance_first missing servers = rw (start_servers_first servers) (
    captured-captures
      ((if is_nil missing then [] else warned ∷ []) ++ map server_started (started_first servers))
      (first_failed servers))
