-- ===== src/Instance/Command.antt =====
-- cmd/next-server/main.go: `run`. What the file system, the decoder and the parts of the program answer
-- is an argument.
use Prim.Native.String.{String}
use ne_xt_server.Instance.Position.{row_column}
use ne_xt_server.Instance.Life.{
  InstanceError, InstanceEvent, close_instance, start_instance, new_next_server,
}
use ne_xt_server.Base.{
  ℕ, Bool, true, Option, none, some, List, [], ◌∷◌, ◌++◌, map, if◌then◌else◌, take,
}
use ne_xt_server.Base.Result.{Result, ok, err}

-- What the decoder makes of the configuration file: options, a syntax error at an offset, or another
-- error.
pub data Decoded : Type 0 where
  decoded : Decoded
  syntax_error : ℕ → Decoded
  not_decoded : Decoded

pub data CommandError : Type 0 where
  read_failed decode_failed : CommandError
  syntax_failed : ℕ × ℕ → CommandError
  create_failed start_failed : InstanceError → CommandError

-- What happens: to the instance, and in `run` itself.
pub data CommandEvent : Type 0 where
  instance_event : InstanceEvent → CommandEvent
  context_canceled signal_received close_error_logged monitor_stopped : CommandEvent

-- What the surroundings answer: the configuration file and what it decodes to, whether the reporter, the
-- logger and each server can be made, whether the log, the profiler and each server start, and whether
-- the instance closes without an error.
pub record Surroundings : Type 0 where
  pub file : Option (List ℕ)
  pub decode : List ℕ → Decoded
  pub reporter_made : Bool
  pub logger_made : Bool
  pub servers_made : List Bool
  pub log_starts : Bool
  pub missing_tags : List String
  pub profiler_starts : Bool
  pub server_starts : ℕ → Bool
  pub closes : Bool

abbrev pub Outcome : Type 0
Outcome = Option CommandError × List CommandEvent

-- From the signal on.
unfoldable pub close_command : Bool → List ℕ → List CommandEvent
close_command closes servers =
    signal_received ∷ context_canceled ∷ []
    ++ (map instance_event (close_instance servers true)
        ++ (if closes then [] else close_error_logged ∷ [])
        ++ (monitor_stopped ∷ []))

unfoldable pub after_start : Bool → List ℕ → List InstanceEvent × Option InstanceError → Outcome
unfolding close_command
after_start closes servers (events, some e) =
    (some (start_failed e), map instance_event events ++ (context_canceled ∷ []))
after_start closes servers (events, none) =
    (none, map instance_event events ++ close_command closes servers)

unfoldable pub after_new :
    Surroundings → Result InstanceError (List ℕ) × List InstanceEvent → Outcome
unfolding after_start
after_new w (err e, events) =
    (some (create_failed e), map instance_event events ++ (context_canceled ∷ []))
after_new w (ok servers, events) = after_start w.closes servers (
    start_instance w.log_starts w.missing_tags w.profiler_starts
      (map (λ i. (i, w.server_starts i)) servers))

unfoldable pub after_decode : Surroundings → List ℕ → Decoded → Outcome
unfolding after_new
after_decode w content not_decoded = (some decode_failed, [])
after_decode w content (syntax_error offset) =
    (some (syntax_failed (row_column (take offset content))), [])
after_decode w content decoded =
    after_new w (new_next_server w.reporter_made w.logger_made w.servers_made)

unfoldable pub with_content : Surroundings → Option (List ℕ) → Outcome
unfolding after_decode
with_content w none = (some read_failed, [])
with_content w (some content) = after_decode w content (w.decode content)

-- `run`: the error that it returns, and what happens.
unfoldable pub run : Surroundings → Outcome
unfolding with_content
run w = with_content w w.file
