-- ===== src/Shells/Shell.antt =====
-- Shell (app/shells/shell.py): the state behind the shell's lock, and each critical section as one
-- function. The threads (the reader, the timers, the callers) take the lock for one of them each, so
-- a run is a sequence of them. The pipe, the signals and the process are the host's: what it answers
-- is an argument, and what is sent to it an entry of `sent`.
pub mod Output
pub mod Exits
pub mod Sound
pub mod Runs
mod Tests
pub mod Commands
use environments_api.Common.{
  ℕ, ◌+◌, ◌*◌, String, Bool, true, false, ◌&&◌, Option, none, some, List, [], ◌∷◌, ◌++◌, ◌==◌,
  if◌then◌else◌,
}
use environments_api.Common.Int.{ℤ, pos, negsuc}
use environments_api.Common.Error.{
  Error, validation_error, shell_not_running, shell_busy, sandbox_error, conflict,
}
use environments_api.Common.Result.{Result, ok, err}
use environments_api.Environments.Records.{
  ShellState, running, closed, dead, CommandState, exited, timed_out, shell_died, is_running,
}
use environments_api.Shells.Buffer.{RingBuffer, end_of, append}
use environments_api.Shells.Framing.{Frame, Event, output, framed}
use environments_api.Shells.Framing
use environments_api.Shells.Framing.Raw.{raw}
use environments_api.Shells.Redact.{Redactor, Secret}
use environments_api.Shells.Redact
use environments_api.Shells.Log.{LogWriter, open_log}
use environments_api.Shells.Log

pub record CommandRecord : Type 0 where
  pub id : String
  pub command : List ℕ
  pub state : CommandState
  pub started_at : ℕ
  pub output_start : ℕ
  pub timeout_ms : Option ℕ
  pub nonce : List ℕ
  pub log : LogWriter
  pub exit_code : Option ℤ
  pub finished_at : Option ℕ
  pub output_end : Option ℕ
  pub log_bytes : ℕ
  pub log_truncated : Bool
  pub timed_out : Bool

-- `closed`, `signal:n`, `exit:n`, or what `mark_dead` was given.
pub data DeadReason : Type 0 where
  closing : DeadReason
  signalled exited_with : ℕ → DeadReason
  marked : String → DeadReason

-- What is sent to the process: bytes of its input, a signal to everything below the shell, and a
-- signal to its group and everything below.
pub data Sent : Type 0 where
  input : List ℕ → Sent
  to_descendants to_group : ℕ → Sent

-- What a timer calls for a command.
pub data Timer : Type 0 where
  timeout escalation : String → Timer

-- `self.commands` is `past` and then `current`: the running command is the last that was appended.
-- `parser` is what the reader's parser holds back.
pub record Shell : Type 0 where
  pub max_log_bytes : ℕ
  pub has_tty : Bool
  pub state : ShellState
  pub dead_reason : Option DeadReason
  pub exit_status : Option ℤ
  pub last_activity : ℕ
  pub buffer : RingBuffer
  pub current : Option CommandRecord
  pub redactor : Option Redactor
  pub closing : Bool
  pub past : List CommandRecord
  pub timers : List Timer
  pub stdin_open : Bool
  pub parser : List ℕ
  pub sent : List Sent

abbrev pub history_limit : ℕ
history_limit = 200

abbrev pub max_command_bytes : ℕ
max_command_bytes = 1024 * 1024

abbrev pub sigkill : ℕ
sigkill = 9

abbrev pub sigterm : ℕ
sigterm = 15

unfoldable pub bytes_eq : List ℕ → List ℕ → Bool
bytes_eq [] [] = true
bytes_eq [] (y ∷ ys) = false
bytes_eq (x ∷ xs) [] = false
bytes_eq (x ∷ xs) (y ∷ ys) = (x == y) && bytes_eq xs ys

-- `current.log.write(data)`
abbrev pub log_to : List ℕ → Option CommandRecord → Option CommandRecord
log_to d none = none
log_to d (some c) = some (record c { log = Log.write c.log d })

-- The redactor's part of `_emit`.
unfoldable pub redacted : Option Redactor → List ℕ → List ℕ × Option Redactor
redacted none d = (d, none)
redacted (some r) d = let fed = Redact.feed r d in (fed.0, some fed.1)

unfoldable pub emit : ℕ → List ℕ → Shell → Shell
unfolding redacted
emit now [] s = s
emit now (x ∷ d) s =
    let shown = redacted s.redactor (x ∷ d) in
    record s {
      redactor = shown.1;
      buffer = append s.buffer shown.0;
      current = log_to shown.0 s.current;
      last_activity = now;
    }

-- The tail that `_finish` releases first.
unfoldable pub release : ℕ → Shell → Shell
release now s = elim s.redactor [
  | none ↦ s
  | some r ↦ emit now (Redact.flush r).0 (record s { redactor = none })
]

abbrev pub final_state : Bool → Bool → CommandState
final_state late died = if late then timed_out else if died then shell_died else exited

unfoldable pub ended : ℕ → Option ℤ → Bool → ℕ → CommandRecord → CommandRecord
ended now code died stop c = record c {
  exit_code = code;
  finished_at = some now;
  output_end = some stop;
  log_bytes = c.log.written;
  log_truncated = c.log.truncated;
  log = Log.close c.log;
  state = final_state c.timed_out died;
}

finish_current : ℕ → Option ℤ → Bool → Shell → Option CommandRecord → Shell
finish_current now code died s none = s
finish_current now code died s (some c) = record s {
  past = s.past ++ (ended now code died (end_of s.buffer) c ∷ []);
  current = none;
  last_activity = now;
}

finish_if : ℕ → Option ℤ → Bool → Shell → Option CommandRecord → Shell
unfolding finish_current
finish_if now code died s none = s
finish_if now code died s (some c) =
    let s' = release now s in finish_current now code died s' s'.current

-- `_finish`, which is called with the current command alone, and not called without one.
unfoldable pub finish : ℕ → Option ℤ → Bool → Shell → Shell
unfolding finish_if
finish now code died s = finish_if now code died s s.current

abbrev is_ours : Frame → Option CommandRecord → Bool
is_ours f none = false
is_ours f (some c) = bytes_eq f.nonce c.nonce

unfoldable pub handle_event : ℕ → Shell → Event → Shell
handle_event now s (output d) = emit now d s
handle_event now s (framed f) =
    if is_ours f s.current then finish now (some f.exit_code) false s else emit now (raw f) s

-- `_handle`
unfoldable pub handle : ℕ → List Event → Shell → Shell
handle now [] s = s
handle now (e ∷ es) s = handle now es (handle_event now s e)

-- One round of `_read_loop`; `none` stands for a parser that does not return.
unfoldable pub read_chunk : ℕ → List ℕ → Shell → Option Shell
read_chunk now chunk s = elim (Framing.feed s.parser chunk) [
  | none ↦ none
  | some (events, pending) ↦ some (handle now events (record s { parser = pending }))
]

abbrev pub code_of : ℤ → Option ℤ
code_of (pos n) = some (pos n)
code_of (negsuc n) = none

abbrev reason_of : ℤ → DeadReason
reason_of (pos n) = exited_with n
reason_of (negsuc n) = signalled (n + 1)

-- `_on_exit`
unfoldable pub on_exit : ℕ → ℤ → Shell → Shell
on_exit now status s =
    let s' = finish now (code_of status) true s in
    record s' {
      exit_status = some status;
      state = if s'.closing then closed else dead;
      dead_reason = some (if s'.closing then DeadReason.closing else reason_of status);
      timers = [];
      stdin_open = false;
    }

-- The end of the stream in `_read_loop`.
unfoldable pub end_of_stream : ℕ → ℤ → Shell → Shell
unfolding on_exit
end_of_stream now status s =
    on_exit now status (emit now (Framing.flush s.parser).0 (record s { parser = [] }))
