-- ===== src/Shells/Shell/Commands.antt =====
-- Shell's methods (app/shells/shell.py): exec with its credentials, input, timeouts and closing.
use environments_api.Common.{
  ℕ, ◌+◌, ◌-◌, String, Bool, true, false, not, ◌||◌, Option, none, some, List, [], ◌∷◌, ◌++◌,
  str_eq, ltb, leb, if◌then◌else◌, length, take, drop,
}
use environments_api.Common.Error.{
  validation_error, shell_not_running, shell_busy, sandbox_error, conflict,
}
use environments_api.Common.Result.{Result, ok, err, ◌>>◌, guard}
use environments_api.Environments.Records.{dead, CommandState, is_running}
use environments_api.Shells.Buffer.{end_of}
use environments_api.Shells.Redact.{longest_first, Redactor, Secret, encode}
use environments_api.Shells.Redact
use environments_api.Shells.Script.{exec_script}
use environments_api.Shells.Log.{open_log}
use environments_api.Shells.Shell.{
  Shell, CommandRecord, DeadReason, input, to_descendants, to_group, timeout, escalation,
  history_limit, max_command_bytes, sigkill, sigterm, bytes_eq, finish,
}

-- app/keyring/client.py: a credential as it is injected.
pub record ResolvedCredential : Type 0 where
  pub service : List ℕ
  pub env : List (List ℕ × List ℕ)

abbrev pub min_secret_chars : ℕ
min_secret_chars = 4

unfoldable pub long_values : List ℕ → List (List ℕ × List ℕ) → List Secret
long_values service [] = []
long_values service ((key, value) ∷ rest) =
    let tail = long_values service rest in
    if leb min_secret_chars (length value)
    then record { text = value; service = service } ∷ tail
    else tail

-- `secrets`, each with the service. The source's set drops a repeated value and leaves the order of
-- values of one length open; here a repeated value stays, which is set twice in the same dict.
unfoldable pub secrets_of : ResolvedCredential → List Secret
secrets_of c = longest_first (long_values c.service c.env)

-- `env[key] = value` of a dict with text keys.
unfoldable pub set_variable : List ℕ → List ℕ → List (List ℕ × List ℕ) → List (List ℕ × List ℕ)
set_variable key value [] = (key, value) ∷ []
set_variable key value ((name, old) ∷ rest) =
    let tail = set_variable key value rest in
    if bytes_eq name key then (name, value) ∷ rest else (name, old) ∷ tail

-- `env.update(...)`
unfoldable pub set_all : List (List ℕ × List ℕ) → List (List ℕ × List ℕ) → List (List ℕ × List ℕ)
set_all env [] = env
set_all env ((key, value) ∷ rest) = set_all (set_variable key value env) rest

-- `secrets_map[secret] = service`
unfoldable pub set_secret : List ℕ → List ℕ → List Secret → List Secret
set_secret text service [] = record { text = text; service = service } ∷ []
set_secret text service (x ∷ xs) =
    let tail = set_secret text service xs in
    if bytes_eq x.text text then record x { service = service } ∷ xs else x ∷ tail

unfoldable pub set_secrets : List Secret → List Secret → List Secret
set_secrets [] known = known
set_secrets (x ∷ xs) known = set_secrets xs (set_secret x.text x.service known)

-- The loop over the credentials in `exec`: the variables to set and the secrets to hide.
unfoldable pub inject :
    List ResolvedCredential
    → List (List ℕ × List ℕ) × List Secret
    → List (List ℕ × List ℕ) × List Secret
inject [] (env, known) = (env, known)
inject (c ∷ cs) (env, known) = inject cs (set_all env c.env, set_secrets (secrets_of c) known)

-- What a round of the loop of `_write_stdin` meets: the pipe takes so many bytes, is full after all,
-- or fails; with no further round the deadline has passed.
pub data PipeRound : Type 0 where
  took : ℕ → PipeRound
  blocked failed : PipeRound

-- The loop: the bytes that went through, and whether that was all.
unfoldable pub write_rounds : List ℕ → List PipeRound → List ℕ × Bool
write_rounds [] rounds = ([], true)
write_rounds (x ∷ d) [] = ([], false)
write_rounds (x ∷ d) (blocked ∷ rounds) = write_rounds (x ∷ d) rounds
write_rounds (x ∷ d) (failed ∷ rounds) = ([], false)
write_rounds (x ∷ d) (took n ∷ rounds) =
    let rest = write_rounds (drop n (x ∷ d)) rounds in (take n (x ∷ d) ++ rest.0, rest.1)

-- `_write_stdin`
unfoldable pub send_input : List ℕ → List PipeRound → Shell → Result (Unit {0}) × Shell
unfolding write_rounds
send_input d rounds s =
    let r = write_rounds d rounds in
    if s.stdin_open
    then (guard r.1 sandbox_error, record s { sent = s.sent ++ (input r.0 ∷ []) })
    else (err sandbox_error, s)

-- What `exec` is called with, and what the outside gives it: the id and the nonce that are drawn,
-- and the rounds of the write.
pub record ExecRequest : Type 0 where
  pub command : List ℕ
  pub timeout_ms : Option ℕ
  pub credentials : List ResolvedCredential
  pub id : String
  pub nonce : List ℕ
  pub rounds : List PipeRound

unfoldable pub new_command : ℕ → ExecRequest → Shell → CommandRecord
unfolding end_of
new_command now c s = record {
  id = c.id;
  command = c.command;
  state = CommandState.running;
  started_at = now;
  output_start = end_of s.buffer;
  timeout_ms = c.timeout_ms;
  nonce = c.nonce;
  log = open_log s.max_log_bytes;
  exit_code = none;
  finished_at = none;
  output_end = none;
  log_bytes = 0;
  log_truncated = false;
  timed_out = false;
}

abbrev pub redactor_for : List Secret → Option Redactor
redactor_for [] = none
redactor_for (x ∷ xs) = some (Redact.new (x ∷ xs))

-- `exec` up to the write: the deque drops its oldest where it is full.
unfoldable pub started : ℕ → ExecRequest → Shell → Shell
unfolding new_command inject
started now c s = record s {
  redactor = redactor_for (inject c.credentials ([], [])).1;
  current = some (new_command now c s);
  past = drop (length s.past + 1 - history_limit) s.past;
  last_activity = now;
}

abbrev pub with_timer : String → Option ℕ → Shell → Shell
with_timer id none s = s
with_timer id (some ms) s = record s { timers = s.timers ++ (timeout id ∷ []) }

unfoldable pub exec_sent : ℕ → ExecRequest → Result (Unit {0}) × Shell → Result String × Shell
exec_sent now c (err e, s) = (err e, finish now none true s)
exec_sent now c (ok passed, s) = (ok c.id, with_timer c.id c.timeout_ms s)

unfoldable pub exec_checked : ℕ → ExecRequest → Shell → Result (Unit {0}) → Result String × Shell
unfolding exec_sent started inject
exec_checked now c s (err e) = (err e, s)
exec_checked now c s (ok passed) =
    let script = exec_script c.command c.nonce (inject c.credentials ([], [])).0 in
    exec_sent now c (send_input (encode script) c.rounds (started now c s))

abbrev pub is_idle : Option CommandRecord → Bool
is_idle none = true
is_idle (some c) = false

-- The guards of `exec`, in their order.
unfoldable pub may_exec : ExecRequest → Shell → Result (Unit {0})
may_exec c s =
    guard (leb (length (encode c.command)) max_command_bytes) validation_error
    >> guard (is_running s.state) shell_not_running
    >> guard (is_idle s.current) shell_busy

-- `exec`; it returns the record, here its id.
unfoldable pub exec : ℕ → ExecRequest → Shell → Result String × Shell
unfolding exec_checked may_exec
exec now c s = exec_checked now c s (may_exec c s)

abbrev pub is_current : String → Option CommandRecord → Bool
is_current id none = false
is_current id (some c) = str_eq c.id id

abbrev pub mark_late : Option CommandRecord → Option CommandRecord
mark_late none = none
mark_late (some c) = some (record c { timed_out = true })

-- `_on_timeout`; the current record is running.
unfoldable pub on_timeout : String → Shell → Shell
on_timeout id s =
    if is_current id s.current
    then record s {
      current = mark_late s.current;
      sent = s.sent ++ (to_descendants sigkill ∷ []);
      timers = s.timers ++ (escalation id ∷ []);
    }
    else s

-- `_escalate_timeout`
unfoldable pub escalate_timeout : String → Shell → Shell
escalate_timeout id s =
    if is_current id s.current then record s { sent = s.sent ++ (to_group sigkill ∷ []) } else s

unfoldable pub after_input : ℕ → List ℕ → Result (Unit {0}) × Shell → Result ℕ × Shell
after_input now d (err e, s) = (err e, s)
after_input now d (ok passed, s) = (ok (length d), record s { last_activity = now })

-- What is written to: the shell's input, or its terminal, which takes some number of the bytes.
pub data Target : Type 0 where
  stdin : Target
  tty : ℕ → Target

-- `write_stdin`
unfoldable pub write_stdin : ℕ → Target → List ℕ → List PipeRound → Shell → Result ℕ × Shell
unfolding after_input
write_stdin now stdin d rounds s =
    if is_running s.state
    then after_input now d (send_input d rounds s)
    else (err shell_not_running, s)
write_stdin now (tty n) d rounds s =
    if is_running s.state
    then if s.has_tty then (ok n, s) else (err conflict, s)
    else (err shell_not_running, s)

-- `signal`; the host counts the processes.
unfoldable pub signal : ℕ → ℕ → Shell → Result ℕ × Shell
signal sig count s =
    if is_running s.state
    then (ok count, record s { sent = s.sent ++ (to_descendants sig ∷ []) })
    else (err shell_not_running, s)

-- `close` up to its first wait.
unfoldable pub begin_close : Shell → Shell
begin_close s =
    if is_running s.state
    then record s { closing = true; sent = s.sent ++ (to_group sigterm ∷ []) }
    else s

-- `close` after the grace: the wait's answer is the state at that time.
unfoldable pub kill_after_grace : Shell → Shell
kill_after_grace s =
    if is_running s.state then record s { sent = s.sent ++ (to_group sigkill ∷ []) } else s

-- `mark_dead`
unfoldable pub mark_dead : ℕ → String → Shell → Shell
mark_dead now reason s =
    finish now none true (record s { state = dead; dead_reason = some (DeadReason.marked reason) })

-- `find_command`
unfoldable pub find_in : String → List CommandRecord → Option CommandRecord
find_in id [] = none
find_in id (c ∷ cs) = let rest = find_in id cs in if str_eq c.id id then some c else rest

abbrev pub as_list : Option CommandRecord → List CommandRecord
as_list none = []
as_list (some c) = c ∷ []

-- `self.commands`
abbrev pub commands : Shell → List CommandRecord
commands s = s.past ++ as_list s.current

unfoldable pub find_command : String → Shell → Option CommandRecord
unfolding find_in
find_command id s = find_in id (commands s)

-- What the waits wait for: `wait_idle`, `wait_exit` and `wait_output`.
unfoldable pub idle_or_exited : Shell → Bool
idle_or_exited s = is_idle s.current || not (is_running s.state)

unfoldable pub has_exited : Shell → Bool
has_exited s = not (is_running s.state)

unfoldable pub output_or_over : ℕ → Shell → Bool
output_or_over cursor s =
    ltb cursor (end_of s.buffer) || is_idle s.current || not (is_running s.state)
