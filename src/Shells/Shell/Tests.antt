-- ===== src/Shells/Shell/Tests.antt =====
-- Tests of app/shells/shell.py: a shell that runs one command, and the theorems at it.
use environments_api.Common.{
  ℕ, min, ◌≡◌, refl, true, false, none, some, List, [], ◌∷◌, ◌++◌, arith, ltb, length, take, drop,
}
use environments_api.Common.Int.{pos, negsuc}
use environments_api.Common.Result.{ok}
use environments_api.Environments.Records.{ShellState}
use environments_api.Shells.Framing.{Frame, Event, output, framed}
use environments_api.Shells.Log.{write_all, open_log, write_all_lem}
use environments_api.Shells.Script.{all_safe, assignments, eval_words, exec_script, frame_printf}
use environments_api.Shells.Script.Words.{read_word, plain, exec_script-command}
use environments_api.Shells.Redact.Streaming.{join}
use environments_api.Shells.Redact.{encode}
use environments_api.Shells.Shell.{Shell, handle, end_of_stream, bytes_eq}
use environments_api.Shells.Shell.Commands.{
  ExecRequest, took, send_input, exec, started, new_command, on_timeout,
}
use environments_api.Shells.Shell.Exits.{StillRuns, handle-StillRuns, EndsWith, handle-EndsWith}
use environments_api.Shells.Shell.Sound.{IsWellFormed}
use environments_api.Shells.Shell.Runs.{done, step, execs, times_out, ends, Run-IsWellFormed}

abbrev idle_shell : Shell
idle_shell = record {
  max_log_bytes = 4;
  has_tty = false;
  state = ShellState.running;
  dead_reason = none;
  exit_status = none;
  last_activity = 0;
  buffer = record { capacity = 8; bytes = []; start = 0 };
  current = none;
  redactor = none;
  closing = false;
  past = [];
  timers = [];
  stdin_open = true;
  parser = [];
  sent = [];
}

abbrev request : ExecRequest
request = record {
  command = b'l' ∷ b's' ∷ [];
  timeout_ms = some 1000;
  credentials = [];
  id = "cmd_1";
  nonce = b'a' ∷ b'1' ∷ [];
  rounds = took 1000 ∷ [];
}

abbrev ours : Frame
ours = record { nonce = b'a' ∷ b'1' ∷ []; exit_code = pos 3 }

abbrev forged : Frame
forged = record { nonce = b'a' ∷ b'2' ∷ []; exit_code = pos 0 }

abbrev before : List Event
before = output (b'h' ∷ b'i' ∷ []) ∷ framed forged ∷ []

abbrev at_work : Shell
at_work = started 7 request idle_shell

handle-StillRuns_example :
    StillRuns (new_command 7 request idle_shell) at_work (handle 8 before at_work)
unfolding started bytes_eq new_command
handle-StillRuns_example =
    handle-StillRuns 8 before at_work (new_command 7 request idle_shell) refl (refl, tt)

handle-EndsWith_example :
    EndsWith
      (new_command 7 request idle_shell)
      (pos 3)
      at_work
      (handle 8 (before ++ (framed ours ∷ [])) at_work)
unfolding started bytes_eq new_command
handle-EndsWith_example =
    handle-EndsWith 8 before [] ours at_work (new_command 7 request idle_shell) refl (refl, tt) refl

abbrev after_exec : Shell
after_exec = (exec 7 request idle_shell).1

Run-IsWellFormed_example : IsWellFormed (end_of_stream 9 (negsuc 8) (on_timeout "cmd_1" after_exec))
Run-IsWellFormed_example =
    Run-IsWellFormed
      (step (execs {s = idle_shell} 7 request)
        (step (times_out "cmd_1") (step (ends 9 (negsuc 8)) done)))
      ((omega arith, tt, tt, refl), refl)

exec_runs : (exec 7 request idle_shell).0 ≡ ok "cmd_1"
unfolding exec encode send_input exec_script all_safe
exec_runs = refl

abbrev texts : List (List ℕ)
texts = (b'a' ∷ b'b' ∷ b'c' ∷ []) ∷ (b'd' ∷ b'e' ∷ []) ∷ []

write_all_lem_example :
    let w = write_all (open_log 4) texts in
    (w.contents ≡ take 4 (join texts))
    × (w.written ≡ min 4 (length (join texts)))
    × (w.truncated ≡ ltb 4 (length (join texts)))
write_all_lem_example = write_all_lem 4 texts

-- `echo 'a; b'`
abbrev quoted_command : List ℕ
quoted_command = b'e' ∷ b'c' ∷ b'h' ∷ b'o' ∷ 32 ∷ 39 ∷ b'a' ∷ b';' ∷ 32 ∷ b'b' ∷ 39 ∷ []

abbrev token_env : List (List ℕ × List ℕ)
token_env = (b'T' ∷ [], b'x' ∷ 39 ∷ []) ∷ []

exec_script-command_example :
    read_word plain (
      drop
        (length (assignments token_env ++ eval_words))
        (exec_script quoted_command (b'a' ∷ b'1' ∷ []) token_env))
    ≡ some (quoted_command, frame_printf (b'a' ∷ b'1' ∷ []))
exec_script-command_example = exec_script-command quoted_command (b'a' ∷ b'1' ∷ []) token_env
