-- ===== src/Environments/Service/Closing.antt =====
-- `_on_shell_change` and the closing of shells (app/environments/service.py).
use environments_api.Common.{
  ℕ, String, Bool, true, false, not, ◌&&◌, ◌||◌, Option, none, some, List, [], ◌∷◌, ◌++◌, str_eq,
  if◌then◌else◌,
}
use environments_api.Environments.Records.{
  ShellState, closed, dead, CommandState, exited, timed_out, shell_died, is_running, ShellRecord,
  EnvironmentRecord,
}
use environments_api.Environments.Service.{
  LiveShell, Service, command_written, find_record, put_shell, save,
}

abbrev pub same_state : ShellState → ShellState → Bool
same_state ShellState.running ShellState.running = true
same_state closed closed = true
same_state dead dead = true
same_state a b = false

abbrev pub same_reason : Option String → Option String → Bool
same_reason none none = true
same_reason (some a) (some b) = str_eq a b
same_reason a b = false

unfoldable pub find_stored : String → List ShellRecord → Option ShellRecord
find_stored id [] = none
find_stored id (s ∷ ss) = if str_eq s.id id then some s else find_stored id ss

-- `stored.state = ...; stored.dead_reason = ...`
unfoldable pub set_stored : LiveShell → List ShellRecord → List ShellRecord
set_stored sh [] = []
set_stored sh (s ∷ ss) =
    if str_eq s.id sh.id
    then record s { state = sh.state; dead_reason = sh.dead_reason } ∷ ss
    else s ∷ set_stored sh ss

abbrev pub is_done : CommandState → Bool
is_done CommandState.running = false
is_done exited = true
is_done timed_out = true
is_done shell_died = true

abbrev pub has_string : String → List String → Bool
has_string k [] = false
has_string k (x ∷ xs) = str_eq x k || has_string k xs

-- The finished commands that have not been written yet.
unfoldable pub persist_commands : String → List (String × CommandState) → Service → Service
persist_commands env [] s = s
persist_commands env ((id, st) ∷ cs) s = persist_commands env cs (
    if is_done st && not (has_string id s.persisted_commands)
    then record s {
      persisted_commands = s.persisted_commands ++ (id ∷ []);
      effects = s.effects ++ (command_written env id ∷ []);
    }
    else s)

unfoldable pub store_state : ℕ → LiveShell → EnvironmentRecord → ShellRecord → Service → Service
store_state now sh r stored s =
    if same_state stored.state sh.state && same_reason stored.dead_reason sh.dead_reason
    then s
    else save (record r { shells = set_stored sh r.shells; updated_at = now }) s

unfoldable pub change_stored :
    ℕ → LiveShell → EnvironmentRecord → Option ShellRecord → Service → Service
change_stored now sh r none s = s
change_stored now sh r (some stored) s =
    persist_commands r.id sh.commands (store_state now sh r stored s)

unfoldable pub change_in : ℕ → LiveShell → Option EnvironmentRecord → Service → Service
change_in now sh none s = s
change_in now sh (some r) s = change_stored now sh r (find_stored sh.id r.shells) s

-- `_on_shell_change`
unfoldable pub on_shell_change : ℕ → LiveShell → Service → Service
unfolding change_in change_stored store_state persist_commands
on_shell_change now sh s = change_in now sh (find_record sh.environment_id s.records) s

-- `shell.close(grace)`, with the state that the process group's end leaves the shell in: it does
-- nothing to a shell that is not running, and reports the change to the service otherwise.
unfoldable pub close_shell_object : (LiveShell → LiveShell) → ℕ → LiveShell → Service → Service
unfolding on_shell_change put_shell
close_shell_object ended now sh s =
    if is_running sh.state
    then on_shell_change now (ended sh) (record s { shells = put_shell (ended sh) s.shells })
    else s

-- `for shell in shells: shell.close(...)`
unfoldable pub close_each : (LiveShell → LiveShell) → ℕ → List LiveShell → Service → Service
unfolding close_shell_object
close_each ended now [] s = s
close_each ended now (sh ∷ shs) s = close_each ended now shs (close_shell_object ended now sh s)
