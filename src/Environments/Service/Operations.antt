-- ===== src/Environments/Service/Operations.antt =====
-- A caller's calls of the service as one step function (app/environments/service.py), for what holds
-- of every sequence of calls. A call that leaves the records, the
-- shells and the measured usage as they are has no step: it reads, or only writes to the audit log or
-- to the quotas (signal_process, set_quotas).
use environments_api.Common.{ℕ, String, ◌≡◌, ◌≢◌, none, List, [], ◌∷◌}
use environments_api.Common.{All}
use environments_api.Common.Int.{ℤ}
use environments_api.Common.Result.{Result}
use environments_api.Environments.Service.{Caller, Service, LiveShell, find_record}
use environments_api.Environments.Service.Lifecycle.{CreateRequest, create, delete, reset}
use environments_api.Environments.Service.Sessions.{Host, OpenRequest, open_shell, close_shell}
use environments_api.Environments.Service.Commands.{ShellCall, exec, signal_shell, write_stdin}
use environments_api.Environments.Service.Writes.{admit_write, note_file_action}
use environments_api.Environments.Service.Views.{usage}
use environments_api.Environments.Service.Frame.{Absent}
use environments_api.Environments.Service.Frame.Closing.{KeepsShell}
use environments_api.Environments.Service.Frame.Calls.{state_after}

-- What a call relies on of the objects in the dict of shells (app/shells/shell.py): what `close`,
-- `exec`, `signal` and `write_stdin` do to one then. None of them moves a shell.
pub record ShellPort : Type 0 where
  pub ended : LiveShell → LiveShell
  pub run : ShellCall String
  pub signalled : ShellCall ℕ
  pub fed : ShellCall ℕ
  pub ended_keeps : KeepsShell ended
  pub run_keeps : KeepsShell (λ sh. (run sh).0)
  pub signalled_keeps : KeepsShell (λ sh. (signalled sh).0)
  pub fed_keeps : KeepsShell (λ sh. (fed sh).0)

-- A call with what the outside gives it: the clock, a drawn id, the host, and for a file mutation
-- whether its body raised; for `usage` what the scan found and the count of processes.
pub data Call : Type 0 where
  creates : ℕ → String → String → CreateRequest → Call
  deletes resets : ℕ → String → Call
  opens : Host → ℕ → String → String → OpenRequest → Call
  closes runs signals feeds : ℕ → String → Call
  writes : String → ℤ → Result (Unit {0}) → Call
  notes : ℕ → String → String → Call
  measures : (LiveShell → ℕ) → ℕ → ℕ → String → Call

unfoldable pub serve : ShellPort → Service → Caller → Call → Service
serve port s caller (creates now tier fresh c) = state_after s (create s caller tier now fresh c)
serve port s caller (deletes now id) = state_after s (delete port.ended s caller now id)
serve port s caller (resets now id) = state_after s (reset port.ended s caller now id)
serve port s caller (opens host now fresh id o) =
    state_after s (open_shell host s caller now fresh id o)
serve port s caller (closes now id) = state_after s (close_shell port.ended s caller now id)
serve port s caller (runs now id) = (exec port.run s caller now id).1
serve port s caller (signals now id) = (signal_shell port.signalled s caller id).1
serve port s caller (feeds now id) = (write_stdin port.fed s caller now id).1
serve port s caller (writes id growth body) = (admit_write s caller id growth (λ t. (body, t))).1
serve port s caller (notes now id action) = state_after s (note_file_action s caller now id action)
serve port s caller (measures count workspace_bytes logs_bytes id) =
    state_after s (usage count workspace_bytes logs_bytes s caller id)

-- The ids that a call draws are not in use; they are 48 random bits.
abbrev pub DrawsFresh : Service → Call → Type 0
DrawsFresh s (creates now tier fresh c) = find_record fresh s.records ≡ none
DrawsFresh s (opens host now fresh id o) = Absent fresh s.shells
DrawsFresh s (deletes now id) = Unit
DrawsFresh s (resets now id) = Unit
DrawsFresh s (closes now id) = Unit
DrawsFresh s (runs now id) = Unit
DrawsFresh s (signals now id) = Unit
DrawsFresh s (feeds now id) = Unit
DrawsFresh s (writes id growth body) = Unit
DrawsFresh s (notes now id action) = Unit
DrawsFresh s (measures count workspace_bytes logs_bytes id) = Unit

-- Calls of any callers, one after the other, each with what the shells' objects do then.
abbrev pub Calls : Type 0
Calls = List (Caller × ShellPort × Call)

unfoldable pub serve_all : Service → Calls → Service
serve_all s [] = s
serve_all s ((caller, port, call) ∷ calls) = serve_all (serve port s caller call) calls

abbrev pub AllFresh : Service → Calls → Type 0
AllFresh s [] = Unit
AllFresh s ((caller, port, call) ∷ calls) =
    DrawsFresh s call × AllFresh (serve port s caller call) calls

-- None of the calls is made for the account.
abbrev pub NotBy : String → Calls → Type 0
NotBy account calls = All (λ c. account ≢ c.0.account_id) calls
