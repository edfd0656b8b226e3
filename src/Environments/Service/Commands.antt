-- ===== src/Environments/Service/Commands.antt =====
-- What is done with an open shell, and the commands it has run (app/environments/service.py).
use environments_api.Common.{
  ℕ, String, Bool, false, ◌||◌, Option, none, some, List, [], ◌∷◌, str_eq, if◌then◌else◌, filter,
}
use environments_api.Common.Error.{not_found}
use environments_api.Common.Result.{Result, ok, err, ◌>>=◌}
use environments_api.Environments.Records.{CommandState, EnvironmentRecord}
use environments_api.Environments.Quotas.{effective}
use environments_api.Environments.Service.{
  Caller, Service, LiveShell, audited, put_record, put_shell, note, owned_shell, touch, check_disk,
}
use environments_api.Environments.Service.Closing.{on_shell_change}

-- A call of a method of `Shell` (app/shells/shell.py): the object after it, and what it returned or
-- raised.
abbrev pub ShellCall : Type 0 → Type 0
ShellCall A = LiveShell → LiveShell × Result A

abbrev pub touch_in : ℕ → EnvironmentRecord → Service → Service
touch_in now r s = record s { records = put_record (touch now r) s.records }

-- What the service adds to a call that returned: the change reported, if the method reports one,
-- and the audit entry.
unfoldable pub after_call {ℓ} :
    {A : Type ℓ}
    → (LiveShell → Service → Service)
    → Caller
    → EnvironmentRecord
    → String
    → Service
    → LiveShell × Result A
    → Result A × Service
after_call changed caller r event s (sh, err e) =
    (err e, record s { shells = put_shell sh s.shells })
after_call changed caller r event s (sh, ok a) =
    let s' = changed sh (record s { shells = put_shell sh s.shells }) in
    (ok a, note (audited event caller.account_id r.id) s')

abbrev pub may_run : Service → Caller → EnvironmentRecord → Result (Unit {0})
may_run s caller r = do quotas ← effective s.quotas caller.account_id; check_disk s r quotas

unfoldable pub exec_found :
    {A : Type 0}
    → ShellCall A
    → Service
    → Caller
    → ℕ
    → EnvironmentRecord × LiveShell
    → Result (Unit {0})
    → Result A × Service
unfolding after_call
exec_found run s caller now found (err e) = (err e, s)
exec_found run s caller now (r, sh) (ok passed) =
    after_call (on_shell_change now) caller r "shell.exec" (touch_in now r s) (run sh)

unfoldable pub exec_in :
    {A : Type 0}
    → ShellCall A
    → Service
    → Caller
    → ℕ
    → Result (EnvironmentRecord × LiveShell)
    → Result A × Service
unfolding exec_found
exec_in run s caller now (err e) = (err e, s)
exec_in run s caller now (ok found) = exec_found run s caller now found (may_run s caller found.0)

-- `exec`: the record counts as touched before the shell is asked, so also where the shell refuses.
-- `shell.exec` reports a change where it returns.
unfoldable pub exec :
    {A : Type 0} → ShellCall A → Service → Caller → ℕ → String → Result A × Service
unfolding exec_in
exec run s caller now shell_id = exec_in run s caller now (owned_shell s caller shell_id)

unfoldable pub signal_in :
    {A : Type 0}
    → ShellCall A
    → Service
    → Caller
    → Result (EnvironmentRecord × LiveShell)
    → Result A × Service
unfolding after_call
signal_in send s caller (err e) = (err e, s)
signal_in send s caller (ok (r, sh)) = after_call (λ _ t. t) caller r "shell.signal" s (send sh)

-- `signal_shell`
unfoldable pub signal_shell :
    {A : Type 0} → ShellCall A → Service → Caller → String → Result A × Service
unfolding signal_in
signal_shell send s caller shell_id = signal_in send s caller (owned_shell s caller shell_id)

unfoldable pub stdin_in :
    {A : Type 0}
    → ShellCall A
    → Service
    → Caller
    → ℕ
    → Result (EnvironmentRecord × LiveShell)
    → Result A × Service
unfolding after_call
stdin_in feed s caller now (err e) = (err e, s)
stdin_in feed s caller now (ok (r, sh)) =
    after_call (λ _ t. t) caller r "shell.stdin" (touch_in now r s) (feed sh)

-- `write_stdin`
unfoldable pub write_stdin :
    {A : Type 0} → ShellCall A → Service → Caller → ℕ → String → Result A × Service
unfolding stdin_in
write_stdin feed s caller now shell_id = stdin_in feed s caller now (owned_shell s caller shell_id)

-- Where a command's view comes from: a shell in memory, or the file next to its log.
pub data CommandView : Type 0 where
  live : String → String → CommandState → CommandView
  persisted : String → String → CommandView

-- `shell.find_command(command_id)`
unfoldable pub find_command : String → List (String × CommandState) → Option CommandState
find_command id [] = none
find_command id ((name, st) ∷ rest) = if str_eq name id then some st else find_command id rest

abbrev pub is_mine : Caller → EnvironmentRecord → Bool
is_mine caller r = str_eq r.account_id caller.account_id

-- `any(r.id == shell.environment_id for r in mine)`
unfoldable pub has_id : String → List EnvironmentRecord → Bool
has_id id [] = false
has_id id (r ∷ rs) = str_eq r.id id || has_id id rs

-- The loop over the shells in memory.
unfoldable pub live_command : List EnvironmentRecord → String → List LiveShell → Option CommandView
live_command mine id [] = none
live_command mine id (sh ∷ shs) =
    let rest = live_command mine id shs in
    if has_id sh.environment_id mine
    then elim (find_command id sh.commands) [
      | some st ↦ some (live sh.environment_id id st)
      | none ↦ rest
    ]
    else rest

-- The loop over the records; `readable` says whether the command's file can be read there.
unfoldable pub persisted_command :
    (String → String → Bool) → List EnvironmentRecord → String → Option CommandView
persisted_command readable [] id = none
persisted_command readable (r ∷ rs) id =
    let rest = persisted_command readable rs id in
    if readable r.id id then some (persisted r.id id) else rest

found_or : Option CommandView → Option CommandView → Result CommandView
found_or (some v) w = ok v
found_or none (some w) = ok w
found_or none none = err not_found

-- `get_command`
unfoldable pub get_command :
    (String → String → Bool) → Service → Caller → String → Result CommandView
unfolding found_or
get_command readable s caller id =
    let mine = filter (is_mine caller) s.records in
    found_or (live_command mine id s.shells) (persisted_command readable mine id)
