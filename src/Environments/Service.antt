-- ===== src/Environments/Service.antt =====
-- EnvironmentService (app/environments/service.py): its state, and the helpers of its methods. The
-- methods stand in the modules below; each is one function from the state to a result and the state
-- after it. A method holds the service's lock while it reads and writes, so calls do not overlap
-- but where `close` waits outside the lock.
pub mod Dict
pub mod Admitted
pub mod Caps
pub mod Frame
pub mod Closing
pub mod Lifecycle
pub mod Writes
pub mod Views
pub mod Sessions
pub mod Commands
pub mod Reaper
pub mod Operations
pub mod Isolation
pub mod Samples
mod Tests
use environments_api.Common.{
  ℕ, zero, suc, ◌+◌, String, Bool, not, ◌&&◌, Option, none, some, List, [], ◌∷◌, ◌++◌, str_eq, ltb,
  if◌then◌else◌, filter,
}
use environments_api.Common.Assoc.{Assoc, lookup, insert, remove}
use environments_api.Common.Error.{not_found, environment_archived, quota_exceeded}
use environments_api.Common.Result.{Result, ok, err, ◌>>=◌, ◌>>◌, guard}
use environments_api.Environments.Records.{
  ShellState, running, closed, dead, CommandState, EnvironmentState, active, archived, is_active,
  is_running, ShellRecord, EnvironmentRecord, EnvironmentLimits,
}
use environments_api.Environments.Quotas.{Quotas, QuotaStore, value_or, effective}

-- app/keyring/auth.py: who a request is for.
pub record Caller : Type 0 where
  pub account_id : String
  pub profile : String

-- The settings that the service reads.
pub record Settings : Type 0 where
  pub allow_network : Bool
  pub settings_api : Bool
  pub shell_binary : String

-- What the service sees of a `Shell` (app/shells/shell.py).
pub record LiveShell : Type 0 where
  pub id : String
  pub environment_id : String
  pub pid : ℕ
  pub pgid : ℕ
  pub start_ticks : ℕ
  pub state : ShellState
  pub dead_reason : Option String
  pub created_at : ℕ
  pub last_activity : ℕ
  pub current : Option String
  pub commands : List (String × CommandState)

-- What reaches the sandbox, the disk and the audit log, oldest first.
pub data Effect : Type 0 where
  dirs_made prepared torn_down folder_deleted workspace_wiped logs_wiped logs_made : String → Effect
  command_written : String → String → Effect
  audited : String → String → String → Effect

pub record Service : Type 0 where
  pub settings : Settings
  pub quotas : QuotaStore
  pub records : List EnvironmentRecord
  pub shells : List LiveShell
  pub usage : Assoc ℕ
  pub persisted_commands : List String
  pub saved : Assoc EnvironmentRecord
  pub effects : List Effect

-- `self._records`, a dict by id in insertion order.
unfoldable pub find_record : String → List EnvironmentRecord → Option EnvironmentRecord
find_record id [] = none
find_record id (r ∷ rs) = if str_eq r.id id then some r else find_record id rs

-- `self._records[record.id] = record`; a record that is changed in place is put back so too.
unfoldable pub put_record : EnvironmentRecord → List EnvironmentRecord → List EnvironmentRecord
put_record r [] = r ∷ []
put_record r (q ∷ rs) = if str_eq q.id r.id then r ∷ rs else q ∷ put_record r rs

-- `del self._records[environment_id]`
unfoldable pub remove_record : String → List EnvironmentRecord → List EnvironmentRecord
remove_record id [] = []
remove_record id (r ∷ rs) = if str_eq r.id id then rs else r ∷ remove_record id rs

unfoldable pub find_shell : String → List LiveShell → Option LiveShell
find_shell id [] = none
find_shell id (s ∷ ss) = if str_eq s.id id then some s else find_shell id ss

unfoldable pub put_shell : LiveShell → List LiveShell → List LiveShell
put_shell s [] = s ∷ []
put_shell s (t ∷ ss) = if str_eq t.id s.id then s ∷ ss else t ∷ put_shell s ss

-- `self._shells.pop(shell.id, None)`
unfoldable pub remove_shell : String → List LiveShell → List LiveShell
remove_shell id ss = filter (λ s. not (str_eq s.id id)) ss

abbrev pub note : Effect → Service → Service
note e s = record s { effects = s.effects ++ (e ∷ []) }

abbrev pub owner_check : Caller → Option EnvironmentRecord → Result EnvironmentRecord
owner_check caller none = err not_found
owner_check caller (some r) = if str_eq r.account_id caller.account_id then ok r else err not_found

-- `_owned`
unfoldable pub owned : Service → Caller → String → Result EnvironmentRecord
owned s caller id = owner_check caller (find_record id s.records)

-- `_owned_or_none`
unfoldable pub owned_or_none : Service → Caller → String → Option EnvironmentRecord
owned_or_none s caller id = elim (owner_check caller (find_record id s.records)) [
  | ok r ↦ some r
  | err e ↦ none
]

abbrev with_shell : Option EnvironmentRecord → LiveShell → Result (EnvironmentRecord × LiveShell)
with_shell none sh = err not_found
with_shell (some r) sh = ok (r, sh)

-- `_owned_shell`
unfoldable pub owned_shell : Service → Caller → String → Result (EnvironmentRecord × LiveShell)
unfolding owned_or_none
owned_shell s caller shell_id = elim (find_shell shell_id s.shells) [
  | none ↦ err not_found
  | some sh ↦ with_shell (owned_or_none s caller sh.environment_id) sh
]

-- `_live_shells`
unfoldable pub live_shells : Service → String → List LiveShell
live_shells s environment_id =
    filter (λ sh. str_eq sh.environment_id environment_id && is_running sh.state) s.shells

-- `_all_shells`
unfoldable pub all_shells : Service → String → List LiveShell
all_shells s environment_id = filter (λ sh. str_eq sh.environment_id environment_id) s.shells

-- `_touch`
abbrev pub touch : ℕ → EnvironmentRecord → EnvironmentRecord
touch now r = record r { last_activity_at = now; updated_at = now }

abbrev pub used_bytes : Service → String → ℕ
used_bytes s id = value_or (lookup id s.usage) 0

-- `_check_disk`
unfoldable pub check_disk : Service → EnvironmentRecord → Quotas → Result (Unit {0})
check_disk s r q =
    let used = used_bytes s r.id in
    guard (not (ltb q.max_disk_bytes used)) (quota_exceeded "max_disk_bytes" used q.max_disk_bytes)

-- app/sandbox/limits.py, with every cap given.
pub record ResourceLimits : Type 0 where
  pub nproc : ℕ
  pub memory_bytes : ℕ
  pub file_size_bytes : ℕ
  pub cpu_seconds : ℕ

-- Python's `x or y`: a cap of 0 counts as none.
abbrev pub or_cap : Option ℕ → ℕ → ℕ
or_cap none quota = quota
or_cap (some zero) quota = quota
or_cap (some (suc n)) quota = suc n

-- `_effective_limits`
unfoldable pub effective_limits : EnvironmentRecord → Quotas → ResourceLimits
effective_limits r q = record {
  nproc = or_cap r.limits.max_processes_per_shell q.max_processes_per_shell;
  memory_bytes = or_cap r.limits.max_memory_bytes q.max_memory_bytes;
  file_size_bytes = or_cap r.limits.max_file_size_bytes q.max_file_size_bytes;
  cpu_seconds = or_cap r.limits.max_cpu_seconds q.max_cpu_seconds;
}

-- `self._store.save(record)` of a record in the dict.
abbrev pub save : EnvironmentRecord → Service → Service
save r s = record s { records = put_record r s.records; saved = insert r.id r s.saved }
