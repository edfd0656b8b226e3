-- ===== src/Environments/Quotas.antt =====
-- app/environments/quotas.py: the limits, and the overrides of an account.
pub mod Effective
mod Tests
use environments_api.Common.{
  ℕ, [], String, ◌∷◌, Option, Bool, none, some, if◌then◌else◌, suc, is_empty, false, zero, true,
}
use environments_api.Common.Assoc.{Assoc, lookup, insert, remove, update}
use environments_api.Common.Error.{validation_error}
use environments_api.Common.Int.{ℤ, pos, negsuc}
use environments_api.Common.Result.{Result, ok, err, ◌>>=◌, ◌>>◌, guard}

pub record Quotas : Type 0 where
  pub max_environments_per_profile : ℕ
  pub max_environments_per_account : ℕ
  pub max_shells_per_environment : ℕ
  pub max_processes_per_shell : ℕ
  pub max_memory_bytes : ℕ
  pub max_file_size_bytes : ℕ
  pub max_cpu_seconds : ℕ
  pub max_disk_bytes : ℕ
  pub max_output_buffer_bytes : ℕ
  pub max_command_log_bytes : ℕ
  pub environment_idle_ttl_seconds : ℕ
  pub shell_idle_ttl_seconds : ℕ

-- `asdict`, in the order of the fields.
unfoldable pub asdict : Quotas → Assoc ℕ
asdict q =
    ("max_environments_per_profile", q.max_environments_per_profile)
    ∷ ("max_environments_per_account", q.max_environments_per_account)
    ∷ ("max_shells_per_environment", q.max_shells_per_environment)
    ∷ ("max_processes_per_shell", q.max_processes_per_shell)
    ∷ ("max_memory_bytes", q.max_memory_bytes)
    ∷ ("max_file_size_bytes", q.max_file_size_bytes)
    ∷ ("max_cpu_seconds", q.max_cpu_seconds)
    ∷ ("max_disk_bytes", q.max_disk_bytes)
    ∷ ("max_output_buffer_bytes", q.max_output_buffer_bytes)
    ∷ ("max_command_log_bytes", q.max_command_log_bytes)
    ∷ ("environment_idle_ttl_seconds", q.environment_idle_ttl_seconds)
    ∷ ("shell_idle_ttl_seconds", q.shell_idle_ttl_seconds)
    ∷ []

abbrev pub value_or : Option ℕ → ℕ → ℕ
value_or none default = default
value_or (some v) default = v

-- `Quotas(**values)` at a dictionary that has the names.
unfoldable pub from_values : Quotas → Assoc ℕ → Quotas
from_values q m = record {
  max_environments_per_profile =
      field "max_environments_per_profile" q.max_environments_per_profile;
  max_environments_per_account =
      field "max_environments_per_account" q.max_environments_per_account;
  max_shells_per_environment = field "max_shells_per_environment" q.max_shells_per_environment;
  max_processes_per_shell = field "max_processes_per_shell" q.max_processes_per_shell;
  max_memory_bytes = field "max_memory_bytes" q.max_memory_bytes;
  max_file_size_bytes = field "max_file_size_bytes" q.max_file_size_bytes;
  max_cpu_seconds = field "max_cpu_seconds" q.max_cpu_seconds;
  max_disk_bytes = field "max_disk_bytes" q.max_disk_bytes;
  max_output_buffer_bytes = field "max_output_buffer_bytes" q.max_output_buffer_bytes;
  max_command_log_bytes = field "max_command_log_bytes" q.max_command_log_bytes;
  environment_idle_ttl_seconds =
      field "environment_idle_ttl_seconds" q.environment_idle_ttl_seconds;
  shell_idle_ttl_seconds = field "shell_idle_ttl_seconds" q.shell_idle_ttl_seconds;
}
  where
    field : String → ℕ → ℕ
    field name default = value_or (lookup name m) default

-- A value of a JSON object, as `isinstance` tells them apart: an int or float counts in units. NaN,
-- which `value <= 0` lets through, is no value here.
pub data JsonValue : Type 0 where
  flag : Bool → JsonValue
  number : ℤ → JsonValue
  other : JsonValue

pub data QuotaFile : Type 0 where
  unreadable not_an_object : QuotaFile
  object : Assoc JsonValue → QuotaFile

-- `name in QUOTA_NAMES`
abbrev is_quota : String → Quotas → Bool
is_quota name q = elim (lookup name (asdict q)) [ none ↦ false | some v ↦ true ]

-- The value where it is a positive number and no bool.
abbrev pub positive : JsonValue → Option ℕ
positive (flag b) = none
positive other = none
positive (number (negsuc n)) = none
positive (number (pos zero)) = none
positive (number (pos (suc n))) = some (suc n)

-- The names are those of the record, whatever its values: `q` only carries them.
unfoldable pub validate_from : Quotas → Assoc ℕ → Assoc JsonValue → Result (Assoc ℕ)
validate_from q clean [] = ok clean
validate_from q clean ((name, value) ∷ rest) =
    if is_quota name q
    then elim (positive value) [
      | none ↦ err validation_error
      | some n ↦ validate_from q (insert name n clean) rest
    ]
    else err validation_error

unfoldable pub validate_overrides : Quotas → Assoc JsonValue → Result (Assoc ℕ)
unfolding validate_from
validate_overrides q overrides = validate_from q [] overrides

unfoldable pub with_overrides : Quotas → Assoc JsonValue → Result Quotas
with_overrides q overrides = do
  clean ← validate_overrides q overrides
  ok (from_values q (update (asdict q) clean))

-- The store: the deployment's defaults, and a file for each account. What is written is what
-- passed the checks, so `set_overrides` stores numbers. `path` is `_path`: the file of an account's
-- segment (Segments), which two accounts share where their segments are one.
pub record QuotaStore : Type 0 where
  pub path : String → String
  pub defaults : Quotas
  pub files : Assoc QuotaFile

unfoldable pub overrides_of : QuotaStore → String → Result (Assoc ℕ)
overrides_of s account_id = read_file (lookup (s.path account_id) s.files)
  where
    read_file : Option QuotaFile → Result (Assoc ℕ)
    read_file none = ok []
    read_file (some unreadable) = ok []
    read_file (some not_an_object) = ok []
    read_file (some (object m)) = validate_overrides s.defaults m

abbrev as_json : Assoc ℕ → Assoc JsonValue
as_json [] = []
as_json ((k, v) ∷ m) = (k, number (pos v)) ∷ as_json m

unfoldable pub effective : QuotaStore → String → Result Quotas
unfolding overrides_of with_overrides
effective s account_id = do
  overrides ← overrides_of s account_id
  with_overrides s.defaults (as_json overrides)

unfoldable pub set_overrides : QuotaStore → String → Assoc JsonValue → Result (Quotas × QuotaStore)
unfolding effective
set_overrides s account_id overrides = do
  clean ← validate_overrides s.defaults overrides
  let s' = record s {
    files =
        if is_empty clean
        then remove (s.path account_id) s.files
        else insert (s.path account_id) (object (as_json clean)) s.files;
  }
  quotas ← effective s' account_id
  ok (quotas, s')
