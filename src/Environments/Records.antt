-- ===== src/Environments/Records.antt =====
-- app/environments/models.py and the state enums of app/constants.py. Times and lifetimes, floats
-- in the source, are numbers of one fixed unit.
use environments_api.Common.{ℕ, Option, none, Bool, String, true, List, some, false}
use environments_api.Common.Assoc.{Assoc}

pub data EnvironmentState : Type 0 where
  active archived : EnvironmentState

pub data ShellState : Type 0 where
  running closed dead : ShellState

pub data CommandState : Type 0 where
  running exited timed_out shell_died : CommandState

abbrev pub is_active : EnvironmentState → Bool
is_active active = true
is_active archived = false

abbrev pub is_running : ShellState → Bool
is_running ShellState.running = true
is_running closed = false
is_running dead = false

pub record ShellRecord : Type 0 where
  pub id : String
  pub pid : ℕ
  pub pgid : ℕ
  pub start_ticks : ℕ
  pub state : ShellState
  pub dead_reason : Option String
  pub created_at : ℕ
  pub cwd : String
  pub pty : Bool

pub record EnvironmentLimits : Type 0 where
  pub max_memory_bytes : Option ℕ
  pub max_cpu_seconds : Option ℕ
  pub max_file_size_bytes : Option ℕ
  pub max_processes_per_shell : Option ℕ

abbrev pub no_limits : EnvironmentLimits
no_limits = record {
  max_memory_bytes = none;
  max_cpu_seconds = none;
  max_file_size_bytes = none;
  max_processes_per_shell = none;
}

pub record EnvironmentRecord : Type 0 where
  pub id : String
  pub account_id : String
  pub profile : String
  pub name : String
  pub labels : Assoc String
  pub credentials : List String
  pub network : Bool
  pub limits : EnvironmentLimits
  pub state : EnvironmentState
  pub sandbox_tier : String
  pub created_at : ℕ
  pub updated_at : ℕ
  pub last_activity_at : ℕ
  pub archived_at : Option ℕ
  pub shells : List ShellRecord
  pub environment_idle_ttl_seconds : Option ℕ
  pub shell_idle_ttl_seconds : Option ℕ

-- `x if x is not None else fallback`
abbrev or_else : Option ℕ → ℕ → ℕ
or_else none fallback = fallback
or_else (some x) fallback = x

unfoldable pub environment_idle_ttl : EnvironmentRecord → ℕ → ℕ
environment_idle_ttl r fallback = or_else r.environment_idle_ttl_seconds fallback

unfoldable pub shell_idle_ttl : EnvironmentRecord → ℕ → ℕ
shell_idle_ttl r fallback = or_else r.shell_idle_ttl_seconds fallback
