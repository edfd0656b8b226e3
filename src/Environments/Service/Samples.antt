-- ===== src/Environments/Service/Samples.antt =====
-- States and inputs at which the service's theorems are applied.
use environments_api.Common.{String, refl, true, false, none, some, [], ◌∷◌}
use environments_api.Common.Result.{ok}
use environments_api.Environments.Records.{
  EnvironmentRecord, EnvironmentState, active, archived, no_limits, ShellState,
}
use environments_api.Environments.Quotas.{Quotas}
use environments_api.Environments.Service.{Caller, Service, LiveShell}
use environments_api.Environments.Service.Lifecycle.{CreateRequest}
use environments_api.Environments.Service.Sessions.{Host, OpenRequest}
use environments_api.Environments.Service.Reaper.{Disk}
use environments_api.Environments.Service.Operations.{ShellPort}

abbrev pub quotas : Quotas
quotas = record {
  max_environments_per_profile = 2;
  max_environments_per_account = 3;
  max_shells_per_environment = 2;
  max_processes_per_shell = 64;
  max_memory_bytes = 1000;
  max_file_size_bytes = 500;
  max_cpu_seconds = 60;
  max_disk_bytes = 100;
  max_output_buffer_bytes = 64;
  max_command_log_bytes = 50;
  environment_idle_ttl_seconds = 20;
  shell_idle_ttl_seconds = 10;
}

abbrev pub full_quotas : Quotas
full_quotas = record quotas { max_environments_per_profile = 1 }

abbrev pub environment : String → String → EnvironmentState → EnvironmentRecord
environment id account state = record {
  id = id;
  account_id = account;
  profile = "personal";
  name = "box";
  labels = [];
  credentials = [];
  network = false;
  limits = no_limits;
  state = state;
  sandbox_tier = "directory";
  created_at = 1;
  updated_at = 1;
  last_activity_at = 1;
  archived_at = none;
  shells = [];
  environment_idle_ttl_seconds = none;
  shell_idle_ttl_seconds = none;
}

abbrev pub shell : String → String → LiveShell
shell id environment_id = record {
  id = id;
  environment_id = environment_id;
  pid = 40;
  pgid = 40;
  start_ticks = 7;
  state = ShellState.running;
  dead_reason = none;
  created_at = 2;
  last_activity = 2;
  current = none;
  commands = [];
}

-- Alice has an active environment with a shell, and an archived one; Bob has an active one.
abbrev pub service : Service
service = record {
  settings = record { allow_network = false; settings_api = false; shell_binary = "/bin/bash" };
  quotas = record { path = λ a. a; defaults = quotas; files = [] };
  records =
      environment "env_a" "alice" active
      ∷ environment "env_o" "alice" archived
      ∷ environment "env_b" "bob" active
      ∷ [];
  shells = shell "sh_a" "env_a" ∷ [];
  usage = ("env_a", 60) ∷ [];
  persisted_commands = [];
  saved = [];
  effects = [];
}

abbrev pub alice : Caller
alice = record { account_id = "alice"; profile = "personal" }

abbrev pub bob : Caller
bob = record { account_id = "bob"; profile = "personal" }

abbrev pub plain : CreateRequest
plain = record {
  name = "new";
  labels = [];
  credentials = [];
  network = none;
  limits = none;
  preferences = none;
}

abbrev pub host : Host
host = record {
  workspace = λ id. id;
  resolve = λ id path. ok path;
  is_dir = λ id path. true;
  executable = λ path. false;
  spawn = λ request. ok (record { pid = 50; pgid = 50; start_ticks = 9 });
}

abbrev pub at_root : OpenRequest
at_root = record { cwd = "."; env = []; pty = false; shell_binary = none }

abbrev pub disk : Disk
disk = record { pruned = λ id n. 0; bytes = λ id. 5 }

abbrev pub close_it : LiveShell → LiveShell
close_it sh = record sh { state = ShellState.closed; dead_reason = some "closed" }

abbrev pub idle_port : ShellPort
idle_port = record {
  ended = close_it;
  run = λ sh. (sh, ok "cmd_1");
  signalled = λ sh. (sh, ok 0);
  fed = λ sh. (sh, ok 3);
  ended_keeps = record { id = λ sh. refl; environment = λ sh. refl };
  run_keeps = record { id = λ sh. refl; environment = λ sh. refl };
  signalled_keeps = record { id = λ sh. refl; environment = λ sh. refl };
  fed_keeps = record { id = λ sh. refl; environment = λ sh. refl };
}
