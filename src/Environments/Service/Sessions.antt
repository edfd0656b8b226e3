-- ===== src/Environments/Service/Sessions.antt =====
-- Shells of an environment (app/environments/service.py). The host's part of a call (what the path
-- resolves to, which binaries are installed, what the sandbox starts) is the record `Host`.
use environments_api.Common.{
  ℕ, String, Bool, true, false, ◌&&◌, ◌||◌, Option, none, some, List, [], ◌∷◌, ◌++◌, str_eq, ltb,
  leb, ◌==◌, if◌then◌else◌, length, is_empty,
}
use environments_api.Common.Assoc.{Assoc, update}
use environments_api.Common.Error.{validation_error, environment_archived, quota_exceeded}
use environments_api.Common.Result.{Result, ok, ◌>>=◌, ◌>>◌, guard}
use environments_api.Environments.Records.{ShellState, is_active, ShellRecord, EnvironmentRecord}
use environments_api.Environments.Quotas.{Quotas, effective}
use environments_api.Environments.Segments.{codes, is_alnum}
use environments_api.Environments.Service.{
  Caller, Service, LiveShell, audited, put_shell, note, owned, owned_shell, live_shells, all_shells,
  touch, save, check_disk, effective_limits, ResourceLimits,
}
use environments_api.Environments.Service.Closing.{close_shell_object}

-- `ENV_VAR_PATTERN`: `$` also stands before a newline that ends the name.
var_rest : List ℕ → Bool
var_rest [] = true
var_rest (c ∷ cs) =
    let rest = var_rest cs in if is_alnum c || c == b'_' then rest else c == 10 && is_empty cs

is_letter : ℕ → Bool
is_letter c = (leb b'A' c && leb c b'Z') || (leb b'a' c && leb c b'z')

unfoldable pub env_var_match : List ℕ → Bool
unfolding var_rest is_letter
env_var_match [] = false
env_var_match (c ∷ cs) = (is_letter c || c == b'_') && var_rest cs

unfoldable pub valid_names : Assoc String → Bool
valid_names [] = true
valid_names ((k, v) ∷ env) = env_var_match (codes k) && valid_names env

abbrev pub default_path : String
default_path = "/usr/local/sbin:/usr/local/bin:/usr/sbin:/usr/bin:/sbin:/bin"

-- What the sandbox is asked to start (app/sandbox/protocol.py), and the shell's spec.
pub record SpawnRequest : Type 0 where
  pub environment_id : String
  pub binary : String
  pub cwd : String
  pub env : Assoc String
  pub limits : ResourceLimits
  pub network : Bool
  pub pty : Bool
  pub buffer_bytes : ℕ
  pub max_log_bytes : ℕ

-- A started process.
pub record Process : Type 0 where
  pub pid : ℕ
  pub pgid : ℕ
  pub start_ticks : ℕ

-- `resolve` is the contained, workspace-relative form of a requested path (app/paths.py), or its
-- refusal; `workspace` is the workspace's path as text.
pub record Host : Type 0 where
  pub workspace : String → String
  pub resolve : String → String → Result String
  pub is_dir : String → String → Bool
  pub executable : String → Bool
  pub spawn : SpawnRequest → Result Process

-- `_shell_binary`
unfoldable pub pick_binary : Host → String → Option String → String
pick_binary host deployment none = deployment
pick_binary host deployment (some chosen) =
    if str_eq chosen deployment
    then deployment
    else if host.executable chosen
    then chosen
    else deployment

-- The dictionary literal of `open_shell`, the caller's entries last.
unfoldable pub spawn_env : String → String → Bool → Assoc String → Assoc String
spawn_env workspace id pty env =
    update
      (("PATH", default_path)
        ∷ ("HOME", workspace)
        ∷ ("LANG", "C.UTF-8")
        ∷ ("TERM", if pty then "xterm-256color" else "dumb")
        ∷ ("PS1", "")
        ∷ ("PS2", "")
        ∷ ("HISTFILE", "")
        ∷ ("ENVAPI_ENVIRONMENT_ID", id)
        ∷ [])
      env

pub record OpenRequest : Type 0 where
  pub cwd : String
  pub env : Assoc String
  pub pty : Bool
  pub shell_binary : Option String

unfoldable pub spawn_request :
    Host → String → EnvironmentRecord → Quotas → String → OpenRequest → SpawnRequest
unfolding pick_binary spawn_env
spawn_request host deployment r q cwd o = record {
  environment_id = r.id;
  binary = pick_binary host deployment o.shell_binary;
  cwd = cwd;
  env = spawn_env (host.workspace r.id) r.id o.pty o.env;
  limits = effective_limits r q;
  network = r.network;
  pty = o.pty;
  buffer_bytes = q.max_output_buffer_bytes;
  max_log_bytes = q.max_command_log_bytes;
}

abbrev pub live_of : String → String → ℕ → Process → LiveShell
live_of fresh env now p = record {
  id = fresh;
  environment_id = env;
  pid = p.pid;
  pgid = p.pgid;
  start_ticks = p.start_ticks;
  state = ShellState.running;
  dead_reason = none;
  created_at = now;
  last_activity = now;
  current = none;
  commands = [];
}

abbrev pub stored_of : LiveShell → String → Bool → ShellRecord
stored_of sh cwd pty = record {
  id = sh.id;
  pid = sh.pid;
  pgid = sh.pgid;
  start_ticks = sh.start_ticks;
  state = sh.state;
  dead_reason = none;
  created_at = sh.created_at;
  cwd = cwd;
  pty = pty;
}

-- The steps once the process runs.
unfoldable pub add_shell : LiveShell → EnvironmentRecord → String → Bool → ℕ → Service → Service
add_shell sh r cwd pty now s =
    let r' = touch now (record r { shells = r.shells ++ (stored_of sh cwd pty ∷ []) }) in
    note (audited "shell.open" r.account_id r.id)
      (save r' (record s { shells = put_shell sh s.shells }))

-- `open_shell`; `fresh` is `new_id("sh")`.
unfoldable pub open_shell :
    Host → Service → Caller → ℕ → String → String → OpenRequest → Result (LiveShell × Service)
open_shell host s caller now fresh id o = do
  guard (valid_names o.env) validation_error
  r ← owned s caller id
  guard (is_active r.state) environment_archived
  quotas ← effective s.quotas caller.account_id
  check_disk s r quotas
  let live = length (live_shells s id)
  guard (ltb live quotas.max_shells_per_environment)
      (quota_exceeded "max_shells_per_environment" live quotas.max_shells_per_environment)
  cwd ← host.resolve id o.cwd
  guard (host.is_dir id cwd) validation_error
  process ← host.spawn (spawn_request host s.settings.shell_binary r quotas cwd o)
  let sh = live_of fresh r.id now process
  ok (sh, add_shell sh r cwd o.pty now s)

-- `get_shell`
unfoldable pub get_shell : Service → Caller → String → Result LiveShell
get_shell s caller shell_id = do found ← owned_shell s caller shell_id; ok (found.1)

-- `list_shells`, sorted by `created_at`.
unfoldable pub insert_shell : LiveShell → List LiveShell → List LiveShell
insert_shell sh [] = sh ∷ []
insert_shell sh (t ∷ ts) =
    if leb sh.created_at t.created_at then sh ∷ t ∷ ts else t ∷ insert_shell sh ts

unfoldable pub sort_shells : List LiveShell → List LiveShell
unfolding insert_shell
sort_shells [] = []
sort_shells (sh ∷ shs) = insert_shell sh (sort_shells shs)

unfoldable pub list_shells : Service → Caller → String → Result (List LiveShell)
list_shells s caller id = do r ← owned s caller id; ok (sort_shells (all_shells s id))

-- `close_shell`
unfoldable pub close_shell :
    (LiveShell → LiveShell) → Service → Caller → ℕ → String → Result (Unit {0} × Service)
close_shell ended s caller now shell_id = do
  found ← owned_shell s caller shell_id
  ok (
    tt,
    note (audited "shell.close" caller.account_id found.0.id)
        (close_shell_object ended now found.1 s),
  )
