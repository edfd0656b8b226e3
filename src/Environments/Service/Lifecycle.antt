-- ===== src/Environments/Service/Lifecycle.antt =====
-- Making, listing, deleting and resetting environments (app/environments/service.py).
use environments_api.Common.{
  ℕ, min, String, Bool, true, false, not, ◌&&◌, ◌||◌, Option, none, some, List, [], ◌∷◌, ◌++◌,
  str_eq, ltb, leb, if◌then◌else◌, length, filter,
}
use environments_api.Common.Assoc.{Assoc, lookup, insert, remove}
use environments_api.Common.Error.{network_disabled, quota_exceeded, environment_archived}
use environments_api.Common.Result.{Result, ok, ◌>>=◌, ◌>>◌, guard}
use environments_api.Environments.Records.{
  EnvironmentState, active, archived, is_active, is_running, EnvironmentRecord, EnvironmentLimits,
  no_limits,
}
use environments_api.Environments.Quotas.{Quotas, effective}
use environments_api.Environments.Service.{
  Caller, Service, LiveShell, dirs_made, prepared, torn_down, folder_deleted, workspace_wiped,
  logs_made, audited, find_record, remove_record, remove_shell, note, owned, all_shells, touch,
  save,
}
use environments_api.Environments.Service.Closing.{close_each}

-- app/preferences.py: what a create is stamped with.
pub record Preferences : Type 0 where
  pub environment_idle_ttl_seconds : ℕ
  pub shell_idle_ttl_seconds : ℕ
  pub max_environments_per_profile : ℕ

pub record CreateRequest : Type 0 where
  pub name : String
  pub labels : Assoc String
  pub credentials : List String
  pub network : Option Bool
  pub limits : Option EnvironmentLimits
  pub preferences : Option Preferences

abbrev pub check_limit : String → Option ℕ → ℕ → Result (Unit {0})
check_limit name none maximum = ok tt
check_limit name (some requested) maximum =
    guard (not (ltb maximum requested)) (quota_exceeded name requested maximum)

-- The loop over `limits.model_dump(exclude_none=True)`.
unfoldable pub check_limits : EnvironmentLimits → Quotas → Result (Unit {0})
check_limits l q = do
  check_limit "max_memory_bytes" l.max_memory_bytes q.max_memory_bytes
  check_limit "max_cpu_seconds" l.max_cpu_seconds q.max_cpu_seconds
  check_limit "max_file_size_bytes" l.max_file_size_bytes q.max_file_size_bytes
  check_limit "max_processes_per_shell" l.max_processes_per_shell q.max_processes_per_shell

abbrev pub mine_active : String → EnvironmentRecord → Bool
mine_active account r = str_eq r.account_id account && is_active r.state

-- The account's active environments, and those of them in one profile.
unfoldable pub active_of : String → List EnvironmentRecord → List EnvironmentRecord
active_of account rs = filter (mine_active account) rs

unfoldable pub active_in : String → String → List EnvironmentRecord → List EnvironmentRecord
unfolding active_of
active_in account profile rs = filter (λ r. str_eq r.profile profile) (active_of account rs)

-- What a caller with no preferences, or a deployment with no settings-api, gets.
abbrev pub stamp : Service → Option Preferences → Option Preferences
stamp s none = none
stamp s (some p) = if s.settings.settings_api then some p else none

abbrev pub profile_cap : Quotas → Option Preferences → ℕ
profile_cap q none = q.max_environments_per_profile
profile_cap q (some p) = min q.max_environments_per_profile p.max_environments_per_profile

abbrev pub wants_network : Service → Option Bool → Bool
wants_network s none = s.settings.allow_network
wants_network s (some b) = b

abbrev pub limits_or_none : Option EnvironmentLimits → EnvironmentLimits
limits_or_none none = no_limits
limits_or_none (some l) = l

abbrev pub idle_environment : Option Preferences → Option ℕ
idle_environment none = none
idle_environment (some p) = some p.environment_idle_ttl_seconds

abbrev pub idle_shell : Option Preferences → Option ℕ
idle_shell none = none
idle_shell (some p) = some p.shell_idle_ttl_seconds

-- The record of a create; `fresh` is `new_id("env")`.
unfoldable pub new_record :
    Service → Caller → String → ℕ → String → CreateRequest → EnvironmentRecord
new_record s caller tier now fresh c = record {
  id = fresh;
  account_id = caller.account_id;
  profile = caller.profile;
  name = c.name;
  labels = c.labels;
  credentials = c.credentials;
  network = wants_network s c.network;
  limits = limits_or_none c.limits;
  state = active;
  sandbox_tier = tier;
  created_at = now;
  updated_at = now;
  last_activity_at = now;
  archived_at = none;
  shells = [];
  environment_idle_ttl_seconds = idle_environment (stamp s c.preferences);
  shell_idle_ttl_seconds = idle_shell (stamp s c.preferences);
}

-- The steps of `create` once its checks have passed.
unfoldable pub add_record : EnvironmentRecord → Service → Service
add_record r s =
    let s' = save r (record s { effects = s.effects ++ (dirs_made r.id ∷ prepared r.id ∷ []) }) in
    note (audited "environment.create" r.account_id r.id) s'

unfoldable pub create :
    Service → Caller → String → ℕ → String → CreateRequest → Result (EnvironmentRecord × Service)
create s caller tier now fresh c = do
  quotas ← effective s.quotas caller.account_id
  guard (not (wants_network s c.network) || s.settings.allow_network) network_disabled
  check_limits (limits_or_none c.limits) quotas
  let cap = profile_cap quotas (stamp s c.preferences)
  let in_profile = length (active_in caller.account_id caller.profile s.records)
  let mine = length (active_of caller.account_id s.records)
  guard (ltb in_profile cap) (quota_exceeded "max_environments_per_profile" in_profile cap)
  guard (ltb mine quotas.max_environments_per_account)
      (quota_exceeded "max_environments_per_account" mine quotas.max_environments_per_account)
  let r = new_record s caller tier now fresh c
  ok (r, add_record r s)

-- `get`
unfoldable pub get : Service → Caller → String → Result EnvironmentRecord
unfolding owned
get s caller id = owned s caller id

abbrev same_env_state : EnvironmentState → EnvironmentState → Bool
same_env_state active active = true
same_env_state archived archived = true
same_env_state a b = false

-- The filters of `list_environments`; `label` is already split into its key and value, and an
-- empty value stands for none.
pub record ListFilter : Type 0 where
  pub profile : Option String
  pub state : Option EnvironmentState
  pub label : Option (String × String)

abbrev profile_passes : Option String → EnvironmentRecord → Bool
profile_passes none r = true
profile_passes (some p) r = str_eq r.profile p

abbrev state_passes : Option EnvironmentState → EnvironmentRecord → Bool
state_passes none r = true
state_passes (some st) r = same_env_state r.state st

abbrev value_passes : String → Option String → Bool
value_passes value none = false
value_passes value (some v) = str_eq value "" || str_eq v value

abbrev label_passes : Option (String × String) → EnvironmentRecord → Bool
label_passes none r = true
label_passes (some (key, value)) r = value_passes value (lookup key r.labels)

abbrev pub listed : Caller → ListFilter → EnvironmentRecord → Bool
listed caller f r =
    str_eq r.account_id caller.account_id
    && profile_passes f.profile r
    && state_passes f.state r
    && label_passes f.label r

-- `sorted(result, key=created_at)`, which is stable.
unfoldable pub insert_by_created :
    EnvironmentRecord → List EnvironmentRecord → List EnvironmentRecord
insert_by_created r [] = r ∷ []
insert_by_created r (q ∷ qs) =
    if leb r.created_at q.created_at then r ∷ q ∷ qs else q ∷ insert_by_created r qs

unfoldable pub sort_by_created : List EnvironmentRecord → List EnvironmentRecord
unfolding insert_by_created
sort_by_created [] = []
sort_by_created (r ∷ rs) = insert_by_created r (sort_by_created rs)

unfoldable pub list_environments : Service → Caller → ListFilter → List EnvironmentRecord
unfolding sort_by_created
list_environments s caller f = sort_by_created (filter (listed caller f) s.records)

-- `for shell in shells: self._shells.pop(shell.id, None)`
unfoldable pub pop_each : List LiveShell → Service → Service
pop_each [] s = s
pop_each (sh ∷ shs) s = pop_each shs (record s { shells = remove_shell sh.id s.shells })

-- `delete`; `ended` is what closing leaves a shell in.
unfoldable pub delete :
    (LiveShell → LiveShell) → Service → Caller → ℕ → String → Result (Unit {0} × Service)
delete ended s caller now id = do
  r ← owned s caller id
  let shells = all_shells s id
  let s1 = close_each ended now shells (record s { records = remove_record id s.records })
  let s2 = pop_each shells s1
  ok (
    tt,
    record s2 {
      usage = remove id s2.usage;
      saved = remove id s2.saved;
      effects =
          s2.effects
          ++ (torn_down id
              ∷ folder_deleted id
              ∷ audited "environment.delete" caller.account_id id
              ∷ []);
    },
  )

-- The record that a reset leaves: `record` is the object in the dict, as closing left it.
unfoldable pub reset_record : ℕ → EnvironmentRecord → EnvironmentRecord
reset_record now r = touch now (record r {
  state = active;
  archived_at = none;
  shells = filter (λ sh. not (is_running sh.state)) r.shells;
})

abbrev pub current_record : Service → EnvironmentRecord → EnvironmentRecord
current_record s r = elim (find_record r.id s.records) [ none ↦ r | some q ↦ q ]

unfoldable pub reset :
    (LiveShell → LiveShell) → Service → Caller → ℕ → String → Result (EnvironmentRecord × Service)
reset ended s caller now id = do
  r ← owned s caller id
  let shells = all_shells s id
  let s1 = close_each ended now shells s
  let s2 = pop_each shells s1
  let r' = reset_record now (current_record s2 r)
  let s3 = record s2 {
    effects = s2.effects ++ (workspace_wiped id ∷ logs_made id ∷ prepared id ∷ []);
  }
  let s4 = save r' s3
  let s5 = record s4 { usage = insert id 0 s4.usage }
  ok (r', note (audited "environment.reset" caller.account_id id) s5)

-- `workspace_for`: the check; the path and the owner are the store's and the sandbox's.
unfoldable pub workspace_for : Service → Caller → String → Result EnvironmentRecord
workspace_for s caller id = do
  r ← owned s caller id
  guard (is_active r.state) environment_archived
  ok r
