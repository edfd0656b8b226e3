-- ===== src/Environments/Service/Reaper.antt =====
-- `reap` and `_archive` (app/environments/service.py).
pub mod Idle
pub mod Pass
pub mod Archiving
use environments_api.Common.{
  ℕ, ◌+◌, ◌-◌, max, String, Bool, true, false, ◌&&◌, Option, none, some, List, [], ◌∷◌, ◌++◌, ltb,
  if◌then◌else◌, is_empty,
}
use environments_api.Common.Assoc.{Assoc, insert}
use environments_api.Common.Result.{Result, ok, err, ◌>>=◌}
use environments_api.Environments.Records.{
  active, archived, is_active, is_running, EnvironmentRecord, environment_idle_ttl, shell_idle_ttl,
}
use environments_api.Environments.Quotas.{Quotas, effective}
use environments_api.Environments.Service.{
  Service, LiveShell, workspace_wiped, logs_wiped, audited, find_record, find_shell, note,
  live_shells, all_shells, save,
}
use environments_api.Environments.Service.Closing.{close_shell_object}
use environments_api.Environments.Service.Lifecycle.{pop_each}

pub record ReapReport : Type 0 where
  pub shells_closed : ℕ
  pub environments_archived : ℕ
  pub logs_pruned : ℕ
  pub usage : Assoc ℕ

-- What the disk answers a pass: how many logs a prune removes, and an environment's bytes.
pub record Disk : Type 0 where
  pub pruned : String → ℕ → ℕ
  pub bytes : String → ℕ

-- The test of the first loop; a shell with a command running is never idle.
unfoldable pub shell_idle : ℕ → Quotas → EnvironmentRecord → LiveShell → Bool
shell_idle now q r sh =
    is_running sh.state
    && is_free sh.current
    && ltb (shell_idle_ttl r q.shell_idle_ttl_seconds) (now - sh.last_activity)
  where
    is_free : Option String → Bool
    is_free none = true
    is_free (some c) = false

-- A pass so far: the service, and the report or the error that ended the pass.
abbrev pub Pass : Type 0
Pass = Service × Result ReapReport

abbrev pub and_then : Pass → (Service → ReapReport → Pass) → Pass
and_then (s, err e) next = (s, err e)
and_then (s, ok rep) next = next s rep

-- One round of the first loop, for a running shell of a record.
unfoldable pub reap_running :
    (LiveShell → LiveShell)
    → ℕ
    → LiveShell
    → EnvironmentRecord
    → Result Quotas
    → Service
    → ReapReport
    → Pass
reap_running ended now sh r (err e) s rep = (s, err e)
reap_running ended now sh r (ok q) s rep =
    if shell_idle now q r sh
    then (
      note (audited "shell.reap" r.account_id r.id) (close_shell_object ended now sh s),
      ok (record rep { shells_closed = rep.shells_closed + 1 }),
    )
    else (s, ok rep)

unfoldable pub reap_found :
    (LiveShell → LiveShell) → ℕ → LiveShell → Option EnvironmentRecord → Service → ReapReport → Pass
unfolding reap_running
reap_found ended now sh none s rep = (s, ok rep)
reap_found ended now sh (some r) s rep =
    if is_running sh.state
    then reap_running ended now sh r (effective s.quotas r.account_id) s rep
    else (s, ok rep)

-- The first loop, over the records and the shells as they were when the pass began.
unfoldable pub reap_shells :
    (LiveShell → LiveShell)
    → ℕ
    → List EnvironmentRecord
    → List LiveShell
    → Service
    → ReapReport
    → Pass
unfolding reap_found
reap_shells ended now records [] s rep = (s, ok rep)
reap_shells ended now records (sh ∷ shs) s rep =
    and_then (reap_found ended now sh (find_record sh.environment_id records) s rep)
      (reap_shells ended now records shs)

-- `_archive`
unfoldable pub archive : ℕ → EnvironmentRecord → Service → Service
archive now r s =
    let s1 = pop_each (all_shells s r.id) s in
    let s2 = record s1 { effects = s1.effects ++ (workspace_wiped r.id ∷ logs_wiped r.id ∷ []) } in
    let r' = record r { state = archived; archived_at = some now; updated_at = now } in
    note (audited "environment.archive" r.account_id r.id) (save r' s2)

-- `max([record.last_activity_at, *(s.last_activity for s in live)])`
unfoldable pub last_activity : ℕ → List LiveShell → ℕ
last_activity t [] = t
last_activity t (sh ∷ shs) = last_activity (max t sh.last_activity) shs

unfoldable pub environment_idle : ℕ → Quotas → EnvironmentRecord → List LiveShell → Bool
unfolding last_activity
environment_idle now q r live =
    is_empty live
    && ltb (environment_idle_ttl r q.environment_idle_ttl_seconds)
        (now - last_activity r.last_activity_at live)

-- One round of the second loop, for a record that is still in the dict.
unfoldable pub reap_record : Disk → ℕ → Quotas → EnvironmentRecord → Service → ReapReport → Pass
reap_record disk now q r s rep =
    let gone = is_active r.state && environment_idle now q r (live_shells s r.id) in
    let s1 = if gone then archive now r s else s in
    let size = disk.bytes r.id in
    (
      record s1 { usage = insert r.id size s1.usage },
      ok (record rep {
        environments_archived =
            if gone then rep.environments_archived + 1 else rep.environments_archived;
        logs_pruned = rep.logs_pruned + disk.pruned r.id q.max_command_log_bytes;
        usage = insert r.id size rep.usage;
      }),
    )

-- The quotas are read before the dict is asked whether the record is still there.
unfoldable pub reap_present :
    Disk → ℕ → Result Quotas → Option EnvironmentRecord → Service → ReapReport → Pass
unfolding reap_record
reap_present disk now (err e) found s rep = (s, err e)
reap_present disk now (ok q) none s rep = (s, ok rep)
reap_present disk now (ok q) (some r) s rep = reap_record disk now q r s rep

-- The second loop, over the ids of the records as they were; the object in the dict is read.
unfoldable pub reap_records : Disk → ℕ → List EnvironmentRecord → Service → ReapReport → Pass
unfolding reap_present
reap_records disk now [] s rep = (s, ok rep)
reap_records disk now (r ∷ rs) s rep =
    and_then
      (reap_present disk now (effective s.quotas r.account_id) (find_record r.id s.records) s rep)
      (reap_records disk now rs)

-- `reap`
unfoldable pub reap : (LiveShell → LiveShell) → Disk → ℕ → Service → Pass
unfolding reap_shells reap_records
reap ended disk now s =
    let start : ReapReport = record {
      shells_closed = 0;
      environments_archived = 0;
      logs_pruned = 0;
      usage = [];
    } in
    and_then (reap_shells ended now s.records s.shells s start) (reap_records disk now s.records)
