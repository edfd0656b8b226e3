-- ===== src/Environments/Service/Reaper/Idle.antt =====
-- What a pass of the reaper archives (app/environments/service.py).
use environments_api.Common.{
  ℕ, ◌+◌, ◌<◌, String, ◌≡◌, refl, true, some, List, [], ◌∷◌, arith, str_eq, if◌then◌else◌,
}
use environments_api.Environments.Records.{archived, EnvironmentRecord, environment_idle_ttl}
use environments_api.Environments.Quotas.{Quotas}
use environments_api.Environments.Service.{
  Service, LiveShell, find_record, all_shells, remove_shell,
}
use environments_api.Environments.Service.Lifecycle.{pop_each}
use environments_api.Environments.Service.Dict.{find_record-put_record}
use environments_api.Environments.Service.Reaper.{archive, environment_idle, last_activity}

pub records-pop_each : (shs : List LiveShell) (s : Service) → (pop_each shs s).records ≡ s.records
unfolding pop_each
records-pop_each [] s = refl
records-pop_each (sh ∷ shs) s =
    records-pop_each shs (record s { shells = remove_shell sh.id s.shells })

-- Archiving changes the one record: its state, and the time of it.
pub find_record-archive :
    (now : ℕ) (r : EnvironmentRecord) (s : Service) (id : String)
    → find_record id (archive now r s).records ≡ (
        if str_eq r.id id
        then some (record r { state = archived; archived_at = some now; updated_at = now })
        else find_record id s.records)
unfolding archive
find_record-archive now r s id = rw (find_record-put_record, records-pop_each (all_shells s r.id) s)

-- An environment with a live shell is never idle, and an idle one has been quiet for longer than
-- its lifetime, stamped at its creation or its account's.
pub environment_idle_lem :
    (now : ℕ) (q : Quotas) (r : EnvironmentRecord) (live : List LiveShell)
    → environment_idle now q r live ≡ true
    → (live ≡ [])
      × (r.last_activity_at + environment_idle_ttl r q.environment_idle_ttl_seconds < now)
unfolding environment_idle last_activity
environment_idle_lem now q r [] h = (refl, ground arith)
environment_idle_lem now q r (sh ∷ live) h = cc
