-- ===== src/Environments/Service/Tests.antt =====
-- Runs of the service, and its theorems at concrete states.
use environments_api.Common.{
  ◌+◌, ◌≤◌, ◌<◌, ◌≡◌, ◌⊎◌, arith, refl, false, none, some, [], ◌∷◌, eq_iff, length, filter,
}
use environments_api.Common.Int.{pos}
use environments_api.Common.Assoc.{lookup, insert, update}
use environments_api.Common.Error.{Error, quota_exceeded, validation_error}
use environments_api.Common.Result.{Result, ok, err}
use environments_api.Environments.Records.{EnvironmentRecord, active, archived}
use environments_api.Environments.Quotas.{effective, asdict, from_values, validate_overrides}
use environments_api.Environments.Service.{
  Service, used_bytes, find_record, owned, all_shells, live_shells, find_shell, put_shell,
  put_record, check_disk,
}
use environments_api.Environments.Service.Samples
use environments_api.Environments.Service.Samples.{
  service, alice, bob, plain, host, at_root, disk, close_it, idle_port, environment, full_quotas,
}
use environments_api.Environments.Service.Closing.{close_shell_object, on_shell_change}
use environments_api.Environments.Service.Lifecycle.{
  create, new_record, add_record, active_of, active_in, reset, pop_each, profile_cap, stamp,
}
use environments_api.Environments.Service.Sessions.{
  open_shell, add_shell, live_of, valid_names, spawn_request,
}
use environments_api.Environments.Service.Caps.{
  account_count, profile_count, create_within_caps, open_shell_within_cap, reset_passes_caps,
}
use environments_api.Environments.Service.Frame.{IsWellFormed}
use environments_api.Environments.Service.Frame.Calls.{Untouched}
use environments_api.Environments.Service.Operations.{
  Calls, creates, deletes, runs, measures, serve_all,
}
use environments_api.Environments.Service.Isolation.{isolation}
use mathlib.Core.Option
use environments_api.Environments.Records.{shell_idle_ttl, environment_idle_ttl}
use environments_api.Environments.Service.{remove_shell}
use environments_api.Environments.Service.Lifecycle.{check_limits}
use environments_api.Environments.Service.{LiveShell}
use environments_api.Environments.Service.Closing.{find_stored}
use environments_api.Environments.Service.Reaper.{reap, shell_idle, environment_idle, archive}
use environments_api.Environments.Service.Reaper.Pass.{Reaped}
use environments_api.Environments.Service.Reaper.Archiving.{reap_archives_idle}
use environments_api.Environments.Service.Writes.{admit_enter, admit_fail, admit_write}
use environments_api.Environments.Service.Writes.Reserved.{
  admit_enter_counts, admit_fail_restores, admit_write_fails, admit_enter-lookup,
}

service-IsWellFormed : IsWellFormed service
unfolding find_record
service-IsWellFormed = record { records = (refl, (refl, (refl, tt))); shells = (tt, tt) }

abbrev created : EnvironmentRecord
created = record (environment "env_n" "alice" active) {
  name = "new";
  created_at = 30;
  updated_at = 30;
  last_activity_at = 30;
}

effective_alice : effective service.quotas "alice" ≡ ok Samples.quotas
unfolding effective asdict from_values lookup update insert validate_overrides
effective_alice = refl

create_run :
    create service alice "directory" 30 "env_n" plain ≡ ok (created, add_record created service)
unfolding create effective asdict from_values lookup update insert validate_overrides find_record
    active_of active_in add_record new_record check_limits filter
create_run = refl

create_within_caps_example :
    let t = add_record created service in
    (account_count "alice" t ≡ account_count "alice" service + 1)
    × (account_count "alice" t ≤ 3)
    × (profile_count "alice" "personal" t ≡ profile_count "alice" "personal" service + 1)
    × (profile_count "alice" "personal" t ≤ profile_cap Samples.quotas (stamp service none))
unfolding find_record
create_within_caps_example =
    create_within_caps service (add_record created service) alice "directory" 30 "env_n" plain
      created Samples.quotas refl effective_alice create_run

abbrev crowded : Service
crowded = record service { quotas = record { path = λ a. a; defaults = full_quotas; files = [] } }

effective_crowded : effective crowded.quotas "alice" ≡ ok full_quotas
unfolding effective asdict from_values lookup update insert validate_overrides
effective_crowded = refl

abbrev opened : LiveShell
opened = live_of "sh_n" "env_a" 30 (record { pid = 50; pgid = 50; start_ticks = 9 })

abbrev with_opened : Service
with_opened = add_shell opened (environment "env_a" "alice" active) "." false 30 service

open_shell_run : open_shell host service alice 30 "sh_n" "env_a" at_root ≡ ok (opened, with_opened)
unfolding open_shell effective asdict from_values lookup update insert validate_overrides owned
    find_record check_disk live_shells filter add_shell valid_names spawn_request
open_shell_run = refl

open_shell_within_cap_example :
    (length (live_shells with_opened "env_a") ≡ length (live_shells service "env_a") + 1)
    × (length (live_shells with_opened "env_a") ≤ 2)
open_shell_within_cap_example =
    open_shell_within_cap host service with_opened alice 30 "sh_n" "env_a" at_root opened
      Samples.quotas (λ e. cc ((eq_iff "sh_a" "sh_n").1 e), tt) effective_alice open_shell_run

owned_old : owned service alice "env_o" ≡ ok (environment "env_o" "alice" archived)
unfolding owned find_record
owned_old = refl

no_shells : all_shells service "env_o" ≡ []
unfolding all_shells filter
no_shells = refl

reset_passes_caps_example :
    (r' : EnvironmentRecord) × (t : Service) × (reset close_it service alice 40 "env_o"
      ≡ ok (r', t))
    × (r'.state ≡ active)
    × (account_count "alice" t ≡ account_count "alice" service + 1)
reset_passes_caps_example =
    reset_passes_caps close_it service alice 40 "env_o" (environment "env_o" "alice" archived)
      owned_old refl no_shells

abbrev calls : Calls
calls =
    (alice, idle_port, creates 30 "directory" "env_n" plain)
    ∷ (alice, idle_port, runs 31 "sh_a")
    ∷ (alice, idle_port, deletes 32 "env_b")
    ∷ (alice, idle_port, measures (λ sh. 1) 9 9 "env_b")
    ∷ (alice, idle_port, deletes 33 "env_a")
    ∷ []

isolation_example : Untouched "env_b" service (serve_all service calls)
unfolding find_record
isolation_example =
    isolation service calls "env_b" (environment "env_b" "bob" active) service-IsWellFormed
      (refl, (tt, (tt, (tt, (tt, tt))))) refl (cc, (cc, (cc, (cc, (cc, tt)))))

reap_archives_idle_example :
    (r' : EnvironmentRecord) × (find_record "env_b" (reap close_it disk 90 service).0.records
      ≡ some r')
    × Reaped 90 service.quotas (environment "env_b" "bob" active) r'
unfolding find_record
reap_archives_idle_example =
    reap_archives_idle close_it disk 90 service "env_b" (environment "env_b" "bob" active)
      service-IsWellFormed.records refl

-- Bob's environment had no shell and was quiet for longer than 20.
reap_run :
    Option.map
      (λ (r : EnvironmentRecord). r.state)
      (find_record "env_b" (reap close_it disk 90 service).0.records)
    ≡ some archived
unfolding reap effective asdict from_values lookup update insert validate_overrides find_record
    find_shell filter all_shells live_shells shell_idle environment_idle archive pop_each
    on_shell_change close_shell_object put_record put_shell find_stored shell_idle_ttl
    environment_idle_ttl remove_shell
reap_run = refl

abbrev reserved : Service
reserved = record service { usage = ("env_a", 90) ∷ [] }

admit_run : admit_enter service alice "env_a" (pos 30) ≡ ok reserved
unfolding admit_enter effective asdict from_values lookup update insert validate_overrides owned
    find_record
admit_run = refl

admit_refuses :
    admit_enter service alice "env_a" (pos 41) ≡ err (quota_exceeded "max_disk_bytes" 101 100)
unfolding admit_enter effective asdict from_values lookup update insert validate_overrides owned
    find_record
admit_refuses = refl

admit_enter_counts_example :
    (used_bytes reserved "env_a" ≡ used_bytes service "env_a" + 30)
    × (0 < 30 → used_bytes reserved "env_a" ≤ 100)
admit_enter_counts_example =
    admit_enter_counts service reserved alice "env_a" (pos 30) Samples.quotas effective_alice
      admit_run

admit_fail_restores_example :
    (lookup "env_a" reserved.usage ≡ some (used_bytes reserved "env_a" + 0)
      → lookup "env_a" (admit_fail "env_a" (pos 30) reserved).usage
        ≡ some (used_bytes service "env_a" + 0))
    × (lookup "env_a" reserved.usage ≡ none → admit_fail "env_a" (pos 30) reserved ≡ reserved)
admit_fail_restores_example =
    admit_fail_restores service reserved reserved alice "env_a" (pos 30) 0 admit_run

abbrev raises : Service → Result (Unit {0}) × Service
raises t = (err validation_error, t)

admit_write_fails_example :
    ((why : Error) × (admit_enter service alice "env_a" (pos 30) ≡ err why)
      × (admit_write service alice "env_a" (pos 30) raises ≡ (err why, service)))
    ⊎ (((admit_write service alice "env_a" (pos 30) raises).0 ≡ err validation_error)
        × (lookup "env_a" (admit_write service alice "env_a" (pos 30) raises).1.usage
            ≡ some (used_bytes service "env_a" + 0)))
admit_write_fails_example =
    admit_write_fails service alice "env_a" (pos 30) raises validation_error 0
      (λ s' e. (refl, ground (arith, admit_enter-lookup service s' alice "env_a" (pos 30) e)))
