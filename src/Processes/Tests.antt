-- ===== src/Processes/Tests.antt =====
-- Tests of app/processes.py, at the sample service: the shell of env_a is process 40.
use environments_api.Common.{ℕ, ◌≡◌, refl, ◌⊎◌, true, Option, none, some, List, [], ◌∷◌, filter}
use environments_api.Environments.Service.{find_record, live_shells, owned}
use environments_api.Environments.Service.Samples.{service, alice}
use environments_api.Processes.{
  ProcStat, find_stat, Kill, signal_process, by_pid, is_member, is_same_process,
}
use environments_api.Processes.Signals.{
  Signalled, signal_environment, IsCallers, signal_environment-IsCallers,
}

abbrev stat : ℕ → ℕ → ProcStat
stat pid ppid = record {
  pid = pid;
  comm = "bash";
  state = "S";
  ppid = ppid;
  pgid = pid;
  utime_ticks = 0;
  stime_ticks = 0;
  start_ticks = 7;
  rss_bytes = 1;
}

-- 41 is a child of the shell; 50 and 51 are each other's parents.
abbrev snap : List ProcStat
snap = stat 40 1 ∷ stat 41 40 ∷ stat 50 51 ∷ stat 51 50 ∷ []

abbrev read : ℕ → Option ProcStat
read pid = find_stat pid snap

signal_environment-IsCallers_example :
    (o : Signalled) × (signal_environment read snap true service alice "env_a" 41 15 ≡ some o)
    × ((o.2 ≡ [])
        ⊎ ((o.2 ≡ record { pid = 41; sig = 15 } ∷ []) × IsCallers snap service alice "env_a" 41))
signal_environment-IsCallers_example =
    signal_environment-IsCallers read snap true service alice "env_a" 41 15

abbrev killed : Option Signalled → Option (List Kill)
killed none = none
killed (some (r, s, kills)) = some kills

child_is_signalled :
    killed (signal_environment read snap true service alice "env_a" 41 15)
    ≡ some (record { pid = 41; sig = 15 } ∷ [])
unfolding signal_environment owned live_shells signal_process by_pid is_member find_stat filter
    find_record is_same_process
child_is_signalled = refl

cycle_is_refused : killed (signal_environment read snap true service alice "env_a" 50 15) ≡ some []
unfolding signal_environment owned live_shells signal_process by_pid is_member find_stat filter
    find_record is_same_process
cycle_is_refused = refl
