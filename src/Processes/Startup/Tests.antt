-- ===== src/Processes/Startup/Tests.antt =====
-- Searches below a process, and the start of the service, at snapshots.
use environments_api.Common.{
  ℕ, ◌-◌, ◌≡◌, refl, sym, ◌↔◌, ◌⊎◌, inl, inr, true, false, Option, none, some, List, [], ◌∷◌, arith,
}
use mathlib.Core.Path.{subst}
use environments_api.Environments.Records.{ShellRecord, ShellState}
use environments_api.Processes.{ProcStat, find_stat}
use environments_api.Processes.Descendants.{children, descendants, Has, IsEndless, descendants-none}
use environments_api.Processes.Descendants.Ends.{Below, IsRanked, All-IsRanked, descendants-Below}
use environments_api.Processes.Startup.{
  KillSent, Reconciled, IsReconciled, reconcile_shells, reconcile_shells-IsReconciled,
}
use environments_api.Common.{All}
use environments_api.Processes.Startup.Killing.{IsKilled, reconcile_shells-IsKilled}

abbrev stat : ℕ → ℕ → ProcStat
stat pid ppid = record {
  pid = pid;
  comm = "sh";
  state = "S";
  ppid = ppid;
  pgid = pid;
  utime_ticks = 0;
  stime_ticks = 0;
  start_ticks = 7;
  rss_bytes = 0;
}

-- 40 has the child 41, and that 42.
abbrev line_of_three : List ProcStat
line_of_three = stat 40 1 ∷ stat 41 40 ∷ stat 42 41 ∷ []

line_of_three-IsRanked : IsRanked line_of_three (λ p. 100 - p)
line_of_three-IsRanked = All-IsRanked line_of_three (λ p. 100 - p) (omega arith)

descendants-Below_example :
    (fuel : ℕ) × (found : List ℕ) × (descendants fuel 40 line_of_three ≡ some found)
    × ((x : ℕ) → Has x found ↔ Below line_of_three 40 x)
descendants-Below_example = descendants-Below line_of_three (λ p. 100 - p) 40 line_of_three-IsRanked

-- The number of 40 was taken again, by a child of 41, while the snapshot was read.
abbrev cycle_of_two : List ProcStat
cycle_of_two = stat 40 41 ∷ stat 41 40 ∷ []

abbrev InCycle : ℕ → Type 0
InCycle p = (p ≡ 40) ⊎ (p ≡ 41)

cycle_of_two-IsEndless : IsEndless cycle_of_two InCycle
cycle_of_two-IsEndless p (inl e) = (
  41,
  inr refl,
  subst (λ q. Has 41 (children cycle_of_two q)) (sym e) (unfold children in inl refl),
)
cycle_of_two-IsEndless p (inr e) = (
  40,
  inl refl,
  subst (λ q. Has 40 (children cycle_of_two q)) (sym e) (unfold children in inl refl),
)

cycle_never_ends : descendants 1000000 40 cycle_of_two ≡ none
cycle_never_ends =
    descendants-none cycle_of_two InCycle 40 cycle_of_two-IsEndless (inl refl) 1000000

abbrev recorded : ℕ → ShellRecord
recorded pid = record {
  id = "sh";
  pid = pid;
  pgid = pid;
  start_ticks = 7;
  state = ShellState.running;
  dead_reason = none;
  created_at = 1;
  cwd = ".";
  pty = false;
}

abbrev dead_shell : ℕ → ShellRecord
dead_shell pid = record (recorded pid) {
  state = ShellState.dead;
  dead_reason = some "service_restarted";
}

-- 40 is still the recorded process; 50 is gone.
abbrev restarted : Reconciled
restarted = record {
  shells = dead_shell 40 ∷ dead_shell 50 ∷ [];
  kills = KillSent.group 40 ∷ KillSent.process 41 ∷ KillSent.process 42 ∷ KillSent.process 40 ∷ [];
  changed = true;
}

abbrev reads_line : ShellRecord → ℕ → Option ProcStat
reads_line sh pid = find_stat pid line_of_three

restarts :
    reconcile_shells reads_line (λ sh. line_of_three) (λ sh. 5) (recorded 40 ∷ recorded 50 ∷ [])
    ≡ some restarted
unfolding reconcile_shells find_stat
restarts = refl

reconcile_shells-IsReconciled_example :
    IsReconciled reads_line
      (λ sh. line_of_three)
      (λ sh. 5)
      (recorded 40 ∷ recorded 50 ∷ [])
      restarted
reconcile_shells-IsReconciled_example =
    reconcile_shells-IsReconciled reads_line (λ sh. line_of_three) (λ sh. 5)
      (recorded 40 ∷ recorded 50 ∷ []) restarted restarts

reconcile_shells-IsKilled_example :
    (fuel : ShellRecord → ℕ) × (x : Reconciled) × (reconcile_shells reads_line
        (λ sh. line_of_three)
        fuel
        (recorded 40 ∷ recorded 50 ∷ [])
      ≡ some x)
    × All (IsKilled reads_line (λ sh. line_of_three) x.kills) (recorded 40 ∷ recorded 50 ∷ [])
reconcile_shells-IsKilled_example =
    reconcile_shells-IsKilled reads_line (λ sh. line_of_three) (λ sh p. 100 - p)
      (recorded 40 ∷ recorded 50 ∷ []) (λ sh. line_of_three-IsRanked)
