-- ===== src/Processes.antt =====
-- app/processes.py and the parts of app/procfs.py that it uses: which shell a process belongs to, and
-- the guard for signals. What /proc shows is an argument: `read` for one process, and a snapshot.
pub mod Ancestry
pub mod Descendants
pub mod Startup
pub mod Signals
mod Tests
use environments_api.Common.{
  ℕ, zero, suc, ◌+◌, String, Bool, true, false, not, ◌&&◌, ◌||◌, Option, none, some, List, [], ◌∷◌,
  str_eq, ltb, ◌==◌, if◌then◌else◌, length, filter,
}
use environments_api.Common.Error.{not_found}
use environments_api.Common.Result.{Result, ok, err, ◌>>=◌}
use environments_api.Environments.Records.{EnvironmentRecord, is_running}
use environments_api.Environments.Service.{
  Caller, Service, LiveShell, owned, live_shells, all_shells, note, audited,
}

-- The state is the letter of `/proc/<pid>/stat`.
pub record ProcStat : Type 0 where
  pub pid : ℕ
  pub comm : String
  pub state : String
  pub ppid : ℕ
  pub pgid : ℕ
  pub utime_ticks : ℕ
  pub stime_ticks : ℕ
  pub start_ticks : ℕ
  pub rss_bytes : ℕ

-- `snap.get(pid)`
unfoldable pub find_stat : ℕ → List ProcStat → Option ProcStat
find_stat pid [] = none
find_stat pid (p ∷ ps) = let rest = find_stat pid ps in if p.pid == pid then some p else rest

abbrev is_same : ℕ → Option ProcStat → Bool
is_same start_ticks none = false
is_same start_ticks (some p) = (p.start_ticks == start_ticks) && not (str_eq p.state "Z")

-- `is_same_process`
unfoldable pub is_same_process : (ℕ → Option ProcStat) → ℕ → ℕ → Bool
is_same_process read pid start_ticks = is_same start_ticks (read pid)

-- `_live_shells`
unfoldable pub live : (ℕ → Option ProcStat) → List LiveShell → List LiveShell
live read shells =
    filter (λ sh. is_running sh.state && is_same_process read sh.pid sh.start_ticks) shells

-- `by_pid.get(pid)` of the dict made from the shells: the last of one pid stands.
unfoldable pub by_pid : ℕ → List LiveShell → Option LiveShell
by_pid pid [] = none
by_pid pid (sh ∷ shs) = elim (by_pid pid shs) [
  | some found ↦ some found
  | none ↦ if sh.pid == pid then some sh else none
]

unfoldable pub is_member : ℕ → List ℕ → Bool
is_member n [] = false
is_member n (m ∷ ms) = (m == n) || is_member n ms

-- The loop of `owning_shell`; the outer `none` stands for a loop that has not ended.
unfoldable pub owning_loop :
    ℕ → List LiveShell → List ProcStat → ℕ → List ℕ → Option (Option LiveShell)
owning_loop zero shells snap current seen = none
owning_loop (suc fuel) shells snap current seen =
    elim (ltb 1 current && not (is_member current seen)) [
      | false ↦ some none
      | true ↦ elim (by_pid current shells) [
        | some sh ↦ some (some sh)
        | none ↦ elim (find_stat current snap) [
          | none ↦ some none
          | some p ↦ owning_loop fuel shells snap p.ppid (current ∷ seen)
        ]
      ]
    ]

-- `owning_shell`, with one round more than there are processes.
unfoldable pub owning_shell :
    (ℕ → Option ProcStat) → List ProcStat → ℕ → List LiveShell → Option (Option LiveShell)
unfolding owning_loop live
owning_shell read snap pid shells = owning_loop (length snap + 1) (live read shells) snap pid []

-- A call of `os.kill`.
pub record Kill : Type 0 where
  pub pid : ℕ
  pub sig : ℕ

abbrev signal_owned : ℕ → ℕ → Bool → Option (Option LiveShell) → Option (Result String × List Kill)
signal_owned pid sig exists none = none
signal_owned pid sig exists (some none) = some (err not_found, [])
signal_owned pid sig exists (some (some sh)) =
    some (if exists then ok sh.id else err not_found, record { pid = pid; sig = sig } ∷ [])

-- `signal_process`: its result and the calls of `os.kill`; `exists` says whether that call finds
-- the process.
unfoldable pub signal_process :
    (ℕ → Option ProcStat)
    → List ProcStat
    → Bool
    → ℕ
    → ℕ
    → List LiveShell
    → Option (Result String × List Kill)
unfolding owning_shell
signal_process read snap exists pid sig shells =
    signal_owned pid sig exists (owning_shell read snap pid shells)
