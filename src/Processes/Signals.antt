-- ===== src/Processes/Signals.antt =====
-- EnvironmentService.signal_process (app/environments/service.py), over app/processes.py.
use environments_api.Common.{
  ℕ, String, ◌≡◌, refl, ◌∙◌, ◌⊎◌, inl, inr, Bool, true, Option, none, some, List, [], ◌∷◌, eq_iff,
  str_eq,
}
use environments_api.Common.Result.{Result, ok, err, Result-cases}
use environments_api.Environments.Records.{EnvironmentRecord, is_running}
use environments_api.Environments.Service.{
  Caller, Service, LiveShell, owned, live_shells, note, audited, find_record,
}
use environments_api.Environments.Service.Dict.{owned_lem}
use environments_api.Processes.{ProcStat, Kill, signal_process}
use environments_api.Processes.Ancestry.{
  MemberOf, Descends, filter-MemberOf, and_true, signal_process-IsOwned,
}

-- The result, the service after it, and the calls of `os.kill`.
abbrev pub Signalled : Type 0
Signalled = Result String × Service × List Kill

unfoldable pub after_signal :
    Caller → String → Service → Option (Result String × List Kill) → Option Signalled
after_signal caller id s none = none
after_signal caller id s (some (err e, kills)) = some (err e, s, kills)
after_signal caller id s (some (ok owner, kills)) =
    some (ok owner, note (audited "process.signal" caller.account_id id) s, kills)

-- `EnvironmentService.signal_process`
unfoldable pub signal_environment :
    (ℕ → Option ProcStat)
    → List ProcStat
    → Bool
    → Service
    → Caller
    → String
    → ℕ
    → ℕ
    → Option Signalled
unfolding after_signal
signal_environment read snap exists s caller id pid sig = elim (owned s caller id) [
  | err e ↦ some (err e, s, [])
  | ok r ↦ after_signal caller id s (signal_process read snap exists pid sig (live_shells s id))
]

-- The environment is the caller's, and the process is at or below a running shell of it.
abbrev pub IsCallers : List ProcStat → Service → Caller → String → ℕ → Type 0
IsCallers snap s caller id pid =
    (r : EnvironmentRecord) × (sh : LiveShell) × (find_record id s.records ≡ some r)
    × (r.account_id ≡ caller.account_id)
    × MemberOf sh s.shells
    × (sh.environment_id ≡ id)
    × (is_running sh.state ≡ true)
    × Descends snap pid sh.pid

after_signal_lem :
    (caller : Caller) (id : String) (s : Service) (r : Result String) (kills : List Kill)
    → (o : Signalled) × (after_signal caller id s (some (r, kills)) ≡ some o) × (o.2 ≡ kills)
unfolding after_signal
after_signal_lem caller id s (err e) kills = ((err e, s, kills), refl, refl)
after_signal_lem caller id s (ok owner) kills =
    ((ok owner, note (audited "process.signal" caller.account_id id) s, kills), refl, refl)

caller_of :
    (snap : List ProcStat) (s : Service) (caller : Caller) (id : String) (pid : ℕ)
    (r : EnvironmentRecord)
    → owned s caller id ≡ ok r
    → (sh : LiveShell) → MemberOf sh (live_shells s id)
    → Descends snap pid sh.pid
    → IsCallers snap s caller id pid
unfolding live_shells
caller_of snap s caller id pid r own sh member below =
    let (found, same, mine) = owned_lem s caller id r own in
    let (test, among) = filter-MemberOf _ s.shells sh member in
    let both = and_true (str_eq sh.environment_id id) (is_running sh.state) test in
    (r, sh, found, mine, among, (eq_iff sh.environment_id id).0 both.0, both.1, below)

-- A request to signal a process always ends. It sends no signal, or one alone: the one asked for, to
-- the process asked for; and then the environment is the caller's own and the process is, in the
-- snapshot, a running shell of that environment or below one.
pub signal_environment-IsCallers :
    (read : ℕ → Option ProcStat) (snap : List ProcStat) (exists : Bool) (s : Service)
    (caller : Caller) (id : String) (pid sig : ℕ)
    → (o : Signalled) × (signal_environment read snap exists s caller id pid sig ≡ some o)
      × ((o.2 ≡ [])
          ⊎ ((o.2 ≡ record { pid = pid; sig = sig } ∷ []) × IsCallers snap s caller id pid))
unfolding signal_environment after_signal
signal_environment-IsCallers read snap exists s caller id pid sig =
    elim (Result-cases (owned s caller id)) [
      | inr (e, not_own) ↦ ((err e, s, []), rw (not_own, signal_environment) refl, inl refl)
      | inl (r, own) ↦
          let (res, kills, run, guarded) =
            signal_process-IsOwned read snap exists pid sig (live_shells s id) in
          let (o, after, same) = after_signal_lem caller id s res kills in
          (
            o,
            rw (own, signal_environment, run, after_signal) after,
            elim guarded [
              | inl nothing ↦ inl (same ∙ nothing.1)
              | inr (sh, member, live', fresh, below, one) ↦
                  inr (same ∙ one, caller_of snap s caller id pid r own sh member below)
            ],
          )
    ]
