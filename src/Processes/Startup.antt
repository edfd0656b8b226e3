-- ===== src/Processes/Startup.antt =====
-- The start of the service (app/environments/service.py, startup, _reconcile and _kill_orphan): the
-- shells that an earlier process left. What /proc shows is an argument, and the signals that are
-- sent are a trace; one that finds no process is passed over.
use environments_api.Common.{
  ℕ, ◌≡◌, refl, sym, ap, ◌⊎◌, inl, inr, Bool, true, false, Option, none, some, List, [], ◌∷◌, ◌++◌,
  map, ◌==◌, if◌then◌else◌, ==_iff, Bool-cases, All-map, All,
}
mod Tests
pub mod Killing
use mathlib.Core.Path.{subst}
use environments_api.Common.Assoc.{insert}
use environments_api.Environments.Records.{EnvironmentRecord, ShellRecord, ShellState, is_running}
use environments_api.Environments.Service.{Service, put_record}
use environments_api.Processes.{ProcStat, is_same_process}
use environments_api.Processes.Descendants.{descendants, Has}
use environments_api.Processes.Descendants.Ends.{Below, Has-append, descendants-only}

-- SIGKILL to a group or to a process.
pub data KillSent : Type 0 where
  group process : ℕ → KillSent

-- What a pass over shells has: the shells, the signals, and whether a shell changed.
pub record Reconciled : Type 0 where
  pub shells : List ShellRecord
  pub kills : List KillSent
  pub changed : Bool

-- `_kill_orphan`, for the processes that were found below the shell's.
unfoldable pub kill_orphan : ShellRecord → List ℕ → List KillSent
kill_orphan sh victims =
    (if sh.pgid == sh.pid then group sh.pgid ∷ [] else []) ++ map process (victims ++ (sh.pid ∷ []))

abbrev pub dead : ShellRecord → ShellRecord
dead sh = record sh { state = ShellState.dead; dead_reason = some "service_restarted" }

abbrev pub marked : ShellRecord → List KillSent → Reconciled → Reconciled
marked sh kills r = record { shells = dead sh ∷ r.shells; kills = kills ++ r.kills; changed = true }

abbrev pub kept : ShellRecord → Reconciled → Reconciled
kept sh r = record r { shells = sh ∷ r.shells }

-- /proc is read anew for each shell: `read sh` and `snap sh` are what it shows then, and `fuel sh` is
-- the rounds of the search in it.
module _ (read : ShellRecord → ℕ → Option ProcStat) (snap : ShellRecord → List ProcStat)
    (fuel : ShellRecord → ℕ) where
  abbrev pub orphan_kills : ShellRecord → Option (List KillSent)
  orphan_kills sh =
      if is_same_process (read sh) sh.pid sh.start_ticks
      then elim (descendants (fuel sh) sh.pid (snap sh)) [
        | none ↦ none
        | some victims ↦ some (kill_orphan sh victims)
      ]
      else some []

  abbrev pub mark_with : ShellRecord → Option (List KillSent) → Reconciled → Option Reconciled
  mark_with sh none r = none
  mark_with sh (some kills) r = some (marked sh kills r)

  abbrev pub onto : ShellRecord → Option Reconciled → Option Reconciled
  onto sh none = none
  onto sh (some r) =
      if is_running sh.state then mark_with sh (orphan_kills sh) r else some (kept sh r)

  -- The loop of `_reconcile`; none is that a search below a shell's process ran out of rounds.
  unfoldable pub reconcile_shells : List ShellRecord → Option Reconciled
  unfolding is_same_process descendants kill_orphan
  reconcile_shells [] = some (record { shells = []; kills = []; changed = false })
  reconcile_shells (sh ∷ shs) = onto sh (reconcile_shells shs)

  abbrev pub saved_if : Bool → EnvironmentRecord → Service → Service
  saved_if changed r s = if changed then record s { saved = insert r.id r s.saved } else s

  abbrev pub with_shells : EnvironmentRecord → Reconciled → Service → Service × List KillSent
  with_shells r x s =
      let r' : EnvironmentRecord = record r { shells = x.shells } in
      (saved_if x.changed r' (record s { records = put_record r' s.records }), x.kills)

  abbrev pub and_kills :
      List KillSent → Option (Service × List KillSent) → Option (Service × List KillSent)
  and_kills kills none = none
  and_kills kills (some (s, more)) = some (s, kills ++ more)

  -- `startup` over the records that `load_all` gives.
  unfoldable pub startup : List EnvironmentRecord → Service → Option (Service × List KillSent)
  unfolding reconcile_shells put_record insert
  startup [] s = some (s, [])
  startup (r ∷ rs) s = elim (reconcile_shells r.shells) [
    | none ↦ none
    | some x ↦ and_kills (with_shells r x s).1 (startup rs (with_shells r x s).0)
  ]

  abbrev pub NotRunning : ShellRecord → Type 0
  NotRunning sh = is_running sh.state ≡ false

  -- What a kill is sent to: the group that the shell leads, the shell's process, or one below it.
  abbrev pub IsAimed : ShellRecord → KillSent → Type 0
  IsAimed sh (group g) = (g ≡ sh.pid) × (sh.pgid ≡ sh.pid)
  IsAimed sh (process p) = (p ≡ sh.pid) ⊎ Below (snap sh) sh.pid p

  -- A signal for a shell on record as running that its process still is, as its start time proves.
  abbrev pub IsOrphans : ShellRecord → KillSent → Type 0
  IsOrphans sh k =
      (is_running sh.state ≡ true)
      × (is_same_process (read sh) sh.pid sh.start_ticks ≡ true)
      × IsAimed sh k

  abbrev pub OfOne : KillSent → List ShellRecord → Type 0
  OfOne k [] = ⊥
  OfOne k (sh ∷ shs) = IsOrphans sh k ⊎ OfOne k shs

  All-append :
      (P : KillSent → Type 0) (ks ls : List KillSent) → All P ks → All P ls → All P (ks ++ ls)
  All-append P [] ls h k = k
  All-append P (x ∷ ks) ls h k = (h.0, All-append P ks ls h.1 k)

  processes-All :
      (P : KillSent → Type 0) (pids : List ℕ)
      → ((x : ℕ) → Has x pids → P (process x))
      → All P (map process pids)
  processes-All P [] h = tt
  processes-All P (x ∷ xs) h = (h x (inl refl), processes-All P xs (λ y k. h y (inr k)))

  kill_orphan-IsOrphans :
      (sh : ShellRecord) (found : List ℕ)
      → is_running sh.state ≡ true
      → is_same_process (read sh) sh.pid sh.start_ticks ≡ true
      → descendants (fuel sh) sh.pid (snap sh) ≡ some found
      → All (IsOrphans sh) (kill_orphan sh found)
  unfolding kill_orphan
  kill_orphan-IsOrphans sh found running same e =
      All-append (IsOrphans sh) (if sh.pgid == sh.pid then group sh.pgid ∷ [] else [])
        (map process (found ++ (sh.pid ∷ []))) (by_group (Bool-cases (sh.pgid == sh.pid)))
        (processes-All (IsOrphans sh) (found ++ (sh.pid ∷ []))
          (λ x h. (running, same, by_found x (Has-append x found (sh.pid ∷ []) h))))
    where
      by_group :
          ((sh.pgid == sh.pid) ≡ true) ⊎ ((sh.pgid == sh.pid) ≡ false)
          → All (IsOrphans sh) (if sh.pgid == sh.pid then group sh.pgid ∷ [] else [])
      by_group (inl leads) =
          let leader = (==_iff sh.pgid sh.pid).0 leads in
          subst (λ b. All (IsOrphans sh) (if b then group sh.pgid ∷ [] else [])) (sym leads)
            ((running, same, (leader, leader)), tt)
      by_group (inr member) =
          subst (λ b. All (IsOrphans sh) (if b then group sh.pgid ∷ [] else [])) (sym member) tt

      by_found :
          (x : ℕ) → Has x found ⊎ Has x (sh.pid ∷ []) → (x ≡ sh.pid) ⊎ Below (snap sh) sh.pid x
      by_found x (inl h) = inr (descendants-only (snap sh) (fuel sh) sh.pid found e x h)
      by_found x (inr (inl own)) = inl own
      by_found x (inr (inr nothing)) = absurd nothing

  orphan_kills-IsOrphans :
      (sh : ShellRecord) (kills : List KillSent)
      → is_running sh.state ≡ true
      → orphan_kills sh ≡ some kills
      → All (IsOrphans sh) kills
  orphan_kills-IsOrphans sh kills running e =
      by_same (is_same_process (read sh) sh.pid sh.start_ticks) refl
        (descendants (fuel sh) sh.pid (snap sh)) refl e
    where
      found_kills : Option (List ℕ) → Option (List KillSent)
      found_kills none = none
      found_kills (some victims) = some (kill_orphan sh victims)

      by_same :
          (b : Bool)
          → is_same_process (read sh) sh.pid sh.start_ticks ≡ b
          → (o : Option (List ℕ)) → descendants (fuel sh) sh.pid (snap sh) ≡ o
          → (if b
              then (elim o [ none ↦ none | some victims ↦ some (kill_orphan sh victims) ])
              else some [])
            ≡ some kills
          → All (IsOrphans sh) kills
      by_same true f none g e = absurd cc
      by_same true f (some found) g e =
          let the_kills : kill_orphan sh found ≡ kills = cc in
          subst (All (IsOrphans sh)) the_kills (kill_orphan-IsOrphans sh found running f g)
      by_same false f o g e =
          let none_sent : [] ≡ kills = cc in subst (All (IsOrphans sh)) none_sent tt

  -- A shell after the start: one that was on record as running is dead, any other as it was.
  abbrev pub settled : ShellRecord → ShellRecord
  settled sh = if is_running sh.state then dead sh else sh

  -- What is known of a pass over shells.
  abbrev pub IsReconciled : List ShellRecord → Reconciled → Type 0
  IsReconciled shells x =
      All NotRunning x.shells × (x.shells ≡ map settled shells) × All (λ k. OfOne k shells) x.kills

  All-later :
      (sh : ShellRecord) (shs : List ShellRecord) (ks : List KillSent)
      → All (λ k. OfOne k shs) ks
      → All (λ k. OfOne k (sh ∷ shs)) ks
  All-later sh shs ks h = All-map (λ k. OfOne k shs) (λ k. OfOne k (sh ∷ shs)) ks (λ k o. inr o) h

  marked-IsReconciled :
      (sh : ShellRecord) (shs : List ShellRecord) (kills : List KillSent) (r : Reconciled)
      → is_running sh.state ≡ true
      → All (IsOrphans sh) kills
      → IsReconciled shs r
      → IsReconciled (sh ∷ shs) (marked sh kills r)
  marked-IsReconciled sh shs kills r running mine h = (
    (refl, h.0),
    rw running (ap (λ ss. dead sh ∷ ss) h.1),
    All-append (λ k. OfOne k (sh ∷ shs)) kills r.kills
        (All-map (IsOrphans sh) (λ k. OfOne k (sh ∷ shs)) kills (λ k o. inl o) mine)
        (All-later sh shs r.kills h.2),
  )

  onto-IsReconciled :
      (sh : ShellRecord) (shs : List ShellRecord) (o : Option Reconciled) (x : Reconciled)
      → ((r : Reconciled) → o ≡ some r → IsReconciled shs r)
      → onto sh o ≡ some x
      → IsReconciled (sh ∷ shs) x
  onto-IsReconciled sh shs none x h e = absurd cc
  onto-IsReconciled sh shs (some r) x h e =
      by_state (is_running sh.state) refl (orphan_kills sh) refl e
    where
      by_state :
          (b : Bool)
          → is_running sh.state ≡ b
          → (k : Option (List KillSent)) → orphan_kills sh ≡ k
          → (if b then mark_with sh k r else some (kept sh r)) ≡ some x
          → IsReconciled (sh ∷ shs) x
      by_state true f none g e = absurd cc
      by_state true f (some kills) g e =
          let same : marked sh kills r ≡ x = cc in
          subst (IsReconciled (sh ∷ shs)) same
            (marked-IsReconciled sh shs kills r f (orphan_kills-IsOrphans sh kills f g) (h r refl))
      by_state false f k g e =
          let same : kept sh r ≡ x = cc in
          let before = h r refl in
          subst (IsReconciled (sh ∷ shs)) same
            ((f, before.0), rw f (ap (λ ss. sh ∷ ss) before.1), All-later sh shs r.kills before.2)

  -- What the start of the service does about the shells of a record, where the searches below the
  -- shells' processes end: every shell stays on record in its place, those that were on record as
  -- running now dead and the others as they were, so none is running; and each kill is for a shell
  -- that was on record as running and whose process, by its start time, is still the one that was
  -- spawned: sent to that process, to a process below it, or to the process group that it leads,
  -- whose members need not be below it. Each shell has its own reading of /proc.
  pub reconcile_shells-IsReconciled :
      (shells : List ShellRecord) (x : Reconciled)
      → reconcile_shells shells ≡ some x
      → IsReconciled shells x
  unfolding reconcile_shells
  reconcile_shells-IsReconciled [] x e =
      let same : record { shells = []; kills = []; changed = false } ≡ x = cc in
      subst (IsReconciled []) same (tt, refl, tt)
  reconcile_shells-IsReconciled (sh ∷ shs) x e =
      onto-IsReconciled sh shs (reconcile_shells shs) x
        (λ r f. reconcile_shells-IsReconciled shs r f) e
