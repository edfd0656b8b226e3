-- ===== src/Processes/Startup/Killing.antt =====
-- _reconcile and _kill_orphan (app/environments/service.py): nothing of an orphaned shell is left alive.
use environments_api.Common.{
  ℕ, ◌≡◌, refl, sym, ap, ◌⊎◌, inl, inr, false, ◌&&◌, Option, some, List, [], ◌∷◌, ◌++◌, map, All,
  All-map, Bool-cases, ◌==◌, if◌then◌else◌,
}
use mathlib.Core.Path.{subst}
use environments_api.Environments.Records.{ShellRecord, is_running}
use environments_api.Processes.{ProcStat, is_same_process}
use environments_api.Processes.Descendants.{descendants, Has}
use environments_api.Processes.Descendants.Ends.{Below, IsRanked, descendants-Below}
use environments_api.Processes.Startup.{
  KillSent, process, group, Reconciled, kill_orphan, reconcile_shells, onto, kept, marked,
}

-- SIGKILL was sent to the process.
abbrev pub Killed : ℕ → List KillSent → Type 0
Killed p [] = ⊥
Killed p (k ∷ ks) = (k ≡ process p) ⊎ Killed p ks

Killed-left : (p : ℕ) (ks ls : List KillSent) → Killed p ks → Killed p (ks ++ ls)
Killed-left p [] ls h = absurd h
Killed-left p (k ∷ ks) ls (inl e) = inl e
Killed-left p (k ∷ ks) ls (inr h) = inr (Killed-left p ks ls h)

Killed-right : (p : ℕ) (ks ls : List KillSent) → Killed p ls → Killed p (ks ++ ls)
Killed-right p [] ls h = h
Killed-right p (k ∷ ks) ls h = inr (Killed-right p ks ls h)

Killed-map : (p : ℕ) (pids : List ℕ) → Has p pids → Killed p (map process pids)
Killed-map p [] h = absurd h
Killed-map p (x ∷ xs) (inl e) = inl (ap process (sym e))
Killed-map p (x ∷ xs) (inr h) = inr (Killed-map p xs h)

Has-left : (p : ℕ) (xs ys : List ℕ) → Has p xs → Has p (xs ++ ys)
Has-left p [] ys h = absurd h
Has-left p (x ∷ xs) ys (inl e) = inl e
Has-left p (x ∷ xs) ys (inr h) = inr (Has-left p xs ys h)

Has-last : (p : ℕ) (xs : List ℕ) → Has p (xs ++ (p ∷ []))
Has-last p [] = inl refl
Has-last p (x ∷ xs) = inr (Has-last p xs)

module _ (read : ShellRecord → ℕ → Option ProcStat) (snap : ShellRecord → List ProcStat) where
  -- The process of a shell on record, or one below it.
  abbrev pub IsOf : ShellRecord → ℕ → Type 0
  IsOf sh p = (p ≡ sh.pid) ⊎ Below (snap sh) sh.pid p

  -- The shell was not on record as running, or its process is gone; or all its processes are killed.
  abbrev pub IsKilled : List KillSent → ShellRecord → Type 0
  IsKilled kills sh =
      ((is_running sh.state && is_same_process (read sh) sh.pid sh.start_ticks) ≡ false)
      ⊎ ((p : ℕ) → IsOf sh p → Killed p kills)

  kill_orphan-Killed :
      (sh : ShellRecord) (found : List ℕ)
      → ((p : ℕ) → Below (snap sh) sh.pid p → Has p found)
      → (p : ℕ) → IsOf sh p
      → Killed p (kill_orphan sh found)
  unfolding kill_orphan
  kill_orphan-Killed sh found all p h =
      Killed-right p (if sh.pgid == sh.pid then group sh.pgid ∷ [] else [])
        (map process (found ++ (sh.pid ∷ [])))
        (Killed-map p (found ++ (sh.pid ∷ [])) (by_process h))
    where
      by_process : IsOf sh p → Has p (found ++ (sh.pid ∷ []))
      by_process (inl own) =
          subst (λ q. Has q (found ++ (sh.pid ∷ []))) (sym own) (Has-last sh.pid found)
      by_process (inr below) = Has-left p found (sh.pid ∷ []) (all p below)

  module _ (fuel : ShellRecord → ℕ) (found : ShellRecord → List ℕ)
      (ends : (sh : ShellRecord) → descendants (fuel sh) sh.pid (snap sh) ≡ some (found sh))
      (all : (sh : ShellRecord) (p : ℕ) → Below (snap sh) sh.pid p → Has p (found sh)) where
    onto-IsKilled :
        (sh : ShellRecord) (shs : List ShellRecord) (r : Reconciled)
        → All (IsKilled r.kills) shs
        → (x : Reconciled) × (onto read snap fuel sh (some r) ≡ some x)
          × All (IsKilled x.kills) (sh ∷ shs)
    onto-IsKilled sh shs r h = elim (Bool-cases (is_running sh.state)) [
      | inr stopped ↦ (kept sh r, rw stopped refl, (inl (rw stopped refl), h))
      | inl running ↦ elim (Bool-cases (is_same_process (read sh) sh.pid sh.start_ticks)) [
        | inr gone ↦ (marked sh [] r, rw (running, gone) refl, (inl (rw (running, gone) refl), h))
        | inl same ↦ (
          marked sh (kill_orphan sh (found sh)) r,
          rw (running, same, ends sh) refl,
          (
            inr (λ p own.
                Killed-left p (kill_orphan sh (found sh)) r.kills
                  (kill_orphan-Killed sh (found sh) (all sh) p own)),
            All-map (IsKilled r.kills) (IsKilled (kill_orphan sh (found sh) ++ r.kills)) shs
                (λ s k. later s k) h,
          ),
        )
      ]
    ]
      where
        later :
            (s : ShellRecord)
            → IsKilled r.kills s
            → IsKilled (kill_orphan sh (found sh) ++ r.kills) s
        later s (inl not_ours) = inl not_ours
        later s (inr killed) =
            inr (λ p own. Killed-right p (kill_orphan sh (found sh)) r.kills (killed p own))

    pass-IsKilled :
        (shells : List ShellRecord)
        → (x : Reconciled) × (reconcile_shells read snap fuel shells ≡ some x)
          × All (IsKilled x.kills) shells
    unfolding reconcile_shells
    pass-IsKilled [] = (record { shells = []; kills = []; changed = false }, refl, tt)
    pass-IsKilled (sh ∷ shs) =
        let (r, ran, h) = pass-IsKilled shs in
        let (x, made, k) = onto-IsKilled sh shs r h in (x, rw ran made, k)

-- Where none of the snapshots of /proc has a cycle, the pass of the start over the shells of a record
-- ends, after finitely many rounds of each search, and kills all that is left of them: for every shell
-- that was on record as running and whose process, by its start time, is still the one that was
-- spawned, SIGKILL is sent to that process and to every process below it.
pub reconcile_shells-IsKilled :
    (read : ShellRecord → ℕ → Option ProcStat) (snap : ShellRecord → List ProcStat)
    (rank : ShellRecord → ℕ → ℕ) (shells : List ShellRecord)
    → ((sh : ShellRecord) → IsRanked (snap sh) (rank sh))
    → (fuel : ShellRecord → ℕ) × (x : Reconciled) × (reconcile_shells read snap fuel shells
        ≡ some x)
      × All (IsKilled read snap x.kills) shells
reconcile_shells-IsKilled read snap rank shells ranked =
    let search = λ (sh : ShellRecord). descendants-Below (snap sh) (rank sh) sh.pid (ranked sh) in
    let (x, ran, killed) =
      pass-IsKilled read snap (λ sh. (search sh).0) (λ sh. (search sh).1) (λ sh. (search sh).2)
        (λ sh p below. ((search sh).3 p).1 below) shells in
    (λ sh. (search sh).0, x, ran, killed)
