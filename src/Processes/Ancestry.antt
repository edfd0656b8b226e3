-- ===== src/Processes/Ancestry.antt =====
-- Who may be signalled (app/processes.py): the walk up the parents ends, and what it finds is a live
-- shell above the process.
use environments_api.Common.{
  ℕ, zero, suc, ◌+◌, ◌≤◌, ◌<◌, String, ◌≡◌, refl, sym, ap, ◌∙◌, ◌⊎◌, inl, inr, Bool, true, false,
  not, ◌&&◌, Option, none, some, List, [], ◌∷◌, arith, ltb, ◌==◌, if◌then◌else◌, ==_iff, Bool-cases,
  Option-cases, length, filter,
}
use mathlib.Core.Path.{subst}
use environments_api.Common.{length-filter}
use environments_api.Common.Error.{not_found}
use environments_api.Common.Result.{Result, ok, err}
use environments_api.Environments.Records.{is_running}
use environments_api.Environments.Service.{LiveShell}
use environments_api.Processes.{
  ProcStat, find_stat, is_same_process, live, by_pid, is_member, owning_loop, owning_shell, Kill,
  signal_process,
}

-- In the snapshot, the first pid is the second or has it among its ancestors.
pub data Descends (snap : List ProcStat) : ℕ → ℕ → Type 0 where
  itself : {pid : ℕ} → Descends snap pid pid
  parent :
      {pid above : ℕ} (p : ProcStat)
      → find_stat pid snap ≡ some p
      → Descends snap p.ppid above
      → Descends snap pid above

-- What is not seen yet.
abbrev unseen : List ProcStat → List ℕ → ℕ
unseen snap seen = length (filter (λ p. not (is_member p.pid seen)) snap)

unseen-le :
    (snap : List ProcStat) (n : ℕ) (seen : List ℕ) → unseen snap (n ∷ seen) ≤ unseen snap seen
unfolding filter is_member
unseen-le [] n seen = omega arith
unseen-le (p ∷ snap) n seen = let ih = unseen-le snap n seen in ground (arith, ih)

unseen-lt :
    (snap : List ProcStat) (n : ℕ) (seen : List ℕ) (p : ProcStat)
    → find_stat n snap ≡ some p
    → is_member n seen ≡ false
    → unseen snap (n ∷ seen) < unseen snap seen
unfolding filter is_member find_stat
unseen-lt [] n seen p h k = absurd cc
unseen-lt (q ∷ snap) n seen p h k = elim (Bool-cases (q.pid == n)) [
  | inl e ↦
      let d : n ≡ q.pid = sym ((==_iff q.pid n).0 e) in
      let m : is_member q.pid seen ≡ false = subst (λ j. is_member j seen ≡ false) d k in
      let le = unseen-le snap n seen in
      let d' : (n == q.pid) ≡ true = (==_iff n q.pid).1 d in rw (m, d') (omega (arith, le))
  | inr e ↦
      let rest : find_stat n snap ≡ some p = rw e at h in
      let ih = unseen-lt snap n seen p rest k in ground (arith, ih)
]

some-injective : {A : Type 0} {a b : A} → some a ≡ some b → a ≡ b
some-injective h = cc

abbrev pub MemberOf : LiveShell → List LiveShell → Type 0
MemberOf sh [] = ⊥
MemberOf sh (x ∷ xs) = (x ≡ sh) ⊎ MemberOf sh xs

by_pid-MemberOf :
    (pid : ℕ) (shells : List LiveShell) (sh : LiveShell)
    → by_pid pid shells ≡ some sh
    → (sh.pid ≡ pid) × MemberOf sh shells
unfolding by_pid
by_pid-MemberOf pid [] sh h = absurd cc
by_pid-MemberOf pid (x ∷ xs) sh h = elim (Option-cases (by_pid pid xs)) [
  | inr (y, e) ↦
      let same : some y ≡ some sh = rw e at h in
      let (at, member) = by_pid-MemberOf pid xs sh (e ∙ same) in (at, inr member)
  | inl e ↦ elim (Bool-cases (x.pid == pid)) [
    | inl f ↦
        let same : x ≡ sh = some-injective (rw (e, f) at h) in
        (ap (λ t. t.pid) (sym same) ∙ (==_iff x.pid pid).0 f, inl same)
    | inr f ↦ absurd (let no : none ≡ some sh = rw (e, f) at h in cc)
  ]
]

pub filter-MemberOf :
    (p : LiveShell → Bool) (shells : List LiveShell) (sh : LiveShell)
    → MemberOf sh (filter p shells)
    → (p sh ≡ true) × MemberOf sh shells
unfolding filter
filter-MemberOf p [] sh h = absurd h
filter-MemberOf p (x ∷ xs) sh h = elim (Bool-cases (p x)) [
  | inl e ↦
      let both : MemberOf sh (x ∷ filter p xs) = rw e at h in
      elim both [
        | inl d ↦ (subst (λ y. p y ≡ true) d e, inl d)
        | inr m ↦ let rest = filter-MemberOf p xs sh m in (rest.0, inr rest.1)
      ]
  | inr e ↦ let rest = filter-MemberOf p xs sh (rw e at h) in (rest.0, inr rest.1)
]

-- What the walk may find: nothing, or one of the shells, at or above the process.
abbrev Finds : List LiveShell → List ProcStat → ℕ → Option LiveShell → Type 0
Finds shells snap pid none = Unit
Finds shells snap pid (some sh) = MemberOf sh shells × Descends snap pid sh.pid

Finds-parent :
    (shells : List LiveShell) (snap : List ProcStat) (pid : ℕ) (p : ProcStat) (r : Option LiveShell)
    → find_stat pid snap ≡ some p
    → Finds shells snap p.ppid r
    → Finds shells snap pid r
Finds-parent shells snap pid p none e h = tt
Finds-parent shells snap pid p (some sh) e h = (h.0, parent p e h.1)

-- With more rounds than processes that were not seen, the walk ends.
owning_loop-Finds :
    (fuel : ℕ) (shells : List LiveShell) (snap : List ProcStat) (current : ℕ) (seen : List ℕ)
    → unseen snap seen < fuel
    → (r : Option LiveShell) × (owning_loop fuel shells snap current seen ≡ some r)
      × Finds shells snap current r
unfolding owning_loop
owning_loop-Finds zero shells snap current seen h = absurd (omega arith)
owning_loop-Finds (suc fuel) shells snap current seen h =
    elim (Bool-cases (ltb 1 current && not (is_member current seen))) [
      | inr e ↦ (none, rw (e, owning_loop) refl, tt)
      | inl e ↦ elim (Option-cases (by_pid current shells)) [
        | inr (sh, f) ↦
            let (at, member) = by_pid-MemberOf current shells sh f in
            (
              some sh,
              rw (e, f, owning_loop) refl,
              (member, subst (λ j. Descends snap current j) (sym at) itself),
            )
        | inl f ↦ elim (Option-cases (find_stat current snap)) [
          | inl g ↦ (none, rw (e, f, g, owning_loop) refl, tt)
          | inr (p, g) ↦
              let fresh : is_member current seen ≡ false = ground (arith, e) in
              let lt = unseen-lt snap current seen p g fresh in
              let (r, run, finds) =
                owning_loop-Finds fuel shells snap p.ppid (current ∷ seen) (omega (arith, lt, h)) in
              (r, rw (e, f, g, owning_loop) run, Finds-parent shells snap current p r g finds)
        ]
      ]
    ]

-- One call of `os.kill`, on the process asked for, which a live shell of the list is or is above.
abbrev pub IsOwned :
    (ℕ → Option ProcStat) → List ProcStat → ℕ → ℕ → List LiveShell → List Kill → Type 0
IsOwned read snap pid sig shells kills =
    (sh : LiveShell) × MemberOf sh shells
    × (is_running sh.state ≡ true)
    × (is_same_process read sh.pid sh.start_ticks ≡ true)
    × Descends snap pid sh.pid
    × (kills ≡ record { pid = pid; sig = sig } ∷ [])

pub and_true : (a b : Bool) → (a && b) ≡ true → (a ≡ true) × (b ≡ true)
and_true true b h = (refl, h)
and_true false b h = absurd cc

-- The walk ends whatever the snapshot holds, a cycle of parents too. A signal is sent at most once,
-- to the process asked for, and only where a running shell of the list, whose pid is still the
-- process that was started, is that process or one of its ancestors in the snapshot; in any other
-- case nothing is signalled and the answer is that there is no such process.
pub signal_process-IsOwned :
    (read : ℕ → Option ProcStat) (snap : List ProcStat) (exists : Bool) (pid sig : ℕ)
    (shells : List LiveShell)
    → (r : Result String) × (kills : List Kill) × (signal_process read snap exists pid sig shells
        ≡ some (r, kills))
      × (((r ≡ err not_found) × (kills ≡ [])) ⊎ IsOwned read snap pid sig shells kills)
unfolding signal_process owning_shell live
signal_process-IsOwned read snap exists pid sig shells =
    let le = length-filter (λ p. not (is_member p.pid [])) snap in
    let (found, run, finds) =
      owning_loop-Finds (length snap + 1) (live read shells) snap pid [] (omega (arith, le)) in
    elim (Option-cases found) [
      | inl e ↦ (err not_found, [], rw (run, e) refl, inl (refl, refl))
      | inr (sh, e) ↦
          let owner : Finds (live read shells) snap pid (some sh) =
            subst (Finds (live read shells) snap pid) e finds in
          let (test, member) = filter-MemberOf _ shells sh owner.0 in
          let both = and_true (is_running sh.state) _ test in
          (
            if exists then ok sh.id else err not_found,
            record { pid = pid; sig = sig } ∷ [],
            rw (run, e) refl,
            inr (sh, member, both.0, both.1, owner.1, refl),
          )
    ]
