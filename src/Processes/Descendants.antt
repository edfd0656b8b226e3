-- ===== src/Processes/Descendants.antt =====
-- descendants of app/procfs.py and list_processes of app/processes.py: the processes below a shell's.
pub mod Ends
use environments_api.Common.{
  ℕ, zero, suc, ◌+◌, ◌-◌, ◌*◌, ◌/◌, ◌%◌, ◌^◌, ◌≤◌, ◌<◌, min, max, String, ◌≡◌, refl, sym, ap, ◌∙◌,
  ◌≢◌, ◌↔◌, ◌⊎◌, inl, inr, Bool, true, false, not, ◌&&◌, ◌||◌, Option, none, some, List, [], ◌∷◌,
  ◌++◌, map, append-nil, append_assoc, arith, eq_iff, eq_refl, str_eq, ltb, leb, ◌==◌,
  if◌then◌else◌, ltb→lt, lt→ltb, leb→le, le→leb, lt→leb_false, le→ltb_false, ==_iff, Bool-cases,
  Option-cases, length, take, drop, is_empty, length-append, length-take, length-drop,
  take-append-drop, drop-nil, drop-drop, drop-append, drop_all, take_all, filter, All,
}
use mathlib.Core.Path.{subst}
use environments_api.Environments.Service.{LiveShell}
use environments_api.Processes.{ProcStat, find_stat, live, is_same_process}

-- `children.get(parent, [])`
unfoldable pub children : List ProcStat → ℕ → List ℕ
children [] parent = []
children (s ∷ snap) parent =
    let rest = children snap parent in if s.ppid == parent then s.pid ∷ rest else rest

-- The frontier with its last element in front: each child is appended, so the last comes first.
unfoldable pub push_all : List ℕ → List ℕ → List ℕ
push_all [] frontier = frontier
push_all (c ∷ cs) frontier = push_all cs (c ∷ frontier)

-- The loop; none is that the rounds ran out.
unfoldable pub below : ℕ → List ProcStat → List ℕ → List ℕ → Option (List ℕ)
unfolding children push_all
below fuel snap [] found = some found
below zero snap (p ∷ frontier) found = none
below (suc fuel) snap (p ∷ frontier) found =
    below fuel snap (push_all (children snap p) frontier) (found ++ children snap p)

-- `descendants`
unfoldable pub descendants : ℕ → ℕ → List ProcStat → Option (List ℕ)
unfolding below
descendants fuel root snap = below fuel snap (root ∷ []) []

pub record ProcessInfo : Type 0 where
  pub pid : ℕ
  pub ppid : ℕ
  pub pgid : ℕ
  pub state : String
  pub rss_bytes : ℕ
  pub cmdline : String
  pub shell_id : String

module _ (cmdline : ℕ → String) (snap : List ProcStat) where
  abbrev pub shown_as : String → ProcStat → String
  shown_as line s = if str_eq line "" then s.comm else line

  abbrev pub info : String → ℕ → Option ProcStat → List ProcessInfo
  info shell_id pid none = []
  info shell_id pid (some s) =
      (record {
        pid = s.pid;
        ppid = s.ppid;
        pgid = s.pgid;
        state = s.state;
        rss_bytes = s.rss_bytes;
        cmdline = shown_as (cmdline pid) s;
        shell_id = shell_id;
      })
      ∷ []

  unfoldable pub infos : String → List ℕ → List ProcessInfo
  unfolding find_stat
  infos shell_id [] = []
  infos shell_id (pid ∷ pids) = info shell_id pid (find_stat pid snap) ++ infos shell_id pids

  abbrev pub both_lists :
      Option (List ProcessInfo) → Option (List ProcessInfo) → Option (List ProcessInfo)
  both_lists none rest = none
  both_lists (some first) none = none
  both_lists (some first) (some rest) = some (first ++ rest)

  abbrev pub tree_of : LiveShell → Option (List ℕ) → Option (List ProcessInfo)
  tree_of sh none = none
  tree_of sh (some pids) = some (infos sh.id (sh.pid ∷ pids))

  unfoldable pub list_trees : ℕ → List LiveShell → Option (List ProcessInfo)
  unfolding infos descendants
  list_trees fuel [] = some []
  list_trees fuel (sh ∷ shells) =
      both_lists (tree_of sh (descendants fuel sh.pid snap)) (list_trees fuel shells)

  -- `list_processes`; times of the processes are left out.
  unfoldable pub list_processes :
      (ℕ → Option ProcStat) → ℕ → List LiveShell → Option (List ProcessInfo)
  unfolding live list_trees
  list_processes read fuel shells = list_trees fuel (live read shells)

abbrev pub Has : ℕ → List ℕ → Type 0
Has x [] = ⊥
Has x (y ∷ ys) = (x ≡ y) ⊎ Has x ys

pub push_all-Has :
    (x : ℕ) (cs frontier : List ℕ) → Has x cs ⊎ Has x frontier → Has x (push_all cs frontier)
unfolding push_all
push_all-Has x [] frontier (inl h) = absurd h
push_all-Has x [] frontier (inr h) = h
push_all-Has x (c ∷ cs) frontier (inl (inl same)) =
    push_all-Has x cs (c ∷ frontier) (inr (inl same))
push_all-Has x (c ∷ cs) frontier (inl (inr h)) = push_all-Has x cs (c ∷ frontier) (inl h)
push_all-Has x (c ∷ cs) frontier (inr h) = push_all-Has x cs (c ∷ frontier) (inr (inr h))

-- Every process of the set has a child in it, as where a chain of parents comes back to itself.
abbrev pub IsEndless : List ProcStat → (ℕ → Type 0) → Type 0
IsEndless snap C = (p : ℕ) → C p → (c : ℕ) × C c × Has c (children snap p)

below-none :
    (snap : List ProcStat) (C : ℕ → Type 0)
    → IsEndless snap C
    → (fuel : ℕ) (frontier found : List ℕ) (x : ℕ) → C x
    → Has x frontier
    → below fuel snap frontier found ≡ none
unfolding below
below-none snap C endless fuel [] found x inside h = absurd h
below-none snap C endless zero (p ∷ frontier) found x inside h = refl
below-none snap C endless (suc fuel) (p ∷ frontier) found x inside (inl same) =
    let (c, c_inside, child) = endless x inside in
    below-none snap C endless fuel (push_all (children snap p) frontier) (found ++ children snap p)
      c c_inside
      (push_all-Has c (children snap p) frontier
        (inl (subst (λ y. Has c (children snap y)) same child)))
below-none snap C endless (suc fuel) (p ∷ frontier) found x inside (inr h) =
    below-none snap C endless fuel (push_all (children snap p) frontier) (found ++ children snap p)
      x inside (push_all-Has x (children snap p) frontier (inr h))

-- The search keeps no record of what it has seen: on a snapshot in which the root belongs to a set
-- of processes that each have a child in the set, as in a cycle of parents that a reused pid leaves
-- in a snapshot that is not taken at once, it ends after no number of rounds.
pub descendants-none :
    (snap : List ProcStat) (C : ℕ → Type 0) (root : ℕ)
    → IsEndless snap C
    → C root
    → (fuel : ℕ) → descendants fuel root snap ≡ none
unfolding descendants
descendants-none snap C root endless inside fuel =
    below-none snap C endless fuel (root ∷ []) [] root inside (inl refl)
