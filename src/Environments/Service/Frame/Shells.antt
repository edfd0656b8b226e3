-- ===== src/Environments/Service/Frame/Shells.antt =====
-- The dict of shells: what putting and popping one leaves alone.
use environments_api.Common.{
  String, ◌≡◌, refl, sym, ap, ◌≢◌, inl, inr, Bool, not, some, List, [], ◌∷◌, arith, eq_iff, str_eq,
  Bool-cases, filter,
}
use environments_api.Common.{All, All-map, All-zip, filter-All}
use mathlib.Core.Path.{subst}
use environments_api.Environments.Service.{
  find_shell, Service, LiveShell, remove_shell, put_shell, all_shells,
}
use environments_api.Environments.Service.Frame.{Absent, HasUniqueShells, Placed, Only}

abbrev in_environment : String → LiveShell → Bool
in_environment id t = str_eq t.environment_id id

filter-put_shell :
    (j id : String) (sh : LiveShell) (ss : List LiveShell)
    → j ≢ id
    → sh.environment_id ≡ id
    → Placed sh.id id ss
    → filter (in_environment j) (put_shell sh ss) ≡ filter (in_environment j) ss
unfolding put_shell filter
filter-put_shell j id sh [] ne e h = ground (arith, eq_iff sh.environment_id j)
filter-put_shell j id sh (t ∷ ts) ne e h = ground (
  arith,
  eq_iff sh.environment_id j,
  eq_iff t.environment_id j,
  eq_iff t.id sh.id,
  h.0,
  filter-put_shell j id sh ts ne e h.1,
)

filter-remove_shell :
    (j id key : String) (ss : List LiveShell)
    → j ≢ id
    → Placed key id ss
    → filter (in_environment j) (remove_shell key ss) ≡ filter (in_environment j) ss
unfolding remove_shell filter
filter-remove_shell j id key [] ne h = refl
filter-remove_shell j id key (t ∷ ts) ne h =
    ground (
      arith,
      eq_iff t.environment_id j,
      eq_iff t.id key,
      h.0,
      filter-remove_shell j id key ts ne h.1,
    )

put_shell-Absent :
    (key : String) (sh : LiveShell) (ss : List LiveShell)
    → sh.id ≢ key
    → Absent key ss
    → Absent key (put_shell sh ss)
unfolding put_shell
put_shell-Absent key sh [] ne h = (ne, tt)
put_shell-Absent key sh (t ∷ ts) ne h = elim (Bool-cases (str_eq t.id sh.id)) [
  | inl e ↦ rw e (ne, h.1)
  | inr e ↦ rw e (h.0, put_shell-Absent key sh ts ne h.1)
]

put_shell-HasUniqueShells :
    (sh : LiveShell) (ss : List LiveShell) → HasUniqueShells ss → HasUniqueShells (put_shell sh ss)
unfolding put_shell
put_shell-HasUniqueShells sh [] h = (tt, tt)
put_shell-HasUniqueShells sh (t ∷ ts) h = elim (Bool-cases (str_eq t.id sh.id)) [
  | inl e ↦ rw e (ground (arith, eq_iff t.id sh.id, h.0), h.1)
  | inr e ↦ rw e (
    put_shell-Absent t.id sh ts (ground (arith, eq_iff t.id sh.id)) h.0,
    put_shell-HasUniqueShells sh ts h.1,
  )
]

remove_shell-HasUniqueShells :
    (key : String) (ss : List LiveShell)
    → HasUniqueShells ss
    → HasUniqueShells (remove_shell key ss)
unfolding remove_shell filter
remove_shell-HasUniqueShells key [] h = tt
remove_shell-HasUniqueShells key (t ∷ ts) h = elim (Bool-cases (str_eq t.id key)) [
  | inl e ↦ rw e (remove_shell-HasUniqueShells key ts h.1)
  | inr e ↦ rw e (
    filter-All (λ u. u.id ≢ t.id) (λ u. not (str_eq u.id key)) ts h.0,
    remove_shell-HasUniqueShells key ts h.1,
  )
]

pub put_shell-Placed :
    (key id : String) (sh : LiveShell) (ss : List LiveShell)
    → sh.environment_id ≡ id
    → Placed key id ss
    → Placed key id (put_shell sh ss)
unfolding put_shell
put_shell-Placed key id sh [] e h = (λ _. e, tt)
put_shell-Placed key id sh (t ∷ ts) e h = elim (Bool-cases (str_eq t.id sh.id)) [
  | inl same ↦ rw same (λ _. e, h.1)
  | inr other ↦ rw other (h.0, put_shell-Placed key id sh ts e h.1)
]

pub remove_shell-Placed :
    (key id other : String) (ss : List LiveShell)
    → Placed key id ss
    → Placed key id (remove_shell other ss)
unfolding remove_shell
remove_shell-Placed key id other ss h = filter-All _ _ ss h

pub Absent-Placed : (key id : String) (ss : List LiveShell) → Absent key ss → Placed key id ss
Absent-Placed key id ss h = All-map _ _ ss (λ t ne e. absurd (ne e)) h

-- A shell of the environment, with its id used nowhere else.
abbrev pub Member : String → List LiveShell → LiveShell → Type 0
Member id ss sh = (sh.environment_id ≡ id) × Placed sh.id id ss

extend :
    (id : String) (t : LiveShell) (ts : List LiveShell) (sh : LiveShell)
    → Member id ts sh × (sh.id ≢ t.id)
    → Member id (t ∷ ts) sh
extend id t ts sh h = (h.0.0, (λ e. absurd (h.1 (sym e)), h.0.1))

extend-All :
    (id : String) (t : LiveShell) (ts : List LiveShell)
    → Absent t.id ts
    → All (Member id ts) (filter (in_environment id) ts)
    → All (Member id (t ∷ ts)) (filter (in_environment id) ts)
extend-All id t ts absent ih =
    let here = filter (in_environment id) ts in
    let others = filter-All (λ u. u.id ≢ t.id) (in_environment id) ts absent in
    All-map _ _ here (extend id t ts) (All-zip _ _ here ih others)

-- In a dict the shells of an environment are members of it.
pub filter-Member :
    (id : String) (ss : List LiveShell)
    → HasUniqueShells ss
    → All (Member id ss) (filter (in_environment id) ss)
unfolding filter
filter-Member id [] h = tt
filter-Member id (t ∷ ts) h =
    let rest = extend-All id t ts h.0 (filter-Member id ts h.1) in
    elim (Bool-cases (str_eq t.environment_id id)) [
      | inl e ↦
          let here = (eq_iff t.environment_id id).0 e in
          rw e ((here, (λ _. here, Absent-Placed t.id id ts h.0)), rest)
      | inr e ↦ rw e rest
    ]

find_shell-Absent :
    (key other : String) (ss : List LiveShell) (sh : LiveShell)
    → find_shell key ss ≡ some sh
    → Absent other ss
    → sh.id ≢ other
unfolding find_shell
find_shell-Absent key other [] sh e h = cc
find_shell-Absent key other (t ∷ ts) sh e h = elim (Bool-cases (str_eq t.id key)) [
  | inl same ↦ let is : t ≡ sh = ground (arith, same, e) in subst (λ u. u.id ≢ other) is h.0
  | inr next ↦ find_shell-Absent key other ts sh (ground (arith, next, e)) h.1
]

pub find_shell-Member :
    (key : String) (ss : List LiveShell) (sh : LiveShell)
    → HasUniqueShells ss
    → find_shell key ss ≡ some sh
    → Member sh.environment_id ss sh
unfolding find_shell
find_shell-Member key [] sh h e = cc
find_shell-Member key (t ∷ ts) sh h e = elim (Bool-cases (str_eq t.id key)) [
  | inl same ↦
      let is : t ≡ sh = ground (arith, same, e) in
      subst (Member sh.environment_id (t ∷ ts)) is (
        ap (λ u. u.environment_id) is,
        ((λ _. ap (λ u. u.environment_id) is), Absent-Placed t.id sh.environment_id ts h.0),
      )
  | inr other ↦
      let later : find_shell key ts ≡ some sh = ground (arith, other, e) in
      extend sh.environment_id t ts sh
        (find_shell-Member key ts sh h.1 later, find_shell-Absent key t.id ts sh later h.0)
]

pub Only-put_shell :
    (s : Service) (id : String) (sh : LiveShell)
    → sh.environment_id ≡ id
    → Placed sh.id id s.shells
    → Only id s (record s { shells = put_shell sh s.shells })
unfolding all_shells
Only-put_shell s id sh e h = record {
  records = λ j ne. refl;
  shells = λ j ne. filter-put_shell j id sh s.shells ne e h;
  usage = λ j ne. refl;
  saved = λ j ne. refl;
  well_formed =
      λ w. record { records = w.records; shells = put_shell-HasUniqueShells sh s.shells w.shells };
}

pub Only-remove_shell :
    (s : Service) (id key : String)
    → Placed key id s.shells
    → Only id s (record s { shells = remove_shell key s.shells })
unfolding all_shells
Only-remove_shell s id key h = record {
  records = λ j ne. refl;
  shells = λ j ne. filter-remove_shell j id key s.shells ne h;
  usage = λ j ne. refl;
  saved = λ j ne. refl;
  well_formed = λ w. record {
    records = w.records;
    shells = remove_shell-HasUniqueShells key s.shells w.shells;
  };
}
