-- ===== src/Environments/Service/Frame.antt =====
-- What a change of the service's state leaves alone: a frame around one environment, and the
-- uniqueness of ids in its two dicts (app/environments/service.py).
pub mod Shells
pub mod Closing
pub mod Calls
pub mod Commands
pub mod Removal
use environments_api.Common.{
  ℕ, ◌-◌, String, ◌≡◌, refl, sym, ◌∙◌, ◌≢◌, inl, inr, false, List, [], ◌∷◌, eq_iff, str_eq,
  Bool-cases,
}
use environments_api.Common.{All}
use environments_api.Common.Assoc.{lookup, insert, remove, lookup-insert, lookup-remove}
use environments_api.Environments.Records.{EnvironmentRecord}
use environments_api.Environments.Service.{
  Service, LiveShell, Effect, find_record, put_record, remove_record, remove_shell, put_shell,
  all_shells, save,
}
use environments_api.Environments.Service.Dict.{
  HasUniqueIds, find_record-put_record, find_record-remove_record, put_record-HasUniqueIds,
  remove_record-HasUniqueIds,
}

-- No shell of the list has the id.
abbrev pub Absent : String → List LiveShell → Type 0
Absent key ss = All (λ t. t.id ≢ key) ss

abbrev pub HasUniqueShells : List LiveShell → Type 0
HasUniqueShells [] = Unit
HasUniqueShells (t ∷ ts) = Absent t.id ts × HasUniqueShells ts

-- Whatever has the shell id stands in the environment.
abbrev pub Placed : String → String → List LiveShell → Type 0
Placed key id ss = All (λ t. t.id ≡ key → t.environment_id ≡ id) ss

-- The two dicts hold no key twice.
pub record IsWellFormed (s : Service) : Type 0 where
  pub records : HasUniqueIds s.records
  pub shells : HasUniqueShells s.shells

-- Going from `s` to `t` leaves every environment but `id` as it is: its record in memory and on
-- disk, its shells and its measured usage; and no dict gets a key twice.
pub record Only (id : String) (s t : Service) : Type 0 where
  pub records : (j : String) → j ≢ id → find_record j t.records ≡ find_record j s.records
  pub shells : (j : String) → j ≢ id → all_shells t j ≡ all_shells s j
  pub usage : (j : String) → j ≢ id → lookup j t.usage ≡ lookup j s.usage
  pub saved : (j : String) → j ≢ id → lookup j t.saved ≡ lookup j s.saved
  pub well_formed : IsWellFormed s → IsWellFormed t

pub Only-refl : (id : String) (s : Service) → Only id s s
Only-refl id s = record {
  records = λ j h. refl;
  shells = λ j h. refl;
  usage = λ j h. refl;
  saved = λ j h. refl;
  well_formed = λ h. h;
}

pub Only-trans : (id : String) (s t u : Service) → Only id s t → Only id t u → Only id s u
Only-trans id s t u a b = record {
  records = λ j h. b.records j h ∙ a.records j h;
  shells = λ j h. b.shells j h ∙ a.shells j h;
  usage = λ j h. b.usage j h ∙ a.usage j h;
  saved = λ j h. b.saved j h ∙ a.saved j h;
  well_formed = λ h. b.well_formed (a.well_formed h);
}

-- Effects and the commands written so far belong to no environment's state.
pub Only-effects :
    (id : String) (s t : Service) (es : List Effect) (cs : List String)
    → Only id s t
    → Only id s (record t { effects = es; persisted_commands = cs })
unfolding all_shells
Only-effects id s t es cs h = record {
  records = h.records;
  shells = h.shells;
  usage = h.usage;
  saved = h.saved;
  well_formed =
      λ w. record { records = (h.well_formed w).records; shells = (h.well_formed w).shells };
}

apart : (j id : String) → j ≢ id → str_eq id j ≡ false
apart j id h = elim (Bool-cases (str_eq id j)) [
  | inl e ↦ absurd (h (sym ((eq_iff id j).0 e)))
  | inr e ↦ e
]

pub Only-put_record :
    (s : Service) (r : EnvironmentRecord)
    → Only r.id s (record s { records = put_record r s.records })
unfolding all_shells
Only-put_record s r = record {
  records = λ j h. find_record-put_record j r s.records ∙ rw (apart j r.id h) refl;
  shells = λ j h. refl;
  usage = λ j h. refl;
  saved = λ j h. refl;
  well_formed =
      λ w. record { records = put_record-HasUniqueIds r s.records w.records; shells = w.shells };
}

pub Only-save : (s : Service) (r : EnvironmentRecord) → Only r.id s (save r s)
unfolding all_shells
Only-save s r = record {
  records = λ j h. find_record-put_record j r s.records ∙ rw (apart j r.id h) refl;
  shells = λ j h. refl;
  usage = λ j h. refl;
  saved = λ j h. lookup-insert r.id j r s.saved ∙ rw (apart j r.id h) refl;
  well_formed =
      λ w. record { records = put_record-HasUniqueIds r s.records w.records; shells = w.shells };
}

pub Only-usage :
    (s : Service) (id : String) (n : ℕ) → Only id s (record s { usage = insert id n s.usage })
unfolding all_shells
Only-usage s id n = record {
  records = λ j h. refl;
  shells = λ j h. refl;
  usage = λ j h. lookup-insert id j n s.usage ∙ rw (apart j id h) refl;
  saved = λ j h. refl;
  well_formed = λ w. record { records = w.records; shells = w.shells };
}
