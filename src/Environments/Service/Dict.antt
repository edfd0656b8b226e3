-- ===== src/Environments/Service/Dict.antt =====
-- The dict of records behind the methods: ids, lookups and ownership.
use environments_api.Common.{
  String, ◌≡◌, refl, inl, inr, none, some, List, [], ◌∷◌, arith, eq_iff, str_eq, if◌then◌else◌,
  Bool-cases, Option-cases,
}
use environments_api.Common.Result.{ok}
use environments_api.Environments.Records.{EnvironmentRecord}
use environments_api.Environments.Service.{
  Caller, Service, find_record, put_record, remove_record, owned,
}

pub find_record-id :
    (id : String) (rs : List EnvironmentRecord) (r : EnvironmentRecord)
    → find_record id rs ≡ some r
    → r.id ≡ id
unfolding find_record
find_record-id id [] r h = cc
find_record-id id (q ∷ rs) r h = ground (arith, eq_iff q.id id, find_record-id id rs r)

-- What the ownership check lets through is the record of that id, and the caller's own.
pub owned_lem :
    (s : Service) (caller : Caller) (id : String) (r : EnvironmentRecord)
    → owned s caller id ≡ ok r
    → (find_record id s.records ≡ some r) × (r.id ≡ id) × (r.account_id ≡ caller.account_id)
unfolding owned
owned_lem s caller id r h = elim (Option-cases (find_record id s.records)) [
  | inl e ↦ ground (arith, e)
  | inr (q, e) ↦
      ground (arith, e, find_record-id id s.records q e, eq_iff q.account_id caller.account_id)
]

pub find_record-put_record :
    (id : String) (r : EnvironmentRecord) (rs : List EnvironmentRecord)
    → find_record id (put_record r rs) ≡ (if str_eq r.id id then some r else find_record id rs)
unfolding find_record put_record
find_record-put_record id r [] = refl
find_record-put_record id r (q ∷ rs) =
    ground (arith, eq_iff q.id r.id, eq_iff r.id id, eq_iff q.id id, find_record-put_record id r rs)

-- No id stands twice.
abbrev pub HasUniqueIds : List EnvironmentRecord → Type 0
HasUniqueIds [] = Unit
HasUniqueIds (r ∷ rs) = (find_record r.id rs ≡ none) × HasUniqueIds rs

pub put_record-HasUniqueIds :
    (r : EnvironmentRecord) (rs : List EnvironmentRecord)
    → HasUniqueIds rs
    → HasUniqueIds (put_record r rs)
unfolding put_record find_record
put_record-HasUniqueIds r [] h = (refl, tt)
put_record-HasUniqueIds r (q ∷ rs) h = elim (Bool-cases (str_eq q.id r.id)) [
  | inl e ↦ rw e (ground (arith, eq_iff q.id r.id, h.0), h.1)
  | inr e ↦ rw e (
    rw find_record-put_record (ground (arith, eq_iff q.id r.id, eq_iff r.id q.id, h.0)),
    put_record-HasUniqueIds r rs h.1,
  )
]

pub find_record-remove_record :
    (id j : String) (rs : List EnvironmentRecord)
    → HasUniqueIds rs
    → find_record j (remove_record id rs) ≡ (if str_eq id j then none else find_record j rs)
unfolding find_record remove_record
find_record-remove_record id j [] h = ground arith
find_record-remove_record id j (q ∷ rs) h =
    ground (
      arith,
      eq_iff q.id id,
      eq_iff id j,
      eq_iff q.id j,
      h.0,
      find_record-remove_record id j rs h.1,
    )

pub remove_record-HasUniqueIds :
    (id : String) (rs : List EnvironmentRecord)
    → HasUniqueIds rs
    → HasUniqueIds (remove_record id rs)
unfolding remove_record
remove_record-HasUniqueIds id [] h = tt
remove_record-HasUniqueIds id (q ∷ rs) h = elim (Bool-cases (str_eq q.id id)) [
  | inl e ↦ rw e h.1
  | inr e ↦ rw e (
    rw (find_record-remove_record id q.id rs h.1) (ground (arith, h.0)),
    remove_record-HasUniqueIds id rs h.1,
  )
]
