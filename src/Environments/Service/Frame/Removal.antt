-- ===== src/Environments/Service/Frame/Removal.antt =====
-- The frame of `delete`, `reset` and the disk quota's calls.
use environments_api.Common.{
  ℕ, ◌+◌, ◌-◌, String, ◌≡◌, refl, ◌∙◌, inl, inr, some, List, [], ◌∷◌, ◌++◌, arith, eq_iff,
  Option-cases,
}
use environments_api.Common.{All, All-map}
use environments_api.Common.Int.{ℤ}
use environments_api.Common.Assoc.{lookup, insert, remove, lookup-remove}
use environments_api.Common.Result.{Result, ok, err, bind-eq-ok, Result-cases, ok-injective_pair}
use mathlib.Core.Path.{subst}
use environments_api.Environments.Records.{EnvironmentRecord}
use environments_api.Environments.Quotas.{effective}
use environments_api.Environments.Service.{
  save, Caller, Service, LiveShell, owned, remove_record, find_record, all_shells, touch,
  used_bytes, workspace_wiped, logs_made, prepared,
}
use environments_api.Environments.Service.Dict.{
  owned_lem, find_record-id, find_record-remove_record, remove_record-HasUniqueIds, HasUniqueIds,
}
use environments_api.Environments.Service.Closing.{close_each}
use environments_api.Environments.Service.Lifecycle.{
  delete, reset, reset_record, current_record, pop_each,
}
use environments_api.Environments.Service.Writes.{
  give_back, admit_write, after_body, reserved_of, admit_enter, admit_fail, note_file_action,
}
use environments_api.Environments.Service.Views.{usage}
use environments_api.Environments.Service.Frame.{
  Only, Only-refl, Only-trans, Only-effects, Only-put_record, Only-save, Only-usage, Placed,
  IsWellFormed,
}
use environments_api.Environments.Service.Frame.Shells.{filter-Member, Member}
use environments_api.Environments.Service.Frame.Closing.{KeepsShell, close_each-Only, pop_each-Only}
use environments_api.Environments.Service.Frame.Calls.{
  Confined, Confined-refl, Only-Confined, owned-mine, state_after, after,
}

all_shells-Member :
    (s : Service) (id : String) → IsWellFormed s → All (Member id s.shells) (all_shells s id)
unfolding all_shells
all_shells-Member s id w = filter-Member id s.shells w.shells

-- Closing an environment's shells and forgetting them.
module _ (ended : LiveShell → LiveShell) (keeps : KeepsShell ended) (now : ℕ) (id : String) where
  pub closed_and_popped-Only :
      (s : Service) (shs : List LiveShell)
      → All (Member id s.shells) shs
      → Only id s (pop_each shs (close_each ended now shs s))
  closed_and_popped-Only s shs m =
      let s1 = close_each ended now shs s in
      let closed = close_each-Only ended keeps id now shs s m in
      Only-trans id s s1 _ closed.0 (
        pop_each-Only id shs s1 (
          All-map (Member id s.shells) (λ u. Placed u.id id s1.shells) shs
            (λ u h. closed.1 u.id h.1) m))

Only-remove_record :
    (s : Service) (id : String)
    → HasUniqueIds s.records
    → Only id s (record s { records = remove_record id s.records })
unfolding all_shells
Only-remove_record s id u = record {
  records = λ j h. find_record-remove_record id j s.records u ∙ ground (arith, eq_iff id j);
  shells = λ j h. refl;
  usage = λ j h. refl;
  saved = λ j h. refl;
  well_formed = λ w. record {
    records = remove_record-HasUniqueIds id s.records w.records;
    shells = w.shells;
  };
}

Only-forget :
    (s : Service) (id : String)
    → Only id s (record s { usage = remove id s.usage; saved = remove id s.saved })
unfolding all_shells
Only-forget s id = record {
  records = λ j h. refl;
  shells = λ j h. refl;
  usage = λ j h. lookup-remove id j s.usage ∙ ground (arith, eq_iff id j);
  saved = λ j h. lookup-remove id j s.saved ∙ ground (arith, eq_iff id j);
  well_formed = λ w. record { records = w.records; shells = w.shells };
}

current_record-id : (s : Service) (r : EnvironmentRecord) → (current_record s r).id ≡ r.id
current_record-id s r = elim (Option-cases (find_record r.id s.records)) [
  | inl e ↦ rw (e, current_record) refl
  | inr (q, e) ↦ rw (e, current_record) (find_record-id r.id s.records q e)
]

-- `delete`
pub delete-Confined :
    (ended : LiveShell → LiveShell) (s : Service) (caller : Caller) (now : ℕ) (id : String)
    → KeepsShell ended
    → IsWellFormed s
    → Confined caller s (state_after s (delete ended s caller now id))
unfolding delete
delete-Confined ended s caller now id keeps w =
    after s caller now (delete ended s caller now id) λ u t e.
      let (r, mine, e1) = bind-eq-ok (owned s caller id) _ e in
      let shs = all_shells s id in
      let s0 : Service = record s { records = remove_record id s.records } in
      let s2 = pop_each shs (close_each ended now shs s0) in
      let s3 : Service = record s2 { usage = remove id s2.usage; saved = remove id s2.saved } in
      rw (ok-injective_pair e1).1 (
        Only-Confined caller id s _ (owned-mine s caller id r mine) (
          Only-effects id s s3 _ s3.persisted_commands (
            Only-trans id s s0 s3 (Only-remove_record s id w.records) (
              Only-trans id s0 s2 s3
                (closed_and_popped-Only ended keeps now id s0 shs (all_shells-Member s id w))
                (Only-forget s2 id)))))

-- `reset`
pub reset-Confined :
    (ended : LiveShell → LiveShell) (s : Service) (caller : Caller) (now : ℕ) (id : String)
    → KeepsShell ended
    → IsWellFormed s
    → Confined caller s (state_after s (reset ended s caller now id))
unfolding reset reset_record
reset-Confined ended s caller now id keeps w =
    after s caller now (reset ended s caller now id) λ u t e.
      let (r, mine, e1) = bind-eq-ok (owned s caller id) _ e in
      let shs = all_shells s id in
      let s2 = pop_each shs (close_each ended now shs s) in
      let s3 : Service = record s2 {
        effects = s2.effects ++ (workspace_wiped id ∷ logs_made id ∷ prepared id ∷ []);
      } in
      let r' = reset_record now (current_record s2 r) in
      let s4 = save r' s3 in
      let same = current_record-id s2 r ∙ (owned_lem s caller id r mine).1 in
      rw (ok-injective_pair e1).1 (
        Only-Confined caller id s _ (owned-mine s caller id r mine) (
          Only-effects id s _ _ _ (
            Only-trans id s s2 _
              (closed_and_popped-Only ended keeps now id s shs (all_shells-Member s id w))
              (Only-trans id s2 s3 _
                (Only-effects id s2 s2 s3.effects s2.persisted_commands (Only-refl id s2))
                (Only-trans id s3 s4 _ (subst (λ i. Only i s3 s4) same (Only-save s3 r'))
                  (Only-usage s4 id 0))))))

-- The entry of `admit_write` counts bytes for an environment of the caller's.
pub admit_enter-Only :
    (s : Service) (caller : Caller) (id : String) (growth : ℤ) (t : Service)
    → admit_enter s caller id growth ≡ ok t
    → ((q : EnvironmentRecord)
        → find_record id s.records ≡ some q
        → q.account_id ≡ caller.account_id)
      × Only id s t
unfolding admit_enter
admit_enter-Only s caller id growth t e =
    let (r, mine, e1) = bind-eq-ok (owned s caller id) _ e in
    let (q, eff, e2) = bind-eq-ok (effective s.quotas caller.account_id) _ e1 in
    let same = (owned_lem s caller id r mine).1 in
    let n : ℕ = used_bytes s r.id + reserved_of growth in
    let made : record s { usage = insert r.id n s.usage } ≡ t = ground (arith, e2) in
    (
      owned-mine s caller id r mine,
      subst (λ i. Only i s t) same (subst (Only r.id s) made (Only-usage s r.id n)),
    )

-- `note_write` and `note_file_action`
pub note_file_action-Confined :
    (s : Service) (caller : Caller) (now : ℕ) (id action : String)
    → Confined caller s (state_after s (note_file_action s caller now id action))
unfolding note_file_action
note_file_action-Confined s caller now id action =
    after s caller now (note_file_action s caller now id action) λ u t e.
      let (r, mine, e1) = bind-eq-ok (owned s caller id) _ e in
      let same = (owned_lem s caller id r mine).1 in
      rw (ok-injective_pair e1).1 (
        Only-Confined caller r.id s _ (rw same (owned-mine s caller id r mine))
          (Only-effects r.id s _ _ s.persisted_commands (Only-put_record s (touch now r))))

admit_fail-Only : (id : String) (growth : ℤ) (s : Service) → Only id s (admit_fail id growth s)
unfolding admit_fail give_back
admit_fail-Only id growth s = elim (Option-cases (lookup id s.usage)) [
  | inl e ↦ rw e (Only-refl id s)
  | inr (n, e) ↦ rw e (Only-usage s id (n - reserved_of growth))
]

module _ (s : Service) (caller : Caller) (id : String) (growth : ℤ) where
  finished :
      (body : Result (Unit {0})) (t : Service)
      → ((q : EnvironmentRecord)
          → find_record id s.records ≡ some q
          → q.account_id ≡ caller.account_id)
        × Only id s t
      → Confined caller s (after_body id growth (body, t)).1
  unfolding after_body
  finished (ok u) t h = Only-Confined caller id s t h.0 h.1
  finished (err e) t h =
      Only-Confined caller id s _ h.0 (Only-trans id s t _ h.1 (admit_fail-Only id growth t))

  -- `admit_write` around a mutation that touches no state of the service.
  pub admit_write-Confined :
      (body : Result (Unit {0}))
      → Confined caller s (admit_write s caller id growth (λ t. (body, t))).1
  unfolding admit_write
  admit_write-Confined body = elim (Result-cases (admit_enter s caller id growth)) [
    | inr (why, e) ↦ rw e (Confined-refl caller s)
    | inl (t, e) ↦ rw e (finished body t (admit_enter-Only s caller id growth t e))
  ]

module _ (s : Service) (caller : Caller) where
  -- `usage`
  pub usage-Confined :
      (count : LiveShell → ℕ) (workspace_bytes logs_bytes : ℕ) (id : String)
      → Confined caller s (state_after s (usage count workspace_bytes logs_bytes s caller id))
  unfolding usage
  usage-Confined count workspace_bytes logs_bytes id =
      after s caller 0 (usage count workspace_bytes logs_bytes s caller id) λ v t e.
        let (r, mine, e1) = bind-eq-ok (owned s caller id) _ e in
        let (q, eff, e2) = bind-eq-ok (effective s.quotas caller.account_id) _ e1 in
        let here : r.id ≡ id = (owned_lem s caller id r mine).1 in
        rw (ok-injective_pair e2).1 (
          Only-Confined caller r.id s _ (rw here (owned-mine s caller id r mine))
            (Only-usage s r.id (workspace_bytes + logs_bytes)))
