-- ===== src/Environments/Service/Writes/Reserved.antt =====
-- What `admit_write` promises of the disk quota (app/environments/service.py).
use environments_api.Common.{
  ℕ, ◌+◌, ◌-◌, ◌≤◌, ◌<◌, String, ◌≡◌, refl, ◌⊎◌, inl, inr, none, some, arith, eq_refl,
}
use environments_api.Common.Assoc.{lookup, lookup-insert}
use environments_api.Common.Int.{ℤ}
use environments_api.Common.Result.{Result, ok, err, bind-eq-ok, Result-cases}
use environments_api.Environments.Quotas.{Quotas, effective}
use environments_api.Environments.Records.{EnvironmentRecord}
use environments_api.Environments.Service.{Caller, Service, owned, used_bytes, note, audited}
use environments_api.Environments.Service.Dict.{owned_lem}
use environments_api.Environments.Service.Writes.{
  admit_enter, admit_fail, reserved_of, admit_write, after_body, Error, touched, note_file_action,
}

-- An admitted mutation has its bytes counted, under the quota where it adds any.
pub admit_enter_counts :
    (s s' : Service) (caller : Caller) (id : String) (growth : ℤ) (q : Quotas)
    → effective s.quotas caller.account_id ≡ ok q
    → admit_enter s caller id growth ≡ ok s'
    → (used_bytes s' id ≡ used_bytes s id + reserved_of growth)
      × (0 < reserved_of growth → used_bytes s' id ≤ q.max_disk_bytes)
unfolding admit_enter
admit_enter_counts s s' caller id growth q eff e =
    let (r, mine, e1) = bind-eq-ok (owned s caller id) _ e in
    let facts = owned_lem s caller id r mine in
    ground (
      arith,
      eff,
      e1,
      facts.1,
      eq_refl id,
      lookup-insert id id (used_bytes s id + reserved_of growth) s.usage,
    )

pub admit_enter-lookup :
    (s s' : Service) (caller : Caller) (id : String) (growth : ℤ)
    → admit_enter s caller id growth ≡ ok s'
    → lookup id s'.usage ≡ some (used_bytes s id + reserved_of growth)
unfolding admit_enter
admit_enter-lookup s s' caller id growth e =
    let (r, mine, e1) = bind-eq-ok (owned s caller id) _ e in
    let (q, eff, e2) = bind-eq-ok (effective s.quotas caller.account_id) _ e1 in
    ground (
      arith,
      e2,
      (owned_lem s caller id r mine).1,
      eq_refl id,
      lookup-insert id id (used_bytes s id + reserved_of growth) s.usage,
    )

-- A mutation that fails gives back exactly what it reserved: where the environment's entry has
-- grown by `extra` since, other writes' reservations, the entry ends `extra` above what it was.
-- Where the environment has been deleted meanwhile, giving back brings no entry into being.
pub admit_fail_restores :
    (s s' t : Service) (caller : Caller) (id : String) (growth : ℤ) (extra : ℕ)
    → admit_enter s caller id growth ≡ ok s'
    → (lookup id t.usage ≡ some (used_bytes s' id + extra)
        → lookup id (admit_fail id growth t).usage ≡ some (used_bytes s id + extra))
      × (lookup id t.usage ≡ none → admit_fail id growth t ≡ t)
unfolding admit_fail
admit_fail_restores s s' t caller id growth extra e = (
  λ same. ground (
    arith,
    same,
    admit_enter-lookup s s' caller id growth e,
    eq_refl id,
    lookup-insert id id (used_bytes s' id + extra - reserved_of growth) t.usage,
  ),
  λ gone. ground (arith, gone),
)

-- A mutation that raised `x`, and left the environment's entry at `n` bytes.
abbrev pub RaisedAt {ℓ} : {A : Type ℓ} → Error → String → ℕ → Result A × Service → Type ℓ
RaisedAt x id n (r, t) = (r ≡ err x) × (lookup id t.usage ≡ some n)

-- Take a mutation that raises if it runs, whatever else it changes, with `extra` bytes more in the
-- environment's entry than its own reservation left there. Run to its end in the context, either it
-- was refused at the entry, and then the refusal is raised and the state is the one from before, with
-- nothing of the mutation; or it was admitted, its error is raised, and the entry is `extra` above
-- what it was.
pub admit_write_fails {ℓ} :
    {A : Type ℓ} (s : Service) (caller : Caller) (id : String) (growth : ℤ)
    (body : Service → Result A × Service) (x : Error) (extra : ℕ)
    → ((s' : Service)
        → admit_enter s caller id growth ≡ ok s'
        → RaisedAt x id (used_bytes s' id + extra) (body s'))
    → ((why : Error) × (admit_enter s caller id growth ≡ err why)
        × (admit_write s caller id growth body ≡ (err why, s)))
      ⊎ (((admit_write s caller id growth body).0 ≡ err x)
          × (lookup id (admit_write s caller id growth body).1.usage
              ≡ some (used_bytes s id + extra)))
unfolding admit_write after_body
admit_write_fails {A = A} s caller id growth body x extra raises =
    elim (Result-cases (admit_enter s caller id growth)) [
      | inr (why, e) ↦ inl (why, e, rw e refl)
      | inl (s', e) ↦ inr (rw e (given_back s' e (body s') (raises s' e)))
    ]
  where
    given_back :
        (s' : Service)
        → admit_enter s caller id growth ≡ ok s'
        → (o : Result A × Service) → RaisedAt x id (used_bytes s' id + extra) o
        → ((after_body id growth o).0 ≡ err x)
          × (lookup id (after_body id growth o).1.usage ≡ some (used_bytes s id + extra))
    given_back s' e (ok a, t) h = absurd (cc (h.0))
    given_back s' e (err y, t) h =
        (h.0, (admit_fail_restores s s' t caller id growth extra e).0 h.1)

pub admit_enter-records :
    (s s' : Service) (caller : Caller) (id : String) (growth : ℤ)
    → admit_enter s caller id growth ≡ ok s'
    → s'.records ≡ s.records
unfolding admit_enter
admit_enter-records s s' caller id growth e =
    let (r, mine, e1) = bind-eq-ok (owned s caller id) _ e in
    let (q, eff, e2) = bind-eq-ok (effective s.quotas caller.account_id) _ e1 in ground (arith, e2)

-- The note of an owner's file action goes through, and counts nothing.
pub note_file_action-ok :
    (s : Service) (caller : Caller) (now : ℕ) (id action : String) (r : EnvironmentRecord)
    → owned s caller id ≡ ok r
    → (s' : Service) × (note_file_action s caller now id action ≡ ok (tt, s'))
      × (s'.usage ≡ s.usage)
unfolding note_file_action
note_file_action-ok s caller now id action r mine =
    (note (audited action caller.account_id id) (touched now r s), rw mine refl, refl)
