-- ===== src/Environments/Service/Reaper/Archiving.antt =====
-- The second loop of `reap` and the whole pass (app/environments/service.py).
use environments_api.Common.{
  ℕ, ◌+◌, ◌<◌, String, ◌≡◌, refl, sym, ap, ◌∙◌, inl, inr, true, ◌&&◌, Option, none, some, List, [],
  ◌∷◌, arith, eq_iff, eq_refl, Bool-cases,
}
use environments_api.Common.{All, All-map}
use environments_api.Environments.Service.Dict.{HasUniqueIds}
use environments_api.Common.Result.{Result, ok, err, ok-injective}
use mathlib.Core.Path.{subst}
use environments_api.Environments.Records.{
  EnvironmentRecord, active, archived, is_active, environment_idle_ttl, EnvironmentState,
}
use environments_api.Environments.Quotas.{Quotas, QuotaStore, effective}
use environments_api.Environments.Service.{
  Service, LiveShell, find_record, live_shells, all_shells, put_record, remove_shell,
}
use environments_api.Environments.Service.Lifecycle.{pop_each}
use environments_api.Environments.Service.Reaper.{
  Pass, and_then, ReapReport, Disk, reap, reap_shells, reap_records, reap_present, reap_record,
  archive, environment_idle,
}
use environments_api.Environments.Service.Reaper.Idle.{environment_idle_lem, records-pop_each}
use environments_api.Environments.Service.Reaper.Pass.{
  Steps, Steps-refl, Steps-trans, Reaped, put-Steps, same-Steps, reap_shells-Steps, found-itself,
}

quotas-pop_each : (shs : List LiveShell) (s : Service) → (pop_each shs s).quotas ≡ s.quotas
unfolding pop_each
quotas-pop_each [] s = refl
quotas-pop_each (sh ∷ shs) s =
    quotas-pop_each shs (record s { shells = remove_shell sh.id s.shells })

active-is : (st : EnvironmentState) → is_active st ≡ true → st ≡ active
active-is active e = refl
active-is archived e = cc

module _ (now : ℕ) (store : QuotaStore) where
  archive-Steps :
      (r : EnvironmentRecord) (q : Quotas) (live : List LiveShell) (s : Service)
      → find_record r.id s.records ≡ some r
      → effective store r.account_id ≡ ok q
      → is_active r.state ≡ true
      → environment_idle now q r live ≡ true
      → Steps now store s (archive now r s)
  unfolding archive
  archive-Steps r q live s at eff act idle =
      put-Steps now store s (archive now r s) r
        (record r { state = archived; archived_at = some now; updated_at = now })
        (ap (put_record _) (records-pop_each (all_shells s r.id) s))
        (quotas-pop_each (all_shells s r.id) s) at
        (inr (record {
          was = active-is r.state act;
          is = refl;
          account = refl;
          quiet = λ q' eff'.
              let same : q ≡ q' = ok-injective (sym eff ∙ eff') in
              subst
                (λ k.
                  r.last_activity_at + environment_idle_ttl r k.environment_idle_ttl_seconds < now)
                same (environment_idle_lem now q r live idle).1;
        }))

  reap_record-Steps :
      (disk : Disk) (q : Quotas) (r : EnvironmentRecord) (s : Service) (rep : ReapReport)
      → find_record r.id s.records ≡ some r
      → effective store r.account_id ≡ ok q
      → Steps now store s (reap_record disk now q r s rep).0
  unfolding reap_record
  reap_record-Steps disk q r s rep at eff =
      elim (Bool-cases (is_active r.state && environment_idle now q r (live_shells s r.id))) [
        | inl e ↦ rw e (
            Steps-trans now store s _ _
              (archive-Steps r q (live_shells s r.id) s at eff (ground (arith, e))
                (ground (arith, e)))
              (same-Steps now store _ _ refl refl))
        | inr e ↦ rw e (same-Steps now store s _ refl refl)
      ]

  reap_present-Steps :
      (disk : Disk) (id account : String) (o : Option EnvironmentRecord) (s : Service)
      (rep : ReapReport)
      → s.quotas ≡ store
      → ((r : EnvironmentRecord)
          → o ≡ some r
          → (find_record r.id s.records ≡ some r) × (r.account_id ≡ account))
      → (res : Result Quotas) → effective s.quotas account ≡ res
      → Steps now store s (reap_present disk now res o s rep).0
  unfolding reap_present
  reap_present-Steps disk id account o s rep sq h (err e) eff = Steps-refl now store s
  reap_present-Steps disk id account none s rep sq h (ok q) eff = Steps-refl now store s
  reap_present-Steps disk id account (some r) s rep sq h (ok q) eff =
      let (at, own) = h r refl in
      reap_record-Steps disk q r s rep at
        (ap (effective store) own ∙ ap (λ k. effective k account) (sym sq) ∙ eff)

  -- What the list of a pass names is in the dict, for the same account.
  abbrev Linked : Service → List EnvironmentRecord → Type 0
  Linked s rs =
      All
        (λ r.
          (u : EnvironmentRecord) × (find_record r.id s.records ≡ some u)
          × (u.account_id ≡ r.account_id))
        rs

  account-Reaped : (r u : EnvironmentRecord) → Reaped now store r u → u.account_id ≡ r.account_id
  account-Reaped r u (inl h) = h.account
  account-Reaped r u (inr h) = h.account

  Linked-Steps :
      (s t : Service) (rs : List EnvironmentRecord)
      → Steps now store s t
      → Linked s rs
      → Linked t rs
  Linked-Steps s t rs st h =
      All-map _ _ rs
        (λ r linked.
          let (u, at, own) = linked in
          let (v, at', how) = st.records r.id u at in (v, at', account-Reaped u v how ∙ own))
        h

  present :
      (s : Service) (r u : EnvironmentRecord)
      → find_record r.id s.records ≡ some u
      → u.account_id ≡ r.account_id
      → (v : EnvironmentRecord) → find_record r.id s.records ≡ some v
      → (find_record v.id s.records ≡ some v) × (v.account_id ≡ r.account_id)
  present s r u at own v e =
      let same : u ≡ v = ground (arith, at, e) in
      (found-itself now store r.id s v e, subst (λ k. k.account_id ≡ r.account_id) same own)

  reap_records-Steps :
      (disk : Disk) (rs : List EnvironmentRecord) (s : Service) (rep : ReapReport)
      → s.quotas ≡ store
      → Linked s rs
      → Steps now store s (reap_records disk now rs s rep).0
  unfolding reap_records
  reap_records-Steps disk [] s rep sq h = Steps-refl now store s
  reap_records-Steps disk (r ∷ rs) s rep sq h =
      let (u, at, own) = h.0 in
      let found = find_record r.id s.records in
      let quotas = effective s.quotas r.account_id in
      let first =
        reap_present-Steps disk r.id r.account_id found s rep sq (present s r u at own) quotas
          refl in
      then_rest (reap_present disk now quotas found s rep) first (λ t rep' st.
        reap_records-Steps disk rs t rep' (st.quotas ∙ sq) (Linked-Steps s t rs st h.1))
    where
      then_rest :
          (p : Pass)
          → Steps now store s p.0
          → ((t : Service) (rep' : ReapReport)
              → Steps now store s t
              → Steps now store t (reap_records disk now rs t rep').0)
          → Steps now store s (and_then p (reap_records disk now rs)).0
      then_rest (t, err e) st k = st
      then_rest (t, ok rep') st k = Steps-trans now store s t _ st (k t rep' st)

unique-found :
    (rs : List EnvironmentRecord) → HasUniqueIds rs → All (λ r. find_record r.id rs ≡ some r) rs
unfolding find_record
unique-found [] h = tt
unique-found (q ∷ rs) h = (
  ground (arith, eq_refl q.id),
  All-map _ _ rs (λ r e. ground (arith, eq_iff q.id r.id, h.0, e)) (unique-found rs h.1),
)

-- A pass of the reaper deletes no record. What it leaves of each is either as it was, in its state,
-- its account, its last activity and its lifetime; or archived, and then it was active and had been
-- quiet for longer than its lifetime: the one stamped at its creation, or its account's. This holds
-- also of a pass that an unreadable quota ends early.
pub reap_archives_idle :
    (ended : LiveShell → LiveShell) (disk : Disk) (now : ℕ) (s : Service) (id : String)
    (r : EnvironmentRecord)
    → HasUniqueIds s.records
    → find_record id s.records ≡ some r
    → (r' : EnvironmentRecord) × (find_record id (reap ended disk now s).0.records ≡ some r')
      × Reaped now s.quotas r r'
unfolding reap
reap_archives_idle ended disk now s id r unique at = (finish first_loop first).records id r at
  where
    start : ReapReport
    start = record { shells_closed = 0; environments_archived = 0; logs_pruned = 0; usage = [] }

    first_loop : Pass
    first_loop = reap_shells ended now s.records s.shells s start

    first : Steps now s.quotas s first_loop.0
    first = reap_shells-Steps now s.quotas ended s.records s.shells s start

    linked : Linked now s.quotas s s.records
    linked = All-map _ _ s.records (λ u e. (u, e, refl)) (unique-found s.records unique)

    finish :
        (p : Pass)
        → Steps now s.quotas s p.0
        → Steps now s.quotas s (and_then p (reap_records disk now s.records)).0
    finish (t, err e) st = st
    finish (t, ok rep) st = Steps-trans now s.quotas s t _ st (
        reap_records-Steps now s.quotas disk s.records t rep st.quotas
          (Linked-Steps now s.quotas s t s.records st linked))
