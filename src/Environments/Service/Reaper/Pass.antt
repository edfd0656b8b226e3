-- ===== src/Environments/Service/Reaper/Pass.antt =====
-- A whole pass of the reaper (app/environments/service.py): what it does to each record.
use environments_api.Common.{
  ℕ, ◌+◌, ◌<◌, String, ◌≡◌, refl, sym, ap, ◌∙◌, ◌⊎◌, inl, inr, not, ◌&&◌, Option, none, some, List,
  [], ◌∷◌, arith, eq_iff, str_eq, Bool-cases,
}
use environments_api.Common.Result.{Result, ok, err}
use mathlib.Core.Path.{subst}
use environments_api.Environments.Records.{
  EnvironmentRecord, ShellRecord, CommandState, active, archived, environment_idle_ttl, is_running,
}
use environments_api.Environments.Quotas.{Quotas, QuotaStore, effective}
use environments_api.Environments.Service.{
  Service, LiveShell, find_record, put_shell, save, put_record,
}
use environments_api.Environments.Service.Dict.{find_record-put_record, find_record-id}
use environments_api.Environments.Service.Closing.{
  persist_commands, store_state, set_stored, change_stored, change_in, on_shell_change, find_stored,
  close_shell_object, is_done, has_string, same_state, same_reason,
}
use environments_api.Environments.Service.Reaper.{
  Pass, and_then, ReapReport, reap_shells, reap_found, reap_running, shell_idle,
}

-- The parts of a record that the reaper's decisions rest on are as they were.
pub record Kept (r r' : EnvironmentRecord) : Type 0 where
  pub state : r'.state ≡ r.state
  pub account : r'.account_id ≡ r.account_id
  pub activity : r'.last_activity_at ≡ r.last_activity_at
  pub ttl : r'.environment_idle_ttl_seconds ≡ r.environment_idle_ttl_seconds

-- An active environment that had been quiet for longer than its lifetime was archived.
pub record Archived (now : ℕ) (store : QuotaStore) (r r' : EnvironmentRecord) : Type 0 where
  pub was : r.state ≡ active
  pub is : r'.state ≡ archived
  pub account : r'.account_id ≡ r.account_id
  pub quiet :
      (q : Quotas)
      → effective store r.account_id ≡ ok q
      → r.last_activity_at + environment_idle_ttl r q.environment_idle_ttl_seconds < now

abbrev pub Reaped : ℕ → QuotaStore → EnvironmentRecord → EnvironmentRecord → Type 0
Reaped now store r r' = Kept r r' ⊎ Archived now store r r'

persist_commands-same :
    (env : String) (cs : List (String × CommandState)) (s : Service)
    → ((persist_commands env cs s).records ≡ s.records)
      × ((persist_commands env cs s).quotas ≡ s.quotas)
unfolding persist_commands
persist_commands-same env [] s = (refl, refl)
persist_commands-same env ((c, st) ∷ cs) s =
    elim (Bool-cases (is_done st && not (has_string c s.persisted_commands))) [
      | inl e ↦ rw (e, persist_commands) (persist_commands-same env cs _)
      | inr e ↦ rw (e, persist_commands) (persist_commands-same env cs s)
    ]

Kept-refl : (r : EnvironmentRecord) → Kept r r
Kept-refl r = record { state = refl; account = refl; activity = refl; ttl = refl }

module _ (now : ℕ) (store : QuotaStore) where
  -- Every record is still there, kept or archived; the quotas are as they were.
  pub record Steps (s t : Service) : Type 0 where
    pub quotas : t.quotas ≡ s.quotas
    pub records :
        (id : String) (r : EnvironmentRecord)
        → find_record id s.records ≡ some r
        → (r' : EnvironmentRecord) × (find_record id t.records ≡ some r') × Reaped now store r r'

  Reaped-trans :
      (a b c : EnvironmentRecord)
      → Reaped now store a b
      → Reaped now store b c
      → Reaped now store a c
  unfolding environment_idle_ttl
  Reaped-trans a b c (inl h) (inl k) = inl (record {
    state = k.state ∙ h.state;
    account = k.account ∙ h.account;
    activity = k.activity ∙ h.activity;
    ttl = k.ttl ∙ h.ttl;
  })
  Reaped-trans a b c (inl h) (inr k) = inr (record {
    was = sym h.state ∙ k.was;
    is = k.is;
    account = k.account ∙ h.account;
    quiet = λ q e.
        let later = k.quiet q (ap (effective store) h.account ∙ e) in
        ground (arith, h.activity, h.ttl, later);
  })
  Reaped-trans a b c (inr h) (inl k) = inr (record {
    was = h.was;
    is = k.state ∙ h.is;
    account = k.account ∙ h.account;
    quiet = h.quiet;
  })
  Reaped-trans a b c (inr h) (inr k) = cc (h.is, k.was)

  pub Steps-refl : (s : Service) → Steps s s
  Steps-refl s = record { quotas = refl; records = λ id r e. (r, e, inl (Kept-refl r)) }

  pub Steps-trans : (s t u : Service) → Steps s t → Steps t u → Steps s u
  Steps-trans s t u a b = record {
    quotas = b.quotas ∙ a.quotas;
    records = λ id r e.
        let (r1, e1, k1) = a.records id r e in
        let (r2, e2, k2) = b.records id r1 e1 in (r2, e2, Reaped-trans r r1 r2 k1 k2);
  }

  -- A record that is put back changed keeps every other.
  pub put-Steps :
      (s t : Service) (r q : EnvironmentRecord)
      → t.records ≡ put_record q s.records
      → t.quotas ≡ s.quotas
      → find_record q.id s.records ≡ some r
      → Reaped now store r q
      → Steps s t
  put-Steps s t r q er eq at kept = record {
    quotas = eq;
    records = λ id u e. elim (Bool-cases (str_eq q.id id)) [
      | inl same ↦
          let is : u ≡ r = ground (arith, eq_iff q.id id, at, e) in
          (
            q,
            ap (find_record id) er ∙ find_record-put_record id q s.records ∙ rw same refl,
            subst (λ v. Reaped now store v q) (sym is) kept,
          )
      | inr other ↦ (
        u,
        ap (find_record id) er ∙ find_record-put_record id q s.records ∙ rw other e,
        inl (Kept-refl u),
      )
    ];
  }

  persist-Steps :
      (env : String) (cs : List (String × CommandState)) (s : Service)
      → Steps s (persist_commands env cs s)
  persist-Steps env cs s =
      let same = persist_commands-same env cs s in
      record {
        quotas = same.1;
        records = λ id r e. (r, ap (find_record id) same.0 ∙ e, inl (Kept-refl r));
      }

  store_state-Steps :
      (sh : LiveShell) (r : EnvironmentRecord) (stored : ShellRecord) (s : Service)
      → find_record r.id s.records ≡ some r
      → Steps s (store_state now sh r stored s)
  unfolding store_state
  store_state-Steps sh r stored s at =
      let q : EnvironmentRecord = record r { shells = set_stored sh r.shells; updated_at = now } in
      elim (Bool-cases
        (same_state stored.state sh.state && same_reason stored.dead_reason sh.dead_reason)) [
          | inl e ↦ rw (e, store_state) (Steps-refl s)
          | inr e ↦
              rw (e, store_state)
                (put-Steps s (save q s) r q refl refl at
                  (inl (record { state = refl; account = refl; activity = refl; ttl = refl })))
        ]

  change_stored-Steps :
      (sh : LiveShell) (r : EnvironmentRecord) (o : Option ShellRecord) (s : Service)
      → find_record r.id s.records ≡ some r
      → Steps s (change_stored now sh r o s)
  unfolding change_stored
  change_stored-Steps sh r none s at = Steps-refl s
  change_stored-Steps sh r (some old) s at =
      Steps-trans s _ _ (store_state-Steps sh r old s at) (persist-Steps r.id sh.commands _)

  change_in-Steps :
      (sh : LiveShell) (o : Option EnvironmentRecord) (s : Service)
      → ((r : EnvironmentRecord) → o ≡ some r → find_record r.id s.records ≡ some r)
      → Steps s (change_in now sh o s)
  unfolding change_in
  change_in-Steps sh none s h = Steps-refl s
  change_in-Steps sh (some r) s h =
      change_stored-Steps sh r (find_stored sh.id r.shells) s (h r refl)

  pub found-itself :
      (id : String) (s : Service) (r : EnvironmentRecord)
      → find_record id s.records ≡ some r
      → find_record r.id s.records ≡ some r
  found-itself id s r e =
      subst (λ k. find_record k s.records ≡ some r) (sym (find_record-id id s.records r e)) e

  -- A change of a shell leaves what the reaper decides by.
  on_shell_change-Steps : (sh : LiveShell) (s : Service) → Steps s (on_shell_change now sh s)
  unfolding on_shell_change
  on_shell_change-Steps sh s =
      change_in-Steps sh (find_record sh.environment_id s.records) s
        (found-itself sh.environment_id s)

  pub same-Steps : (s t : Service) → t.records ≡ s.records → t.quotas ≡ s.quotas → Steps s t
  same-Steps s t er eq = record {
    quotas = eq;
    records = λ id r e. (r, ap (find_record id) er ∙ e, inl (Kept-refl r));
  }

  close_shell_object-Steps :
      (ended : LiveShell → LiveShell) (sh : LiveShell) (s : Service)
      → Steps s (close_shell_object ended now sh s)
  unfolding close_shell_object
  close_shell_object-Steps ended sh s = elim (Bool-cases (is_running sh.state)) [
    | inl e ↦ rw e (
        Steps-trans s _ _
          (same-Steps s (record s { shells = put_shell (ended sh) s.shells }) refl refl)
          (on_shell_change-Steps (ended sh) _))
    | inr e ↦ rw e (Steps-refl s)
  ]

  pub and_then-Steps :
      (s : Service) (p : Pass) (next : Service → ReapReport → Pass)
      → Steps s p.0
      → ((t : Service) (rep : ReapReport) → Steps t (next t rep).0)
      → Steps s (and_then p next).0
  and_then-Steps s (t, err e) next h k = h
  and_then-Steps s (t, ok rep) next h k = Steps-trans s t _ h (k t rep)

  reap_running-Steps :
      (ended : LiveShell → LiveShell) (sh : LiveShell) (r : EnvironmentRecord) (q : Result Quotas)
      (s : Service) (rep : ReapReport)
      → Steps s (reap_running ended now sh r q s rep).0
  unfolding reap_running
  reap_running-Steps ended sh r (err e) s rep = Steps-refl s
  reap_running-Steps ended sh r (ok q) s rep = elim (Bool-cases (shell_idle now q r sh)) [
    | inl e ↦
        rw e (Steps-trans s _ _ (close_shell_object-Steps ended sh s) (same-Steps _ _ refl refl))
    | inr e ↦ rw e (Steps-refl s)
  ]

  reap_found-Steps :
      (ended : LiveShell → LiveShell) (sh : LiveShell) (o : Option EnvironmentRecord) (s : Service)
      (rep : ReapReport)
      → Steps s (reap_found ended now sh o s rep).0
  unfolding reap_found
  reap_found-Steps ended sh none s rep = Steps-refl s
  reap_found-Steps ended sh (some r) s rep = elim (Bool-cases (is_running sh.state)) [
    | inl e ↦ rw e (reap_running-Steps ended sh r (effective s.quotas r.account_id) s rep)
    | inr e ↦ rw e (Steps-refl s)
  ]

  pub reap_shells-Steps :
      (ended : LiveShell → LiveShell) (records : List EnvironmentRecord) (shs : List LiveShell)
      (s : Service) (rep : ReapReport)
      → Steps s (reap_shells ended now records shs s rep).0
  unfolding reap_shells
  reap_shells-Steps ended records [] s rep = Steps-refl s
  reap_shells-Steps ended records (sh ∷ shs) s rep =
      and_then-Steps s _ _ (reap_found-Steps ended sh (find_record sh.environment_id records) s rep)
        (reap_shells-Steps ended records shs)
