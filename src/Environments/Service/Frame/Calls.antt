-- ===== src/Environments/Service/Frame/Calls.antt =====
-- The frame of every call: a caller's call leaves the environments of other accounts alone.
use environments_api.Common.{ℕ, String, ◌≡◌, refl, ◌≢◌, none, some, [], ◌∷◌, ◌++◌, arith}
use environments_api.Common.Assoc.{lookup}
use environments_api.Common.Result.{Result, ok, err, bind-eq-ok, ok-injective_pair}
use mathlib.Core.Path.{subst}
use environments_api.Environments.Records.{EnvironmentRecord}
use environments_api.Environments.Service.{
  dirs_made, prepared, Caller, Service, LiveShell, find_record, find_shell, all_shells, owned,
  owned_shell, owned_or_none,
}
use environments_api.Environments.Service.Dict.{owned_lem}
use environments_api.Environments.Service.Lifecycle.{CreateRequest, create, add_record, new_record}
use environments_api.Environments.Service.Sessions.{
  Host, OpenRequest, open_shell, live_of, add_shell, close_shell,
}
use environments_api.Environments.Service.Admitted.{create-eq-ok, open_shell-eq-ok}
use environments_api.Environments.Service.Frame.{
  Only, Only-refl, Only-trans, Only-effects, Only-save, IsWellFormed, Absent,
}
use environments_api.Environments.Service.Frame.Shells.{
  find_shell-Member, Only-put_shell, Absent-Placed,
}
use environments_api.Environments.Service.Frame.Closing.{KeepsShell, close_shell_object-Only}

-- The state after a call that raises is the state before it.
abbrev pub state_after {ℓ} : {A : Type ℓ} → Service → Result (A × Service) → Service
state_after s (err e) = s
state_after s (ok (a, t)) = t

-- What `t` still has of the environment `j`.
pub record Untouched (j : String) (s t : Service) : Type 0 where
  pub records : find_record j t.records ≡ find_record j s.records
  pub shells : all_shells t j ≡ all_shells s j
  pub usage : lookup j t.usage ≡ lookup j s.usage
  pub saved : lookup j t.saved ≡ lookup j s.saved

-- Going from `s` to `t` leaves the environments of other accounts untouched, and the dicts sound.
pub record Confined (caller : Caller) (s t : Service) : Type 0 where
  pub others :
      (j : String) (r : EnvironmentRecord)
      → find_record j s.records ≡ some r
      → r.account_id ≢ caller.account_id
      → Untouched j s t
  pub well_formed : IsWellFormed s → IsWellFormed t

pub Confined-refl : (caller : Caller) (s : Service) → Confined caller s s
Confined-refl caller s = record {
  others = λ j r e ne. record { records = refl; shells = refl; usage = refl; saved = refl };
  well_formed = λ w. w;
}

-- A change within an environment that is the caller's own, or that is not there.
pub Only-Confined :
    (caller : Caller) (id : String) (s t : Service)
    → ((r : EnvironmentRecord)
        → find_record id s.records ≡ some r
        → r.account_id ≡ caller.account_id)
    → Only id s t
    → Confined caller s t
Only-Confined caller id s t mine h = record {
  others = λ j r e ne.
      let other : j ≢ id =
        λ same. ne (mine r (subst (λ k. find_record k s.records ≡ some r) same e)) in
      record {
        records = h.records j other;
        shells = h.shells j other;
        usage = h.usage j other;
        saved = h.saved j other;
      };
  well_formed = h.well_formed;
}

pub owned-mine :
    (s : Service) (caller : Caller) (id : String) (r : EnvironmentRecord)
    → owned s caller id ≡ ok r
    → (q : EnvironmentRecord) → find_record id s.records ≡ some q
    → q.account_id ≡ caller.account_id
owned-mine s caller id r mine q e =
    let facts = owned_lem s caller id r mine in ground (arith, facts.0, facts.2, e)

-- What the ownership check of a shell lets through.
pub owned_shell_lem :
    (s : Service) (caller : Caller) (shell_id : String) (r : EnvironmentRecord) (sh : LiveShell)
    → owned_shell s caller shell_id ≡ ok (r, sh)
    → (find_shell shell_id s.shells ≡ some sh) × (owned s caller sh.environment_id ≡ ok r)
unfolding owned_shell owned_or_none owned
owned_shell_lem s caller shell_id r sh e = ground (arith, e)

module _ (s : Service) (caller : Caller) (now : ℕ) where
  pub after {ℓ} :
      {A : Type ℓ} (call : Result (A × Service))
      → ((a : A) (t : Service) → call ≡ ok (a, t) → Confined caller s t)
      → Confined caller s (state_after s call)
  after (err e) h = Confined-refl caller s
  after (ok (a, t)) h = h a t refl

  -- `create`, where the id that it draws is not in use.
  pub create-Confined :
      (tier fresh : String) (c : CreateRequest)
      → find_record fresh s.records ≡ none
      → Confined caller s (state_after s (create s caller tier now fresh c))
  unfolding add_record new_record
  create-Confined tier fresh c absent = after (create s caller tier now fresh c) λ r t e.
      let (q, made) = create-eq-ok s caller tier now fresh c r t e in
      let s1 : Service = record s {
        effects = s.effects ++ (dirs_made fresh ∷ prepared fresh ∷ []);
      } in
      rw made.added (
        Only-Confined caller fresh s _ (λ q e. cc)
          (Only-effects fresh s _ _ _ (
            Only-trans fresh s s1 _
              (Only-effects fresh s s s1.effects s.persisted_commands (Only-refl fresh s))
              (Only-save s1 (new_record s caller tier now fresh c)))))

  -- `open_shell`, where the id that it draws is not in use.
  pub open_shell-Confined :
      (host : Host) (fresh id : String) (o : OpenRequest)
      → Absent fresh s.shells
      → Confined caller s (state_after s (open_shell host s caller now fresh id o))
  unfolding add_shell
  open_shell-Confined host fresh id o absent =
      after (open_shell host s caller now fresh id o) λ sh t e.
        let (r, q, cwd, p, h) = open_shell-eq-ok host s caller now fresh id o sh t e in
        let facts = owned_lem s caller id r h.mine in
        rw h.added (
          Only-Confined caller r.id s _ (rw facts.1 (owned-mine s caller id r h.mine)) (
            Only-effects r.id s _ _ _ (
              Only-trans r.id s _ _
                (Only-put_shell s r.id (live_of fresh r.id now p) refl
                  (Absent-Placed fresh r.id s.shells absent))
                (Only-save _ _))))

  -- `close_shell`
  pub close_shell-Confined :
      (ended : LiveShell → LiveShell) (shell_id : String)
      → KeepsShell ended
      → IsWellFormed s
      → Confined caller s (state_after s (close_shell ended s caller now shell_id))
  unfolding close_shell
  close_shell-Confined ended shell_id keeps w =
      after (close_shell ended s caller now shell_id) λ u t e.
        let ((r, sh), found, e1) = bind-eq-ok (owned_shell s caller shell_id) _ e in
        let (at, mine) = owned_shell_lem s caller shell_id r sh found in
        let home = sh.environment_id in
        rw (ok-injective_pair e1).1 (
          Only-Confined caller home s _ (owned-mine s caller home r mine) (
            Only-effects home s _ _ _
              (close_shell_object-Only ended keeps home now sh s
                (find_shell-Member shell_id s.shells sh w.shells at)).0))
