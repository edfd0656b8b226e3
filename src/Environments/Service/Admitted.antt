-- ===== src/Environments/Service/Admitted.antt =====
-- What a call that returned has passed and done (app/environments/service.py): the inversions of the
-- methods that check before they change anything.
use environments_api.Common.{ℕ, ◌<◌, String, ◌≡◌, true, not, ◌||◌, arith, ltb, ltb→lt, length}
use environments_api.Common.Result.{ok, guard, bind-eq-ok, ok-injective_pair}
use environments_api.Environments.Records.{EnvironmentRecord, is_active}
use environments_api.Environments.Quotas.{Quotas, effective}
use environments_api.Environments.Service.{
  Caller, Service, LiveShell, owned, check_disk, live_shells,
}
use environments_api.Environments.Service.Lifecycle.{
  CreateRequest, create, add_record, new_record, check_limits, active_in, active_of, wants_network,
  limits_or_none, profile_cap, stamp,
}
use environments_api.Environments.Service.Sessions.{
  Host, OpenRequest, open_shell, add_shell, valid_names, live_of, spawn_request, Process,
}

-- A create that returned: the caps had room, the network was allowed, the limits passed, and the
-- new record is added.
pub record Created (s : Service) (caller : Caller) (tier : String) (now : ℕ) (fresh : String)
    (c : CreateRequest) (r : EnvironmentRecord) (t : Service) (q : Quotas) : Type 0 where
  pub quotas : effective s.quotas caller.account_id ≡ ok q
  pub network : wants_network s c.network ≡ true → s.settings.allow_network ≡ true
  pub limits : check_limits (limits_or_none c.limits) q ≡ ok tt
  pub in_profile :
      length (active_in caller.account_id caller.profile s.records)
      < profile_cap q (stamp s c.preferences)
  pub in_account : length (active_of caller.account_id s.records) < q.max_environments_per_account
  pub made : r ≡ new_record s caller tier now fresh c
  pub added : t ≡ add_record (new_record s caller tier now fresh c) s

pub create-eq-ok :
    (s : Service) (caller : Caller) (tier : String) (now : ℕ) (fresh : String) (c : CreateRequest)
    (r : EnvironmentRecord) (t : Service)
    → create s caller tier now fresh c ≡ ok (r, t)
    → (q : Quotas) × Created s caller tier now fresh c r t q
unfolding create
create-eq-ok s caller tier now fresh c r t e =
    let (q, eff, e1) = bind-eq-ok (effective s.quotas caller.account_id) _ e in
    let (u1, net, e2) =
      bind-eq-ok (guard (not (wants_network s c.network) || s.settings.allow_network) _) _ e1 in
    let (u2, lim, e3) = bind-eq-ok (check_limits (limits_or_none c.limits) q) _ e2 in
    let cap : ℕ = profile_cap q (stamp s c.preferences) in
    let mine : ℕ = length (active_of caller.account_id s.records) in
    let profile : ℕ = length (active_in caller.account_id caller.profile s.records) in
    let (u3, fits, e4) = bind-eq-ok (guard (ltb profile cap) _) _ e3 in
    let (u4, room, e5) = bind-eq-ok (guard (ltb mine q.max_environments_per_account) _) _ e4 in
    (
      q,
      record {
        quotas = eff;
        network = ground (arith, net);
        limits = lim;
        in_profile = ltb→lt _ _ (ground (arith, fits));
        in_account = ltb→lt _ _ (ground (arith, room));
        made = (ok-injective_pair e5).0;
        added = (ok-injective_pair e5).1;
      },
    )

-- A shell that was opened: the environment was the caller's own and active, its disk had room, the
-- count of its live shells was below the quota, and the new shell is added to it.
pub record Opened (host : Host) (s : Service) (caller : Caller) (now : ℕ) (fresh id : String)
    (o : OpenRequest) (sh : LiveShell) (t : Service) (r : EnvironmentRecord) (q : Quotas)
    (cwd : String) (p : Process) : Type 0 where
  pub names : valid_names o.env ≡ true
  pub mine : owned s caller id ≡ ok r
  pub is_live : is_active r.state ≡ true
  pub quotas : effective s.quotas caller.account_id ≡ ok q
  pub disk : check_disk s r q ≡ ok tt
  pub room : length (live_shells s id) < q.max_shells_per_environment
  pub inside : host.resolve id o.cwd ≡ ok cwd
  pub started : host.spawn (spawn_request host s.settings.shell_binary r q cwd o) ≡ ok p
  pub made : sh ≡ live_of fresh r.id now p
  pub added : t ≡ add_shell (live_of fresh r.id now p) r cwd o.pty now s

pub open_shell-eq-ok :
    (host : Host) (s : Service) (caller : Caller) (now : ℕ) (fresh id : String) (o : OpenRequest)
    (sh : LiveShell) (t : Service)
    → open_shell host s caller now fresh id o ≡ ok (sh, t)
    → (r : EnvironmentRecord) × (q : Quotas) × (cwd : String) × (p : Process) × Opened host s caller
        now fresh id o sh t r q cwd p
unfolding open_shell
open_shell-eq-ok host s caller now fresh id o sh t e =
    let (u1, names, e1) = bind-eq-ok (guard (valid_names o.env) _) _ e in
    let (r, mine, e2) = bind-eq-ok (owned s caller id) _ e1 in
    let (u2, act, e3) = bind-eq-ok (guard (is_active r.state) _) _ e2 in
    let (q, eff, e4) = bind-eq-ok (effective s.quotas caller.account_id) _ e3 in
    let (u3, disk, e5) = bind-eq-ok (check_disk s r q) _ e4 in
    let live : ℕ = length (live_shells s id) in
    let (u4, room, e6) = bind-eq-ok (guard (ltb live q.max_shells_per_environment) _) _ e5 in
    let (cwd, inside, e7) = bind-eq-ok (host.resolve id o.cwd) _ e6 in
    let (u5, dir, e8) = bind-eq-ok (guard (host.is_dir id cwd) _) _ e7 in
    let (p, started, e9) =
      bind-eq-ok (host.spawn (spawn_request host s.settings.shell_binary r q cwd o)) _ e8 in
    (
      r,
      q,
      cwd,
      p,
      record {
        names = ground (arith, names);
        mine = mine;
        is_live = ground (arith, act);
        quotas = eff;
        disk = disk;
        room = ltb→lt _ _ (ground (arith, room));
        inside = inside;
        started = started;
        made = (ok-injective_pair e9).0;
        added = (ok-injective_pair e9).1;
      },
    )
