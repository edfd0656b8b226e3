-- ===== src/Environments/Service/Caps.antt =====
-- The caps on environments and shells (app/environments/service.py), as `create`, `open_shell` and
-- `reset` leave them.
use environments_api.Common.{
  ℕ, ◌+◌, ◌≤◌, String, ◌≡◌, refl, sym, Bool, true, false, ◌&&◌, none, some, List, [], ◌∷◌, ◌++◌,
  arith, eq_iff, eq_refl, str_eq, length, filter,
}
use environments_api.Common.Result.{ok}
use mathlib.Core.Path.{subst}
use environments_api.Environments.Records.{EnvironmentRecord, active, archived, is_running}
use environments_api.Environments.Quotas.{Quotas, effective}
use environments_api.Common.Assoc.{insert}
use environments_api.Environments.Service.{
  workspace_wiped, logs_made, prepared, audited, note, save, Caller, Service, LiveShell, owned,
  find_record, put_record, put_shell, live_shells, all_shells,
}
use environments_api.Environments.Service.Dict.{owned_lem}
use environments_api.Environments.Service.Admitted.{Created, Opened, create-eq-ok, open_shell-eq-ok}
use environments_api.Environments.Service.Closing.{close_each}
use environments_api.Environments.Service.Lifecycle.{
  CreateRequest, create, add_record, new_record, active_in, active_of, mine_active, profile_cap,
  stamp, reset, reset_record, current_record, pop_each,
}
use environments_api.Environments.Service.Sessions.{
  Host, OpenRequest, open_shell, add_shell, live_of,
}
use environments_api.Environments.Service.Frame.{Absent}

module _ (p : EnvironmentRecord → Bool) (r : EnvironmentRecord) (passes : p r ≡ true) where
  count-put_new :
      (rs : List EnvironmentRecord)
      → find_record r.id rs ≡ none
      → length (filter p (put_record r rs)) ≡ length (filter p rs) + 1
  unfolding put_record find_record filter
  count-put_new [] h = rw passes (omega arith)
  count-put_new (q ∷ rs) h = ground (arith, count-put_new rs, passes)

  count-put_changed :
      (q : EnvironmentRecord) (rs : List EnvironmentRecord)
      → find_record r.id rs ≡ some q
      → p q ≡ false
      → length (filter p (put_record r rs)) ≡ length (filter p rs) + 1
  unfolding put_record find_record filter
  count-put_changed q [] h fails = cc
  count-put_changed q (u ∷ rs) h fails = ground (arith, count-put_changed q rs, passes, fails)

count-put_shell :
    (p : LiveShell → Bool) (sh : LiveShell) (ss : List LiveShell)
    → p sh ≡ true
    → Absent sh.id ss
    → length (filter p (put_shell sh ss)) ≡ length (filter p ss) + 1
unfolding put_shell filter
count-put_shell p sh [] passes h = rw passes (omega arith)
count-put_shell p sh (t ∷ ts) passes h =
    ground (arith, count-put_shell p sh ts, passes, eq_iff t.id sh.id, h.0, h.1)

filter-filter :
    (p q : EnvironmentRecord → Bool) (rs : List EnvironmentRecord)
    → filter p (filter q rs) ≡ filter (λ r. q r && p r) rs
unfolding filter
filter-filter p q [] = refl
filter-filter p q (r ∷ rs) = ground (arith, filter-filter p q rs)

abbrev pub account_count : String → Service → ℕ
account_count account s = length (active_of account s.records)

abbrev pub profile_count : String → String → Service → ℕ
profile_count account profile s = length (active_in account profile s.records)

counts-add_record :
    (s : Service) (caller : Caller) (tier : String) (now : ℕ) (fresh : String) (c : CreateRequest)
    → find_record fresh s.records ≡ none
    → let t = add_record (new_record s caller tier now fresh c) s in
      (account_count caller.account_id t ≡ account_count caller.account_id s + 1)
      × (profile_count caller.account_id caller.profile t
          ≡ profile_count caller.account_id caller.profile s + 1)
unfolding add_record new_record active_of active_in
counts-add_record s caller tier now fresh c absent =
    let account = caller.account_id in
    let new = new_record s caller tier now fresh c in
    let in_profile = λ (u : EnvironmentRecord). str_eq u.profile caller.profile in
    (
      count-put_new (mine_active account) new (ground (arith, eq_refl account)) s.records absent,
      rw
          (
            filter-filter in_profile (mine_active account) s.records,
            filter-filter in_profile (mine_active account) (put_record new s.records),
          )
          (count-put_new (λ u. mine_active account u && in_profile u) new
            (ground (arith, eq_refl account, eq_refl caller.profile)) s.records absent),
    )

-- A create that returns adds one active environment to the account and one to the profile, and
-- neither count is over its cap afterwards: the account's quota, and the least of the profile's
-- quota and the person's own choice. The drawn id is not in use.
pub create_within_caps :
    (s t : Service) (caller : Caller) (tier : String) (now : ℕ) (fresh : String) (c : CreateRequest)
    (r : EnvironmentRecord) (q : Quotas)
    → find_record fresh s.records ≡ none
    → effective s.quotas caller.account_id ≡ ok q
    → create s caller tier now fresh c ≡ ok (r, t)
    → (account_count caller.account_id t ≡ account_count caller.account_id s + 1)
      × (account_count caller.account_id t ≤ q.max_environments_per_account)
      × (profile_count caller.account_id caller.profile t
          ≡ profile_count caller.account_id caller.profile s + 1)
      × (profile_count caller.account_id caller.profile t ≤ profile_cap q (stamp s c.preferences))
create_within_caps s t caller tier now fresh c r q absent eff e =
    let (q', h') = create-eq-ok s caller tier now fresh c r t e in
    let same : q' ≡ q = ground (arith, h'.quotas, eff) in
    let h = subst (Created s caller tier now fresh c r t) same h' in
    let counts = counts-add_record s caller tier now fresh c absent in
    let mine : account_count caller.account_id t ≡ account_count caller.account_id s + 1 =
      rw h.added counts.0 in
    let profile : profile_count caller.account_id caller.profile t
        ≡ profile_count caller.account_id caller.profile s + 1 =
      rw h.added counts.1 in
    (mine, omega (arith, mine, h.in_account), profile, omega (arith, profile, h.in_profile))

-- A shell that is opened is one more live shell of its environment, and their count is within the
-- quota. The drawn id is not in use.
pub open_shell_within_cap :
    (host : Host) (s t : Service) (caller : Caller) (now : ℕ) (fresh id : String) (o : OpenRequest)
    (sh : LiveShell) (q : Quotas)
    → Absent fresh s.shells
    → effective s.quotas caller.account_id ≡ ok q
    → open_shell host s caller now fresh id o ≡ ok (sh, t)
    → (length (live_shells t id) ≡ length (live_shells s id) + 1)
      × (length (live_shells t id) ≤ q.max_shells_per_environment)
unfolding add_shell live_shells
open_shell_within_cap host s t caller now fresh id o sh q absent eff e =
    let (r, q', cwd, p, h') = open_shell-eq-ok host s caller now fresh id o sh t e in
    let same : q' ≡ q = ground (arith, h'.quotas, eff) in
    let h = subst (λ k. Opened host s caller now fresh id o sh t r k cwd p) same h' in
    let facts = owned_lem s caller id r h.mine in
    let new = live_of fresh r.id now p in
    let more =
      count-put_shell (λ u. str_eq u.environment_id id && is_running u.state) new s.shells
        (ground (arith, eq_iff r.id id, facts.1)) absent in
    let counted : length (live_shells t id) ≡ length (live_shells s id) + 1 = rw h.added more in
    (counted, omega (arith, counted, h.room))

-- A reset looks at no cap: it makes an archived environment with no shells active again, and the
-- account has one active environment more, however many its quotas allow.
pub reset_passes_caps :
    (ended : LiveShell → LiveShell) (s : Service) (caller : Caller) (now : ℕ) (id : String)
    (r : EnvironmentRecord)
    → owned s caller id ≡ ok r
    → r.state ≡ archived
    → all_shells s id ≡ []
    → (r' : EnvironmentRecord) × (t : Service) × (reset ended s caller now id ≡ ok (r', t))
      × (r'.state ≡ active)
      × (account_count caller.account_id t ≡ account_count caller.account_id s + 1)
unfolding reset reset_record pop_each close_each active_of
reset_passes_caps ended s caller now id r mine gone none_left =
    let facts = owned_lem s caller id r mine in
    let at : find_record r.id s.records ≡ some r =
      subst (λ k. find_record k s.records ≡ some r) (sym facts.1) facts.0 in
    let r' : EnvironmentRecord = reset_record now r in
    let wiped : Service = record s {
      effects = s.effects ++ (workspace_wiped id ∷ logs_made id ∷ prepared id ∷ []);
    } in
    let kept : Service = save r' wiped in
    let emptied : Service = record kept { usage = insert id 0 kept.usage } in
    let t : Service = note (audited "environment.reset" caller.account_id id) emptied in
    (
      r',
      t,
      rw (mine, none_left, at, current_record) refl,
      refl,
      count-put_changed (mine_active caller.account_id) r'
          (ground (arith, facts.2, eq_iff r.account_id caller.account_id)) r s.records at
          (ground (arith, gone)),
    )
