-- ===== src/Environments/Service/Views.antt =====
-- What the service tells of environments and quotas (app/environments/service.py: list_all,
-- usage, quotas_for and set_quotas). A disk scan and the count of processes are arguments.
use environments_api.Common.{ℕ, ◌+◌, String, List, [], ◌∷◌, str_eq, length, filter}
use environments_api.Common.Assoc.{Assoc, insert}
use environments_api.Common.Result.{Result, ok, ◌>>=◌}
use environments_api.Environments.Records.{EnvironmentRecord}
use environments_api.Environments.Quotas.{Quotas, JsonValue, effective, overrides_of, set_overrides}
use environments_api.Environments.Service.{
  Caller, Service, LiveShell, ResourceLimits, owned, live_shells, effective_limits, note, audited,
}
use environments_api.Environments.Service.Lifecycle.{sort_by_created}

unfoldable pub list_all : Service → List EnvironmentRecord
unfolding sort_by_created
list_all s = sort_by_created s.records

pub record UsageView : Type 0 where
  pub environment_id : String
  pub workspace_bytes : ℕ
  pub logs_bytes : ℕ
  pub max_bytes : ℕ
  pub shells_running : ℕ
  pub max_shells : ℕ
  pub processes : ℕ
  pub in_profile : ℕ
  pub max_per_profile : ℕ
  pub in_account : ℕ
  pub max_per_account : ℕ
  pub limits : ResourceLimits

abbrev pub mine_of : Caller → List EnvironmentRecord → List EnvironmentRecord
mine_of caller rs = filter (λ r. str_eq r.account_id caller.account_id) rs

abbrev pub sum_of : (LiveShell → ℕ) → List LiveShell → ℕ
sum_of count [] = 0
sum_of count (sh ∷ shells) = count sh + sum_of count shells

-- `usage`: the scan is fresh, and becomes what is counted against the quota.
unfoldable pub usage :
    (LiveShell → ℕ) → ℕ → ℕ → Service → Caller → String → Result (UsageView × Service)
unfolding effective filter live_shells effective_limits
usage count workspace_bytes logs_bytes s caller id = do
  r ← owned s caller id
  quotas ← effective s.quotas caller.account_id
  let live = live_shells s id
  let mine = mine_of caller s.records
  ok (
    record {
      environment_id = r.id;
      workspace_bytes = workspace_bytes;
      logs_bytes = logs_bytes;
      max_bytes = quotas.max_disk_bytes;
      shells_running = length live;
      max_shells = quotas.max_shells_per_environment;
      processes = sum_of count live;
      in_profile = length (filter (λ e. str_eq e.profile r.profile) mine);
      max_per_profile = quotas.max_environments_per_profile;
      in_account = length mine;
      max_per_account = quotas.max_environments_per_account;
      limits = effective_limits r quotas;
    },
    record s { usage = insert r.id (workspace_bytes + logs_bytes) s.usage },
  )

pub record QuotasView : Type 0 where
  pub account_id : String
  pub effective_quotas : Quotas
  pub overrides : Assoc ℕ
  pub defaults : Quotas

unfoldable pub quotas_for : Service → String → Result QuotasView
unfolding effective overrides_of
quotas_for s account_id = do
  quotas ← effective s.quotas account_id
  overrides ← overrides_of s.quotas account_id
  ok (record {
    account_id = account_id;
    effective_quotas = quotas;
    overrides = overrides;
    defaults = s.quotas.defaults;
  })

unfoldable pub set_quotas :
    Service → Caller → String → Assoc JsonValue → Result (QuotasView × Service)
unfolding quotas_for set_overrides
set_quotas s operator account_id overrides = do
  (quotas, store) ← set_overrides s.quotas account_id overrides
  let s' = note (audited "quota.set" operator.account_id account_id) (record s { quotas = store })
  view ← quotas_for s' account_id
  ok (view, s')
