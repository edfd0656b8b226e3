-- ===== src/Environments/Quotas/Tests.antt =====
-- Quotas at concrete overrides.
use environments_api.Common.{◌≡◌, refl, true, [], ◌∷◌}
use environments_api.Common.Assoc.{Assoc, lookup, insert, update}
use environments_api.Common.Result.{ok, err}
use environments_api.Common.Error.{validation_error}
use environments_api.Common.Int.{pos}
use environments_api.Environments.Quotas.{
  Quotas, JsonValue, flag, number, object, validate_overrides, with_overrides, asdict, from_values,
  set_overrides,
}
use environments_api.Environments.Quotas.Effective.{with_overrides-Overridden, Overridden, AllKnown}

abbrev pub small : Quotas
small = record {
  max_environments_per_profile = 2;
  max_environments_per_account = 3;
  max_shells_per_environment = 2;
  max_processes_per_shell = 64;
  max_memory_bytes = 1000;
  max_file_size_bytes = 500;
  max_cpu_seconds = 60;
  max_disk_bytes = 100;
  max_output_buffer_bytes = 64;
  max_command_log_bytes = 50;
  environment_idle_ttl_seconds = 20;
  shell_idle_ttl_seconds = 10;
}

abbrev more_disk : Assoc JsonValue
more_disk = ("max_disk_bytes", number (pos 200)) ∷ []

refuses_flag : validate_overrides small (("max_disk_bytes", flag true) ∷ []) ≡ err validation_error
unfolding validate_overrides asdict lookup
refuses_flag = refl

refuses_unknown : validate_overrides small (("disk", number (pos 1)) ∷ []) ≡ err validation_error
unfolding validate_overrides asdict lookup
refuses_unknown = refl

stored :
    set_overrides (record { path = λ a. a; defaults = small; files = [] }) "a" more_disk
    ≡ ok (
      record small { max_disk_bytes = 200 },
      record { path = λ a. a; defaults = small; files = ("a", object more_disk) ∷ [] },
    )
unfolding set_overrides with_overrides validate_overrides asdict from_values lookup insert update
stored = refl

with_overrides-Overridden_example :
    Overridden more_disk small (record small { max_disk_bytes = 200 }) × AllKnown small more_disk
unfolding with_overrides validate_overrides asdict from_values lookup insert update
with_overrides-Overridden_example =
    with_overrides-Overridden small more_disk (record small { max_disk_bytes = 200 }) (refl, tt)
      refl
