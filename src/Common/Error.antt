-- ===== src/Common/Error.antt =====
-- app/errors.py: the errors that the modelled code raises, each with its class's status and code.
use Prim.Native.Nat.{ℕ}
use Prim.Native.String.{String}

-- `internal_error` is an exception that is none of these classes, which the framework answers with
-- 500. `quota_exceeded` carries the limit's name, the current value and the maximum.
pub data Error : Type 0 where
  unauthorized forbidden not_found conflict : Error
  shell_busy shell_not_running environment_archived : Error
  quota_exceeded : String → ℕ → ℕ → Error
  validation_error file_changed path_outside_workspace network_disabled : Error
  keyring_unavailable preferences_unavailable sandbox_error internal_error : Error

unfoldable pub status : Error → ℕ
status unauthorized = 401
status forbidden = 403
status not_found = 404
status conflict = 409
status shell_busy = 409
status shell_not_running = 409
status environment_archived = 409
status (quota_exceeded limit current maximum) = 409
status validation_error = 422
status file_changed = 412
status path_outside_workspace = 400
status network_disabled = 409
status keyring_unavailable = 503
status preferences_unavailable = 503
status sandbox_error = 500
status internal_error = 500
