-- ===== src/Environments/Service/Writes.antt =====
-- The disk quota of file mutations, and the activity they count as (app/environments/service.py).
pub mod Reserved
use environments_api.Common.{ℕ, ◌+◌, ◌-◌, String, not, ◌&&◌, Option, none, some, ltb}
use environments_api.Common.Assoc.{Assoc, lookup, insert, remove}
use environments_api.Common.Int.{ℤ, pos, negsuc, max_ℤ, pos_part}
use environments_api.Common.Error.{Error, quota_exceeded, environment_archived}
use environments_api.Common.Result.{Result, ok, err, ◌>>=◌, ◌>>◌, guard}
use environments_api.Environments.Records.{EnvironmentRecord, is_active}
use environments_api.Environments.Quotas.{Quotas, effective}
use environments_api.Environments.Service.{
  Caller, Service, audited, put_record, note, owned, touch, used_bytes,
}

-- `workspace_for`: the record whose workspace it is.
unfoldable pub workspace_for : Service → Caller → String → Result EnvironmentRecord
workspace_for s caller id = do
  r ← owned s caller id
  guard (is_active r.state) environment_archived
  ok r

-- `max(growth, 0)`
abbrev pub reserved_of : ℤ → ℕ
reserved_of growth = pos_part growth

-- The entry of `admit_write`: the bytes are counted, or nothing changes.
unfoldable pub admit_enter : Service → Caller → String → ℤ → Result Service
admit_enter s caller id growth = do
  r ← owned s caller id
  quotas ← effective s.quotas caller.account_id
  let reserved = reserved_of growth
  let used = used_bytes s r.id
  guard (not (ltb 0 reserved && ltb quotas.max_disk_bytes (used + reserved)))
      (quota_exceeded "max_disk_bytes" (used + reserved) quotas.max_disk_bytes)
  ok (record s { usage = insert r.id (used + reserved) s.usage })

unfoldable pub give_back : String → ℕ → Option ℕ → Service → Service
give_back id reserved none s = s
give_back id reserved (some used_now) s = record s {
  usage = insert id (used_now - reserved) s.usage;
}

-- The `except` branch: the bytes go back, unless the environment's entry is gone.
unfoldable pub admit_fail : String → ℤ → Service → Service
unfolding give_back
admit_fail id growth s = give_back id (reserved_of growth) (lookup id s.usage) s

unfoldable pub after_body {ℓ} : {A : Type ℓ} → String → ℤ → Result A × Service → Result A × Service
after_body id growth (ok a, s) = (ok a, s)
after_body id growth (err e, s) = (err e, admit_fail id growth s)

unfoldable pub admitted {ℓ} :
    {A : Type ℓ}
    → Service
    → String
    → ℤ
    → (Service → Result A × Service)
    → Result Service
    → Result A × Service
admitted s id growth body (err e) = (err e, s)
admitted s id growth body (ok s') = after_body id growth (body s')

-- `with service.admit_write(caller, id, growth): body`
unfoldable pub admit_write {ℓ} :
    {A : Type ℓ}
    → Service
    → Caller
    → String
    → ℤ
    → (Service → Result A × Service)
    → Result A × Service
unfolding after_body admitted
admit_write s caller id growth body = admitted s id growth body (admit_enter s caller id growth)

abbrev pub touched : ℕ → EnvironmentRecord → Service → Service
touched now r s = record s { records = put_record (touch now r) s.records }

-- `note_file_action`; `note_write` is this with the action "file.write". Neither saves the record.
unfoldable pub note_file_action :
    Service → Caller → ℕ → String → String → Result (Unit {0} × Service)
note_file_action s caller now id action = do
  r ← owned s caller id
  ok (tt, note (audited action caller.account_id id) (touched now r s))
