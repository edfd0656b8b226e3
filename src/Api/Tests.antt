-- ===== src/Api/Tests.antt =====
-- Requests at the API, and the theorem at one of them.
use environments_api.Common.{◌≡◌, refl, none, some, [], ◌∷◌}
use environments_api.Common.Result.{ok}
use environments_api.Environments.Quotas.{effective, asdict, from_values, validate_overrides}
use environments_api.Common.Assoc.{lookup, update}
use environments_api.Environments.Service.{Service}
use environments_api.Environments.Service.Samples.{alice, service, quotas}
use environments_api.Files.Action.{World}
use environments_api.Files.Mutations.{Host}
use environments_api.Api.Files.{WriteFileRequest, write_file}
use environments_api.Api.Files.Quota.{Charged, Adds, write_file-Charged}

abbrev plain_host : Host
plain_host = record {
  sha256_hex = λ b. b;
  b64decode = λ text. some text;
  b64encode = λ b. b;
  unified_diff = λ path old new. new;
  relative_path = λ requested. ok (requested ∷ []);
  temporary = b'.' ∷ b't' ∷ [];
  between = λ t. t;
  elsewhere = λ t. t;
  at_last = λ t. t;
  written = ok tt;
  replaced = ok tt;
  directory_size = 4096;
  max_read = 4;
  max_write = 100;
}

abbrev note_request : WriteFileRequest
note_request = record {
  path = b'n' ∷ [];
  content = b'a' ∷ b'b' ∷ b'c' ∷ [];
  encoding = "utf-8";
  mode = "overwrite";
}

abbrev world : World Service
world = record { tree = []; service = service }

alice_quotas : effective service.quotas alice.account_id ≡ ok quotas
unfolding effective asdict from_values lookup update validate_overrides
alice_quotas = refl

write_file-Charged_example :
    Charged
      (Adds plain_host note_request [])
      "env_a"
      100
      service
      (write_file plain_host alice 9 "env_a" note_request none world)
write_file-Charged_example =
    write_file-Charged plain_host alice 9 "env_a" note_request none world quotas alice_quotas
