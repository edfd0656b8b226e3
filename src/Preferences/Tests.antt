-- ===== src/Preferences/Tests.antt =====
-- Tests of app/preferences.py.
use environments_api.Common.{String, ◌≡◌, refl, true, Option, none, some, [], ◌∷◌}
use environments_api.Common.Assoc.{lookup}
use environments_api.Common.Int.{pos}
use environments_api.Common.Result.{ok}
use environments_api.Preferences.{
  Deployment, Preferences, Answer, resolved, whole, text, other, for_token, has_text, get, apply,
  default_profile,
}
use environments_api.Preferences.Narrowing.{IsNarrowed, for_token-IsNarrowed}

abbrev deployment : Deployment
deployment = record {
  second = 1;
  environment_idle_ttl_seconds = 7200;
  shell_idle_ttl_seconds = 1800;
  max_environments_per_profile = 3;
  default_profile = "personal";
  sh_binary = some "/bin/sh";
}

-- One hour, a number of minutes that is no number, more environments than there may be, and `sh`.
abbrev client : Option String → Answer
client profile = resolved (record {
  values =
      ("idle_environment_hours", whole (pos 1))
      ∷ ("idle_shell_minutes", other)
      ∷ ("max_environments_per_profile", whole (pos 9))
      ∷ ("default_shell", text "sh")
      ∷ [];
  refused = [];
})

abbrev chosen : Preferences
chosen = record {
  environment_idle_ttl_seconds = 3600;
  shell_idle_ttl_seconds = 1800;
  max_environments_per_profile = 3;
  default_profile = some "personal";
  shell_binary = some "/bin/sh";
}

for_token_runs : for_token deployment client true none ≡ ok chosen
unfolding for_token apply get has_text lookup default_profile
for_token_runs = refl

for_token-IsNarrowed_example : IsNarrowed deployment chosen
for_token-IsNarrowed_example =
    for_token-IsNarrowed deployment client true none chosen for_token_runs
