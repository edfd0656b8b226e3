-- ===== src/Preferences.antt =====
-- app/preferences.py: what one person has chosen, inside the deployment's ceilings. The client of
-- settings-api is a third-party package: what it answers for a profile is an argument. Times are
-- numbers of one fixed unit, of which `second` make a second.
pub mod Narrowing
mod Tests
use environments_api.Common.{
  ℕ, ◌*◌, min, max, String, Bool, true, false, ◌||◌, Option, none, some, List, [], ◌∷◌, str_eq, leb,
  if◌then◌else◌,
}
use environments_api.Common.Assoc.{Assoc, lookup}
use environments_api.Common.Int.{ℤ, pos, negsuc}
use environments_api.Common.Error.{preferences_unavailable}
use environments_api.Common.Result.{Result, ok, err, ◌>>=◌}

-- The settings that the preferences are read inside.
pub record Deployment : Type 0 where
  pub second : ℕ
  pub environment_idle_ttl_seconds : ℕ
  pub shell_idle_ttl_seconds : ℕ
  pub max_environments_per_profile : ℕ
  pub default_profile : String
  pub sh_binary : Option String

pub record Preferences : Type 0 where
  pub environment_idle_ttl_seconds : ℕ
  pub shell_idle_ttl_seconds : ℕ
  pub max_environments_per_profile : ℕ
  pub default_profile : Option String
  pub shell_binary : Option String

-- A value of settings-api; `other` is what is neither a whole number nor a text, a Boolean too.
pub data Value : Type 0 where
  whole : ℤ → Value
  text : String → Value
  other : Value

-- A resolved namespace: its values, and the keys that must not be guessed.
pub record ResolvedSettings : Type 0 where
  pub values : Assoc Value
  pub refused : List String

-- What `client.resolve` gives or raises.
pub data Answer : Type 0 where
  unavailable rejected : Answer
  resolved : ResolvedSettings → Answer

unfoldable pub has_text : String → List String → Bool
has_text key [] = false
has_text key (k ∷ ks) = str_eq k key || has_text key ks

-- `resolved.get(key, None)`; a refused key raises when its value is asked for.
unfoldable pub get : ResolvedSettings → String → Result (Option Value)
unfolding has_text
get r key = if has_text key r.refused then err preferences_unavailable else ok (lookup key r.values)

abbrev pub whole_at_least : ℕ → Option Value → Option ℕ
whole_at_least minimum none = none
whole_at_least minimum (some (whole (pos n))) = if leb minimum n then some n else none
whole_at_least minimum (some (whole (negsuc n))) = none
whole_at_least minimum (some (text t)) = none
whole_at_least minimum (some other) = none

-- `_whole_number`
unfoldable pub whole_number : ResolvedSettings → String → ℕ → Result (Option ℕ)
unfolding get
whole_number r key minimum = do value ← get r key; ok (whole_at_least minimum value)

-- `_narrow_ttl`, with the unit in seconds.
unfoldable pub narrow_ttl : ℕ → ℕ → Option ℕ → ℕ → ℕ → ℕ → ℕ
narrow_ttl second deployment none unit_seconds minimum maximum = deployment
narrow_ttl second deployment (some n) unit_seconds minimum maximum =
    min deployment (max minimum (min n maximum) * unit_seconds * second)

-- `_narrow_count`
unfoldable pub narrow_count : ℕ → Option ℕ → ℕ → ℕ → ℕ
narrow_count deployment none minimum maximum = deployment
narrow_count deployment (some n) minimum maximum = min deployment (max minimum (min n maximum))

abbrev pub text_or : String → Option Value → String
text_or fallback none = fallback
text_or fallback (some (whole n)) = fallback
text_or fallback (some (text t)) = if str_eq t "" then fallback else t
text_or fallback (some other) = fallback

-- `_default_profile`
unfoldable pub default_profile : Deployment → ResolvedSettings → Option String
unfolding has_text
default_profile d r =
    if has_text "default_profile" r.refused
    then none
    else some (text_or d.default_profile (lookup "default_profile" r.values))

abbrev pub binary_of : Deployment → Option Value → Option String
binary_of d none = none
binary_of d (some (whole n)) = none
binary_of d (some (text t)) = if str_eq t "sh" then d.sh_binary else none
binary_of d (some other) = none

-- `_shell_binary`
unfoldable pub shell_binary : Deployment → ResolvedSettings → Result (Option String)
unfolding get
shell_binary d r = do value ← get r "default_shell"; ok (binary_of d value)

-- The bounds of the catalogue: 1 to 168 hours, 1 to 1440 minutes, 1 to 5 environments.
unfoldable pub narrowed :
    Deployment → Option String → Option ℕ → Option ℕ → Option ℕ → Option String → Preferences
unfolding narrow_ttl narrow_count
narrowed d profile hours minutes count binary = record {
  environment_idle_ttl_seconds =
      narrow_ttl d.second d.environment_idle_ttl_seconds hours 3600 1 168;
  shell_idle_ttl_seconds = narrow_ttl d.second d.shell_idle_ttl_seconds minutes 60 1 1440;
  max_environments_per_profile = narrow_count d.max_environments_per_profile count 1 5;
  default_profile = profile;
  shell_binary = binary;
}

-- `_apply`
unfoldable pub apply : Deployment → ResolvedSettings → Result Preferences
unfolding narrowed whole_number shell_binary
apply d r = do
  hours ← whole_number r "idle_environment_hours" 1
  minutes ← whole_number r "idle_shell_minutes" 1
  count ← whole_number r "max_environments_per_profile" 1
  binary ← shell_binary d r
  ok (narrowed d (default_profile d r) hours minutes count binary)

-- `deployment_preferences`
unfoldable pub deployment_preferences : Deployment → Preferences
deployment_preferences d = record {
  environment_idle_ttl_seconds = d.environment_idle_ttl_seconds;
  shell_idle_ttl_seconds = d.shell_idle_ttl_seconds;
  max_environments_per_profile = d.max_environments_per_profile;
  default_profile = some d.default_profile;
  shell_binary = none;
}

-- What an outage gives: the configuration, with the default profile unknown.
unfoldable pub in_outage : Deployment → Preferences
in_outage d = record (deployment_preferences d) { default_profile = none }

unfoldable pub applied : Deployment → Answer → Result Preferences
unfolding in_outage
applied d unavailable = ok (in_outage d)
applied d rejected = err preferences_unavailable
applied d (resolved r) = apply d r

-- What a first resolve that names no profile leads to: a second one for the person's own default.
unfoldable pub second_resolve : Deployment → (Option String → Answer) → Answer → Result Preferences
unfolding applied
second_resolve d client unavailable = applied d unavailable
second_resolve d client rejected = applied d rejected
second_resolve d client (resolved r) = elim (default_profile d r) [
  | none ↦ apply d r
  | some profile ↦ applied d (client (some profile))
]

-- `SettingsApiPreferences.for_token`: a request without a token gets the configuration.
unfoldable pub for_token :
    Deployment → (Option String → Answer) → Bool → Option String → Result Preferences
unfolding second_resolve deployment_preferences
for_token d client false profile = ok (deployment_preferences d)
for_token d client true none = second_resolve d client (client none)
for_token d client true (some profile) = applied d (client (some profile))

-- `Preferences.profile`
unfoldable pub profile_for : Preferences → Option String → Result String
profile_for p (some requested) = ok requested
profile_for p none = elim p.default_profile [
  | none ↦ err preferences_unavailable
  | some profile ↦ ok profile
]
