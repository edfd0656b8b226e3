-- ===== src/Preferences/Narrowing.antt =====
-- What a person's settings can do (app/preferences.py): narrow a ceiling, and never raise it.
use environments_api.Common.{
  ℕ, ◌*◌, ◌≤◌, min, max, String, ◌≡◌, refl, ◌⊎◌, inl, inr, Bool, true, false, Option, none, some,
  arith, str_eq, Bool-cases, Option-cases,
}
use mathlib.Core.Path.{subst}
use native.Mathlib.Nat.{mul-le-mul_right}
use environments_api.Common.Result.{ok, bind-eq-ok, ok-injective}
use environments_api.Preferences.{
  Deployment, Preferences, ResolvedSettings, Answer, unavailable, rejected, resolved, whole_number,
  narrow_ttl, narrow_count, default_profile, shell_binary, binary_of, get, narrowed, apply,
  deployment_preferences, in_outage, applied, second_resolve, for_token, Value, whole, text, other,
}

-- Inside the ceilings, and not below the catalogue's least value where the ceiling allows that; a
-- shell is the deployment's own or its `sh_binary`.
abbrev pub IsNarrowed : Deployment → Preferences → Type 0
IsNarrowed d p =
    (p.environment_idle_ttl_seconds ≤ d.environment_idle_ttl_seconds)
    × (min d.environment_idle_ttl_seconds (3600 * d.second) ≤ p.environment_idle_ttl_seconds)
    × (p.shell_idle_ttl_seconds ≤ d.shell_idle_ttl_seconds)
    × (min d.shell_idle_ttl_seconds (60 * d.second) ≤ p.shell_idle_ttl_seconds)
    × (p.max_environments_per_profile ≤ d.max_environments_per_profile)
    × (min d.max_environments_per_profile 1 ≤ p.max_environments_per_profile)
    × ((p.shell_binary ≡ none) ⊎ (p.shell_binary ≡ d.sh_binary))

least : (second unit k : ℕ) → 1 ≤ k → unit * second ≤ k * unit * second
least second unit k h =
    let a : unit ≤ k * unit = omega (arith, mul-le-mul_right {m = 1} {n = k} unit h) in
    mul-le-mul_right second a

narrow_ttl_lem :
    (second deployment unit maximum : ℕ) (chosen : Option ℕ)
    → let t = narrow_ttl second deployment chosen unit 1 maximum in
      (t ≤ deployment) × (min deployment (unit * second) ≤ t)
unfolding narrow_ttl
narrow_ttl_lem second deployment unit maximum none = (omega arith, omega arith)
narrow_ttl_lem second deployment unit maximum (some n) =
    let k = least second unit (max 1 (min n maximum)) (omega arith) in
    (omega arith, omega (arith, k))

narrow_count_lem :
    (deployment maximum : ℕ) (chosen : Option ℕ)
    → let t = narrow_count deployment chosen 1 maximum in (t ≤ deployment) × (min deployment 1 ≤ t)
unfolding narrow_count
narrow_count_lem deployment maximum none = (omega arith, omega arith)
narrow_count_lem deployment maximum (some n) = (omega arith, omega arith)

binary_of_lem :
    (d : Deployment) (v : Option Value) → (binary_of d v ≡ none) ⊎ (binary_of d v ≡ d.sh_binary)
binary_of_lem d none = inl refl
binary_of_lem d (some (whole n)) = inl refl
binary_of_lem d (some (text t)) = elim (Bool-cases (str_eq t "sh")) [
  | inl e ↦ inr (rw e refl)
  | inr e ↦ inl (rw e refl)
]
binary_of_lem d (some other) = inl refl

narrowed-IsNarrowed :
    (d : Deployment) (profile : Option String) (hours minutes count : Option ℕ) (v : Option Value)
    → IsNarrowed d (narrowed d profile hours minutes count (binary_of d v))
unfolding narrowed
narrowed-IsNarrowed d profile hours minutes count v =
    let e = narrow_ttl_lem d.second d.environment_idle_ttl_seconds 3600 168 hours in
    let s = narrow_ttl_lem d.second d.shell_idle_ttl_seconds 60 1440 minutes in
    let c = narrow_count_lem d.max_environments_per_profile 5 count in
    (e.0, e.1, s.0, s.1, c.0, c.1, binary_of_lem d v)

apply-IsNarrowed :
    (d : Deployment) (r : ResolvedSettings) (p : Preferences) → apply d r ≡ ok p → IsNarrowed d p
unfolding apply shell_binary
apply-IsNarrowed d r p h =
    let (hours, e1, h1) = bind-eq-ok (whole_number r "idle_environment_hours" 1) _ h in
    let (minutes, e2, h2) = bind-eq-ok (whole_number r "idle_shell_minutes" 1) _ h1 in
    let (count, e3, h3) = bind-eq-ok (whole_number r "max_environments_per_profile" 1) _ h2 in
    let (binary, e4, h4) = bind-eq-ok (shell_binary d r) _ h3 in
    let (v, e5, h5) = bind-eq-ok (get r "default_shell") _ e4 in
    let same = ok-injective h4 in
    let b = ok-injective h5 in
    subst (IsNarrowed d) same (
      subst (λ x. IsNarrowed d (narrowed d (default_profile d r) hours minutes count x)) b
        (narrowed-IsNarrowed d (default_profile d r) hours minutes count v))

deployment_preferences-IsNarrowed : (d : Deployment) → IsNarrowed d (deployment_preferences d)
unfolding deployment_preferences
deployment_preferences-IsNarrowed d =
    (omega arith, omega arith, omega arith, omega arith, omega arith, omega arith, inl refl)

applied-IsNarrowed :
    (d : Deployment) (a : Answer) (p : Preferences) → applied d a ≡ ok p → IsNarrowed d p
unfolding applied in_outage
applied-IsNarrowed d unavailable p h =
    subst (IsNarrowed d) (ok-injective h) (deployment_preferences-IsNarrowed d)
applied-IsNarrowed d rejected p h = absurd cc
applied-IsNarrowed d (resolved r) p h = apply-IsNarrowed d r p h

second_resolve-IsNarrowed :
    (d : Deployment) (client : Option String → Answer) (a : Answer) (p : Preferences)
    → second_resolve d client a ≡ ok p
    → IsNarrowed d p
unfolding second_resolve
second_resolve-IsNarrowed d client unavailable p h = applied-IsNarrowed d unavailable p h
second_resolve-IsNarrowed d client rejected p h = applied-IsNarrowed d rejected p h
second_resolve-IsNarrowed d client (resolved r) p h = elim (Option-cases (default_profile d r)) [
  | inl e ↦ apply-IsNarrowed d r p (rw (e, second_resolve) at h)
  | inr (profile, e) ↦ applied-IsNarrowed d (client (some profile)) p (rw (e, second_resolve) at h)
]

-- Whatever settings-api answers, and whether it answers at all, the preferences that a request gets
-- raise none of the deployment's ceilings: both idle lifetimes and the profile's cap are at most the
-- deployment's, and at least an hour, a minute and one where the deployment's allows that; and the
-- shell is the deployment's own or its configured `sh_binary`.
pub for_token-IsNarrowed :
    (d : Deployment) (client : Option String → Answer) (token : Bool) (profile : Option String)
    (p : Preferences)
    → for_token d client token profile ≡ ok p
    → IsNarrowed d p
unfolding for_token
for_token-IsNarrowed d client false profile p h =
    subst (IsNarrowed d) (ok-injective h) (deployment_preferences-IsNarrowed d)
for_token-IsNarrowed d client true none p h = second_resolve-IsNarrowed d client (client none) p h
for_token-IsNarrowed d client true (some profile) p h =
    applied-IsNarrowed d (client (some profile)) p h
