-- ===== src/Environments/Quotas/Effective.antt =====
-- What the overrides of an account come to (app/environments/quotas.py).
use environments_api.Common.{
  ℕ, zero, suc, String, ◌≡◌, refl, ◌∙◌, ap, inl, inr, Bool, true, false, Option, none, some, [],
  ◌∷◌, arith, str_eq, Bool-cases, eq_iff, if◌then◌else◌,
}
use mathlib.Core.Path.{subst}
use environments_api.Common.Assoc.{
  Assoc, lookup, insert, update, IsDict, insert-IsDict, lookup-update, lookup-insert, or_option,
  is_none,
}
use environments_api.Common.Result.{bind-eq-ok, ok-injective, ok, err}
use environments_api.Common.Error.{validation_error}
use environments_api.Environments.Quotas.{
  Quotas, JsonValue, asdict, from_values, value_or, validate_from, validate_overrides,
  with_overrides, flag, number, other, positive, negsuc, pos,
}

-- What a request's value for a limit, if any, makes of the old value: an override is a number of at
-- least one, and it is the new value; without one the old value stays.
abbrev pub Takes : Option JsonValue → ℕ → ℕ → Type 0
Takes none old new = new ≡ old
Takes (some v) old new = (n : ℕ) × (v ≡ number (pos (suc n))) × (new ≡ suc n)

-- The same of the dict that the checks build, whose entry was `old`.
abbrev Kept : Option JsonValue → Option ℕ → Option ℕ → Type 0
Kept none old new = new ≡ old
Kept (some v) old new = (n : ℕ) × (v ≡ number (pos (suc n))) × (new ≡ some (suc n))

is_none-none : {A : Type 0} (o : Option A) → is_none o ≡ true → o ≡ none
is_none-none none h = refl
is_none-none (some a) h = absurd cc

module _ (q : Quotas) where
  abbrev pub AllKnown : Assoc JsonValue → Type 0
  AllKnown ov =
      (k : String) (v : JsonValue) → lookup k ov ≡ some v → is_none (lookup k (asdict q)) ≡ false

  -- One more accepted override, of a name that the rest does not have.
  next-Kept :
      (k name : String) (n : ℕ) (clean : Assoc ℕ) (ov : Assoc JsonValue) (new : Option ℕ)
      → is_none (lookup name ov) ≡ true
      → Kept (lookup k ov) (lookup k (insert name (suc n) clean)) new
      → Kept (lookup k ((name, number (pos (suc n))) ∷ ov)) (lookup k clean) new
  unfolding lookup
  next-Kept k name n clean ov new fresh h = elim (Bool-cases (str_eq name k)) [
    | inl e ↦
        let same : name ≡ k = (eq_iff name k).0 e in
        let gone : lookup k ov ≡ none =
          is_none-none (lookup k ov) (subst (λ j. is_none (lookup j ov) ≡ true) same fresh) in
        let kept : new ≡ lookup k (insert name (suc n) clean) =
          subst (λ o. Kept o (lookup k (insert name (suc n) clean)) new) gone h in
        rw e (
          n,
          refl,
          kept
              ∙ (lookup-insert name k (suc n) clean
                  ∙ ap (λ b. if b then some (suc n) else lookup k clean) e),
        )
    | inr e ↦
        let old : lookup k (insert name (suc n) clean) ≡ lookup k clean =
          lookup-insert name k (suc n) clean
          ∙ ap (λ b. if b then some (suc n) else lookup k clean) e in
        rw e (subst (λ o. Kept (lookup k ov) o new) old h)
  ]

  validate_from-Kept :
      (clean : Assoc ℕ) (ov : Assoc JsonValue) (r : Assoc ℕ)
      → IsDict ov
      → validate_from q clean ov ≡ ok r
      → (k : String) → Kept (lookup k ov) (lookup k clean) (lookup k r)
  unfolding validate_from lookup
  validate_from-Kept clean [] r d e k = let same : clean ≡ r = ground (arith, e) in rw (← same) refl
  validate_from-Kept clean ((name, flag b) ∷ ov) r d e k = absurd (ground (arith, e))
  validate_from-Kept clean ((name, other) ∷ ov) r d e k = absurd (ground (arith, e))
  validate_from-Kept clean ((name, number (negsuc n)) ∷ ov) r d e k = absurd (ground (arith, e))
  validate_from-Kept clean ((name, number (pos zero)) ∷ ov) r d e k = absurd (ground (arith, e))
  validate_from-Kept clean ((name, number (pos (suc n))) ∷ ov) r d e k =
      next-Kept k name n clean ov (lookup k r) d.0
        (validate_from-Kept (insert name (suc n) clean) ov r d.1 (ground (arith, e)) k)

  validate_from-IsDict :
      (clean : Assoc ℕ) (ov : Assoc JsonValue) (r : Assoc ℕ)
      → IsDict clean
      → validate_from q clean ov ≡ ok r
      → IsDict r
  unfolding validate_from
  validate_from-IsDict clean [] r h e = let same : clean ≡ r = ground (arith, e) in rw (← same) h
  validate_from-IsDict clean ((name, flag b) ∷ ov) r h e = ground (arith, e)
  validate_from-IsDict clean ((name, other) ∷ ov) r h e = ground (arith, e)
  validate_from-IsDict clean ((name, number (negsuc n)) ∷ ov) r h e = ground (arith, e)
  validate_from-IsDict clean ((name, number (pos zero)) ∷ ov) r h e = ground (arith, e)
  validate_from-IsDict clean ((name, number (pos (suc n))) ∷ ov) r h e =
      validate_from-IsDict (insert name (suc n) clean) ov r (insert-IsDict name (suc n) clean h)
        (ground (arith, e))

  accepted :
      (name : String) (v : JsonValue) (clean : Assoc ℕ) (ov : Assoc JsonValue) (r : Assoc ℕ)
      → validate_from q clean ((name, v) ∷ ov) ≡ ok r
      → (is_none (lookup name (asdict q)) ≡ false) × (c : Assoc ℕ) × (validate_from q c ov ≡ ok r)
  unfolding validate_from
  accepted name v clean ov r e = by_name (lookup name (asdict q)) refl (positive v) e
    where
      tested : Option ℕ → Bool
      tested o = elim o [ none ↦ false | some x ↦ true ]

      by_name :
          (o : Option ℕ)
          → lookup name (asdict q) ≡ o
          → (m : Option ℕ)
          → (if tested o
              then (elim m [
                | none ↦ err validation_error
                | some n ↦ validate_from q (insert name n clean) ov
              ])
              else err validation_error)
            ≡ ok r
          → (is_none (lookup name (asdict q)) ≡ false)
            × (c : Assoc ℕ) × (validate_from q c ov ≡ ok r)
      by_name none f m x = absurd cc
      by_name (some w) f none x = absurd cc
      by_name (some w) f (some n) x = (ap is_none f, insert name n clean, x)

  validate_from-AllKnown :
      (clean : Assoc ℕ) (ov : Assoc JsonValue) (r : Assoc ℕ)
      → validate_from q clean ov ≡ ok r
      → AllKnown ov
  unfolding lookup
  validate_from-AllKnown clean [] r e k v h = absurd cc
  validate_from-AllKnown clean ((name, w) ∷ ov) r e k v h =
      let (known, c, rest) = accepted name w clean ov r e in
      elim (Bool-cases (str_eq name k)) [
        | inl same ↦
            subst (λ j. is_none (lookup j (asdict q)) ≡ false) ((eq_iff name k).0 same) known
        | inr differ ↦
            validate_from-AllKnown c ov r rest k v
              (subst (λ b. (if b then some w else lookup k ov) ≡ some v) differ h)
      ]

module _ (q : Quotas) (ov : Assoc JsonValue) (clean : Assoc ℕ) (dict : IsDict clean)
    (kept : (k : String) → Kept (lookup k ov) none (lookup k clean)) where
  merged :
      (k : String) (f : ℕ)
      → lookup k (asdict q) ≡ some f
      → Takes (lookup k ov) f (value_or (lookup k (update (asdict q) clean)) f)
  merged k f e =
      rw (lookup-update k (asdict q) clean dict, e)
        (by_override (lookup k ov) (lookup k clean) (kept k))
    where
      by_override :
          (a : Option JsonValue) (o : Option ℕ)
          → Kept a none o
          → Takes a f (value_or (or_option o (some f)) f)
      by_override none o h = rw h refl
      by_override (some v) o h = (h.0, h.1, rw h.2 refl)

-- Each limit is the override of its name where the request has one, and the old value where not.
pub record Overridden (ov : Assoc JsonValue) (q r : Quotas) : Type 0 where
  pub max_environments_per_profile :
      Takes
        (lookup "max_environments_per_profile" ov)
        q.max_environments_per_profile
        r.max_environments_per_profile
  pub max_environments_per_account :
      Takes
        (lookup "max_environments_per_account" ov)
        q.max_environments_per_account
        r.max_environments_per_account
  pub max_shells_per_environment :
      Takes
        (lookup "max_shells_per_environment" ov)
        q.max_shells_per_environment
        r.max_shells_per_environment
  pub max_processes_per_shell :
      Takes
        (lookup "max_processes_per_shell" ov)
        q.max_processes_per_shell
        r.max_processes_per_shell
  pub max_memory_bytes : Takes (lookup "max_memory_bytes" ov) q.max_memory_bytes r.max_memory_bytes
  pub max_file_size_bytes :
      Takes (lookup "max_file_size_bytes" ov) q.max_file_size_bytes r.max_file_size_bytes
  pub max_cpu_seconds : Takes (lookup "max_cpu_seconds" ov) q.max_cpu_seconds r.max_cpu_seconds
  pub max_disk_bytes : Takes (lookup "max_disk_bytes" ov) q.max_disk_bytes r.max_disk_bytes
  pub max_output_buffer_bytes :
      Takes
        (lookup "max_output_buffer_bytes" ov)
        q.max_output_buffer_bytes
        r.max_output_buffer_bytes
  pub max_command_log_bytes :
      Takes (lookup "max_command_log_bytes" ov) q.max_command_log_bytes r.max_command_log_bytes
  pub environment_idle_ttl_seconds :
      Takes
        (lookup "environment_idle_ttl_seconds" ov)
        q.environment_idle_ttl_seconds
        r.environment_idle_ttl_seconds
  pub shell_idle_ttl_seconds :
      Takes (lookup "shell_idle_ttl_seconds" ov) q.shell_idle_ttl_seconds r.shell_idle_ttl_seconds

from_values-Overridden :
    (q : Quotas) (ov : Assoc JsonValue) (clean : Assoc ℕ)
    → IsDict clean
    → ((k : String) → Kept (lookup k ov) none (lookup k clean))
    → Overridden ov q (from_values q (update (asdict q) clean))
unfolding from_values asdict lookup
from_values-Overridden q ov clean dict kept = record {
  max_environments_per_profile =
      merged q ov clean dict kept "max_environments_per_profile" q.max_environments_per_profile
        refl;
  max_environments_per_account =
      merged q ov clean dict kept "max_environments_per_account" q.max_environments_per_account
        refl;
  max_shells_per_environment =
      merged q ov clean dict kept "max_shells_per_environment" q.max_shells_per_environment refl;
  max_processes_per_shell =
      merged q ov clean dict kept "max_processes_per_shell" q.max_processes_per_shell refl;
  max_memory_bytes = merged q ov clean dict kept "max_memory_bytes" q.max_memory_bytes refl;
  max_file_size_bytes =
      merged q ov clean dict kept "max_file_size_bytes" q.max_file_size_bytes refl;
  max_cpu_seconds = merged q ov clean dict kept "max_cpu_seconds" q.max_cpu_seconds refl;
  max_disk_bytes = merged q ov clean dict kept "max_disk_bytes" q.max_disk_bytes refl;
  max_output_buffer_bytes =
      merged q ov clean dict kept "max_output_buffer_bytes" q.max_output_buffer_bytes refl;
  max_command_log_bytes =
      merged q ov clean dict kept "max_command_log_bytes" q.max_command_log_bytes refl;
  environment_idle_ttl_seconds =
      merged q ov clean dict kept "environment_idle_ttl_seconds" q.environment_idle_ttl_seconds
        refl;
  shell_idle_ttl_seconds =
      merged q ov clean dict kept "shell_idle_ttl_seconds" q.shell_idle_ttl_seconds refl;
}

-- A request is a dict: it names no limit twice. Where its overrides are accepted, every name in it is
-- that of a limit; each limit is then the override of its name where the request has one, which was a
-- number and is positive, and the value from before where it has none. Values count in whole units;
-- NaN, which the checks let through, is no value here.
pub with_overrides-Overridden :
    (q : Quotas) (ov : Assoc JsonValue) (r : Quotas)
    → IsDict ov
    → with_overrides q ov ≡ ok r
    → Overridden ov q r × AllKnown q ov
unfolding with_overrides validate_overrides lookup
with_overrides-Overridden q ov r dict e =
    let (clean, ran, made) =
      bind-eq-ok (validate_overrides q ov) (λ c. ok (from_values q (update (asdict q) c))) e in
    (
      subst (Overridden ov q) (ok-injective made) (
          from_values-Overridden q ov clean (validate_from-IsDict q [] ov clean tt ran)
            (validate_from-Kept q [] ov clean dict ran)),
      validate_from-AllKnown q [] ov clean ran,
    )
