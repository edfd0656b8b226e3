-- ===== src/Environments/Service/Frame/Commands.antt =====
-- The frame of the calls on an open shell.
use environments_api.Common.{ℕ, String, ◌≡◌, refl, sym, ◌∙◌, List}
use environments_api.Common.Result.{Result, ok, err}
use mathlib.Core.Path.{subst}
use environments_api.Environments.Records.{EnvironmentRecord}
use environments_api.Environments.Service.{
  Caller, Service, LiveShell, owned, owned_shell, put_shell, touch,
}
use environments_api.Environments.Service.Dict.{owned_lem}
use environments_api.Environments.Service.Closing.{on_shell_change}
use environments_api.Environments.Service.Commands.{
  ShellCall, exec, exec_in, exec_found, signal_shell, signal_in, write_stdin, stdin_in, after_call,
  touch_in, may_run,
}
use environments_api.Environments.Service.Frame.{
  Only, Only-refl, Only-trans, Only-effects, Only-put_record, Placed, IsWellFormed,
}
use environments_api.Environments.Service.Frame.Shells.{Only-put_shell, find_shell-Member, Member}
use environments_api.Environments.Service.Frame.Closing.{KeepsShell, on_shell_change-Only}
use environments_api.Environments.Service.Frame.Calls.{
  Confined, Confined-refl, Only-Confined, owned-mine, owned_shell_lem,
}

module _ (id : String) (changed : LiveShell → Service → Service) where
  -- A call of a shell, put back and perhaps reported, concerns the shell's environment alone.
  after_call-Only {ℓ} :
      {A : Type ℓ} (caller : Caller) (r : EnvironmentRecord) (event : String) (s : Service)
      (sh : LiveShell) (result : Result A)
      → ((t : Service) → Only id t (changed sh t))
      → Member id s.shells sh
      → Only id s (after_call changed caller r event s (sh, result)).1
  unfolding after_call
  after_call-Only caller r event s sh (err e) h m = Only-put_shell s id sh m.0 m.1
  after_call-Only caller r event s sh (ok a) h m =
      let s1 : Service = record s { shells = put_shell sh s.shells } in
      Only-effects id s _ _ _ (Only-trans id s s1 _ (Only-put_shell s id sh m.0 m.1) (h s1))

-- The shell after the call stands where the shell stood.
called-Member :
    (f : LiveShell → LiveShell) (id : String) (ss : List LiveShell) (sh : LiveShell)
    → KeepsShell f
    → Member id ss sh
    → Member id ss (f sh)
called-Member f id ss sh keeps m =
    (keeps.environment sh ∙ m.0, subst (λ k. Placed k id ss) (sym (keeps.id sh)) m.1)

reported-Only :
    (id : String) (now : ℕ) (sh : LiveShell)
    → sh.environment_id ≡ id
    → (t : Service) → Only id t (on_shell_change now sh t)
reported-Only id now sh here t =
    subst (λ i. Only i t (on_shell_change now sh t)) here (on_shell_change-Only now sh t).0

touch_in-Only :
    (now : ℕ) (r : EnvironmentRecord) (id : String) (s : Service)
    → r.id ≡ id
    → Only id s (touch_in now r s)
touch_in-Only now r id s e =
    subst (λ i. Only i s (touch_in now r s)) e (Only-put_record s (touch now r))

module _ {A : Type 0} (call : ShellCall A) (keeps : KeepsShell (λ sh. (call sh).0)) (s : Service)
    (caller : Caller) (now : ℕ) (w : IsWellFormed s) where
  exec_found-Only :
      (id : String) (r : EnvironmentRecord) (sh : LiveShell) (may : Result (Unit {0}))
      → r.id ≡ id
      → Member id s.shells sh
      → Only id s (exec_found call s caller now (r, sh) may).1
  unfolding exec_found
  exec_found-Only id r sh (err e) same m = Only-refl id s
  exec_found-Only id r sh (ok passed) same m =
      let after = called-Member (λ u. (call u).0) id s.shells sh keeps m in
      Only-trans id s (touch_in now r s) _ (touch_in-Only now r id s same) (
        after_call-Only id (on_shell_change now) caller r "shell.exec" (touch_in now r s)
          (call sh).0 (call sh).1 (reported-Only id now (call sh).0 after.0) after)

  abbrev Found : Result (EnvironmentRecord × LiveShell) → Type 0
  Found found =
      (r : EnvironmentRecord) (sh : LiveShell)
      → found ≡ ok (r, sh)
      → (r.id ≡ sh.environment_id)
        × Member sh.environment_id s.shells sh
        × (owned s caller sh.environment_id ≡ ok r)

  found_lem : (shell_id : String) → Found (owned_shell s caller shell_id)
  found_lem shell_id r sh e =
      let (at, mine) = owned_shell_lem s caller shell_id r sh e in
      (
        (owned_lem s caller sh.environment_id r mine).1,
        find_shell-Member shell_id s.shells sh w.shells at,
        mine,
      )

  exec_in-Confined :
      (found : Result (EnvironmentRecord × LiveShell))
      → Found found
      → Confined caller s (exec_in call s caller now found).1
  unfolding exec_in
  exec_in-Confined (err e) h = Confined-refl caller s
  exec_in-Confined (ok (r, sh)) h =
      let (same, m, mine) = h r sh refl in
      let home = sh.environment_id in
      Only-Confined caller home s _ (owned-mine s caller home r mine)
        (exec_found-Only home r sh (may_run s caller r) same m)

  signal_in-Confined :
      (found : Result (EnvironmentRecord × LiveShell))
      → Found found
      → Confined caller s (signal_in call s caller found).1
  unfolding signal_in
  signal_in-Confined (err e) h = Confined-refl caller s
  signal_in-Confined (ok (r, sh)) h =
      let (same, m, mine) = h r sh refl in
      let home = sh.environment_id in
      let after = called-Member (λ u. (call u).0) home s.shells sh keeps m in
      Only-Confined caller home s _ (owned-mine s caller home r mine) (
        after_call-Only home (λ _ t. t) caller r "shell.signal" s (call sh).0 (call sh).1
          (λ t. Only-refl home t) after)

  stdin_in-Confined :
      (found : Result (EnvironmentRecord × LiveShell))
      → Found found
      → Confined caller s (stdin_in call s caller now found).1
  unfolding stdin_in
  stdin_in-Confined (err e) h = Confined-refl caller s
  stdin_in-Confined (ok (r, sh)) h =
      let (same, m, mine) = h r sh refl in
      let home = sh.environment_id in
      let after = called-Member (λ u. (call u).0) home s.shells sh keeps m in
      Only-Confined caller home s _ (owned-mine s caller home r mine) (
        Only-trans home s (touch_in now r s) _ (touch_in-Only now r home s same) (
          after_call-Only home (λ _ t. t) caller r "shell.stdin" (touch_in now r s) (call sh).0
            (call sh).1 (λ t. Only-refl home t) after))

  -- `exec`
  pub exec-Confined : (shell_id : String) → Confined caller s (exec call s caller now shell_id).1
  unfolding exec
  exec-Confined shell_id = exec_in-Confined (owned_shell s caller shell_id) (found_lem shell_id)

  -- `signal_shell`
  pub signal_shell-Confined :
      (shell_id : String) → Confined caller s (signal_shell call s caller shell_id).1
  unfolding signal_shell
  signal_shell-Confined shell_id =
      signal_in-Confined (owned_shell s caller shell_id) (found_lem shell_id)

  -- `write_stdin`
  pub write_stdin-Confined :
      (shell_id : String) → Confined caller s (write_stdin call s caller now shell_id).1
  unfolding write_stdin
  write_stdin-Confined shell_id =
      stdin_in-Confined (owned_shell s caller shell_id) (found_lem shell_id)
