-- ===== src/Environments/Service/Frame/Closing.antt =====
-- The frame of `_on_shell_change` and of closing and forgetting shells.
use environments_api.Common.{
  ℕ, String, ◌≡◌, refl, sym, ◌∙◌, inl, inr, not, ◌&&◌, Option, none, some, List, [], ◌∷◌,
  Bool-cases,
}
use environments_api.Common.{All, All-map}
use mathlib.Core.Path.{subst}
use environments_api.Environments.Records.{is_running, CommandState, ShellRecord, EnvironmentRecord}
use environments_api.Environments.Service.{Service, LiveShell, find_record, remove_shell, put_shell}
use environments_api.Environments.Service.Dict.{find_record-id}
use environments_api.Environments.Service.Closing.{
  persist_commands, store_state, set_stored, change_stored, change_in, on_shell_change, find_stored,
  close_shell_object, close_each, is_done, has_string, same_state, same_reason,
}
use environments_api.Environments.Service.Lifecycle.{pop_each}
use environments_api.Environments.Service.Frame.{
  Only, Only-refl, Only-trans, Only-effects, Only-save, Placed,
}
use environments_api.Environments.Service.Frame.Shells.{
  Only-put_shell, Only-remove_shell, put_shell-Placed, remove_shell-Placed, Member,
}

persist_commands-Only :
    (id env : String) (cs : List (String × CommandState)) (s : Service)
    → Only id s (persist_commands env cs s)
unfolding persist_commands
persist_commands-Only id env [] s = Only-refl id s
persist_commands-Only id env ((c, st) ∷ cs) s =
    elim (Bool-cases (is_done st && not (has_string c s.persisted_commands))) [
      | inl e ↦ rw e (
          Only-trans id s _ _ (Only-effects id s s _ _ (Only-refl id s))
            (persist_commands-Only id env cs _))
      | inr e ↦ rw e (persist_commands-Only id env cs s)
    ]

shells-persist_commands :
    (env : String) (cs : List (String × CommandState)) (s : Service)
    → (persist_commands env cs s).shells ≡ s.shells
unfolding persist_commands
shells-persist_commands env [] s = refl
shells-persist_commands env ((c, st) ∷ cs) s =
    elim (Bool-cases (is_done st && not (has_string c s.persisted_commands))) [
      | inl e ↦ rw (e, persist_commands) (shells-persist_commands env cs _)
      | inr e ↦ rw (e, persist_commands) (shells-persist_commands env cs s)
    ]

store_state-Only :
    (now : ℕ) (sh : LiveShell) (r : EnvironmentRecord) (stored : ShellRecord) (s : Service)
    → Only r.id s (store_state now sh r stored s)
      × ((store_state now sh r stored s).shells ≡ s.shells)
unfolding store_state
store_state-Only now sh r stored s =
    elim (Bool-cases
      (same_state stored.state sh.state && same_reason stored.dead_reason sh.dead_reason)) [
        | inl e ↦ rw e (Only-refl r.id s, refl)
        | inr e ↦
            rw e
              (Only-save s (record r { shells = set_stored sh r.shells; updated_at = now }), refl)
      ]

change_stored-Only :
    (now : ℕ) (sh : LiveShell) (r : EnvironmentRecord) (o : Option ShellRecord) (s : Service)
    → Only r.id s (change_stored now sh r o s) × ((change_stored now sh r o s).shells ≡ s.shells)
unfolding change_stored
change_stored-Only now sh r none s = (Only-refl r.id s, refl)
change_stored-Only now sh r (some stored) s =
    let first = store_state-Only now sh r stored s in
    (
      Only-trans r.id s _ _ first.0 (persist_commands-Only r.id r.id sh.commands _),
      shells-persist_commands r.id sh.commands _ ∙ first.1,
    )

change_in-Only :
    (id : String) (now : ℕ) (sh : LiveShell) (o : Option EnvironmentRecord) (s : Service)
    → ((r : EnvironmentRecord) → o ≡ some r → r.id ≡ id)
    → Only id s (change_in now sh o s) × ((change_in now sh o s).shells ≡ s.shells)
unfolding change_in
change_in-Only id now sh none s h = (Only-refl id s, refl)
change_in-Only id now sh (some r) s h =
    let changed = change_stored-Only now sh r (find_stored sh.id r.shells) s in
    (
      subst (λ i. Only i s (change_stored now sh r (find_stored sh.id r.shells) s)) (h r refl)
          changed.0,
      changed.1,
    )

-- A change of a shell concerns its environment alone, and no shell.
pub on_shell_change-Only :
    (now : ℕ) (sh : LiveShell) (s : Service)
    → Only sh.environment_id s (on_shell_change now sh s)
      × ((on_shell_change now sh s).shells ≡ s.shells)
unfolding on_shell_change
on_shell_change-Only now sh s =
    change_in-Only sh.environment_id now sh (find_record sh.environment_id s.records) s
      (λ r e. find_record-id sh.environment_id s.records r e)

-- What a shell's process leaves behind keeps the shell's id and environment.
pub record KeepsShell (f : LiveShell → LiveShell) : Type 0 where
  pub id : (sh : LiveShell) → (f sh).id ≡ sh.id
  pub environment : (sh : LiveShell) → (f sh).environment_id ≡ sh.environment_id

-- A changed shell put back and reported: the frame is its environment, and whatever was placed
-- there stays placed.
pub put_changed-Only :
    (id : String) (now : ℕ) (sh : LiveShell) (s : Service)
    → sh.environment_id ≡ id
    → Placed sh.id id s.shells
    → let t = on_shell_change now sh (record s { shells = put_shell sh s.shells }) in
      Only id s t × ((key : String) → Placed key id s.shells → Placed key id t.shells)
put_changed-Only id now sh s here placed =
    let s1 : Service = record s { shells = put_shell sh s.shells } in
    let changed = on_shell_change-Only now sh s1 in
    (
      Only-trans id s s1 _ (Only-put_shell s id sh here placed)
          (subst (λ i. Only i s1 (on_shell_change now sh s1)) here changed.0),
      λ key h.
          subst (λ ss. Placed key id ss) (sym changed.1)
            (put_shell-Placed key id sh s.shells here h),
    )

module _ (ended : LiveShell → LiveShell) (keeps : KeepsShell ended) where
  ended-Placed :
      (id : String) (sh : LiveShell) (ss : List LiveShell)
      → Placed sh.id id ss
      → Placed (ended sh).id id ss
  ended-Placed id sh ss h = subst (λ k. Placed k id ss) (sym (keeps.id sh)) h

  pub close_shell_object-Only :
      (id : String) (now : ℕ) (sh : LiveShell) (s : Service)
      → Member id s.shells sh
      → Only id s (close_shell_object ended now sh s)
        × ((key : String)
            → Placed key id s.shells
            → Placed key id (close_shell_object ended now sh s).shells)
  unfolding close_shell_object
  close_shell_object-Only id now sh s m = elim (Bool-cases (is_running sh.state)) [
    | inl e ↦ rw e (
        put_changed-Only id now (ended sh) s (keeps.environment sh ∙ m.0)
          (ended-Placed id sh s.shells m.1))
    | inr e ↦ rw e (Only-refl id s, λ key h. h)
  ]

  pub close_each-Only :
      (id : String) (now : ℕ) (shs : List LiveShell) (s : Service)
      → All (Member id s.shells) shs
      → Only id s (close_each ended now shs s)
        × ((key : String)
            → Placed key id s.shells
            → Placed key id (close_each ended now shs s).shells)
  unfolding close_each
  close_each-Only id now [] s m = (Only-refl id s, λ key h. h)
  close_each-Only id now (sh ∷ shs) s m =
      let s1 = close_shell_object ended now sh s in
      let first = close_shell_object-Only id now sh s m.0 in
      let rest = close_each-Only id now shs s1 (
        All-map (Member id s.shells) (Member id s1.shells) shs (λ u h. (h.0, first.1 u.id h.1))
          m.1) in
      (Only-trans id s s1 _ first.0 rest.0, λ key h. rest.1 key (first.1 key h))

pub pop_each-Only :
    (id : String) (shs : List LiveShell) (s : Service)
    → All (λ sh. Placed sh.id id s.shells) shs
    → Only id s (pop_each shs s)
unfolding pop_each
pop_each-Only id [] s m = Only-refl id s
pop_each-Only id (sh ∷ shs) s m =
    let s1 : Service = record s { shells = remove_shell sh.id s.shells } in
    Only-trans id s s1 _ (Only-remove_shell s id sh.id m.0) (
      pop_each-Only id shs s1 (
        All-map (λ u. Placed u.id id s.shells) (λ u. Placed u.id id s1.shells) shs
          (λ u h. remove_shell-Placed u.id id sh.id s.shells h) m.1))
