-- ===== src/Api/Files/Quota.antt =====
-- The disk quota across a write by the API (app/api/routes/files.py, app/environments/service.py,
-- app/files.py).
use environments_api.Common.{
  ℕ, ◌+◌, ◌-◌, ◌≤◌, ◌<◌, String, ◌≡◌, refl, sym, ap, ◌∙◌, ◌⊎◌, inl, inr, Bool, true, false, not,
  ◌||◌, Option, none, some, [], length, arith, str_eq, if◌then◌else◌,
}
use mathlib.Core.Path.{subst}
use environments_api.Common.Assoc.{lookup}
use environments_api.Common.Error.{validation_error, not_found}
use environments_api.Common.Result.{Result, ok, err, bind-eq-ok, ok-injective}
use environments_api.Common.Int.{ℤ, sub_ℕ}
use environments_api.Environments.Records.{EnvironmentRecord}
use environments_api.Environments.Quotas.{Quotas, effective, value_or}
use environments_api.Environments.Service.{
  Caller, Service, owned, used_bytes, find_record, owner_check,
}
use environments_api.Environments.Service.Writes.{
  admit_enter, admit_fail, workspace_for, reserved_of,
}
use environments_api.Environments.Service.Writes.Reserved.{
  admit_enter_counts, admit_enter-lookup, admit_fail_restores, admit_enter-records,
  note_file_action-ok,
}
use environments_api.Files.Tree.{
  Text, FilePath, Bytes, Node, file, directory, link, other, Tree, node_at,
}
use environments_api.Files.Access.{walk, parent}
use environments_api.Files.Action.{
  World, Action, and_then, pure, with_admit, after_mutation, entered, ◌>>◌,
}
use environments_api.Files.Mutations.{
  Host, Mutation, write_under, write_at, write_result, content_bytes, growth_of, is_directory,
  old_size, stat_size, size_behind,
}
use environments_api.Files.Services.{write_under-Stays}
use environments_api.Api.Files.{WriteFileRequest, write_file, quota_admit, note_action, noted}

-- What a write that adds bytes means for the environment's usage.
abbrev Counted :
    {A : Type 0} → (ℕ → Type 0) → String → ℕ → Service → Result A × World Service → Type 0
Counted Added id maximum s (err e, w) = used_bytes w.service id ≡ used_bytes s id
Counted Added id maximum s (ok m, w) =
    (added : ℕ) × Added added
    × (used_bytes w.service id ≡ used_bytes s id + added)
    × (0 < added → used_bytes w.service id ≤ maximum)
    × (w.service.records ≡ s.records)

-- The same of an answer, with the note made.
abbrev pub Charged :
    {A : Type 0} → (ℕ → Type 0) → String → ℕ → Service → Result A × World Service → Type 0
Charged Added id maximum s (err e, w) = used_bytes w.service id ≡ used_bytes s id
Charged Added id maximum s (ok m, w) =
    (added : ℕ) × Added added
    × (used_bytes w.service id ≡ used_bytes s id + added)
    × (0 < added → used_bytes w.service id ≤ maximum)

-- The bytes of what stands at a path: of a file its content, of a link its target.
abbrev pub IsSize : Host → Option Node → ℕ → Type 0
IsSize h none n = n ≡ 0
IsSize h (some (file b)) n = n ≡ length b
IsSize h (some (link target)) n = n ≡ length target
IsSize h (some directory) n = n ≡ h.directory_size
IsSize h (some other) n = n ≡ 0

-- The bytes at a path before a write; there are none where the path's directory is missing.
abbrev pub StoodFor : Host → FilePath → Tree → ℕ → Type 0
StoodFor h p t n =
    (((walk false [] (parent p) t).0 ≡ err not_found) × (n ≡ 0))
    ⊎ (((walk false [] (parent p) t).0 ≡ ok tt) × IsSize h (node_at p t) n)

-- What a write of the content at the path adds, in either mode.
abbrev pub AddsAt : Host → Bool → FilePath → Bytes → Tree → ℕ → Type 0
AddsAt h append p b t added =
    ((append ≡ true) × (added ≡ length b))
    ⊎ ((append ≡ false) × (old : ℕ) × StoodFor h p t old × (added ≡ length b - old))

-- The bytes that a write of a request adds: where it appends, all of the content; and else what the
-- content has more than what stands at the path, if it has more.
abbrev pub Adds : Host → WriteFileRequest → Tree → ℕ → Type 0
Adds h body t added =
    (p : FilePath) × (b : Bytes) × (h.relative_path body.path ≡ ok p)
    × (content_bytes h body.content body.encoding ≡ ok b)
    × AddsAt h (str_eq body.mode "append") p b t added

stat_size-IsSize : (h : Host) (o : Option Node) → IsSize h o (stat_size h o)
stat_size-IsSize h none = refl
stat_size-IsSize h (some (file b)) = refl
stat_size-IsSize h (some (link target)) = refl
stat_size-IsSize h (some directory) = refl
stat_size-IsSize h (some other) = refl

reserved_of-sub : (a b : ℕ) → reserved_of (sub_ℕ a b) ≡ a - b
reserved_of-sub a b = ground arith

old_size-StoodFor :
    (h : Host) (p : FilePath) (t : Tree) (n : ℕ) → old_size h p t ≡ ok n → StoodFor h p t n
unfolding old_size
old_size-StoodFor h p t n e = by_walk (walk false [] (parent p) t).0 refl e
  where
    by_walk :
        (r : Result (Unit {0}))
        → (walk false [] (parent p) t).0 ≡ r
        → size_behind h p t r ≡ ok n
        → StoodFor h p t n
    by_walk (ok tt) f x =
        inr (f, subst (IsSize h (node_at p t)) (ok-injective x) (stat_size-IsSize h (node_at p t)))
    by_walk (err not_found) f x = inl (f, cc)
    by_walk (err y) f x = absurd (cc)

growth_of-AddsAt :
    (h : Host) (append : Bool) (p : FilePath) (b : Bytes) (t : Tree) (growth : ℤ)
    → growth_of h append p b t ≡ ok growth
    → AddsAt h append p b t (reserved_of growth)
growth_of-AddsAt h true p b t growth e = inl (refl, ap reserved_of (sym (ok-injective e)))
growth_of-AddsAt h false p b t growth e = by_size (old_size h p t) refl e
  where
    by_size :
        (r : Result ℕ)
        → old_size h p t ≡ r
        → (elim r [ err x ↦ err x | ok old ↦ ok (sub_ℕ (length b) old) ]) ≡ ok growth
        → AddsAt h false p b t (reserved_of growth)
    by_size (ok old) f x = inr (
      refl,
      old,
      old_size-StoodFor h p t old f,
      ap reserved_of (sym (ok-injective x)) ∙ reserved_of-sub (length b) old,
    )
    by_size (err y) f x = absurd (cc)

workspace_for-owned :
    (s : Service) (caller : Caller) (id : String) (r : EnvironmentRecord)
    → workspace_for s caller id ≡ ok r
    → owned s caller id ≡ ok r
unfolding workspace_for
workspace_for-owned s caller id r e =
    let (r', mine, e1) = bind-eq-ok (owned s caller id) _ e in ground (arith, mine, e1)

module _ (caller : Caller) (id : String) (q : Quotas) (Added : ℕ → Type 0) where
  with_admit-Counted :
      {A : Type 0} (growth : ℤ) (body : Action Service A) (w : World Service)
      → Added (reserved_of growth)
      → effective w.service.quotas caller.account_id ≡ ok q
      → ((v : World Service) → (body v).1.service ≡ v.service)
      → Counted Added id q.max_disk_bytes w.service
          (with_admit (quota_admit caller id) growth body w)
  unfolding with_admit
  with_admit-Counted {A} growth body w asked eff stays =
      by_entry (admit_enter w.service caller id growth) refl
    where
      by_body :
          (s : Service)
          → admit_enter w.service caller id growth ≡ ok s
          → (r : Result A × World Service) → r.1.service ≡ s
          → Counted Added id q.max_disk_bytes w.service
              (after_mutation (quota_admit caller id) growth r)
      by_body s e (ok a, v) k =
          subst (λ x. Counted Added id q.max_disk_bytes w.service (ok a, record v { service = x }))
            (sym k)
            (let counted = admit_enter_counts w.service s caller id growth q eff e in
              (
                reserved_of growth,
                asked,
                counted.0,
                counted.1,
                admit_enter-records w.service s caller id growth e,
              ))
      by_body s e (err x, v) k =
          let there = admit_enter-lookup w.service s caller id growth e in
          let back =
            (admit_fail_restores w.service s s caller id growth 0 e).0 (ground (arith, there)) in
          subst (λ y. used_bytes (admit_fail id growth y) id ≡ used_bytes w.service id) (sym k)
            (ground (arith, back))

      by_entry :
          (r : Result Service)
          → admit_enter w.service caller id growth ≡ r
          → Counted Added id q.max_disk_bytes w.service
              (entered (quota_admit caller id) growth body w r)
      by_entry (ok s) e =
          by_body s e (body (record w { service = s })) (stays (record w { service = s }))
      by_entry (err x) e = refl

  -- A block that goes on after a step that changes nothing.
  lift_then-Counted :
      {A B : Type 0} (r : Result A) (rest : A → Action Service B) (w : World Service)
      → ((a : A) → r ≡ ok a → Counted Added id q.max_disk_bytes w.service (rest a w))
      → Counted Added id q.max_disk_bytes w.service (and_then (r, w) rest)
  lift_then-Counted (ok a) rest w k = k a refl
  lift_then-Counted (err e) rest w k = refl

  write_at-Counted :
      (h : Host) (p : FilePath) (b : Bytes) (append : Bool) (if_match : Option Text)
      (w : World Service)
      → ((growth : ℤ) → growth_of h append p b w.tree ≡ ok growth → Added (reserved_of growth))
      → effective w.service.quotas caller.account_id ≡ ok q
      → Counted Added id q.max_disk_bytes w.service
          (write_at h p b append if_match (quota_admit caller id) w)
  unfolding write_at
  write_at-Counted h p b append if_match w asked eff =
      lift_then-Counted (if is_directory h (node_at p w.tree) then err validation_error else ok tt)
        _ w
        (λ _ _. lift_then-Counted (growth_of h append p b w.tree) _ w (λ growth f.
          with_admit-Counted growth (write_under h p b append if_match) w (asked growth f) eff
            (write_under-Stays h p b append if_match)))

  write_result-Counted :
      (h : Host) (body : WriteFileRequest) (if_match : Option Text) (w : World Service)
      → ((added : ℕ) → Adds h body w.tree added → Added added)
      → effective w.service.quotas caller.account_id ≡ ok q
      → Counted Added id q.max_disk_bytes w.service (
          write_result h body.path body.content body.encoding body.mode if_match
            (quota_admit caller id)
            w)
  unfolding write_result
  write_result-Counted h body if_match w asked eff =
      lift_then-Counted (content_bytes h body.content body.encoding) _ w (λ b coded.
        lift_then-Counted
          (if not (str_eq body.mode "overwrite" || str_eq body.mode "append")
            then err validation_error
            else ok tt)
          _ w
          (λ _ _. lift_then-Counted (h.relative_path body.path) _ w (λ p named.
            write_at-Counted h p b (str_eq body.mode "append") if_match w
              (λ growth grown. asked (reserved_of growth) (
                p,
                b,
                named,
                coded,
                growth_of-AddsAt h (str_eq body.mode "append") p b w.tree growth grown,
              ))
              eff)))

  owned-records : (s s' : Service) → s'.records ≡ s.records → owned s' caller id ≡ owned s caller id
  unfolding owned
  owned-records s s' e = ap (λ rs. owner_check caller (find_record id rs)) e

  noted-Counted :
      (now : ℕ) (action : String) (s : Service) (r : EnvironmentRecord)
      (x : Result Mutation × World Service)
      → owned s caller id ≡ ok r
      → Counted Added id q.max_disk_bytes s x
      → Charged Added id q.max_disk_bytes s
          (and_then x (λ m. note_action caller now id action >> pure m))
  noted-Counted now action s r (err e, w) mine c = c
  noted-Counted now action s r (ok m, w) mine c =
      let (s', done, same) =
        note_file_action-ok w.service caller now id action r
          (owned-records s w.service c.4 ∙ mine) in
      subst (λ y. Charged Added id q.max_disk_bytes s (and_then (noted w y) (λ _. pure m)))
        (sym done)
        (
          c.0,
          c.1,
          ap (λ u. value_or (lookup id u) 0) same ∙ c.2,
          λ some_bytes. omega (arith, c.3 some_bytes, ap (λ u. value_or (lookup id u) 0) same),
        )

-- Whatever a write asks for, where the account's quotas can be read, and whether the API answers it or
-- refuses it at any point: one that is refused leaves the environment's usage as it was. One that is
-- answered raises the usage by exactly the length of the content where it appends, and else by what
-- the content is longer than what stood at the path, such as a file's bytes, or nothing; and where
-- that is more than nothing the usage is at most the account's maximum then. A write that shrinks the
-- file frees nothing.
pub write_file-Charged :
    (h : Host) (caller : Caller) (now : ℕ) (id : String) (body : WriteFileRequest)
    (if_match : Option Text) (w : World Service) (q : Quotas)
    → effective w.service.quotas caller.account_id ≡ ok q
    → Charged
        (Adds h body w.tree)
        id
        q.max_disk_bytes
        w.service
        (write_file h caller now id body if_match w)
unfolding write_file
write_file-Charged h caller now id body if_match w q eff =
    by_owner (workspace_for w.service caller id) refl
  where
    by_owner :
        (o : Result EnvironmentRecord)
        → workspace_for w.service caller id ≡ o
        → Charged (Adds h body w.tree) id q.max_disk_bytes w.service (
            and_then
              (o, w)
              (λ _ v.
                and_then
                  (write_result h body.path body.content body.encoding body.mode if_match
                    (quota_admit caller id)
                    v)
                  (λ m. note_action caller now id "file.write" >> pure m)))
    by_owner (err e) f = refl
    by_owner (ok r) f =
        noted-Counted caller id q (Adds h body w.tree) now "file.write" w.service r _
          (workspace_for-owned w.service caller id r f)
          (write_result-Counted caller id q (Adds h body w.tree) h body if_match w (λ growth a. a)
            eff)
