-- ===== src/Files/Services.antt =====
-- _write (app/files.py): a write itself does not touch what is counted beside the tree.
use environments_api.Common.{
  ◌+◌, ◌≡◌, refl, ◌∙◌, Bool, true, false, not, Option, none, some, [], ◌++◌, take,
}
use environments_api.Common.Assoc.{is_none}
use environments_api.Common.Error.{validation_error}
use environments_api.Common.Result.{Result, ok, err}
use environments_api.Files.Tree.{FilePath, Bytes, Text, node_at}
use environments_api.Files.Access.{check_match, current_etag, parent, etag_of, walk, open_file}
use environments_api.Files.Action.{World, Action, and_then, lift, raise_if}
use environments_api.Files.Mutations.{
  Host, temporary_path, write_under, commit, replace_checked, to_write, appended, under_parent,
  check_current, create_file, content_bytes,
}

module _ {S : Type 0} where
  abbrev Stays : {A : Type 0} → Result A × World S → S → Type 0
  Stays r s = r.1.service ≡ s

  then-Stays :
      {A B : Type 0} (r : Result A × World S) (rest : A → Action S B) (s : S)
      → Stays r s
      → ((a : A) (w : World S) → w.service ≡ s → Stays (rest a w) s)
      → Stays (and_then r rest) s
  then-Stays (ok a, w) rest s h k = k a w h
  then-Stays (err e, w) rest s h k = h

  under_parent-Stays :
      {A : Type 0} (create : Bool) (p : FilePath) (body : Action S A) (w : World S)
      → ((v : World S) → v.service ≡ w.service → Stays (body v) w.service)
      → Stays (under_parent create p body w) w.service
  under_parent-Stays create p body w h =
      then-Stays
        (
          (walk create [] (parent p) w.tree).0,
          record w { tree = (walk create [] (parent p) w.tree).1 },
        )
        (λ _. body) w.service refl (λ _ v e. h v e)

module _ (h : Host) {S : Type 0} where
  check_current-Stays :
      (p : FilePath) (expected : Option Text) (w : World S)
      → Stays (check_current h p expected w) w.service
  check_current-Stays p expected w =
      then-Stays (current_etag h.sha256_hex p w.tree, w)
        (λ actual. lift (check_match expected actual)) w.service refl (λ a v e. e)

  replace_checked-Stays :
      (p : FilePath) (expected : Option Text) (w : World S)
      → Stays (replace_checked h p expected w) w.service
  unfolding replace_checked
  replace_checked-Stays p expected w =
      let during : World S = record w { tree = h.elsewhere w.tree } in
      then-Stays (h.written, during) _ w.service refl
        (λ _ v e.
          then-Stays (check_current h p expected v) _ w.service
            (check_current-Stays p expected v ∙ e)
            (λ _ u f.
              then-Stays (h.replaced, record u { tree = h.at_last u.tree }) _ w.service f
                (λ _ x g. g)))

  commit-Stays :
      (p : FilePath) (content : Bytes) (expected : Option Text) (w : World S)
      → Stays (commit h p content expected w) w.service
  unfolding commit
  commit-Stays p content expected w =
      then-Stays (check_current h p expected w) _ w.service (check_current-Stays p expected w)
        (λ _ v e.
          then-Stays (create_file h (temporary_path h p) content validation_error v) _ w.service
            (then-Stays
              (raise_if (not (is_none (node_at (temporary_path h p) v.tree))) validation_error v) _
              w.service e (λ _ u f. f))
            (λ _ u f.
              then-Stays (replace_checked h p expected u) _ w.service
                (replace_checked-Stays p expected u ∙ f) (λ _ x g. g)))

  to_write_under-Stays :
      (append : Bool) (p : FilePath) (content : Bytes) (if_match : Option Text) (w : World S)
      → Stays (to_write h append p content if_match w) w.service
  to_write_under-Stays false p content if_match w = refl
  to_write_under-Stays true p content if_match w =
      then-Stays (current_etag h.sha256_hex p w.tree, w) (appended h p content if_match) w.service
        refl by_etag
    where
      by_etag :
          (o : Option Text) (v : World S)
          → v.service ≡ w.service
          → Stays (appended h p content if_match o v) w.service
      by_etag none v e = e
      by_etag (some etag) v e =
          then-Stays (open_file p v.tree, v) _ w.service e
            (λ whole u f.
              then-Stays
                (
                  check_match if_match (some (etag_of h.sha256_hex (take (h.max_write + 1) whole))),
                  u,
                )
                _ w.service f
                (λ _ x g.
                  then-Stays
                    (
                      content_bytes h (h.b64encode (take (h.max_write + 1) whole ++ content))
                          "base64",
                      x,
                    )
                    _ w.service g (λ _ y k. k)))

  pub write_under-Stays :
      (p : FilePath) (content : Bytes) (append : Bool) (if_match : Option Text) (w : World S)
      → (write_under h p content append if_match w).1.service ≡ w.service
  unfolding write_under
  write_under-Stays p content append if_match w = under_parent-Stays true p _ w (λ v e.
      then-Stays (to_write h append p content if_match v) _ w.service
        (to_write_under-Stays append p content if_match v ∙ e)
        (λ x u f.
          then-Stays (commit h p x.1 x.0 u) _ w.service (commit-Stays p x.1 x.0 u ∙ f)
            (λ _ y g. g)))
