-- ===== src/Files/Failures.antt =====
-- write_result (app/files.py): a write that raises has changed no file.
use environments_api.Common.{
  ◌+◌, String, ◌≡◌, refl, sym, ap, ◌∙◌, inl, Bool, true, false, not, ◌||◌, Option, none, some, ◌++◌,
  arith, str_eq, take,
}
use mathlib.Core.Path.{subst}
use environments_api.Common.Assoc.{is_none}
use environments_api.Common.Error.{Error, validation_error}
use environments_api.Common.Result.{Result, ok, err}
use environments_api.Files.Tree.{FilePath, Bytes, Text, Node, file, Tree, node_at, put, erase}
use environments_api.Files.Tree.Laws.{path_eq_iff, node_at-put, node_at-erase}
use environments_api.Files.Access.{check_match, current_etag, parent, etag_of, open_file}
use environments_api.Files.Action.{
  World, Action, Admit, with_admit, and_then, lift, pure, raise_if, modify, finally, ◌>>=◌, ◌>>◌,
}
use environments_api.Files.Mutations.{
  Host, temporary_path, check_current, write_under, write_at, write_bytes, write_result, commit,
  replace_checked, to_write, appended, create_file, rename, rename_node, is_directory, growth_of,
  content_bytes,
}
use environments_api.Files.Written.{append-ne-nil}
use environments_api.Files.Safe.{
  OnlyDirectories, OnlyDirectories-refl, IsSafe, lift_then-IsSafe, raise_if_then-IsSafe,
  then_pure-IsSafe, under_parent-IsSafe, with_admit-IsSafe,
}

-- No shell acts on the workspace during the operation.
abbrev pub IsQuiet : Host → Type 0
IsQuiet h = ((t : Tree) → h.elsewhere t ≡ t) × ((t : Tree) → h.at_last t ≡ t)

module _ (h : Host) (quiet : IsQuiet h) {S : Type 0} where
  -- A replacement that raises leaves the tree, but for the temporary file, which is removed.
  replace_checked-same :
      (p : FilePath) (expected : Option Text) (w w' : World S) {e : Error}
      → replace_checked h p expected w ≡ (err e, w')
      → w'.tree ≡ erase (temporary_path h p) w.tree
  unfolding replace_checked
  replace_checked-same p expected w w' {e} raised =
      let during : World S = record w { tree = h.elsewhere w.tree } in
      by_written during h.written raised ∙ ap (erase (temporary_path h p)) (quiet.0 w.tree)
    where
      last : Tree → Tree
      last = erase (temporary_path h p)

      renamed :
          (during : World S) (o : Option Node)
          → ◌≡◌ {A = Result (Unit {0}) × World S}
              (
                (rename_node h (temporary_path h p) p o during.tree).0,
                record during {
                  tree = last (rename_node h (temporary_path h p) p o during.tree).1;
                },
              )
              (err e, w')
          → w'.tree ≡ last during.tree
      renamed during none x = sym (ap (λ (y : Result (Unit {0}) × World S). y.1.tree) x)
      renamed during (some n) x = absurd cc

      by_replaced :
          (during : World S) (r : Result (Unit {0}))
          → finally last (λ v. and_then (r, v) (λ _. rename h (temporary_path h p) p)) during
            ≡ (err e, w')
          → w'.tree ≡ last during.tree
      by_replaced during (ok done) x = renamed during (node_at (temporary_path h p) during.tree) x
      by_replaced during (err y) x = sym (ap (λ (y : Result (Unit {0}) × World S). y.1.tree) x)

      replaces : Action S (Unit {0})
      replaces v =
          and_then (h.replaced, record v { tree = h.at_last v.tree })
            (λ _. rename h (temporary_path h p) p)

      by_match :
          (during : World S) (r : Result (Unit {0}))
          → finally last (λ v. and_then (r, v) (λ _. replaces)) during ≡ (err e, w')
          → w'.tree ≡ last during.tree
      by_match during (ok done) x =
          by_replaced (record during { tree = h.at_last during.tree }) h.replaced x
          ∙ ap last (quiet.1 during.tree)
      by_match during (err y) x = sym (ap (λ (y : Result (Unit {0}) × World S). y.1.tree) x)

      by_etag :
          (during : World S) (r : Result (Option Text))
          → finally last
              (λ v.
                and_then
                  (and_then (r, v) (λ actual. lift (check_match expected actual)))
                  (λ _. replaces))
              during
            ≡ (err e, w')
          → w'.tree ≡ last during.tree
      by_etag during (ok actual) x = by_match during (check_match expected actual) x
      by_etag during (err y) x = sym (ap (λ (y : Result (Unit {0}) × World S). y.1.tree) x)

      by_written :
          (during : World S) (r : Result (Unit {0}))
          → finally last
              (λ v.
                and_then (r, v) (λ _ u. and_then (check_current h p expected u) (λ _. replaces)))
              during
            ≡ (err e, w')
          → w'.tree ≡ last during.tree
      by_written during (ok done) x = by_etag during (current_etag h.sha256_hex p during.tree) x
      by_written during (err y) x = sym (ap (λ (y : Result (Unit {0}) × World S). y.1.tree) x)

  commit-IsSafe :
      (p : FilePath) (content : Bytes) (expected : Option Text) (w : World S)
      → IsSafe (commit h p content expected w) w.tree
  unfolding commit
  commit-IsSafe p content expected w = by_etag (current_etag h.sha256_hex p w.tree)
    where
      after_check : Action S Text
      after_check = do
        create_file h (temporary_path h p) content validation_error
        replace_checked h p expected
        pure (etag_of h.sha256_hex content)

      erased :
          (v : World S) (e : Error)
          → node_at (temporary_path h p) w.tree ≡ none
          → v.tree ≡ erase (temporary_path h p) (put (temporary_path h p) (file content) w.tree)
          → OnlyDirectories w.tree v.tree
      erased v e free same q =
          let root = append-ne-nil (parent p) h.temporary in
          inl (
            ap (node_at q) same
            ∙ (node_at-erase (temporary_path h p) q (put (temporary_path h p) (file content) w.tree)
                  root
                ∙ ground (
                  arith,
                  node_at-put (temporary_path h p) q (file content) w.tree root,
                  path_eq_iff (temporary_path h p) q,
                  free,
                )))

      replaced :
          (x : Result (Unit {0}) × World S)
          → replace_checked h p expected
              (record w { tree = put (temporary_path h p) (file content) w.tree })
            ≡ x
          → node_at (temporary_path h p) w.tree ≡ none
          → IsSafe (and_then x (λ _. pure (etag_of h.sha256_hex content))) w.tree
      replaced (ok done, v) f free = tt
      replaced (err e, v) f free = erased v e free (replace_checked-same p expected _ v f)

      by_node :
          (o : Option Node)
          → node_at (temporary_path h p) w.tree ≡ o
          → IsSafe
              (and_then
                (and_then
                  (raise_if (not (is_none o)) validation_error w)
                  (λ _. modify (put (temporary_path h p) (file content))))
                (λ _ v.
                  and_then
                    (replace_checked h p expected v)
                    (λ _. pure (etag_of h.sha256_hex content))))
              w.tree
      by_node none free = replaced _ refl free
      by_node (some n) free = OnlyDirectories-refl w.tree

      by_match : (r : Result (Unit {0})) → IsSafe (and_then (r, w) (λ _. after_check)) w.tree
      by_match (ok done) = by_node (node_at (temporary_path h p) w.tree) refl
      by_match (err e) = OnlyDirectories-refl w.tree

      by_etag :
          (r : Result (Option Text))
          → IsSafe
              (and_then
                (and_then (r, w) (λ actual. lift (check_match expected actual)))
                (λ _. after_check))
              w.tree
      by_etag (ok actual) = by_match (check_match expected actual)
      by_etag (err e) = OnlyDirectories-refl w.tree

  -- Looking at the file to append to changes nothing.
  to_write-same :
      (append : Bool) (p : FilePath) (content : Bytes) (if_match : Option Text) (v : World S)
      → (to_write h append p content if_match v).1 ≡ v
  to_write-same false p content if_match v = refl
  to_write-same true p content if_match v = by_etag (current_etag h.sha256_hex p v.tree)
    where
      tagged : Option Text → Bytes → Action S (Option Text × Bytes)
      tagged tag content' = pure (tag, content')

      by_content : (r : Result Bytes) (tag : Option Text) → (and_then (r, v) (tagged tag)).1 ≡ v
      by_content (ok b) tag = refl
      by_content (err e) tag = refl

      by_match :
          (r : Result (Unit {0})) (whole : Bytes)
          → (and_then
              (r, v)
              (λ _.
                lift
                  (content_bytes h (h.b64encode (take (h.max_write + 1) whole ++ content)) "base64")
                >>= tagged (some (etag_of h.sha256_hex (take (h.max_write + 1) whole))))).1
            ≡ v
      by_match (ok done) whole =
          by_content
            (content_bytes h (h.b64encode (take (h.max_write + 1) whole ++ content)) "base64") _
      by_match (err e) whole = refl

      by_file :
          (r : Result Bytes)
          → (and_then
              (r, v)
              (λ whole.
                lift (
                  check_match if_match (some (etag_of h.sha256_hex (take (h.max_write + 1) whole))))
                >> (lift (
                      content_bytes h
                        (h.b64encode (take (h.max_write + 1) whole ++ content))
                        "base64")
                    >>= tagged (some (etag_of h.sha256_hex (take (h.max_write + 1) whole)))))).1
            ≡ v
      by_file (ok whole) =
          by_match
            (check_match if_match (some (etag_of h.sha256_hex (take (h.max_write + 1) whole))))
            whole
      by_file (err e) = refl

      by_etag : (r : Result (Option Text)) → (and_then (r, v) (appended h p content if_match)).1 ≡ v
      by_etag (ok none) = refl
      by_etag (ok (some etag)) = by_file (open_file p v.tree)
      by_etag (err e) = refl

  same_then-IsSafe :
      {A B : Type 0} (r : Result A × World S) (rest : A → Action S B) (v : World S)
      → r.1 ≡ v
      → ((a : A) → IsSafe (rest a v) v.tree)
      → IsSafe (and_then r rest) v.tree
  same_then-IsSafe (ok a, u) rest v e k = subst (λ x. IsSafe (rest a x) v.tree) (sym e) (k a)
  same_then-IsSafe (err x, u) rest v e k =
      subst (λ y. OnlyDirectories v.tree y.tree) (sym e) (OnlyDirectories-refl v.tree)

  write_under-IsSafe :
      (p : FilePath) (content : Bytes) (append : Bool) (if_match : Option Text) (w : World S)
      → IsSafe (write_under h p content append if_match w) w.tree
  unfolding write_under
  write_under-IsSafe p content append if_match w = under_parent-IsSafe true p _ w (λ v k.
      same_then-IsSafe (to_write h append p content if_match v) _ v
        (to_write-same append p content if_match v)
        (λ x. then_pure-IsSafe (commit h p x.1 x.0 v) _ v.tree (commit-IsSafe p x.1 x.0 v)))

  -- While no shell acts on the workspace, a write that raises leaves every path as it was, but that
  -- directories on the way to the file may have been made: no file is created, changed or removed,
  -- and no temporary file stays behind. That holds also where the raise comes after the temporary
  -- file was made: from writing, flushing or syncing it, or from os.replace.
  pub write_result-OnlyDirectories :
      (requested content : Text) (encoding mode : String) (if_match : Option Text) (admit : Admit S)
      (w w' : World S) (e : Error)
      → write_result h requested content encoding mode if_match admit w ≡ (err e, w')
      → OnlyDirectories w.tree w'.tree
  unfolding write_result write_at
  write_result-OnlyDirectories requested content encoding mode if_match admit w w' e raised =
      subst (λ r. IsSafe r w.tree) raised
        (lift_then-IsSafe (content_bytes h content encoding)
          (write_bytes h requested mode if_match admit) w
          (λ b.
            raise_if_then-IsSafe (not (str_eq mode "overwrite" || str_eq mode "append"))
              validation_error
              (λ v.
                and_then (h.relative_path requested, v)
                  (λ p. write_at h p b (str_eq mode "append") if_match admit))
              w
              (lift_then-IsSafe (h.relative_path requested)
                (λ p. write_at h p b (str_eq mode "append") if_match admit) w
                (λ p.
                  raise_if_then-IsSafe (is_directory h (node_at p w.tree)) validation_error _ w (
                    lift_then-IsSafe (growth_of h (str_eq mode "append") p b w.tree)
                      (λ growth.
                        with_admit admit growth (write_under h p b (str_eq mode "append") if_match))
                      w
                      (λ growth.
                        with_admit-IsSafe admit growth
                          (write_under h p b (str_eq mode "append") if_match) w
                          (λ s.
                            write_under-IsSafe p b (str_eq mode "append") if_match
                              (record w { service = s }))))))))
