-- ===== src/Files/Written.antt =====
-- write_result (app/files.py): what a write over a file that returned has done.
use environments_api.Common.{
  ◌≡◌, refl, ap, ◌∙◌, true, false, Option, some, [], ◌∷◌, ◌++◌, arith, if◌then◌else◌,
}
use mathlib.Core.Path.{subst}
use environments_api.Common.Result.{Result, ok}
use environments_api.Shells.Redact.{encode}
use environments_api.Files.Tree.{FilePath, Bytes, Text, file, Tree, path_eq, node_at, put, erase}
use environments_api.Files.Tree.Laws.{path_eq_refl, node_at-put, node_at-erase}
use environments_api.Files.Access.{parent, walk}
use environments_api.Files.Action.{World, Admit, with_admit}
use environments_api.Files.Mutations.{
  Host, Mutation, temporary_path, write_under, write_at, write_bytes, growth_of, write_result,
  is_directory, content_bytes, commit,
}
use environments_api.Files.Returns.{
  and_then-ok, lift_then-ok, raise_if_then-ok, under_parent-ok, with_admit-ok,
}
use environments_api.Files.Commits.{Committed, commit-Committed}

-- Shells leave the temporary file of a commit alone, whose name they do not know.
abbrev pub IsSpared : Host → FilePath → Type 0
IsSpared h p =
    ((t : Tree) → node_at (temporary_path h p) (h.elsewhere t) ≡ node_at (temporary_path h p) t)
    × ((t : Tree) → node_at (temporary_path h p) (h.at_last t) ≡ node_at (temporary_path h p) t)

pub append-ne-nil : (a : FilePath) (x : Text) → path_eq (a ++ (x ∷ [])) [] ≡ false
unfolding path_eq
append-ne-nil [] x = refl
append-ne-nil (p ∷ ps) x = refl

not-is_directory :
    (h : Host) (p : FilePath) (t : Tree)
    → is_directory h (node_at p t) ≡ false
    → path_eq p [] ≡ false
unfolding node_at path_eq
not-is_directory h [] t e = absurd cc
not-is_directory h (p ∷ ps) t e = refl

encoded :
    (h : Host) (content : Text) {b : Bytes}
    → content_bytes h content "utf-8" ≡ ok b
    → b ≡ encode content
unfolding content_bytes
encoded h content e = ground arith

module _ (h : Host) {S : Type 0} where
  -- What every path holds after a commit.
  pub Committed-node_at :
      (p : FilePath) (content : Bytes) (expected : Option Text) (w w' : World S)
      → IsSpared h p
      → path_eq p [] ≡ false
      → (c : Committed h p content expected w w') → (q : FilePath)
      → path_eq (temporary_path h p) q ≡ false
      → node_at q w'.tree ≡ (if path_eq p q then some (file content) else node_at q c.last)
  Committed-node_at p content expected w w' spared proper c q other =
      let root : path_eq (temporary_path h p) [] ≡ false = append-ne-nil (parent p) h.temporary in
      let kept : node_at (temporary_path h p) c.last ≡ some (file content) =
        ap (node_at (temporary_path h p)) (c.last_eq ∙ ap h.at_last c.found_eq)
        ∙ (spared.1 (h.elsewhere (put (temporary_path h p) (file content) w.tree))
            ∙ (spared.0 (put (temporary_path h p) (file content) w.tree)
                ∙ rw
                    (
                      node_at-put (temporary_path h p) (temporary_path h p) (file content) w.tree
                          root,
                      path_eq_refl (temporary_path h p),
                    )
                    refl)) in
      let same : c.written ≡ file content = cc (c.moved, kept) in
      rw
        (
          c.left,
          node_at-erase (temporary_path h p) q (put p c.written (erase (temporary_path h p) c.last))
              root,
          other,
        )
        (rw
          (
            node_at-put p q c.written (erase (temporary_path h p) c.last) proper,
            node_at-erase (temporary_path h p) q c.last root,
            other,
          )
          (rw same refl))

  -- A write over a file that returned: its directory was found or made, and the commit.
  write_under-Committed :
      (p : FilePath) (b : Bytes) (if_match : Option Text) (w w' : World S) {m : Mutation}
      → write_under h p b false if_match w ≡ (ok m, w')
      → (v : World S) × Committed h p b if_match v w'
  unfolding write_under
  write_under-Committed p b if_match w w' e =
      let behind = under_parent-ok true p _ w e in
      let v : World S = record w { tree = (walk true [] (parent p) w.tree).1 } in
      let (etag, v1, e1, r1) = and_then-ok (commit h p b if_match v) _ behind.1 in
      let (c, same) = commit-Committed h p b if_match v v1 e1 in
      (
        v,
        subst (λ u. Committed h p b if_match v u) (ap (λ (x : Result Mutation × World S). x.1) r1)
            c,
      )

  -- A write over a file that returned: its path, and the commit.
  pub write_at-Committed :
      (p : FilePath) (b : Bytes) (if_match : Option Text) (admit : Admit S) (w w' : World S)
      {m : Mutation}
      → write_at h p b false if_match admit w ≡ (ok m, w')
      → (path_eq p [] ≡ false) × ((v : World S) × Committed h p b if_match v w')
  unfolding write_at
  write_at-Committed p b if_match admit w w' e =
      let (plain, r1) = raise_if_then-ok (is_directory h (node_at p w.tree)) _ _ w e in
      let (growth, grown, r2) =
        lift_then-ok (growth_of h false p b w.tree)
          (λ growth. with_admit admit growth (write_under h p b false if_match)) w r1 in
      let (s, counted, r3) = with_admit-ok admit growth (write_under h p b false if_match) w r2 in
      (
        not-is_directory h p w.tree plain,
        write_under-Committed p b if_match (record w { service = s }) w' r3,
      )

  pub write_result-Committed :
      (requested content : Text) (if_match : Option Text) (admit : Admit S) (w w' : World S)
      {m : Mutation}
      → write_result h requested content "utf-8" "overwrite" if_match admit w ≡ (ok m, w')
      → (p : FilePath) × (h.relative_path requested ≡ ok p)
        × (path_eq p [] ≡ false)
        × ((v : World S) × Committed h p (encode content) if_match v w')
  unfolding write_result
  write_result-Committed requested content if_match admit w w' {m} e =
      let (b, coded, r1) =
        lift_then-ok (content_bytes h content "utf-8")
          (write_bytes h requested "overwrite" if_match admit) w e in
      let (p, named, r2) =
        lift_then-ok (h.relative_path requested) (λ p. write_at h p b false if_match admit) w r1 in
      let (proper, at_commit) = write_at-Committed p b if_match admit w w' r2 in
      (
        p,
        named,
        proper,
        (
          at_commit.0,
          subst (λ x. Committed h p x if_match at_commit.0 w') (encoded h content coded)
              at_commit.1,
        ),
      )
