-- ===== src/Files/Commits.antt =====
-- _commit (app/files.py): what a commit that returned found and left.
use environments_api.Common.{◌≡◌, refl, sym, ap, ◌∙◌, Option, none, some}
use environments_api.Common.Result.{Result, ok}
use environments_api.Files.Tree.{FilePath, Bytes, Text, Node, file, Tree, node_at, put, erase}
use environments_api.Files.Access.{check_match, current_etag, etag_of}
use environments_api.Files.Action.{World, Action, and_then, pure}
use environments_api.Files.Mutations.{
  Host, check_current, rename, replace_checked, commit, temporary_path,
}
use environments_api.Files.Returns.{
  and_then-ok, lift_then-ok, lift-ok, check_current-ok, create_file-ok, rename-ok,
}

-- What a commit of the content found: the file as it was at the replacement, in the tree that the
-- shells left, which the expected validator was compared with, the tree that they left at last, and
-- the tree after it.
pub record Committed {S : Type 0} (h : Host) (p : FilePath) (content : Bytes)
    (expected : Option Text) (w w' : World S) : Type 0 where
  pub found : Tree
  pub found_eq : found ≡ h.elsewhere (put (temporary_path h p) (file content) w.tree)
  pub actual : Option Text
  pub etag_found : current_etag h.sha256_hex p found ≡ ok actual
  pub matched : check_match expected actual ≡ ok tt
  pub unused : node_at (temporary_path h p) w.tree ≡ none
  pub last : Tree
  pub last_eq : last ≡ h.at_last found
  pub written : Node
  pub moved : node_at (temporary_path h p) last ≡ some written
  pub left : w'.tree ≡ erase (temporary_path h p) (put p written (erase (temporary_path h p) last))
  pub service_kept : w'.service ≡ w.service

module _ (h : Host) {S : Type 0} where
  -- The replacement that returned, from the tree that it is left with after the check.
  replace_checked-ok :
      (p : FilePath) (expected : Option Text) (w w' : World S) {u : Unit {0}}
      → replace_checked h p expected w ≡ (ok u, w')
      → (actual : Option Text) × (n : Node) × (current_etag h.sha256_hex p (h.elsewhere w.tree)
          ≡ ok actual)
        × (check_match expected actual ≡ ok tt)
        × (node_at (temporary_path h p) (h.at_last (h.elsewhere w.tree)) ≡ some n)
        × (w'.tree
            ≡ erase
                (temporary_path h p)
                (put p n (erase (temporary_path h p) (h.at_last (h.elsewhere w.tree)))))
        × (w'.service ≡ w.service)
  unfolding replace_checked
  replace_checked-ok p expected w w' {u} e =
      let during : World S = record w { tree = h.elsewhere w.tree } in
      let replaces : Action S (Unit {0}) = λ v.
        and_then (h.replaced, record v { tree = h.at_last v.tree })
          (λ _. rename h (temporary_path h p) p) in
      let checks : Action S (Unit {0}) =
        λ v. and_then (check_current h p expected v) (λ _. replaces) in
      let body : Action S (Unit {0}) = λ v. and_then (h.written, v) (λ _. checks) in
      let ran : body during ≡ (ok u, (body during).1) =
        cc (ap (λ (x : Result (Unit {0}) × World S). x.0) e) in
      let (_, _, r0) = lift_then-ok h.written (λ _. checks) during ran in
      let (u1, w1, e1, r1) = and_then-ok (check_current h p expected during) (λ _. replaces) r0 in
      let (actual, found, matched, s1) = check_current-ok h p expected e1 in
      let late : World S = record w1 { tree = h.at_last w1.tree } in
      let (_, _, r2) = lift_then-ok h.replaced (λ _. rename h (temporary_path h p) p) late r1 in
      let (n, there, s2) = rename-ok h (temporary_path h p) p late (body during).1 r2 in
      let t2 : (body during).1.tree ≡ put p n (erase (temporary_path h p) (h.at_last w1.tree)) =
        ap (λ (v : World S). v.tree) s2 in
      let left = ap (λ (x : Result (Unit {0}) × World S). x.1) e in
      (
        actual,
        n,
        found,
        matched,
        ap (λ (v : World S). node_at (temporary_path h p) (h.at_last v.tree)) (sym s1) ∙ there,
        ap (λ (v : World S). v.tree) (sym left)
            ∙ ap (erase (temporary_path h p)) (
                t2
                ∙ ap (λ (v : World S). put p n (erase (temporary_path h p) (h.at_last v.tree))) s1),
        ap (λ (v : World S). v.service) (sym left)
            ∙ (ap (λ (v : World S). v.service) s2 ∙ ap (λ (v : World S). v.service) s1),
      )

  pub commit-Committed :
      (p : FilePath) (content : Bytes) (expected : Option Text) (w w' : World S) {etag : Text}
      → commit h p content expected w ≡ (ok etag, w')
      → Committed h p content expected w w' × (etag ≡ etag_of h.sha256_hex content)
  unfolding commit
  commit-Committed p content expected w w' {etag} e =
      let (u1, w1, e1, r1) = and_then-ok _ _ e in
      let (a1, _, _, s1) = check_current-ok h p expected e1 in
      let (u2, w2, e2, r2) = and_then-ok _ _ r1 in
      let (free, s2) = create_file-ok h (temporary_path h p) content _ w1 w2 e2 in
      let (u3, w3, e3, r3) =
        and_then-ok (replace_checked h p expected w2) (λ _. pure (etag_of h.sha256_hex content))
          r2 in
      let (actual, n, found, matched, there, left, kept) = replace_checked-ok p expected w2 w3 e3 in
      let s3 = lift-ok (ok (etag_of h.sha256_hex content)) r3 in
      let at2 : w2.tree ≡ put (temporary_path h p) (file content) w.tree =
        ap (λ (v : World S). v.tree) s2
        ∙ ap (λ (v : World S). put (temporary_path h p) (file content) v.tree) s1 in
      (
        record {
          found = h.elsewhere w2.tree;
          found_eq = ap h.elsewhere at2;
          actual = actual;
          etag_found = found;
          matched = matched;
          unused = ap (λ (v : World S). node_at (temporary_path h p) v.tree) (sym s1) ∙ free;
          last = h.at_last (h.elsewhere w2.tree);
          last_eq = refl;
          written = n;
          moved = there;
          left = ap (λ (v : World S). v.tree) s3.1 ∙ left;
          service_kept =
              ap (λ (v : World S). v.service) s3.1
              ∙ (kept ∙ (ap (λ (v : World S). v.service) s2 ∙ ap (λ (v : World S). v.service) s1));
        },
        sym (cc (s3.0)),
      )
