-- ===== src/Files/Updates.antt =====
-- edit and patch (app/files.py): they replace what they have read, whatever shells do meanwhile.
use environments_api.Common.{◌≡◌, sym, ap, ◌∙◌, false, Option, some, [], if◌then◌else◌}
use mathlib.Core.Path.{subst}
use environments_api.Common.Result.{Result, ok, ok-injective}
use environments_api.Shells.Redact.{encode}
use environments_api.FileEdits.{replace_unique}
use environments_api.FileEdits.Unique.{ReplacesOne, replace_unique-ReplacesOne}
use environments_api.Files.Tree.{FilePath, Bytes, Text, file, Tree, path_eq, node_at, put}
use environments_api.Files.Utf8.{decode}
use environments_api.Files.Access.{check_match}
use environments_api.Files.Validators.{IsHexdigest, current_etag-same}
use environments_api.Files.Action.{World, Admit}
use environments_api.Files.Mutations.{Host, Mutation, temporary_path, write_result}
use environments_api.Files.Edits.{
  Content, editable, write_back, edit, edit_content, patch, patch_content, with_hunks, patch_text,
}
use environments_api.Files.Editables.{Editable, editable-Editable}
use environments_api.Files.Returns.{and_then-ok, lift_then-ok}
use environments_api.Files.Commits.{Committed}
use environments_api.Files.Written.{IsSpared, Committed-node_at, write_result-Committed}

-- What was read at the path at first, and decoded to the old text; at the last check, in the tree that
-- the shells had left, the file held contents of the same digest. In the end it holds the new text,
-- which is as `change` says of the old one, and every other path is as the shells left it at last.
pub record Updates (h : Host) (p : FilePath) (change : Text → Text → Type 0) (t t' : Tree)
    : Type 0 where
  pub before : Tree
  pub earlier : Tree
  pub left_by_shells : before ≡ h.elsewhere earlier
  pub old_bytes : Bytes
  pub old_text : Text
  pub new_text : Text
  pub was_read : node_at p t ≡ some (file old_bytes)
  pub decoded : decode old_bytes ≡ some old_text
  pub checked_bytes : Bytes
  pub stood : node_at p before ≡ some (file checked_bytes)
  pub same_digest : h.sha256_hex checked_bytes ≡ h.sha256_hex old_bytes
  pub changed : change old_text new_text
  pub after :
      (q : FilePath)
      → path_eq (temporary_path h p) q ≡ false
      → node_at q t'
        ≡ (if path_eq p q then some (file (encode new_text)) else node_at q (h.at_last before))

module _ (h : Host) (digest : IsHexdigest h.sha256_hex) {S : Type 0} where
  -- Writing back what was made of an editable content, under its validator.
  write_back-Updates :
      (requested : Text) (c : Content) (new : Text) (change : Text → Text → Type 0)
      (admit : Admit S) (t : Tree) (w w' : World S) {m : Mutation}
      → IsSpared h c.path
      → Editable h requested c t
      → change c.text new
      → write_back h requested c new admit w ≡ (ok m, w')
      → Updates h c.path change t w'.tree
  unfolding write_back
  write_back-Updates requested c new change admit t w w' {m} spared read made e =
      let between : World S = record w { tree = h.between w.tree } in
      let (m0, v0, e0, r0) =
        and_then-ok (write_result h requested new "utf-8" "overwrite" (some c.etag) admit between) _
          e in
      let (p, named, proper, at_commit) =
        write_result-Committed h requested new (some c.etag) admit between v0 e0 in
      let here : p ≡ c.path = ok-injective (sym named ∙ read.named) in
      let committed : Committed h c.path (encode new) (some c.etag) at_commit.0 v0 =
        subst (λ q. Committed h q (encode new) (some c.etag) at_commit.0 v0) here at_commit.1 in
      let final : v0.tree ≡ w'.tree = ap (λ (x : Result Mutation × World S). x.1.tree) r0 in
      subst (λ u. Updates h c.path change t u) final
        (from_commit at_commit.0 v0 committed (subst (λ q. path_eq q [] ≡ false) here proper))
    where
      from_commit :
          (v v0 : World S) (committed : Committed h c.path (encode new) (some c.etag) v v0)
          → path_eq c.path [] ≡ false
          → Updates h c.path change t v0.tree
      from_commit v v0 committed proper =
          let (b, stood, same) =
            current_etag-same h.sha256_hex digest c.path committed.found read.bytes committed.actual
              committed.etag_found
              (subst (λ x. check_match (some x) committed.actual ≡ ok tt) read.tagged
                committed.matched) in
          record {
            before = committed.found;
            earlier = put (temporary_path h c.path) (file (encode new)) v.tree;
            left_by_shells = committed.found_eq;
            old_bytes = read.bytes;
            old_text = c.text;
            new_text = new;
            was_read = read.stood;
            decoded = read.decoded;
            checked_bytes = b;
            stood = stood;
            same_digest = same;
            changed = made;
            after = λ q other.
                Committed-node_at h c.path (encode new) (some c.etag) v v0 spared proper committed q
                  other
                ∙ ap (λ u. if path_eq c.path q then some (file (encode new)) else node_at q u)
                    committed.last_eq;
          }

  -- Take an edit that returns, with shells that act between its read and its write, while it writes,
  -- and between its last check and os.replace, and leave its temporary file alone. It read a file
  -- that decodes to a text; at the last check, in the tree that the shells had left, the path held a
  -- file whose content has the same SHA-256 as what was read; in the end the path holds that text
  -- with one occurrence replaced, and every other path but the temporary one is as the shells left it
  -- after the check. What they do to the path itself after the check is overwritten. Digests are
  -- written in hexadecimal, and may collide.
  pub edit-Updates :
      (requested old_string new_string : Text) (if_match : Option Text) (admit : Admit S)
      (w w' : World S) (m : Mutation) (p : FilePath)
      → h.relative_path requested ≡ ok p
      → IsSpared h p
      → edit h requested old_string new_string if_match admit w ≡ (ok m, w')
      → Updates h p (λ old new. ReplacesOne old old_string new_string new) w.tree w'.tree
  unfolding edit
  edit-Updates requested old_string new_string if_match admit w w' m p named spared e =
      let (c, w1, e1, r1) =
        and_then-ok (editable h requested if_match w)
          (edit_content h requested old_string new_string admit) e in
      let read = editable-Editable h requested if_match w w1 e1 in
      let (new, made, r2) =
        lift_then-ok (replace_unique c.text old_string new_string)
          (λ new. write_back h requested c new admit) w1 r1 in
      let here : p ≡ c.path = ok-injective (sym named ∙ read.named) in
      subst
        (λ q. Updates h q (λ old text. ReplacesOne old old_string new_string text) w.tree w'.tree)
        (sym here)
        (write_back-Updates requested c new (λ old text. ReplacesOne old old_string new_string text)
          admit w.tree w1 w' (subst (λ q. IsSpared h q) here spared) read
          (replace_unique-ReplacesOne c.text old_string new_string new made) r2)

  -- The same for a patch that returns, with shells that leave its temporary file alone: at the last
  -- check the path held a file whose content has the same SHA-256 as what was read; in the end it
  -- holds what `apply_patch` makes of the text that was read, with the applied and rejected hunks that
  -- the result names, and every other path but the temporary one is as the shells left it after the
  -- check. What they do to the path itself after the check is overwritten.
  pub patch-Updates :
      (requested hunks : Text) (if_match : Option Text) (admit : Admit S) (w w' : World S)
      (m : Mutation) (p : FilePath)
      → h.relative_path requested ≡ ok p
      → IsSpared h p
      → patch h requested hunks if_match admit w ≡ (ok m, w')
      → Updates h p
          (λ old new.
            patch_text old hunks
            ≡ ok (record { text = new; applied = m.applied_hunks; rejected = m.rejected_hunks }))
          w.tree
          w'.tree
  unfolding patch
  patch-Updates requested hunks if_match admit w w' m p named spared e =
      let (c, w1, e1, r1) =
        and_then-ok (editable h requested if_match w) (patch_content h requested hunks admit) e in
      let read = editable-Editable h requested if_match w w1 e1 in
      let (new, made, r2) = lift_then-ok (patch_text c.text hunks) _ w1 r1 in
      let (m0, w2, e2, r3) = and_then-ok (write_back h requested c new.text admit w1) _ r2 in
      let here : p ≡ c.path = ok-injective (sym named ∙ read.named) in
      let told : with_hunks new m0 ≡ m =
        ok-injective (ap (λ (x : Result Mutation × World S). x.0) r3) in
      let made' : patch_text c.text hunks
          ≡ ok
              (record { text = new.text; applied = m.applied_hunks; rejected = m.rejected_hunks }) =
        made
        ∙ ap
            (λ (x : Mutation).
              ok (record {
                text = new.text;
                applied = x.applied_hunks;
                rejected = x.rejected_hunks;
              }))
            told in
      let change : Text → Text → Type 0 = λ old text.
        patch_text old hunks
        ≡ ok (record { text = text; applied = m.applied_hunks; rejected = m.rejected_hunks }) in
      subst (λ q. Updates h q change w.tree w'.tree) (sym here)
        (subst (λ u. Updates h c.path change w.tree u)
          (ap (λ (x : Result Mutation × World S). x.1.tree) r3)
          (write_back-Updates requested c new.text change admit w.tree w1 w2
            (subst (λ q. IsSpared h q) here spared) read made' e2))
