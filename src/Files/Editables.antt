-- ===== src/Files/Editables.antt =====
-- _editable (app/files.py): what reading a file for an edit has found.
use environments_api.Common.{
  ◌≡◌, refl, sym, ap, ◌∙◌, Bool, true, false, not, ◌||◌, Option, none, some, [], ◌∷◌, ◌++◌, ltb,
  length,
}
use environments_api.Common.Error.{internal_error, validation_error}
use environments_api.Common.Result.{Result, ok, err}
use environments_api.Files.Tree.{
  FilePath, Bytes, Text, Node, file, directory, link, other, Tree, node_at,
}
use environments_api.Files.Access.{
  check_match, walk, parent, etag_of, metadata, open_file, open_node, bytes_of, enter_directory,
  go_on,
}
use environments_api.Files.Action.{World, and_then, raise_if, or_raise, pure, ◌>>=◌, ◌>>◌}
use environments_api.Files.Utf8.{decode}
use environments_api.Files.Utf8.Chunks.{is_text}
use environments_api.Files.Edits.{Content, as_text, editable_at, editable}
use environments_api.Files.Mutations.{Host}
use environments_api.Files.Returns.{lift_then-ok, under_parent-ok}

-- What `_editable` gives: the text of the file, and its validator.
pub record Editable (h : Host) (requested : Text) (c : Content) (t : Tree) : Type 0 where
  pub named : h.relative_path requested ≡ ok c.path
  pub bytes : Bytes
  pub stood : node_at c.path t ≡ some (file bytes)
  pub decoded : decode bytes ≡ some c.text
  pub tagged : c.etag ≡ etag_of h.sha256_hex bytes

bytes_of-ok : (o : Option Node) {b : Bytes} → bytes_of (open_node o) ≡ ok b → o ≡ some (file b)
bytes_of-ok none e = absurd cc
bytes_of-ok (some (file b)) e = cc
bytes_of-ok (some directory) e = absurd cc
bytes_of-ok (some (link target)) e = absurd cc
bytes_of-ok (some other) e = absurd cc

pub open_file-ok :
    (p : FilePath) (t : Tree) {b : Bytes} → open_file p t ≡ ok b → node_at p t ≡ some (file b)
unfolding open_file
open_file-ok p t e = bytes_of-ok (node_at p t) e

-- A walk that creates nothing leaves the tree.
pub walk-same : (at parts : FilePath) (t : Tree) → (walk false at parts t).1 ≡ t
unfolding walk
walk-same at [] t = refl
walk-same at (part ∷ parts) t =
    by_entry (enter_directory (node_at (at ++ (part ∷ [])) t))
      (walk-same (at ++ (part ∷ [])) parts t)
  where
    by_entry :
        (r : Result (Unit {0}))
        → (walk false (at ++ (part ∷ [])) parts t).1 ≡ t
        → (go_on t (walk false (at ++ (part ∷ [])) parts) r).1 ≡ t
    by_entry (ok tt) h = h
    by_entry (err e) h = refl

module _ (h : Host) {S : Type 0} where
  as_text-ok :
      (p : FilePath) (if_match : Option Text) (b : Bytes) (w w' : World S) {c : Content}
      → as_text h p if_match b w ≡ (ok c, w')
      → (c.path ≡ p) × (decode b ≡ some c.text) × (c.etag ≡ etag_of h.sha256_hex b) × (w' ≡ w)
  unfolding metadata
  as_text-ok p if_match b w w' {c} e =
      by_steps (check_match if_match (some (etag_of h.sha256_hex b)))
        (not (is_text b) || ltb h.max_write (length b)) (decode b) refl e
    where
      by_steps :
          (m : Result (Unit {0})) (refuse : Bool) (o : Option Text)
          → decode b ≡ o
          → and_then
              (m, w)
              (λ _.
                raise_if refuse validation_error
                >> (or_raise o internal_error >>= λ text.
                    pure (record { path = p; text = text; etag = etag_of h.sha256_hex b })))
            ≡ (ok c, w')
          → (c.path ≡ p) × (decode b ≡ some c.text) × (c.etag ≡ etag_of h.sha256_hex b) × (w' ≡ w)
      by_steps (ok tt) false (some text) d e = (cc, cc, cc, cc)
      by_steps (ok tt) false none d e = absurd cc
      by_steps (ok tt) true o d e = absurd cc
      by_steps (err x) refuse o d e = absurd cc

  pub editable-Editable :
      (requested : Text) (if_match : Option Text) (w w' : World S) {c : Content}
      → editable h requested if_match w ≡ (ok c, w')
      → Editable h requested c w.tree
  unfolding editable
  editable-Editable requested if_match w w' {c} e =
      let (p, named, r1) = lift_then-ok (h.relative_path requested) (editable_at h if_match) w e in
      let (_, r2) = under_parent-ok false p _ w r1 in
      let t : Tree = (walk false [] (parent p) w.tree).1 in
      let v : World S = record w { tree = t } in
      let (b, opened, r3) = lift_then-ok (open_file p t) (as_text h p if_match) v r2 in
      let (path, decoded, tagged, _) = as_text-ok p if_match b v w' r3 in
      record {
        named = named ∙ ap ok (sym path);
        bytes = b;
        stood =
            ap (λ q. node_at q w.tree) path
            ∙ (ap (node_at p) (sym (walk-same [] (parent p) w.tree)) ∙ open_file-ok p t opened);
        decoded = decoded;
        tagged = tagged;
      }
