-- ===== src/Files/Edits.antt =====
-- edit and patch of FileService (app/files.py): a file that is read, changed as a text and written
-- back under the validator that it was read with.
use environments_api.Common.{ℕ, false, ◌||◌, Option, none, some, List, [], ◌∷◌, ◌++◌, ltb}
use environments_api.Common.Error.{validation_error, internal_error}
use environments_api.Common.Result.{Result, ok, err}
use environments_api.FileEdits.{Line, replace_unique}
use environments_api.FileEdits.Parse.{apply_patch}
use environments_api.Files.Tree.{Text, FilePath, Bytes}
use environments_api.Files.Utf8.{decode}
use environments_api.Files.Access.{check_match, open_file, metadata}
use environments_api.Files.Lines.{split_lines}
use environments_api.Files.Action.{
  Admit, Action, pure, lift, or_raise, reads, modify, ◌>>=◌, ◌>>◌, raise_if,
}
use environments_api.Files.Mutations.{Host, Mutation, under_parent, write_result}

unfoldable pub join : List Line → Text
join [] = []
join (l ∷ ls) = l ++ join ls

-- What a patch makes of a text, with the numbers of the hunks.
pub record Patched : Type 0 where
  pub text : Text
  pub applied : List ℕ
  pub rejected : List ℕ

abbrev pub patched_of : Option (Result (List Line × List ℕ × List ℕ)) → Result Patched
patched_of none = err internal_error
patched_of (some (err e)) = err e
patched_of (some (ok (ls, applied, rejected))) =
    ok (record { text = join ls; applied = applied; rejected = rejected })

-- `apply_patch` of two texts; its loop always ends within the rounds given.
unfoldable pub patch_text : Text → Text → Result Patched
unfolding join apply_patch split_lines
patch_text old patch = patched_of (apply_patch (split_lines old) (split_lines patch))

pub record Content : Type 0 where
  pub path : FilePath
  pub text : Text
  pub etag : Text

abbrev pub with_hunks : Patched → Mutation → Mutation
with_hunks new m = record m { applied_hunks = new.applied; rejected_hunks = new.rejected }

module _ (h : Host) {S : Type 0} where
  -- The body of `_editable` for the bytes of the file.
  abbrev pub as_text : FilePath → Option Text → Bytes → Action S Content
  as_text p if_match b = do
    lift (check_match if_match (some (metadata h.sha256_hex b).etag))
    raise_if ((metadata h.sha256_hex b).binary || ltb h.max_write (metadata h.sha256_hex b).size)
        validation_error
    text ← or_raise (decode b) internal_error
    pure (record { path = p; text = text; etag = (metadata h.sha256_hex b).etag })

  abbrev pub editable_at : Option Text → FilePath → Action S Content
  editable_at if_match p = under_parent false p (reads (open_file p) >>= as_text p if_match)

  -- `_editable`
  unfoldable pub editable : Text → Option Text → Action S Content
  unfolding metadata open_file check_match decode
  editable requested if_match = lift (h.relative_path requested) >>= editable_at if_match

  -- The text is written back under the validator of what was read, and the diff is told.
  unfoldable pub write_back : Text → Content → Text → Admit S → Action S Mutation
  unfolding write_result
  write_back requested content new admit = do
    modify h.between
    changed ← write_result h requested new "utf-8" "overwrite" (some content.etag) admit
    pure (record changed { diff = h.unified_diff requested content.text new })

  abbrev pub edit_content : Text → Text → Text → Admit S → Content → Action S Mutation
  edit_content requested old_string new_string admit content = do
    new ← lift (replace_unique content.text old_string new_string)
    write_back requested content new admit

  -- `edit`
  unfoldable pub edit : Text → Text → Text → Option Text → Admit S → Action S Mutation
  unfolding editable replace_unique write_back
  edit requested old_string new_string if_match admit = do
    content ← editable requested if_match
    edit_content requested old_string new_string admit content

  abbrev pub patch_content : Text → Text → Admit S → Content → Action S Mutation
  patch_content requested hunks admit content = do
    new ← lift (patch_text content.text hunks)
    changed ← write_back requested content new.text admit
    pure (with_hunks new changed)

  -- `patch`
  unfoldable pub patch : Text → Text → Option Text → Admit S → Action S Mutation
  unfolding editable patch_text write_back
  patch requested hunks if_match admit = do
    content ← editable requested if_match
    patch_content requested hunks admit content
