-- ===== src/Files/Tests.antt =====
-- Runs of the file operations, and the theorems at such inputs.
use environments_api.Common.{
  ℕ, ◌<◌, ◌≡◌, refl, inl, Bool, true, false, not, none, some, List, [], ◌∷◌, arith, length, All,
}
use environments_api.Common.Error.{validation_error, not_found, file_changed, internal_error}
use environments_api.Common.Result.{ok, err}
use environments_api.Shells.Redact.{encode, starts_with}
use environments_api.FileEdits.Parse.{header_of, expect}
use environments_api.Shells.Framing.{digits_value}
use environments_api.FileEdits.{apply_parsed}
use environments_api.FileEdits.Unique.{ReplacesOne}
use environments_api.FileEdits.{replace_first}
use environments_api.Files.Tree.{
  Text, FilePath, file, directory, other, Tree, text_eq, path_eq, node_at, put,
}
use environments_api.Files.Tree.Laws.{node_at-put}
use environments_api.Files.Utf8.{decode, has_nul}
use environments_api.Files.Access.{
  check_match, etag_of, parent, strip, strip_left, strip_right, is_candidate,
}
use environments_api.Files.Action.{World, no_admit}
use environments_api.Files.Mutations.{Host, Mutation, write_result}
use environments_api.Files.Edits.{patch, patch_text, edit}
use environments_api.Files.Utf8.{classify}
use environments_api.Files.Utf8.Chunks.{is_text, concat, classify-concat}
use environments_api.Files.Utf8.Encoded.{IsScalar, decode-encode}
use environments_api.Files.Pages.{read_pages, read_pages-decode}
use environments_api.Files.Written.{IsSpared}
use environments_api.Files.Safe.{OnlyDirectories}
use environments_api.Files.Failures.{write_result-OnlyDirectories}
use environments_api.Files.Entries.{transfer, delete_path}
use environments_api.Files.Paths.{relative_path}
use environments_api.Files.Lines.{split_lines}
use environments_api.Files.Search.{Query, Mode, search_files}
use environments_api.Files.Updates.{Updates, patch-Updates, edit-Updates}
use environments_api.Files.Samples.{
  digest_of, digest, host, note_path, workspace, edited, edited_mutation,
}

edits :
    edit host note_path (b'b' ∷ []) (b'x' ∷ b'y' ∷ []) none no_admit workspace
    ≡ (ok edited_mutation, edited)
unfolding edit starts_with replace_first
edits = refl

log_IsSpared : IsSpared host (note_path ∷ [])
unfolding path_eq text_eq parent
log_IsSpared = (
  λ t.
      node_at-put ((b'l' ∷ b'o' ∷ b'g' ∷ []) ∷ []) ((b'.' ∷ b't' ∷ []) ∷ []) (file (b'1' ∷ [])) t
        refl,
  λ t.
      node_at-put ((b'l' ∷ b'o' ∷ b'g' ∷ []) ∷ []) ((b'.' ∷ b't' ∷ []) ∷ []) (file (b'1' ∷ [])) t
        refl,
)

edit-Updates_example :
    Updates host
      (note_path ∷ [])
      (λ old new. ReplacesOne old (b'b' ∷ []) (b'x' ∷ b'y' ∷ []) new)
      workspace.tree
      edited.tree
edit-Updates_example =
    edit-Updates host digest note_path (b'b' ∷ []) (b'x' ∷ b'y' ∷ []) none no_admit workspace edited
      edited_mutation (note_path ∷ []) refl log_IsSpared edits

-- A shell that changes the file while the new content is written: the edit is refused, and the
-- shell's content stays.
abbrev changing_host : Host
changing_host = record host { elsewhere = λ t. put (note_path ∷ []) (file (b'z' ∷ [])) t }

lost_race :
    (edit changing_host note_path (b'b' ∷ []) (b'x' ∷ []) none no_admit workspace).0
    ≡ err file_changed
unfolding edit starts_with replace_first
lost_race = refl

-- "aé" in pages of four bytes.
abbrev accented : List ℕ
accented = b'a' ∷ 0xe9 ∷ 0x20ac ∷ b'b' ∷ []

accented_scalars : All IsScalar accented
accented_scalars =
    (inl (omega arith), (inl (omega arith), (inl (omega arith), (inl (omega arith), tt))))

read_pages-decode_example : read_pages host [] (encode accented) 4 8 0 ≡ some (ok accented)
read_pages-decode_example =
    read_pages-decode host [] (encode accented) accented 4 8
      (decode-encode accented accented_scalars) plain (omega arith) short
  where
    plain : has_nul (encode accented) ≡ false
    plain = unfold encode has_nul in refl

    short : length (encode accented) < 8
    short = unfold encode in omega arith

decode-encode_example : decode (encode accented) ≡ some accented
decode-encode_example = decode-encode accented accented_scalars

classify-concat_example :
    classify ((b'a' ∷ 0xc3 ∷ []) ∷ (0xa9 ∷ []) ∷ []) ≡ (not (is_text (b'a' ∷ 0xc3 ∷ 0xa9 ∷ [])), 3)
unfolding concat
classify-concat_example = classify-concat ((b'a' ∷ 0xc3 ∷ []) ∷ (0xa9 ∷ []) ∷ [])

abbrev quiet_host : Host
quiet_host = record host { elsewhere = λ t. t; between = λ t. t; at_last = λ t. t }

-- The disk is full when the temporary file is written.
abbrev full_host : Host
full_host = record quiet_host { written = err validation_error }

failed_write :
    write_result full_host note_path (b'x' ∷ []) "utf-8" "overwrite" none no_admit workspace
    ≡ (err validation_error, workspace)
unfolding write_result
failed_write = refl

write_result-OnlyDirectories_example : OnlyDirectories workspace.tree workspace.tree
write_result-OnlyDirectories_example =
    write_result-OnlyDirectories full_host ((λ t. refl), (λ t. refl)) note_path (b'x' ∷ []) "utf-8"
      "overwrite" none no_admit workspace workspace validation_error failed_write

-- A move whose source is changed by a shell meanwhile: refused, and the copy that was written stays.
abbrev moved_copy : Text
moved_copy = b'm' ∷ []

copy_stays :
    node_at
      (moved_copy ∷ [])
      (transfer changing_host note_path moved_copy true none no_admit workspace).1.tree
    ≡ some (file (b'a' ∷ b'b' ∷ b'c' ∷ []))
unfolding transfer
copy_stays = refl

move_refused :
    (transfer changing_host note_path moved_copy true none no_admit workspace).0 ≡ err file_changed
unfolding transfer
move_refused = refl

-- A named pipe cannot be deleted by its path.
pipe_stays :
    (delete_path quiet_host
      (b'p' ∷ [])
      false
      none
      (record workspace { tree = ((b'p' ∷ []) ∷ [], other) ∷ [] })).0
    ≡ err not_found
unfolding delete_path
pipe_stays = refl

-- A spelling that leads back into the workspace from outside it is refused by `relative_to`, with an
-- error of Python's own.
round_about :
    relative_path
      ((b'/' ∷ []) ∷ (b'w' ∷ []) ∷ [])
      (λ p. (b'/' ∷ []) ∷ (b'w' ∷ []) ∷ [])
      (λ p. false)
      (b'/' ∷ b'x' ∷ b'/' ∷ b'.' ∷ b'.' ∷ b'/' ∷ b'w' ∷ [])
    ≡ err internal_error
unfolding relative_path
round_about = refl

-- Text and a carriage return with its line feed.
cut_lines : split_lines (b'a' ∷ 13 ∷ 10 ∷ b'b' ∷ []) ≡ (b'a' ∷ 13 ∷ 10 ∷ []) ∷ (b'b' ∷ []) ∷ []
unfolding split_lines
cut_lines = refl

abbrev star : List ℕ
star = b'*' ∷ []

wildcard : check_match (some star) (some (b'x' ∷ [])) ≡ ok tt
unfolding check_match strip strip_left strip_right is_candidate text_eq
wildcard = refl

-- A listing to any depth, and a search of it.
abbrev listing_tree : Tree
listing_tree =
    ((b'd' ∷ []) ∷ [], directory)
    ∷ ((b'd' ∷ []) ∷ (b'f' ∷ []) ∷ [], file (b'x' ∷ 10 ∷ b'y' ∷ b'x' ∷ []))
    ∷ []

abbrev every_name : Text → Text → Bool
every_name text glob = true

abbrev first_part : FilePath → Text
first_part [] = []
first_part (p ∷ ps) = p

abbrev query : Query
query = record {
  pattern = b'x' ∷ [];
  mode = Mode.content;
  limit = 1;
  before = 0;
  after = 0;
  max_file_bytes = 10;
}

abbrev root_host : Host
root_host = record host { relative_path = λ requested. ok [] }

counted :
    (search_files root_host every_name first_part query listing_tree (λ k. listing_tree) [] none 1)
    ≡ ok (record {
      matches =
          (record {
            path = (b'd' ∷ []) ∷ (b'f' ∷ []) ∷ [];
            lines =
                (record { line = 1; text = b'x' ∷ []; matched = true; original_chars = 1 }) ∷ [];
          })
          ∷ [];
      total_matches = 2;
      truncated = true;
      skipped_binary = [];
      skipped_large = [];
      skipped_unavailable = [];
    })
unfolding search_files starts_with
counted = refl

-- `@@ -2 +2 @@`, `-b`, `+x`, for a file of the lines a and b.
abbrev hunk_text : Text
hunk_text =
    b'@' ∷ b'@' ∷ b' ' ∷ b'-' ∷ b'2' ∷ b' ' ∷ b'+' ∷ b'2' ∷ b' ' ∷ b'@' ∷ b'@' ∷ 10 ∷ b'-' ∷ b'b'
    ∷ 10 ∷ b'+' ∷ b'x' ∷ 10 ∷ []

abbrev lines_workspace : World (Unit {0})
lines_workspace = record {
  tree = (note_path ∷ [], file (b'a' ∷ 10 ∷ b'b' ∷ 10 ∷ [])) ∷ [];
  service = tt;
}

abbrev patched : World (Unit {0})
patched = record {
  tree =
      (note_path ∷ [], file (b'a' ∷ 10 ∷ b'x' ∷ 10 ∷ []))
      ∷ ((b'l' ∷ b'o' ∷ b'g' ∷ []) ∷ [], file (b'1' ∷ []))
      ∷ [];
  service = tt;
}

abbrev patched_mutation : Mutation
patched_mutation = record edited_mutation {
  etag = etag_of digest_of (b'a' ∷ 10 ∷ b'x' ∷ 10 ∷ []);
  diff = b'a' ∷ 10 ∷ b'x' ∷ 10 ∷ [];
  applied_hunks = 1 ∷ [];
}

patches :
    patch host note_path hunk_text none no_admit lines_workspace ≡ (ok patched_mutation, patched)
unfolding patch starts_with header_of expect digits_value apply_parsed
patches = refl

patch-Updates_example :
    Updates host
      (note_path ∷ [])
      (λ old new.
        patch_text old hunk_text ≡ ok (record { text = new; applied = 1 ∷ []; rejected = [] }))
      lines_workspace.tree
      patched.tree
patch-Updates_example =
    patch-Updates host digest note_path hunk_text none no_admit lines_workspace patched
      patched_mutation (note_path ∷ []) refl log_IsSpared patches

abbrev moved : World (Unit {0})
moved = record {
  tree =
      (moved_copy ∷ [], file (b'a' ∷ b'b' ∷ b'c' ∷ []))
      ∷ ((b'l' ∷ b'o' ∷ b'g' ∷ []) ∷ [], file (b'1' ∷ []))
      ∷ [];
  service = tt;
}

abbrev moved_mutation : Mutation
moved_mutation = record edited_mutation {
  path = moved_copy ∷ [];
  size = 3;
  etag = etag_of digest_of (b'a' ∷ b'b' ∷ b'c' ∷ []);
  diff = [];
}
