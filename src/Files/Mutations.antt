-- ===== src/Files/Mutations.antt =====
-- The mutations of FileService (app/files.py). Shells work in the same directory without the lock:
-- what they do between an edit's read and its write is `between`, what they do while a commit
-- writes its temporary file, or a transfer its destination, is `elsewhere`, and what they do between
-- the last check and the call behind it is `at_last`. `written` and `replaced` say whether the writing
-- of the temporary file (write, flush, fsync, fchown) and os.replace go through or raise; what part of
-- the content a failed write has left in the temporary file is not told apart. Owners of files are not
-- modelled.
use environments_api.Common.{
  ℕ, ◌+◌, String, Bool, true, false, not, ◌||◌, Option, none, some, List, [], ◌∷◌, ◌++◌, str_eq,
  ltb, if◌then◌else◌, length, take,
}
use environments_api.Common.Assoc.{is_none}
use environments_api.Common.Error.{Error, not_found, validation_error}
use environments_api.Common.Result.{Result, ok, err}
use environments_api.Common.Int.{ℤ, pos, sub_ℕ}
use environments_api.Shells.Redact.{encode}
use environments_api.Files.Tree.{
  Text, FilePath, Bytes, Node, file, directory, link, other, Tree, node_at, put, erase, size_of,
}
use environments_api.Files.Access.{check_match, walk, parent, open_file, etag_of, current_etag}
use environments_api.Files.Action.{
  Admit, Action, pure, lift, reads, modify, and_then, ◌>>=◌, ◌>>◌, raise_if, finally, with_admit,
}

-- What the operations call: hashlib, base64, difflib, the paths of app/file_safety.py at the host's
-- file system, the drawn name of the temporary file, and the two limits.
pub record Host : Type 0 where
  pub sha256_hex : Bytes → Text
  pub b64decode : Text → Option Bytes
  pub b64encode : Bytes → Text
  pub unified_diff : Text → Text → Text → Text
  pub relative_path : Text → Result FilePath
  pub temporary : Text
  pub between : Tree → Tree
  pub elsewhere : Tree → Tree
  pub at_last : Tree → Tree
  pub written : Result (Unit {0})
  pub replaced : Result (Unit {0})
  pub directory_size : ℕ
  pub max_read : ℕ
  pub max_write : ℕ

pub record Mutation : Type 0 where
  pub path : FilePath
  pub size : ℕ
  pub etag : Text
  pub diff : Text
  pub applied_hunks : List ℕ
  pub rejected_hunks : List ℕ

module _ {S : Type 0} where
  -- `with parent_fd(workspace, relative, create=create): body`
  abbrev pub under_parent : {A : Type 0} → Bool → FilePath → Action S A → Action S A
  under_parent create p body w =
      let (r, t) = walk create [] (parent p) w.tree in
      and_then (r, record w { tree = t }) (λ _. body)

module _ (h : Host) where
  abbrev pub or_invalid : Option Bytes → Result Bytes
  or_invalid none = err validation_error
  or_invalid (some b) = ok b

  abbrev pub within_limit : Result Bytes → Result Bytes
  within_limit (err e) = err e
  within_limit (ok b) = if ltb h.max_write (length b) then err validation_error else ok b

  -- `_data`
  unfoldable pub content_bytes : Text → String → Result Bytes
  unfolding encode
  content_bytes content encoding = within_limit (
      if str_eq encoding "base64"
      then or_invalid (h.b64decode content)
      else if str_eq encoding "utf-8"
      then ok (encode content)
      else err validation_error)

  -- The temporary file stands beside the file.
  abbrev pub temporary_path : FilePath → FilePath
  temporary_path p = parent p ++ (h.temporary ∷ [])

  abbrev pub rename_node : FilePath → FilePath → Option Node → Tree → Result (Unit {0}) × Tree
  rename_node from to none t = (err not_found, t)
  rename_node from to (some n) t = (ok tt, put to n (erase from t))

  abbrev pub exists_at : FilePath → Tree → Bool
  exists_at p t = not (is_none (node_at p t))

  abbrev pub stat_size : Option Node → ℕ
  stat_size none = 0
  stat_size (some n) = size_of h.directory_size n

  abbrev pub size_behind : FilePath → Tree → Result (Unit {0}) → Result ℕ
  size_behind p t (ok found) = ok (stat_size (node_at p t))
  size_behind p t (err not_found) = ok 0
  size_behind p t (err e) = err e

  -- `_size`
  unfoldable pub old_size : FilePath → Tree → Result ℕ
  unfolding walk parent node_at
  old_size p t = size_behind p t (walk false [] (parent p) t).0

  abbrev pub growth_of : Bool → FilePath → Bytes → Tree → Result ℤ
  growth_of true p content t = ok (pos (length content))
  growth_of false p content t = elim (old_size p t) [
    | err e ↦ err e
    | ok old ↦ ok (sub_ℕ (length content) old)
  ]

  abbrev pub is_directory : Option Node → Bool
  is_directory (some directory) = true
  is_directory (some (file b)) = false
  is_directory (some (link target)) = false
  is_directory (some other) = false
  is_directory none = false

  module _ {S : Type 0} where
    -- `check_match(expected, current_etag(parent, name))`
    abbrev pub check_current : FilePath → Option Text → Action S (Unit {0})
    check_current p expected = do
      actual ← reads (current_etag h.sha256_hex p)
      lift (check_match expected actual)

    -- `os.replace`
    abbrev pub rename : FilePath → FilePath → Action S (Unit {0})
    rename from to w =
        let (r, t) = rename_node from to (node_at from w.tree) w.tree in (r, record w { tree = t })

    -- `os.open(..., O_CREAT | O_EXCL)`, and the bytes written to it.
    abbrev pub create_file : FilePath → Bytes → Error → Action S (Unit {0})
    create_file p content taken = do
      there ← reads (λ t. ok (exists_at p t))
      raise_if there taken
      modify (put p (file content))

    -- The temporary file takes the place of the file, unless that has changed, and is gone in the end.
    unfoldable pub replace_checked : FilePath → Option Text → Action S (Unit {0})
    unfolding check_match current_etag node_at put erase
    replace_checked p expected = finally (erase (temporary_path p)) (do
      modify h.elsewhere
      lift h.written
      check_current p expected
      modify h.at_last
      lift h.replaced
      rename (temporary_path p) p)

    -- `_commit`
    unfoldable pub commit : FilePath → Bytes → Option Text → Action S Text
    unfolding replace_checked check_match current_etag node_at put erase etag_of
    commit p content expected = do
      check_current p expected
      create_file (temporary_path p) content validation_error
      replace_checked p expected
      pure (etag_of h.sha256_hex content)

    -- The file as `_write` finds it in append mode: its validator and its bytes with the new ones.
    abbrev pub appended :
        FilePath → Bytes → Option Text → Option Text → Action S (Option Text × Bytes)
    appended p content if_match none = pure (if_match, content)
    appended p content if_match (some etag) = do
      whole ← reads (open_file p)
      let previous = take (h.max_write + 1) whole
      let expected = etag_of h.sha256_hex previous
      lift (check_match if_match (some expected))
      content' ← lift (content_bytes (h.b64encode (previous ++ content)) "base64")
      pure (some expected, content')

    abbrev pub to_write : Bool → FilePath → Bytes → Option Text → Action S (Option Text × Bytes)
    to_write append p content if_match =
        if append
        then (reads (current_etag h.sha256_hex p) >>= appended p content if_match)
        else pure (if_match, content)

    -- `_write`
    unfoldable pub write_under : FilePath → Bytes → Bool → Option Text → Action S Mutation
    unfolding commit content_bytes walk parent open_file
    write_under p content append if_match = under_parent true p (do
      (expected, content') ← to_write append p content if_match
      etag ← commit p content' expected
      pure (record {
        path = p;
        size = length content';
        etag = etag;
        diff = [];
        applied_hunks = [];
        rejected_hunks = [];
      }))

    -- `write_result` behind the checks of its arguments: what is asked of the quota, and the write.
    unfoldable pub write_at : FilePath → Bytes → Bool → Option Text → Admit S → Action S Mutation
    unfolding write_under old_size node_at with_admit
    write_at p b append if_match admit = do
      at_directory ← reads (λ t. ok (is_directory (node_at p t)))
      raise_if at_directory validation_error
      growth ← reads (growth_of append p b)
      with_admit admit growth (write_under p b append if_match)

    abbrev pub write_bytes : Text → String → Option Text → Admit S → Bytes → Action S Mutation
    write_bytes requested mode if_match admit b = do
      raise_if (not (str_eq mode "overwrite" || str_eq mode "append")) validation_error
      p ← lift (h.relative_path requested)
      write_at p b (str_eq mode "append") if_match admit

    -- `write_result`
    unfoldable pub write_result :
        Text → Text → String → String → Option Text → Admit S → Action S Mutation
    unfolding content_bytes write_at
    write_result requested content encoding mode if_match admit = do
      b ← lift (content_bytes content encoding)
      write_bytes requested mode if_match admit b
