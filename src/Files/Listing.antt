-- ===== src/Files/Listing.antt =====
-- list_dir and read of FileService (app/files.py). Times of change are not modelled.
use environments_api.Common.{
  ℕ, zero, suc, ◌+◌, ◌-◌, min, Bool, true, false, not, ◌&&◌, ◌||◌, Option, none, some, List, [],
  ◌∷◌, ◌++◌, ltb, leb, ◌==◌, if◌then◌else◌, length, take, drop, is_empty,
}
use environments_api.Common.Error.{not_found, validation_error}
use environments_api.Common.Result.{Result, ok, err, ◌>>=◌, ◌>>◌, guard}
use environments_api.Files.Tree.{
  Text, text_eq, FilePath, Bytes, Node, file, directory, link, other, Tree, node_at, size_of,
}
use environments_api.Files.Utf8.{Decoded, feed, finish_decode}
use environments_api.Files.Access.{walk, parent, open_file, metadata, Metadata}
use environments_api.Files.Mutations.{Host}

pub data Kind : Type 0 where
  symlink_kind directory_kind file_kind other_kind : Kind

-- `_kind`
abbrev pub kind_of : Node → Kind
kind_of (link target) = symlink_kind
kind_of directory = directory_kind
kind_of (file b) = file_kind
kind_of other = other_kind

pub record DirEntry : Type 0 where
  pub name : Text
  pub path : FilePath
  pub kind : Kind
  pub size : ℕ

-- `a <= b` of two names, by code points.
unfoldable pub name_le : Text → Text → Bool
name_le [] b = true
name_le (x ∷ xs) [] = false
name_le (x ∷ xs) (y ∷ ys) = ltb x y || (x == y) && name_le xs ys

unfoldable pub insert_name : Text → List Text → List Text
unfolding name_le
insert_name n [] = n ∷ []
insert_name n (m ∷ ms) = let rest = insert_name n ms in if name_le n m then n ∷ m ∷ ms else m ∷ rest

-- The name under which a path stands in the directory, if it does.
abbrev pub only_part : FilePath → Option Text
only_part [] = none
only_part (p ∷ []) = some p
only_part (p ∷ q ∷ ps) = none

unfoldable pub name_in : FilePath → FilePath → Option Text
unfolding text_eq
name_in [] q = only_part q
name_in (p ∷ ps) [] = none
name_in (p ∷ ps) (q ∷ qs) = if text_eq p q then name_in ps qs else none

abbrev pub add_name : Option Text → List Text → List Text
add_name none names = names
add_name (some n) names = insert_name n names

-- `sorted(os.listdir(descriptor))`
unfoldable pub names_in : FilePath → Tree → List Text
unfolding insert_name name_in
names_in at [] = []
names_in at ((q, n) ∷ t) = add_name (name_in at q) (names_in at t)

-- `fnmatch.fnmatchcase` is the standard library's.
module _ (h : Host) (matches : Text → Text → Bool) (spelling : FilePath → Text) where
  abbrev pub passes : Option Text → FilePath → Text → Bool
  passes none path name = true
  passes (some glob) path name = matches (spelling path) glob || matches name glob

  abbrev pub row : Option Text → FilePath → Text → Node → List DirEntry
  row glob path name n =
      if passes glob path name
      then (record {
        name = name;
        path = path;
        kind = kind_of n;
        size = size_of h.directory_size n;
      })
        ∷ []
      else []

  abbrev pub child_rows : Node → List DirEntry → List DirEntry
  child_rows directory rows = rows
  child_rows (file b) rows = []
  child_rows (link target) rows = []
  child_rows other rows = []

  -- The rows of one name: its own, and those below it.
  abbrev pub rows_of : Option Text → FilePath → Text → List DirEntry → Option Node → List DirEntry
  rows_of glob path name below none = []
  rows_of glob path name below (some n) = row glob path name n ++ child_rows n below

  unfoldable pub rows_over :
      Tree → Option Text → FilePath → (FilePath → List DirEntry) → List Text → List DirEntry
  unfolding node_at
  rows_over t glob at below [] = []
  rows_over t glob at below (name ∷ names) =
      let path = at ++ (name ∷ []) in
      rows_of glob path name (below path) (node_at path t) ++ rows_over t glob at below names

  -- `_list`
  unfoldable pub list_rows : Tree → Option Text → ℕ → FilePath → List DirEntry
  unfolding rows_over names_in
  list_rows t glob zero at = rows_over t glob at (λ path. []) (names_in at t)
  list_rows t glob (suc depth) at = rows_over t glob at (list_rows t glob depth) (names_in at t)

  abbrev pub listed_at : Tree → Option Text → ℕ → FilePath → Option Node → Result (List DirEntry)
  listed_at t glob depth p none = err not_found
  listed_at t glob depth p (some directory) = ok (list_rows t glob depth p)
  listed_at t glob depth p (some (file b)) = err not_found
  listed_at t glob depth p (some (link target)) = err not_found
  listed_at t glob depth p (some other) = err not_found

  -- `list_dir`
  unfoldable pub list_dir : Tree → Text → Option Text → ℕ → Result (List DirEntry)
  unfolding list_rows walk parent node_at
  list_dir t requested glob depth = do
    p ← h.relative_path requested
    (walk false [] (parent p) t).0
    listed_at t glob depth p (node_at p t)

pub record FileContent : Type 0 where
  pub path : FilePath
  pub size : ℕ
  pub offset : ℕ
  pub content : Text
  pub base64 : Bool
  pub truncated : Bool
  pub etag : Text
  pub next_offset : ℕ

-- A window of a text: what it decodes to, and its bytes up to the last whole character.
abbrev pub whole_chars : Bytes → ℕ → ℕ → Decoded → Result (Text × Bytes)
whole_chars window offset size none = err validation_error
whole_chars window offset size (some (text, held)) =
    let kept = take (length window - length held) window in
    guard (not (is_empty kept && ltb offset size)) validation_error >> ok (text, kept)

module _ (h : Host) where
  -- `data` and `text` of `read`, for a window of a file.
  unfoldable pub window_of : Metadata → Bytes → ℕ → Result (Text × Bytes)
  unfolding feed
  window_of m window offset =
      if m.binary
      then ok (h.b64encode window, window)
      else whole_chars window offset m.size
          (finish_decode (leb m.size (offset + length window)) (feed [] window))

  abbrev pub limit_of : Option ℕ → ℕ
  limit_of none = h.max_read
  limit_of (some max_bytes) = min max_bytes h.max_read

  abbrev pub page_of : FilePath → Metadata → ℕ → Text × Bytes → FileContent
  page_of p m offset (text, kept) = record {
    path = p;
    size = m.size;
    offset = offset;
    content = text;
    base64 = m.binary;
    truncated = ltb (offset + length kept) m.size;
    etag = m.etag;
    next_offset = offset + length kept;
  }

  -- The body of `read` for the bytes of the file.
  unfoldable pub read_page : FilePath → Bytes → ℕ → ℕ → Result FileContent
  unfolding window_of metadata
  read_page p b offset limit = do
    let m = metadata h.sha256_hex b
    chars ← window_of m (take limit (drop offset b)) offset
    ok (page_of p m offset chars)

  -- `read`
  unfoldable pub read_path : Tree → Text → ℕ → Option ℕ → Result FileContent
  unfolding read_page walk parent open_file
  read_path t requested offset max_bytes = do
    p ← h.relative_path requested
    (walk false [] (parent p) t).0
    b ← open_file p t
    read_page p b offset (limit_of max_bytes)
