-- ===== src/Files/Search.antt =====
-- app/file_search.py: the search for a literal text in the files of a directory.
use environments_api.Common.{
  ℕ, zero, suc, ◌+◌, ◌-◌, Bool, true, false, not, ◌||◌, Option, none, some, List, [], ◌∷◌, ◌++◌,
  map, ltb, ◌==◌, if◌then◌else◌, length, take, is_empty,
}
use environments_api.Common.Error.{validation_error}
use environments_api.Common.Result.{Result, ok, err, ◌>>=◌, ◌>>◌, guard}
use environments_api.Shells.Redact.{starts_with}
use environments_api.Files.Tree.{Text, FilePath, Bytes, Tree}
use environments_api.Files.Utf8.{decode}
use environments_api.Files.Access.{walk, parent, open_file, metadata}
use environments_api.Files.Lines.{split_lines, without_end}
use environments_api.Files.Mutations.{Host}
use environments_api.Files.Listing.{
  DirEntry, Kind, file_kind, directory_kind, symlink_kind, other_kind, list_dir,
}

pub record SearchLine : Type 0 where
  pub line : ℕ
  pub text : Text
  pub matched : Bool
  pub original_chars : ℕ

pub record SearchMatch : Type 0 where
  pub path : FilePath
  pub lines : List SearchLine

pub record SearchResult : Type 0 where
  pub matches : List SearchMatch
  pub total_matches : ℕ
  pub truncated : Bool
  pub skipped_binary : List FilePath
  pub skipped_large : List FilePath
  pub skipped_unavailable : List FilePath

pub data Mode : Type 0 where
  files_with_matches content : Mode

-- The arguments that a search is asked with.
pub record Query : Type 0 where
  pub pattern : Text
  pub mode : Mode
  pub limit : ℕ
  pub before : ℕ
  pub after : ℕ
  pub max_file_bytes : ℕ

-- The lists that the loops fill; `total > len(matches)` is taken at the end.
pub record Found : Type 0 where
  pub matches : List SearchMatch
  pub total : ℕ
  pub skipped_binary : List FilePath
  pub skipped_large : List FilePath
  pub skipped_unavailable : List FilePath

-- `pattern in line`
unfoldable pub contains : Text → Text → Bool
unfolding starts_with
contains pattern [] = is_empty pattern
contains pattern (c ∷ cs) = starts_with (c ∷ cs) pattern || contains pattern cs

-- The lines from `number`, of which `skip` are passed over and at most `count` shown.
unfoldable pub context_from : ℕ → ℕ → ℕ → ℕ → List Text → List SearchLine
context_from index number skip count [] = []
context_from index number (suc skip) count (l ∷ ls) = context_from index (number + 1) skip count ls
context_from index number zero zero (l ∷ ls) = []
context_from index number zero (suc count) (l ∷ ls) =
    (record {
      line = number + 1;
      text = take 2000 l;
      matched = number == index;
      original_chars = length l;
    })
    ∷ context_from index (number + 1) zero count ls

-- `range(max(0, index - before), min(len(lines), index + after + 1))`
abbrev pub context_of : Query → List Text → ℕ → List SearchLine
context_of q lines index = elim q.mode [
  | files_with_matches ↦ []
  | content ↦
      context_from index 0 (index - q.before) (index + q.after + 1 - (index - q.before)) lines
]

abbrev pub count_match : Query → FilePath → List Text → ℕ → Found → Found
count_match q path lines index f =
    if ltb (length f.matches) q.limit
    then record f {
      total = f.total + 1;
      matches = f.matches ++ ((record { path = path; lines = context_of q lines index }) ∷ []);
    }
    else record f { total = f.total + 1 }

-- The inner loop; in the mode of file names it ends at the first line that matches.
unfoldable pub search_lines : Query → FilePath → List Text → ℕ → List Text → Found → Found
unfolding contains context_from
search_lines q path lines index [] f = f
search_lines q path lines index (l ∷ ls) f = elim (contains q.pattern l) [
  | false ↦ search_lines q path lines (index + 1) ls f
  | true ↦ elim q.mode [
    | files_with_matches ↦ count_match q path lines index f
    | content ↦ search_lines q path lines (index + 1) ls (count_match q path lines index f)
  ]
]

module _ (h : Host) where
  abbrev pub search_text : Query → FilePath → Found → Option Text → Found
  search_text q path f none = record f {
    skipped_unavailable = f.skipped_unavailable ++ (path ∷ []);
  }
  search_text q path f (some text) =
      let lines = map without_end (split_lines text) in search_lines q path lines 0 lines f

  abbrev pub search_bytes : Query → FilePath → Found → Bytes → Found
  search_bytes q path f b =
      let m = metadata h.sha256_hex b in
      if m.binary
      then record f { skipped_binary = f.skipped_binary ++ (path ∷ []) }
      else if ltb q.max_file_bytes m.size
      then record f { skipped_large = f.skipped_large ++ (path ∷ []) }
      else search_text q path f (decode b)

  abbrev pub search_opened : Query → FilePath → Found → Result Bytes → Found
  search_opened q path f (ok b) = search_bytes q path f b
  search_opened q path f (err e) = record f {
    skipped_unavailable = f.skipped_unavailable ++ (path ∷ []);
  }

  -- One file of the listing, as the tree stands when it is opened.
  unfoldable pub search_file : Query → FilePath → Tree → Found → Found
  unfolding search_lines decode split_lines without_end metadata open_file walk parent
  search_file q path t f =
      search_opened q path f ((walk false [] (parent path) t).0 >> open_file path t)

  abbrev pub search_entry : Query → Tree → DirEntry → Kind → Found → Found
  search_entry q t e file_kind f = search_file q e.path t f
  search_entry q t e directory_kind f = f
  search_entry q t e symlink_kind f = f
  search_entry q t e other_kind f = f

  -- The outer loop. Shells may have changed the tree since the listing: `trees` gives the tree at
  -- the opening of each entry.
  unfoldable pub search_entries : Query → (ℕ → Tree) → ℕ → List DirEntry → Found → Found
  unfolding search_file
  search_entries q trees k [] f = f
  search_entries q trees k (e ∷ es) f =
      search_entries q trees (k + 1) es (search_entry q (trees k) e e.kind f)

  abbrev pub result_of : Found → SearchResult
  result_of f = record {
    matches = f.matches;
    total_matches = f.total;
    truncated = ltb (length f.matches) f.total;
    skipped_binary = f.skipped_binary;
    skipped_large = f.skipped_large;
    skipped_unavailable = f.skipped_unavailable;
  }

  abbrev pub nothing_found : Found
  nothing_found = record {
    matches = [];
    total = 0;
    skipped_binary = [];
    skipped_large = [];
    skipped_unavailable = [];
  }

  module _ (matches : Text → Text → Bool) (spelling : FilePath → Text) where
    -- `search`
    unfoldable pub search_files :
        Query → Tree → (ℕ → Tree) → Text → Option Text → ℕ → Result SearchResult
    unfolding search_entries list_dir
    search_files q t trees path glob depth = do
      guard (not (is_empty q.pattern)) validation_error
      entries ← list_dir h matches spelling t path glob depth
      ok (result_of (search_entries q trees 0 entries nothing_found))
