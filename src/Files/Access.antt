-- ===== src/Files/Access.antt =====
-- app/file_safety.py: the walk to a file's directory, which follows no link, and the validators. The
-- failing of a system call is the error that the enclosing `parent_fd` makes of it: `not_found` for
-- an absent file, `validation_error` for every other.
use environments_api.Common.{
  ℕ, Bool, true, false, not, ◌&&◌, ◌||◌, Option, none, some, List, [], ◌∷◌, ◌++◌, leb, ◌==◌,
  if◌then◌else◌, length,
}
use environments_api.Common.Error.{Error, not_found, validation_error, file_changed}
use environments_api.Common.Result.{Result, ok, err}
use environments_api.Files.Tree.{
  FilePath, Bytes, text_eq, Node, file, directory, link, other, Tree, node_at, put,
}
use environments_api.Files.Utf8.Chunks.{is_text}
use environments_api.Files.Utf8.{decode, has_nul}

-- `str.isspace`, of which `strip` takes off both ends.
abbrev pub is_space : ℕ → Bool
is_space c =
    leb 9 c && leb c 13
    || leb 28 c && leb c 32
    || c == 0x85
    || c == 0xa0
    || c == 0x1680
    || leb 0x2000 c && leb c 0x200a
    || c == 0x2028
    || c == 0x2029
    || c == 0x202f
    || c == 0x205f
    || c == 0x3000

unfoldable pub strip_left : List ℕ → List ℕ
strip_left [] = []
strip_left (c ∷ cs) = elim (is_space c) [ true ↦ strip_left cs | false ↦ c ∷ cs ]

abbrev pub keep_unless_blank : ℕ → List ℕ → List ℕ
keep_unless_blank c [] = if is_space c then [] else c ∷ []
keep_unless_blank c (d ∷ ds) = c ∷ d ∷ ds

unfoldable pub strip_right : List ℕ → List ℕ
strip_right [] = []
strip_right (c ∷ cs) = keep_unless_blank c (strip_right cs)

-- `text.strip()`
unfoldable pub strip : List ℕ → List ℕ
unfolding strip_left strip_right
strip text = strip_right (strip_left text)

abbrev pub onto_first : ℕ → List (List ℕ) → List (List ℕ)
onto_first c [] = (c ∷ []) ∷ []
onto_first c (part ∷ parts) = (c ∷ part) ∷ parts

-- `text.split(",")`
unfoldable pub split_commas : List ℕ → List (List ℕ)
split_commas [] = [] ∷ []
split_commas (c ∷ cs) =
    let rest = split_commas cs in if c == b',' then [] ∷ rest else onto_first c rest

-- `actual in [part.strip() for part in parts]`
unfoldable pub is_candidate : List ℕ → List (List ℕ) → Bool
unfolding strip text_eq
is_candidate actual [] = false
is_candidate actual (part ∷ parts) = text_eq actual (strip part) || is_candidate actual parts

unfoldable pub check_match : Option (List ℕ) → Option (List ℕ) → Result (Unit {0})
unfolding is_candidate split_commas
check_match none actual = ok tt
check_match (some expected) none = err file_changed
check_match (some expected) (some actual) =
    if text_eq (strip expected) (b'*' ∷ []) || is_candidate actual (split_commas expected)
    then ok tt
    else err file_changed

-- A directory on the way, which `os.open` opens only if it is one.
abbrev pub enter_directory : Option Node → Result (Unit {0})
enter_directory none = err not_found
enter_directory (some directory) = ok tt
enter_directory (some (file b)) = err validation_error
enter_directory (some (link target)) = err validation_error
enter_directory (some other) = err validation_error

abbrev pub make_missing : FilePath → Tree → Option Node → Tree
make_missing p t none = put p directory t
make_missing p t (some n) = t

-- `os.mkdir`, where `FileExistsError` is passed over.
abbrev pub make_directory : FilePath → Tree → Tree
make_directory p t = make_missing p t (node_at p t)

abbrev pub go_on :
    Tree → (Tree → Result (Unit {0}) × Tree) → Result (Unit {0}) → Result (Unit {0}) × Tree
go_on t rest (err e) = (err e, t)
go_on t rest (ok done) = rest t

-- The loop of `parent_fd` over the parts behind `at`, with and without `create`. The directories
-- that were made stay, also where the walk ends in an error.
unfoldable pub walk : Bool → FilePath → FilePath → Tree → Result (Unit {0}) × Tree
unfolding node_at put
walk create at [] t = (ok tt, t)
walk create at (part ∷ parts) t =
    let here = at ++ (part ∷ []) in
    let t' = if create then make_directory here t else t in
    go_on t' (walk create here parts) (enter_directory (node_at here t'))

-- `parts[:-1]`
unfoldable pub parent : FilePath → FilePath
parent [] = []
parent (p ∷ []) = []
parent (p ∷ q ∷ ps) = p ∷ parent (q ∷ ps)

-- `open_file` of what stands at the path: absent, or refused, or its bytes.
pub data Opened : Type 0 where
  absent : Opened
  refused : Error → Opened
  opened : Bytes → Opened

abbrev pub open_node : Option Node → Opened
open_node none = absent
open_node (some (file b)) = opened b
open_node (some directory) = refused not_found
open_node (some (link target)) = refused validation_error
open_node (some other) = refused not_found

abbrev pub bytes_of : Opened → Result Bytes
bytes_of absent = err not_found
bytes_of (refused e) = err e
bytes_of (opened b) = ok b

unfoldable pub open_file : FilePath → Tree → Result Bytes
unfolding node_at
open_file p t = bytes_of (open_node (node_at p t))

-- `f'"{digest.hexdigest()}"'`
abbrev pub quoted : List ℕ → List ℕ
quoted digest = b'"' ∷ (digest ++ (b'"' ∷ []))

pub record Metadata : Type 0 where
  pub etag : List ℕ
  pub binary : Bool
  pub size : ℕ

module _ (sha256_hex : Bytes → List ℕ) where
  unfoldable pub etag_of : Bytes → List ℕ
  etag_of b = quoted (sha256_hex b)

  -- `metadata`: its loop over chunks is `classify`, which comes to this.
  unfoldable pub metadata : Bytes → Metadata
  unfolding etag_of decode has_nul
  metadata b = record { etag = etag_of b; binary = not (is_text b); size = length b }

  abbrev pub etag_opened : Opened → Result (Option (List ℕ))
  etag_opened absent = ok none
  etag_opened (refused e) = err e
  etag_opened (opened b) = ok (some (etag_of b))

  unfoldable pub current_etag : FilePath → Tree → Result (Option (List ℕ))
  unfolding etag_of node_at
  current_etag p t = etag_opened (open_node (node_at p t))
