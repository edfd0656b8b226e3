-- ===== src/Files/Paths.antt =====
-- relative_path (app/file_safety.py) and app/paths.py: which path of the workspace a spelling names.
-- `Path.resolve` and `Path.is_symlink` ask the host's file system, and are parameters; an absolute
-- path begins with its anchor.
use environments_api.Common.{
  ℕ, Bool, false, not, ◌&&◌, ◌||◌, List, [], ◌∷◌, ◌++◌, ◌==◌, if◌then◌else◌, length, drop, is_empty,
}
use environments_api.Common.Error.{path_outside_workspace, internal_error}
use environments_api.Common.Result.{Result, ok, err, ◌>>=◌, ◌>>◌, guard}
use environments_api.Files.Tree.{Text, FilePath, text_eq, is_within}
use environments_api.Files.Utf8.{has_nul}

-- `requested.replace("\\", "/")`
unfoldable pub with_slashes : Text → Text
with_slashes [] = []
with_slashes (c ∷ cs) = (if c == b'\\' then b'/' else c) ∷ with_slashes cs

abbrev pub push_char : ℕ → List Text → List Text
push_char c [] = (c ∷ []) ∷ []
push_char c (part ∷ parts) = (c ∷ part) ∷ parts

-- `text.split("/")`
unfoldable pub split_slashes : Text → List Text
split_slashes [] = [] ∷ []
split_slashes (c ∷ cs) =
    let rest = split_slashes cs in if c == b'/' then [] ∷ rest else push_char c rest

abbrev pub names_nothing : Text → Bool
names_nothing part = is_empty part || text_eq part (b'.' ∷ [])

unfoldable pub plain_parts : List Text → FilePath
unfolding text_eq
plain_parts [] = []
plain_parts (part ∷ parts) =
    let rest = plain_parts parts in if names_nothing part then rest else part ∷ rest

abbrev pub is_absolute : Text → Bool
is_absolute [] = false
is_absolute (c ∷ cs) = c == b'/'

-- Two slashes at the front, and no third, are an anchor of their own.
abbrev pub anchor : Text → Text
anchor [] = []
anchor (a ∷ []) = b'/' ∷ []
anchor (a ∷ b ∷ []) = if b == b'/' then b'/' ∷ b'/' ∷ [] else b'/' ∷ []
anchor (a ∷ b ∷ c ∷ cs) = if b == b'/' && not (c == b'/') then b'/' ∷ b'/' ∷ [] else b'/' ∷ []

-- `Path(requested) if absolute else root / requested`
unfoldable pub candidate : FilePath → Text → FilePath
unfolding plain_parts split_slashes
candidate root spelled =
    let parts = plain_parts (split_slashes spelled) in
    if is_absolute spelled then anchor spelled ∷ parts else root ++ parts

-- `candidate.relative_to(root)`, which compares the spelled parts and raises ValueError where the
-- root is not at their front.
unfoldable pub relative_to : FilePath → FilePath → Result FilePath
unfolding is_within
relative_to root path =
    if is_within root path then ok (drop (length root) path) else err internal_error

module _ (root : FilePath) (resolve : FilePath → FilePath) (is_symlink : FilePath → Bool) where
  -- `resolve_within`
  unfoldable pub resolve_within : Text → Result FilePath
  unfolding has_nul candidate is_within
  resolve_within spelled =
      guard (not (has_nul spelled)) path_outside_workspace
      >> (let resolved = resolve (candidate root spelled) in
          guard (is_within root resolved) path_outside_workspace >> ok resolved)

  -- The loop over the spelled parts.
  unfoldable pub meets_link : FilePath → FilePath → Bool
  meets_link probe [] = false
  meets_link probe (name ∷ names) =
      is_symlink (probe ++ (name ∷ [])) || meets_link (probe ++ (name ∷ [])) names

  unfoldable pub relative_path : Text → Result FilePath
  unfolding with_slashes resolve_within relative_to meets_link candidate
  relative_path requested = do
    let spelled = with_slashes requested
    resolved ← resolve_within spelled
    names ← relative_to root (candidate root spelled)
    guard (not (meets_link root names)) path_outside_workspace
    relative_to root resolved
