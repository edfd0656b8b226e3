-- ===== src/Files/Tree.antt =====
-- The directory tree of a workspace as app/files.py and app/file_safety.py see it: what stands at
-- each path below the root. A path is its parts; the root has none, and is a directory.
pub mod Laws
use environments_api.Common.{
  ℕ, zero, suc, ◌+◌, ◌-◌, ◌*◌, ◌/◌, ◌%◌, ◌^◌, ◌≤◌, ◌<◌, min, max, String, ◌≡◌, refl, sym, ap, ◌∙◌,
  ◌≢◌, ◌↔◌, ◌⊎◌, inl, inr, Bool, true, false, not, ◌&&◌, ◌||◌, Option, none, some, List, [], ◌∷◌,
  ◌++◌, map, append-nil, append_assoc, arith, eq_iff, eq_refl, str_eq, ltb, leb, ◌==◌,
  if◌then◌else◌, ltb→lt, lt→ltb, leb→le, le→leb, lt→leb_false, le→ltb_false, ==_iff, Bool-cases,
  Option-cases, length, take, drop, is_empty, length-append, length-take, length-drop,
  take-append-drop, drop-nil, drop-drop, drop-append, drop_all, take_all, filter, All,
}

-- A text is its code points.
abbrev pub Text : Type 0
Text = List ℕ

abbrev pub FilePath : Type 0
FilePath = List Text

abbrev pub Bytes : Type 0
Bytes = List ℕ

-- `other` is a named pipe or a device, which opens and is no regular file.
pub data Node : Type 0 where
  file : Bytes → Node
  directory : Node
  link : Bytes → Node
  other : Node

abbrev pub Tree : Type 0
Tree = List (FilePath × Node)

unfoldable pub text_eq : Text → Text → Bool
text_eq [] [] = true
text_eq [] (y ∷ ys) = false
text_eq (x ∷ xs) [] = false
text_eq (x ∷ xs) (y ∷ ys) = (x == y) && text_eq xs ys

unfoldable pub path_eq : FilePath → FilePath → Bool
unfolding text_eq
path_eq [] [] = true
path_eq [] (q ∷ qs) = false
path_eq (p ∷ ps) [] = false
path_eq (p ∷ ps) (q ∷ qs) = text_eq p q && path_eq ps qs

unfoldable pub find : FilePath → Tree → Option Node
unfolding path_eq
find p [] = none
find p ((q, n) ∷ t) = if path_eq q p then some n else find p t

-- `os.stat` of the last part, without following a link.
unfoldable pub node_at : FilePath → Tree → Option Node
unfolding find
node_at [] t = some directory
node_at (p ∷ ps) t = find (p ∷ ps) t

unfoldable pub put : FilePath → Node → Tree → Tree
put p n [] = (p, n) ∷ []
put p n ((q, m) ∷ t) = let rest = put p n t in if path_eq q p then (q, n) ∷ t else (q, m) ∷ rest

unfoldable pub erase : FilePath → Tree → Tree
erase p [] = []
erase p ((q, m) ∷ t) = let rest = erase p t in if path_eq q p then rest else (q, m) ∷ rest

-- The path, or one below it.
unfoldable pub is_within : FilePath → FilePath → Bool
unfolding text_eq
is_within [] q = true
is_within (p ∷ ps) [] = false
is_within (p ∷ ps) (q ∷ qs) = text_eq p q && is_within ps qs

-- `shutil.rmtree`
unfoldable pub erase_within : FilePath → Tree → Tree
erase_within p [] = []
erase_within p ((q, m) ∷ t) =
    let rest = erase_within p t in if is_within p q then rest else (q, m) ∷ rest

-- Something stands in the directory.
unfoldable pub has_entries : FilePath → Tree → Bool
has_entries p [] = false
has_entries p ((q, m) ∷ t) = (is_within p q && not (path_eq p q)) || has_entries p t

-- `st_size`; a directory's is the file system's own.
abbrev pub size_of : ℕ → Node → ℕ
size_of directory_size (file b) = length b
size_of directory_size directory = directory_size
size_of directory_size (link target) = length target
size_of directory_size other = 0
