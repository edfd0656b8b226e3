-- ===== src/Files/Transfers.antt =====
-- transfer (app/files.py): what a copy or a move that returned has done.
use environments_api.Common.{◌≡◌, ◌⊎◌, Bool, true, false, ◌&&◌, none, some, if◌then◌else◌}
use environments_api.Common.Result.{Result}
use environments_api.Files.Tree.{FilePath, Bytes, file, directory, Tree, path_eq, node_at, erase}
use environments_api.Files.Mutations.{Host}

-- The tree that shells leave of the one with the new file: of a move also behind its last check.
abbrev pub left_of : Host → Bool → Tree → Tree
left_of h move placed = if move then h.at_last (h.elsewhere placed) else h.elsewhere placed

-- The source's bytes were placed at the destination, where nothing stood before, with directories on
-- the way; a moved source was a file of the same digest in the tree that shells had left, and is gone;
-- and every other path is as the shells left it.
pub record Transferred (h : Host) (p q : FilePath) (move : Bool) (t t' : Tree) : Type 0 where
  pub bytes : Bytes
  pub source : node_at p t ≡ some (file bytes)
  pub free : node_at q t ≡ none
  pub placed : Tree
  pub arrived : node_at q placed ≡ some (file bytes)
  pub rest :
      (x : FilePath)
      → path_eq q x ≡ false
      → (node_at x placed ≡ node_at x t)
        ⊎ ((node_at x t ≡ none) × (node_at x placed ≡ some directory))
  pub checked :
      move ≡ true
      → (b : Bytes) × (node_at p (h.elsewhere placed) ≡ some (file b))
        × (h.sha256_hex b ≡ h.sha256_hex bytes)
  pub gone : move ≡ true → node_at p t' ≡ none
  pub others :
      (x : FilePath)
      → (move && path_eq p x) ≡ false
      → node_at x t' ≡ node_at x (left_of h move placed)

-- The tree behind the removal of a source, or as it was.
abbrev without : Bool → FilePath → Tree → Tree
without move p t = if move then erase p t else t

-- What the removal of a source found.
abbrev Checked : Host → Bool → FilePath → Bytes → Tree → Type 0
Checked h move p bytes t =
    move ≡ true
    → (b : Bytes) × (node_at p t ≡ some (file b)) × (h.sha256_hex b ≡ h.sha256_hex bytes)
