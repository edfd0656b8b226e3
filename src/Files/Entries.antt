-- ===== src/Files/Entries.antt =====
-- mkdir, delete and transfer of FileService (app/files.py).
use environments_api.Common.{
  Bool, true, false, Option, none, some, [], ◌∷◌, ◌++◌, ltb, if◌then◌else◌, is_empty,
}
use environments_api.Common.Error.{not_found, validation_error, conflict}
use environments_api.Common.Result.{Result, ok, err}
use environments_api.Common.Int.{pos}
use environments_api.Files.Tree.{
  Bytes, Text, FilePath, Node, file, directory, link, other, node_at, put, erase, erase_within,
  has_entries,
}
use environments_api.Files.Access.{check_match, walk, parent, open_file, metadata, current_etag}
use environments_api.Files.Action.{
  Admit, Action, pure, raise, lift, reads, modify, ◌>>=◌, ◌>>◌, raise_if, with_admit,
}
use environments_api.Files.Mutations.{Host, Mutation, under_parent, check_current, create_file}

abbrev pub is_given : Option Text → Bool
is_given none = false
is_given (some text) = true

-- `os.unlink`, of what is there when it is called.
abbrev pub unlink_node : Option Node → Result (Unit {0})
unlink_node none = err not_found
unlink_node (some directory) = err validation_error
unlink_node (some (file b)) = ok tt
unlink_node (some (link target)) = ok tt
unlink_node (some other) = ok tt

module _ (h : Host) {S : Type 0} where
  -- `mkdir`: the walk to a name below the path.
  unfoldable pub mkdir : Text → Action S FilePath
  unfolding walk
  mkdir requested = do
    p ← lift (h.relative_path requested)
    under_parent true (p ++ ((b'.' ∷ b'k' ∷ b'e' ∷ b'e' ∷ b'p' ∷ []) ∷ [])) (pure p)

  abbrev pub unlink : FilePath → Option Text → Action S (Unit {0})
  unlink p if_match = do check_current h p if_match; modify (erase p)

  abbrev pub remove_directory : FilePath → Bool → Action S (Unit {0})
  remove_directory p true = modify (erase_within p)
  remove_directory p false = do
    used ← reads (λ t. ok (has_entries p t))
    raise_if used validation_error
    modify (erase p)

  abbrev pub remove_node : FilePath → Bool → Option Text → Option Node → Action S (Unit {0})
  remove_node p recursive if_match none = raise not_found
  remove_node p recursive if_match (some directory) = do
    raise_if (is_given if_match) validation_error
    remove_directory p recursive
  remove_node p recursive if_match (some (file b)) = unlink p if_match
  remove_node p recursive if_match (some (link target)) = unlink p if_match
  remove_node p recursive if_match (some other) = unlink p if_match

  -- `delete`
  unfoldable pub delete_path : Text → Bool → Option Text → Action S FilePath
  unfolding walk parent node_at has_entries erase erase_within check_match current_etag
  delete_path requested recursive if_match = do
    p ← lift (h.relative_path requested)
    raise_if (is_empty p) validation_error
    under_parent false p (do n ← reads (λ t. ok (node_at p t)); remove_node p recursive if_match n)
    pure p

  -- The source of a move, checked again and removed; shells may act between the two.
  abbrev pub remove_checked : FilePath → Text → Action S (Unit {0})
  remove_checked p etag = do
    check_current h p (some etag)
    modify h.at_last
    reads (λ t. unlink_node (node_at p t))
    modify (erase p)

  abbrev pub remove_source : Bool → FilePath → Text → Action S (Unit {0})
  remove_source move p etag = if move then remove_checked p etag else pure tt

  -- `transfer` in the directory of the destination.
  abbrev pub place : FilePath → FilePath → Bytes → Bool → Action S Mutation
  place p q b move = do
    create_file h q b conflict
    modify h.elsewhere
    remove_source move p (metadata h.sha256_hex b).etag
    pure (record {
      path = q;
      size = (metadata h.sha256_hex b).size;
      etag = (metadata h.sha256_hex b).etag;
      diff = [];
      applied_hunks = [];
      rejected_hunks = [];
    })

  -- `transfer` behind the reading of the source.
  abbrev pub send : FilePath → FilePath → Bool → Option Text → Admit S → Bytes → Action S Mutation
  send p q move if_match admit b = do
    lift (check_match if_match (some (metadata h.sha256_hex b).etag))
    raise_if (ltb h.max_write (metadata h.sha256_hex b).size) validation_error
    with_admit admit (pos (if move then 0 else (metadata h.sha256_hex b).size))
        (under_parent true q (place p q b move))

  abbrev pub transfer_between :
      FilePath → FilePath → Bool → Option Text → Admit S → Action S Mutation
  transfer_between p q move if_match admit =
      under_parent false p (reads (open_file p) >>= send p q move if_match admit)

  abbrev pub transfer_from : Text → Bool → Option Text → Admit S → FilePath → Action S Mutation
  transfer_from destination move if_match admit p =
      lift (h.relative_path destination) >>= λ q. transfer_between p q move if_match admit

  -- `transfer`
  unfoldable pub transfer : Text → Text → Bool → Option Text → Admit S → Action S Mutation
  unfolding walk parent open_file check_match metadata current_etag put erase with_admit node_at
  transfer source destination move if_match admit =
      lift (h.relative_path source) >>= transfer_from destination move if_match admit
