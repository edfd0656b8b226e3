-- ===== src/Api/Files.antt =====
-- app/api/routes/files.py: each route finds the workspace, works in it and notes what was done. The
-- tree of the world is the workspace of the environment that is named.
pub mod Quota
use environments_api.Common.{
  ℕ, zero, suc, ◌+◌, ◌-◌, ◌*◌, ◌/◌, ◌%◌, ◌^◌, ◌≤◌, ◌<◌, min, max, String, ◌≡◌, refl, sym, ap, ◌∙◌,
  ◌≢◌, ◌↔◌, ◌⊎◌, inl, inr, Bool, true, false, not, ◌&&◌, ◌||◌, Option, none, some, List, [], ◌∷◌,
  ◌++◌, map, append-nil, append_assoc, arith, eq_iff, eq_refl, str_eq, ltb, leb, ◌==◌,
  if◌then◌else◌, ltb→lt, lt→ltb, leb→le, le→leb, lt→leb_false, le→ltb_false, ==_iff, Bool-cases,
  Option-cases, length, take, drop, is_empty, length-append, length-take, length-drop,
  take-append-drop, drop-nil, drop-drop, drop-append, drop_all, take_all, filter, All,
}
use environments_api.Common.Error.{Error}
use environments_api.Common.Result.{Result, ok, err}
use environments_api.Common.Int.{ℤ}
use environments_api.Environments.Records.{EnvironmentRecord}
use environments_api.Environments.Service.{Caller, Service}
use environments_api.Environments.Service.Writes.{
  admit_enter, admit_fail, note_file_action, workspace_for,
}
use environments_api.Files.Tree.{Text, FilePath, Tree}
use environments_api.Files.Action.{World, Admit, Action, and_then, pure, lift, reads, ◌>>=◌, ◌>>◌}
use environments_api.Files.Mutations.{Host, Mutation, write_result}
use environments_api.Files.Edits.{edit, patch}
use environments_api.Files.Entries.{mkdir, delete_path, transfer}
use environments_api.Files.Listing.{DirEntry, FileContent, list_dir, read_path}
use environments_api.Files.Search.{Query, SearchResult, search_files}

-- `functools.partial(service.admit_write, caller, environment_id)`
abbrev pub quota_admit : Caller → String → Admit Service
quota_admit caller id = record {
  enter = λ growth s. admit_enter s caller id growth;
  fail = λ growth s. admit_fail id growth s;
}

abbrev pub noted : World Service → Result (Unit {0} × Service) → Result (Unit {0}) × World Service
noted w (err e) = (err e, w)
noted w (ok (u, s)) = (ok u, record w { service = s })

abbrev pub note_action : Caller → ℕ → String → String → Action Service (Unit {0})
note_action caller now id action w = noted w (note_file_action w.service caller now id action)

-- The workspace, the operation under the quota, and the note of it.
abbrev pub in_workspace : {A : Type 0} → Caller → String → Action Service A → Action Service A
in_workspace caller id op = do r ← λ w. (workspace_for w.service caller id, w); op

abbrev pub then_note :
    {A : Type 0} → Caller → ℕ → String → String → Action Service A → Action Service A
then_note caller now id action op = do a ← op; note_action caller now id action; pure a

pub record WriteFileRequest : Type 0 where
  pub path : Text
  pub content : Text
  pub encoding : String
  pub mode : String

module _ (h : Host) (caller : Caller) (now : ℕ) (id : String) where
  unfoldable pub write_file : WriteFileRequest → Option Text → Action Service Mutation
  unfolding workspace_for write_result admit_enter admit_fail note_file_action
  write_file body if_match = in_workspace caller id (
      then_note caller now id "file.write" (
        write_result h body.path body.content body.encoding body.mode if_match
          (quota_admit caller id)))

  unfoldable pub edit_file : Text → Text → Text → Option Text → Action Service Mutation
  unfolding workspace_for edit admit_enter admit_fail note_file_action
  edit_file path old_string new_string if_match = in_workspace caller id (
      then_note caller now id "file.write"
        (edit h path old_string new_string if_match (quota_admit caller id)))

  unfoldable pub patch_file : Text → Text → Option Text → Action Service Mutation
  unfolding workspace_for patch admit_enter admit_fail note_file_action
  patch_file path hunks if_match =
      in_workspace caller id
        (then_note caller now id "file.write" (patch h path hunks if_match (quota_admit caller id)))

  unfoldable pub create_directory : Text → Action Service FilePath
  unfolding workspace_for mkdir note_file_action
  create_directory path =
      in_workspace caller id (then_note caller now id "file.mkdir" (mkdir h path))

  unfoldable pub delete_file : Text → Bool → Option Text → Action Service FilePath
  unfolding workspace_for delete_path note_file_action
  delete_file path recursive if_match =
      in_workspace caller id
        (then_note caller now id "file.delete" (delete_path h path recursive if_match))

  -- `_transfer`, with `move` for `move_file` and without for `copy_file`.
  unfoldable pub transfer_file : Text → Text → Bool → Option Text → Action Service Mutation
  unfolding workspace_for transfer admit_enter admit_fail note_file_action
  transfer_file source destination move if_match = in_workspace caller id (
      then_note caller now id "file.write"
        (transfer h source destination move if_match (quota_admit caller id)))

  abbrev pub copy_file : Text → Text → Option Text → Action Service Mutation
  copy_file source destination if_match = transfer_file source destination false if_match

  abbrev pub move_file : Text → Text → Option Text → Action Service Mutation
  move_file source destination if_match = transfer_file source destination true if_match

  unfoldable pub read_file : Text → ℕ → Option ℕ → Action Service FileContent
  unfolding workspace_for read_path
  read_file path offset max_bytes =
      in_workspace caller id (reads (λ t. read_path h t path offset max_bytes))

  -- `fnmatch.fnmatchcase`, and the spelling of a path, as list_dir takes them.
  module _ (matches : Text → Text → Bool) (spelling : FilePath → Text) where
    unfoldable pub list_directory : Text → Option Text → ℕ → Action Service (List DirEntry)
    unfolding workspace_for list_dir
    list_directory path glob depth =
        in_workspace caller id (reads (λ t. list_dir h matches spelling t path glob depth))

    -- `trees` is what the opening of each file finds, after what shells do meanwhile.
    unfoldable pub search_in :
        Query → (ℕ → Tree) → Text → Option Text → ℕ → Action Service SearchResult
    unfolding workspace_for search_files
    search_in q trees path glob depth =
        in_workspace caller id
          (reads (λ t. search_files h matches spelling q t trees path glob depth))
