-- ===== src/Files.antt =====
-- app/files.py, app/file_safety.py, app/paths.py and app/file_search.py: the files of a workspace.
pub mod Tree
pub mod Utf8
pub mod Action
pub mod Access
pub mod Paths
pub mod Lines
pub mod Mutations
pub mod Edits
pub mod Patches
pub mod Entries
pub mod Listing
pub mod Search
pub mod Pages
pub mod Returns
pub mod Editables
pub mod Validators
pub mod Commits
pub mod Written
pub mod Updates
pub mod Safe
pub mod Failures
pub mod Services
pub mod Transfers
mod Samples
mod Tests
