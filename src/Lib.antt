-- ===== src/Lib.antt =====
-- Environments API: a model of its core, with the theorems that make it correct.
--
-- The program serves environments: workspaces with persistent shells, kept apart by account. Its
-- parts and the files that model them:
--
-- Environments/Service: app/environments/service.py, the class EnvironmentService. The state is
--   the record Service: the dicts of records and of live shells, the measured usage, the records
--   as they stand on disk, and a trace of effects (folders, sandbox, audit). Each method is one
--   function from the state and its arguments to a result and the state after it: create, delete,
--   reset, list_environments in Lifecycle; open_shell, close_shell in Sessions; exec,
--   signal_shell, write_stdin, get_command in Commands; admit_write, note_file_action in Writes;
--   reap in Reaper; _on_shell_change in Closing; usage, quotas_for and set_quotas in Views.
--   Operations joins a caller's calls into one step function; what a shell object does in a call
--   is its parameter ShellPort, and what the host does is the record Host.
-- Keyring: presented_token (Presented is what it accepts) and TokenVerifier.verify of
--   app/keyring/auth.py; what the shared verifier answers is an argument. Credentials is
--   credential_env and CredentialClient.resolve of app/keyring/client.py; Python's tables of
--   characters are parameters.
-- Environments/Records, Segments, Quotas: app/environments/models.py, the path segments of
--   app/environments/store.py, and app/environments/quotas.py. The hash of safe_segment is a
--   parameter.
-- Shells/Buffer: app/shells/buffer.py, the ring buffer over a growing offset.
-- Shells/Framing: app/shells/framing.py with the two patterns of app/constants.py, over byte
--   lists.
-- Shells/Redact: app/shells/redact.py, the streaming replacement of secrets.
-- Shells/Script: exec_script of app/shells/framing.py with the standard library's shlex.quote; its
--   module Words is how a shell reads a quoted word.
-- Shells/Log, Shells/Shell: app/shells/shell.py. The record Shell is the state behind the shell's
--   lock, and each critical section (_handle, _on_exit, exec, _on_timeout, _escalate_timeout,
--   write_stdin, signal, close, mark_dead) is one function; Runs takes them in any order. What the
--   pipe takes and how the process ends are arguments.
-- Processes: app/processes.py with is_same_process of app/procfs.py, over any snapshot of /proc;
--   Signals is EnvironmentService.signal_process on top of it. The walk takes one round of fuel
--   more than the snapshot has processes, which is proved to be enough. Descendants is the search
--   below a process and list_processes, whose rounds are an argument: how many are enough depends
--   on the snapshot. Startup is startup, _reconcile and _kill_orphan of EnvironmentService;
--   Killing is about what they kill.
-- FileEdits: app/file_edits.py, replace_unique, and parse_patch and apply_patch over lists of
--   lines. The parser's outer loop takes one round of fuel more than there are lines, which is
--   proved to be enough.
-- Files: app/files.py, app/file_safety.py, app/paths.py and app/file_search.py. Tree is what
--   stands at each path of a workspace; Action is an operation's state and exceptions; Access is
--   the walk of parent_fd, open_file, the validators and check_match; Mutations, Edits and Entries
--   are the operations that change the tree, Listing and Search those that read it; Utf8 is the
--   incremental decoder. What shells do between two steps of an operation is an argument (between,
--   elsewhere and at_last of the record Host: the last is between the final check and os.replace
--   or os.unlink), and so is whether the writing of a commit's temporary file and os.replace go
--   through (written, replaced). sha256, of which only the hexadecimal form is relied on, base64,
--   difflib and the host's resolving of paths are arguments too. The context of a mutation is the
--   interface Admit, which the service's admit_write fills.
-- Api/Files: app/api/routes/files.py, each route as the workspace, the operation under the quota,
--   and the note of it.
-- Preferences: app/preferences.py, for any answers of the settings-api client.
-- Common: lists and tests over the native numbers, signed integers, dicts, errors, results.
--
-- Numbers are unbounded, as Python's. Times, floats in the program, are numbers of one fixed unit.
-- Loops are recursions on lists; the parser's loop takes one round of fuel more than there are bytes,
-- which is proved to be enough. The service's lock makes a method one step; where close waits
-- outside the lock, the calls that could come between are not interleaved. A call that raises leaves
-- the state as it was, but for exec, admit_write and reap, whose changes before the error are kept.
--
-- Not modelled: the HTTP framework and the routes but those of files, settings and logging, owners
-- and times of files, the processes themselves, and a failure to write a transfer's destination. In
-- delete the comparison of the validator and the system call behind it are one step. NaN is no quota
-- here.
pub mod Common
pub mod Shells
pub mod Environments
pub mod Processes
pub mod FileEdits
pub mod Files
pub mod Preferences
pub mod Keyring
pub mod Api
