-- ===== src/Lib.antt =====
-- A verification library for joplin-md-sync, the program that keeps a tree of Markdown files and a
-- Joplin profile in step. It models, function by function, how the program decides what to do and
-- how it records what it did.
--
-- A command scans the workspace (`LocalScan`), reads Joplin (`RemoteSnapshot`) and the state database
-- (`Store`), and compares the three by hashes of canonical contents. `classify` gives each note and
-- notebook a status, `build_plan` turns the statuses into numbered operations, `Executor.run` tries
-- them one by one, and the journal records how each ended. After a crash, recovery settles the
-- operations of each unfinished journal by what the state database shows. The state database follows
-- renames of directories by `move_prefix`. A note that changed on both sides becomes a conflict with
-- a bundle of its versions, which stays open until the user resolves it.
--
-- Base (Equality, Text, Dict, Sort, Numbers): shared helpers. A text is the list of its code points,
--   a Python dict and an SQL table with a primary key are association lists in insertion order, a
--   set is a list without repetition. `sort` is insertion sort, which is stable as Python's is.
--   Numbers/Decimal writes numbers as `%d` and `:04d` do, Numbers/Utf8 encodes texts.
-- Runtime: what the program takes from Python and does not implement, a parameter of every
--   definition that uses it: SHA-256 of hashlib, lower case, case folding, upper case, white space
--   and format characters. `NoCollision`, `IsStableCase` and `IsAsciiUpper` are the facts about it
--   that theorems name. That SHA-256 has no two inputs with one digest is what the program relies
--   on; it is a hypothesis where it is used. Runtime/Ascii is the runtime that the tests run on.
-- Models (src/joplin_md_sync/models.py, and LocalScan of workspace.py): the records and the status
--   and operation codes, as data types with the constants' names in small letters. Fields that no
--   modelled function reads are left out.
-- Canonical (src/joplin_md_sync/canonical.py): canonical bodies and tags, note_hashes,
--   changed_components. Surrogates, which UTF-8 refuses, are not told apart.
-- Paths (src/joplin_md_sync/paths.py): sanitize_component, note_filename, folder_dirname. The tests
--   of paths against the file system are not modelled.
-- Planner (src/joplin_md_sync/planner.py): Folders has _remote_folder_paths and the branches of
--   _classify_folders, Notes has _classify_one_note, Classify has the loops and classify, Draft and
--   Plan (Items, Folders) have build_plan. A failed `assert` is the draft `refuse`, and makes the
--   plan `none`. The walk over the remote notebooks recurses on a bound on the depth, the number of
--   notebooks and one more: each step down puts a new id into `seen`, so no deeper step is possible.
-- State (src/joplin_md_sync/state.py): StateStore on a record of tables. A failed primary key is
--   `none`. The hash columns, which nothing reads, are left out. State/Like evaluates LIKE with
--   ESCAPE as SQLite does, with ASCII letters of both cases alike. Opening the database, its
--   integrity check and migrations are not modelled.
-- Journal (src/joplin_md_sync/journal.py): Journal, check_no_incomplete_runs and
--   recover_incomplete_runs on the store and a dict of journal files (`Disk`). Times, reports and
--   temporary files are left out.
-- Json (the json module of Python): the values, `dumps` and `loads` as the program calls them. A text
--   that is not JSON gives `none`. Reading takes fuel, twice the length of the text and one, which is
--   enough since each call either takes a character or follows one that did. The limits on nesting
--   and on the digits of a number, at which Python raises another error, are not modelled.
--   Nesting has the test of src/joplin_md_sync/json_safety.py on the bytes of a text.
-- Metadata (src/joplin_md_sync/metadata.py): the header of a note file, written, recognised and
--   parsed, with the message of each error. The message of a JSONDecodeError, `repr`, and whether a
--   float equals 1 are the parameter `JsonLib`.
-- Workspace (src/joplin_md_sync/workspace.py): the scan, on a tree of directories, files, links and
--   what resolves outside of the root. `_scan_dir` goes down 33 levels and reports what is deeper, so
--   its recursion on the number of levels left is the program's own bound.
-- Sync (src/joplin_md_sync/sync.py): Run has Executor.run, with `execute` a parameter that
--   returns a result or raises. Act is the monad of the handlers: a step changes Joplin, the
--   workspace files, and the database, and goes on with a value or ends the handler by a return
--   or a raise. Joplin is whatever the client's calls act on, and may change at each call. Guards
--   has the guards, fetch_remote_canonical and _write_local_note; Folders has the handlers of
--   notebooks, Push those that write notes to Joplin, Tags reconcile_tags, and Handlers those that
--   pull notes, rebase, drop or rename them, and delete them in Joplin, with the table of all of
--   them (`handler`). Emitting and parsing a note file is an interface (`NoteFormat`) that Format
--   fills with the functions of Metadata. Files are the texts that read_text gives. The
--   write of a notebook's file may raise (`write_fails`); other writes and removals are taken to
--   succeed, and a path is taken as it is given. `current_path` applies `rename_path` of
--   State/Moves.
--   Snapshot has build_remote_snapshot, on the answers of one run, any of which may be a raise.
-- Conflicts (src/joplin_md_sync/conflicts.py): Create has create_bundle, which Sync/Bundle gives the
--   executor; Stale the test that a bundle still describes both sides; Resolve the modes of
--   resolve_conflict, and discard_conflict, as handlers of the same monad. The file metadata.json
--   is the value that it holds.
-- Tools (src/joplin_md_sync/tool_schema.py): the schemas of tools, which are validated once, and the
--   arguments that they accept. What Python tells of numbers by their spellings is the parameter
--   `Numbers`. `validate_schema` takes a bound on the depth, for which the depth of the schema and
--   one more is enough, since each schema within another is less deep.
-- Tests: a sample workspace, runs of the definitions, and the theorems applied to them.
--
-- Not modelled: the command line, configuration, locking, the HTTP client, the servers and tools
-- around the library, and the installer, which are input and output; finalize_run, which ends the
-- journal and deletes old backups; the listing of conflicts.
pub mod Base
pub mod Runtime
pub mod Models
pub mod Json
pub mod Metadata
pub mod Canonical
pub mod Paths
pub mod Planner
pub mod State
pub mod Journal
pub mod Workspace
pub mod Conflicts
pub mod Sync
pub mod Tools
pub mod Tests
