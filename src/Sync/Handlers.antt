-- ===== src/Sync/Handlers.antt =====
-- The handlers of `Executor` in src/joplin_md_sync/sync.py that pull notes, adopt, drop or rename
-- them, delete them in Joplin and record conflicts, and the table of all handlers.
use joplin_md_sync.Base.{
  false, not, Option, none, some, map_some, get_or, [], ◌++◌, ◌==◌, nat_eq, list_eq, option_eq,
  if◌then◌else◌,
}
use joplin_md_sync.Base.Text.{Text, text}
use joplin_md_sync.Base.Dict.{lookup, insert, erase}
use joplin_md_sync.Models.{
  FolderState, PlanOperation, OpKind, pull_create_dir, pull_update_dir, push_create_folder,
  push_update_folder, pull_create_local, pull_update_local, pull_delete_local, push_delete_remote,
  push_create_remote, push_update_remote, rebase, adopt_base, drop_base, normalize_local_path,
  create_conflict,
}
use joplin_md_sync.State.{
  Store, get_note, upsert_note, delete_note, upsert_folder, delete_folder, add_tombstone,
  remove_tombstone,
}
use joplin_md_sync.Planner.Draft.{combined_remote, shown}
use joplin_md_sync.Journal.{truthy}
use joplin_md_sync.Sync.Run.{
  Outcome, returned, concurrent, raised, was_applied, was_skipped, was_failed,
}
use joplin_md_sync.Sync.Act.{
  Files, Env, Act, done, of_option, call, stop_if, files_of, change_files, commit, ◌>>=◌, ◌>>◌,
}
use joplin_md_sync.Conflicts.Create.{create_bundle}
use joplin_md_sync.Sync.Push.{op_push_create_remote, op_push_update_remote}
use joplin_md_sync.Sync.Folders.{
  op_pull_create_dir, op_pull_update_dir, op_push_create_folder, op_push_update_folder,
}
use joplin_md_sync.Sync.Guards.{
  exists_path, unlink, parents, note_row, assertion, current, fetch_remote_canonical, guard_local,
  guard_remote, write_local_note,
}

module _ {ℓ} {R : Type ℓ} (env : Env R) where
  unfoldable pub op_pull_create_local : PlanOperation → Act R Outcome
  op_pull_create_local o = do
    i ← of_option assertion o.state
    r ← of_option assertion i.remote
    target ← of_option assertion (truthy o.new_rel_path)
    rel ← current env target
    files ← files_of
    stop_if (exists_path rel files) (concurrent (text "file appeared at target path: " ++ rel))
    found ← fetch_remote_canonical env r.id
    now_there ← of_option (returned was_skipped (text "remote note disappeared before apply")) found
    stop_if (not (some (combined_remote env.rt now_there) == o.expected_remote_hash))
        (concurrent (text "remote note changed between planning and apply: " ++ r.id))
    write_local_note env rel (some r.id) now_there.title now_there.tags now_there.body
    commit
        (λ s. remove_tombstone r.id (
          upsert_note
            (note_row r.id rel now_there.title now_there.body now_there.tags now_there.parent_id
              now_there.updated_time)
            s))
        (returned was_applied [])

  -- `Workspace.backup_file`: a file that is not there is not copied.
  unfoldable pub backup_file : Text → Files → Files
  backup_file rel f = elim (lookup rel f.texts) [
    | none ↦ f
    | some content ↦ record f {
      backups = insert (env.run_id ++ (text "/" ++ rel)) content f.backups;
    }
  ]

  unfoldable pub op_pull_update_local : PlanOperation → Act R Outcome
  op_pull_update_local o = do
    i ← of_option assertion o.state
    planned ← of_option assertion i.remote
    rel ← of_option assertion (truthy o.rel_path)
    guard_local env o
    found ← guard_remote env o
    r ← of_option assertion found
    old_rel ← current env rel
    new_rel ← current env (get_or (truthy o.new_rel_path) rel)
    change_files (backup_file old_rel)
    write_local_note env new_rel (some r.id) r.title r.tags r.body
    change_files (if new_rel == old_rel then (λ f. f) else unlink old_rel)
    commit (upsert_note (note_row r.id new_rel r.title r.body r.tags r.parent_id r.updated_time))
        (returned was_applied [])

  -- `Workspace.quarantine_file` on a file that is there.
  unfoldable pub quarantine_file : Text → Text → Files → Files
  quarantine_file rel content f = record f {
    texts = erase rel f.texts;
    quarantined = insert (env.run_id ++ (text "/" ++ rel)) content f.quarantined;
  }

  unfoldable pub tombstone : Text → Text → Text → Text → Store → Store
  tombstone nid side rel title s =
      add_tombstone
        (record {
          note_id = nid;
          side = side;
          rel_path = rel;
          title = title;
          created_time = env.now;
        })
        s

  unfoldable pub op_pull_delete_local : PlanOperation → Act R Outcome
  op_pull_delete_local o = do
    i ← of_option assertion o.state
    b ← of_option assertion i.base
    path ← of_option assertion (truthy o.rel_path)
    guard_local env o
    rel ← current env path
    found ← call (env.client.get_any (get_or o.note_id []))
    stop_if (elim found [ none ↦ false | some raw ↦ not raw.is_deleted ])
        (concurrent
          (text "remote note " ++ (shown o.note_id ++ text " reappeared; not deleting local file")))
    change_files (backup_file rel)
    files ← files_of
    content ← of_option (raised (env.os_error rel)) (lookup rel files.texts)
    change_files (quarantine_file rel content)
    commit
        (λ s.
          delete_note (get_or o.note_id [])
            (tombstone (get_or o.note_id []) (text "remote") rel b.title s))
        (returned was_applied (
          text "local file quarantined to .joplin-sync/quarantine/"
          ++ (env.run_id ++ (text "/" ++ rel))))

  unfoldable pub op_push_delete_remote : PlanOperation → Act R Outcome
  op_push_delete_remote o = do
    i ← of_option assertion o.state
    b ← of_option assertion i.base
    nid ← of_option assertion (truthy o.note_id)
    guard_remote env o
    call (env.client.delete_note nid)
    found ← call (env.client.get_any nid)
    stop_if (elim found [ none ↦ false | some raw ↦ not raw.is_deleted ])
        (returned was_failed (text "post-delete verification failed"))
    commit (λ s. delete_note nid (tombstone nid (text "local") b.rel_path b.title s))
        (returned was_applied (text "remote note moved to Joplin trash"))

  -- Title and parent of `fs.local or fs.remote`.
  unfoldable pub folder_source : FolderState → Option (Text × Text)
  folder_source f = elim f.local [
    | some l ↦ some (l.title, l.parent_id)
    | none ↦ map_some (λ r. (r.title, r.parent_id)) f.remote
  ]

  unfoldable pub op_rebase_folder : FolderState → Act R Outcome
  op_rebase_folder f = do
    (title, parent_id) ← of_option assertion (folder_source f)
    fid ← of_option assertion (truthy f.folder_id)
    rel ← current env (get_or f.rel_path [])
    commit
        (upsert_folder (record { id = fid; rel_path = rel; title = title; parent_id = parent_id }))
        (returned was_applied [])

  unfoldable pub op_rebase_note : PlanOperation → Act R Outcome
  op_rebase_note o = do
    i ← of_option assertion o.state
    l ← of_option assertion i.local
    planned ← of_option assertion i.remote
    guard_local env o
    found ← guard_remote env o
    r ← of_option assertion found
    rel ← current env l.rel_path
    commit (upsert_note (note_row r.id rel l.title l.body l.tags r.parent_id r.updated_time))
        (returned was_applied (text "base snapshot updated; both sides identical"))

  unfoldable pub op_rebase_of : Option FolderState → PlanOperation → Act R Outcome
  op_rebase_of (some f) o = op_rebase_folder f
  op_rebase_of none o = op_rebase_note o

  unfoldable pub op_rebase : PlanOperation → Act R Outcome
  op_rebase o = op_rebase_of o.folder_state o

  -- `(op.state.title if op.state else "") or ""`
  unfoldable pub state_title : PlanOperation → Text
  state_title o = elim o.state [ none ↦ [] | some i ↦ get_or i.title [] ]

  unfoldable pub drop_of : Option Text → Option Text → PlanOperation → Act R Outcome
  drop_of (some nid) fid o =
      commit
        (λ s.
          delete_note nid (tombstone nid (text "both") (get_or o.rel_path []) (state_title o) s))
        (returned was_applied [])
  drop_of none (some fid) o = commit (delete_folder fid) (returned was_applied [])
  drop_of none none o = commit (λ s. s) (returned was_applied [])

  unfoldable pub op_drop_base : PlanOperation → Act R Outcome
  op_drop_base o = drop_of (truthy o.note_id) (truthy o.folder_id) o

  -- `new_path.parent.mkdir(parents=True)` and the rename of a file that is there.
  unfoldable pub rename_file : Text → Text → Text → Files → Files
  rename_file old new content f = record f {
    texts = insert new content (erase old f.texts);
    dirs = f.dirs ++ parents [] new;
  }

  unfoldable pub rebased_path : Text → Text → Store → Store
  rebased_path nid rel s = elim (get_note env.rt nid s) [
    | none ↦ s
    | some b ↦ upsert_note (note_row b.id rel b.title b.body b.tags b.parent_id b.updated_time) s
  ]

  unfoldable pub op_normalize_path : PlanOperation → Act R Outcome
  op_normalize_path o = do
    path ← of_option assertion (truthy o.rel_path)
    target ← of_option assertion (truthy o.new_rel_path)
    nid ← of_option assertion (truthy o.note_id)
    guard_local env o
    old_rel ← current env path
    new_rel ← current env target
    stop_if (old_rel == new_rel) (returned was_skipped (text "already canonical"))
    files ← files_of
    stop_if (exists_path new_rel files) (returned was_skipped (text "target exists: " ++ new_rel))
    content ← of_option (raised (env.os_error old_rel)) (lookup old_rel files.texts)
    change_files (rename_file old_rel new_rel content)
    commit (rebased_path nid new_rel) (returned was_applied (text "renamed to " ++ new_rel))

  unfoldable pub op_create_conflict : PlanOperation → Act R Outcome
  op_create_conflict o = do
    i ← of_option assertion o.state
    cid ← create_bundle env i
    done (returned was_applied (text "conflict bundle " ++ (cid ++ text " created")))

  -- `Executor.execute`
  unfoldable pub handler : OpKind → PlanOperation → Act R Outcome
  handler pull_create_dir = op_pull_create_dir env
  handler pull_update_dir = op_pull_update_dir env
  handler push_create_folder = op_push_create_folder env
  handler push_update_folder = op_push_update_folder env
  handler pull_create_local = op_pull_create_local
  handler pull_update_local = op_pull_update_local
  handler pull_delete_local = op_pull_delete_local
  handler push_create_remote = op_push_create_remote env
  handler push_update_remote = op_push_update_remote env
  handler push_delete_remote = op_push_delete_remote
  handler rebase = op_rebase
  handler adopt_base = op_rebase
  handler drop_base = op_drop_base
  handler normalize_local_path = op_normalize_path
  handler create_conflict = op_create_conflict
