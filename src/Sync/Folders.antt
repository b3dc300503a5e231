-- ===== src/Sync/Folders.antt =====
-- The handlers of `Executor` in src/joplin_md_sync/sync.py for notebooks: pulling new, renamed and
-- moved ones, and pushing them.
use joplin_md_sync.Base.{
  Bool, true, false, ◌&&◌, not, Option, none, some, map_some, is_present, [], ◌∷◌, ◌++◌, ◌==◌,
  contains, map, nat_eq, list_eq, option_eq, if◌then◌else◌,
}
use joplin_md_sync.Base.Text.{Text, text}
use joplin_md_sync.Base.Dict.{Dict, lookup}
use joplin_md_sync.Models.{BaseFolder, PlanOperation}
use joplin_md_sync.State.{upsert_folder, move_prefix}
use joplin_md_sync.State.Moves.{rename_path}
use joplin_md_sync.Journal.{truthy}
use joplin_md_sync.Sync.Run.{Outcome, returned, concurrent, raised, was_applied, was_failed}
use joplin_md_sync.Sync.Act.{
  value, Files, Env, Act, done, of_option, call, stop_if, files_of, created_of, change_files,
  note_rename, note_folder, commit, ◌>>=◌, ◌>>◌,
}
use joplin_md_sync.Sync.Guards.{dirname, exists_path, parents, write_text, assertion, current}

-- The file of a notebook directory that holds its id.
abbrev meta_path : Text → Text
meta_path rel = rel ++ text "/.joplin-folder.json"

-- `path.mkdir(parents=True, exist_ok=True)`
unfoldable pub make_dir : Text → Files → Files
make_dir rel f = record f { dirs = f.dirs ++ (parents [] rel ++ (rel ∷ [])) }

unfoldable pub move_keys : Text → Text → Dict Text Text → Dict Text Text
move_keys old new [] = []
move_keys old new ((p, content) ∷ d) = (rename_path old new p, content) ∷ move_keys old new d

-- `new_path.parent.mkdir(parents=True, exist_ok=True)`
unfoldable pub make_parents : Text → Files → Files
make_parents new f = record f { dirs = f.dirs ++ parents [] new }

-- The directory moves with all that it holds.
unfoldable pub rename_dir : Text → Text → Files → Files
rename_dir old new f = record f {
  texts = move_keys old new f.texts;
  dirs = map (rename_path old new) f.dirs;
}

abbrev folder_row : Text → Text → Text → Text → BaseFolder
folder_row fid rel title parent_id = record {
  id = fid;
  rel_path = rel;
  title = title;
  parent_id = parent_id;
}

module _ {ℓ} {R : Type ℓ} (env : Env R) where
  -- `write_file_atomic` on the file of a notebook, which may raise an OSError.
  unfoldable pub write_meta : Text → Text → Act R (Unit {0})
  write_meta rel content = do
    stop_if (env.write_fails (meta_path rel)) (raised (env.os_error (meta_path rel)))
    change_files (write_text (meta_path rel) content)

  unfoldable pub op_pull_create_dir : PlanOperation → Act R Outcome
  op_pull_create_dir o = do
    f ← of_option assertion o.folder_state
    r ← of_option assertion f.remote
    rel ← of_option assertion (truthy o.new_rel_path)
    files ← files_of
    stop_if (is_present (lookup rel files.texts)) (raised (env.os_error rel))
    change_files (make_dir rel)
    write_meta rel (env.format.folder_json r.id r.parent_id r.title)
    commit (upsert_folder (folder_row r.id rel r.title r.parent_id)) (returned was_applied [])

  -- `self.store.move_prefix`, which commits.
  unfoldable pub follow_rename : Text → Text → Act R (Unit {0})
  follow_rename old new s = (value tt, record s { store = move_prefix old new s.store })

  -- The rename under `if old_rel != new_rel`.
  unfoldable pub move_dir : Bool → Text → Text → Act R (Unit {0})
  move_dir true old new = done tt
  move_dir false old new = do
    files ← files_of
    stop_if (exists_path new files) (returned was_failed (text "target already exists: " ++ new))
    change_files (make_parents new)
    stop_if (not (contains files.dirs old)) (raised (env.os_error old))
    change_files (rename_dir old new)
    note_rename old new
    follow_rename old new

  unfoldable pub op_pull_update_dir : PlanOperation → Act R Outcome
  op_pull_update_dir o = do
    f ← of_option assertion o.folder_state
    r ← of_option assertion f.remote
    path ← of_option assertion (truthy o.rel_path)
    new_rel ← of_option assertion (truthy o.new_rel_path)
    old_rel ← current env path
    move_dir (old_rel == new_rel) old_rel new_rel
    write_meta new_rel (env.format.folder_json r.id r.parent_id r.title)
    commit (upsert_folder (folder_row r.id new_rel r.title r.parent_id)) (returned was_applied [])

  -- `resolve_folder_id`
  unfoldable pub resolve_folder_id : Text → Dict Text Text → Option Text
  resolve_folder_id dir created = elim (lookup dir created) [
    | some fid ↦ some fid
    | none ↦ elim (lookup dir env.scan.folders_by_path) [
      | none ↦ none
      | some d ↦ truthy d.folder_id
    ]
  ]

  unfoldable pub parent_of : Text → Dict Text Text → Option Text
  parent_of dir created = if dir == [] then some [] else resolve_folder_id dir created

  unfoldable pub op_push_create_folder : PlanOperation → Act R Outcome
  op_push_create_folder o = do
    f ← of_option assertion o.folder_state
    l ← of_option assertion f.local
    path ← of_option assertion (truthy o.rel_path)
    rel ← current env path
    created ← created_of
    parent_id ←
        of_option (returned was_failed (text "parent notebook not resolved for " ++ rel))
          (parent_of (dirname rel) created)
    fid ← call (env.client.create_folder l.title parent_id)
    check ← call (env.client.get_folder fid)
    stop_if (not (map_some (λ c. c.0) check == some l.title))
        (returned was_failed (text "post-create verification failed"))
    write_meta rel (env.format.folder_json fid parent_id l.title)
    note_folder rel fid
    commit (upsert_folder (folder_row fid rel l.title parent_id))
        (returned was_applied (text "created notebook " ++ fid))

  -- The fields that differ, and the update if there are any.
  unfoldable pub changed_field : Text → Text → Option Text
  changed_field mine before = if mine == before then none else some mine

  unfoldable pub update_if_any : Text → Option Text → Option Text → Act R (Unit {0})
  update_if_any fid none none = done tt
  update_if_any fid title parent_id = call (env.client.update_folder fid title parent_id)

  unfoldable pub op_push_update_folder : PlanOperation → Act R Outcome
  op_push_update_folder o = do
    f ← of_option assertion o.folder_state
    l ← of_option assertion f.local
    b ← of_option assertion f.base
    fid ← of_option assertion (truthy o.folder_id)
    found ← call (env.client.get_folder fid)
    now_there ← of_option (returned was_failed (text "remote notebook disappeared")) found
    stop_if (not (now_there.0 == b.title && now_there.1 == b.parent_id))
        (concurrent (text "remote notebook changed between planning and apply: " ++ fid))
    update_if_any fid (changed_field l.title b.title) (changed_field l.parent_id b.parent_id)
    check ← call (env.client.get_folder fid)
    after ← of_option (returned was_failed (text "post-write verification failed")) check
    stop_if (not (after.0 == l.title && after.1 == l.parent_id))
        (returned was_failed (text "post-write verification failed"))
    rel ← current env l.rel_path
    commit (upsert_folder (folder_row fid rel l.title l.parent_id)) (returned was_applied [])
