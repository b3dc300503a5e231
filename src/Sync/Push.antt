-- ===== src/Sync/Push.antt =====
-- The handlers of `Executor` in src/joplin_md_sync/sync.py that write notes to Joplin.
use joplin_md_sync.Base.{
  Bool, true, false, not, ◌&&◌, ◌||◌, Option, none, some, map_some, get_or, is_present, List, [],
  ◌++◌, ◌==◌, contains, nat_eq, list_eq, option_eq, if◌then◌else◌,
}
use joplin_md_sync.Base.Text.{Text, text}
use joplin_md_sync.Base.Dict.{lookup}
use joplin_md_sync.Canonical.{canonicalize_body, note_hashes}
use joplin_md_sync.Models.{
  RemoteNote, LocalNoteFile, PlanOperation, title, body, tags, parent, component_eq,
}
use joplin_md_sync.Paths.{note_filename}
use joplin_md_sync.State.{upsert_note}
use joplin_md_sync.Planner.Draft.{combined_remote}
use joplin_md_sync.Journal.{truthy}
use joplin_md_sync.Metadata.{ParsedNoteFile, ParseResult, is_parsed, is_malformed}
use joplin_md_sync.Sync.Run.{Outcome, returned, concurrent, raised, was_applied, was_failed}
use joplin_md_sync.Sync.Act.{
  NoteFields, Answer, confirmed, unconfirmed, Env, Act, done, of_option, call, stop_if, files_of,
  created_of, change_files, commit, ◌>>=◌, ◌>>◌,
}
use joplin_md_sync.Sync.Guards.{
  dirname, exists_path, unlink, note_row, assertion, current, fetch_remote_canonical, guard_local,
  guard_remote, write_local_note,
}
use joplin_md_sync.Sync.Folders.{resolve_folder_id}
use joplin_md_sync.Sync.Tags.{reconcile_note_tags}

-- `_read_local` turns every failure of parsing into `None`.
unfoldable pub parsed_option : ParseResult → Option ParsedNoteFile
parsed_option (is_parsed p) = some p
parsed_option (is_malformed m) = none

-- Title, body and tags of a file, or of the whole text where there is no header.
pub record Parts : Type 0 where
  pub title : Text
  pub body : Text
  pub tags : List Text

unfoldable pub parts_of : LocalNoteFile → Text → Option ParsedNoteFile → Parts
parts_of l raw none = record { title = l.title; body = canonicalize_body raw; tags = [] }
parts_of l raw (some p) = record { title = p.title; body = p.body; tags = p.tags }

unfoldable pub has_note_id : Option ParsedNoteFile → Bool
has_note_id none = false
has_note_id (some p) = is_present p.note_id

unfoldable pub given {ℓ} : {A : Type ℓ} → Bool → A → Option A
given b a = if b then some a else none

module _ {ℓ} {R : Type ℓ} (env : Env R) where
  unfoldable pub read_local : Text → Act R Text
  read_local rel =
      files_of >>= λ files. of_option (raised (env.os_error rel)) (lookup rel files.texts)

  unfoldable pub combined_parts : Parts → Text → Text
  combined_parts p parent_id = (note_hashes env.rt p.title p.body p.tags parent_id).combined

  unfoldable pub set_tags_if : Bool → Text → List Text → Act R (Unit {0})
  set_tags_if true nid wanted = reconcile_note_tags env nid wanted
  set_tags_if false nid wanted = done tt

  abbrev named_path : Text → Text → Text → Text
  named_path dir name nid = dir ++ (text "/" ++ note_filename env.rt name nid)

  unfoldable pub op_push_create_remote : PlanOperation → Act R Outcome
  op_push_create_remote o = do
    i ← of_option assertion o.state
    l ← of_option assertion i.local
    path ← of_option assertion (truthy o.rel_path)
    rel ← current env path
    raw ← read_local rel
    stop_if (has_note_id (parsed_option (env.format.parse_note_file raw)))
        (concurrent (text "local file gained a note id before apply: " ++ rel))
    p ← done (parts_of l raw (parsed_option (env.format.parse_note_file raw)))
    created ← created_of
    parent_id ←
        of_option (returned was_failed (text "parent notebook not resolved for " ++ rel))
          (resolve_folder_id env (dirname rel) created)
    nid ← call (env.client.create_note p.title p.body parent_id)
    set_tags_if (not (p.tags == [])) nid p.tags
    found ← fetch_remote_canonical env nid
    r ← of_option (returned was_failed (text "post-create verification failed")) found
    stop_if (not (combined_parts p parent_id == combined_remote env.rt r))
        (returned was_failed (text "post-create verification mismatch"))
    new_rel ← done (named_path (dirname rel) p.title nid)
    write_local_note env new_rel (some nid) p.title p.tags p.body
    change_files (if new_rel == rel then (λ f. f) else unlink rel)
    commit (upsert_note (note_row nid new_rel p.title p.body p.tags parent_id r.updated_time))
        (returned was_applied (text "created note " ++ nid))

  -- After a time-out: was the update of the fields applied?
  module _ (o : PlanOperation) (p : ParsedNoteFile) (parent_id : Text) where
    unfoldable pub intended_probe : Option RemoteNote → Text
    intended_probe probe =
        (note_hashes env.rt p.title p.body
          (if contains o.fields tags then p.tags else (elim probe [ none ↦ [] | some r ↦ r.tags ]))
          (if contains o.fields parent
            then parent_id
            else (elim probe [ none ↦ [] | some r ↦ r.parent_id ]))).combined

    unfoldable pub was_written : Option RemoteNote → Bool
    was_written probe = map_some (combined_remote env.rt) probe == some (intended_probe probe)

    unfoldable pub is_unchanged : Option RemoteNote → Bool
    is_unchanged probe =
        is_present probe && map_some (combined_remote env.rt) probe == o.expected_remote_hash

    unfoldable pub settle_update : Text → Answer → Act R (Unit {0})
    settle_update nid confirmed = done tt
    settle_update nid (unconfirmed m) = do
      probe ← fetch_remote_canonical env nid
      stop_if (not (was_written probe) && not (is_unchanged probe))
          (concurrent (text "ambiguous write and unexpected remote state for " ++ nid))
      stop_if (not (was_written probe)) (
          returned was_failed
            (text "write did not reach Joplin (timeout); state unchanged, rerun push"))

    unfoldable pub pushed_fields : NoteFields
    pushed_fields = record {
      title = given (contains o.fields title) p.title;
      body = given (contains o.fields body) p.body;
      parent_id = given (contains o.fields parent) parent_id;
    }

    unfoldable pub has_fields : NoteFields → Bool
    has_fields f = is_present f.title || (is_present f.body || is_present f.parent_id)

    unfoldable pub update_if : Bool → Text → Act R (Unit {0})
    update_if true nid = call (env.client.update_note nid pushed_fields) >>= settle_update nid
    update_if false nid = done tt

  -- The file takes the name of its title, if nothing is there; the path at which it stands.
  unfoldable pub move_if : Bool → Text → Text → Text → ParsedNoteFile → Act R Text
  move_if false nid rel new_rel p = done rel
  move_if true nid rel new_rel p = do
    write_local_note env new_rel (some nid) p.title p.tags p.body
    change_files (unlink rel)
    done new_rel

  unfoldable pub op_push_update_remote : PlanOperation → Act R Outcome
  op_push_update_remote o = do
    i ← of_option assertion o.state
    l ← of_option assertion i.local
    nid ← of_option assertion (truthy o.note_id)
    path ← of_option assertion (truthy o.rel_path)
    guard_local env o
    guard_remote env o
    rel ← current env path
    raw ← read_local rel
    p ← of_option assertion (parsed_option (env.format.parse_note_file raw))
    created ← created_of
    parent_id ← done (get_or (resolve_folder_id env (dirname rel) created) l.parent_id)
    update_if o p parent_id (has_fields o p parent_id (pushed_fields o p parent_id)) nid
    set_tags_if (contains o.fields tags) nid p.tags
    found ← fetch_remote_canonical env nid
    r ← of_option (returned was_failed (text "note disappeared during push")) found
    stop_if
        (not (
          (note_hashes env.rt p.title p.body p.tags parent_id).combined
          == combined_remote env.rt r))
        (concurrent (
          text "post-write verification failed for "
          ++ (nid ++ text ": the note changed concurrently")))
    files ← files_of
    new_rel ←
        move_if
          (not (named_path (dirname rel) p.title nid == rel)
            && not (exists_path (named_path (dirname rel) p.title nid) files))
          nid rel (named_path (dirname rel) p.title nid) p
    commit (upsert_note (note_row nid new_rel p.title p.body p.tags parent_id r.updated_time))
        (returned was_applied [])
