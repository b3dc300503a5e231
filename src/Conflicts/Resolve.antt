-- ===== src/Conflicts/Resolve.antt =====
-- `resolve_conflict` and `discard_conflict` of src/joplin_md_sync/conflicts.py.
use joplin_md_sync.Base.{
  Bool, true, false, not, ◌&&◌, Option, none, some, map_some, get_or, is_present, [], ◌++◌, List,
  ◌==◌, nat_eq, list_eq, option_eq, if◌then◌else◌,
}
use joplin_md_sync.Base.Text.{Text, text}
use joplin_md_sync.Base.Dict.{lookup, erase}
use joplin_md_sync.Canonical.{note_hashes}
use joplin_md_sync.Models.{RemoteNote, BaseNote}
use joplin_md_sync.State.{
  Store, ConflictStatus, is_open, resolved, discarded, conflict_is_open, get_note, upsert_note,
  delete_note, get_conflict, set_conflict_status,
}
use joplin_md_sync.Planner.Draft.{combined_remote}
use joplin_md_sync.Journal.{truthy}
use joplin_md_sync.Metadata.{ParsedNoteFile, ParseResult, is_parsed, is_malformed}
use joplin_md_sync.Sync.Run.{concurrent, ambiguous, raised}
use joplin_md_sync.Sync.Bundle.{BundleMeta}
use joplin_md_sync.Sync.Act.{
  RawNote, Answer, confirmed, unconfirmed, Files, Env, Act, done, give_up, of_option, call, stop_if,
  files_of, store_of, change_files, change_store, ◌>>=◌, ◌>>◌,
}
use joplin_md_sync.Sync.Guards.{assertion, write_text, note_row, fetch_remote_canonical}
use joplin_md_sync.Sync.Folders.{make_parents}
use joplin_md_sync.Sync.Handlers.{backup_file, quarantine_file, tombstone}
use joplin_md_sync.Sync.Tags.{reconcile_tags}
use joplin_md_sync.Conflicts.Stale.{bundle_path, current_local, validate_not_stale}

pub data Mode : Type 0 where
  take_local : Mode
  take_remote : Mode
  -- the path that was given, and the text of the file that stands there
  merged_file : Text → Option Text → Mode
  other_mode : Text → Mode

unfoldable pub status_text : ConflictStatus → Text
status_text is_open = text "open"
status_text resolved = text "resolved"
status_text discarded = text "discarded"

-- What is reported of a resolution.
pub record Resolution : Type 0 where
  pub action : Text
  pub path : Text

-- `write_file_atomic` makes the directories above the file.
unfoldable pub write_atomic : Text → Text → Files → Files
write_atomic rel content f = write_text rel content (make_parents rel f)

abbrev is_trashed : Option RawNote → Bool
is_trashed none = false
is_trashed (some raw) = raw.is_deleted

abbrev base_parent : Option BaseNote → Text
base_parent none = []
base_parent (some b) = b.parent_id

abbrev not_valid : Text
not_valid = text "merged file is not a valid managed Markdown file: "

-- `shutil.rmtree` of the directory of the bundle
unfoldable pub remove_bundle : Text → Files → Files
remove_bundle cid f = record f { bundles = erase cid f.bundles }

module _ {ℓ} {R : Type ℓ} where
  -- A change of the state database that cannot fail.
  unfoldable pub update_store : (Store → Store) → Act R (Unit {0})
  update_store f = change_store assertion (λ s. some (f s))

  -- An AmbiguousWriteError is raised on.
  unfoldable pub sent : Answer → Act R (Unit {0})
  sent confirmed = done tt
  sent (unconfirmed m) = give_up (ambiguous m)

  -- A MetadataError becomes a WorkspaceError.
  unfoldable pub merged_or_raised : ParseResult → Act R ParsedNoteFile
  merged_or_raised (is_parsed p) = done p
  merged_or_raised (is_malformed m) = give_up (raised (not_valid ++ m))

  unfoldable pub close_conflict : Text → ConflictStatus → Resolution → Act R Resolution
  close_conflict cid status result = do
    update_store (set_conflict_status cid status)
    change_files (remove_bundle cid)
    done result

module _ {ℓ} {R : Type ℓ} (env : Env R) where
  module _ (nid title body parent_id : Text) where
    -- The note is gone in Joplin: it is taken out of the trash, or created again under its id.
    unfoldable pub restore_or_create : Bool → Act R (Unit {0})
    restore_or_create true = do
      call (env.client.restore_note nid)
      answer ← call (
          env.client.update_note nid
            (record { title = some title; body = some body; parent_id = some parent_id }))
      sent answer
    restore_or_create false = do
      made ← call (env.client.create_note_with_id nid title body parent_id)
      stop_if (not (made == nid)) (raised (text "failed to recreate note " ++ nid))

    unfoldable pub put_note : Option RemoteNote → Act R (Unit {0})
    put_note none = do raw ← call (env.client.get_any nid); restore_or_create (is_trashed raw)
    put_note (some r) = do
      answer ← call (
          env.client.update_note nid (record {
            title = some title;
            body = some body;
            parent_id =
                if not (parent_id == []) && not (parent_id == r.parent_id)
                then some parent_id
                else none;
          }))
      sent answer

  -- `_push_content`
  -- The end of `_push_content`, on what Joplin answers after the write.
  unfoldable pub write_checked :
      Text → Text → Text → Text → List Text → Option RemoteNote → Act R (Unit {0})
  write_checked nid rel title body tags found = do
    check ←
        of_option (concurrent (text "post-resolution verification failed for note " ++ nid)) found
    stop_if
        (not (
          combined_remote env.rt check
          == (note_hashes env.rt title body tags check.parent_id).combined))
        (concurrent (text "post-resolution verification failed for note " ++ nid))
    change_files (write_atomic rel (env.format.emit_note_file (some nid) title tags body))
    update_store (upsert_note (note_row nid rel title body tags check.parent_id check.updated_time))

  unfoldable pub push_content : Text → Text → Text → Text → List Text → Text → Act R (Unit {0})
  push_content nid rel title body tags parent_id = do
    remote ← fetch_remote_canonical env nid
    put_note nid title body parent_id remote
    reconcile_tags env nid tags none
    found ← fetch_remote_canonical env nid
    write_checked nid rel title body tags found

  unfoldable pub take_local_side : BundleMeta → Bool → Act R Resolution
  take_local_side meta true = do
    call (env.client.delete_note meta.note_id)
    check ← call (env.client.get_any meta.note_id)
    stop_if (is_present check && not (is_trashed check))
        (concurrent (text "failed to trash remote note " ++ meta.note_id))
    update_store (λ s.
        delete_note meta.note_id
          (tombstone env meta.note_id (text "local") (bundle_path meta) [] s))
    done (record { action = text "remote note moved to Joplin trash"; path = bundle_path meta })
  take_local_side meta false = do
    found ← current_local env (bundle_path meta)
    local ← of_option assertion found
    store ← store_of
    push_content meta.note_id (bundle_path meta) local.title local.body local.tags
        (base_parent (get_note env.rt meta.note_id store))
    done (record { action = text "local content pushed to Joplin"; path = bundle_path meta })

  -- The backup and the quarantine of a file that is there.
  unfoldable pub set_aside : Text → Option Text → Files → Files
  set_aside rel none f = f
  set_aside rel (some content) f = quarantine_file env rel content (backup_file env rel f)

  -- The path of the bundle, or that of the base.
  unfoldable pub path_or_base : Text → Text → Store → Option Text
  path_or_base nid rel s =
      if rel == []
      then map_some (λ (b : BaseNote). b.rel_path) (get_note env.rt nid s)
      else some rel

  unfoldable pub take_remote_side : BundleMeta → Bool → Act R Resolution
  take_remote_side meta true = do
    files ← files_of
    change_files (
        set_aside (bundle_path meta)
          (if bundle_path meta == [] then none else lookup (bundle_path meta) files.texts))
    update_store (λ s.
        delete_note meta.note_id
          (tombstone env meta.note_id (text "remote") (bundle_path meta) [] s))
    done (record {
      action = text "local file quarantined; deletion accepted";
      path = bundle_path meta;
    })
  take_remote_side meta false = do
    found ← fetch_remote_canonical env meta.note_id
    remote ← of_option assertion found
    store ← store_of
    rel ←
        of_option (raised (text "no local path known for note " ++ meta.note_id))
          (path_or_base meta.note_id (bundle_path meta) store)
    change_files (backup_file env rel)
    change_files (
        write_atomic rel
          (env.format.emit_note_file (some meta.note_id) remote.title remote.tags remote.body))
    update_store (
        upsert_note (
          note_row meta.note_id rel remote.title remote.body remote.tags remote.parent_id
            remote.updated_time))
    done (record { action = text "remote content written to local file"; path = rel })

  unfoldable pub take_merged : BundleMeta → Text → Option Text → Act R Resolution
  take_merged meta path content = do
    raw ← of_option (raised (text "merged file not found: " ++ path)) content
    merged ← merged_or_raised (env.format.parse_note_file raw)
    stop_if (is_present merged.note_id && not (merged.note_id == some meta.note_id)) (
        raised (
          text "merged file id "
          ++ (get_or merged.note_id [] ++ (text " does not match conflict note " ++ meta.note_id))))
    store ← store_of
    rel ←
        of_option (raised (text "no local path known for note " ++ meta.note_id))
          (truthy (path_or_base meta.note_id (bundle_path meta) store))
    change_files (backup_file env rel)
    push_content meta.note_id rel merged.title merged.body merged.tags
        (base_parent (get_note env.rt meta.note_id store))
    done (record { action = text "merged content applied to both sides"; path = rel })

  unfoldable pub resolve_by : BundleMeta → Mode → Act R Resolution
  resolve_by meta take_local = take_local_side meta meta.local_deleted
  resolve_by meta take_remote = take_remote_side meta meta.remote_deleted
  resolve_by meta (merged_file path content) =
      if path == []
      then give_up (raised (text "--merged-file PATH is required"))
      else take_merged meta path content
  resolve_by meta (other_mode m) = give_up (raised (text "unknown resolution mode: " ++ m))

  -- The conflict is open, its bundle is there, and neither side has changed since.
  unfoldable pub admit : Text → Act R BundleMeta
  admit cid = do
    store ← store_of
    row ← of_option (raised (text "unknown conflict id: " ++ cid)) (get_conflict cid store)
    stop_if (not (conflict_is_open row)) (
        raised (
          text "conflict "
          ++ (cid ++ (text " is not open (status: " ++ (status_text row.status ++ text ")")))))
    files ← files_of
    bundle ←
        of_option (raised (text "conflict bundle not found: " ++ cid)) (lookup cid files.bundles)
    validate_not_stale env bundle.meta
    done bundle.meta

  unfoldable pub resolve_conflict : Text → Mode → Act R Resolution
  resolve_conflict cid mode = do
    meta ← admit cid
    result ← resolve_by meta mode
    close_conflict cid resolved result

  unfoldable pub discard_conflict : Text → Act R Resolution
  discard_conflict cid = do
    store ← store_of
    row ← of_option (raised (text "unknown conflict id: " ++ cid)) (get_conflict cid store)
    close_conflict cid discarded
        (record { action = text "conflict bundle discarded"; path = row.rel_path })
