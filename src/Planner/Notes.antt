-- ===== src/Planner/Notes.antt =====
-- `_classify_one_note` of src/joplin_md_sync/planner.py.
pub mod Matrix
use joplin_md_sync.Base.{
  ℕ, Bool, true, false, ◌&&◌, ◌||◌, not, Option, none, some, List, [], ◌∷◌, ◌++◌, ◌==◌, contains,
  nat_eq, list_eq, if◌then◌else◌,
}
use joplin_md_sync.Base.Text.{Text, text, text_leb}
use joplin_md_sync.Base.Dict
use joplin_md_sync.Base.Dict.{Dict, lookup, insert, keys}
use joplin_md_sync.Base.Sort.{sort}
use joplin_md_sync.Runtime.{Runtime}
use joplin_md_sync.Canonical.{note_hashes, changed_components}
use joplin_md_sync.Models.{
  Status, unchanged, local_modified, remote_modified, both_identical, conflict, local_new,
  remote_new, local_deleted, remote_deleted, both_deleted, delete_conflict, moved_local,
  moved_remote, metadata_modified, invalid_local_file, Component, body, parent, component_eq,
  NoteHashes, RemoteNote, LocalNoteFile, InvalidLocalFile, BaseNote, ItemState, RemoteSnapshot,
  LocalScan,
}

unfoldable pub local_status : List Component → Status
local_status diff =
    if diff == (parent ∷ [])
    then moved_local
    else if not (contains diff body)
    then metadata_modified
    else local_modified

unfoldable pub conflict_detail : Text → List Text → Text
conflict_detail nid open_ids =
    if contains open_ids nid
    then text "conflict bundle already exists; see 'conflicts list'"
    else text
        "divergent concurrent change; a conflict bundle will be created by the next mutating command"

-- A result with the fields that the source leaves at their defaults.
abbrev pub item : Status → Text → Option Text → Option Text → Text → ItemState
item status nid path title detail = record {
  status = status;
  note_id = some nid;
  rel_path = path;
  title = title;
  changed_components = [];
  remote_changed_components = [];
  detail = detail;
  base = none;
  local = none;
  remote = none;
}

module _ (rt : Runtime) where
  unfoldable pub local_hashes : LocalNoteFile → NoteHashes
  local_hashes l = note_hashes rt l.title l.body l.tags l.parent_id

  unfoldable pub remote_hashes : RemoteNote → NoteHashes
  remote_hashes r = note_hashes rt r.title r.body r.tags r.parent_id

  module _ (nid : Text) (trashed open_ids : List Text) where
    abbrev where_is : Text
    where_is = if contains trashed nid then text "trash" else text "Joplin"

    unfoldable pub classify_all_sides : BaseNote → LocalNoteFile → RemoteNote → ItemState
    classify_all_sides b l r =
        let lh = local_hashes l in
        let rh = remote_hashes r in
        let local_diff = changed_components lh b.hashes in
        let remote_diff = changed_components rh b.hashes in
        if (local_diff == []) && (remote_diff == [])
        then record (item unchanged nid (some l.rel_path) (some l.title) []) {
          base = some b;
          local = some l;
          remote = some r;
        }
        else if not (local_diff == []) && (remote_diff == [])
        then record (item (local_status local_diff) nid (some l.rel_path) (some l.title) []) {
          changed_components = local_diff;
          base = some b;
          local = some l;
          remote = some r;
        }
        else if not (remote_diff == []) && (local_diff == [])
        then record (item (if remote_diff == (parent ∷ []) then moved_remote else remote_modified)
            nid (some l.rel_path) (some r.title) []) {
              remote_changed_components = remote_diff;
              base = some b;
              local = some l;
              remote = some r;
            }
        else if lh.combined == rh.combined
        then record (item both_identical nid (some l.rel_path) (some l.title)
            (text "same change on both sides")) {
              changed_components = local_diff;
              remote_changed_components = remote_diff;
              base = some b;
              local = some l;
              remote = some r;
            }
        else record (item conflict nid (some l.rel_path) (some l.title)
            (conflict_detail nid open_ids)) {
              changed_components = local_diff;
              remote_changed_components = remote_diff;
              base = some b;
              local = some l;
              remote = some r;
            }

    unfoldable pub classify_without_remote : BaseNote → LocalNoteFile → ItemState
    classify_without_remote b l =
        let lh = local_hashes l in
        if lh.combined == b.hashes.combined
        then record (item remote_deleted nid (some l.rel_path) (some l.title) (
            text "note deleted in "
            ++ (where_is
                ++ text "; local file kept (pass --propagate-deletes to quarantine it)"))) {
                  base = some b;
                  local = some l;
                }
        else record (item delete_conflict nid (some l.rel_path) (some l.title)
            (text "edited locally but deleted in " ++ where_is)) {
              changed_components = changed_components lh b.hashes;
              base = some b;
              local = some l;
            }

    unfoldable pub classify_without_local : BaseNote → RemoteNote → ItemState
    classify_without_local b r =
        let rh = remote_hashes r in
        if rh.combined == b.hashes.combined
        then record (item local_deleted nid (some b.rel_path) (some b.title) (
            text
              "local file deleted; remote note kept (pass --propagate-deletes on push to move it to Joplin trash)")) {
                base = some b;
                remote = some r;
              }
        else record (item delete_conflict nid (some b.rel_path) (some r.title)
            (text "deleted locally but edited in Joplin")) {
              remote_changed_components = changed_components rh b.hashes;
              base = some b;
              remote = some r;
            }

    unfoldable pub classify_without_base : LocalNoteFile → RemoteNote → ItemState
    classify_without_base l r =
        if (local_hashes l).combined == (remote_hashes r).combined
        then record (item both_identical nid (some l.rel_path) (some l.title)
            (text "base snapshot adopted (reconstructed workspace)")) {
              local = some l;
              remote = some r;
            }
        else record (item conflict nid (some l.rel_path) (some l.title) (
            text "local and remote differ and no base snapshot exists (reconstructed workspace); "
            ++ conflict_detail nid open_ids)) { local = some l; remote = some r }

    unfoldable pub classify_one_note :
        Option BaseNote → Option LocalNoteFile → Option RemoteNote → Option ItemState
    unfolding classify_all_sides classify_without_remote classify_without_local
        classify_without_base
    classify_one_note (some b) (some l) (some r) = some (classify_all_sides b l r)
    classify_one_note (some b) (some l) none = some (classify_without_remote b l)
    classify_one_note (some b) none (some r) = some (classify_without_local b r)
    classify_one_note (some b) none none =
        some
          (record (item both_deleted nid (some b.rel_path) (some b.title)
            (text "deleted on both sides; base snapshot will be dropped")) { base = some b })
    classify_one_note none (some l) (some r) = some (classify_without_base l r)
    classify_one_note none (some l) none =
        some
          (record (item invalid_local_file nid (some l.rel_path) (some l.title) (
            text "note id "
            ++ ((if contains trashed nid
                  then text "exists only in Joplin trash"
                  else text "does not exist in Joplin")
                ++ text
                    " and no base snapshot exists; remove the 'id' key from the header to push it as a new note"))) {
                      local = some l;
                    })
    classify_one_note none none (some r) =
        some (record (item remote_new nid none (some r.title) []) { remote = some r })
    classify_one_note none none none = none
