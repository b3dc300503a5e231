-- ===== src/Conflicts/Create.antt =====
-- `create_bundle` of src/joplin_md_sync/conflicts.py.
use joplin_md_sync.Base.{not, Option, none, some, map_some, get_or, is_present, [], nat_eq, list_eq}
use joplin_md_sync.Base.Text.{Text, text}
use joplin_md_sync.Base.Dict.{insert}
use joplin_md_sync.Canonical.{note_hashes}
use joplin_md_sync.Models.{ItemState, BaseNote, LocalNoteFile, RemoteNote}
use joplin_md_sync.State.{ConflictRow, is_open, open_conflict_for_note, add_conflict}
use joplin_md_sync.Sync.Run.{raised}
use joplin_md_sync.Sync.Bundle.{Bundle, BundleMeta}
use joplin_md_sync.Sync.Act.{
  Files, Env, Act, done, of_option, files_of, store_of, change_files, change_store, ◌>>=◌, ◌>>◌,
}
use joplin_md_sync.Sync.Guards.{assertion}

-- `_category`
unfoldable pub category_of : ItemState → Text
category_of item = elim item.base [
  | none ↦ text "no_base_divergent"
  | some b ↦ elim item.local [
    | none ↦ text "delete_local_edit_remote"
    | some l ↦ elim item.remote [
      | none ↦ text "delete_remote_edit_local"
      | some r ↦ text "divergent_edit"
    ]
  ]
]

module _ {ℓ} {R : Type ℓ} (env : Env R) where
  unfoldable pub bundle_meta : Text → Text → ItemState → BundleMeta
  unfolding category_of
  bundle_meta cid nid item = record {
    conflict_id = cid;
    note_id = nid;
    local_path = item.rel_path;
    category = category_of item;
    detected_time = env.now;
    local_deleted = not (is_present item.local);
    remote_deleted = not (is_present item.remote);
    base_hashes =
        map_some (λ (b : BaseNote). note_hashes env.rt b.title b.body b.tags b.parent_id) item.base;
    local_hashes =
        map_some (λ (l : LocalNoteFile). note_hashes env.rt l.title l.body l.tags l.parent_id)
          item.local;
    remote_hashes =
        map_some (λ (r : RemoteNote). note_hashes env.rt r.title r.body r.tags r.parent_id)
          item.remote;
    remote_updated_time = map_some (λ (r : RemoteNote). r.updated_time) item.remote;
  }

  unfoldable pub bundle_of : Text → Text → ItemState → Bundle
  unfolding bundle_meta
  bundle_of cid nid item = record {
    meta = bundle_meta cid nid item;
    base_md =
        map_some (λ (b : BaseNote). env.format.emit_note_file (some b.id) b.title b.tags b.body)
          item.base;
    local_md =
        map_some (λ (l : LocalNoteFile). env.format.emit_note_file l.note_id l.title l.tags l.body)
          item.local;
    remote_md =
        map_some (λ (r : RemoteNote). env.format.emit_note_file (some r.id) r.title r.tags r.body)
          item.remote;
  }

  unfoldable pub write_bundle : Text → Bundle → Files → Files
  write_bundle cid b f = record f { bundles = insert cid b f.bundles }

  abbrev pub conflict_row : Text → Text → ItemState → ConflictRow
  conflict_row cid nid item = record {
    id = cid;
    note_id = nid;
    rel_path = get_or item.rel_path [];
    category = category_of item;
    created_time = env.now;
    status = is_open;
  }

  -- The id of the conflict that is open for the note, or of a new one.
  unfoldable pub create_for : Text → ItemState → Option ConflictRow → Act R Text
  unfolding write_bundle bundle_of
  create_for nid item (some row) = done row.id
  create_for nid item none = do
    files ← files_of
    cid ← done (env.fresh_id files.bundles)
    change_files (write_bundle cid (bundle_of cid nid item))
    change_store (raised (text "UNIQUE constraint failed: conflicts.id"))
        (add_conflict (conflict_row cid nid item))
    done cid

  unfoldable pub create_bundle : ItemState → Act R Text
  unfolding create_for
  create_bundle item = do
    nid ← of_option assertion item.note_id
    store ← store_of
    create_for nid item (open_conflict_for_note nid store)
