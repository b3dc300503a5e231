-- ===== src/Planner/Plan/Items.antt =====
-- The third part of `build_plan`: what is planned for one note.
use joplin_md_sync.Base.{
  Bool, ◌&&◌, Option, none, some, map_some, [], ◌++◌, ◌==◌, list_eq, nat_eq, if◌then◌else◌,
}
use joplin_md_sync.Base.Text.{Text, text, has_part}
use joplin_md_sync.Base.Dict.{Dict}
use joplin_md_sync.Runtime.{Runtime}
use joplin_md_sync.Models.{
  Status, unchanged, local_modified, remote_modified, both_identical, conflict, local_new,
  remote_new, local_deleted, remote_deleted, both_deleted, delete_conflict, moved_local,
  moved_remote, metadata_modified, ItemState, LocalNoteFile, RemoteNote, BaseNote,
  pull_create_local, pull_update_local, pull_delete_local, push_create_remote, push_update_remote,
  push_delete_remote, rebase, adopt_base, create_conflict, drop_base, normalize_local_path,
}
use joplin_md_sync.Planner.Folders.{note_target_path}
use joplin_md_sync.Planner.Draft.{
  Draft, refuse, nothing, op, operation, shown, listed, combined_local, combined_remote,
}

module _ (rt : Runtime) (paths : Dict Text Text) where
  -- A cosmetic rename, for an item that is unchanged.
  unfoldable pub plan_normalize : ItemState → Option RemoteNote → Option LocalNoteFile → Draft
  plan_normalize i (some r) (some l) = elim (note_target_path rt r paths) [
    | none ↦ nothing
    | some target ↦
        if target == l.rel_path
        then nothing
        else op (record (operation normalize_local_path (text "rename to canonical filename")) {
          note_id = i.note_id;
          rel_path = some l.rel_path;
          new_rel_path = some target;
          state = some i;
          expected_local_hash = some (combined_local rt l);
        })
  ]
  plan_normalize i _ _ = nothing

  unfoldable pub plan_pull_update : ItemState → Option RemoteNote → Option LocalNoteFile → Draft
  plan_pull_update i (some r) (some l) =
      op
        (record (operation pull_update_local
          (text "remote changed: " ++ listed i.remote_changed_components)) {
            note_id = i.note_id;
            rel_path = some l.rel_path;
            new_rel_path = some (elim (note_target_path rt r paths) [
              | none ↦ l.rel_path
              | some target ↦ if target == [] then l.rel_path else target
            ]);
            state = some i;
            expected_local_hash = some (combined_local rt l);
            expected_remote_hash = some (combined_remote rt r);
          })
  plan_pull_update i _ _ = refuse

  unfoldable pub plan_pull_create : ItemState → Option RemoteNote → Draft
  plan_pull_create i none = refuse
  plan_pull_create i (some r) = elim (note_target_path rt r paths) [
    | none ↦ nothing
    | some target ↦
        op
          (record (operation pull_create_local
            (text "new remote note '" ++ (shown i.title ++ text "'"))) {
              note_id = i.note_id;
              new_rel_path = some target;
              state = some i;
              expected_remote_hash = some (combined_remote rt r);
            })
  ]

  unfoldable pub plan_pull_delete : ItemState → Option LocalNoteFile → Draft
  plan_pull_delete i none = refuse
  plan_pull_delete i (some l) =
      op
        (record (operation pull_delete_local
          (text "remote note deleted; local file will be quarantined")) {
            note_id = i.note_id;
            rel_path = some l.rel_path;
            state = some i;
            expected_local_hash = some (combined_local rt l);
          })

  unfoldable pub plan_push_update : ItemState → Option LocalNoteFile → Draft
  plan_push_update i none = refuse
  plan_push_update i (some l) =
      op
        (record (operation push_update_remote
          (text "local changed: " ++ listed i.changed_components)) {
            note_id = i.note_id;
            rel_path = some l.rel_path;
            fields = i.changed_components;
            state = some i;
            expected_local_hash = some (combined_local rt l);
            expected_remote_hash = map_some (combined_remote rt) i.remote;
          })

  unfoldable pub plan_push_create : ItemState → Option LocalNoteFile → Draft
  plan_push_create i none = refuse
  plan_push_create i (some l) =
      op
        (record (operation push_create_remote
          (text "new local note '" ++ (shown i.title ++ text "'"))) {
            rel_path = some l.rel_path;
            state = some i;
            expected_local_hash = some (combined_local rt l);
          })

  unfoldable pub plan_push_delete : ItemState → Draft
  plan_push_delete i =
      op
        (record (operation push_delete_remote
          (text "local file deleted; remote note will move to Joplin trash")) {
            note_id = i.note_id;
            rel_path = i.rel_path;
            state = some i;
            expected_remote_hash = map_some (combined_remote rt) i.remote;
          })

  unfoldable pub plan_rebase : ItemState → Option BaseNote → Draft
  plan_rebase i base =
      op (record (operation (elim base [ none ↦ adopt_base | some _ ↦ rebase ]) i.detail) {
        note_id = i.note_id;
        rel_path = i.rel_path;
        state = some i;
        expected_local_hash = map_some (combined_local rt) i.local;
        expected_remote_hash = map_some (combined_remote rt) i.remote;
      })

  unfoldable pub plan_drop : ItemState → Draft
  plan_drop i = op (record (operation drop_base i.detail) {
    note_id = i.note_id;
    rel_path = i.rel_path;
    state = some i;
  })

  unfoldable pub plan_conflict : ItemState → Draft
  plan_conflict i =
      if has_part i.detail (text "bundle already exists")
      then nothing
      else op (record (operation create_conflict i.detail) {
        note_id = i.note_id;
        rel_path = i.rel_path;
        state = some i;
        expected_local_hash = map_some (combined_local rt) i.local;
        expected_remote_hash = map_some (combined_remote rt) i.remote;
      })

  -- The chain of tests on the status; all that no branch names is only reported.
  unfoldable pub plan_status : Bool → Bool → Bool → Status → ItemState → Draft
  plan_status pull push deletes unchanged i =
      if pull then plan_normalize i i.remote i.local else nothing
  plan_status pull push deletes remote_modified i =
      if pull then plan_pull_update i i.remote i.local else nothing
  plan_status pull push deletes moved_remote i =
      if pull then plan_pull_update i i.remote i.local else nothing
  plan_status pull push deletes remote_new i = if pull then plan_pull_create i i.remote else nothing
  plan_status pull push deletes remote_deleted i =
      if pull && deletes then plan_pull_delete i i.local else nothing
  plan_status pull push deletes local_modified i =
      if push then plan_push_update i i.local else nothing
  plan_status pull push deletes metadata_modified i =
      if push then plan_push_update i i.local else nothing
  plan_status pull push deletes moved_local i = if push then plan_push_update i i.local else nothing
  plan_status pull push deletes local_new i = if push then plan_push_create i i.local else nothing
  plan_status pull push deletes local_deleted i =
      if push && deletes then plan_push_delete i else nothing
  plan_status pull push deletes both_identical i = plan_rebase i i.base
  plan_status pull push deletes both_deleted i = plan_drop i
  plan_status pull push deletes conflict i = plan_conflict i
  plan_status pull push deletes delete_conflict i = plan_conflict i
  plan_status pull push deletes _ i = nothing

  unfoldable pub plan_item : Bool → Bool → Bool → ItemState → Draft
  plan_item pull push deletes i = plan_status pull push deletes i.status i
