-- ===== src/Tests/Folders.antt =====
-- A notebook directory that is renamed, with a note in it.
use joplin_md_sync.Base.{◌≡◌, refl, none, some, [], ◌∷◌, nat_eq, list_eq, option_eq}
use joplin_md_sync.Base.Text.{text, starts_with, drop}
use joplin_md_sync.Base.Dict.{lookup, insert}
use joplin_md_sync.Models.{PlanOperation, pull_update_dir, folder_remote_modified}
use joplin_md_sync.State.Moves.{rename_path}
use joplin_md_sync.Planner.Draft.{operation}
use joplin_md_sync.Sync.Run.{returned, was_applied}
use joplin_md_sync.Sync.Act.{
  and_then, done, of_option, stop_if, files_of, renames_of, change_files, note_rename, commit,
  ended,
}
use joplin_md_sync.Sync.Guards.{exists_path, parents, write_text, current, current_path}
use joplin_md_sync.Sync.Folders.{
  make_parents, rename_dir, move_keys, move_dir, write_meta, follow_rename, op_pull_update_dir,
}
use joplin_md_sync.Tests.Handlers.{env, start}

abbrev rename : PlanOperation
rename = record (operation pull_update_dir []) {
  op_id = text "op-0001";
  folder_id = some (text "f");
  rel_path = some (text "W");
  new_rel_path = some (text "V");
  folder_state = some (record {
    status = folder_remote_modified;
    folder_id = some (text "f");
    rel_path = some (text "W");
    title = some (text "V");
    detail = [];
    base = none;
    local = none;
    remote = some (record { id = text "f"; parent_id = []; title = text "V" });
  });
}

-- The note moves with its directory, and the rename is known to the rest of the run.
rename_test :
    (ended (op_pull_update_dir env rename (start (text "old") (text "new"))).0
      ≡ returned was_applied [])
    × (lookup
          (text "V/x.md")
          (op_pull_update_dir env rename (start (text "old") (text "new"))).1.files.texts
        ≡ some (text "old"))
    × ((op_pull_update_dir env rename (start (text "old") (text "new"))).1.renames
        ≡ (text "W", text "V") ∷ [])
unfolding op_pull_update_dir write_meta follow_rename move_dir rename_dir move_keys make_parents
    write_text parents exists_path current current_path rename_path starts_with drop lookup insert
    and_then done of_option stop_if files_of renames_of change_files note_rename commit ended text
    nat_eq list_eq option_eq
rename_test = (refl, refl, refl)
