-- ===== src/Planner/Plan/Folders.antt =====
-- The first two parts of `build_plan` and the folder bases: what is planned for one notebook.
use joplin_md_sync.Base.{Option, none, some, get_or, [], ◌++◌}
use joplin_md_sync.Base.Text.{Text, text}
use joplin_md_sync.Base.Dict.{Dict, lookup}
use joplin_md_sync.Base.{list_eq, nat_eq}
use joplin_md_sync.Models.{
  FolderState, LocalFolderDir, RemoteFolder, pull_create_dir, pull_update_dir, push_create_folder,
  push_update_folder, adopt_base, drop_base,
}
use joplin_md_sync.Planner.Draft.{Draft, refuse, op, operation, shown}

unfoldable pub plan_create_dir : FolderState → Draft
plan_create_dir fs = elim fs.remote [
  | none ↦ refuse
  | some r ↦
      op (record (operation pull_create_dir (text "notebook '" ++ (shown fs.title ++ text "'"))) {
        folder_id = fs.folder_id;
        new_rel_path = fs.rel_path;
        folder_state = some fs;
      })
]

unfoldable pub plan_update_dir :
    Dict Text Text → FolderState → Option LocalFolderDir → Option RemoteFolder → Draft
plan_update_dir paths fs (some l) (some r) =
    op
      (record (operation pull_update_dir
        (text "notebook renamed/moved to '" ++ (r.title ++ text "'"))) {
          folder_id = fs.folder_id;
          rel_path = some l.rel_path;
          new_rel_path = lookup (get_or fs.folder_id []) paths;
          folder_state = some fs;
        })
plan_update_dir paths fs _ _ = refuse

unfoldable pub plan_create_folder : FolderState → Draft
plan_create_folder fs =
    op
      (record (operation push_create_folder
        (text "new notebook '" ++ (shown fs.title ++ text "'"))) {
          rel_path = fs.rel_path;
          folder_state = some fs;
        })

unfoldable pub plan_update_folder : FolderState → Draft
plan_update_folder fs = elim fs.local [
  | none ↦ refuse
  | some l ↦
      op
        (record (operation push_update_folder
          (text "notebook renamed/moved to '" ++ (l.title ++ text "'"))) {
            folder_id = fs.folder_id;
            rel_path = some l.rel_path;
            folder_state = some fs;
          })
]

unfoldable pub plan_folder_base : FolderState → Draft
plan_folder_base fs = op (record (operation adopt_base fs.detail) {
  folder_id = fs.folder_id;
  rel_path = fs.rel_path;
  folder_state = some fs;
})

unfoldable pub plan_folder_drop : FolderState → Draft
plan_folder_drop fs = op (record (operation drop_base (text "folder gone on both sides")) {
  folder_id = fs.folder_id;
  rel_path = fs.rel_path;
  folder_state = some fs;
})
