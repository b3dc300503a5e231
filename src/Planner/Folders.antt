-- ===== src/Planner/Folders.antt =====
-- `_remote_folder_paths` and `_classify_folders` of src/joplin_md_sync/planner.py.
pub mod Fuel
use joplin_md_sync.Base.{
  ℕ, zero, suc, ◌≡◌, Bool, true, false, ◌&&◌, ◌||◌, not, Option, none, some, get_or, List, [], ◌∷◌,
  ◌++◌, ◌==◌, contains, nat_eq, list_eq, if◌then◌else◌,
}
use joplin_md_sync.Base.Text.{Text, text, text_leb, length}
use joplin_md_sync.Base.Dict.{Dict, lookup, insert, values}
use joplin_md_sync.Base.Sort.{sort}
use joplin_md_sync.Runtime.{Runtime}
use joplin_md_sync.Paths.{folder_dirname, casefold, note_filename}
use joplin_md_sync.Models.{
  Status, both_identical, folder_local_new, folder_remote_new, folder_local_modified,
  folder_remote_modified, folder_remote_deleted, folder_local_deleted, folder_conflict,
  RemoteFolder, RemoteNote, LocalFolderDir, BaseFolder, FolderState, InvalidLocalFile,
  RemoteSnapshot,
}

abbrev pub Children : Type 0
Children = Dict Text (List RemoteFolder)

-- A folder whose parent is not in the snapshot hangs under the root, "".
unfoldable pub parent_in : Dict Text RemoteFolder → RemoteFolder → Text
parent_in folders f = elim (lookup f.parent_id folders) [ none ↦ [] | some _ ↦ f.parent_id ]

-- `children.setdefault(parent, []).append(folder)` for each folder
unfoldable pub group : Dict Text RemoteFolder → List RemoteFolder → Children → Children
group folders [] children = children
group folders (f ∷ fs) children =
    let p = parent_in folders f in
    group folders fs (insert p (get_or (lookup p children) [] ++ (f ∷ [])) children)

-- `key=lambda f: (f.title, f.id)`
unfoldable pub folder_leb : RemoteFolder → RemoteFolder → Bool
folder_leb f g = if f.title == g.title then text_leb f.id g.id else text_leb f.title g.title

module _ (rt : Runtime) where
  -- The loop of `walk` over the sorted children; `visit` is the call that goes one level down.
  unfoldable pub walk_siblings :
      (Text → Text → Dict Text Text → Dict Text Text)
      → Text
      → List Text
      → List RemoteFolder
      → List Text
      → Dict Text Text
      → Dict Text Text
  walk_siblings visit prefix seen [] taken paths = paths
  walk_siblings visit prefix seen (f ∷ fs) taken paths =
      let name = folder_dirname rt f.title f.id taken in
      let path = prefix ++ name in
      let next = visit f.id (path ++ text "/") (insert f.id path paths) in
      let kept = contains seen f.id in
      walk_siblings visit prefix seen fs (if kept then taken else casefold rt name ∷ taken)
        (if kept then paths else next)

  -- The depth is bounded by the fuel; a level more has one folder more in `seen`.
  unfoldable pub walk : ℕ → Children → Text → Text → List Text → Dict Text Text → Dict Text Text
  walk zero children parent_id prefix seen paths = paths
  walk (suc fuel) children parent_id prefix seen paths =
      walk_siblings (λ id prefix' paths'. walk fuel children id prefix' (id ∷ seen) paths') prefix
        seen (sort folder_leb (get_or (lookup parent_id children) [])) [] paths

  -- Every folder adds one level at most, and one more stops the recursion: see Fuel.
  unfoldable pub remote_folder_paths : RemoteSnapshot → Dict Text Text
  remote_folder_paths snapshot =
      walk (suc (length (values snapshot.folders)))
        (group snapshot.folders (values snapshot.folders) []) [] [] [] []

  -- `_note_target_path`
  unfoldable pub note_target_path : RemoteNote → Dict Text Text → Option Text
  note_target_path note paths = elim (lookup note.parent_id paths) [
    | none ↦ none
    | some path ↦ some (path ++ (text "/" ++ note_filename rt note.title note.id))
  ]

abbrev folder_item : Status → Text → Option Text → Text → Text → FolderState
folder_item status fid path title detail = record {
  status = status;
  folder_id = some fid;
  rel_path = path;
  title = some title;
  detail = detail;
  base = none;
  local = none;
  remote = none;
}

-- What the loop of `_classify_folders` does with one folder: nothing, an item, or an invalid file.
pub data FolderVerdict : Type 0 where
  skip : FolderVerdict
  report : FolderState → FolderVerdict
  reject : InvalidLocalFile → FolderVerdict

unfoldable pub classify_whole_folder :
    Text → BaseFolder → LocalFolderDir → RemoteFolder → FolderVerdict
classify_whole_folder fid b l r =
    let l_changed = not (l.title == b.title && l.parent_id == b.parent_id) in
    let r_changed = not (r.title == b.title && r.parent_id == b.parent_id) in
    if not l_changed && not r_changed
    then skip
    else if l_changed && r_changed
    then (if l.title == r.title && l.parent_id == r.parent_id
        then report
            (record (folder_item both_identical fid (some l.rel_path) l.title
              (text "same folder change on both sides")) {
                base = some b;
                local = some l;
                remote = some r;
              })
        else report
            (record (folder_item folder_conflict fid (some l.rel_path) l.title
              (text "folder renamed/moved differently on both sides; resolve manually")) {
                base = some b;
                local = some l;
                remote = some r;
              }))
    else if l_changed
    then report (record (folder_item folder_local_modified fid (some l.rel_path) l.title []) {
      base = some b;
      local = some l;
      remote = some r;
    })
    else report (record (folder_item folder_remote_modified fid (some l.rel_path) r.title []) {
      base = some b;
      local = some l;
      remote = some r;
    })

unfoldable pub classify_one_folder :
    Dict Text Text
    → Text
    → Option BaseFolder
    → Option LocalFolderDir
    → Option RemoteFolder
    → FolderVerdict
unfolding classify_whole_folder
classify_one_folder paths fid (some b) (some l) (some r) = classify_whole_folder fid b l r
classify_one_folder paths fid (some b) (some l) none =
    report
      (record (folder_item folder_remote_deleted fid (some l.rel_path) l.title (
        text
          "notebook deleted in Joplin; local directory kept (folder deletions never propagate in v1)")) {
            base = some b;
            local = some l;
          })
classify_one_folder paths fid (some b) none (some r) =
    report
      (record (folder_item folder_local_deleted fid (some b.rel_path) r.title (
        text
          "local notebook directory deleted; remote notebook kept (folder deletions never propagate in v1)")) {
            base = some b;
            remote = some r;
          })
classify_one_folder paths fid none (some l) (some r) =
    report
      (record (folder_item both_identical fid (some l.rel_path) l.title
        (text "folder base snapshot adopted")) { local = some l; remote = some r })
classify_one_folder paths fid none (some l) none = reject (record {
  rel_path = l.rel_path;
  reason =
      text "folder id "
      ++ (fid
          ++ text
              " does not exist in Joplin; remove .joplin-folder.json to treat it as a new notebook");
})
classify_one_folder paths fid none none (some r) =
    report
      (record (folder_item folder_remote_new fid (lookup fid paths) r.title []) { remote = some r })
classify_one_folder paths fid (some b) none none =
    report
      (record (folder_item folder_local_deleted fid (some b.rel_path) b.title
        (text "folder gone on both sides; base forgotten")) { base = some b })
classify_one_folder paths fid none none none = skip

-- A local directory without a metadata file.
unfoldable pub new_folder : LocalFolderDir → FolderState
new_folder cand = record {
  status = folder_local_new;
  folder_id = none;
  rel_path = some cand.rel_path;
  title = some cand.title;
  detail = [];
  base = none;
  local = some cand;
  remote = none;
}
