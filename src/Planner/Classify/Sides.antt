-- ===== src/Planner/Classify/Sides.antt =====
-- The sides that the items of `classify` of src/joplin_md_sync/planner.py carry, by their status.
use mathlib.Core.Path.{subst}
use joplin_md_sync.Base.{
  ◌≡◌, refl, sym, ◌∙◌, Bool, true, false, Option, none, some, is_present, OnSome, List, [], ◌∷◌,
  map, arith,
}
use joplin_md_sync.Base.Text.{Text}
use joplin_md_sync.Base.Dict.{Dict}
use joplin_md_sync.Base.Sort.{All, All-append, All-sort}
use joplin_md_sync.Runtime.{Runtime}
use joplin_md_sync.Models.{
  Status, remote_modified, moved_remote, remote_new, remote_deleted, local_modified,
  metadata_modified, moved_local, local_new, folder_remote_new, folder_remote_modified,
  folder_local_modified, RemoteSnapshot, LocalScan, LocalNoteFile, BaseNote, RemoteNote, BaseFolder,
  LocalFolderDir, RemoteFolder, ItemState, FolderState,
}
use joplin_md_sync.Planner.Notes.{classify_one_note, local_status}
use joplin_md_sync.Planner.Folders.{
  FolderVerdict, skip, report, reject, classify_one_folder, new_folder,
}
use joplin_md_sync.Planner.Classify.{
  Classification, add_verdict, classify_folder_ids, classify_folders, split_locals, no_locals,
  new_note, conflict_note, add_item, item_leb, folder_item_leb, classify_note_ids, classify_notes,
  classify,
}

abbrev pub wants_local : Status → Bool
wants_local remote_modified = true
wants_local moved_remote = true
wants_local remote_deleted = true
wants_local local_modified = true
wants_local metadata_modified = true
wants_local moved_local = true
wants_local local_new = true
wants_local folder_remote_modified = true
wants_local folder_local_modified = true
wants_local _ = false

abbrev pub wants_remote : Status → Bool
wants_remote remote_modified = true
wants_remote moved_remote = true
wants_remote remote_new = true
wants_remote folder_remote_new = true
wants_remote folder_remote_modified = true
wants_remote _ = false

pub record HasSides {ℓ κ} {A : Type ℓ} {B : Type κ} (s : Status) (l : Option A) (r : Option B)
    : Type 0 where
  pub local_side : wants_local s ≡ true → is_present l ≡ true
  pub remote_side : wants_remote s ≡ true → is_present r ≡ true

abbrev pub ItemSides : ItemState → Type 0
ItemSides i = HasSides i.status i.local i.remote

abbrev pub FolderSides : FolderState → Type 0
FolderSides f = HasSides f.status f.local f.remote

classify_one_note-ItemSides :
    (rt : Runtime) (nid : Text) (trashed open_ids : List Text) (b : Option BaseNote)
    (l : Option LocalNoteFile) (r : Option RemoteNote)
    → OnSome ItemSides (classify_one_note rt nid trashed open_ids b l r)
unfolding classify_one_note local_status
classify_one_note-ItemSides rt nid trashed open_ids (some b) (some l) (some r) = ground arith
classify_one_note-ItemSides rt nid trashed open_ids _ _ _ = ground arith

abbrev OnReport : FolderVerdict → Type 0
OnReport skip = Unit
OnReport (report f) = FolderSides f
OnReport (reject i) = Unit

classify_one_folder-FolderSides :
    (paths : Dict Text Text) (fid : Text) (b : Option BaseFolder) (l : Option LocalFolderDir)
    (r : Option RemoteFolder)
    → OnReport (classify_one_folder paths fid b l r)
unfolding classify_one_folder
classify_one_folder-FolderSides paths fid (some b) (some l) (some r) = ground arith
classify_one_folder-FolderSides paths fid _ _ _ = ground arith

add_verdict-FolderSides :
    (v : FolderVerdict) (c : Classification)
    → OnReport v
    → All FolderSides c.folder_items
    → All FolderSides (add_verdict v c).folder_items
unfolding add_verdict
add_verdict-FolderSides skip c v h = h
add_verdict-FolderSides (report f) c v h = All-append FolderSides c.folder_items (f ∷ []) h (v, tt)
add_verdict-FolderSides (reject i) c v h = h

classify_folder_ids-FolderSides :
    (bases : Dict Text BaseFolder) (scan : LocalScan) (snapshot : RemoteSnapshot) (ids : List Text)
    (c : Classification)
    → All FolderSides c.folder_items
    → All FolderSides (classify_folder_ids bases scan snapshot ids c).folder_items
unfolding classify_folder_ids
classify_folder_ids-FolderSides bases scan snapshot [] c h = h
classify_folder_ids-FolderSides bases scan snapshot (fid ∷ ids) c h =
    classify_folder_ids-FolderSides bases scan snapshot ids _
      (add_verdict-FolderSides _ c (classify_one_folder-FolderSides _ _ _ _ _) h)

-- The folders leave the items alone.
pub items-classify_folder_ids :
    (bases : Dict Text BaseFolder) (scan : LocalScan) (snapshot : RemoteSnapshot) (ids : List Text)
    (c : Classification)
    → (classify_folder_ids bases scan snapshot ids c).items ≡ c.items
unfolding classify_folder_ids add_verdict
items-classify_folder_ids bases scan snapshot [] c = refl
items-classify_folder_ids bases scan snapshot (fid ∷ ids) c =
    items-classify_folder_ids bases scan snapshot ids _ ∙ ground arith

new_folder-FolderSides : (ds : List LocalFolderDir) → All FolderSides (map new_folder ds)
unfolding new_folder
new_folder-FolderSides [] = tt
new_folder-FolderSides (d ∷ ds) = (ground arith, new_folder-FolderSides ds)

new_note-ItemSides : (ns : List LocalNoteFile) → All ItemSides (map new_note ns)
unfolding new_note
new_note-ItemSides [] = tt
new_note-ItemSides (n ∷ ns) = (ground arith, new_note-ItemSides ns)

conflict_note-ItemSides : (ns : List (Text × Text)) → All ItemSides (map conflict_note ns)
unfolding conflict_note
conflict_note-ItemSides [] = tt
conflict_note-ItemSides ((id, t) ∷ ns) = (ground arith, conflict_note-ItemSides ns)

add_item-ItemSides :
    (o : Option ItemState) (items : List ItemState)
    → OnSome ItemSides o
    → All ItemSides items
    → All ItemSides (add_item o items)
add_item-ItemSides none items o h = h
add_item-ItemSides (some i) items o h = All-append ItemSides items (i ∷ []) h (o, tt)

module _ (rt : Runtime) (open_ids : List Text) where
  classify_note_ids-ItemSides :
      (bases : Dict Text BaseNote) (by_id : Dict Text LocalNoteFile) (snapshot : RemoteSnapshot)
      (ids : List Text) (items : List ItemState)
      → All ItemSides items
      → All ItemSides (classify_note_ids rt open_ids bases by_id snapshot ids items)
  unfolding classify_note_ids
  classify_note_ids-ItemSides bases by_id snapshot [] items h = h
  classify_note_ids-ItemSides bases by_id snapshot (nid ∷ ids) items h =
      classify_note_ids-ItemSides bases by_id snapshot ids _
        (add_item-ItemSides _ items (classify_one_note-ItemSides rt nid _ open_ids _ _ _) h)

  -- The sides are there for every item and every folder.
  pub classify-HasSides :
      (bn : Dict Text BaseNote) (bf : Dict Text BaseFolder) (scan : LocalScan)
      (snapshot : RemoteSnapshot)
      → let c = classify rt open_ids bn bf scan snapshot in
        All ItemSides c.items × All FolderSides c.folder_items
  unfolding classify classify_notes classify_folders
  classify-HasSides bn bf scan snapshot = (
    All-sort ItemSides item_leb _ (
        All-append ItemSides _ (map conflict_note snapshot.conflict_notes)
          (All-append ItemSides _ (map new_note (split_locals scan.notes no_locals).new_locals)
            (classify_note_ids-ItemSides bn _ snapshot _ _
              (subst (All ItemSides) (sym (items-classify_folder_ids bf scan snapshot _ _)) tt))
            (new_note-ItemSides _))
          (conflict_note-ItemSides _)),
    All-sort FolderSides folder_item_leb _ (
        All-append FolderSides _ (map new_folder scan.candidate_folders)
          (classify_folder_ids-FolderSides bf scan snapshot _ _ tt) (new_folder-FolderSides _)),
  )
