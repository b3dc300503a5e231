-- ===== src/Planner/Classify.antt =====
-- `classify`, with the loops of `_classify_folders` and `_classify_notes`, of planner.py.
pub mod Finding
pub mod ByNote
pub mod Sides
pub mod Spec
use joplin_md_sync.Base.{
  ℕ, ◌+◌, zero, suc, Bool, true, false, ◌&&◌, ◌||◌, not, Option, none, some, get_or, List, [], ◌∷◌,
  ◌++◌, map, ◌==◌, contains, nat_eq, list_eq, if◌then◌else◌,
}
use joplin_md_sync.Base.Text.{Text, text, text_leb, length}
use joplin_md_sync.Base.Dict.{Dict, lookup, insert, keys, values}
use joplin_md_sync.Base.Sort.{sort}
use joplin_md_sync.Runtime.{Runtime}
use joplin_md_sync.Models.{
  Status, status_eq, local_new, joplin_conflict_note, invalid_local_file, LocalNoteFile,
  InvalidLocalFile, BaseNote, BaseFolder, ItemState, FolderState, RemoteSnapshot, RemoteFolder,
  LocalScan,
}
use joplin_md_sync.Planner.Notes.{classify_one_note}
use joplin_md_sync.Planner.Folders.{
  FolderVerdict, skip, report, reject, classify_one_folder, new_folder, remote_folder_paths,
}

pub record Classification : Type 0 where
  pub items : List ItemState
  pub folder_items : List FolderState
  pub invalid : List InvalidLocalFile
  pub remote_folder_paths : Dict Text Text

-- A set built from a list: the last of equal elements stays.
unfoldable pub distinct : List Text → List Text
distinct [] = []
distinct (x ∷ xs) = let rest = distinct xs in if contains rest x then rest else x ∷ rest

-- `sorted(set(a) | set(b) | set(c))`
unfoldable pub sorted_union : List Text → List Text → List Text → List Text
sorted_union a b c = sort text_leb (distinct (a ++ (b ++ c)))

unfoldable pub add_verdict : FolderVerdict → Classification → Classification
add_verdict skip c = c
add_verdict (report f) c = record c { folder_items = c.folder_items ++ (f ∷ []) }
add_verdict (reject i) c = record c { invalid = c.invalid ++ (i ∷ []) }

unfoldable pub classify_folder_ids :
    Dict Text BaseFolder → LocalScan → RemoteSnapshot → List Text → Classification → Classification
classify_folder_ids bases scan snapshot [] c = c
classify_folder_ids bases scan snapshot (fid ∷ ids) c =
    classify_folder_ids bases scan snapshot ids (
      add_verdict
        (classify_one_folder c.remote_folder_paths fid (lookup fid bases)
          (lookup fid scan.folders_by_id) (lookup fid snapshot.folders))
        c)

unfoldable pub classify_folders :
    Dict Text BaseFolder → LocalScan → RemoteSnapshot → Classification → Classification
classify_folders bases scan snapshot c =
    let ids = sorted_union (keys bases) (keys scan.folders_by_id) (keys snapshot.folders) in
    let c' = classify_folder_ids bases scan snapshot ids c in
    record c' { folder_items = c'.folder_items ++ map new_folder scan.candidate_folders }

-- What the first loop of `_classify_notes` collects.
pub record Split : Type 0 where
  pub by_id : Dict Text LocalNoteFile
  pub new_locals : List LocalNoteFile
  pub duplicates : List InvalidLocalFile

-- A file whose id is that of `first`, or of no file before it.
unfoldable pub split_with_id : Option LocalNoteFile → Text → LocalNoteFile → Split → Split
split_with_id none nid note s = record s { by_id = insert nid note s.by_id }
split_with_id (some first) nid note s = record s {
  duplicates =
      s.duplicates
      ++ (record {
        rel_path = note.rel_path;
        reason =
            text "duplicate note id "
            ++ (nid ++ (text " (also at " ++ (first.rel_path ++ text ")")));
      }
          ∷ []);
}

unfoldable pub split_by_id : Option Text → LocalNoteFile → Split → Split
unfolding split_with_id
split_by_id none note s = record s { new_locals = s.new_locals ++ (note ∷ []) }
split_by_id (some nid) note s = split_with_id (lookup nid s.by_id) nid note s

unfoldable pub split_note : LocalNoteFile → Split → Split
unfolding split_by_id
split_note note s = split_by_id note.note_id note s

unfoldable pub split_locals : List LocalNoteFile → Split → Split
unfolding split_note
split_locals [] s = s
split_locals (n ∷ ns) s = split_locals ns (split_note n s)

abbrev pub no_locals : Split
no_locals = record { by_id = []; new_locals = []; duplicates = [] }

unfoldable pub new_note : LocalNoteFile → ItemState
new_note note = record {
  status = local_new;
  note_id = none;
  rel_path = some note.rel_path;
  title = some note.title;
  changed_components = [];
  remote_changed_components = [];
  detail = if note.has_header then [] else text "no metadata header; will be adopted on push";
  base = none;
  local = some note;
  remote = none;
}

unfoldable pub conflict_note : Text × Text → ItemState
conflict_note (id, title) = record {
  status = joplin_conflict_note;
  note_id = some id;
  rel_path = none;
  title = some title;
  changed_components = [];
  remote_changed_components = [];
  detail = text "conflict note created by Joplin's own sync; resolve it in Joplin";
  base = none;
  local = none;
  remote = none;
}

abbrev pub add_item : Option ItemState → List ItemState → List ItemState
add_item none items = items
add_item (some i) items = items ++ (i ∷ [])

-- `key=lambda i: (i.rel_path or "", i.note_id or "")`
abbrev pub key_leb : Option Text → Option Text → Option Text → Option Text → Bool
key_leb p i q j =
    if get_or p [] == get_or q []
    then text_leb (get_or i []) (get_or j [])
    else text_leb (get_or p []) (get_or q [])

unfoldable pub item_leb : ItemState → ItemState → Bool
item_leb a b = key_leb a.rel_path a.note_id b.rel_path b.note_id

unfoldable pub folder_item_leb : FolderState → FolderState → Bool
folder_item_leb a b = key_leb a.rel_path a.folder_id b.rel_path b.folder_id

module _ (rt : Runtime) (open_ids : List Text) where
  unfoldable pub classify_note_ids :
      Dict Text BaseNote
      → Dict Text LocalNoteFile
      → RemoteSnapshot
      → List Text
      → List ItemState
      → List ItemState
  classify_note_ids bases by_id snapshot [] items = items
  classify_note_ids bases by_id snapshot (nid ∷ ids) items =
      classify_note_ids bases by_id snapshot ids (
        add_item
          (classify_one_note rt nid snapshot.trashed_note_ids open_ids (lookup nid bases)
            (lookup nid by_id) (lookup nid snapshot.notes))
          items)

  unfoldable pub classify_notes :
      Dict Text BaseNote → LocalScan → RemoteSnapshot → Classification → Classification
  classify_notes bases scan snapshot c =
      let s = split_locals scan.notes no_locals in
      let ids = sorted_union (keys bases) (keys s.by_id) (keys snapshot.notes) in
      let items = classify_note_ids bases s.by_id snapshot ids c.items in
      record c { items = items ++ map new_note s.new_locals; invalid = c.invalid ++ s.duplicates }

  unfoldable pub classify :
      Dict Text BaseNote → Dict Text BaseFolder → LocalScan → RemoteSnapshot → Classification
  classify base_notes base_folders scan snapshot =
      let start : Classification = record {
        items = [];
        folder_items = [];
        invalid = scan.invalid;
        remote_folder_paths = remote_folder_paths rt snapshot;
      } in
      let c =
        classify_notes base_notes scan snapshot
          (classify_folders base_folders scan snapshot start) in
      record c {
        items = sort item_leb (c.items ++ map conflict_note snapshot.conflict_notes);
        folder_items = sort folder_item_leb c.folder_items;
      }
