-- ===== src/State.antt =====
-- src/joplin_md_sync/state.py: the tables of the state database and the operations of `StateStore`.
-- A table is a dict by its primary key. The columns that hold hashes are left out, since no query
-- reads them: a note is read back with its hashes computed anew.
pub mod Like
pub mod Moves
pub mod Notes
pub mod Runs
use joplin_md_sync.Base.{
  ℕ, suc, ◌+◌, Bool, true, false, ◌&&◌, ◌||◌, not, Option, none, some, map_some, is_present, List,
  [], ◌∷◌, ◌++◌, map, ◌==◌, nat_eq, list_eq, leb, ltb, if◌then◌else◌,
}
use joplin_md_sync.Base.Text.{Text, text, text_leb, length, drop}
use joplin_md_sync.Base.Dict.{Dict, lookup, insert, erase, values}
use joplin_md_sync.Base.Sort.{sort}
use joplin_md_sync.Runtime.{Runtime}
use joplin_md_sync.Canonical.{note_hashes}
use joplin_md_sync.Models.{BaseNote, BaseFolder}
use Like.{like, like_escape}

pub record NoteRow : Type 0 where
  pub id : Text
  pub rel_path : Text
  pub title : Text
  pub body : Text
  pub tags : List Text
  pub parent_id : Text
  pub updated_time : ℕ

pub record Tombstone : Type 0 where
  pub note_id : Text
  pub side : Text
  pub rel_path : Text
  pub title : Text
  pub created_time : ℕ

pub data ConflictStatus : Type 0 where
  is_open resolved discarded : ConflictStatus

pub record ConflictRow : Type 0 where
  pub id : Text
  pub note_id : Text
  pub rel_path : Text
  pub category : Text
  pub created_time : ℕ
  pub status : ConflictStatus

pub data RunStatus : Type 0 where
  in_progress complete failed recovered : RunStatus

pub record RunRow : Type 0 where
  pub run_id : Text
  pub command : Text
  pub started_time : ℕ
  pub status : RunStatus
  pub journal_path : Text

pub record Store : Type 0 where
  pub meta : Dict Text Text
  pub notes : Dict Text NoteRow
  pub folders : Dict Text BaseFolder
  pub tombstones : Dict Text Tombstone
  pub conflicts : Dict Text ConflictRow
  pub runs : Dict Text RunRow

abbrev pub empty_store : Store
empty_store = record {
  meta = [];
  notes = [];
  folders = [];
  tombstones = [];
  conflicts = [];
  runs = [];
}

unfoldable pub get_meta : Text → Store → Option Text
get_meta key s = lookup key s.meta

unfoldable pub set_meta : Text → Text → Store → Store
set_meta key value s = record s { meta = insert key value s.meta }

unfoldable pub row_to_note : Runtime → NoteRow → BaseNote
row_to_note rt row = record {
  id = row.id;
  rel_path = row.rel_path;
  title = row.title;
  body = row.body;
  tags = row.tags;
  parent_id = row.parent_id;
  updated_time = row.updated_time;
  hashes = note_hashes rt row.title row.body row.tags row.parent_id;
}

-- The rows of a table, each changed.
unfoldable pub map_rows {ℓ κ μ} :
    {K : Type ℓ} {V : Type κ} {W : Type μ} → (V → W) → Dict K V → Dict K W
map_rows f [] = []
map_rows f ((k, v) ∷ d) = (k, f v) ∷ map_rows f d

unfoldable pub all_notes : Runtime → Store → Dict Text BaseNote
all_notes rt s = map_rows (row_to_note rt) s.notes

unfoldable pub get_note : Runtime → Text → Store → Option BaseNote
get_note rt nid s = map_some (row_to_note rt) (lookup nid s.notes)

-- `json.dumps(sorted(tags))` is read back as the sorted tags.
unfoldable pub upsert_note : NoteRow → Store → Store
upsert_note row s = record s {
  notes = insert row.id (record row { tags = sort text_leb row.tags }) s.notes;
}

unfoldable pub delete_note : Text → Store → Store
delete_note nid s = record s { notes = erase nid s.notes }

unfoldable pub all_folders : Store → Dict Text BaseFolder
all_folders s = s.folders

unfoldable pub upsert_folder : BaseFolder → Store → Store
upsert_folder f s = record s { folders = insert f.id f s.folders }

unfoldable pub delete_folder : Text → Store → Store
delete_folder fid s = record s { folders = erase fid s.folders }

-- The two UPDATE statements of `move_prefix`, on one stored path: first the paths below the old
-- prefix, by LIKE and `substr`, then the prefix itself.
unfoldable pub move_below : Text → Text → Text → Text
move_below old new path =
    if like (like_escape old ++ text "/%") path
    then new ++ (text "/" ++ drop (length old + 1) path)
    else path

unfoldable pub move_itself : Text → Text → Text → Text
move_itself old new path = if path == old then new else path

unfoldable pub move_path : Text → Text → Text → Text
move_path old new path = move_itself old new (move_below old new path)

unfoldable pub move_prefix : Text → Text → Store → Store
move_prefix old new s = record s {
  notes = map_rows (λ (r : NoteRow). record r { rel_path = move_path old new r.rel_path }) s.notes;
  folders =
      map_rows (λ (f : BaseFolder). record f { rel_path = move_path old new f.rel_path }) s.folders;
}

unfoldable pub add_tombstone : Tombstone → Store → Store
add_tombstone t s = record s { tombstones = insert t.note_id t s.tombstones }

unfoldable pub remove_tombstone : Text → Store → Store
remove_tombstone nid s = record s { tombstones = erase nid s.tombstones }

unfoldable pub all_tombstones : Store → List Tombstone
all_tombstones s = sort (λ a b. text_leb a.note_id b.note_id) (values s.tombstones)

abbrev pub conflict_is_open : ConflictRow → Bool
conflict_is_open r = elim r.status [ is_open ↦ true | _ ↦ false ]

-- `none`: the primary key is taken, and SQLite raises an IntegrityError.
unfoldable pub add_conflict : ConflictRow → Store → Option Store
add_conflict row s =
    if is_present (lookup row.id s.conflicts)
    then none
    else some (record s { conflicts = insert row.id (record row { status = is_open }) s.conflicts })

unfoldable pub get_conflict : Text → Store → Option ConflictRow
get_conflict cid s = lookup cid s.conflicts

unfoldable pub rows_where {ℓ} : {V : Type ℓ} → (V → Bool) → List V → List V
rows_where keep [] = []
rows_where keep (r ∷ rs) = let rest = rows_where keep rs in if keep r then r ∷ rest else rest

-- ORDER BY created_time, id
unfoldable pub open_conflicts : Store → List ConflictRow
open_conflicts s =
    sort
      (λ a b.
        ltb a.created_time b.created_time
        || (a.created_time == b.created_time && text_leb a.id b.id))
      (rows_where conflict_is_open (values s.conflicts))

abbrev pub first {ℓ} : {V : Type ℓ} → List V → Option V
first [] = none
first (r ∷ rs) = some r

unfoldable pub open_conflict_for_note : Text → Store → Option ConflictRow
open_conflict_for_note nid s =
    first (
      rows_where (λ (r : ConflictRow). r.note_id == nid && conflict_is_open r) (values s.conflicts))

-- `UPDATE … WHERE id=?`
unfoldable pub update_row {ℓ} : {V : Type ℓ} → Text → (V → V) → Dict Text V → Dict Text V
update_row key f [] = []
update_row key f ((k, v) ∷ d) = (k, if key == k then f v else v) ∷ update_row key f d

unfoldable pub set_conflict_status : Text → ConflictStatus → Store → Store
set_conflict_status cid status s = record s {
  conflicts = update_row cid (λ (r : ConflictRow). record r { status = status }) s.conflicts;
}

-- `none`: the run id is taken.
unfoldable pub record_run : RunRow → Store → Option Store
record_run row s =
    if is_present (lookup row.run_id s.runs)
    then none
    else some (record s { runs = insert row.run_id (record row { status = in_progress }) s.runs })

unfoldable pub finish_run : Text → RunStatus → Store → Store
finish_run rid status s = record s {
  runs = update_row rid (λ (r : RunRow). record r { status = status }) s.runs;
}

abbrev pub run_is_open : RunRow → Bool
run_is_open r = elim r.status [ in_progress ↦ true | _ ↦ false ]

-- ORDER BY started_time
unfoldable pub incomplete_runs : Store → List RunRow
incomplete_runs s =
    sort (λ a b. leb a.started_time b.started_time) (rows_where run_is_open (values s.runs))
