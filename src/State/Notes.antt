-- ===== src/State/Notes.antt =====
-- Writing and reading notes in src/joplin_md_sync/state.py.
use joplin_md_sync.Base.{
  ◌≡◌, refl, none, some, map_some, [], ◌∷◌, ◌==◌, nat_eq, list_eq, arith, if◌then◌else◌,
}
use joplin_md_sync.Base.Text.{Text, text_leb}
use joplin_md_sync.Base.Dict.{Dict, lookup, lookup-insert, lookup-erase}
use joplin_md_sync.Base.Sort.{sort}
use joplin_md_sync.Runtime.{Runtime}
use joplin_md_sync.Canonical.{note_hashes}
use joplin_md_sync.State.{
  Store, NoteRow, row_to_note, map_rows, all_notes, get_note, upsert_note, delete_note,
}

pub lookup-map_rows {ℓ κ} :
    {V : Type ℓ} {W : Type κ} (f : V → W) (k : Text) (d : Dict Text V)
    → lookup k (map_rows f d) ≡ map_some f (lookup k d)
unfolding lookup map_rows
lookup-map_rows f k [] = refl
lookup-map_rows f k ((j, v) ∷ d) = ground (arith, lookup-map_rows f k d)

-- The dict of all notes is `get_note` at each id.
pub lookup-all_notes :
    (rt : Runtime) (nid : Text) (s : Store) → lookup nid (all_notes rt s) ≡ get_note rt nid s
unfolding all_notes get_note
lookup-all_notes rt nid s = lookup-map_rows (row_to_note rt) nid s.notes

-- After `upsert_note`, `get_note` gives at the note's own id each field as it was written, with
-- the tags sorted and with the hashes of the title, the body, the sorted tags and the notebook,
-- and at every other id what it gave before.
pub get_note-upsert_note :
    (rt : Runtime) (nid : Text) (row : NoteRow) (s : Store)
    → get_note rt nid (upsert_note row s) ≡ (
        if nid == row.id
        then some (record {
          id = row.id;
          rel_path = row.rel_path;
          title = row.title;
          body = row.body;
          tags = sort text_leb row.tags;
          parent_id = row.parent_id;
          updated_time = row.updated_time;
          hashes = note_hashes rt row.title row.body (sort text_leb row.tags) row.parent_id;
        })
        else get_note rt nid s)
unfolding get_note upsert_note row_to_note
get_note-upsert_note rt nid row s = rw lookup-insert (ground arith)

pub get_note-delete_note :
    (rt : Runtime) (nid : Text) (gone : Text) (s : Store)
    → get_note rt nid (delete_note gone s) ≡ (if nid == gone then none else get_note rt nid s)
unfolding get_note delete_note
get_note-delete_note rt nid gone s = rw lookup-erase (ground arith)
