-- ===== src/Planner/Classify/Spec.antt =====
-- `classify_notes` against the three-way matrix on contents.
use joplin_md_sync.Base.{◌≡◌, ap, ◌∙◌, map_some, List, [], list_eq, nat_eq}
use joplin_md_sync.Base.Text.{Text}
use joplin_md_sync.Base.Dict.{Dict, lookup}
use joplin_md_sync.Runtime.{Runtime, NoCollision, IsStableCase}
use joplin_md_sync.Models.{RemoteSnapshot, LocalScan, BaseNote}
use joplin_md_sync.Planner.Notes.Matrix.{
  IsKnown, status_of, three_way, base_content, local_content, remote_content,
  classify_one_note-eq-three_way,
}
use joplin_md_sync.Planner.Notes.{classify_one_note}
use joplin_md_sync.Planner.Classify.{Classification, classify_notes}
use joplin_md_sync.Planner.Classify.Finding.{find}
use joplin_md_sync.Planner.Classify.ByNote.{first_with, lookup-local_files, find-classify_notes}

module _ (rt : Runtime) (law : IsStableCase rt) (nc : NoCollision rt) where
  -- For each note id, the status of the first item with that id after `classify_notes` is the one
  -- that the three-way matrix gives for the canonical contents (title, body, tags, notebook) of
  -- the base snapshot, of the first workspace file with the id and of the note in Joplin; where
  -- none of them knows the note there is no item. Conditions: the classification holds no items
  -- before, the digest has no collision, lower case is stable, the base carries the hashes of its
  -- own fields, and no tag on any side has a NUL.
  pub classify_notes-eq-three_way :
      (open_ids : List Text) (bases : Dict Text BaseNote) (scan : LocalScan)
      (snapshot : RemoteSnapshot) (c : Classification) (nid : Text)
      → c.items ≡ []
      → IsKnown rt (lookup nid bases) (first_with nid scan.notes) (lookup nid snapshot.notes)
      → status_of (find nid (classify_notes rt open_ids bases scan snapshot c).items)
        ≡ three_way
            (map_some (base_content rt) (lookup nid bases))
            (map_some (local_content rt) (first_with nid scan.notes))
            (map_some (remote_content rt) (lookup nid snapshot.notes))
  classify_notes-eq-three_way open_ids bases scan snapshot c nid empty known =
      ap status_of (find-classify_notes rt open_ids bases scan snapshot c nid empty)
      ∙ ap
          (λ l. status_of (
            classify_one_note rt nid snapshot.trashed_note_ids open_ids (lookup nid bases) l
              (lookup nid snapshot.notes)))
          (lookup-local_files nid scan)
      ∙ classify_one_note-eq-three_way rt law nc nid snapshot.trashed_note_ids open_ids
          (lookup nid bases) (first_with nid scan.notes) (lookup nid snapshot.notes) known
