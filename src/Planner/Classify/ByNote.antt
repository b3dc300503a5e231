-- ===== src/Planner/Classify/ByNote.antt =====
-- The items of `_classify_notes` of src/joplin_md_sync/planner.py, read note by note.
use joplin_md_sync.Base.{
  ◌≡◌, refl, sym, ap, ◌∙◌, false, ◌||◌, Bool, true, Option, none, some, Bool-cases, inl, inr,
  is_present, OnSome, List, [], ◌∷◌, ◌++◌, map, ◌==◌, contains, nat_eq, list_eq, option_eq, arith,
  if◌then◌else◌,
}
use mathlib.Core.List.{append-nil, append_assoc}
use joplin_md_sync.Base.Text.{Text}
use joplin_md_sync.Base.Dict.{Dict, lookup, lookup-insert, keys, contains-keys}
use joplin_md_sync.Base.Sort.{IsDistinct}
use joplin_md_sync.Runtime.{Runtime}
use joplin_md_sync.Models.{
  RemoteSnapshot, LocalScan, LocalNoteFile, BaseNote, RemoteNote, ItemState,
}
use joplin_md_sync.Planner.Notes.{classify_one_note}
use joplin_md_sync.Planner.Classify.{
  Classification, sorted_union, Split, split_with_id, split_by_id, split_note, split_locals,
  no_locals, new_note, add_item, classify_note_ids, classify_notes,
}
use joplin_md_sync.Planner.Classify.Finding.{
  ==-eq, contains-sorted_union, sorted_union-IsDistinct, ids_in, find, find-append_some,
  find-append_none, find-new_note, note_id-classify_one_note, find-add, choose,
}

module _ (rt : Runtime) (open_ids : List Text) (bases : Dict Text BaseNote)
    (by_id : Dict Text LocalNoteFile) (snapshot : RemoteSnapshot) where
  -- The verdict on a note by itself.
  abbrev pub verdict : Text → Option ItemState
  verdict nid =
      classify_one_note rt nid snapshot.trashed_note_ids open_ids (lookup nid bases)
        (lookup nid by_id) (lookup nid snapshot.notes)

  collected : List Text → List ItemState
  collected [] = []
  collected (nid ∷ ids) = add_item (verdict nid) [] ++ collected ids

  classify_note_ids-collected :
      (ids : List Text) (items : List ItemState)
      → classify_note_ids rt open_ids bases by_id snapshot ids items ≡ items ++ collected ids
  unfolding classify_note_ids collected
  classify_note_ids-collected [] items = sym (append-nil items)
  classify_note_ids-collected (nid ∷ ids) items =
      classify_note_ids-collected ids (add_item (verdict nid) items) ∙ go (verdict nid)
    where
      go :
          (o : Option ItemState)
          → add_item o items ++ collected ids ≡ items ++ (add_item o [] ++ collected ids)
      go none = refl
      go (some i) = append_assoc items (i ∷ []) (collected ids)

  find-collected :
      (nid : Text) (ids : List Text)
      → find nid (collected ids) ≡ (if contains ids nid then verdict nid else none)
  unfolding collected
  find-collected nid [] = refl
  find-collected nid (j ∷ ids) =
      rw
        (
          find-add nid j (verdict j) (collected ids) (
              note_id-classify_one_note rt j snapshot.trashed_note_ids open_ids (lookup j bases)
                (lookup j by_id) (lookup j snapshot.notes)),
          find-collected nid ids,
        )
        (choose (nid == j) (contains ids nid) (verdict j) (verdict nid)
          (λ e. ap verdict (sym (==-eq nid j e))))

  -- The notes' own items, before those of new files: one for each id that some side knows.
  find-classify_note_ids :
      (nid : Text)
      → find nid (
          classify_note_ids rt open_ids bases by_id snapshot
            (sorted_union (keys bases) (keys by_id) (keys snapshot.notes))
            [])
        ≡ verdict nid
  unfolding classify_one_note
  find-classify_note_ids nid =
      rw
        (
          classify_note_ids-collected, find-collected, contains-sorted_union, contains-keys,
          contains-keys, contains-keys,
        )
        (known (lookup nid bases) (lookup nid by_id) (lookup nid snapshot.notes))
    where
      known :
          (b : Option BaseNote) (l : Option LocalNoteFile) (r : Option RemoteNote)
          → (if is_present b || (is_present l || is_present r)
              then classify_one_note rt nid snapshot.trashed_note_ids open_ids b l r
              else none)
            ≡ classify_one_note rt nid snapshot.trashed_note_ids open_ids b l r
      known (some b) l r = refl
      known none (some l) r = refl
      known none none (some r) = refl
      known none none none = refl

  contains-collected :
      (nid : Text) (ids : List Text)
      → contains ids nid ≡ false
      → contains (ids_in (collected ids)) nid ≡ false
  unfolding collected
  contains-collected nid [] h = refl
  contains-collected nid (j ∷ ids) h =
      go (verdict j)
        (note_id-classify_one_note rt j snapshot.trashed_note_ids open_ids (lookup j bases)
          (lookup j by_id) (lookup j snapshot.notes))
        (contains-collected nid ids (ground arith))
    where
      go :
          (o : Option ItemState)
          → OnSome (λ i. i.note_id ≡ some j) o
          → contains (ids_in (collected ids)) nid ≡ false
          → contains (ids_in (add_item o [] ++ collected ids)) nid ≡ false
      go none k r = r
      go (some i) k r = ground arith

  collected-IsDistinct : (ids : List Text) → IsDistinct ids → IsDistinct (ids_in (collected ids))
  unfolding collected
  collected-IsDistinct [] h = tt
  collected-IsDistinct (j ∷ ids) h =
      go (verdict j)
        (note_id-classify_one_note rt j snapshot.trashed_note_ids open_ids (lookup j bases)
          (lookup j by_id) (lookup j snapshot.notes))
        (contains-collected j ids h.0) (collected-IsDistinct ids h.1)
    where
      go :
          (o : Option ItemState)
          → OnSome (λ i. i.note_id ≡ some j) o
          → contains (ids_in (collected ids)) j ≡ false
          → IsDistinct (ids_in (collected ids))
          → IsDistinct (ids_in (add_item o [] ++ collected ids))
      go none k c r = r
      go (some i) k c r = (rw k (c), r)

  -- The loop of `classify_notes` over the note ids adds at most one item for each note.
  pub classify_note_ids-IsDistinct : IsDistinct (
      ids_in (
        classify_note_ids rt open_ids bases by_id snapshot
          (sorted_union (keys bases) (keys by_id) (keys snapshot.notes))
          []))
  classify_note_ids-IsDistinct = rw classify_note_ids-collected (
      collected-IsDistinct _
        (sorted_union-IsDistinct (keys bases) (keys by_id) (keys snapshot.notes)))

-- The workspace files by note id: the first file of each id.
abbrev pub local_files : LocalScan → Dict Text LocalNoteFile
local_files scan = (split_locals scan.notes no_locals).by_id

-- The first workspace file with a note id.
abbrev pub first_with : Text → List LocalNoteFile → Option LocalNoteFile
first_with nid [] = none
first_with nid (n ∷ ns) =
    let later = first_with nid ns in if n.note_id == some nid then some n else later

abbrev or_else : Option LocalNoteFile → Option LocalNoteFile → Option LocalNoteFile
or_else none y = y
or_else (some x) y = some x

or_else-none : (x : Option LocalNoteFile) → or_else x none ≡ x
or_else-none none = refl
or_else-none (some n) = refl

lookup-split_with_id :
    (nid own : Text) (n : LocalNoteFile) (s : Split) (o : Option LocalNoteFile)
    → lookup own s.by_id ≡ o
    → lookup nid (split_with_id o own n s).by_id
      ≡ or_else (lookup nid s.by_id) (if some own == some nid then some n else none)
unfolding split_with_id
lookup-split_with_id nid own n s none e =
    lookup-insert nid own n s.by_id
    ∙ elim (Bool-cases (nid == own)) [ inl h ↦ ground arith | inr h ↦ ground arith ]
lookup-split_with_id nid own n s (some first) e = elim (Bool-cases (nid == own)) [
  | inl h ↦ ground arith
  | inr h ↦ ground arith
]

lookup-split_by_id :
    (nid : Text) (o : Option Text) (n : LocalNoteFile) (s : Split)
    → lookup nid (split_by_id o n s).by_id
      ≡ or_else (lookup nid s.by_id) (if o == some nid then some n else none)
unfolding split_by_id option_eq
lookup-split_by_id nid none n s = sym (or_else-none _)
lookup-split_by_id nid (some own) n s = lookup-split_with_id nid own n s (lookup own s.by_id) refl

lookup-split_note :
    (nid : Text) (n : LocalNoteFile) (s : Split)
    → lookup nid (split_note n s).by_id
      ≡ or_else (lookup nid s.by_id) (if n.note_id == some nid then some n else none)
unfolding split_note
lookup-split_note nid n s = lookup-split_by_id nid n.note_id n s

lookup-split_locals :
    (nid : Text) (ns : List LocalNoteFile) (s : Split)
    → lookup nid (split_locals ns s).by_id ≡ or_else (lookup nid s.by_id) (first_with nid ns)
unfolding split_locals
lookup-split_locals nid [] s = sym (or_else-none _)
lookup-split_locals nid (n ∷ ns) s =
    lookup-split_locals nid ns (split_note n s)
    ∙ ap (λ o. or_else o (first_with nid ns)) (lookup-split_note nid n s)
    ∙ choice (lookup nid s.by_id) (n.note_id == some nid)
  where
    choice :
        (x : Option LocalNoteFile) (b : Bool)
        → or_else (or_else x (if b then some n else none)) (first_with nid ns)
          ≡ or_else x (if b then some n else first_with nid ns)
    choice none true = refl
    choice none false = refl
    choice (some m) b = refl

pub lookup-local_files :
    (nid : Text) (scan : LocalScan) → lookup nid (local_files scan) ≡ first_with nid scan.notes
unfolding lookup
lookup-local_files nid scan = lookup-split_locals nid scan.notes no_locals

-- Each note has the item that its three sides call for, and a note that no side knows has none.
pub find-classify_notes :
    (rt : Runtime) (open_ids : List Text) (bases : Dict Text BaseNote) (scan : LocalScan)
    (snapshot : RemoteSnapshot) (c : Classification) (nid : Text)
    → c.items ≡ []
    → find nid (classify_notes rt open_ids bases scan snapshot c).items
      ≡ verdict rt open_ids bases (local_files scan) snapshot nid
unfolding classify_notes
find-classify_notes rt open_ids bases scan snapshot c nid empty = rw empty (
    go (verdict rt open_ids bases (local_files scan) snapshot nid)
      (find-classify_note_ids rt open_ids bases (local_files scan) snapshot nid))
  where
    own : List ItemState
    own =
        classify_note_ids rt open_ids bases (local_files scan) snapshot
          (sorted_union (keys bases) (keys (local_files scan)) (keys snapshot.notes)) []

    fresh_notes : List ItemState
    fresh_notes = map new_note (split_locals scan.notes no_locals).new_locals

    go : (o : Option ItemState) → find nid own ≡ o → find nid (own ++ fresh_notes) ≡ o
    go none h = find-append_none nid own fresh_notes h ∙ find-new_note nid _
    go (some i) h = find-append_some nid own fresh_notes i h
