-- ===== src/Planner/Classify/Finding.antt =====
-- Items found by their note id, and the ids that the loop of `_classify_notes` runs over.
use joplin_md_sync.Base.{
  ◌≡◌, refl, ◌∙◌, Bool, true, false, ◌&&◌, ◌||◌, Option, none, some, is_present, get_or, OnSome,
  List, [], ◌∷◌, ◌++◌, map, ◌==◌, contains, nat_eq, list_eq, option_eq, arith, if◌then◌else◌,
}
use joplin_md_sync.Base.Text.{Text, text_leb}
use joplin_md_sync.Base.Sort.{contains-sort, contains-append, IsDistinct, IsDistinct-sort}
use joplin_md_sync.Runtime.{Runtime}
use joplin_md_sync.Models.{LocalNoteFile, BaseNote, RemoteNote, ItemState}
use joplin_md_sync.Planner.Notes.{classify_one_note}
use joplin_md_sync.Planner.Classify.{distinct, sorted_union, new_note, add_item}

pub contains-distinct : (x : Text) (xs : List Text) → contains (distinct xs) x ≡ contains xs x
unfolding distinct
contains-distinct x [] = refl
contains-distinct x (y ∷ ys) = ground (arith, contains-distinct x ys)

pub distinct-IsDistinct : (xs : List Text) → IsDistinct (distinct xs)
unfolding distinct
distinct-IsDistinct [] = tt
distinct-IsDistinct (x ∷ xs) = ground (arith, distinct-IsDistinct xs)

pub contains-sorted_union :
    (x : Text) (a b c : List Text)
    → contains (sorted_union a b c) x ≡ (contains a x || (contains b x || contains c x))
unfolding sorted_union
contains-sorted_union x a b c =
    contains-sort text_leb x (distinct (a ++ (b ++ c)))
    ∙ (contains-distinct x (a ++ (b ++ c)) ∙ rw (contains-append, contains-append))

pub sorted_union-IsDistinct : (a b c : List Text) → IsDistinct (sorted_union a b c)
unfolding sorted_union
sorted_union-IsDistinct a b c = IsDistinct-sort text_leb _ (distinct-IsDistinct (a ++ (b ++ c)))

abbrev pub ids_in : List ItemState → List Text
ids_in = map (λ i. get_or i.note_id [])

-- The first item of a note.
abbrev pub find : Text → List ItemState → Option ItemState
find nid [] = none
find nid (i ∷ is) = if i.note_id == some nid then some i else find nid is

pub find-append_some :
    (nid : Text) (xs ys : List ItemState) (i : ItemState)
    → find nid xs ≡ some i
    → find nid (xs ++ ys) ≡ some i
find-append_some nid [] ys i h = cc
find-append_some nid (x ∷ xs) ys i h = ground (arith, find-append_some nid xs ys i)

pub find-append_none :
    (nid : Text) (xs ys : List ItemState) → find nid xs ≡ none → find nid (xs ++ ys) ≡ find nid ys
find-append_none nid [] ys h = refl
find-append_none nid (x ∷ xs) ys h = ground (arith, find-append_none nid xs ys)

pub find-new_note : (nid : Text) (ns : List LocalNoteFile) → find nid (map new_note ns) ≡ none
unfolding new_note
find-new_note nid [] = refl
find-new_note nid (n ∷ ns) = ground (arith, find-new_note nid ns)

pub note_id-classify_one_note :
    (rt : Runtime) (nid : Text) (trashed open_ids : List Text) (b : Option BaseNote)
    (l : Option LocalNoteFile) (r : Option RemoteNote)
    → OnSome (λ i. i.note_id ≡ some nid) (classify_one_note rt nid trashed open_ids b l r)
unfolding classify_one_note
note_id-classify_one_note rt nid trashed open_ids (some b) (some l) (some r) = ground arith
note_id-classify_one_note rt nid trashed open_ids _ _ _ = ground arith

pub find-add :
    (nid j : Text) (o : Option ItemState) (rest : List ItemState)
    → OnSome (λ i. i.note_id ≡ some j) o
    → find nid (add_item o [] ++ rest) ≡ (if nid == j && is_present o then o else find nid rest)
find-add nid j none rest h = ground arith
find-add nid j (some i) rest h = ground arith

pub choose :
    (b c : Bool) (o p : Option ItemState)
    → (b ≡ true → o ≡ p)
    → (if b && is_present o then o else (if c then p else none)) ≡ (if b || c then p else none)
choose true c none none h = ground arith
choose true c none (some p) h = cc (h refl)
choose true c (some o) p h = ground (arith, h refl)
choose false c o p h = refl

pub ==-eq : (a b : Text) → (a == b) ≡ true → a ≡ b
==-eq a b h = ground arith
