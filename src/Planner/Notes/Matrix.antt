-- ===== src/Planner/Notes/Matrix.antt =====
-- The three-way matrix: the status of a note said by its contents, with no hash in sight.
use joplin_md_sync.Base.{
  ◌≡◌, refl, ap, ◌∙◌, Bool, false, ◌&&◌, not, Option, none, some, List, [], ◌∷◌, ◌==◌, contains,
  nat_eq, list_eq, OnSome, map_some, arith, if◌then◌else◌, Bool-cases, inl, inr,
}
use joplin_md_sync.Base.Text.{Text}
use joplin_md_sync.Runtime.{Runtime, NoCollision, IsStableCase}
use joplin_md_sync.Models.{
  Status, unchanged, local_modified, remote_modified, both_identical, conflict, remote_new,
  local_deleted, remote_deleted, both_deleted, delete_conflict, moved_local, moved_remote,
  metadata_modified, invalid_local_file, Component, body, parent, component_eq, RemoteNote,
  LocalNoteFile, BaseNote, ItemState,
}
use joplin_md_sync.Canonical.{note_hashes, changed_components}
use joplin_md_sync.Canonical.Content.{
  Content, content, same_content, content_diff, NulFree, changed_components-note_hashes,
  combined-note_hashes,
}
use joplin_md_sync.Planner.Notes.{
  local_status, local_hashes, remote_hashes, classify_one_note, classify_all_sides,
}

-- The two contents agree on all but the notebook.
abbrev pub same_but_parent : Content → Content → Bool
same_but_parent x y = x.title == y.title && (x.body == y.body && x.tags == y.tags)

abbrev pub local_change : Content → Content → Status
local_change l b =
    if same_but_parent l b
    then moved_local
    else if l.body == b.body
    then metadata_modified
    else local_modified

-- The status of a note by what the base snapshot, the workspace and Joplin hold of it.
abbrev pub three_way : Option Content → Option Content → Option Content → Option Status
three_way (some b) (some l) (some r) =
    if same_content l b
    then some (
        if same_content r b
        then unchanged
        else if same_but_parent r b
        then moved_remote
        else remote_modified)
    else some (
        if same_content r b
        then local_change l b
        else if same_content l r
        then both_identical
        else conflict)
three_way (some b) (some l) none =
    some (if same_content l b then remote_deleted else delete_conflict)
three_way (some b) none (some r) =
    some (if same_content r b then local_deleted else delete_conflict)
three_way (some b) none none = some both_deleted
three_way none (some l) (some r) = some (if same_content l r then both_identical else conflict)
three_way none (some l) none = some invalid_local_file
three_way none none (some r) = some remote_new
three_way none none none = none

content_diff-nil : (x y : Content) → (content_diff x y == []) ≡ same_content x y
content_diff-nil x y = ground arith

content_diff-parent :
    (x y : Content)
    → (content_diff x y == (parent ∷ [])) ≡ (same_but_parent x y && not (x.parent == y.parent))
content_diff-parent x y = ground arith

contains-content_diff : (x y : Content) → contains (content_diff x y) body ≡ not (x.body == y.body)
contains-content_diff x y = ground arith

local_status-content_diff :
    (l b : Content) → same_content l b ≡ false → local_status (content_diff l b) ≡ local_change l b
unfolding local_status
local_status-content_diff l b h = rw (content_diff-parent, contains-content_diff) (ground arith)

-- The choice of the source, by the two diffs and the comparison of the combined hashes.
abbrev status_of_diffs : List Component → List Component → Bool → Status
status_of_diffs ld rd same =
    if (ld == []) && (rd == [])
    then unchanged
    else if not (ld == []) && (rd == [])
    then local_status ld
    else if not (rd == []) && (ld == [])
    then (if rd == (parent ∷ []) then moved_remote else remote_modified)
    else if same
    then both_identical
    else conflict

status_of_diffs-content_diff :
    (b l r : Content)
    → some (status_of_diffs (content_diff l b) (content_diff r b) (same_content l r))
      ≡ three_way (some b) (some l) (some r)
status_of_diffs-content_diff b l r =
    rw (content_diff-nil l b, content_diff-nil r b, content_diff-parent r b)
      (elim (Bool-cases (same_content l b)) [
        | inl same ↦ rw same (ground arith)
        | inr other ↦ rw (other, local_status-content_diff l b other) (ground arith)
      ])

abbrev pub local_content : Runtime → LocalNoteFile → Content
local_content rt l = content rt l.title l.body l.tags l.parent_id

abbrev pub remote_content : Runtime → RemoteNote → Content
remote_content rt r = content rt r.title r.body r.tags r.parent_id

abbrev pub base_content : Runtime → BaseNote → Content
base_content rt b = content rt b.title b.body b.tags b.parent_id

-- A base snapshot as the state database gives it, with the hashes of its own fields.
pub record IsSnapshot (rt : Runtime) (b : BaseNote) : Type 0 where
  pub hashed : b.hashes ≡ note_hashes rt b.title b.body b.tags b.parent_id
  pub nul_free : NulFree rt b.tags

-- What is asked of the sides that exist.
abbrev pub IsKnown : Runtime → Option BaseNote → Option LocalNoteFile → Option RemoteNote → Type 0
IsKnown rt b l r =
    OnSome (IsSnapshot rt) b × OnSome (λ x. NulFree rt x.tags) l × OnSome (λ x. NulFree rt x.tags) r

abbrev pub status_of : Option ItemState → Option Status
status_of none = none
status_of (some i) = some i.status

module _ (rt : Runtime) (law : IsStableCase rt) (nc : NoCollision rt) where
  module _ (b : BaseNote) (hb : IsSnapshot rt b) where
    local_diff_lem :
        (l : LocalNoteFile)
        → NulFree rt l.tags
        → changed_components (local_hashes rt l) b.hashes
          ≡ content_diff (local_content rt l) (base_content rt b)
    unfolding local_hashes
    local_diff_lem l hl = rw hb.hashed (
        changed_components-note_hashes rt law nc l.title l.body l.tags l.parent_id b.title b.body
          b.tags b.parent_id hl hb.nul_free)

    remote_diff_lem :
        (r : RemoteNote)
        → NulFree rt r.tags
        → changed_components (remote_hashes rt r) b.hashes
          ≡ content_diff (remote_content rt r) (base_content rt b)
    unfolding remote_hashes
    remote_diff_lem r hr = rw hb.hashed (
        changed_components-note_hashes rt law nc r.title r.body r.tags r.parent_id b.title b.body
          b.tags b.parent_id hr hb.nul_free)

    local_same :
        (l : LocalNoteFile)
        → NulFree rt l.tags
        → ((local_hashes rt l).combined == b.hashes.combined)
          ≡ same_content (local_content rt l) (base_content rt b)
    unfolding local_hashes
    local_same l hl = rw hb.hashed (
        combined-note_hashes rt law nc l.title l.body l.tags l.parent_id b.title b.body b.tags
          b.parent_id hl hb.nul_free)

    remote_same :
        (r : RemoteNote)
        → NulFree rt r.tags
        → ((remote_hashes rt r).combined == b.hashes.combined)
          ≡ same_content (remote_content rt r) (base_content rt b)
    unfolding remote_hashes
    remote_same r hr = rw hb.hashed (
        combined-note_hashes rt law nc r.title r.body r.tags r.parent_id b.title b.body b.tags
          b.parent_id hr hb.nul_free)

  sides_same :
      (l : LocalNoteFile) (r : RemoteNote)
      → NulFree rt l.tags
      → NulFree rt r.tags
      → ((local_hashes rt l).combined == (remote_hashes rt r).combined)
        ≡ same_content (local_content rt l) (remote_content rt r)
  unfolding local_hashes remote_hashes
  sides_same l r hl hr =
      combined-note_hashes rt law nc l.title l.body l.tags l.parent_id r.title r.body r.tags
        r.parent_id hl hr

  module _ (nid : Text) (trashed open_ids : List Text) where
    status-all_sides :
        (b : BaseNote) (l : LocalNoteFile) (r : RemoteNote)
        → (classify_all_sides rt nid trashed open_ids b l r).status
          ≡ status_of_diffs
              (changed_components (local_hashes rt l) b.hashes)
              (changed_components (remote_hashes rt r) b.hashes)
              ((local_hashes rt l).combined == (remote_hashes rt r).combined)
    unfolding classify_all_sides
    status-all_sides b l r = ground arith

    -- The status that the code computes from hashes is the one that the contents call for.
    pub classify_one_note-eq-three_way :
        (b : Option BaseNote) (l : Option LocalNoteFile) (r : Option RemoteNote)
        → IsKnown rt b l r
        → status_of (classify_one_note rt nid trashed open_ids b l r)
          ≡ three_way
              (map_some (base_content rt) b)
              (map_some (local_content rt) l)
              (map_some (remote_content rt) r)
    unfolding classify_one_note
    classify_one_note-eq-three_way (some b) (some l) (some r) (hb, hl, hr) =
        ap some (status-all_sides b l r)
        ∙ (rw (local_diff_lem b hb l hl, remote_diff_lem b hb r hr, sides_same l r hl hr)
            (status_of_diffs-content_diff (base_content rt b) (local_content rt l)
              (remote_content rt r)))
    classify_one_note-eq-three_way (some b) (some l) none (hb, hl, hr) =
        rw (local_same b hb l hl) (ground arith)
    classify_one_note-eq-three_way (some b) none (some r) (hb, hl, hr) =
        rw (remote_same b hb r hr) (ground arith)
    classify_one_note-eq-three_way (some b) none none h = refl
    classify_one_note-eq-three_way none (some l) (some r) (hb, hl, hr) =
        rw (sides_same l r hl hr) (ground arith)
    classify_one_note-eq-three_way none (some l) none h = refl
    classify_one_note-eq-three_way none none (some r) h = refl
    classify_one_note-eq-three_way none none none h = refl
