-- ===== src/Tests/Plans.antt =====
-- The planner on the sample.
use joplin_md_sync.Base.{
  ◌≡◌, refl, ℕ, map_some, true, some, get_or, List, [], ◌∷◌, map, nat_eq, list_eq, option_eq,
}
use joplin_md_sync.Base.Text.{
  text, take, drop, starts_with, has_part, join, replace_after, text_leb,
}
use joplin_md_sync.Base.Dict.{keys, values, lookup, insert}
use joplin_md_sync.Base.Sort.{insert_sorted, sort, All, IsDistinct}
use joplin_md_sync.Base.Numbers.Decimal.{digits, decimal, zeros, padded}
use joplin_md_sync.Base.Numbers.Utf8.{utf8_char, encode}
use joplin_md_sync.Runtime.Ascii.{ascii, ascii-NoCollision, ascii-IsStableCase}
use joplin_md_sync.Canonical.{
  canonicalize_body, field_bytes, encode_all, combined_bytes, strip_left, strip_right, strip,
  clean_tags, canonicalize_tags, hash_text, hash_tags, note_hashes, changed_components,
}
use joplin_md_sync.Paths.{
  is_invalid, replace_invalid, rstrip_dots, stem, only_dots, reserved, shorten, or_untitled,
  collapse, drop_format, upper, casefold, clean_name, escape_reserved, sanitize_component,
  note_filename, folder_dirname,
}
use joplin_md_sync.Models.{
  status_eq, component_eq, PlanOperation, pull_create_local, pull_update_local, pull_create_dir,
  push_update_remote, push_delete_remote,
}
use joplin_md_sync.Planner.Notes.{
  local_status, conflict_detail, local_hashes, remote_hashes, classify_all_sides,
  classify_without_remote, classify_without_local, classify_without_base, classify_one_note,
}
use joplin_md_sync.Planner.Folders.{
  parent_in, group, folder_leb, walk_siblings, walk, remote_folder_paths, note_target_path,
  classify_whole_folder, classify_one_folder, new_folder,
}
use joplin_md_sync.Planner.Classify.{
  Classification, distinct, sorted_union, add_verdict, classify_folder_ids, classify_folders,
  split_with_id, split_by_id, split_note, split_locals, new_note, conflict_note, item_leb,
  folder_item_leb, classify_note_ids, classify_notes, classify,
}
use joplin_md_sync.Planner.Draft.{sync, shown, component_name, listed}
use joplin_md_sync.Planner.Plan.{
  op_id, emit, emit_all, select, path_leb, pull_folders, push_folders, folder_bases, note_drafts,
  drafts, build_plan,
}
use joplin_md_sync.Planner.Plan.Items.{
  plan_normalize, plan_pull_update, plan_pull_create, plan_pull_delete, plan_push_update,
  plan_push_create, plan_push_delete, plan_rebase, plan_drop, plan_conflict, plan_status, plan_item,
}
use joplin_md_sync.Planner.Plan.Folders.{
  plan_create_dir, plan_update_dir, plan_create_folder, plan_update_folder, plan_folder_base,
  plan_folder_drop,
}
use joplin_md_sync.Planner.Plan.Safety.Rules.{OnNote, build_plan-OnNote}
use joplin_md_sync.Planner.Plan.Total.{build_plan-total}
use joplin_md_sync.Planner.Plan.Ids.{ids_of, ids_upto, build_plan-numbered, build_plan-IsDistinct}
use joplin_md_sync.Planner.Folders.Fuel.{remote_folder_paths-deeper}
use joplin_md_sync.Planner.Notes.Matrix.{
  IsKnown, status_of, three_way, base_content, local_content, remote_content,
}
use joplin_md_sync.Planner.Classify.Finding.{find, ids_in}
use joplin_md_sync.Planner.Classify.ByNote.{local_files, first_with, classify_note_ids-IsDistinct}
use joplin_md_sync.Planner.Classify.Spec.{classify_notes-eq-three_way}
use joplin_md_sync.Tests.Sample.{base_notes, base_folders, scan, snapshot}

abbrev sample : Classification
sample = classify ascii [] base_notes base_folders scan snapshot

abbrev no_items : Classification
no_items = record {
  items = [];
  folder_items = [];
  invalid = [];
  remote_folder_paths = remote_folder_paths ascii snapshot;
}

abbrev sample_plan : List PlanOperation
sample_plan = get_or (build_plan ascii sync true sample) []

-- The plan is built, and holds one operation for each change.
sample_built :
    (build_plan ascii sync true sample ≡ some sample_plan)
    × (map (λ o. o.kind) sample_plan
        ≡ pull_create_dir ∷ pull_create_local ∷ push_update_remote ∷ pull_update_local
          ∷ push_delete_remote ∷ [])
unfolding classify classify_notes classify_folders classify_note_ids classify_folder_ids add_verdict
    split_locals split_note split_by_id split_with_id new_note conflict_note item_leb
    folder_item_leb distinct sorted_union classify_one_note classify_all_sides classify_without_base
    classify_without_local classify_without_remote local_hashes remote_hashes local_status
    conflict_detail note_hashes hash_text hash_tags canonicalize_tags clean_tags strip strip_left
    strip_right canonicalize_body combined_bytes field_bytes encode_all changed_components encode
    utf8_char digits decimal zeros padded keys values lookup insert insert_sorted sort text take
    drop starts_with has_part join replace_after text_leb nat_eq list_eq option_eq status_eq
    component_eq remote_folder_paths walk walk_siblings group folder_leb parent_in note_target_path
    classify_whole_folder classify_one_folder new_folder build_plan drafts pull_folders push_folders
    folder_bases note_drafts emit emit_all op_id select path_leb plan_item plan_status
    plan_normalize plan_pull_update plan_pull_create plan_pull_delete plan_push_update
    plan_push_create plan_push_delete plan_rebase plan_drop plan_conflict plan_create_dir
    plan_update_dir plan_create_folder plan_update_folder plan_folder_base plan_folder_drop shown
    component_name listed is_invalid replace_invalid rstrip_dots stem only_dots reserved shorten
    or_untitled collapse drop_format upper casefold clean_name escape_reserved sanitize_component
    note_filename folder_dirname
sample_built = (refl, refl)

build_plan-OnNote_example : All (OnNote ascii) sample_plan
build_plan-OnNote_example = build_plan-OnNote ascii sync true sample sample_plan sample_built.0

build_plan-total_example :
    (ops : List PlanOperation) × (build_plan ascii sync true sample ≡ some ops)
build_plan-total_example = build_plan-total ascii sync true [] base_notes base_folders scan snapshot

build_plan-IsDistinct_example : IsDistinct (ids_of sample_plan)
build_plan-IsDistinct_example =
    build_plan-IsDistinct ascii sync true sample sample_plan sample_built.0

build_plan-numbered_example : (n : ℕ) × (ids_of sample_plan ≡ ids_upto n)
build_plan-numbered_example = build_plan-numbered ascii sync true sample sample_plan sample_built.0

remote_folder_paths-deeper_example :
    walk ascii 103 (group snapshot.folders (values snapshot.folders) []) [] [] [] []
    ≡ remote_folder_paths ascii snapshot
unfolding values
remote_folder_paths-deeper_example = remote_folder_paths-deeper ascii snapshot 100

classify_note_ids-IsDistinct_example : IsDistinct (
    ids_in (
      classify_note_ids ascii [] base_notes
        (local_files scan)
        snapshot
        (sorted_union (keys base_notes) (keys (local_files scan)) (keys snapshot.notes))
        []))
classify_note_ids-IsDistinct_example =
    classify_note_ids-IsDistinct ascii [] base_notes (local_files scan) snapshot

one-IsKnown :
    IsKnown ascii
      (lookup (text "n1") base_notes)
      (first_with (text "n1") scan.notes)
      (lookup (text "n1") snapshot.notes)
unfolding option_eq lookup insert canonicalize_tags clean_tags strip strip_left strip_right
    insert_sorted sort text_leb text list_eq nat_eq
one-IsKnown = (
  record { hashed = refl; nul_free = ((λ e. cc, tt), tt) },
  ((λ e. cc, tt), tt),
  ((λ e. cc, tt), tt),
)

classify_notes-eq-three_way_example :
    status_of (find (text "n1") (classify_notes ascii [] base_notes scan snapshot no_items).items)
    ≡ three_way
        (map_some (base_content ascii) (lookup (text "n1") base_notes))
        (map_some (local_content ascii) (first_with (text "n1") scan.notes))
        (map_some (remote_content ascii) (lookup (text "n1") snapshot.notes))
classify_notes-eq-three_way_example =
    classify_notes-eq-three_way ascii ascii-IsStableCase ascii-NoCollision [] base_notes scan
      snapshot no_items (text "n1") refl one-IsKnown
