-- ===== src/Tests/Runs.antt =====
-- The store, recovery and a run on concrete inputs.
use joplin_md_sync.Base.{
  ◌≡◌, ◌+◌, ℕ, refl, false, some, List, [], ◌∷◌, ◌++◌, ◌==◌, map, contains, nat_eq, list_eq,
  option_eq, if◌then◌else◌,
}
use joplin_md_sync.Base.Text.{Text, text, starts_with, drop, length, text_leb}
use joplin_md_sync.Base.Dict.{lookup, insert}
use joplin_md_sync.Base.Sort.{sort, IsDistinct}
use joplin_md_sync.Runtime.Ascii.{ascii}
use joplin_md_sync.Canonical.{note_hashes}
use joplin_md_sync.Models.{status_eq, PlanOperation, pull_create_dir, drop_base, create_conflict}
use joplin_md_sync.State.{
  Store, NoteRow, in_progress, empty_store, upsert_note, get_note, move_path, record_run,
  incomplete_runs,
}
use joplin_md_sync.State.Like.{
  like, like_escape, starts_with_ci, same_letter, fold_ascii, like-like_escape,
}
use joplin_md_sync.State.Moves.{rename_path, move_path_lem, move_path-eq-rename_path}
use joplin_md_sync.State.Notes.{get_note-upsert_note}
use joplin_md_sync.Journal.{
  Disk, Journal, new_journal, begin, flush, journal_op, recover_incomplete_runs, blocking_runs,
}
use joplin_md_sync.Journal.Recovery.{
  recover_incomplete_runs-unblocks, IsSettledFile, recover_incomplete_runs-IsSettledFile,
}
use joplin_md_sync.Planner.Draft.{operation}
use joplin_md_sync.Planner.Plan.Ids.{ids_of}
use joplin_md_sync.Sync.Run.{
  Outcome, returned, concurrent, was_applied, no_results, run, run_one, result_of, count_result,
  count_concurrent,
}
use joplin_md_sync.Sync.Run.Marks.{recorded}
use joplin_md_sync.Sync.Run.Record.{run-recorded}

abbrev old : Text
old = text "a_b"

abbrev new : Text
new = text "c"

apart : starts_with old (new ++ text "/") ≡ false
unfolding starts_with text nat_eq
apart = refl

same_case :
    starts_with_ci (text "a_b/x") (old ++ text "/") ≡ starts_with (text "a_b/x") (old ++ text "/")
unfolding starts_with starts_with_ci same_letter fold_ascii text nat_eq
same_case = refl

-- A wildcard in the name of the directory matches nothing but itself.
wildcard_test : like (like_escape old ++ text "/%") (text "axb/x") ≡ false
unfolding starts_with_ci same_letter fold_ascii text nat_eq
wildcard_test = like-like_escape old (text "axb/x")

move_path-eq-rename_path_example :
    move_path old new (text "a_b/x") ≡ rename_path old new (text "a_b/x")
move_path-eq-rename_path_example = move_path-eq-rename_path old new (text "a_b/x") apart same_case

move_path_lem_example : move_path old new (text "A_B/x") ≡ (
    if starts_with_ci (text "A_B/x") (old ++ text "/")
    then new ++ (text "/" ++ drop (length old + 1) (text "A_B/x"))
    else if text "A_B/x" == old
    then new
    else text "A_B/x")
move_path_lem_example = move_path_lem old new (text "A_B/x") apart

like-like_escape_example :
    like (like_escape old ++ text "/%") (text "a_b/x")
    ≡ starts_with_ci (text "a_b/x") (old ++ text "/")
like-like_escape_example = like-like_escape old (text "a_b/x")

abbrev row : NoteRow
row = record {
  id = text "n1";
  rel_path = text "Work/x.md";
  title = text "x";
  body = text "b";
  tags = text "b" ∷ text "a" ∷ [];
  parent_id = text "f";
  updated_time = 1;
}

get_note-upsert_note_example : get_note ascii (text "n1") (upsert_note row empty_store) ≡ (
    if text "n1" == row.id
    then some (record {
      id = row.id;
      rel_path = row.rel_path;
      title = row.title;
      body = row.body;
      tags = sort text_leb row.tags;
      parent_id = row.parent_id;
      updated_time = row.updated_time;
      hashes = note_hashes ascii row.title row.body (sort text_leb row.tags) row.parent_id;
    })
    else get_note ascii (text "n1") empty_store)
get_note-upsert_note_example = get_note-upsert_note ascii (text "n1") row empty_store

abbrev ops : List PlanOperation
ops =
    record (operation pull_create_dir []) { op_id = text "op-0001"; folder_id = some (text "f") }
    ∷ record (operation drop_base []) { op_id = text "op-0002"; note_id = some (text "n1") }
    ∷ record (operation create_conflict []) { op_id = text "op-0003"; note_id = some (text "n2") }
    ∷ []

abbrev disk : Disk
disk = record { store = empty_store; journals = [] }

abbrev begun_journal : Journal
begun_journal = record {
  run_id = text "r1";
  path = text "r1.json";
  doc = record {
    run_id = text "r1";
    command = text "sync";
    status = in_progress;
    operations = map journal_op ops;
  };
}

abbrev begun_disk : Disk
begun_disk = record {
  store = record empty_store {
    runs =
        (
          text "r1",
          record {
            run_id = text "r1";
            command = text "sync";
            started_time = 5;
            status = in_progress;
            journal_path = text "r1.json";
          },
        )
        ∷ [];
  };
  journals = (text "r1.json", begun_journal.doc) ∷ [];
}

begun :
    begin ops 5 (new_journal (text "r1") (text "sync") (text "r1.json")) disk
    ≡ some (begun_journal, begun_disk)
unfolding begin new_journal flush record_run insert lookup
begun = refl

ops-IsDistinct : IsDistinct (ids_of ops)
unfolding text list_eq nat_eq
ops-IsDistinct = (refl, (refl, (refl, tt)))

abbrev execute : PlanOperation → ℕ → Store → Outcome × ℕ × Store
execute o n s = (if n == 1 then concurrent (text "changed") else returned was_applied [], n + 1, s)

run-recorded_example :
    (let s =
        run execute ops
          (record { world = 0; disk = begun_disk; journal = begun_journal; report = no_results }) in
      (map (λ r. r.op) s.report.results ≡ ops)
      × (s.report.applied_count + s.report.failed_count + s.report.skipped_count ≡ length ops)
      × (s.journal.doc.operations ≡ map recorded s.report.results)
      × (lookup s.journal.path s.disk.journals ≡ some s.journal.doc))
run-recorded_example =
    run-recorded execute ops 5 (new_journal (text "r1") (text "sync") (text "r1.json"))
      begun_journal disk begun_disk 0 ops-IsDistinct begun

-- One of the three operations failed, and the run went on.
run_test :
    (let s =
        run execute ops
          (record { world = 0; disk = begun_disk; journal = begun_journal; report = no_results }) in
      (s.report.applied_count ≡ 2) × (s.report.failed_count ≡ 1) × (s.report.conflicts_created ≡ 1))
unfolding run run_one result_of count_result count_concurrent nat_eq
run_test = (refl, refl, refl)

recover_incomplete_runs-unblocks_example :
    blocking_runs (recover_incomplete_runs ascii begun_disk).store ≡ []
recover_incomplete_runs-unblocks_example =
    recover_incomplete_runs-unblocks ascii begun_disk (refl, tt)

recover_incomplete_runs-IsSettledFile_example :
    IsSettledFile ascii begun_disk.store
      (contains (map (λ r. r.journal_path) (incomplete_runs begun_disk.store)) (text "r1.json"))
      (lookup (text "r1.json") begun_disk.journals)
      (lookup (text "r1.json") (recover_incomplete_runs ascii begun_disk).journals)
recover_incomplete_runs-IsSettledFile_example =
    recover_incomplete_runs-IsSettledFile ascii (text "r1.json") begun_disk
