-- ===== src/Journal.antt =====
-- src/joplin_md_sync/journal.py: the record of a run, and what recovery makes of an unfinished one.
-- A journal file is its document; the times, the tool's version and the input summary are left out.
pub mod Recovery
use joplin_md_sync.Base.{
  ℕ, Bool, true, false, ◌&&◌, ◌||◌, not, Option, none, some, map_some, get_or, is_present, List, [],
  ◌∷◌, ◌++◌, map, ◌==◌, nat_eq, list_eq, option_eq, if◌then◌else◌,
}
use joplin_md_sync.Base.Text.{Text, text}
use joplin_md_sync.Base.Dict.{Dict, lookup, insert, values}
use joplin_md_sync.Runtime.{Runtime}
use joplin_md_sync.Models.{
  OpKind, PlanOperation, BaseNote, pull_create_local, pull_update_local, pull_delete_local,
  pull_create_dir, pull_update_dir, push_create_remote, push_update_remote, push_delete_remote,
  push_create_folder, push_update_folder, rebase, adopt_base, create_conflict, drop_base,
  normalize_local_path,
}
use joplin_md_sync.State.{
  Store, RunRow, RunStatus, in_progress, complete, failed, recovered, get_note, all_notes,
  all_folders, open_conflict_for_note, record_run, finish_run, incomplete_runs,
}

pub data OpStatus : Type 0 where
  planned applied skipped op_failed : OpStatus

pub record JournalOp : Type 0 where
  pub op_id : Text
  pub kind : OpKind
  pub note_id : Option Text
  pub folder_id : Option Text
  pub new_path : Option Text
  pub expected_local_hash : Option Text
  pub expected_remote_hash : Option Text
  pub status : OpStatus
  pub detail_result : Text

pub record Doc : Type 0 where
  pub run_id : Text
  pub command : Text
  pub status : RunStatus
  pub operations : List JournalOp

-- The state database, and the journal files by their paths.
pub record Disk : Type 0 where
  pub store : Store
  pub journals : Dict Text Doc

pub record Journal : Type 0 where
  pub run_id : Text
  pub path : Text
  pub doc : Doc

-- `if value:` of an optional text: None and "" do not pass.
abbrev pub truthy : Option Text → Option Text
truthy none = none
truthy (some t) = if t == [] then none else some t

-- The keys that `op.to_json` writes and that recovery reads.
unfoldable pub journal_op : PlanOperation → JournalOp
journal_op o = record {
  op_id = o.op_id;
  kind = o.kind;
  note_id = truthy o.note_id;
  folder_id = truthy o.folder_id;
  new_path = if o.new_rel_path == o.rel_path then none else truthy o.new_rel_path;
  expected_local_hash = o.expected_local_hash;
  expected_remote_hash = o.expected_remote_hash;
  status = planned;
  detail_result = [];
}

unfoldable pub new_journal : Text → Text → Text → Journal
new_journal run_id command path = record {
  run_id = run_id;
  path = path;
  doc = record { run_id = run_id; command = command; status = in_progress; operations = [] };
}

unfoldable pub flush : Journal → Disk → Disk
flush j d = record d { journals = insert j.path j.doc d.journals }

-- `none`: the run id is taken, after the file has been written.
unfoldable pub begin : List PlanOperation → ℕ → Journal → Disk → Option (Journal × Disk)
begin ops now j d =
    let j' : Journal = record j { doc = record j.doc { operations = map journal_op ops } } in
    let d' = flush j' d in
    elim (record_run
      (record {
        run_id = j.run_id;
        command = j.doc.command;
        started_time = now;
        status = in_progress;
        journal_path = j.path;
      })
      d'.store) [ none ↦ none | some s ↦ some (j', record d' { store = s }) ]

-- The first operation with the id gets the status, and the detail if there is one.
unfoldable pub mark_op : Text → OpStatus → Text → List JournalOp → List JournalOp
mark_op id status detail [] = []
mark_op id status detail (o ∷ os) =
    if o.op_id == id
    then record o {
      status = status;
      detail_result = if detail == [] then o.detail_result else detail;
    }
      ∷ os
    else o ∷ mark_op id status detail os

unfoldable pub mark : Text → OpStatus → Text → Journal → Disk → Journal × Disk
mark id status detail j d =
    let j' : Journal = record j {
      doc = record j.doc { operations = mark_op id status detail j.doc.operations };
    } in
    (j', flush j' d)

unfoldable pub finish : RunStatus → Journal → Disk → Journal × Disk
finish status j d =
    let j' : Journal = record j { doc = record j.doc { status = status } } in
    let d' = flush j' d in (j', record d' { store = finish_run j.run_id status d'.store })

-- `check_no_incomplete_runs`: the ids for which RecoveryRequiredError is raised.
unfoldable pub blocking_runs : Store → List Text
blocking_runs s = map (λ r. r.run_id) (incomplete_runs s)

abbrev pub was_verified : Option Bool → Bool
was_verified none = false
was_verified (some b) = b

module _ (rt : Runtime) where
  abbrev base_combined : JournalOp → Store → Option Text
  base_combined o s = elim o.note_id [
    | none ↦ none
    | some nid ↦ map_some (λ (b : BaseNote). b.hashes.combined) (get_note rt nid s)
  ]

  abbrev matches_base : JournalOp → Store → Option Text → Option Bool
  matches_base o s expected = elim (truthy expected) [
    | none ↦ none
    | some h ↦ some (base_combined o s == some h)
  ]

  abbrev any_note_with : Text → List BaseNote → Bool
  any_note_with h [] = false
  any_note_with h (b ∷ bs) = b.hashes.combined == h || any_note_with h bs

  abbrev folder_known : JournalOp → Store → Option Bool
  folder_known o s = map_some (λ fid. is_present (lookup fid (all_folders s))) o.folder_id

  abbrev base_gone : JournalOp → Store → Option Bool
  base_gone o s = map_some (λ nid. not (is_present (get_note rt nid s))) o.note_id

  abbrev rebased : JournalOp → Store → Option Bool
  rebased o s =
      if is_present (truthy o.folder_id) && not (is_present (truthy o.note_id))
      then none
      else matches_base o s o.expected_local_hash

  -- `_op_was_applied`; `none` where the outcome cannot be told.
  unfoldable pub op_was_applied : OpKind → JournalOp → Store → Option Bool
  op_was_applied pull_update_local o s = matches_base o s o.expected_remote_hash
  op_was_applied pull_create_local o s = matches_base o s o.expected_remote_hash
  op_was_applied push_update_remote o s = rebased o s
  op_was_applied rebase o s = rebased o s
  op_was_applied adopt_base o s = rebased o s
  op_was_applied push_create_remote o s = elim o.expected_local_hash [
    | none ↦ none
    | some h ↦ some (any_note_with h (values (all_notes rt s)))
  ]
  op_was_applied push_delete_remote o s = base_gone o s
  op_was_applied pull_delete_local o s = base_gone o s
  op_was_applied drop_base o s = base_gone o s
  op_was_applied create_conflict o s =
      map_some (λ nid. is_present (open_conflict_for_note nid s)) o.note_id
  op_was_applied normalize_local_path o s =
      map_some
        (λ nid. elim (get_note rt nid s) [ none ↦ false | some b ↦ some b.rel_path == o.new_path ])
        o.note_id
  op_was_applied pull_create_dir o s = folder_known o s
  op_was_applied push_create_folder o s = folder_known o s
  op_was_applied pull_update_dir o s = folder_known o s
  op_was_applied push_update_folder o s = folder_known o s

  -- The loop body of `recover_incomplete_runs` on one operation.
  unfoldable pub settle_op : Store → JournalOp → JournalOp
  settle_op s o = elim o.status [
    | planned ↦
        if was_verified (op_was_applied o.kind o s)
        then record o {
          status = applied;
          detail_result = text "verified as applied during recovery";
        }
        else record o {
          status = skipped;
          detail_result = text "not applied (or unverifiable); rerun the original command";
        }
    | _ ↦ o
  ]

  unfoldable pub settle_doc : Store → Doc → Doc
  settle_doc s doc = record doc {
    status = recovered;
    operations = map (settle_op s) doc.operations;
  }

  unfoldable pub recover_run : RunRow → Disk → Disk
  recover_run row d =
      let journals : Dict Text Doc = elim (lookup row.journal_path d.journals) [
        | none ↦ d.journals
        | some doc ↦ insert row.journal_path (settle_doc d.store doc) d.journals
      ] in
      record { store = finish_run row.run_id recovered d.store; journals = journals }

  unfoldable pub recover_runs : List RunRow → Disk → Disk
  recover_runs [] d = d
  recover_runs (r ∷ rs) d = recover_runs rs (recover_run r d)

  unfoldable pub recover_incomplete_runs : Disk → Disk
  recover_incomplete_runs d = recover_runs (incomplete_runs d.store) d
