-- ===== src/Sync/Run.antt =====
-- `Executor.run` of src/joplin_md_sync/sync.py. `execute` is a parameter here: it returns a result or
-- raises, and may change the store and a world of its own.
pub mod Marks
pub mod Record
use joplin_md_sync.Base.{
  ℕ, suc, Bool, true, false, Option, none, some, List, [], ◌∷◌, ◌++◌, map, ◌==◌, nat_eq, list_eq,
  if◌then◌else◌,
}
use joplin_md_sync.Base.Text.{Text, text}
use joplin_md_sync.Models.{OpKind, create_conflict, PlanOperation}
use joplin_md_sync.State.{Store}
use joplin_md_sync.Journal.{
  OpStatus, planned, applied, skipped, op_failed, JournalOp, Journal, Disk, journal_op, mark,
}

-- The statuses of an `OperationResult`.
pub data ResultStatus : Type 0 where
  was_applied was_skipped was_failed : ResultStatus

pub record OperationResult : Type 0 where
  pub op : PlanOperation
  pub status : ResultStatus
  pub detail : Text

-- How `execute` ends: with a result, or with one of the exceptions that `run` tells apart.
pub data Outcome : Type 0 where
  returned : ResultStatus → Text → Outcome
  concurrent : Text → Outcome
  ambiguous : Text → Outcome
  raised : Text → Outcome

pub record ExecutionReport : Type 0 where
  pub results : List OperationResult
  pub applied_count : ℕ
  pub failed_count : ℕ
  pub skipped_count : ℕ
  pub conflicts_created : ℕ
  pub concurrent_failures : ℕ

abbrev pub no_results : ExecutionReport
no_results = record {
  results = [];
  applied_count = 0;
  failed_count = 0;
  skipped_count = 0;
  conflicts_created = 0;
  concurrent_failures = 0;
}

-- The `try` statement: an exception becomes a failed result.
unfoldable pub result_of : PlanOperation → Outcome → OperationResult
result_of o (returned s d) = record { op = o; status = s; detail = d }
result_of o (concurrent m) = record {
  op = o;
  status = was_failed;
  detail = text "CONCURRENT_MODIFICATION: " ++ m;
}
result_of o (ambiguous m) = record {
  op = o;
  status = was_failed;
  detail = text "ambiguous write, manual check recommended: " ++ m;
}
result_of o (raised m) = record { op = o; status = was_failed; detail = m }

unfoldable pub count_concurrent : Outcome → ExecutionReport → ExecutionReport
count_concurrent (concurrent m) r = record r { concurrent_failures = suc r.concurrent_failures }
count_concurrent _ r = r

abbrev pub is_conflict_op : OpKind → Bool
is_conflict_op create_conflict = true
is_conflict_op _ = false

unfoldable pub count_result : OperationResult → ExecutionReport → ExecutionReport
count_result x r = elim x.status [
  | was_applied ↦ record r {
    results = r.results ++ (x ∷ []);
    applied_count = suc r.applied_count;
    conflicts_created =
        if is_conflict_op x.op.kind then suc r.conflicts_created else r.conflicts_created;
  }
  | was_skipped ↦ record r { results = r.results ++ (x ∷ []); skipped_count = suc r.skipped_count }
  | was_failed ↦ record r { results = r.results ++ (x ∷ []); failed_count = suc r.failed_count }
]

-- {"applied": OP_APPLIED, "skipped": OP_SKIPPED, "failed": OP_FAILED}[result.status]
abbrev pub journal_status : ResultStatus → OpStatus
journal_status was_applied = applied
journal_status was_skipped = skipped
journal_status was_failed = op_failed

pub record RunState {ℓ} (W : Type ℓ) : Type ℓ where
  pub world : W
  pub disk : Disk
  pub journal : Journal
  pub report : ExecutionReport

module _ {ℓ} {W : Type ℓ} (execute : PlanOperation → W → Store → Outcome × W × Store) where
  unfoldable pub run_one : PlanOperation → RunState W → RunState W
  run_one o s =
      let (outcome, world, store) = execute o s.world s.disk.store in
      let result = result_of o outcome in
      let (journal, disk) =
        mark o.op_id (journal_status result.status) result.detail s.journal
          (record s.disk { store = store }) in
      record {
        world = world;
        disk = disk;
        journal = journal;
        report = count_result result (count_concurrent outcome s.report);
      }

  unfoldable pub run : List PlanOperation → RunState W → RunState W
  run [] s = s
  run (o ∷ os) s = run os (run_one o s)
