-- ===== src/Sync/Run/Record.antt =====
-- The report and the journal that `Executor.run` of src/joplin_md_sync/sync.py leaves.
use joplin_md_sync.Base.{
  ℕ, suc, ◌+◌, ◌≡◌, refl, sym, ap, ◌∙◌, some, List, [], ◌∷◌, ◌++◌, map, nat_eq, list_eq, arith,
}
use mathlib.Core.List.{append-nil}
use joplin_md_sync.Base.Text.{length}
use joplin_md_sync.Base.Dict.{lookup, lookup-insert}
use joplin_md_sync.Base.Sort.{IsDistinct}
use joplin_md_sync.Models.{PlanOperation}
use joplin_md_sync.State.{Store}
use joplin_md_sync.Journal.{Journal, Disk, begin, journal_op, mark_op, mark, flush}
use joplin_md_sync.Planner.Plan.Ids.{ids_of}
use joplin_md_sync.Sync.Run.{
  returned, concurrent, ambiguous, raised, was_applied, was_skipped, was_failed, no_results,
  OperationResult, Outcome, ExecutionReport, result_of, count_concurrent, count_result,
  journal_status, RunState, run_one, run,
}
use joplin_md_sync.Sync.Run.Marks.{
  recorded, op_ids, ids-append_one, mark_op-journal_op, ids-journal_op,
}

ops-append_one :
    (xs : List OperationResult) (x : OperationResult) (os : List PlanOperation)
    → map (λ r. r.op) (xs ++ (x ∷ [])) ++ os ≡ map (λ r. r.op) xs ++ (x.op ∷ os)
ops-append_one [] x os = refl
ops-append_one (y ∷ xs) x os = ap (λ r. y.op ∷ r) (ops-append_one xs x os)

length-append_one :
    (xs : List OperationResult) (x : OperationResult) → length (xs ++ (x ∷ [])) ≡ suc (length xs)
length-append_one [] x = refl
length-append_one (y ∷ xs) x = ap suc (length-append_one xs x)

-- The report, the journal and its file agree, and name the operations that are left.
abbrev InStep {ℓ} : {W : Type ℓ} → List PlanOperation → RunState W → Type 0
InStep os s =
    (s.journal.doc.operations ≡ map recorded s.report.results ++ map journal_op os)
    × (s.report.applied_count + s.report.failed_count + s.report.skipped_count
        ≡ length s.report.results)
    × (lookup s.journal.path s.disk.journals ≡ some s.journal.doc)

results-run_one :
    (o : PlanOperation) (t : Outcome) (r : ExecutionReport)
    → (count_result (result_of o t) (count_concurrent t r)).results
      ≡ r.results ++ (result_of o t ∷ [])
unfolding count_result result_of count_concurrent
results-run_one o (returned was_applied d) r = refl
results-run_one o (returned was_skipped d) r = refl
results-run_one o (returned was_failed d) r = refl
results-run_one o (concurrent m) r = refl
results-run_one o (ambiguous m) r = refl
results-run_one o (raised m) r = refl

abbrev total : ExecutionReport → ℕ
total r = r.applied_count + r.failed_count + r.skipped_count

total-run_one :
    (o : PlanOperation) (t : Outcome) (r : ExecutionReport)
    → total (count_result (result_of o t) (count_concurrent t r)) ≡ suc (total r)
unfolding count_result result_of count_concurrent
total-run_one o (returned was_applied d) r = omega arith
total-run_one o (returned was_skipped d) r = omega arith
total-run_one o (returned was_failed d) r = omega arith
total-run_one o (concurrent m) r = omega arith
total-run_one o (ambiguous m) r = omega arith
total-run_one o (raised m) r = omega arith

op-result_of : (o : PlanOperation) (t : Outcome) → (result_of o t).op ≡ o
unfolding result_of
op-result_of o (returned s d) = refl
op-result_of o (concurrent m) = refl
op-result_of o (ambiguous m) = refl
op-result_of o (raised m) = refl

begin-files :
    (ops : List PlanOperation) (now : ℕ) (j j' : Journal) (d d' : Disk)
    → begin ops now j d ≡ some (j', d')
    → (j'.doc.operations ≡ map journal_op ops) × (lookup j'.path d'.journals ≡ some j'.doc)
unfolding begin flush
begin-files ops now j j' d d' e = ground (
  arith,
  lookup-insert j.path j.path (record j.doc { operations = map journal_op ops }) d.journals,
)

length-map-op : (xs : List OperationResult) → length (map (λ x. x.op) xs) ≡ length xs
length-map-op [] = refl
length-map-op (x ∷ xs) = ap suc (length-map-op xs)

module _ {ℓ} {W : Type ℓ} (execute : PlanOperation → W → Store → Outcome × W × Store) where
  run_one-InStep :
      (o : PlanOperation) (os : List PlanOperation) (s : RunState W)
      → IsDistinct (op_ids (map recorded s.report.results ++ map journal_op (o ∷ os)))
      → InStep (o ∷ os) s
      → InStep os (run_one execute o s)
  unfolding run_one mark flush result_of
  run_one-InStep o os s h (a, b, c) =
      let t = (execute o s.world s.disk.store).0 in
      let x = result_of o t in
      let same = op-result_of o t in
      let more = results-run_one o t s.report in
      let step = mark_op-journal_op x s.report.results os (rw same h) in
      (
        rw (a, more) (rw same at step),
        total-run_one o t s.report
            ∙ ap suc b
            ∙ sym (length-append_one s.report.results x)
            ∙ ap length (sym more),
        ground (
          arith,
          lookup-insert s.journal.path s.journal.path
              (record s.journal.doc {
                operations =
                    mark_op o.op_id (journal_status x.status) x.detail s.journal.doc.operations;
              })
              s.disk.journals,
        ),
      )

  results_of_run_one :
      (o : PlanOperation) (s : RunState W)
      → (x : OperationResult) × (x.op ≡ o)
        × ((run_one execute o s).report.results ≡ s.report.results ++ (x ∷ []))
  unfolding run_one mark flush
  results_of_run_one o s =
      let t = (execute o s.world s.disk.store).0 in
      (result_of o t, op-result_of o t, results-run_one o t s.report)

  still-IsDistinct :
      (o : PlanOperation) (os : List PlanOperation) (s : RunState W)
      → IsDistinct (op_ids (map recorded s.report.results ++ map journal_op (o ∷ os)))
      → IsDistinct (op_ids (map recorded (run_one execute o s).report.results ++ map journal_op os))
  still-IsDistinct o os s h =
      let (x, same, more) = results_of_run_one o s in
      rw (more, ids-append_one s.report.results x (map journal_op os), same) h

  run-InStep :
      (os : List PlanOperation) (s : RunState W)
      → IsDistinct (op_ids (map recorded s.report.results ++ map journal_op os))
      → InStep os s
      → InStep [] (run execute os s)
  unfolding run
  run-InStep [] s h i = i
  run-InStep (o ∷ os) s h i =
      run-InStep os (run_one execute o s) (still-IsDistinct o os s h) (run_one-InStep o os s h i)

  ops-run :
      (os : List PlanOperation) (s : RunState W)
      → map (λ r. r.op) (run execute os s).report.results ≡ map (λ r. r.op) s.report.results ++ os
  unfolding run
  ops-run [] s = sym (append-nil (map (λ r. r.op) s.report.results))
  ops-run (o ∷ os) s =
      let (x, same, more) = results_of_run_one o s in
      ops-run os (run_one execute o s)
      ∙ ap (λ rs. map (λ (r : OperationResult). r.op) rs ++ os) more
      ∙ ops-append_one s.report.results x os
      ∙ ap (λ p. map (λ (r : OperationResult). r.op) s.report.results ++ (p ∷ os)) same

  -- A run of operations with distinct ids, on a journal that `begin` has written, gives one
  -- result for each operation in their order, whatever `execute` returns or raises; the applied,
  -- failed and skipped counts add up to the number of operations, the journal holds each
  -- operation with the status and detail of its result, and the journal file on disk is that
  -- document.
  pub run-recorded :
      (ops : List PlanOperation) (now : ℕ) (j j' : Journal) (d d' : Disk) (w : W)
      → IsDistinct (ids_of ops)
      → begin ops now j d ≡ some (j', d')
      → (let s =
            run execute ops (record { world = w; disk = d'; journal = j'; report = no_results }) in
          (map (λ r. r.op) s.report.results ≡ ops)
          × (s.report.applied_count + s.report.failed_count + s.report.skipped_count ≡ length ops)
          × (s.journal.doc.operations ≡ map recorded s.report.results)
          × (lookup s.journal.path s.disk.journals ≡ some s.journal.doc))
  run-recorded ops now j j' d d' w h e =
      let (planned, file) = begin-files ops now j j' d d' e in
      let s : RunState W = record { world = w; disk = d'; journal = j'; report = no_results } in
      let (a, b, c) = run-InStep ops s (rw (ids-journal_op ops) h) (planned, refl, file) in
      let all = ops-run ops s in
      (
        all,
        b ∙ sym (length-map-op (run execute ops s).report.results) ∙ ap length all,
        a ∙ append-nil (map recorded (run execute ops s).report.results),
        c,
      )
