-- ===== src/Sync/Run/Marks.antt =====
-- Marking one operation of a journal among the others: the list lemmas behind Sync/Run/Record.
use joplin_md_sync.Base.{
  ◌≡◌, refl, sym, ap, ◌∙◌, false, ◌||◌, List, [], ◌∷◌, ◌++◌, map, ◌==◌, contains, nat_eq, list_eq,
  arith, if◌then◌else◌,
}
use joplin_md_sync.Base.Text.{Text}
use joplin_md_sync.Base.Sort.{IsDistinct}
use joplin_md_sync.Models.{PlanOperation}
use joplin_md_sync.Journal.{OpStatus, applied, skipped, op_failed, JournalOp, journal_op, mark_op}
use joplin_md_sync.Planner.Plan.Ids.{ids_of}
use joplin_md_sync.Sync.Run.{
  OperationResult, ResultStatus, was_applied, was_skipped, was_failed, journal_status,
}

-- What the journal says of an operation with a result.
abbrev pub recorded_status : ResultStatus → OpStatus
recorded_status was_applied = applied
recorded_status was_skipped = skipped
recorded_status was_failed = op_failed

abbrev pub recorded : OperationResult → JournalOp
recorded r = record (journal_op r.op) {
  status = recorded_status r.status;
  detail_result = r.detail;
}

journal_status_lem : (s : ResultStatus) → journal_status s ≡ recorded_status s
journal_status_lem was_applied = refl
journal_status_lem was_skipped = refl
journal_status_lem was_failed = refl

abbrev pub op_ids : List JournalOp → List Text
op_ids = map (λ o. o.op_id)

mark_op_at :
    (id : Text) (st : OpStatus) (d : Text) (done : List JournalOp) (o : JournalOp)
    (rest : List JournalOp)
    → contains (op_ids done) id ≡ false
    → o.op_id ≡ id
    → mark_op id st d (done ++ (o ∷ rest))
      ≡ done
        ++ (record o { status = st; detail_result = if d == [] then o.detail_result else d } ∷ rest)
unfolding mark_op
mark_op_at id st d [] o rest h e = ground arith
mark_op_at id st d (p ∷ done) o rest h e = ground (arith, mark_op_at id st d done o rest)

contains-op_ids :
    (a : Text) (js ks : List JournalOp)
    → contains (op_ids (js ++ ks)) a ≡ (contains (op_ids js) a || contains (op_ids ks) a)
contains-op_ids a [] ks = refl
contains-op_ids a (j ∷ js) ks = ground (arith, contains-op_ids a js ks)

unmarked :
    (xs : List OperationResult) (o : PlanOperation) (os : List PlanOperation)
    → IsDistinct (op_ids (map recorded xs ++ map journal_op (o ∷ os)))
    → contains (op_ids (map recorded xs)) o.op_id ≡ false
unfolding journal_op
unmarked [] o os h = refl
unmarked (x ∷ xs) o os h = ground (
  arith,
  contains-op_ids x.op.op_id (map recorded xs) (map journal_op (o ∷ os)),
  unmarked xs o os h.1,
)

pub recorded-append_one :
    (xs : List OperationResult) (x : OperationResult) (js : List JournalOp)
    → map recorded (xs ++ (x ∷ [])) ++ js ≡ map recorded xs ++ (recorded x ∷ js)
recorded-append_one [] x js = refl
recorded-append_one (y ∷ xs) x js = ap (λ r. recorded y ∷ r) (recorded-append_one xs x js)

pub ids-append_one :
    (xs : List OperationResult) (x : OperationResult) (js : List JournalOp)
    → op_ids (map recorded (xs ++ (x ∷ [])) ++ js)
      ≡ op_ids (map recorded xs ++ (journal_op x.op ∷ js))
unfolding journal_op
ids-append_one [] x js = refl
ids-append_one (y ∷ xs) x js = ap (λ r. y.op.op_id ∷ r) (ids-append_one xs x js)

kept_detail : (d : Text) → (if d == [] then [] else d) ≡ d
unfolding list_eq
kept_detail [] = refl
kept_detail (c ∷ d) = refl

pub mark_op-journal_op :
    (x : OperationResult) (xs : List OperationResult) (os : List PlanOperation)
    → IsDistinct (op_ids (map recorded xs ++ map journal_op (x.op ∷ os)))
    → mark_op x.op.op_id
        (journal_status x.status)
        x.detail
        (map recorded xs ++ map journal_op (x.op ∷ os))
      ≡ map recorded (xs ++ (x ∷ [])) ++ map journal_op os
unfolding journal_op
mark_op-journal_op x xs os h =
    ap
      (λ (st : OpStatus).
        mark_op x.op.op_id st x.detail (map recorded xs ++ map journal_op (x.op ∷ os)))
      (journal_status_lem x.status)
    ∙ mark_op_at x.op.op_id (recorded_status x.status) x.detail (map recorded xs) (journal_op x.op)
        (map journal_op os) (unmarked xs x.op os h) refl
    ∙ ap
        (λ (d : Text).
          map recorded xs
          ++ (record (journal_op x.op) { status = recorded_status x.status; detail_result = d }
              ∷ map journal_op os))
        (kept_detail x.detail)
    ∙ sym (recorded-append_one xs x (map journal_op os))

pub ids-journal_op : (ops : List PlanOperation) → op_ids (map journal_op ops) ≡ ids_of ops
unfolding journal_op
ids-journal_op [] = refl
ids-journal_op (o ∷ ops) = ap (λ r. o.op_id ∷ r) (ids-journal_op ops)
