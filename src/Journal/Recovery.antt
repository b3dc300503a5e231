-- ===== src/Journal/Recovery.antt =====
-- `recover_incomplete_runs` of src/joplin_md_sync/journal.py, over all runs and journal files.
use mathlib.Core.Path.{fun_ext, subst}
use joplin_md_sync.Base.{
  ◌≡◌, ◌≢◌, refl, sym, ap, ◌∙◌, Bool, true, false, Option, none, some, map_some, List, [], ◌∷◌, map,
  ◌==◌, contains, nat_eq, list_eq, arith, if◌then◌else◌, ◌||◌, Option-cases, inl, inr,
}
use joplin_md_sync.Base.Text.{Text}
use joplin_md_sync.Base.Dict.{lookup, lookup-insert}
use joplin_md_sync.Runtime.{Runtime}
use joplin_md_sync.Models.{OpKind, pull_create_local}
use joplin_md_sync.State.{
  Store, RunRow, RunStatus, recovered, finish_run, incomplete_runs, get_note, all_notes,
  all_folders, open_conflict_for_note,
}
use joplin_md_sync.State.Runs.{
  KeysAgree, OpenOnly, close-OpenOnly, incomplete_runs-nil, OpenOnly-incomplete_runs,
}
use joplin_md_sync.Journal.{
  planned, applied, skipped, JournalOp, Doc, Disk, settle_op, settle_doc, recover_run, recover_runs,
  recover_incomplete_runs, op_was_applied, blocking_runs,
}

module _ (rt : Runtime) where
  recover_runs-OpenOnly :
      (rows : List RunRow) (d : Disk)
      → OpenOnly (map (λ r. r.run_id) rows) d.store.runs
      → OpenOnly [] (recover_runs rt rows d).store.runs
  unfolding recover_runs recover_run finish_run
  recover_runs-OpenOnly [] d h = h
  recover_runs-OpenOnly (r ∷ rows) d h =
      recover_runs-OpenOnly rows _
        (close-OpenOnly r.run_id (map (λ x. x.run_id) rows) d.store.runs h)

  -- After recovery no run is in progress, so that no mutating command is refused for one.
  -- Condition: each run row stands under its own run id.
  pub recover_incomplete_runs-unblocks :
      (d : Disk) → KeysAgree d.store.runs → blocking_runs (recover_incomplete_runs rt d).store ≡ []
  unfolding recover_incomplete_runs blocking_runs
  recover_incomplete_runs-unblocks d k = ap (map (λ r. r.run_id)) (
      incomplete_runs-nil _
        (recover_runs-OpenOnly (incomplete_runs d.store) d (OpenOnly-incomplete_runs d.store k)))

  -- Closing a run does not change what recovery reads.
  op_was_applied-finish_run :
      (k : OpKind) (o : JournalOp) (id : Text) (st : RunStatus) (s : Store)
      → op_was_applied rt k o (finish_run id st s) ≡ op_was_applied rt k o s
  unfolding op_was_applied finish_run get_note all_notes all_folders open_conflict_for_note
  op_was_applied-finish_run pull_create_local o id st s = refl
  op_was_applied-finish_run _ o id st s = refl

  settle_op-finish_run :
      (o : JournalOp) (id : Text) (st : RunStatus) (s : Store)
      → settle_op rt (finish_run id st s) o ≡ settle_op rt s o
  unfolding settle_op
  settle_op-finish_run o id st s = ground (arith, op_was_applied-finish_run o.kind o id st s)

  settle_op_idem :
      (s : Store) (o : JournalOp) → settle_op rt s (settle_op rt s o) ≡ settle_op rt s o
  unfolding settle_op
  settle_op_idem s o = ground arith

  settle_doc-finish_run :
      (doc : Doc) (id : Text) (st : RunStatus) (s : Store)
      → settle_doc rt (finish_run id st s) doc ≡ settle_doc rt s doc
  unfolding settle_doc
  settle_doc-finish_run doc id st s = rw (fun_ext (λ o. settle_op-finish_run o id st s))

  map-settle_idem :
      (s : Store) (os : List JournalOp)
      → map (settle_op rt s) (map (settle_op rt s) os) ≡ map (settle_op rt s) os
  map-settle_idem s [] = refl
  map-settle_idem s (o ∷ os) = cc (settle_op_idem s o, map-settle_idem s os)

  settle_doc_idem :
      (s : Store) (doc : Doc) → settle_doc rt s (settle_doc rt s doc) ≡ settle_doc rt s doc
  unfolding settle_doc
  settle_doc_idem s doc =
      ap (λ os. record doc { status = recovered; operations = os })
        (map-settle_idem s doc.operations)

  lookup-recover_run :
      (p : Text) (r : RunRow) (d : Disk)
      → lookup p (recover_run rt r d).journals ≡ (
          if p == r.journal_path
          then map_some (settle_doc rt d.store) (lookup p d.journals)
          else lookup p d.journals)
  unfolding recover_run
  lookup-recover_run p r d = elim (Option-cases (lookup r.journal_path d.journals)) [
    | inl gone ↦ rw (gone, recover_run) (ground arith)
    | inr (doc, found) ↦ rw (found, recover_run) (rw lookup-insert (ground arith))
  ]

  -- What one more run does to a journal that later ones settle too.
  settle_again :
      (s : Store) (a b : Bool) (o : Option Doc)
      → (if b
          then map_some (settle_doc rt s) (if a then map_some (settle_doc rt s) o else o)
          else (if a then map_some (settle_doc rt s) o else o))
        ≡ (if a || b then map_some (settle_doc rt s) o else o)
  settle_again s true true none = refl
  settle_again s true true (some doc) = ap some (settle_doc_idem s doc)
  settle_again s true false o = refl
  settle_again s false b o = refl

  lookup-recover_runs :
      (p : Text) (rows : List RunRow) (d : Disk)
      → lookup p (recover_runs rt rows d).journals ≡ (
          if contains (map (λ r. r.journal_path) rows) p
          then map_some (settle_doc rt d.store) (lookup p d.journals)
          else lookup p d.journals)
  unfolding recover_runs
  lookup-recover_runs p [] d = refl
  lookup-recover_runs p (r ∷ rows) d =
      lookup-recover_runs p rows (recover_run rt r d)
      ∙ (rw
          (
            lookup-recover_run p r d,
            store-recover_run r d,
            fun_ext (λ doc. settle_doc-finish_run doc r.run_id recovered d.store),
          )
          (settle_again d.store (p == r.journal_path) (contains (map (λ x. x.journal_path) rows) p)
            (lookup p d.journals)))
    where
      store-recover_run :
          (x : RunRow) (e : Disk)
          → (recover_run rt x e).store ≡ finish_run x.run_id recovered e.store
      store-recover_run x e = unfold recover_run in refl

  lookup-recover_incomplete_runs :
      (p : Text) (d : Disk)
      → lookup p (recover_incomplete_runs rt d).journals ≡ (
          if contains (map (λ r. r.journal_path) (incomplete_runs d.store)) p
          then map_some (settle_doc rt d.store) (lookup p d.journals)
          else lookup p d.journals)
  unfolding recover_incomplete_runs
  lookup-recover_incomplete_runs p d = lookup-recover_runs p (incomplete_runs d.store) d

  -- What becomes of an operation: one that was open is applied if the state database shows it, and
  -- skipped if not; one that was not open stays as it is, and so does all else of an open one.
  pub record IsSettledOp (s : Store) (o after : JournalOp) : Type 0 where
    pub closed : o.status ≢ planned → after ≡ o
    pub verified :
        o.status ≡ planned → op_was_applied rt o.kind o s ≡ some true → after.status ≡ applied
    pub unverified :
        o.status ≡ planned → op_was_applied rt o.kind o s ≢ some true → after.status ≡ skipped
    pub rest : record after { status = o.status; detail_result = o.detail_result } ≡ o

  abbrev pub AreSettled : Store → List JournalOp → List JournalOp → Type 0
  AreSettled s [] after = after ≡ []
  AreSettled s (o ∷ os) [] = ⊥
  AreSettled s (o ∷ os) (p ∷ after) = IsSettledOp s o p × AreSettled s os after

  -- What becomes of a journal file, of a run in progress or not.
  abbrev pub IsSettledFile : Store → Bool → Option Doc → Option Doc → Type 0
  IsSettledFile s false before after = after ≡ before
  IsSettledFile s true none after = after ≡ none
  IsSettledFile s true (some doc) none = ⊥
  IsSettledFile s true (some doc) (some after) =
      (after.status ≡ recovered)
      × AreSettled s doc.operations after.operations
      × (record after { status = doc.status; operations = doc.operations } ≡ doc)

  settle_op-IsSettledOp : (s : Store) (o : JournalOp) → IsSettledOp s o (settle_op rt s o)
  unfolding settle_op
  settle_op-IsSettledOp s o = ground arith

  map-AreSettled : (s : Store) (os : List JournalOp) → AreSettled s os (map (settle_op rt s) os)
  map-AreSettled s [] = refl
  map-AreSettled s (o ∷ os) = (settle_op-IsSettledOp s o, map-AreSettled s os)

  settle_doc-IsSettledFile :
      (s : Store) (b : Bool) (o : Option Doc)
      → IsSettledFile s b o (if b then map_some (settle_doc rt s) o else o)
  unfolding settle_doc
  settle_doc-IsSettledFile s false o = refl
  settle_doc-IsSettledFile s true none = refl
  settle_doc-IsSettledFile s true (some doc) = (refl, map-AreSettled s doc.operations, refl)

  -- After recovery, the journal at a path that some run in progress names is marked as recovered,
  -- and each of its operations that was open is applied if the state database as it was found
  -- shows that it was, and skipped if not or if that cannot be told; operations that were not
  -- open, all else in that journal, and every other journal are as before.
  pub recover_incomplete_runs-IsSettledFile :
      (p : Text) (d : Disk)
      → IsSettledFile d.store
          (contains (map (λ r. r.journal_path) (incomplete_runs d.store)) p)
          (lookup p d.journals)
          (lookup p (recover_incomplete_runs rt d).journals)
  recover_incomplete_runs-IsSettledFile p d =
      subst
        (IsSettledFile d.store (contains (map (λ r. r.journal_path) (incomplete_runs d.store)) p)
          (lookup p d.journals))
        (sym (lookup-recover_incomplete_runs p d))
        (settle_doc-IsSettledFile d.store _ (lookup p d.journals))
