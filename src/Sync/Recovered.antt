-- ===== src/Sync/Recovered.antt =====
-- The handlers of src/joplin_md_sync/sync.py against `_op_was_applied` of
-- src/joplin_md_sync/journal.py.
use joplin_md_sync.Base.{
  ℕ, ◌≡◌, ◌≢◌, refl, ap, ◌∙◌, true, Option, none, some, map_some, get_or, OnSome, [], ◌==◌, arith,
  nat_eq, list_eq, option_eq,
}
use joplin_md_sync.Base.Text.{Text, text_leb}
use joplin_md_sync.Base.Sort.{sort}
use joplin_md_sync.Runtime.{Runtime}
use joplin_md_sync.Models.{
  RemoteNote, BaseNote, PlanOperation, pull_update_local, pull_delete_local, push_delete_remote,
}
use joplin_md_sync.State.{Store, get_note, upsert_note, delete_note, row_to_note}
use joplin_md_sync.State.Notes.{get_note-upsert_note, get_note-delete_note}
use joplin_md_sync.Journal.{truthy, journal_op, op_was_applied}
use joplin_md_sync.Planner.Draft.{combined_remote}
use joplin_md_sync.Sync.Act.{Env, ExecState, ended}
use joplin_md_sync.Sync.Guards.{note_row}
use joplin_md_sync.Sync.Handlers.{op_pull_update_local, op_pull_delete_local, op_push_delete_remote}
use joplin_md_sync.Sync.Careful.{
  is_applied, of_option-Reads, of_option-Writes, call-Reads, stop_if-Reads, files_of-Writes,
  change_files-Writes,
}
use joplin_md_sync.Sync.Honest.{IsHonest, current-Reads}
use joplin_md_sync.Sync.Guarded.{guard_local-Reads, write_local_note-Writes}
use joplin_md_sync.Sync.Verified.{
  Ends, Ends-bind, commit-Ends, Reads-Yields, Writes-Yields, IsFetched, guard_remote-Yields,
  of_option-Yields,
}

-- The comparison of `_op_was_applied`.
matches_lem :
    (expected base : Option Text) (h : Text)
    → expected ≢ some []
    → some h ≡ expected
    → base ≡ some h
    → elim (truthy expected) [ none ↦ none | some e ↦ some (base == some e) ] ≡ some true
matches_lem expected base h n e b = ground arith

-- The base of a note that was written has the hash that the note had when it was read.
base_hash :
    (rt : Runtime) (r : RemoteNote) (rel : Text) (t : ℕ) (s : Store)
    → sort text_leb r.tags ≡ r.tags
    → map_some
        (λ (b : BaseNote). b.hashes.combined)
        (get_note rt r.id (upsert_note (note_row r.id rel r.title r.body r.tags r.parent_id t) s))
      ≡ some (combined_remote rt r)
unfolding row_to_note
base_hash rt r rel t s h =
    ap (map_some (λ (b : BaseNote). b.hashes.combined))
      (get_note-upsert_note rt r.id (note_row r.id rel r.title r.body r.tags r.parent_id t) s)
    ∙ rw h (ground arith)

update_recognised :
    (rt : Runtime) (o : PlanOperation) (r : RemoteNote) (rel : Text) (t : ℕ) (s : Store)
    → o.expected_remote_hash ≢ some []
    → IsFetched rt o r
    → op_was_applied rt pull_update_local
        (journal_op o)
        (upsert_note (note_row r.id rel r.title r.body r.tags r.parent_id t) s)
      ≡ some true
unfolding op_was_applied journal_op
update_recognised rt o r rel t s n h =
    matches_lem o.expected_remote_hash _ (combined_remote rt r) n h.hashed
      (rw h.named (base_hash rt r rel t s h.sorted))

itself {ℓ} : {A : Type ℓ} (x : Option A) → OnSome (λ a. x ≡ some a) x
itself none = tt
itself (some a) = refl

truthy_lem : (x : Option Text) (t : Text) → truthy x ≡ some t → get_or x [] ≡ t
truthy_lem none t e = absurd (ground arith)
truthy_lem (some u) t e = ground arith

gone : (rt : Runtime) (nid : Text) (s : Store) → get_note rt nid (delete_note nid s) ≡ none
gone rt nid s = get_note-delete_note rt nid nid s ∙ ground arith

push_delete_recognised :
    (rt : Runtime) (o : PlanOperation) (nid : Text) (s : Store)
    → truthy o.note_id ≡ some nid
    → op_was_applied rt push_delete_remote (journal_op o) (delete_note nid s) ≡ some true
unfolding op_was_applied journal_op
push_delete_recognised rt o nid s named = rw (named, gone rt nid s)

pull_delete_recognised :
    (rt : Runtime) (o : PlanOperation) (nid : Text) (s : Store)
    → truthy o.note_id ≡ some nid
    → op_was_applied rt pull_delete_local (journal_op o) (delete_note (get_or o.note_id []) s)
      ≡ some true
unfolding op_was_applied journal_op
pull_delete_recognised rt o nid s named = rw (truthy_lem o.note_id nid named, named, gone rt nid s)

module _ {ℓ} {R : Type ℓ} (env : Env R) (honest : IsHonest env.client) where
  op_pull_update_local-Ends :
      (o : PlanOperation)
      → o.expected_remote_hash ≢ some []
      → Ends
          (op_pull_update_local env o)
          (λ t. op_was_applied env.rt pull_update_local (journal_op o) t ≡ some true)
  unfolding op_pull_update_local
  op_pull_update_local-Ends o n = Ends-bind (Reads-Yields (of_option-Reads _ _ refl)) (λ i u.
      Ends-bind (Reads-Yields (of_option-Reads _ _ refl)) (λ planned u.
        Ends-bind (Reads-Yields (of_option-Reads _ _ refl)) (λ rel u.
          Ends-bind (Reads-Yields (guard_local-Reads env o)) (λ v u.
            Ends-bind (guard_remote-Yields env honest o) (λ found fetched.
              Ends-bind (of_option-Yields _ found (IsFetched env.rt o) refl fetched) (λ r read.
                Ends-bind (Reads-Yields (current-Reads env _)) (λ old_rel u.
                  Ends-bind (Reads-Yields (current-Reads env _)) (λ new_rel u.
                    Ends-bind (Writes-Yields (change_files-Writes _)) (λ v u.
                      Ends-bind (Writes-Yields (write_local_note-Writes env _ _ _ _ _)) (λ v u.
                        Ends-bind (Writes-Yields (change_files-Writes _)) (λ v u.
                          commit-Ends _ _ (λ t.
                            update_recognised env.rt o r new_rel r.updated_time t n read))))))))))))

  op_push_delete_remote-Ends :
      (o : PlanOperation)
      → Ends
          (op_push_delete_remote env o)
          (λ t. op_was_applied env.rt push_delete_remote (journal_op o) t ≡ some true)
  unfolding op_push_delete_remote
  op_push_delete_remote-Ends o = Ends-bind (Reads-Yields (of_option-Reads _ _ refl)) (λ i u.
      Ends-bind (Reads-Yields (of_option-Reads _ _ refl)) (λ b u.
        Ends-bind
          (of_option-Yields _ (truthy o.note_id) (λ nid. truthy o.note_id ≡ some nid) refl
            (itself (truthy o.note_id)))
          (λ nid named. Ends-bind (guard_remote-Yields env honest o) (λ found fetched.
            Ends-bind (Reads-Yields (call-Reads _ (honest.on_delete_note _))) (λ v u.
              Ends-bind (Reads-Yields (call-Reads _ (honest.on_get_any _))) (λ raw u.
                Ends-bind (Reads-Yields (stop_if-Reads _ _ refl))
                  (λ v u. commit-Ends _ _ (λ t. push_delete_recognised env.rt o nid _ named))))))))

  op_pull_delete_local-Ends :
      (o : PlanOperation) (nid : Text)
      → truthy o.note_id ≡ some nid
      → Ends
          (op_pull_delete_local env o)
          (λ t. op_was_applied env.rt pull_delete_local (journal_op o) t ≡ some true)
  unfolding op_pull_delete_local
  op_pull_delete_local-Ends o nid named =
      Ends-bind (Reads-Yields (of_option-Reads _ _ refl)) (λ i u.
        Ends-bind (Reads-Yields (of_option-Reads _ _ refl)) (λ b u.
          Ends-bind (Reads-Yields (of_option-Reads _ _ refl)) (λ path u.
            Ends-bind (Reads-Yields (guard_local-Reads env o)) (λ v u.
              Ends-bind (Reads-Yields (current-Reads env _)) (λ rel u.
                Ends-bind (Reads-Yields (call-Reads _ (honest.on_get_any _))) (λ found u.
                  Ends-bind (Reads-Yields (stop_if-Reads _ _ refl)) (λ v u.
                    Ends-bind (Writes-Yields (change_files-Writes _)) (λ v u.
                      Ends-bind (Writes-Yields files_of-Writes) (λ files u.
                        Ends-bind (Writes-Yields (of_option-Writes _ _ refl refl)) (λ content u.
                          Ends-bind (Writes-Yields (change_files-Writes _)) (λ v u.
                            commit-Ends _ _
                              (λ t. pull_delete_recognised env.rt o nid _ named))))))))))))

  -- If a pull of an update ends as applied, recovery tells from the state database that it was:
  -- the base that was committed is of the note of the operation and has the hash that was
  -- planned. Conditions: the expected hash of the note in Joplin is not the empty text, and no
  -- call of the client ends a handler as applied.
  pub op_pull_update_local-op_was_applied :
      (o : PlanOperation) (s : ExecState R)
      → o.expected_remote_hash ≢ some []
      → is_applied (ended (op_pull_update_local env o s).0) ≡ true
      → op_was_applied env.rt pull_update_local
          (journal_op o)
          (op_pull_update_local env o s).1.store
        ≡ some true
  op_pull_update_local-op_was_applied o s n = (op_pull_update_local-Ends o n).at s

  -- If the quarantine of a workspace file ends as applied, recovery tells from the state database
  -- that it was. Conditions: the operation names a note, and no call of the client ends a handler
  -- as applied.
  pub op_pull_delete_local-op_was_applied :
      (o : PlanOperation) (nid : Text) (s : ExecState R)
      → truthy o.note_id ≡ some nid
      → is_applied (ended (op_pull_delete_local env o s).0) ≡ true
      → op_was_applied env.rt pull_delete_local
          (journal_op o)
          (op_pull_delete_local env o s).1.store
        ≡ some true
  op_pull_delete_local-op_was_applied o nid s named = (op_pull_delete_local-Ends o nid named).at s

  -- If a deletion in Joplin ends as applied, recovery tells from the state database that it was.
  -- Condition: no call of the client ends a handler as applied.
  pub op_push_delete_remote-op_was_applied :
      (o : PlanOperation) (s : ExecState R)
      → is_applied (ended (op_push_delete_remote env o s).0) ≡ true
      → op_was_applied env.rt push_delete_remote
          (journal_op o)
          (op_push_delete_remote env o s).1.store
        ≡ some true
  op_push_delete_remote-op_was_applied o s = (op_push_delete_remote-Ends o).at s
