-- ===== src/Conflicts/Idempotent.antt =====
-- `create_bundle` of src/joplin_md_sync/conflicts.py on a note that has an open conflict, and after
-- it has recorded one.
use mathlib.Core.Option.{some-injective}
use joplin_md_sync.Base.{
  ◌≡◌, refl, ap, sym, ◌∙◌, ◌==◌, ◌&&◌, Bool, true, false, Option, none, some, map_some, Bool-cases,
  is_present, [], ◌∷◌, arith, nat_eq, list_eq, inl, inr,
}
use joplin_md_sync.Base.Text.{Text}
use joplin_md_sync.Base.Dict.{Dict, lookup, insert, values}
use joplin_md_sync.Models.{ItemState}
use joplin_md_sync.State.{
  Store, ConflictRow, is_open, conflict_is_open, rows_where, first, open_conflict_for_note,
  add_conflict,
}
use joplin_md_sync.Sync.Run.{Outcome}
use joplin_md_sync.Sync.Act.{
  Reply, value, stop, Env, ExecState, done, of_option, files_of, store_of, change_files, stored,
  change_store, and_then,
}
use joplin_md_sync.Conflicts.Create.{create_for, create_bundle, conflict_row}

-- The first row that is kept, after a row was added where there was none.
first-insert :
    (keep : ConflictRow → Bool) (k : Text) (row : ConflictRow) (d : Dict Text ConflictRow)
    → is_present (lookup k d) ≡ false
    → first (rows_where keep (values d)) ≡ none
    → keep row ≡ true
    → first (rows_where keep (values (insert k row d))) ≡ some row
unfolding rows_where values insert lookup
first-insert keep k row [] a n h = ground arith
first-insert keep k row ((j, r) ∷ d) a n h = ground (arith, first-insert keep k row d)

-- The conflict that was added is the one that is open for its note.
module _ (row : ConflictRow) (s t : Store) where
  open_conflict_for_note-add_conflict :
      open_conflict_for_note row.note_id s ≡ none
      → add_conflict row s ≡ some t
      → open_conflict_for_note row.note_id t ≡ some (record row { status = is_open })
  unfolding open_conflict_for_note add_conflict
  open_conflict_for_note-add_conflict n e =
      elim (Bool-cases (is_present (lookup row.id s.conflicts))) [
        | inl p ↦ absurd (ground (arith, e, p))
        | inr p ↦
            ap
              (λ (x : Store). first (
                rows_where (λ (r : ConflictRow). r.note_id == row.note_id && conflict_is_open r)
                  (values x.conflicts)))
              (sym (some-injective _ _ (rw p at e)))
            ∙ first-insert (λ (r : ConflictRow). r.note_id == row.note_id && conflict_is_open r)
                row.id (record row { status = is_open }) s.conflicts p n (ground arith)
      ]

value_inj {ℓ} : {A : Type ℓ} (a b : A) → Path (Reply A) (value a) (value b) → a ≡ b
value_inj a b p = cc

stop_ne_value {ℓ} : {A : Type ℓ} (o : Outcome) (a : A) → Path (Reply A) (stop o) (value a) → ⊥
stop_ne_value o a p = cc

-- A change of the database that succeeded.
stored_then {ℓ} :
    {R : Type ℓ} (o : Outcome) (x : Option Store) (c d : Text) (s t : ExecState R)
    → and_then (λ u. done c) (stored o x s) ≡ (value d, t)
    → (c ≡ d) × (x ≡ some t.store)
unfolding and_then done stored
stored_then o none c d s t e = absurd (stop_ne_value o d (ap (λ p. p.0) e))
stored_then o (some y) c d s t e = (value_inj c d (ap (λ p. p.0) e), ap (λ p. some (p.1.store)) e)

module _ {ℓ} {R : Type ℓ} (env : Env R) where
  create_for-some :
      (nid : Text) (item : ItemState) (o : Option ConflictRow) (row : ConflictRow) (s : ExecState R)
      → o ≡ some row
      → create_for env nid item o s ≡ (value row.id, s)
  unfolding create_for done
  create_for-some nid item o row s e = rw e refl

  -- A note with an open conflict keeps it, and nothing changes.
  create_bundle-open :
      (item : ItemState) (nid : Text) (row : ConflictRow) (s : ExecState R)
      → item.note_id ≡ some nid
      → open_conflict_for_note nid s.store ≡ some row
      → create_bundle env item s ≡ (value row.id, s)
  unfolding create_bundle and_then of_option store_of
  create_bundle-open item nid row s e h = rw e (create_for-some nid item _ row s h)

  -- What a first call has done.
  create_for-opens :
      (nid : Text) (item : ItemState) (o : Option ConflictRow) (cid : Text) (s t : ExecState R)
      → open_conflict_for_note nid s.store ≡ o
      → create_for env nid item o s ≡ (value cid, t)
      → map_some (λ (r : ConflictRow). r.id) (open_conflict_for_note nid t.store) ≡ some cid
  unfolding create_for done and_then files_of change_files change_store
  create_for-opens nid item (some row) cid s t h e =
      rw (sym (ap (λ p. p.1.store) e), h) (ap some (value_inj row.id cid (ap (λ p. p.0) e)))
  create_for-opens nid item none cid s t h e =
      let row = conflict_row env (env.fresh_id s.files.bundles) nid item in
      let went = stored_then _ (add_conflict row s.store) row.id cid _ t e in
      rw (open_conflict_for_note-add_conflict row s.store t.store h went.1) (ap some went.0)

  create_bundle-opens :
      (item : ItemState) (nid cid : Text) (s t : ExecState R)
      → item.note_id ≡ some nid
      → create_bundle env item s ≡ (value cid, t)
      → map_some (λ (r : ConflictRow). r.id) (open_conflict_for_note nid t.store) ≡ some cid
  unfolding create_bundle and_then of_option store_of
  create_bundle-opens item nid cid s t n e =
      create_for-opens nid item (open_conflict_for_note nid s.store) cid s t refl (rw n at e)

  -- After `create_bundle` has returned an id for a note, another call gives the same id and
  -- changes nothing.
  pub create_bundle-idempotent :
      (item : ItemState) (nid cid : Text) (s t : ExecState R)
      → item.note_id ≡ some nid
      → create_bundle env item s ≡ (value cid, t)
      → create_bundle env item t ≡ (value cid, t)
  create_bundle-idempotent item nid cid s t n e =
      again (open_conflict_for_note nid t.store) refl (create_bundle-opens item nid cid s t n e)
    where
      again :
          (o : Option ConflictRow)
          → open_conflict_for_note nid t.store ≡ o
          → map_some (λ (r : ConflictRow). r.id) o ≡ some cid
          → create_bundle env item t ≡ (value cid, t)
      again none h i = absurd (ground arith)
      again (some row) h i =
          create_bundle-open item nid row t n h
          ∙ ap (λ (c : Text). (value c, t)) (some-injective row.id cid i)
