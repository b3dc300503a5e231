-- ===== src/Sync/Recording.antt =====
-- The handler of src/joplin_md_sync/sync.py that records a conflict, by the rules of Sync/Careful.
use joplin_md_sync.Base.{◌≡◌, refl, ◌∙◌, false, Option, none, some}
use joplin_md_sync.Base.Text.{Text}
use joplin_md_sync.Models.{ItemState, PlanOperation}
use joplin_md_sync.State.{Store, ConflictRow, open_conflict_for_note}
use joplin_md_sync.Sync.Run.{Outcome, returned, was_applied}
use joplin_md_sync.Sync.Act.{
  Reply, value, stop, Env, ExecState, Act, done, store_of, stored, change_store, and_then, ended,
  ◌>>=◌,
}
use joplin_md_sync.Conflicts.Create.{create_for, create_bundle}
use joplin_md_sync.Sync.Handlers.{op_create_conflict}
use joplin_md_sync.Sync.Careful.{
  is_applied, is_concurrent, stopped_applied, stopped_concurrent, Writes, Careful, Settles,
  Settles-Careful, Careful-bind, done-Writes, of_option-Reads, of_option-Writes, files_of-Writes,
  change_files-Writes,
}

module _ {ℓ} {R : Type ℓ} where
  -- A step that stops leaves the database as it was.
  abbrev Kept {κ} : {A : Type κ} → ExecState R → Reply A × ExecState R → Type 0
  Kept s (value a, t) = Unit
  Kept s (stop o, t) = (t.store ≡ s.store) × (is_applied o ≡ false) × (is_concurrent o ≡ false)

  record Keeps {κ} {A : Type κ} (m : Act R A) : Type ℓ where
    pub at : (s : ExecState R) → Kept s (m s)

  Keeps-bind {κ μ} :
      {A : Type κ} {B : Type μ} {m : Act R A} {k : A → Act R B}
      → Writes m
      → ((a : A) → Keeps (k a))
      → Keeps (m >>= k)
  unfolding and_then
  Keeps-bind {A = A} {B = B} {k = k} h g = record { at = λ s. go s _ (h.at s) }
    where
      step :
          (s t : ExecState R) (p : Reply B × ExecState R) → t.store ≡ s.store → Kept t p → Kept s p
      step s t (value b, u) e q = q
      step s t (stop o, u) e q = (q.0 ∙ e, q.1, q.2)

      go :
          (s : ExecState R) (p : Reply A × ExecState R)
          → (p.1.store ≡ s.store) × (stopped_applied p.0 ≡ false) × (stopped_concurrent p.0 ≡ false)
          → Kept s (and_then k p)
      go s (value a, t) (e, u, c) = step s t (k a t) e ((g a).at t)
      go s (stop o, t) q = q

  -- After such a step, what cannot fail.
  Keeps-done {κ μ} :
      {A : Type κ} {B : Type μ} {m : Act R A} (f : A → B) → Keeps m → Keeps (m >>= λ a. done (f a))
  unfolding and_then done
  Keeps-done {A = A} {B = B} f h = record { at = λ s. go s _ (h.at s) }
    where
      go :
          (s : ExecState R) (p : Reply A × ExecState R)
          → Kept s p
          → Kept s (and_then (λ a. done (f a)) p)
      go s (value a, t) q = tt
      go s (stop o, t) q = q

  Keeps-Settles {κ} :
      {A : Type κ} {m : Act R A} (f : A → Text)
      → Keeps m
      → Settles (m >>= λ a. done (returned was_applied (f a)))
  unfolding and_then done ended
  Keeps-Settles {A = A} f h = record { at = λ s. go s _ (h.at s) }
    where
      go :
          (s : ExecState R) (p : Reply A × ExecState R)
          → Kept s p
          → (is_applied (ended (and_then (λ a. done (returned was_applied (f a))) p).0) ≡ false
              → (and_then (λ a. done (returned was_applied (f a))) p).1.store ≡ s.store)
            × (is_concurrent (ended (and_then (λ a. done (returned was_applied (f a))) p).0)
                ≡ false)
      go s (value a, t) q = (λ c. cc, refl)
      go s (stop o, t) q = (λ c. q.0, q.2)

  Writes-Keeps {κ} : {A : Type κ} {m : Act R A} → Writes m → Keeps m
  Writes-Keeps {A = A} h = record { at = λ s. go s _ (h.at s) }
    where
      go :
          (s : ExecState R) (p : Reply A × ExecState R)
          → (p.1.store ≡ s.store) × (stopped_applied p.0 ≡ false) × (stopped_concurrent p.0 ≡ false)
          → Kept s p
      go s (value a, t) q = tt
      go s (stop o, t) q = q

  change_store-Keeps :
      (o : Outcome) (f : Store → Option Store)
      → is_applied o ≡ false
      → is_concurrent o ≡ false
      → Keeps (change_store o f)
  unfolding change_store stored
  change_store-Keeps o f h c = record { at = λ s. go s (f s.store) }
    where
      go : (s : ExecState R) (t : Option Store) → Kept s (stored o t s)
      go s none = (refl, h, c)
      go s (some t) = tt

  store_of-Writes : Writes {R = R} store_of
  unfolding store_of
  store_of-Writes = record { at = λ s. (refl, refl, refl) }

module _ {ℓ} {R : Type ℓ} (env : Env R) where
  create_for-Keeps :
      (nid : Text) (item : ItemState) (o : Option ConflictRow) → Keeps (create_for env nid item o)
  unfolding create_for
  create_for-Keeps nid item (some row) = Writes-Keeps (done-Writes _)
  create_for-Keeps nid item none = Keeps-bind files_of-Writes (λ files.
      Keeps-bind (done-Writes _) (λ cid.
        Keeps-bind (change_files-Writes _)
          (λ u. Keeps-done (λ v. cid) (change_store-Keeps _ _ refl refl))))

  create_bundle-Keeps : (item : ItemState) → Keeps (create_bundle env item)
  unfolding create_bundle
  create_bundle-Keeps item = Keeps-bind (of_option-Writes _ _ refl refl) (λ nid.
      Keeps-bind store_of-Writes
        (λ store. create_for-Keeps nid item (open_conflict_for_note nid store)))

  pub op_create_conflict-Careful : (o : PlanOperation) → Careful (op_create_conflict env o)
  unfolding op_create_conflict
  op_create_conflict-Careful o =
      Careful-bind (of_option-Reads _ _ refl)
        (λ i. Settles-Careful (Keeps-Settles _ (create_bundle-Keeps i)))
