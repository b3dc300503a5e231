-- ===== src/Sync/Relocated.antt =====
-- The pull of a notebook's change in src/joplin_md_sync/sync.py, which commits the new paths before
-- it writes the file of the notebook.
use joplin_md_sync.Base.{
  ◌≡◌, refl, sym, ◌∙◌, ◌⊎◌, inl, inr, Bool, true, false, arith, ◌==◌, nat_eq, list_eq,
}
use mathlib.Core.Path.{subst}
use joplin_md_sync.Base.Text.{Text}
use joplin_md_sync.Models.{OpKind, pull_update_dir, PlanOperation}
use joplin_md_sync.State.{Store, move_prefix}
use joplin_md_sync.Sync.Run.{Outcome}
use joplin_md_sync.Sync.Act.{Reply, value, stop, Env, ExecState, Act, and_then, ◌>>=◌, ended}
use joplin_md_sync.Sync.Folders.{follow_rename, move_dir, op_pull_update_dir}
use joplin_md_sync.Sync.Careful.{
  is_applied, is_concurrent, stopped_applied, stopped_concurrent, Reads, Writes, Settles, Careful,
  of_option-Reads, done-Writes, stop_if-Writes, files_of-Writes, change_files-Writes,
  note_rename-Writes, Settles-bind, commit-Settles,
}
use joplin_md_sync.Sync.Honest.{current-Reads, write_meta-Writes}

-- The database is as it was, or its paths follow the rename of a directory.
abbrev pub IsMoved : Store → Store → Type 0
IsMoved before after =
    (after ≡ before) ⊎ ((old : Text) × (new : Text) × (after ≡ move_prefix old new before))

-- What may have become of the database when an operation is not applied.
abbrev pub IsKept : OpKind → Store → Store → Type 0
IsKept kind before after = (after ≡ before) ⊎ ((kind ≡ pull_update_dir) × IsMoved before after)

module _ {ℓ} {R : Type ℓ} where
  -- A step that may write files and rename a directory.
  record Moves {κ} {A : Type κ} (m : Act R A) : Type ℓ where
    at :
        (s : ExecState R)
        → IsMoved s.store (m s).1.store
          × (stopped_applied (m s).0 ≡ false)
          × (stopped_concurrent (m s).0 ≡ false)

  -- A handler that at most lets the database follow a rename, unless the operation is applied, and
  -- leaves the files alone where it ends by a concurrent modification.
  record Relocates (m : Act R Outcome) : Type ℓ where
    at :
        (s : ExecState R)
        → (is_applied (ended (m s).0) ≡ false → IsMoved s.store (m s).1.store)
          × (is_concurrent (ended (m s).0) ≡ true → (m s).1.files ≡ s.files)

  pub record CarefulAs (kind : OpKind) (m : Act R Outcome) : Type ℓ where
    pub at :
        (s : ExecState R)
        → (is_applied (ended (m s).0) ≡ false → IsKept kind s.store (m s).1.store)
          × (is_concurrent (ended (m s).0) ≡ true → (m s).1.files ≡ s.files)

  pub Careful-CarefulAs : {m : Act R Outcome} (kind : OpKind) → Careful m → CarefulAs kind m
  Careful-CarefulAs kind h = record { at = λ s. (λ c. inl ((h.at s).0 c), (h.at s).1) }

  Relocates-CarefulAs : {m : Act R Outcome} → Relocates m → CarefulAs pull_update_dir m
  Relocates-CarefulAs h = record { at = λ s. (λ c. inr (refl, (h.at s).0 c), (h.at s).1) }

  Writes-Moves {κ} : {A : Type κ} {m : Act R A} → Writes m → Moves m
  Writes-Moves h = record { at = λ s. let (e, u, c) = h.at s in (inl e, u, c) }

  follow_rename-Moves : (env : Env R) (old new : Text) → Moves (follow_rename env old new)
  unfolding follow_rename
  follow_rename-Moves env old new = record { at = λ s. (inr (old, new, refl), refl, refl) }

  module _ {κ} {A : Type κ} {m : Act R A} where
    Moves-bind {μ} :
        {B : Type μ} {k : A → Act R B} → Writes m → ((a : A) → Moves (k a)) → Moves (m >>= k)
    unfolding and_then
    Moves-bind {k = k} h g = record { at = λ s. go s (m s) (h.at s) }
      where
        go :
            (s : ExecState R) (p : Reply A × ExecState R)
            → (p.1.store ≡ s.store)
              × (stopped_applied p.0 ≡ false)
              × (stopped_concurrent p.0 ≡ false)
            → IsMoved s.store (and_then k p).1.store
              × (stopped_applied (and_then k p).0 ≡ false)
              × (stopped_concurrent (and_then k p).0 ≡ false)
        go s (value a, t) (e, u, c) =
            let (f, u', c') = (g a).at t in
            (subst (λ (x : Store). IsMoved x (k a t).1.store) e f, u', c')
        go s (stop o, t) (e, u, c) = (inl e, u, c)

    Relocates-after :
        {k : A → Act R Outcome} → Moves m → ((a : A) → Settles (k a)) → Relocates (m >>= k)
    unfolding and_then ended
    Relocates-after {k = k} h g = record { at = λ s. go s (m s) (h.at s) }
      where
        go :
            (s : ExecState R) (p : Reply A × ExecState R)
            → IsMoved s.store p.1.store
              × (stopped_applied p.0 ≡ false)
              × (stopped_concurrent p.0 ≡ false)
            → (is_applied (ended (and_then k p).0) ≡ false → IsMoved s.store (and_then k p).1.store)
              × (is_concurrent (ended (and_then k p).0) ≡ true → (and_then k p).1.files ≡ s.files)
        go s (value a, t) (f, u, c) = (
          λ d. subst (λ (x : Store). IsMoved s.store x) (sym (((g a).at t).0 d)) f,
          λ d. absurd (ground (arith, ((g a).at t).1)),
        )
        go s (stop o, t) (f, u, c) = (λ d. f, λ d. absurd (ground arith))

    Relocates-bind :
        {k : A → Act R Outcome} → Reads m → ((a : A) → Relocates (k a)) → Relocates (m >>= k)
    unfolding and_then ended
    Relocates-bind {k = k} h g = record { at = λ s. go s (m s) (h.at s) }
      where
        go :
            (s : ExecState R) (p : Reply A × ExecState R)
            → (p.1.files ≡ s.files) × (p.1.store ≡ s.store) × (stopped_applied p.0 ≡ false)
            → (is_applied (ended (and_then k p).0) ≡ false → IsMoved s.store (and_then k p).1.store)
              × (is_concurrent (ended (and_then k p).0) ≡ true → (and_then k p).1.files ≡ s.files)
        go s (value a, t) (f, e, u) = (
          λ c. subst (λ (x : Store). IsMoved x (k a t).1.store) e (((g a).at t).0 c),
          λ c. ((g a).at t).1 c ∙ f,
        )
        go s (stop o, t) (f, e, u) = (λ c. inl e, λ c. f)

module _ {ℓ} {R : Type ℓ} (env : Env R) where
  move_dir-Moves : (b : Bool) (old new : Text) → Moves (move_dir env b old new)
  unfolding move_dir
  move_dir-Moves true old new = Writes-Moves (done-Writes tt)
  move_dir-Moves false old new = Moves-bind files_of-Writes (λ files.
      Moves-bind (stop_if-Writes _ _ refl refl) (λ _. Moves-bind (change_files-Writes _) (λ _.
        Moves-bind (stop_if-Writes _ _ refl refl) (λ _.
          Moves-bind (change_files-Writes _) (λ _.
            Moves-bind (note_rename-Writes old new) (λ _. follow_rename-Moves env old new))))))

  pub op_pull_update_dir-CarefulAs :
      (o : PlanOperation) → CarefulAs pull_update_dir (op_pull_update_dir env o)
  unfolding op_pull_update_dir
  op_pull_update_dir-CarefulAs o = Relocates-CarefulAs (
      Relocates-bind (of_option-Reads _ _ refl) (λ f.
        Relocates-bind (of_option-Reads _ _ refl) (λ r.
          Relocates-bind (of_option-Reads _ _ refl) (λ path.
            Relocates-bind (of_option-Reads _ _ refl) (λ new_rel.
              Relocates-bind (current-Reads env _) (λ old_rel.
                Relocates-after (move_dir-Moves (old_rel == new_rel) old_rel new_rel)
                  (λ _. Settles-bind (write_meta-Writes env _ _) (λ _. commit-Settles _ _))))))))
