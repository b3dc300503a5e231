-- ===== src/Sync/Quarantine.antt =====
-- The files before and after `_op_pull_delete_local` of src/joplin_md_sync/sync.py.
use mathlib.Core.Path.{subst}
use joplin_md_sync.Base.{
  ◌≡◌, refl, sym, ap, true, false, ◌∙◌, Option, none, some, ◌++◌, arith, nat_eq, list_eq,
  Option-cases, inl, inr,
}
use joplin_md_sync.Base.Text.{Text, text}
use joplin_md_sync.Base.Dict.{Dict, lookup, insert, lookup-insert, lookup-erase}
use joplin_md_sync.Models.{PlanOperation}
use joplin_md_sync.State.{Store}
use joplin_md_sync.Sync.Run.{Outcome, returned, raised, was_applied}
use joplin_md_sync.Sync.Act.{
  Reply, value, stop, Files, Env, ExecState, Act, of_option, files_of, change_files, commit,
  and_then, ◌>>=◌, ◌>>◌, ended,
}
use joplin_md_sync.Sync.Handlers.{backup_file, quarantine_file, op_pull_delete_local}
use joplin_md_sync.Sync.Careful.{
  is_applied, stopped_applied, Reads, of_option-Reads, call-Reads, stop_if-Reads,
}
use joplin_md_sync.Sync.Honest.{IsHonest, current-Reads}
use joplin_md_sync.Sync.Guarded.{guard_local-Reads}

module _ {ℓ} {R : Type ℓ} where
  -- How the files after an operation that is applied compare to those before.
  pub record EndsFrom (m : Act R Outcome) (P : Files → Outcome → Files → Type 0) : Type ℓ where
    pub at :
        (s : ExecState R)
        → is_applied (ended (m s).0) ≡ true
        → P s.files (ended (m s).0) (m s).1.files

  pub EndsFrom-bind {κ} :
      {A : Type κ} {m : Act R A} {P : Files → Outcome → Files → Type 0} {k : A → Act R Outcome}
      → Reads m
      → ((a : A) → EndsFrom (k a) P)
      → EndsFrom (m >>= k) P
  unfolding and_then ended
  EndsFrom-bind {A = A} {P = P} {k = k} h g = record { at = λ s. go s _ (h.at s) }
    where
      go :
          (s : ExecState R) (p : Reply A × ExecState R)
          → (p.1.files ≡ s.files) × (p.1.store ≡ s.store) × (stopped_applied p.0 ≡ false)
          → is_applied (ended (and_then k p).0) ≡ true
          → P s.files (ended (and_then k p).0) (and_then k p).1.files
      go s (value a, t) (f, e, u) c =
          subst
            (λ (x : Files).
              P x (ended (and_then k (value a, t)).0) (and_then k (value a, t)).1.files)
            f ((g a).at t c)
      go s (stop o, t) (f, e, u) c = absurd (ground arith)

-- The result that names the place of a file in the quarantine.
abbrev pub quarantined_to : Text → Text → Outcome
quarantined_to run_id rel =
    returned was_applied
      (text "local file quarantined to .joplin-sync/quarantine/" ++ (run_id ++ (text "/" ++ rel)))

-- The text of the file that the result names is in the quarantine and in the backups of the run, and no longer in its place.
abbrev pub IsMoved : Text → Files → Outcome → Files → Type 0
IsMoved run_id before outcome after =
    (rel : Text) × (content : Text) × (outcome ≡ quarantined_to run_id rel)
    × (lookup rel before.texts ≡ some content)
    × (lookup (run_id ++ (text "/" ++ rel)) after.quarantined ≡ some content)
    × (lookup (run_id ++ (text "/" ++ rel)) after.backups ≡ some content)
    × (lookup rel after.texts ≡ none)

module _ {ℓ} {R : Type ℓ} (env : Env R) where
  set_aside : Text → (Store → Store) → Act R Outcome
  set_aside rel f = do
    change_files (backup_file env rel)
    files ← files_of
    content ← of_option (raised (env.os_error rel)) (lookup rel files.texts)
    change_files (quarantine_file env rel content)
    commit f (quarantined_to env.run_id rel)

  texts-backup_file : (rel : Text) (f : Files) → (backup_file env rel f).texts ≡ f.texts
  unfolding backup_file
  texts-backup_file rel f = elim (Option-cases (lookup rel f.texts)) [
    | inl gone ↦ rw (gone, backup_file)
    | inr (content, found) ↦ rw (found, backup_file)
  ]

  insert_self : (k v : Text) (d : Dict Text Text) → lookup k (insert k v d) ≡ some v
  insert_self k v d = lookup-insert k k v d ∙ ground arith

  backups-backup_file :
      (rel content : Text) (f : Files)
      → lookup rel f.texts ≡ some content
      → lookup (env.run_id ++ (text "/" ++ rel)) (backup_file env rel f).backups ≡ some content
  unfolding backup_file
  backups-backup_file rel content f found =
      rw (found, backup_file) (insert_self _ content f.backups)

  moved :
      (rel content : Text) (f : Files)
      → lookup rel (backup_file env rel f).texts ≡ some content
      → IsMoved env.run_id f
          (quarantined_to env.run_id rel)
          (quarantine_file env rel content (backup_file env rel f))
  unfolding quarantine_file
  moved rel content f e =
      let found = ap (λ (d : Dict Text Text). lookup rel d) (sym (texts-backup_file rel f)) ∙ e in
      (
        rel,
        content,
        refl,
        found,
        insert_self _ content _,
        backups-backup_file rel content f found,
        lookup-erase rel rel (backup_file env rel f).texts ∙ ground arith,
      )

  set_aside-EndsFrom :
      (rel : Text) (f : Store → Store) → EndsFrom (set_aside rel f) (IsMoved env.run_id)
  unfolding set_aside change_files files_of and_then of_option commit ended
  set_aside-EndsFrom rel f = record {
    at = λ s. go s (lookup rel (backup_file env rel s.files).texts) refl;
  }
    where
      rest : Text → Act R Outcome
      rest content =
          change_files (quarantine_file env rel content) >> commit f (quarantined_to env.run_id rel)

      go :
          (s : ExecState R) (x : Option Text)
          → lookup rel (backup_file env rel s.files).texts ≡ x
          → (let t = and_then rest (
                of_option
                  (raised (env.os_error rel))
                  x
                  (record s { files = backup_file env rel s.files })) in
              is_applied (ended t.0) ≡ true → IsMoved env.run_id s.files (ended t.0) t.1.files)
      go s none e c = absurd (ground arith)
      go s (some content) e c = moved rel content s.files e

  module _ (honest : IsHonest env.client) where
    -- If the quarantine of a workspace file ends as applied, then the text that stood at the path
    -- that its result names is in the run's quarantine and in the run's backups under that path,
    -- and no file is left at the path. Condition: no call of the client ends a handler as
    -- applied.
    pub op_pull_delete_local-IsMoved :
        (o : PlanOperation) (s : ExecState R)
        → is_applied (ended (op_pull_delete_local env o s).0) ≡ true
        → IsMoved env.run_id s.files
            (ended (op_pull_delete_local env o s).0)
            (op_pull_delete_local env o s).1.files
    unfolding op_pull_delete_local set_aside
    op_pull_delete_local-IsMoved o s = moves.at s
      where
        moves : EndsFrom (op_pull_delete_local env o) (IsMoved env.run_id)
        moves = EndsFrom-bind (of_option-Reads _ _ refl) (λ i.
            EndsFrom-bind (of_option-Reads _ _ refl) (λ b.
              EndsFrom-bind (of_option-Reads _ _ refl) (λ path.
                EndsFrom-bind (guard_local-Reads env o) (λ _.
                  EndsFrom-bind (current-Reads env _) (λ rel.
                    EndsFrom-bind (call-Reads _ (honest.on_get_any _)) (λ found.
                      EndsFrom-bind (stop_if-Reads _ _ refl) (λ _. set_aside-EndsFrom rel _)))))))
