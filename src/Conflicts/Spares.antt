-- ===== src/Conflicts/Spares.antt =====
-- Steps of src/joplin_md_sync/conflicts.py that leave all conflicts and bundles as they are.
use joplin_md_sync.Base.{
  ◌≡◌, refl, ap, ◌∙◌, Bool, true, false, Option, none, some, List, [], ◌==◌, nat_eq, list_eq,
  if◌then◌else◌,
}
use joplin_md_sync.Base.Text.{Text, text}
use joplin_md_sync.Base.Dict.{lookup}
use joplin_md_sync.Models.{RemoteNote}
use joplin_md_sync.State.{Store, upsert_note, delete_note, add_tombstone}
use joplin_md_sync.Metadata.{ParsedNoteFile, ParseResult, is_parsed, is_malformed}
use joplin_md_sync.Sync.Run.{raised}
use joplin_md_sync.Sync.Bundle.{BundleMeta}
use joplin_md_sync.Sync.Act.{
  Answer, confirmed, unconfirmed, Reply, value, stop, Files, Env, ExecState, Act, give_up,
  change_files, change_store, stored, and_then, ◌>>=◌,
}
use joplin_md_sync.Sync.Guards.{write_text}
use joplin_md_sync.Sync.Folders.{make_parents}
use joplin_md_sync.Sync.Handlers.{backup_file, quarantine_file, tombstone}
use joplin_md_sync.Sync.Careful.{
  Reads, done-Reads, give_up-Reads, of_option-Reads, call-Reads, stop_if-Reads, files_of-Reads,
  store_of-Reads, Reads-bind,
}
use joplin_md_sync.Sync.Honest.{IsHonest}
use joplin_md_sync.Sync.Guarded.{fetch_remote_canonical-Reads}
use joplin_md_sync.Sync.Pushed.{reconcile_tags-Reads}
use joplin_md_sync.Conflicts.Stale.{
  parsed_or_raised, parse_if_any, current_local, check_remote, check_local, validate_not_stale,
}
use joplin_md_sync.Conflicts.Resolve.{
  Mode, take_local, take_remote, merged_file, other_mode, write_atomic, update_store, sent,
  restore_or_create, put_note, write_checked, push_content, set_aside, merged_or_raised,
  take_local_side, take_remote_side, take_merged, resolve_by, admit,
}

module _ {ℓ} {R : Type ℓ} where
  pub record Spares {κ} {A : Type κ} (m : Act R A) : Type ℓ where
    pub at :
        (s : ExecState R)
        → ((m s).1.files.bundles ≡ s.files.bundles) × ((m s).1.store.conflicts ≡ s.store.conflicts)

  module _ {κ} {A : Type κ} {m : Act R A} where
    pub Reads-Spares : Reads m → Spares m
    Reads-Spares h = record {
      at = λ s.
          (ap (λ (f : Files). f.bundles) (h.at s).0, ap (λ (t : Store). t.conflicts) (h.at s).1);
    }

    Spares-bind {μ} :
        {B : Type μ} {k : A → Act R B} → Spares m → ((a : A) → Spares (k a)) → Spares (m >>= k)
    unfolding and_then
    Spares-bind {k = k} h g = record { at = λ s. go s (m s) (h.at s) }
      where
        go :
            (s : ExecState R) (p : Reply A × ExecState R)
            → (p.1.files.bundles ≡ s.files.bundles) × (p.1.store.conflicts ≡ s.store.conflicts)
            → ((and_then k p).1.files.bundles ≡ s.files.bundles)
              × ((and_then k p).1.store.conflicts ≡ s.store.conflicts)
        go s (value a, t) (f, e) = let (f', e') = (g a).at t in (f' ∙ f, e' ∙ e)
        go s (stop o, t) h' = h'

  change_files-Spares :
      (f : Files → Files) → ((x : Files) → (f x).bundles ≡ x.bundles) → Spares (change_files f)
  unfolding change_files
  change_files-Spares f h = record { at = λ s. (h s.files, refl) }

  update_store-Spares :
      (f : Store → Store) → ((x : Store) → (f x).conflicts ≡ x.conflicts) → Spares (update_store f)
  unfolding update_store change_store stored
  update_store-Spares f h = record { at = λ s. (refl, h s.store) }

  sent-Reads : (a : Answer) → Reads {R = R} (sent a)
  unfolding sent
  sent-Reads confirmed = done-Reads tt
  sent-Reads (unconfirmed m) = give_up-Reads _ refl

module _ {ℓ} {R : Type ℓ} (env : Env R) where
  parse_if_any-Reads : (o : Option Text) → Reads (parse_if_any env o)
  unfolding parse_if_any parsed_or_raised
  parse_if_any-Reads none = done-Reads none
  parse_if_any-Reads (some raw) =
      Reads-bind (go (env.format.parse_note_file raw)) (λ p. done-Reads _)
    where
      go : (r : ParseResult) → Reads (parsed_or_raised env r)
      go (is_parsed p) = done-Reads p
      go (is_malformed m) = give_up-Reads _ refl

  current_local-Reads : (rel : Text) → Reads (current_local env rel)
  unfolding current_local
  current_local-Reads rel = Reads-bind files_of-Reads (λ files. parse_if_any-Reads _)

  merged_or_raised-Reads : (r : ParseResult) → Reads {R = R} (merged_or_raised r)
  unfolding merged_or_raised
  merged_or_raised-Reads (is_parsed p) = done-Reads p
  merged_or_raised-Reads (is_malformed m) = give_up-Reads _ refl

module _ {ℓ} {R : Type ℓ} (env : Env R) (honest : IsHonest env.client) where
  check_remote-Reads :
      (meta : BundleMeta) (b : Bool) (found : Option RemoteNote)
      → Reads (check_remote env meta b found)
  unfolding check_remote
  check_remote-Reads meta true found = stop_if-Reads _ _ refl
  check_remote-Reads meta false found = stop_if-Reads _ _ refl

  check_local-Reads :
      (meta : BundleMeta) (b : Bool) (found : Option ParsedNoteFile)
      → Reads (check_local env meta b found)
  unfolding check_local
  check_local-Reads meta true found = stop_if-Reads _ _ refl
  check_local-Reads meta false none = give_up-Reads _ refl
  check_local-Reads meta false (some p) = stop_if-Reads _ _ refl

  validate_not_stale-Reads : (meta : BundleMeta) → Reads (validate_not_stale env meta)
  unfolding validate_not_stale
  validate_not_stale-Reads meta = Reads-bind (fetch_remote_canonical-Reads env honest _) (λ remote.
      Reads-bind (check_remote-Reads meta _ remote)
        (λ u. Reads-bind (current_local-Reads env _) (λ local. check_local-Reads meta _ local)))

  -- Admission only reads.
  pub admit-Reads : (cid : Text) → Reads (admit env cid)
  unfolding admit
  admit-Reads cid = Reads-bind store_of-Reads (λ store.
      Reads-bind (of_option-Reads _ _ refl) (λ row. Reads-bind (stop_if-Reads _ _ refl) (λ u.
        Reads-bind files_of-Reads (λ files.
          Reads-bind (of_option-Reads _ _ refl)
            (λ bundle. Reads-bind (validate_not_stale-Reads _) (λ u. done-Reads _))))))

  restore_or_create-Reads :
      (nid title body parent_id : Text) (b : Bool)
      → Reads (restore_or_create env nid title body parent_id b)
  unfolding restore_or_create
  restore_or_create-Reads nid title body parent_id true =
      Reads-bind (call-Reads _ (honest.on_restore_note nid))
        (λ u. Reads-bind (call-Reads _ (honest.on_update_note nid _)) sent-Reads)
  restore_or_create-Reads nid title body parent_id false =
      Reads-bind (call-Reads _ (honest.on_create_note_with_id nid title body parent_id))
        (λ made. stop_if-Reads _ _ refl)

  put_note-Reads :
      (nid title body parent_id : Text) (o : Option RemoteNote)
      → Reads (put_note env nid title body parent_id o)
  unfolding put_note
  put_note-Reads nid title body parent_id none =
      Reads-bind (call-Reads _ (honest.on_get_any nid))
        (λ raw. restore_or_create-Reads nid title body parent_id _)
  put_note-Reads nid title body parent_id (some r) =
      Reads-bind (call-Reads _ (honest.on_update_note nid _)) sent-Reads

  push_content-Spares :
      (nid rel title body : Text) (tags : List Text) (parent_id : Text)
      → Spares (push_content env nid rel title body tags parent_id)
  unfolding push_content write_checked write_atomic write_text make_parents upsert_note
  push_content-Spares nid rel title body tags parent_id =
      Spares-bind (Reads-Spares (fetch_remote_canonical-Reads env honest nid)) (λ remote.
        Spares-bind (Reads-Spares (put_note-Reads nid title body parent_id remote)) (λ u.
          Spares-bind (Reads-Spares (reconcile_tags-Reads env honest nid tags none)) (λ m.
            Spares-bind (Reads-Spares (fetch_remote_canonical-Reads env honest nid)) (λ found.
              Spares-bind (Reads-Spares (of_option-Reads _ _ refl)) (λ check.
                Spares-bind (Reads-Spares (stop_if-Reads _ _ refl)) (λ u.
                  Spares-bind (change_files-Spares _ (λ x. refl))
                    (λ u. update_store-Spares _ (λ x. refl))))))))

  backup_file-bundles : (rel : Text) (f : Files) → (backup_file env rel f).bundles ≡ f.bundles
  unfolding backup_file
  backup_file-bundles rel f = go (lookup rel f.texts) refl
    where
      go : (o : Option Text) → lookup rel f.texts ≡ o → (backup_file env rel f).bundles ≡ f.bundles
      go none e = rw (e, backup_file) refl
      go (some content) e = rw (e, backup_file) refl

  set_aside-bundles :
      (rel : Text) (o : Option Text) (f : Files) → (set_aside env rel o f).bundles ≡ f.bundles
  unfolding set_aside backup_file quarantine_file
  set_aside-bundles rel none f = refl
  set_aside-bundles rel (some content) f = backup_file-bundles rel f

  take_local_side-Spares : (meta : BundleMeta) (b : Bool) → Spares (take_local_side env meta b)
  unfolding take_local_side tombstone delete_note add_tombstone
  take_local_side-Spares meta true =
      Spares-bind (Reads-Spares (call-Reads _ (honest.on_delete_note _))) (λ u.
        Spares-bind (Reads-Spares (call-Reads _ (honest.on_get_any _))) (λ check.
          Spares-bind (Reads-Spares (stop_if-Reads _ _ refl)) (λ u.
            Spares-bind (update_store-Spares _ (λ x. refl)) (λ u. Reads-Spares (done-Reads _)))))
  take_local_side-Spares meta false =
      Spares-bind (Reads-Spares (current_local-Reads env _)) (λ found.
        Spares-bind (Reads-Spares (of_option-Reads _ _ refl)) (λ local.
          Spares-bind (Reads-Spares store_of-Reads) (λ store.
            Spares-bind (push_content-Spares _ _ _ _ _ _) (λ u. Reads-Spares (done-Reads _)))))

  take_remote_side-Spares : (meta : BundleMeta) (b : Bool) → Spares (take_remote_side env meta b)
  unfolding take_remote_side tombstone delete_note add_tombstone write_atomic write_text
      make_parents upsert_note
  take_remote_side-Spares meta true = Spares-bind (Reads-Spares files_of-Reads) (λ files.
      Spares-bind (change_files-Spares _ (set_aside-bundles _ _))
        (λ u. Spares-bind (update_store-Spares _ (λ x. refl)) (λ u. Reads-Spares (done-Reads _))))
  take_remote_side-Spares meta false =
      Spares-bind (Reads-Spares (fetch_remote_canonical-Reads env honest _)) (λ found.
        Spares-bind (Reads-Spares (of_option-Reads _ _ refl)) (λ remote.
          Spares-bind (Reads-Spares store_of-Reads) (λ store.
            Spares-bind (Reads-Spares (of_option-Reads _ _ refl)) (λ rel.
              Spares-bind (change_files-Spares _ (backup_file-bundles rel)) (λ u.
                Spares-bind (change_files-Spares _ (λ x. refl)) (λ u.
                  Spares-bind (update_store-Spares _ (λ x. refl))
                    (λ u. Reads-Spares (done-Reads _))))))))

  take_merged-Spares :
      (meta : BundleMeta) (path : Text) (content : Option Text)
      → Spares (take_merged env meta path content)
  unfolding take_merged
  take_merged-Spares meta path content =
      Spares-bind (Reads-Spares (of_option-Reads _ _ refl)) (λ raw.
        Spares-bind (Reads-Spares (merged_or_raised-Reads env _)) (λ merged.
          Spares-bind (Reads-Spares (stop_if-Reads _ _ refl)) (λ u.
            Spares-bind (Reads-Spares store_of-Reads) (λ store.
              Spares-bind (Reads-Spares (of_option-Reads _ _ refl)) (λ rel.
                Spares-bind (change_files-Spares _ (backup_file-bundles rel)) (λ u.
                  Spares-bind (push_content-Spares _ _ _ _ _ _)
                    (λ u. Reads-Spares (done-Reads _))))))))

  pub resolve_by-Spares : (meta : BundleMeta) (mode : Mode) → Spares (resolve_by env meta mode)
  unfolding resolve_by
  resolve_by-Spares meta take_local = take_local_side-Spares meta _
  resolve_by-Spares meta take_remote = take_remote_side-Spares meta _
  resolve_by-Spares meta (merged_file path content) = go (path == [])
    where
      go :
          (b : Bool)
          → Spares (
              if b
              then give_up (raised (text "--merged-file PATH is required"))
              else take_merged env meta path content)
      go true = Reads-Spares (give_up-Reads _ refl)
      go false = take_merged-Spares meta path content
  resolve_by-Spares meta (other_mode m) = Reads-Spares (give_up-Reads _ refl)
