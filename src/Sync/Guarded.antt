-- ===== src/Sync/Guarded.antt =====
-- The rules of Sync/Careful applied to the guards of src/joplin_md_sync/sync.py.
use joplin_md_sync.Base.{refl, Option, none, some, List}
use joplin_md_sync.Base.Text.{Text}
use joplin_md_sync.Models.{LocalNoteFile, PlanOperation}
use joplin_md_sync.Metadata.{is_parsed, is_malformed, ParseResult}
use joplin_md_sync.Sync.Act.{RawNote, Env}
use joplin_md_sync.Sync.Guards.{
  fetch_remote_canonical, note_in_file, check_written, found_note, fetch_if_named, guard_local,
  guard_remote, write_local_note,
}
use joplin_md_sync.Sync.Careful.{
  Reads, Writes, if-Reads, Reads-bind, Writes-bind, done-Reads, give_up-Reads, give_up-Writes,
  of_option-Reads, of_option-Writes, call-Reads, stop_if-Reads, stop_if-Writes, files_of-Reads,
  files_of-Writes, change_files-Writes,
}
use joplin_md_sync.Sync.Honest.{IsHonest, current-Reads}

module _ {ℓ} {R : Type ℓ} (env : Env R) where
  note_in_file-Reads :
      (rel : Text) (l : LocalNoteFile) (raw : Text) (p : ParseResult)
      → Reads (note_in_file env rel l raw p)
  unfolding note_in_file
  note_in_file-Reads rel l raw (is_parsed p) = done-Reads _
  note_in_file-Reads rel l raw (is_malformed m) =
      if-Reads l.has_header _ _ (give_up-Reads _ refl) (done-Reads _)

  pub guard_local-Reads : (o : PlanOperation) → Reads (guard_local env o)
  unfolding guard_local
  guard_local-Reads o = Reads-bind (of_option-Reads _ _ refl) (λ i.
      Reads-bind (of_option-Reads _ _ refl) (λ l. Reads-bind (current-Reads env _) (λ rel.
        Reads-bind files_of-Reads (λ files.
          Reads-bind (of_option-Reads _ _ refl) (λ raw.
            Reads-bind (note_in_file-Reads rel l raw _) (λ parts. stop_if-Reads _ _ refl))))))

  check_written-Writes :
      (rel title : Text) (tags : List Text) (body : Text) (p : ParseResult)
      → Writes (check_written env rel title tags body p)
  unfolding check_written
  check_written-Writes rel title tags body (is_malformed m) = give_up-Writes _ refl refl
  check_written-Writes rel title tags body (is_parsed p) = stop_if-Writes _ _ refl refl

  pub write_local_note-Writes :
      (rel : Text) (nid : Option Text) (title : Text) (tags : List Text) (body : Text)
      → Writes (write_local_note env rel nid title tags body)
  unfolding write_local_note
  write_local_note-Writes rel nid title tags body = Writes-bind files_of-Writes (λ files.
      Writes-bind (stop_if-Writes _ _ refl refl) (λ _. Writes-bind (change_files-Writes _) (λ _.
        Writes-bind files_of-Writes (λ after.
          Writes-bind (of_option-Writes _ _ refl refl)
            (λ raw. check_written-Writes rel title tags body _)))))

  module _ (honest : IsHonest env.client) where
    found_note-Reads : (nid : Text) (raw : Option RawNote) → Reads (found_note env nid raw)
    unfolding found_note
    found_note-Reads nid none = done-Reads _
    found_note-Reads nid (some raw) =
        if-Reads _ _ _ (done-Reads _)
          (Reads-bind (call-Reads _ (honest.on_list_note_tags nid)) (λ titles. done-Reads _))

    pub fetch_remote_canonical-Reads : (nid : Text) → Reads (fetch_remote_canonical env nid)
    unfolding fetch_remote_canonical
    fetch_remote_canonical-Reads nid =
        Reads-bind (call-Reads _ (honest.on_get_note nid)) (found_note-Reads nid)

    fetch_if_named-Reads : (nid : Option Text) → Reads (fetch_if_named env nid)
    unfolding fetch_if_named
    fetch_if_named-Reads none = done-Reads _
    fetch_if_named-Reads (some nid) = fetch_remote_canonical-Reads nid

    pub guard_remote-Reads : (o : PlanOperation) → Reads (guard_remote env o)
    unfolding guard_remote
    guard_remote-Reads o =
        Reads-bind (fetch_if_named-Reads _)
          (λ found. Reads-bind (stop_if-Reads _ _ refl) (λ _. done-Reads _))
