-- ===== src/Sync/Pushed.antt =====
-- The rules of Sync/Careful applied to the handlers of src/joplin_md_sync/sync.py that write notes to
-- Joplin, and to the one that records a conflict.
use joplin_md_sync.Base.{refl, Bool, true, false, Option, none, some, List, [], ◌∷◌}
use joplin_md_sync.Base.Text.{Text}
use joplin_md_sync.Base.Dict.{Dict}
use joplin_md_sync.Models.{PlanOperation}
use joplin_md_sync.Metadata.{ParsedNoteFile}
use joplin_md_sync.Sync.Act.{Answer, confirmed, unconfirmed, Env}
use joplin_md_sync.Sync.Tags.{
  known_tags, tag_id, attach_one, attach, detach_one, detach, reconcile_tags, reconcile_note_tags,
}
use joplin_md_sync.Sync.Push.{
  read_local, set_tags_if, settle_update, update_if, move_if, op_push_create_remote,
  op_push_update_remote,
}
use joplin_md_sync.Sync.Careful.{
  Reads, Writes, Careful, Settles-Careful, Reads-bind, Writes-bind, Careful-bind, Settles-bind,
  done-Reads, done-Writes, of_option-Reads, call-Reads, stop_if-Reads, files_of-Reads,
  created_of-Reads, tag_map_of-Reads, keep_tag_map-Reads, change_files-Writes, commit-Settles,
}
use joplin_md_sync.Sync.Honest.{IsHonest, current-Reads}
use joplin_md_sync.Sync.Guarded.{
  guard_local-Reads, guard_remote-Reads, fetch_remote_canonical-Reads, write_local_note-Writes,
}

module _ {ℓ} {R : Type ℓ} (env : Env R) (honest : IsHonest env.client) where
  known_tags-Reads : (m : Option (Dict Text Text)) → Reads (known_tags env m)
  unfolding known_tags
  known_tags-Reads none = Reads-bind (call-Reads _ honest.on_list_tags) (λ ts. done-Reads _)
  known_tags-Reads (some m) = done-Reads m

  tag_id-Reads :
      (title : Text) (m : Dict Text Text) (o : Option Text) → Reads (tag_id env title m o)
  unfolding tag_id
  tag_id-Reads title m none =
      Reads-bind (call-Reads _ (honest.on_create_tag title)) (λ t. done-Reads _)
  tag_id-Reads title m (some tid) = done-Reads _

  attach_one-Reads :
      (nid : Text) (b : Bool) (title : Text) (m : Dict Text Text)
      → Reads (attach_one env nid b title m)
  unfolding attach_one
  attach_one-Reads nid true title m = done-Reads m
  attach_one-Reads nid false title m =
      Reads-bind (tag_id-Reads title m _)
        (λ found. Reads-bind (call-Reads _ (honest.on_add_tag _ nid)) (λ u. done-Reads _))

  attach-Reads :
      (nid : Text) (here : Dict Text Text) (ts : List Text) (m : Dict Text Text)
      → Reads (attach env nid here ts m)
  unfolding attach
  attach-Reads nid here [] m = done-Reads m
  attach-Reads nid here (t ∷ ts) m =
      Reads-bind (attach_one-Reads nid _ t m) (λ more. attach-Reads nid here ts more)

  detach_one-Reads : (nid : Text) (b : Bool) (tid : Text) → Reads (detach_one env nid b tid)
  unfolding detach_one
  detach_one-Reads nid true tid = done-Reads tt
  detach_one-Reads nid false tid = call-Reads _ (honest.on_remove_tag tid nid)

  detach-Reads :
      (nid : Text) (wanted : List Text) (d : Dict Text Text) → Reads (detach env nid wanted d)
  unfolding detach
  detach-Reads nid wanted [] = done-Reads tt
  detach-Reads nid wanted (_ ∷ rest) =
      Reads-bind (detach_one-Reads nid _ _) (λ u. detach-Reads nid wanted rest)

  pub reconcile_tags-Reads :
      (nid : Text) (wanted : List Text) (m : Option (Dict Text Text))
      → Reads (reconcile_tags env nid wanted m)
  unfolding reconcile_tags
  reconcile_tags-Reads nid wanted m = Reads-bind (known_tags-Reads m) (λ known.
      Reads-bind (call-Reads _ (honest.on_list_note_tags nid)) (λ here.
        Reads-bind (attach-Reads nid _ wanted known)
          (λ more. Reads-bind (detach-Reads nid wanted _) (λ u. done-Reads more))))

  set_tags_if-Reads :
      (b : Bool) (nid : Text) (wanted : List Text) → Reads (set_tags_if env b nid wanted)
  unfolding set_tags_if reconcile_note_tags
  set_tags_if-Reads true nid wanted =
      Reads-bind tag_map_of-Reads
        (λ m. Reads-bind (reconcile_tags-Reads nid wanted m) (λ more. keep_tag_map-Reads more))
  set_tags_if-Reads false nid wanted = done-Reads tt

  read_local-Reads : (rel : Text) → Reads (read_local env rel)
  unfolding read_local
  read_local-Reads rel = Reads-bind files_of-Reads (λ files. of_option-Reads _ _ refl)

  module _ (o : PlanOperation) (p : ParsedNoteFile) (parent_id nid : Text) where
    settle_update-Reads : (a : Answer) → Reads (settle_update env o p parent_id nid a)
    unfolding settle_update
    settle_update-Reads confirmed = done-Reads tt
    settle_update-Reads (unconfirmed m) =
        Reads-bind (fetch_remote_canonical-Reads env honest nid)
          (λ probe. Reads-bind (stop_if-Reads _ _ refl) (λ u. stop_if-Reads _ _ refl))

    update_if-Reads : (b : Bool) → Reads (update_if env o p parent_id b nid)
    unfolding update_if
    update_if-Reads true =
        Reads-bind (call-Reads _ (honest.on_update_note nid _)) settle_update-Reads
    update_if-Reads false = done-Reads tt

  move_if-Writes :
      (b : Bool) (nid rel new_rel : Text) (p : ParsedNoteFile)
      → Writes (move_if env b nid rel new_rel p)
  unfolding move_if
  move_if-Writes false nid rel new_rel p = done-Writes rel
  move_if-Writes true nid rel new_rel p =
      Writes-bind (write_local_note-Writes env _ _ _ _ _)
        (λ u. Writes-bind (change_files-Writes _) (λ u. done-Writes new_rel))

  pub op_push_create_remote-Careful : (o : PlanOperation) → Careful (op_push_create_remote env o)
  unfolding op_push_create_remote
  op_push_create_remote-Careful o = Careful-bind (of_option-Reads _ _ refl) (λ i.
      Careful-bind (of_option-Reads _ _ refl) (λ l. Careful-bind (of_option-Reads _ _ refl) (λ path.
        Careful-bind (current-Reads env _) (λ rel. Careful-bind (read_local-Reads rel) (λ raw.
          Careful-bind (stop_if-Reads _ _ refl) (λ u. Careful-bind (done-Reads _) (λ p.
            Careful-bind created_of-Reads (λ created.
              Careful-bind (of_option-Reads _ _ refl) (λ parent_id.
                Careful-bind (call-Reads _ (honest.on_create_note _ _ _)) (λ nid.
                  Careful-bind (set_tags_if-Reads _ nid _) (λ u.
                    Careful-bind (fetch_remote_canonical-Reads env honest nid) (λ found.
                      Careful-bind (of_option-Reads _ _ refl) (λ r.
                        Careful-bind (stop_if-Reads _ _ refl) (λ u.
                          Careful-bind (done-Reads _) (λ new_rel. Settles-Careful (
                            Settles-bind (write_local_note-Writes env _ _ _ _ _) (λ u.
                              Settles-bind (change_files-Writes _)
                                (λ u. commit-Settles _ _))))))))))))))))))

  pub op_push_update_remote-Careful : (o : PlanOperation) → Careful (op_push_update_remote env o)
  unfolding op_push_update_remote
  op_push_update_remote-Careful o = Careful-bind (of_option-Reads _ _ refl) (λ i.
      Careful-bind (of_option-Reads _ _ refl) (λ l. Careful-bind (of_option-Reads _ _ refl) (λ nid.
        Careful-bind (of_option-Reads _ _ refl) (λ path.
          Careful-bind (guard_local-Reads env o) (λ u.
            Careful-bind (guard_remote-Reads env honest o) (λ planned.
              Careful-bind (current-Reads env _) (λ rel. Careful-bind (read_local-Reads rel) (λ raw.
                Careful-bind (of_option-Reads _ _ refl) (λ p.
                  Careful-bind created_of-Reads (λ created.
                    Careful-bind (done-Reads _) (λ parent_id.
                      Careful-bind (update_if-Reads o p parent_id nid _) (λ u.
                        Careful-bind (set_tags_if-Reads _ nid _) (λ u.
                          Careful-bind (fetch_remote_canonical-Reads env honest nid) (λ found.
                            Careful-bind (of_option-Reads _ _ refl) (λ r.
                              Careful-bind (stop_if-Reads _ _ refl) (λ u.
                                Careful-bind files_of-Reads (λ files. Settles-Careful (
                                  Settles-bind (move_if-Writes _ nid rel _ p)
                                    (λ new_rel. commit-Settles _ _)))))))))))))))))))
