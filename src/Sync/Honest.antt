-- ===== src/Sync/Honest.antt =====
-- The client of the handlers of src/joplin_md_sync/sync.py, as far as they rely on it, and the rules of
-- Sync/Careful applied to the handlers of notebooks.
use joplin_md_sync.Base.{refl, Option, none, some}
use joplin_md_sync.Base.Text.{Text}
use joplin_md_sync.Models.{PlanOperation}
use joplin_md_sync.Sync.Act.{NoteFields, JoplinClient, Env}
use joplin_md_sync.Sync.Guards.{current}
use joplin_md_sync.Sync.Careful.{
  Reads, Writes, Careful, Settles-Careful, Reads-bind, Writes-bind, Careful-bind, Settles-bind,
  done-Reads, of_option-Reads, Honest, call-Reads, stop_if-Reads, stop_if-Writes, files_of-Reads,
  renames_of-Reads, change_files-Writes, commit-Settles,
}
use joplin_md_sync.Sync.Folders.{
  write_meta, update_if_any, op_pull_create_dir, op_push_create_folder, op_push_update_folder,
}
use joplin_md_sync.Sync.Careful.{created_of-Reads, note_folder-Writes}

-- No call of the client ends a handler as applied: it returns or raises.
pub record IsHonest {ℓ} {R : Type ℓ} (client : JoplinClient R) : Type ℓ where
  pub on_get_note : (nid : Text) → Honest (client.get_note nid)
  pub on_get_any : (nid : Text) → Honest (client.get_any nid)
  pub on_list_note_tags : (nid : Text) → Honest (client.list_note_tags nid)
  pub on_list_tags : Honest client.list_tags
  pub on_create_tag : (title : Text) → Honest (client.create_tag title)
  pub on_add_tag : (tid nid : Text) → Honest (client.add_tag_to_note tid nid)
  pub on_remove_tag : (tid nid : Text) → Honest (client.remove_tag_from_note tid nid)
  pub on_create_note :
      (title body parent_id : Text) → Honest (client.create_note title body parent_id)
  pub on_create_note_with_id :
      (nid title body parent_id : Text)
      → Honest (client.create_note_with_id nid title body parent_id)
  pub on_update_note : (nid : Text) (f : NoteFields) → Honest (client.update_note nid f)
  pub on_restore_note : (nid : Text) → Honest (client.restore_note nid)
  pub on_create_folder : (title parent_id : Text) → Honest (client.create_folder title parent_id)
  pub on_get_folder : (fid : Text) → Honest (client.get_folder fid)
  pub on_update_folder :
      (fid : Text) (title parent_id : Option Text)
      → Honest (client.update_folder fid title parent_id)
  pub on_delete_note : (nid : Text) → Honest (client.delete_note nid)

module _ {ℓ} {R : Type ℓ} (env : Env R) where
  pub current-Reads : (p : Text) → Reads (current env p)
  unfolding current
  current-Reads p = Reads-bind renames_of-Reads (λ rs. done-Reads _)

  pub write_meta-Writes : (rel content : Text) → Writes (write_meta env rel content)
  unfolding write_meta
  write_meta-Writes rel content =
      Writes-bind (stop_if-Writes _ _ refl refl) (λ _. change_files-Writes _)

  pub op_pull_create_dir-Careful : (o : PlanOperation) → Careful (op_pull_create_dir env o)
  unfolding op_pull_create_dir
  op_pull_create_dir-Careful o = Careful-bind (of_option-Reads _ _ refl) (λ f.
      Careful-bind (of_option-Reads _ _ refl) (λ r. Careful-bind (of_option-Reads _ _ refl) (λ rel.
        Careful-bind files_of-Reads (λ files. Careful-bind (stop_if-Reads _ _ refl) (λ _.
          Settles-Careful (
            Settles-bind (change_files-Writes _)
              (λ _. Settles-bind (write_meta-Writes _ _) (λ _. commit-Settles _ _))))))))

  module _ (honest : IsHonest env.client) where
    pub op_push_create_folder-Careful : (o : PlanOperation) → Careful (op_push_create_folder env o)
    unfolding op_push_create_folder
    op_push_create_folder-Careful o = Careful-bind (of_option-Reads _ _ refl) (λ f.
        Careful-bind (of_option-Reads _ _ refl) (λ l.
          Careful-bind (of_option-Reads _ _ refl) (λ path. Careful-bind (current-Reads _) (λ rel.
            Careful-bind created_of-Reads (λ created.
              Careful-bind (of_option-Reads _ _ refl) (λ parent_id.
                Careful-bind (call-Reads _ (honest.on_create_folder _ _)) (λ fid.
                  Careful-bind (call-Reads _ (honest.on_get_folder _)) (λ check.
                    Careful-bind (stop_if-Reads _ _ refl) (λ _. Settles-Careful (
                      Settles-bind (write_meta-Writes _ _) (λ _.
                        Settles-bind (note_folder-Writes _ _) (λ _. commit-Settles _ _))))))))))))

    update_if_any-Reads : (fid : Text) (t p : Option Text) → Reads (update_if_any env fid t p)
    unfolding update_if_any
    update_if_any-Reads fid none none = done-Reads tt
    update_if_any-Reads fid none (some p) = call-Reads _ (honest.on_update_folder fid none (some p))
    update_if_any-Reads fid (some t) p = call-Reads _ (honest.on_update_folder fid (some t) p)

    pub op_push_update_folder-Careful : (o : PlanOperation) → Careful (op_push_update_folder env o)
    unfolding op_push_update_folder
    op_push_update_folder-Careful o = Careful-bind (of_option-Reads _ _ refl) (λ f.
        Careful-bind (of_option-Reads _ _ refl) (λ l. Careful-bind (of_option-Reads _ _ refl) (λ b.
          Careful-bind (of_option-Reads _ _ refl) (λ fid.
            Careful-bind (call-Reads _ (honest.on_get_folder _)) (λ found.
              Careful-bind (of_option-Reads _ _ refl) (λ there.
                Careful-bind (stop_if-Reads _ _ refl) (λ _.
                  Careful-bind (update_if_any-Reads _ _ _) (λ _.
                    Careful-bind (call-Reads _ (honest.on_get_folder _)) (λ check.
                      Careful-bind (of_option-Reads _ _ refl) (λ after.
                        Careful-bind (stop_if-Reads _ _ refl) (λ _.
                          Careful-bind (current-Reads _)
                            (λ rel. Settles-Careful (commit-Settles _ _)))))))))))))
