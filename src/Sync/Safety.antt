-- ===== src/Sync/Safety.antt =====
-- The rules of Sync/Careful applied to each handler of src/joplin_md_sync/sync.py.
use joplin_md_sync.Base.{refl, Option, none, some}
use joplin_md_sync.Base.Text.{Text}
use joplin_md_sync.Models.{
  FolderState, PlanOperation, OpKind, pull_create_dir, pull_update_dir, push_create_folder,
  push_update_folder, pull_create_local, pull_update_local, pull_delete_local, push_delete_remote,
  push_create_remote, push_update_remote, create_conflict, rebase, adopt_base, drop_base,
  normalize_local_path,
}
use joplin_md_sync.Journal.{truthy}
use joplin_md_sync.Sync.Act.{Env}
use joplin_md_sync.Sync.Handlers.{
  op_pull_create_local, op_pull_update_local, op_pull_delete_local, op_push_delete_remote,
  op_rebase_folder, op_rebase_note, op_rebase_of, op_rebase, drop_of, handler, op_drop_base,
  op_normalize_path,
}
use joplin_md_sync.Sync.Careful.{
  Careful, Settles-Careful, Careful-bind, Settles-bind, of_option-Reads, of_option-Writes,
  call-Reads, stop_if-Reads, files_of-Reads, files_of-Writes, change_files-Writes, commit-Settles,
}
use joplin_md_sync.Sync.Honest.{
  IsHonest, current-Reads, op_pull_create_dir-Careful, op_push_create_folder-Careful,
  op_push_update_folder-Careful,
}
use joplin_md_sync.Sync.Relocated.{CarefulAs, Careful-CarefulAs, op_pull_update_dir-CarefulAs}
use joplin_md_sync.Sync.Guarded.{
  guard_local-Reads, write_local_note-Writes, fetch_remote_canonical-Reads, guard_remote-Reads,
}
use joplin_md_sync.Sync.Pushed.{op_push_create_remote-Careful, op_push_update_remote-Careful}
use joplin_md_sync.Sync.Recording.{op_create_conflict-Careful}

module _ {ℓ} {R : Type ℓ} (env : Env R) where
  module _ (honest : IsHonest env.client) where
    op_pull_create_local-Careful : (o : PlanOperation) → Careful (op_pull_create_local env o)
    unfolding op_pull_create_local
    op_pull_create_local-Careful o = Careful-bind (of_option-Reads _ _ refl) (λ i.
        Careful-bind (of_option-Reads _ _ refl) (λ r.
          Careful-bind (of_option-Reads _ _ refl) (λ target.
            Careful-bind (current-Reads env _) (λ rel. Careful-bind files_of-Reads (λ files.
              Careful-bind (stop_if-Reads _ _ refl) (λ _.
                Careful-bind (fetch_remote_canonical-Reads env honest _) (λ found.
                  Careful-bind (of_option-Reads _ _ refl) (λ r'.
                    Careful-bind (stop_if-Reads _ _ refl) (λ _. Settles-Careful (
                      Settles-bind (write_local_note-Writes env _ _ _ _ _)
                        (λ _. commit-Settles _ _)))))))))))

    op_pull_update_local-Careful : (o : PlanOperation) → Careful (op_pull_update_local env o)
    unfolding op_pull_update_local
    op_pull_update_local-Careful o = Careful-bind (of_option-Reads _ _ refl) (λ i.
        Careful-bind (of_option-Reads _ _ refl) (λ planned.
          Careful-bind (of_option-Reads _ _ refl) (λ rel.
            Careful-bind (guard_local-Reads env o) (λ _.
              Careful-bind (guard_remote-Reads env honest o) (λ found.
                Careful-bind (of_option-Reads _ _ refl) (λ r.
                  Careful-bind (current-Reads env _) (λ old_rel.
                    Careful-bind (current-Reads env _) (λ new_rel. Settles-Careful (
                      Settles-bind (change_files-Writes _) (λ _.
                        Settles-bind (write_local_note-Writes env _ _ _ _ _) (λ _.
                          Settles-bind (change_files-Writes _) (λ _. commit-Settles _ _))))))))))))

    op_pull_delete_local-Careful : (o : PlanOperation) → Careful (op_pull_delete_local env o)
    unfolding op_pull_delete_local
    op_pull_delete_local-Careful o = Careful-bind (of_option-Reads _ _ refl) (λ i.
        Careful-bind (of_option-Reads _ _ refl) (λ b.
          Careful-bind (of_option-Reads _ _ refl) (λ path.
            Careful-bind (guard_local-Reads env o) (λ _. Careful-bind (current-Reads env _) (λ rel.
              Careful-bind (call-Reads _ (honest.on_get_any _)) (λ found.
                Careful-bind (stop_if-Reads _ _ refl) (λ _. Settles-Careful (
                  Settles-bind (change_files-Writes _) (λ _. Settles-bind files_of-Writes (λ files.
                    Settles-bind (of_option-Writes _ _ refl refl) (λ content.
                      Settles-bind (change_files-Writes _) (λ _. commit-Settles _ _))))))))))))

    op_push_delete_remote-Careful : (o : PlanOperation) → Careful (op_push_delete_remote env o)
    unfolding op_push_delete_remote
    op_push_delete_remote-Careful o = Careful-bind (of_option-Reads _ _ refl) (λ i.
        Careful-bind (of_option-Reads _ _ refl) (λ b.
          Careful-bind (of_option-Reads _ _ refl) (λ nid.
            Careful-bind (guard_remote-Reads env honest o) (λ _.
              Careful-bind (call-Reads _ (honest.on_delete_note _)) (λ _.
                Careful-bind (call-Reads _ (honest.on_get_any _)) (λ found.
                  Careful-bind (stop_if-Reads _ _ refl)
                    (λ _. Settles-Careful (commit-Settles _ _))))))))

    op_rebase_of-Careful :
        (f : Option FolderState) (o : PlanOperation) → Careful (op_rebase_of env f o)
    unfolding op_rebase_of op_rebase_folder op_rebase_note
    op_rebase_of-Careful (some f) o = Careful-bind (of_option-Reads _ _ refl) (λ src.
        Careful-bind (of_option-Reads _ _ refl)
          (λ fid. Careful-bind (current-Reads env _) (λ rel. Settles-Careful (commit-Settles _ _))))
    op_rebase_of-Careful none o = Careful-bind (of_option-Reads _ _ refl) (λ i.
        Careful-bind (of_option-Reads _ _ refl) (λ l.
          Careful-bind (of_option-Reads _ _ refl) (λ planned.
            Careful-bind (guard_local-Reads env o) (λ _.
              Careful-bind (guard_remote-Reads env honest o) (λ found.
                Careful-bind (of_option-Reads _ _ refl) (λ r.
                  Careful-bind (current-Reads env _)
                    (λ rel. Settles-Careful (commit-Settles _ _))))))))

    drop_of-Careful : (nid fid : Option Text) (o : PlanOperation) → Careful (drop_of env nid fid o)
    unfolding drop_of
    drop_of-Careful (some nid) fid o = Settles-Careful (commit-Settles _ _)
    drop_of-Careful none (some fid) o = Settles-Careful (commit-Settles _ _)
    drop_of-Careful none none o = Settles-Careful (commit-Settles _ _)

    op_normalize_path-Careful : (o : PlanOperation) → Careful (op_normalize_path env o)
    unfolding op_normalize_path
    op_normalize_path-Careful o = Careful-bind (of_option-Reads _ _ refl) (λ path.
        Careful-bind (of_option-Reads _ _ refl) (λ target.
          Careful-bind (of_option-Reads _ _ refl) (λ nid.
            Careful-bind (guard_local-Reads env o) (λ _.
              Careful-bind (current-Reads env _) (λ old_rel.
                Careful-bind (current-Reads env _) (λ new_rel.
                  Careful-bind (stop_if-Reads _ _ refl) (λ _. Careful-bind files_of-Reads (λ files.
                    Careful-bind (stop_if-Reads _ _ refl) (λ _.
                      Careful-bind (of_option-Reads _ _ refl) (λ content.
                        Settles-Careful
                          (Settles-bind (change_files-Writes _) (λ _. commit-Settles _ _))))))))))))

    -- Every handler of `execute` leaves the state database as it was unless the operation ends as
    -- applied, but for the pull of a notebook's change, which may also end with the paths in the
    -- database moved by `move_prefix`; and every handler leaves the workspace files, backups,
    -- quarantine and bundles as they were if it ends by a concurrent modification, whatever
    -- Joplin answers in between. Condition: no call of the client ends a handler as applied.
    pub handler-CarefulAs :
        (kind : OpKind) (o : PlanOperation) → CarefulAs kind (handler env kind o)
    unfolding handler op_rebase op_drop_base
    handler-CarefulAs pull_create_dir o =
        Careful-CarefulAs pull_create_dir (op_pull_create_dir-Careful env o)
    handler-CarefulAs pull_update_dir o = op_pull_update_dir-CarefulAs env o
    handler-CarefulAs push_create_folder o =
        Careful-CarefulAs push_create_folder (op_push_create_folder-Careful env honest o)
    handler-CarefulAs push_update_folder o =
        Careful-CarefulAs push_update_folder (op_push_update_folder-Careful env honest o)
    handler-CarefulAs pull_create_local o =
        Careful-CarefulAs pull_create_local (op_pull_create_local-Careful o)
    handler-CarefulAs pull_update_local o =
        Careful-CarefulAs pull_update_local (op_pull_update_local-Careful o)
    handler-CarefulAs pull_delete_local o =
        Careful-CarefulAs pull_delete_local (op_pull_delete_local-Careful o)
    handler-CarefulAs push_delete_remote o =
        Careful-CarefulAs push_delete_remote (op_push_delete_remote-Careful o)
    handler-CarefulAs rebase o = Careful-CarefulAs rebase (op_rebase_of-Careful o.folder_state o)
    handler-CarefulAs adopt_base o =
        Careful-CarefulAs adopt_base (op_rebase_of-Careful o.folder_state o)
    handler-CarefulAs drop_base o =
        Careful-CarefulAs drop_base (drop_of-Careful (truthy o.note_id) (truthy o.folder_id) o)
    handler-CarefulAs normalize_local_path o =
        Careful-CarefulAs normalize_local_path (op_normalize_path-Careful o)
    handler-CarefulAs push_create_remote o =
        Careful-CarefulAs push_create_remote (op_push_create_remote-Careful env honest o)
    handler-CarefulAs push_update_remote o =
        Careful-CarefulAs push_update_remote (op_push_update_remote-Careful env honest o)
    handler-CarefulAs create_conflict o =
        Careful-CarefulAs create_conflict (op_create_conflict-Careful env o)
