-- ===== src/Planner/Plan/Safety/Rules.antt =====
-- The rules of a plan: which kinds it may hold, and what an operation on a note carries.
use joplin_md_sync.Base.{
  ◌≡◌, refl, Bool, true, false, Option, none, some, OnSome, map_some, List, arith,
}
use joplin_md_sync.Base.Text.{Text}
use joplin_md_sync.Base.Dict.{Dict}
use joplin_md_sync.Base.Sort.{All}
use joplin_md_sync.Runtime.{Runtime}
use joplin_md_sync.Models.{
  Status, unchanged, local_modified, remote_modified, both_identical, conflict, local_new,
  remote_new, local_deleted, remote_deleted, both_deleted, delete_conflict, moved_local,
  moved_remote, metadata_modified, OpKind, ItemState, PlanOperation, pull_create_local,
  pull_update_local, pull_delete_local, pull_create_dir, pull_update_dir, push_create_remote,
  push_update_remote, push_delete_remote, push_create_folder, push_update_folder, rebase,
  adopt_base, create_conflict, drop_base, normalize_local_path,
}
use joplin_md_sync.Planner.Classify.{Classification}
use joplin_md_sync.Planner.Draft.{Direction, pulls, pushes, combined_local, combined_remote}
use joplin_md_sync.Planner.Plan.{build_plan}
use joplin_md_sync.Planner.Plan.Items.{
  plan_normalize, plan_pull_update, plan_pull_create, plan_pull_delete, plan_push_update,
  plan_push_create, plan_push_delete, plan_rebase, plan_drop, plan_conflict, plan_status, plan_item,
}
use joplin_md_sync.Planner.Plan.Folders.{
  plan_create_dir, plan_update_dir, plan_create_folder, plan_update_folder, plan_folder_base,
  plan_folder_drop,
}
use joplin_md_sync.Planner.Plan.Safety.{OnDraft, drafts-All, build_plan-All}

-- The kinds that write to Joplin; those that create, replace, rename or remove a workspace file or
-- directory to follow Joplin; and those that delete a note. The kinds that push write workspace
-- files too, for the id that Joplin gave or to set a file's path and header by what was pushed.
abbrev pub writes_joplin : OpKind → Bool
writes_joplin push_create_remote = true
writes_joplin push_update_remote = true
writes_joplin push_delete_remote = true
writes_joplin push_create_folder = true
writes_joplin push_update_folder = true
writes_joplin _ = false

abbrev pub follows_joplin : OpKind → Bool
follows_joplin pull_create_local = true
follows_joplin pull_update_local = true
follows_joplin pull_delete_local = true
follows_joplin pull_create_dir = true
follows_joplin pull_update_dir = true
follows_joplin normalize_local_path = true
follows_joplin _ = false

abbrev pub deletes_note : OpKind → Bool
deletes_note pull_delete_local = true
deletes_note push_delete_remote = true
deletes_note _ = false

pub record IsPermitted (direction : Direction) (propagate : Bool) (o : PlanOperation) : Type 0 where
  pub to_joplin : writes_joplin o.kind ≡ true → pushes direction ≡ true
  pub from_joplin : follows_joplin o.kind ≡ true → pulls direction ≡ true
  pub deletions : deletes_note o.kind ≡ true → propagate ≡ true

-- The statuses for which an operation on a note is planned.
abbrev pub fits : OpKind → Status → Bool
fits normalize_local_path unchanged = true
fits pull_update_local remote_modified = true
fits pull_update_local moved_remote = true
fits pull_create_local remote_new = true
fits pull_delete_local remote_deleted = true
fits push_update_remote local_modified = true
fits push_update_remote metadata_modified = true
fits push_update_remote moved_local = true
fits push_create_remote local_new = true
fits push_delete_remote local_deleted = true
fits rebase both_identical = true
fits adopt_base both_identical = true
fits drop_base both_deleted = true
fits create_conflict conflict = true
fits create_conflict delete_conflict = true
fits _ _ = false

-- The kinds that need the workspace file, and the note in Joplin, as they were planned from.
abbrev pub needs_local : OpKind → Bool
needs_local pull_update_local = true
needs_local pull_delete_local = true
needs_local push_update_remote = true
needs_local push_create_remote = true
needs_local normalize_local_path = true
needs_local rebase = true
needs_local adopt_base = true
needs_local create_conflict = true
needs_local _ = false

abbrev pub needs_remote : OpKind → Bool
needs_remote pull_update_local = true
needs_remote pull_create_local = true
needs_remote push_update_remote = true
needs_remote push_delete_remote = true
needs_remote rebase = true
needs_remote adopt_base = true
needs_remote create_conflict = true
needs_remote _ = false

-- The note gets its id when it is created.
abbrev pub is_push_create : OpKind → Bool
is_push_create push_create_remote = true
is_push_create _ = false

-- An operation planned for the item: it suits the status, names the note, and carries the hashes
-- of the sides that it reads or writes over.
pub record IsGuarded (rt : Runtime) (o : PlanOperation) (i : ItemState) : Type 0 where
  pub suits : fits o.kind i.status ≡ true
  pub names : is_push_create o.kind ≡ false → o.note_id ≡ i.note_id
  pub local_hash :
      needs_local o.kind ≡ true → o.expected_local_hash ≡ map_some (combined_local rt) i.local
  pub remote_hash :
      needs_remote o.kind ≡ true → o.expected_remote_hash ≡ map_some (combined_remote rt) i.remote

-- The kinds that are planned for notebooks.
abbrev pub on_folder : OpKind → Bool
on_folder pull_create_dir = true
on_folder pull_update_dir = true
on_folder push_create_folder = true
on_folder push_update_folder = true
on_folder adopt_base = true
on_folder drop_base = true
on_folder _ = false

-- An operation is planned for a note, and guarded, or else is one of those for notebooks.
abbrev pub OnNote : Runtime → PlanOperation → Type 0
OnNote rt o = OnSome (IsGuarded rt o) o.state × (o.state ≡ none → on_folder o.kind ≡ true)

item-OnNote :
    (rt : Runtime) (paths : Dict Text Text) (pull push deletes : Bool) (s : Status) (i : ItemState)
    → i.status ≡ s
    → OnDraft (OnNote rt) (plan_status rt paths pull push deletes s i)
unfolding plan_status plan_normalize plan_pull_update plan_pull_create plan_pull_delete
    plan_push_update plan_push_create plan_push_delete plan_rebase plan_drop plan_conflict
item-OnNote rt paths pull push deletes unchanged i e = ground arith
item-OnNote rt paths pull push deletes _ i e = ground arith

-- In a plan that is built, each operation for a note is of a kind that suits the status of its
-- item, names the note unless it creates the note in Joplin, and carries the hash of the
-- workspace file and that of the note in Joplin as they were planned from, for each kind that
-- needs that side (`needs_local`, `needs_remote`); an operation that is not for a note is of a
-- kind for notebooks.
pub build_plan-OnNote :
    (rt : Runtime) (direction : Direction) (deletes : Bool) (c : Classification)
    (ops : List PlanOperation)
    → build_plan rt direction deletes c ≡ some ops
    → All (OnNote rt) ops
unfolding plan_item plan_create_dir plan_update_dir plan_create_folder plan_update_folder
    plan_folder_base plan_folder_drop
build_plan-OnNote rt direction deletes c ops e =
    build_plan-All (OnNote rt) free rt direction deletes c ops
      (drafts-All (OnNote rt) free rt direction deletes c (λ h f. ground arith)
        (λ h f. ground arith) (λ h f. ground arith) (λ h f. ground arith) (λ f. ground arith)
        (λ f. ground arith)
        (λ i.
          item-OnNote rt c.remote_folder_paths (pulls direction) (pushes direction) deletes i.status
            i refl))
      e
  where
    free : (o : PlanOperation) (id : Text) → OnNote rt o → OnNote rt (record o { op_id = id })
    free o id h = (go o.state h.0, h.1)
      where
        go :
            (s : Option ItemState)
            → OnSome (IsGuarded rt o) s
            → OnSome (IsGuarded rt (record o { op_id = id })) s
        go none k = tt
        go (some i) k = record {
          suits = k.suits;
          names = k.names;
          local_hash = k.local_hash;
          remote_hash = k.remote_hash;
        }
