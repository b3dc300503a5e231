-- ===== src/Planner/Plan/Total.antt =====
-- The `assert`s of `build_plan` of src/joplin_md_sync/planner.py on what `classify` returns.
use joplin_md_sync.Base.{
  ◌≡◌, refl, Bool, true, false, some, List, [], ◌∷◌, ◌++◌, map, arith, if◌then◌else◌,
}
use joplin_md_sync.Base.Text.{Text}
use joplin_md_sync.Base.Dict.{Dict}
use joplin_md_sync.Base.Sort.{All, All-append, All-sort, All-every}
use joplin_md_sync.Runtime.{Runtime}
use joplin_md_sync.Models.{
  Status, unchanged, status_eq, ItemState, FolderState, PlanOperation, RemoteSnapshot, LocalScan,
  BaseNote, BaseFolder,
}
use joplin_md_sync.Planner.Classify.{Classification, classify}
use joplin_md_sync.Planner.Classify.Sides.{HasSides, ItemSides, FolderSides, classify-HasSides}
use joplin_md_sync.Planner.Draft.{Draft, refuse, nothing, op, Direction, pulls, pushes}
use joplin_md_sync.Planner.Plan.{
  Builder, emit, emit_all, select, path_leb, fresh, pull_folders, push_folders, folder_bases,
  note_drafts, drafts, build_plan,
}
use joplin_md_sync.Planner.Plan.Items.{
  plan_normalize, plan_pull_update, plan_pull_create, plan_pull_delete, plan_push_update,
  plan_push_create, plan_push_delete, plan_rebase, plan_drop, plan_conflict, plan_status, plan_item,
}
use joplin_md_sync.Planner.Plan.Folders.{
  plan_create_dir, plan_update_dir, plan_create_folder, plan_update_folder, plan_folder_base,
  plan_folder_drop,
}

abbrev IsPlanned : Draft → Type 0
IsPlanned refuse = ⊥
IsPlanned nothing = Unit
IsPlanned (op o) = Unit

emit_all-total :
    (ds : List Draft) (b : Builder) → All IsPlanned ds → (c : Builder) × (emit_all ds b ≡ some c)
unfolding emit_all emit
emit_all-total [] b h = (b, refl)
emit_all-total (refuse ∷ ds) b h = absurd h.0
emit_all-total (nothing ∷ ds) b h = emit_all-total ds b h.1
emit_all-total (op o ∷ ds) b h = emit_all-total ds _ h.1

-- The drafts of the folders that are selected.
All-selected :
    (keep : FolderState → Bool) (plan : FolderState → Draft) (fs : List FolderState)
    → All FolderSides fs
    → ((f : FolderState) → keep f ≡ true → FolderSides f → IsPlanned (plan f))
    → All (λ f. IsPlanned (plan f)) (select keep fs)
unfolding select
All-selected keep plan [] h good = tt
All-selected keep plan (f ∷ fs) h good = ground (arith, good f, All-selected keep plan fs h.1 good)

All-IsPlanned :
    {A : Type 0} (plan : A → Draft) (xs : List A)
    → All (λ x. IsPlanned (plan x)) xs
    → All IsPlanned (map plan xs)
All-IsPlanned plan [] h = tt
All-IsPlanned plan (x ∷ xs) h = (h.0, All-IsPlanned plan xs h.1)

item-IsPlanned :
    (rt : Runtime) (paths : Dict Text Text) (pull push deletes : Bool) (s : Status) (i : ItemState)
    → HasSides s i.local i.remote
    → IsPlanned (plan_status rt paths pull push deletes s i)
unfolding plan_status plan_normalize plan_pull_update plan_pull_create plan_pull_delete
    plan_push_update plan_push_create plan_push_delete plan_rebase plan_drop plan_conflict
item-IsPlanned rt paths pull push deletes unchanged i h = ground arith
item-IsPlanned rt paths pull push deletes _ i h = ground arith

items-IsPlanned :
    (rt : Runtime) (paths : Dict Text Text) (pull push deletes : Bool) (is : List ItemState)
    → All ItemSides is
    → All IsPlanned (map (plan_item rt paths pull push deletes) is)
unfolding plan_item
items-IsPlanned rt paths pull push deletes [] h = tt
items-IsPlanned rt paths pull push deletes (i ∷ is) h = (
  item-IsPlanned rt paths pull push deletes i.status i h.0,
  items-IsPlanned rt paths pull push deletes is h.1,
)

module _ (rt : Runtime) (direction : Direction) (deletes : Bool) (c : Classification)
    (folders : All FolderSides c.folder_items) where
  All-if : (b : Bool) (ds : List Draft) → All IsPlanned ds → All IsPlanned (if b then ds else [])
  All-if true ds h = h
  All-if false ds h = tt

  pull_folders-IsPlanned : All IsPlanned (pull_folders rt direction deletes c)
  unfolding pull_folders plan_create_dir plan_update_dir
  pull_folders-IsPlanned =
      All-append IsPlanned (map plan_create_dir _)
        (map (λ f. plan_update_dir c.remote_folder_paths f f.local f.remote) _)
        (All-IsPlanned plan_create_dir _ (
          All-sort _ path_leb _
            (All-selected _ plan_create_dir c.folder_items folders (λ f s h. ground arith))))
        (All-IsPlanned (λ f. plan_update_dir c.remote_folder_paths f f.local f.remote) _
          (All-selected _ _ c.folder_items folders (λ f s h. ground arith)))

  push_folders-IsPlanned : All IsPlanned (push_folders rt direction deletes c)
  unfolding push_folders plan_create_folder plan_update_folder
  push_folders-IsPlanned =
      All-append IsPlanned (map plan_create_folder _) (map plan_update_folder _)
        (All-IsPlanned plan_create_folder _ (All-every _ (λ f. tt) _))
        (All-IsPlanned plan_update_folder _
          (All-selected _ plan_update_folder c.folder_items folders (λ f s h. ground arith)))

  folder_bases-IsPlanned : All IsPlanned (folder_bases rt direction deletes c)
  unfolding folder_bases plan_folder_base plan_folder_drop
  folder_bases-IsPlanned =
      All-append IsPlanned (map plan_folder_base _) (map plan_folder_drop _)
        (All-IsPlanned plan_folder_base _ (All-every _ (λ f. tt) _))
        (All-IsPlanned plan_folder_drop _ (All-every _ (λ f. tt) _))

  drafts-IsPlanned : All ItemSides c.items → All IsPlanned (drafts rt direction deletes c)
  unfolding drafts note_drafts
  drafts-IsPlanned items =
      let rest = folder_bases rt direction deletes c ++ note_drafts rt direction deletes c in
      let pushed = if pushes direction then push_folders rt direction deletes c else [] in
      All-append IsPlanned (if pulls direction then pull_folders rt direction deletes c else [])
        (pushed ++ rest) (All-if (pulls direction) _ pull_folders-IsPlanned)
        (All-append IsPlanned pushed rest (All-if (pushes direction) _ push_folders-IsPlanned) (
          All-append IsPlanned (folder_bases rt direction deletes c)
            (note_drafts rt direction deletes c) folder_bases-IsPlanned
            (items-IsPlanned rt _ _ _ _ c.items items)))

-- A plan is built from every classification that `classify` makes, in each direction and with or
-- without deletions: no `assert` of `build_plan` fails.
pub build_plan-total :
    (rt : Runtime) (direction : Direction) (deletes : Bool) (open_ids : List Text)
    (bn : Dict Text BaseNote) (bf : Dict Text BaseFolder) (scan : LocalScan)
    (snapshot : RemoteSnapshot)
    → (ops : List PlanOperation) × (build_plan rt direction deletes
          (classify rt open_ids bn bf scan snapshot)
        ≡ some ops)
unfolding build_plan
build_plan-total rt direction deletes open_ids bn bf scan snapshot =
    let c = classify rt open_ids bn bf scan snapshot in
    let sides = classify-HasSides rt open_ids bn bf scan snapshot in
    let (b, done) =
      emit_all-total (drafts rt direction deletes c) fresh
        (drafts-IsPlanned rt direction deletes c sides.1 sides.0) in
    (b.ops, rw done)
