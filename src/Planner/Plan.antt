-- ===== src/Planner/Plan.antt =====
-- `build_plan` of planner.py: a classification turned into an ordered list of operations.
pub mod Items
pub mod Folders
pub mod Ids
pub mod Safety
pub mod Total
use joplin_md_sync.Base.{
  ℕ, suc, ◌+◌, ◌≡◌, refl, Bool, true, false, ◌&&◌, ◌||◌, not, Option, none, some, get_or,
  is_present, List, [], ◌∷◌, ◌++◌, map, ◌==◌, if◌then◌else◌,
}
use joplin_md_sync.Base.Text.{Text, text, text_leb}
use joplin_md_sync.Base.Sort.{sort}
use joplin_md_sync.Base.Numbers.Decimal.{padded}
use joplin_md_sync.Runtime.{Runtime}
use joplin_md_sync.Models.{
  Status, status_eq, both_identical, folder_local_new, folder_remote_new, folder_local_modified,
  folder_remote_modified, folder_local_deleted, ItemState, FolderState, PlanOperation,
}
use joplin_md_sync.Planner.Classify.{Classification}
use joplin_md_sync.Planner.Draft.{Draft, refuse, nothing, op, Direction, pulls, pushes}
use Items.{plan_item}
use Folders.{
  plan_create_dir, plan_update_dir, plan_create_folder, plan_update_folder, plan_folder_base,
  plan_folder_drop,
}

-- The operations so far, and the last number given.
pub record Builder : Type 0 where
  pub ops : List PlanOperation
  pub seq : ℕ

-- f"op-{seq:04d}"
unfoldable pub op_id : ℕ → Text
op_id n = text "op-" ++ padded 4 n

-- `ops.append(new_op(...))`, or the end of the run if an `assert` fails
unfoldable pub emit : Draft → Builder → Option Builder
emit refuse b = none
emit nothing b = some b
emit (op o) b =
    some (record { ops = b.ops ++ (record o { op_id = op_id (suc b.seq) } ∷ []); seq = suc b.seq })

abbrev pub fresh : Builder
fresh = record { ops = []; seq = 0 }

infixl 5 ◌>>=◌
abbrev pub ◌>>=◌ {ℓ κ} : {A : Type ℓ} {B : Type κ} → Option A → (A → Option B) → Option B
none >>= f = none
some a >>= f = f a

pub >>=-eq-some {ℓ κ} :
    {A : Type ℓ} {B : Type κ} {f : A → B} (m : Option A) {y : B}
    → (m >>= λ x. some (f x)) ≡ some y
    → (x : A) × (m ≡ some x) × (f x ≡ y)
>>=-eq-some none h = cc
>>=-eq-some (some x) h = (x, refl, cc)

unfoldable pub emit_all : List Draft → Builder → Option Builder
emit_all [] b = some b
emit_all (d ∷ ds) b = emit d b >>= emit_all ds

-- The items that a generator expression lets through.
unfoldable pub select {ℓ} : {A : Type ℓ} → (A → Bool) → List A → List A
select keep [] = []
select keep (x ∷ xs) = let rest = select keep xs in if keep x then x ∷ rest else rest

abbrev pub has_status : Status → FolderState → Bool
has_status s f = f.status == s

-- `key=lambda f: f.rel_path or ""`
unfoldable pub path_leb : FolderState → FolderState → Bool
path_leb f g = text_leb (get_or f.rel_path []) (get_or g.rel_path [])

module _ (rt : Runtime) (direction : Direction) (propagate_deletes : Bool)
    (c : Classification) where
  unfoldable pub pull_folders : List Draft
  pull_folders =
      map plan_create_dir (sort path_leb (select (has_status folder_remote_new) c.folder_items))
      ++ map (λ f. plan_update_dir c.remote_folder_paths f f.local f.remote)
          (select (has_status folder_remote_modified) c.folder_items)

  unfoldable pub push_folders : List Draft
  push_folders =
      map plan_create_folder (sort path_leb (select (has_status folder_local_new) c.folder_items))
      ++ map plan_update_folder (select (has_status folder_local_modified) c.folder_items)

  unfoldable pub folder_bases : List Draft
  folder_bases =
      map plan_folder_base (select (has_status both_identical) c.folder_items)
      ++ map plan_folder_drop (
          select
            (λ f.
              f.status == folder_local_deleted && (not (is_present f.remote) && is_present f.base))
            c.folder_items)

  unfoldable pub note_drafts : List Draft
  note_drafts =
      map
        (plan_item rt c.remote_folder_paths (pulls direction) (pushes direction) propagate_deletes)
        c.items

  unfoldable pub drafts : List Draft
  drafts =
      (if pulls direction then pull_folders else [])
      ++ ((if pushes direction then push_folders else []) ++ (folder_bases ++ note_drafts))

  -- `none` if an `assert` fails
  unfoldable pub build_plan : Option (List PlanOperation)
  build_plan = emit_all drafts fresh >>= λ b. some b.ops

  -- The loop behind a plan that was built.
  pub build_plan-eq-some :
      {ops : List PlanOperation}
      → build_plan ≡ some ops
      → (b : Builder) × (emit_all drafts fresh ≡ some b) × (b.ops ≡ ops)
  unfolding build_plan
  build_plan-eq-some h = >>=-eq-some {f = λ b. b.ops} (emit_all drafts fresh) h
