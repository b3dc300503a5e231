-- ===== src/Planner/Plan/Safety.antt =====
-- Properties of single operations, carried over the whole of `build_plan` of
-- src/joplin_md_sync/planner.py.
pub mod Rules
use joplin_md_sync.Base.{
  ℕ, suc, ◌≡◌, refl, sym, ◌∙◌, ap, Bool, true, false, ◌&&◌, ◌||◌, Option, none, some, OnSome,
  map_some, List, [], ◌∷◌, ◌++◌, map, ◌==◌, contains, arith, if◌then◌else◌, Option-cases, inl, inr,
}
use mathlib.Core.Path.{subst}
use mathlib.Core.Option.{some-injective}
use joplin_md_sync.Base.Text.{Text}
use joplin_md_sync.Base.Sort.{All, All-append}
use joplin_md_sync.Runtime.{Runtime}
use joplin_md_sync.Models.{ItemState, FolderState, PlanOperation}
use joplin_md_sync.Planner.Classify.{Classification}
use joplin_md_sync.Planner.Draft.{Draft, refuse, nothing, op, Direction, pulls, pushes}
use joplin_md_sync.Planner.Plan.{
  Builder, op_id, emit, emit_all, build_plan, build_plan-eq-some, drafts, fresh, pull_folders,
  push_folders, folder_bases, note_drafts, ◌>>=◌,
}
use joplin_md_sync.Planner.Plan.Items.{plan_item}
use joplin_md_sync.Planner.Plan.Folders.{
  plan_create_dir, plan_update_dir, plan_create_folder, plan_update_folder, plan_folder_base,
  plan_folder_drop,
}

abbrev pub OnDraft {ℓ} : (PlanOperation → Type ℓ) → Draft → Type ℓ
OnDraft P refuse = Unit
OnDraft P nothing = Unit
OnDraft P (op o) = P o

-- A property that does not depend on the id holds of the plan if it holds of every draft.
module _ {ℓ} (P : PlanOperation → Type ℓ)
    (free : (o : PlanOperation) (id : Text) → P o → P (record o { op_id = id })) where
  All-plans {κ} :
      {A : Type κ} (plan : A → Draft) (xs : List A)
      → ((x : A) → OnDraft P (plan x))
      → All (OnDraft P) (map plan xs)
  All-plans plan [] h = tt
  All-plans plan (x ∷ xs) h = (h x, All-plans plan xs h)

  emit-All :
      (d : Draft) (b c : Builder) → OnDraft P d → All P b.ops → emit d b ≡ some c → All P c.ops
  unfolding emit
  emit-All refuse b c p h e = cc
  emit-All nothing b c p h e = subst (λ (x : Builder). All P x.ops) (some-injective b c e) h
  emit-All (op o) b c p h e =
      subst (λ (x : Builder). All P x.ops) (some-injective _ c e)
        (All-append P b.ops (record o { op_id = op_id (suc b.seq) } ∷ []) h (free o _ p, tt))

  emit_all-All :
      (ds : List Draft) (b c : Builder)
      → All (OnDraft P) ds
      → All P b.ops
      → emit_all ds b ≡ some c
      → All P c.ops
  unfolding emit_all
  emit_all-All [] b c p h e = subst (λ (x : Builder). All P x.ops) (some-injective b c e) h
  emit_all-All (d ∷ ds) b c p h e = elim (Option-cases (emit d b)) [
    | inl stop ↦ absurd (ground arith)
    | inr (b', go) ↦ emit_all-All ds b' c p.1 (emit-All d b b' p.0 h go) (rw go at e)
  ]

  module _ (rt : Runtime) (direction : Direction) (deletes : Bool) (c : Classification) where
    build_plan-All :
        (ops : List PlanOperation)
        → All (OnDraft P) (drafts rt direction deletes c)
        → build_plan rt direction deletes c ≡ some ops
        → All P ops
    build_plan-All ops p e =
        let (b, done, same) = build_plan-eq-some rt direction deletes c e in
        subst (All P) same (emit_all-All (drafts rt direction deletes c) fresh b p tt done)

    All-if :
        (b : Bool) (ds : List Draft)
        → (b ≡ true → All (OnDraft P) ds)
        → All (OnDraft P) (if b then ds else [])
    All-if true ds h = h refl
    All-if false ds h = tt

    pull_folders-All :
        ((f : FolderState) → OnDraft P (plan_create_dir f))
        → ((f : FolderState) → OnDraft P (plan_update_dir c.remote_folder_paths f f.local f.remote))
        → All (OnDraft P) (pull_folders rt direction deletes c)
    unfolding pull_folders
    pull_folders-All cd ud =
        All-append (OnDraft P) (map plan_create_dir _)
          (map (λ f. plan_update_dir c.remote_folder_paths f f.local f.remote) _)
          (All-plans plan_create_dir _ cd)
          (All-plans (λ f. plan_update_dir c.remote_folder_paths f f.local f.remote) _ ud)

    push_folders-All :
        ((f : FolderState) → OnDraft P (plan_create_folder f))
        → ((f : FolderState) → OnDraft P (plan_update_folder f))
        → All (OnDraft P) (push_folders rt direction deletes c)
    unfolding push_folders
    push_folders-All cf uf =
        All-append (OnDraft P) (map plan_create_folder _) (map plan_update_folder _)
          (All-plans plan_create_folder _ cf) (All-plans plan_update_folder _ uf)

    folder_bases-All :
        ((f : FolderState) → OnDraft P (plan_folder_base f))
        → ((f : FolderState) → OnDraft P (plan_folder_drop f))
        → All (OnDraft P) (folder_bases rt direction deletes c)
    unfolding folder_bases
    folder_bases-All fb fd =
        All-append (OnDraft P) (map plan_folder_base _) (map plan_folder_drop _)
          (All-plans plan_folder_base _ fb) (All-plans plan_folder_drop _ fd)

    note_drafts-All :
        ((i : ItemState)
          → OnDraft P
              (plan_item rt c.remote_folder_paths (pulls direction) (pushes direction) deletes i))
        → All (OnDraft P) (note_drafts rt direction deletes c)
    unfolding note_drafts
    note_drafts-All it =
        All-plans (plan_item rt c.remote_folder_paths (pulls direction) (pushes direction) deletes)
          c.items it

    -- One fact for each way to plan an operation.
    drafts-All :
        (pulls direction ≡ true → (f : FolderState) → OnDraft P (plan_create_dir f))
        → (pulls direction ≡ true
            → (f : FolderState)
            → OnDraft P (plan_update_dir c.remote_folder_paths f f.local f.remote))
        → (pushes direction ≡ true → (f : FolderState) → OnDraft P (plan_create_folder f))
        → (pushes direction ≡ true → (f : FolderState) → OnDraft P (plan_update_folder f))
        → ((f : FolderState) → OnDraft P (plan_folder_base f))
        → ((f : FolderState) → OnDraft P (plan_folder_drop f))
        → ((i : ItemState)
            → OnDraft P
                (plan_item rt c.remote_folder_paths (pulls direction) (pushes direction) deletes i))
        → All (OnDraft P) (drafts rt direction deletes c)
    unfolding drafts
    drafts-All cd ud cf uf fb fd it =
        let rest = folder_bases rt direction deletes c ++ note_drafts rt direction deletes c in
        let pushed = if pushes direction then push_folders rt direction deletes c else [] in
        All-append (OnDraft P) (if pulls direction then pull_folders rt direction deletes c else [])
          (pushed ++ rest) (All-if (pulls direction) _ (λ h. pull_folders-All (cd h) (ud h)))
          (All-append (OnDraft P) pushed rest
            (All-if (pushes direction) _ (λ h. push_folders-All (cf h) (uf h)))
            (All-append (OnDraft P) (folder_bases rt direction deletes c)
              (note_drafts rt direction deletes c) (folder_bases-All fb fd) (note_drafts-All it)))
