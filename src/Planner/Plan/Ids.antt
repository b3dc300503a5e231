-- ===== src/Planner/Plan/Ids.antt =====
-- The ids that `build_plan` of src/joplin_md_sync/planner.py gives to its operations.
use joplin_md_sync.Base.{
  ℕ, zero, suc, ◌<◌, ◌≡◌, refl, ap, Bool, false, some, List, [], ◌∷◌, ◌++◌, map, contains, list_eq,
  nat_eq, arith, Option-cases, inl, inr,
}
use joplin_md_sync.Base.Text.{Text, text}
use joplin_md_sync.Base.Sort.{IsDistinct, IsDistinct-append_one, contains-append}
use joplin_md_sync.Base.Numbers.Decimal.{padded_inj}
use joplin_md_sync.Runtime.{Runtime}
use joplin_md_sync.Models.{PlanOperation}
use joplin_md_sync.Planner.Classify.{Classification}
use joplin_md_sync.Planner.Draft.{Draft, refuse, nothing, op, Direction}
use joplin_md_sync.Planner.Plan.{
  Builder, op_id, emit, emit_all, fresh, build_plan, build_plan-eq-some, drafts,
}

abbrev pub ids_of : List PlanOperation → List Text
ids_of = map (λ o. o.op_id)

-- "op-0001" up to the given number
abbrev pub ids_upto : ℕ → List Text
ids_upto zero = []
ids_upto (suc n) = ids_upto n ++ (op_id (suc n) ∷ [])

op_id_inj : (m n : ℕ) → op_id m ≡ op_id n → m ≡ n
unfolding op_id text
op_id_inj m n h = padded_inj 4 m n (cc)

contains-ids_upto : (n m : ℕ) → n < m → contains (ids_upto n) (op_id m) ≡ false
contains-ids_upto zero m h = refl
contains-ids_upto (suc n) m h =
    rw
      (
        contains-append (op_id m) (ids_upto n) (op_id (suc n) ∷ []),
        contains-ids_upto n m (omega arith),
      )
      (ground (arith, op_id_inj m (suc n)))

ids_upto-IsDistinct : (n : ℕ) → IsDistinct (ids_upto n)
ids_upto-IsDistinct zero = tt
ids_upto-IsDistinct (suc n) =
    IsDistinct-append_one (op_id (suc n)) (ids_upto n) (contains-ids_upto n (suc n) (omega arith))
      (ids_upto-IsDistinct n)

ids_of-append_one :
    (os : List PlanOperation) (o : PlanOperation)
    → ids_of (os ++ (o ∷ [])) ≡ ids_of os ++ (o.op_id ∷ [])
ids_of-append_one [] o = refl
ids_of-append_one (p ∷ os) o = ap (λ r. p.op_id ∷ r) (ids_of-append_one os o)

abbrev IsNumbered : Builder → Type 0
IsNumbered b = ids_of b.ops ≡ ids_upto b.seq

emit-IsNumbered : (d : Draft) (b c : Builder) → IsNumbered b → emit d b ≡ some c → IsNumbered c
unfolding emit
emit-IsNumbered refuse b c h e = cc
emit-IsNumbered nothing b c h e = ground arith
emit-IsNumbered (op o) b c h e =
    let added = ids_of-append_one b.ops (record o { op_id = op_id (suc b.seq) }) in
    ground (arith, added)

emit_all-IsNumbered :
    (ds : List Draft) (b c : Builder) → IsNumbered b → emit_all ds b ≡ some c → IsNumbered c
unfolding emit_all
emit_all-IsNumbered [] b c h e = ground arith
emit_all-IsNumbered (d ∷ ds) b c h e = elim (Option-cases (emit d b)) [
  | inl stop ↦ absurd (ground arith)
  | inr (b', go) ↦ emit_all-IsNumbered ds b' c (emit-IsNumbered d b b' h go) (rw go at e)
]

module _ (rt : Runtime) (direction : Direction) (deletes : Bool) (c : Classification) where
  -- The ids are "op-0001", "op-0002" and so on, in the order of the plan.
  pub build_plan-numbered :
      (ops : List PlanOperation)
      → build_plan rt direction deletes c ≡ some ops
      → (n : ℕ) × (ids_of ops ≡ ids_upto n)
  build_plan-numbered ops e =
      let (b, done, same) = build_plan-eq-some rt direction deletes c e in
      (b.seq, rw same at (emit_all-IsNumbered (drafts rt direction deletes c) fresh b refl done))

  -- No two operations of a plan that is built have the same id.
  pub build_plan-IsDistinct :
      (ops : List PlanOperation)
      → build_plan rt direction deletes c ≡ some ops
      → IsDistinct (ids_of ops)
  build_plan-IsDistinct ops e =
      let (n, h) = build_plan-numbered ops e in rw h (ids_upto-IsDistinct n)
