-- ===== src/Conflicts/Closes.antt =====
-- What `resolve_conflict` of src/joplin_md_sync/conflicts.py does to the conflict and its bundle.
use joplin_md_sync.Base.{
  ◌≡◌, refl, ap, ◌∙◌, Bool, true, false, not, Option, none, some, map_some, arith, nat_eq, list_eq,
  ◌==◌, if◌then◌else◌,
}
use joplin_md_sync.Base.Text.{Text}
use joplin_md_sync.Base.Dict.{Dict, lookup, lookup-erase}
use joplin_md_sync.State.{
  Store, ConflictRow, resolved, conflict_is_open, get_conflict, set_conflict_status, update_row,
}
use joplin_md_sync.State.Runs.{lookup-update_row}
use joplin_md_sync.Sync.Run.{Outcome}
use joplin_md_sync.Sync.Bundle.{BundleMeta}
use joplin_md_sync.Sync.Act.{
  Reply, value, stop, Env, ExecState, Act, done, of_option, stop_if, store_of, change_files,
  change_store, stored, and_then,
}
use joplin_md_sync.Sync.Honest.{IsHonest}
use joplin_md_sync.Conflicts.Resolve.{
  Mode, Resolution, update_store, remove_bundle, close_conflict, admit, resolve_by,
  resolve_conflict,
}
use joplin_md_sync.Conflicts.Spares.{Reads-Spares, admit-Reads, resolve_by-Spares}

-- The conflict is open.
abbrev pub IsOpen : Text → Store → Type 0
IsOpen cid s = map_some conflict_is_open (get_conflict cid s) ≡ some true

-- The end of a resolution: the conflict was open, and is closed, without a bundle; or nothing has
-- changed of any conflict and bundle.
abbrev pub Closes {ℓ} : {R : Type ℓ} → Text → ExecState R → Reply Resolution × ExecState R → Type 0
Closes cid s (value r, t) =
    IsOpen cid s.store
    × (map_some (λ (c : ConflictRow). c.status) (get_conflict cid t.store) ≡ some resolved)
    × (lookup cid t.files.bundles ≡ none)
Closes cid s (stop o, t) =
    (t.store.conflicts ≡ s.store.conflicts) × (t.files.bundles ≡ s.files.bundles)

module _ {ℓ} {R : Type ℓ} where
  -- What holds of the first state if a step goes on with a value.
  abbrev OnValue {κ} : {A : Type κ} → Type 0 → Reply A × ExecState R → Type 0
  OnValue P (value a, t) = P
  OnValue P (stop o, t) = Unit

  OnValue-any {κ} : {A : Type κ} (P : Type 0) (p : Reply A × ExecState R) → P → OnValue P p
  OnValue-any P (value a, t) h = h
  OnValue-any P (stop o, t) h = tt

  OnValue-of_option {κ μ} :
      {A : Type κ} {B : Type μ} (P : Type 0) (o : Outcome) (x : Option A) (k : A → Act R B)
      (s : ExecState R)
      → ((a : A) → x ≡ some a → OnValue P (k a s))
      → OnValue P (and_then k (of_option o x s))
  unfolding and_then of_option
  OnValue-of_option P o none k s h = tt
  OnValue-of_option P o (some a) k s h = h a refl

  OnValue-stop_if {κ} :
      {A : Type κ} (P : Type 0) (b : Bool) (o : Outcome) (k : Act R A) (s : ExecState R)
      → (b ≡ false → OnValue P (k s))
      → OnValue P (and_then (λ u. k) (stop_if b o s))
  unfolding and_then stop_if
  OnValue-stop_if P true o k s h = tt
  OnValue-stop_if P false o k s h = h refl

IsOpen-row :
    (cid : Text) (s : Store) (row : ConflictRow)
    → get_conflict cid s ≡ some row
    → not (conflict_is_open row) ≡ false
    → IsOpen cid s
IsOpen-row cid s row h n = rw h (ap some (ground arith))

closed_row :
    (cid : Text) (c : Dict Text ConflictRow)
    → map_some conflict_is_open (lookup cid c) ≡ some true
    → map_some
        (λ (r : ConflictRow). r.status)
        (lookup cid (update_row cid (λ (r : ConflictRow). record r { status = resolved }) c))
      ≡ some resolved
closed_row cid c h =
    ap (map_some (λ (r : ConflictRow). r.status)) (lookup-update_row cid cid _ c)
    ∙ go (lookup cid c) h
  where
    go :
        (o : Option ConflictRow)
        → map_some conflict_is_open o ≡ some true
        → map_some
            (λ (r : ConflictRow). r.status)
            (if cid == cid
              then map_some (λ (r : ConflictRow). record r { status = resolved }) o
              else o)
          ≡ some resolved
    go none h = absurd (ground arith)
    go (some row) h = ground arith

module _ {ℓ} {R : Type ℓ} (env : Env R) where
  -- Only an open conflict is admitted.
  admit-IsOpen : (cid : Text) (s : ExecState R) → OnValue (IsOpen cid s.store) (admit env cid s)
  unfolding admit and_then store_of
  admit-IsOpen cid s =
      OnValue-of_option (IsOpen cid s.store) _ (get_conflict cid s.store) _ s (λ row h.
        OnValue-stop_if (IsOpen cid s.store) (not (conflict_is_open row)) _ _ s
          (λ n. OnValue-any (IsOpen cid s.store) _ (IsOpen-row cid s.store row h n)))

  close_conflict-Closes :
      (cid : Text) (r : Resolution) (s t : ExecState R)
      → IsOpen cid s.store
      → t.store.conflicts ≡ s.store.conflicts
      → Closes cid s (close_conflict cid resolved r t)
  unfolding close_conflict done and_then update_store change_store stored change_files remove_bundle
      get_conflict set_conflict_status
  close_conflict-Closes cid r s t h e = (
    h,
    rw e (closed_row cid s.store.conflicts h),
    lookup-erase cid cid t.files.bundles ∙ ground arith,
  )

  module _ (honest : IsHonest env.client) where
    -- However `resolve_conflict` ends, in each mode: if it returns, the conflict was open, is now
    -- resolved, and its bundle is gone; if it raises, no conflict and no bundle has changed.
    -- Condition: no call of the client ends a handler as applied.
    pub resolve_conflict-Closes :
        (cid : Text) (mode : Mode) (s : ExecState R)
        → Closes cid s (resolve_conflict env cid mode s)
    unfolding resolve_conflict and_then
    resolve_conflict-Closes cid mode s =
        admitted (admit env cid s) ((Reads-Spares (admit-Reads env honest cid)).at s)
          (admit-IsOpen cid s)
      where
        resolved_by :
            (p : Reply Resolution × ExecState R)
            → (p.1.files.bundles ≡ s.files.bundles) × (p.1.store.conflicts ≡ s.store.conflicts)
            → IsOpen cid s.store
            → Closes cid s (and_then (close_conflict cid resolved) p)
        resolved_by (value r, t) (f, e) h = close_conflict-Closes cid r s t h e
        resolved_by (stop o, t) (f, e) h = (e, f)

        admitted :
            (p : Reply BundleMeta × ExecState R)
            → (p.1.files.bundles ≡ s.files.bundles) × (p.1.store.conflicts ≡ s.store.conflicts)
            → OnValue (IsOpen cid s.store) p
            → Closes cid s (
                and_then
                  (λ meta t. and_then (close_conflict cid resolved) (resolve_by env meta mode t))
                  p)
        admitted (value meta, t) (f, e) h =
            let (f', e') = (resolve_by-Spares env honest meta mode).at t in
            resolved_by (resolve_by env meta mode t) (f' ∙ f, e' ∙ e) h
        admitted (stop o, t) (f, e) h = (e, f)
