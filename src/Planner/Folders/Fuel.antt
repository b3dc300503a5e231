-- ===== src/Planner/Folders/Fuel.antt =====
-- The bound on the depth of the walk in `_remote_folder_paths` of src/joplin_md_sync/planner.py.
use mathlib.Core.Path.{subst}
use mathlib.Core.List.{append_assoc}
use joplin_md_sync.Base.{
  ℕ, zero, suc, ◌+◌, ◌<◌, ◌≤◌, ◌≡◌, refl, ap, Bool, true, false, some, get_or, List, [], ◌∷◌, ◌++◌,
  map, ◌==◌, contains, nat_eq, list_eq, arith, if◌then◌else◌, Bool-cases, inl, inr,
}
use joplin_md_sync.Base.Text.{Text, length}
use joplin_md_sync.Base.Dict.{Dict, lookup, values, lookup-insert}
use joplin_md_sync.Base.Sort.{All, All-append, All-sort}
use joplin_md_sync.Runtime.{Runtime}
use joplin_md_sync.Models.{RemoteFolder, RemoteSnapshot}
use joplin_md_sync.Planner.Folders.{
  Children, parent_in, group, folder_leb, walk_siblings, walk, remote_folder_paths,
}

-- How many of the ids are not in `seen`.
unseen : List Text → List Text → ℕ
unseen [] seen = 0
unseen (x ∷ ids) seen = if contains seen x then unseen ids seen else suc (unseen ids seen)

unseen-cons-le : (ids seen : List Text) (x : Text) → unseen ids (x ∷ seen) ≤ unseen ids seen
unfolding unseen
unseen-cons-le [] seen x = omega arith
unseen-cons-le (y ∷ ids) seen x = ground (arith, unseen-cons-le ids seen x)

unseen-cons-lt :
    (ids seen : List Text) (x : Text)
    → contains ids x ≡ true
    → contains seen x ≡ false
    → unseen ids (x ∷ seen) < unseen ids seen
unfolding unseen
unseen-cons-lt [] seen x h new = cc
unseen-cons-lt (y ∷ ids) seen x h new =
    ground (arith, unseen-cons-lt ids seen x, unseen-cons-le ids seen x)

unseen-le : (ids : List Text) → unseen ids [] ≤ length ids
unfolding unseen
unseen-le [] = omega arith
unseen-le (x ∷ ids) = omega (arith, unseen-le ids)

module _ (rt : Runtime) (ids : List Text) where
  abbrev IsKnownFolder : RemoteFolder → Type 0
  IsKnownFolder f = contains ids f.id ≡ true

  abbrev AreKnown : Children → Type 0
  AreKnown children = (p : Text) → All IsKnownFolder (get_or (lookup p children) [])

  group-AreKnown :
      (folders : Dict Text RemoteFolder) (fs : List RemoteFolder) (children : Children)
      → All IsKnownFolder fs
      → AreKnown children
      → AreKnown (group folders fs children)
  unfolding group
  group-AreKnown folders [] children k h = h
  group-AreKnown folders (f ∷ fs) children k h =
      let q = parent_in folders f in
      let more =
        All-append IsKnownFolder (get_or (lookup q children) []) (f ∷ []) (h q) (k.0, tt) in
      group-AreKnown folders fs _ k.1
        (λ p. rw lookup-insert (go (p == q) (get_or (lookup q children) [] ++ (f ∷ [])) p more))
    where
      go :
          (b : Bool) (fs : List RemoteFolder) (p : Text)
          → All IsKnownFolder fs
          → All IsKnownFolder (get_or (if b then some fs else lookup p children) [])
      go true fs p m = m
      go false fs p m = h p

  abbrev SameVisit :
      (visit visit' : Text → Text → Dict Text Text → Dict Text Text)
      → List Text
      → RemoteFolder
      → Type 0
  SameVisit visit visit' seen f =
      contains seen f.id ≡ false
      → (prefix : Text) (paths : Dict Text Text)
      → visit f.id prefix paths ≡ visit' f.id prefix paths

  -- The loop over siblings calls `visit` on folders that it has not seen, and on no other.
  walk_siblings_same :
      (visit visit' : Text → Text → Dict Text Text → Dict Text Text) (prefix : Text)
      (seen : List Text) (fs : List RemoteFolder) (taken : List Text) (paths : Dict Text Text)
      → All (SameVisit visit visit' seen) fs
      → walk_siblings rt visit prefix seen fs taken paths
        ≡ walk_siblings rt visit' prefix seen fs taken paths
  unfolding walk_siblings
  walk_siblings_same visit visit' prefix seen [] taken paths h = refl
  walk_siblings_same visit visit' prefix seen (f ∷ fs) taken paths h =
      elim (Bool-cases (contains seen f.id)) [
        | inl old ↦ rw (old) (walk_siblings_same visit visit' prefix seen fs _ _ h.1)
        | inr new ↦ rw (new, h.0 new) (walk_siblings_same visit visit' prefix seen fs _ _ h.1)
      ]

  All-SameVisit :
      (visit visit' : Text → Text → Dict Text Text → Dict Text Text) (seen : List Text)
      (fs : List RemoteFolder)
      → All IsKnownFolder fs
      → ((x : Text)
          → contains ids x ≡ true
          → contains seen x ≡ false
          → (prefix : Text) (paths : Dict Text Text) → visit x prefix paths ≡ visit' x prefix paths)
      → All (SameVisit visit visit' seen) fs
  All-SameVisit visit visit' seen [] k h = tt
  All-SameVisit visit visit' seen (f ∷ fs) k h =
      (h f.id k.0, All-SameVisit visit visit' seen fs k.1 h)

  module _ (children : Children) (known : AreKnown children) where
    -- With fuel above the number of unseen folders, more fuel changes nothing.
    walk_same :
        (m n : ℕ) (parent_id prefix : Text) (seen : List Text) (paths : Dict Text Text)
        → unseen ids seen < m
        → unseen ids seen < n
        → walk rt m children parent_id prefix seen paths
          ≡ walk rt n children parent_id prefix seen paths
    unfolding walk
    walk_same zero n parent_id prefix seen paths hm hn = elim hm [ ]
    walk_same (suc m) zero parent_id prefix seen paths hm hn = elim hn [ ]
    walk_same (suc m) (suc n) parent_id prefix seen paths hm hn =
        walk_siblings_same _ _ prefix seen _ [] paths (
          All-SameVisit _ _ seen _ (All-sort IsKnownFolder folder_leb _ (known parent_id))
            (λ x k new prefix' paths'.
              walk_same m n x prefix' (x ∷ seen) paths'
                (omega (arith, unseen-cons-lt ids seen x k new))
                (omega (arith, unseen-cons-lt ids seen x k new))))

ids_of : List RemoteFolder → List Text
ids_of = map (λ f. f.id)

length-ids_of : (fs : List RemoteFolder) → length (ids_of fs) ≡ length fs
unfolding ids_of
length-ids_of [] = refl
length-ids_of (f ∷ fs) = ap suc (length-ids_of fs)

contains-ids_of :
    (ids : List Text) (fs : List RemoteFolder)
    → All (λ f. contains (ids ++ ids_of fs) f.id ≡ true) fs
unfolding ids_of
contains-ids_of ids [] = tt
contains-ids_of ids (f ∷ fs) = (
  mid ids,
  subst (λ r. All (λ g. contains r g.id ≡ true) fs) (append_assoc ids (f.id ∷ []) (ids_of fs))
      (contains-ids_of (ids ++ (f.id ∷ [])) fs),
)
  where
    mid : (xs : List Text) → contains (xs ++ (f.id ∷ ids_of fs)) f.id ≡ true
    mid [] = ground arith
    mid (x ∷ xs) = ground (arith, mid xs)

-- A walk over the remote notebooks with any greater bound on the depth finds the same paths as
-- `remote_folder_paths`, also where the parents form a cycle: the bound cuts nothing off.
pub remote_folder_paths-deeper :
    (rt : Runtime) (snapshot : RemoteSnapshot) (k : ℕ)
    → walk rt
        (suc (length (values snapshot.folders)) + k)
        (group snapshot.folders (values snapshot.folders) [])
        []
        []
        []
        []
      ≡ remote_folder_paths rt snapshot
unfolding remote_folder_paths lookup
remote_folder_paths-deeper rt snapshot k =
    let fs = values snapshot.folders in
    let enough : unseen (ids_of fs) [] < suc (length fs) =
      omega (arith, unseen-le (ids_of fs), length-ids_of fs) in
    walk_same rt (ids_of fs) (group snapshot.folders fs [])
      (group-AreKnown rt (ids_of fs) snapshot.folders fs [] (contains-ids_of [] fs) (λ p. tt))
      (suc (length fs) + k) (suc (length fs)) [] [] [] [] (omega arith) (omega arith)
