-- ===== src/Workspace/Rows.antt =====
-- Rows, names and metadata of a scan of src/joplin_md_sync/workspace.py.
use joplin_md_sync.Base.{
  ℕ, suc, ◌+◌, ◌≡◌, ◌≤◌, refl, Bool, true, false, Option, none, some, OnSome, List, [], ◌∷◌, ◌++◌,
  ◌==◌, contains, nat_eq, list_eq, Bool-cases, inl, inr, arith, if◌then◌else◌,
}
use joplin_md_sync.Base.Text.{Text, Lacks}
use joplin_md_sync.Base.Dict.{Dict, keys, insert}
use joplin_md_sync.Base.Sort.{All, IsDistinct}
use joplin_md_sync.Runtime.{Runtime}
use joplin_md_sync.Canonical.{canonicalize_tags}
use joplin_md_sync.Models.{LocalNoteFile, LocalFolderDir, LocalScan}
use joplin_md_sync.Json.{Json, null, boolean, integer, float, string, array, object}
use joplin_md_sync.Json.Scan.{loads}
use joplin_md_sync.Metadata.{JsonLib, is_valid_note_id}
use joplin_md_sync.Workspace.{
  FileText, readable, unreadable, Node, directory, Listing, no_children, child, FolderMeta,
  is_folder, is_broken, string_of, folder_with, id_and_title, folder_of_json, read_folder_meta,
}

-- How many directories a path names.
abbrev pub slashes : Text → ℕ
slashes [] = 0
slashes (c ∷ s) = if c == 47 then suc (slashes s) else slashes s

pub slashes-append : (s t : Text) → slashes (s ++ t) ≡ slashes s + slashes t
slashes-append [] t = omega arith
slashes-append (c ∷ s) t = ground (arith, slashes-append s t)

-- No name in the tree has a slash, as no file system gives one.
abbrev mutual
  pub IsNamed : Node → Type 0
  IsNamed (directory error listing) = AreNamed listing
  IsNamed _ = Unit

  pub AreNamed : Listing → Type 0
  AreNamed no_children = Unit
  AreNamed (child name node rest) = (slashes name ≡ 0) × IsNamed node × AreNamed rest

-- A note within 33 levels, in canonical form.
pub record IsScanned (rt : Runtime) (n : LocalNoteFile) : Type 0 where
  pub depth : slashes n.rel_path ≤ 32
  pub valid : OnSome (λ nid. is_valid_note_id nid ≡ true) n.note_id
  pub tags : canonicalize_tags rt n.tags ≡ n.tags
  pub body : Lacks 13 n.body

-- A notebook under its id: its path is one of those that were found.
abbrev pub IsKeyed : List Text → Text × LocalFolderDir → Type 0
IsKeyed paths x =
    (x.1.folder_id ≡ some x.0) × (slashes x.1.rel_path ≤ 32) × (contains paths x.1.rel_path ≡ true)

-- A notebook under its path: its id, if it has one, is one of those that were found.
abbrev pub IsPlaced : List Text → Text × LocalFolderDir → Type 0
IsPlaced ids x =
    (x.1.rel_path ≡ x.0)
    × (slashes x.0 ≤ 32)
    × OnSome (λ fid. contains ids fid ≡ true) x.1.folder_id

-- A notebook without an id.
abbrev pub IsCandidate : List Text → LocalFolderDir → Type 0
IsCandidate paths f =
    (f.folder_id ≡ none) × (slashes f.rel_path ≤ 32) × (contains paths f.rel_path ≡ true)

pub record IsSound (rt : Runtime) (scan : LocalScan) : Type 0 where
  pub notes : All (IsScanned rt) scan.notes
  pub ids : All (IsKeyed (keys scan.folders_by_path)) scan.folders_by_id
  pub distinct : IsDistinct (keys scan.folders_by_id)
  pub paths : All (IsPlaced (keys scan.folders_by_id)) scan.folders_by_path
  pub candidates : All (IsCandidate (keys scan.folders_by_path)) scan.candidate_folders

pub All-insert {ℓ} :
    {V : Type ℓ} (P : Text × V → Type 0) (k : Text) (v : V) (d : Dict Text V)
    → P (k, v)
    → All P d
    → All P (insert k v d)
unfolding insert
All-insert P k v [] p h = (p, tt)
All-insert P k v ((j, w) ∷ d) p h = elim (Bool-cases (k == j)) [
  | inl e ↦ rw e (p, h.1)
  | inr e ↦ rw e (h.0, All-insert P k v d p h.1)
]

-- A key stays, and the one that is inserted is there.
pub kept-keys-insert {ℓ} :
    {V : Type ℓ} (j k : Text) (v : V) (d : Dict Text V)
    → contains (keys d) j ≡ true
    → contains (keys (insert k v d)) j ≡ true
unfolding insert keys
kept-keys-insert j k v [] h = ground arith
kept-keys-insert j k v ((i, w) ∷ d) h = ground (arith, kept-keys-insert j k v d)

pub added-keys-insert {ℓ} :
    {V : Type ℓ} (k : Text) (v : V) (d : Dict Text V) → contains (keys (insert k v d)) k ≡ true
unfolding insert keys
added-keys-insert k v [] = ground arith
added-keys-insert k v ((i, w) ∷ d) = ground (arith, added-keys-insert k v d)

contains-keys-insert {ℓ} :
    {V : Type ℓ} (j k : Text) (v : V) (d : Dict Text V)
    → contains (keys d) j ≡ false
    → (j == k) ≡ false
    → contains (keys (insert k v d)) j ≡ false
unfolding insert keys
contains-keys-insert j k v [] h n = ground arith
contains-keys-insert j k v ((i, w) ∷ d) h n = ground (arith, contains-keys-insert j k v d)

pub IsDistinct-keys-insert {ℓ} :
    {V : Type ℓ} (k : Text) (v : V) (d : Dict Text V)
    → contains (keys d) k ≡ false
    → IsDistinct (keys d)
    → IsDistinct (keys (insert k v d))
unfolding insert keys
IsDistinct-keys-insert k v [] c h = (refl, tt)
IsDistinct-keys-insert k v ((i, w) ∷ d) c h =
    ground (arith, contains-keys-insert i k v d, IsDistinct-keys-insert k v d)

-- The metadata that is read is that of the directory.
abbrev pub IsAt : Text → FolderMeta → Type 0
IsAt rel (is_folder f) = f.rel_path ≡ rel
IsAt rel (is_broken m) = Unit

folder_with-IsAt : (rel parent : Text) (i t : Option Text) → IsAt rel (folder_with rel parent i t)
unfolding folder_with
folder_with-IsAt rel parent (some i) (some t) = refl
folder_with-IsAt rel parent (some i) none = tt
folder_with-IsAt rel parent none t = tt

module _ (lib : JsonLib) where
  id_and_title-IsAt :
      (rel parent : Text) (i t : Option Json) (ok : Bool) (meta : Dict Text Json)
      → IsAt rel (id_and_title lib rel parent i t ok meta)
  unfolding id_and_title
  id_and_title-IsAt rel parent none t ok meta = tt
  id_and_title-IsAt rel parent (some i) none ok meta = tt
  id_and_title-IsAt rel parent (some i) (some t) false meta = tt
  id_and_title-IsAt rel parent (some i) (some t) true meta =
      folder_with-IsAt rel parent (string_of i) (string_of t)

  folder_of_json-IsAt :
      (rel parent raw : Text) (o : Option Json) → IsAt rel (folder_of_json lib rel parent raw o)
  unfolding folder_of_json
  folder_of_json-IsAt rel parent raw none = tt
  folder_of_json-IsAt rel parent raw (some null) = tt
  folder_of_json-IsAt rel parent raw (some (boolean b)) = tt
  folder_of_json-IsAt rel parent raw (some (integer u)) = tt
  folder_of_json-IsAt rel parent raw (some (float u)) = tt
  folder_of_json-IsAt rel parent raw (some (string t)) = tt
  folder_of_json-IsAt rel parent raw (some (array vs)) = tt
  folder_of_json-IsAt rel parent raw (some (object fs)) = id_and_title-IsAt rel parent _ _ _ _

  pub read_folder_meta-IsAt :
      (name rel parent : Text) (o : Option FileText)
      → IsAt rel (read_folder_meta lib name rel parent o)
  unfolding read_folder_meta
  read_folder_meta-IsAt name rel parent none = refl
  read_folder_meta-IsAt name rel parent (some (unreadable m)) = tt
  read_folder_meta-IsAt name rel parent (some (readable raw)) =
      folder_of_json-IsAt rel parent raw (loads raw)
