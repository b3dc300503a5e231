-- ===== src/Workspace/Sound.antt =====
-- What a scan of src/joplin_md_sync/workspace.py holds: where its files stand, and what its notes and
-- ids are.
use joplin_md_sync.Base.{ℕ, ◌+◌, ◌≡◌, Option, list_eq}
use joplin_md_sync.Base.Text.{Text}
use joplin_md_sync.Base.Dict.{Dict}
use joplin_md_sync.Runtime.{Runtime, IsStableCase}
use joplin_md_sync.Models.{LocalScan}
use joplin_md_sync.Metadata.{JsonLib}
use joplin_md_sync.Workspace.{Listing}
use joplin_md_sync.Workspace.Rows.{slashes, AreNamed, IsSound}

-- The steps of the scan keep it sound.
module _ (rt : Runtime) (law : IsStableCase rt) (lib : JsonLib) where
  -- What is asked of a step down: it is given one level less.
  abbrev KeepsBelow : (Option Text → Listing → Text → Text → LocalScan → LocalScan) → ℕ → Type 0
  KeepsBelow descend n =
      (error : Option Text) (listing : Listing) (parent prefix : Text) (s : LocalScan)
      → slashes prefix + n ≡ 33
      → AreNamed listing
      → IsSound rt s
      → IsSound rt (descend error listing parent prefix s)
