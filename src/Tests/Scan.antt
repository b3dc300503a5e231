-- ===== src/Tests/Scan.antt =====
-- A scan of a small tree.
use joplin_md_sync.Base.{none, list_eq}
use joplin_md_sync.Base.Text.{text}
use joplin_md_sync.Workspace.{readable, directory, file, symlink, Listing, no_children, child}

abbrev tree : Listing
tree =
    child (text "Work")
      (directory none (
        child (text "b.md") (file (readable (text "new"))) (
          child (text ".joplin-folder.json")
            (file (readable (text "{\"id\":\"f\",\"schema\":1,\"title\":\"Work\"}"))) no_children)))
      (child (text "a.md") (file (readable (text "lost")))
        (child (text "l") (symlink none) no_children))
