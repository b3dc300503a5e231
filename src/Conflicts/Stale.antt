-- ===== src/Conflicts/Stale.antt =====
-- `_validate_not_stale` of src/joplin_md_sync/conflicts.py: both sides have to be as the bundle recorded
-- them.
use joplin_md_sync.Base.{
  Bool, true, false, not, ◌&&◌, Option, none, some, map_some, get_or, is_present, [], ◌++◌, ◌==◌,
  nat_eq, list_eq, option_eq, if◌then◌else◌,
}
use joplin_md_sync.Base.Text.{Text, text}
use joplin_md_sync.Base.Dict.{lookup}
use joplin_md_sync.Canonical.{note_hashes}
use joplin_md_sync.Models.{NoteHashes, RemoteNote}
use joplin_md_sync.Planner.Draft.{combined_remote}
use joplin_md_sync.Metadata.{ParsedNoteFile, ParseResult, is_parsed, is_malformed}
use joplin_md_sync.Sync.Run.{concurrent, raised}
use joplin_md_sync.Sync.Bundle.{BundleMeta}
use joplin_md_sync.Sync.Act.{Env, Act, done, give_up, stop_if, files_of, ◌>>=◌, ◌>>◌}
use joplin_md_sync.Sync.Guards.{fetch_remote_canonical}

-- `meta.get("local_path") or ""`
abbrev pub bundle_path : BundleMeta → Text
bundle_path meta = get_or meta.local_path []

module _ {ℓ} {R : Type ℓ} (env : Env R) where
  -- A MetadataError is raised on.
  unfoldable pub parsed_or_raised : ParseResult → Act R ParsedNoteFile
  parsed_or_raised (is_parsed p) = done p
  parsed_or_raised (is_malformed m) = give_up (raised m)

  unfoldable pub parse_if_any : Option Text → Act R (Option ParsedNoteFile)
  parse_if_any none = done none
  parse_if_any (some raw) = parsed_or_raised (env.format.parse_note_file raw) >>= λ p. done (some p)

  -- `_current_local`, for a path that may be empty
  unfoldable pub current_local : Text → Act R (Option ParsedNoteFile)
  current_local rel =
      files_of >>= λ files. parse_if_any (if rel == [] then none else lookup rel files.texts)

  unfoldable pub check_remote : BundleMeta → Bool → Option RemoteNote → Act R (Unit {0})
  check_remote meta true found = stop_if (is_present found) (
      concurrent (
        text "remote note "
        ++ (meta.note_id
            ++ text " reappeared after the conflict was recorded; rerun sync to re-evaluate")))
  check_remote meta false found =
      stop_if
        (not (
          map_some (combined_remote env.rt) found
          == map_some (λ (h : NoteHashes). h.combined) meta.remote_hashes))
        (concurrent (
          text "remote note "
          ++ (meta.note_id
              ++ text
                  " changed after the conflict was recorded; rerun sync to create a fresh conflict")))

  -- The parent is not compared: it is that of the directory.
  unfoldable pub same_parts : ParsedNoteFile → Option NoteHashes → Bool
  same_parts p recorded =
      let now_there = note_hashes env.rt p.title p.body p.tags [] in
      some now_there.title_hash == map_some (λ (h : NoteHashes). h.title_hash) recorded
      && (some now_there.body_hash == map_some (λ (h : NoteHashes). h.body_hash) recorded
          && some now_there.tags_hash == map_some (λ (h : NoteHashes). h.tags_hash) recorded)

  unfoldable pub check_local : BundleMeta → Bool → Option ParsedNoteFile → Act R (Unit {0})
  check_local meta true found = stop_if (is_present found) (
      concurrent (
        text "local file "
        ++ (bundle_path meta ++ text " reappeared after the conflict was recorded")))
  check_local meta false none = give_up (
      concurrent (
        text "local file "
        ++ (bundle_path meta ++ text " disappeared after the conflict was recorded")))
  check_local meta false (some p) = stop_if (not (same_parts p meta.local_hashes)) (
      concurrent (
        text "local file "
        ++ (bundle_path meta
            ++ text
                " changed after the conflict was recorded; rerun sync to create a fresh conflict")))

  unfoldable pub validate_not_stale : BundleMeta → Act R (Unit {0})
  validate_not_stale meta = do
    remote ← fetch_remote_canonical env meta.note_id
    check_remote meta meta.remote_deleted remote
    local ← current_local (bundle_path meta)
    check_local meta meta.local_deleted local
