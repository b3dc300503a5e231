-- ===== src/Sync/Guards.antt =====
-- The helpers and guards of `Executor` in src/joplin_md_sync/sync.py, which its handlers begin with:
-- a guard ends the handler if a side is not as it was planned from. Writing a file succeeds.
use joplin_md_sync.Base.{
  ℕ, Bool, false, ◌&&◌, ◌||◌, not, Option, none, some, map_some, get_or, is_present, List, [], ◌∷◌,
  ◌++◌, ◌==◌, contains, nat_eq, list_eq, option_eq, if◌then◌else◌,
}
use joplin_md_sync.Base.Text.{Text, text}
use joplin_md_sync.Base.Dict.{lookup, insert, erase}
use joplin_md_sync.Canonical.{canonicalize_body, canonicalize_tags, note_hashes}
use joplin_md_sync.Models.{RemoteNote, LocalNoteFile, PlanOperation}
use joplin_md_sync.State.{NoteRow}
use joplin_md_sync.State.Moves.{rename_path}
use joplin_md_sync.Planner.Draft.{combined_remote, shown}
use joplin_md_sync.Journal.{truthy}
use joplin_md_sync.Sync.Run.{Outcome, concurrent, raised}
use joplin_md_sync.Metadata.{ParseResult, is_parsed, is_malformed}
use joplin_md_sync.Sync.Act.{
  RawNote, Tag, Files, Env, Act, done, give_up, of_option, call, stop_if, files_of, renames_of,
  change_files, ◌>>=◌, ◌>>◌,
}

-- `posixpath.dirname` of a relative path
unfoldable pub dirname : Text → Text
dirname [] = []
dirname (c ∷ s) = let rest = dirname s in if contains s b'/' then c ∷ rest else []

-- The directories above a path, from the top; `above` is the part that has been read.
unfoldable pub parents : Text → Text → List Text
parents above [] = []
parents above (c ∷ s) =
    let rest = parents (above ++ (c ∷ [])) s in if c == b'/' then above ∷ rest else rest

unfoldable pub exists_path : Text → Files → Bool
exists_path p f = is_present (lookup p f.texts) || contains f.dirs p

unfoldable pub is_dir : Text → Files → Bool
is_dir p f = p == [] || contains f.dirs p

unfoldable pub write_text : Text → Text → Files → Files
write_text p content f = record f { texts = insert p content f.texts }

unfoldable pub unlink : Text → Files → Files
unlink p f = record f { texts = erase p f.texts }

-- `Executor.current_path`
unfoldable pub current_path : List (Text × Text) → Text → Text
current_path [] p = p
current_path ((old, new) ∷ rs) p = current_path rs (rename_path old new p)

abbrev pub note_row : Text → Text → Text → Text → List Text → Text → ℕ → NoteRow
note_row id rel title body tags parent_id updated_time = record {
  id = id;
  rel_path = rel;
  title = title;
  body = body;
  tags = tags;
  parent_id = parent_id;
  updated_time = updated_time;
}

unfoldable pub tag_titles : List Tag → List Text
tag_titles [] = []
tag_titles (t ∷ ts) = t.title ∷ tag_titles ts

-- A failed `assert`; its exception has no message.
abbrev pub assertion : Outcome
assertion = raised []

module _ {ℓ} {R : Type ℓ} (env : Env R) where
  unfoldable pub current : Text → Act R Text
  current p = renames_of >>= λ rs. done (current_path rs p)

  unfoldable pub canonical_note : Text → RawNote → List Text → RemoteNote
  canonical_note nid raw titles = record {
    id = nid;
    parent_id = raw.parent_id;
    title = raw.title;
    body = canonicalize_body raw.body;
    updated_time = raw.updated_time;
    tags = canonicalize_tags env.rt titles;
    is_conflict = false;
    deleted = false;
  }

  -- A note that is in the trash, or is one of Joplin's own conflict notes, counts as gone.
  unfoldable pub found_note : Text → Option RawNote → Act R (Option RemoteNote)
  found_note nid none = done none
  found_note nid (some raw) =
      if raw.is_deleted || raw.is_conflict
      then done none
      else call (env.client.list_note_tags nid) >>= λ found.
          done (some (canonical_note nid raw (tag_titles found)))

  unfoldable pub fetch_remote_canonical : Text → Act R (Option RemoteNote)
  fetch_remote_canonical nid = call (env.client.get_note nid) >>= found_note nid

  -- The note of a file: as it is parsed, or its whole text if it has no header.
  unfoldable pub note_in_file :
      Text → LocalNoteFile → Text → ParseResult → Act R (Text × Text × List Text)
  note_in_file rel l raw (is_parsed p) = done (p.title, p.body, p.tags)
  note_in_file rel l raw (is_malformed m) =
      if l.has_header
      then give_up (concurrent (text "local file changed before apply: " ++ rel))
      else done (l.title, canonicalize_body raw, [])

  unfoldable pub guard_local : PlanOperation → Act R (Unit {0})
  guard_local o = do
    i ← of_option assertion o.state
    l ← of_option assertion i.local
    rel ← current (get_or (truthy o.rel_path) l.rel_path)
    files ← files_of
    raw ←
        of_option
          (concurrent (
            text "local file disappeared before apply: "
            ++ (rel ++ (text " (" ++ (env.os_error rel ++ text ")")))))
          (lookup rel files.texts)
    (title, body, tags) ← note_in_file rel l raw (env.format.parse_note_file raw)
    stop_if
        (is_present o.expected_local_hash
          && not (
              some (note_hashes env.rt title body tags l.parent_id).combined
              == o.expected_local_hash))
        (concurrent (text "local file changed between planning and apply: " ++ rel))

  unfoldable pub fetch_if_named : Option Text → Act R (Option RemoteNote)
  fetch_if_named none = done none
  fetch_if_named (some nid) = fetch_remote_canonical nid

  unfoldable pub guard_remote : PlanOperation → Act R (Option RemoteNote)
  guard_remote o = do
    found ← fetch_if_named (truthy o.note_id)
    stop_if (not (map_some (combined_remote env.rt) found == o.expected_remote_hash))
        (concurrent (text "remote note changed between planning and apply: " ++ shown o.note_id))
    done found

  -- What was written has to read as the intended note.
  unfoldable pub check_written : Text → Text → List Text → Text → ParseResult → Act R (Unit {0})
  check_written rel title tags body (is_malformed m) = give_up (raised m)
  check_written rel title tags body (is_parsed p) =
      stop_if
        (not (
          (note_hashes env.rt p.title p.body p.tags []).combined
          == (note_hashes env.rt title (canonicalize_body body) (canonicalize_tags env.rt tags)
              []).combined))
        (raised (text "post-write verification failed for " ++ rel))

  unfoldable pub write_local_note : Text → Option Text → Text → List Text → Text → Act R (Unit {0})
  write_local_note rel nid title tags body = do
    files ← files_of
    stop_if (not (is_dir (dirname rel) files))
        (raised (text "target directory missing for " ++ rel))
    change_files (write_text rel (env.format.emit_note_file nid title tags body))
    after ← files_of
    raw ← of_option (raised (env.os_error rel)) (lookup rel after.texts)
    check_written rel title tags body (env.format.parse_note_file raw)
