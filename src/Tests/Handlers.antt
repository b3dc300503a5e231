-- ===== src/Tests/Handlers.antt =====
-- The handlers on a small profile, with a note file format of one line for each part.
use joplin_md_sync.Base.{
  get_or, Option, ◌≡◌, ◌≢◌, refl, ap, true, false, none, some, [], ◌∷◌, nat_eq, list_eq, option_eq,
}
use joplin_md_sync.Tests.Sample.{scan}
use joplin_md_sync.Base.{◌++◌}
use joplin_md_sync.Base.Text.{Text, text, starts_with, join, replace_after, text_leb}
use joplin_md_sync.Base.Dict.{Dict, lookup, insert, erase}
use joplin_md_sync.Base.Sort.{sort, insert_sorted}
use joplin_md_sync.Base.Numbers.Decimal.{digits, decimal}
use joplin_md_sync.Base.Numbers.Utf8.{utf8_char, encode}
use joplin_md_sync.Runtime.Ascii.{ascii}
use joplin_md_sync.Canonical.{
  canonicalize_body, field_bytes, encode_all, combined_bytes, strip_left, strip_right, strip,
  clean_tags, canonicalize_tags, hash_text, hash_tags, note_hashes,
}
use joplin_md_sync.Models.{
  LocalNoteFile, RemoteNote, PlanOperation, pull_update_local, pull_delete_local,
  push_delete_remote, remote_modified, remote_deleted, BaseNote, OpKind,
}
use joplin_md_sync.State.{empty_store, upsert_note, delete_note, add_tombstone}
use joplin_md_sync.Planner.Draft.{operation, combined_local, combined_remote}
use joplin_md_sync.Sync.Run.{returned, concurrent, was_applied}
use joplin_md_sync.Metadata.{is_parsed}
use joplin_md_sync.Sync.Act.{
  RawNote, NoteFields, confirmed, NoteFormat, value, JoplinClient, Env, ExecState, and_then, done,
  give_up, of_option, call, stop_if, files_of, renames_of, change_files, commit, ended,
}
use joplin_md_sync.Sync.Guards.{
  dirname, is_dir, write_text, unlink, current_path, current, tag_titles, canonical_note,
  found_note, fetch_remote_canonical, note_in_file, guard_local, fetch_if_named, guard_remote,
  check_written, write_local_note,
}
use joplin_md_sync.Sync.Handlers.{
  backup_file, quarantine_file, tombstone, op_pull_update_local, op_pull_delete_local,
  op_push_delete_remote, handler,
}
use joplin_md_sync.Sync.Careful.{is_applied}
use joplin_md_sync.Journal.{truthy, journal_op, op_was_applied}
use joplin_md_sync.Sync.Recovered.{
  op_pull_update_local-op_was_applied, op_pull_delete_local-op_was_applied,
  op_push_delete_remote-op_was_applied,
}
use joplin_md_sync.Sync.Honest.{IsHonest}
use joplin_md_sync.Sync.Quarantine.{IsMoved, op_pull_delete_local-IsMoved}
use joplin_md_sync.Sync.Safety.{handler-CarefulAs}
use joplin_md_sync.Sync.Relocated.{CarefulAs}

-- A note file that is its body; the title, the tags and the id are fixed.
abbrev one_line : NoteFormat
one_line = record {
  emit_note_file = λ nid title tags body. body;
  parse_note_file =
      λ s. is_parsed (record { note_id = some (text "n1"); title = text "t"; tags = []; body = s });
  folder_json = λ id parent_id title. id ++ (parent_id ++ title);
}

abbrev raw_note : Text → RawNote
raw_note body = record {
  title = text "t";
  body = body;
  parent_id = text "f";
  updated_time = 2;
  is_deleted = false;
  is_conflict = false;
}

-- The fields that an update gives, in place of those of the note.
abbrev updated : NoteFields → Option RawNote → RawNote
updated f none = raw_note []
updated f (some raw) = record raw {
  title = get_or f.title raw.title;
  body = get_or f.body raw.body;
  parent_id = get_or f.parent_id raw.parent_id;
}

abbrev profile : JoplinClient (Dict Text RawNote)
profile = record {
  get_note = λ nid r. (value (lookup nid r), r);
  get_any = λ nid r. (value (lookup nid r), r);
  list_note_tags = λ nid r. (value [], r);
  list_tags = λ r. (value [], r);
  create_tag = λ title r. (value (record { id = title; title = title }), r);
  add_tag_to_note = λ tid nid r. (value tt, r);
  remove_tag_from_note = λ tid nid r. (value tt, r);
  create_note = λ title body parent_id r. (
    value (text "n2"),
    insert (text "n2")
        (record {
          title = title;
          body = body;
          parent_id = parent_id;
          updated_time = 3;
          is_deleted = false;
          is_conflict = false;
        })
        r,
  );
  create_note_with_id = λ nid title body parent_id r.
      (value nid, insert nid (record (raw_note body) { title = title; parent_id = parent_id }) r);
  update_note = λ nid f r. (value confirmed, insert nid (updated f (lookup nid r)) r);
  restore_note = λ nid r. (value tt, r);
  delete_note = λ nid r. (value tt, erase nid r);
  create_folder = λ title parent_id r. (value (text "g"), r);
  get_folder = λ fid r. (value none, r);
  update_folder = λ fid title parent_id r. (value tt, r);
}

pub profile-IsHonest : IsHonest profile
profile-IsHonest = record {
  on_get_note = λ nid r. refl;
  on_get_any = λ nid r. refl;
  on_list_note_tags = λ nid r. refl;
  on_delete_note = λ nid r. refl;
  on_list_tags = λ r. refl;
  on_create_tag = λ title r. refl;
  on_add_tag = λ tid nid r. refl;
  on_remove_tag = λ tid nid r. refl;
  on_create_note = λ title body parent_id r. refl;
  on_create_note_with_id = λ nid title body parent_id r. refl;
  on_update_note = λ nid f r. refl;
  on_restore_note = λ nid r. refl;
  on_create_folder = λ title parent_id r. refl;
  on_get_folder = λ fid r. refl;
  on_update_folder = λ fid title parent_id r. refl;
}

abbrev pub env : Env (Dict Text RawNote)
env = record {
  rt = ascii;
  client = profile;
  format = one_line;
  run_id = text "r1";
  now = 7;
  os_error = λ p. text "no such file";
  write_fails = λ p. false;
  fresh_id = λ bundles. text "c1";
  scan = scan;
}

abbrev mine : LocalNoteFile
mine = record {
  rel_path = text "W/x.md";
  note_id = some (text "n1");
  title = text "t";
  body = text "old";
  tags = [];
  parent_id = text "f";
  has_header = true;
}

abbrev theirs : RemoteNote
theirs = record {
  id = text "n1";
  parent_id = text "f";
  title = text "t";
  body = text "new";
  updated_time = 2;
  tags = [];
  is_conflict = false;
  deleted = false;
}

abbrev update : PlanOperation
update = record (operation pull_update_local []) {
  op_id = text "op-0001";
  note_id = some (text "n1");
  rel_path = some (text "W/x.md");
  new_rel_path = some (text "W/x.md");
  expected_local_hash = some (combined_local ascii mine);
  expected_remote_hash = some (combined_remote ascii theirs);
  state = some (record {
    status = remote_modified;
    note_id = some (text "n1");
    rel_path = some (text "W/x.md");
    title = some (text "t");
    changed_components = [];
    remote_changed_components = [];
    detail = [];
    base = none;
    local = some mine;
    remote = some theirs;
  });
}

abbrev pub start : Text → Text → ExecState (Dict Text RawNote)
start local_body remote_body = record {
  remote = (text "n1", raw_note remote_body) ∷ [];
  files = record {
    texts = (text "W/x.md", local_body) ∷ [];
    dirs = text "W" ∷ [];
    backups = [];
    quarantined = [];
    bundles = [];
  };
  store = empty_store;
  renames = [];
  created_folders = [];
  tag_map = none;
}

-- The pull is applied, and is refused if the file was edited after the plan was made.
update_test :
    (ended (op_pull_update_local env update (start (text "old") (text "new"))).0
      ≡ returned was_applied [])
    × (lookup
          (text "W/x.md")
          (op_pull_update_local env update (start (text "old") (text "new"))).1.files.texts
        ≡ some (text "new"))
    × (ended (op_pull_update_local env update (start (text "mine") (text "new"))).0
        ≡ concurrent (text "local file changed between planning and apply: W/x.md"))
unfolding op_pull_update_local guard_local guard_remote fetch_if_named fetch_remote_canonical
    found_note tag_titles canonical_note note_in_file check_written write_local_note write_text
    unlink is_dir dirname current current_path backup_file done give_up of_option call stop_if
    files_of renames_of change_files commit and_then ended upsert_note lookup insert erase sort
    insert_sorted note_hashes combined_bytes field_bytes hash_text hash_tags encode_all
    canonicalize_body canonicalize_tags clean_tags strip strip_left strip_right encode utf8_char
    digits decimal join replace_after starts_with text_leb text nat_eq list_eq option_eq
update_test = (refl, refl, refl)

handler-CarefulAs_example : CarefulAs pull_update_local (handler env pull_update_local update)
handler-CarefulAs_example = handler-CarefulAs env profile-IsHonest pull_update_local update

abbrev base : BaseNote
base = record {
  id = text "n1";
  rel_path = text "W/x.md";
  title = text "t";
  body = text "old";
  tags = [];
  parent_id = text "f";
  updated_time = 1;
  hashes = note_hashes ascii (text "t") (text "old") [] (text "f");
}

abbrev removal : OpKind → PlanOperation
removal kind = record (operation kind []) {
  op_id = text "op-0001";
  note_id = some (text "n1");
  rel_path = some (text "W/x.md");
  expected_local_hash = some (combined_local ascii mine);
  expected_remote_hash = some (combined_remote ascii theirs);
  state = some (record {
    status = remote_deleted;
    note_id = some (text "n1");
    rel_path = some (text "W/x.md");
    title = some (text "t");
    changed_components = [];
    remote_changed_components = [];
    detail = [];
    base = some base;
    local = some mine;
    remote = none;
  });
}

abbrev emptied : ExecState (Dict Text RawNote)
emptied = record (start (text "old") (text "new")) { remote = [] }

-- Both deletions are applied; the text of the file is in the quarantine.
removal_test :
    (is_applied (ended (op_pull_delete_local env (removal pull_delete_local) emptied).0) ≡ true)
    × (lookup
          (text "r1/W/x.md")
          (op_pull_delete_local env (removal pull_delete_local) emptied).1.files.quarantined
        ≡ some (text "old"))
    × (is_applied (
          ended
            (op_push_delete_remote env
              (removal push_delete_remote)
              (start (text "old") (text "new"))).0)
        ≡ true)
    × ((removal push_delete_remote).expected_remote_hash ≢ some [])
    × (truthy (removal pull_delete_local).note_id ≡ some (text "n1"))
unfolding op_pull_delete_local op_push_delete_remote quarantine_file tombstone add_tombstone
    delete_note guard_local guard_remote fetch_if_named fetch_remote_canonical found_note tag_titles
    canonical_note note_in_file current current_path backup_file done give_up of_option call stop_if
    files_of renames_of change_files commit and_then ended lookup insert erase sort insert_sorted
    note_hashes combined_bytes field_bytes hash_text hash_tags encode_all canonicalize_body
    canonicalize_tags clean_tags strip strip_left strip_right encode utf8_char digits decimal join
    replace_after starts_with text_leb text nat_eq list_eq option_eq
removal_test = (refl, refl, refl, λ e. cc, refl)

op_pull_update_local-op_was_applied_example :
    op_was_applied ascii pull_update_local
      (journal_op update)
      (op_pull_update_local env update (start (text "old") (text "new"))).1.store
    ≡ some true
op_pull_update_local-op_was_applied_example =
    op_pull_update_local-op_was_applied env profile-IsHonest update
      (start (text "old") (text "new")) removal_test.3 (ap is_applied update_test.0)

op_pull_delete_local-op_was_applied_example :
    op_was_applied ascii pull_delete_local
      (journal_op (removal pull_delete_local))
      (op_pull_delete_local env (removal pull_delete_local) emptied).1.store
    ≡ some true
op_pull_delete_local-op_was_applied_example =
    op_pull_delete_local-op_was_applied env profile-IsHonest (removal pull_delete_local) (text "n1")
      emptied removal_test.4 removal_test.0

op_push_delete_remote-op_was_applied_example :
    op_was_applied ascii push_delete_remote
      (journal_op (removal push_delete_remote))
      (op_push_delete_remote env
        (removal push_delete_remote)
        (start (text "old") (text "new"))).1.store
    ≡ some true
op_push_delete_remote-op_was_applied_example =
    op_push_delete_remote-op_was_applied env profile-IsHonest (removal push_delete_remote)
      (start (text "old") (text "new")) removal_test.2

op_pull_delete_local-IsMoved_example :
    IsMoved
      (text "r1")
      emptied.files
      (ended (op_pull_delete_local env (removal pull_delete_local) emptied).0)
      (op_pull_delete_local env (removal pull_delete_local) emptied).1.files
op_pull_delete_local-IsMoved_example =
    op_pull_delete_local-IsMoved env profile-IsHonest (removal pull_delete_local) emptied
      removal_test.0
