-- ===== src/Tests/Sample.antt =====
-- A small workspace: a note changed in the workspace, one changed in Joplin, one that is new in
-- Joplin, one whose file was deleted, and a notebook.
use joplin_md_sync.Base.{true, false, none, some, [], ◌∷◌}
use joplin_md_sync.Base.Text.{Text, text}
use joplin_md_sync.Base.Dict.{Dict}
use joplin_md_sync.Runtime.Ascii.{ascii}
use joplin_md_sync.Canonical.{note_hashes}
use joplin_md_sync.Models.{
  BaseNote, BaseFolder, RemoteNote, LocalNoteFile, LocalFolderDir, RemoteSnapshot, LocalScan,
}

abbrev base_note : Text → Text → BaseNote
base_note id body = record {
  id = id;
  rel_path = text "Work/x.md";
  title = id;
  body = body;
  tags = text "a" ∷ [];
  parent_id = text "f";
  updated_time = 1;
  hashes = note_hashes ascii id body (text "a" ∷ []) (text "f");
}

abbrev remote_note : Text → Text → RemoteNote
remote_note id body = record {
  id = id;
  parent_id = text "f";
  title = id;
  body = body;
  updated_time = 2;
  tags = text " A" ∷ [];
  is_conflict = false;
  deleted = false;
}

abbrev local_note : Text → Text → LocalNoteFile
local_note id body = record {
  rel_path = text "Work/x.md";
  note_id = some id;
  title = id;
  body = body;
  tags = text "a" ∷ [];
  parent_id = text "f";
  has_header = true;
}

abbrev one : Text
one = text "n1"

abbrev two : Text
two = text "n2"

abbrev three : Text
three = text "n3"

abbrev four : Text
four = text "n4"

abbrev pub base_notes : Dict Text BaseNote
base_notes =
    (one, base_note one (text "old"))
    ∷ (two, base_note two (text "old"))
    ∷ (four, base_note four (text "old"))
    ∷ []

abbrev pub base_folders : Dict Text BaseFolder
base_folders =
    (
      text "f",
      record { id = text "f"; rel_path = text "Work"; title = text "Work"; parent_id = [] },
    )
    ∷ []

abbrev pub snapshot : RemoteSnapshot
snapshot = record {
  folders =
      (text "f", record { id = text "f"; parent_id = []; title = text "Work" })
      ∷ (text "g", record { id = text "g"; parent_id = text "f"; title = text "New" })
      ∷ [];
  notes =
      (one, remote_note one (text "old"))
      ∷ (two, remote_note two (text "new"))
      ∷ (three, remote_note three (text "new"))
      ∷ (four, remote_note four (text "old"))
      ∷ [];
  conflict_notes = [];
  trashed_note_ids = [];
  event_cursor = none;
}

abbrev work : LocalFolderDir
work = record {
  rel_path = text "Work";
  folder_id = some (text "f");
  title = text "Work";
  parent_id = [];
}

abbrev pub scan : LocalScan
scan = record {
  folders_by_id = (text "f", work) ∷ [];
  folders_by_path = (text "Work", work) ∷ [];
  candidate_folders = [];
  notes = local_note one (text "mine") ∷ local_note two (text "old") ∷ [];
  invalid = [];
}
