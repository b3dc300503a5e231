-- ===== src/Tests/Snapshot.antt =====
-- The snapshot of a small Joplin profile, and the theorem on it.
use joplin_md_sync.Base.{◌≡◌, refl, false, some, none, [], ◌∷◌, nat_eq, list_eq}
use joplin_md_sync.Base.Text.{Text, text, replace_after, starts_with}
use joplin_md_sync.Base.Dict.{Dict, lookup}
use joplin_md_sync.Runtime.Ascii.{ascii}
use joplin_md_sync.Canonical.{canonicalize_body, note_hashes}
use joplin_md_sync.Models.{BaseNote}
use joplin_md_sync.Sync.Act.{RawNote, value}
use joplin_md_sync.Sync.Snapshot.{ListedNote, Answers, build_remote_snapshot}
use joplin_md_sync.Sync.Snapshot.Exact.{build_remote_snapshot-exact}

abbrev row : ListedNote
row = record {
  id = text "n";
  parent_id = text "f";
  title = text "T";
  updated_time = 5;
  is_deleted = false;
  is_conflict = false;
}

abbrev full : RawNote
full = record {
  title = text "T";
  body = text "b";
  parent_id = text "f";
  updated_time = 5;
  is_deleted = false;
  is_conflict = false;
}

abbrev reads : Answers
reads = record {
  list_folders = value (record { id = text "f"; parent_id = []; title = text "F" } ∷ []);
  list_tags = value (record { id = text "t"; title = text "Tag" } ∷ []);
  list_tag_notes = λ t. value (text "n" ∷ []);
  list_notes = value (row ∷ []);
  get_note = λ n. value (some full);
  event_cursor = value none;
}

abbrev bases : Dict Text BaseNote
bases =
    (
      text "n",
      record {
        id = text "n";
        rel_path = text "F/T.md";
        title = text "T";
        body = text "b";
        tags = [];
        parent_id = text "f";
        updated_time = 5;
        hashes = note_hashes ascii (text "T") (text "b") [] (text "f");
      },
    )
    ∷ []

build_remote_snapshot-exact_example :
    build_remote_snapshot ascii reads bases ≡ build_remote_snapshot ascii reads []
unfolding lookup text nat_eq list_eq canonicalize_body replace_after starts_with
build_remote_snapshot-exact_example =
    build_remote_snapshot-exact ascii reads bases (row ∷ []) refl
      (λ d c t. record { full = full; at = refl; active = refl; body = refl; time = refl }, tt)
