-- ===== src/Tests/Notes.antt =====
-- Note files and conflict bundles: runs, and the theorems applied to a sample note.
use joplin_md_sync.Base.{
  ◌≡◌, refl, ap, true, false, none, some, [], ◌∷◌, nat_eq, list_eq, option_eq,
}
use joplin_md_sync.Base.Text.{Text, text, take, drop, join, starts_with, replace_after, text_leb}
use joplin_md_sync.Base.Dict.{Dict, lookup, insert, keys, values}
use joplin_md_sync.Base.Sort.{sort, insert_sorted}
use joplin_md_sync.Runtime.Ascii.{ascii, ascii-IsStableCase}
use joplin_md_sync.Canonical.{
  canonicalize_body, canonicalize_tags, clean_tags, combined_bytes, encode_all, field_bytes,
  hash_tags, hash_text, note_hashes, strip, strip_left, strip_right,
}
use joplin_md_sync.Models.{ItemState, conflict}
use joplin_md_sync.State.{open_conflict_for_note, add_conflict, rows_where}
use joplin_md_sync.Json.{dumps, object_of, array_of, insert_fields}
use joplin_md_sync.Json.Scan.{loads}
use joplin_md_sync.Json.Mask.{mask}
use joplin_md_sync.Metadata.{
  ◌>>=◌, header_prefix, header_suffix, partition, ends_with, payload_in, parsed_of, JsonLib,
  ParsedNoteFile, is_parsed, is_malformed, is_valid_note_id, emit_note_file, parse_note_file,
  has_header,
}
use joplin_md_sync.Metadata.RoundTrip.{parse_note_file-emit_note_file}
use joplin_md_sync.Metadata.Sound.{IsCanonicalNote, parse_note_file-IsCanonicalNote}
use joplin_md_sync.Sync.Act.{
  RawNote, Env, ExecState, Reply, value, call, stop_if, done, of_option, files_of, store_of,
  change_files, stored, change_store, and_then,
}
use joplin_md_sync.Sync.Format.{note_format}
use joplin_md_sync.Sync.Guards
use joplin_md_sync.Sync.Tags
use joplin_md_sync.Conflicts.Resolve
use joplin_md_sync.Base.Numbers.Decimal.{decimal, digits}
use joplin_md_sync.Base.Numbers.Utf8.{encode, utf8_char}
use joplin_md_sync.Sync.Guards.{is_dir, dirname, write_text, write_local_note}
use joplin_md_sync.Sync.Written.{write_local_note-succeeds}
use joplin_md_sync.Conflicts.Create.{create_for, create_bundle}
use joplin_md_sync.Conflicts.Idempotent.{create_bundle-idempotent}
use joplin_md_sync.Conflicts.Resolve.{take_remote, push_content, resolve_conflict}
use joplin_md_sync.Conflicts.Closes.{Closes, resolve_conflict-Closes}
use joplin_md_sync.Conflicts.Committed.{IsCommitted, push_content-IsCommitted}
use joplin_md_sync.Tests.Handlers.{env, start, profile-IsHonest}

abbrev pub lib : JsonLib
lib = record {
  decode_error = λ s. text "Expecting value: line 1 column 1 (char 0)";
  float_is_one = λ u. false;
  repr = λ v. text "2";
}

abbrev nid : Text
nid = text "0123456789abcdef0123456789abcdef"

nid_valid : is_valid_note_id nid ≡ true
unfolding is_valid_note_id text nat_eq list_eq
nid_valid = refl

-- An id that ends in a line feed is let through.
nid_line_feed : is_valid_note_id (text "0123456789abcdef0123456789abcdef\n") ≡ true
unfolding is_valid_note_id text nat_eq list_eq
nid_line_feed = refl

emit_test :
    emit_note_file ascii none (text "a --> \"b\"") (text " X" ∷ []) (text "1\r\n2")
    ≡ text
        "<!-- joplin-md-sync: {\"schema\":1,\"tags\":[\"x\"],\"title\":\"a --\\u003e \\\"b\\\"\"} -->\n\n1\n2"
unfolding emit_note_file text nat_eq list_eq sort text_leb canonicalize_tags canonicalize_body
    replace_after starts_with header_prefix header_suffix mask dumps object_of array_of clean_tags
    strip
emit_test = refl

parse_test :
    parse_note_file ascii lib
      (text "<!-- joplin-md-sync: {\"schema\":1,\"title\":\"t\",\"tags\":[],\"x\":0} -->\n\nb")
    ≡ is_malformed (text "unknown metadata keys: x")
unfolding parse_note_file parsed_of ◌>>=◌ starts_with header_prefix header_suffix partition
    ends_with payload_in loads take drop lookup insert insert_fields keys sort text_leb join
    canonicalize_body replace_after text nat_eq list_eq
parse_test = refl

parse_note_file-emit_note_file_example :
    parse_note_file ascii lib
      (emit_note_file ascii (some nid) (text "a --> b") (text " X" ∷ []) (text "1\r\n2"))
    ≡ is_parsed (record {
      note_id = some nid;
      title = text "a --> b";
      tags = canonicalize_tags ascii (text " X" ∷ []);
      body = canonicalize_body (text "1\r\n2");
    })
parse_note_file-emit_note_file_example =
    parse_note_file-emit_note_file ascii ascii-IsStableCase lib (some nid) (text "a --> b")
      (text " X" ∷ []) (text "1\r\n2") nid_valid

abbrev sample : ParsedNoteFile
sample = record {
  note_id = some nid;
  title = text "a --> b";
  tags = canonicalize_tags ascii (text " X" ∷ []);
  body = canonicalize_body (text "1\r\n2");
}

parse_note_file-IsCanonicalNote_example :
    IsCanonicalNote ascii sample
    × (has_header
          (emit_note_file ascii (some nid) (text "a --> b") (text " X" ∷ []) (text "1\r\n2"))
        ≡ true)
parse_note_file-IsCanonicalNote_example =
    parse_note_file-IsCanonicalNote ascii ascii-IsStableCase lib
      (emit_note_file ascii (some nid) (text "a --> b") (text " X" ∷ []) (text "1\r\n2")) sample
      parse_note_file-emit_note_file_example

abbrev formatted : Env (Dict Text RawNote)
formatted = record env { format = note_format ascii lib }

abbrev begun : ExecState (Dict Text RawNote)
begun = start (text "old") (text "new")

has_dir : is_dir (dirname (text "W/y.md")) begun.files ≡ true
unfolding is_dir dirname text nat_eq list_eq
has_dir = refl

write_local_note-succeeds_example :
    write_local_note formatted (text "W/y.md") (some nid) (text "t") [] (text "b") begun ≡ (
      value tt,
      record begun {
        files =
            write_text
              (text "W/y.md")
              (emit_note_file ascii (some nid) (text "t") [] (text "b"))
              begun.files;
      },
    )
write_local_note-succeeds_example =
    write_local_note-succeeds formatted lib ascii-IsStableCase refl (text "W/y.md") (some nid)
      (text "t") [] (text "b") nid_valid begun has_dir

abbrev conflicted : ItemState
conflicted = record {
  status = conflict;
  note_id = some nid;
  rel_path = some (text "W/x.md");
  title = some (text "t");
  changed_components = [];
  remote_changed_components = [];
  detail = [];
  base = none;
  local = none;
  remote = none;
}

abbrev recorded : ExecState (Dict Text RawNote)
recorded = (create_bundle env conflicted begun).1

recorded_test : create_bundle env conflicted begun ≡ (value (text "c1"), recorded)
unfolding create_bundle create_for done of_option files_of store_of change_files stored change_store
    and_then open_conflict_for_note add_conflict rows_where values lookup insert
recorded_test = refl

create_bundle-idempotent_example :
    create_bundle env conflicted recorded ≡ (value (text "c1"), recorded)
create_bundle-idempotent_example =
    create_bundle-idempotent env conflicted nid (text "c1") begun recorded refl recorded_test

resolve_conflict-Closes_example :
    Closes (text "c1") recorded (resolve_conflict env (text "c1") take_remote recorded)
resolve_conflict-Closes_example =
    resolve_conflict-Closes env profile-IsHonest (text "c1") take_remote recorded

abbrev recreated : Reply (Unit {0}) × ExecState (Dict Text RawNote)
recreated = push_content formatted nid (text "W/x.md") (text "t") (text "b") [] (text "f") begun

-- The note is created again in Joplin, and verified.
recreated_test : recreated.0 ≡ value tt
unfolding push_content and_then call stop_if done of_option stored change_files change_store lookup
    insert keys decimal digits encode utf8_char insert_sorted sort join replace_after starts_with
    text_leb text list_eq nat_eq option_eq canonicalize_body canonicalize_tags clean_tags
    combined_bytes encode_all field_bytes hash_tags hash_text note_hashes strip strip_left
    strip_right Guards.fetch_remote_canonical Guards.found_note Guards.tag_titles
    Guards.canonical_note Tags.reconcile_tags Tags.known_tags Tags.attach Tags.detach Tags.tag_dict
    Resolve.put_note Resolve.restore_or_create Resolve.write_checked Resolve.update_store
    Resolve.write_atomic
recreated_test = refl

push_content-IsCommitted_example :
    IsCommitted formatted lib ascii-IsStableCase refl nid nid_valid
      (text "W/x.md")
      (text "t")
      (text "b")
      []
      recreated.1
push_content-IsCommitted_example =
    push_content-IsCommitted formatted lib ascii-IsStableCase refl nid nid_valid (text "W/x.md")
      (text "t") (text "b") [] (text "f") begun recreated.1
      (ap (λ r. (r, recreated.1)) recreated_test)
