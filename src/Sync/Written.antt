-- ===== src/Sync/Written.antt =====
-- `_write_local_note` of src/joplin_md_sync/sync.py with the note file format of
-- src/joplin_md_sync/metadata.py.
use joplin_md_sync.Base.{
  ◌≡◌, refl, ap, ◌∙◌, true, Option, some, OnSome, List, arith, nat_eq, list_eq,
}
use joplin_md_sync.Base.Text.{Text}
use joplin_md_sync.Base.Dict.{lookup, lookup-insert}
use joplin_md_sync.Runtime.{IsStableCase}
use joplin_md_sync.Metadata.{JsonLib, is_valid_note_id, emit_note_file}
use joplin_md_sync.Metadata.RoundTrip.{parse_note_file-emit_note_file}
use joplin_md_sync.Sync.Act.{
  value, Env, ExecState, Files, files_of, stop_if, of_option, change_files, and_then,
}
use joplin_md_sync.Sync.Format.{note_format}
use joplin_md_sync.Sync.Guards.{dirname, is_dir, write_text, check_written, write_local_note}

lookup_written :
    (rel content : Text) (f : Files) → lookup rel (write_text rel content f).texts ≡ some content
unfolding write_text
lookup_written rel content f = lookup-insert rel rel content f.texts ∙ ground arith

module _ {ℓ} {R : Type ℓ} (env : Env R) (lib : JsonLib) (law : IsStableCase env.rt)
    (fmt : env.format ≡ note_format env.rt lib) where
  module _ (rel : Text) (nid : Option Text) (title : Text) (tags : List Text) (body : Text)
      (valid : OnSome (λ n. is_valid_note_id n ≡ true) nid) (s : ExecState R) where
    check_written-parsed :
        check_written env rel title tags body
          (env.format.parse_note_file (env.format.emit_note_file nid title tags body))
          s
        ≡ (value tt, s)
    unfolding check_written note_format stop_if
    check_written-parsed =
        rw (fmt, parse_note_file-emit_note_file env.rt law lib nid title tags body valid)
          (ground arith)

    emitted :
        env.format.emit_note_file nid title tags body ≡ emit_note_file env.rt nid title tags body
    unfolding note_format
    emitted = rw fmt refl

  module _ (rel : Text) (nid : Option Text) (title : Text) (tags : List Text) (body : Text)
      (valid : OnSome (λ n. is_valid_note_id n ≡ true) nid) (s : ExecState R)
      (there : is_dir (dirname rel) s.files ≡ true) where
    write_local_note-content : write_local_note env rel nid title tags body s ≡ (
      value tt,
      record s { files = write_text rel (env.format.emit_note_file nid title tags body) s.files },
    )
    unfolding write_local_note and_then files_of stop_if change_files of_option
    write_local_note-content =
        rw (there, lookup_written rel (env.format.emit_note_file nid title tags body) s.files)
          (check_written-parsed rel nid title tags body valid _)

    -- With the note file format of the program, `_write_local_note` never fails its verification:
    -- it goes on, with the emitted note at the path and no other change. Conditions: the
    -- directory exists, the id, if there is one, is valid, and lower case is stable.
    pub write_local_note-succeeds : write_local_note env rel nid title tags body s ≡ (
      value tt,
      record s { files = write_text rel (emit_note_file env.rt nid title tags body) s.files },
    )
    write_local_note-succeeds =
        write_local_note-content
        ∙ ap (λ content. (value tt, record s { files = write_text rel content s.files }))
            (emitted rel nid title tags body valid s)
