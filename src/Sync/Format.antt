-- ===== src/Sync/Format.antt =====
-- The note file format of src/joplin_md_sync/metadata.py as the handlers of
-- src/joplin_md_sync/sync.py use it, and the JSON that they write of a notebook.
use joplin_md_sync.Base.{
  ℕ, ◌+◌, ◌-◌, ◌/◌, ◌%◌, ◌≡◌, refl, [], ◌∷◌, ◌++◌, nat_eq, ltb, if◌then◌else◌,
}
use joplin_md_sync.Base.Text.{Text, text}
use joplin_md_sync.Runtime.{Runtime}
use joplin_md_sync.Json.{hex_digit, escape_char}
use joplin_md_sync.Metadata.{JsonLib, emit_note_file, parse_note_file}
use joplin_md_sync.Sync.Act.{NoteFormat}

-- `\uXXXX`
unfoldable unicode_escape : ℕ → Text
unicode_escape c =
    92
    ∷ 117
    ∷ hex_digit (c / 4096)
    ∷ hex_digit (c / 256 % 16)
    ∷ hex_digit (c / 16 % 16)
    ∷ hex_digit (c % 16)
    ∷ []

-- A character as `json.dumps` writes it by default: what is not printable ASCII is escaped, by two
-- surrogates above U+FFFF.
unfoldable ascii_char : ℕ → Text
unfolding unicode_escape
ascii_char c =
    if ltb c 127
    then escape_char c
    else if ltb c 65536
    then unicode_escape c
    else unicode_escape (55296 + (c - 65536) / 1024) ++ unicode_escape (56320 + (c - 65536) % 1024)

unfoldable ascii_escape : Text → Text
unfolding ascii_char
ascii_escape [] = []
ascii_escape (c ∷ s) = ascii_char c ++ ascii_escape s

unfoldable ascii_quoted : Text → Text
unfolding ascii_escape
ascii_quoted s = 34 ∷ (ascii_escape s ++ (34 ∷ []))

-- `json.dumps(meta, indent=2, sort_keys=True)` of a notebook, and a line feed
unfoldable folder_text : Text → Text → Text → Text
unfolding ascii_quoted
folder_text id parent_id title =
    text "{\n  \"id\": "
    ++ (ascii_quoted id
        ++ (text ",\n  \"parent_id\": "
            ++ (ascii_quoted parent_id
                ++ (text ",\n  \"schema\": 1,\n  \"title\": "
                    ++ (ascii_quoted title ++ text "\n}\n")))))

unfoldable pub note_format : Runtime → JsonLib → NoteFormat
unfolding folder_text
note_format rt lib = record {
  emit_note_file = emit_note_file rt;
  parse_note_file = parse_note_file rt lib;
  folder_json = folder_text;
}

folder_text_test :
    folder_text (text "f1") [] (233 ∷ 34 ∷ 128512 ∷ [])
    ≡ text
        "{\n  \"id\": \"f1\",\n  \"parent_id\": \"\",\n  \"schema\": 1,\n  \"title\": \"\\u00e9\\\"\\ud83d\\ude00\"\n}\n"
unfolding folder_text text nat_eq hex_digit escape_char
folder_text_test = refl
