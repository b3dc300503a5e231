-- ===== src/Metadata.antt =====
-- src/joplin_md_sync/metadata.py: the header line of a note file, which is written and parsed.
pub mod Line
pub mod RoundTrip
pub mod Sound
use joplin_md_sync.Base.{
  ℕ, zero, suc, ◌-◌, Bool, true, false, not, ◌&&◌, ◌||◌, Option, none, some, List, [], ◌∷◌, ◌++◌,
  ◌==◌, nat_eq, list_eq, leb, contains, if◌then◌else◌,
}
use joplin_md_sync.Base.Text.{Text, text, take, drop, length, starts_with, join, text_leb}
use joplin_md_sync.Base.Dict.{Dict, keys, lookup}
use joplin_md_sync.Base.Sort.{sort}
use joplin_md_sync.Runtime.{Runtime}
use joplin_md_sync.Canonical.{canonicalize_body, canonicalize_tags}
use joplin_md_sync.Json.{
  Json, null, boolean, integer, float, string, array, object, elements, insert_fields, object_of,
  array_of, dumps,
}
use joplin_md_sync.Json.Scan.{loads}
use joplin_md_sync.Json.Mask.{mask}

-- `ParsedNoteFile`, or the message of the MetadataError.
pub record ParsedNoteFile : Type 0 where
  pub note_id : Option Text
  pub title : Text
  pub tags : List Text
  pub body : Text

pub data ParseResult : Type 0 where
  is_parsed : ParsedNoteFile → ParseResult
  is_malformed : Text → ParseResult

-- What Python says of JSON texts and values that the model does not compute: the message of a
-- JSONDecodeError, whether a number with a fraction or an exponent equals one, and `repr`.
pub record JsonLib : Type 0 where
  pub decode_error : Text → Text
  pub float_is_one : Text → Bool
  pub repr : Option Json → Text

unfoldable pub header_prefix : Text
unfolding text
header_prefix = text "<!-- joplin-md-sync: "

unfoldable pub header_suffix : Text
unfolding text
header_suffix = text " -->"

-- `^[0-9a-f]{32}$`, in which `$` also matches before a line feed at the end.
unfoldable pub is_hex : ℕ → Bool
is_hex c = (leb 48 c && leb c 57) || (leb 97 c && leb c 102)

unfoldable pub hex_run : ℕ → Text → Bool
unfolding is_hex
hex_run zero [] = true
hex_run zero (c ∷ s) = c == 10 && s == []
hex_run (suc n) [] = false
hex_run (suc n) (c ∷ s) = is_hex c && hex_run n s

unfoldable pub is_valid_note_id : Text → Bool
unfolding hex_run
is_valid_note_id s = hex_run 32 s

abbrev field_leb : Text × Json → Text × Json → Bool
field_leb a b = text_leb a.0 b.0

-- `s.partition("\n")`, without the separator
unfoldable pub partition : Text → Text × Text
partition [] = ([], [])
partition (c ∷ s) = let rest = partition s in if c == 10 then ([], s) else (c ∷ rest.0, rest.1)

unfoldable pub ends_with : Text → Text → Bool
ends_with [] p = [] == p
ends_with (c ∷ s) p = (c ∷ s) == p || ends_with s p

module _ (rt : Runtime) where
  -- The dict `meta`, in the order of its insertions.
  unfoldable pub meta_of : Option Text → Text → List Text → Dict Text Json
  meta_of note_id title tags =
      (text "schema", integer (text "1"))
      ∷ (text "tags", array (array_of (canonicalize_tags rt tags)))
      ∷ (text "title", string title)
      ∷ (elim note_id [ none ↦ [] | some nid ↦ (text "id", string nid) ∷ [] ])

  unfoldable pub payload_of : Option Text → Text → List Text → Text
  unfolding meta_of
  payload_of note_id title tags =
      mask (dumps (object (object_of (sort field_leb (meta_of note_id title tags)))))

  unfoldable pub serialize_header : Option Text → Text → List Text → Text
  unfolding payload_of
  serialize_header note_id title tags =
      header_prefix ++ (payload_of note_id title tags ++ header_suffix)

  unfoldable pub emit_note_file : Option Text → Text → List Text → Text → Text
  unfolding serialize_header
  emit_note_file note_id title tags body =
      serialize_header note_id title tags ++ (10 ∷ 10 ∷ canonicalize_body body)

-- A value, or the message of a MetadataError.
pub data Checked {ℓ} (A : Type ℓ) : Type ℓ where
  passed : A → Checked A
  failed : Text → Checked A

module _ {ℓ κ} {A : Type ℓ} {B : Type κ} where
  infixl 5 ◌>>=◌
  unfoldable pub ◌>>=◌ : Checked A → (A → Checked B) → Checked B
  passed a >>= k = k a
  failed message >>= k = failed message

unfoldable pub check : Bool → Text → Checked (Unit {0})
check true message = passed tt
check false message = failed message

module _ (lib : JsonLib) where
  -- `value == 1`, which also holds of `True`
  unfoldable pub equals_one : Json → Bool
  equals_one (boolean b) = b
  equals_one (integer u) = u == text "1"
  equals_one (float u) = lib.float_is_one u
  equals_one v = false

  unfoldable pub has_schema : Option Json → Bool
  unfolding equals_one
  has_schema none = false
  has_schema (some v) = equals_one v

abbrev bad_id : Text
bad_id = text "metadata 'id' must be a 32-character lowercase hex string"

unfoldable pub id_of : Option Json → Checked (Option Text)
unfolding check
id_of none = passed none
id_of (some null) = passed none
id_of (some (string s)) = if is_valid_note_id s then passed (some s) else failed bad_id
id_of (some v) = failed bad_id

unfoldable pub title_of : Option Json → Checked Text
title_of (some (string s)) = passed s
title_of v = failed (text "metadata 'title' must be a string")

unfoldable pub texts_of : List Json → Option (List Text)
texts_of [] = some []
texts_of (string s ∷ vs) = elim (texts_of vs) [ none ↦ none | some ts ↦ some (s ∷ ts) ]
texts_of (v ∷ vs) = none

unfoldable pub all_texts : Option (List Text) → Checked (List Text)
all_texts (some ts) = passed ts
all_texts none = failed (text "metadata 'tags' must be an array of strings")

unfoldable pub tags_of : Option Json → Checked (List Text)
unfolding texts_of all_texts elements
tags_of none = passed []
tags_of (some (array vs)) = all_texts (texts_of (elements vs))
tags_of (some v) = all_texts none

unfoldable pub unknown_keys : List Text → List Text
unknown_keys [] = []
unknown_keys (k ∷ ks) =
    let rest = unknown_keys ks in
    if contains (text "id" ∷ text "schema" ∷ text "tags" ∷ text "title" ∷ []) k
    then rest
    else k ∷ rest

unfoldable pub body_of : Text → Checked Text
body_of [] = passed []
body_of (c ∷ s) =
    if c == 10 then passed s else failed (text "metadata header must be followed by one blank line")

unfoldable pub object_in : Option Json → Text → Checked (Dict Text Json)
unfolding insert_fields
object_in none message = failed (text "metadata header is not valid JSON: " ++ message)
object_in (some (object fs)) message = passed (insert_fields fs [])
object_in (some v) message = failed (text "metadata header must be a JSON object")

-- The part of the line between the prefix and the suffix.
unfoldable pub payload_in : Text → Text
payload_in line = drop (length header_prefix) (take (length line - length header_suffix) line)

module _ (rt : Runtime) (lib : JsonLib) where
  unfoldable pub parsed_of : Dict Text Json → Text → Checked ParsedNoteFile
  unfolding has_schema id_of title_of tags_of unknown_keys body_of check
  parsed_of meta rest = do
    _ ← check (has_schema lib (lookup (text "schema") meta)) (
        text "unsupported metadata schema "
        ++ (lib.repr (lookup (text "schema") meta) ++ text ", expected 1"))
    note_id ← id_of (lookup (text "id") meta)
    title ← title_of (lookup (text "title") meta)
    tags ← tags_of (lookup (text "tags") meta)
    _ ← check (unknown_keys (keys meta) == []) (
        text "unknown metadata keys: "
        ++ join (text ", ") (sort text_leb (unknown_keys (keys meta))))
    body ← body_of rest
    passed
        (record { note_id = note_id; title = title; tags = canonicalize_tags rt tags; body = body })

  unfoldable pub parse_lines : Text → Text → Checked ParsedNoteFile
  unfolding object_in check
  parse_lines line rest = do
    _ ←
        check (starts_with line header_prefix)
          (text "missing joplin-md-sync metadata header on the first line")
    _ ←
        check (ends_with line header_suffix)
          (text "metadata header is not a single-line HTML comment")
    meta ← object_in (loads (payload_in line)) (lib.decode_error (payload_in line))
    parsed_of meta rest

  unfoldable pub parse_result_of : Checked ParsedNoteFile → ParseResult
  parse_result_of (passed p) = is_parsed p
  parse_result_of (failed message) = is_malformed message

  unfoldable pub parse_note_file : Text → ParseResult
  unfolding parse_lines parse_result_of
  parse_note_file s =
      let lines = partition (canonicalize_body s) in parse_result_of (parse_lines lines.0 lines.1)

-- `has_header`
unfoldable pub has_header : Text → Bool
has_header s = starts_with (partition (canonicalize_body s)).0 header_prefix
