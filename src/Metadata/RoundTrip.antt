-- ===== src/Metadata/RoundTrip.antt =====
-- `parse_note_file` of src/joplin_md_sync/metadata.py on what `emit_note_file` writes.
use joplin_md_sync.Base.{
  ℕ, suc, ◌≡◌, refl, ap, sym, ◌∙◌, ◌<◌, true, Option, none, some, OnSome, inl, inr, List, [], ◌∷◌,
  ◌++◌, nat_eq, list_eq, arith,
}
use joplin_md_sync.Base.Text.{
  Text, text, starts_with, replace_after, text_leb, Lacks, Lacks-append, append_assoc,
  starts_with-append,
}
use joplin_md_sync.Base.Dict.{lookup, insert, keys}
use joplin_md_sync.Base.Sort.{sort}
use joplin_md_sync.Runtime.{Runtime, IsStableCase}
use joplin_md_sync.Canonical.{canonicalize_body, canonicalize_tags}
use joplin_md_sync.Canonical.Body.{canonicalize_body-Lacks, canonicalize_body_of_Lacks}
use joplin_md_sync.Canonical.Tags.{canonicalize_tags_idem}
use joplin_md_sync.Json.{
  Fields, integer, string, array, object, field, no_fields, array_of, object_of, elements,
  insert_fields, dumps, dump_fields, dump_items, quoted,
}
use joplin_md_sync.Json.Scan.{scan_value, scanned, loads}
use joplin_md_sync.Json.Mask.{mask}
use joplin_md_sync.Json.Steps.{IsSpelled, Readable, ReadableItems, IsEnd}
use joplin_md_sync.Json.RoundTrip.{loads-dumps}
use joplin_md_sync.Metadata.{
  ◌>>=◌, is_parsed, JsonLib, header_prefix, header_suffix, is_valid_note_id, payload_of,
  serialize_header, emit_note_file, texts_of, parsed_of, payload_in, ends_with, parse_lines,
  parse_note_file, passed, partition, has_header,
}
use joplin_md_sync.Metadata.Line.{
  quoted-Lacks, dump_items-Lacks, mask-Lacks, partition-append, ends_with-append,
  payload_in-between,
}

-- The number one, in front of what can follow it.
module _ (n : ℕ) (s : Text) where
  spelled_44 : scan_value (suc n) (mask (49 ∷ 44 ∷ s)) ≡ scanned (integer (49 ∷ [])) (mask (44 ∷ s))
  unfolding scan_value mask replace_after starts_with text nat_eq list_eq
  spelled_44 = refl

  spelled_93 : scan_value (suc n) (mask (49 ∷ 93 ∷ s)) ≡ scanned (integer (49 ∷ [])) (mask (93 ∷ s))
  unfolding scan_value mask replace_after starts_with text nat_eq list_eq
  spelled_93 = refl

  spelled_125 :
      scan_value (suc n) (mask (49 ∷ 125 ∷ s)) ≡ scanned (integer (49 ∷ [])) (mask (125 ∷ s))
  unfolding scan_value mask replace_after starts_with text nat_eq list_eq
  spelled_125 = refl

spelled_nil : (n : ℕ) → scan_value (suc n) (mask (49 ∷ [])) ≡ scanned (integer (49 ∷ [])) (mask [])
unfolding scan_value mask replace_after starts_with text nat_eq list_eq
spelled_nil n = refl

one_spelled :
    (n : ℕ) (rest : Text)
    → IsEnd rest
    → scan_value (suc n) (mask (49 ∷ rest)) ≡ scanned (integer (49 ∷ [])) (mask rest)
one_spelled n [] h = spelled_nil n
one_spelled n (c ∷ s) (inl p) = rw p (spelled_44 n s)
one_spelled n (c ∷ s) (inr (inl p)) = rw p (spelled_93 n s)
one_spelled n (c ∷ s) (inr (inr p)) = rw p (spelled_125 n s)

one-IsSpelled : IsSpelled (text "1") (integer (text "1"))
unfolding scan_value mask replace_after starts_with text nat_eq list_eq
one-IsSpelled = record { spelled = one_spelled; opens = λ rest. refl; not_nil = omega arith }

array_of-Readable : (ts : List Text) → ReadableItems (array_of ts)
unfolding array_of
array_of-Readable [] = tt
array_of-Readable (t ∷ ts) = (tt, array_of-Readable ts)

texts_of-elements : (ts : List Text) → texts_of (elements (array_of ts)) ≡ some ts
unfolding texts_of elements array_of
texts_of-elements [] = refl
texts_of-elements (t ∷ ts) = rw (texts_of-elements ts) refl

abbrev tail_fields : Text → List Text → Fields
tail_fields title ts =
    field (text "schema") (integer (text "1"))
      (field (text "tags") (array (array_of ts)) (field (text "title") (string title) no_fields))

abbrev header_fields : Option Text → Text → List Text → Fields
header_fields none title ts = tail_fields title ts
header_fields (some nid) title ts = field (text "id") (string nid) (tail_fields title ts)

module _ (rt : Runtime) where
  payload_of-sorted :
      (o : Option Text) (title : Text) (tags : List Text)
      → payload_of rt o title tags
        ≡ mask (dumps (object (header_fields o title (canonicalize_tags rt tags))))
  unfolding payload_of sort text text_leb nat_eq object_of
  payload_of-sorted none title tags = refl
  payload_of-sorted (some nid) title tags = refl

header_fields-Readable :
    (o : Option Text) (title : Text) (ts : List Text) → Readable (object (header_fields o title ts))
header_fields-Readable none title ts = (one-IsSpelled, (array_of-Readable ts, (tt, tt)))
header_fields-Readable (some nid) title ts = (tt, (one-IsSpelled, (array_of-Readable ts, (tt, tt))))

module _ (x : ℕ) (low : x < 32) where
  pair-Lacks : (k d t : Text) → Lacks x d → Lacks x t → Lacks x (quoted k ++ (58 ∷ (d ++ t)))
  pair-Lacks k d t h e =
      Lacks-append x (quoted k) _ (quoted-Lacks x low k) (omega arith, Lacks-append x d t h e)

  fields-Lacks : (title : Text) (ts : List Text) → Lacks x (dump_fields (tail_fields title ts))
  unfolding dumps text
  fields-Lacks title ts =
      pair-Lacks (text "schema") (text "1") _ (omega arith, tt)
        (
          omega arith,
          pair-Lacks (text "tags") (91 ∷ dump_items (array_of ts)) _
              (omega arith, dump_items-Lacks x low ts)
              (
                omega arith,
                pair-Lacks (text "title") (quoted title) _ (quoted-Lacks x low title)
                    (omega arith, tt),
              ),
        )

  header_fields-Lacks :
      (o : Option Text) (title : Text) (ts : List Text)
      → Lacks x (dumps (object (header_fields o title ts)))
  unfolding dumps
  header_fields-Lacks none title ts = (omega arith, fields-Lacks title ts)
  header_fields-Lacks (some nid) title ts = (
    omega arith,
    pair-Lacks (text "id") (quoted nid) _ (quoted-Lacks x low nid)
        (omega arith, fields-Lacks title ts),
  )

  prefix-Lacks : Lacks x header_prefix
  unfolding header_prefix text
  prefix-Lacks = ground arith

  suffix-Lacks : Lacks x header_suffix
  unfolding header_suffix text
  suffix-Lacks = ground arith

  module _ (rt : Runtime) where
    serialize_header-Lacks :
        (o : Option Text) (title : Text) (tags : List Text)
        → Lacks x (serialize_header rt o title tags)
    unfolding serialize_header
    serialize_header-Lacks o title tags = Lacks-append x header_prefix _ prefix-Lacks (
        Lacks-append x (payload_of rt o title tags) header_suffix
          (rw (payload_of-sorted rt o title tags)
            (mask-Lacks x low _ (header_fields-Lacks o title (canonicalize_tags rt tags))))
          suffix-Lacks)

module _ (rt : Runtime) (law : IsStableCase rt) (lib : JsonLib) where
  tags-canonical :
      (tags : List Text)
      → canonicalize_tags rt (canonicalize_tags rt tags) ≡ canonicalize_tags rt tags
  tags-canonical tags = canonicalize_tags_idem rt law tags

  parsed_of-header :
      (o : Option Text) (title : Text) (ts : List Text) (body : Text)
      → OnSome (λ nid. is_valid_note_id nid ≡ true) o
      → parsed_of rt lib (insert_fields (header_fields o title ts) []) (10 ∷ body)
        ≡ passed
            (record { note_id = o; title = title; tags = canonicalize_tags rt ts; body = body })
  unfolding parsed_of ◌>>=◌ insert_fields lookup insert keys text nat_eq list_eq
  parsed_of-header none title ts body h = rw (texts_of-elements ts) refl
  parsed_of-header (some nid) title ts body h = rw (h, texts_of-elements ts) refl

  loads-payload_of :
      (o : Option Text) (title : Text) (tags : List Text)
      → loads (payload_of rt o title tags)
        ≡ some (object (header_fields o title (canonicalize_tags rt tags)))
  loads-payload_of o title tags =
      ap loads (payload_of-sorted rt o title tags)
      ∙ loads-dumps _ (header_fields-Readable o title (canonicalize_tags rt tags))

  module _ (o : Option Text) (title : Text) (tags : List Text) (body : Text) where
    partition-emit :
        partition (canonicalize_body (emit_note_file rt o title tags body))
        ≡ (serialize_header rt o title tags, 10 ∷ canonicalize_body body)
    unfolding emit_note_file
    partition-emit =
        rw
          (canonicalize_body_of_Lacks (emit_note_file rt o title tags body) (
            Lacks-append 13 (serialize_header rt o title tags) _
              (serialize_header-Lacks 13 (omega arith) rt o title tags)
              (omega arith, (omega arith, canonicalize_body-Lacks body))))
          (partition-append (serialize_header rt o title tags) (10 ∷ canonicalize_body body)
            (serialize_header-Lacks 10 (omega arith) rt o title tags))

    ends_with-header : ends_with (serialize_header rt o title tags) header_suffix ≡ true
    unfolding serialize_header
    ends_with-header =
        rw (sym (append_assoc header_prefix (payload_of rt o title tags) header_suffix))
          (ends_with-append (header_prefix ++ payload_of rt o title tags) header_suffix)

    starts_with-header : starts_with (serialize_header rt o title tags) header_prefix ≡ true
    unfolding serialize_header
    starts_with-header = starts_with-append header_prefix _

    payload_in-header : payload_in (serialize_header rt o title tags) ≡ payload_of rt o title tags
    unfolding serialize_header
    payload_in-header = payload_in-between (payload_of rt o title tags)

    parse_lines-header :
        OnSome (λ nid. is_valid_note_id nid ≡ true) o
        → parse_lines rt lib (serialize_header rt o title tags) (10 ∷ canonicalize_body body)
          ≡ passed (record {
            note_id = o;
            title = title;
            tags = canonicalize_tags rt tags;
            body = canonicalize_body body;
          })
    unfolding parse_lines ◌>>=◌
    parse_lines-header h =
        rw (starts_with-header, ends_with-header, payload_in-header, loads-payload_of o title tags)
          (parsed_of-header o title (canonicalize_tags rt tags) (canonicalize_body body) h
            ∙ ap
                (λ ts.
                  passed (record {
                    note_id = o;
                    title = title;
                    tags = ts;
                    body = canonicalize_body body;
                  }))
                (tags-canonical tags))

    -- Parsing what `emit_note_file` writes gives the id and the title unchanged, the canonical
    -- tags and the canonical body, whatever characters they have. Conditions: lower case is
    -- stable, and the id, if there is one, is valid.
    pub parse_note_file-emit_note_file :
        OnSome (λ nid. is_valid_note_id nid ≡ true) o
        → parse_note_file rt lib (emit_note_file rt o title tags body)
          ≡ is_parsed (record {
            note_id = o;
            title = title;
            tags = canonicalize_tags rt tags;
            body = canonicalize_body body;
          })
    unfolding parse_note_file
    parse_note_file-emit_note_file h = rw (partition-emit, parse_lines-header h) refl

    pub has_header-emit_note_file : has_header (emit_note_file rt o title tags body) ≡ true
    unfolding has_header
    has_header-emit_note_file = rw partition-emit starts_with-header
