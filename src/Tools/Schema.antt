-- ===== src/Tools/Schema.antt =====
-- `validate_schema_definition` of src/joplin_md_sync/tool_schema.py.
use joplin_md_sync.Base.{
  ℕ, zero, suc, Bool, true, false, not, Option, none, some, List, [], ◌∷◌, ◌++◌, ◌==◌, contains,
  nat_eq, list_eq, if◌then◌else◌,
}
use joplin_md_sync.Base.Text.{Text, text, join, text_leb}
use joplin_md_sync.Base.Sort.{sort}
use joplin_md_sync.Json.{
  Json, null, boolean, integer, float, string, array, object, Items, no_items, item, Fields,
  no_fields, field,
}
use joplin_md_sync.Json.Nesting.Depth.{fields_depth}
use joplin_md_sync.Tools.{
  Numbers, Verdict, accepted, refused, crashed, cut_off, both, refuse_if, get, names, without,
  SchemaKind, object_kind, array_kind, string_kind, integer_kind, number_kind, boolean_kind,
  kind_in, int_in, number_in, mapping_in, sequence_in, strings,
}

abbrev common : List Text
common = text "type" ∷ text "description" ∷ text "default" ∷ text "enum" ∷ []

-- `_KEYWORDS`
unfoldable pub keywords : SchemaKind → List Text
keywords object_kind = text "properties" ∷ text "required" ∷ text "additionalProperties" ∷ common
keywords array_kind = text "items" ∷ common
keywords string_kind = text "minLength" ∷ text "maxLength" ∷ common
keywords integer_kind = text "minimum" ∷ text "maximum" ∷ common
keywords number_kind = text "minimum" ∷ text "maximum" ∷ common
keywords boolean_kind = common

abbrev comma_joined : List Text → Text
comma_joined xs = join (text ", ") (sort text_leb xs)

unfoldable pub description_ok : Option Json → Bool
description_ok none = true
description_ok (some null) = true
description_ok (some (string s)) = true
description_ok _ = false

unfoldable pub enum_ok : Option Json → Bool
enum_ok none = true
enum_ok (some null) = true
enum_ok (some (array (item v vs))) = true
enum_ok _ = false

unfoldable pub all_mappings : Fields → Bool
all_mappings no_fields = true
all_mappings (field k (object c) rest) = all_mappings rest
all_mappings (field k v rest) = false

unfoldable pub all_strings : Items → Bool
all_strings no_items = true
all_strings (item (string s) rest) = all_strings rest
all_strings (item v rest) = false

unfoldable pub additional_ok : Option Json → Bool
additional_ok none = true
additional_ok (some (boolean b)) = true
additional_ok _ = false

-- `set(required_names)`
unfoldable pub distinct_names : List Text → List Text
distinct_names [] = []
distinct_names (x ∷ xs) = let rest = distinct_names xs in if contains rest x then rest else x ∷ rest

-- The rules on "required", on the names of the properties.
unfoldable pub check_required : List Text → Option Items → Text → Verdict
check_required known none path = refused path (text ".required must be an array of strings")
check_required known (some vs) path =
    both (refuse_if (not (all_strings vs)) path (text ".required must be an array of strings")) (
      let missing = without (distinct_names (strings vs)) known in
      refuse_if (not (missing == [])) path
        (text ".required names undefined properties: " ++ comma_joined missing))

-- Each property is checked in turn by `check`.
unfoldable pub check_properties : (Fields → Text → Verdict) → Fields → Text → Verdict
check_properties check no_fields path = accepted
check_properties check (field k (object c) rest) path =
    both (check c (path ++ (text ".properties." ++ k))) (check_properties check rest path)
check_properties check (field k v rest) path = crashed

unfoldable pub check_object : (Fields → Text → Verdict) → Option Fields → Fields → Text → Verdict
check_object check none fs path = refused path (text ".properties must map names to schemas")
check_object check (some ps) fs path =
    both (refuse_if (not (all_mappings ps)) path (text ".properties must map names to schemas")) (
      both (check_required (names ps) (sequence_in (get (text "required") fs)) path) (
        both
          (refuse_if (not (additional_ok (get (text "additionalProperties") fs))) path
            (text ".additionalProperties must be boolean"))
          (check_properties check ps path)))

unfoldable pub check_array : (Fields → Text → Verdict) → Option Json → Text → Verdict
check_array check (some (object c)) path = check c (path ++ text ".items")
check_array check _ path = refused path (text ".items must be a schema")

module _ (num : Numbers) where
  unfoldable pub length_ok : Option Json → Bool
  length_ok none = true
  length_ok (some null) = true
  length_ok (some (integer u)) = not (num.less u (text "0"))
  length_ok _ = false

  -- `_validate_nonnegative_integer_keyword`
  unfoldable pub check_length : Text → Fields → Text → Verdict
  check_length keyword fs path =
      refuse_if (not (length_ok (get keyword fs))) path
        (text "." ++ (keyword ++ text " must be a non-negative integer"))

  -- Two bounds, of which the second is less than the first.
  unfoldable pub crossed : Option Text → Option Text → Bool
  crossed (some low) (some high) = num.less high low
  crossed _ _ = false

  unfoldable pub check_string : Fields → Text → Verdict
  check_string fs path = both (check_length (text "minLength") fs path) (
      both (check_length (text "maxLength") fs path) (
        refuse_if
          (crossed (int_in (get (text "minLength") fs)) (int_in (get (text "maxLength") fs))) path
          (text ".minLength exceeds maxLength")))

  unfoldable pub finite_bound : Option Bool → Text → Text → Verdict
  finite_bound none message path = crashed
  finite_bound (some b) message path = refuse_if (not b) path message

  unfoldable pub check_bound : Text → Option Json → Text → Verdict
  check_bound message none path = accepted
  check_bound message (some null) path = accepted
  check_bound message (some (integer u)) path = finite_bound (num.finite u) message path
  check_bound message (some (float u)) path = finite_bound (num.finite u) message path
  check_bound message _ path = refused path message

  unfoldable pub check_bounds : Fields → Text → Verdict
  check_bounds fs path =
      both (check_bound (text ".minimum must be a finite number") (get (text "minimum") fs) path) (
        both (check_bound (text ".maximum must be a finite number") (get (text "maximum") fs) path)
          (refuse_if
            (crossed (number_in (get (text "minimum") fs)) (number_in (get (text "maximum") fs)))
            path (text ".minimum exceeds maximum")))

  unfoldable pub check_kind : (Fields → Text → Verdict) → SchemaKind → Fields → Text → Verdict
  check_kind check object_kind fs path =
      check_object check (mapping_in (get (text "properties") fs)) fs path
  check_kind check array_kind fs path = check_array check (get (text "items") fs) path
  check_kind check string_kind fs path = check_string fs path
  check_kind check integer_kind fs path = check_bounds fs path
  check_kind check number_kind fs path = check_bounds fs path
  check_kind check boolean_kind fs path = accepted

  unfoldable pub check_schema :
      (Fields → Text → Verdict) → Option SchemaKind → Fields → Text → Verdict
  check_schema check none fs path =
      refused path
        (text ".type must be one of ['array', 'boolean', 'integer', 'number', 'object', 'string']")
  check_schema check (some kind) fs path =
      both
        (let unknown = without (names fs) (keywords kind) in
          refuse_if (not (unknown == [])) path
            (text " uses unsupported keyword(s): " ++ comma_joined unknown))
        (both
          (refuse_if (not (description_ok (get (text "description") fs))) path
            (text ".description must be a string"))
          (both
            (refuse_if (not (enum_ok (get (text "enum") fs))) path
              (text ".enum must be a non-empty array"))
            (check_kind check kind fs path)))

  -- `validate_schema_definition`, with a bound on the depth.
  unfoldable pub validate_schema : ℕ → Fields → Text → Verdict
  validate_schema zero fs path = cut_off
  validate_schema (suc n) fs path =
      check_schema (validate_schema n) (kind_in (get (text "type") fs)) fs path

  -- `validate_schema_definition`: a schema within another is less deep.
  unfoldable pub validate_schema_definition : Fields → Text → Verdict
  validate_schema_definition fs path = validate_schema (suc (fields_depth fs)) fs path
