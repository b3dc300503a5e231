-- ===== src/Tests/Tools.antt =====
-- The nesting of JSON texts, the schemas of tools, and the snapshot of Joplin: runs, and the
-- theorems applied to them.
use joplin_md_sync.Base.{◌≡◌, ◌≢◌, refl, arith, true, false, some, ltb, nat_eq, list_eq}
use joplin_md_sync.Base.Text.{text, join, text_leb}
use joplin_md_sync.Base.Sort.{sort}
use joplin_md_sync.Base.Numbers.Decimal.{decimal, value_from}
use joplin_md_sync.Base.Numbers.Utf8.{encode, utf8_char}
use joplin_md_sync.Json.{
  Json, boolean, integer, string, array, object, no_items, item, Fields, no_fields, field, dumps,
}
use joplin_md_sync.Json.Nesting.{json_nesting_exceeds, max_json_nesting}
use joplin_md_sync.Json.Nesting.Depth.{max, depth, fields_depth}
use joplin_md_sync.Json.Nesting.Count.{json_nesting_exceeds-dumps}
use joplin_md_sync.Tools.{
  Numbers, accepted, refused, crashed, both, refuse_if, get, names, without, kind_in, kind_named,
  int_in, number_in, mapping_in, sequence_in, strings,
}
use joplin_md_sync.Tools.Schema
use joplin_md_sync.Tools.Instance
use joplin_md_sync.Tools.Schema.{validate_schema_definition}
use joplin_md_sync.Tools.Instance.{validate_instance}
use joplin_md_sync.Tools.Calm.{IsRanged}
use joplin_md_sync.Tools.Safe.{validate_instance-ne-crashed}

abbrev nested : Json
nested = object (
    field (text "a\\\"]") (array (item (array no_items) (item (string (text "[[")) no_items)))
      no_fields)

nested_depth : depth nested ≡ 3
unfolding depth
nested_depth = refl

nested_exceeds : json_nesting_exceeds 2 (encode (dumps nested)) ≡ true
unfolding json_nesting_exceeds encode utf8_char dumps text nat_eq
nested_exceeds = refl

json_nesting_exceeds-dumps_example :
    json_nesting_exceeds max_json_nesting (encode (dumps nested))
    ≡ ltb max_json_nesting (depth nested)
json_nesting_exceeds-dumps_example =
    json_nesting_exceeds-dumps max_json_nesting nested ((tt, (tt, tt)), tt)

abbrev num : Numbers
num = record {
  less = λ u v. ltb (value_from 0 u) (value_from 0 v);
  finite = λ u. some true;
  equal = λ v w. true;
  shown = λ v. dumps v;
}

abbrev schema : Fields
schema = field (text "type") (string (text "object")) (
    field (text "required") (array (item (string (text "id")) no_items)) (
      field (text "additionalProperties") (boolean false) (
        field (text "properties")
          (object (
            field (text "id")
              (object (
                field (text "type") (string (text "string"))
                  (field (text "minLength") (integer (text "2")) no_fields)))
              (field (text "order")
                (object (field (text "type") (string (text "number")) no_fields)) no_fields)))
          no_fields)))

schema_accepted : validate_schema_definition num schema (text "$") ≡ accepted
unfolding validate_schema_definition fields_depth max both refuse_if get names without kind_in
    kind_named int_in mapping_in sequence_in strings text nat_eq list_eq sort join text_leb
    Schema.validate_schema Schema.check_schema Schema.keywords Schema.description_ok Schema.enum_ok
    Schema.check_kind Schema.check_object Schema.all_mappings Schema.check_required
    Schema.distinct_names Schema.all_strings Schema.additional_ok Schema.check_properties
    Schema.check_string Schema.check_length Schema.length_ok Schema.crossed number_in
    Schema.check_bounds Schema.check_bound Schema.finite_bound
schema_accepted = refl

abbrev short : Json
short =
    object
      (field (text "order") (integer (text "3")) (field (text "id") (string (text "x")) no_fields))

short_refused :
    validate_instance num short schema (text "$")
    ≡ refused (text "$.id") (text "must contain at least 2 characters")
unfolding validate_instance both refuse_if get names without kind_in kind_named int_in mapping_in
    sequence_in strings text nat_eq list_eq dumps decimal sort text_leb Instance.check_value
    Instance.check_enum Instance.match_kind_in Instance.match_kind Instance.on_kind
    Instance.fields_in Instance.check_names Instance.refuse_first Instance.is_closed
    Instance.by_schema Instance.properties_in Instance.string_in Instance.check_text
    Instance.check_min Instance.check_max Instance.shown_in Instance.check_finite
    Instance.check_number number_in
short_refused = refl

short-IsRanged : IsRanged num short
short-IsRanged = ((λ e. ground arith), (tt, tt))

validate_instance-ne-crashed_example : validate_instance num short schema (text "$") ≢ crashed
validate_instance-ne-crashed_example =
    validate_instance-ne-crashed num schema (text "$") schema_accepted short (text "$")
      short-IsRanged
