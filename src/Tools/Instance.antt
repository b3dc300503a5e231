-- ===== src/Tools/Instance.antt =====
-- `validate_instance` of src/joplin_md_sync/tool_schema.py.
use joplin_md_sync.Base.{
  ℕ, suc, Bool, true, false, not, ◌||◌, Option, none, some, List, [], ◌∷◌, ◌++◌, nat_eq, list_eq,
  if◌then◌else◌,
}
use joplin_md_sync.Base.Text.{Text, text, length, text_leb}
use joplin_md_sync.Base.Sort.{sort}
use joplin_md_sync.Base.Numbers.Decimal.{decimal}
use joplin_md_sync.Json.{
  Json, null, boolean, integer, string, array, object, Items, no_items, item, Fields, no_fields,
  field,
}
use joplin_md_sync.Tools.{
  Numbers, Verdict, accepted, refused, crashed, both, refuse_if, get, names, without, SchemaKind,
  object_kind, array_kind, string_kind, integer_kind, number_kind, boolean_kind, kind_in, int_in,
  number_in, mapping_in, sequence_in, strings,
}

-- A list that is not empty is refused by its first member.
unfoldable pub refuse_first : List Text → Text → Text → Verdict
refuse_first [] path message = accepted
refuse_first (x ∷ xs) path message = refused path (message ++ x)

-- `schema.get("additionalProperties", True) is False`
unfoldable pub is_closed : Option Json → Bool
is_closed (some (boolean false)) = true
is_closed _ = false

unfoldable pub check_names : List Text → Fields → Option Fields → Option Items → Text → Verdict
check_names given fs (some ps) (some required) path =
    both (refuse_first (without (strings required) given) path (text "missing required property: "))
      (if is_closed (get (text "additionalProperties") fs)
        then refuse_first (sort text_leb (without given (names ps))) path
            (text "unexpected property: ")
        else accepted)
check_names given fs _ _ path = crashed

-- A property without a schema is not checked.
unfoldable pub by_schema : (Fields → Verdict) → Option Json → Verdict
by_schema check none = accepted
by_schema check (some null) = accepted
by_schema check (some (object c)) = check c
by_schema check (some _) = crashed

unfoldable pub properties_in : Option Fields → Fields
properties_in none = no_fields
properties_in (some ps) = ps

unfoldable pub check_items : Option Json → Verdict
check_items (some (object c)) = accepted
check_items _ = crashed

unfoldable pub on_kind {ℓ} : {A : Type ℓ} → Option A → Text → Text → (A → Verdict) → Verdict
on_kind none path message check = refused path message
on_kind (some a) path message check = check a

unfoldable pub fields_in : Json → Option Fields
fields_in (object vs) = some vs
fields_in _ = none

unfoldable pub array_in : Json → Option Items
array_in (array vs) = some vs
array_in _ = none

unfoldable pub string_in : Json → Option Text
string_in (string s) = some s
string_in _ = none

unfoldable pub boolean_in : Json → Option Bool
boolean_in (boolean b) = some b
boolean_in _ = none

unfoldable pub integer_in : Json → Option Text
integer_in (integer u) = some u
integer_in _ = none

module _ (num : Numbers) where
  unfoldable pub member : Json → Items → Bool
  member v no_items = false
  member v (item w rest) = num.equal v w || member v rest

  unfoldable pub check_enum : Json → Option Json → Text → Verdict
  check_enum v (some (array vs)) path =
      refuse_if (not (member v vs)) path (text "value is not in the allowed enum")
  check_enum v _ path = accepted

  unfoldable pub check_min : Option Text → Text → Text → Text → Verdict
  check_min none u path message = accepted
  check_min (some low) u path message = refuse_if (num.less u low) path message

  unfoldable pub check_max : Option Text → Text → Text → Text → Verdict
  check_max none u path message = accepted
  check_max (some high) u path message = refuse_if (num.less high u) path message

  unfoldable pub shown_in : Option Json → Text
  shown_in none = []
  shown_in (some v) = num.shown v

  unfoldable pub check_text : Text → Fields → Text → Verdict
  check_text s fs path =
      let low = get (text "minLength") fs in
      let high = get (text "maxLength") fs in
      both
        (check_min (int_in low) (decimal (length s)) path
          (text "must contain at least " ++ (shown_in low ++ text " characters")))
        (check_max (int_in high) (decimal (length s)) path
          (text "must contain at most " ++ (shown_in high ++ text " characters")))

  -- `_validate_numeric_instance`
  unfoldable pub check_number : Text → Fields → Text → Verdict
  check_number u fs path =
      let low = get (text "minimum") fs in
      let high = get (text "maximum") fs in
      both (check_min (number_in low) u path (text "must be at least " ++ shown_in low))
        (check_max (number_in high) u path (text "must be at most " ++ shown_in high))

  unfoldable pub check_finite : Option Bool → Text → Fields → Text → Verdict
  check_finite none u fs path = crashed
  check_finite (some b) u fs path =
      both (refuse_if (not b) path (text "must be a finite number")) (check_number u fs path)

  -- The branch of the schema's type, up to the values within the value.
  unfoldable pub match_kind : Json → Fields → Text → SchemaKind → Verdict
  match_kind v fs path object_kind =
      on_kind (fields_in v) path (text "must be an object with string keys") (λ vs.
        check_names (names vs) fs (mapping_in (get (text "properties") fs))
          (sequence_in (get (text "required") fs)) path)
  match_kind v fs path array_kind =
      on_kind (array_in v) path (text "must be an array")
        (λ vs. check_items (get (text "items") fs))
  match_kind v fs path string_kind =
      on_kind (string_in v) path (text "must be a string") (λ s. check_text s fs path)
  match_kind v fs path boolean_kind =
      on_kind (boolean_in v) path (text "must be a boolean") (λ b. accepted)
  match_kind v fs path integer_kind =
      on_kind (integer_in v) path (text "must be an integer") (λ u. check_number u fs path)
  match_kind v fs path number_kind =
      on_kind (number_in (some v)) path (text "must be a finite number")
        (λ u. check_finite (num.finite u) u fs path)

  unfoldable pub match_kind_in : Json → Fields → Text → Option SchemaKind → Verdict
  match_kind_in v fs path none = crashed
  match_kind_in v fs path (some kind) = match_kind v fs path kind

  -- All of `validate_instance` but its calls of itself.
  unfoldable pub check_value : Json → Fields → Text → Option Json → Verdict
  check_value v fs path none = crashed
  check_value v fs path (some t) =
      both (check_enum v (get (text "enum") fs) path) (match_kind_in v fs path (kind_in (some t)))

  -- Containers go on to their members, which is reached only if the schema is of their type.
  unfoldable mutual
    pub validate_instance : Json → Fields → Text → Verdict
    validate_instance (object vs) fs path =
        both (check_value (object vs) fs path (get (text "type") fs))
          (validate_fields vs (properties_in (mapping_in (get (text "properties") fs))) path)
    validate_instance (array vs) fs path =
        both (check_value (array vs) fs path (get (text "type") fs))
          (validate_items vs (get (text "items") fs) path 0)
    validate_instance v fs path = check_value v fs path (get (text "type") fs)

    pub validate_fields : Fields → Fields → Text → Verdict
    validate_fields no_fields ps path = accepted
    validate_fields (field k v rest) ps path =
        both (by_schema (λ c. validate_instance v c (path ++ (text "." ++ k))) (get k ps))
          (validate_fields rest ps path)

    pub validate_items : Items → Option Json → Text → ℕ → Verdict
    validate_items no_items schema path i = accepted
    validate_items (item v rest) schema path i =
        both
          (by_schema (λ c. validate_instance v c (path ++ (text "[" ++ (decimal i ++ text "]"))))
            schema)
          (validate_items rest schema path (suc i))
