-- ===== src/Tools/Safe.antt =====
-- How `validate_instance` of src/joplin_md_sync/tool_schema.py ends on a schema that was validated.
use joplin_md_sync.Base.{
  ℕ, zero, suc, ◌≡◌, ◌≢◌, refl, ap, Option, none, some, nat_eq, list_eq, arith,
}
use joplin_md_sync.Base.Text.{Text, text}
use joplin_md_sync.Json.{
  Json, null, boolean, integer, float, string, array, object, Items, no_items, item, Fields,
  no_fields, field,
}
use joplin_md_sync.Tools.{
  Numbers, Verdict, accepted, crashed, get, names, SchemaKind, object_kind, array_kind, string_kind,
  integer_kind, number_kind, boolean_kind, kind_in, number_in, mapping_in,
}
use joplin_md_sync.Tools.Schema
use joplin_md_sync.Tools.Schema.{
  check_required, check_properties, check_object, check_array, check_schema, validate_schema,
}
use joplin_md_sync.Tools.Instance
use joplin_md_sync.Tools.Instance.{
  on_kind, fields_in, array_in, string_in, boolean_in, integer_in, refuse_first, check_names,
  check_items, member, check_enum, check_min, check_max, check_text, check_number, check_finite,
  match_kind_in, check_value, by_schema, properties_in, validate_instance, validate_fields,
  validate_items,
}
use joplin_md_sync.Tools.Calm.{
  IsCalm, both-accepted, both-IsCalm, on_kind-IsCalm, check_enum-IsCalm, check_text-IsCalm,
  check_number-IsCalm, check_finite-IsCalm, IsRanged, AreRanged, FieldsRanged, finite-number_in,
  on_kind-IsCalm_if,
}
use joplin_md_sync.Tools.Checked.{
  IsChecked, by_schema-IsCalm, object-IsCalm, items-IsCalm, properties-IsChecked,
}
use joplin_md_sync.Tools.Schema.{validate_schema_definition}

module _ (num : Numbers) where
  -- A schema that passed: it has a type, and the rules of that type hold.
  record Passes (check : Fields → Text → Verdict) (fs : Fields) : Type 0 where
    kind : SchemaKind
    path : Text
    at : kind_in (get (text "type") fs) ≡ some kind
    rules : Schema.check_kind num check kind fs path ≡ accepted

  check_schema-Passes :
      (check : Fields → Text → Verdict) (fs : Fields) (path : Text) (o : Option SchemaKind)
      → kind_in (get (text "type") fs) ≡ o
      → check_schema num check o fs path ≡ accepted
      → Passes check fs
  unfolding check_schema
  check_schema-Passes check fs path none e h = ground arith
  check_schema-Passes check fs path (some kind) e h = record {
    kind = kind;
    path = path;
    at = e;
    rules = (both-accepted _ _ (both-accepted _ _ (both-accepted _ _ h).1).1).1;
  }

  check_kind-IsCalm :
      (check : Fields → Text → Verdict) (v : Json) (fs : Fields) (path q : Text) (kind : SchemaKind)
      → IsRanged num v
      → Schema.check_kind num check kind fs path ≡ accepted
      → IsCalm (Instance.match_kind num v fs q kind)
  unfolding Schema.check_kind Instance.match_kind
  check_kind-IsCalm check v fs path q object_kind r h =
      on_kind-IsCalm _ q _ _
        (λ vs. object-IsCalm check (mapping_in (get (text "properties") fs)) fs path (names vs) q h)
  check_kind-IsCalm check v fs path q array_kind r h =
      on_kind-IsCalm _ q _ _ (λ vs. (items-IsCalm check (get (text "items") fs) path h).1)
  check_kind-IsCalm check v fs path q string_kind r h =
      on_kind-IsCalm _ q _ _ (λ s. check_text-IsCalm num s fs q)
  check_kind-IsCalm check v fs path q boolean_kind r h =
      on_kind-IsCalm _ q _ _ (λ b e. ground arith)
  check_kind-IsCalm check v fs path q integer_kind r h =
      on_kind-IsCalm _ q _ _ (λ u. check_number-IsCalm num u fs q)
  check_kind-IsCalm check v fs path q number_kind r h =
      on_kind-IsCalm_if (λ u. num.finite u ≢ none) _ q _ _ (finite-number_in num v r)
        (λ u k. check_finite-IsCalm num (num.finite u) u fs q k)

  kind_in-none : (kind : SchemaKind) → kind_in none ≢ some kind
  unfolding kind_in
  kind_in-none kind e = ground arith

  check_value-IsCalm :
      (check : Fields → Text → Verdict) (v : Json) (fs : Fields) (path q : Text) (kind : SchemaKind)
      (o : Option Json)
      → IsRanged num v
      → kind_in o ≡ some kind
      → Schema.check_kind num check kind fs path ≡ accepted
      → IsCalm (check_value num v fs q o)
  unfolding check_value match_kind_in
  check_value-IsCalm check v fs path q kind none r e h = absurd (kind_in-none kind e)
  check_value-IsCalm check v fs path q kind (some t) r e h =
      both-IsCalm _ _ (check_enum-IsCalm num v _ q)
        (λ k. rw e (check_kind-IsCalm check v fs path q kind r h))

  check_kind_of_accepted :
      (v : Json) (fs : Fields) (q : Text) (kind : SchemaKind) (o : Option Json)
      → kind_in o ≡ some kind
      → check_value num v fs q o ≡ accepted
      → Instance.match_kind num v fs q kind ≡ accepted
  unfolding check_value match_kind_in
  check_kind_of_accepted v fs q kind none e h = absurd (kind_in-none kind e)
  check_kind_of_accepted v fs q kind (some t) e h =
      rw⁻¹ (ap (match_kind_in num v fs q) e) (both-accepted _ _ h).1

  members_of_object :
      (check : Fields → Text → Verdict) (vs fs : Fields) (path q : Text) (kind : SchemaKind)
      → Schema.check_kind num check kind fs path ≡ accepted
      → Instance.match_kind num (object vs) fs q kind ≡ accepted
      → (k : Text)
      → IsChecked check (get k (properties_in (mapping_in (get (text "properties") fs))))
  unfolding Schema.check_kind Instance.match_kind on_kind fields_in array_in string_in boolean_in
      integer_in number_in
  members_of_object check vs fs path q object_kind h e k =
      properties-IsChecked check (mapping_in (get (text "properties") fs)) fs path h k
  members_of_object check vs fs path q array_kind h e k = ground arith
  members_of_object check vs fs path q string_kind h e k = ground arith
  members_of_object check vs fs path q integer_kind h e k = ground arith
  members_of_object check vs fs path q number_kind h e k = ground arith
  members_of_object check vs fs path q boolean_kind h e k = ground arith

  members_of_array :
      (check : Fields → Text → Verdict) (vs : Items) (fs : Fields) (path q : Text)
      (kind : SchemaKind)
      → Schema.check_kind num check kind fs path ≡ accepted
      → Instance.match_kind num (array vs) fs q kind ≡ accepted
      → IsChecked check (get (text "items") fs)
  unfolding Schema.check_kind Instance.match_kind on_kind fields_in array_in string_in boolean_in
      integer_in number_in
  members_of_array check vs fs path q array_kind h e =
      (items-IsCalm check (get (text "items") fs) path h).0
  members_of_array check vs fs path q object_kind h e = ground arith
  members_of_array check vs fs path q string_kind h e = ground arith
  members_of_array check vs fs path q integer_kind h e = ground arith
  members_of_array check vs fs path q number_kind h e = ground arith
  members_of_array check vs fs path q boolean_kind h e = ground arith

  passes :
      (n : ℕ) (fs : Fields) (p : Text)
      → validate_schema num (suc n) fs p ≡ accepted
      → Passes (validate_schema num n) fs
  unfolding validate_schema
  passes n fs p h = check_schema-Passes (validate_schema num n) fs p _ refl h

  leaf-IsCalm :
      (v : Json) (n : ℕ) (fs : Fields) (p q : Text)
      → IsRanged num v
      → validate_schema num n fs p ≡ accepted
      → IsCalm (check_value num v fs q (get (text "type") fs))
  unfolding validate_schema
  leaf-IsCalm v zero fs p q r h = ground arith
  leaf-IsCalm v (suc n) fs p q r h =
      let x = passes n fs p h in
      check_value-IsCalm (validate_schema num n) v fs x.path q x.kind _ r x.at x.rules

  mutual
    unfolding validate_instance validate_schema

    validate_instance-IsCalm :
        (v : Json) (n : ℕ) (fs : Fields) (p q : Text)
        → IsRanged num v
        → validate_schema num n fs p ≡ accepted
        → IsCalm (validate_instance num v fs q)
    validate_instance-IsCalm null n fs p q r h = leaf-IsCalm null n fs p q r h
    validate_instance-IsCalm (boolean b) n fs p q r h = leaf-IsCalm (boolean b) n fs p q r h
    validate_instance-IsCalm (integer u) n fs p q r h = leaf-IsCalm (integer u) n fs p q r h
    validate_instance-IsCalm (float u) n fs p q r h = leaf-IsCalm (float u) n fs p q r h
    validate_instance-IsCalm (string s) n fs p q r h = leaf-IsCalm (string s) n fs p q r h
    validate_instance-IsCalm (array vs) zero fs p q r h = ground arith
    validate_instance-IsCalm (array vs) (suc n) fs p q r h =
        let x = passes n fs p h in
        both-IsCalm _ _ (leaf-IsCalm (array vs) (suc n) fs p q r h) (λ e.
          validate_items-IsCalm vs n _ q 0 r (
            members_of_array (validate_schema num n) vs fs x.path q x.kind x.rules
              (check_kind_of_accepted (array vs) fs q x.kind _ x.at e)))
    validate_instance-IsCalm (object vs) zero fs p q r h = ground arith
    validate_instance-IsCalm (object vs) (suc n) fs p q r h =
        let x = passes n fs p h in
        both-IsCalm _ _ (leaf-IsCalm (object vs) (suc n) fs p q r h) (λ e.
          validate_fields-IsCalm vs n _ q r (
            members_of_object (validate_schema num n) vs fs x.path q x.kind x.rules
              (check_kind_of_accepted (object vs) fs q x.kind _ x.at e)))

    validate_fields-IsCalm :
        (vs : Fields) (n : ℕ) (ps : Fields) (q : Text)
        → FieldsRanged num vs
        → ((k : Text) → IsChecked (validate_schema num n) (get k ps))
        → IsCalm (validate_fields num vs ps q)
    validate_fields-IsCalm no_fields n ps q r h = λ e. ground arith
    validate_fields-IsCalm (field k v rest) n ps q r h =
        both-IsCalm _ _
          (by_schema-IsCalm (validate_schema num n) _ (get k ps) (h k)
            (λ c p a. validate_instance-IsCalm v n c p _ r.0 a))
          (λ e. validate_fields-IsCalm rest n ps q r.1 h)

    validate_items-IsCalm :
        (vs : Items) (n : ℕ) (o : Option Json) (q : Text) (i : ℕ)
        → AreRanged num vs
        → IsChecked (validate_schema num n) o
        → IsCalm (validate_items num vs o q i)
    validate_items-IsCalm no_items n o q i r h = λ e. ground arith
    validate_items-IsCalm (item v rest) n o q i r h =
        both-IsCalm _ _
          (by_schema-IsCalm (validate_schema num n) _ o h
            (λ c p a. validate_instance-IsCalm v n c p _ r.0 a))
          (λ e. validate_items-IsCalm rest n o q (suc i) r.1 h)

  -- On a schema that `validate_schema_definition` accepts, `validate_instance` returns or raises
  -- its own error for every JSON value: at no depth does it look up a key that is missing or meet
  -- a failed assertion. Condition: no integer within the value is too large for a float.
  pub validate_instance-ne-crashed :
      (fs : Fields) (p : Text)
      → validate_schema_definition num fs p ≡ accepted
      → (v : Json) (q : Text) → IsRanged num v
      → validate_instance num v fs q ≢ crashed
  unfolding validate_schema_definition
  validate_instance-ne-crashed fs p h v q r = validate_instance-IsCalm v _ fs p q r h
