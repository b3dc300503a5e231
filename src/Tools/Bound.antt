-- ===== src/Tools/Bound.antt =====
-- The depth that `validate_schema_definition` of src/joplin_md_sync/tool_schema.py goes down.
use joplin_md_sync.Base.{
  ℕ, zero, suc, ◌≤◌, ◌<◌, ◌≢◌, Bool, true, false, Bool-cases, inl, inr, Option, none, some, OnSome,
  List, ◌==◌, nat_eq, list_eq, arith,
}
use joplin_md_sync.Base.Text.{Text, text}
use joplin_md_sync.Json.{
  Json, null, boolean, integer, float, string, array, object, Items, Fields, no_fields, field,
}
use joplin_md_sync.Json.Nesting.Depth.{max, depth, fields_depth}
use joplin_md_sync.Tools.{
  Numbers, Verdict, accepted, refused, crashed, cut_off, both, refuse_if, get, SchemaKind,
  object_kind, array_kind, string_kind, integer_kind, number_kind, boolean_kind, mapping_in,
}
use joplin_md_sync.Tools.Schema.{
  check_required, check_properties, check_object, check_array, check_length, check_string,
  finite_bound, check_bound, check_bounds, check_kind, check_schema, validate_schema,
  validate_schema_definition,
}

abbrev IsDone : Verdict → Type 0
IsDone v = v ≢ cut_off

both-IsDone : (v w : Verdict) → IsDone v → IsDone w → IsDone (both v w)
unfolding both
both-IsDone accepted w h k = k
both-IsDone (refused p m) w h k = h
both-IsDone crashed w h k = h
both-IsDone cut_off w h k = h

refuse_if-IsDone : (b : Bool) (p m : Text) → IsDone (refuse_if b p m)
unfolding refuse_if
refuse_if-IsDone true p m = λ e. ground arith
refuse_if-IsDone false p m = λ e. ground arith

OnSome-depth :
    (o : Option Json) (m n : ℕ) → m ≤ n → OnSome (λ v. depth v ≤ m) o → OnSome (λ v. depth v ≤ n) o
OnSome-depth none m n le h = tt
OnSome-depth (some v) m n le h = omega arith

max-left : (a b : ℕ) → a ≤ max a b
unfolding max
max-left a b = ground arith

max-right : (a b : ℕ) → b ≤ max a b
unfolding max
max-right a b = ground arith

get-depth : (k : Text) (fs : Fields) → OnSome (λ v. depth v ≤ fields_depth fs) (get k fs)
unfolding get fields_depth
get-depth k no_fields = tt
get-depth k (field j v rest) = elim (Bool-cases (j == k)) [
  | inl e ↦ rw e (max-left (depth v) (fields_depth rest))
  | inr e ↦
      rw e
        (OnSome-depth (get k rest) _ _ (max-right (depth v) (fields_depth rest)) (get-depth k rest))
]

mapping_in-depth :
    (o : Option Json) (m : ℕ)
    → OnSome (λ v. depth v ≤ m) o
    → OnSome (λ ps. fields_depth ps ≤ m) (mapping_in o)
unfolding mapping_in depth
mapping_in-depth none m h = ground arith
mapping_in-depth (some null) m h = tt
mapping_in-depth (some (boolean b)) m h = tt
mapping_in-depth (some (integer u)) m h = tt
mapping_in-depth (some (float u)) m h = tt
mapping_in-depth (some (string s)) m h = tt
mapping_in-depth (some (array vs)) m h = tt
mapping_in-depth (some (object ps)) m h = ground arith

check_required-IsDone :
    (known : List Text) (o : Option Items) (p : Text) → IsDone (check_required known o p)
unfolding check_required
check_required-IsDone known none p = λ e. ground arith
check_required-IsDone known (some vs) p =
    both-IsDone _ _ (refuse_if-IsDone _ p _) (refuse_if-IsDone _ p _)

-- What is checked within a schema is less deep than it.
abbrev IsDoneBelow : (Fields → Text → Verdict) → ℕ → Type 0
IsDoneBelow check m = (c : Fields) (p : Text) → fields_depth c < m → IsDone (check c p)

check_properties-IsDone :
    (check : Fields → Text → Verdict) (m : ℕ) (ps : Fields) (p : Text)
    → IsDoneBelow check m
    → fields_depth ps ≤ m
    → IsDone (check_properties check ps p)
unfolding check_properties fields_depth depth
check_properties-IsDone check m no_fields p d h = λ e. ground arith
check_properties-IsDone check m (field k (object c) rest) p d h =
    let left = max-left (suc (fields_depth c)) (fields_depth rest) in
    let right = max-right (suc (fields_depth c)) (fields_depth rest) in
    both-IsDone _ _ (d c _ (omega arith)) (check_properties-IsDone check m rest p d (omega arith))
check_properties-IsDone check m (field k null rest) p d h = λ e. ground arith
check_properties-IsDone check m (field k (boolean b) rest) p d h = λ e. ground arith
check_properties-IsDone check m (field k (integer u) rest) p d h = λ e. ground arith
check_properties-IsDone check m (field k (float u) rest) p d h = λ e. ground arith
check_properties-IsDone check m (field k (string s) rest) p d h = λ e. ground arith
check_properties-IsDone check m (field k (array vs) rest) p d h = λ e. ground arith

check_object-IsDone :
    (check : Fields → Text → Verdict) (m : ℕ) (o : Option Fields) (fs : Fields) (p : Text)
    → IsDoneBelow check m
    → OnSome (λ ps. fields_depth ps ≤ m) o
    → IsDone (check_object check o fs p)
unfolding check_object
check_object-IsDone check m none fs p d h = λ e. ground arith
check_object-IsDone check m (some ps) fs p d h = both-IsDone _ _ (refuse_if-IsDone _ p _) (
    both-IsDone _ _ (check_required-IsDone _ _ p)
      (both-IsDone _ _ (refuse_if-IsDone _ p _) (check_properties-IsDone check m ps p d h)))

check_array-IsDone :
    (check : Fields → Text → Verdict) (m : ℕ) (o : Option Json) (p : Text)
    → IsDoneBelow check m
    → OnSome (λ v. depth v ≤ m) o
    → IsDone (check_array check o p)
unfolding check_array depth
check_array-IsDone check m none p d h = λ e. ground arith
check_array-IsDone check m (some null) p d h = λ e. ground arith
check_array-IsDone check m (some (boolean b)) p d h = λ e. ground arith
check_array-IsDone check m (some (integer u)) p d h = λ e. ground arith
check_array-IsDone check m (some (float u)) p d h = λ e. ground arith
check_array-IsDone check m (some (string s)) p d h = λ e. ground arith
check_array-IsDone check m (some (array vs)) p d h = λ e. ground arith
check_array-IsDone check m (some (object c)) p d h = d c _ (omega arith)

module _ (num : Numbers) where
  finite_bound-IsDone : (o : Option Bool) (m p : Text) → IsDone (finite_bound num o m p)
  unfolding finite_bound
  finite_bound-IsDone none m p = λ e. ground arith
  finite_bound-IsDone (some b) m p = refuse_if-IsDone _ p m

  check_bound-IsDone : (m : Text) (o : Option Json) (p : Text) → IsDone (check_bound num m o p)
  unfolding check_bound
  check_bound-IsDone m none p = λ e. ground arith
  check_bound-IsDone m (some null) p = λ e. ground arith
  check_bound-IsDone m (some (boolean b)) p = λ e. ground arith
  check_bound-IsDone m (some (integer u)) p = finite_bound-IsDone _ m p
  check_bound-IsDone m (some (float u)) p = finite_bound-IsDone _ m p
  check_bound-IsDone m (some (string s)) p = λ e. ground arith
  check_bound-IsDone m (some (array vs)) p = λ e. ground arith
  check_bound-IsDone m (some (object c)) p = λ e. ground arith

  check_bounds-IsDone : (fs : Fields) (p : Text) → IsDone (check_bounds num fs p)
  unfolding check_bounds
  check_bounds-IsDone fs p =
      both-IsDone _ _ (check_bound-IsDone _ _ p)
        (both-IsDone _ _ (check_bound-IsDone _ _ p) (refuse_if-IsDone _ p _))

  check_string-IsDone : (fs : Fields) (p : Text) → IsDone (check_string num fs p)
  unfolding check_string check_length
  check_string-IsDone fs p =
      both-IsDone _ _ (refuse_if-IsDone _ p _)
        (both-IsDone _ _ (refuse_if-IsDone _ p _) (refuse_if-IsDone _ p _))

  check_kind-IsDone :
      (check : Fields → Text → Verdict) (kind : SchemaKind) (fs : Fields) (p : Text)
      → IsDoneBelow check (fields_depth fs)
      → IsDone (check_kind num check kind fs p)
  unfolding check_kind
  check_kind-IsDone check object_kind fs p d =
      check_object-IsDone check _ _ fs p d (mapping_in-depth _ _ (get-depth (text "properties") fs))
  check_kind-IsDone check array_kind fs p d =
      check_array-IsDone check _ _ p d (get-depth (text "items") fs)
  check_kind-IsDone check string_kind fs p d = check_string-IsDone fs p
  check_kind-IsDone check integer_kind fs p d = check_bounds-IsDone fs p
  check_kind-IsDone check number_kind fs p d = check_bounds-IsDone fs p
  check_kind-IsDone check boolean_kind fs p d = λ e. ground arith

  check_schema-IsDone :
      (check : Fields → Text → Verdict) (o : Option SchemaKind) (fs : Fields) (p : Text)
      → IsDoneBelow check (fields_depth fs)
      → IsDone (check_schema num check o fs p)
  unfolding check_schema
  check_schema-IsDone check none fs p d = λ e. ground arith
  check_schema-IsDone check (some kind) fs p d = both-IsDone _ _ (refuse_if-IsDone _ p _) (
      both-IsDone _ _ (refuse_if-IsDone _ p _)
        (both-IsDone _ _ (refuse_if-IsDone _ p _) (check_kind-IsDone check kind fs p d)))

  validate_schema-IsDone :
      (n : ℕ) (fs : Fields) (p : Text) → fields_depth fs < n → IsDone (validate_schema num n fs p)
  unfolding validate_schema
  validate_schema-IsDone zero fs p h = ground arith
  validate_schema-IsDone (suc n) fs p h =
      check_schema-IsDone (validate_schema num n) _ fs p
        (λ c q k. validate_schema-IsDone n c q (ground arith))

  -- The bound on the depth is enough.
  pub validate_schema_definition-ne-cut_off :
      (fs : Fields) (p : Text) → validate_schema_definition num fs p ≢ cut_off
  unfolding validate_schema_definition
  validate_schema_definition-ne-cut_off fs p =
      validate_schema-IsDone (suc (fields_depth fs)) fs p (omega arith)
