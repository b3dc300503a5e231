-- ===== src/Tools/Checked.antt =====
-- What `validate_schema_definition` of src/joplin_md_sync/tool_schema.py leaves true of a schema.
use joplin_md_sync.Base.{
  ◌≡◌, refl, Bool-cases, inl, inr, Option, none, some, List, ◌==◌, nat_eq, list_eq, arith,
}
use joplin_md_sync.Base.Text.{Text, text}
use joplin_md_sync.Json.{
  Json, null, boolean, integer, float, string, array, object, Items, Fields, no_fields, field,
}
use joplin_md_sync.Tools.{Verdict, accepted, get, names, sequence_in}
use joplin_md_sync.Tools.Schema.{check_required, check_properties, check_object, check_array}
use joplin_md_sync.Tools.Instance.{check_names, check_items, by_schema, properties_in}
use joplin_md_sync.Tools.Calm.{IsCalm, both-accepted, check_names-IsCalm}

abbrev pub IsChecked : (Fields → Text → Verdict) → Option Json → Type 0
IsChecked check none = Unit
IsChecked check (some (object c)) = (p : Text) × (check c p ≡ accepted)
IsChecked check (some _) = ⊥

pub check_properties-IsChecked :
    (check : Fields → Text → Verdict) (ps : Fields) (path : Text)
    → check_properties check ps path ≡ accepted
    → (k : Text) → IsChecked check (get k ps)
unfolding check_properties get
check_properties-IsChecked check no_fields path h k = tt
check_properties-IsChecked check (field j (object c) rest) path h k =
    let parts = both-accepted _ _ h in
    elim (Bool-cases (j == k)) [
      | inl e ↦ rw e (_, parts.0)
      | inr e ↦ rw e (check_properties-IsChecked check rest path parts.1 k)
    ]
check_properties-IsChecked check (field j null rest) path h k = ground arith
check_properties-IsChecked check (field j (boolean b) rest) path h k = ground arith
check_properties-IsChecked check (field j (integer u) rest) path h k = ground arith
check_properties-IsChecked check (field j (float u) rest) path h k = ground arith
check_properties-IsChecked check (field j (string s) rest) path h k = ground arith
check_properties-IsChecked check (field j (array vs) rest) path h k = ground arith

pub by_schema-IsCalm :
    (check : Fields → Text → Verdict) (f : Fields → Verdict) (o : Option Json)
    → IsChecked check o
    → ((c : Fields) (p : Text) → check c p ≡ accepted → IsCalm (f c))
    → IsCalm (by_schema f o)
unfolding by_schema
by_schema-IsCalm check f none h k = λ e. ground arith
by_schema-IsCalm check f (some (object c)) h k = k c h.0 h.1
by_schema-IsCalm check f (some null) h k = elim h [ ]
by_schema-IsCalm check f (some (boolean b)) h k = elim h [ ]
by_schema-IsCalm check f (some (integer u)) h k = elim h [ ]
by_schema-IsCalm check f (some (float u)) h k = elim h [ ]
by_schema-IsCalm check f (some (string s)) h k = elim h [ ]
by_schema-IsCalm check f (some (array vs)) h k = elim h [ ]

pub check_required-some :
    (known : List Text) (o : Option Items) (path : Text)
    → check_required known o path ≡ accepted
    → (vs : Items) × (o ≡ some vs)
unfolding check_required
check_required-some known none path h = ground arith
check_required-some known (some vs) path h = (vs, refl)

-- An object is checked against rules that are there.
pub object-IsCalm :
    (check : Fields → Text → Verdict) (o : Option Fields) (fs : Fields) (path : Text)
    (given : List Text) (q : Text)
    → check_object check o fs path ≡ accepted
    → IsCalm (check_names given fs o (sequence_in (get (text "required") fs)) q)
unfolding check_object
object-IsCalm check none fs path given q h = ground arith
object-IsCalm check (some ps) fs path given q h =
    let r =
      check_required-some (names ps) (sequence_in (get (text "required") fs)) path
        (both-accepted _ _ (both-accepted _ _ h).1).0 in
    rw r.1 (check_names-IsCalm given fs ps r.0 q)

pub items-IsCalm :
    (check : Fields → Text → Verdict) (o : Option Json) (path : Text)
    → check_array check o path ≡ accepted
    → IsChecked check o × IsCalm (check_items o)
unfolding check_array check_items
items-IsCalm check none path h = ground arith
items-IsCalm check (some null) path h = ground arith
items-IsCalm check (some (boolean b)) path h = ground arith
items-IsCalm check (some (integer u)) path h = ground arith
items-IsCalm check (some (float u)) path h = ground arith
items-IsCalm check (some (string s)) path h = ground arith
items-IsCalm check (some (array vs)) path h = ground arith
items-IsCalm check (some (object c)) path h = ((_, h), λ e. ground arith)

pub properties-IsChecked :
    (check : Fields → Text → Verdict) (o : Option Fields) (fs : Fields) (path : Text)
    → check_object check o fs path ≡ accepted
    → (k : Text) → IsChecked check (get k (properties_in o))
unfolding check_object properties_in
properties-IsChecked check none fs path h k = ground arith
properties-IsChecked check (some ps) fs path h k =
    check_properties-IsChecked check ps path
      (both-accepted _ _ (both-accepted _ _ (both-accepted _ _ h).1).1).1 k
