-- ===== src/Tools.antt =====
-- src/joplin_md_sync/tool_schema.py: the schemas of tools and the arguments that they accept.
-- Schemas and arguments are JSON values. A mapping is its items, and no key stands twice in one.
pub mod Schema
pub mod Instance
pub mod Calm
pub mod Checked
pub mod Safe
pub mod Bound
use joplin_md_sync.Base.{
  ℕ, Bool, true, false, not, ◌&&◌, Option, none, some, List, [], ◌∷◌, ◌++◌, ◌==◌, contains, nat_eq,
  list_eq, if◌then◌else◌,
}
use joplin_md_sync.Base.Text.{Text, text}
use joplin_md_sync.Json.{
  Json, null, boolean, integer, float, string, array, object, Items, no_items, item, Fields,
  no_fields, field,
}

-- What Python tells of numbers by their spellings: `<`, and `math.isfinite`, which raises an
-- OverflowError on an integer that no float holds; `==` of values, and how one is shown.
pub record Numbers : Type 0 where
  pub less : Text → Text → Bool
  pub finite : Text → Option Bool
  pub equal : Json → Json → Bool
  pub shown : Json → Text

-- How a check ends: it returns, raises its own error with a path and a message, or raises
-- another error. A check that is bounded may also be cut off.
pub data Verdict : Type 0 where
  accepted : Verdict
  refused : Text → Text → Verdict
  crashed : Verdict
  cut_off : Verdict

unfoldable pub both : Verdict → Verdict → Verdict
both accepted w = w
both (refused p m) w = refused p m
both crashed w = crashed
both cut_off w = cut_off

unfoldable pub refuse_if : Bool → Text → Text → Verdict
refuse_if true path message = refused path message
refuse_if false path message = accepted

unfoldable pub get : Text → Fields → Option Json
get key no_fields = none
get key (field k v rest) = if k == key then some v else get key rest

unfoldable pub names : Fields → List Text
names no_fields = []
names (field k v rest) = k ∷ names rest

-- The members of the first list that are not in the second.
unfoldable pub without : List Text → List Text → List Text
without [] ys = []
without (x ∷ xs) ys = let rest = without xs ys in if contains ys x then rest else x ∷ rest

pub data SchemaKind : Type 0 where
  object_kind : SchemaKind
  array_kind : SchemaKind
  string_kind : SchemaKind
  integer_kind : SchemaKind
  number_kind : SchemaKind
  boolean_kind : SchemaKind

unfoldable pub kind_named : Text → Option SchemaKind
kind_named t =
    if t == text "object"
    then some object_kind
    else if t == text "array"
    then some array_kind
    else if t == text "string"
    then some string_kind
    else if t == text "boolean"
    then some boolean_kind
    else if t == text "integer"
    then some integer_kind
    else if t == text "number"
    then some number_kind
    else none

-- The value of "type", which must be a string.
unfoldable pub kind_in : Option Json → Option SchemaKind
unfolding kind_named
kind_in (some (string t)) = kind_named t
kind_in _ = none

-- `isinstance(v, int)`, which a Boolean also is.
unfoldable pub int_in : Option Json → Option Text
int_in (some (integer u)) = some u
int_in (some (boolean true)) = some (text "1")
int_in (some (boolean false)) = some (text "0")
int_in _ = none

-- A number that is no Boolean.
unfoldable pub number_in : Option Json → Option Text
number_in (some (integer u)) = some u
number_in (some (float u)) = some u
number_in _ = none

-- `isinstance(v, Mapping)`, where a missing one is empty, and `_is_sequence(v)` likewise.
unfoldable pub mapping_in : Option Json → Option Fields
mapping_in none = some no_fields
mapping_in (some (object fs)) = some fs
mapping_in _ = none

unfoldable pub sequence_in : Option Json → Option Items
sequence_in none = some no_items
sequence_in (some (array vs)) = some vs
sequence_in _ = none

unfoldable pub strings : Items → List Text
strings no_items = []
strings (item (string s) rest) = s ∷ strings rest
strings (item v rest) = strings rest
