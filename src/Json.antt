-- ===== src/Json.antt =====
-- Python's json on texts, as src/joplin_md_sync/metadata.py uses it: values, and `json.dumps` with
-- `ensure_ascii=False` and compact separators.
pub mod Strings
pub mod Numerals
pub mod Scan
pub mod Rest
pub mod Fuel
pub mod Mask
pub mod Nesting
pub mod Steps
pub mod RoundTrip
use joplin_md_sync.Base.{
  ℕ, ◌+◌, ◌/◌, ◌%◌, Bool, true, false, List, [], ◌∷◌, ◌++◌, ◌==◌, nat_eq, list_eq, ltb,
  if◌then◌else◌,
}
use joplin_md_sync.Base.Text.{Text, text}
use joplin_md_sync.Base.Dict.{Dict, insert}

-- Numbers are kept as they are spelled.
mutual
  pub data Json : Type 0 where
    null : Json
    boolean : Bool → Json
    integer : Text → Json
    float : Text → Json
    string : Text → Json
    array : Items → Json
    object : Fields → Json

  pub data Items : Type 0 where
    no_items : Items
    item : Json → Items → Items

  pub data Fields : Type 0 where
    no_fields : Fields
    field : Text → Json → Fields → Fields

-- The list that an array is, and the dict that an object is: a key that stands twice keeps its
-- first place and takes its last value.
unfoldable pub elements : Items → List Json
elements no_items = []
elements (item v rest) = v ∷ elements rest

unfoldable pub insert_fields : Fields → Dict Text Json → Dict Text Json
insert_fields no_fields d = d
insert_fields (field k v rest) d = insert_fields rest (insert k v d)

unfoldable pub object_of : Dict Text Json → Fields
object_of [] = no_fields
object_of ((k, v) ∷ d) = field k v (object_of d)

unfoldable pub array_of : List Text → Items
array_of [] = no_items
array_of (t ∷ ts) = item (string t) (array_of ts)

unfoldable pub hex_digit : ℕ → ℕ
hex_digit n = if ltb n 10 then 48 + n else 87 + n

-- One character within a JSON string.
unfoldable pub escape_char : ℕ → Text
unfolding hex_digit
escape_char c =
    if c == 34
    then 92 ∷ 34 ∷ []
    else if c == 92
    then 92 ∷ 92 ∷ []
    else if c == 10
    then 92 ∷ 110 ∷ []
    else if c == 13
    then 92 ∷ 114 ∷ []
    else if c == 9
    then 92 ∷ 116 ∷ []
    else if c == 8
    then 92 ∷ 98 ∷ []
    else if c == 12
    then 92 ∷ 102 ∷ []
    else if ltb c 32
    then 92 ∷ 117 ∷ 48 ∷ 48 ∷ hex_digit (c / 16) ∷ hex_digit (c % 16) ∷ []
    else c ∷ []

unfoldable pub escape : Text → Text
unfolding escape_char
escape [] = []
escape (c ∷ s) = escape_char c ++ escape s

unfoldable pub quoted : Text → Text
unfolding escape
quoted s = 34 ∷ (escape s ++ (34 ∷ []))

unfoldable mutual
  unfolding quoted text

  pub dumps : Json → Text
  dumps null = text "null"
  dumps (boolean true) = text "true"
  dumps (boolean false) = text "false"
  dumps (integer u) = u
  dumps (float u) = u
  dumps (string s) = quoted s
  dumps (array vs) = 91 ∷ dump_items vs
  dumps (object fs) = 123 ∷ dump_fields fs

  pub dump_items : Items → Text
  dump_items no_items = 93 ∷ []
  dump_items (item v no_items) = dumps v ++ (93 ∷ [])
  dump_items (item v rest) = dumps v ++ (44 ∷ dump_items rest)

  pub dump_fields : Fields → Text
  dump_fields no_fields = 125 ∷ []
  dump_fields (field k v no_fields) = quoted k ++ (58 ∷ (dumps v ++ (125 ∷ [])))
  dump_fields (field k v rest) = quoted k ++ (58 ∷ (dumps v ++ (44 ∷ dump_fields rest)))
