-- ===== src/Json/Nesting/Depth.antt =====
-- The depth of a JSON value, for src/joplin_md_sync/json_safety.py.
use joplin_md_sync.Base.{ℕ, suc, ◌≡◌, ◌≢◌, false, nat_eq, ltb, if◌then◌else◌}
use joplin_md_sync.Base.Sort.{All}
use joplin_md_sync.Json.{
  Json, integer, float, array, object, Items, no_items, item, Fields, no_fields, field,
}
use joplin_md_sync.Json.Nesting.{is_opening, is_closing}

unfoldable pub max : ℕ → ℕ → ℕ
max a b = if ltb a b then b else a

-- How deep containers stand in each other.
unfoldable mutual
  unfolding max

  pub depth : Json → ℕ
  depth (array vs) = suc (items_depth vs)
  depth (object fs) = suc (fields_depth fs)
  depth _ = 0

  pub items_depth : Items → ℕ
  items_depth no_items = 0
  items_depth (item v vs) = max (depth v) (items_depth vs)

  pub fields_depth : Fields → ℕ
  fields_depth no_fields = 0
  fields_depth (field k v fs) = max (depth v) (fields_depth fs)

abbrev pub IsPlain : ℕ → Type 0
IsPlain c = (c ≢ 34) × (is_opening c ≡ false) × (is_closing c ≡ false)

-- No number is spelled with a quotation mark or a bracket.
abbrev mutual
  pub IsSpelled : Json → Type 0
  IsSpelled (integer u) = All IsPlain u
  IsSpelled (float u) = All IsPlain u
  IsSpelled (array vs) = AreSpelled vs
  IsSpelled (object fs) = FieldsSpelled fs
  IsSpelled _ = Unit

  pub AreSpelled : Items → Type 0
  AreSpelled no_items = Unit
  AreSpelled (item v vs) = IsSpelled v × AreSpelled vs

  pub FieldsSpelled : Fields → Type 0
  FieldsSpelled no_fields = Unit
  FieldsSpelled (field k v fs) = IsSpelled v × FieldsSpelled fs
