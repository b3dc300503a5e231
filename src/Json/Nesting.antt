-- ===== src/Json/Nesting.antt =====
-- src/joplin_md_sync/json_safety.py: the test on the nesting of a JSON text before it is decoded.
pub mod Depth
pub mod Steps
pub mod Count
use joplin_md_sync.Base.{
  ℕ, suc, ◌-◌, Bool, true, false, not, ◌&&◌, ◌||◌, [], ◌∷◌, ◌==◌, nat_eq, ltb, if◌then◌else◌,
}
use joplin_md_sync.Base.Text.{Text}

-- `in_string` and `escaped` of the loop.
pub data Place : Type 0 where
  outside : Place
  in_string : Place
  escaped : Place

abbrev pub is_opening : ℕ → Bool
is_opening c = c == 91 || c == 123

abbrev pub is_closing : ℕ → Bool
is_closing c = c == 93 || c == 125

unfoldable pub string_place : ℕ → Place
string_place c = if c == 92 then escaped else if c == 34 then outside else in_string

module _ (maximum : ℕ) where
  -- The loop.
  unfoldable pub exceeds_from : ℕ → Place → Text → Bool
  unfolding string_place
  exceeds_from depth p [] = false
  exceeds_from depth escaped (c ∷ s) = exceeds_from depth in_string s
  exceeds_from depth in_string (c ∷ s) = exceeds_from depth (string_place c) s
  exceeds_from depth outside (c ∷ s) =
      if c == 34
      then exceeds_from depth in_string s
      else if is_opening c
      then ltb maximum (suc depth) || exceeds_from (suc depth) outside s
      else if is_closing c && not (depth == 0)
      then exceeds_from (depth - 1) outside s
      else exceeds_from depth outside s

  unfoldable pub json_nesting_exceeds : Text → Bool
  unfolding exceeds_from
  json_nesting_exceeds bytes = exceeds_from 0 outside bytes

abbrev pub max_json_nesting : ℕ
max_json_nesting = 128
