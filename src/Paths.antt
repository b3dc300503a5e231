-- ===== src/Paths.antt =====
-- src/joplin_md_sync/paths.py: file and directory names made from titles.
pub mod Safe
use joplin_md_sync.Base.{
  ℕ, zero, suc, Bool, true, false, ◌&&◌, ◌||◌, not, List, [], ◌∷◌, ◌++◌, ◌==◌, contains, nat_eq,
  list_eq, leb, ltb, String, if◌then◌else◌,
}
use joplin_md_sync.Base.Text.{Text, text, length, take}
use joplin_md_sync.Runtime.{Runtime}

-- `_INVALID_CHARS_RE`: < > : " / \ | ? * and the control characters.
unfoldable pub is_invalid : ℕ → Bool
is_invalid c = contains (60 ∷ 62 ∷ 58 ∷ 34 ∷ 47 ∷ 92 ∷ 124 ∷ 63 ∷ 42 ∷ 127 ∷ []) c || ltb c 32

-- `_INVALID_CHARS_RE.sub("_", title)`
unfoldable pub replace_invalid : Text → Text
replace_invalid [] = []
replace_invalid (c ∷ s) = (if is_invalid c then b'_' else c) ∷ replace_invalid s

-- `name.rstrip(". ")`
unfoldable pub rstrip_dots : Text → Text
rstrip_dots [] = []
rstrip_dots (c ∷ s) =
    let rest = rstrip_dots s in
    if rest == [] then (if c == b'.' || c == b' ' then [] else c ∷ []) else c ∷ rest

-- The part in front of the first dot: `name.split(".", 1)[0]`.
unfoldable pub stem : Text → Text
stem [] = []
stem (c ∷ s) = if c == b'.' then [] else c ∷ stem s

-- `set(name) <= {"."}`
unfoldable pub only_dots : Text → Bool
only_dots [] = true
only_dots (c ∷ s) = c == b'.' && only_dots s

abbrev numbered : String → List Text
numbered name =
    (text name ++ text "1")
    ∷ (text name ++ text "2")
    ∷ (text name ++ text "3")
    ∷ (text name ++ text "4")
    ∷ (text name ++ text "5")
    ∷ (text name ++ text "6")
    ∷ (text name ++ text "7")
    ∷ (text name ++ text "8")
    ∷ (text name ++ text "9")
    ∷ []

-- `_RESERVED`: the device names of Windows.
unfoldable pub reserved : List Text
reserved = text "CON" ∷ text "PRN" ∷ text "AUX" ∷ text "NUL" ∷ (numbered "COM" ++ numbered "LPT")

abbrev pub max_component_len : ℕ
max_component_len = 80

unfoldable pub shorten : Text → Text
shorten name =
    if ltb max_component_len (length name) then rstrip_dots (take max_component_len name) else name

unfoldable pub or_untitled : Text → Text
or_untitled name = if name == [] then text "untitled" else name

module _ (rt : Runtime) where
  -- `re.sub(r"\s+", " ", name).strip()`: the words, with one blank between two of them. `started`
  -- tells that a word has been written, `gap` that white space stands behind it.
  unfoldable pub collapse : Bool → Bool → Text → Text
  collapse started gap [] = []
  collapse started gap (c ∷ s) = elim (rt.is_space c) [
    | true ↦ collapse started true s
    | false ↦ if started && gap then b' ' ∷ c ∷ collapse true false s else c ∷ collapse true false s
  ]

  unfoldable pub drop_format : Text → Text
  drop_format [] = []
  drop_format (c ∷ s) = let rest = drop_format s in if rt.is_format c then rest else c ∷ rest

  unfoldable pub upper : Text → Text
  upper [] = []
  upper (c ∷ s) = rt.upper_char c ++ upper s

  unfoldable pub casefold : Text → Text
  casefold [] = []
  casefold (c ∷ s) = rt.casefold_char c ++ casefold s

  -- The steps up to the test for an empty name.
  unfoldable pub clean_name : Text → Text
  clean_name title = drop_format (rstrip_dots (collapse false false (replace_invalid title)))

  unfoldable pub escape_reserved : Text → Text
  escape_reserved name = if contains reserved (upper (stem name)) then b'_' ∷ name else name

  unfoldable pub sanitize_component : Text → Text
  sanitize_component title =
      let name = escape_reserved (or_untitled (shorten (clean_name title))) in
      if only_dots name then text "untitled" else name

  unfoldable pub note_filename : Text → Text → Text
  note_filename title note_id =
      sanitize_component title ++ (text "--" ++ (take 8 note_id ++ text ".md"))

  unfoldable pub folder_dirname : Text → Text → List Text → Text
  folder_dirname title folder_id taken =
      let base = sanitize_component title in
      if contains taken (casefold base) then base ++ (text "--" ++ take 8 folder_id) else base
