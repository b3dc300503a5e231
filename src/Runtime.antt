-- ===== src/Runtime.antt =====
-- What the program takes from Python's runtime and does not implement: the digest of hashlib, and
-- the case and class of characters (the Unicode tables). The predicates on a runtime state facts
-- that its documentation gives; theorems name the ones they use.
pub mod Ascii
use joplin_md_sync.Base.{
  ℕ, ◌-◌, ◌<◌, ◌≡◌, ◌≢◌, Bool, false, ◌&&◌, List, [], ◌∷◌, ◌++◌, leb, if◌then◌else◌,
}
use joplin_md_sync.Base.Text.{Text}
use joplin_md_sync.Base.Sort.{All}

pub record Runtime : Type 0 where
  -- `hashlib.sha256(data).hexdigest()`
  pub sha256 : Text → Text
  -- `s.lower()`, in which what becomes of a sigma depends on what stands around it
  pub lower : Text → Text
  -- `c.casefold()` and `c.upper()` of one character, which may give several
  pub casefold_char : ℕ → Text
  pub upper_char : ℕ → Text
  -- `c.isspace()`
  pub is_space : ℕ → Bool
  -- `unicodedata.category(c) == "Cf"`
  pub is_format : ℕ → Bool

-- Two inputs with one digest have not been found: the code relies on there being none.
abbrev pub NoCollision : Runtime → Type 0
NoCollision rt = (a b : Text) → rt.sha256 a ≡ rt.sha256 b → a ≡ b

-- The first character, and the last one, is not white space.
abbrev pub StartsVisible : Runtime → Text → Type 0
StartsVisible rt [] = Unit
StartsVisible rt (c ∷ s) = rt.is_space c ≡ false

abbrev pub EndsVisible : Runtime → Text → Type 0
EndsVisible rt [] = Unit
EndsVisible rt (c ∷ []) = rt.is_space c ≡ false
EndsVisible rt (c ∷ d ∷ s) = EndsVisible rt (d ∷ s)

-- What Python says of lower case: it is stable, and makes neither an empty text of a text that is
-- not, nor white space at an end that had none.
pub record IsStableCase (rt : Runtime) : Type 0 where
  pub lower_stable : (s : Text) → rt.lower (rt.lower s) ≡ rt.lower s
  pub lower_ne_nil : (s : Text) → s ≢ [] → rt.lower s ≢ []
  pub lower_starts : (s : Text) → StartsVisible rt s → StartsVisible rt (rt.lower s)
  pub lower_ends : (s : Text) → EndsVisible rt s → EndsVisible rt (rt.lower s)

-- Upper case of the ASCII characters.
abbrev pub IsAsciiUpper : Runtime → Type 0
IsAsciiUpper rt =
    (c : ℕ) → c < 128 → rt.upper_char c ≡ (if leb 97 c && leb c 122 then c - 32 else c) ∷ []
