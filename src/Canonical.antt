-- ===== src/Canonical.antt =====
-- src/joplin_md_sync/canonical.py: canonical bodies and tags, and the hashes of a note.
pub mod Body
pub mod Tags
pub mod Injective
pub mod Content
use joplin_md_sync.Base.{
  ℕ, zero, suc, ◌-◌, Bool, true, false, not, List, [], ◌∷◌, ◌++◌, ◌==◌, contains, nat_eq, list_eq,
  if◌then◌else◌, Eq,
}
use joplin_md_sync.Base.Text.{Text, length, join, text_leb, replace}
use joplin_md_sync.Base.Sort.{sort}
use joplin_md_sync.Base.Numbers.Decimal.{decimal}
use joplin_md_sync.Base.Numbers.Utf8.{encode}
use joplin_md_sync.Runtime.{Runtime}
use joplin_md_sync.Models.{Component, title, body, tags, parent, NoteHashes}

abbrev pub lf : Text
lf = 10 ∷ []

abbrev pub cr : Text
cr = 13 ∷ []

abbrev pub crlf : Text
crlf = 13 ∷ 10 ∷ []

unfoldable pub canonicalize_body : Text → Text
canonicalize_body s = replace (replace s crlf lf) cr lf

-- A field with the number of its bytes in front.
unfoldable pub field_bytes : Text → Text
field_bytes value = decimal (length (encode value)) ++ (58 ∷ encode value)

abbrev pub nul : Text
nul = 0 ∷ []

unfoldable pub encode_all : List Text → List Text
encode_all [] = []
encode_all (t ∷ ts) = encode t ∷ encode_all ts

-- The bytes that the combined hash reads, from canonical parts.
unfoldable pub combined_bytes : Text → Text → List Text → Text → Text
combined_bytes t b ts p =
    field_bytes t ++ (field_bytes b ++ (field_bytes (join nul ts) ++ field_bytes p))

module _ (rt : Runtime) where
  -- `s.lstrip()`: without the white space in front
  unfoldable pub strip_left : Text → Text
  strip_left [] = []
  strip_left (c ∷ s) = let rest = strip_left s in if rt.is_space c then rest else c ∷ s

  -- `s.rstrip()`
  unfoldable pub strip_right : Text → Text
  strip_right [] = []
  strip_right (c ∷ s) =
      let rest = strip_right s in
      if rest == [] then (if rt.is_space c then [] else c ∷ []) else c ∷ rest

  unfoldable pub strip : Text → Text
  unfolding strip_left strip_right
  strip s = strip_right (strip_left s)

  -- The set comprehension: the tags that are not blank, stripped and in lower case.
  unfoldable pub clean_tags : List Text → List Text
  clean_tags [] = []
  clean_tags (t ∷ ts) =
      let rest = clean_tags ts in
      if strip t == []
      then rest
      else if contains rest (rt.lower (strip t))
      then rest
      else rt.lower (strip t) ∷ rest

  unfoldable pub canonicalize_tags : List Text → List Text
  canonicalize_tags ts = sort text_leb (clean_tags ts)

  unfoldable pub hash_text : Text → Text
  hash_text value = rt.sha256 (encode value)

  unfoldable pub hash_tags : List Text → Text
  hash_tags ts = rt.sha256 (join nul (encode_all (canonicalize_tags ts)))

  unfoldable pub note_hashes : Text → Text → List Text → Text → NoteHashes
  note_hashes t b ts p = record {
    title_hash = hash_text t;
    body_hash = hash_text (canonicalize_body b);
    tags_hash = hash_tags (canonicalize_tags ts);
    parent_hash = hash_text p;
    combined = rt.sha256 (combined_bytes t (canonicalize_body b) (canonicalize_tags ts) p);
  }

-- `part` in front of `rest` if the hashes differ
abbrev pub differing {ℓ} :
    {A : Type ℓ} ⦃e : Eq A⦄ → A → A → Component → List Component → List Component
differing a b part rest = if a == b then rest else part ∷ rest

unfoldable pub changed_components : NoteHashes → NoteHashes → List Component
changed_components a b = differing a.title_hash b.title_hash title (
    differing a.body_hash b.body_hash body
      (differing a.tags_hash b.tags_hash tags (differing a.parent_hash b.parent_hash parent [])))
