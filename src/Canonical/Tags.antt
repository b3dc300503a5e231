-- ===== src/Canonical/Tags.antt =====
-- `canonicalize_tags` of src/joplin_md_sync/canonical.py: the canonical form of a tag and of a list
-- of tags.
use joplin_md_sync.Base.{◌≡◌, ◌≢◌, refl, ap, ◌∙◌, List, [], ◌∷◌, list_eq, nat_eq, arith}
use joplin_md_sync.Base.Text.{Text, text_leb, text_leb_total}
use joplin_md_sync.Base.Sort.{
  sort, All, All-sort, IsSorted, sort-IsSorted, sort_of_IsSorted, IsDistinct, IsDistinct-sort,
}
use joplin_md_sync.Runtime.{Runtime, StartsVisible, EndsVisible, IsStableCase}
use joplin_md_sync.Canonical.{strip_left, strip_right, strip, clean_tags, canonicalize_tags}

module _ (rt : Runtime) where
  strip_left-StartsVisible : (s : Text) → StartsVisible rt (strip_left rt s)
  unfolding strip_left
  strip_left-StartsVisible [] = tt
  strip_left-StartsVisible (c ∷ s) = ground (arith, strip_left-StartsVisible s)

  strip_left_of_StartsVisible : (s : Text) → StartsVisible rt s → strip_left rt s ≡ s
  unfolding strip_left
  strip_left_of_StartsVisible [] h = refl
  strip_left_of_StartsVisible (c ∷ s) h = rw h

  strip_right-StartsVisible : (s : Text) → StartsVisible rt s → StartsVisible rt (strip_right rt s)
  unfolding strip_right
  strip_right-StartsVisible [] h = tt
  strip_right-StartsVisible (c ∷ s) h = ground arith

  strip_right-EndsVisible : (s : Text) → EndsVisible rt (strip_right rt s)
  unfolding strip_right
  strip_right-EndsVisible [] = tt
  strip_right-EndsVisible (c ∷ s) = ground (arith, strip_right-EndsVisible s)

  strip_right_of_EndsVisible : (s : Text) → EndsVisible rt s → strip_right rt s ≡ s
  unfolding strip_right
  strip_right_of_EndsVisible [] h = refl
  strip_right_of_EndsVisible (c ∷ []) h = ground arith
  strip_right_of_EndsVisible (c ∷ d ∷ s) h = ground (arith, strip_right_of_EndsVisible (d ∷ s))

  -- A tag in canonical form.
  pub record IsCanonicalTag (t : Text) : Type 0 where
    pub ne_nil : t ≢ []
    pub starts : StartsVisible rt t
    pub ends : EndsVisible rt t
    pub stable : rt.lower t ≡ t

  strip_of_IsCanonicalTag : (t : Text) → IsCanonicalTag t → strip rt t ≡ t
  unfolding strip
  strip_of_IsCanonicalTag t h =
      ap (strip_right rt) (strip_left_of_StartsVisible t h.starts)
      ∙ strip_right_of_EndsVisible t h.ends

module _ (rt : Runtime) (law : IsStableCase rt) where
  clean_tag-IsCanonicalTag :
      (t : Text) → strip rt t ≢ [] → IsCanonicalTag rt (rt.lower (strip rt t))
  unfolding strip
  clean_tag-IsCanonicalTag t n =
      let starts = strip_right-StartsVisible rt (strip_left rt t) (strip_left-StartsVisible rt t) in
      record {
        ne_nil = law.lower_ne_nil (strip rt t) n;
        starts = law.lower_starts (strip rt t) starts;
        ends = law.lower_ends (strip rt t) (strip_right-EndsVisible rt (strip_left rt t));
        stable = law.lower_stable (strip rt t);
      }

  clean_tags-IsCanonicalTag : (ts : List Text) → All (IsCanonicalTag rt) (clean_tags rt ts)
  unfolding clean_tags
  clean_tags-IsCanonicalTag [] = tt
  clean_tags-IsCanonicalTag (t ∷ ts) =
      ground (arith, clean_tags-IsCanonicalTag ts, clean_tag-IsCanonicalTag t)

  clean_tags-IsDistinct : (ts : List Text) → IsDistinct (clean_tags rt ts)
  unfolding clean_tags
  clean_tags-IsDistinct [] = tt
  clean_tags-IsDistinct (t ∷ ts) = ground (arith, clean_tags-IsDistinct ts)

  clean_tags_of_canonical :
      (ts : List Text) → All (IsCanonicalTag rt) ts → IsDistinct ts → clean_tags rt ts ≡ ts
  unfolding clean_tags
  clean_tags_of_canonical [] h d = refl
  clean_tags_of_canonical (t ∷ ts) h d =
      let bare = strip_of_IsCanonicalTag rt t h.0 in
      let low = h.0.stable in
      let some_left = h.0.ne_nil in
      rw (clean_tags_of_canonical ts h.1 d.1, bare, low) (ground arith)

  -- Canonical tags are sorted, stand once each, and each is not empty, has no white space at its
  -- ends and is in lower case. Condition: lower case is stable.
  pub canonicalize_tags-canonical :
      (ts : List Text)
      → IsSorted text_leb (canonicalize_tags rt ts)
        × IsDistinct (canonicalize_tags rt ts)
        × All (IsCanonicalTag rt) (canonicalize_tags rt ts)
  unfolding canonicalize_tags
  canonicalize_tags-canonical ts = (
    sort-IsSorted text_leb text_leb_total (clean_tags rt ts),
    IsDistinct-sort text_leb (clean_tags rt ts) (clean_tags-IsDistinct ts),
    All-sort (IsCanonicalTag rt) text_leb (clean_tags rt ts) (clean_tags-IsCanonicalTag ts),
  )

  -- Canonicalizing canonical tags changes nothing. Condition: lower case is stable.
  pub canonicalize_tags_idem :
      (ts : List Text) → canonicalize_tags rt (canonicalize_tags rt ts) ≡ canonicalize_tags rt ts
  unfolding canonicalize_tags
  canonicalize_tags_idem ts =
      let h = canonicalize_tags-canonical ts in
      ap (sort text_leb) (clean_tags_of_canonical (canonicalize_tags rt ts) h.2 h.1)
      ∙ sort_of_IsSorted text_leb (canonicalize_tags rt ts) h.0
