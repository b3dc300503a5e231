-- ===== src/Canonical/Content.antt =====
-- `note_hashes` and `changed_components` of src/joplin_md_sync/canonical.py against the contents of
-- notes, which are compared field by field, without a hash.
use joplin_md_sync.Base.{
  ◌≡◌, refl, ap, Bool, false, true, ◌&&◌, List, [], ◌∷◌, Eq, ◌==◌, list_eq, nat_eq, arith,
  if◌then◌else◌,
}
use joplin_md_sync.Base.Text.{Text, join, Lacks}
use joplin_md_sync.Base.Sort.{All}
use joplin_md_sync.Base.Numbers.Utf8.{encode, encode_inj}
use joplin_md_sync.Runtime.{Runtime, NoCollision, IsStableCase}
use joplin_md_sync.Models.{Component, title, body, tags, parent, component_eq}
use joplin_md_sync.Canonical.{
  canonicalize_body, canonicalize_tags, nul, encode_all, hash_text, hash_tags, combined_bytes,
  note_hashes, changed_components,
}
use joplin_md_sync.Canonical.Tags.{
  IsCanonicalTag, canonicalize_tags-canonical, canonicalize_tags_idem,
}
use joplin_md_sync.Canonical.Injective.{AreClean, encoded_tags_inj, combined_bytes_inj}

-- What a note says, in canonical form.
pub record Content : Type 0 where
  pub title : Text
  pub body : Text
  pub tags : List Text
  pub parent : Text

abbrev pub content : Runtime → Text → Text → List Text → Text → Content
content rt t b ts p = record {
  title = t;
  body = canonicalize_body b;
  tags = canonicalize_tags rt ts;
  parent = p;
}

abbrev pub same_content : Content → Content → Bool
same_content x y =
    x.title == y.title && (x.body == y.body && (x.tags == y.tags && x.parent == y.parent))

-- Whether two contents agree in a component.
abbrev pub agree_in : Component → Content → Content → Bool
agree_in title x y = x.title == y.title
agree_in body x y = x.body == y.body
agree_in tags x y = x.tags == y.tags
agree_in parent x y = x.parent == y.parent

abbrev pub disagreeing : Content → Content → List Component → List Component
disagreeing x y [] = []
disagreeing x y (c ∷ cs) =
    let rest = disagreeing x y cs in if agree_in c x y then rest else c ∷ rest

-- The components in which two contents differ.
abbrev pub content_diff : Content → Content → List Component
content_diff x y = disagreeing x y (title ∷ body ∷ tags ∷ parent ∷ [])

-- No tag has a NUL in it, which the program uses to separate the tags.
abbrev pub NulFree : Runtime → List Text → Type 0
NulFree rt ts = All (Lacks 0) (canonicalize_tags rt ts)

==-same {ℓ κ} :
    {A : Type ℓ} {B : Type κ} ⦃d : Eq A⦄ ⦃e : Eq B⦄ (a b : A) (x y : B)
    → (a ≡ b → x ≡ y)
    → (x ≡ y → a ≡ b)
    → (a == b) ≡ (x == y)
==-same a b x y f g = ground arith

test_same {ℓ} :
    {A : Type ℓ} ⦃d : Eq A⦄ (a b : A) (c : Bool)
    → (a ≡ b → c ≡ true)
    → (c ≡ true → a ≡ b)
    → (a == b) ≡ c
test_same a b true f g = ground (arith, g refl)
test_same a b false f g = ground arith

pub same_content-true : (x y : Content) → same_content x y ≡ true → x ≡ y
same_content-true x y h = ground arith

pub same_content_refl : (x : Content) → same_content x x ≡ true
same_content_refl x = ground arith

All-AreClean :
    (rt : Runtime) (ts : List Text) → All (IsCanonicalTag rt) ts → All (Lacks 0) ts → AreClean ts
All-AreClean rt [] h k = tt
All-AreClean rt (t ∷ ts) h k = ((h.0.ne_nil, k.0), All-AreClean rt ts h.1 k.1)

module _ (rt : Runtime) (law : IsStableCase rt) (nc : NoCollision rt) where
  NulFree-AreClean : (ts : List Text) → NulFree rt ts → AreClean (canonicalize_tags rt ts)
  NulFree-AreClean ts h = All-AreClean rt _ (canonicalize_tags-canonical rt law ts).2 h

  hash_text_same : (s t : Text) → (hash_text rt s == hash_text rt t) ≡ (s == t)
  unfolding hash_text
  hash_text_same s t =
      ==-same _ _ s t (λ e. encode_inj s t (nc (encode s) (encode t) e))
        (λ e. ap (λ r. rt.sha256 (encode r)) e)

  hash_tags_same :
      (ss ts : List Text)
      → NulFree rt ss
      → NulFree rt ts
      → (hash_tags rt (canonicalize_tags rt ss) == hash_tags rt (canonicalize_tags rt ts))
        ≡ (canonicalize_tags rt ss == canonicalize_tags rt ts)
  unfolding hash_tags
  hash_tags_same ss ts hs ht =
      ==-same _ _ (canonicalize_tags rt ss) (canonicalize_tags rt ts)
        (λ e.
          encoded_tags_inj _ _ (NulFree-AreClean ss hs) (NulFree-AreClean ts ht)
            (nc _ _ (rw (canonicalize_tags_idem rt law ss, canonicalize_tags_idem rt law ts) at e)))
        (λ e. ap (λ r. rt.sha256 (join nul (encode_all (canonicalize_tags rt r)))) e)

  module _ (t b : Text) (ts : List Text) (p t' b' : Text) (ts' : List Text) (p' : Text)
      (clean : NulFree rt ts) (clean' : NulFree rt ts') where
    -- The components that `changed_components` lists for the hashes of two notes are those in
    -- which their canonical contents differ, in the order title, body, tags, parent. Conditions:
    -- the digest has no collision, lower case is stable, and no canonical tag has a NUL.
    pub changed_components-note_hashes :
        changed_components (note_hashes rt t b ts p) (note_hashes rt t' b' ts' p')
        ≡ content_diff (content rt t b ts p) (content rt t' b' ts' p')
    unfolding changed_components note_hashes
    changed_components-note_hashes = rw (
      hash_text_same t t',
      hash_text_same (canonicalize_body b) (canonicalize_body b'),
      hash_tags_same ts ts' clean clean',
      hash_text_same p p',
    )

    -- The combined hashes of two notes are equal exactly if their titles, canonical bodies,
    -- canonical tags and notebooks are. Conditions: the digest has no collision, lower case is
    -- stable, and no canonical tag has a NUL.
    pub combined-note_hashes :
        ((note_hashes rt t b ts p).combined == (note_hashes rt t' b' ts' p').combined)
        ≡ same_content (content rt t b ts p) (content rt t' b' ts' p')
    unfolding note_hashes
    combined-note_hashes =
        test_same _ _ _
          (λ e.
            let same =
              combined_bytes_inj _ _ _ _ _ _ _ _ (NulFree-AreClean ts clean)
                (NulFree-AreClean ts' clean') (nc _ _ e) in
            rw (same.0, same.1, same.2, same.3) (same_content_refl (content rt t' b' ts' p')))
          (λ e.
            let same = same_content-true (content rt t b ts p) (content rt t' b' ts' p') e in
            ap (λ (x : Content). rt.sha256 (combined_bytes x.title x.body x.tags x.parent)) same)
