-- ===== src/Tests/Texts.antt =====
-- Canonical forms, hashes and file names on concrete texts.
use mathlib.Core.Path.{subst}
use joplin_md_sync.Base.{sym, ◌≡◌, refl, List, [], ◌∷◌, ◌==◌, nat_eq, list_eq}
use joplin_md_sync.Base.Text.{Text, text, Lacks, text_leb}
use joplin_md_sync.Base.Sort.{sort, insert_sorted, All, IsSorted, IsDistinct}
use joplin_md_sync.Runtime.Ascii.{ascii, ascii-NoCollision, ascii-IsStableCase, ascii-IsAsciiUpper}
use joplin_md_sync.Canonical.{
  strip_left, strip_right, strip, clean_tags, canonicalize_body, canonicalize_tags, note_hashes,
  changed_components,
}
use joplin_md_sync.Canonical.Body.{canonicalize_body-Lacks, canonicalize_body_idem}
use joplin_md_sync.Canonical.Tags.{
  IsCanonicalTag, canonicalize_tags-canonical, canonicalize_tags_idem,
}
use joplin_md_sync.Canonical.Injective.{AreClean, field_bytes_inj, combined_bytes_inj}
use joplin_md_sync.Canonical.Content.{
  content, same_content, content_diff, NulFree, changed_components-note_hashes,
  combined-note_hashes,
}
use joplin_md_sync.Paths.{
  is_invalid, replace_invalid, rstrip_dots, stem, only_dots, reserved, shorten, or_untitled,
  collapse, drop_format, upper, clean_name, escape_reserved, sanitize_component,
}
use joplin_md_sync.Paths.Safe.{IsSafeName, sanitize_component-IsSafeName}

abbrev mixed_tags : List Text
mixed_tags = text " Work" ∷ text "  " ∷ text "home" ∷ text "work" ∷ []

abbrev clean : List Text
clean = text "home" ∷ text "work" ∷ []

clean_texts : Lacks 0 (text "home") × Lacks 0 (text "work")
unfolding text
clean_texts =
    ((λ e. cc, (λ e. cc, (λ e. cc, (λ e. cc, tt)))), (λ e. cc, (λ e. cc, (λ e. cc, (λ e. cc, tt)))))

-- Both lists have the same canonical form.
tags_test : (canonicalize_tags ascii mixed_tags ≡ clean) × (canonicalize_tags ascii clean ≡ clean)
unfolding canonicalize_tags clean_tags strip strip_left strip_right sort insert_sorted text_leb text
    list_eq nat_eq
tags_test = (refl, refl)

clean-All : All (Lacks 0) clean
clean-All = (clean_texts.0, (clean_texts.1, tt))

mixed_tags-NulFree : NulFree ascii mixed_tags
mixed_tags-NulFree = subst (All (Lacks 0)) (sym tags_test.0) clean-All

clean-NulFree : NulFree ascii clean
clean-NulFree = subst (All (Lacks 0)) (sym tags_test.1) clean-All

clean-AreClean : AreClean clean
unfolding text
clean-AreClean = ((λ e. cc, clean_texts.0), ((λ e. cc, clean_texts.1), tt))

name_test :
    (sanitize_component ascii (text "a/b:  c. ") ≡ text "a_b_ c")
    × (sanitize_component ascii (text "nul.txt") ≡ text "_nul.txt")
unfolding sanitize_component escape_reserved or_untitled shorten clean_name drop_format rstrip_dots
    collapse replace_invalid stem only_dots reserved upper is_invalid text list_eq nat_eq
name_test = (refl, refl)

sanitize_component-IsSafeName_example : IsSafeName ascii (sanitize_component ascii (text "nul.txt"))
sanitize_component-IsSafeName_example =
    sanitize_component-IsSafeName ascii ascii-IsAsciiUpper (text "nul.txt")

canonicalize_body-Lacks_example : Lacks 13 (canonicalize_body (97 ∷ 13 ∷ 10 ∷ 13 ∷ []))
canonicalize_body-Lacks_example = canonicalize_body-Lacks (97 ∷ 13 ∷ 10 ∷ 13 ∷ [])

canonicalize_body_idem_example :
    canonicalize_body (canonicalize_body (97 ∷ 13 ∷ 10 ∷ []))
    ≡ canonicalize_body (97 ∷ 13 ∷ 10 ∷ [])
canonicalize_body_idem_example = canonicalize_body_idem (97 ∷ 13 ∷ 10 ∷ [])

canonicalize_tags-canonical_example :
    IsSorted text_leb (canonicalize_tags ascii mixed_tags)
    × IsDistinct (canonicalize_tags ascii mixed_tags)
    × All (IsCanonicalTag ascii) (canonicalize_tags ascii mixed_tags)
canonicalize_tags-canonical_example =
    canonicalize_tags-canonical ascii ascii-IsStableCase mixed_tags

canonicalize_tags_idem_example :
    canonicalize_tags ascii (canonicalize_tags ascii mixed_tags)
    ≡ canonicalize_tags ascii mixed_tags
canonicalize_tags_idem_example = canonicalize_tags_idem ascii ascii-IsStableCase mixed_tags

combined_bytes_inj_example :
    (text "t" ≡ text "t") × (text "b" ≡ text "b") × (clean ≡ clean) × (text "p" ≡ text "p")
combined_bytes_inj_example =
    combined_bytes_inj (text "t") (text "b") clean (text "p") (text "t") (text "b") clean (text "p")
      clean-AreClean clean-AreClean refl

field_bytes_inj_example : (text "ab" ≡ text "ab") × (text "c" ≡ text "c")
field_bytes_inj_example = field_bytes_inj (text "ab") (text "ab") (text "c") (text "c") refl

changed_components-note_hashes_example :
    changed_components
      (note_hashes ascii (text "t") (text "b") mixed_tags (text "p"))
      (note_hashes ascii (text "t") (text "c") clean (text "p"))
    ≡ content_diff
        (content ascii (text "t") (text "b") mixed_tags (text "p"))
        (content ascii (text "t") (text "c") clean (text "p"))
changed_components-note_hashes_example =
    changed_components-note_hashes ascii ascii-IsStableCase ascii-NoCollision (text "t") (text "b")
      mixed_tags (text "p") (text "t") (text "c") clean (text "p") mixed_tags-NulFree clean-NulFree

combined-note_hashes_example :
    ((note_hashes ascii (text "t") (text "b") mixed_tags (text "p")).combined
      == (note_hashes ascii (text "t") (text "b") clean (text "p")).combined)
    ≡ same_content
        (content ascii (text "t") (text "b") mixed_tags (text "p"))
        (content ascii (text "t") (text "b") clean (text "p"))
combined-note_hashes_example =
    combined-note_hashes ascii ascii-IsStableCase ascii-NoCollision (text "t") (text "b") mixed_tags
      (text "p") (text "t") (text "b") clean (text "p") mixed_tags-NulFree clean-NulFree
