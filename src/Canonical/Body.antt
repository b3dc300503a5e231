-- ===== src/Canonical/Body.antt =====
-- `canonicalize_body` of src/joplin_md_sync/canonical.py: lemmas on its two replacements.
use joplin_md_sync.Base.{◌≡◌, refl, ◌∙◌, ap, ◌∷◌, [], nat_eq, arith}
use joplin_md_sync.Base.Text.{Text, Lacks, starts_with, replace_after, replace}
use joplin_md_sync.Canonical.{canonicalize_body, cr, lf, crlf}

replace-cr-Lacks : (s : Text) → Lacks 13 (replace s cr lf)
unfolding replace_after starts_with
replace-cr-Lacks [] = tt
replace-cr-Lacks (c ∷ s) = ground (arith, replace-cr-Lacks s)

-- A text that has no carriage return is left as it is by both replacements.
replace-Lacks : (old s : Text) → Lacks 13 s → replace_after (13 ∷ old) lf 0 s ≡ s
unfolding replace_after starts_with
replace-Lacks old [] h = refl
replace-Lacks old (c ∷ s) h = ground (arith, replace-Lacks old s h.1)

-- A canonical body has no carriage return.
pub canonicalize_body-Lacks : (s : Text) → Lacks 13 (canonicalize_body s)
unfolding canonicalize_body
canonicalize_body-Lacks s = replace-cr-Lacks (replace s crlf lf)

pub canonicalize_body_of_Lacks : (s : Text) → Lacks 13 s → canonicalize_body s ≡ s
unfolding canonicalize_body
canonicalize_body_of_Lacks s h =
    ap (λ r. replace r cr lf) (replace-Lacks (10 ∷ []) s h) ∙ replace-Lacks [] s h

-- Canonicalizing a canonical body changes nothing.
pub canonicalize_body_idem :
    (s : Text) → canonicalize_body (canonicalize_body s) ≡ canonicalize_body s
canonicalize_body_idem s = canonicalize_body_of_Lacks _ (canonicalize_body-Lacks s)
