-- ===== src/Canonical/Injective.antt =====
-- The bytes that the hashes of src/joplin_md_sync/canonical.py read.
use mathlib.Core.List.{append_assoc}
use joplin_md_sync.Base.{ℕ, ◌≡◌, ◌≢◌, refl, sym, ◌∙◌, ap, List, [], ◌∷◌, ◌++◌, arith}
use joplin_md_sync.Base.Text.{Text, length, join, Lacks, delimited, Lacks-ne, append_inj}
use joplin_md_sync.Base.Numbers.Decimal.{decimal, AllDigits, decimal-AllDigits, decimal_inj}
use joplin_md_sync.Base.Numbers.Utf8.{encode, encode_inj, encode-Lacks, encode-ne-nil}
use joplin_md_sync.Canonical.{field_bytes, nul, encode_all, combined_bytes}

AllDigits-Lacks : (s : Text) → AllDigits s → Lacks 58 s
AllDigits-Lacks [] h = tt
AllDigits-Lacks (c ∷ s) h = (λ e. omega arith, AllDigits-Lacks s h.1)

-- A field with its length in front is determined by its bytes, whatever follows them, and so is
-- what follows.
pub field_bytes_inj : (a b p q : Text) → field_bytes a ++ p ≡ field_bytes b ++ q → (a ≡ b) × (p ≡ q)
unfolding field_bytes
field_bytes_inj a b p q e =
    let flat : decimal (length (encode a)) ++ (58 ∷ (encode a ++ p))
        ≡ decimal (length (encode b)) ++ (58 ∷ (encode b ++ q)) =
      sym (append_assoc (decimal (length (encode a))) (58 ∷ encode a) p)
      ∙ (e ∙ append_assoc (decimal (length (encode b))) (58 ∷ encode b) q) in
    let parts =
      delimited 58 (decimal (length (encode a))) (decimal (length (encode b))) (encode a ++ p)
        (encode b ++ q) (AllDigits-Lacks _ (decimal-AllDigits _))
        (AllDigits-Lacks _ (decimal-AllDigits _)) flat in
    let split = append_inj (encode a) (encode b) p q (decimal_inj _ _ parts.0) parts.1 in
    (encode_inj a b split.0, split.1)

append-ne-nil : (x : ℕ) (s t : Text) → s ++ (x ∷ t) ≢ []
append-ne-nil x [] t e = cc
append-ne-nil x (c ∷ s) t e = cc

-- A tag in canonical form is not empty and has no NUL, which separates the tags.
abbrev pub AreClean : List Text → Type 0
AreClean [] = Unit
AreClean (t ∷ ts) = ((t ≢ []) × Lacks 0 t) × AreClean ts

pub join_inj : (ss ts : List Text) → AreClean ss → AreClean ts → join nul ss ≡ join nul ts → ss ≡ ts
unfolding join
join_inj [] [] hs ht e = refl
join_inj [] (t ∷ []) hs ht e = absurd (ht.0.0 (sym e))
join_inj [] (t ∷ u ∷ ts) hs ht e = absurd (append-ne-nil 0 t _ (sym e))
join_inj (s ∷ []) [] hs ht e = absurd (hs.0.0 e)
join_inj (s ∷ r ∷ ss) [] hs ht e = absurd (append-ne-nil 0 s _ e)
join_inj (s ∷ []) (t ∷ []) hs ht e = cc
join_inj (s ∷ []) (t ∷ u ∷ ts) hs ht e = absurd (Lacks-ne 0 s t _ hs.0.1 e)
join_inj (s ∷ r ∷ ss) (t ∷ []) hs ht e = absurd (Lacks-ne 0 t s _ ht.0.1 (sym e))
join_inj (s ∷ r ∷ ss) (t ∷ u ∷ ts) hs ht e =
    let parts = delimited 0 s t _ _ hs.0.1 ht.0.1 e in
    cc (parts.0, join_inj (r ∷ ss) (u ∷ ts) hs.1 ht.1 parts.1)

encode_all-AreClean : (ts : List Text) → AreClean ts → AreClean (encode_all ts)
unfolding encode_all
encode_all-AreClean [] h = tt
encode_all-AreClean (t ∷ ts) h =
    ((encode-ne-nil t h.0.0, encode-Lacks t h.0.1), encode_all-AreClean ts h.1)

encode_all_inj : (ss ts : List Text) → encode_all ss ≡ encode_all ts → ss ≡ ts
unfolding encode_all
encode_all_inj [] [] e = refl
encode_all_inj [] (t ∷ ts) e = cc
encode_all_inj (s ∷ ss) [] e = cc
encode_all_inj (s ∷ ss) (t ∷ ts) e =
    let head : encode s ≡ encode t = cc in
    let tail : encode_all ss ≡ encode_all ts = cc in
    cc (encode_inj s t head, encode_all_inj ss ts tail)

pub encoded_tags_inj :
    (ss ts : List Text)
    → AreClean ss
    → AreClean ts
    → join nul (encode_all ss) ≡ join nul (encode_all ts)
    → ss ≡ ts
encoded_tags_inj ss ts hs ht e = encode_all_inj ss ts (
    join_inj (encode_all ss) (encode_all ts) (encode_all-AreClean ss hs) (encode_all-AreClean ts ht)
      e)

-- The bytes under the combined hash determine the title, the body, the tags and the notebook.
-- Condition: no tag on either side is empty or has a NUL.
pub combined_bytes_inj :
    (t b : Text) (ts : List Text) (p t' b' : Text) (ts' : List Text) (p' : Text)
    → AreClean ts
    → AreClean ts'
    → combined_bytes t b ts p ≡ combined_bytes t' b' ts' p'
    → (t ≡ t') × (b ≡ b') × (ts ≡ ts') × (p ≡ p')
unfolding combined_bytes
combined_bytes_inj t b ts p t' b' ts' p' h h' e =
    let one = field_bytes_inj t t' _ _ e in
    let two = field_bytes_inj b b' _ _ one.1 in
    let three = field_bytes_inj (join nul ts) (join nul ts') _ _ two.1 in
    let four = field_bytes_inj p p' [] [] (ap (λ r. r ++ []) three.1) in
    (one.0, two.0, join_inj ts ts' h h' three.0, four.0)
