-- ===== src/Base/Numbers/Utf8.antt =====
-- `text.encode("utf-8")`, on the code points of a text.
use Prim.Native.Nat.{ℕ, ◌+◌, ◌/◌, ◌%◌}
use mathlib.Core.Path.{◌≡◌, refl, sym}
use mathlib.Core.Logic.{◌≢◌}
use mathlib.Core.List.{[], ◌∷◌}
use native.Mathlib.Omega.{arith}
use joplin_md_sync.Base.Equality.{ltb, if◌then◌else◌}
use joplin_md_sync.Base.Text.{Text, Lacks}

unfoldable pub utf8_char : ℕ → Text → Text
utf8_char c rest =
    if ltb c 128
    then c ∷ rest
    else if ltb c 2048
    then (192 + c / 64) ∷ (128 + c % 64) ∷ rest
    else if ltb c 65536
    then (224 + c / 4096) ∷ (128 + c / 64 % 64) ∷ (128 + c % 64) ∷ rest
    else (240 + c / 262144) ∷ (128 + c / 4096 % 64) ∷ (128 + c / 64 % 64) ∷ (128 + c % 64) ∷ rest

unfoldable pub encode : Text → Text
encode [] = []
encode (c ∷ s) = utf8_char c (encode s)

utf8_char_inj : (c d : ℕ) (s t : Text) → utf8_char c s ≡ utf8_char d t → (c ≡ d) × (s ≡ t)
unfolding utf8_char
utf8_char_inj c d s t h = ground arith

utf8_char-ne-nil : (c : ℕ) (s : Text) → utf8_char c s ≡ [] → ⊥
unfolding utf8_char
utf8_char-ne-nil c s h = ground arith

pub encode_inj : (s t : Text) → encode s ≡ encode t → s ≡ t
unfolding encode
encode_inj [] [] h = refl
encode_inj [] (d ∷ t) h = absurd (utf8_char-ne-nil d (encode t) (sym h))
encode_inj (c ∷ s) [] h = absurd (utf8_char-ne-nil c (encode s) h)
encode_inj (c ∷ s) (d ∷ t) h =
    let both = utf8_char_inj c d (encode s) (encode t) h in cc (both.0, encode_inj s t both.1)

utf8_char-Lacks : (c : ℕ) (s : Text) → c ≢ 0 → Lacks 0 s → Lacks 0 (utf8_char c s)
unfolding utf8_char
utf8_char-Lacks c s h k = ground arith

pub encode-Lacks : (s : Text) → Lacks 0 s → Lacks 0 (encode s)
unfolding encode
encode-Lacks [] h = tt
encode-Lacks (c ∷ s) h = utf8_char-Lacks c (encode s) h.0 (encode-Lacks s h.1)

pub encode-ne-nil : (s : Text) → s ≢ [] → encode s ≢ []
unfolding encode
encode-ne-nil [] h e = h refl
encode-ne-nil (c ∷ s) h e = utf8_char-ne-nil c (encode s) e
