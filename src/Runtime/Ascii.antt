-- ===== src/Runtime/Ascii.antt =====
-- The runtime on ASCII texts, with the text itself for its digest: the tests run on it.
use joplin_md_sync.Base.{
  ℕ, ◌+◌, ◌-◌, ◌≡◌, ◌≢◌, refl, ◌∷◌, [], false, ◌&&◌, ◌||◌, arith, leb, if◌then◌else◌,
}
use joplin_md_sync.Base.Text.{Text}
use joplin_md_sync.Runtime.{
  Runtime, NoCollision, StartsVisible, EndsVisible, IsStableCase, IsAsciiUpper,
}

abbrev pub ascii_lower : ℕ → ℕ
ascii_lower c = if leb 65 c && leb c 90 then c + 32 else c

abbrev pub ascii_lower_text : Text → Text
ascii_lower_text [] = []
ascii_lower_text (c ∷ s) = ascii_lower c ∷ ascii_lower_text s

abbrev pub ascii_upper : ℕ → Text
ascii_upper c = (if leb 97 c && leb c 122 then c - 32 else c) ∷ []

abbrev pub ascii : Runtime
ascii = record {
  sha256 = λ data_bytes. data_bytes;
  lower = ascii_lower_text;
  casefold_char = λ c. ascii_lower c ∷ [];
  upper_char = ascii_upper;
  is_space = λ c. (leb 9 c && leb c 13) || (leb 28 c && leb c 32);
  is_format = λ c. false;
}

pub ascii-NoCollision : NoCollision ascii
ascii-NoCollision a b h = h

ascii_lower_idem : (c : ℕ) → ascii_lower (ascii_lower c) ≡ ascii_lower c
ascii_lower_idem c = ground arith

ascii_lower_visible : (c : ℕ) → ascii.is_space c ≡ false → ascii.is_space (ascii_lower c) ≡ false
ascii_lower_visible c h = ground arith

ascii_lower_text_idem : (s : Text) → ascii_lower_text (ascii_lower_text s) ≡ ascii_lower_text s
ascii_lower_text_idem [] = refl
ascii_lower_text_idem (c ∷ s) = cc (ascii_lower_idem c, ascii_lower_text_idem s)

ascii_lower_text-ne-nil : (s : Text) → s ≢ [] → ascii_lower_text s ≢ []
ascii_lower_text-ne-nil [] n e = n e
ascii_lower_text-ne-nil (c ∷ s) n e = cc

ascii_lower_text-StartsVisible :
    (s : Text) → StartsVisible ascii s → StartsVisible ascii (ascii_lower_text s)
ascii_lower_text-StartsVisible [] h = tt
ascii_lower_text-StartsVisible (c ∷ s) h = ascii_lower_visible c h

ascii_lower_text-EndsVisible :
    (s : Text) → EndsVisible ascii s → EndsVisible ascii (ascii_lower_text s)
ascii_lower_text-EndsVisible [] h = tt
ascii_lower_text-EndsVisible (c ∷ []) h = ascii_lower_visible c h
ascii_lower_text-EndsVisible (c ∷ d ∷ s) h = ascii_lower_text-EndsVisible (d ∷ s) h

pub ascii-IsStableCase : IsStableCase ascii
ascii-IsStableCase = record {
  lower_stable = ascii_lower_text_idem;
  lower_ne_nil = ascii_lower_text-ne-nil;
  lower_starts = ascii_lower_text-StartsVisible;
  lower_ends = ascii_lower_text-EndsVisible;
}

pub ascii-IsAsciiUpper : IsAsciiUpper ascii
ascii-IsAsciiUpper c h = refl
