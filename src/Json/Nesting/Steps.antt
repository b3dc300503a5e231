-- ===== src/Json/Nesting/Steps.antt =====
-- How src/joplin_md_sync/json_safety.py reads the parts of a JSON text.
use joplin_md_sync.Base.{
  ℕ, suc, ◌+◌, ◌-◌, ◌≤◌, ◌≡◌, refl, ap, ◌∙◌, Bool, true, false, Bool-cases, inl, inr, ◌||◌, [], ◌∷◌,
  ◌++◌, ◌==◌, nat_eq, ltb, arith,
}
use joplin_md_sync.Base.Text.{Text, append_assoc}
use joplin_md_sync.Base.Sort.{All}
use joplin_md_sync.Base.Numbers.Utf8.{utf8_char, encode}
use joplin_md_sync.Json.{Json, hex_digit, escape_char, escape, quoted, dumps}
use joplin_md_sync.Json.Nesting.{
  outside, in_string, escaped, Place, is_opening, is_closing, string_place, exceeds_from,
}
use joplin_md_sync.Json.Nesting.Depth.{max, IsPlain}

module _ (maximum : ℕ) where
  exceeds_from-utf8_char :
      (d : ℕ) (p : Place) (c : ℕ) (s : Text)
      → exceeds_from maximum d p (utf8_char c s) ≡ exceeds_from maximum d p (c ∷ s)
  unfolding utf8_char exceeds_from string_place
  exceeds_from-utf8_char d outside c s = ground arith
  exceeds_from-utf8_char d in_string c s = ground arith
  exceeds_from-utf8_char d escaped c s = ground arith

  pub exceeds_from-plain :
      (d : ℕ) (u rest : Text)
      → All IsPlain u
      → exceeds_from maximum d outside (u ++ rest) ≡ exceeds_from maximum d outside rest
  unfolding exceeds_from
  exceeds_from-plain d [] rest h = refl
  exceeds_from-plain d (c ∷ u) rest h = ground (arith, exceeds_from-plain d u rest h.1)

  pub exceeds_from-escape_char :
      (d c : ℕ) (s : Text)
      → exceeds_from maximum d in_string (escape_char c ++ s) ≡ exceeds_from maximum d in_string s
  unfolding exceeds_from escape_char hex_digit string_place
  exceeds_from-escape_char d c s = ground arith

  pub exceeds_from-encode :
      (d : ℕ) (p : Place) (s : Text)
      → exceeds_from maximum d p (encode s) ≡ exceeds_from maximum d p s
  unfolding encode exceeds_from
  exceeds_from-encode d p [] = refl
  exceeds_from-encode d outside (c ∷ s) =
      exceeds_from-utf8_char d outside c (encode s)
      ∙ ground (
        arith,
        exceeds_from-encode d in_string s,
        exceeds_from-encode (suc d) outside s,
        exceeds_from-encode (d - 1) outside s,
        exceeds_from-encode d outside s,
      )
  exceeds_from-encode d in_string (c ∷ s) =
      exceeds_from-utf8_char d in_string c (encode s) ∙ exceeds_from-encode d (string_place c) s
  exceeds_from-encode d escaped (c ∷ s) =
      exceeds_from-utf8_char d escaped c (encode s) ∙ exceeds_from-encode d in_string s

  pub exceeds_from-escape :
      (d : ℕ) (s rest : Text)
      → exceeds_from maximum d in_string (escape s ++ rest) ≡ exceeds_from maximum d in_string rest
  unfolding escape
  exceeds_from-escape d [] rest = refl
  exceeds_from-escape d (c ∷ s) rest =
      ap (exceeds_from maximum d in_string) (append_assoc (escape_char c) (escape s) rest)
      ∙ exceeds_from-escape_char d c (escape s ++ rest)
      ∙ exceeds_from-escape d s rest

  pub exceeds_from-quoted :
      (d : ℕ) (s rest : Text)
      → exceeds_from maximum d outside (quoted s ++ rest) ≡ exceeds_from maximum d outside rest
  unfolding quoted exceeds_from string_place nat_eq
  exceeds_from-quoted d s rest =
      ap (exceeds_from maximum d in_string) (append_assoc (escape s) (34 ∷ []) rest)
      ∙ exceeds_from-escape d s (34 ∷ rest)

  pub exceeds_from-opening :
      (d c : ℕ) (s : Text)
      → (c == 34) ≡ false
      → is_opening c ≡ true
      → exceeds_from maximum d outside (c ∷ s)
        ≡ (ltb maximum (suc d) || exceeds_from maximum (suc d) outside s)
  unfolding exceeds_from
  exceeds_from-opening d c s h k = rw (h, k) refl

  pub exceeds_from-closing :
      (d c : ℕ) (s : Text)
      → (c == 34) ≡ false
      → is_opening c ≡ false
      → is_closing c ≡ true
      → exceeds_from maximum (suc d) outside (c ∷ s) ≡ exceeds_from maximum d outside s
  unfolding exceeds_from
  exceeds_from-closing d c s h k l = ground arith

  pub ltb-max :
      (n a b : ℕ) → ltb maximum (n + max a b) ≡ (ltb maximum (n + a) || ltb maximum (n + b))
  unfolding max
  ltb-max n a b = ground arith

  pub combine :
      (n a b : ℕ) (r s t : Bool)
      → r ≡ (ltb maximum (n + a) || s)
      → s ≡ (ltb maximum (n + b) || t)
      → r ≡ (ltb maximum (n + max a b) || t)
  combine n a b r s t e f = rw (e, f, ltb-max n a b) (ground arith)

  pub keyed :
      (k : Text) (v : Json) (tail : Text) (n : ℕ) (rest : Text)
      → exceeds_from maximum (suc n) outside ((quoted k ++ (58 ∷ (dumps v ++ tail))) ++ rest)
        ≡ exceeds_from maximum (suc n) outside (dumps v ++ (tail ++ rest))
  keyed k v tail n rest =
      ap (exceeds_from maximum (suc n) outside)
        (append_assoc (quoted k) (58 ∷ (dumps v ++ tail)) rest)
      ∙ exceeds_from-quoted (suc n) k (58 ∷ ((dumps v ++ tail) ++ rest))
      ∙ exceeds_from-plain (suc n) (58 ∷ []) ((dumps v ++ tail) ++ rest) (ground arith)
      ∙ ap (exceeds_from maximum (suc n) outside) (append_assoc (dumps v) tail rest)

  pub in_container :
      (n a : ℕ) (r t : Bool)
      → (suc n ≤ maximum → r ≡ (ltb maximum (suc n + a) || t))
      → (ltb maximum (suc n) || r) ≡ (ltb maximum (n + suc a) || t)
  in_container n a r t h = elim (Bool-cases (ltb maximum (suc n))) [
    | inl e ↦ ground arith
    | inr e ↦ let k = h (ground arith) in ground arith
  ]
