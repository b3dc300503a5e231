-- ===== src/Json/Mask.antt =====
-- The strings of a JSON text in which src/joplin_md_sync/metadata.py has replaced `-->`.
use joplin_md_sync.Base.{
  ℕ, zero, suc, ◌+◌, ◌*◌, ◌/◌, ◌%◌, ◌≡◌, ◌≢◌, refl, ap, ◌∙◌, ◌≤◌, ◌<◌, ◌==◌, Bool, true, false,
  ◌||◌, some, inl, inr, [], ◌∷◌, ◌++◌, nat_eq, list_eq, Bool-cases, ltb, arith,
}
use joplin_md_sync.Base.Text.{Text, text, length, starts_with, replace_after, replace, append_assoc}
use joplin_md_sync.Json.{hex_digit, escape_char, escape}
use joplin_md_sync.Json.Strings.{escape_of, hex_value, more_hex, push, scan_string}

-- `payload.replace("-->", "--\\u003e")`
unfoldable pub mask : Text → Text
mask s = replace s (text "-->") (text "--\\u003e")

pub mask-other : (c : ℕ) (s : Text) → c ≢ 45 → mask (c ∷ s) ≡ c ∷ mask s
unfolding mask replace_after starts_with text
mask-other c s h = ground arith

mask-arrow : (s : Text) → mask (45 ∷ 45 ∷ 62 ∷ s) ≡ 45 ∷ 45 ∷ 92 ∷ 117 ∷ 48 ∷ 48 ∷ 51 ∷ 101 ∷ mask s
unfolding mask replace_after starts_with text nat_eq
mask-arrow s = refl

mask-dash_other : (d : ℕ) (s : Text) → d ≢ 45 → mask (45 ∷ d ∷ s) ≡ 45 ∷ mask (d ∷ s)
unfolding mask replace_after starts_with text
mask-dash_other d s h = ground arith

mask-dashes_other : (d : ℕ) (s : Text) → d ≢ 62 → mask (45 ∷ 45 ∷ d ∷ s) ≡ 45 ∷ mask (45 ∷ d ∷ s)
unfolding mask replace_after starts_with text
mask-dashes_other d s h = ground arith

replace_after-length :
    (k : ℕ) (s : Text) → length s ≤ length (replace_after (text "-->") (text "--\\u003e") k s) + k
unfolding replace_after text
replace_after-length k [] = omega arith
replace_after-length (suc k) (c ∷ s) = omega (arith, replace_after-length k s)
replace_after-length zero (c ∷ s) = elim (Bool-cases (starts_with (c ∷ s) (text "-->"))) [
  | inl e ↦ ground (arith, replace_after-length 2 s)
  | inr e ↦ ground (arith, replace_after-length 0 s)
]

pub mask-length : (s : Text) → length s ≤ length (mask s)
unfolding mask
mask-length s = omega (arith, replace_after-length 0 s)

hex_value-digit : (n : ℕ) → n < 16 → hex_value (hex_digit n) ≡ some n
unfolding hex_value hex_digit
hex_value-digit n h = ground arith

scan-plain :
    (c : ℕ) (s : Text)
    → c ≢ 34
    → c ≢ 92
    → ltb c 32 ≡ false
    → scan_string 0 (c ∷ s) ≡ push c (scan_string 0 s)
unfolding scan_string
scan-plain c s a b h = ground arith

scan-plain_45 : (s : Text) → scan_string 0 (45 ∷ s) ≡ push 45 (scan_string 0 s)
unfolding scan_string nat_eq
scan-plain_45 s = refl

scan-arrow :
    (s : Text)
    → scan_string 0 (45 ∷ 45 ∷ 92 ∷ 117 ∷ 48 ∷ 48 ∷ 51 ∷ 101 ∷ s)
      ≡ push 45 (scan_string 0 (45 ∷ 62 ∷ s))
unfolding scan_string nat_eq
scan-arrow s = refl

mask_dash_end : scan_string 0 (mask (45 ∷ [])) ≡ push 45 (scan_string 0 (mask []))
unfolding scan_string mask replace_after starts_with text nat_eq
mask_dash_end = refl

mask_dashes_end : scan_string 0 (mask (45 ∷ 45 ∷ [])) ≡ push 45 (scan_string 0 (mask (45 ∷ [])))
unfolding scan_string mask replace_after starts_with text nat_eq
mask_dashes_end = refl

scan_string-dashes :
    (s : Text) → scan_string 0 (mask (45 ∷ 45 ∷ s)) ≡ push 45 (scan_string 0 (mask (45 ∷ s)))
scan_string-dashes [] = mask_dashes_end
scan_string-dashes (d ∷ s) = elim (nat_eq.dec d 62) [
  | yes p ↦
      rw
        (
          p,
          mask-arrow s,
          mask-dash_other 62 s (λ q. absurd (omega arith)),
          mask-other 62 s (λ q. absurd (omega arith)),
        )
        (scan-arrow (mask s))
  | no n ↦ rw (mask-dashes_other d s n) (scan-plain_45 (mask (45 ∷ d ∷ s)))
]

-- A dash keeps its place in the string, whatever is replaced after it.
scan_string-dash : (s : Text) → scan_string 0 (mask (45 ∷ s)) ≡ push 45 (scan_string 0 (mask s))
scan_string-dash [] = mask_dash_end
scan_string-dash (d ∷ s) = elim (nat_eq.dec d 45) [
  | yes p ↦ rw p (scan_string-dashes s)
  | no n ↦ rw (mask-dash_other d s n) (scan-plain_45 (mask (d ∷ s)))
]

more_hex-two :
    (a b x y : ℕ) (s : Text)
    → hex_value a ≡ some x
    → hex_value b ≡ some y
    → more_hex 4 0 (48 ∷ 48 ∷ a ∷ b ∷ s) ≡ some (x * 16 + y)
unfolding more_hex nat_eq
more_hex-two a b x y s h k = rw (h, k) (ap some (omega arith))

escape_of-hex :
    (a b c : ℕ) (s : Text)
    → more_hex 4 0 (48 ∷ 48 ∷ a ∷ b ∷ s) ≡ some c
    → c < 32
    → escape_of (117 ∷ 48 ∷ 48 ∷ a ∷ b ∷ s) ≡ some (c, 5)
unfolding escape_of
escape_of-hex a b c s h l = ground (arith, h)

-- A control character that has no escape of its own.
scan_string-hex :
    (c : ℕ) (s : Text)
    → c < 32
    → scan_string 0 (92 ∷ 117 ∷ 48 ∷ 48 ∷ hex_digit (c / 16) ∷ hex_digit (c % 16) ∷ s)
      ≡ push c (scan_string 0 s)
unfolding scan_string nat_eq
scan_string-hex c s h =
    let x = hex_value-digit (c / 16) (omega arith) in
    let y = hex_value-digit (c % 16) (omega arith) in
    let two =
      more_hex-two (hex_digit (c / 16)) (hex_digit (c % 16)) (c / 16) (c % 16) s x y
      ∙ ap some (omega arith) in
    let e = escape_of-hex (hex_digit (c / 16)) (hex_digit (c % 16)) c s two h in rw e refl

abbrev is_short : ℕ → Bool
is_short c = c == 34 || (c == 92 || (c == 10 || (c == 13 || (c == 9 || (c == 8 || c == 12)))))

module _ (s : Text) where
  short_34 : scan_string 0 (mask (escape_char 34 ++ s)) ≡ push 34 (scan_string 0 (mask s))
  unfolding scan_string escape_char mask replace_after starts_with text nat_eq
  short_34 = refl

  short_92 : scan_string 0 (mask (escape_char 92 ++ s)) ≡ push 92 (scan_string 0 (mask s))
  unfolding scan_string escape_char mask replace_after starts_with text nat_eq
  short_92 = refl

  short_10 : scan_string 0 (mask (escape_char 10 ++ s)) ≡ push 10 (scan_string 0 (mask s))
  unfolding scan_string escape_char mask replace_after starts_with text nat_eq
  short_10 = refl

  short_13 : scan_string 0 (mask (escape_char 13 ++ s)) ≡ push 13 (scan_string 0 (mask s))
  unfolding scan_string escape_char mask replace_after starts_with text nat_eq
  short_13 = refl

  short_9 : scan_string 0 (mask (escape_char 9 ++ s)) ≡ push 9 (scan_string 0 (mask s))
  unfolding scan_string escape_char mask replace_after starts_with text nat_eq
  short_9 = refl

  short_8 : scan_string 0 (mask (escape_char 8 ++ s)) ≡ push 8 (scan_string 0 (mask s))
  unfolding scan_string escape_char mask replace_after starts_with text nat_eq
  short_8 = refl

  short_12 : scan_string 0 (mask (escape_char 12 ++ s)) ≡ push 12 (scan_string 0 (mask s))
  unfolding scan_string escape_char mask replace_after starts_with text nat_eq
  short_12 = refl

  scan_string-short :
      (c : ℕ)
      → is_short c ≡ true
      → scan_string 0 (mask (escape_char c ++ s)) ≡ push c (scan_string 0 (mask s))
  scan_string-short c h =
      ground (arith, short_34, short_92, short_10, short_13, short_9, short_8, short_12)

escape_char-hex :
    (c : ℕ)
    → is_short c ≡ false
    → c < 32
    → escape_char c ≡ 92 ∷ 117 ∷ 48 ∷ 48 ∷ hex_digit (c / 16) ∷ hex_digit (c % 16) ∷ []
unfolding escape_char
escape_char-hex c h l = ground arith

escape_char-plain : (c : ℕ) → is_short c ≡ false → ltb c 32 ≡ false → escape_char c ≡ c ∷ []
unfolding escape_char
escape_char-plain c h l = ground arith

hex_digit-ne : (n : ℕ) → hex_digit n ≢ 45
unfolding hex_digit
hex_digit-ne n e = ground arith

mask-hex :
    (a b : ℕ) (s : Text)
    → a ≢ 45
    → b ≢ 45
    → mask (92 ∷ 117 ∷ 48 ∷ 48 ∷ a ∷ b ∷ s) ≡ 92 ∷ 117 ∷ 48 ∷ 48 ∷ a ∷ b ∷ mask s
unfolding mask replace_after starts_with text nat_eq
mask-hex a b s n m = rw (mask-other a (b ∷ s) n, mask-other b s m) refl

scan_string-mask_plain :
    (c : ℕ) (s : Text)
    → is_short c ≡ false
    → ltb c 32 ≡ false
    → scan_string 0 (mask (c ∷ s)) ≡ push c (scan_string 0 (mask s))
scan_string-mask_plain c s h l = elim (nat_eq.dec c 45) [
  | yes p ↦ rw p (scan_string-dash s)
  | no n ↦ rw (mask-other c s n) (scan-plain c (mask s) (ground arith) (ground arith) l)
]

-- What a character of a string becomes is read as the character, and what follows it as before.
scan_string-escape_char :
    (c : ℕ) (s : Text) → scan_string 0 (mask (escape_char c ++ s)) ≡ push c (scan_string 0 (mask s))
scan_string-escape_char c s = elim (Bool-cases (is_short c)) [
  | inl e ↦ scan_string-short s c e
  | inr e ↦ elim (Bool-cases (ltb c 32)) [
    | inl l ↦
        rw
          (
            escape_char-hex c e (ground arith),
            mask-hex (hex_digit (c / 16)) (hex_digit (c % 16)) s (hex_digit-ne (c / 16))
                (hex_digit-ne (c % 16)),
          )
          (scan_string-hex c (mask s) (ground arith))
    | inr l ↦ rw (escape_char-plain c e l) (scan_string-mask_plain c s e l)
  ]
]

scan-quote : (s : Text) → scan_string 0 (mask (34 ∷ s)) ≡ some ([], mask s)
unfolding scan_string mask replace_after starts_with text nat_eq
scan-quote s = refl

-- A string that was written is read, and the rest after it is as it was replaced alone.
pub scan_string-mask : (t s : Text) → scan_string 0 (mask (escape t ++ (34 ∷ s))) ≡ some (t, mask s)
unfolding escape push
scan_string-mask [] s = scan-quote s
scan_string-mask (c ∷ t) s =
    rw
      (
        append_assoc (escape_char c) (escape t) (34 ∷ s),
        scan_string-escape_char c (escape t ++ (34 ∷ s)),
        scan_string-mask t s,
      )
      refl
