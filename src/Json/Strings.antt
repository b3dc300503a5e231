-- ===== src/Json/Strings.antt =====
-- The strings of Python's `json.loads`: escapes, surrogates, and characters that are refused.
use joplin_md_sync.Base.{
  ℕ, zero, suc, ◌+◌, ◌-◌, ◌*◌, Bool, ◌&&◌, ◌||◌, Option, none, some, map_some, [], ◌∷◌, ◌==◌,
  nat_eq, ltb, leb, if◌then◌else◌,
}
use joplin_md_sync.Base.Text.{Text, drop, starts_with}

unfoldable pub hex_value : ℕ → Option ℕ
hex_value c =
    if leb 48 c && leb c 57
    then some (c - 48)
    else if leb 97 c && leb c 102
    then some (c - 87)
    else if leb 65 c && leb c 70
    then some (c - 55)
    else none

unfoldable pub and_some {ℓ κ} : {A : Type ℓ} {B : Type κ} → Option A → (A → Option B) → Option B
and_some none k = none
and_some (some a) k = k a

-- The number of so many hexadecimal digits, after those of `n`.
unfoldable pub more_hex : ℕ → ℕ → Text → Option ℕ
unfolding hex_value and_some
more_hex zero n s = some n
more_hex (suc k) n [] = none
more_hex (suc k) n (c ∷ s) = and_some (hex_value c) (λ d. more_hex k (n * 16 + d) s)

abbrev is_high : ℕ → Bool
is_high c = leb 55296 c && leb c 56319

abbrev is_low : ℕ → Bool
is_low c = leb 56320 c && leb c 57343

-- After `\uXXXX`: a high surrogate joins the low one that a second escape gives.
unfoldable pub join_surrogates : ℕ → Text → Option (ℕ × ℕ)
unfolding more_hex starts_with
join_surrogates u s =
    if is_high u && starts_with s (92 ∷ 117 ∷ [])
    then map_some
        (λ v. if is_low v then (65536 + ((u - 55296) * 1024 + (v - 56320)), 11) else (u, 5))
        (more_hex 4 0 (drop 2 s))
    else some (u, 5)

unfoldable pub short_escape : ℕ → Option (ℕ × ℕ)
short_escape c =
    if c == 34 || (c == 92 || c == 47)
    then some (c, 1)
    else if c == 98
    then some (8, 1)
    else if c == 102
    then some (12, 1)
    else if c == 110
    then some (10, 1)
    else if c == 114
    then some (13, 1)
    else if c == 116
    then some (9, 1)
    else none

-- The character that an escape stands for, and how many characters it takes after the backslash.
unfoldable pub escape_of : Text → Option (ℕ × ℕ)
unfolding short_escape join_surrogates
escape_of [] = none
escape_of (c ∷ s) =
    if c == 117
    then and_some (more_hex 4 0 s) (λ u. join_surrogates u (drop 4 s))
    else short_escape c

pub data Kind : Type 0 where
  ends_string : Kind
  starts_escape : Kind
  is_control : Kind
  is_plain : Kind

unfoldable pub kind_of : ℕ → Kind
kind_of c =
    if c == 34
    then ends_string
    else if c == 92
    then starts_escape
    else if ltb c 32
    then is_control
    else is_plain

unfoldable pub push : ℕ → Option (Text × Text) → Option (Text × Text)
push c none = none
push c (some (s, rest)) = some (c ∷ s, rest)

unfoldable pub after_escape : Option (ℕ × ℕ) → (ℕ → Option (Text × Text)) → Option (Text × Text)
unfolding push
after_escape none tail = none
after_escape (some (c, n)) tail = push c (tail n)

unfoldable pub string_step : Kind → ℕ → Text → (ℕ → Option (Text × Text)) → Option (Text × Text)
unfolding escape_of push after_escape
string_step ends_string c s tail = some ([], s)
string_step starts_escape c s tail = after_escape (escape_of s) tail
string_step is_control c s tail = none
string_step is_plain c s tail = push c (tail 0)

-- The rest of a string after its first quote, after `k` characters of an escape are skipped.
unfoldable pub scan_string : ℕ → Text → Option (Text × Text)
unfolding kind_of string_step
scan_string k [] = none
scan_string (suc k) (c ∷ s) = scan_string k s
scan_string zero (c ∷ s) = string_step (kind_of c) c s (λ n. scan_string n s)
