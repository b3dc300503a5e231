-- ===== src/Json/Rest.antt =====
-- The fuel of Json/Scan: what the functions on one token leave of their text.
use joplin_md_sync.Base.{
  ℕ, zero, suc, ◌==◌, ◌≤◌, ◌<◌, Option, none, some, inl, inr, [], ◌∷◌, nat_eq, list_eq, OnSome,
  map_some, Bool-cases, arith,
}
use joplin_md_sync.Base.Text.{Text, length, drop}
use joplin_md_sync.Json.{Json}
use joplin_md_sync.Json.Strings.{
  escape_of, Kind, kind_of, ends_string, starts_escape, is_control, is_plain, push, after_escape,
  string_step, scan_string,
}
use joplin_md_sync.Json.Numerals.{
  scan_number, scan_natural, after_natural, natural_part, span_digits, fraction_part, exponent_part,
  with_digits, after_exponent,
}
use joplin_md_sync.Json.Scan.{
  Scan, scanned, refused, exhausted, and_scan, of_scan, skip_space, head_is, expect, scan_word,
  scan_atom, or_else,
}

-- A rest that is shorter than the bound.
abbrev pub Shorter {ℓ} : {A : Type ℓ} → ℕ → Option (A × Text) → Type 0
Shorter n none = Unit
Shorter n (some (a, rest)) = length rest < n

abbrev pub Within {ℓ} : {A : Type ℓ} → ℕ → Scan A → Type 0
Within n (scanned a rest) = length rest < n
Within n refused = Unit
Within n exhausted = 1 ≤ 0

pub Shorter-mono {ℓ} :
    {A : Type ℓ} (n m : ℕ) (o : Option (A × Text)) → n ≤ m → Shorter n o → Shorter m o
Shorter-mono n m none l h = tt
Shorter-mono n m (some (a, rest)) l h = omega arith

push-Shorter : (c n : ℕ) (o : Option (Text × Text)) → Shorter n o → Shorter (suc n) (push c o)
unfolding push
push-Shorter c n none h = tt
push-Shorter c n (some (s, rest)) h = omega arith

after_escape-Shorter :
    (o : Option (ℕ × ℕ)) (n : ℕ) (tail : ℕ → Option (Text × Text))
    → ((k : ℕ) → Shorter n (tail k))
    → Shorter (suc n) (after_escape o tail)
unfolding after_escape
after_escape-Shorter none n tail h = tt
after_escape-Shorter (some (c, k)) n tail h = push-Shorter c n (tail k) (h k)

string_step-Shorter :
    (q : Kind) (c : ℕ) (s : Text) (tail : ℕ → Option (Text × Text))
    → ((k : ℕ) → Shorter (length s) (tail k))
    → Shorter (suc (length s)) (string_step q c s tail)
unfolding string_step
string_step-Shorter ends_string c s tail h = omega arith
string_step-Shorter starts_escape c s tail h = after_escape-Shorter (escape_of s) (length s) tail h
string_step-Shorter is_control c s tail h = tt
string_step-Shorter is_plain c s tail h = push-Shorter c (length s) (tail 0) (h 0)

pub scan_string-Shorter : (k : ℕ) (s : Text) → Shorter (length s) (scan_string k s)
unfolding scan_string
scan_string-Shorter k [] = tt
scan_string-Shorter (suc k) (c ∷ s) =
    Shorter-mono (length s) (suc (length s)) (scan_string k s) (omega arith)
      (scan_string-Shorter k s)
scan_string-Shorter zero (c ∷ s) =
    string_step-Shorter (kind_of c) c s (λ n. scan_string n s) (λ n. scan_string-Shorter n s)

pub skip_space-length : (s : Text) → length (skip_space s) ≤ length s
unfolding skip_space
skip_space-length [] = omega arith
skip_space-length (c ∷ s) = ground (arith, skip_space-length s)

head_is-length : (x : ℕ) (s : Text) → OnSome (λ rest. length rest < length s) (head_is x s)
unfolding head_is
head_is-length x [] = tt
head_is-length x (c ∷ s) = ground arith

pub expect-length : (x : ℕ) (s : Text) → OnSome (λ rest. length rest < length s) (expect x s)
unfolding expect
expect-length x s = ground (arith, head_is-length x (skip_space s), skip_space-length s)

drop-length : (n : ℕ) (s : Text) → length (drop n s) ≤ length s
unfolding drop
drop-length zero s = omega arith
drop-length (suc n) [] = omega arith
drop-length (suc n) (c ∷ s) = ground (arith, drop-length n s)

scan_word-Shorter : (c : ℕ) (s : Text) → Shorter (suc (length s)) (scan_word (c ∷ s))
unfolding scan_word drop
scan_word-Shorter c s =
    ground
      (arith, drop-length 3 s, drop-length 4 s, drop-length 2 s, drop-length 7 s, drop-length 8 s)

span_digits-length : (s : Text) → length (span_digits s).1 ≤ length s
unfolding span_digits
span_digits-length [] = omega arith
span_digits-length (c ∷ s) = ground (arith, span_digits-length s)

with_digits-length :
    (lead ds rest s : Text) (n : ℕ)
    → length rest ≤ n
    → length s ≤ n
    → length (with_digits lead (ds, rest) s).1 ≤ n
unfolding with_digits
with_digits-length lead ds rest s n a b = ground arith

fraction_part-length : (s : Text) → length (fraction_part s).1 ≤ length s
unfolding fraction_part with_digits
fraction_part-length [] = omega arith
fraction_part-length (c ∷ s) = ground (arith, span_digits-length s)

after_exponent-length : (e : ℕ) (s : Text) → length (after_exponent e s).1 ≤ suc (length s)
unfolding after_exponent with_digits
after_exponent-length e [] = omega arith
after_exponent-length e (c ∷ s) = ground (arith, span_digits-length s, span_digits-length (c ∷ s))

exponent_part-length : (s : Text) → length (exponent_part s).1 ≤ length s
unfolding exponent_part
exponent_part-length [] = omega arith
exponent_part-length (c ∷ s) = ground (arith, after_exponent-length c s)

after_natural-length : (sign w s : Text) → length (after_natural sign (w, s)).1 ≤ length s
unfolding after_natural
after_natural-length sign w s =
    omega (arith, fraction_part-length s, exponent_part-length (fraction_part s).1)

natural_part-Shorter : (s : Text) → Shorter (length s) (natural_part s)
unfolding natural_part span_digits
natural_part-Shorter [] = tt
natural_part-Shorter (c ∷ s) = ground (arith, span_digits-length s)

after_natural-Shorter :
    (sign : Text) (n : ℕ) (o : Option (Text × Text))
    → Shorter n o
    → Shorter n (map_some (after_natural sign) o)
after_natural-Shorter sign n none h = tt
after_natural-Shorter sign n (some (w, s)) h = omega (arith, after_natural-length sign w s)

scan_natural-Shorter : (sign s : Text) → Shorter (length s) (scan_natural sign s)
unfolding scan_natural
scan_natural-Shorter sign s =
    after_natural-Shorter sign (length s) (natural_part s) (natural_part-Shorter s)

scan_number-Shorter : (s : Text) → Shorter (length s) (scan_number s)
unfolding scan_number
scan_number-Shorter [] = tt
scan_number-Shorter (c ∷ s) = elim (Bool-cases (c == 45)) [
  | inl e ↦
      rw e
        (Shorter-mono (length s) (suc (length s)) _ (omega arith) (scan_natural-Shorter (c ∷ []) s))
  | inr e ↦ rw e (scan_natural-Shorter [] (c ∷ s))
]

or_else-Shorter :
    (n : ℕ) (a b : Option (Json × Text)) → Shorter n a → Shorter n b → Shorter n (or_else a b)
unfolding or_else
or_else-Shorter n none b h k = k
or_else-Shorter n (some a) b h k = h

pub scan_atom-Shorter : (c : ℕ) (s : Text) → Shorter (suc (length s)) (scan_atom (c ∷ s))
unfolding scan_atom
scan_atom-Shorter c s =
    or_else-Shorter _ (scan_word (c ∷ s)) (scan_number (c ∷ s)) (scan_word-Shorter c s)
      (scan_number-Shorter (c ∷ s))

pub of_scan-Within {ℓ} :
    {A : Type ℓ} (n : ℕ) (o : Option (A × Text)) → Shorter n o → Within n (of_scan o)
unfolding of_scan
of_scan-Within n none h = tt
of_scan-Within n (some (a, rest)) h = h

pub and_scan-Within {ℓ κ} :
    {A : Type ℓ} {B : Type κ} (n m : ℕ) (x : Scan A) (k : A → Text → Scan B)
    → Within n x
    → ((a : A) (rest : Text) → length rest < n → Within m (k a rest))
    → Within m (and_scan x k)
unfolding and_scan
and_scan-Within n m (scanned a rest) k h f = f a rest h
and_scan-Within n m refused k h f = tt
and_scan-Within n m exhausted k h f = absurd (omega arith)
