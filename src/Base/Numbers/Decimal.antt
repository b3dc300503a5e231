-- ===== src/Base/Numbers/Decimal.antt =====
-- `"%d" % n`, with its digits, its value and the padded form.
use Prim.Native.Nat.{ℕ, zero, suc, ◌+◌, ◌-◌, ◌*◌, ◌/◌, ◌%◌, ◌≤◌, ◌<◌}
use mathlib.Core.Path.{◌≡◌, refl, ap, sym, ◌∙◌}
use mathlib.Core.List.{[], ◌∷◌, ◌++◌}
use mathlib.Core.Logic.{inl, inr}
use native.Mathlib.Omega.{arith}
use joplin_md_sync.Base.Equality.{ltb, if◌then◌else◌, Bool-cases}
use joplin_md_sync.Base.Text.{Text, length}

-- The fuel `suc n` is enough, since a number with two digits or more falls when divided by ten.
unfoldable pub digits : ℕ → ℕ → Text → Text
digits zero n acc = acc
digits (suc f) n acc =
    let rest = digits f (n / 10) ((48 + n % 10) ∷ acc) in if ltb n 10 then (48 + n) ∷ acc else rest

unfoldable pub decimal : ℕ → Text
unfolding digits
decimal n = digits (suc n) n []

-- `0`s in front, up to the width.
unfoldable pub zeros : ℕ → Text
zeros zero = []
zeros (suc n) = 48 ∷ zeros n

-- f"{n:04d}"
unfoldable pub padded : ℕ → ℕ → Text
unfolding zeros decimal
padded width n = zeros (width - length (decimal n)) ++ decimal n

abbrev pub IsDigit : ℕ → Type 0
IsDigit c = (48 ≤ c) × (c < 58)

abbrev pub AllDigits : Text → Type 0
AllDigits [] = Unit
AllDigits (c ∷ s) = IsDigit c × AllDigits s

-- The number that a text of digits stands for, after the digits of `n`.
abbrev pub value_from : ℕ → Text → ℕ
value_from n [] = n
value_from n (c ∷ s) = value_from (n * 10 + (c - 48)) s

digits-AllDigits : (f n : ℕ) (acc : Text) → AllDigits acc → AllDigits (digits f n acc)
unfolding digits
digits-AllDigits zero n acc h = h
digits-AllDigits (suc f) n acc h = elim (Bool-cases (ltb n 10)) [
  | inl e ↦ rw e ((omega arith, ground arith), h)
  | inr e ↦ rw e (digits-AllDigits f (n / 10) ((48 + n % 10) ∷ acc) ((omega arith, omega arith), h))
]

value_from-digits :
    (f n : ℕ) (acc : Text) → n < f → value_from 0 (digits f n acc) ≡ value_from n acc
unfolding digits
value_from-digits zero n acc h = elim h [ ]
value_from-digits (suc f) n acc h = elim (Bool-cases (ltb n 10)) [
  | inl e ↦ rw e (ap (λ (m : ℕ). value_from m acc) (omega arith))
  | inr e ↦ rw e (
      value_from-digits f (n / 10) ((48 + n % 10) ∷ acc) (ground arith)
      ∙ ap (λ (m : ℕ). value_from m acc) (omega arith))
]

pub decimal-AllDigits : (n : ℕ) → AllDigits (decimal n)
unfolding decimal
decimal-AllDigits n = digits-AllDigits (suc n) n [] tt

pub value-decimal : (n : ℕ) → value_from 0 (decimal n) ≡ n
unfolding decimal
value-decimal n = value_from-digits (suc n) n [] (omega arith)

-- Two numbers with one numeral are equal.
pub decimal_inj : (m n : ℕ) → decimal m ≡ decimal n → m ≡ n
decimal_inj m n h = sym (value-decimal m) ∙ (ap (value_from 0) h ∙ value-decimal n)

value_from-zeros : (k : ℕ) (s : Text) → value_from 0 (zeros k ++ s) ≡ value_from 0 s
unfolding zeros
value_from-zeros zero s = refl
value_from-zeros (suc k) s = value_from-zeros k s

pub value-padded : (w n : ℕ) → value_from 0 (padded w n) ≡ n
unfolding padded
value-padded w n = value_from-zeros (w - length (decimal n)) (decimal n) ∙ value-decimal n

pub padded_inj : (w m n : ℕ) → padded w m ≡ padded w n → m ≡ n
padded_inj w m n h = sym (value-padded w m) ∙ (ap (value_from 0) h ∙ value-padded w n)
