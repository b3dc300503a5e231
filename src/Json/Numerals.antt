-- ===== src/Json/Numerals.antt =====
-- The numbers of Python's `json.loads`, kept as they are spelled.
use joplin_md_sync.Base.{
  ℕ, Bool, ◌&&◌, ◌||◌, Option, none, some, map_some, [], ◌∷◌, ◌++◌, ◌==◌, nat_eq, list_eq, leb,
  if◌then◌else◌,
}
use joplin_md_sync.Base.Text.{Text}
use joplin_md_sync.Json.{Json, integer, float}

abbrev pub is_digit : ℕ → Bool
is_digit c = leb 48 c && leb c 57

-- The digits in front, and what follows them.
unfoldable pub span_digits : Text → Text × Text
span_digits [] = ([], [])
span_digits (c ∷ s) =
    let rest = span_digits s in if is_digit c then (c ∷ rest.0, rest.1) else ([], c ∷ s)

-- `0|[1-9][0-9]*`
unfoldable pub natural_part : Text → Option (Text × Text)
unfolding span_digits
natural_part [] = none
natural_part (c ∷ s) =
    if c == 48 then some (c ∷ [], s) else if is_digit c then some (span_digits (c ∷ s)) else none

-- A part that begins with `lead` and has a digit, and nothing if it is not there.
unfoldable pub with_digits : Text → Text × Text → Text → Text × Text
with_digits lead (ds, rest) s = if ds == [] then ([], s) else (lead ++ ds, rest)

-- `(\.[0-9]+)?`
unfoldable pub fraction_part : Text → Text × Text
unfolding span_digits with_digits
fraction_part [] = ([], [])
fraction_part (c ∷ s) =
    if c == 46 then with_digits (c ∷ []) (span_digits s) (c ∷ s) else ([], c ∷ s)

unfoldable pub after_exponent : ℕ → Text → Text × Text
unfolding span_digits with_digits
after_exponent e [] = ([], e ∷ [])
after_exponent e (c ∷ s) =
    if c == 43 || c == 45
    then with_digits (e ∷ c ∷ []) (span_digits s) (e ∷ c ∷ s)
    else with_digits (e ∷ []) (span_digits (c ∷ s)) (e ∷ c ∷ s)

-- `([eE][-+]?[0-9]+)?`
unfoldable pub exponent_part : Text → Text × Text
unfolding after_exponent
exponent_part [] = ([], [])
exponent_part (c ∷ s) = if c == 101 || c == 69 then after_exponent c s else ([], c ∷ s)

unfoldable pub numeral : Text → Text → Text → Json
numeral whole frac exp =
    if frac == [] && exp == [] then integer whole else float (whole ++ (frac ++ exp))

unfoldable pub after_natural : Text → Text × Text → Json × Text
unfolding fraction_part exponent_part numeral
after_natural sign (whole, s) =
    let frac = fraction_part s in
    let exp = exponent_part frac.1 in (numeral (sign ++ whole) frac.0 exp.0, exp.1)

unfoldable pub scan_natural : Text → Text → Option (Json × Text)
unfolding natural_part after_natural
scan_natural sign s = map_some (after_natural sign) (natural_part s)

unfoldable pub scan_number : Text → Option (Json × Text)
unfolding scan_natural
scan_number [] = none
scan_number (c ∷ s) = if c == 45 then scan_natural (c ∷ []) s else scan_natural [] (c ∷ s)
