-- ===== src/Json/Scan.antt =====
-- Python's `json.loads` on texts, as src/joplin_md_sync/metadata.py uses it.
use joplin_md_sync.Base.{
  ℕ, zero, suc, ◌+◌, Bool, true, false, ◌||◌, Option, none, some, [], ◌∷◌, ◌==◌, nat_eq, list_eq,
  if◌then◌else◌,
}
use joplin_md_sync.Base.Text.{Text, text, length, drop, starts_with}
use joplin_md_sync.Json.{
  Json, Items, Fields, null, boolean, float, string, array, object, no_items, item, no_fields,
  field,
}
use joplin_md_sync.Json.Strings.{scan_string}
use joplin_md_sync.Json.Numerals.{scan_number}

-- What reading at the front of a text gives: a value and the rest, a JSONDecodeError, or no
-- answer for lack of fuel.
pub data Scan {ℓ} (A : Type ℓ) : Type ℓ where
  scanned : A → Text → Scan A
  refused : Scan A
  exhausted : Scan A

module _ {ℓ κ} {A : Type ℓ} {B : Type κ} where
  unfoldable pub and_scan : Scan A → (A → Text → Scan B) → Scan B
  and_scan (scanned a rest) k = k a rest
  and_scan refused k = refused
  and_scan exhausted k = exhausted

unfoldable pub of_scan {ℓ} : {A : Type ℓ} → Option (A × Text) → Scan A
of_scan none = refused
of_scan (some (a, rest)) = scanned a rest

unfoldable pub is_json_space : ℕ → Bool
is_json_space c = c == 32 || (c == 9 || (c == 10 || c == 13))

unfoldable pub skip_space : Text → Text
unfolding is_json_space
skip_space [] = []
skip_space (c ∷ s) = let rest = skip_space s in if is_json_space c then rest else c ∷ s

unfoldable pub head_is : ℕ → Text → Option Text
head_is x [] = none
head_is x (c ∷ s) = if c == x then some s else none

-- The character `x`, after white space.
unfoldable pub expect : ℕ → Text → Option Text
unfolding skip_space head_is
expect x s = head_is x (skip_space s)

-- A value that is spelled by one of the words, with its rest.
unfoldable pub scan_word : Text → Option (Json × Text)
unfolding text starts_with drop
scan_word s =
    if starts_with s (text "null")
    then some (null, drop 4 s)
    else if starts_with s (text "true")
    then some (boolean true, drop 4 s)
    else if starts_with s (text "false")
    then some (boolean false, drop 5 s)
    else if starts_with s (text "NaN")
    then some (float (text "NaN"), drop 3 s)
    else if starts_with s (text "Infinity")
    then some (float (text "Infinity"), drop 8 s)
    else if starts_with s (text "-Infinity")
    then some (float (text "-Infinity"), drop 9 s)
    else none

unfoldable pub or_else {ℓ} : {A : Type ℓ} → Option A → Option A → Option A
or_else none b = b
or_else (some a) b = some a

unfoldable pub scan_atom : Text → Option (Json × Text)
unfolding scan_word scan_number or_else
scan_atom s = or_else (scan_word s) (scan_number s)

pub data Head : Type 0 where
  opens_string : Head
  opens_object : Head
  opens_array : Head
  opens_atom : Head

unfoldable pub head_of : ℕ → Head
head_of c =
    if c == 34
    then opens_string
    else if c == 123
    then opens_object
    else if c == 91
    then opens_array
    else opens_atom

unfoldable pub as_string : Option (Text × Text) → Scan Json
as_string none = refused
as_string (some (s, rest)) = scanned (string s) rest

unfoldable pub closed_or {ℓ} : {A : Type ℓ} → Option Text → A → Scan A → Scan A
closed_or none a other = other
closed_or (some rest) a other = scanned a rest

-- After an element of a list: a comma and the rest of the list, or its end.
module _ {ℓ} {L : Type ℓ} (more : Text → Scan L) (add : L → L) (one : L) where
  unfoldable pub next_of : Option Text → Option Text → Scan L
  unfolding and_scan
  next_of (some s) end = and_scan (more s) (λ l rest. scanned (add l) rest)
  next_of none (some rest) = scanned one rest
  next_of none none = refused

  unfoldable pub next_or_end : ℕ → Text → Scan L
  unfolding expect next_of
  next_or_end close s = next_of (expect 44 s) (expect close s)

unfoldable pub key_end : Text → Option Text → Scan Text
key_end k none = refused
key_end k (some rest) = scanned k rest

unfoldable pub key_of : Option Text → Scan Text
unfolding and_scan of_scan scan_string expect key_end
key_of none = refused
key_of (some s) = and_scan (of_scan (scan_string 0 s)) (λ k rest. key_end k (expect 58 rest))

-- The key of a field, with the colon.
unfoldable pub scan_key : Text → Scan Text
unfolding expect key_of
scan_key s = key_of (expect 34 s)

module _ (fields : Text → Scan Fields) (items : Text → Scan Items) where
  unfoldable pub value_step : Head → ℕ → Text → Scan Json
  unfolding and_scan of_scan expect scan_string scan_atom as_string closed_or
  value_step opens_string c s = as_string (scan_string 0 s)
  value_step opens_object c s =
      closed_or (expect 125 s) (object no_fields)
        (and_scan (fields s) (λ fs rest. scanned (object fs) rest))
  value_step opens_array c s =
      closed_or (expect 93 s) (array no_items)
        (and_scan (items s) (λ vs rest. scanned (array vs) rest))
  value_step opens_atom c s = of_scan (scan_atom (c ∷ s))

  unfoldable pub value_from : Text → Scan Json
  unfolding head_of value_step
  value_from [] = refused
  value_from (c ∷ s) = value_step (head_of c) c s

-- The fuel is spent once for each value and each step along a list.
unfoldable mutual
  unfolding and_scan skip_space value_from next_or_end scan_key

  pub scan_value : ℕ → Text → Scan Json
  scan_value zero s = exhausted
  scan_value (suc n) s = value_from (scan_fields n) (scan_items n) (skip_space s)

  -- One item at least, up to the bracket.
  pub scan_items : ℕ → Text → Scan Items
  scan_items zero s = exhausted
  scan_items (suc n) s =
      and_scan (scan_value n s)
        (λ v rest. next_or_end (scan_items n) (λ vs. item v vs) (item v no_items) 93 rest)

  -- One field at least, up to the brace.
  pub scan_fields : ℕ → Text → Scan Fields
  scan_fields zero s = exhausted
  scan_fields (suc n) s = and_scan (scan_key s) (λ k s1.
      and_scan (scan_value n s1)
        (λ v rest. next_or_end (scan_fields n) (λ fs. field k v fs) (field k v no_fields) 125 rest))

-- The value must be followed by white space only.
unfoldable pub whole : Scan Json → Option Json
unfolding skip_space
whole (scanned v rest) = if skip_space rest == [] then some v else none
whole refused = none
whole exhausted = none

-- `json.loads(s)`, or `none` for a JSONDecodeError.
unfoldable pub loads : Text → Option Json
unfolding whole scan_value
loads s = whole (scan_value (suc (length s + length s)) s)
