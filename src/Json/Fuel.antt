-- ===== src/Json/Fuel.antt =====
-- The fuel of Json/Scan: what each function leaves of its text, and that the fuel never runs out.
use joplin_md_sync.Base.{
  ℕ, zero, suc, ◌+◌, ◌≢◌, ◌≤◌, ◌<◌, Option, none, some, [], ◌∷◌, nat_eq, list_eq, OnSome, arith,
}
use joplin_md_sync.Base.Text.{Text, length}
use joplin_md_sync.Json.{Items, Fields}
use joplin_md_sync.Json.Strings.{scan_string}
use joplin_md_sync.Json.Scan.{
  Scan, scanned, refused, exhausted, skip_space, expect, scan_atom, Head, opens_string,
  opens_object, opens_array, opens_atom, head_of, as_string, closed_or, next_of, next_or_end,
  key_end, key_of, scan_key, value_step, value_from, scan_value, scan_items, scan_fields,
}
use joplin_md_sync.Json.Rest.{
  Shorter, Within, Shorter-mono, scan_string-Shorter, skip_space-length, expect-length,
  scan_atom-Shorter, of_scan-Within, and_scan-Within,
}

Within-mono {ℓ} : {A : Type ℓ} (n m : ℕ) (x : Scan A) → n ≤ m → Within n x → Within m x
Within-mono n m (scanned a rest) l h = omega arith
Within-mono n m refused l h = tt
Within-mono n m exhausted l h = absurd (omega arith)

closed_or-Within {ℓ} :
    {A : Type ℓ} (n : ℕ) (o : Option Text) (a : A) (x : Scan A)
    → OnSome (λ rest. length rest < n) o
    → Within n x
    → Within n (closed_or o a x)
unfolding closed_or
closed_or-Within n none a x h k = k
closed_or-Within n (some rest) a x h k = h

module _ {ℓ} {L : Type ℓ} (more : Text → Scan L) (add : L → L) (one : L) where
  next_of-Within :
      (n : ℕ) (o e : Option Text)
      → OnSome (λ rest. Within n (more rest)) o
      → OnSome (λ rest. length rest < n) e
      → Within n (next_of more add one o e)
  unfolding next_of
  next_of-Within n (some s) e h k =
      and_scan-Within n n (more s) (λ l rest. scanned (add l) rest) h (λ l rest g. g)
  next_of-Within n none (some rest) h k = k
  next_of-Within n none none h k = tt

OnSome-mono {ℓ κ μ} :
    {A : Type ℓ} (P : A → Type κ) (Q : A → Type μ) (o : Option A)
    → ((a : A) → P a → Q a)
    → OnSome P o
    → OnSome Q o
OnSome-mono P Q none f h = tt
OnSome-mono P Q (some a) f h = f a h

expect-within :
    (x : ℕ) (s : Text) (n : ℕ) → length s ≤ n → OnSome (λ rest. length rest < n) (expect x s)
expect-within x s n l =
    OnSome-mono _ (λ rest. length rest < n) (expect x s) (λ a g. omega arith) (expect-length x s)

module _ {ℓ} {L : Type ℓ} (more : Text → Scan L) (add : L → L) (one : L) where
  next_or_end-Within :
      (n close : ℕ) (s : Text)
      → length s ≤ n
      → ((r : Text) → length r < n → Within n (more r))
      → Within n (next_or_end more add one close s)
  unfolding next_or_end
  next_or_end-Within n close s l h =
      next_of-Within more add one n (expect 44 s) (expect close s)
        (OnSome-mono _ (λ rest. Within n (more rest)) (expect 44 s) h (expect-within 44 s n l))
        (expect-within close s n l)

key_end-Within :
    (n : ℕ) (k : Text) (o : Option Text)
    → OnSome (λ rest. length rest < n) o
    → Within n (key_end k o)
unfolding key_end
key_end-Within n k none h = tt
key_end-Within n k (some rest) h = h

key_of-Within : (n : ℕ) (o : Option Text) → OnSome (λ rest. length rest < n) o → Within n (key_of o)
unfolding key_of
key_of-Within n none h = tt
key_of-Within n (some s) h =
    and_scan-Within n n _ _
      (of_scan-Within n (scan_string 0 s)
        (Shorter-mono (length s) n _ (omega arith) (scan_string-Shorter 0 s)))
      (λ k rest g. key_end-Within n k (expect 58 rest) (expect-within 58 rest n (omega arith)))

as_string-Within : (n : ℕ) (o : Option (Text × Text)) → Shorter n o → Within n (as_string o)
unfolding as_string
as_string-Within n none h = tt
as_string-Within n (some (s, rest)) h = h

module _ (fields : Text → Scan Fields) (items : Text → Scan Items) (s : Text)
    (fine : Within (length s) (fields s)) (fine' : Within (length s) (items s)) where
  value_step-Within : (h : Head) (c : ℕ) → Within (suc (length s)) (value_step fields items h c s)
  unfolding value_step
  value_step-Within opens_string c =
      as_string-Within (suc (length s)) (scan_string 0 s)
        (Shorter-mono (length s) _ _ (omega arith) (scan_string-Shorter 0 s))
  value_step-Within opens_object c =
      closed_or-Within _ (expect 125 s) _ _ (expect-within 125 s _ (omega arith))
        (and_scan-Within _ _ (fields s) _ fine (λ a rest g. omega arith))
  value_step-Within opens_array c =
      closed_or-Within _ (expect 93 s) _ _ (expect-within 93 s _ (omega arith))
        (and_scan-Within _ _ (items s) _ fine' (λ a rest g. omega arith))
  value_step-Within opens_atom c = of_scan-Within _ (scan_atom (c ∷ s)) (scan_atom-Shorter c s)

value_from-Within :
    (fields : Text → Scan Fields) (items : Text → Scan Items) (s : Text) (n : ℕ)
    → length s ≤ n
    → ((r : Text) → suc (length r) ≤ n → Within (length r) (fields r) × Within (length r) (items r))
    → Within n (value_from fields items s)
unfolding value_from
value_from-Within fields items [] n l h = tt
value_from-Within fields items (c ∷ s) n l h =
    Within-mono _ n _ l (value_step-Within fields items s (h s l).0 (h s l).1 (head_of c) c)

mutual
  unfolding scan_value

  scan_value-Within :
      (n : ℕ) (s : Text) → length s + length s < n → Within (length s) (scan_value n s)
  scan_value-Within zero s h = absurd (omega arith)
  scan_value-Within (suc n) s h =
      value_from-Within (scan_fields n) (scan_items n) (skip_space s) (length s)
        (skip_space-length s)
        (λ r l. (scan_fields-Within n r (omega arith), scan_items-Within n r (omega arith)))

  scan_items-Within :
      (n : ℕ) (s : Text) → suc (length s + length s) < n → Within (length s) (scan_items n s)
  scan_items-Within zero s h = absurd (omega arith)
  scan_items-Within (suc n) s h =
      and_scan-Within _ _ (scan_value n s) _ (scan_value-Within n s (omega arith)) (λ v rest g.
        next_or_end-Within (scan_items n) _ _ (length s) 93 rest (omega arith) (λ r l.
          Within-mono (length r) _ (scan_items n r) (omega arith)
            (scan_items-Within n r (omega arith))))

  scan_fields-Within :
      (n : ℕ) (s : Text) → suc (length s + length s) < n → Within (length s) (scan_fields n s)
  scan_fields-Within zero s h = absurd (omega arith)
  scan_fields-Within (suc n) s h =
      and_scan-Within _ _ (scan_key s) _
        (key_of-Within (length s) (expect 34 s) (expect-length 34 s))
        (λ k s1 l1.
          and_scan-Within (length s1) _ (scan_value n s1) _ (scan_value-Within n s1 (omega arith))
            (λ v rest g.
              next_or_end-Within (scan_fields n) _ _ (length s) 125 rest (omega arith) (λ r l.
                Within-mono (length r) _ (scan_fields n r) (omega arith)
                  (scan_fields-Within n r (omega arith)))))

Within-ne-exhausted {ℓ} : {A : Type ℓ} (n : ℕ) (x : Scan A) → Within n x → x ≢ exhausted
Within-ne-exhausted n (scanned a rest) h e = cc
Within-ne-exhausted n refused h e = cc
Within-ne-exhausted n exhausted h e = absurd (omega arith)

-- Reading a JSON value never runs out of the fuel that `loads` gives it: twice the length of the
-- text, and one.
pub scan_value-enough : (s : Text) → scan_value (suc (length s + length s)) s ≢ exhausted
scan_value-enough s =
    Within-ne-exhausted (length s) _ (scan_value-Within (suc (length s + length s)) s (omega arith))
