-- ===== src/Json/Steps.antt =====
-- Each kind of JSON value of Json/Scan, as it was written, in front of a rest.
use joplin_md_sync.Base.{
  ℕ, suc, ◌+◌, ◌≡◌, refl, ap, ◌⊎◌, ◌≤◌, true, false, none, [], ◌∷◌, ◌++◌, nat_eq, list_eq, arith,
}
use joplin_md_sync.Base.Text.{
  Text, text, length, starts_with, replace_after, append_assoc, length-append,
}
use joplin_md_sync.Json.{
  Json, Items, Fields, null, boolean, integer, float, string, array, object, no_items, item,
  no_fields, field, escape, quoted, dumps, dump_items, dump_fields,
}
use joplin_md_sync.Json.Scan.{
  Scan, scanned, expect, scan_key, next_or_end, scan_value, scan_items, scan_fields,
}
use joplin_md_sync.Json.Mask.{mask, scan_string-mask}

-- What ends a number.
abbrev pub IsEnd : Text → Type 0
IsEnd [] = Unit
IsEnd (c ∷ s) = (c ≡ 44) ⊎ ((c ≡ 93) ⊎ (c ≡ 125))

-- A number that is read back as it is spelled.
pub record IsSpelled (u : Text) (v : Json) : Type 0 where
  pub spelled :
      (n : ℕ) (rest : Text)
      → IsEnd rest
      → scan_value (suc n) (mask (u ++ rest)) ≡ scanned v (mask rest)
  pub opens : (rest : Text) → expect 93 (mask (u ++ rest)) ≡ none
  pub not_nil : 1 ≤ length u

abbrev mutual
  pub Readable : Json → Type 0
  Readable null = Unit
  Readable (boolean b) = Unit
  Readable (integer u) = IsSpelled u (integer u)
  Readable (float u) = IsSpelled u (float u)
  Readable (string s) = Unit
  Readable (array vs) = ReadableItems vs
  Readable (object fs) = ReadableFields fs

  pub ReadableItems : Items → Type 0
  ReadableItems no_items = Unit
  ReadableItems (item v vs) = Readable v × ReadableItems vs

  pub ReadableFields : Fields → Type 0
  ReadableFields no_fields = Unit
  ReadableFields (field k v fs) = Readable v × ReadableFields fs

-- The fuel that reading takes.
unfoldable mutual
  pub cost : Json → ℕ
  cost (array vs) = suc (cost_items vs)
  cost (object fs) = suc (cost_fields fs)
  cost v = 1

  pub cost_items : Items → ℕ
  cost_items no_items = 0
  cost_items (item v vs) = suc (cost v + cost_items vs)

  pub cost_fields : Fields → ℕ
  cost_fields no_fields = 0
  cost_fields (field k v fs) = suc (cost v + cost_fields fs)

mutual
  unfolding dumps cost quoted text

  pub cost-dumps : (v : Json) → Readable v → cost v ≤ length (dumps v)
  cost-dumps null h = omega arith
  cost-dumps (boolean true) h = omega arith
  cost-dumps (boolean false) h = omega arith
  cost-dumps (integer u) h = h.not_nil
  cost-dumps (float u) h = h.not_nil
  cost-dumps (string s) h = omega arith
  cost-dumps (array vs) h = omega (arith, cost-dump_items vs h)
  cost-dumps (object fs) h = omega (arith, cost-dump_fields fs h)

  cost-dump_items : (vs : Items) → ReadableItems vs → cost_items vs ≤ length (dump_items vs)
  cost-dump_items no_items h = omega arith
  cost-dump_items (item v no_items) h =
      omega (arith, cost-dumps v h.0, length-append (dumps v) (93 ∷ []))
  cost-dump_items (item v (item w vs)) h = omega (
    arith,
    cost-dumps v h.0,
    cost-dump_items (item w vs) h.1,
    length-append (dumps v) (44 ∷ dump_items (item w vs)),
  )

  cost-dump_fields : (fs : Fields) → ReadableFields fs → cost_fields fs ≤ length (dump_fields fs)
  cost-dump_fields no_fields h = omega arith
  cost-dump_fields (field k v no_fields) h = omega (
    arith,
    cost-dumps v h.0,
    length-append (dumps v) (125 ∷ []),
    length-append (escape k ++ (34 ∷ [])) (58 ∷ (dumps v ++ (125 ∷ []))),
  )
  cost-dump_fields (field k v (field l w fs)) h = omega (
    arith,
    cost-dumps v h.0,
    cost-dump_fields (field l w fs) h.1,
    length-append (escape k ++ (34 ∷ [])) (58 ∷ (dumps v ++ (44 ∷ dump_fields (field l w fs)))),
    length-append (dumps v) (44 ∷ dump_fields (field l w fs)),
  )

pub quoted-append : (s t : Text) → quoted s ++ t ≡ 34 ∷ (escape s ++ (34 ∷ t))
unfolding quoted
quoted-append s t = ap (λ r. 34 ∷ r) (append_assoc (escape s) (34 ∷ []) t)

-- Characters that stand for themselves around the values.
module _ (s : Text) where
  mask_34 : mask (34 ∷ s) ≡ 34 ∷ mask s
  unfolding mask replace_after starts_with text nat_eq
  mask_34 = refl

  mask_44 : mask (44 ∷ s) ≡ 44 ∷ mask s
  unfolding mask replace_after starts_with text nat_eq
  mask_44 = refl

  mask_58 : mask (58 ∷ s) ≡ 58 ∷ mask s
  unfolding mask replace_after starts_with text nat_eq
  mask_58 = refl

  mask_91 : mask (91 ∷ s) ≡ 91 ∷ mask s
  unfolding mask replace_after starts_with text nat_eq
  mask_91 = refl

  mask_93 : mask (93 ∷ s) ≡ 93 ∷ mask s
  unfolding mask replace_after starts_with text nat_eq
  mask_93 = refl

  mask_123 : mask (123 ∷ s) ≡ 123 ∷ mask s
  unfolding mask replace_after starts_with text nat_eq
  mask_123 = refl

  mask_125 : mask (125 ∷ s) ≡ 125 ∷ mask s
  unfolding mask replace_after starts_with text nat_eq
  mask_125 = refl

module _ (s : Text) where
  scan_key-quoted : (k : Text) → scan_key (mask (quoted k ++ (58 ∷ s))) ≡ scanned k (mask s)
  unfolding scan_key expect nat_eq
  scan_key-quoted k =
      rw
        (
          quoted-append k (58 ∷ s),
          mask_34 (escape k ++ (34 ∷ (58 ∷ s))),
          scan_string-mask k (58 ∷ s),
          mask_58 s,
        )
        refl

  pub scan_value-string :
      (n : ℕ) (t : Text) → scan_value (suc n) (mask (quoted t ++ s)) ≡ scanned (string t) (mask s)
  unfolding scan_value nat_eq
  scan_value-string n t =
      rw (quoted-append t s, mask_34 (escape t ++ (34 ∷ s)), scan_string-mask t s) refl

expect_93-quoted : (t s : Text) → expect 93 (mask (quoted t ++ s)) ≡ none
unfolding expect nat_eq
expect_93-quoted t s = rw (quoted-append t s, mask_34 (escape t ++ (34 ∷ s))) refl

pub expect_93-dumps : (v : Json) (s : Text) → Readable v → expect 93 (mask (dumps v ++ s)) ≡ none
unfolding expect dumps mask replace_after starts_with text nat_eq
expect_93-dumps null s h = refl
expect_93-dumps (boolean true) s h = refl
expect_93-dumps (boolean false) s h = refl
expect_93-dumps (integer u) s h = h.opens s
expect_93-dumps (float u) s h = h.opens s
expect_93-dumps (string t) s h = expect_93-quoted t s
expect_93-dumps (array vs) s h = refl
expect_93-dumps (object fs) s h = refl

expect_93-dump_items :
    (v : Json) (vs : Items) (s : Text)
    → Readable v
    → expect 93 (mask (dump_items (item v vs) ++ s)) ≡ none
unfolding dumps
expect_93-dump_items v no_items s h =
    rw (append_assoc (dumps v) (93 ∷ []) s) (expect_93-dumps v _ h)
expect_93-dump_items v (item w vs) s h =
    rw (append_assoc (dumps v) (44 ∷ dump_items (item w vs)) s) (expect_93-dumps v _ h)

expect_125-dump_fields :
    (k : Text) (v : Json) (fs : Fields) (s : Text)
    → expect 125 (mask (dump_fields (field k v fs) ++ s)) ≡ none
unfolding expect dumps quoted mask replace_after starts_with text nat_eq
expect_125-dump_fields k v no_fields s = refl
expect_125-dump_fields k v (field l w fs) s = refl

module _ {ℓ} {L : Type ℓ} (more : Text → Scan L) (add : L → L) (one : L) (s : Text) where
  pub next_or_end-comma :
      (close : ℕ) (l : L) (rest : Text)
      → more (mask s) ≡ scanned l rest
      → next_or_end more add one close (mask (44 ∷ s)) ≡ scanned (add l) rest
  unfolding next_or_end nat_eq
  next_or_end-comma close l rest h = rw (mask_44 s, h) refl

  pub next_or_end-93 : next_or_end more add one 93 (mask (93 ∷ s)) ≡ scanned one (mask s)
  unfolding next_or_end mask replace_after starts_with text nat_eq
  next_or_end-93 = refl

  pub next_or_end-125 : next_or_end more add one 125 (mask (125 ∷ s)) ≡ scanned one (mask s)
  unfolding next_or_end mask replace_after starts_with text nat_eq
  next_or_end-125 = refl

module _ (n : ℕ) (s : Text) where
  pub scan_value-array :
      (v : Json) (vs : Items)
      → Readable v
      → scan_items n (mask (dump_items (item v vs) ++ s)) ≡ scanned (item v vs) (mask s)
      → scan_value (suc n) (mask (91 ∷ (dump_items (item v vs) ++ s)))
        ≡ scanned (array (item v vs)) (mask s)
  unfolding scan_value nat_eq
  scan_value-array v vs h e =
      rw (mask_91 (dump_items (item v vs) ++ s), expect_93-dump_items v vs s h, e) refl

  pub scan_value-object :
      (k : Text) (v : Json) (fs : Fields)
      → scan_fields n (mask (dump_fields (field k v fs) ++ s)) ≡ scanned (field k v fs) (mask s)
      → scan_value (suc n) (mask (123 ∷ (dump_fields (field k v fs) ++ s)))
        ≡ scanned (object (field k v fs)) (mask s)
  unfolding scan_value nat_eq
  scan_value-object k v fs e =
      rw (mask_123 (dump_fields (field k v fs) ++ s), expect_125-dump_fields k v fs s, e) refl

  pub scan_value-null : scan_value (suc n) (mask (dumps null ++ s)) ≡ scanned null (mask s)
  unfolding scan_value dumps mask replace_after starts_with text nat_eq
  scan_value-null = refl

  pub scan_value-true :
      scan_value (suc n) (mask (dumps (boolean true) ++ s)) ≡ scanned (boolean true) (mask s)
  unfolding scan_value dumps mask replace_after starts_with text nat_eq
  scan_value-true = refl

  pub scan_value-false :
      scan_value (suc n) (mask (dumps (boolean false) ++ s)) ≡ scanned (boolean false) (mask s)
  unfolding scan_value dumps mask replace_after starts_with text nat_eq
  scan_value-false = refl

  pub scan_value-empty_array :
      scan_value (suc n) (mask (dumps (array no_items) ++ s)) ≡ scanned (array no_items) (mask s)
  unfolding scan_value dumps mask replace_after starts_with text nat_eq
  scan_value-empty_array = refl

  pub scan_value-empty_object :
      scan_value (suc n) (mask (dumps (object no_fields) ++ s))
      ≡ scanned (object no_fields) (mask s)
  unfolding scan_value dumps mask replace_after starts_with text nat_eq
  scan_value-empty_object = refl

module _ (n : ℕ) where
  pub scan_items-step :
      (v : Json) (t : Text) (vs : Items) (rest : Text)
      → scan_value n (mask (dumps v ++ t)) ≡ scanned v (mask t)
      → next_or_end (λ r. scan_items n r) (λ ws. item v ws) (item v no_items) 93 (mask t)
        ≡ scanned vs rest
      → scan_items (suc n) (mask (dumps v ++ t)) ≡ scanned vs rest
  unfolding scan_value
  scan_items-step v t vs rest h k = rw (h, k) refl

  pub scan_fields-step :
      (k : Text) (v : Json) (t : Text) (fs : Fields) (rest : Text)
      → scan_value n (mask (dumps v ++ t)) ≡ scanned v (mask t)
      → next_or_end (λ r. scan_fields n r) (λ gs. field k v gs) (field k v no_fields) 125 (mask t)
        ≡ scanned fs rest
      → scan_fields (suc n) (mask (quoted k ++ (58 ∷ (dumps v ++ t)))) ≡ scanned fs rest
  unfolding scan_value
  scan_fields-step k v t fs rest h e = rw (scan_key-quoted (dumps v ++ t) k, h, e) refl
