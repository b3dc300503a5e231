-- ===== src/Json/RoundTrip.antt =====
-- `json.loads` after `json.dumps`, with `-->` replaced as src/joplin_md_sync/metadata.py does.
use joplin_md_sync.Base.{
  ℕ, zero, suc, ◌+◌, ◌≡◌, refl, ap, ◌∙◌, ◌≤◌, true, false, some, inl, inr, [], ◌∷◌, ◌++◌, nat_eq,
  list_eq, arith,
}
use joplin_md_sync.Base.Text.{Text, length, replace_after, append_assoc, append_nil}
use joplin_md_sync.Json.{
  Json, Items, Fields, null, boolean, integer, float, string, array, object, no_items, item,
  no_fields, field, quoted, dumps, dump_items, dump_fields,
}
use joplin_md_sync.Json.Scan.{
  scanned, skip_space, scan_value, scan_items, scan_fields, whole, loads,
}
use joplin_md_sync.Json.Mask.{mask, mask-length}
use joplin_md_sync.Json.Steps.{
  IsEnd, Readable, ReadableItems, ReadableFields, cost, cost_items, cost_fields, cost-dumps,
  scan_value-string, next_or_end-comma, next_or_end-93, next_or_end-125, scan_value-array,
  scan_value-object, scan_value-null, scan_value-true, scan_value-false, scan_value-empty_array,
  scan_value-empty_object, scan_items-step, scan_fields-step,
}

cost_pos : (v : Json) → 1 ≤ cost v
unfolding cost
cost_pos null = omega arith
cost_pos (boolean b) = omega arith
cost_pos (integer u) = omega arith
cost_pos (float u) = omega arith
cost_pos (string s) = omega arith
cost_pos (array vs) = omega arith
cost_pos (object fs) = omega arith

field_assoc :
    (k a b s : Text) (c : ℕ)
    → (quoted k ++ (58 ∷ (a ++ (c ∷ b)))) ++ s ≡ quoted k ++ (58 ∷ (a ++ (c ∷ (b ++ s))))
field_assoc k a b s c =
    append_assoc (quoted k) (58 ∷ (a ++ (c ∷ b))) s
    ∙ ap (λ r. quoted k ++ (58 ∷ r)) (append_assoc a (c ∷ b) s)

mutual
  unfolding dumps cost

  pub scan_value-dumps :
      (v : Json) (n : ℕ) (s : Text)
      → Readable v
      → cost v ≤ n
      → IsEnd s
      → scan_value n (mask (dumps v ++ s)) ≡ scanned v (mask s)
  scan_value-dumps v zero s h l e = absurd (omega (arith, cost_pos v))
  scan_value-dumps null (suc n) s h l e = scan_value-null n s
  scan_value-dumps (boolean true) (suc n) s h l e = scan_value-true n s
  scan_value-dumps (boolean false) (suc n) s h l e = scan_value-false n s
  scan_value-dumps (integer u) (suc n) s h l e = h.spelled n s e
  scan_value-dumps (float u) (suc n) s h l e = h.spelled n s e
  scan_value-dumps (string t) (suc n) s h l e = scan_value-string s n t
  scan_value-dumps (array no_items) (suc n) s h l e = scan_value-empty_array n s
  scan_value-dumps (array (item v vs)) (suc n) s h l e =
      scan_value-array n s v vs h.0 (scan_items-dumps v vs n s h (omega arith))
  scan_value-dumps (object no_fields) (suc n) s h l e = scan_value-empty_object n s
  scan_value-dumps (object (field k v fs)) (suc n) s h l e =
      scan_value-object n s k v fs (scan_fields-dumps k v fs n s h (omega arith))

  scan_items-dumps :
      (v : Json) (vs : Items) (n : ℕ) (s : Text)
      → ReadableItems (item v vs)
      → cost_items (item v vs) ≤ n
      → scan_items n (mask (dump_items (item v vs) ++ s)) ≡ scanned (item v vs) (mask s)
  scan_items-dumps v vs zero s h l = absurd (omega arith)
  scan_items-dumps v no_items (suc n) s h l = rw (append_assoc (dumps v) (93 ∷ []) s) (
      scan_items-step n v (93 ∷ s) (item v no_items) (mask s)
        (scan_value-dumps v n (93 ∷ s) h.0 (omega arith) (inr (inl refl))) (next_or_end-93 _ _ _ s))
  scan_items-dumps v (item w vs) (suc n) s h l =
      rw (append_assoc (dumps v) (44 ∷ dump_items (item w vs)) s) (
        scan_items-step n v (44 ∷ (dump_items (item w vs) ++ s)) (item v (item w vs)) (mask s)
          (scan_value-dumps v n _ h.0 (omega arith) (inl refl))
          (next_or_end-comma _ _ _ _ 93 (item w vs) (mask s)
            (scan_items-dumps w vs n s h.1 (omega arith))))

  scan_fields-dumps :
      (k : Text) (v : Json) (fs : Fields) (n : ℕ) (s : Text)
      → ReadableFields (field k v fs)
      → cost_fields (field k v fs) ≤ n
      → scan_fields n (mask (dump_fields (field k v fs) ++ s)) ≡ scanned (field k v fs) (mask s)
  scan_fields-dumps k v fs zero s h l = absurd (omega arith)
  scan_fields-dumps k v no_fields (suc n) s h l = rw (field_assoc k (dumps v) [] s 125) (
      scan_fields-step n k v (125 ∷ s) (field k v no_fields) (mask s)
        (scan_value-dumps v n (125 ∷ s) h.0 (omega arith) (inr (inr refl)))
        (next_or_end-125 _ _ _ s))
  scan_fields-dumps k v (field j w fs) (suc n) s h l =
      rw (field_assoc k (dumps v) (dump_fields (field j w fs)) s 44) (
        scan_fields-step n k v (44 ∷ (dump_fields (field j w fs) ++ s)) (field k v (field j w fs))
          (mask s) (scan_value-dumps v n _ h.0 (omega arith) (inl refl))
          (next_or_end-comma _ _ _ _ 125 (field j w fs) (mask s)
            (scan_fields-dumps j w fs n s h.1 (omega arith))))

mask_nil : mask [] ≡ []
unfolding mask replace_after
mask_nil = refl

whole_end : (v : Json) → whole (scanned v []) ≡ some v
unfolding whole skip_space list_eq
whole_end v = refl

-- A readable value that was written, and in which `-->` was replaced, is read back.
pub loads-dumps : (v : Json) → Readable v → loads (mask (dumps v)) ≡ some v
unfolding loads
loads-dumps v h =
    ap whole (
      rw (append_nil (dumps v), mask_nil) at
        (scan_value-dumps v (suc (length (mask (dumps v)) + length (mask (dumps v)))) [] h
          (omega (arith, cost-dumps v h, mask-length (dumps v))) tt))
    ∙ whole_end v
