-- ===== src/Json/Nesting/Count.antt =====
-- The nesting of the texts that json.dumps writes, as src/joplin_md_sync/json_safety.py counts it.
use joplin_md_sync.Base.{
  ℕ, suc, ◌+◌, ◌≤◌, ◌≡◌, ap, sym, ◌∙◌, true, false, ◌||◌, [], ◌∷◌, ◌++◌, nat_eq, ltb, arith,
}
use joplin_md_sync.Base.Text.{Text, text, append_assoc, append_nil}
use joplin_md_sync.Base.Numbers.Utf8.{encode}
use joplin_md_sync.Json.{
  Json, null, boolean, integer, float, string, array, object, Items, no_items, item, Fields,
  no_fields, field, dumps, dump_items, dump_fields,
}
use joplin_md_sync.Json.Nesting.{outside, exceeds_from, json_nesting_exceeds}
use joplin_md_sync.Json.Nesting.Depth.{
  depth, items_depth, fields_depth, IsSpelled, AreSpelled, FieldsSpelled,
}
use joplin_md_sync.Json.Nesting.Steps.{
  combine, exceeds_from-closing, exceeds_from-encode, exceeds_from-opening, exceeds_from-plain,
  exceeds_from-quoted, in_container, keyed,
}

module _ (maximum : ℕ) where
  mutual
    unfolding dumps depth text

    exceeds_from-dumps :
        (v : Json) (d : ℕ) (rest : Text)
        → IsSpelled v
        → d ≤ maximum
        → exceeds_from maximum d outside (dumps v ++ rest)
          ≡ (ltb maximum (d + depth v) || exceeds_from maximum d outside rest)
    exceeds_from-dumps null d rest h le =
        exceeds_from-plain maximum d (text "null") rest (ground arith) ∙ ground arith
    exceeds_from-dumps (boolean true) d rest h le =
        exceeds_from-plain maximum d (text "true") rest (ground arith) ∙ ground arith
    exceeds_from-dumps (boolean false) d rest h le =
        exceeds_from-plain maximum d (text "false") rest (ground arith) ∙ ground arith
    exceeds_from-dumps (integer u) d rest h le =
        exceeds_from-plain maximum d u rest h ∙ ground arith
    exceeds_from-dumps (float u) d rest h le = exceeds_from-plain maximum d u rest h ∙ ground arith
    exceeds_from-dumps (string s) d rest h le = exceeds_from-quoted maximum d s rest ∙ ground arith
    exceeds_from-dumps (array vs) d rest h le =
        exceeds_from-opening maximum d 91 (dump_items vs ++ rest) (ground arith) (ground arith)
        ∙ in_container maximum d (items_depth vs) _ _
            (λ deep. exceeds_from-dump_items vs d rest h deep)
    exceeds_from-dumps (object fs) d rest h le =
        exceeds_from-opening maximum d 123 (dump_fields fs ++ rest) (ground arith) (ground arith)
        ∙ in_container maximum d (fields_depth fs) _ _
            (λ deep. exceeds_from-dump_fields fs d rest h deep)

    exceeds_from-dump_items :
        (vs : Items) (n : ℕ) (rest : Text)
        → AreSpelled vs
        → suc n ≤ maximum
        → exceeds_from maximum (suc n) outside (dump_items vs ++ rest)
          ≡ (ltb maximum (suc n + items_depth vs) || exceeds_from maximum n outside rest)
    exceeds_from-dump_items no_items n rest h le =
        exceeds_from-closing maximum n 93 rest (ground arith) (ground arith) (ground arith)
        ∙ (ground arith)
    exceeds_from-dump_items (item v no_items) n rest h le =
        ap (exceeds_from maximum (suc n) outside) (append_assoc (dumps v) (93 ∷ []) rest)
        ∙ combine maximum (suc n) (depth v) 0 _ _ _
            (exceeds_from-dumps v (suc n) (93 ∷ rest) h.0 le)
            (exceeds_from-dump_items no_items n rest tt le)
    exceeds_from-dump_items (item v (item w vs)) n rest h le =
        ap (exceeds_from maximum (suc n) outside)
          (append_assoc (dumps v) (44 ∷ dump_items (item w vs)) rest)
        ∙ combine maximum (suc n) (depth v) (items_depth (item w vs)) _ _ _
            (exceeds_from-dumps v (suc n) (44 ∷ (dump_items (item w vs) ++ rest)) h.0 le)
            (exceeds_from-plain maximum (suc n) (44 ∷ []) (dump_items (item w vs) ++ rest)
                (ground arith)
              ∙ exceeds_from-dump_items (item w vs) n rest h.1 le)

    exceeds_from-dump_fields :
        (fs : Fields) (n : ℕ) (rest : Text)
        → FieldsSpelled fs
        → suc n ≤ maximum
        → exceeds_from maximum (suc n) outside (dump_fields fs ++ rest)
          ≡ (ltb maximum (suc n + fields_depth fs) || exceeds_from maximum n outside rest)
    exceeds_from-dump_fields no_fields n rest h le =
        exceeds_from-closing maximum n 125 rest (ground arith) (ground arith) (ground arith)
        ∙ ground arith
    exceeds_from-dump_fields (field k v no_fields) n rest h le =
        keyed maximum k v (125 ∷ []) n rest
        ∙ combine maximum (suc n) (depth v) 0 _ _ _
            (exceeds_from-dumps v (suc n) (125 ∷ rest) h.0 le)
            (exceeds_from-dump_fields no_fields n rest tt le)
    exceeds_from-dump_fields (field k v (field j w fs)) n rest h le =
        keyed maximum k v (44 ∷ dump_fields (field j w fs)) n rest
        ∙ combine maximum (suc n) (depth v) (fields_depth (field j w fs)) _ _ _
            (exceeds_from-dumps v (suc n) (44 ∷ (dump_fields (field j w fs) ++ rest)) h.0 le)
            (exceeds_from-plain maximum (suc n) (44 ∷ []) (dump_fields (field j w fs) ++ rest)
                (ground arith)
              ∙ exceeds_from-dump_fields (field j w fs) n rest h.1 le)

  -- On the UTF-8 bytes of what json.dumps writes, `json_nesting_exceeds` tells whether the
  -- value's containers stand in each other more deeply than the maximum: no bracket, quotation
  -- mark or backslash within a string counts. Condition: no number is spelled with a quotation
  -- mark or a bracket.
  pub json_nesting_exceeds-dumps :
      (v : Json)
      → IsSpelled v
      → json_nesting_exceeds maximum (encode (dumps v)) ≡ ltb maximum (depth v)
  unfolding json_nesting_exceeds exceeds_from
  json_nesting_exceeds-dumps v h =
      exceeds_from-encode maximum 0 outside (dumps v)
      ∙ ap (exceeds_from maximum 0 outside) (sym (append_nil (dumps v)))
      ∙ exceeds_from-dumps v 0 [] h (ground arith)
      ∙ ground arith
