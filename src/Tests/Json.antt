-- ===== src/Tests/Json.antt =====
-- Runs of the JSON texts.
use joplin_md_sync.Base.{◌≡◌, refl, true, some, none, [], ◌∷◌, nat_eq, list_eq}
use joplin_md_sync.Base.Text.{text}
use joplin_md_sync.Json.{
  string, integer, float, array, object, item, no_items, field, no_fields, dumps, boolean,
}
use joplin_md_sync.Json.Scan.{loads}

loads_test :
    loads (text " {\"a\" : [1 , -2.5e+3,\"x\\u0041\\n\\ud83d\\ude00\"], \"b\":true}")
    ≡ some (
        object (
          field
            (text "a")
            (array (
              item (integer (text "1")) (
                item
                  (float (text "-2.5e+3"))
                  (item (string (120 ∷ 65 ∷ 10 ∷ 128512 ∷ [])) no_items))))
            (field (text "b") (boolean true) no_fields)))
unfolding loads text nat_eq list_eq
loads_test = refl

loads_bad : loads (text "{\"a\":01}") ≡ none
unfolding loads text nat_eq list_eq
loads_bad = refl

dumps_test :
    dumps (
      object (
        field
          (text "a\n")
          (array (item (integer (text "1")) (item (string (34 ∷ 1 ∷ [])) no_items)))
          no_fields))
    ≡ text "{\"a\\n\":[1,\"\\\"\\u0001\"]}"
unfolding dumps text nat_eq list_eq
dumps_test = refl
