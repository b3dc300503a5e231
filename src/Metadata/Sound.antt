-- ===== src/Metadata/Sound.antt =====
-- What `parse_note_file` of src/joplin_md_sync/metadata.py accepts.
use mathlib.Core.Path.{subst}
use joplin_md_sync.Base.{
  ◌≡◌, refl, Bool, true, false, Option, none, some, OnSome, [], ◌∷◌, nat_eq, list_eq, arith,
}
use joplin_md_sync.Base.Text.{Text, text, starts_with, Lacks}
use joplin_md_sync.Base.Dict.{Dict, lookup}
use joplin_md_sync.Runtime.{Runtime, IsStableCase}
use joplin_md_sync.Canonical.{canonicalize_body, canonicalize_tags}
use joplin_md_sync.Canonical.Body.{canonicalize_body-Lacks}
use joplin_md_sync.Canonical.Tags.{canonicalize_tags_idem}
use joplin_md_sync.Json.{Json, null, boolean, integer, float, string, array, object}
use joplin_md_sync.Metadata.{
  ParsedNoteFile, is_parsed, is_malformed, JsonLib, Checked, passed, failed, check, ◌>>=◌,
  is_valid_note_id, id_of, body_of, parsed_of, parse_lines, parse_result_of, partition,
  parse_note_file, has_header, header_prefix,
}

-- What a check that passed gives.
abbrev OnPassed {ℓ κ} : {A : Type ℓ} → (A → Type κ) → Checked A → Type κ
OnPassed P (passed a) = P a
OnPassed P (failed m) = Unit

record Gives {ℓ κ} {A : Type ℓ} (P : A → Type κ) (x : Checked A) : Type κ where
  pub at : OnPassed P x

Gives-bind {ℓ κ μ ν} :
    {A : Type ℓ} {B : Type κ} {Q : A → Type μ} {P : B → Type ν} {x : Checked A} {k : A → Checked B}
    → Gives Q x
    → ((a : A) → Q a → Gives P (k a))
    → Gives P (x >>= k)
unfolding ◌>>=◌
Gives-bind {A = A} {Q = Q} {P = P} {x = x} {k = k} h f = record { at = go x h.at }
  where
    go : (y : Checked A) → OnPassed Q y → OnPassed P (y >>= k)
    go (passed a) q = (f a q).at
    go (failed m) q = tt

Gives-any {ℓ} : {A : Type ℓ} (x : Checked A) → Gives (λ a. Unit {0}) x
Gives-any (passed a) = record { at = tt }
Gives-any (failed m) = record { at = tt }

check-Passed : (b : Bool) (m : Text) → Gives (λ u. b ≡ true) (check b m)
unfolding check
check-Passed true m = record { at = refl }
check-Passed false m = record { at = tt }

partition-Lacks : (s : Text) → Lacks 13 s → Lacks 13 (partition s).1
unfolding partition
partition-Lacks [] h = tt
partition-Lacks (c ∷ s) h = ground (arith, partition-Lacks s h.1)

body_of-Passed : (s : Text) → Lacks 13 s → OnPassed (Lacks 13) (body_of s)
unfolding body_of
body_of-Passed [] h = tt
body_of-Passed (c ∷ s) h = ground arith

id_of-Passed : (o : Option Json) → OnPassed (OnSome (λ nid. is_valid_note_id nid ≡ true)) (id_of o)
unfolding id_of
id_of-Passed none = tt
id_of-Passed (some null) = tt
id_of-Passed (some (boolean b)) = tt
id_of-Passed (some (integer u)) = tt
id_of-Passed (some (float u)) = tt
id_of-Passed (some (string s)) = ground arith
id_of-Passed (some (array vs)) = tt
id_of-Passed (some (object fs)) = tt

-- A note as it is canonical: a valid id if it has one, canonical tags, and line feeds only.
pub record IsCanonicalNote (rt : Runtime) (p : ParsedNoteFile) : Type 0 where
  pub valid : OnSome (λ nid. is_valid_note_id nid ≡ true) p.note_id
  pub tags : canonicalize_tags rt p.tags ≡ p.tags
  pub body : Lacks 13 p.body

parsed_inj : (p q : ParsedNoteFile) → is_parsed p ≡ is_parsed q → p ≡ q
parsed_inj p q e = cc

malformed_ne : (m : Text) (p : ParsedNoteFile) → is_malformed m ≡ is_parsed p → ⊥
malformed_ne m p e = cc

module _ (rt : Runtime) (law : IsStableCase rt) (lib : JsonLib) where
  parsed_of-Passed :
      (meta : Dict Text Json) (rest : Text)
      → Lacks 13 rest
      → Gives (IsCanonicalNote rt) (parsed_of rt lib meta rest)
  unfolding parsed_of
  parsed_of-Passed meta rest h = Gives-bind (Gives-any _) (λ u u'.
      Gives-bind (record { at = id_of-Passed (lookup (text "id") meta) })
        (λ nid v. Gives-bind (Gives-any _) (λ title u. Gives-bind (Gives-any _) (λ ts u.
          Gives-bind (Gives-any _) (λ u u'.
            Gives-bind (record { at = body_of-Passed rest h })
              (λ body b. record {
                at = record { valid = v; tags = canonicalize_tags_idem rt law ts; body = b };
              }))))))

  parse_lines-Passed :
      (line rest : Text)
      → Lacks 13 rest
      → Gives
          (λ p. IsCanonicalNote rt p × (starts_with line header_prefix ≡ true))
          (parse_lines rt lib line rest)
  unfolding parse_lines
  parse_lines-Passed line rest h =
      Gives-bind (check-Passed (starts_with line header_prefix) _) (λ u starts.
        Gives-bind (Gives-any _) (λ u u'. Gives-bind (Gives-any _) (λ meta u. record {
          at = with_start (parsed_of rt lib meta rest) starts (parsed_of-Passed meta rest h).at;
        })))
    where
      with_start :
          (x : Checked ParsedNoteFile)
          → starts_with line header_prefix ≡ true
          → OnPassed (IsCanonicalNote rt) x
          → OnPassed (λ p. IsCanonicalNote rt p × (starts_with line header_prefix ≡ true)) x
      with_start (passed p) e c = (c, e)
      with_start (failed m) e c = tt

  -- A file that parses has a header, and the parsed note has a valid id, if any, canonical tags,
  -- and a body without carriage returns. Condition: lower case is stable.
  pub parse_note_file-IsCanonicalNote :
      (s : Text) (p : ParsedNoteFile)
      → parse_note_file rt lib s ≡ is_parsed p
      → IsCanonicalNote rt p × (has_header s ≡ true)
  unfolding parse_note_file has_header parse_result_of
  parse_note_file-IsCanonicalNote s p e =
      let lines = partition (canonicalize_body s) in
      of_result (parse_lines rt lib lines.0 lines.1) p e
        (parse_lines-Passed lines.0 lines.1
          (partition-Lacks (canonicalize_body s) (canonicalize_body-Lacks s))).at
    where
      of_result :
          (x : Checked ParsedNoteFile) (p : ParsedNoteFile)
          → parse_result_of rt lib x ≡ is_parsed p
          → OnPassed
              (λ q.
                IsCanonicalNote rt q
                × (starts_with (partition (canonicalize_body s)).0 header_prefix ≡ true))
              x
          → IsCanonicalNote rt p
            × (starts_with (partition (canonicalize_body s)).0 header_prefix ≡ true)
      of_result (passed q) p e h =
          subst
            (λ (r : ParsedNoteFile).
              IsCanonicalNote rt r
              × (starts_with (partition (canonicalize_body s)).0 header_prefix ≡ true))
            (parsed_inj q p e) h
      of_result (failed m) p e h = absurd (malformed_ne m p e)
