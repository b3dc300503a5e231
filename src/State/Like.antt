-- ===== src/State/Like.antt =====
-- SQLite's LIKE with ESCAPE '\', and the pattern that `move_prefix` of state.py builds.
use joplin_md_sync.Base.{
  ℕ, ◌+◌, ◌≡◌, ◌≢◌, refl, ap, ◌∙◌, Bool, true, false, ◌&&◌, ◌||◌, [], ◌∷◌, ◌++◌, ◌==◌, nat_eq,
  list_eq, leb, arith, if◌then◌else◌, Bool-cases, inl, inr,
}
use joplin_md_sync.Base.Text.{Text, text, starts_with, replace_after, replace}

-- LIKE takes the 26 letters of ASCII in either case.
unfoldable pub fold_ascii : ℕ → ℕ
fold_ascii c = if leb 65 c && leb c 90 then c + 32 else c

unfoldable pub same_letter : ℕ → ℕ → Bool
same_letter x c = fold_ascii x == fold_ascii c

-- `%`: any suffix will do.
unfoldable pub any_suffix : (Text → Bool) → Text → Bool
any_suffix k [] = k []
any_suffix k (c ∷ s) = k (c ∷ s) || any_suffix k s

unfoldable pub one_char : (ℕ → Bool) → (Text → Bool) → Text → Bool
one_char f k [] = false
one_char f k (c ∷ s) = f c && k s

unfoldable pub like : Text → Text → Bool
like [] s = s == []
like (x ∷ []) s = elim (x == b'%') [
  | true ↦ true
  | false ↦ elim (x == b'_') [
    | true ↦ one_char (λ _. true) (λ r. r == []) s
    | false ↦ elim (x == 92) [ true ↦ false | false ↦ one_char (same_letter x) (λ r. r == []) s ]
  ]
]
like (x ∷ y ∷ p) s = elim (x == b'%') [
  | true ↦ any_suffix (like (y ∷ p)) s
  | false ↦ elim (x == b'_') [
    | true ↦ one_char (λ _. true) (like (y ∷ p)) s
    | false ↦ elim (x == 92) [
      | true ↦ one_char (same_letter y) (like p) s
      | false ↦ one_char (same_letter x) (like (y ∷ p)) s
    ]
  ]
]

-- `.replace("\\", "\\\\").replace("%", "\\%").replace("_", "\\_")`
unfoldable pub like_escape : Text → Text
like_escape s =
    replace (replace (replace s (92 ∷ []) (92 ∷ 92 ∷ [])) (b'%' ∷ []) (92 ∷ b'%' ∷ [])) (b'_' ∷ [])
      (92 ∷ b'_' ∷ [])

-- The same in one pass.
escape_chars : Text → Text
escape_chars [] = []
escape_chars (c ∷ s) =
    if (c == 92 || (c == b'%' || c == b'_')) then 92 ∷ c ∷ escape_chars s else c ∷ escape_chars s

like_escape-eq-escape_chars : (s : Text) → like_escape s ≡ escape_chars s
unfolding like_escape escape_chars replace_after starts_with
like_escape-eq-escape_chars [] = refl
like_escape-eq-escape_chars (c ∷ s) = ground (arith, like_escape-eq-escape_chars s)

-- `s` begins with `p`, up to the case of ASCII letters.
unfoldable pub starts_with_ci : Text → Text → Bool
starts_with_ci s [] = true
starts_with_ci [] (x ∷ p) = false
starts_with_ci (c ∷ s) (x ∷ p) = same_letter x c && starts_with_ci s p

like_plain :
    (c : ℕ) (p s : Text)
    → (c == 92 || (c == b'%' || c == b'_')) ≡ false
    → p ≢ []
    → like (c ∷ p) s ≡ one_char (same_letter c) (like p) s
unfolding like
like_plain c [] s h n = absurd (n refl)
like_plain c (y ∷ p) s h n = ground arith

like_escaped : (c : ℕ) (p s : Text) → like (92 ∷ c ∷ p) s ≡ one_char (same_letter c) (like p) s
unfolding like nat_eq
like_escaped c p s = refl

append-ne-nil : (s : Text) (c : ℕ) (t : Text) → s ++ (c ∷ t) ≢ []
append-ne-nil [] c t e = cc
append-ne-nil (d ∷ s) c t e = cc

like-escape_chars :
    (old s : Text)
    → like (escape_chars old ++ (47 ∷ 37 ∷ [])) s ≡ starts_with_ci s (old ++ (47 ∷ []))
unfolding escape_chars starts_with_ci
like-escape_chars [] [] = unfold like one_char nat_eq in refl
like-escape_chars [] (c ∷ s) = unfold like one_char nat_eq in refl
like-escape_chars (c ∷ old) s = elim (Bool-cases (c == 92 || (c == b'%' || c == b'_'))) [
  | inl special ↦
      rw special
        (like_escaped c (escape_chars old ++ (47 ∷ 37 ∷ [])) s ∙ one (like-escape_chars old) s)
  | inr plain ↦ rw plain (
      like_plain c (escape_chars old ++ (47 ∷ 37 ∷ [])) s plain
        (append-ne-nil (escape_chars old) 47 (37 ∷ []))
      ∙ one (like-escape_chars old) s)
]
  where
    one :
        ((t : Text)
          → like (escape_chars old ++ (47 ∷ 37 ∷ [])) t ≡ starts_with_ci t (old ++ (47 ∷ [])))
        → (t : Text)
        → one_char (same_letter c) (like (escape_chars old ++ (47 ∷ 37 ∷ []))) t
          ≡ starts_with_ci t (c ∷ (old ++ (47 ∷ [])))
    one below [] = unfold one_char in refl
    one below (d ∷ t) = unfold one_char in ap (λ b. same_letter c d && b) (below t)

-- The LIKE pattern of `move_prefix` matches exactly the paths that begin with the prefix and a
-- slash, up to the case of ASCII letters, whatever the prefix holds of `%`, `_` and backslashes.
pub like-like_escape :
    (old path : Text)
    → like (like_escape old ++ text "/%") path ≡ starts_with_ci path (old ++ text "/")
unfolding text
like-like_escape old path =
    ap (λ p. like (p ++ (47 ∷ 37 ∷ [])) path) (like_escape-eq-escape_chars old)
    ∙ like-escape_chars old path
