-- ===== src/Paths/Safe.antt =====
-- What `sanitize_component` of src/joplin_md_sync/paths.py makes of a title.
use joplin_md_sync.Base.{
  ℕ, zero, suc, ◌≤◌, ◌≡◌, ◌≢◌, refl, Bool, true, false, [], ◌∷◌, ◌==◌, contains, nat_eq, list_eq,
  ltb, arith, Bool-cases, inl, inr,
}
use joplin_md_sync.Base.Text.{Text, text, length, take}
use joplin_md_sync.Base.Sort.{All}
use joplin_md_sync.Runtime.{Runtime, IsAsciiUpper}
use joplin_md_sync.Paths.{
  is_invalid, replace_invalid, rstrip_dots, stem, only_dots, reserved, collapse, drop_format, upper,
  clean_name, shorten, or_untitled, escape_reserved, sanitize_component, max_component_len,
}

abbrev pub IsValidChar : ℕ → Type 0
IsValidChar c = is_invalid c ≡ false

replace_invalid-All : (s : Text) → All IsValidChar (replace_invalid s)
unfolding replace_invalid
replace_invalid-All [] = tt
replace_invalid-All (c ∷ s) = elim (Bool-cases (is_invalid c)) [
  | inl bad ↦ rw bad (unfold is_invalid nat_eq in refl, replace_invalid-All s)
  | inr good ↦ rw good (good, replace_invalid-All s)
]

module _ (P : ℕ → Type 0) where
  rstrip_dots-All : (s : Text) → All P s → All P (rstrip_dots s)
  unfolding rstrip_dots
  rstrip_dots-All [] h = tt
  rstrip_dots-All (c ∷ s) h = ground (arith, rstrip_dots-All s h.1)

  take-All : (n : ℕ) (s : Text) → All P s → All P (take n s)
  unfolding take
  take-All zero s h = tt
  take-All (suc n) [] h = tt
  take-All (suc n) (c ∷ s) h = (h.0, take-All n s h.1)

  shorten-All : (s : Text) → All P s → All P (shorten s)
  unfolding shorten
  shorten-All s h = elim (Bool-cases (ltb max_component_len (length s))) [
    | inl long ↦
        rw long (rstrip_dots-All (take max_component_len s) (take-All max_component_len s h))
    | inr short ↦ rw short h
  ]

  module _ (rt : Runtime) where
    drop_format-All : (s : Text) → All P s → All P (drop_format rt s)
    unfolding drop_format
    drop_format-All [] h = tt
    drop_format-All (c ∷ s) h = ground (arith, drop_format-All s h.1)

    collapse-All : (b g : Bool) (s : Text) → P b' ' → All P s → All P (collapse rt b g s)
    unfolding collapse
    collapse-All b g [] p h = tt
    collapse-All b g (c ∷ s) p h =
        ground (arith, collapse-All b true s p h.1, collapse-All true false s p h.1)

length-rstrip_dots : (s : Text) → length (rstrip_dots s) ≤ length s
unfolding rstrip_dots
length-rstrip_dots [] = omega arith
length-rstrip_dots (c ∷ s) = ground (arith, length-rstrip_dots s)

length-take : (n : ℕ) (s : Text) → length (take n s) ≤ n
unfolding take
length-take zero s = omega arith
length-take (suc n) [] = omega arith
length-take (suc n) (c ∷ s) = omega (arith, length-take n s)

length-shorten : (s : Text) → length (shorten s) ≤ 80
unfolding shorten
length-shorten s =
    ground (arith, length-rstrip_dots (take max_component_len s), length-take max_component_len s)

untitled-All : All IsValidChar (text "untitled")
unfolding text is_invalid nat_eq
untitled-All = (refl, (refl, (refl, (refl, (refl, (refl, (refl, (refl, tt))))))))

module _ (rt : Runtime) where
  -- One component: not empty, with no character that a path or Windows forbids, not "." or "..",
  -- no device name, and short.
  pub record IsSafeName (name : Text) : Type 0 where
    pub ne_nil : name ≢ []
    pub valid : All IsValidChar name
    pub no_dots : only_dots name ≡ false
    pub not_reserved : contains reserved (upper rt (stem name)) ≡ false
    pub short : length name ≤ 81

  clean_name-All : (title : Text) → All IsValidChar (clean_name rt title)
  unfolding clean_name
  clean_name-All title = drop_format-All IsValidChar rt _ (
      rstrip_dots-All IsValidChar _ (
        collapse-All IsValidChar rt false false _ (unfold is_invalid nat_eq in refl)
          (replace_invalid-All title)))

  or_untitled-All : (s : Text) → All IsValidChar s → All IsValidChar (or_untitled s)
  unfolding or_untitled
  or_untitled-All s h = elim (Bool-cases (s == [])) [ inl e ↦ rw e untitled-All | inr e ↦ rw e h ]

  or_untitled-ne-nil : (s : Text) → or_untitled s ≢ []
  unfolding or_untitled text
  or_untitled-ne-nil s = ground arith

  length-or_untitled : (s : Text) → length s ≤ 80 → length (or_untitled s) ≤ 80
  unfolding or_untitled text
  length-or_untitled s h = ground arith

  module _ (law : IsAsciiUpper rt) where
    -- No device name begins with "_" or with "U".
    underscore-not-reserved : (s : Text) → contains reserved (upper rt (stem (b'_' ∷ s))) ≡ false
    unfolding stem upper reserved text list_eq nat_eq
    underscore-not-reserved s = rw (law 95 (omega arith))

    untitled-IsSafeName : IsSafeName (text "untitled")
    unfolding stem upper reserved text list_eq nat_eq only_dots
    untitled-IsSafeName = record {
      ne_nil = λ e. cc;
      valid =
          unfold is_invalid in (refl, (refl, (refl, (refl, (refl, (refl, (refl, (refl, tt))))))));
      no_dots = refl;
      not_reserved = rw (law 117 (omega arith));
      short = omega arith;
    }

    escape_reserved-IsSafeName :
        (s : Text)
        → s ≢ []
        → All IsValidChar s
        → length s ≤ 80
        → only_dots (escape_reserved rt s) ≡ false
        → IsSafeName (escape_reserved rt s)
    unfolding escape_reserved
    escape_reserved-IsSafeName s n v l d =
        elim (Bool-cases (contains reserved (upper rt (stem s)))) [
          | inl e ↦ rw e (record {
            ne_nil = λ p. cc;
            valid = (unfold is_invalid nat_eq in refl, v);
            no_dots = rw e at d;
            not_reserved = underscore-not-reserved s;
            short = omega arith;
          })
          | inr e ↦ rw e (record {
            ne_nil = n;
            valid = v;
            no_dots = rw e at d;
            not_reserved = e;
            short = omega arith;
          })
        ]

    -- Every title gives a file name that is not empty, holds no character that is invalid on
    -- Windows, does not consist of dots only, is no device name up to its first dot, and has at
    -- most 81 characters. Condition: upper case of ASCII characters is the usual one.
    pub sanitize_component-IsSafeName : (title : Text) → IsSafeName (sanitize_component rt title)
    unfolding sanitize_component
    sanitize_component-IsSafeName title =
        let base = or_untitled (shorten (clean_name rt title)) in
        elim (Bool-cases (only_dots (escape_reserved rt base))) [
          | inl e ↦ rw e untitled-IsSafeName
          | inr e ↦ rw e (
              escape_reserved-IsSafeName base (or_untitled-ne-nil _)
                (or_untitled-All _ (shorten-All IsValidChar _ (clean_name-All title)))
                (length-or_untitled _ (length-shorten (clean_name rt title))) e)
        ]
