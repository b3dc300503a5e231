-- ===== src/Base/Text.antt =====
-- Texts and byte strings are lists of code points.
use Prim.Native.Nat.{ℕ, zero, suc, ◌+◌, ◌-◌}
use Prim.Native.Char.{code}
use Prim.Native.String.{String}
use mathlib.Core.Path.{◌≡◌, refl, ap}
use mathlib.Core.Logic.{◌≢◌}
use mathlib.Core.Bool.{Bool, true, false, ◌&&◌, ◌||◌}
use mathlib.Core.List.{List, [], ◌∷◌, ◌++◌}
use native.Mathlib.Omega.{arith}
use joplin_md_sync.Base.Equality.{◌==◌, nat_eq, ltb}

abbrev pub Text : Type 0
Text = List ℕ

-- The code points of a literal. It stays folded, so that long messages cost nothing in proofs.
unfoldable pub text : String → Text
text String.[] = []
text (String.◌∷◌ c s) = code c ∷ text s

-- `s[:n]` and `s[n:]`
unfoldable pub take : ℕ → Text → Text
take zero s = []
take (suc n) [] = []
take (suc n) (c ∷ s) = c ∷ take n s

unfoldable pub drop : ℕ → Text → Text
drop zero s = s
drop (suc n) [] = []
drop (suc n) (c ∷ s) = drop n s

abbrev pub length {ℓ} : {A : Type ℓ} → List A → ℕ
length [] = 0
length (c ∷ s) = suc (length s)

-- `s.startswith(p)`
unfoldable pub starts_with : Text → Text → Bool
starts_with s [] = true
starts_with [] (c ∷ p) = false
starts_with (d ∷ s) (c ∷ p) = d == c && starts_with s p

-- `p in s`
unfoldable pub has_part : Text → Text → Bool
unfolding starts_with
has_part [] p = starts_with [] p
has_part (c ∷ s) p = starts_with (c ∷ s) p || has_part s p

-- `sep.join(parts)`
unfoldable pub join : Text → List Text → Text
join sep [] = []
join sep (s ∷ []) = s
join sep (s ∷ t ∷ rest) = s ++ (sep ++ join sep (t ∷ rest))

-- `s.replace(old, new)`, from left to right, after `k` characters of a replaced part are skipped.
module _ (old new : Text) where
  unfoldable pub replace_after : ℕ → Text → Text
  replace_after k [] = []
  replace_after (suc k) (c ∷ s) = replace_after k s
  replace_after zero (c ∷ s) = elim (starts_with (c ∷ s) old) [
    | true ↦ new ++ replace_after (length old - 1) s
    | false ↦ c ∷ replace_after zero s
  ]

abbrev pub replace : Text → Text → Text → Text
replace s old new = replace_after old new 0 s

-- Python's order on texts, by code points.
unfoldable pub text_leb : Text → Text → Bool
text_leb [] t = true
text_leb (c ∷ s) [] = false
text_leb (c ∷ s) (d ∷ t) = ltb c d || (c == d && text_leb s t)

-- The character `x` does not occur.
abbrev pub Lacks : ℕ → Text → Type 0
Lacks x [] = Unit
Lacks x (c ∷ s) = (c ≢ x) × Lacks x s

pub Lacks-append : (x : ℕ) (u v : Text) → Lacks x u → Lacks x v → Lacks x (u ++ v)
Lacks-append x [] v hu hv = hv
Lacks-append x (c ∷ u) v hu hv = (hu.0, Lacks-append x u v hu.1 hv)

pub append_assoc : (s t u : Text) → (s ++ t) ++ u ≡ s ++ (t ++ u)
append_assoc [] t u = refl
append_assoc (c ∷ s) t u = ap (λ r. c ∷ r) (append_assoc s t u)

pub append_nil : (s : Text) → s ++ [] ≡ s
append_nil [] = refl
append_nil (c ∷ s) = ap (λ r. c ∷ r) (append_nil s)

pub length-append : (s t : Text) → length (s ++ t) ≡ length s + length t
length-append [] t = omega arith
length-append (c ∷ s) t = omega (arith, length-append s t)

pub starts_with-append : (p s : Text) → starts_with (p ++ s) p ≡ true
unfolding starts_with
starts_with-append [] [] = refl
starts_with-append [] (c ∷ s) = refl
starts_with-append (c ∷ p) s = ground (arith, starts_with-append p s)

pub take-append : (s t : Text) → take (length s) (s ++ t) ≡ s
unfolding take
take-append [] t = refl
take-append (c ∷ s) t = ap (λ r. c ∷ r) (take-append s t)

pub drop-append : (s t : Text) → drop (length s) (s ++ t) ≡ t
unfolding drop
drop-append [] t = refl
drop-append (c ∷ s) t = drop-append s t

-- What stands in front of the first `x` is determined, and so is what follows it.
pub delimited :
    (x : ℕ) (u v p q : Text)
    → Lacks x u
    → Lacks x v
    → u ++ (x ∷ p) ≡ v ++ (x ∷ q)
    → (u ≡ v) × (p ≡ q)
delimited x [] [] p q hu hv e = ground arith
delimited x [] (d ∷ v) p q hu hv e = ground arith
delimited x (c ∷ u) [] p q hu hv e = ground arith
delimited x (c ∷ u) (d ∷ v) p q hu hv e = ground (arith, delimited x u v p q hu.1 hv.1)

pub Lacks-ne : (x : ℕ) (u v p : Text) → Lacks x u → u ≢ v ++ (x ∷ p)
Lacks-ne x [] [] p h e = cc
Lacks-ne x [] (d ∷ v) p h e = cc
Lacks-ne x (c ∷ u) [] p h e = ground arith
Lacks-ne x (c ∷ u) (d ∷ v) p h e = ground (arith, Lacks-ne x u v p h.1)

-- Two texts of one length, each followed by a rest.
pub append_inj : (u v p q : Text) → length u ≡ length v → u ++ p ≡ v ++ q → (u ≡ v) × (p ≡ q)
append_inj [] [] p q l e = (refl, e)
append_inj [] (d ∷ v) p q l e = absurd (omega arith)
append_inj (c ∷ u) [] p q l e = absurd (omega arith)
append_inj (c ∷ u) (d ∷ v) p q l e = ground (arith, append_inj u v p q (omega arith))

pub text_leb_total : (s t : Text) → text_leb s t ≡ false → text_leb t s ≡ true
unfolding text_leb
text_leb_total [] t h = cc
text_leb_total (c ∷ s) [] h = refl
text_leb_total (c ∷ s) (d ∷ t) h = ground (arith, text_leb_total s t)
