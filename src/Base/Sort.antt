-- ===== src/Base/Sort.antt =====
-- Python's stable `sorted`, by a Boolean order.
use mathlib.Core.Path.{◌≡◌, refl, ap, ◌∙◌}
use mathlib.Core.Bool.{Bool, true, false, ◌||◌}
use mathlib.Core.Logic.{inl, inr}
use mathlib.Core.List.{List, [], ◌∷◌, ◌++◌, map}
use native.Mathlib.Omega.{arith}
use joplin_md_sync.Base.Equality.{Eq, ◌==◌, contains, if◌then◌else◌, Bool-cases}

module _ {ℓ} {A : Type ℓ} (le : A → A → Bool) where
  unfoldable pub insert_sorted : A → List A → List A
  insert_sorted x [] = x ∷ []
  insert_sorted x (y ∷ ys) = if le x y then x ∷ y ∷ ys else y ∷ insert_sorted x ys

  unfoldable pub sort : List A → List A
  unfolding insert_sorted
  sort [] = []
  sort (x ∷ xs) = insert_sorted x (sort xs)

-- Each element is at most the next one.
module _ {ℓ} {A : Type ℓ} (le : A → A → Bool) where
  abbrev pub IsSorted : List A → Type 0
  IsSorted [] = Unit
  IsSorted (x ∷ []) = Unit
  IsSorted (x ∷ y ∷ ys) = (le x y ≡ true) × IsSorted (y ∷ ys)

  IsSorted-tail : (x : A) (xs : List A) → IsSorted (x ∷ xs) → IsSorted xs
  IsSorted-tail x [] h = tt
  IsSorted-tail x (y ∷ ys) h = h.1

  pub sort_of_IsSorted : (xs : List A) → IsSorted xs → sort le xs ≡ xs
  unfolding sort
  sort_of_IsSorted [] h = refl
  sort_of_IsSorted (x ∷ []) h = refl
  sort_of_IsSorted (x ∷ y ∷ ys) h = rw (sort_of_IsSorted (y ∷ ys) h.1) (ground arith)

module _ {ℓ} {A : Type ℓ} (le : A → A → Bool)
    (total : (x y : A) → le x y ≡ false → le y x ≡ true) where
  insert-IsSorted : (x : A) (xs : List A) → IsSorted le xs → IsSorted le (insert_sorted le x xs)
  unfolding insert_sorted
  insert-IsSorted x [] h = tt
  insert-IsSorted x (y ∷ []) h = ground (arith, total x y)
  insert-IsSorted x (y ∷ z ∷ ys) h =
      ground (arith, total x y, total x z, insert-IsSorted x (z ∷ ys) h.1)

  pub sort-IsSorted : (xs : List A) → IsSorted le (sort le xs)
  unfolding sort
  sort-IsSorted [] = tt
  sort-IsSorted (x ∷ xs) = insert-IsSorted x (sort le xs) (sort-IsSorted xs)

-- What holds of every element holds of every element of the sorted list.
module _ {ℓ κ} {A : Type ℓ} (P : A → Type κ) where
  abbrev pub All : List A → Type κ
  All [] = Unit
  All (x ∷ xs) = P x × All xs

  pub All-append : (xs ys : List A) → All xs → All ys → All (xs ++ ys)
  All-append [] ys hx hy = hy
  All-append (x ∷ xs) ys hx hy = (hx.0, All-append xs ys hx.1 hy)

module _ {ℓ κ} {A : Type ℓ} (P : A → Type κ) (le : A → A → Bool) where
  All-insert : (x : A) (xs : List A) → P x → All P xs → All P (insert_sorted le x xs)
  unfolding insert_sorted
  All-insert x [] p h = (p, tt)
  All-insert x (y ∷ ys) p h = elim (Bool-cases (le x y)) [
    | inl e ↦ rw e (p, h)
    | inr e ↦ rw e (h.0, All-insert x ys p h.1)
  ]

  pub All-sort : (xs : List A) → All P xs → All P (sort le xs)
  unfolding sort
  All-sort [] h = tt
  All-sort (x ∷ xs) h = All-insert x (sort le xs) h.0 (All-sort xs h.1)

module _ {ℓ} {A : Type ℓ} ⦃e : Eq A⦄ where
  -- No element stands twice.
  abbrev pub IsDistinct : List A → Type 0
  IsDistinct [] = Unit
  IsDistinct (x ∷ xs) = (contains xs x ≡ false) × IsDistinct xs

module _ {ℓ} {A : Type ℓ} ⦃e : Eq A⦄ where
  pub contains-append :
      (a : A) (xs ys : List A) → contains (xs ++ ys) a ≡ (contains xs a || contains ys a)
  contains-append a [] ys = refl
  contains-append a (x ∷ xs) ys = ground (arith, contains-append a xs ys)

  pub IsDistinct-append_one :
      (x : A) (xs : List A) → contains xs x ≡ false → IsDistinct xs → IsDistinct (xs ++ (x ∷ []))
  IsDistinct-append_one x [] c h = (refl, tt)
  IsDistinct-append_one x (y ∷ ys) c h =
      ground (arith, contains-append y ys (x ∷ []), IsDistinct-append_one x ys)

-- Sorting neither loses nor adds an element.
module _ {ℓ} {A : Type ℓ} ⦃e : Eq A⦄ (le : A → A → Bool) where
  contains-insert :
      (a x : A) (xs : List A) → contains (insert_sorted le x xs) a ≡ (a == x || contains xs a)
  unfolding insert_sorted
  contains-insert a x [] = refl
  contains-insert a x (y ∷ ys) = ground (arith, contains-insert a x ys)

  pub contains-sort : (a : A) (xs : List A) → contains (sort le xs) a ≡ contains xs a
  unfolding sort
  contains-sort a [] = refl
  contains-sort a (x ∷ xs) =
      contains-insert a x (sort le xs) ∙ ap (λ b. a == x || b) (contains-sort a xs)

  IsDistinct-insert :
      (x : A) (xs : List A)
      → contains xs x ≡ false
      → IsDistinct xs
      → IsDistinct (insert_sorted le x xs)
  unfolding insert_sorted
  IsDistinct-insert x [] c h = (refl, tt)
  IsDistinct-insert x (y ∷ ys) c h = ground (arith, contains-insert y x ys, IsDistinct-insert x ys)

  pub IsDistinct-sort : (xs : List A) → IsDistinct xs → IsDistinct (sort le xs)
  unfolding sort
  IsDistinct-sort [] h = tt
  IsDistinct-sort (x ∷ xs) h =
      IsDistinct-insert x (sort le xs) (contains-sort x xs ∙ h.0) (IsDistinct-sort xs h.1)

module _ {ℓ κ} {A : Type ℓ} where
  pub All-map {μ} :
      {B : Type μ} (P : B → Type κ) (f : A → B) (xs : List A)
      → All (λ x. P (f x)) xs
      → All P (map f xs)
  All-map P f [] h = tt
  All-map P f (x ∷ xs) h = (h.0, All-map P f xs h.1)

  pub All-every : (P : A → Type κ) → ((x : A) → P x) → (xs : List A) → All P xs
  All-every P f [] = tt
  All-every P f (x ∷ xs) = (f x, All-every P f xs)

  pub All-mono {μ} :
      (P : A → Type κ) (Q : A → Type μ)
      → ((x : A) → P x → Q x)
      → (xs : List A) → All P xs
      → All Q xs
  All-mono P Q f [] h = tt
  All-mono P Q f (x ∷ xs) h = (f x h.0, All-mono P Q f xs h.1)

module _ {ℓ κ} {A : Type ℓ} {B : Type κ} ⦃e : Eq B⦄ (f : A → B) (le : A → A → Bool) where
  contains-map-insert :
      (b : B) (x : A) (xs : List A)
      → contains (map f (insert_sorted le x xs)) b ≡ (b == f x || contains (map f xs) b)
  unfolding insert_sorted
  contains-map-insert b x [] = refl
  contains-map-insert b x (y ∷ ys) = ground (arith, contains-map-insert b x ys)

  -- Sorting keeps what is read of the elements.
  pub contains-map-sort :
      (b : B) (xs : List A) → contains (map f (sort le xs)) b ≡ contains (map f xs) b
  unfolding sort
  contains-map-sort b [] = refl
  contains-map-sort b (x ∷ xs) =
      contains-map-insert b x (sort le xs) ∙ ap (λ c. b == f x || c) (contains-map-sort b xs)
