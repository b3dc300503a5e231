-- ===== src/Tools/Calm.antt =====
-- How the checks of src/joplin_md_sync/tool_schema.py on one value end.
use joplin_md_sync.Base.{
  ◌≡◌, ◌≢◌, refl, Bool, true, false, Option, none, some, OnSome, List, [], ◌∷◌, nat_eq, list_eq,
  arith, if◌then◌else◌,
}
use joplin_md_sync.Base.Text.{Text, text, text_leb}
use joplin_md_sync.Base.Sort.{sort}
use joplin_md_sync.Json.{
  Json, null, boolean, integer, float, string, array, object, Items, no_items, item, Fields,
  no_fields, field,
}
use joplin_md_sync.Tools.{
  Numbers, Verdict, accepted, refused, crashed, cut_off, both, refuse_if, names, without, number_in,
}
use joplin_md_sync.Tools.Instance.{
  on_kind, refuse_first, check_names, check_enum, check_min, check_max, check_text, check_number,
  check_finite,
}

abbrev pub IsCalm : Verdict → Type 0
IsCalm v = v ≢ crashed

pub both-accepted : (v w : Verdict) → both v w ≡ accepted → (v ≡ accepted) × (w ≡ accepted)
unfolding both
both-accepted accepted w h = (refl, h)
both-accepted (refused p m) w h = ground arith
both-accepted crashed w h = ground arith
both-accepted cut_off w h = ground arith

pub both-IsCalm : (v w : Verdict) → IsCalm v → (v ≡ accepted → IsCalm w) → IsCalm (both v w)
unfolding both
both-IsCalm accepted w h k = k refl
both-IsCalm crashed w h k = absurd (h refl)
both-IsCalm (refused p m) w h k = λ e. ground arith
both-IsCalm cut_off w h k = λ e. ground arith

pub refuse_if-IsCalm : (b : Bool) (p m : Text) → IsCalm (refuse_if b p m)
unfolding refuse_if
refuse_if-IsCalm true p m = λ e. ground arith
refuse_if-IsCalm false p m = λ e. ground arith

pub refuse_first-IsCalm : (xs : List Text) (p m : Text) → IsCalm (refuse_first xs p m)
unfolding refuse_first
refuse_first-IsCalm [] p m = λ e. ground arith
refuse_first-IsCalm (x ∷ xs) p m = λ e. ground arith

-- What a property, or "items", of a validated schema is.
pub check_names-IsCalm :
    (given : List Text) (fs ps : Fields) (required : Items) (p : Text)
    → IsCalm (check_names given fs (some ps) (some required) p)
unfolding check_names
check_names-IsCalm given fs ps required p =
    both-IsCalm _ _ (refuse_first-IsCalm _ p _) (λ e. closed _)
  where
    closed :
        (b : Bool)
        → IsCalm (
            if b
            then refuse_first
                (sort text_leb (without given (names ps)))
                p
                (text "unexpected property: ")
            else accepted)
    closed true = refuse_first-IsCalm _ p _
    closed false = λ e. ground arith

pub on_kind-IsCalm {ℓ} :
    {A : Type ℓ} (o : Option A) (p m : Text) (check : A → Verdict)
    → ((a : A) → IsCalm (check a))
    → IsCalm (on_kind o p m check)
unfolding on_kind
on_kind-IsCalm none p m check h = λ e. ground arith
on_kind-IsCalm (some a) p m check h = h a

pub on_kind-IsCalm_if {ℓ} :
    {A : Type ℓ} (P : A → Type 0) (o : Option A) (p m : Text) (check : A → Verdict)
    → OnSome P o
    → ((a : A) → P a → IsCalm (check a))
    → IsCalm (on_kind o p m check)
unfolding on_kind
on_kind-IsCalm_if P none p m check h k = λ e. ground arith
on_kind-IsCalm_if P (some a) p m check h k = k a h

module _ (num : Numbers) where
  pub check_min-IsCalm : (o : Option Text) (u p m : Text) → IsCalm (check_min num o u p m)
  unfolding check_min
  check_min-IsCalm none u p m = λ e. ground arith
  check_min-IsCalm (some l) u p m = refuse_if-IsCalm _ p m

  pub check_max-IsCalm : (o : Option Text) (u p m : Text) → IsCalm (check_max num o u p m)
  unfolding check_max
  check_max-IsCalm none u p m = λ e. ground arith
  check_max-IsCalm (some l) u p m = refuse_if-IsCalm _ p m

  pub check_text-IsCalm : (s : Text) (fs : Fields) (p : Text) → IsCalm (check_text num s fs p)
  unfolding check_text
  check_text-IsCalm s fs p =
      both-IsCalm _ _ (check_min-IsCalm _ _ p _) (λ e. check_max-IsCalm _ _ p _)

  pub check_number-IsCalm : (u : Text) (fs : Fields) (p : Text) → IsCalm (check_number num u fs p)
  unfolding check_number
  check_number-IsCalm u fs p =
      both-IsCalm _ _ (check_min-IsCalm _ _ p _) (λ e. check_max-IsCalm _ _ p _)

  pub check_enum-IsCalm : (v : Json) (o : Option Json) (p : Text) → IsCalm (check_enum num v o p)
  unfolding check_enum
  check_enum-IsCalm v none p = λ e. ground arith
  check_enum-IsCalm v (some null) p = λ e. ground arith
  check_enum-IsCalm v (some (boolean b)) p = λ e. ground arith
  check_enum-IsCalm v (some (integer u)) p = λ e. ground arith
  check_enum-IsCalm v (some (float u)) p = λ e. ground arith
  check_enum-IsCalm v (some (string s)) p = λ e. ground arith
  check_enum-IsCalm v (some (array vs)) p = refuse_if-IsCalm _ p _
  check_enum-IsCalm v (some (object vs)) p = λ e. ground arith

  pub check_finite-IsCalm :
      (o : Option Bool) (u : Text) (fs : Fields) (p : Text)
      → o ≢ none
      → IsCalm (check_finite num o u fs p)
  unfolding check_finite
  check_finite-IsCalm none u fs p h = absurd (h refl)
  check_finite-IsCalm (some b) u fs p h =
      both-IsCalm _ _ (refuse_if-IsCalm _ p _) (λ e. check_number-IsCalm u fs p)

  -- No integer within the value is too large for a float.
  abbrev mutual
    pub IsRanged : Json → Type 0
    IsRanged (integer u) = num.finite u ≢ none
    IsRanged (float u) = num.finite u ≢ none
    IsRanged (array vs) = AreRanged vs
    IsRanged (object fs) = FieldsRanged fs
    IsRanged _ = Unit

    pub AreRanged : Items → Type 0
    AreRanged no_items = Unit
    AreRanged (item v vs) = IsRanged v × AreRanged vs

    pub FieldsRanged : Fields → Type 0
    FieldsRanged no_fields = Unit
    FieldsRanged (field k v fs) = IsRanged v × FieldsRanged fs

  pub finite-number_in :
      (v : Json) → IsRanged v → OnSome (λ u. num.finite u ≢ none) (number_in (some v))
  unfolding number_in
  finite-number_in null h = tt
  finite-number_in (boolean b) h = tt
  finite-number_in (integer u) h = h
  finite-number_in (float u) h = h
  finite-number_in (string s) h = tt
  finite-number_in (array vs) h = tt
  finite-number_in (object fs) h = tt
