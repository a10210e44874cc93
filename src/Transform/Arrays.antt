-- ===== src/Transform/Arrays.antt =====
-- crates/parqonaut-transform/src/engine/compat.rs: comparisons of arrow arrays. An array is the list of its
-- values, `none` where it is null. The kernels of the arrow crate are a record with their documented
-- behaviour.
use parqonaut.Prelude.{
  ℕ, zero, suc, ◌≡◌, refl, ap, Bool, true, false, not, Option, none, some, String, List, [], ◌∷◌,
  map, Result, ok, err, if◌then◌else◌, ltb, ◌==◌, length, Text, text_eq, sym, ==_iff,
}

-- An i64; `negsuc n` is -(n + 1).
pub data ℤ : Type 0 where
  pos negsuc : ℕ → ℤ

unfoldable pub int_eq : ℤ → ℤ → Bool
int_eq (pos a) (pos b) = a == b
int_eq (negsuc a) (negsuc b) = a == b
int_eq _ _ = false

unfoldable pub int_lt : ℤ → ℤ → Bool
int_lt (pos a) (pos b) = ltb a b
int_lt (negsuc a) (negsuc b) = ltb b a
int_lt (pos a) (negsuc b) = false
int_lt (negsuc a) (pos b) = true

abbrev pub int_le : ℤ → ℤ → Bool
int_le a b = not (int_lt b a)

abbrev pub int_gt : ℤ → ℤ → Bool
int_gt a b = int_lt b a

abbrev pub int_ge : ℤ → ℤ → Bool
int_ge a b = not (int_lt a b)

abbrev pub Int64Array : Type 0
Int64Array = List (Option ℤ)

abbrev pub StringArray : Type 0
StringArray = List (Option Text)

abbrev pub BooleanArray : Type 0
BooleanArray = List (Option Bool)

pub data FilterError : Type 0 where
  invalid_input filter_error arrow : String → FilterError

abbrev pub zip_with {ℓ} : {A B C : Type ℓ} → (A → B → C) → List A → List B → List C
zip_with f (x ∷ xs) (y ∷ ys) = f x y ∷ zip_with f xs ys
zip_with f _ _ = []

abbrev pub replicate {ℓ} : {A : Type ℓ} → ℕ → A → List A
replicate zero x = []
replicate (suc n) x = x ∷ replicate n x

-- A null on either side gives false.
abbrev pub both : {A : Type 0} → (A → A → Bool) → Option A → Option A → Option Bool
both test (some a) (some b) = some (test a b)
both test _ _ = some false

unfoldable pub compare_arrays :
    {A : Type 0}
    → (A → A → Bool)
    → List (Option A)
    → List (Option A)
    → Result FilterError BooleanArray
compare_arrays test left right =
    if not (length left == length right)
    then err (FilterError.filter_error "Array length mismatch")
    else ok (zip_with (both test) left right)

unfoldable pub eq_arrays : Int64Array → Int64Array → Result FilterError BooleanArray
unfolding compare_arrays int_eq
eq_arrays = compare_arrays int_eq

unfoldable pub lt_arrays : Int64Array → Int64Array → Result FilterError BooleanArray
unfolding compare_arrays int_lt
lt_arrays = compare_arrays int_lt

unfoldable pub le_arrays : Int64Array → Int64Array → Result FilterError BooleanArray
unfolding compare_arrays int_lt
le_arrays = compare_arrays int_le

unfoldable pub gt_arrays : Int64Array → Int64Array → Result FilterError BooleanArray
unfolding compare_arrays int_lt
gt_arrays = compare_arrays int_gt

unfoldable pub ge_arrays : Int64Array → Int64Array → Result FilterError BooleanArray
unfolding compare_arrays int_lt
ge_arrays = compare_arrays int_ge

unfoldable pub eq_string_arrays : StringArray → StringArray → Result FilterError BooleanArray
unfolding compare_arrays
eq_string_arrays = compare_arrays text_eq

length-replicate : {A : Type 0} (n : ℕ) (x : A) → length (replicate n x) ≡ n
length-replicate zero x = refl
length-replicate (suc n) x = ap suc (length-replicate n x)

zip_with-replicate :
    {A B C : Type 0} (f : A → B → C) (xs : List A) (y : B)
    → zip_with f xs (replicate (length xs) y) ≡ map (λ x. f x y) xs
zip_with-replicate f [] y = refl
zip_with-replicate f (x ∷ xs) y = ap (λ zs. f x y ∷ zs) (zip_with-replicate f xs y)

-- An array against a constant of its length.
pub compare_arrays-constant :
    {A : Type 0} (test : A → A → Bool) (xs : List (Option A)) (c : A)
    → compare_arrays test xs (replicate (length xs) (some c))
      ≡ ok (map (λ x. both test x (some c)) xs)
unfolding compare_arrays
compare_arrays-constant test xs c =
    let same : (length xs == length (replicate (length xs) (some c))) ≡ true =
      (==_iff (length xs) (length (replicate (length xs) (some c)))).1
        (sym (length-replicate (length xs) (some c))) in
    rw same (ap ok (zip_with-replicate (both test) xs (some c)))

-- Three-valued logic.
abbrev pub kleene_and : Option Bool → Option Bool → Option Bool
kleene_and (some false) _ = some false
kleene_and _ (some false) = some false
kleene_and (some true) (some true) = some true
kleene_and _ _ = none

abbrev pub kleene_or : Option Bool → Option Bool → Option Bool
kleene_or (some true) _ = some true
kleene_or _ (some true) = some true
kleene_or (some false) (some false) = some false
kleene_or _ _ = none

abbrev pub kleene_not : Option Bool → Option Bool
kleene_not (some b) = some (not b)
kleene_not none = none

-- The kernels `and_kleene`, `or_kleene`, `not`, `is_null` and `is_not_null` of arrow::compute; the last two
-- read of an array where it is null.
pub record Kernels : Type 0 where
  pub and_kleene : BooleanArray → BooleanArray → Result FilterError BooleanArray
  pub or_kleene : BooleanArray → BooleanArray → Result FilterError BooleanArray
  pub not_bool : BooleanArray → Result FilterError BooleanArray
  pub and_kleene-ok :
      (l r : BooleanArray) → length l ≡ length r → and_kleene l r ≡ ok (zip_with kleene_and l r)
  pub or_kleene-ok :
      (l r : BooleanArray) → length l ≡ length r → or_kleene l r ≡ ok (zip_with kleene_or l r)
  pub not_bool-ok : (b : BooleanArray) → not_bool b ≡ ok (map kleene_not b)
  pub is_null : List Bool → Result FilterError BooleanArray
  pub is_not_null : List Bool → Result FilterError BooleanArray
  pub is_null-ok : (nulls : List Bool) → is_null nulls ≡ ok (map some nulls)
  pub is_not_null-ok : (nulls : List Bool) → is_not_null nulls ≡ ok (map (λ b. some (not b)) nulls)
