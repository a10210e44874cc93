-- ===== src/Transform/Filter/Rows.antt =====
-- What a filter means row by row, against crates/parqonaut-transform/src/engine/filter.rs.
use parqonaut.Prelude.{
  ℕ, zero, suc, ◌≡◌, refl, ap, Bool, true, false, not, ◌&&◌, ◌||◌, Option, none, some, String, List,
  [], ◌∷◌, map, length, any, get, string_eq,
}
use parqonaut.Transform.Arrays.{
  ℤ, int_lt, int_le, int_gt, int_ge, replicate, zip_with, BooleanArray,
}
use parqonaut.Transform.Filter.{
  Floats, Value, FilterExpr, Column, RecordBatch, value_eq, column_len, column_nulls, float_in,
}

module _ {ℓ} {A : Type ℓ} where
  abbrev pub get_elem? : List A → ℕ → Option A
  get_elem? [] i = none
  get_elem? (x ∷ xs) zero = some x
  get_elem? (x ∷ xs) (suc i) = get_elem? xs i

  -- The list of a function's first values.
  abbrev pub tabulate : ℕ → (ℕ → A) → List A
  tabulate zero f = []
  tabulate (suc n) f = f 0 ∷ tabulate n (λ i. f (suc i))

  pub length-tabulate : (n : ℕ) (f : ℕ → A) → length (tabulate n f) ≡ n
  length-tabulate zero f = refl
  length-tabulate (suc n) f = ap suc (length-tabulate n (λ i. f (suc i)))

module _ {A B : Type 0} where
  pub map-tabulate :
      (g : A → B) (n : ℕ) (f : ℕ → A) → map g (tabulate n f) ≡ tabulate n (λ i. g (f i))
  map-tabulate g zero f = refl
  map-tabulate g (suc n) f = ap (λ ys. g (f 0) ∷ ys) (map-tabulate g n (λ i. f (suc i)))

  pub map-rows :
      (g : A → B) (h : ℕ → B) (xs : List A)
      → ((i : ℕ) (x : A) → get_elem? xs i ≡ some x → g x ≡ h i)
      → map g xs ≡ tabulate (length xs) h
  map-rows g h [] rows = refl
  map-rows g h (x ∷ xs) rows =
      rw (rows 0 x refl)
        (ap (λ ys. h 0 ∷ ys) (map-rows g (λ i. h (suc i)) xs (λ i y e. rows (suc i) y e)))

pub zip_with-tabulate :
    {A B C : Type 0} (k : A → B → C) (n : ℕ) (f : ℕ → A) (g : ℕ → B)
    → zip_with k (tabulate n f) (tabulate n g) ≡ tabulate n (λ i. k (f i) (g i))
zip_with-tabulate k zero f g = refl
zip_with-tabulate k (suc n) f g =
    ap (λ zs. k (f 0) (g 0) ∷ zs) (zip_with-tabulate k n (λ i. f (suc i)) (λ i. g (suc i)))

pub replicate-tabulate : {A : Type 0} (n : ℕ) (x : A) → replicate n x ≡ tabulate n (λ _. x)
replicate-tabulate zero x = refl
replicate-tabulate (suc n) x = ap (λ ys. x ∷ ys) (replicate-tabulate n x)

-- The mask that is true at the rows where `holds` is.
abbrev pub mask : ℕ → (ℕ → Bool) → BooleanArray
mask n holds = tabulate n (λ i. some (holds i))

module _ (floats : Floats) where
  abbrev pub value_of : {A : Type 0} → (A → Value floats) → Option (Option A) → Value floats
  value_of f (some (some a)) = f a
  value_of f _ = Value.null

  -- The value of a column in a row, null where it has none.
  abbrev pub cell_of : Column floats → ℕ → Value floats
  cell_of (Column.int64 arr) i = value_of Value.int64 (get_elem? arr i)
  cell_of (Column.float64 arr) i = value_of Value.float64 (get_elem? arr i)
  cell_of (Column.utf8 arr) i = value_of Value.string (get_elem? arr i)
  cell_of (Column.boolean arr) i = value_of Value.bool (get_elem? arr i)
  cell_of (Column.other nulls) i = Value.null

  abbrev pub or_null : Option Bool → Bool
  or_null none = true
  or_null (some b) = b

  abbrev pub cell_at : Option (Column floats) → ℕ → Value floats
  cell_at none i = Value.null
  cell_at (some c) i = cell_of c i

  abbrev pub empty_at : Option (Column floats) → ℕ → Bool
  empty_at none i = true
  empty_at (some c) i = or_null (get_elem? (column_nulls floats c) i)

  abbrev pub int_test : (ℤ → ℤ → Bool) → Value floats → Value floats → Bool
  int_test test (Value.int64 a) (Value.int64 b) = test a b
  int_test test _ _ = false

  abbrev pub is_in : Value floats → List (Value floats) → Bool
  is_in Value.null vals = false
  is_in (Value.float64 a) vals = any (float_in floats a) vals
  is_in (Value.int64 a) vals = any (value_eq floats (Value.int64 a)) vals
  is_in (Value.string a) vals = any (value_eq floats (Value.string a)) vals
  is_in (Value.bool a) vals = any (value_eq floats (Value.bool a)) vals

  module _ (batch : RecordBatch floats) where
    abbrev pub cell : String → ℕ → Value floats
    cell col i = cell_at (get col batch.columns) i

    -- Whether a row passes.
    unfoldable pub holds : FilterExpr floats → ℕ → Bool
    unfolding value_eq int_lt column_nulls
    holds (FilterExpr.eq col v) i = value_eq floats (cell col i) v
    holds (FilterExpr.ne col v) i = not (value_eq floats (cell col i) v)
    holds (FilterExpr.lt col v) i = int_test int_lt (cell col i) v
    holds (FilterExpr.le col v) i = int_test int_le (cell col i) v
    holds (FilterExpr.gt col v) i = int_test int_gt (cell col i) v
    holds (FilterExpr.ge col v) i = int_test int_ge (cell col i) v
    holds (FilterExpr.in_list col vals) i = is_in (cell col i) vals
    holds (FilterExpr.is_null col) i = empty_at (get col batch.columns) i
    holds (FilterExpr.is_not_null col) i = not (empty_at (get col batch.columns) i)
    holds (FilterExpr.and l r) i = holds l i && holds r i
    holds (FilterExpr.or l r) i = holds l i || holds r i
    holds (FilterExpr.negation e) i = not (holds e i)

  -- The comparisons that the columns' types admit.
  abbrev pub CanEqual : Value floats → Column floats → Type 0
  CanEqual (Value.int64 v) (Column.int64 arr) = Unit
  CanEqual (Value.string v) (Column.utf8 arr) = Unit
  CanEqual _ _ = ⊥

  abbrev pub CanOrder : Value floats → Column floats → Type 0
  CanOrder (Value.int64 v) (Column.int64 arr) = Unit
  CanOrder _ _ = ⊥

  abbrev pub CanList : List (Value floats) → Column floats → Type 0
  CanList [] c = Unit
  CanList (Value.int64 v ∷ vals) (Column.int64 arr) = Unit
  CanList (Value.string v ∷ vals) (Column.utf8 arr) = Unit
  CanList (Value.bool v ∷ vals) (Column.boolean arr) = Unit
  CanList (Value.float64 v ∷ vals) (Column.float64 arr) = Unit
  CanList _ _ = ⊥

  module _ (batch : RecordBatch floats) where
    abbrev pub HasColumn : String → (Column floats → Type 0) → Type 0
    HasColumn col Fits = (c : Column floats) × (get col batch.columns ≡ some c) × Fits c

    -- The filter names columns of the batch and compares each with values of its type.
    abbrev pub Typed : FilterExpr floats → Type 0
    Typed (FilterExpr.eq col v) = HasColumn col (CanEqual v)
    Typed (FilterExpr.ne col v) = HasColumn col (CanEqual v)
    Typed (FilterExpr.lt col v) = HasColumn col (CanOrder v)
    Typed (FilterExpr.le col v) = HasColumn col (CanOrder v)
    Typed (FilterExpr.gt col v) = HasColumn col (CanOrder v)
    Typed (FilterExpr.ge col v) = HasColumn col (CanOrder v)
    Typed (FilterExpr.in_list col vals) = HasColumn col (CanList vals)
    Typed (FilterExpr.is_null col) = HasColumn col (λ _. Unit)
    Typed (FilterExpr.is_not_null col) = HasColumn col (λ _. Unit)
    Typed (FilterExpr.and l r) = Typed l × Typed r
    Typed (FilterExpr.or l r) = Typed l × Typed r
    Typed (FilterExpr.negation e) = Typed e

    -- Every column has a value for each row.
    abbrev pub IsRectangular : Type 0
    IsRectangular =
        (col : String) (c : Column floats)
        → get col batch.columns ≡ some c
        → column_len floats c ≡ batch.num_rows
