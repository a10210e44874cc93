-- ===== src/Transform/Filter/Columns.antt =====
-- A comparison with a column, row by row, against
-- crates/parqonaut-transform/src/engine/filter.rs.
use parqonaut.Prelude.{
  ◌≡◌, refl, sym, ap, ◌∙◌, Bool, false, Option, none, some, List, [], ◌∷◌, map, ok, length, any,
  Text, text_eq,
}
use parqonaut.Transform.Arrays.{
  ℤ, int_eq, both, BooleanArray, compare_arrays, compare_arrays-constant, eq_arrays,
  eq_string_arrays,
}
use parqonaut.Transform.Filter.{
  Floats, Value, Column, value_eq, column_len, float_in, in_cell, int_column, string_column,
  eq_column, order_column, in_column, in_ints, in_strings, in_bools, in_floats,
}
use parqonaut.Transform.Filter.Rows.{
  get_elem?, mask, value_of, cell_of, int_test, is_in, CanEqual, CanOrder, CanList, map-rows,
  replicate-tabulate,
}

module _ (floats : Floats) where
  module _ {A : Type 0} (f : A → Value floats) where
    -- A test of every cell of an array.
    cells :
        (g : Option A → Option Bool) (k : Value floats → Bool) (arr : List (Option A))
        → ((x : Option A) → g x ≡ some (k (value_of floats f (some x))))
        → map g arr ≡ mask (length arr) (λ i. k (value_of floats f (get_elem? arr i)))
    cells g k arr same =
        map-rows g (λ i. some (k (value_of floats f (get_elem? arr i)))) arr
          (λ i x at. same x ∙ ap (λ o. some (k (value_of floats f o))) (sym at))

  abbrev pub column_mask : Column floats → (Value floats → Bool) → BooleanArray
  unfolding column_len
  column_mask c k = mask (column_len floats c) (λ i. k (cell_of floats c i))

  both-cells :
      (test : ℤ → ℤ → Bool) (v : ℤ) (x : Option ℤ)
      → both test x (some v)
        ≡ some (int_test floats test (value_of floats Value.int64 (some x)) (Value.int64 v))
  both-cells test v none = refl
  both-cells test v (some a) = refl

  pub order_column-mask :
      (test : ℤ → ℤ → Bool) (v : Value floats) (c : Column floats)
      → CanOrder floats v c
      → order_column floats (compare_arrays test) v c
        ≡ ok (column_mask c (λ a. int_test floats test a v))
  unfolding order_column int_column column_len
  order_column-mask test (Value.int64 v) (Column.int64 arr) _ =
      compare_arrays-constant test arr v
      ∙ ap ok (
          cells Value.int64 (λ x. both test x (some v))
            (λ a. int_test floats test a (Value.int64 v)) arr (both-cells test v))
  order_column-mask test (Value.int64 v) (Column.float64 _) fits = elim fits [ ]
  order_column-mask test (Value.int64 v) (Column.utf8 _) fits = elim fits [ ]
  order_column-mask test (Value.int64 v) (Column.boolean _) fits = elim fits [ ]
  order_column-mask test (Value.int64 v) (Column.other _) fits = elim fits [ ]
  order_column-mask test (Value.float64 _) c fits = elim fits [ ]
  order_column-mask test (Value.string _) c fits = elim fits [ ]
  order_column-mask test (Value.bool _) c fits = elim fits [ ]
  order_column-mask test Value.null c fits = elim fits [ ]

  int_eq-cells :
      (v : ℤ) (x : Option ℤ)
      → both int_eq x (some v)
        ≡ some (value_eq floats (value_of floats Value.int64 (some x)) (Value.int64 v))
  unfolding value_eq
  int_eq-cells v none = refl
  int_eq-cells v (some a) = refl

  text_eq-cells :
      (v : Text) (x : Option Text)
      → both text_eq x (some v)
        ≡ some (value_eq floats (value_of floats Value.string (some x)) (Value.string v))
  unfolding value_eq
  text_eq-cells v none = refl
  text_eq-cells v (some a) = refl

  pub eq_column-mask :
      (v : Value floats) (c : Column floats)
      → CanEqual floats v c
      → eq_column floats v c ≡ ok (column_mask c (λ a. value_eq floats a v))
  unfolding eq_column int_column string_column column_len eq_arrays eq_string_arrays
  eq_column-mask (Value.int64 v) (Column.int64 arr) _ =
      compare_arrays-constant int_eq arr v
      ∙ ap ok (
          cells Value.int64 (λ x. both int_eq x (some v)) (λ a. value_eq floats a (Value.int64 v))
            arr (int_eq-cells v))
  eq_column-mask (Value.string v) (Column.utf8 arr) _ =
      compare_arrays-constant text_eq arr v
      ∙ ap ok (
          cells Value.string (λ x. both text_eq x (some v))
            (λ a. value_eq floats a (Value.string v)) arr (text_eq-cells v))
  eq_column-mask (Value.int64 v) (Column.float64 _) fits = elim fits [ ]
  eq_column-mask (Value.int64 v) (Column.utf8 _) fits = elim fits [ ]
  eq_column-mask (Value.int64 v) (Column.boolean _) fits = elim fits [ ]
  eq_column-mask (Value.int64 v) (Column.other _) fits = elim fits [ ]
  eq_column-mask (Value.float64 _) c fits = elim fits [ ]
  eq_column-mask (Value.string v) (Column.int64 _) fits = elim fits [ ]
  eq_column-mask (Value.string v) (Column.float64 _) fits = elim fits [ ]
  eq_column-mask (Value.string v) (Column.boolean _) fits = elim fits [ ]
  eq_column-mask (Value.string v) (Column.other _) fits = elim fits [ ]
  eq_column-mask (Value.bool _) c fits = elim fits [ ]
  eq_column-mask Value.null c fits = elim fits [ ]

  is_in-nil : (a : Value floats) → is_in floats a [] ≡ false
  is_in-nil Value.null = refl
  is_in-nil (Value.int64 a) = refl
  is_in-nil (Value.float64 a) = refl
  is_in-nil (Value.string a) = refl
  is_in-nil (Value.bool a) = refl

  -- A row of `eval_in` against the list.
  in_cell-is_in :
      {A : Type 0} (f : A → Value floats) (test : A → Bool) (vals : List (Value floats))
      → ((a : A) → test a ≡ is_in floats (f a) vals)
      → (x : Option A)
      → in_cell floats test x ≡ some (is_in floats (value_of floats f (some x)) vals)
  in_cell-is_in f test vals same none = refl
  in_cell-is_in f test vals same (some a) = ap some (same a)

  in_cells :
      {A : Type 0} (f : A → Value floats) (test : A → Bool) (vals : List (Value floats))
      → ((a : A) → test a ≡ is_in floats (f a) vals)
      → (arr : List (Option A))
      → map (in_cell floats test) arr
        ≡ mask (length arr) (λ i. is_in floats (value_of floats f (get_elem? arr i)) vals)
  in_cells f test vals same arr =
      cells f (in_cell floats test) (λ a. is_in floats a vals) arr (in_cell-is_in f test vals same)

  pub in_column-mask :
      (vals : List (Value floats)) (c : Column floats)
      → CanList floats vals c
      → in_column floats vals c ≡ ok (column_mask c (λ a. is_in floats a vals))
  unfolding in_column in_ints in_strings in_bools in_floats column_len
  in_column-mask [] c _ = ap ok (
      replicate-tabulate (column_len floats c) (some false)
      ∙ ap (λ h. mask (column_len floats c) h) (λ j i. sym (is_in-nil (cell_of floats c i)) j))
  in_column-mask (Value.int64 v ∷ vals) (Column.int64 arr) _ = ap ok (
      in_cells Value.int64 (λ a. any (value_eq floats (Value.int64 a)) (Value.int64 v ∷ vals))
        (Value.int64 v ∷ vals) (λ _. refl) arr)
  in_column-mask (Value.string v ∷ vals) (Column.utf8 arr) _ = ap ok (
      in_cells Value.string (λ a. any (value_eq floats (Value.string a)) (Value.string v ∷ vals))
        (Value.string v ∷ vals) (λ _. refl) arr)
  in_column-mask (Value.bool v ∷ vals) (Column.boolean arr) _ = ap ok (
      in_cells Value.bool (λ a. any (value_eq floats (Value.bool a)) (Value.bool v ∷ vals))
        (Value.bool v ∷ vals) (λ _. refl) arr)
  in_column-mask (Value.float64 v ∷ vals) (Column.float64 arr) _ = ap ok (
      in_cells Value.float64 (λ a. any (float_in floats a) (Value.float64 v ∷ vals))
        (Value.float64 v ∷ vals) (λ _. refl) arr)
  in_column-mask (Value.int64 _ ∷ _) (Column.utf8 _) fits = elim fits [ ]
  in_column-mask (Value.int64 _ ∷ _) (Column.boolean _) fits = elim fits [ ]
  in_column-mask (Value.int64 _ ∷ _) (Column.float64 _) fits = elim fits [ ]
  in_column-mask (Value.int64 _ ∷ _) (Column.other _) fits = elim fits [ ]
  in_column-mask (Value.string _ ∷ _) (Column.int64 _) fits = elim fits [ ]
  in_column-mask (Value.string _ ∷ _) (Column.boolean _) fits = elim fits [ ]
  in_column-mask (Value.string _ ∷ _) (Column.float64 _) fits = elim fits [ ]
  in_column-mask (Value.string _ ∷ _) (Column.other _) fits = elim fits [ ]
  in_column-mask (Value.bool _ ∷ _) (Column.int64 _) fits = elim fits [ ]
  in_column-mask (Value.bool _ ∷ _) (Column.utf8 _) fits = elim fits [ ]
  in_column-mask (Value.bool _ ∷ _) (Column.float64 _) fits = elim fits [ ]
  in_column-mask (Value.bool _ ∷ _) (Column.other _) fits = elim fits [ ]
  in_column-mask (Value.float64 _ ∷ _) (Column.int64 _) fits = elim fits [ ]
  in_column-mask (Value.float64 _ ∷ _) (Column.utf8 _) fits = elim fits [ ]
  in_column-mask (Value.float64 _ ∷ _) (Column.boolean _) fits = elim fits [ ]
  in_column-mask (Value.float64 _ ∷ _) (Column.other _) fits = elim fits [ ]
  in_column-mask (Value.null ∷ _) c fits = elim fits [ ]
