-- ===== src/Transform/Filter.antt =====
-- crates/parqonaut-transform/src/engine/filter.rs: the evaluation of a filter on a batch. The parser, which is
-- written with the combinators of the nom crate, is left out. A batch is its columns by name; the
-- operations of f64 are a parameter.
pub mod Rows
mod Columns
pub mod Evaluation
use parqonaut.Prelude.{
  ℕ, Bool, true, false, not, ◌&&◌, ◌||◌, Option, none, some, String, List, [], ◌∷◌, map, Result, ok,
  err, ◌>>=◌, ok_or, if◌then◌else◌, length, Text, text_eq, any, Dict, get, string_eq,
}
use parqonaut.Transform.Arrays.{
  ℤ, int_eq, Int64Array, StringArray, BooleanArray, FilterError, replicate, eq_arrays, lt_arrays,
  le_arrays, gt_arrays, ge_arrays, eq_string_arrays, Kernels,
}

-- `==`, `is_nan` and the comparison of `to_bits` of f64.
pub record Floats : Type 1 where
  pub Float : Type 0
  pub float_eq : Float → Float → Bool
  pub is_nan : Float → Bool
  pub same_bits : Float → Float → Bool

module _ (floats : Floats) where
  open floats use {Float, float_eq, is_nan, same_bits}

  pub data Value : Type 0 where
    int64 : ℤ → Value
    float64 : Float → Value
    string : Text → Value
    bool : Bool → Value
    null : Value

  pub data FilterExpr : Type 0 where
    eq ne lt le gt ge : String → Value → FilterExpr
    in_list : String → List Value → FilterExpr
    is_null is_not_null : String → FilterExpr
    and or : FilterExpr → FilterExpr → FilterExpr
    negation : FilterExpr → FilterExpr

  pub data Column : Type 0 where
    int64 : Int64Array → Column
    float64 : List (Option Float) → Column
    utf8 : StringArray → Column
    boolean : BooleanArray → Column
    other : List Bool → Column

  pub record RecordBatch : Type 0 where
    pub columns : Dict String Column
    pub num_rows : ℕ

  abbrev bool_eq : Bool → Bool → Bool
  bool_eq true b = b
  bool_eq false b = not b

  -- `impl PartialEq for Value`.
  unfoldable pub value_eq : Value → Value → Bool
  unfolding int_eq text_eq
  value_eq (Value.int64 a) (Value.int64 b) = int_eq a b
  value_eq (Value.float64 a) (Value.float64 b) = same_bits a b
  value_eq (Value.string a) (Value.string b) = text_eq a b
  value_eq (Value.bool a) (Value.bool b) = bool_eq a b
  value_eq Value.null Value.null = true
  value_eq _ _ = false

  unfoldable pub column_by_name : RecordBatch → String → Result FilterError Column
  column_by_name batch col =
      ok_or (get col batch.columns) (FilterError.invalid_input "Column not found")

  -- A comparison with an i64: the downcast of the column, and the loop.
  unfoldable pub int_column :
      (Int64Array → Int64Array → Result FilterError BooleanArray)
      → ℤ
      → Column
      → Result FilterError BooleanArray
  int_column compare v (Column.int64 arr) = compare arr (replicate (length arr) (some v))
  int_column compare v _ = err (FilterError.filter_error "Type mismatch")

  unfoldable pub string_column : Text → Column → Result FilterError BooleanArray
  unfolding eq_string_arrays
  string_column v (Column.utf8 arr) = eq_string_arrays arr (replicate (length arr) (some v))
  string_column v _ = err (FilterError.filter_error "Type mismatch")

  -- The match of `eval_eq` on the value.
  unfoldable pub eq_column : Value → Column → Result FilterError BooleanArray
  unfolding int_column string_column eq_arrays
  eq_column (Value.int64 v) array = int_column eq_arrays v array
  eq_column (Value.string v) array = string_column v array
  eq_column _ array = err (FilterError.filter_error "Unsupported comparison type")

  -- The match of `eval_lt`, `eval_le`, `eval_gt` and `eval_ge`.
  unfoldable pub order_column :
      (Int64Array → Int64Array → Result FilterError BooleanArray)
      → Value
      → Column
      → Result FilterError BooleanArray
  unfolding int_column
  order_column compare (Value.int64 v) array = int_column compare v array
  order_column compare _ array = err (FilterError.filter_error "Unsupported comparison type")

  unfoldable pub eval_eq : RecordBatch → String → Value → Result FilterError BooleanArray
  unfolding column_by_name eq_column
  eval_eq batch col v = do array ← column_by_name batch col; eq_column v array

  unfoldable pub eval_lt : RecordBatch → String → Value → Result FilterError BooleanArray
  unfolding column_by_name order_column lt_arrays
  eval_lt batch col v = do array ← column_by_name batch col; order_column lt_arrays v array

  unfoldable pub eval_le : RecordBatch → String → Value → Result FilterError BooleanArray
  unfolding column_by_name order_column le_arrays
  eval_le batch col v = do array ← column_by_name batch col; order_column le_arrays v array

  unfoldable pub eval_gt : RecordBatch → String → Value → Result FilterError BooleanArray
  unfolding column_by_name order_column gt_arrays
  eval_gt batch col v = do array ← column_by_name batch col; order_column gt_arrays v array

  unfoldable pub eval_ge : RecordBatch → String → Value → Result FilterError BooleanArray
  unfolding column_by_name order_column ge_arrays
  eval_ge batch col v = do array ← column_by_name batch col; order_column ge_arrays v array

  -- One cell of `eval_in`: a null is in no list.
  abbrev pub in_cell : {A : Type 0} → (A → Bool) → Option A → Option Bool
  in_cell test none = some false
  in_cell test (some a) = some (test a)

  -- The inner loop of `eval_in` on floats.
  abbrev pub float_in : Float → Value → Bool
  float_in a (Value.float64 f) = (is_nan a && is_nan f) || float_eq a f
  float_in a _ = false

  unfoldable pub in_ints : List Value → Column → Result FilterError BooleanArray
  unfolding value_eq
  in_ints vals (Column.int64 arr) =
      ok (map (in_cell (λ a. any (value_eq (Value.int64 a)) vals)) arr)
  in_ints vals _ = err (FilterError.filter_error "Type mismatch for IN: expected Int64")

  unfoldable pub in_strings : List Value → Column → Result FilterError BooleanArray
  unfolding value_eq
  in_strings vals (Column.utf8 arr) =
      ok (map (in_cell (λ a. any (value_eq (Value.string a)) vals)) arr)
  in_strings vals _ = err (FilterError.filter_error "Type mismatch for IN: expected String")

  unfoldable pub in_bools : List Value → Column → Result FilterError BooleanArray
  unfolding value_eq
  in_bools vals (Column.boolean arr) =
      ok (map (in_cell (λ a. any (value_eq (Value.bool a)) vals)) arr)
  in_bools vals _ = err (FilterError.filter_error "Type mismatch for IN: expected Bool")

  unfoldable pub in_floats : List Value → Column → Result FilterError BooleanArray
  in_floats vals (Column.float64 arr) = ok (map (in_cell (λ a. any (float_in a) vals)) arr)
  in_floats vals _ = err (FilterError.filter_error "Type mismatch for IN: expected Float64")

  unfoldable pub column_len : Column → ℕ
  column_len (Column.int64 arr) = length arr
  column_len (Column.float64 arr) = length arr
  column_len (Column.utf8 arr) = length arr
  column_len (Column.boolean arr) = length arr
  column_len (Column.other nulls) = length nulls

  -- The match of `eval_in` on its first value.
  unfoldable pub in_column : List Value → Column → Result FilterError BooleanArray
  unfolding in_ints in_strings in_bools in_floats column_len
  in_column [] array = ok (replicate (column_len array) (some false))
  in_column (Value.int64 v ∷ vals) array = in_ints (Value.int64 v ∷ vals) array
  in_column (Value.string v ∷ vals) array = in_strings (Value.string v ∷ vals) array
  in_column (Value.bool v ∷ vals) array = in_bools (Value.bool v ∷ vals) array
  in_column (Value.float64 v ∷ vals) array = in_floats (Value.float64 v ∷ vals) array
  in_column (Value.null ∷ vals) array =
      err (FilterError.filter_error "IN operator cannot use NULL as a value")

  unfoldable pub eval_in : RecordBatch → String → List Value → Result FilterError BooleanArray
  unfolding column_by_name in_column
  eval_in batch col vals = do array ← column_by_name batch col; in_column vals array

  abbrev pub null_at : {A : Type 0} → Option A → Bool
  null_at none = true
  null_at (some a) = false

  -- Where a column is null.
  unfoldable pub column_nulls : Column → List Bool
  column_nulls (Column.int64 arr) = map null_at arr
  column_nulls (Column.float64 arr) = map null_at arr
  column_nulls (Column.utf8 arr) = map null_at arr
  column_nulls (Column.boolean arr) = map null_at arr
  column_nulls (Column.other nulls) = nulls

  module _ (kernels : Kernels) where
    unfoldable pub evaluate_filter : RecordBatch → FilterExpr → Result FilterError BooleanArray
    unfolding eval_eq eval_lt eval_le eval_gt eval_ge eval_in column_nulls
    evaluate_filter batch (FilterExpr.eq col v) = eval_eq batch col v
    evaluate_filter batch (FilterExpr.ne col v) = do
      result ← eval_eq batch col v
      kernels.not_bool result
    evaluate_filter batch (FilterExpr.lt col v) = eval_lt batch col v
    evaluate_filter batch (FilterExpr.le col v) = eval_le batch col v
    evaluate_filter batch (FilterExpr.gt col v) = eval_gt batch col v
    evaluate_filter batch (FilterExpr.ge col v) = eval_ge batch col v
    evaluate_filter batch (FilterExpr.in_list col vals) = eval_in batch col vals
    evaluate_filter batch (FilterExpr.is_null col) = do
      array ← column_by_name batch col
      kernels.is_null (column_nulls array)
    evaluate_filter batch (FilterExpr.is_not_null col) = do
      array ← column_by_name batch col
      kernels.is_not_null (column_nulls array)
    evaluate_filter batch (FilterExpr.and l r) = do
      left ← evaluate_filter batch l
      right ← evaluate_filter batch r
      kernels.and_kleene left right
    evaluate_filter batch (FilterExpr.or l r) = do
      left ← evaluate_filter batch l
      right ← evaluate_filter batch r
      kernels.or_kleene left right
    evaluate_filter batch (FilterExpr.negation e) = do
      result ← evaluate_filter batch e
      kernels.not_bool result
