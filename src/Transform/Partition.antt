-- ===== src/Transform/Partition.antt =====
-- crates/parqonaut-transform/src/engine/partition.rs: the key of a row's partition, the rows of a batch by key, and
-- the directory of a partition. Writers has the open files.
pub mod Writers
pub mod Pool
pub mod Parts
pub mod Contents
pub mod Opening
pub mod Writing
pub mod Batches
pub mod Written
use parqonaut.Prelude.{
  ℕ, zero, suc, ◌+◌, Bool, true, false, ◌||◌, Option, none, some, String, List, [], ◌∷◌, ◌++◌, map,
  Result, ok, err, ◌>>=◌, ok_or, if◌then◌else◌, ◌==◌, Text, codes, text_eq, contains, starts_with,
  any, Dict, get, insert, string_eq, text_eq_instance,
}
use mathlib.Core.List.{reverse}
use parqonaut.Transform.Arrays.{FilterError}
use parqonaut.Transform.Filter.{Floats, Column, RecordBatch, column_nulls}
use parqonaut.Transform.Filter.Rows.{get_elem?, or_null}

abbrev pub hive_default_partition : Text
hive_default_partition = codes "__HIVE_DEFAULT_PARTITION__"

abbrev pub escape_prefix : Text
escape_prefix = codes "__PQ_ESC__"

-- `str::replace` of a character.
abbrev pub replace : ℕ → Text → Text → Text
replace c by [] = []
replace c by (d ∷ s) = let rest = replace c by s in if d == c then by ++ rest else d ∷ rest

abbrev slash : ℕ
slash = 47

abbrev backslash : ℕ
backslash = 92

abbrev nul : ℕ
nul = 0

unfoldable pub encode_partition_value : Option Text → Text
unfolding text_eq contains
encode_partition_value none = hive_default_partition
encode_partition_value (some s) =
    if text_eq s hive_default_partition
    then escape_prefix ++ hive_default_partition
    else if contains s (slash ∷ []) || contains s (backslash ∷ []) || contains s (nul ∷ [])
    then escape_prefix
      ++ replace nul (backslash ∷ 48 ∷ []) (
          replace slash (backslash ∷ slash ∷ []) (replace backslash (backslash ∷ backslash ∷ []) s))
    else s

-- The character that joins the values of a key.
abbrev pub unit_separator : ℕ
unit_separator = 31

abbrev pub join : List Text → Text
join [] = []
join (s ∷ []) = s
join (s ∷ t ∷ rest) = s ++ (unit_separator ∷ join (t ∷ rest))

abbrev first_part : ℕ → List Text → List Text
first_part c [] = (c ∷ []) ∷ []
first_part c (p ∷ ps) = (c ∷ p) ∷ ps

-- `key.split('\x1f')`.
abbrev pub split : Text → List Text
split [] = [] ∷ []
split (c ∷ s) = let rest = split s in if c == unit_separator then [] ∷ rest else first_part c rest

-- `PathBuf::push`.
abbrev pub push : Text → Text → Text
push base part =
    if starts_with part (slash ∷ [])
    then part
    else if starts_with (reverse base) (slash ∷ []) || text_eq base []
    then base ++ part
    else base ++ (slash ∷ part)

abbrev pub push_all : Text → List String → List Text → Text
push_all base (col ∷ cols) (val ∷ vals) =
    push_all (push base (codes col ++ codes "=" ++ val)) cols vals
push_all base _ _ = base

unfoldable pub partition_dir : Text → List String → Text → Text
unfolding starts_with text_eq
partition_dir base columns key = push_all base columns (split key)

module _ (floats : Floats) where
  abbrev text_of : Option (Option Text) → Option Text
  text_of none = none
  text_of (some t) = t

  text_at : Column floats → ℕ → Result FilterError (Option Text)
  text_at (Column.utf8 texts) row = ok (text_of (get_elem? texts row))
  text_at _ row = err (FilterError.invalid_input "unsupported partition column type")

  -- The test for a null, and `array_value_at`.
  unfoldable pub array_value_at : Column floats → ℕ → Result FilterError (Option Text)
  unfolding column_nulls text_at
  array_value_at arr row =
      if or_null floats (get_elem? (column_nulls floats arr) row) then ok none else text_at arr row

  unfoldable pub key_parts : List (Column floats) → ℕ → Result FilterError (List Text)
  unfolding array_value_at encode_partition_value
  key_parts [] row = ok []
  key_parts (arr ∷ arrays) row = do
    value ← array_value_at arr row
    parts ← key_parts arrays row
    ok (encode_partition_value value ∷ parts)

  unfoldable pub partition_arrays :
      RecordBatch floats → List String → Result FilterError (List (Column floats))
  partition_arrays batch [] = ok []
  partition_arrays batch (c ∷ cols) = do
    arr ← ok_or (get c batch.columns) (FilterError.invalid_input "missing partition column")
    arrays ← partition_arrays batch cols
    ok (arr ∷ arrays)

  abbrev rows_of : Option (List ℕ) → List ℕ
  rows_of none = []
  rows_of (some rows) = rows

  -- `groups.entry(key).or_default().push(row)`.
  abbrev add_row : Text → ℕ → Dict Text (List ℕ) → Dict Text (List ℕ)
  unfolding get insert
  add_row key row groups = insert key (rows_of (get key groups) ++ (row ∷ [])) groups

  -- The loop over the `count` rows from `row` on.
  unfoldable pub group_rows :
      List (Column floats) → ℕ → ℕ → Dict Text (List ℕ) → Result FilterError (Dict Text (List ℕ))
  unfolding key_parts get insert
  group_rows arrays zero row groups = ok groups
  group_rows arrays (suc count) row groups = do
    parts ← key_parts arrays row
    group_rows arrays count (row + 1) (add_row (join parts) row groups)

  -- The mask of the rows that are listed.
  unfoldable pub row_mask : ℕ → ℕ → List ℕ → List Bool
  row_mask zero row rows = []
  row_mask (suc count) row rows = any (λ i. i == row) rows ∷ row_mask count (row + 1) rows

  -- `filter_record_batch` of the arrow crate, and the order in which a HashMap gives its entries.
  module _
      (filter_record_batch : RecordBatch floats
        → List Bool
        → Result FilterError (RecordBatch floats))
      (hash_order : Dict Text (List ℕ) → Dict Text (List ℕ)) where
    unfoldable pub sub_batches :
        RecordBatch floats
        → Dict Text (List ℕ)
        → Result FilterError (List (Text × RecordBatch floats))
    unfolding row_mask
    sub_batches batch [] = ok []
    sub_batches batch ((key, rows) ∷ groups) = do
      filtered ← filter_record_batch batch (row_mask batch.num_rows 0 rows)
      rest ← sub_batches batch groups
      ok ((key, filtered) ∷ rest)

    unfoldable pub partition_keys :
        RecordBatch floats → List String → Result FilterError (List (Text × RecordBatch floats))
    unfolding partition_arrays group_rows sub_batches
    partition_keys batch cols = if batch.num_rows == 0 then ok [] else do
      arrays ← partition_arrays batch cols
      groups ← group_rows arrays batch.num_rows 0 []
      sub_batches batch (hash_order groups)
