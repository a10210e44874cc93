-- ===== src/Columnar/Arrow.antt =====
-- The part of the arrow crate's `DataType` and `Field` that crates/parqonaut-columnar/src/schema
-- names in its matches. A type that no match names is `other` with its debug text.
use parqonaut.Prelude.{ℕ, Bool, Option, String}

pub data TimeUnit : Type 0 where
  second millisecond microsecond nanosecond : TimeUnit

mutual
  pub data DataType : Type 0 where
    null boolean int8 int16 int32 int64 uint8 uint16 uint32 uint64 : DataType
    float32 float64 utf8 large_utf8 binary large_binary date32 date64 : DataType
    timestamp : TimeUnit → Option String → DataType
    dictionary : DataType → DataType → DataType
    list : Field → DataType
    large_list : Field → DataType
    struct : Fields → DataType
    map_type : Field → Bool → DataType
    fixed_size_binary : ℕ → DataType
    other : String → DataType

  pub data Field : Type 0 where
    field : String → DataType → Bool → Field

  pub data Fields : Type 0 where
    no_fields : Fields
    more_fields : Field → Fields → Fields
