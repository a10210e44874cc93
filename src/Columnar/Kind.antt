-- ===== src/Columnar/Kind.antt =====
-- crates/parqonaut-columnar/src/schema/kind.rs: the kinds that unification works on.
use parqonaut.Prelude.{ℕ, ◌≡◌, Bool, none, Result, ok, err, arith, ◌==◌}
use parqonaut.Columnar.Arrow.{DataType, TimeUnit}
use parqonaut.Columnar.Errors.{TypeKind, ColumnarError, schema, unsupported_type}

-- The derived `PartialEq`: kinds are equal when their discriminants are.
abbrev pub tag : TypeKind → ℕ
tag TypeKind.null = 0
tag TypeKind.bool = 1
tag TypeKind.i8 = 2
tag TypeKind.i16 = 3
tag TypeKind.i32 = 4
tag TypeKind.i64 = 5
tag TypeKind.f32 = 6
tag TypeKind.f64 = 7
tag TypeKind.utf8 = 8
tag TypeKind.date = 9
tag TypeKind.datetime = 10
tag TypeKind.binary = 11

abbrev pub kind_eq : TypeKind → TypeKind → Bool
kind_eq a b = tag a == tag b

unfoldable pub from_arrow_type : DataType → Result ColumnarError TypeKind
from_arrow_type DataType.null = ok TypeKind.null
from_arrow_type DataType.boolean = ok TypeKind.bool
from_arrow_type DataType.int8 = ok TypeKind.i8
from_arrow_type DataType.int16 = ok TypeKind.i16
from_arrow_type DataType.int32 = ok TypeKind.i32
from_arrow_type DataType.int64 = ok TypeKind.i64
from_arrow_type DataType.float32 = ok TypeKind.f32
from_arrow_type DataType.float64 = ok TypeKind.f64
from_arrow_type DataType.utf8 = ok TypeKind.utf8
from_arrow_type DataType.large_utf8 = ok TypeKind.utf8
from_arrow_type DataType.binary = ok TypeKind.binary
from_arrow_type DataType.large_binary = ok TypeKind.binary
from_arrow_type DataType.date32 = ok TypeKind.date
from_arrow_type DataType.date64 = ok TypeKind.datetime
from_arrow_type (DataType.timestamp _ _) = ok TypeKind.datetime
from_arrow_type t = err (schema (unsupported_type t))

unfoldable pub to_arrow_type : TypeKind → DataType
to_arrow_type TypeKind.null = DataType.null
to_arrow_type TypeKind.bool = DataType.boolean
to_arrow_type TypeKind.i8 = DataType.int8
to_arrow_type TypeKind.i16 = DataType.int16
to_arrow_type TypeKind.i32 = DataType.int32
to_arrow_type TypeKind.i64 = DataType.int64
to_arrow_type TypeKind.f32 = DataType.float32
to_arrow_type TypeKind.f64 = DataType.float64
to_arrow_type TypeKind.utf8 = DataType.utf8
to_arrow_type TypeKind.date = DataType.date32
to_arrow_type TypeKind.datetime = DataType.timestamp TimeUnit.millisecond none
to_arrow_type TypeKind.binary = DataType.binary

-- Reading back the Arrow type of a kind gives the kind.
pub from_arrow_type-to_arrow_type : (k : TypeKind) → from_arrow_type (to_arrow_type k) ≡ ok k
unfolding from_arrow_type to_arrow_type
from_arrow_type-to_arrow_type k = ground arith

-- Kinds with one tag are one kind.
pub kind_eq_sound : (a b : TypeKind) → kind_eq a b ≡ Bool.true → a ≡ b
kind_eq_sound a b h = ground arith
