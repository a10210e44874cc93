-- ===== src/Columnar/Unify.antt =====
-- crates/parqonaut-columnar/src/schema/unify.rs: the common kind of two columns.
pub mod Lattice
use parqonaut.Prelude.{
  Bool, true, false, ◌&&◌, ◌||◌, Option, none, some, Result, ok, err, if◌then◌else◌,
}
use parqonaut.Columnar.Errors.{
  TypeKind, SchemaConflictPolicy, ColumnarError, schema, incompatible_under_strict, incompatible,
}
use parqonaut.Columnar.Kind.{kind_eq}

-- The rows of the match that name two kinds, in the order of the source.
abbrev pub widen_row : TypeKind → TypeKind → Option TypeKind
widen_row TypeKind.bool TypeKind.i8 = some TypeKind.i8
widen_row TypeKind.i8 TypeKind.bool = some TypeKind.i8
widen_row TypeKind.bool TypeKind.i16 = some TypeKind.i16
widen_row TypeKind.i16 TypeKind.bool = some TypeKind.i16
widen_row TypeKind.bool TypeKind.i32 = some TypeKind.i32
widen_row TypeKind.i32 TypeKind.bool = some TypeKind.i32
widen_row TypeKind.bool TypeKind.i64 = some TypeKind.i64
widen_row TypeKind.i64 TypeKind.bool = some TypeKind.i64
widen_row TypeKind.bool TypeKind.f32 = some TypeKind.f32
widen_row TypeKind.f32 TypeKind.bool = some TypeKind.f32
widen_row TypeKind.bool TypeKind.f64 = some TypeKind.f64
widen_row TypeKind.f64 TypeKind.bool = some TypeKind.f64
widen_row TypeKind.i8 TypeKind.i16 = some TypeKind.i16
widen_row TypeKind.i16 TypeKind.i8 = some TypeKind.i16
widen_row TypeKind.i8 TypeKind.i32 = some TypeKind.i32
widen_row TypeKind.i32 TypeKind.i8 = some TypeKind.i32
widen_row TypeKind.i8 TypeKind.i64 = some TypeKind.i64
widen_row TypeKind.i64 TypeKind.i8 = some TypeKind.i64
widen_row TypeKind.i16 TypeKind.i32 = some TypeKind.i32
widen_row TypeKind.i32 TypeKind.i16 = some TypeKind.i32
widen_row TypeKind.i16 TypeKind.i64 = some TypeKind.i64
widen_row TypeKind.i64 TypeKind.i16 = some TypeKind.i64
widen_row TypeKind.i32 TypeKind.i64 = some TypeKind.i64
widen_row TypeKind.i64 TypeKind.i32 = some TypeKind.i64
widen_row TypeKind.i8 TypeKind.f32 = some TypeKind.f32
widen_row TypeKind.f32 TypeKind.i8 = some TypeKind.f32
widen_row TypeKind.i8 TypeKind.f64 = some TypeKind.f64
widen_row TypeKind.f64 TypeKind.i8 = some TypeKind.f64
widen_row TypeKind.i16 TypeKind.f32 = some TypeKind.f32
widen_row TypeKind.f32 TypeKind.i16 = some TypeKind.f32
widen_row TypeKind.i16 TypeKind.f64 = some TypeKind.f64
widen_row TypeKind.f64 TypeKind.i16 = some TypeKind.f64
widen_row TypeKind.i32 TypeKind.f32 = some TypeKind.f32
widen_row TypeKind.f32 TypeKind.i32 = some TypeKind.f32
widen_row TypeKind.i32 TypeKind.f64 = some TypeKind.f64
widen_row TypeKind.f64 TypeKind.i32 = some TypeKind.f64
widen_row TypeKind.i64 TypeKind.f32 = some TypeKind.f64
widen_row TypeKind.f32 TypeKind.i64 = some TypeKind.f64
widen_row TypeKind.i64 TypeKind.f64 = some TypeKind.f64
widen_row TypeKind.f64 TypeKind.i64 = some TypeKind.f64
widen_row TypeKind.f32 TypeKind.f64 = some TypeKind.f64
widen_row TypeKind.f64 TypeKind.f32 = some TypeKind.f64
widen_row TypeKind.date TypeKind.datetime = some TypeKind.datetime
widen_row TypeKind.datetime TypeKind.date = some TypeKind.datetime
widen_row _ _ = none

abbrev pub is_strict : SchemaConflictPolicy → Bool
is_strict SchemaConflictPolicy.strict = true
is_strict _ = false

abbrev pub is_stringify : SchemaConflictPolicy → Bool
is_stringify SchemaConflictPolicy.stringify = true
is_stringify _ = false

-- The rows below those: stringified kinds, then the two errors.
abbrev pub widen_conflict :
    TypeKind → TypeKind → Bool → SchemaConflictPolicy → Result ColumnarError TypeKind
widen_conflict left right stringify_conflicts policy =
    if (kind_eq left TypeKind.utf8 || kind_eq right TypeKind.utf8) && stringify_conflicts
    then ok TypeKind.utf8
    else if (kind_eq left TypeKind.binary || kind_eq right TypeKind.binary) && stringify_conflicts
    then ok TypeKind.utf8
    else if is_strict policy
    then err (schema (incompatible_under_strict left right))
    else err (schema (incompatible left right))

unfoldable pub widen_types :
    TypeKind → TypeKind → Bool → SchemaConflictPolicy → Result ColumnarError TypeKind
widen_types left right stringify_conflicts policy =
    if kind_eq left TypeKind.null
    then ok right
    else if kind_eq right TypeKind.null
    then ok left
    else if kind_eq left right
    then ok left
    else elim (widen_row left right) [
      | some k ↦ ok k
      | none ↦ widen_conflict left right stringify_conflicts policy
    ]

unfoldable pub unify_types :
    TypeKind → TypeKind → SchemaConflictPolicy → Result ColumnarError TypeKind
unfolding widen_types
unify_types left right policy = widen_types left right (is_stringify policy) policy
