-- ===== src/Columnar/Checks.antt =====
-- The theorems on crates/parqonaut-columnar/src at concrete kinds, types and schemas.
use parqonaut.Prelude.{
  ◌≡◌, refl, ◌≢◌, ◌⊎◌, ◌↔◌, true, false, Option, none, some, List, [], ◌∷◌, ok, err, arith, codes,
  All, String, get, insert,
}
use parqonaut.Columnar.Arrow.{DataType, Field, field}
use parqonaut.Columnar.Errors.{TypeKind, SchemaConflictPolicy, SchemaMessage, ColumnarError}
use parqonaut.Columnar.Kind.{from_arrow_type, to_arrow_type, from_arrow_type-to_arrow_type}
use parqonaut.Columnar.Unify.{unify_types}
use parqonaut.Columnar.Unify.Lattice.{
  Covers, from_left, from_right, unify_types-lub, unify_types_assoc, unify_types-stringify_order,
}
use parqonaut.Columnar.Physical.{PhysicalType, parse, is_unsigned, parse_signed}
use parqonaut.Columnar.Conversion.{
  Compatibility, type_eq, conversion_row, classify_conversion, NullsKept, Widens,
  classify_conversion-lossless, classify_conversion_trans,
}
use parqonaut.Columnar.Unified.{UnifiedSchema, from_schemas, get_column_type}
use parqonaut.Columnar.Unified.Columns.{IsUnifiedField, column_schemas, from_schemas_columns}

unify_example : unify_types TypeKind.i32 TypeKind.i64 SchemaConflictPolicy.widen ≡ ok TypeKind.i64
unfolding unify_types
unify_example = refl

unify_types-lub_example :
    (unify_types TypeKind.i64 TypeKind.i32 SchemaConflictPolicy.widen ≡ ok TypeKind.i64)
    × Covers SchemaConflictPolicy.widen TypeKind.i64 TypeKind.i32
    × Covers SchemaConflictPolicy.widen TypeKind.i64 TypeKind.i64
    × ((u : TypeKind)
        → Covers SchemaConflictPolicy.widen u TypeKind.i32
        → Covers SchemaConflictPolicy.widen u TypeKind.i64
        → Covers SchemaConflictPolicy.widen u TypeKind.i64)
unify_types-lub_example =
    unify_types-lub SchemaConflictPolicy.widen TypeKind.i32 TypeKind.i64 TypeKind.i64 unify_example

widen-ne-stringify : SchemaConflictPolicy.widen ≢ SchemaConflictPolicy.stringify
widen-ne-stringify e = ground arith

unify_types_assoc_example :
    (from_left SchemaConflictPolicy.widen TypeKind.i32 TypeKind.null TypeKind.i64 ≡ ok TypeKind.i64)
    ↔ (from_right SchemaConflictPolicy.widen TypeKind.i32 TypeKind.null TypeKind.i64
        ≡ ok TypeKind.i64)
unify_types_assoc_example =
    unify_types_assoc SchemaConflictPolicy.widen TypeKind.i32 TypeKind.null TypeKind.i64
      TypeKind.i64 widen-ne-stringify

abbrev date_number : ColumnarError
date_number = ColumnarError.schema (SchemaMessage.incompatible TypeKind.date TypeKind.i32)

date_number-err :
    unify_types TypeKind.date TypeKind.i32 SchemaConflictPolicy.stringify ≡ err date_number
unfolding unify_types
date_number-err = refl

unify_types-stringify_order_example :
    (from_left SchemaConflictPolicy.stringify TypeKind.date TypeKind.i32 TypeKind.utf8
      ≡ err date_number)
    × (from_left SchemaConflictPolicy.stringify TypeKind.date TypeKind.utf8 TypeKind.i32
        ≡ ok TypeKind.utf8)
    × (from_left SchemaConflictPolicy.stringify TypeKind.utf8 TypeKind.date TypeKind.i32
        ≡ ok TypeKind.utf8)
unify_types-stringify_order_example =
    unify_types-stringify_order TypeKind.date TypeKind.i32 date_number date_number-err

from_arrow_type-to_arrow_type_example :
    from_arrow_type (to_arrow_type TypeKind.datetime) ≡ ok TypeKind.datetime
from_arrow_type-to_arrow_type_example = from_arrow_type-to_arrow_type TypeKind.datetime

parse_signed_example : is_unsigned (parse (λ raw. raw) (codes "UINT32")) ≡ false
parse_signed_example = parse_signed (λ raw. raw) (codes "UINT32")

classify_conversion-lossless_example :
    (classify_conversion PhysicalType.int32 PhysicalType.int64 true true true false
      ≡ Compatibility.lossless)
    ↔ (NullsKept true true false
        × ((PhysicalType.int32 ≡ PhysicalType.int64)
            ⊎ ((true ≡ true) × Widens PhysicalType.int32 PhysicalType.int64)))
classify_conversion-lossless_example =
    classify_conversion-lossless PhysicalType.int32 PhysicalType.int64 true true true false

narrow :
    classify_conversion PhysicalType.int8 PhysicalType.int16 false false true false
    ≡ Compatibility.lossless
unfolding classify_conversion type_eq conversion_row
narrow = ground arith

wide :
    classify_conversion PhysicalType.int16 PhysicalType.int64 false false true false
    ≡ Compatibility.lossless
unfolding classify_conversion type_eq conversion_row
wide = ground arith

classify_conversion_trans_example :
    classify_conversion PhysicalType.int8 PhysicalType.int64 false false true false
    ≡ Compatibility.lossless
classify_conversion_trans_example =
    classify_conversion_trans PhysicalType.int8 PhysicalType.int16 PhysicalType.int64 false false
      false true false narrow wide

abbrev schemas : List (List Field)
schemas =
    (field "a" DataType.int32 true ∷ [])
    ∷ (field "a" DataType.int64 true ∷ field "b" DataType.utf8 true ∷ [])
    ∷ []

abbrev unified : Option UnifiedSchema
unfolding from_schemas
unified = elim (from_schemas schemas SchemaConflictPolicy.widen) [ ok r ↦ r | err e ↦ none ]

unified-ok : from_schemas schemas SchemaConflictPolicy.widen ≡ ok unified
unfolding from_schemas get insert from_arrow_type to_arrow_type unify_types
unified-ok = refl

from_schemas_columns_example :
    (u : UnifiedSchema) × (unified ≡ some u)
    × All (IsUnifiedField u.type_mapping) u.schema
    × ((column : String)
        → column_schemas SchemaConflictPolicy.widen column none schemas
          ≡ ok (get_column_type u column))
from_schemas_columns_example =
    from_schemas_columns SchemaConflictPolicy.widen schemas unified unified-ok
