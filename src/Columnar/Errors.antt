-- ===== src/Columnar/Errors.antt =====
-- crates/parqonaut-columnar/src/error.rs and the conflict policy of
-- crates/parqonaut-workflow/src/schema_policy.rs. A message that `format!` builds keeps its parts.
use parqonaut.Prelude.{String}
use parqonaut.Columnar.Arrow.{DataType}

pub data TypeKind : Type 0 where
  null bool i8 i16 i32 i64 f32 f64 utf8 date datetime binary : TypeKind

pub data SchemaConflictPolicy : Type 0 where
  strict widen stringify : SchemaConflictPolicy

pub data SchemaMessage : Type 0 where
  unsupported_type : DataType → SchemaMessage
  incompatible_under_strict : TypeKind → TypeKind → SchemaMessage
  incompatible : TypeKind → TypeKind → SchemaMessage

pub data ColumnarError : Type 0 where
  schema : SchemaMessage → ColumnarError
  validation io arrow parquet other : String → ColumnarError
  cancelled : ColumnarError
