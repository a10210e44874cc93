-- ===== src/Columnar/Unified.antt =====
-- crates/parqonaut-columnar/src/schema/unified.rs: one schema for a list of schemas. The map from
-- columns to kinds and the vector of names in order of appearance are modelled as they stand; a map
-- is an association list with one entry for each key.
pub mod Columns
use mathlib.Core.Option
use parqonaut.Prelude.{
  ◌≡◌, refl, true, Option, none, some, String, List, [], ◌∷◌, ◌++◌, Result, ok, ◌>>=◌, arith,
  if◌then◌else◌, Dict, get, insert, string_eq,
}
use parqonaut.Columnar.Arrow.{DataType, Field, field}
use parqonaut.Columnar.Errors.{TypeKind, SchemaConflictPolicy, ColumnarError}
use parqonaut.Columnar.Kind.{from_arrow_type, to_arrow_type}
use parqonaut.Columnar.Unify.{unify_types}

-- `column_types` and `column_order`.
pub record ColumnState : Type 0 where
  pub types : Dict String TypeKind
  pub order : List String

pub record UnifiedSchema : Type 0 where
  pub schema : List Field
  pub column_mapping : Dict String String
  pub type_mapping : Dict String TypeKind

unfoldable pub new : UnifiedSchema
new = record { schema = []; column_mapping = []; type_mapping = [] }

-- The two branches of the inner loop, on what `column_types` has under the name.
unfoldable pub add_kind :
    SchemaConflictPolicy
    → ColumnState
    → String
    → TypeKind
    → Option TypeKind
    → Result ColumnarError ColumnState
add_kind policy c name kind (some existing) = do
  widened ← unify_types existing kind policy
  ok (record c { types = insert name widened c.types })
add_kind policy c name kind none =
    ok (record { types = insert name kind c.types; order = c.order ++ name ∷ [] })

-- The body of the inner loop: one field of one schema.
unfoldable pub add_field :
    SchemaConflictPolicy → ColumnState → Field → Result ColumnarError ColumnState
unfolding add_kind
add_field policy c (field name data_type nullable) = do
  kind ← from_arrow_type data_type
  add_kind policy c name kind (get name c.types)

unfoldable pub add_fields :
    SchemaConflictPolicy → ColumnState → List Field → Result ColumnarError ColumnState
add_fields policy c [] = ok c
add_fields policy c (f ∷ fs) = add_field policy c f >>= λ d. add_fields policy d fs

unfoldable pub add_schemas :
    SchemaConflictPolicy → ColumnState → List (List Field) → Result ColumnarError ColumnState
unfolding add_fields add_field
add_schemas policy c [] = ok c
add_schemas policy c (s ∷ ss) = add_fields policy c s >>= λ d. add_schemas policy d ss

-- `&column_types[&column_name]`, which panics on a missing key: `none` is the panic.
unfoldable pub unified_field : Dict String TypeKind → String → Option Field
unified_field types name =
    Option.map (λ kind. field name (to_arrow_type kind) true) (get name types)

unfoldable pub unified_fields : Dict String TypeKind → List String → Option (List Field)
unfolding unified_field
unified_fields types [] = some []
unified_fields types (n ∷ ns) =
    Option.bind (unified_field types n) λ f. Option.map (λ fs. f ∷ fs) (unified_fields types ns)

-- `ok none` is the panic of the last loop.
unfoldable pub from_schemas :
    List (List Field) → SchemaConflictPolicy → Result ColumnarError (Option UnifiedSchema)
unfolding add_schemas unified_fields
from_schemas schemas policy = do
  c ← add_schemas policy (record { types = []; order = [] }) schemas
  ok (
      Option.map (λ fields. record new { schema = fields; type_mapping = c.types })
        (unified_fields c.types c.order))

unfoldable pub get_column_type : UnifiedSchema → String → Option TypeKind
get_column_type u column = get column u.type_mapping
