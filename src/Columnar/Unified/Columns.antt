-- ===== src/Columnar/Unified/Columns.antt =====
-- What crates/parqonaut-columnar/src/schema/unified.rs does to a single column.
use mathlib.Core.Option
use parqonaut.Prelude.{
  ◌≡◌, refl, subst, inl, inr, true, Option, none, some, String, List, [], ◌∷◌, ◌++◌, Result, ok,
  ◌>>=◌, arith, if◌then◌else◌, str_eq, eq_iff, Dict, get, insert, get-insert, string_eq, All,
  All-append, >>=-eq-ok, Bool-cases,
}
use parqonaut.Columnar.Arrow.{Field, field}
use parqonaut.Columnar.Errors.{TypeKind, SchemaConflictPolicy, ColumnarError}
use parqonaut.Columnar.Kind.{from_arrow_type, to_arrow_type}
use parqonaut.Columnar.Unify.{unify_types}
use parqonaut.Columnar.Unified.{
  ColumnState, UnifiedSchema, new, add_kind, add_field, add_fields, add_schemas, unified_fields,
  from_schemas, get_column_type,
}

-- One column on its own: the kinds of the fields of its name, unified from the first to the last.
pub join_kind :
    SchemaConflictPolicy → Option TypeKind → TypeKind → Result ColumnarError (Option TypeKind)
join_kind policy none kind = ok (some kind)
join_kind policy (some existing) kind = unify_types existing kind policy >>= λ k. ok (some k)

pub column_field :
    SchemaConflictPolicy → String → Option TypeKind → Field → Result ColumnarError (Option TypeKind)
unfolding join_kind
column_field policy column seen (field name data_type nullable) =
    if str_eq name column
    then (from_arrow_type data_type >>= λ kind. join_kind policy seen kind)
    else ok seen

pub column_fields :
    SchemaConflictPolicy
    → String
    → Option TypeKind
    → List Field
    → Result ColumnarError (Option TypeKind)
column_fields policy column seen [] = ok seen
column_fields policy column seen (f ∷ fs) =
    column_field policy column seen f >>= λ k. column_fields policy column k fs

pub column_schemas :
    SchemaConflictPolicy
    → String
    → Option TypeKind
    → List (List Field)
    → Result ColumnarError (Option TypeKind)
unfolding column_fields column_field
column_schemas policy column seen [] = ok seen
column_schemas policy column seen (s ∷ ss) =
    column_fields policy column seen s >>= λ k. column_schemas policy column k ss

add_field_column :
    (p : SchemaConflictPolicy) (column : String) (c d : ColumnState) (f : Field)
    → add_field p c f ≡ ok d
    → column_field p column (get column c.types) f ≡ ok (get column d.types)
unfolding add_field column_field
add_field_column p column c d (field name t nullable) h = grind (arith, get-insert, eq_iff)

add_fields_column :
    (p : SchemaConflictPolicy) (column : String) (c d : ColumnState) (fs : List Field)
    → add_fields p c fs ≡ ok d
    → column_fields p column (get column c.types) fs ≡ ok (get column d.types)
unfolding add_fields column_fields
add_fields_column p column c d [] h = cc h
add_fields_column p column c d (f ∷ fs) h =
    let (e, first, rest) = >>=-eq-ok (add_field p c f) _ h in
    rw (add_field_column p column c e f first) (add_fields_column p column e d fs rest)

add_schemas_column :
    (p : SchemaConflictPolicy) (column : String) (c d : ColumnState) (ss : List (List Field))
    → add_schemas p c ss ≡ ok d
    → column_schemas p column (get column c.types) ss ≡ ok (get column d.types)
unfolding add_schemas column_schemas
add_schemas_column p column c d [] h = cc h
add_schemas_column p column c d (s ∷ ss) h =
    let (e, first, rest) = >>=-eq-ok (add_fields p c s) _ h in
    rw (add_fields_column p column c e s first) (add_schemas_column p column e d ss rest)

-- The names in order of appearance are keys of the map.
IsKey : Dict String TypeKind → String → Type 0
IsKey types n = (k : TypeKind) × (get n types ≡ some k)

Ordered : ColumnState → Type 0
unfolding IsKey
Ordered c = All (IsKey c.types) c.order

IsKey-insert :
    (types : Dict String TypeKind) (n m : String) (k : TypeKind)
    → IsKey types n
    → IsKey (insert m k types) n
unfolding IsKey
IsKey-insert types n m k (j, e) = elim (Bool-cases (str_eq m n)) [
  | inl same ↦ (k, rw (get-insert m n k types, same))
  | inr other ↦ (j, rw (get-insert m n k types, other) e)
]

All-IsKey-insert :
    (types : Dict String TypeKind) (m : String) (k : TypeKind) (ns : List String)
    → All (IsKey types) ns
    → All (IsKey (insert m k types)) ns
All-IsKey-insert types m k [] h = tt
All-IsKey-insert types m k (n ∷ ns) h =
    (IsKey-insert types n m k h.0, All-IsKey-insert types m k ns h.1)

IsKey-insert_self :
    (types : Dict String TypeKind) (m : String) (k : TypeKind) → IsKey (insert m k types) m
unfolding IsKey
IsKey-insert_self types m k = (k, rw (get-insert m m k types) (ground (arith, eq_iff m m)))

insert-Ordered :
    (c : ColumnState) (m : String) (k : TypeKind)
    → Ordered c
    → Ordered (record c { types = insert m k c.types })
unfolding Ordered
insert-Ordered c m k h = All-IsKey-insert c.types m k c.order h

append-Ordered :
    (c : ColumnState) (m : String) (k : TypeKind)
    → Ordered c
    → Ordered (record { types = insert m k c.types; order = c.order ++ m ∷ [] })
unfolding Ordered
append-Ordered c m k h =
    All-append (IsKey (insert m k c.types)) c.order (m ∷ [])
      (All-IsKey-insert c.types m k c.order h) (IsKey-insert_self c.types m k, tt)

add_kind-Ordered :
    (p : SchemaConflictPolicy) (c d : ColumnState) (name : String) (kind : TypeKind)
    (seen : Option TypeKind)
    → add_kind p c name kind seen ≡ ok d
    → Ordered c
    → Ordered d
unfolding add_kind
add_kind-Ordered p c d name kind (some existing) h o =
    let (k, _, e) = >>=-eq-ok (unify_types existing kind p) _ h in
    subst Ordered (cc e) (insert-Ordered c name k o)
add_kind-Ordered p c d name kind none h o = subst Ordered (cc h) (append-Ordered c name kind o)

add_field-Ordered :
    (p : SchemaConflictPolicy) (c d : ColumnState) (f : Field)
    → add_field p c f ≡ ok d
    → Ordered c
    → Ordered d
unfolding add_field
add_field-Ordered p c d (field name t nullable) h o =
    let (kind, _, e) = >>=-eq-ok (from_arrow_type t) _ h in
    add_kind-Ordered p c d name kind (get name c.types) e o

add_fields-Ordered :
    (p : SchemaConflictPolicy) (c d : ColumnState) (fs : List Field)
    → add_fields p c fs ≡ ok d
    → Ordered c
    → Ordered d
unfolding add_fields
add_fields-Ordered p c d [] h o = subst Ordered (cc h) o
add_fields-Ordered p c d (f ∷ fs) h o =
    let (e, first, rest) = >>=-eq-ok (add_field p c f) _ h in
    add_fields-Ordered p e d fs rest (add_field-Ordered p c e f first o)

add_schemas-Ordered :
    (p : SchemaConflictPolicy) (c d : ColumnState) (ss : List (List Field))
    → add_schemas p c ss ≡ ok d
    → Ordered c
    → Ordered d
unfolding add_schemas
add_schemas-Ordered p c d [] h o = subst Ordered (cc h) o
add_schemas-Ordered p c d (s ∷ ss) h o =
    let (e, first, rest) = >>=-eq-ok (add_fields p c s) _ h in
    add_schemas-Ordered p e d ss rest (add_fields-Ordered p c e s first o)

-- A field of the unified schema has its column's kind, and admits nulls.
abbrev pub IsUnifiedField : Dict String TypeKind → Field → Type 0
IsUnifiedField types (field name t nullable) =
    (k : TypeKind) × (get name types ≡ some k) × (t ≡ to_arrow_type k) × (nullable ≡ true)

unified_fields-total :
    (types : Dict String TypeKind) (ns : List String)
    → All (IsKey types) ns
    → (fs : List Field) × (unified_fields types ns ≡ some fs) × All (IsUnifiedField types) fs
unfolding unified_fields Option.bind IsKey
unified_fields-total types [] h = ([], refl, tt)
unified_fields-total types (n ∷ ns) ((k, e), h) =
    let (fs, rest, each) = unified_fields-total types ns h in
    (field n (to_arrow_type k) true ∷ fs, rw (e, rest, Option.bind), ((k, e, refl, refl), each))

-- When every schema is taken in, the index into the map of columns cannot panic; every field of the
-- result admits nulls and has its column's kind; and the kind of each column is what unifying the
-- kinds of its own fields gives, in their order and with no regard to the other columns.
pub from_schemas_columns :
    (p : SchemaConflictPolicy) (ss : List (List Field)) (r : Option UnifiedSchema)
    → from_schemas ss p ≡ ok r
    → (u : UnifiedSchema) × (r ≡ some u)
      × All (IsUnifiedField u.type_mapping) u.schema
      × ((column : String) → column_schemas p column none ss ≡ ok (get_column_type u column))
unfolding from_schemas get_column_type get Ordered
from_schemas_columns p ss r h =
    let (c, read, e) = >>=-eq-ok (add_schemas p start ss) _ h in
    let (fs, total, each) =
      unified_fields-total c.types c.order (add_schemas-Ordered p start c ss read tt) in
    (
      record new { schema = fs; type_mapping = c.types },
      cc (rw total at e),
      each,
      λ column. add_schemas_column p column start c ss read,
    )
  where
    start : ColumnState
    start = record { types = []; order = [] }
