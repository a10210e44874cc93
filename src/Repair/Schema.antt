-- ===== src/Repair/Schema.antt =====
-- crates/parqonaut-repair/src/schema: the data of types.rs, diff.rs and canonical.rs, and the field to which
-- the variants of a column are brought (pick_canonical_field). A name, a path and a type are texts; the paths of
-- nested fields do not occur, and `to_uppercase` is the standard library's.
pub mod Canonical
pub mod Resolution
use parqonaut.Prelude.{
  ℕ, String, ◌+◌, ◌-◌, Bool, true, false, not, ◌&&◌, ◌||◌, Option, none, some, List, [], ◌∷◌, ◌++◌,
  map, if◌then◌else◌, ltb, ◌==◌, length, all, find, Text, text_eq, Dict, get, insert,
  text_eq_instance,
}
use parqonaut.Columnar.Physical.{PhysicalType, parse, widening_rank}
use parqonaut.Columnar.Conversion.{Compatibility, classify_conversion}
use parqonaut.Repair.Dependencies.{sort_by, text_lt}

pub record FieldDescriptor : Type 0 where
  pub name : Text
  pub physical_type : Text
  pub nullable : Bool

pub record FileSchemaView : Type 0 where
  pub path : Text
  pub fields : List FieldDescriptor

-- The flags of the policy that the diff reads.
pub record SchemaPolicy : Type 0 where
  pub allow_numeric_widening : Bool
  pub allow_nullable_widening : Bool

pub data SchemaDifferenceKind : Type 0 where
  identical column_order_difference nullable_difference : SchemaDifferenceKind
  compatible_numeric_widening compatible_type_promotion : SchemaDifferenceKind
  missing_column extra_column column_name_difference : SchemaDifferenceKind
  incompatible_type_change nested_schema_difference : SchemaDifferenceKind

pub record FieldDifference : Type 0 where
  pub path : Text
  pub left : Option FieldDescriptor
  pub right : Option FieldDescriptor
  pub difference : SchemaDifferenceKind
  pub compatibility : Compatibility
  pub left_file_count : ℕ
  pub right_file_count : ℕ

pub record SchemaDiff : Type 0 where
  pub fields : List FieldDifference
  pub canonical_schema : List FieldDescriptor

pub record UnresolvableSchemaConflict : Type 0 where
  pub field : Text
  pub variants : List FieldDescriptor
  pub reason : String

pub record SchemaResolution : Type 0 where
  pub diff : SchemaDiff
  pub conflicts : List UnresolvableSchemaConflict
  pub target_schema : Option (List FieldDescriptor)

-- `FieldDescriptor::default()`.
abbrev pub default_field : FieldDescriptor
default_field = record { name = []; physical_type = []; nullable = false }

abbrev pub unwrap_or_default : Option FieldDescriptor → FieldDescriptor
unwrap_or_default none = default_field
unwrap_or_default (some f) = f

abbrev pub bool_ne : Bool → Bool → Bool
bool_ne true b = not b
bool_ne false b = b

abbrev pub is_lossless : Compatibility → Bool
is_lossless Compatibility.lossless = true
is_lossless _ = false

abbrev pub is_unsupported : Compatibility → Bool
is_unsupported Compatibility.unsupported = true
is_unsupported _ = false

-- Two fields with one type and nullability.
abbrev pub same_variant : FieldDescriptor → FieldDescriptor → Bool
unfolding text_eq
same_variant a b = text_eq a.physical_type b.physical_type && not (bool_ne a.nullable b.nullable)

-- `unwrap_or(0)` of a rank.
abbrev pub rank_or_zero : Option ℕ → ℕ
rank_or_zero none = 0
rank_or_zero (some r) = r

module _ (to_uppercase : Text → Text) (policy : SchemaPolicy) where
  -- `classify_conversion` of schema/compatibility.rs, on two fields.
  unfoldable pub classify_fields : FieldDescriptor → FieldDescriptor → Compatibility
  unfolding classify_conversion
  classify_fields from to =
      classify_conversion (parse to_uppercase from.physical_type)
        (parse to_uppercase to.physical_type) from.nullable to.nullable
        policy.allow_numeric_widening policy.allow_nullable_widening

  abbrev pub rank : FieldDescriptor → ℕ
  unfolding widening_rank
  rank f = rank_or_zero (widening_rank (parse to_uppercase f.physical_type))

  -- One round of the loop.
  unfoldable pub better : FieldDescriptor → FieldDescriptor → FieldDescriptor
  unfolding classify_fields widening_rank
  better best v =
      if is_lossless (classify_fields best v) && ltb (rank best) (rank v)
      then v
      else if v.nullable && not best.nullable && policy.allow_nullable_widening
      then record best { nullable = true }
      else best

  unfoldable pub best_of : FieldDescriptor → List FieldDescriptor → FieldDescriptor
  unfolding better
  best_of best [] = best
  best_of best (v ∷ variants) = best_of (better best v) variants

  unfoldable pub pick_canonical_field : List FieldDescriptor → FieldDescriptor
  unfolding best_of
  pick_canonical_field [] = default_field
  pick_canonical_field (v ∷ variants) = best_of v variants
