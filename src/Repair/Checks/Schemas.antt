-- ===== src/Repair/Checks/Schemas.antt =====
-- Runs of crates/parqonaut-repair/src/schema.
use parqonaut.Prelude.{◌≡◌, true, false, [], ◌∷◌, Text, codes}
use parqonaut.Columnar.Conversion.{Compatibility}
use parqonaut.Repair.Schema.{FieldDescriptor, SchemaPolicy, classify_fields, pick_canonical_field}
use parqonaut.Repair.Schema.Canonical.{pick_canonical_field-lossless}

-- The labels are upper-case as they are.
abbrev as_is : Text → Text
as_is t = t

abbrev default_policy : SchemaPolicy
default_policy = record { allow_numeric_widening = true; allow_nullable_widening = true }

abbrev int32_x : FieldDescriptor
int32_x = record { name = codes "x"; physical_type = codes "INT32"; nullable = false }

abbrev int64_x : FieldDescriptor
int64_x = record { name = codes "x"; physical_type = codes "INT64"; nullable = false }

abbrev text_x : FieldDescriptor
text_x = record { name = codes "x"; physical_type = codes "UTF8"; nullable = true }

pick_canonical_field-lossless_example :
    classify_fields as_is default_policy int32_x
      (pick_canonical_field as_is default_policy (int32_x ∷ int64_x ∷ text_x ∷ []))
    ≡ Compatibility.lossless
pick_canonical_field-lossless_example =
    pick_canonical_field-lossless as_is default_policy int32_x (int64_x ∷ text_x ∷ [])
