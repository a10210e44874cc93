-- ===== src/Repair/Schema/Canonical.antt =====
-- The field that stands for the variants of a column, crates/parqonaut-repair/src/schema/diff.rs.
use parqonaut.Prelude.{
  ◌≡◌, refl, inl, inr, Bool, true, false, not, ◌&&◌, Bool-cases, List, [], ◌∷◌, ltb, Text, arith,
}
use parqonaut.Columnar.Physical.{parse}
use parqonaut.Columnar.Conversion.{
  Compatibility, classify_conversion-lossless, classify_conversion_trans,
}
use parqonaut.Repair.Schema.{
  FieldDescriptor, SchemaPolicy, is_lossless, rank, classify_fields, better, best_of,
  pick_canonical_field,
}

and_left : (a b : Bool) → (a && b) ≡ true → a ≡ true
and_left true b h = refl
and_left false b h = h

module _ (to_uppercase : Text → Text) (policy : SchemaPolicy) where
  abbrev Lossless : FieldDescriptor → FieldDescriptor → Type 0
  Lossless a b = classify_fields to_uppercase policy a b ≡ Compatibility.lossless

  is_lossless_sound : (c : Compatibility) → is_lossless c ≡ true → c ≡ Compatibility.lossless
  is_lossless_sound Compatibility.lossless h = refl
  is_lossless_sound Compatibility.conditionally_lossless h = cc
  is_lossless_sound Compatibility.potentially_lossy h = cc
  is_lossless_sound Compatibility.unsupported h = cc

  Lossless-self : (a : FieldDescriptor) → Lossless a a
  unfolding classify_fields
  Lossless-self a =
      (classify_conversion-lossless (parse to_uppercase a.physical_type)
          (parse to_uppercase a.physical_type) a.nullable a.nullable policy.allow_numeric_widening
          policy.allow_nullable_widening).1
        (inl refl, inl refl)

  Lossless-nullable :
      (a : FieldDescriptor)
      → a.nullable ≡ false
      → policy.allow_nullable_widening ≡ true
      → Lossless a (record a { nullable = true })
  unfolding classify_fields
  Lossless-nullable a h allow =
      (classify_conversion-lossless (parse to_uppercase a.physical_type)
          (parse to_uppercase a.physical_type) a.nullable true policy.allow_numeric_widening
          policy.allow_nullable_widening).1
        (inr (h, refl, allow), inl refl)

  Lossless-trans : (a b c : FieldDescriptor) → Lossless a b → Lossless b c → Lossless a c
  unfolding classify_fields
  Lossless-trans a b c h k =
      classify_conversion_trans (parse to_uppercase a.physical_type)
        (parse to_uppercase b.physical_type) (parse to_uppercase c.physical_type) a.nullable
        b.nullable c.nullable policy.allow_numeric_widening policy.allow_nullable_widening h k

  better-Lossless : (best v : FieldDescriptor) → Lossless best (better to_uppercase policy best v)
  unfolding better
  better-Lossless best v =
      elim (Bool-cases (
        is_lossless (classify_fields to_uppercase policy best v)
        && ltb (rank to_uppercase policy best) (rank to_uppercase policy v))) [
          | inl widens ↦ rw widens (
              is_lossless_sound (classify_fields to_uppercase policy best v) (
                and_left (is_lossless (classify_fields to_uppercase policy best v))
                  (ltb (rank to_uppercase policy best) (rank to_uppercase policy v)) widens))
          | inr stays ↦
              elim (Bool-cases
                (v.nullable && not best.nullable && policy.allow_nullable_widening)) [
                  | inl null ↦
                      rw (stays, null) (Lossless-nullable best (ground arith) (ground arith))
                  | inr same ↦ rw (stays, same) (Lossless-self best)
                ]
        ]

  best_of-Lossless :
      (best : FieldDescriptor) (variants : List FieldDescriptor)
      → Lossless best (best_of to_uppercase policy best variants)
  unfolding best_of
  best_of-Lossless best [] = Lossless-self best
  best_of-Lossless best (v ∷ variants) =
      Lossless-trans best (better to_uppercase policy best v)
        (best_of to_uppercase policy (better to_uppercase policy best v) variants)
        (better-Lossless best v) (best_of-Lossless (better to_uppercase policy best v) variants)

  -- The canonical field of a column that has at least one variant is one to which the first variant
  -- converts without loss under the policy, whatever the other variants are.
  pub pick_canonical_field-lossless :
      (v : FieldDescriptor) (variants : List FieldDescriptor)
      → classify_fields to_uppercase policy v
          (pick_canonical_field to_uppercase policy (v ∷ variants))
        ≡ Compatibility.lossless
  unfolding pick_canonical_field
  pick_canonical_field-lossless v variants = best_of-Lossless v variants
