-- ===== src/Repair/Schema/Resolution.antt =====
-- crates/parqonaut-repair/src/schema: compute_schema_diff of diff.rs on the fields of the dataset's files, and canonical.rs.
use parqonaut.Prelude.{
  ℕ, ◌+◌, ◌-◌, Bool, true, false, not, Option, none, some, List, [], ◌∷◌, ◌++◌, map, if◌then◌else◌,
  length, all, find, Text, text_eq, Dict, get, insert, text_eq_instance,
}
use parqonaut.Columnar.Conversion.{Compatibility}
use parqonaut.Repair.Dependencies.{sort_by, text_lt}
use parqonaut.Repair.Schema.{
  FieldDescriptor, FileSchemaView, SchemaPolicy, SchemaDifferenceKind, FieldDifference, SchemaDiff,
  UnresolvableSchemaConflict, SchemaResolution, unwrap_or_default, bool_ne, is_unsupported,
  same_variant, classify_fields, pick_canonical_field,
}

module _ (to_uppercase : Text → Text) (policy : SchemaPolicy) where
  -- The kind of a difference where all files agree.
  unfoldable pub agreed_kind : FieldDescriptor → FieldDescriptor → SchemaDifferenceKind
  unfolding text_eq
  agreed_kind only canonical =
      if bool_ne only.nullable canonical.nullable
      then SchemaDifferenceKind.nullable_difference
      else if not (text_eq only.physical_type canonical.physical_type)
      then SchemaDifferenceKind.compatible_numeric_widening
      else SchemaDifferenceKind.identical

  -- The kind of a difference where they do not.
  unfoldable pub differing_kind :
      Compatibility → FieldDescriptor → FieldDescriptor → SchemaDifferenceKind
  unfolding text_eq
  differing_kind compat from canonical =
      if is_unsupported compat
      then SchemaDifferenceKind.incompatible_type_change
      else if not (text_eq from.physical_type canonical.physical_type)
      then SchemaDifferenceKind.compatible_numeric_widening
      else if bool_ne from.nullable canonical.nullable
      then SchemaDifferenceKind.nullable_difference
      else SchemaDifferenceKind.identical

  abbrev pub unless_identical : FieldDifference → List FieldDifference
  unless_identical d = elim d.difference [ SchemaDifferenceKind.identical ↦ [] | _ ↦ d ∷ [] ]

  abbrev pub count_variants : FieldDescriptor → List FieldDescriptor → ℕ
  count_variants f [] = 0
  count_variants f (v ∷ variants) =
      let rest = count_variants f variants in if same_variant v f then 1 + rest else rest

  abbrev pub found_or : FieldDescriptor → Option FieldDescriptor → FieldDescriptor
  found_or canonical none = canonical
  found_or canonical (some f) = f

  -- The difference of one field, by its variants in the order of the files' paths.
  unfoldable pub field_difference :
      Text → FieldDescriptor → List FieldDescriptor → List FieldDifference
  unfolding agreed_kind differing_kind classify_fields
  field_difference name canonical [] = []
  field_difference name canonical (only ∷ variants) =
      if all (same_variant only) variants
      then unless_identical (record {
        path = name;
        left = some only;
        right = some canonical;
        difference = agreed_kind only canonical;
        compatibility = classify_fields to_uppercase policy only canonical;
        left_file_count = length (only ∷ variants);
        right_file_count = 0;
      })
      else let from =
          found_or canonical (find (λ v. not (same_variant v canonical)) (only ∷ variants)) in
        let compat = classify_fields to_uppercase policy from canonical in
        let left_count = count_variants from (only ∷ variants) in
        unless_identical (record {
          path = name;
          left = some from;
          right = some canonical;
          difference = differing_kind compat from canonical;
          compatibility = compat;
          left_file_count = left_count;
          right_file_count = length (only ∷ variants) - left_count;
        })

  -- The iteration over a BTreeMap.
  abbrev pub in_order : {V : Type 0} → Dict Text V → Dict Text V
  unfolding text_lt
  in_order m = sort_by (λ a b. text_lt a.0 b.0) m

  abbrev files_of : Option (Dict Text FieldDescriptor) → Dict Text FieldDescriptor
  files_of none = []
  files_of (some files) = files

  abbrev FieldFiles : Type 0
  FieldFiles = Dict Text (Dict Text FieldDescriptor)

  -- The first two loops.
  unfoldable pub add_fields : Text → List FieldDescriptor → FieldFiles → FieldFiles
  unfolding get insert
  add_fields path [] field_files = field_files
  add_fields path (f ∷ fields) field_files =
      add_fields path fields
        (insert f.name (insert path f (files_of (get f.name field_files))) field_files)

  unfoldable pub collect_fields : List FileSchemaView → FieldFiles → FieldFiles
  unfolding add_fields
  collect_fields [] field_files = field_files
  collect_fields (view ∷ views) field_files =
      collect_fields views (add_fields view.path view.fields field_files)

  abbrev values : {V : Type 0} → Dict Text V → List V
  values m = map (λ e. e.1) m

  -- The loop over the fields, in the order of their names: a field without variants is left out.
  unfoldable pub diff_field : Text → List FieldDescriptor → SchemaDiff → SchemaDiff
  unfolding pick_canonical_field field_difference
  diff_field name [] rest = rest
  diff_field name (v ∷ variants) rest =
      let canonical = pick_canonical_field to_uppercase policy (v ∷ variants) in
      record {
        fields = field_difference name canonical (v ∷ variants) ++ rest.fields;
        canonical_schema = canonical ∷ rest.canonical_schema;
      }

  unfoldable pub diff_fields : FieldFiles → SchemaDiff
  unfolding diff_field text_lt
  diff_fields [] = record { fields = []; canonical_schema = [] }
  diff_fields ((name, per_file) ∷ field_files) =
      diff_field name (values (in_order per_file)) (diff_fields field_files)

  unfoldable pub compute_schema_diff : List FileSchemaView → SchemaDiff
  unfolding collect_fields diff_fields text_lt
  compute_schema_diff views =
      let diff = diff_fields (in_order (collect_fields views [])) in
      record {
        fields = sort_by (λ a b. text_lt a.path b.path) diff.fields;
        canonical_schema = sort_by (λ a b. text_lt a.name b.name) diff.canonical_schema;
      }

  abbrev pub is_conflict : Compatibility → Bool
  is_conflict Compatibility.unsupported = true
  is_conflict Compatibility.potentially_lossy = true
  is_conflict _ = false

  unfoldable pub conflicts_of : List FieldDifference → List UnresolvableSchemaConflict
  conflicts_of [] = []
  conflicts_of (d ∷ fields) =
      let rest = conflicts_of fields in
      if is_conflict d.compatibility
      then record {
        field = d.path;
        variants = unwrap_or_default d.left ∷ unwrap_or_default d.right ∷ [];
        reason = "No deterministic canonical type under current schema policy";
      }
        ∷ rest
      else rest

  abbrev target_of :
      Option (List FieldDescriptor)
      → List UnresolvableSchemaConflict
      → List FieldDescriptor
      → Option (List FieldDescriptor)
  target_of (some explicit) conflicts canonical = some explicit
  target_of none [] canonical = some canonical
  target_of none (c ∷ conflicts) canonical = none

  unfoldable pub resolve_canonical_schema :
      List FileSchemaView → Option (List FieldDescriptor) → SchemaResolution
  unfolding compute_schema_diff conflicts_of
  resolve_canonical_schema views explicit =
      let diff = compute_schema_diff views in
      let conflicts = conflicts_of diff.fields in
      record {
        diff = diff;
        conflicts = conflicts;
        target_schema = target_of explicit conflicts diff.canonical_schema;
      }
