-- ===== src/Repair/Checks.antt =====
-- Runs of crates/parqonaut-repair/src/deps.rs.
mod Schemas
use parqonaut.Prelude.{
  ◌≡◌, refl, String, List, [], ◌∷◌, ◌++◌, map, Result, Text, ok, err, codes, text_eq,
}
use parqonaut.Repair.Dependencies.{
  RepairAction, RepairSafety, RepairOperation, DependencyError, assign_dependencies,
  sort_by_dependencies,
}
use parqonaut.Repair.Execution.{OperationAuditContext, run_repair_operations}
use parqonaut.Repair.Execution.Effects.{effects, run_repair_operations-effects}
use parqonaut.Repair.Dependencies.Plans.{Sorts, sort_by_dependencies-Sorts}

abbrev operation : String → RepairAction → RepairOperation
operation id action = record {
  operation_id = codes id;
  finding_ids = [];
  safety = RepairSafety.safe;
  action = action;
  rationale = "";
  depends_on = [];
}

abbrev merge_then_cast : List RepairOperation
merge_then_cast =
    operation "merge" (RepairAction.merge_small_files 4 [])
    ∷ operation "cast" (RepairAction.cast_column "a" "Int32" "Int64")
    ∷ operation "recompress" (RepairAction.recompress "zstd" [])
    ∷ []

abbrev depends : String → List String → RepairOperation
depends id deps = record (operation id (RepairAction.repartition "")) {
  depends_on = map codes deps;
}

abbrev backwards : List RepairOperation
backwards = depends "c" ("b" ∷ "a" ∷ []) ∷ depends "b" ("a" ∷ []) ∷ depends "a" [] ∷ []

sort_by_dependencies-Sorts_example : Sorts backwards (sort_by_dependencies backwards)
unfolding text_eq
sort_by_dependencies-Sorts_example = sort_by_dependencies-Sorts backwards (refl, (refl, (refl, tt)))

backwards_sorted :
    sort_by_dependencies backwards
    ≡ ok (depends "a" [] ∷ depends "b" ("a" ∷ []) ∷ depends "c" ("b" ∷ "a" ∷ []) ∷ [])
unfolding sort_by_dependencies text_eq
backwards_sorted = refl

-- Of three operations one is safe and one of the others is authorized.
abbrev reviewed : List RepairOperation
reviewed =
    record (operation "a" (RepairAction.recompress "zstd" [])) { safety = RepairSafety.safe }
    ∷ record (operation "b" (RepairAction.rename_column "x" "y")) {
      safety = RepairSafety.review_required;
    }
    ∷ record (operation "c" (RepairAction.repartition "hive")) { safety = RepairSafety.destructive }
    ∷ []

-- The working files are the ids that were applied.
abbrev log_id : RepairOperation → List Text → List Text × Result String (Unit {0})
log_id op applied = (applied ++ (op.operation_id ∷ []), ok tt)

abbrev plan_context : OperationAuditContext
plan_context = record {
  plan_id = "plan";
  dataset_fingerprint = "data";
  policy_fingerprint = "policy";
  executor_version = "0";
}

run_repair_operations-effects_example :
    run_repair_operations
      (List Text)
      log_id
      (codes "b" ∷ codes "c" ∷ [])
      plan_context
      (λ _. 0)
      reviewed
      []
    ≡ effects
        (codes "b" ∷ codes "c" ∷ [])
        plan_context
        (λ _. 0)
        (List Text)
        log_id
        (sort_by_dependencies reviewed)
        []
run_repair_operations-effects_example =
    run_repair_operations-effects (codes "b" ∷ codes "c" ∷ []) plan_context (λ _. 0) (List Text)
      log_id reviewed []

reviewed_applied :
    (run_repair_operations
      (List Text)
      log_id
      (codes "b" ∷ codes "c" ∷ [])
      plan_context
      (λ _. 0)
      reviewed
      []).0
    ≡ codes "a" ∷ codes "b" ∷ []
unfolding run_repair_operations text_eq
reviewed_applied = refl

-- Casts come first and merges after the codec.
assigned :
    map (λ op. op.depends_on) (assign_dependencies merge_then_cast)
    ≡ [] ∷ (codes "cast" ∷ []) ∷ (codes "cast" ∷ codes "recompress" ∷ []) ∷ []
unfolding assign_dependencies
assigned = refl

cycle_refused :
    sort_by_dependencies (depends "a" ("b" ∷ []) ∷ depends "b" ("a" ∷ []) ∷ [])
    ≡ err DependencyError.invalid_plan
unfolding sort_by_dependencies text_eq
cycle_refused = refl
