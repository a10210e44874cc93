-- ===== src/Orchestrator/Overlap.antt =====
-- crates/parqonaut-orchestrator/src/overlap.rs, and `locations_overlap` of
-- crates/parqonaut-repair/src/execute_storage.rs. `starts_with` of the camino crate compares local paths
-- by their components and is a parameter.
pub mod Disjoint
use parqonaut.Prelude.{
  Bool, true, false, ◌||◌, ◌≡◌, Option, none, some, String, List, [], ◌∷◌, ◌++◌, Result, ok, err,
  if◌then◌else◌, Text, codes, text_eq, starts_with, trim_start, trim_end, ◌>>=◌,
}
use parqonaut.Storage.Location.{DatasetLocation, S3Location, LocalLocation}

-- `trim_matches('/')`.
unfoldable pub normalize_s3_prefix : Text → Text
normalize_s3_prefix prefix = trim_end b'/' (trim_start b'/' prefix)

unfoldable pub s3_prefixes_overlap : S3Location → S3Location → Bool
unfolding normalize_s3_prefix
s3_prefixes_overlap a b =
    let a_prefix = normalize_s3_prefix a.prefix in
    let b_prefix = normalize_s3_prefix b.prefix in
    if text_eq a.bucket b.bucket
    then starts_with a_prefix b_prefix || starts_with b_prefix a_prefix
    else false

pub record BatchPathSpec : Type 0 where
  pub dataset_id : String
  pub source : DatasetLocation
  pub output : DatasetLocation

-- The parts of the message of `PathOverlap`.
pub data Overlap : Type 0 where
  own : BatchPathSpec → Overlap
  cross : BatchPathSpec → BatchPathSpec → DatasetLocation → DatasetLocation → Overlap

module _ (path_starts_with : Text → Text → Bool) where
  unfoldable pub paths_overlap : Text → Text → Bool
  paths_overlap source dest = path_starts_with source dest || path_starts_with dest source

  unfoldable pub locations_overlap : DatasetLocation → DatasetLocation → Bool
  unfolding paths_overlap s3_prefixes_overlap
  locations_overlap (DatasetLocation.local a) (DatasetLocation.local b) =
      paths_overlap a.path b.path
  locations_overlap (DatasetLocation.s3 a) (DatasetLocation.s3 b) = s3_prefixes_overlap a b
  locations_overlap _ _ = false

  -- The loop of `cross_overlap_detail` over the four pairs.
  unfoldable pub first_overlap :
      BatchPathSpec → BatchPathSpec → List (DatasetLocation × DatasetLocation) → Option Overlap
  unfolding locations_overlap
  first_overlap left right [] = none
  first_overlap left right ((a, b) ∷ pairs) =
      let rest = first_overlap left right pairs in
      if locations_overlap a b then some (Overlap.cross left right a b) else rest

  unfoldable pub cross_overlap_detail : BatchPathSpec → BatchPathSpec → Option Overlap
  unfolding first_overlap
  cross_overlap_detail left right = first_overlap left right (
      (left.source, right.source)
      ∷ (left.source, right.output)
      ∷ (left.output, right.source)
      ∷ (left.output, right.output)
      ∷ [])

  abbrev pub reject : Option Overlap → Result Overlap (Unit {0}) → Result Overlap (Unit {0})
  reject none rest = rest
  reject (some detail) rest = err detail

  -- The first loop of `validate_batch_overlap`.
  unfoldable pub check_own : List BatchPathSpec → Result Overlap (Unit {0})
  unfolding locations_overlap
  check_own [] = ok tt
  check_own (spec ∷ specs) =
      let rest = check_own specs in
      if locations_overlap spec.source spec.output then err (Overlap.own spec) else rest

  -- The inner and the outer loop of the second.
  unfoldable pub check_against : BatchPathSpec → List BatchPathSpec → Result Overlap (Unit {0})
  unfolding cross_overlap_detail
  check_against left [] = ok tt
  check_against left (right ∷ specs) =
      reject (cross_overlap_detail left right) (check_against left specs)

  unfoldable pub check_pairs : List BatchPathSpec → Result Overlap (Unit {0})
  unfolding check_against
  check_pairs [] = ok tt
  check_pairs (spec ∷ specs) = check_against spec specs >>= λ _. check_pairs specs

  unfoldable pub validate_batch_overlap : List BatchPathSpec → Result Overlap (Unit {0})
  unfolding check_own check_pairs
  validate_batch_overlap specs = check_own specs >>= λ _. check_pairs specs
