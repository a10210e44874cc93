-- ===== src/Orchestrator/Overlap/Disjoint.antt =====
-- The batches that crates/parqonaut-orchestrator/src/overlap.rs admits.
use parqonaut.Prelude.{
  ◌≡◌, refl, ◌↔◌, inl, inr, Bool, true, false, ◌||◌, none, List, [], ◌∷◌, ok, arith, All, Text,
  text_eq_iff, starts_with, Bool-cases, Result-cases, Option-cases,
}
use parqonaut.Storage.Location.{DatasetLocation, S3Location}
use parqonaut.Orchestrator.Overlap.{
  BatchPathSpec, normalize_s3_prefix, s3_prefixes_overlap, locations_overlap, first_overlap,
  cross_overlap_detail, check_own, check_against, check_pairs, validate_batch_overlap,
}

module _ (path_starts_with : Text → Text → Bool) where
  abbrev Apart : DatasetLocation → DatasetLocation → Type 0
  Apart a b = locations_overlap path_starts_with a b ≡ false

  -- Neither location of the one dataset overlaps one of the other.
  pub record SpecsApart (left right : BatchPathSpec) : Type 0 where
    pub sources : Apart left.source right.source
    pub source_output : Apart left.source right.output
    pub output_source : Apart left.output right.source
    pub outputs : Apart left.output right.output

  -- Each dataset's output is apart from its source.
  abbrev pub OwnApart : List BatchPathSpec → Type 0
  OwnApart specs = All (λ spec. Apart spec.source spec.output) specs

  -- Each two datasets are apart.
  pub PairsApart : List BatchPathSpec → Type 0
  PairsApart [] = Unit
  PairsApart (spec ∷ specs) = All (SpecsApart spec) specs × PairsApart specs

  cross-SpecsApart :
      (left right : BatchPathSpec)
      → (cross_overlap_detail path_starts_with left right ≡ none) ↔ SpecsApart left right
  unfolding cross_overlap_detail first_overlap
  cross-SpecsApart left right = (
    λ h. record {
      sources = ground arith;
      source_output = ground arith;
      output_source = ground arith;
      outputs = ground arith;
    },
    λ s. rw (s.sources, s.source_output, s.output_source, s.outputs),
  )

  check_own-OwnApart :
      (specs : List BatchPathSpec) → (check_own path_starts_with specs ≡ ok tt) ↔ OwnApart specs
  unfolding check_own
  check_own-OwnApart [] = (λ _. tt, λ _. refl)
  check_own-OwnApart (spec ∷ specs) =
      let (sound, complete) = check_own-OwnApart specs in
      elim (Bool-cases (locations_overlap path_starts_with spec.source spec.output)) [
        | inl over ↦ (λ h. absurd (ground arith), λ (apart, rest). absurd (ground arith))
        | inr apart ↦ (λ h. (apart, sound (rw apart at h)), λ (_, rest). rw apart (complete rest))
      ]

  check_against-SpecsApart :
      (left : BatchPathSpec) (specs : List BatchPathSpec)
      → (check_against path_starts_with left specs ≡ ok tt) ↔ All (SpecsApart left) specs
  unfolding check_against
  check_against-SpecsApart left [] = (λ _. tt, λ _. refl)
  check_against-SpecsApart left (right ∷ specs) =
      let (sound, complete) = check_against-SpecsApart left specs in
      let (apart, none_found) = cross-SpecsApart left right in
      elim (Option-cases (cross_overlap_detail path_starts_with left right)) [
        | inl clear ↦
            (λ h. (apart clear, sound (rw clear at h)), λ (_, rest). rw clear (complete rest))
        | inr (detail, found) ↦ (
          λ h. absurd (ground arith),
          λ (one, rest). let clear = none_found one in absurd (ground arith),
        )
      ]

  check_pairs-PairsApart :
      (specs : List BatchPathSpec) → (check_pairs path_starts_with specs ≡ ok tt) ↔ PairsApart specs
  unfolding check_pairs PairsApart
  check_pairs-PairsApart [] = (λ _. tt, λ _. refl)
  check_pairs-PairsApart (spec ∷ specs) =
      let (sound, complete) = check_pairs-PairsApart specs in
      let (one, all_of) = check_against-SpecsApart spec specs in
      elim (Result-cases (check_against path_starts_with spec specs)) [
        | inl (u, e) ↦ (λ h. (one e, sound (rw e at h)), λ (_, rest). rw e (complete rest))
        | inr (x, e) ↦ (
          λ h. absurd (ground arith),
          λ (first, rest). let o = all_of first in absurd (ground arith),
        )
      ]

  -- A batch is admitted exactly when no dataset's source overlaps its own output, and no location of
  -- one dataset overlaps a location of another.
  pub validate_batch_overlap-PairsApart :
      (specs : List BatchPathSpec)
      → (validate_batch_overlap path_starts_with specs ≡ ok tt)
        ↔ (OwnApart specs × PairsApart specs)
  unfolding validate_batch_overlap
  validate_batch_overlap-PairsApart specs =
      let (own, own_back) = check_own-OwnApart specs in
      let (pairs, pairs_back) = check_pairs-PairsApart specs in
      elim (Result-cases (check_own path_starts_with specs)) [
        | inl (u, e) ↦ (λ h. (own e, pairs (rw e at h)), λ (_, rest). rw e (pairs_back rest))
        | inr (x, e) ↦ (
          λ h. absurd (ground arith),
          λ (first, rest). let o = own_back first in absurd (ground arith),
        )
      ]

starts_with_both :
    (k a b : Text)
    → starts_with k a ≡ true
    → starts_with k b ≡ true
    → (starts_with a b || starts_with b a) ≡ true
unfolding starts_with
starts_with_both k [] b h g = ground arith
starts_with_both k (x ∷ a) [] h g = refl
starts_with_both [] (x ∷ a) (y ∷ b) h g = absurd (ground arith)
starts_with_both (c ∷ k) (x ∷ a) (y ∷ b) h g = ground (arith, starts_with_both k a b)

-- Two S3 locations of one bucket that do not count as overlapping have no object in common: no key
-- begins with the prefixes of both.
pub s3_prefixes_overlap-apart :
    (a b : S3Location) (k : Text)
    → s3_prefixes_overlap a b ≡ false
    → a.bucket ≡ b.bucket
    → starts_with k (normalize_s3_prefix a.prefix) ≡ true
    → starts_with k (normalize_s3_prefix b.prefix) ≡ false
unfolding s3_prefixes_overlap
s3_prefixes_overlap-apart a b k apart bucket h =
    let same = (text_eq_iff a.bucket b.bucket).1 bucket in
    let both = starts_with_both k (normalize_s3_prefix a.prefix) (normalize_s3_prefix b.prefix) h in
    ground arith
