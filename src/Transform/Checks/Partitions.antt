-- ===== src/Transform/Checks/Partitions.antt =====
-- A run of crates/parqonaut-transform/src/engine/partition.rs with one open file at a time.
use parqonaut.Prelude.{
  ℕ, ◌≡◌, ◌≢◌, text_eq, ◌⊎◌, inl, inr, refl, sym, ◌∙◌, ap, subst, Bool, true, Option, some, String,
  List, [], ◌∷◌, Result, ok, Text, codes, Dict, All,
}
use parqonaut.Transform.Arrays.{FilterError}
use parqonaut.Transform.Filter.{Column, RecordBatch}
use parqonaut.Transform.Checks.{two_floats}
use parqonaut.Transform.Partition.{partition_dir, partition_keys}
use parqonaut.Transform.Partition.Writers.{Disk}
use parqonaut.Transform.Partition.Batches.{fresh_pool, partition_record_batches}
use parqonaut.Transform.Partition.Written.{Finished, Keys, partition_record_batches-Finished}

abbrev Batch : Type 0
Batch = RecordBatch two_floats

abbrev cities : List (Option Text) → Column two_floats
cities names = Column.utf8 names

abbrev a_and_b : Batch
a_and_b = record {
  columns = ("city", cities (some (codes "a") ∷ some (codes "b") ∷ [])) ∷ [];
  num_rows = 2;
}

abbrev only_a : Batch
only_a = record { columns = ("city", cities (some (codes "a") ∷ [])) ∷ []; num_rows = 1 }

abbrev only_b : Batch
only_b = record { columns = ("city", cities (some (codes "b") ∷ [])) ∷ []; num_rows = 1 }

-- The kernel on these batches.
abbrev filter_cities : Batch → List Bool → Result FilterError Batch
filter_cities batch (true ∷ _) = ok only_a
filter_cities batch _ = ok only_b

abbrev in_order : Dict Text (List ℕ) → Dict Text (List ℕ)
in_order groups = groups

abbrev sound_disk : Disk Batch
sound_disk = record {
  make_dir = λ _. ok tt;
  create_file = λ _. ok tt;
  new_writer = λ _. ok tt;
  write_batch = λ _ _. ok tt;
  close = λ _. ok tt;
}

abbrev by_city : List String
by_city = "city" ∷ []

abbrev IsCity : Text → Type 0
IsCity k = (k ≡ codes "a") ⊎ (k ≡ codes "b")

cities_differ :
    partition_dir (codes "out") by_city (codes "a")
    ≢ partition_dir (codes "out") by_city (codes "b")
unfolding partition_dir text_eq
cities_differ e = cc (ap (text_eq (codes "out/city=a")) e)

cities_apart :
    (k j : Text)
    → IsCity k
    → IsCity j
    → partition_dir (codes "out") by_city k ≡ partition_dir (codes "out") by_city j
    → k ≡ j
cities_apart k j (inl a) (inl b) e = a ∙ sym b
cities_apart k j (inr a) (inr b) e = a ∙ sym b
cities_apart k j (inl a) (inr b) e = absurd (
    cities_differ (
      ap (partition_dir (codes "out") by_city) (sym a)
      ∙ e
      ∙ ap (partition_dir (codes "out") by_city) b))
cities_apart k j (inr a) (inl b) e = absurd (
    cities_differ (
      sym (
        ap (partition_dir (codes "out") by_city) (sym a)
        ∙ e
        ∙ ap (partition_dir (codes "out") by_city) b)))

cities-Keys :
    Keys two_floats filter_cities in_order sound_disk (codes "out") by_city 1 IsCity a_and_b
unfolding partition_keys
cities-Keys subs e =
    let same : (codes "a", only_a) ∷ (codes "b", only_b) ∷ [] ≡ subs = cc e in
    subst (All (λ s. IsCity s.0)) same (inl refl, (inr refl, tt))

partition_record_batches-Finished_example :
    Finished two_floats filter_cities in_order sound_disk
      (codes "out")
      by_city
      1
      IsCity
      (a_and_b ∷ a_and_b ∷ [])
      (partition_record_batches two_floats filter_cities in_order sound_disk
        (codes "out")
        by_city
        1
        (ok tt)
        (a_and_b ∷ a_and_b ∷ [])
        (fresh_pool (λ _ _. [])))
partition_record_batches-Finished_example =
    partition_record_batches-Finished two_floats filter_cities in_order sound_disk (codes "out")
      by_city 1 IsCity cities_apart (ok tt) (a_and_b ∷ a_and_b ∷ []) (λ _ _. [])
      (cities-Keys, (cities-Keys, tt))

-- Each key has two parts.
cities_outputs :
    (partition_record_batches two_floats filter_cities in_order sound_disk
      (codes "out")
      by_city
      1
      (ok tt)
      (a_and_b ∷ a_and_b ∷ [])
      (fresh_pool (λ _ _. []))).1
    ≡ ok (
        record { dir = codes "out/city=a"; part = 0 }
        ∷ record { dir = codes "out/city=b"; part = 0 }
        ∷ record { dir = codes "out/city=a"; part = 1 }
        ∷ record { dir = codes "out/city=b"; part = 1 }
        ∷ [])
unfolding partition_record_batches
cities_outputs = refl
