-- ===== src/Transform/Partition/Writing.antt =====
-- The batches that a partitioned write leaves (crates/parqonaut-transform/src/engine/partition.rs).
use parqonaut.Prelude.{
  ℕ, suc, ◌<◌, ◌≡◌, ◌≢◌, refl, sym, ap, ◌∙◌, subst, inl, inr, Bool-cases, some, Option-cases,
  String, List, [], ◌∷◌, ◌++◌, Result, Text, All, text_eq, text_eq_iff, text_eq_refl, get,
  text_eq_instance, arith,
}
use mathlib.Core.List.{append-nil, append_assoc}
use parqonaut.Prelude.Eff.{Eff}
use parqonaut.Transform.Arrays.{FilterError}
use parqonaut.Transform.Partition.{partition_dir}
use parqonaut.Transform.Partition.Writers.{
  PartFile, PartitionError, Disk, Pool, set_file, contents, next_part, ready, write_to, write_open,
  write_sub, write_subs,
}
use parqonaut.Transform.Partition.Parts.{
  parts, of_key, of_key-append, parts-elsewhere, parts-earlier, set_file-same,
}
use parqonaut.Transform.Partition.Contents.{
  After, After-bind, call-bind, calls as calls_of, modifies as modifies_of, Bounded as BoundedBy,
  Kept as KeptBy, Room as RoomFor, Ready as ReadyFor,
}
use parqonaut.Transform.Partition.Opening.{ready-Ready}

module _ (Batch : Type 0) (disk : Disk Batch) (output_dir : Text) (partition_by : List String)
    (max_open_partitions : ℕ) where
  abbrev calls : Result FilterError (Unit {0}) → Eff PartitionError (Pool Batch) (Unit {0})
  calls = calls_of Batch disk output_dir partition_by max_open_partitions

  abbrev modifies : (Pool Batch → Pool Batch) → Eff PartitionError (Pool Batch) (Unit {0})
  modifies = modifies_of Batch disk output_dir partition_by max_open_partitions

  abbrev dir_of : Text → Text
  dir_of k = partition_dir output_dir partition_by k

  abbrev Bounded : Pool Batch → Type 0
  Bounded = BoundedBy Batch disk output_dir partition_by max_open_partitions

  module _ (Key : Text → Type 0) where
    abbrev Kept : List (Text × Batch) → Pool Batch → Type 0
    Kept = KeptBy Batch disk output_dir partition_by max_open_partitions Key

    abbrev Room : List (Text × Batch) → Text → Pool Batch → Type 0
    Room = RoomFor Batch disk output_dir partition_by max_open_partitions Key

    abbrev Ready : List (Text × Batch) → Text → Pool Batch → Type 0
    Ready = ReadyFor Batch disk output_dir partition_by max_open_partitions Key

    module _ (apart : (k j : Text) → Key k → Key j → dir_of k ≡ dir_of j → k ≡ j)
        (written : List (Text × Batch)) where
      written-held_self :
          (key : Text) (batch : Batch) (idx : ℕ) (p : Pool Batch)
          → parts p.files (dir_of key) (next_part (get key p.part_counters)) ≡ of_key key written
          → get key p.part_counters ≡ some (suc idx)
          → parts
              (set_file
                (record { dir = dir_of key; part = idx })
                (p.files (dir_of key) idx ++ (batch ∷ []))
                p.files)
              (dir_of key)
              (next_part (get key p.part_counters))
            ≡ of_key key (written ++ ((key, batch) ∷ []))
      written-held_self key batch idx p held counted =
          let file : PartFile = record { dir = dir_of key; part = idx } in
          let now = p.files (dir_of key) idx ++ (batch ∷ []) in
          let before : parts p.files (dir_of key) (suc idx) ≡ of_key key written =
            ap (λ c. parts p.files (dir_of key) (next_part c)) (sym counted) ∙ held in
          rw counted (
            (λ i.
              parts-earlier file now p.files (dir_of key) idx (omega arith) i
              ++ set_file-same file now p.files i)
            ∙ sym (
                append_assoc (parts p.files (dir_of key) idx) (p.files (dir_of key) idx)
                  (batch ∷ []))
            ∙ ap (λ bs. bs ++ (batch ∷ [])) before
            ∙ sym (of_key-append key key batch written ∙ rw (text_eq_refl key) refl))

      written-held :
          (key : Text) (batch : Batch) (idx : ℕ) (p : Pool Batch)
          → Key key
          → Kept written p
          → get key p.part_counters ≡ some (suc idx)
          → (j : Text) → Key j
          → parts
              (set_file
                (record { dir = dir_of key; part = idx })
                (p.files (dir_of key) idx ++ (batch ∷ []))
                p.files)
              (dir_of j)
              (next_part (get j p.part_counters))
            ≡ of_key j (written ++ ((key, batch) ∷ []))
      written-held key batch idx p known kept counted j known_j =
          let file : PartFile = record { dir = dir_of key; part = idx } in
          let now = p.files (dir_of key) idx ++ (batch ∷ []) in
          elim (Bool-cases (text_eq key j)) [
            | inl here ↦
                let same : key ≡ j = ground (arith, text_eq_iff key j) in
                subst
                  (λ k.
                    parts (set_file file now p.files) (dir_of k) (next_part (get k p.part_counters))
                    ≡ of_key k (written ++ ((key, batch) ∷ [])))
                  same (written-held_self key batch idx p (kept.held key known) counted)
            | inr other ↦
                let differ : dir_of key ≢ dir_of j =
                  λ e. ground (arith, text_eq_iff key j, apart key j known known_j e) in
                parts-elsewhere file now p.files (dir_of j) (next_part (get j p.part_counters))
                  differ
                ∙ kept.held j known_j
                ∙ sym (of_key-append j key batch written ∙ rw other refl)
          ]

      write_open-Kept :
          (key : Text) (batch : Batch) (p : Pool Batch)
          → Key key
          → Ready written key p
          → After
              (Kept (written ++ ((key, batch) ∷ [])))
              Bounded
              (write_open Batch disk output_dir partition_by max_open_partitions key batch p)
      unfolding write_open write_to
      write_open-Kept key batch p known (kept, there) = elim (Option-cases (get key p.writers)) [
        | inl gone ↦ absurd (ground arith)
        | inr (o, found) ↦
            let (path, counted) = kept.opened key o found in
            let add = modifies (λ q. record q {
              files = set_file o.path (contents o.path q.files ++ (batch ∷ [])) q.files;
            }) in
            rw found (
              call-bind Batch disk output_dir partition_by max_open_partitions
                (Kept (written ++ ((key, batch) ∷ []))) Bounded (λ _. add)
                (disk.write_batch o.path batch) p
                (record {
                  queue = kept.queue;
                  opened = kept.opened;
                  held = λ j known_j.
                      rw path (written-held key batch o.part_index p known kept counted j known_j);
                })
                kept.queue)
      ]

    module _ (apart : (k j : Text) → Key k → Key j → dir_of k ≡ dir_of j → k ≡ j)
        (positive : 0 < max_open_partitions) where
      write_sub-Kept :
          (written : List (Text × Batch)) (key : Text) (batch : Batch) (p : Pool Batch)
          → Key key
          → Kept written p
          → After
              (Kept (written ++ ((key, batch) ∷ [])))
              Bounded
              (write_sub Batch disk output_dir partition_by max_open_partitions key batch p)
      unfolding write_sub
      write_sub-Kept written key batch p known kept =
          After-bind (Ready written key) (Kept (written ++ ((key, batch) ∷ []))) Bounded
            (λ _. write_open Batch disk output_dir partition_by max_open_partitions key batch)
            (ready Batch disk output_dir partition_by max_open_partitions key p)
            (ready-Ready Batch disk output_dir partition_by max_open_partitions Key apart written
              positive key p known kept)
            (λ q is_ready. write_open-Kept apart written key batch q known is_ready)

      pub write_subs-Kept :
          (subs written : List (Text × Batch)) (p : Pool Batch)
          → All (λ s. Key s.0) subs
          → Kept written p
          → After
              (Kept (written ++ subs))
              Bounded
              (write_subs Batch disk output_dir partition_by max_open_partitions subs p)
      unfolding write_subs
      write_subs-Kept [] written p _ kept = subst (λ w. Kept w p) (sym (append-nil written)) kept
      write_subs-Kept ((key, batch) ∷ subs) written p (known, rest) kept =
          After-bind (Kept (written ++ ((key, batch) ∷ [])))
            (Kept (written ++ ((key, batch) ∷ subs))) Bounded
            (λ _. write_subs Batch disk output_dir partition_by max_open_partitions subs)
            (write_sub Batch disk output_dir partition_by max_open_partitions key batch p)
            (write_sub-Kept written key batch p known kept)
            (λ q now.
              subst
                (λ w.
                  After (Kept w) Bounded
                    (write_subs Batch disk output_dir partition_by max_open_partitions subs q))
                (append_assoc written ((key, batch) ∷ []) subs)
                (write_subs-Kept subs (written ++ ((key, batch) ∷ [])) q rest now))
