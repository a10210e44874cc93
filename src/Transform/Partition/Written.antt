-- ===== src/Transform/Partition/Written.antt =====
-- What `partition_record_batches` of crates/parqonaut-transform/src/engine/partition.rs leaves.
use parqonaut.Prelude.{
  ℕ, ◌≤◌, ◌<◌, ◌≡◌, refl, sym, subst, inl, inr, Bool, true, Bool-cases, String, List, [], ◌∷◌, ◌++◌,
  Result, ok, err, ◌==◌, length, Text, All, Dict, get, text_eq_instance, arith, ◌>>=◌ as ◌>>=ᵣ◌,
}
use mathlib.Core.List.{append-nil, append_assoc}
use parqonaut.Prelude.Eff.{Eff, ◌>>◌, bind_result}
use parqonaut.Transform.Arrays.{FilterError}
use parqonaut.Transform.Filter.{Floats, RecordBatch}
use parqonaut.Transform.Partition.{partition_dir}
use parqonaut.Transform.Partition.Writers.{
  PartFile, PartitionError, Disk, OpenPartition, Pool, Files, next_part, write_subs, close_all,
}
use parqonaut.Transform.Partition.Parts.{parts, of_key}
use parqonaut.Transform.Partition.Contents.{After, After-bind, Bounded, Kept, call-bind}
use parqonaut.Transform.Partition.Writing.{write_subs-Kept}
use parqonaut.Transform.Partition.Batches.{
  nothing, fresh_pool, keyed, write_keyed, write_batches, close_writers, write_all, outputs_of,
  calls, partition_record_batches,
}

module _ {Batch : Type 0} where
  After-weaken :
      (Q R F G : Pool Batch → Type 0) (r : Pool Batch × Result PartitionError (Unit {0}))
      → ((p : Pool Batch) → Q p → R p)
      → ((p : Pool Batch) → F p → G p)
      → After Q F r
      → After R G r
  After-weaken Q R F G (p, ok _) k l h = k p h
  After-weaken Q R F G (p, err (PartitionError.failed e)) k l h = l p h
  After-weaken Q R F G (p, err PartitionError.panicked) k l h = h

module _ (floats : Floats)
    (filter_record_batch : RecordBatch floats → List Bool → Result FilterError (RecordBatch floats))
    (hash_order : Dict Text (List ℕ) → Dict Text (List ℕ)) (disk : Disk (RecordBatch floats))
    (output_dir : Text) (partition_by : List String) (max_open_partitions : ℕ) where
  abbrev keyed_by : RecordBatch floats → Result FilterError (List (Text × RecordBatch floats))
  keyed_by =
      keyed floats filter_record_batch hash_order disk output_dir partition_by max_open_partitions

  abbrev writing :
      List (RecordBatch floats) → Eff PartitionError (Pool (RecordBatch floats)) (Unit {0})
  writing =
      write_batches floats filter_record_batch hash_order disk output_dir partition_by
        max_open_partitions

  -- The keys and sub-batches of all batches.
  abbrev pub all_keyed :
      List (RecordBatch floats) → Result FilterError (List (Text × RecordBatch floats))
  all_keyed [] = ok []
  all_keyed (batch ∷ batches) =
      keyed_by batch >>=ᵣ λ subs. all_keyed batches >>=ᵣ λ rest. ok (subs ++ rest)

  no_batches :
      (batches : List (RecordBatch floats)) → nothing batches ≡ true → all_keyed batches ≡ ok []
  no_batches [] h = refl
  no_batches (batch ∷ batches) h = cc

  abbrev Within : Pool (RecordBatch floats) → Type 0
  Within p = length p.writers ≤ max_open_partitions

  module _ (Key : Text → Type 0) where
    abbrev KeptBy : List (Text × RecordBatch floats) → Pool (RecordBatch floats) → Type 0
    KeptBy = Kept (RecordBatch floats) disk output_dir partition_by max_open_partitions Key

    -- The batches have only keys that satisfy `Key`.
    abbrev pub Keys : RecordBatch floats → Type 0
    Keys batch =
        (subs : List (Text × RecordBatch floats))
        → keyed_by batch ≡ ok subs
        → All (λ s. Key s.0) subs

    abbrev WroteKeys :
        List (Text × RecordBatch floats) → RecordBatch floats → Pool (RecordBatch floats) → Type 0
    WroteKeys written batch p =
        (subs : List (Text × RecordBatch floats)) × (keyed_by batch ≡ ok subs)
        × KeptBy (written ++ subs) p

    abbrev Wrote :
        List (Text × RecordBatch floats)
        → List (RecordBatch floats)
        → Pool (RecordBatch floats)
        → Type 0
    Wrote written batches p =
        (subs : List (Text × RecordBatch floats)) × (all_keyed batches ≡ ok subs)
        × KeptBy (written ++ subs) p

    -- The result is what the files then hold.
    abbrev pub Finished :
        List (RecordBatch floats)
        → Pool (RecordBatch floats) × Result PartitionError (List PartFile)
        → Type 0
    Finished batches (p, ok outputs) =
        (subs : List (Text × RecordBatch floats)) × (all_keyed batches ≡ ok subs)
        × ((k : Text)
            → Key k
            → parts p.files (partition_dir output_dir partition_by k)
                (next_part (get k p.part_counters))
              ≡ of_key k subs)
    Finished batches (p, err (PartitionError.failed e)) = Within p
    Finished batches (p, err PartitionError.panicked) = ⊥

    module _
        (apart : (k j : Text)
          → Key k
          → Key j
          → partition_dir output_dir partition_by k ≡ partition_dir output_dir partition_by j
          → k ≡ j)
        (positive : 0 < max_open_partitions) where
      write_keyed-Kept :
          (batch : RecordBatch floats) (r : Result FilterError (List (Text × RecordBatch floats)))
          (written : List (Text × RecordBatch floats)) (p : Pool (RecordBatch floats))
          → keyed_by batch ≡ r
          → Keys batch
          → KeptBy written p
          → After (WroteKeys written batch) Within (
              write_keyed floats filter_record_batch hash_order disk output_dir partition_by
                max_open_partitions r p)
      unfolding write_keyed
      write_keyed-Kept batch (err e) written p here known k = k.queue.within
      write_keyed-Kept batch (ok subs) written p here known k =
          After-weaken (KeptBy (written ++ subs)) (WroteKeys written batch)
            (Bounded (RecordBatch floats) disk output_dir partition_by max_open_partitions) Within
            (write_subs (RecordBatch floats) disk output_dir partition_by max_open_partitions subs
              p)
            (λ q now. (subs, here, now)) (λ q bounded. bounded.within)
            (write_subs-Kept (RecordBatch floats) disk output_dir partition_by max_open_partitions
              Key apart positive subs written p (known subs here) k)

      write_batches-Wrote :
          (batches : List (RecordBatch floats)) (written : List (Text × RecordBatch floats))
          (p : Pool (RecordBatch floats))
          → All Keys batches
          → KeptBy written p
          → After (Wrote written batches) Within (
              write_batches floats filter_record_batch hash_order disk output_dir partition_by
                max_open_partitions batches p)
      unfolding write_batches write_keyed
      write_batches-Wrote [] written p _ k =
          ([], refl, subst (λ w. KeptBy w p) (sym (append-nil written)) k)
      write_batches-Wrote (batch ∷ batches) written p (known, rest) k =
          After-bind (WroteKeys written batch) (Wrote written (batch ∷ batches)) Within
            (λ _. writing batches)
            (write_keyed floats filter_record_batch hash_order disk output_dir partition_by
              max_open_partitions (keyed_by batch) p)
            (write_keyed-Kept batch (keyed_by batch) written p refl known k)
            (λ q (subs, here, now).
              After-weaken (Wrote (written ++ subs) batches) (Wrote written (batch ∷ batches))
                Within Within (writing batches q)
                (λ o (more, there, then_kept). (
                  subs ++ more,
                  rw (here, there) refl,
                  subst (λ w. KeptBy w o) (append_assoc written subs more) then_kept,
                ))
                (λ o h. h) (write_batches-Wrote batches (written ++ subs) q rest now))

    closed-After :
        (Q : Pool (RecordBatch floats) → Type 0) (m : Dict Text OpenPartition)
        (p : Pool (RecordBatch floats))
        → Q p
        → Within p
        → After Q Within
            (close_all (RecordBatch floats) disk output_dir partition_by max_open_partitions m p)
    unfolding close_all
    closed-After Q [] p q within = q
    closed-After Q ((k, o) ∷ m) p q within =
        call-bind (RecordBatch floats) disk output_dir partition_by max_open_partitions Q Within
          (λ _. close_all (RecordBatch floats) disk output_dir partition_by max_open_partitions m)
          (disk.close o.path) p (closed-After Q m p q within) within

    Finished-After :
        (batches : List (RecordBatch floats))
        (r : Pool (RecordBatch floats) × Result PartitionError (Unit {0}))
        → After (λ p. Finished batches (p, ok p.outputs)) Within r
        → Finished batches (
            bind_result
              (λ _.
                outputs_of floats filter_record_batch hash_order disk output_dir partition_by
                  max_open_partitions)
              r)
    Finished-After batches (p, ok _) h = h
    Finished-After batches (p, err (PartitionError.failed e)) h = h
    Finished-After batches (p, err PartitionError.panicked) h = h

    fresh_pool-Kept : (files : Files (RecordBatch floats)) → KeptBy [] (fresh_pool files)
    unfolding get
    fresh_pool-Kept files = record {
      queue = record { within = omega arith; same = λ k. refl; distinct = tt };
      opened = λ k o h. absurd (ground arith);
      held = λ k known. refl;
    }

    module _
        (apart : (k j : Text)
          → Key k
          → Key j
          → partition_dir output_dir partition_by k ≡ partition_dir output_dir partition_by j
          → k ≡ j)
        (comp : Result FilterError (Unit {0})) (batches : List (RecordBatch floats))
        (files : Files (RecordBatch floats)) (known : All Keys batches) where
      abbrev Done : Pool (RecordBatch floats) → Type 0
      Done p = Finished batches (p, ok p.outputs)

      written-closed :
          (p : Pool (RecordBatch floats))
          → Wrote [] batches p
          → After Done Within (
              close_writers floats filter_record_batch hash_order disk output_dir partition_by
                max_open_partitions p)
      unfolding close_writers
      written-closed p (subs, here, k) =
          closed-After Done p.writers (record p { writers = [] }) (subs, here, k.held) (omega arith)

      write_all-Done :
          0 < max_open_partitions
          → After Done Within (
              write_all floats filter_record_batch hash_order disk output_dir partition_by
                max_open_partitions comp batches
                (fresh_pool files))
      unfolding write_all
      write_all-Done positive =
          let comps =
            calls floats filter_record_batch hash_order disk output_dir partition_by
              max_open_partitions comp in
          let closing =
            close_writers floats filter_record_batch hash_order disk output_dir partition_by
              max_open_partitions in
          call-bind (RecordBatch floats) disk output_dir partition_by max_open_partitions Done
            Within (λ _. comps >> (writing batches >> closing)) (disk.make_dir output_dir)
            (fresh_pool files)
            (call-bind (RecordBatch floats) disk output_dir partition_by max_open_partitions Done
              Within (λ _. writing batches >> closing) comp (fresh_pool files)
              (After-bind (Wrote [] batches) Done Within (λ _. closing)
                (writing batches (fresh_pool files))
                (write_batches-Wrote apart positive batches [] (fresh_pool files) known
                  (fresh_pool-Kept files))
                written-closed)
              (omega arith))
            (omega arith)

      -- A partitioned write never panics. If it succeeds, the keys of all its batches could be
      -- computed, and for every key the parts in the key's directory, one after the other, hold exactly
      -- the sub-batches of that key in the order of the batches, however often the key's file was closed to keep to
      -- the bound on open files; if it fails, no more files are open than the bound allows. The
      -- directories of different keys among them must differ.
      pub partition_record_batches-Finished : Finished batches (
          partition_record_batches floats filter_record_batch hash_order disk output_dir
            partition_by max_open_partitions comp batches
            (fresh_pool files))
      unfolding partition_record_batches
      partition_record_batches-Finished = elim (Bool-cases (nothing partition_by)) [
        | inl empty ↦ rw empty (omega arith)
        | inr some_column ↦ elim (Bool-cases (max_open_partitions == 0)) [
          | inl none_open ↦ rw (some_column, none_open) (omega arith)
          | inr positive ↦ elim (Bool-cases (nothing batches)) [
            | inl no_batch ↦
                rw (some_column, positive, no_batch)
                  ([], no_batches batches no_batch, λ k known_k. refl)
            | inr some_batch ↦
                rw (some_column, positive, some_batch)
                  (Finished-After batches _ (write_all-Done (ground arith)))
          ]
        ]
      ]
