-- ===== src/Transform/Partition/Batches.antt =====
-- `partition_record_batches` of crates/parqonaut-transform/src/engine/partition.rs: the whole write. The result of
-- reading the compression's name, `comp`, is a parameter.
use parqonaut.Prelude.{
  ℕ, Bool, true, false, String, List, [], ◌∷◌, Result, ok, err, if◌then◌else◌, ◌==◌, Text, Dict,
}
use parqonaut.Prelude.Eff.{Eff, pure, throw, ◌>>◌}
use parqonaut.Transform.Arrays.{FilterError}
use parqonaut.Transform.Filter.{Floats, RecordBatch}
use parqonaut.Transform.Partition.{partition_keys}
use parqonaut.Transform.Partition.Writers.{
  PartFile, PartitionError, Disk, Pool, Files, write_subs, close_all, call,
}

-- `is_empty()`.
abbrev pub nothing : {A : Type 0} → List A → Bool
nothing [] = true
nothing (x ∷ xs) = false

abbrev pub fresh_pool : {Batch : Type 0} → Files Batch → Pool Batch
fresh_pool files = record {
  writers = [];
  lru = [];
  outputs = [];
  part_counters = [];
  files = files;
}

module _ (floats : Floats)
    (filter_record_batch : RecordBatch floats → List Bool → Result FilterError (RecordBatch floats))
    (hash_order : Dict Text (List ℕ) → Dict Text (List ℕ)) (disk : Disk (RecordBatch floats))
    (output_dir : Text) (partition_by : List String) (max_open_partitions : ℕ) where
  abbrev pub Partitioning : Type 0 → Type 0
  Partitioning A = Eff PartitionError (Pool (RecordBatch floats)) A

  abbrev pub keyed : RecordBatch floats → Result FilterError (List (Text × RecordBatch floats))
  unfolding partition_keys
  keyed batch = partition_keys floats filter_record_batch hash_order batch partition_by

  -- The body of the loop, once the keys are computed.
  unfoldable pub write_keyed :
      Result FilterError (List (Text × RecordBatch floats)) → Partitioning (Unit {0})
  unfolding write_subs
  write_keyed (err e) = throw (PartitionError.failed e)
  write_keyed (ok subs) =
      write_subs (RecordBatch floats) disk output_dir partition_by max_open_partitions subs

  unfoldable pub write_batches : List (RecordBatch floats) → Partitioning (Unit {0})
  unfolding write_keyed partition_keys
  write_batches [] = pure tt
  write_batches (batch ∷ batches) = write_keyed (keyed batch) >> write_batches batches

  -- `writers.drain()`, with the close of each.
  unfoldable pub close_writers : Partitioning (Unit {0})
  unfolding close_all
  close_writers p =
      close_all (RecordBatch floats) disk output_dir partition_by max_open_partitions p.writers
        (record p { writers = [] })

  abbrev pub outputs_of : Partitioning (List PartFile)
  outputs_of p = (p, ok p.outputs)

  abbrev pub calls : Result FilterError (Unit {0}) → Partitioning (Unit {0})
  calls = call (RecordBatch floats) disk output_dir partition_by max_open_partitions

  -- What follows the guards, up to the result.
  unfoldable pub write_all :
      Result FilterError (Unit {0}) → List (RecordBatch floats) → Partitioning (Unit {0})
  unfolding write_batches close_writers
  write_all comp batches = do
    calls (disk.make_dir output_dir)
    calls comp
    write_batches batches
    close_writers

  unfoldable pub partition_record_batches :
      Result FilterError (Unit {0}) → List (RecordBatch floats) → Partitioning (List PartFile)
  unfolding write_all
  partition_record_batches comp batches =
      if nothing partition_by
      then throw (PartitionError.failed (FilterError.invalid_input "partition_by required"))
      else if max_open_partitions == 0
      then throw
          (PartitionError.failed (FilterError.invalid_input "max_open_partitions must be > 0"))
      else if nothing batches
      then pure []
      else do write_all comp batches; outputs_of
