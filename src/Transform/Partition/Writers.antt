-- ===== src/Transform/Partition/Writers.antt =====
-- The open files of a partitioned write: `partition_record_batches` of
-- crates/parqonaut-transform/src/engine/partition.rs. At most `max_open_partitions` files are open; for one more,
-- the one that was written to longest ago is closed. A key that comes again gets its next part.
use parqonaut.Prelude.{
  ℕ, suc, Bool, true, false, ◌&&◌, Option, none, some, String, List, [], ◌∷◌, ◌++◌, Result, ok, err,
  if◌then◌else◌, leb, ◌==◌, length, Text, listed, text_eq, Dict, get, insert, remove,
  text_eq_instance,
}
use parqonaut.Prelude.Eff.{Eff, pure, throw, ◌>>◌}
use parqonaut.Transform.Arrays.{FilterError}
use parqonaut.Transform.Partition.{partition_dir}

-- The path `{dir}/part-{idx:05}.parquet`.
pub record PartFile : Type 0 where
  pub dir : Text
  pub part : ℕ

pub data PartitionError : Type 0 where
  failed : FilterError → PartitionError
  panicked : PartitionError

-- Which of the calls fail: create_dir_all, File::create, the writer's constructor, write_batch and close.
pub record Disk (Batch : Type 0) : Type 0 where
  pub make_dir : Text → Result FilterError (Unit {0})
  pub create_file : PartFile → Result FilterError (Unit {0})
  pub new_writer : PartFile → Result FilterError (Unit {0})
  pub write_batch : PartFile → Batch → Result FilterError (Unit {0})
  pub close : PartFile → Result FilterError (Unit {0})

-- What a file holds once it is closed: the batches that were written to it.
abbrev pub Files : Type 0 → Type 0
Files Batch = Text → ℕ → List Batch

-- `OpenPartition`, its writer given by its path.
pub record OpenPartition : Type 0 where
  pub path : PartFile
  pub part_index : ℕ

-- The local variables of `partition_record_batches`, and the files.
pub record Pool (Batch : Type 0) : Type 0 where
  pub writers : Dict Text OpenPartition
  pub lru : List Text
  pub outputs : List PartFile
  pub part_counters : Dict Text ℕ
  pub files : Files Batch

abbrev pub set_file : {Batch : Type 0} → PartFile → List Batch → Files Batch → Files Batch
set_file p batches files dir part =
    if text_eq p.dir dir && p.part == part then batches else files dir part

abbrev pub contents : {Batch : Type 0} → PartFile → Files Batch → List Batch
contents p files = files p.dir p.part

abbrev pub next_part : Option ℕ → ℕ
next_part none = 0
next_part (some n) = n

abbrev pub is_some : Option OpenPartition → Bool
is_some none = false
is_some (some o) = true

abbrev pub contains_key : Text → Dict Text OpenPartition → Bool
contains_key key writers = is_some (get key writers)

-- `lru.remove(pos)` at the first position of the key.
abbrev pub remove_key : Text → List Text → List Text
remove_key key [] = []
remove_key key (k ∷ ks) = let rest = remove_key key ks in if text_eq k key then ks else k ∷ rest

module _ (Batch : Type 0) (disk : Disk Batch) (output_dir : Text) (partition_by : List String)
    (max_open_partitions : ℕ) where
  abbrev pub Step : Type 0
  Step = Eff PartitionError (Pool Batch) (Unit {0})

  abbrev pub call : Result FilterError (Unit {0}) → Step
  call (ok _) = pure tt
  call (err e) = throw (PartitionError.failed e)

  abbrev pub modify : (Pool Batch → Pool Batch) → Step
  modify f p = (f p, ok tt)

  -- The close of the writer that `writers.remove` gives.
  unfoldable pub close_removed : Option OpenPartition → Step
  close_removed none = pure tt
  close_removed (some open_partition) = call (disk.close open_partition.path)

  unfoldable pub evict_front : List Text → Step
  unfolding close_removed get remove
  evict_front [] p = (p, ok tt)
  evict_front (k ∷ ks) p =
      close_removed (get k p.writers) (record p { lru = ks; writers = remove k p.writers })

  unfoldable pub evict : Step
  unfolding evict_front
  evict p = if leb max_open_partitions (length p.writers) then evict_front p.lru p else (p, ok tt)

  abbrev pub count_part : Text → ℕ → Pool Batch → Pool Batch
  count_part key idx p = record p { part_counters = insert key (suc idx) p.part_counters }

  abbrev pub create_empty : PartFile → Pool Batch → Pool Batch
  create_empty file p = record p { files = set_file file [] p.files }

  abbrev pub add_writer : Text → PartFile → ℕ → Pool Batch → Pool Batch
  add_writer key file idx p = record p {
    writers = insert key (record { path = file; part_index = idx }) p.writers;
    outputs = p.outputs ++ (file ∷ []);
    lru = p.lru ++ (key ∷ []);
  }

  unfoldable pub open_part : Text → PartFile → ℕ → Step
  open_part key file idx = do
    modify (count_part key idx)
    call (disk.create_file file)
    modify (create_empty file)
    call (disk.new_writer file)
    modify (add_writer key file idx)

  -- The next part of a key.
  unfoldable pub open_partition : Text → Step
  unfolding open_part partition_dir get
  open_partition key p =
      let dir = partition_dir output_dir partition_by key in
      let idx = next_part (get key p.part_counters) in
      (call (disk.make_dir dir) >> open_part key (record { dir = dir; part = idx }) idx) p

  -- The key becomes the last of the queue.
  unfoldable pub touch : Text → Step
  touch key p =
      if listed key p.lru
      then (record p { lru = remove_key key p.lru ++ (key ∷ []) }, ok tt)
      else (p, ok tt)

  unfoldable pub ready : Text → Step
  unfolding touch evict open_partition get
  ready key p = if contains_key key p.writers then touch key p else (evict >> open_partition key) p

  -- `writers.get_mut(&key).unwrap().writer.write_batch(sub_batch)`.
  unfoldable pub write_to : Batch → Option OpenPartition → Step
  write_to batch none = throw PartitionError.panicked
  write_to batch (some o) =
      call (disk.write_batch o.path batch)
      >> modify (λ p. record p {
        files = set_file o.path (contents o.path p.files ++ (batch ∷ [])) p.files;
      })

  unfoldable pub write_open : Text → Batch → Step
  unfolding write_to get
  write_open key batch p = write_to batch (get key p.writers) p

  unfoldable pub write_sub : Text → Batch → Step
  unfolding ready write_open
  write_sub key batch = ready key >> write_open key batch

  unfoldable pub write_subs : List (Text × Batch) → Step
  unfolding write_sub
  write_subs [] = pure tt
  write_subs ((key, batch) ∷ subs) = write_sub key batch >> write_subs subs

  unfoldable pub close_all : Dict Text OpenPartition → Step
  close_all [] = pure tt
  close_all ((key, o) ∷ writers) = call (disk.close o.path) >> close_all writers
