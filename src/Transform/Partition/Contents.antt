-- ===== src/Transform/Partition/Contents.antt =====
-- What a partitioned write leaves (crates/parqonaut-transform/src/engine/partition.rs).
use parqonaut.Prelude.{
  ℕ, suc, ◌≤◌, ◌<◌, ◌≡◌, refl, subst, inl, inr, true, false, Bool-cases, Option, none, some, String,
  List, [], ◌∷◌, Result, ok, err, leb, length, Text, get, remove, get-remove, text_eq_instance,
  arith,
}
use parqonaut.Prelude.Eff.{Eff, bind_result}
use parqonaut.Transform.Arrays.{FilterError}
use parqonaut.Transform.Partition.{partition_dir}
use parqonaut.Transform.Partition.Writers.{
  PartitionError, Disk, OpenPartition, Pool, next_part, contains_key, close_removed, evict_front,
  evict, call, modify,
}
use parqonaut.Transform.Partition.Pool.{Queued, Queued-empty, Queued-evict, contains_key-remove}
use parqonaut.Transform.Partition.Parts.{parts, of_key}

module _ {Batch : Type 0} where
  -- The state satisfies `Q` after success and `F` after an error, and nothing panics.
  abbrev pub After :
      (Pool Batch → Type 0)
      → (Pool Batch → Type 0)
      → Pool Batch × Result PartitionError (Unit {0})
      → Type 0
  After Q F (p, ok _) = Q p
  After Q F (p, err (PartitionError.failed e)) = F p
  After Q F (p, err PartitionError.panicked) = ⊥

  pub After-bind :
      (Q R F : Pool Batch → Type 0) (f : Unit {0} → Eff PartitionError (Pool Batch) (Unit {0}))
      (r : Pool Batch × Result PartitionError (Unit {0}))
      → After Q F r
      → ((p : Pool Batch) → Q p → After R F (f tt p))
      → After R F (bind_result f r)
  After-bind Q R F f (p, ok _) h k = k p h
  After-bind Q R F f (p, err (PartitionError.failed e)) h k = h
  After-bind Q R F f (p, err PartitionError.panicked) h k = h

module _ (Batch : Type 0) (disk : Disk Batch) (output_dir : Text) (partition_by : List String)
    (max_open_partitions : ℕ) where
  abbrev pub calls : Result FilterError (Unit {0}) → Eff PartitionError (Pool Batch) (Unit {0})
  calls = call Batch disk output_dir partition_by max_open_partitions

  abbrev pub modifies : (Pool Batch → Pool Batch) → Eff PartitionError (Pool Batch) (Unit {0})
  modifies = modify Batch disk output_dir partition_by max_open_partitions

  abbrev pub dir_of : Text → Text
  dir_of k = partition_dir output_dir partition_by k

  abbrev pub Bounded : Pool Batch → Type 0
  Bounded p = Queued max_open_partitions p.writers p.lru

  call-After :
      (Q F : Pool Batch → Type 0) (r : Result FilterError (Unit {0})) (p : Pool Batch)
      → Q p
      → F p
      → After Q F (calls r p)
  call-After Q F (ok _) p q f = q
  call-After Q F (err e) p q f = f

  pub call-bind :
      (R F : Pool Batch → Type 0) (f : Unit {0} → Eff PartitionError (Pool Batch) (Unit {0}))
      (r : Result FilterError (Unit {0})) (p : Pool Batch)
      → After R F (f tt p)
      → F p
      → After R F (bind_result f (calls r p))
  call-bind R F f (ok _) p q h = q
  call-bind R F f (err e) p q h = h

  closed-After :
      (Q F : Pool Batch → Type 0) (o : Option OpenPartition) (p : Pool Batch)
      → Q p
      → F p
      → After Q F (close_removed Batch disk output_dir partition_by max_open_partitions o p)
  unfolding close_removed
  closed-After Q F none p q f = q
  closed-After Q F (some o) p q f = call-After Q F (disk.close o.path) p q f

  module _ (Key : Text → Type 0) where
    -- After the batches of `written`, in their order.
    pub record Kept (written : List (Text × Batch)) (p : Pool Batch) : Type 0 where
      pub queue : Bounded p
      pub opened :
          (k : Text) (o : OpenPartition)
          → get k p.writers ≡ some o
          → (o.path ≡ record { dir = dir_of k; part = o.part_index })
            × (get k p.part_counters ≡ some (suc o.part_index))
      pub held :
          (k : Text)
          → Key k
          → parts p.files (dir_of k) (next_part (get k p.part_counters)) ≡ of_key k written

    -- Room for one more file, which is not `key`'s.
    abbrev pub Room : List (Text × Batch) → Text → Pool Batch → Type 0
    Room written key p =
        Kept written p
        × (length p.writers < max_open_partitions)
        × (contains_key key p.writers ≡ false)

    abbrev pub Ready : List (Text × Batch) → Text → Pool Batch → Type 0
    Ready written key p = Kept written p × (contains_key key p.writers ≡ true)

    module _ (positive : 0 < max_open_partitions) (written : List (Text × Batch)) where
      evict_front-Room :
          (ks : List Text) (key : Text) (p : Pool Batch)
          → p.lru ≡ ks
          → Kept written p
          → max_open_partitions ≤ length p.writers
          → contains_key key p.writers ≡ false
          → After
              (Room written key)
              Bounded
              (evict_front Batch disk output_dir partition_by max_open_partitions ks p)
      unfolding evict_front close_removed
      evict_front-Room [] key p e kept full absent =
          let empty =
            Queued-empty max_open_partitions p.writers
              (subst (λ ks. Queued max_open_partitions p.writers ks) e kept.queue) in
          absurd (omega (arith, empty, full, positive))
      evict_front-Room (k ∷ ks) key p e kept full absent =
          let (queue, room) =
            Queued-evict max_open_partitions p.writers k ks
              (subst (λ l. Queued max_open_partitions p.writers l) e kept.queue) in
          let kept_then : Kept written (record p { lru = ks; writers = remove k p.writers }) =
            record {
              queue = queue;
              opened = λ j o h. kept.opened j o (ground (arith, get-remove k j p.writers));
              held = kept.held;
            } in
          let gone = contains_key-remove key k p.writers in
          closed-After (Room written key) Bounded (get k p.writers)
            (record p { lru = ks; writers = remove k p.writers }) (kept_then, room, ground arith)
            queue

      pub evict-Room :
          (key : Text) (p : Pool Batch)
          → Kept written p
          → contains_key key p.writers ≡ false
          → After
              (Room written key)
              Bounded
              (evict Batch disk output_dir partition_by max_open_partitions p)
      unfolding evict
      evict-Room key p kept absent =
          elim (Bool-cases (leb max_open_partitions (length p.writers))) [
            | inl full ↦ rw full (evict_front-Room p.lru key p refl kept (ground arith) absent)
            | inr room ↦ rw room (kept, ground arith, absent)
          ]
