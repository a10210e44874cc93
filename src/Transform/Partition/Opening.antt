-- ===== src/Transform/Partition/Opening.antt =====
-- The open file of a key, in a partitioned write (crates/parqonaut-transform/src/engine/partition.rs).
use parqonaut.Prelude.{
  ℕ, suc, ◌<◌, ◌≡◌, ◌≢◌, refl, sym, ap, ◌∙◌, subst, inl, inr, Bool, true, false, Bool-cases, some,
  String, List, [], ◌++◌, Result, if◌then◌else◌, Text, listed, text_eq, text_eq_iff, text_eq_refl,
  Dict, get, insert, get-insert, text_eq_instance, arith,
}
use mathlib.Core.List.{append-nil}
use parqonaut.Prelude.Eff.{Eff, ◌>>◌}
use parqonaut.Transform.Arrays.{FilterError}
use parqonaut.Transform.Partition.{partition_dir}
use parqonaut.Transform.Partition.Writers.{
  PartFile, PartitionError, Disk, OpenPartition, Pool, next_part, contains_key, evict, count_part,
  create_empty, add_writer, open_part, open_partition, touch, ready,
}
use parqonaut.Transform.Partition.Pool.{Queued-touch, Queued-open, contains_key-insert}
use parqonaut.Transform.Partition.Parts.{
  parts, of_key, parts-elsewhere, parts-earlier, set_file-same,
}
use parqonaut.Transform.Partition.Contents.{
  After, After-bind, call-bind, calls as calls_of, modifies as modifies_of, Bounded as BoundedBy,
  Kept as KeptBy, Room as RoomFor, Ready as ReadyFor, evict-Room,
}

module _ (Batch : Type 0) (disk : Disk Batch) (output_dir : Text) (partition_by : List String)
    (max_open_partitions : ℕ) where
  abbrev calls : Result FilterError (Unit {0}) → Eff PartitionError (Pool Batch) (Unit {0})
  calls = calls_of Batch disk output_dir partition_by max_open_partitions

  abbrev modifies : (Pool Batch → Pool Batch) → Eff PartitionError (Pool Batch) (Unit {0})
  modifies = modifies_of Batch disk output_dir partition_by max_open_partitions

  abbrev dir_of : Text → Text
  dir_of k = partition_dir output_dir partition_by k

  abbrev Bounded : Pool Batch → Type 0
  Bounded = BoundedBy Batch disk output_dir partition_by max_open_partitions

  module _ (Key : Text → Type 0) where
    abbrev Kept : List (Text × Batch) → Pool Batch → Type 0
    Kept = KeptBy Batch disk output_dir partition_by max_open_partitions Key

    abbrev Room : List (Text × Batch) → Text → Pool Batch → Type 0
    Room = RoomFor Batch disk output_dir partition_by max_open_partitions Key

    abbrev Ready : List (Text × Batch) → Text → Pool Batch → Type 0
    Ready = ReadyFor Batch disk output_dir partition_by max_open_partitions Key

    module _ (apart : (k j : Text) → Key k → Key j → dir_of k ≡ dir_of j → k ≡ j)
        (written : List (Text × Batch)) where
      abbrev opened_file : Text → Pool Batch → PartFile
      opened_file key p = record { dir = dir_of key; part = next_part (get key p.part_counters) }

      -- The pool with the next part of the key.
      abbrev with_part : Text → Pool Batch → Pool Batch
      with_part key p =
          let idx = next_part (get key p.part_counters) in
          let file : PartFile = record { dir = dir_of key; part = idx } in
          add_writer Batch disk output_dir partition_by max_open_partitions key file idx (
            create_empty Batch disk output_dir partition_by max_open_partitions file
              (count_part Batch disk output_dir partition_by max_open_partitions key idx p))

      next_part-insert :
          (key j : Text) (n : ℕ) (m : Dict Text ℕ)
          → next_part (get j (insert key n m)) ≡ (if text_eq key j then n else next_part (get j m))
      next_part-insert key j n m = ap next_part (get-insert key j n m) ∙ pushed (text_eq key j)
        where
          pushed :
              (b : Bool)
              → next_part (if b then some n else get j m) ≡ (if b then n else next_part (get j m))
          pushed true = refl
          pushed false = refl

      with_part-held_self :
          (key : Text) (p : Pool Batch)
          → parts p.files (dir_of key) (next_part (get key p.part_counters)) ≡ of_key key written
          → parts
              (with_part key p).files
              (dir_of key)
              (next_part (get key (with_part key p).part_counters))
            ≡ of_key key written
      with_part-held_self key p held =
          let idx = next_part (get key p.part_counters) in
          rw (next_part-insert key key (suc idx) p.part_counters, text_eq_refl key)
            ((λ i.
                parts-earlier (opened_file key p) [] p.files (dir_of key) idx (omega arith) i
                ++ set_file-same (opened_file key p) [] p.files i)
              ∙ append-nil (parts p.files (dir_of key) idx)
              ∙ held)

      with_part-held :
          (key j : Text) (p : Pool Batch)
          → Key key
          → Key j
          → parts p.files (dir_of j) (next_part (get j p.part_counters)) ≡ of_key j written
          → parts
              (with_part key p).files
              (dir_of j)
              (next_part (get j (with_part key p).part_counters))
            ≡ of_key j written
      with_part-held key j p known known_j held = elim (Bool-cases (text_eq key j)) [
        | inl here ↦
            let same : key ≡ j = ground (arith, text_eq_iff key j) in
            subst
              (λ k.
                parts (with_part key p).files (dir_of k)
                  (next_part (get k (with_part key p).part_counters))
                ≡ of_key k written)
              same
              (with_part-held_self key p (
                subst
                  (λ k.
                    parts p.files (dir_of k) (next_part (get k p.part_counters)) ≡ of_key k written)
                  (sym same) held))
        | inr other ↦
            let differ : dir_of key ≢ dir_of j =
              λ e. ground (arith, text_eq_iff key j, apart key j known known_j e) in
            rw
              (
                next_part-insert key j (suc (next_part (get key p.part_counters))) p.part_counters,
                other,
              )
              (parts-elsewhere (opened_file key p) [] p.files (dir_of j)
                  (next_part (get j p.part_counters)) differ
                ∙ held)
      ]

      with_part-opened :
          (key : Text) (p : Pool Batch)
          → Kept written p
          → (j : Text) (o : OpenPartition) → get j (with_part key p).writers ≡ some o
          → (o.path ≡ record { dir = dir_of j; part = o.part_index })
            × (get j (with_part key p).part_counters ≡ some (suc o.part_index))
      with_part-opened key p kept j o h =
          let idx = next_part (get key p.part_counters) in
          let there =
            get-insert key j (record { path = opened_file key p; part_index = idx }) p.writers in
          let count = get-insert key j (suc idx) p.part_counters in
          elim (Bool-cases (text_eq key j)) [
            | inl here ↦
                let same : key ≡ j = ground (arith, text_eq_iff key j) in
                let new : record { path = opened_file key p; part_index = idx } ≡ o =
                  ground arith in
                (
                  sym (ap (λ x. x.path) new)
                      ∙ (λ i. record { dir = dir_of (same i); part = (new i).part_index }),
                  ground arith,
                )
            | inr other ↦ let (path, next) = kept.opened j o (ground arith) in (path, ground arith)
          ]

      with_part-Kept :
          (key : Text) (p : Pool Batch)
          → Key key
          → Room written key p
          → Kept written (with_part key p)
      with_part-Kept key p known (kept, room, absent) = record {
        queue = Queued-open max_open_partitions p.writers p.lru key _ kept.queue room absent;
        opened = with_part-opened key p kept;
        held = λ j known_j. with_part-held key j p known known_j (kept.held j known_j);
      }

      open_partition-Ready :
          (key : Text) (p : Pool Batch)
          → Key key
          → Room written key p
          → After
              (Ready written key)
              Bounded
              (open_partition Batch disk output_dir partition_by max_open_partitions key p)
      unfolding open_partition open_part
      open_partition-Ready key p known (kept, room, absent) =
          let there : contains_key key (with_part key p).writers ≡ true =
            contains_key-insert key key
              (record {
                path = opened_file key p;
                part_index = next_part (get key p.part_counters);
              })
              p.writers
            ∙ ap (λ b. if b then true else contains_key key p.writers) (text_eq_refl key) in
          let result : Ready written key (with_part key p) =
            (with_part-Kept key p known (kept, room, absent), there) in
          let file = opened_file key p in
          let add = modifies (
            add_writer Batch disk output_dir partition_by max_open_partitions key file file.part) in
          let empty =
            modifies (create_empty Batch disk output_dir partition_by max_open_partitions file) in
          let counted =
            count_part Batch disk output_dir partition_by max_open_partitions key file.part p in
          let created =
            create_empty Batch disk output_dir partition_by max_open_partitions file counted in
          call-bind Batch disk output_dir partition_by max_open_partitions (Ready written key)
            Bounded
            (λ _.
              open_part Batch disk output_dir partition_by max_open_partitions key file file.part)
            (disk.make_dir (dir_of key)) p
            (call-bind Batch disk output_dir partition_by max_open_partitions (Ready written key)
              Bounded (λ _. empty >> (calls (disk.new_writer file) >> add)) (disk.create_file file)
              counted
              (call-bind Batch disk output_dir partition_by max_open_partitions (Ready written key)
                Bounded (λ _. add) (disk.new_writer file) created result kept.queue)
              kept.queue)
            kept.queue

      touch-Ready :
          (key : Text) (p : Pool Batch)
          → Kept written p
          → contains_key key p.writers ≡ true
          → After
              (Ready written key)
              Bounded
              (touch Batch disk output_dir partition_by max_open_partitions key p)
      unfolding touch
      touch-Ready key p kept there =
          let here : listed key p.lru ≡ true = kept.queue.same key ∙ there in
          rw here (
            record {
              queue = Queued-touch max_open_partitions p.writers key p.lru kept.queue here;
              opened = kept.opened;
              held = kept.held;
            },
            there,
          )

      module _ (positive : 0 < max_open_partitions) where
        pub ready-Ready :
            (key : Text) (p : Pool Batch)
            → Key key
            → Kept written p
            → After
                (Ready written key)
                Bounded
                (ready Batch disk output_dir partition_by max_open_partitions key p)
        unfolding ready
        ready-Ready key p known kept = elim (Bool-cases (contains_key key p.writers)) [
          | inl there ↦ rw there (touch-Ready key p kept there)
          | inr absent ↦ rw absent (
              After-bind (Room written key) (Ready written key) Bounded
                (λ _. open_partition Batch disk output_dir partition_by max_open_partitions key)
                (evict Batch disk output_dir partition_by max_open_partitions p)
                (evict-Room Batch disk output_dir partition_by max_open_partitions Key positive
                  written key p kept absent)
                (λ q room. open_partition-Ready key q known room))
        ]
