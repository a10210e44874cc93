-- ===== src/Storage/Checks/Locks.antt =====
-- The writer lock of crates/parqonaut-storage/src/locking.rs at concrete stores.
use parqonaut.Prelude.{arith, trim_start, contains, starts_with, get}
use parqonaut.Storage.Checks.Platforms.{platform, bucket, run, other_run, empty}
use parqonaut.Storage.Locking.{acquire}
use parqonaut.Storage.Exclusion.{HeldByOther}
use parqonaut.Storage.Memory.{conditional_create, object_name}
use parqonaut.Storage.Records.{to_json}
use parqonaut.Storage.Ownership.{Owned, lock_record, acquire-Acquires}
use parqonaut.Storage.Location.{object_at}

-- The store after another run has acquired the lock.
abbrev held_store : platform.S
unfolding acquire
held_store = (acquire platform bucket other_run empty).0

held : HeldByOther platform bucket run held_store
unfolding acquire to_json object_at trim_start contains starts_with conditional_create get
    object_name
held =
    let owned : Owned platform bucket other_run empty _ held_store =
      acquire-Acquires platform bucket other_run empty in
    record {
      bytes = owned.bytes;
      owner = lock_record platform bucket other_run;
      there = owned.there;
      reads = owned.reads;
      other = λ e. ground arith;
    }
