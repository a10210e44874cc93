-- ===== src/Storage/Freeing.antt =====
-- The writer lock of crates/parqonaut-storage/src/locking.rs over its life, from `acquire` to
-- `release`.
use parqonaut.Prelude.{◌≡◌, none, Text}
use parqonaut.Storage.Location.{DatasetLocation}
use parqonaut.Storage.Keys.{writer_lock_key}
use parqonaut.Storage.Records.{Platform}
use parqonaut.Storage.Effects.{at, Elsewhere}

module _ (p : Platform) (ds : DatasetLocation) (run_id : Text) where
  open p use {S, backend}

  -- Nothing is under the lock's key, and every other key holds what it held.
  pub record Freed (s t : S) : Type 0 where
    pub elsewhere : Elsewhere p ds s t writer_lock_key
    pub gone : at p ds t writer_lock_key ≡ none
