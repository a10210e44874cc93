-- ===== src/Storage/Exclusion.antt =====
-- The writer lock of crates/parqonaut-storage/src/locking.rs keeps other runs out.
use parqonaut.Prelude.{◌≡◌, ◌≢◌, some, Result, ok, Text}
use parqonaut.Prelude.Eff.{Post}
use parqonaut.Storage.Errors.{PublicationError}
use parqonaut.Storage.Location.{DatasetLocation, ObjectLocation, object_at}
use parqonaut.Storage.Keys.{writer_lock_key}
use parqonaut.Storage.Records.{WriterLockRecord, Platform}
use parqonaut.Storage.Locking.{RemotePublicationLock}
use parqonaut.Storage.Effects.{at, Unchanged}

module _ (p : Platform) (ds : DatasetLocation) (run_id : Text) where
  open p use {Bytes, S, backend, join, lock_json}

  -- Another run's record is under the lock's key.
  pub record HeldByOther (s : S) : Type 0 where
    pub bytes : Bytes
    pub owner : WriterLockRecord
    pub there : at p ds s writer_lock_key ≡ some bytes
    pub reads : lock_json.from_slice bytes ≡ some owner
    pub other : owner.run_id ≢ run_id

  abbrev document : WriterLockRecord
  document = record { run_id = run_id; version_id = run_id }

  module _ (s : S) (held : HeldByOther s) (o : ObjectLocation)
      (here : object_at join ds writer_lock_key ≡ ok o) where
    -- The call fails, and nothing has changed since `s`.
    abbrev Refused : S × Result PublicationError RemotePublicationLock → Type 0
    Refused = Post (λ _ _. ⊥) (λ t. Unchanged p ds s t)
