-- ===== src/Storage/Locking.antt =====
-- crates/parqonaut-storage/src/locking.rs: the writer lock of a dataset. The lock's record is written
-- to `.parqonaut/writer.lock`; only its own run may take it over.
use parqonaut.Prelude.{
  Bool, false, not, if◌then◌else◌, Result, ok, err, map_err, Text, codes, text_eq,
}
use parqonaut.Prelude.Eff.{Eff, pure, throw, lift, ◌>>=◌, ◌>>◌}
use parqonaut.Storage.Errors.{StorageError, PublicationError}
use parqonaut.Storage.Location.{DatasetLocation, ObjectLocation, object_at}
use parqonaut.Storage.Backend.{ObjectMetadata, must_not_exist}
use parqonaut.Storage.Keys.{writer_lock_key}
use parqonaut.Storage.Records.{WriterLockRecord, Platform, to_json, read_json_object}

pub record RemotePublicationLock : Type 0 where
  pub lock_object : ObjectLocation
  pub document : WriterLockRecord
  pub released : Bool

-- A storage call under `?`: its error becomes a publication error.
abbrev pub raise :
    {S : Type 0} {A : Type 0} → S × Result StorageError A → S × Result PublicationError A
raise (s, ok a) = (s, ok a)
raise (s, err e) = (s, err (PublicationError.storage e))

abbrev pub call : {S A : Type 0} → (S → S × Result StorageError A) → Eff PublicationError S A
call f s = raise (f s)

module _ (p : Platform) where
  open p use {S, backend, join, lock_json}

  unfoldable pub resolve : DatasetLocation → Text → Result PublicationError ObjectLocation
  resolve dataset relative = map_err PublicationError.storage (object_at join dataset relative)

  -- The lock's record, written anew.
  unfoldable pub recreate :
      ObjectLocation → WriterLockRecord → Eff PublicationError S RemotePublicationLock
  recreate lock_object document = do
    payload ← lift (to_json lock_json document)
    _ ← call (λ s. backend.create s lock_object must_not_exist payload)
    pure (record { lock_object = lock_object; document = document; released = false })

  unfoldable pub reclaim_or_reject :
      ObjectLocation → WriterLockRecord → Eff PublicationError S RemotePublicationLock
  unfolding recreate
  reclaim_or_reject lock_object document = do
    existing ← λ s. (s, read_json_object backend lock_json s lock_object)
    if not (text_eq existing.run_id document.run_id)
        then throw (PublicationError.lock_held existing.run_id)
        else do call (λ s. backend.delete_owned s lock_object); recreate lock_object document

  -- The match of `acquire` on the result of the conditional create.
  unfoldable pub acquired :
      ObjectLocation
      → WriterLockRecord
      → S × Result StorageError ObjectMetadata
      → S × Result PublicationError RemotePublicationLock
  unfolding reclaim_or_reject
  acquired lock_object document (s, ok _) =
      (s, ok (record { lock_object = lock_object; document = document; released = false }))
  acquired lock_object document (s, err (StorageError.conflict _)) =
      reclaim_or_reject lock_object document s
  acquired lock_object document (s, err e) = (s, err (PublicationError.storage e))

  -- `acquire` once the backend is known to create conditionally.
  unfoldable pub acquire_with :
      DatasetLocation → Text → Eff PublicationError S RemotePublicationLock
  unfolding resolve acquired
  acquire_with dataset run_id = do
    let document : WriterLockRecord = record { run_id = run_id; version_id = run_id }
    lock_object ← lift (resolve dataset writer_lock_key)
    payload ← lift (to_json lock_json document)
    λ s. acquired lock_object document (backend.create s lock_object must_not_exist payload)

  unfoldable pub acquire : DatasetLocation → Text → Eff PublicationError S RemotePublicationLock
  unfolding acquire_with
  acquire dataset run_id =
      if not backend.capabilities.conditional_create
      then throw
          (PublicationError.unsupported (codes "backend lacks conditional_create for writer locks"))
      else acquire_with dataset run_id

  unfoldable pub release : RemotePublicationLock → Eff PublicationError S (Unit {0})
  release lock =
      if lock.released then pure tt else call (λ s. backend.delete_owned s lock.lock_object)
