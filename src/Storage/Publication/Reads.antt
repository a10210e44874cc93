-- ===== src/Storage/Publication/Reads.antt =====
-- The reads of crates/parqonaut-storage/src/publication.rs: whether a version is committed, which one
-- is current and which state a publication is in.
use parqonaut.Prelude.{
  ℕ, Bool, true, false, Option, none, some, Result, ok, err, ◌>>=◌, if◌then◌else◌, leb, Text,
  text_eq,
}
use parqonaut.Storage.Errors.{StorageError, PublicationState, PublicationError}
use parqonaut.Storage.Location.{DatasetLocation}
use parqonaut.Storage.Backend.{ObjectMetadata}
use parqonaut.Storage.Keys.{current_key, version_state_key, version_commit_key}
use parqonaut.Storage.Records.{
  PublicationStateRecord, CurrentPointer, Platform, read_json_object, publication_contract_version,
}
use parqonaut.Storage.Locking.{resolve}
use parqonaut.Storage.Publication.{ordinal}

-- `NotFound` is an answer, and any other error is an error.
abbrev pub found : Result StorageError ObjectMetadata → Result PublicationError Bool
found (ok _) = ok true
found (err (StorageError.not_found _)) = ok false
found (err e) = err (PublicationError.storage e)

abbrev pub optional : {A : Type 0} → Result PublicationError A → Result PublicationError (Option A)
optional (ok a) = ok (some a)
optional (err (PublicationError.storage (StorageError.not_found _))) = ok none
optional (err e) = err e

-- `as_deref() == Some(version_id)`.
abbrev pub is_current : Option CurrentPointer → Text → Bool
is_current none version_id = false
is_current (some pointer) version_id = text_eq pointer.version_id version_id

-- The state that `observed_state` reports for a record without a commit marker.
unfoldable pub demoted : Option PublicationStateRecord → Option PublicationState
unfolding ordinal
demoted none = none
demoted (some record_read) =
    if leb (ordinal PublicationState.committed) (ordinal record_read.state)
    then some PublicationState.manifest_written
    else some record_read.state

module _ (p : Platform) where
  open p use {S, backend, state_json, current_json}

  unfoldable pub is_version_committed : S → DatasetLocation → Text → Result PublicationError Bool
  unfolding resolve
  is_version_committed s dataset version_id = do
    object ← resolve p dataset (version_commit_key version_id)
    found (backend.head s object)

  -- `read_current_version`, with the pointer for its version.
  unfoldable pub read_current_version :
      S → DatasetLocation → Result PublicationError (Option CurrentPointer)
  unfolding resolve
  read_current_version s dataset = do
    object ← resolve p dataset current_key
    optional (read_json_object backend current_json s object)

  unfoldable pub read_state_record :
      S → DatasetLocation → Text → Result PublicationError (Option PublicationStateRecord)
  unfolding resolve
  read_state_record s dataset version_id = do
    object ← resolve p dataset (version_state_key version_id)
    optional (read_json_object backend state_json s object)

  -- `Current` or `Committed`, for a version that has its marker.
  unfoldable pub marked_state :
      S → DatasetLocation → Text → Result PublicationError PublicationState
  unfolding read_current_version
  marked_state s dataset version_id = do
    current ← read_current_version s dataset
    ok (
        if is_current current version_id
        then PublicationState.current
        else PublicationState.committed)

  unfoldable pub observed_state :
      S → DatasetLocation → Text → Result PublicationError (Option PublicationState)
  unfolding is_version_committed marked_state read_state_record demoted
  observed_state s dataset version_id = do
    committed ← is_version_committed s dataset version_id
    if committed
        then marked_state s dataset version_id >>= (λ st. ok (some st))
        else do record_read ← read_state_record s dataset version_id; ok (demoted record_read)

  abbrev pub derived_record : ℕ → Text → PublicationState → PublicationStateRecord
  derived_record now version_id st = record {
    parqonaut_publication_version = publication_contract_version;
    version_id = version_id;
    run_id = version_id;
    state = st;
    updated_at = now;
  }

  unfoldable pub load_recovered_state :
      ℕ → S → DatasetLocation → Text → Result PublicationError (Option PublicationStateRecord)
  unfolding is_version_committed marked_state read_state_record
  load_recovered_state now s dataset version_id = do
    committed ← is_version_committed s dataset version_id
    if committed
        then marked_state s dataset version_id
          >>= (λ st. ok (some (derived_record now version_id st)))
        else read_state_record s dataset version_id
