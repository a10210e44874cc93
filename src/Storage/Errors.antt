-- ===== src/Storage/Errors.antt =====
-- crates/parqonaut-storage/src/error.rs, and the errors of publication.rs.
use parqonaut.Prelude.{Text}

pub data RetryClass : Type 0 where
  never_retry retryable : RetryClass

pub data StorageError : Type 0 where
  not_found permission_denied conflict precondition_failed transient : Text → StorageError
  unavailable invalid_location unsupported_capability io other : Text → StorageError
  authentication : StorageError

pub retry_class : StorageError → RetryClass
retry_class (StorageError.transient _) = RetryClass.retryable
retry_class (StorageError.unavailable _) = RetryClass.retryable
retry_class _ = RetryClass.never_retry

pub data PublicationState : Type 0 where
  preparing uploading uploaded verified manifest_written committed current : PublicationState

pub data PublicationError : Type 0 where
  storage : StorageError → PublicationError
  lock_held : Text → PublicationError
  invalid_transition : PublicationState → PublicationState → PublicationError
  incomplete : Text → PublicationError
  unsupported : Text → PublicationError
