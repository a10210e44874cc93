-- ===== src/Storage/Publication.antt =====
-- crates/parqonaut-storage/src/publication.rs: the states of a publication and its session.
pub mod Reads
pub mod Session
pub mod Opening
pub mod Backing
pub mod Consistency
pub mod Calls
pub mod Marking
pub mod Begin
pub mod Commits
pub mod Traces
pub mod Recovery
pub mod Immutable
pub mod Steps
use parqonaut.Prelude.{ℕ, ◌≡◌, Bool, true, false, leb, ◌&&◌, Option, none, Text}
use parqonaut.Storage.Errors.{PublicationState}
use parqonaut.Storage.Location.{DatasetLocation}
use parqonaut.Storage.Locking.{RemotePublicationLock}

unfoldable pub allows_transition : PublicationState → PublicationState → Bool
allows_transition PublicationState.preparing PublicationState.preparing = true
allows_transition PublicationState.preparing PublicationState.uploading = true
allows_transition PublicationState.uploading PublicationState.uploading = true
allows_transition PublicationState.uploading PublicationState.uploaded = true
allows_transition PublicationState.uploaded PublicationState.verified = true
allows_transition PublicationState.verified PublicationState.manifest_written = true
allows_transition PublicationState.manifest_written PublicationState.committed = true
allows_transition PublicationState.committed PublicationState.current = true
allows_transition _ _ = false

unfoldable pub ordinal : PublicationState → ℕ
ordinal PublicationState.preparing = 0
ordinal PublicationState.uploading = 1
ordinal PublicationState.uploaded = 2
ordinal PublicationState.verified = 3
ordinal PublicationState.manifest_written = 4
ordinal PublicationState.committed = 5
ordinal PublicationState.current = 6

-- The derived `PartialEq`: the ordinals of two states differ when the states do.
unfoldable pub state_eq : PublicationState → PublicationState → Bool
unfolding ordinal
state_eq a b = leb (ordinal a) (ordinal b) && leb (ordinal b) (ordinal a)

-- `RemotePublicationSession`; its backend is the platform's, passed along with its store.
pub record RemotePublicationSession : Type 0 where
  pub dataset : DatasetLocation
  pub version_id : Text
  pub run_id : Text
  pub state : PublicationState
  pub lock : Option RemotePublicationLock

-- `session.state = state`.
abbrev pub set_state : RemotePublicationSession → PublicationState → RemotePublicationSession
set_state se st = record {
  dataset = se.dataset;
  version_id = se.version_id;
  run_id = se.run_id;
  state = st;
  lock = se.lock;
}

-- `lock.take()`.
abbrev pub take_lock : RemotePublicationSession → RemotePublicationSession
take_lock se = record {
  dataset = se.dataset;
  version_id = se.version_id;
  run_id = se.run_id;
  state = se.state;
  lock = none;
}
