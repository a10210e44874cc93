-- ===== src/Storage/Publication/Session.antt =====
-- The operations of `RemotePublicationSession` in crates/parqonaut-storage/src/publication.rs. The
-- state is the store with the session, and `now` is the clock's answer.
use parqonaut.Prelude.{
  ℕ, Bool, true, false, not, Option, none, some, Result, ok, err, if◌then◌else◌, ltb, Text, codes,
}
use parqonaut.Prelude.Eff.{Eff, pure, throw, lift, ◌>>=◌, ◌>>◌}
use parqonaut.Storage.Errors.{StorageError, PublicationState, PublicationError}
use parqonaut.Storage.Location.{ObjectLocation}
use parqonaut.Storage.Backend.{ObjectMetadata, must_not_exist, matching}
use parqonaut.Storage.Keys.{
  current_key, version_state_key, version_manifest_key, version_commit_key, version_data_key,
}
use parqonaut.Storage.Records.{
  PublicationStateRecord, PublicationManifest, Platform, to_json, publication_contract_version,
}
use parqonaut.Storage.Locking.{RemotePublicationLock, raise, resolve, release}
use parqonaut.Storage.Publication.{
  RemotePublicationSession, allows_transition, ordinal, state_eq, set_state, take_lock,
}
use parqonaut.Storage.Publication.Reads.{is_version_committed}

module _ (p : Platform) where
  open p use {Bytes, S, backend, state_json, manifest_json, commit_json, current_json}

  abbrev pub World : Type 0
  World = S × RemotePublicationSession

  abbrev pub get_session : Eff PublicationError World RemotePublicationSession
  get_session w = (w, ok w.1)

  abbrev pub put_session : RemotePublicationSession → Eff PublicationError World (Unit {0})
  put_session se w = ((w.0, se), ok tt)

  -- A call of the backend, or of the lock, within the session.
  abbrev pub on_store : {A : Type 0} → Eff PublicationError S A → Eff PublicationError World A
  on_store m (s, se) = (((m s).0, se), (m s).1)

  -- A read of the store.
  abbrev pub observe : {A : Type 0} → (S → Result PublicationError A) → Eff PublicationError World A
  observe f (s, se) = ((s, se), f s)

  abbrev pub done :
      {A : Type 0} → S × Result StorageError A → S × Result PublicationError (Unit {0})
  done (s, ok a) = (s, ok tt)
  done (s, err e) = (s, err (PublicationError.storage e))

  -- The match on `head` in `persist_state` and in `promote_current`.
  unfoldable pub overwrite_found :
      ObjectLocation
      → Bytes
      → Result StorageError ObjectMetadata
      → Eff PublicationError S (Unit {0})
  overwrite_found object payload (ok found_head) s =
      done (backend.replace s object (matching found_head) payload)
  overwrite_found object payload (err (StorageError.not_found _)) s =
      done (backend.create s object must_not_exist payload)
  overwrite_found object payload (err e) s = (s, err (PublicationError.storage e))

  unfoldable pub overwrite : ObjectLocation → Bytes → Eff PublicationError S (Unit {0})
  unfolding overwrite_found
  overwrite object payload s = overwrite_found object payload (backend.head s object) s

  abbrev pub state_record : ℕ → RemotePublicationSession → PublicationState → PublicationStateRecord
  state_record now se st = record {
    parqonaut_publication_version = publication_contract_version;
    version_id = se.version_id;
    run_id = se.run_id;
    state = st;
    updated_at = now;
  }

  unfoldable pub persist_state : ℕ → PublicationState → Eff PublicationError World (Unit {0})
  unfolding resolve overwrite
  persist_state now st = do
    se ← get_session
    object ← lift (resolve p se.dataset (version_state_key se.version_id))
    payload ← lift (to_json state_json (state_record now se st))
    on_store (overwrite object payload)
    put_session (set_state se st)

  unfoldable pub advance_to : ℕ → PublicationState → Eff PublicationError World (Unit {0})
  unfolding persist_state allows_transition state_eq
  advance_to now next = do
    se ← get_session
    if state_eq se.state next
        then pure tt
        else if not (allows_transition se.state next)
        then throw (PublicationError.invalid_transition se.state next)
        else persist_state now next

  -- The guards of `put_version_object`.
  unfoldable pub ready_to_upload : ℕ → Eff PublicationError World (Unit {0})
  unfolding advance_to ordinal state_eq
  ready_to_upload now = do
    se ← get_session
    if ltb (ordinal se.state) (ordinal PublicationState.preparing)
        then throw (PublicationError.incomplete (codes "session not initialized"))
        else if state_eq se.state PublicationState.preparing
        then advance_to now PublicationState.uploading
        else if ltb (ordinal PublicationState.uploading) (ordinal se.state)
        then throw (PublicationError.invalid_transition se.state PublicationState.uploading)
        else pure tt

  unfoldable pub create_object : ObjectLocation → Bytes → Eff PublicationError S ObjectMetadata
  create_object object payload s = raise (backend.create s object must_not_exist payload)

  -- `put_version_object` after its guards.
  unfoldable pub upload : Text → Bytes → Eff PublicationError World ObjectMetadata
  unfolding resolve create_object
  upload relative data_bytes = do
    se ← get_session
    object ← lift (resolve p se.dataset (version_data_key se.version_id relative))
    on_store (create_object object data_bytes)

  unfoldable pub put_version_object : ℕ → Text → Bytes → Eff PublicationError World ObjectMetadata
  unfolding ready_to_upload upload
  put_version_object now relative data_bytes = do ready_to_upload now; upload relative data_bytes

  unfoldable pub mark_uploaded : ℕ → Eff PublicationError World (Unit {0})
  unfolding advance_to
  mark_uploaded now = advance_to now PublicationState.uploaded

  unfoldable pub mark_verified : ℕ → Eff PublicationError World (Unit {0})
  unfolding advance_to
  mark_verified now = advance_to now PublicationState.verified

  unfoldable pub write_manifest : ℕ → PublicationManifest → Eff PublicationError World (Unit {0})
  unfolding persist_state resolve create_object state_eq
  write_manifest now manifest = do
    se ← get_session
    if not (state_eq se.state PublicationState.verified)
        then throw (PublicationError.invalid_transition se.state PublicationState.manifest_written)
        else do
          object ← lift (resolve p se.dataset (version_manifest_key se.version_id))
          payload ← lift (to_json manifest_json manifest)
          _ ← on_store (create_object object payload)
          persist_state now PublicationState.manifest_written

  unfoldable pub persist_committed : ℕ → Eff PublicationError World Bool
  unfolding persist_state
  persist_committed now = do persist_state now PublicationState.committed; pure true

  -- `commit` for a version without a marker.
  unfoldable pub write_marker : ℕ → Eff PublicationError World Bool
  unfolding persist_committed resolve create_object
  write_marker now = do
    se ← get_session
    object ← lift (resolve p se.dataset (version_commit_key se.version_id))
    payload ← lift (
        to_json commit_json
          (record { version_id = se.version_id; run_id = se.run_id; committed_at = now }))
    _ ← on_store (create_object object payload)
    persist_committed now

  abbrev pub already_committed : RemotePublicationSession → Eff PublicationError World Bool
  already_committed se = do put_session (set_state se PublicationState.committed); pure false

  unfoldable pub commit : ℕ → Eff PublicationError World Bool
  unfolding is_version_committed write_marker state_eq
  commit now = do
    se ← get_session
    if not (state_eq se.state PublicationState.manifest_written)
        then throw (PublicationError.invalid_transition se.state PublicationState.committed)
        else do
          already ← observe (λ s. is_version_committed p s se.dataset se.version_id)
          if already then already_committed se else write_marker now

  unfoldable pub promote_current : ℕ → Eff PublicationError World (Unit {0})
  unfolding is_version_committed persist_state resolve overwrite
  promote_current now = do
    se ← get_session
    committed ← observe (λ s. is_version_committed p s se.dataset se.version_id)
    if not committed
        then throw
            (PublicationError.incomplete (codes "cannot promote uncommitted version to CURRENT"))
        else do
          object ← lift (resolve p se.dataset current_key)
          payload ← lift (to_json current_json (record { version_id = se.version_id }))
          on_store (overwrite object payload)
          persist_state now PublicationState.current

  unfoldable pub release_lock : Option RemotePublicationLock → Eff PublicationError S (Unit {0})
  unfolding release
  release_lock none = pure tt
  release_lock (some lock) = release p lock

  unfoldable pub abandon : Eff PublicationError World (Unit {0})
  unfolding release_lock
  abandon = do se ← get_session; put_session (take_lock se); on_store (release_lock se.lock)

  -- The two tests of `finish`.
  unfoldable pub commit_pending : ℕ → Eff PublicationError World (Unit {0})
  unfolding commit state_eq
  commit_pending now = do
    se ← get_session
    if state_eq se.state PublicationState.manifest_written
        then commit now >>= (λ _. pure tt)
        else pure tt

  unfoldable pub promote_pending : ℕ → Bool → Eff PublicationError World (Unit {0})
  unfolding promote_current
  promote_pending now promote = if promote then promote_current now else pure tt

  unfoldable pub finish : ℕ → Bool → Eff PublicationError World (Unit {0})
  unfolding commit_pending promote_pending abandon
  finish now promote = do commit_pending now; promote_pending now promote; abandon
