-- ===== src/Storage/Publication/Opening.antt =====
-- `begin` of crates/parqonaut-storage/src/publication.rs, which opens a session.
use parqonaut.Prelude.{ℕ, Option, none, some, Result, ok, err, if◌then◌else◌, Text}
use parqonaut.Prelude.Eff.{Eff, ◌>>=◌}
use parqonaut.Storage.Errors.{PublicationState, PublicationError}
use parqonaut.Storage.Location.{DatasetLocation}
use parqonaut.Storage.Records.{PublicationStateRecord, Platform}
use parqonaut.Storage.Locking.{RemotePublicationLock, acquire}
use parqonaut.Storage.Publication.{RemotePublicationSession, state_eq}
use parqonaut.Storage.Publication.Reads.{load_recovered_state}
use parqonaut.Storage.Publication.Session.{World, persist_state}

module _ (p : Platform) where
  open p use {S}

  abbrev pub recovered : Option PublicationStateRecord → PublicationState
  recovered none = PublicationState.preparing
  recovered (some record_read) = record_read.state

  -- The session that `begin` returns.
  abbrev pub started :
      World p × Result PublicationError (Unit {0})
      → S × Result PublicationError RemotePublicationSession
  started (w, ok _) = (w.0, ok w.1)
  started (w, err e) = (w.0, err e)

  -- `begin` once it has the lock.
  unfoldable pub begin_with :
      ℕ
      → DatasetLocation
      → Text
      → RemotePublicationLock
      → S
      → PublicationState
      → S × Result PublicationError RemotePublicationSession
  unfolding persist_state state_eq
  begin_with now dataset run_id lock s st =
      let se : RemotePublicationSession = record {
        dataset = dataset;
        version_id = lock.document.run_id;
        run_id = run_id;
        state = st;
        lock = some lock;
      } in
      if state_eq st PublicationState.preparing
      then started (persist_state p now PublicationState.preparing (s, se))
      else (s, ok se)

  unfoldable pub begin_locked :
      ℕ
      → DatasetLocation
      → Text
      → RemotePublicationLock
      → Eff PublicationError S RemotePublicationSession
  unfolding load_recovered_state begin_with
  begin_locked now dataset run_id lock = do
    record_read ← λ s. (s, load_recovered_state p now s dataset lock.document.run_id)
    λ s. begin_with now dataset run_id lock s (recovered record_read)

  unfoldable pub begin :
      ℕ → DatasetLocation → Text → Eff PublicationError S RemotePublicationSession
  unfolding acquire begin_locked
  begin now dataset run_id = do
    lock ← acquire p dataset run_id
    begin_locked now dataset run_id lock
