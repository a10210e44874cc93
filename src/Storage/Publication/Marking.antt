-- ===== src/Storage/Publication/Marking.antt =====
-- `commit`, `promote_current`, `abandon` and `finish` of crates/parqonaut-storage/src/publication.rs
-- keep the version consistent, on success and on every failure.
use parqonaut.Prelude.{
  ℕ, ◌≤◌, ◌≡◌, Bool, true, false, some, none, ok, arith, Text, Result-cases, Bool-cases,
  Option-cases, inl, inr,
}
use parqonaut.Prelude.Eff.{Post-if, Post-pure, bind_result, pure, ◌>>=◌, ◌>>◌}
use parqonaut.Storage.Errors.{PublicationState}
use parqonaut.Storage.Location.{DatasetLocation, ObjectLocation, object_at}
use parqonaut.Storage.Keys.{
  current_key, version_commit_key, writer_lock_key, current-IsDotted, commit-IsDotted,
  lock-IsDotted, VersionKey, state-ne-commit,
}
use parqonaut.Storage.Records.{CommitMarker, CurrentPointer, Platform, to_json}
use parqonaut.Storage.Locking.{RemotePublicationLock, resolve, release, call}
use parqonaut.Storage.Effects.{
  Unchanged, Wrote, Wrote-here, Wrote-Elsewhere, delete-Post, resolve-ok,
}
use parqonaut.Storage.Publication.{RemotePublicationSession, ordinal, state_eq, take_lock}
use parqonaut.Storage.Publication.Reads.{is_version_committed}
use parqonaut.Storage.Publication.Session.{
  World, persist_state, persist_committed, write_marker, commit, promote_current, on_store,
  release_lock, overwrite, abandon, commit_pending, promote_pending, finish,
}
use parqonaut.Storage.Publication.Backing.{
  Present, Backed-Wrote, Backed-marked, Backed-lock, Consistent-current, Consistent-lock,
  Present-Wrote,
}
use parqonaut.Storage.Publication.Consistency.{
  Sound, Sound-Unchanged, persist_state-Sound, on_store-Post, overwrite-Post, bind-Post,
}
use parqonaut.Storage.Publication.Calls.{
  Keeps, create_object-Sound, committed-Present, manifest_written_ordinal,
}

module _ (p : Platform) (d : DatasetLocation) (v : Text) where
  open p use {Bytes, S, backend, join, commit_json, current_json}

  abbrev marker_of : ℕ → RemotePublicationSession → CommitMarker
  marker_of now se = record { version_id = se.version_id; run_id = se.run_id; committed_at = now }

  abbrev pointer_to : RemotePublicationSession → CurrentPointer
  pointer_to se = record { version_id = se.version_id }

  persist_committed-Sound :
      (now : ℕ) (w : World p)
      → Sound p d v w
      → Present p w.1.dataset w.1.version_id w.0 (version_commit_key w.1.version_id)
      → Keeps p d v (persist_committed p now w)
  unfolding persist_committed
  persist_committed-Sound now (s, se) h marker =
      bind-Post p (λ _ u. Sound p d v u) (λ _ u. Sound p d v u) (Sound p d v)
        (persist_state p now PublicationState.committed) (λ _. pure true) (s, se)
        (persist_state-Sound p d v now PublicationState.committed (s, se) h
          (Backed-marked p se.dataset se.version_id h.consistent marker))
        (λ _ u k. k)

  -- The marker is written last, over the manifest that the session's state stands for.
  write_marker-Sound :
      (now : ℕ) (w : World p)
      → 4 ≤ ordinal w.1.state
      → Sound p d v w
      → Keeps p d v (write_marker p now w)
  unfolding write_marker
  write_marker-Sound now (s, se) written h =
      elim (Result-cases (resolve p se.dataset (version_commit_key se.version_id))) [
        | inr (x, e) ↦ rw (e, bind_result) h
        | inl (o, e) ↦ elim (Result-cases (to_json commit_json (marker_of now se))) [
          | inr (x, f) ↦ rw (e, f, bind_result) h
          | inl (payload, f) ↦
              rw (e, f, bind_result)
                (create_object-Sound p d v (version_commit_key se.version_id) o payload s se
                  (λ _. persist_committed p now) VersionKey.commit (commit-IsDotted se.version_id)
                  (state-ne-commit se.version_id) (λ _. h.backed.manifest written) e h
                  (λ m t w k.
                    persist_committed-Sound now (t, se) k
                      (payload, Wrote-here p se.dataset w (commit-IsDotted se.version_id))))
        ]
      ]

  pub commit-Sound : (now : ℕ) (w : World p) → Sound p d v w → Keeps p d v (commit p now w)
  unfolding commit
  commit-Sound now (s, se) h =
      elim (Bool-cases (state_eq se.state PublicationState.manifest_written)) [
        | inr other ↦ rw other h
        | inl written ↦ elim (Result-cases (is_version_committed p s se.dataset se.version_id)) [
          | inr (x, e) ↦ rw (written, e, bind_result) h
          | inl (true, e) ↦
              rw (written, e, bind_result)
                (record {
                  consistent = h.consistent;
                  backed =
                      Backed-marked p se.dataset se.version_id h.consistent
                        (committed-Present p s se.dataset se.version_id e);
                  locked = h.locked;
                  dataset = h.dataset;
                  version = h.version;
                })
          | inl (false, e) ↦
              rw (written, e, bind_result)
                (write_marker-Sound now (s, se)
                  (let four = manifest_written_ordinal se.state written in ground arith) h)
        ]
      ]

  point-Sound :
      (now : ℕ) (o : ObjectLocation) (payload : Bytes) (s : S) (se : RemotePublicationSession)
      → resolve p se.dataset current_key ≡ ok o
      → Present p se.dataset se.version_id s (version_commit_key se.version_id)
      → Sound p d v (s, se)
      → Keeps p d v (
          bind_result
            (λ _. persist_state p now PublicationState.current)
            (on_store p (overwrite p o payload) (s, se)))
  point-Sound now o payload s se here marker h =
      on_store-Post p (λ _ t. Wrote p se.dataset s t current_key (some payload))
        (λ t. Unchanged p se.dataset s t) (λ _ u. Sound p d v u) (Sound p d v)
        (overwrite p o payload) (λ _. persist_state p now PublicationState.current) s se
        (overwrite-Post p se.dataset current_key o current-IsDotted
          (resolve-ok p se.dataset current_key o here) payload s)
        (λ _ t w.
          let kept = Consistent-current p se.dataset se.version_id w marker h.consistent in
          persist_state-Sound p d v now PublicationState.current (t, se)
            (record {
              consistent = kept;
              backed = Backed-Wrote p se.dataset se.version_id w h.backed;
              locked = h.locked;
              dataset = h.dataset;
              version = h.version;
            })
            (Backed-marked p se.dataset se.version_id kept
              (Present-Wrote p se.dataset se.version_id w (commit-IsDotted se.version_id) marker)))
        (λ t same. Sound-Unchanged p d v same h)

  pub promote_current-Sound :
      (now : ℕ) (w : World p) → Sound p d v w → Keeps p d v (promote_current p now w)
  unfolding promote_current
  promote_current-Sound now (s, se) h =
      elim (Result-cases (is_version_committed p s se.dataset se.version_id)) [
        | inr (x, e) ↦ rw (e, bind_result) h
        | inl (false, e) ↦ rw (e, bind_result) h
        | inl (true, e) ↦ elim (Result-cases (resolve p se.dataset current_key)) [
          | inr (x, f) ↦ rw (e, f, bind_result) h
          | inl (o, f) ↦ elim (Result-cases (to_json current_json (pointer_to se))) [
            | inr (x, g) ↦ rw (e, f, g, bind_result) h
            | inl (payload, g) ↦
                rw (e, f, g, bind_result)
                  (point-Sound now o payload s se f
                    (committed-Present p s se.dataset se.version_id e) h)
          ]
        ]
      ]

  release-Sound :
      (l : RemotePublicationLock) (s : S) (se : RemotePublicationSession)
      → object_at join se.dataset writer_lock_key ≡ ok l.lock_object
      → Sound p d v (s, se)
      → Keeps p d v (on_store p (release p l) (s, se))
  unfolding release
  release-Sound l s se here h = elim (Bool-cases l.released) [
    | inl gone ↦ rw gone h
    | inr held ↦ rw held (
        Post-pure (λ _ u. Sound p d v u) (Sound p d v)
          (on_store p (call (λ t. backend.delete_owned t l.lock_object)) (s, se))
          (on_store-Post p (λ _ t. Wrote p se.dataset s t writer_lock_key none)
            (λ t. Unchanged p se.dataset s t) (λ _ u. Sound p d v u) (Sound p d v)
            (call (λ t. backend.delete_owned t l.lock_object)) pure s se
            (delete-Post p se.dataset writer_lock_key l.lock_object lock-IsDotted here s)
            (λ _ t w. record {
              consistent =
                  Consistent-lock p se.dataset se.version_id (Wrote-Elsewhere p se.dataset w)
                    h.consistent;
              backed =
                  Backed-lock p se.dataset se.version_id (Wrote-Elsewhere p se.dataset w) h.backed;
              locked = h.locked;
              dataset = h.dataset;
              version = h.version;
            })
            (λ t same. Sound-Unchanged p d v same h)))
  ]

  pub abandon-Sound : (w : World p) → Sound p d v w → Keeps p d v (abandon p w)
  unfolding abandon release_lock
  abandon-Sound (s, se) h =
      let taken : Sound p d v (s, take_lock se) = record {
        consistent = h.consistent;
        backed = h.backed;
        locked = λ l e. absurd (ground arith);
        dataset = h.dataset;
        version = h.version;
      } in
      elim (Option-cases se.lock) [
        | inl gone ↦ rw gone taken
        | inr (l, e) ↦ rw e (release-Sound l s (take_lock se) (h.locked l e) taken)
      ]

  commit_pending-Sound :
      (now : ℕ) (w : World p) → Sound p d v w → Keeps p d v (commit_pending p now w)
  unfolding commit_pending
  commit_pending-Sound now (s, se) h =
      Post-if (λ _ u. Sound p d v u) (Sound p d v)
        (state_eq se.state PublicationState.manifest_written) (commit p now >>= (λ _. pure tt))
        (pure tt) (s, se)
        (λ written.
          bind-Post p (λ _ u. Sound p d v u) (λ _ u. Sound p d v u) (Sound p d v) (commit p now)
            (λ _. pure tt) (s, se) (commit-Sound now (s, se) h) (λ _ u k. k))
        (λ other. h)

  promote_pending-Sound :
      (now : ℕ) (promote : Bool) (w : World p)
      → Sound p d v w
      → Keeps p d v (promote_pending p now promote w)
  unfolding promote_pending
  promote_pending-Sound now true w h = promote_current-Sound now w h
  promote_pending-Sound now false w h = h

  pub finish-Sound :
      (now : ℕ) (promote : Bool) (w : World p)
      → Sound p d v w
      → Keeps p d v (finish p now promote w)
  unfolding finish
  finish-Sound now promote w h =
      bind-Post p (λ _ u. Sound p d v u) (λ _ u. Sound p d v u) (Sound p d v) (commit_pending p now)
        (λ _. promote_pending p now promote >> abandon p) w (commit_pending-Sound now w h)
        (λ _ u k.
          bind-Post p (λ _ x. Sound p d v x) (λ _ x. Sound p d v x) (Sound p d v)
            (promote_pending p now promote) (λ _. abandon p) u
            (promote_pending-Sound now promote u k) (λ _ x l. abandon-Sound x l))
