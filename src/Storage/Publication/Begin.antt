-- ===== src/Storage/Publication/Begin.antt =====
-- `RemotePublicationSession::begin` of crates/parqonaut-storage/src/publication.rs resumes a version in
-- a state that the store bears out.
use parqonaut.Prelude.{
  ℕ, ◌≤◌, ◌≡◌, refl, sym, ap, ◌∙◌, subst, true, false, Option, some, Result, ok, err, arith, Text,
  Result-cases, Bool-cases, Option-cases, inl, inr,
}
use parqonaut.Prelude.Eff.{Post, Post-bind, Post-weaken, bind_result}
use parqonaut.Storage.Errors.{StorageError, PublicationState, PublicationError}
use parqonaut.Storage.Location.{DatasetLocation, object_at}
use parqonaut.Storage.Keys.{version_state_key, state-IsDotted, writer_lock_key}
use parqonaut.Storage.Records.{PublicationStateRecord, Platform, read_json_object}
use parqonaut.Storage.Locking.{RemotePublicationLock, resolve, acquire}
use parqonaut.Storage.Effects.{at, Elsewhere, read_json_object-ok, resolve-ok}
use parqonaut.Storage.Ownership.{Owned, acquire-Acquires}
use parqonaut.Storage.Publication.Steps.{Recorded, Still, persist_state-Recorded}
use parqonaut.Storage.Publication.{RemotePublicationSession, set_state, ordinal, state_eq}
use parqonaut.Storage.Publication.Reads.{
  is_version_committed, read_state_record, load_recovered_state,
}
use parqonaut.Storage.Publication.Session.{World, persist_state}
use parqonaut.Storage.Publication.Opening.{begin_with, begin_locked, begin, started, recovered}
use parqonaut.Storage.Publication.Backing.{
  Backed, Consistent, Backed-early, Backed-marked, Consistent-lock,
}
use parqonaut.Storage.Publication.Consistency.{Sound, persist_state-Sound}
use parqonaut.Storage.Publication.Calls.{committed-Present}

same_lock : {l m : RemotePublicationLock} → some l ≡ some m → l ≡ m
same_lock e = cc

preparing_early : ordinal PublicationState.preparing ≤ 3
unfolding ordinal
preparing_early = ground arith

module _ (p : Platform) (ds : DatasetLocation) (v : Text) where
  open p use {Bytes, S, backend, join, state_json}

  -- A state record that reads was recorded.
  read_state_record-ok :
      (s : S) (r : PublicationStateRecord)
      → read_state_record p s ds v ≡ ok (some r)
      → (b : Bytes) × (at p ds s (version_state_key v) ≡ some b)
        × (state_json.from_slice b ≡ some r)
  unfolding read_state_record
  read_state_record-ok s r h = elim (Result-cases (resolve p ds (version_state_key v))) [
    | inr (x, e) ↦ absurd (ground arith)
    | inl (o, e) ↦ elim (Result-cases (read_json_object backend state_json s o)) [
      | inl (q, f) ↦
          let same : q ≡ r = ground arith in
          read_json_object-ok p ds (version_state_key v) o (state-IsDotted v)
            (resolve-ok p ds (version_state_key v) o e) state_json s r (f ∙ ap ok same)
      | inr (PublicationError.storage (StorageError.not_found t), f) ↦ absurd (ground arith)
      | inr (x, f) ↦ absurd (ground arith)
    ]
  ]

  load_recovered_state-Backed :
      (now : ℕ) (s : S) (r : Option PublicationStateRecord)
      → Consistent p ds v s
      → load_recovered_state p now s ds v ≡ ok r
      → Backed p ds v s (recovered p r)
  unfolding load_recovered_state
  load_recovered_state-Backed now s r h e = elim (Result-cases (is_version_committed p s ds v)) [
    | inr (x, f) ↦ absurd (ground arith)
    | inl (true, f) ↦ Backed-marked p ds v h (committed-Present p s ds v f)
    | inl (false, f) ↦ elim (Option-cases r) [
      | inl gone ↦ rw gone (Backed-early p ds v PublicationState.preparing preparing_early)
      | inr (q, g) ↦
          let (b, there, reads) = read_state_record-ok s q (ground arith) in
          rw g (h.recorded b q there reads)
    ]
  ]

  pub Sound-Consistent : {w : World p} → Sound p ds v w → Consistent p ds v w.0
  Sound-Consistent {w = w} h =
      subst (λ x. Consistent p x v (w.0)) h.dataset
        (subst (λ x. Consistent p (w.1.dataset) x (w.0)) h.version h.consistent)

  -- The session holds the writer lock of the dataset, for the run of the version.
  pub record Locked (se : RemotePublicationSession) : Type 0 where
    pub run : se.run_id ≡ v
    pub lock : RemotePublicationLock
    pub holds : se.lock ≡ some lock
    pub object : object_at join ds writer_lock_key ≡ ok lock.lock_object
    pub for_run : lock.document.run_id ≡ v

  abbrev pub Begun : S × Result PublicationError RemotePublicationSession → Type 0
  Begun = Post (λ se t. Sound p ds v (t, se) × Locked se) (Consistent p ds v)

  started-Begun :
      (r : World p × Result PublicationError (Unit {0}))
      → Post (λ _ u. Sound p ds v u) (Sound p ds v) r
      → Post (λ _ u. Locked u.1) (λ u. Unit {0}) r
      → Begun (started p r)
  started-Begun (w, ok u) h k = (h, k)
  started-Begun (w, err e) h k = Sound-Consistent h

  module _ (now : ℕ) (lock : RemotePublicationLock)
      (object : object_at join ds writer_lock_key ≡ ok lock.lock_object)
      (version : lock.document.run_id ≡ v) where
    abbrev session_at : PublicationState → RemotePublicationSession
    session_at st = record {
      dataset = ds;
      version_id = lock.document.run_id;
      run_id = v;
      state = st;
      lock = some lock;
    }

    session-Sound :
        (s : S) (st : PublicationState)
        → Consistent p ds v s
        → Backed p ds v s st
        → Sound p ds v (s, session_at st)
    session-Sound s st h back = record {
      consistent = subst (λ x. Consistent p ds x s) (sym version) h;
      backed = subst (λ x. Backed p ds x s st) (sym version) back;
      locked = λ l e. rw (← same_lock e) object;
      dataset = refl;
      version = version;
    }

    session-Locked : (st : PublicationState) → Locked (session_at st)
    session-Locked st = record {
      run = refl;
      lock = lock;
      holds = refl;
      object = object;
      for_run = version;
    }

    -- The first state record is written under the lock.
    first-Locked :
        (s : S) (st : PublicationState)
        → Post
            (λ _ u. Locked u.1)
            (λ u. Unit {0})
            (persist_state p now PublicationState.preparing (s, session_at st))
    first-Locked s st =
        Post-weaken
          (λ _ u.
            (u.1 ≡ set_state (session_at st) PublicationState.preparing)
            × Recorded p now PublicationState.preparing s (session_at st) u.0)
          (λ _ u. Locked u.1) (Still p now PublicationState.preparing s (session_at st))
          (λ u. Unit {0}) (persist_state p now PublicationState.preparing (s, session_at st))
          (λ _ u (same, recorded).
            subst Locked (sym same) (session-Locked PublicationState.preparing))
          (λ u still. tt)
          (persist_state-Recorded p now PublicationState.preparing s (session_at st))

    begin_with-Begun :
        (s : S) (st : PublicationState)
        → Consistent p ds v s
        → Backed p ds v s st
        → Begun (begin_with p now ds v lock s st)
    unfolding begin_with
    begin_with-Begun s st h back = elim (Bool-cases (state_eq st PublicationState.preparing)) [
      | inr later ↦ rw later (session-Sound s st h back, session-Locked st)
      | inl preparing ↦ rw preparing (
          started-Begun (persist_state p now PublicationState.preparing (s, session_at st))
            (persist_state-Sound p ds v now PublicationState.preparing (s, session_at st)
              (session-Sound s st h back)
              (Backed-early p ds lock.document.run_id PublicationState.preparing preparing_early))
            (first-Locked s st))
    ]

    begin_locked-Begun : (s : S) → Consistent p ds v s → Begun (begin_locked p now ds v lock s)
    unfolding begin_locked
    begin_locked-Begun s h =
        elim (Result-cases (load_recovered_state p now s ds lock.document.run_id)) [
          | inr (x, e) ↦ rw (e, bind_result) h
          | inl (r, e) ↦
              rw (e, bind_result)
                (begin_with-Begun s (recovered p r) h
                  (load_recovered_state-Backed now s r h (rw (← version) e)))
        ]

  pub begin-Begun : (now : ℕ) (s : S) → Consistent p ds v s → Begun (begin p now ds v s)
  unfolding begin
  begin-Begun now s h =
      Post-bind (Owned p ds v s) (λ se t. Sound p ds v (t, se) × Locked se) (Consistent p ds v)
        (λ lock. begin_locked p now ds v lock) (acquire p ds v s)
        (Post-weaken (Owned p ds v s) (Owned p ds v s) (λ t. Elsewhere p ds s t writer_lock_key)
          (Consistent p ds v) (acquire p ds v s) (λ l t o. o)
          (λ t kept. Consistent-lock p ds v kept h) (acquire-Acquires p ds v s))
        (λ lock t o.
          begin_locked-Begun now lock o.object (ap (λ d. d.run_id) o.document) t
            (Consistent-lock p ds v o.elsewhere h))
