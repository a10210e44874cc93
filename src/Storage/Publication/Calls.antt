-- ===== src/Storage/Publication/Calls.antt =====
-- Each operation of `RemotePublicationSession` (crates/parqonaut-storage/src/publication.rs) keeps its
-- version consistent, on success and on every failure.
use parqonaut.Prelude.{
  ℕ, ◌≤◌, ◌≡◌, ◌∙◌, ◌≢◌, Bool, true, false, some, none, Result, ok, arith, ltb, Text, Result-cases,
  Bool-cases, inl, inr,
}
use parqonaut.Prelude.Eff.{Eff, Post, Post-pure, bind_result, pure}
use parqonaut.Storage.Errors.{StorageError, PublicationState, PublicationError}
use parqonaut.Storage.Location.{DatasetLocation, ObjectLocation}
use parqonaut.Storage.Backend.{ObjectMetadata}
use parqonaut.Storage.Keys.{
  version_state_key, version_manifest_key, version_commit_key, version_data_key, IsDotted,
  manifest-IsDotted, data-IsDotted, VersionKey, state-ne-manifest, state-ne-data, commit-ne-data,
  commit-ne-manifest,
}
use parqonaut.Storage.Contents.{content-ok}
use parqonaut.Storage.Records.{PublicationManifest, Platform, to_json}
use parqonaut.Storage.Locking.{resolve}
use parqonaut.Storage.Effects.{at, Unchanged, Wrote, Wrote-here, create-Post, resolve-ok}
use parqonaut.Storage.Publication.{RemotePublicationSession, ordinal, state_eq, allows_transition}
use parqonaut.Storage.Publication.Reads.{is_version_committed}
use parqonaut.Storage.Publication.Session.{
  World, persist_state, advance_to, ready_to_upload, create_object, upload, put_version_object,
  mark_uploaded, mark_verified, write_manifest, on_store,
}
use parqonaut.Storage.Publication.Backing.{
  Present, Backed-Wrote, Backed-early, Backed-written, Consistent-object,
}
use parqonaut.Storage.Publication.Consistency.{
  Sound, Sound-Unchanged, persist_state-Sound, on_store-Post, bind-Post,
}

pub manifest_written_ordinal :
    (a : PublicationState) → state_eq a PublicationState.manifest_written ≡ true → ordinal a ≡ 4
unfolding state_eq ordinal
manifest_written_ordinal a h = ground arith

-- The steps that `write_manifest` and `commit` take after the object that bears them out.
abbrev pub needs_object : PublicationState → Bool
needs_object PublicationState.manifest_written = true
needs_object PublicationState.committed = true
needs_object _ = false

before_current :
    (a : PublicationState) → allows_transition a PublicationState.current ≡ true → 5 ≤ ordinal a
unfolding allows_transition ordinal
before_current PublicationState.preparing h = absurd (ground arith)
before_current PublicationState.uploading h = absurd (ground arith)
before_current PublicationState.uploaded h = absurd (ground arith)
before_current PublicationState.verified h = absurd (ground arith)
before_current PublicationState.manifest_written h = absurd (ground arith)
before_current PublicationState.committed h = ground arith
before_current PublicationState.current h = absurd (ground arith)

module _ (p : Platform) (d : DatasetLocation) (v : Text) where
  open p use {Bytes, S, backend, join, manifest_json, commit_json}

  abbrev pub Keeps : {A : Type 0} → World p × Result PublicationError A → Type 0
  Keeps r = Post (λ _ u. Sound p d v u) (Sound p d v) r

  advance_to-Sound :
      (now : ℕ) (next : PublicationState) (w : World p)
      → ordinal next ≤ 3
      → Sound p d v w
      → Keeps (advance_to p now next w)
  unfolding advance_to
  advance_to-Sound now next (s, se) early h = elim (Bool-cases (state_eq se.state next)) [
    | inl same ↦ rw same h
    | inr differ ↦ elim (Bool-cases (allows_transition se.state next)) [
      | inr refused ↦ rw (differ, refused) h
      | inl allowed ↦
          rw (differ, allowed)
            (persist_state-Sound p d v now next (s, se) h
              (Backed-early p se.dataset se.version_id next early))
    ]
  ]

  to_current-Sound :
      (now : ℕ) (w : World p) → Sound p d v w → Keeps (advance_to p now PublicationState.current w)
  unfolding advance_to
  to_current-Sound now (s, se) h = elim (Bool-cases (state_eq se.state PublicationState.current)) [
    | inl same ↦ rw same h
    | inr differ ↦ elim (Bool-cases (allows_transition se.state PublicationState.current)) [
      | inr refused ↦ rw (differ, refused) h
      | inl allowed ↦
          let past : 5 ≤ ordinal se.state = before_current se.state allowed in
          rw (differ, allowed)
            (persist_state-Sound p d v now PublicationState.current (s, se) h
              (record {
                manifest = λ n. h.backed.manifest (ground arith);
                marker = λ n. h.backed.marker past;
              }))
    ]
  ]

  -- A step that is asked for by hand.
  pub step-Sound :
      (now : ℕ) (next : PublicationState) (w : World p)
      → needs_object next ≡ false
      → Sound p d v w
      → Keeps (advance_to p now next w)
  unfolding ordinal
  step-Sound now PublicationState.preparing w f h =
      advance_to-Sound now PublicationState.preparing w (ground arith) h
  step-Sound now PublicationState.uploading w f h =
      advance_to-Sound now PublicationState.uploading w (ground arith) h
  step-Sound now PublicationState.uploaded w f h =
      advance_to-Sound now PublicationState.uploaded w (ground arith) h
  step-Sound now PublicationState.verified w f h =
      advance_to-Sound now PublicationState.verified w (ground arith) h
  step-Sound now PublicationState.manifest_written w f h = absurd (ground arith)
  step-Sound now PublicationState.committed w f h = absurd (ground arith)
  step-Sound now PublicationState.current w f h = to_current-Sound now w h

  ready_to_upload-Sound : (now : ℕ) (w : World p) → Sound p d v w → Keeps (ready_to_upload p now w)
  unfolding ready_to_upload ordinal
  ready_to_upload-Sound now (s, se) h =
      elim (Bool-cases (ltb (ordinal se.state) (ordinal PublicationState.preparing))) [
        | inl below ↦ rw below h
        | inr reached ↦ elim (Bool-cases (state_eq se.state PublicationState.preparing)) [
          | inl preparing ↦
              rw (reached, preparing)
                (advance_to-Sound now PublicationState.uploading (s, se) (ground arith) h)
          | inr past ↦
              elim (Bool-cases (ltb (ordinal PublicationState.uploading) (ordinal se.state))) [
                | inl over ↦ rw (reached, past, over) h
                | inr under ↦ rw (reached, past, under) h
              ]
        ]
      ]

  pub mark_uploaded-Sound : (now : ℕ) (w : World p) → Sound p d v w → Keeps (mark_uploaded p now w)
  unfolding mark_uploaded ordinal
  mark_uploaded-Sound now w h = advance_to-Sound now PublicationState.uploaded w (ground arith) h

  pub mark_verified-Sound : (now : ℕ) (w : World p) → Sound p d v w → Keeps (mark_verified p now w)
  unfolding mark_verified ordinal
  mark_verified-Sound now w h = advance_to-Sound now PublicationState.verified w (ground arith) h

  -- An object of the version is created under a key that is not the state record's.
  pub create_object-Sound :
      {A : Type 0} (k : Text) (o : ObjectLocation) (payload : Bytes) (s : S)
      (se : RemotePublicationSession) (f : ObjectMetadata → Eff PublicationError (World p) A)
      → VersionKey se.version_id k
      → IsDotted k
      → k ≢ version_state_key se.version_id
      → ((k ≡ version_commit_key se.version_id)
          → Present p se.dataset se.version_id s (version_manifest_key se.version_id))
      → resolve p se.dataset k ≡ ok o
      → Sound p d v (s, se)
      → ((m : ObjectMetadata) (t : S)
          → Wrote p se.dataset s t k (some payload)
          → Sound p d v (t, se)
          → Keeps (f m (t, se)))
      → Keeps (bind_result f (on_store p (create_object p o payload) (s, se)))
  unfolding create_object
  create_object-Sound k o payload s se f key dotted other need here h go =
      on_store-Post p
        (λ _ t. Wrote p se.dataset s t k (some payload) × (at p se.dataset s k ≡ none))
        (λ t. Unchanged p se.dataset s t) (λ _ u. Sound p d v u) (Sound p d v)
        (create_object p o payload) f s se
        (create-Post p se.dataset k o dotted (resolve-ok p se.dataset k o here) s payload)
        (λ m t (w, _). go m t w (record {
          consistent = Consistent-object p se.dataset se.version_id w key other need h.consistent;
          backed = Backed-Wrote p se.dataset se.version_id w h.backed;
          locked = h.locked;
          dataset = h.dataset;
          version = h.version;
        }))
        (λ t same. Sound-Unchanged p d v same h)

  upload-Sound :
      (relative : Text) (payload : Bytes) (w : World p)
      → Sound p d v w
      → Keeps (upload p relative payload w)
  unfolding upload
  upload-Sound relative payload (s, se) h =
      elim (Result-cases (resolve p se.dataset (version_data_key se.version_id relative))) [
        | inr (x, e) ↦ rw (e, bind_result) h
        | inl (o, e) ↦
            rw (e, bind_result)
              (Post-pure (λ _ u. Sound p d v u) (Sound p d v)
                (on_store p (create_object p o payload) (s, se))
                (create_object-Sound (version_data_key se.version_id relative) o payload s se pure
                  (VersionKey.data_of relative) (data-IsDotted se.version_id relative)
                  (state-ne-data se.version_id relative)
                  (λ e. absurd (commit-ne-data se.version_id relative e)) e h (λ m t w k. k)))
      ]

  pub put_version_object-Sound :
      (now : ℕ) (relative : Text) (payload : Bytes) (w : World p)
      → Sound p d v w
      → Keeps (put_version_object p now relative payload w)
  unfolding put_version_object
  put_version_object-Sound now relative payload w h =
      bind-Post p (λ _ u. Sound p d v u) (λ _ u. Sound p d v u) (Sound p d v)
        (ready_to_upload p now) (λ _. upload p relative payload) w (ready_to_upload-Sound now w h)
        (λ _ u k. upload-Sound relative payload u k)

  manifest-Sound :
      (now : ℕ) (manifest : PublicationManifest) (o : ObjectLocation) (payload : Bytes) (s : S)
      (se : RemotePublicationSession)
      → resolve p se.dataset (version_manifest_key se.version_id) ≡ ok o
      → Sound p d v (s, se)
      → Keeps (
          bind_result
            (λ _. persist_state p now PublicationState.manifest_written)
            (on_store p (create_object p o payload) (s, se)))
  manifest-Sound now manifest o payload s se here h =
      create_object-Sound (version_manifest_key se.version_id) o payload s se
        (λ _. persist_state p now PublicationState.manifest_written) VersionKey.manifest
        (manifest-IsDotted se.version_id) (state-ne-manifest se.version_id)
        (λ e. absurd (commit-ne-manifest se.version_id e)) here h
        (λ m t w k.
          persist_state-Sound p d v now PublicationState.manifest_written (t, se) k
            (Backed-written p se.dataset se.version_id
              (payload, Wrote-here p se.dataset w (manifest-IsDotted se.version_id))))

  pub write_manifest-Sound :
      (now : ℕ) (manifest : PublicationManifest) (w : World p)
      → Sound p d v w
      → Keeps (write_manifest p now manifest w)
  unfolding write_manifest
  write_manifest-Sound now manifest (s, se) h =
      elim (Bool-cases (state_eq se.state PublicationState.verified)) [
        | inr other ↦ rw other h
        | inl verified ↦
            elim (Result-cases (resolve p se.dataset (version_manifest_key se.version_id))) [
              | inr (x, e) ↦ rw (verified, e, bind_result) h
              | inl (o, e) ↦ elim (Result-cases (to_json manifest_json manifest)) [
                | inr (x, f) ↦ rw (verified, e, f, bind_result) h
                | inl (payload, f) ↦
                    rw (verified, e, f, bind_result)
                      (manifest-Sound now manifest o payload s se e h)
              ]
            ]
      ]

module _ (p : Platform) where
  open p use {backend, join, S}

  -- `head` finds the marker only where it is.
  pub committed-Present :
      (s : S) (ds : DatasetLocation) (v : Text)
      → is_version_committed p s ds v ≡ ok true
      → Present p ds v s (version_commit_key v)
  unfolding is_version_committed
  committed-Present s ds v h = elim (Result-cases (resolve p ds (version_commit_key v))) [
    | inr (x, e) ↦ absurd (ground arith)
    | inl (o, e) ↦ elim (Result-cases (backend.head s o)) [
      | inl (m, f) ↦
          let (b, there) = backend.head-ok s o m f in
          (
            b,
            content-ok backend join p.join_apart ds s (version_commit_key v) o
                  (resolve-ok p ds (version_commit_key v) o e)
                ∙ there,
          )
      | inr (StorageError.not_found t, f) ↦ absurd (ground arith)
      | inr (x, f) ↦ absurd (ground arith)
    ]
  ]
