-- ===== src/Storage/Publication/Immutable.antt =====
-- The data objects of a version (crates/parqonaut-storage/src/publication.rs) are created once.
use parqonaut.Prelude.{
  ℕ, ◌≡◌, refl, sym, ◌∙◌, ◌≢◌, some, Result, ltb, Text, Result-cases, Bool-cases, inl, inr,
}
use parqonaut.Prelude.Eff.{Post, Post-bind, Post-pure, Post-weaken, bind_result, pure}
use parqonaut.Storage.Errors.{PublicationState, PublicationError}
use parqonaut.Storage.Keys.{
  version_state_key, version_data_key, state-IsDotted, data-IsDotted, state-ne-data,
}
use parqonaut.Storage.Records.{Platform, to_json}
use parqonaut.Storage.Locking.{resolve}
use parqonaut.Storage.Effects.{at, Unchanged, Wrote, Elsewhere, Wrote-Elsewhere, resolve-ok}
use parqonaut.Storage.Publication.{
  RemotePublicationSession, ordinal, state_eq, set_state, allows_transition,
}
use parqonaut.Storage.Publication.Session.{
  World, persist_state, advance_to, ready_to_upload, create_object, upload, put_version_object,
  put_session, on_store, overwrite, state_record,
}
use parqonaut.Storage.Publication.Backing.{Present}
use parqonaut.Storage.Publication.Consistency.{on_store-Post, overwrite-Post}
use parqonaut.Storage.Publication.Recovery.{create_object-Stuck}

module _ (p : Platform) (s : p.S) (se : RemotePublicationSession) where
  open p use {Bytes, S, backend, join, state_json}

  -- Only the state record, in the store and in the session, has changed.
  record Advanced (u : World p) : Type 0 where
    elsewhere : Elsewhere p se.dataset s u.0 (version_state_key se.version_id)
    state : PublicationState
    session : u.1 ≡ set_state se state

  still : (t : S) → Unchanged p se.dataset s t → Advanced (t, se)
  still t same = record { elsewhere = λ r d n. same r d; state = se.state; session = refl }

  abbrev Advances : World p × Result PublicationError (Unit {0}) → Type 0
  Advances = Post (λ _ u. Advanced u) Advanced

  persist_state-Advances :
      (now : ℕ) (st : PublicationState) → Advances (persist_state p now st (s, se))
  unfolding persist_state
  persist_state-Advances now st =
      elim (Result-cases (resolve p se.dataset (version_state_key se.version_id))) [
        | inr (x, e) ↦ rw (e, bind_result) (still s (λ r d. refl))
        | inl (o, e) ↦ elim (Result-cases (to_json state_json (state_record p now se st))) [
          | inr (x, f) ↦ rw (e, f, bind_result) (still s (λ r d. refl))
          | inl (payload, f) ↦
              rw (e, f, bind_result)
                (on_store-Post p
                  (λ _ t. Wrote p se.dataset s t (version_state_key se.version_id) (some payload))
                  (λ t. Unchanged p se.dataset s t) (λ _ u. Advanced u) Advanced
                  (overwrite p o payload) (λ _. put_session p (set_state se st)) s se
                  (overwrite-Post p se.dataset (version_state_key se.version_id) o
                    (state-IsDotted se.version_id)
                    (resolve-ok p se.dataset (version_state_key se.version_id) o e) payload s)
                  (λ _ t w. record {
                    elsewhere = Wrote-Elsewhere p se.dataset w;
                    state = st;
                    session = refl;
                  })
                  still)
        ]
      ]

  advance_to-Advances :
      (now : ℕ) (next : PublicationState) → Advances (advance_to p now next (s, se))
  unfolding advance_to
  advance_to-Advances now next = elim (Bool-cases (state_eq se.state next)) [
    | inl same ↦ rw same (still s (λ r d. refl))
    | inr differ ↦ elim (Bool-cases (allows_transition se.state next)) [
      | inr refused ↦ rw (differ, refused) (still s (λ r d. refl))
      | inl allowed ↦ rw (differ, allowed) (persist_state-Advances now next)
    ]
  ]

  ready_to_upload-Advances : (now : ℕ) → Advances (ready_to_upload p now (s, se))
  unfolding ready_to_upload
  ready_to_upload-Advances now =
      elim (Bool-cases (ltb (ordinal se.state) (ordinal PublicationState.preparing))) [
        | inl below ↦ rw below (still s (λ r d. refl))
        | inr reached ↦ elim (Bool-cases (state_eq se.state PublicationState.preparing)) [
          | inl preparing ↦
              rw (reached, preparing) (advance_to-Advances now PublicationState.uploading)
          | inr past ↦
              elim (Bool-cases (ltb (ordinal PublicationState.uploading) (ordinal se.state))) [
                | inl over ↦ rw (reached, past, over) (still s (λ r d. refl))
                | inr under ↦ rw (reached, past, under) (still s (λ r d. refl))
              ]
        ]
      ]

module _ (p : Platform) where
  open p use {Bytes, S, backend, join}

  -- A second upload fails before it changes anything.
  upload-Stuck :
      (relative : Text) (payload : Bytes) (s : S) (se : RemotePublicationSession)
      → Present p se.dataset se.version_id s (version_data_key se.version_id relative)
      → Post (λ _ _. ⊥) (λ u. Unchanged p se.dataset s u.0) (upload p relative payload (s, se))
  unfolding upload
  upload-Stuck relative payload s se there =
      elim (Result-cases (resolve p se.dataset (version_data_key se.version_id relative))) [
        | inr (x, e) ↦ rw (e, bind_result) (λ r d. refl)
        | inl (o, e) ↦
            rw (e, bind_result)
              (Post-pure (λ _ _. ⊥) (λ u. Unchanged p se.dataset s u.0)
                (on_store p (create_object p o payload) (s, se))
                (on_store-Post p (λ _ _. ⊥) (λ t. Unchanged p se.dataset s t) (λ _ _. ⊥)
                  (λ u. Unchanged p se.dataset s u.0) (create_object p o payload) pure s se
                  (create_object-Stuck p se.dataset se.version_id
                    (version_data_key se.version_id relative) o payload s
                    (data-IsDotted se.version_id relative)
                    (resolve-ok p se.dataset (version_data_key se.version_id relative) o e) there)
                  (λ _ t impossible. absurd impossible) (λ t same. same)))
      ]

  -- The same, in the session that the guards leave.
  advanced-Stuck :
      (relative : Text) (payload : Bytes) (s t : S) (se x : RemotePublicationSession)
      (st : PublicationState)
      → x ≡ set_state se st
      → Elsewhere p se.dataset s t (version_state_key se.version_id)
      → Present p se.dataset se.version_id s (version_data_key se.version_id relative)
      → Post
          (λ _ _. ⊥)
          (λ u.
            at p se.dataset u.0 (version_data_key se.version_id relative)
            ≡ at p se.dataset s (version_data_key se.version_id relative))
          (upload p relative payload (t, x))
  advanced-Stuck relative payload s t se x st e kept (b, there) =
      let key = data-IsDotted se.version_id relative in
      let other : version_state_key se.version_id ≢ version_data_key se.version_id relative =
        λ q. state-ne-data se.version_id relative (sym q) in
      rw e (
        Post-weaken (λ _ _. ⊥) (λ _ _. ⊥) (λ u. Unchanged p se.dataset t u.0)
          (λ u.
            at p se.dataset u.0 (version_data_key se.version_id relative)
            ≡ at p se.dataset s (version_data_key se.version_id relative))
          (upload p relative payload (t, set_state se st)) (λ _ u impossible. impossible)
          (λ u same. same _ key ∙ kept _ key other)
          (upload-Stuck relative payload t (set_state se st) (b, kept _ key other ∙ there)))

  -- An object of a version is written once: where the version already has an object of that name,
  -- `put_version_object` fails in every state of the session, and the object keeps its bytes.
  pub put_version_object-Immutable :
      (now : ℕ) (relative : Text) (payload : Bytes) (s : S) (se : RemotePublicationSession)
      → Present p se.dataset se.version_id s (version_data_key se.version_id relative)
      → Post
          (λ _ _. ⊥)
          (λ u.
            at p se.dataset u.0 (version_data_key se.version_id relative)
            ≡ at p se.dataset s (version_data_key se.version_id relative))
          (put_version_object p now relative payload (s, se))
  unfolding put_version_object
  put_version_object-Immutable now relative payload s se there =
      Post-bind (λ _ u. Advanced p s se u) (λ _ _. ⊥)
        (λ u.
          at p se.dataset u.0 (version_data_key se.version_id relative)
          ≡ at p se.dataset s (version_data_key se.version_id relative))
        (λ _. upload p relative payload) (ready_to_upload p now (s, se))
        (Post-weaken (λ _ u. Advanced p s se u) (λ _ u. Advanced p s se u) (Advanced p s se)
          (λ u.
            at p se.dataset u.0 (version_data_key se.version_id relative)
            ≡ at p se.dataset s (version_data_key se.version_id relative))
          (ready_to_upload p now (s, se)) (λ _ u a. a)
          (λ u a.
            a.elsewhere _ (data-IsDotted se.version_id relative)
              (λ q. state-ne-data se.version_id relative (sym q)))
          (ready_to_upload-Advances p s se now))
        (λ _ u a. advanced-Stuck relative payload s u.0 se u.1 a.state a.session a.elsewhere there)
