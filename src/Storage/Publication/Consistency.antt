-- ===== src/Storage/Publication/Consistency.antt =====
-- The operations of a session (crates/parqonaut-storage/src/publication.rs) keep a version consistent:
-- whatever they return, an error at any call of the backend included.
use parqonaut.Prelude.{ℕ, ◌≡◌, refl, some, none, Result, ok, err, Text, Result-cases, inl, inr}
use parqonaut.Prelude.Eff.{Eff, Post, Post-ok, Post-err, Post-weaken, bind_result}
use parqonaut.Storage.Errors.{StorageError, PublicationState, PublicationError}
use parqonaut.Storage.Location.{DatasetLocation, ObjectLocation, object_at}
use parqonaut.Storage.Backend.{matching, ObjectMetadata, must_not_exist}
use parqonaut.Storage.Keys.{writer_lock_key, version_state_key, IsDotted, state-IsDotted}
use parqonaut.Storage.Records.{Platform, to_json, to_json-ok}
use parqonaut.Storage.Locking.{RemotePublicationLock, raise, resolve}
use parqonaut.Storage.Effects.{at, Unchanged, Wrote, create-Post, replace-Post, resolve-ok}
use parqonaut.Storage.Publication.{RemotePublicationSession, set_state}
use parqonaut.Storage.Publication.Session.{
  World, overwrite_found, overwrite, persist_state, state_record, done, put_session, on_store,
}
use parqonaut.Storage.Publication.Backing.{
  Backed, Consistent, Backed-Wrote, Backed-Unchanged, Consistent-Unchanged, Consistent-state,
}

module _ (p : Platform) where
  open p use {Bytes, S, backend, join, state_json}

  done-Post :
      {A : Type 0} (Q F : S → Type 0) (r : S × Result StorageError A)
      → Post (λ _ t. Q t) F (raise r)
      → Post (λ _ t. Q t) F (done p r)
  done-Post Q F (s, ok a) h = h
  done-Post Q F (s, err e) h = h

  module _ (ds : DatasetLocation) (k : Text) (o : ObjectLocation) (dotted : IsDotted k)
      (here : object_at join ds k ≡ ok o) (payload : Bytes) (s : S) where
    overwrite_found-Post :
        (r : Result StorageError ObjectMetadata)
        → Post
            (λ _ t. Wrote p ds s t k (some payload))
            (λ t. Unchanged p ds s t)
            (overwrite_found p o payload r s)
    unfolding overwrite_found
    overwrite_found-Post (ok m) =
        done-Post (λ t. Wrote p ds s t k (some payload)) (λ t. Unchanged p ds s t)
          (backend.replace s o (matching m) payload)
          (replace-Post p ds k o dotted here s (matching m) payload)
    overwrite_found-Post (err (StorageError.not_found t)) =
        done-Post (λ t. Wrote p ds s t k (some payload)) (λ t. Unchanged p ds s t)
          (backend.create s o must_not_exist payload)
          (Post-weaken (λ _ t. Wrote p ds s t k (some payload) × (at p ds s k ≡ none))
            (λ _ t. Wrote p ds s t k (some payload)) (λ t. Unchanged p ds s t)
            (λ t. Unchanged p ds s t) (raise (backend.create s o must_not_exist payload))
            (λ _ t h. h.0) (λ t h. h) (create-Post p ds k o dotted here s payload))
    overwrite_found-Post (err e) = λ r d. refl

    pub overwrite-Post :
        Post
          (λ _ t. Wrote p ds s t k (some payload))
          (λ t. Unchanged p ds s t)
          (overwrite p o payload s)
    unfolding overwrite
    overwrite-Post = overwrite_found-Post (backend.head s o)

  -- A call of the store, and what follows it.
  pub on_store-Post :
      {A B : Type 0} (Q : A → S → Type 0) (F : S → Type 0) (R : B → World p → Type 0)
      (G : World p → Type 0) (m : Eff PublicationError S A)
      (f : A → Eff PublicationError (World p) B) (s : S) (se : RemotePublicationSession)
      → Post Q F (m s)
      → ((a : A) (t : S) → Q a t → Post R G (f a (t, se)))
      → ((t : S) → F t → G (t, se))
      → Post R G (bind_result f (on_store p m (s, se)))
  on_store-Post Q F R G m f s se h k l = elim (Result-cases ((m s).1)) [
    | inl (a, e) ↦ rw (e, bind_result) (k a _ (Post-ok Q F (m s) a h e))
    | inr (x, e) ↦ rw (e, bind_result) (l _ (Post-err Q F (m s) x h e))
  ]

  pub bind-Post :
      {A B : Type 0} (Q : A → World p → Type 0) (R : B → World p → Type 0) (G : World p → Type 0)
      (m : Eff PublicationError (World p) A) (f : A → Eff PublicationError (World p) B)
      (w : World p)
      → Post Q G (m w)
      → ((a : A) (u : World p) → Q a u → Post R G (f a u))
      → Post R G (bind_result f (m w))
  bind-Post Q R G m f w h k = elim (Result-cases ((m w).1)) [
    | inl (a, e) ↦ rw (e, bind_result) (k a _ (Post-ok Q G (m w) a h e))
    | inr (x, e) ↦ rw (e, bind_result) (Post-err Q G (m w) x h e)
  ]

module _ (p : Platform) (d : DatasetLocation) (v : Text) where
  open p use {Bytes, S, backend, join, state_json}

  -- A session of version `v` of dataset `d`: the store keeps what the version promises, and so does the session's own state; the lock
  -- of the session is the dataset's.
  pub record Sound (w : World p) : Type 0 where
    pub dataset : w.1.dataset ≡ d
    pub version : w.1.version_id ≡ v
    pub consistent : Consistent p w.1.dataset w.1.version_id w.0
    pub backed : Backed p w.1.dataset w.1.version_id w.0 w.1.state
    pub locked :
        (l : RemotePublicationLock)
        → w.1.lock ≡ some l
        → object_at join w.1.dataset writer_lock_key ≡ ok l.lock_object

  pub Sound-Unchanged :
      {s t : S} {se : RemotePublicationSession}
      → Unchanged p se.dataset s t
      → Sound (s, se)
      → Sound (t, se)
  Sound-Unchanged {se = se} same h = record {
    consistent = Consistent-Unchanged p se.dataset se.version_id same h.consistent;
    backed = Backed-Unchanged p se.dataset se.version_id same h.backed;
    locked = h.locked;
    dataset = h.dataset;
    version = h.version;
  }

  -- A state that is backed may be recorded.
  pub persist_state-Sound :
      (now : ℕ) (st : PublicationState) (w : World p)
      → Sound w
      → Backed p w.1.dataset w.1.version_id w.0 st
      → Post (λ _ u. Sound u) Sound (persist_state p now st w)
  unfolding persist_state
  persist_state-Sound now st (s, se) h back =
      elim (Result-cases (resolve p se.dataset (version_state_key se.version_id))) [
        | inr (x, e) ↦ rw (e, bind_result) h
        | inl (o, e) ↦ elim (Result-cases (to_json state_json (state_record p now se st))) [
          | inr (x, f) ↦ rw (e, f, bind_result) h
          | inl (payload, f) ↦
              rw (e, f, bind_result)
                (on_store-Post p
                  (λ _ t. Wrote p se.dataset s t (version_state_key se.version_id) (some payload))
                  (λ t. Unchanged p se.dataset s t) (λ _ u. Sound u) Sound (overwrite p o payload)
                  (λ _. put_session p (set_state se st)) s se
                  (overwrite-Post p se.dataset (version_state_key se.version_id) o
                    (state-IsDotted se.version_id)
                    (resolve-ok p se.dataset (version_state_key se.version_id) o e) payload s)
                  (λ _ t w. record {
                    consistent =
                        Consistent-state p se.dataset se.version_id payload
                          (state_record p now se st) w
                          (to_json-ok state_json (state_record p now se st) payload f) back
                          h.consistent;
                    backed = Backed-Wrote p se.dataset se.version_id w back;
                    locked = h.locked;
                    dataset = h.dataset;
                    version = h.version;
                  })
                  (λ t same. Sound-Unchanged same h))
        ]
      ]
