-- ===== src/Storage/Publication/Commits.antt =====
-- What a successful `commit` of crates/parqonaut-storage/src/publication.rs leaves.
use parqonaut.Prelude.{
  ℕ, ◌≤◌, ◌≡◌, refl, sym, subst, true, false, Result, ok, err, arith, Text, Result-cases,
  Bool-cases, inl, inr,
}
use parqonaut.Prelude.Eff.{Post, Post-weaken, bind_result, pure}
use parqonaut.Storage.Errors.{PublicationState, PublicationError}
use parqonaut.Storage.Location.{DatasetLocation}
use parqonaut.Storage.Keys.{version_state_key, version_commit_key, version_manifest_key}
use parqonaut.Storage.Records.{CommitMarker, Platform, to_json}
use parqonaut.Storage.Locking.{resolve}
use parqonaut.Storage.Publication.{ordinal, state_eq, set_state}
use parqonaut.Storage.Publication.Reads.{is_version_committed}
use parqonaut.Storage.Publication.Session.{
  World, state_record, persist_state, create_object, persist_committed, write_marker, commit,
  put_session, overwrite,
}
use parqonaut.Storage.Publication.Backing.{Present}
use parqonaut.Storage.Publication.Consistency.{Sound, on_store-Post, bind-Post}
use parqonaut.Storage.Publication.Begin.{Sound-Consistent}
use parqonaut.Storage.Publication.Marking.{commit-Sound}

Post-any : {E S A : Type 0} (r : S × Result E A) → Post (λ _ _. Unit {0}) (λ _. Unit {0}) r
Post-any (s, ok a) = tt
Post-any (s, err e) = tt

Post-both :
    {E S A : Type 0} (Q R : A → S → Type 0) (F G : S → Type 0) (r : S × Result E A)
    → Post Q F r
    → Post R G r
    → Post (λ a s. Q a s × R a s) (λ s. F s × G s) r
Post-both Q R F G (s, ok a) h k = (h, k)
Post-both Q R F G (s, err e) h k = (h, k)

committed_ordinal : 5 ≤ ordinal PublicationState.committed
unfolding ordinal
committed_ordinal = ground arith

module _ (p : Platform) where
  open p use {Bytes, S, state_json, commit_json}

  -- A call that succeeds has brought the session into the state.
  abbrev Enters : {A : Type 0} → PublicationState → World p × Result PublicationError A → Type 0
  Enters st = Post (λ _ u. u.1.state ≡ st) (λ _. Unit {0})

  persist_state-Enters :
      (now : ℕ) (st : PublicationState) (w : World p) → Enters st (persist_state p now st w)
  unfolding persist_state
  persist_state-Enters now st (s, se) =
      elim (Result-cases (resolve p se.dataset (version_state_key se.version_id))) [
        | inr (x, e) ↦ rw (e, bind_result) tt
        | inl (o, e) ↦ elim (Result-cases (to_json state_json (state_record p now se st))) [
          | inr (x, f) ↦ rw (e, f, bind_result) tt
          | inl (payload, f) ↦
              rw (e, f, bind_result)
                (on_store-Post p (λ _ _. Unit {0}) (λ _. Unit {0}) (λ _ u. u.1.state ≡ st)
                  (λ _. Unit {0}) (overwrite p o payload) (λ _. put_session p (set_state se st)) s
                  se (Post-any (overwrite p o payload s)) (λ _ t h. refl) (λ t h. tt))
        ]
      ]

  persist_committed-Enters :
      (now : ℕ) (w : World p) → Enters PublicationState.committed (persist_committed p now w)
  unfolding persist_committed
  persist_committed-Enters now w =
      bind-Post p (λ _ u. u.1.state ≡ PublicationState.committed)
        (λ _ u. u.1.state ≡ PublicationState.committed) (λ _. Unit {0})
        (persist_state p now PublicationState.committed) (λ _. pure true) w
        (persist_state-Enters now PublicationState.committed w) (λ _ u h. h)

  write_marker-Enters :
      (now : ℕ) (w : World p) → Enters PublicationState.committed (write_marker p now w)
  unfolding write_marker
  write_marker-Enters now (s, se) =
      let marker : CommitMarker = record {
        version_id = se.version_id;
        run_id = se.run_id;
        committed_at = now;
      } in
      elim (Result-cases (resolve p se.dataset (version_commit_key se.version_id))) [
        | inr (x, e) ↦ rw (e, bind_result) tt
        | inl (o, e) ↦ elim (Result-cases (to_json commit_json marker)) [
          | inr (x, f) ↦ rw (e, f, bind_result) tt
          | inl (payload, f) ↦
              rw (e, f, bind_result)
                (on_store-Post p (λ _ _. Unit {0}) (λ _. Unit {0})
                  (λ _ u. u.1.state ≡ PublicationState.committed) (λ _. Unit {0})
                  (create_object p o payload) (λ _. persist_committed p now) s se
                  (Post-any (create_object p o payload s))
                  (λ m t h. persist_committed-Enters now (t, se)) (λ t h. tt))
        ]
      ]

  commit-Enters : (now : ℕ) (w : World p) → Enters PublicationState.committed (commit p now w)
  unfolding commit
  commit-Enters now (s, se) =
      elim (Bool-cases (state_eq se.state PublicationState.manifest_written)) [
        | inr other ↦ rw other tt
        | inl written ↦ elim (Result-cases (is_version_committed p s se.dataset se.version_id)) [
          | inr (x, e) ↦ rw (written, e, bind_result) tt
          | inl (true, e) ↦ rw (written, e, bind_result) refl
          | inl (false, e) ↦ rw (written, e, bind_result) (write_marker-Enters now (s, se))
        ]
      ]

  -- The session is committed, and its version has the marker and the manifest.
  pub record CommittedWith (ds : DatasetLocation) (v : Text) (u : World p) : Type 0 where
    pub state : u.1.state ≡ PublicationState.committed
    pub marker : Present p ds v u.0 (version_commit_key v)
    pub manifest : Present p ds v u.0 (version_manifest_key v)

  Sound-CommittedWith :
      (ds : DatasetLocation) (v : Text) (u : World p)
      → Sound p ds v u
      → u.1.state ≡ PublicationState.committed
      → CommittedWith ds v u
  Sound-CommittedWith ds v u h e =
      let here : Present p u.1.dataset u.1.version_id u.0 (version_commit_key u.1.version_id) =
        h.backed.marker (subst (λ x. 5 ≤ ordinal x) (sym e) committed_ordinal) in
      let marker : Present p ds v u.0 (version_commit_key v) =
        subst (λ x. Present p x v (u.0) (version_commit_key v)) h.dataset
          (subst (λ x. Present p (u.1.dataset) x (u.0) (version_commit_key x)) h.version here) in
      record { state = e; marker = marker; manifest = (Sound-Consistent p ds v h).marked marker }

  -- In a session that the store bears out, a `commit` that succeeds leaves the session committed and
  -- the version with its commit marker and its manifest, whether it has written the marker or found it.
  pub commit-CommittedWith :
      (ds : DatasetLocation) (v : Text) (now : ℕ) (w : World p)
      → Sound p ds v w
      → Post (λ _ u. CommittedWith ds v u) (λ _. Unit {0}) (commit p now w)
  commit-CommittedWith ds v now w h =
      Post-weaken (λ _ u. Sound p ds v u × (u.1.state ≡ PublicationState.committed))
        (λ _ u. CommittedWith ds v u) (λ u. Sound p ds v u × Unit {0}) (λ _. Unit {0})
        (commit p now w) (λ _ u (sound, e). Sound-CommittedWith ds v u sound e) (λ u x. tt)
        (Post-both (λ _ u. Sound p ds v u) (λ _ u. u.1.state ≡ PublicationState.committed)
          (Sound p ds v) (λ _. Unit {0}) (commit p now w) (commit-Sound p ds v now w h)
          (commit-Enters now w))
