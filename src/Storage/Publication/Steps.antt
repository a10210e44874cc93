-- ===== src/Storage/Publication/Steps.antt =====
-- `advance_to` of crates/parqonaut-storage/src/publication.rs: what one step of the state machine writes.
use parqonaut.Prelude.{if◌then◌else◌, ◌==◌, ℕ, ◌≡◌, refl, true, some, Result-cases, ◌⊎◌, inl, inr}
use parqonaut.Prelude.Eff.{Post, bind_result}
use parqonaut.Storage.Errors.{PublicationState}
use parqonaut.Storage.Keys.{version_state_key, state-IsDotted}
use parqonaut.Storage.Records.{Platform, to_json, to_json-ok}
use parqonaut.Storage.Locking.{resolve}
use parqonaut.Storage.Effects.{
  at, Unchanged, Wrote, Elsewhere, Wrote-Elsewhere, Wrote-here, resolve-ok,
}
use parqonaut.Storage.Publication.{RemotePublicationSession, set_state, allows_transition}
use parqonaut.Storage.Publication.Session.{
  World, persist_state, put_session, overwrite, state_record,
}
use parqonaut.Storage.Publication.Consistency.{on_store-Post, overwrite-Post}

of_ordinal : ℕ → PublicationState
of_ordinal n =
    if n == 0
    then PublicationState.preparing
    else if n == 1
    then PublicationState.uploading
    else if n == 2
    then PublicationState.uploaded
    else if n == 3
    then PublicationState.verified
    else if n == 4
    then PublicationState.manifest_written
    else if n == 5
    then PublicationState.committed
    else PublicationState.current

module _ (p : Platform) (now : ℕ) (next : PublicationState) (s : p.S)
    (se : RemotePublicationSession) where
  open p use {Bytes, S, backend, join, state_json}

  -- The record of the next state is what the version's state key holds; no other key has changed.
  pub record Recorded (t : S) : Type 0 where
    pub elsewhere : Elsewhere p se.dataset s t (version_state_key se.version_id)
    pub bytes : Bytes
    pub there : at p se.dataset t (version_state_key se.version_id) ≡ some bytes
    pub reads : state_json.from_slice bytes ≡ some (state_record p now se next)

  -- The session is where it was asked to be: it was there already, or the step is allowed and recorded.
  pub record Stepped (u : World p) : Type 0 where
    pub session : u.1 ≡ set_state se next
    pub how :
        ((se.state ≡ next) × Unchanged p se.dataset s u.0)
        ⊎ ((allows_transition se.state next ≡ true) × Recorded u.0)

  -- Nothing has changed, in the store or in the session.
  abbrev pub Still : World p → Type 0
  Still u = Unchanged p se.dataset s u.0 × (u.1 ≡ se)

  pub persist_state-Recorded :
      Post
        (λ _ u. (u.1 ≡ set_state se next) × Recorded u.0)
        Still
        (persist_state p now next (s, se))
  unfolding persist_state
  persist_state-Recorded =
      elim (Result-cases (resolve p se.dataset (version_state_key se.version_id))) [
        | inr (x, e) ↦ rw (e, bind_result) ((λ r d. refl), refl)
        | inl (o, e) ↦ elim (Result-cases (to_json state_json (state_record p now se next))) [
          | inr (x, f) ↦ rw (e, f, bind_result) ((λ r d. refl), refl)
          | inl (payload, f) ↦
              rw (e, f, bind_result)
                (on_store-Post p
                  (λ _ t. Wrote p se.dataset s t (version_state_key se.version_id) (some payload))
                  (λ t. Unchanged p se.dataset s t)
                  (λ _ u. (u.1 ≡ set_state se next) × Recorded u.0) Still (overwrite p o payload)
                  (λ _. put_session p (set_state se next)) s se
                  (overwrite-Post p se.dataset (version_state_key se.version_id) o
                    (state-IsDotted se.version_id)
                    (resolve-ok p se.dataset (version_state_key se.version_id) o e) payload s)
                  (λ _ t w. (
                    refl,
                    record {
                      elsewhere = Wrote-Elsewhere p se.dataset w;
                      bytes = payload;
                      there = Wrote-here p se.dataset w (state-IsDotted se.version_id);
                      reads = to_json-ok state_json (state_record p now se next) payload f;
                    },
                  ))
                  (λ t same. (same, refl)))
        ]
      ]
