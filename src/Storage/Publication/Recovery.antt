-- ===== src/Storage/Publication/Recovery.antt =====
-- What crates/parqonaut-storage/src/publication.rs reports of a version after a crash, and what a run
-- that resumes it can still do.
use parqonaut.Prelude.{
  ◌≤◌, ◌≡◌, sym, ◌∙◌, ◌≢◌, true, false, Option, some, none, ok, arith, leb, subst, Text,
  Result-cases, Bool-cases, inl, inr,
}
use parqonaut.Prelude.Eff.{Post, Post-weaken}
use parqonaut.Storage.Errors.{PublicationState}
use parqonaut.Storage.Location.{DatasetLocation, ObjectLocation, object_at}
use parqonaut.Storage.Backend.{must_not_exist}
use parqonaut.Storage.Keys.{version_commit_key, IsDotted}
use parqonaut.Storage.Records.{PublicationStateRecord, Platform}
use parqonaut.Storage.Locking.{raise}
use parqonaut.Storage.Effects.{at, Unchanged, Wrote, create-Post}
use parqonaut.Storage.Publication.{ordinal}
use parqonaut.Storage.Publication.Reads.{
  is_version_committed, read_state_record, observed_state, demoted,
}
use parqonaut.Storage.Publication.Session.{create_object}
use parqonaut.Storage.Publication.Backing.{Present}
use parqonaut.Storage.Publication.Calls.{committed-Present}

some-ne-none : {A : Type 0} → {a : A} → some a ≢ none
some-ne-none e = ground arith

demoted-ordinal :
    (r : Option PublicationStateRecord) (st : PublicationState)
    → demoted r ≡ some st
    → ordinal st ≤ 4
unfolding demoted ordinal
demoted-ordinal none st h = absurd (ground arith)
demoted-ordinal (some r) st h =
    elim (Bool-cases (leb (ordinal PublicationState.committed) (ordinal r.state))) [
      | inl late ↦
          let same : PublicationState.manifest_written ≡ st = ground arith in
          subst (λ x. ordinal x ≤ 4) same (ground arith)
      | inr early ↦
          let same : r.state ≡ st = ground arith in subst (λ x. ordinal x ≤ 4) same (ground arith)
    ]

module _ (p : Platform) (ds : DatasetLocation) (v : Text) where
  open p use {Bytes, S, backend, join, manifest_json}

  -- Whatever the state record says, `observed_state` reports `Committed` or `Current` only of a version
  -- whose commit marker exists.
  pub observed_state-Present :
      (s : S) (st : PublicationState)
      → observed_state p s ds v ≡ ok (some st)
      → 5 ≤ ordinal st
      → Present p ds v s (version_commit_key v)
  unfolding observed_state
  observed_state-Present s st h late = elim (Result-cases (is_version_committed p s ds v)) [
    | inr (x, f) ↦ absurd (ground arith)
    | inl (true, f) ↦ committed-Present p s ds v f
    | inl (false, f) ↦ elim (Result-cases (read_state_record p s ds v)) [
      | inr (x, g) ↦ absurd (ground arith)
      | inl (r, g) ↦ let low = demoted-ordinal r st (ground arith) in absurd (ground arith)
    ]
  ]

  -- A create of an object that is there fails, and changes nothing.
  pub create_object-Stuck :
      (k : Text) (o : ObjectLocation) (payload : Bytes) (s : S)
      → IsDotted k
      → object_at join ds k ≡ ok o
      → Present p ds v s k
      → Post (λ _ _. ⊥) (λ t. Unchanged p ds s t) (create_object p o payload s)
  unfolding create_object
  create_object-Stuck k o payload s dotted here (b, there) =
      Post-weaken (λ _ t. Wrote p ds s t k (some payload) × (at p ds s k ≡ none)) (λ _ _. ⊥)
        (λ t. Unchanged p ds s t) (λ t. Unchanged p ds s t)
        (raise (backend.create s o must_not_exist payload))
        (λ _ t (w, gone). absurd (some-ne-none (sym there ∙ gone))) (λ t same. same)
        (create-Post p ds k o dotted here s payload)
