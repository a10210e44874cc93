-- ===== src/Storage/Effects.antt =====
-- What one call of a backend does to the contents of a dataset, as the publication protocol of
-- crates/parqonaut-storage/src/publication.rs and locking.rs uses it.
use parqonaut.Prelude.{
  ◌≡◌, ◌≢◌, refl, ap, ◌∙◌, Option, none, some, Result, ok, err, arith, if◌then◌else◌, Text, text_eq,
  text_eq_refl, text_eq_ne, Result-cases, inl, inr,
}
use parqonaut.Prelude.Eff.{Post}
use parqonaut.Storage.Errors.{StorageError, PublicationError}
use parqonaut.Storage.Location.{DatasetLocation, ObjectLocation, object_at}
use parqonaut.Storage.Backend.{ConditionalReplace, must_not_exist}
use parqonaut.Storage.Keys.{IsDotted}
use parqonaut.Storage.Contents.{content, content-Same, content-Updated, content-ok}
use parqonaut.Storage.Records.{Serde, Platform, read_json_object}
use parqonaut.Storage.Locking.{raise, resolve}

raise-Post :
    {S A : Type 0} (Q : A → S → Type 0) (F : S → Type 0) (r : S × Result StorageError A)
    → ((a : A) → r.1 ≡ ok a → Q a r.0)
    → ((e : StorageError) → r.1 ≡ err e → F r.0)
    → Post Q F (raise r)
raise-Post Q F (s, ok a) h k = h a refl
raise-Post Q F (s, err e) h k = k e refl

module _ (p : Platform) (ds : DatasetLocation) where
  open p use {Bytes, S, backend, join, join_apart}

  pub resolve-ok :
      (k : Text) (o : ObjectLocation) → resolve p ds k ≡ ok o → object_at join ds k ≡ ok o
  unfolding resolve
  resolve-ok k o h = elim (Result-cases (object_at join ds k)) [
    | inl (x, e) ↦ ground arith
    | inr (x, e) ↦ absurd (ground arith)
  ]

  abbrev pub at : S → Text → Option Bytes
  at s k = content backend join join_apart ds s k

  -- Nothing that the protocol reads has changed.
  abbrev pub Unchanged : S → S → Type 0
  Unchanged s t = (r : Text) → IsDotted r → at t r ≡ at s r

  -- One key holds something else, and the other keys hold what they held.
  pub record Wrote (s t : S) (k : Text) (b : Option Bytes) : Type 0 where
    pub reads : (r : Text) → IsDotted r → at t r ≡ (if text_eq k r then b else at s r)

  -- Every other key holds what it held.
  abbrev pub Elsewhere : S → S → Text → Type 0
  Elsewhere s t k = (r : Text) → IsDotted r → k ≢ r → at t r ≡ at s r

  pub Wrote-Elsewhere : {s t : S} {k : Text} {b : Option Bytes} → Wrote s t k b → Elsewhere s t k
  Wrote-Elsewhere {k = k} w r d differ = w.reads r d ∙ rw (text_eq_ne k r differ)

  pub Wrote-here : {s t : S} {k : Text} {b : Option Bytes} → Wrote s t k b → IsDotted k → at t k ≡ b
  Wrote-here {k = k} w d = w.reads k d ∙ rw (text_eq_refl k)

  module _ (k : Text) (o : ObjectLocation) (dotted : IsDotted k)
      (here : object_at join ds k ≡ ok o) where
    pub create-Post :
        (s : S) (b : Bytes)
        → Post
            (λ _ t. Wrote s t k (some b) × (at s k ≡ none))
            (λ t. Unchanged s t)
            (raise (backend.create s o must_not_exist b))
    create-Post s b =
        raise-Post (λ _ t. Wrote s t k (some b) × (at s k ≡ none)) (λ t. Unchanged s t)
          (backend.create s o must_not_exist b)
          (λ m h. (
            record {
              reads = λ r d.
                  content-Updated backend join join_apart ds s _ k r o (some b) dotted d here
                    (backend.create-ok s o must_not_exist b m h);
            },
            content-ok backend join join_apart ds s k o here ∙ backend.create-absent s o b m h,
          ))
          (λ e h r d.
            content-Same backend join join_apart ds s _ r
              (backend.create-err s o must_not_exist b e h))

    pub replace-Post :
        (s : S) (c : ConditionalReplace) (b : Bytes)
        → Post (λ _ t. Wrote s t k (some b)) (λ t. Unchanged s t) (raise (backend.replace s o c b))
    replace-Post s c b =
        raise-Post (λ _ t. Wrote s t k (some b)) (λ t. Unchanged s t) (backend.replace s o c b)
          (λ m h. record {
            reads = λ r d.
                content-Updated backend join join_apart ds s _ k r o (some b) dotted d here
                  (backend.replace-ok s o c b m h);
          })
          (λ e h r d.
            content-Same backend join join_apart ds s _ r (backend.replace-err s o c b e h))

    pub delete-Post :
        (s : S)
        → Post (λ _ t. Wrote s t k none) (λ t. Unchanged s t) (raise (backend.delete_owned s o))
    delete-Post s =
        raise-Post (λ _ t. Wrote s t k none) (λ t. Unchanged s t) (backend.delete_owned s o)
          (λ u h. record {
            reads = λ r d.
                content-Updated backend join join_apart ds s _ k r o none dotted d here
                  (backend.delete-ok s o u h);
          })
          (λ e h r d. content-Same backend join join_apart ds s _ r (backend.delete-err s o e h))

    -- A document that reads is there.
    pub read_json_object-ok :
        {A : Type 0} (serde : Serde Bytes A) (s : S) (a : A)
        → read_json_object backend serde s o ≡ ok a
        → (b : Bytes) × (at s k ≡ some b) × (serde.from_slice b ≡ some a)
    unfolding read_json_object
    read_json_object-ok serde s a h = elim (Result-cases (backend.read_all s o)) [
      | inl (b, e) ↦ (
        b,
        content-ok backend join join_apart ds s k o here ∙ backend.read-ok s o b e,
        ground arith,
      )
      | inr (x, e) ↦ absurd (ground arith)
    ]

    pub read_json_object-not_found :
        {A : Type 0} (serde : Serde Bytes A) (s : S) (t : Text)
        → read_json_object backend serde s o
          ≡ err (PublicationError.storage (StorageError.not_found t))
        → at s k ≡ none
    unfolding read_json_object
    read_json_object-not_found serde s t h = elim (Result-cases (backend.read_all s o)) [
      | inl (b, e) ↦ absurd (ground arith)
      | inr (x, e) ↦
          let same : x ≡ StorageError.not_found t = ground arith in
          content-ok backend join join_apart ds s k o here
          ∙ backend.read-not_found s o t (e ∙ ap err same)
    ]
