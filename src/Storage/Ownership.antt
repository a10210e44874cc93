-- ===== src/Storage/Ownership.antt =====
-- What the writer lock of crates/parqonaut-storage/src/locking.rs leaves behind: a run that acquires
-- it has its own record under the lock's key, and no call of the lock touches another key.
use parqonaut.Prelude.{
  ◌≡◌, refl, ◌∙◌, false, not, none, some, Result, ok, err, Text, codes, text_eq, Result-cases,
  Bool-cases, inl, inr,
}
use parqonaut.Prelude.Eff.{throw, Post, Post-if, Post-bind, Post-weaken, pure, bind_result}
use parqonaut.Storage.Errors.{StorageError, PublicationError}
use parqonaut.Storage.Location.{DatasetLocation, ObjectLocation, object_at}
use parqonaut.Storage.Backend.{ObjectMetadata, must_not_exist}
use parqonaut.Storage.Keys.{writer_lock_key, lock-IsDotted}
use parqonaut.Storage.Records.{WriterLockRecord, Platform, to_json, to_json-ok, read_json_object}
use parqonaut.Storage.Locking.{
  RemotePublicationLock, resolve, reclaim_or_reject, recreate, acquired, acquire, acquire_with,
  raise, call,
}
use parqonaut.Storage.Effects.{
  at, Unchanged, Wrote, Elsewhere, Wrote-Elsewhere, Wrote-here, create-Post, delete-Post,
  resolve-ok,
}

module _ (p : Platform) (ds : DatasetLocation) (run_id : Text) where
  open p use {Bytes, S, backend, join, lock_json}

  abbrev pub lock_record : WriterLockRecord
  lock_record = record { run_id = run_id; version_id = run_id }

  -- The lock's key holds a record of the run, the lock is for that key, and nothing else changed.
  pub record Owned (s : S) (l : RemotePublicationLock) (t : S) : Type 0 where
    pub elsewhere : Elsewhere p ds s t writer_lock_key
    pub document : l.document ≡ lock_record
    pub unreleased : l.released ≡ false
    pub object : object_at join ds writer_lock_key ≡ ok l.lock_object
    pub bytes : Bytes
    pub there : at p ds t writer_lock_key ≡ some bytes
    pub reads : lock_json.from_slice bytes ≡ some lock_record

  -- The run has the lock, or the call failed and touched at most the lock's key.
  abbrev pub Acquires : S → S × Result PublicationError RemotePublicationLock → Type 0
  Acquires s = Post (Owned s) (λ t. Elsewhere p ds s t writer_lock_key)

  module _ (s : S) (o : ObjectLocation) (here : object_at join ds writer_lock_key ≡ ok o) where
    created-Post :
        (u : S) (payload : Bytes)
        → Elsewhere p ds s u writer_lock_key
        → Post
            (λ _ t. Wrote p ds u t writer_lock_key (some payload))
            (λ t. Elsewhere p ds s t writer_lock_key)
            (raise (backend.create u o must_not_exist payload))
    created-Post u payload kept =
        Post-weaken
          (λ _ t.
            Wrote p ds u t writer_lock_key (some payload) × (at p ds u writer_lock_key ≡ none))
          (λ _ t. Wrote p ds u t writer_lock_key (some payload)) (λ t. Unchanged p ds u t)
          (λ t. Elsewhere p ds s t writer_lock_key)
          (raise (backend.create u o must_not_exist payload)) (λ _ t h. h.0)
          (λ t same r d n. same r d ∙ kept r d n)
          (create-Post p ds writer_lock_key o lock-IsDotted here u payload)

    owned :
        (u t : S) (payload : Bytes)
        → Elsewhere p ds s u writer_lock_key
        → Wrote p ds u t writer_lock_key (some payload)
        → to_json lock_json lock_record ≡ ok payload
        → Owned s (record { lock_object = o; document = lock_record; released = false }) t
    owned u t payload kept w json = record {
      elsewhere = λ r d n. Wrote-Elsewhere p ds w r d n ∙ kept r d n;
      document = refl;
      unreleased = refl;
      object = here;
      bytes = payload;
      there = Wrote-here p ds w lock-IsDotted;
      reads = to_json-ok lock_json lock_record payload json;
    }

    recreate-Acquires :
        (u : S) → Elsewhere p ds s u writer_lock_key → Acquires s (recreate p o lock_record u)
    unfolding recreate
    recreate-Acquires u kept = elim (Result-cases (to_json lock_json lock_record)) [
      | inr (x, e) ↦ rw (e, bind_result) kept
      | inl (payload, e) ↦
          rw (e, bind_result)
            (Post-bind (λ _ t. Wrote p ds u t writer_lock_key (some payload)) (Owned s)
              (λ t. Elsewhere p ds s t writer_lock_key)
              (λ _. pure (record { lock_object = o; document = lock_record; released = false }))
              (call (λ t. backend.create t o must_not_exist payload) u)
              (created-Post u payload kept) (λ _ t w. owned u t payload kept w e))
    ]

    reclaim_or_reject-Acquires :
        (u : S)
        → Elsewhere p ds s u writer_lock_key
        → Acquires s (reclaim_or_reject p o lock_record u)
    unfolding reclaim_or_reject
    reclaim_or_reject-Acquires u kept =
        elim (Result-cases (read_json_object backend lock_json u o)) [
          | inr (x, e) ↦ rw (e, bind_result) kept
          | inl (existing, e) ↦ elim (Bool-cases (text_eq existing.run_id run_id)) [
            | inr other ↦ rw (e, bind_result, other) kept
            | inl own ↦
                rw (e, bind_result, own)
                  (Post-bind (λ _ t. Wrote p ds u t writer_lock_key none) (Owned s)
                    (λ t. Elsewhere p ds s t writer_lock_key) (λ _. recreate p o lock_record)
                    (call (λ t. backend.delete_owned t o) u)
                    (Post-weaken (λ _ t. Wrote p ds u t writer_lock_key none)
                      (λ _ t. Wrote p ds u t writer_lock_key none) (λ t. Unchanged p ds u t)
                      (λ t. Elsewhere p ds s t writer_lock_key)
                      (call (λ t. backend.delete_owned t o) u) (λ _ t w. w)
                      (λ t same r d n. same r d ∙ kept r d n)
                      (delete-Post p ds writer_lock_key o lock-IsDotted here u))
                    (λ _ t w.
                      recreate-Acquires t (λ r d n. Wrote-Elsewhere p ds w r d n ∙ kept r d n)))
          ]
        ]

    acquired-Acquires :
        (payload : Bytes) (r : S × Result StorageError ObjectMetadata)
        → to_json lock_json lock_record ≡ ok payload
        → Post
            (λ _ t. Wrote p ds s t writer_lock_key (some payload))
            (λ t. Elsewhere p ds s t writer_lock_key)
            (raise r)
        → Acquires s (acquired p o lock_record r)
    unfolding acquired
    acquired-Acquires payload (t, ok m) json w = owned s t payload (λ r d n. refl) w json
    acquired-Acquires payload (t, err (StorageError.conflict x)) json kept =
        reclaim_or_reject-Acquires t kept
    acquired-Acquires payload (t, err e) json kept = kept

  acquire_with-Acquires : (s : S) → Acquires s (acquire_with p ds run_id s)
  unfolding acquire_with
  acquire_with-Acquires s = elim (Result-cases (resolve p ds writer_lock_key)) [
    | inr (x, e) ↦ rw (e, bind_result) (λ r d n. refl)
    | inl (o, e) ↦ elim (Result-cases (to_json lock_json lock_record)) [
      | inr (x, f) ↦ rw (e, f, bind_result) (λ r d n. refl)
      | inl (payload, f) ↦
          let here = resolve-ok p ds writer_lock_key o e in
          rw (e, f, bind_result)
            (acquired-Acquires s o here payload (backend.create s o must_not_exist payload) f
              (created-Post s o here s payload (λ r d n. refl)))
    ]
  ]

  pub acquire-Acquires : (s : S) → Acquires s (acquire p ds run_id s)
  unfolding acquire
  acquire-Acquires s =
      Post-if (Owned s) (λ t. Elsewhere p ds s t writer_lock_key)
        (not backend.capabilities.conditional_create)
        (throw (
          PublicationError.unsupported (codes "backend lacks conditional_create for writer locks")))
        (acquire_with p ds run_id) s (λ _ r d n. refl) (λ _. acquire_with-Acquires s)
