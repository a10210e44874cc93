-- ===== src/Storage/Contents.antt =====
-- What a backend holds under the keys of a dataset (crates/parqonaut-storage/src/location.rs).
-- `join` is the path crate's `Utf8Path::join`, of which the model uses that it keeps two different
-- relative paths that begin with a dot apart.
use parqonaut.Prelude.{
  ◌≡◌, sym, ◌∙◌, ap, false, Option, none, ◌∷◌, ◌++◌, Result, ok, err, >>=-eq-ok, arith,
  if◌then◌else◌, Result-cases, inl, inr, append_left_cancel, Text, trim_start, trim_end, is_empty,
  text_eq, text_eq_iff, text_eq_refl, text_eq_ne, Bool-cases,
}
use parqonaut.Storage.Errors.{StorageError}
use parqonaut.Storage.Location.{
  DatasetLocation, S3Location, ObjectLocation, slash, object_key, object_at,
}
use parqonaut.Storage.Backend.{StorageBackend, Updated, Same}
use parqonaut.Storage.Keys.{IsDotted}

module _ {Bytes S : Type 0} (backend : StorageBackend Bytes S) (join : Text → Text → Text)
    (join_apart : (p a b : Text) → join p (b'.' ∷ a) ≡ join p (b'.' ∷ b) → a ≡ b) where
  object_key_dotted :
      (l : S3Location) (a : Text) (k : Text)
      → object_key l (b'.' ∷ a) ≡ ok k
      → k ≡ (if is_empty l.prefix then b'.' ∷ a else trim_end b'/' l.prefix ++ (slash ++ b'.' ∷ a))
  unfolding object_key trim_start
  object_key_dotted l a k h = ground arith

  dotted_keys_apart :
      (l : S3Location) (a b k : Text)
      → object_key l (b'.' ∷ a) ≡ ok k
      → object_key l (b'.' ∷ b) ≡ ok k
      → a ≡ b
  dotted_keys_apart l a b k h g =
      let e = sym (object_key_dotted l a k h) ∙ object_key_dotted l b k g in
      elim (Bool-cases (is_empty l.prefix)) [
        | inl root ↦ cc (rw root at e)
        | inr nested ↦
            let f : trim_end b'/' l.prefix ++ (slash ++ b'.' ∷ a)
                ≡ trim_end b'/' l.prefix ++ (slash ++ b'.' ∷ b) =
              rw nested at e in
            let t : slash ++ b'.' ∷ a ≡ slash ++ b'.' ∷ b =
              append_left_cancel (trim_end b'/' l.prefix) f in
            cc
      ]

  -- Two keys of one dataset that resolve to one object of the backend are one key.
  object_at_injective :
      (ds : DatasetLocation) (a b : Text) (o p : ObjectLocation)
      → object_at join ds (b'.' ∷ a) ≡ ok o
      → object_at join ds (b'.' ∷ b) ≡ ok p
      → backend.key o ≡ backend.key p
      → a ≡ b
  unfolding object_at
  object_at_injective (DatasetLocation.local l) a b o p h k e =
      let same : backend.key (ObjectLocation.local (join l.path (b'.' ∷ a)))
          ≡ backend.key (ObjectLocation.local (join l.path (b'.' ∷ b))) =
        cc in
      join_apart l.path a b (backend.key-local _ _ same)
  object_at_injective (DatasetLocation.s3 l) a b o p h k e =
      let (m, hm, em) = >>=-eq-ok (object_key l (b'.' ∷ a)) _ h in
      let (n, hn, en) = >>=-eq-ok (object_key l (b'.' ∷ b)) _ k in
      let same : backend.key (ObjectLocation.s3 l.bucket m)
          ≡ backend.key (ObjectLocation.s3 l.bucket n) =
        cc in
      dotted_keys_apart l a b m hm (rw (backend.key-s3 l.bucket m n same) hn)

  -- What the backend holds under a key of a dataset; nothing where the key is refused.
  held : S → Result StorageError ObjectLocation → Option Bytes
  held s (ok o) = backend.lookup s (backend.key o)
  held s (err e) = none

  unfoldable pub content : DatasetLocation → S → Text → Option Bytes
  unfolding held
  content ds s rel = held s (object_at join ds rel)

  pub content-Same :
      (ds : DatasetLocation) (s t : S) (rel : Text)
      → Same backend.lookup s t
      → content ds t rel ≡ content ds s rel
  unfolding content
  content-Same ds s t rel same = elim (Result-cases (object_at join ds rel)) [
    | inl (o, e) ↦ rw (e, held) (same (backend.key o))
    | inr (x, e) ↦ rw (e, held)
  ]

  pub content-ok :
      (ds : DatasetLocation) (s : S) (rel : Text) (o : ObjectLocation)
      → object_at join ds rel ≡ ok o
      → content ds s rel ≡ backend.lookup s (backend.key o)
  unfolding content
  content-ok ds s rel o h = rw (h, held)

  keys_apart :
      (ds : DatasetLocation) (a r : Text) (o p : ObjectLocation)
      → IsDotted a
      → IsDotted r
      → object_at join ds a ≡ ok o
      → object_at join ds r ≡ ok p
      → text_eq a r ≡ false
      → text_eq (backend.key o) (backend.key p) ≡ false
  keys_apart ds a r o p (x, ex) (y, ey) h k differ =
      text_eq_ne (backend.key o) (backend.key p) λ same.
        let e = object_at_injective ds x y o p (rw (← ex) h) (rw (← ey) k) same in
        let whole : a ≡ r = ex ∙ ap (◌∷◌ b'.') e ∙ sym ey in
        cc (sym ((text_eq_iff a r).1 whole) ∙ differ)

  -- An update of one key shows under that key and under no other.
  pub content-Updated :
      (ds : DatasetLocation) (s t : S) (a r : Text) (o : ObjectLocation) (b : Option Bytes)
      → IsDotted a
      → IsDotted r
      → object_at join ds a ≡ ok o
      → Updated backend.lookup s t (backend.key o) b
      → content ds t r ≡ (if text_eq a r then b else content ds s r)
  unfolding content
  content-Updated ds s t a r o b da dr h u = elim (Bool-cases (text_eq a r)) [
    | inl same ↦
        let e = (text_eq_iff a r).0 same in
        rw same
          (content-ok ds t r o (rw (← e) h) ∙ u (backend.key o) ∙ rw (text_eq_refl (backend.key o)))
    | inr differ ↦ rw differ (elim (Result-cases (object_at join ds r)) [
      | inl (p, k) ↦ rw (k, held) (u (backend.key p) ∙ rw (keys_apart ds a r o p da dr h k differ))
      | inr (x, k) ↦ rw (k, held)
    ])
  ]
