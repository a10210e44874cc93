-- ===== src/Storage/Memory/Laws.antt =====
-- The in-memory backend of crates/parqonaut-storage/src/memory.rs keeps the laws of a backend.
use mathlib.Core.Option
use parqonaut.Prelude.{
  ℕ, ◌+◌, ◌≡◌, refl, ◌≢◌, true, Option, none, some, [], ◌∷◌, ◌++◌, ok, err, arith,
  append_left_cancel, Option-cases, inl, inr, Text, codes, text_eq, text_eq_refl, get, get-insert,
  get-remove, text_eq_instance,
}
use parqonaut.Storage.Errors.{StorageError}
use parqonaut.Storage.Location.{ObjectLocation, slash}
use parqonaut.Storage.Backend.{
  StorageCapabilities, ObjectMetadata, ConditionalCreate, ConditionalReplace, StorageBackend,
  Updated, Same, must_not_exist,
}
use parqonaut.Storage.Memory.{
  MemoryState, StoredObject, object_name, location_of_name, split_once, etag_of, metadata_from_key,
  head, read_stream, conditional_create, conditional_replace, delete_owned_object,
}

unfoldable pub lookup : {Bytes : Type 0} → MemoryState Bytes → Text → Option Bytes
lookup s k = Option.map (λ o. o.bytes) (get k s.objects)

pub delete_ok_lem :
    {Bytes : Type 0} (s : MemoryState Bytes) (o : ObjectLocation)
    → Updated lookup s (delete_owned_object s o).0 (object_name o) none
unfolding delete_owned_object lookup
delete_ok_lem s o k = ground (arith, get-remove (object_name o) k s.objects)

pub delete_err_lem :
    {Bytes : Type 0} (s : MemoryState Bytes) (o : ObjectLocation) (e : StorageError)
    → (delete_owned_object s o).1 ≡ err e
    → Same lookup s (delete_owned_object s o).0
unfolding delete_owned_object
delete_err_lem s o e h k = cc

module _ {Bytes : Type 0} (len : Bytes → ℕ) (slice : Bytes → ℕ → ℕ → Bytes) where
  pub head_ok_lem :
      (s : MemoryState Bytes) (o : ObjectLocation) (m : ObjectMetadata)
      → head len s o ≡ ok m
      → (b : Bytes) × (lookup s (object_name o) ≡ some b)
  unfolding head lookup
  head_ok_lem s o m h = elim (Option-cases (get (object_name o) s.objects)) [
    | inl e ↦ absurd (ground arith)
    | inr (x, e) ↦ (x.bytes, rw e)
  ]

  pub head_not_found_lem :
      (s : MemoryState Bytes) (o : ObjectLocation) (t : Text)
      → head len s o ≡ err (StorageError.not_found t)
      → lookup s (object_name o) ≡ none
  unfolding head lookup
  head_not_found_lem s o t h = ground arith

  pub read_ok_lem :
      (s : MemoryState Bytes) (o : ObjectLocation) (b : Bytes)
      → read_stream len slice s o none ≡ ok b
      → lookup s (object_name o) ≡ some b
  unfolding read_stream lookup
  read_ok_lem s o b h = ground arith

  pub read_not_found_lem :
      (s : MemoryState Bytes) (o : ObjectLocation) (t : Text)
      → read_stream len slice s o none ≡ err (StorageError.not_found t)
      → lookup s (object_name o) ≡ none
  unfolding read_stream lookup
  read_not_found_lem s o t h = ground arith

  module _ (caps : StorageCapabilities) where
    pub create_ok_lem :
        (s : MemoryState Bytes) (o : ObjectLocation) (c : ConditionalCreate) (b : Bytes)
        (m : ObjectMetadata)
        → (conditional_create len caps s o c b).1 ≡ ok m
        → Updated lookup s (conditional_create len caps s o c b).0 (object_name o) (some b)
    unfolding conditional_create lookup
    create_ok_lem s o c b m h k = grind (arith, get-insert)

    pub create_absent_lem :
        (s : MemoryState Bytes) (o : ObjectLocation) (b : Bytes) (m : ObjectMetadata)
        → (conditional_create len caps s o must_not_exist b).1 ≡ ok m
        → lookup s (object_name o) ≡ none
    unfolding conditional_create lookup
    create_absent_lem s o b m h = ground arith

    pub create_err_lem :
        (s : MemoryState Bytes) (o : ObjectLocation) (c : ConditionalCreate) (b : Bytes)
        (e : StorageError)
        → (conditional_create len caps s o c b).1 ≡ err e
        → Same lookup s (conditional_create len caps s o c b).0
    unfolding conditional_create
    create_err_lem s o c b e h k = ground arith

    pub replace_ok_lem :
        (s : MemoryState Bytes) (o : ObjectLocation) (c : ConditionalReplace) (b : Bytes)
        (m : ObjectMetadata)
        → (conditional_replace len caps s o c b).1 ≡ ok m
        → Updated lookup s (conditional_replace len caps s o c b).0 (object_name o) (some b)
    unfolding conditional_replace lookup
    replace_ok_lem s o c b m h k = grind (arith, get-insert)

    pub replace_err_lem :
        (s : MemoryState Bytes) (o : ObjectLocation) (c : ConditionalReplace) (b : Bytes)
        (e : StorageError)
        → (conditional_replace len caps s o c b).1 ≡ err e
        → Same lookup s (conditional_replace len caps s o c b).0
    unfolding conditional_replace
    replace_err_lem s o c b e h k = ground arith

pub object_name-local :
    (p q : Text)
    → object_name (ObjectLocation.local p) ≡ object_name (ObjectLocation.local q)
    → p ≡ q
unfolding object_name
object_name-local p q h = append_left_cancel (codes "local:") h

pub object_name-s3 :
    (b k l : Text)
    → object_name (ObjectLocation.s3 b k) ≡ object_name (ObjectLocation.s3 b l)
    → k ≡ l
unfolding object_name
object_name-s3 b k l h =
    let after_scheme : b ++ (slash ++ k) ≡ b ++ (slash ++ l) = append_left_cancel (codes "s3:") h in
    let after_bucket : slash ++ k ≡ slash ++ l = append_left_cancel b after_scheme in
    append_left_cancel slash after_bucket

-- The in-memory backend as a backend.
abbrev pub memory_backend :
    {Bytes : Type 0}
    → (Bytes → ℕ)
    → (Bytes → ℕ → ℕ → Bytes)
    → StorageCapabilities
    → StorageBackend Bytes (MemoryState Bytes)
memory_backend len slice caps = record {
  capabilities = caps;
  head = head len;
  read_all = λ s o. read_stream len slice s o none;
  create = conditional_create len caps;
  replace = conditional_replace len caps;
  delete_owned = delete_owned_object;
  key = object_name;
  lookup = lookup;
  key-local = object_name-local;
  key-s3 = object_name-s3;
  head-ok = head_ok_lem len slice;
  head-not_found = head_not_found_lem len slice;
  read-ok = read_ok_lem len slice;
  read-not_found = read_not_found_lem len slice;
  create-ok = create_ok_lem len slice caps;
  create-absent = create_absent_lem len slice caps;
  create-err = create_err_lem len slice caps;
  replace-ok = replace_ok_lem len slice caps;
  replace-err = replace_err_lem len slice caps;
  delete-ok = λ s o u _. delete_ok_lem s o;
  delete-err = delete_err_lem;
}

-- Without a slash, a text is the bucket of the name that it starts.
unfoldable NoSlash : Text → Type 0
NoSlash [] = Unit
NoSlash (c ∷ s) = (c ≢ b'/') × NoSlash s

split_once-bucket :
    (bucket key : Text)
    → NoSlash bucket
    → split_once (bucket ++ (slash ++ key)) ≡ some (bucket, key)
unfolding split_once NoSlash
split_once-bucket [] key h = refl
split_once-bucket (c ∷ s) key h = rw (split_once-bucket s key h.1) (ground arith)

location_of_name-object_name :
    (bucket key : Text)
    → NoSlash bucket
    → location_of_name (object_name (ObjectLocation.s3 bucket key)) ≡ ObjectLocation.s3 bucket key
unfolding location_of_name object_name
location_of_name-object_name bucket key h = rw (split_once-bucket bucket key h)

-- A head request that succeeds reports the location that it was asked for, where the bucket's name
-- has no slash, the size of the object and its stored etag.
head_metadata :
    {Bytes : Type 0} (len : Bytes → ℕ) (s : MemoryState Bytes) (bucket key : Text)
    (m : ObjectMetadata)
    → NoSlash bucket
    → head len s (ObjectLocation.s3 bucket key) ≡ ok m
    → (m.location ≡ ObjectLocation.s3 bucket key)
      × (stored : StoredObject Bytes) × (get (object_name (ObjectLocation.s3 bucket key)) s.objects
          ≡ some stored)
      × (m.size ≡ len stored.bytes)
      × (m.etag ≡ some stored.etag)
unfolding head metadata_from_key
head_metadata len s bucket key m n h =
    elim (Option-cases (get (object_name (ObjectLocation.s3 bucket key)) s.objects)) [
      | inl e ↦ absurd (ground arith)
      | inr (x, e) ↦ (
        ground (arith, location_of_name-object_name bucket key n),
        x,
        e,
        ground arith,
        ground arith,
      )
    ]

-- Two objects of one length have one etag, so a replacement that expects the etag of any content of
-- the same length is never refused for its etag: it succeeds, the object then holds the new bytes in
-- place of what another writer has put there, and no other object changes.
pub conditional_replace-same_length :
    {Bytes : Type 0} (len : Bytes → ℕ) (caps : StorageCapabilities) (s : MemoryState Bytes)
    (o : ObjectLocation) (seen b : Bytes) (version : Option Text) (there : StoredObject Bytes)
    → caps.conditional_replace ≡ true
    → get (object_name o) s.objects ≡ some there
    → there.etag ≡ etag_of len there.bytes
    → len seen ≡ len there.bytes
    → let condition : ConditionalReplace = record {
      expected_etag = some (etag_of len seen);
      expected_version_id = version;
    } in
      ((conditional_replace len caps s o condition b).1
        ≡ ok (
            metadata_from_key len
              (object_name o)
              (record { bytes = b; etag = etag_of len b; version_id = there.version_id + 1 })))
      × Updated lookup s (conditional_replace len caps s o condition b).0 (object_name o) (some b)
unfolding conditional_replace etag_of
conditional_replace-same_length {Bytes} len caps s o seen b version there c g t l =
    let same : text_eq (etag_of len seen) there.etag ≡ true =
      rw (t, l) (text_eq_refl (etag_of len there.bytes)) in
    let condition : ConditionalReplace = record {
      expected_etag = some (etag_of len seen);
      expected_version_id = version;
    } in
    let written : StoredObject Bytes = record {
      bytes = b;
      etag = etag_of len b;
      version_id = there.version_id + 1;
    } in
    let replaced : (conditional_replace len caps s o condition b).1
        ≡ ok (metadata_from_key len (object_name o) written) =
      ground (arith, same) in
    (
      replaced,
      replace_ok_lem len (λ x _ _. x) caps s o condition b
          (metadata_from_key len (object_name o) written) replaced,
    )
