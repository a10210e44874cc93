-- ===== src/Storage/Backend.antt =====
-- crates/parqonaut-storage/src/backend.rs, capabilities.rs, conditional.rs and metadata.rs: what a
-- storage backend offers. The trait is a record of its operations on a state `S`, with the laws that
-- the publication protocol relies on; storage/src/memory.rs fills it in Memory.antt.
use parqonaut.Prelude.{
  ℕ, ◌+◌, ◌-◌, ◌≡◌, Bool, true, Option, none, some, Result, ok, err, if◌then◌else◌, ltb, Text,
  codes, text_eq,
}
use parqonaut.Storage.Errors.{StorageError}
use parqonaut.Storage.Location.{ObjectLocation}

-- Both ends are included.
pub record ByteRange : Type 0 where
  pub start : ℕ
  pub end : ℕ

unfoldable pub new_range : ℕ → ℕ → Result StorageError ByteRange
new_range start end =
    if ltb end start
    then err (StorageError.invalid_location (codes "invalid byte range"))
    else ok (record { start = start; end = end })

-- `saturating_sub`, then the u64 addition; the sum does not wrap for a range that `new` admits and
-- that is not all of u64.
pub range_len : ByteRange → ℕ
range_len r = (r.end - r.start) + 1

pub record StorageCapabilities : Type 0 where
  pub range_reads : Bool
  pub stream_reads : Bool
  pub stream_writes : Bool
  pub multipart_upload : Bool
  pub conditional_create : Bool
  pub conditional_replace : Bool
  pub server_side_copy : Bool
  pub version_ids : Bool

abbrev pub s3_capabilities : StorageCapabilities
s3_capabilities = record {
  range_reads = true;
  stream_reads = true;
  stream_writes = true;
  multipart_upload = true;
  conditional_create = true;
  conditional_replace = true;
  server_side_copy = true;
  version_ids = true;
}

pub record ObjectMetadata : Type 0 where
  pub location : ObjectLocation
  pub size : ℕ
  pub etag : Option Text
  pub version_id : Option Text

pub record ConditionalCreate : Type 0 where
  pub if_absent : Bool

abbrev pub must_not_exist : ConditionalCreate
must_not_exist = record { if_absent = true }

pub record ConditionalReplace : Type 0 where
  pub expected_etag : Option Text
  pub expected_version_id : Option Text

abbrev pub matching : ObjectMetadata → ConditionalReplace
matching m = record { expected_etag = m.etag; expected_version_id = m.version_id }

module _ {Bytes S : Type 0} (lookup : S → Text → Option Bytes) where
  -- The two states hold the same objects.
  abbrev pub Same : S → S → Type 0
  Same s t = (k : Text) → lookup t k ≡ lookup s k

  -- The second state differs by what it holds under one key.
  abbrev pub Updated : S → S → Text → Option Bytes → Type 0
  Updated s t key b = (k : Text) → lookup t k ≡ (if text_eq key k then b else lookup s k)

-- A call that returns an error has changed no object.
pub record StorageBackend (Bytes S : Type 0) : Type 0 where
  pub capabilities : StorageCapabilities
  pub head : S → ObjectLocation → Result StorageError ObjectMetadata
  pub read_all : S → ObjectLocation → Result StorageError Bytes
  pub create :
      S → ObjectLocation → ConditionalCreate → Bytes → S × Result StorageError ObjectMetadata
  pub replace :
      S → ObjectLocation → ConditionalReplace → Bytes → S × Result StorageError ObjectMetadata
  pub delete_owned : S → ObjectLocation → S × Result StorageError (Unit {0})
  pub key : ObjectLocation → Text
  pub lookup : S → Text → Option Bytes
  pub key-local : (p q : Text) → key (ObjectLocation.local p) ≡ key (ObjectLocation.local q) → p ≡ q
  pub key-s3 : (b k l : Text) → key (ObjectLocation.s3 b k) ≡ key (ObjectLocation.s3 b l) → k ≡ l
  pub head-ok :
      (s : S) (o : ObjectLocation) (m : ObjectMetadata)
      → head s o ≡ ok m
      → (b : Bytes) × (lookup s (key o) ≡ some b)
  pub head-not_found :
      (s : S) (o : ObjectLocation) (t : Text)
      → head s o ≡ err (StorageError.not_found t)
      → lookup s (key o) ≡ none
  pub read-ok :
      (s : S) (o : ObjectLocation) (b : Bytes) → read_all s o ≡ ok b → lookup s (key o) ≡ some b
  pub read-not_found :
      (s : S) (o : ObjectLocation) (t : Text)
      → read_all s o ≡ err (StorageError.not_found t)
      → lookup s (key o) ≡ none
  pub create-ok :
      (s : S) (o : ObjectLocation) (c : ConditionalCreate) (b : Bytes) (m : ObjectMetadata)
      → (create s o c b).1 ≡ ok m
      → Updated lookup s (create s o c b).0 (key o) (some b)
  pub create-absent :
      (s : S) (o : ObjectLocation) (b : Bytes) (m : ObjectMetadata)
      → (create s o must_not_exist b).1 ≡ ok m
      → lookup s (key o) ≡ none
  pub create-err :
      (s : S) (o : ObjectLocation) (c : ConditionalCreate) (b : Bytes) (e : StorageError)
      → (create s o c b).1 ≡ err e
      → Same lookup s (create s o c b).0
  pub replace-ok :
      (s : S) (o : ObjectLocation) (c : ConditionalReplace) (b : Bytes) (m : ObjectMetadata)
      → (replace s o c b).1 ≡ ok m
      → Updated lookup s (replace s o c b).0 (key o) (some b)
  pub replace-err :
      (s : S) (o : ObjectLocation) (c : ConditionalReplace) (b : Bytes) (e : StorageError)
      → (replace s o c b).1 ≡ err e
      → Same lookup s (replace s o c b).0
  pub delete-ok :
      (s : S) (o : ObjectLocation) (u : Unit {0})
      → (delete_owned s o).1 ≡ ok u
      → Updated lookup s (delete_owned s o).0 (key o) none
  pub delete-err :
      (s : S) (o : ObjectLocation) (e : StorageError)
      → (delete_owned s o).1 ≡ err e
      → Same lookup s (delete_owned s o).0
