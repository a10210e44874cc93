-- ===== src/Storage/Memory.antt =====
-- crates/parqonaut-storage/src/memory.rs: the in-memory backend. The request counters of its metrics
-- are left out, and so is `list`. `Bytes`, its `len` and its `slice` are the bytes crate's.
pub mod Laws
pub mod Ranges
use Prim.Native.Nat.{◌%◌}
use parqonaut.Prelude.{
  ℕ, zero, suc, ◌+◌, ◌-◌, ◌/◌, min, Bool, true, false, not, ◌&&◌, Option, none, some, List, [], ◌∷◌,
  ◌++◌, Result, ok, err, ◌>>=◌, ok_or, if◌then◌else◌, ltb, leb, ◌==◌, length, Text, codes,
  starts_with, text_eq, Dict, get, insert, remove, text_eq_instance,
}
use parqonaut.Storage.Errors.{StorageError}
use parqonaut.Storage.Location.{ObjectLocation, slash, display_uri}
use parqonaut.Storage.Backend.{
  ByteRange, StorageCapabilities, ObjectMetadata, ConditionalCreate, ConditionalReplace,
}

-- The decimal digits of a number, as `format!("{}")` prints them.
decimal_fuel : ℕ → ℕ → Text
decimal_fuel zero n = []
decimal_fuel (suc fuel) n =
    let high = decimal_fuel fuel (n / 10) in
    if ltb n 10 then (b'0' + n) ∷ [] else high ++ (b'0' + n % 10) ∷ []

unfoldable pub decimal : ℕ → Text
unfolding decimal_fuel
decimal n = decimal_fuel (suc n) n

-- `MemoryStorageBackend::key`.
unfoldable pub object_name : ObjectLocation → Text
object_name (ObjectLocation.local path) = codes "local:" ++ path
object_name (ObjectLocation.s3 bucket key) = codes "s3:" ++ (bucket ++ (slash ++ key))

-- `str::strip_prefix` and `str::split_once('/')`.
unfoldable pub strip_prefix : Text → Text → Option Text
strip_prefix s [] = some s
strip_prefix [] (p ∷ ps) = none
strip_prefix (c ∷ s) (p ∷ ps) = let rest = strip_prefix s ps in if c == p then rest else none

add_first : ℕ → Option (Text × Text) → Option (Text × Text)
add_first c none = none
add_first c (some (before, after)) = some (c ∷ before, after)

unfoldable pub split_once : Text → Option (Text × Text)
unfolding add_first
split_once [] = none
split_once (c ∷ s) = let rest = split_once s in if c == b'/' then some ([], s) else add_first c rest

bucket_and_key : Text → Option (Text × Text) → ObjectLocation
bucket_and_key rest none = ObjectLocation.s3 rest []
bucket_and_key rest (some (bucket, key)) = ObjectLocation.s3 bucket key

after_local : Text → Option Text → Option Text → ObjectLocation
unfolding bucket_and_key
after_local name (some rest) _ = ObjectLocation.local rest
after_local name none (some rest) = bucket_and_key rest (split_once rest)
after_local name none none = ObjectLocation.local name

unfoldable pub location_of_name : Text → ObjectLocation
unfolding after_local strip_prefix split_once
location_of_name name =
    after_local name (strip_prefix name (codes "local:")) (strip_prefix name (codes "s3:"))

abbrev is_some {ℓ} : {A : Type ℓ} → Option A → Bool
is_some (some _) = true
is_some none = false

-- `expected.as_deref() == Some(actual)`.
abbrev expects : Option Text → Text → Bool
expects none actual = false
expects (some t) actual = text_eq t actual

pub record StoredObject (Bytes : Type 0) : Type 0 where
  pub bytes : Bytes
  pub etag : Text
  pub version_id : ℕ

pub record MemoryState (Bytes : Type 0) : Type 0 where
  pub objects : Dict Text (StoredObject Bytes)

unfoldable pub delete_owned_object :
    {Bytes : Type 0}
    → MemoryState Bytes
    → ObjectLocation
    → MemoryState Bytes × Result StorageError (Unit {0})
delete_owned_object s o = (record { objects = remove (object_name o) s.objects }, ok tt)

module _ {Bytes : Type 0} (len : Bytes → ℕ) where
  unfoldable pub etag_of : Bytes → Text
  etag_of b = codes "mem-" ++ decimal (len b)

  unfoldable pub metadata_from_key : Text → StoredObject Bytes → ObjectMetadata
  metadata_from_key name stored = record {
    location = location_of_name name;
    size = len stored.bytes;
    etag = some stored.etag;
    version_id = some (decimal stored.version_id);
  }

  unfoldable pub head : MemoryState Bytes → ObjectLocation → Result StorageError ObjectMetadata
  unfolding metadata_from_key
  head s o = do
    stored ← ok_or (get (object_name o) s.objects) (StorageError.not_found (display_uri o))
    ok (metadata_from_key (object_name o) stored)

  unfoldable pub read_range :
      (Bytes → ℕ → ℕ → Bytes)
      → MemoryState Bytes
      → ObjectLocation
      → ByteRange
      → Result StorageError Bytes
  read_range slice s o range = do
    _ ← head s o
    stored ← ok_or (get (object_name o) s.objects) (StorageError.not_found (display_uri o))
    let last = min range.end (len stored.bytes - 1)
    if leb (len stored.bytes) range.start
        then err (StorageError.invalid_location (codes "range start beyond object size"))
        else ok (slice stored.bytes range.start last)

  unfoldable pub read_stream :
      (Bytes → ℕ → ℕ → Bytes)
      → MemoryState Bytes
      → ObjectLocation
      → Option ByteRange
      → Result StorageError Bytes
  unfolding read_range
  read_stream slice s o (some range) = read_range slice s o range
  read_stream slice s o none = do
    stored ← ok_or (get (object_name o) s.objects) (StorageError.not_found (display_uri o))
    ok stored.bytes

  -- The object under a name is set, and its metadata returned.
  put :
      MemoryState Bytes
      → Text
      → StoredObject Bytes
      → MemoryState Bytes × Result StorageError ObjectMetadata
  put s name stored =
      (record { objects = insert name stored s.objects }, ok (metadata_from_key name stored))

  module _ (capabilities : StorageCapabilities) where
    unfoldable pub write_stream : Result StorageError (Unit {0})
    write_stream =
        if not capabilities.stream_writes
        then err (StorageError.unsupported_capability (codes "stream_writes"))
        else err (
            StorageError.unsupported_capability
              (codes "memory write_stream use conditional_create in tests"))

    unfoldable pub conditional_create :
        MemoryState Bytes
        → ObjectLocation
        → ConditionalCreate
        → Bytes
        → MemoryState Bytes × Result StorageError ObjectMetadata
    unfolding put
    conditional_create s o condition b =
        if not capabilities.conditional_create
        then (s, err (StorageError.unsupported_capability (codes "conditional_create")))
        else if condition.if_absent && is_some (get (object_name o) s.objects)
        then (s, err (StorageError.conflict (codes "object already exists: " ++ object_name o)))
        else put s (object_name o)
            (record { bytes = b; etag = etag_of b; version_id = length s.objects + 1 })

    -- The branch of `conditional_replace` on an object that is there.
    replace_existing :
        MemoryState Bytes
        → ObjectLocation
        → ConditionalReplace
        → Bytes
        → StoredObject Bytes
        → MemoryState Bytes × Result StorageError ObjectMetadata
    unfolding put
    replace_existing s o condition b existing =
        if not (expects condition.expected_etag existing.etag)
        then (s, err (StorageError.precondition_failed (codes "etag mismatch")))
        else put s (object_name o)
            (record { bytes = b; etag = etag_of b; version_id = existing.version_id + 1 })

    replace_found :
        MemoryState Bytes
        → ObjectLocation
        → ConditionalReplace
        → Bytes
        → Option (StoredObject Bytes)
        → MemoryState Bytes × Result StorageError ObjectMetadata
    unfolding replace_existing
    replace_found s o condition b none = (s, err (StorageError.not_found (display_uri o)))
    replace_found s o condition b (some existing) = replace_existing s o condition b existing

    unfoldable pub conditional_replace :
        MemoryState Bytes
        → ObjectLocation
        → ConditionalReplace
        → Bytes
        → MemoryState Bytes × Result StorageError ObjectMetadata
    unfolding replace_found
    conditional_replace s o condition b =
        if not capabilities.conditional_replace
        then (s, err (StorageError.unsupported_capability (codes "conditional_replace")))
        else replace_found s o condition b (get (object_name o) s.objects)
