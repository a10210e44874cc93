-- ===== src/Storage/Checks/Objects.antt =====
-- The in-memory backend of crates/parqonaut-storage/src/memory.rs at a concrete store.
use parqonaut.Prelude.{
  ℕ, ◌<◌, ◌≤◌, ◌≡◌, refl, some, [], ◌∷◌, ok, ◌+◌, codes, get, text_eq, text_eq_instance,
}
use parqonaut.Storage.Location.{ObjectLocation}
use parqonaut.Storage.Backend.{ByteRange, Updated, s3_capabilities}
use parqonaut.Storage.Checks.Platforms.{Document, document_len, document_slice}
use parqonaut.Storage.Memory.{
  StoredObject, MemoryState, head, read_range, etag_of, metadata_from_key, object_name,
  conditional_replace,
}
use parqonaut.Storage.Memory.Ranges.{read_range-within}
use parqonaut.Storage.Memory.Laws.{lookup, conditional_replace-same_length}

abbrev location : ObjectLocation
location = ObjectLocation.s3 (codes "b") (codes "k")

abbrev stored : StoredObject Document
unfolding etag_of
stored = record {
  bytes = Document.plain (codes "one");
  etag = etag_of document_len (Document.plain (codes "one"));
  version_id = 1;
}

abbrev store : MemoryState Document
unfolding object_name
store = record { objects = (object_name location, stored) ∷ [] }

store-get : get (object_name location) store.objects ≡ some stored
unfolding get object_name text_eq
store-get = refl

head-ok :
    head document_len store location
    ≡ ok (metadata_from_key document_len (object_name location) stored)
unfolding head metadata_from_key get object_name text_eq
head-ok = refl

conditional_replace-same_length_example :
    ((conditional_replace document_len s3_capabilities store location
        (record {
          expected_etag = some (etag_of document_len (Document.plain (codes "two")));
          expected_version_id = some (codes "9");
        })
        (Document.plain (codes "new"))).1
      ≡ ok (
          metadata_from_key document_len (object_name location) (record {
            bytes = Document.plain (codes "new");
            etag = etag_of document_len (Document.plain (codes "new"));
            version_id = 1 + 1;
          })))
    × Updated lookup store
        (conditional_replace document_len s3_capabilities store location
          (record {
            expected_etag = some (etag_of document_len (Document.plain (codes "two")));
            expected_version_id = some (codes "9");
          })
          (Document.plain (codes "new"))).0
        (object_name location)
        (some (Document.plain (codes "new")))
unfolding etag_of stored
conditional_replace-same_length_example =
    conditional_replace-same_length document_len s3_capabilities store location
      (Document.plain (codes "two")) (Document.plain (codes "new")) (some (codes "9")) stored refl
      store-get refl refl

abbrev range : ByteRange
range = record { start = 2; end = 4 }

range-ok :
    read_range document_len document_slice store location range ≡ ok (Document.plain (codes "one"))
unfolding read_range head get object_name text_eq stored
range-ok = refl

read_range-within_example :
    (o : StoredObject Document) × (last : ℕ) × (get (object_name location) store.objects ≡ some o)
    × (Document.plain (codes "one") ≡ document_slice o.bytes 2 last)
    × (2 < document_len o.bytes)
    × (last < document_len o.bytes)
    × (last ≤ 4)
    × (4 < document_len o.bytes → last ≡ 4)
    × (document_len o.bytes ≤ 4 → last + 1 ≡ document_len o.bytes)
read_range-within_example =
    read_range-within document_len document_slice store location range
      (Document.plain (codes "one")) range-ok
