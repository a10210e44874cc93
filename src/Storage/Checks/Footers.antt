-- ===== src/Storage/Checks/Footers.antt =====
-- The footers of crates/parqonaut-storage/src/parquet_range.rs in a concrete store.
use parqonaut.Prelude.{
  ◌≡◌, refl, true, [], ◌∷◌, ◌++◌, ok, codes, length, Text, get, text_eq, text_eq_instance,
}
use parqonaut.Storage.Location.{ObjectLocation}
use parqonaut.Storage.Memory.{StoredObject, MemoryState, object_name, etag_of, head, read_range}
use parqonaut.Storage.Footer.{
  ParquetFooterBytes, parquet_magic, from_le_bytes, slice, read_parquet_footer,
}
use parqonaut.Storage.Footer.Suffix.{Serves, IsFooter, read_parquet_footer-IsFooter}
use parqonaut.Storage.Footer.Returns.{read_parquet_footer-whole}
use parqonaut.Storage.Footer.Served.{memory_serves}

abbrev object : ObjectLocation
object = ObjectLocation.s3 (codes "b") (codes "k")

abbrev front : Text
front = 1 ∷ 2 ∷ []

abbrev metadata : Text
metadata = 7 ∷ 8 ∷ 9 ∷ []

abbrev size : Text
size = 3 ∷ 0 ∷ 0 ∷ 0 ∷ []

abbrev stored : StoredObject Text
unfolding etag_of
stored = record {
  bytes = front ++ (metadata ++ (size ++ parquet_magic));
  etag = etag_of length (front ++ (metadata ++ (size ++ parquet_magic)));
  version_id = 1;
}

abbrev store : MemoryState Text
unfolding object_name
store = record { objects = (object_name object, stored) ∷ [] }

served : Serves stored.bytes (head length store object) (read_range length slice store object)
unfolding get object_name text_eq
served = memory_serves store object stored refl

abbrev footer : ParquetFooterBytes
footer = record { footer = metadata ++ (size ++ parquet_magic); metadata_len = 3; object_size = 13 }

read_parquet_footer-whole_example :
    read_parquet_footer true (head length store object) (read_range length slice store object)
    ≡ ok footer
unfolding from_le_bytes stored
read_parquet_footer-whole_example =
    read_parquet_footer-whole stored.bytes (head length store object)
      (read_range length slice store object) front metadata size refl refl refl served

footer-read :
    read_parquet_footer true (head length store object) (read_range length slice store object)
    ≡ ok footer
unfolding from_le_bytes stored
footer-read =
    read_parquet_footer-whole stored.bytes (head length store object)
      (read_range length slice store object) front metadata size refl refl refl served

read_parquet_footer-IsFooter_example : IsFooter stored.bytes footer
read_parquet_footer-IsFooter_example =
    read_parquet_footer-IsFooter stored.bytes true (head length store object)
      (read_range length slice store object) footer served footer-read
