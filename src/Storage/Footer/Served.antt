-- ===== src/Storage/Footer/Served.antt =====
-- The in-memory backend of crates/parqonaut-storage/src/memory.rs, with lists of bytes as its bytes,
-- serves the ranges that parquet_range.rs asks for.
use parqonaut.Prelude.{
  ◌-◌, ◌≡◌, refl, min, false, some, arith, length, leb, Text, get, text_eq_instance,
}
use parqonaut.Storage.Location.{ObjectLocation}
use parqonaut.Storage.Memory.{
  MemoryState, StoredObject, object_name, metadata_from_key, head, read_range,
}
use parqonaut.Storage.Footer.{slice}
use parqonaut.Storage.Footer.Suffix.{Serves}

pub memory_serves :
    (s : MemoryState Text) (o : ObjectLocation) (stored : StoredObject Text)
    → get (object_name o) s.objects ≡ some stored
    → Serves stored.bytes (head length s o) (read_range length slice s o)
unfolding head read_range metadata_from_key
memory_serves s o stored here = record {
  meta = metadata_from_key length (object_name o) stored;
  found = rw here refl;
  size = refl;
  ranges = λ r ordered inside.
      let starts : leb (length stored.bytes) r.start ≡ false = ground arith in
      let last : min r.end (length stored.bytes - 1) ≡ r.end = omega (arith, inside) in
      rw (here, starts, last) refl;
}
