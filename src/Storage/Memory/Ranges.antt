-- ===== src/Storage/Memory/Ranges.antt =====
-- The range reads of crates/parqonaut-storage/src/memory.rs.
use parqonaut.Prelude.{
  ℕ, ◌+◌, ◌-◌, ◌<◌, ◌≤◌, min, leb, ◌≡◌, false, some, ok, arith, Option-cases, inl, inr, get,
  text_eq_instance,
}
use parqonaut.Storage.Location.{ObjectLocation}
use parqonaut.Storage.Backend.{ByteRange}
use parqonaut.Storage.Memory.{MemoryState, StoredObject, object_name, head, read_range}

-- A range read that succeeds reads within the object: it starts at the range's start, which is less
-- than the object's size, and ends, with that byte included, at the range's end or at the object's
-- last byte, whichever comes first.
pub read_range-within :
    {Bytes : Type 0} (len : Bytes → ℕ) (slice : Bytes → ℕ → ℕ → Bytes) (s : MemoryState Bytes)
    (o : ObjectLocation) (range : ByteRange) (b : Bytes)
    → read_range len slice s o range ≡ ok b
    → (stored : StoredObject Bytes) × (last : ℕ) × (get (object_name o) s.objects ≡ some stored)
      × (b ≡ slice stored.bytes range.start last)
      × (range.start < len stored.bytes)
      × (last < len stored.bytes)
      × (last ≤ range.end)
      × (range.end < len stored.bytes → last ≡ range.end)
      × (len stored.bytes ≤ range.end → last + 1 ≡ len stored.bytes)
unfolding read_range head
read_range-within len slice s o range b h = elim (Option-cases (get (object_name o) s.objects)) [
  | inl gone ↦ absurd (ground arith)
  | inr (stored, there) ↦
      let inside : leb (len stored.bytes) range.start ≡ false = ground arith in
      (
        stored,
        min range.end (len stored.bytes - 1),
        there,
        ground arith,
        ground arith,
        ground arith,
        ground arith,
        λ short. ground arith,
        λ long. ground arith,
      )
]
