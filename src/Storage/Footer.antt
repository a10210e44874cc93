-- ===== src/Storage/Footer.antt =====
-- crates/parqonaut-storage/src/parquet_range.rs: the footer of a Parquet object, read by ranges. The
-- requests' counters are left out. Bytes are numbers in a list; `head` and `read_range` are those of the
-- backend for the object that is read.
pub mod Suffix
pub mod Returns
pub mod Served
use parqonaut.Prelude.{
  ℕ, zero, suc, ◌+◌, ◌-◌, ◌*◌, Bool, not, ◌&&◌, ◌||◌, List, [], ◌∷◌, Result, ok, err, ◌>>=◌,
  if◌then◌else◌, ltb, leb, ◌==◌, length, Text, codes, text_eq,
}
use parqonaut.Storage.Errors.{StorageError}
use parqonaut.Storage.Backend.{ByteRange, ObjectMetadata, new_range}

abbrev pub footer_trailer_len : ℕ
footer_trailer_len = 8

abbrev pub parquet_magic : Text
parquet_magic = codes "PAR1"

pub record ParquetFooterBytes : Type 0 where
  pub footer : Text
  pub metadata_len : ℕ
  pub object_size : ℕ

abbrev pub take {ℓ} : {A : Type ℓ} → ℕ → List A → List A
take zero xs = []
take (suc n) [] = []
take (suc n) (x ∷ xs) = x ∷ take n xs

abbrev pub drop {ℓ} : {A : Type ℓ} → ℕ → List A → List A
drop zero xs = xs
drop (suc n) [] = []
drop (suc n) (x ∷ xs) = drop n xs

-- The bytes from one position to another, both included, as `slice(start..=end)`.
abbrev pub slice {ℓ} : {A : Type ℓ} → List A → ℕ → ℕ → List A
slice xs start end = take ((end + 1) - start) (drop start xs)

abbrev pub last_four : Text → Text
last_four b = drop (length b - 4) b

unfoldable pub magic_valid : ParquetFooterBytes → Bool
magic_valid f = leb 8 (length f.footer) && text_eq (last_four f.footer) parquet_magic

-- `u32::from_le_bytes`.
unfoldable pub from_le_bytes : Text → ℕ
from_le_bytes [] = 0
from_le_bytes (b ∷ bs) = b + 256 * from_le_bytes bs

unfoldable pub parse_metadata_length : Text → Result StorageError ℕ
parse_metadata_length trailer =
    if not (length trailer == footer_trailer_len)
    then err (StorageError.invalid_location (codes "expected 8-byte Parquet trailer"))
    else if not (text_eq (take 4 (drop 4 trailer)) parquet_magic)
    then err (StorageError.invalid_location (codes "Parquet trailer missing PAR1 magic"))
    else ok (from_le_bytes (take 4 trailer))

-- The check of the footer.
unfoldable pub checked : ℕ → ℕ → Text → Result StorageError ParquetFooterBytes
checked size metadata_len footer =
    if ltb (length footer) footer_trailer_len || not (text_eq (last_four footer) parquet_magic)
    then err (StorageError.invalid_location (codes "Parquet footer missing PAR1 magic"))
    else ok (record { footer = footer; metadata_len = metadata_len; object_size = size })

module _ (read_range : ByteRange → Result StorageError Text) where
  unfoldable pub read_between : ℕ → ℕ → Result StorageError Text
  read_between start end = do range ← new_range start end; read_range range

  -- The footer once the length of its metadata is known.
  unfoldable pub read_metadata : ℕ → Text → ℕ → Result StorageError Text
  unfolding read_between
  read_metadata size trailer metadata_len =
      if size - (metadata_len + footer_trailer_len) == size - footer_trailer_len
      then ok trailer
      else read_between (size - (metadata_len + footer_trailer_len)) (size - 1)

  unfoldable pub read_footer : ℕ → Text → ℕ → Result StorageError ParquetFooterBytes
  unfolding read_metadata checked
  read_footer size trailer metadata_len =
      if ltb size (metadata_len + footer_trailer_len)
      then err (StorageError.invalid_location (codes "invalid Parquet metadata length"))
      else do footer ← read_metadata size trailer metadata_len; checked size metadata_len footer

  unfoldable pub read_sized : ℕ → Result StorageError ParquetFooterBytes
  unfolding read_between read_footer parse_metadata_length
  read_sized size =
      if ltb size footer_trailer_len
      then err (StorageError.invalid_location (codes "object too small for Parquet footer"))
      else do
        trailer ← read_between (size - footer_trailer_len) (size - 1)
        metadata_len ← parse_metadata_length trailer
        read_footer size trailer metadata_len

unfoldable pub read_parquet_footer :
    Bool
    → Result StorageError ObjectMetadata
    → (ByteRange → Result StorageError Text)
    → Result StorageError ParquetFooterBytes
unfolding read_sized
read_parquet_footer range_reads head read_range =
    if not range_reads
    then err (StorageError.unsupported_capability (codes "range_reads"))
    else do meta ← head; read_sized read_range meta.size
