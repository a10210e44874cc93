-- ===== src/Storage/Footer/Returns.antt =====
-- What crates/parqonaut-storage/src/parquet_range.rs reads of an object that ends as a Parquet file does.
use mathlib.Core.List.{append_assoc}
use parqonaut.Prelude.{
  ℕ, ◌+◌, ◌-◌, ◌≤◌, ◌≡◌, refl, sym, ap, ◌∙◌, true, false, List, [], ◌∷◌, ◌++◌, Result, ok, arith,
  length, length-append, ltb, Text, text_eq,
}
use parqonaut.Storage.Errors.{StorageError}
use parqonaut.Storage.Backend.{ByteRange, ObjectMetadata}
use parqonaut.Storage.Footer.{
  parquet_magic, take, drop, from_le_bytes, parse_metadata_length, checked, read_parquet_footer,
}
use parqonaut.Storage.Footer.Suffix.{Serves, drop-append, read_sized-eq, read_footer-eq}

module _ {ℓ} {A : Type ℓ} where
  take-append : (xs ys : List A) → take (length xs) (xs ++ ys) ≡ xs
  take-append [] ys = refl
  take-append (x ∷ xs) ys = ap (λ zs. x ∷ zs) (take-append xs ys)

  drop-front : (n : ℕ) (xs ys : List A) → n ≡ length xs → drop n (xs ++ ys) ≡ ys
  drop-front n xs ys h = ap (λ k. drop k (xs ++ ys)) h ∙ drop-append xs ys

magic_length : (xs : Text) → length (xs ++ parquet_magic) ≡ length xs + 4
magic_length xs = length-append xs parquet_magic

-- A trailer is four bytes of length and the magic number.
parse_metadata_length-trailer :
    (size : Text)
    → length size ≡ 4
    → parse_metadata_length (size ++ parquet_magic) ≡ ok (from_le_bytes size)
unfolding parse_metadata_length text_eq
parse_metadata_length-trailer size four =
    let eight : length (size ++ parquet_magic) ≡ 8 = omega (arith, magic_length size, four) in
    let first : take 4 (size ++ parquet_magic) ≡ size =
      ap (λ k. take k (size ++ parquet_magic)) (sym four) ∙ take-append size parquet_magic in
    rw (eight, first, drop-front 4 size parquet_magic (sym four)) refl

checked-magic :
    (size n : ℕ) (xs : Text)
    → 4 ≤ length xs
    → checked size n (xs ++ parquet_magic)
      ≡ ok (record { footer = xs ++ parquet_magic; metadata_len = n; object_size = size })
unfolding checked text_eq
checked-magic size n xs long =
    let fits : ltb (length (xs ++ parquet_magic)) 8 ≡ false =
      let whole : length (xs ++ parquet_magic) ≡ length xs + 4 = magic_length xs in ground arith in
    let last : drop (length (xs ++ parquet_magic) - 4) (xs ++ parquet_magic) ≡ parquet_magic =
      drop-front (length (xs ++ parquet_magic) - 4) xs parquet_magic
        (omega (arith, magic_length xs)) in
    rw (fits, last) refl

-- An object ends as a Parquet file does: its metadata, their length in four bytes, the first byte the
-- least, and the magic number. The footer that is read is these parts, whole, with the metadata's
-- length and the object's size, from a backend with range reads that serves the object.
pub read_parquet_footer-whole :
    (bytes : Text) (head : Result StorageError ObjectMetadata)
    (read_range : ByteRange → Result StorageError Text) (front metadata size : Text)
    → length size ≡ 4
    → from_le_bytes size ≡ length metadata
    → bytes ≡ front ++ (metadata ++ (size ++ parquet_magic))
    → Serves bytes head read_range
    → read_parquet_footer true head read_range
      ≡ ok (record {
        footer = metadata ++ (size ++ parquet_magic);
        metadata_len = length metadata;
        object_size = length bytes;
      })
read_parquet_footer-whole bytes head read_range front metadata size four announced parts serves =
    let total : length bytes ≡ length front + (length metadata + 8) =
      ap length parts
      ∙ omega (
        arith,
        length-append front (metadata ++ (size ++ parquet_magic)),
        length-append metadata (size ++ parquet_magic),
        magic_length size,
        four,
      ) in
    let trailer : drop (length bytes - 8) bytes ≡ size ++ parquet_magic =
      ap (λ b. drop (length bytes - 8) b)
        (parts ∙ sym (append_assoc front metadata (size ++ parquet_magic)))
      ∙ drop-front (length bytes - 8) (front ++ metadata) (size ++ parquet_magic)
          (omega (arith, total, length-append front metadata)) in
    let footer : drop (length bytes - (length metadata + 8)) bytes
        ≡ metadata ++ (size ++ parquet_magic) =
      ap (λ b. drop (length bytes - (length metadata + 8)) b) parts
      ∙ drop-front (length bytes - (length metadata + 8)) front
          (metadata ++ (size ++ parquet_magic)) (omega (arith, total)) in
    let parsed : parse_metadata_length (drop (length bytes - 8) bytes) ≡ ok (length metadata) =
      ap parse_metadata_length trailer
      ∙ (parse_metadata_length-trailer size four ∙ ap ok announced) in
    read_sized-eq bytes head read_range serves (omega (arith, total))
    ∙ (rw parsed (
        read_footer-eq bytes head read_range serves (length metadata) (omega (arith, total))
        ∙ (ap (checked (length bytes) (length metadata))
              (footer ∙ sym (append_assoc metadata size parquet_magic))
            ∙ (checked-magic (length bytes) (length metadata) (metadata ++ size)
                  (omega (arith, length-append metadata size, four))
                ∙ rw (append_assoc metadata size parquet_magic) refl))))
