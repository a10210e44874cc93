-- ===== src/Storage/Footer/Suffix.antt =====
-- The footer that crates/parqonaut-storage/src/parquet_range.rs reads, as a suffix of the object.
use parqonaut.Prelude.{
  ◌>>=◌, >>=-eq-ok, ℕ, zero, suc, ◌+◌, ◌-◌, ◌≤◌, ◌<◌, ◌≡◌, refl, sym, ap, ◌∙◌, true, false, List,
  [], ◌∷◌, ◌++◌, Result, ok, arith, length, ltb, Text, Bool-cases, inl, inr, Bool, ◌==◌, not, ◌||◌,
  text_eq, subst,
}
use parqonaut.Storage.Errors.{StorageError}
use parqonaut.Storage.Backend.{ByteRange, ObjectMetadata, new_range}
use parqonaut.Storage.Footer.{
  ParquetFooterBytes, last_four, parquet_magic, magic_valid, take, drop, slice, footer_trailer_len,
  parse_metadata_length, read_between, read_metadata, checked, read_footer, read_sized,
  read_parquet_footer,
}

module _ {ℓ} {A : Type ℓ} where
  take-all : (n : ℕ) (xs : List A) → length xs ≤ n → take n xs ≡ xs
  take-all zero [] h = refl
  take-all (suc n) [] h = refl
  take-all zero (x ∷ xs) h = absurd (omega (arith, h))
  take-all (suc n) (x ∷ xs) h = ap (λ ys. x ∷ ys) (take-all n xs (omega (arith, h)))

  pub length-drop : (n : ℕ) (xs : List A) → length (drop n xs) ≡ length xs - n
  length-drop zero xs = omega arith
  length-drop (suc n) [] = omega arith
  length-drop (suc n) (x ∷ xs) = length-drop n xs ∙ omega arith

  take-drop : (n : ℕ) (xs : List A) → take n xs ++ drop n xs ≡ xs
  take-drop zero xs = refl
  take-drop (suc n) [] = refl
  take-drop (suc n) (x ∷ xs) = ap (λ ys. x ∷ ys) (take-drop n xs)

  drop-nil : (n : ℕ) → drop {A = A} n [] ≡ []
  drop-nil zero = refl
  drop-nil (suc n) = refl

  drop-drop : (m n : ℕ) (xs : List A) → drop m (drop n xs) ≡ drop (n + m) xs
  drop-drop m zero xs = ap (λ k. drop k xs) (omega arith)
  drop-drop m (suc n) [] = drop-nil m ∙ sym (drop-nil (suc n + m))
  drop-drop m (suc n) (x ∷ xs) =
      let step : suc (n + m) ≡ suc n + m = omega arith in
      drop-drop m n xs ∙ ap (λ k. drop k (x ∷ xs)) step

  pub drop-append : (xs ys : List A) → drop (length xs) (xs ++ ys) ≡ ys
  drop-append [] ys = refl
  drop-append (x ∷ xs) ys = drop-append xs ys

  slice-drop : (xs : List A) (a : ℕ) → a < length xs → slice xs a (length xs - 1) ≡ drop a xs
  slice-drop xs a h =
      take-all ((length xs - 1 + 1) - a) (drop a xs) (omega (arith, length-drop a xs, h))

module _ (bytes : Text) (head : Result StorageError ObjectMetadata)
    (read_range : ByteRange → Result StorageError Text) where
  -- The backend serves an object with these bytes.
  pub record Serves : Type 0 where
    pub meta : ObjectMetadata
    pub found : head ≡ ok meta
    pub size : meta.size ≡ length bytes
    pub ranges :
        (r : ByteRange)
        → r.start ≤ r.end
        → r.end < length bytes
        → read_range r ≡ ok (slice bytes r.start r.end)

  module _ (serves : Serves) where
    read_between-end :
        (a : ℕ)
        → a < length bytes
        → read_between read_range a (length bytes - 1) ≡ ok (drop a bytes)
    unfolding read_between new_range
    read_between-end a h =
        let inside : ltb (length bytes - 1) a ≡ false = ground arith in
        rw inside (
          serves.ranges (record { start = a; end = length bytes - 1 }) (omega (arith, h))
            (omega (arith, h))
          ∙ ap ok (slice-drop bytes a h))

    read_metadata-eq :
        (n : ℕ)
        → n + footer_trailer_len ≤ length bytes
        → read_metadata read_range (length bytes) (drop (length bytes - footer_trailer_len) bytes) n
          ≡ ok (drop (length bytes - (n + footer_trailer_len)) bytes)
    unfolding read_metadata
    read_metadata-eq n long = elim (Bool-cases (length bytes - (n + 8) == length bytes - 8)) [
      | inl same ↦
          let start : length bytes - (n + 8) ≡ length bytes - 8 = ground arith in
          rw same (ap (λ k. ok (drop k bytes)) (sym start))
      | inr apart ↦ rw apart (read_between-end (length bytes - (n + 8)) (omega (arith, long)))
    ]

    -- The footer of an object that is long enough, and the check on it.
    pub read_footer-eq :
        (n : ℕ)
        → n + footer_trailer_len ≤ length bytes
        → read_footer read_range (length bytes) (drop (length bytes - footer_trailer_len) bytes) n
          ≡ checked (length bytes) n (drop (length bytes - (n + footer_trailer_len)) bytes)
    unfolding read_footer
    read_footer-eq n long =
        let inside : ltb (length bytes) (n + 8) ≡ false = ground arith in
        rw (inside, read_metadata-eq n long) refl

    pub read_sized-eq :
        footer_trailer_len ≤ length bytes
        → read_parquet_footer true head read_range ≡ (
            parse_metadata_length (drop (length bytes - footer_trailer_len) bytes) >>= λ n.
            read_footer read_range
              (length bytes)
              (drop (length bytes - footer_trailer_len) bytes)
              n)
    unfolding read_sized read_parquet_footer
    read_sized-eq long =
        let inside : ltb (length bytes) 8 ≡ false = ground arith in
        rw
          (
            serves.found,
            serves.size,
            inside,
            read_between-end (length bytes - 8) (omega (arith, long)),
          )
          refl

checked-ok :
    (size n : ℕ) (b : Text) (f : ParquetFooterBytes)
    → checked size n b ≡ ok f
    → (f ≡ record { footer = b; metadata_len = n; object_size = size }) × (magic_valid f ≡ true)
unfolding checked magic_valid
checked-ok size n b f h =
    elim (Bool-cases (ltb (length b) 8 || not (text_eq (last_four b) parquet_magic))) [
      | inl bad ↦ absurd (ground arith)
      | inr good ↦
          let same : f ≡ record { footer = b; metadata_len = n; object_size = size } =
            ground arith in
          (same, rw same (ground arith))
    ]

read_footer-short :
    (read_range : ByteRange → Result StorageError Text) (size n : ℕ) (b : Text)
    (f : ParquetFooterBytes)
    → read_footer read_range size b n ≡ ok f
    → n + footer_trailer_len ≤ size
unfolding read_footer
read_footer-short read_range size n b f h = elim (Bool-cases (ltb size (n + 8))) [
  | inl short ↦ absurd (ground arith)
  | inr long ↦ ground arith
]

read_parquet_footer-long :
    (bytes : Text) (range_reads : Bool) (head : Result StorageError ObjectMetadata)
    (read_range : ByteRange → Result StorageError Text) (f : ParquetFooterBytes)
    → Serves bytes head read_range
    → read_parquet_footer range_reads head read_range ≡ ok f
    → (range_reads ≡ true) × (footer_trailer_len ≤ length bytes)
unfolding read_parquet_footer read_sized
read_parquet_footer-long bytes false head read_range f serves h = absurd (ground arith)
read_parquet_footer-long bytes true head read_range f serves h =
    elim (Bool-cases (ltb (length bytes) 8)) [
      | inl short ↦ absurd (ground (arith, (rw (serves.found, serves.size, short) at h)))
      | inr long ↦ (refl, ground arith)
    ]

-- The answer is the end of the object, as long as the trailer in it says, and ends in the magic number.
pub record IsFooter (bytes : Text) (f : ParquetFooterBytes) : Type 0 where
  pub front : Text
  pub whole : bytes ≡ front ++ f.footer
  pub footer_length : length f.footer ≡ f.metadata_len + footer_trailer_len
  pub announced : parse_metadata_length (drop f.metadata_len f.footer) ≡ ok f.metadata_len
  pub object_size : f.object_size ≡ length bytes
  pub magic : magic_valid f ≡ true

-- The footer that is read of an object, whatever its bytes, is the end of the object: it is eight bytes
-- longer than its metadata length, the trailer in it announces that length, it ends in the magic number,
-- and the size that is returned is the object's. The backend is one that serves the object.
pub read_parquet_footer-IsFooter :
    (bytes : Text) (range_reads : Bool) (head : Result StorageError ObjectMetadata)
    (read_range : ByteRange → Result StorageError Text) (f : ParquetFooterBytes)
    → Serves bytes head read_range
    → read_parquet_footer range_reads head read_range ≡ ok f
    → IsFooter bytes f
read_parquet_footer-IsFooter bytes range_reads head read_range f serves h =
    let (reads, long) = read_parquet_footer-long bytes range_reads head read_range f serves h in
    let (n, parsed, rest) =
      >>=-eq-ok (parse_metadata_length (drop (length bytes - 8) bytes))
        (read_footer read_range (length bytes) (drop (length bytes - 8) bytes))
        (sym (read_sized-eq bytes head read_range serves long)
          ∙ subst (λ r. read_parquet_footer r head read_range ≡ ok f) reads h) in
    let fits : n + 8 ≤ length bytes =
      read_footer-short read_range (length bytes) n (drop (length bytes - 8) bytes) f rest in
    let (same, magic) =
      checked-ok (length bytes) n (drop (length bytes - (n + 8)) bytes) f
        (sym (read_footer-eq bytes head read_range serves n fits) ∙ rest) in
    subst (IsFooter bytes) (sym same) (record {
      front = take (length bytes - (n + 8)) bytes;
      whole = sym (take-drop (length bytes - (n + 8)) bytes);
      footer_length = omega (arith, length-drop (length bytes - (n + 8)) bytes, fits);
      announced =
          ap parse_metadata_length (
            drop-drop n (length bytes - (n + 8)) bytes
            ∙ ap (λ k. drop k bytes) (omega (arith, fits)))
          ∙ parsed;
      object_size = refl;
      magic = subst (λ g. magic_valid g ≡ true) same magic;
    })
