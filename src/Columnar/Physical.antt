-- ===== src/Columnar/Physical.antt =====
-- crates/parqonaut-columnar/src/schema/compatibility.rs: physical type labels and their parser.
-- A text is its list of code points. `to_uppercase` is the standard library's, over all of Unicode:
-- the parser takes it as an argument.
use parqonaut.Prelude.{
  ℕ, ◌≡◌, Bool, true, false, not, ◌&&◌, ◌||◌, Option, none, some, List, ◌∷◌, arith, if◌then◌else◌,
  Bool-cases, inl, inr, codes, starts_with, contains, contains_tail,
}

pub data PhysicalType : Type 0 where
  int8 int16 int32 int64 uint8 uint16 uint32 uint64 : PhysicalType
  float32 float64 boolean utf8 binary timestamp date32 decimal : PhysicalType
  unknown : List ℕ → PhysicalType

-- The tests of `parse` on the upper-case text, from the first to the last.
parse_rest : List ℕ → List ℕ → PhysicalType
parse_rest upper raw =
    if contains upper (codes "BOOL")
    then PhysicalType.boolean
    else if contains upper (codes "STRING")
        || contains upper (codes "UTF8")
        || contains upper (codes "BYTE_ARRAY") && contains upper (codes "STRING")
    then PhysicalType.utf8
    else if contains upper (codes "BYTE_ARRAY")
    then PhysicalType.binary
    else if contains upper (codes "TIMESTAMP")
    then PhysicalType.timestamp
    else if contains upper (codes "DATE32") || contains upper (codes "DATE")
    then PhysicalType.date32
    else if contains upper (codes "DECIMAL")
    then PhysicalType.decimal
    else PhysicalType.unknown raw

parse_floats : List ℕ → List ℕ → PhysicalType
parse_floats upper raw =
    if contains upper (codes "FLOAT") && not (contains upper (codes "DOUBLE"))
    then PhysicalType.float32
    else if contains upper (codes "DOUBLE")
    then PhysicalType.float64
    else parse_rest upper raw

parse_unsigned : List ℕ → List ℕ → PhysicalType
parse_unsigned upper raw =
    if contains upper (codes "UINT8")
    then PhysicalType.uint8
    else if contains upper (codes "UINT16")
    then PhysicalType.uint16
    else if contains upper (codes "UINT32")
    then PhysicalType.uint32
    else if contains upper (codes "UINT64")
    then PhysicalType.uint64
    else parse_floats upper raw

parse_upper : List ℕ → List ℕ → PhysicalType
parse_upper upper raw =
    if contains upper (codes "INT8") || starts_with upper (codes "INT(8)")
    then PhysicalType.int8
    else if contains upper (codes "INT16")
    then PhysicalType.int16
    else if contains upper (codes "INT32")
    then PhysicalType.int32
    else if contains upper (codes "INT64")
    then PhysicalType.int64
    else parse_unsigned upper raw

pub parse : (List ℕ → List ℕ) → List ℕ → PhysicalType
unfolding parse_upper parse_unsigned parse_floats parse_rest contains
parse to_uppercase raw = parse_upper (to_uppercase raw) raw

unfoldable pub widening_rank : PhysicalType → Option ℕ
widening_rank PhysicalType.int8 = some 0
widening_rank PhysicalType.int16 = some 1
widening_rank PhysicalType.int32 = some 2
widening_rank PhysicalType.int64 = some 3
widening_rank PhysicalType.uint8 = some 10
widening_rank PhysicalType.uint16 = some 11
widening_rank PhysicalType.uint32 = some 12
widening_rank PhysicalType.uint64 = some 13
widening_rank PhysicalType.float32 = some 20
widening_rank PhysicalType.float64 = some 21
widening_rank _ = none

pub is_unsigned : PhysicalType → Bool
is_unsigned PhysicalType.uint8 = true
is_unsigned PhysicalType.uint16 = true
is_unsigned PhysicalType.uint32 = true
is_unsigned PhysicalType.uint64 = true
is_unsigned _ = false

parse_rest_signed : (upper raw : List ℕ) → is_unsigned (parse_rest upper raw) ≡ false
unfolding parse_rest is_unsigned
parse_rest_signed upper raw = ground arith

parse_floats_signed : (upper raw : List ℕ) → is_unsigned (parse_floats upper raw) ≡ false
unfolding parse_floats is_unsigned
parse_floats_signed upper raw = ground (arith, parse_rest_signed upper raw)

-- The tests for the unsigned types, behind those for the signed ones.
parse_unsigned_signed :
    (upper raw : List ℕ)
    → contains upper (codes "INT8") ≡ false
    → contains upper (codes "INT16") ≡ false
    → contains upper (codes "INT32") ≡ false
    → contains upper (codes "INT64") ≡ false
    → is_unsigned (parse_unsigned upper raw) ≡ false
unfolding parse_unsigned
parse_unsigned_signed upper raw h8 h16 h32 h64 = rw (absent b'U' (codes "INT8") h8) (
    rw (absent b'U' (codes "INT16") h16) (
      rw (absent b'U' (codes "INT32") h32)
        (rw (absent b'U' (codes "INT64") h64) (parse_floats_signed upper raw))))
  where
    absent : (c : ℕ) (p : List ℕ) → contains upper p ≡ false → contains upper (c ∷ p) ≡ false
    absent c p h = elim (Bool-cases (contains upper (c ∷ p))) [
      | inl there ↦ cc (contains_tail upper c p there)
      | inr gone ↦ gone
    ]

parse_upper_signed : (upper raw : List ℕ) → is_unsigned (parse_upper upper raw) ≡ false
unfolding parse_upper is_unsigned
parse_upper_signed upper raw = ground (arith, parse_unsigned_signed upper raw)

-- Whatever the text, `parse` returns none of the four unsigned types: each of their tests stands
-- behind the test for the signed type of the same width, which the text then passes too.
pub parse_signed :
    (to_uppercase : List ℕ → List ℕ) (raw : List ℕ) → is_unsigned (parse to_uppercase raw) ≡ false
unfolding parse
parse_signed to_uppercase raw = parse_upper_signed (to_uppercase raw) raw
