-- ===== src/Columnar/Conversion.antt =====
-- crates/parqonaut-columnar/src/schema/compatibility.rs: the class of a type conversion.
use native.Mathlib.Decide.{ℕ_discrete}
use parqonaut.Prelude.{
  ℕ, ◌≡◌, sym, ◌∙◌, ◌<◌, ◌/◌, ◌↔◌, ◌⊎◌, inl, inr, Bool, true, false, not, ◌&&◌, ◌||◌, none, some,
  arith, if◌then◌else◌,
}
use parqonaut.Columnar.Physical.{PhysicalType, widening_rank}

pub data Compatibility : Type 0 where
  lossless conditionally_lossless potentially_lossy unsupported : Compatibility

-- The derived `PartialEq`.
pub PhysicalType-discrete : Discrete PhysicalType
PhysicalType-discrete = hlevel ℕ_discrete

unfoldable pub type_eq : PhysicalType → PhysicalType → Bool
type_eq a b = elim (PhysicalType-discrete a b) [ yes _ ↦ true | no _ ↦ false ]

abbrev bool_eq : Bool → Bool → Bool
bool_eq true b = b
bool_eq false b = not b

-- The rows of the match on two different types: widening, lossy, and all others.
pub data Row : Type 0 where
  widening lossy refused : Row

unfoldable pub conversion_row : PhysicalType → PhysicalType → Row
conversion_row PhysicalType.int32 PhysicalType.int64 = Row.widening
conversion_row PhysicalType.int16 PhysicalType.int32 = Row.widening
conversion_row PhysicalType.int16 PhysicalType.int64 = Row.widening
conversion_row PhysicalType.int8 PhysicalType.int16 = Row.widening
conversion_row PhysicalType.int8 PhysicalType.int32 = Row.widening
conversion_row PhysicalType.int8 PhysicalType.int64 = Row.widening
conversion_row PhysicalType.uint32 PhysicalType.uint64 = Row.widening
conversion_row PhysicalType.uint16 PhysicalType.uint32 = Row.widening
conversion_row PhysicalType.uint16 PhysicalType.uint64 = Row.widening
conversion_row PhysicalType.uint8 PhysicalType.uint16 = Row.widening
conversion_row PhysicalType.uint8 PhysicalType.uint32 = Row.widening
conversion_row PhysicalType.uint8 PhysicalType.uint64 = Row.widening
conversion_row PhysicalType.float32 PhysicalType.float64 = Row.widening
conversion_row PhysicalType.int32 PhysicalType.float64 = Row.lossy
conversion_row PhysicalType.int64 PhysicalType.float64 = Row.lossy
conversion_row _ _ = Row.refused

-- What the widening rows return.
widened : Bool → Bool → Bool → Compatibility
widened from_nullable to_nullable allow_nullable =
    if bool_eq from_nullable to_nullable || not from_nullable && to_nullable && allow_nullable
    then Compatibility.lossless
    else Compatibility.conditionally_lossless

-- What the match on two different types returns.
converted : Row → Bool → Bool → Bool → Compatibility
unfolding widened
converted Row.widening from_nullable to_nullable allow_nullable =
    widened from_nullable to_nullable allow_nullable
converted Row.lossy _ _ _ = Compatibility.potentially_lossy
converted Row.refused _ _ _ = Compatibility.unsupported

unfoldable pub classify_conversion :
    PhysicalType → PhysicalType → Bool → Bool → Bool → Bool → Compatibility
unfolding converted
classify_conversion from to from_nullable to_nullable allow_numeric allow_nullable =
    if type_eq from to && bool_eq from_nullable to_nullable
    then Compatibility.lossless
    else if type_eq from to && not from_nullable && to_nullable && allow_nullable
    then Compatibility.lossless
    else if not (type_eq from to)
    then if not allow_numeric
      then Compatibility.unsupported
      else converted (conversion_row from to) from_nullable to_nullable allow_nullable
    else if from_nullable && not to_nullable
    then Compatibility.potentially_lossy
    else Compatibility.unsupported

type_eq_sound : (a b : PhysicalType) → type_eq a b ≡ true → a ≡ b
unfolding type_eq
type_eq_sound a b h = ground arith

type_eq_refl : (a : PhysicalType) → type_eq a a ≡ true
unfolding type_eq
type_eq_refl a = ground arith

-- Both types have a rank, the ranks are of one family, and the rank grows.
abbrev pub Widens : PhysicalType → PhysicalType → Type 0
Widens from to =
    (r s : ℕ) × (widening_rank from ≡ some r)
    × (widening_rank to ≡ some s)
    × (r < s)
    × (r / 10 ≡ s / 10)

-- Nulls are kept out of a column that admits none, and admitted to one only by permission.
abbrev pub NullsKept : Bool → Bool → Bool → Type 0
NullsKept from_nullable to_nullable allow_nullable =
    (from_nullable ≡ to_nullable)
    ⊎ ((from_nullable ≡ false) × (to_nullable ≡ true) × (allow_nullable ≡ true))

abbrev rank : PhysicalType → ℕ
rank a = elim (widening_rank a) [ some r ↦ r | none ↦ 0 ]

row-Widens : (a b : PhysicalType) → conversion_row a b ≡ Row.widening → Widens a b
unfolding conversion_row widening_rank
row-Widens a b h = (rank a, rank b, ground arith, ground arith, ground arith, ground arith)

Widens-row : (a b : PhysicalType) → Widens a b → conversion_row a b ≡ Row.widening
unfolding conversion_row widening_rank
Widens-row a b h = ground arith

-- The tests that lead to `lossless`.
abbrev Passes : PhysicalType → PhysicalType → Bool → Type 0
Passes from to allow_numeric =
    (type_eq from to ≡ true) ⊎ ((allow_numeric ≡ true) × (conversion_row from to ≡ Row.widening))

classify_conversion-Passes :
    (from to : PhysicalType) (fn tn numeric nullable : Bool)
    → classify_conversion from to fn tn numeric nullable ≡ Compatibility.lossless
    → NullsKept fn tn nullable × Passes from to numeric
unfolding classify_conversion
classify_conversion-Passes from to fn tn numeric nullable h = ground arith

Passes-classify_conversion :
    (from to : PhysicalType) (fn tn numeric nullable : Bool)
    → NullsKept fn tn nullable
    → Passes from to numeric
    → (type_eq from to ≡ true → conversion_row from to ≡ Row.widening → ⊥)
    → classify_conversion from to fn tn numeric nullable ≡ Compatibility.lossless
unfolding classify_conversion
Passes-classify_conversion from to fn tn numeric nullable n p apart = ground arith

not-widening_self :
    (a b : PhysicalType) → type_eq a b ≡ true → conversion_row a b ≡ Row.widening → ⊥
unfolding conversion_row
not-widening_self a b e h = ground (arith, type_eq_sound a b e)

-- A conversion is classed as lossless exactly when nulls are kept (the two columns agree on nulls,
-- or the target alone admits them and the policy allows that) and the type stays the same or, where
-- the policy allows it, its widening rank grows within its family.
pub classify_conversion-lossless :
    (from to : PhysicalType) (fn tn numeric nullable : Bool)
    → (classify_conversion from to fn tn numeric nullable ≡ Compatibility.lossless)
      ↔ (NullsKept fn tn nullable × ((from ≡ to) ⊎ ((numeric ≡ true) × Widens from to)))
classify_conversion-lossless from to fn tn numeric nullable = (
  λ h.
      let (n, p) = classify_conversion-Passes from to fn tn numeric nullable h in
      (
        n,
        elim p [
          | inl e ↦ inl (type_eq_sound from to e)
          | inr (w, r) ↦ inr (w, row-Widens from to r)
        ],
      ),
  λ (n, k).
      Passes-classify_conversion from to fn tn numeric nullable n
        (elim k [
          | inl e ↦ inl (rw e (type_eq_refl to))
          | inr (w, r) ↦ inr (w, Widens-row from to r)
        ])
        (not-widening_self from to),
)

Widens_trans : (a b c : PhysicalType) → Widens a b → Widens b c → Widens a c
Widens_trans a b c h k =
    let same : h.1 ≡ k.0 = cc (sym h.3 ∙ k.2) in (h.0, k.1, h.2, k.3, omega arith, omega arith)

NullsKept-trans :
    (a b c nullable : Bool)
    → NullsKept a b nullable
    → NullsKept b c nullable
    → NullsKept a c nullable
NullsKept-trans a b c nullable h k = ground arith

abbrev Kept : PhysicalType → PhysicalType → Bool → Type 0
Kept a b numeric = (a ≡ b) ⊎ ((numeric ≡ true) × Widens a b)

Kept-trans :
    (a b c : PhysicalType) (numeric : Bool) → Kept a b numeric → Kept b c numeric → Kept a c numeric
Kept-trans a b c numeric (inl e) k = rw e k
Kept-trans a b c numeric (inr h) (inl e) = inr (rw (← e) h)
Kept-trans a b c numeric (inr (w, h)) (inr (v, k)) = inr (w, Widens_trans a b c h k)

-- Lossless conversions compose: under one policy, if a first conversion is classed as lossless and so
-- is a second one from its target, then the direct conversion is too.
pub classify_conversion_trans :
    (a b c : PhysicalType) (an bn cn numeric nullable : Bool)
    → classify_conversion a b an bn numeric nullable ≡ Compatibility.lossless
    → classify_conversion b c bn cn numeric nullable ≡ Compatibility.lossless
    → classify_conversion a c an cn numeric nullable ≡ Compatibility.lossless
classify_conversion_trans a b c an bn cn numeric nullable h k =
    let (n, t) = (classify_conversion-lossless a b an bn numeric nullable).0 h in
    let (m, u) = (classify_conversion-lossless b c bn cn numeric nullable).0 k in
    (classify_conversion-lossless a c an cn numeric nullable).1
      (NullsKept-trans an bn cn nullable n m, Kept-trans a b c numeric t u)
