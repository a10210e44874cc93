-- ===== src/Prelude/Outcome.antt =====
-- Rust's `Result<A, E>` with its `?` as a bind, and a loop that stops at the first error.
use mathlib.Core.Path.{◌≡◌, refl}
use mathlib.Core.Logic.{◌⊎◌, inl, inr}
use mathlib.Core.Option.{Option, none, some}

pub data Result {ℓ κ} (E : Type κ) (A : Type ℓ) : Type (ℓ ⊔ κ) where
  ok : A → Result E A
  err : E → Result E A

module _ {ℓ κ μ} {E : Type κ} {A : Type ℓ} {F : Type μ} where
  abbrev pub map_err : (E → F) → Result E A → Result F A
  map_err change (err e) = err (change e)
  map_err change (ok value) = ok value

-- `?` on a result, and then the rest.
module _ {ℓ κ μ} {E : Type κ} {A : Type ℓ} {B : Type μ} where
  infixl 5 ◌>>=◌
  abbrev pub ◌>>=◌ : Result E A → (A → Result E B) → Result E B
  err failure >>= rest = err failure
  ok value >>= rest = rest value

module _ {κ μ} {E : Type κ} {B : Type μ} where
  infixl 5 ◌>>◌
  abbrev pub ◌>>◌ : Result E (Unit {0}) → Result E B → Result E B
  first >> rest = first >>= λ _. rest

abbrev pub ok_or {ℓ κ} : {E : Type κ} {A : Type ℓ} → Option A → E → Result E A
ok_or (some value) e = ok value
ok_or none e = err e

pub Result-cases {ℓ κ} :
    {E : Type κ} {A : Type ℓ} (r : Result E A) → ((a : A) × (r ≡ ok a)) ⊎ ((e : E) × (r ≡ err e))
Result-cases (ok a) = inl (a, refl)
Result-cases (err e) = inr (e, refl)

-- A chain that succeeds: its first result, and the rest from there.
pub >>=-eq-ok {ℓ κ μ} :
    {E : Type κ} {A : Type ℓ} {B : Type μ} (first : Result E A) (rest : A → Result E B) {end : B}
    → (first >>= rest) ≡ ok end
    → (value : A) × (first ≡ ok value) × (rest value ≡ ok end)
>>=-eq-ok (err failure) rest e = cc
>>=-eq-ok (ok value) rest e = (value, refl, e)
