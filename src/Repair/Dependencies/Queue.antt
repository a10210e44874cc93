-- ===== src/Repair/Dependencies/Queue.antt =====
-- The queue of operations that are ready, which is kept sorted (crates/parqonaut-repair/src/deps.rs).
use parqonaut.Prelude.{
  ℕ, suc, ◌≡◌, refl, ap, ◌∙◌, Bool, true, false, Bool-cases, inl, inr, List, [], ◌∷◌, if◌then◌else◌,
  length, Text, text_eq, text_eq_iff, listed, Distinct, some, Dict, get, insert, text_eq_instance,
  arith,
}
use parqonaut.Repair.Dependencies.{insert_sorted, sort_by, total}

module _ (less : Text → Text → Bool) where
  listed-insert_sorted :
      (x y : Text) (ys : List Text)
      → listed x (insert_sorted less y ys) ≡ (if text_eq y x then true else listed x ys)
  listed-insert_sorted x y [] = refl
  listed-insert_sorted x y (z ∷ ys) = ground (arith, listed-insert_sorted x y ys)

  pub listed-sort_by : (x : Text) (xs : List Text) → listed x (sort_by less xs) ≡ listed x xs
  listed-sort_by x [] = refl
  listed-sort_by x (y ∷ xs) =
      ground (arith, listed-insert_sorted x y (sort_by less xs), listed-sort_by x xs)

  Distinct-insert_sorted :
      (y : Text) (ys : List Text)
      → listed y ys ≡ false
      → Distinct ys
      → Distinct (insert_sorted less y ys)
  Distinct-insert_sorted y [] h d = (refl, tt)
  Distinct-insert_sorted y (z ∷ ys) h (fresh, d) = elim (Bool-cases (less z y)) [
    | inl later ↦ rw later (
      ground (arith, listed-insert_sorted z y ys, text_eq_iff y z, text_eq_iff z y),
      Distinct-insert_sorted y ys (ground arith) d,
    )
    | inr first ↦ rw first (h, (fresh, d))
  ]

  pub Distinct-sort_by : (xs : List Text) → Distinct xs → Distinct (sort_by less xs)
  Distinct-sort_by [] d = tt
  Distinct-sort_by (x ∷ xs) (fresh, d) =
      Distinct-insert_sorted x (sort_by less xs) (listed-sort_by x xs ∙ fresh)
        (Distinct-sort_by xs d)

  length-insert_sorted :
      (y : Text) (ys : List Text) → length (insert_sorted less y ys) ≡ suc (length ys)
  length-insert_sorted y [] = refl
  length-insert_sorted y (z ∷ ys) = ground (arith, length-insert_sorted y ys)

  pub length-sort_by : (xs : List Text) → length (sort_by less xs) ≡ length xs
  length-sort_by [] = refl
  length-sort_by (x ∷ xs) = length-insert_sorted x (sort_by less xs) ∙ ap suc (length-sort_by xs)

pub total-insert :
    (x : Text) (n : ℕ) (m : Dict Text ℕ)
    → get x m ≡ some (suc n)
    → suc (total (insert x n m)) ≡ total m
unfolding get insert
total-insert x n [] h = cc
total-insert x n ((y, k) ∷ m) h = ground (arith, total-insert x n m)
