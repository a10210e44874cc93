-- ===== src/Transform/Checks.antt =====
-- Runs of crates/parqonaut-transform/src/engine.
mod Partitions
use parqonaut.Prelude.{◌≡◌, refl, Bool, true, false, not, none, some, [], ◌∷◌, map, ok, get}
use parqonaut.Transform.Arrays.{pos, negsuc, zip_with, kleene_and, kleene_or, kleene_not, Kernels}
use parqonaut.Transform.Filter.{Floats, Value, FilterExpr, Column, RecordBatch, evaluate_filter}

-- Kernels that do what is documented.
abbrev plain_kernels : Kernels
plain_kernels = record {
  and_kleene = λ l r. ok (zip_with kleene_and l r);
  or_kleene = λ l r. ok (zip_with kleene_or l r);
  not_bool = λ b. ok (map kleene_not b);
  and_kleene-ok = λ l r same. refl;
  or_kleene-ok = λ l r same. refl;
  not_bool-ok = λ b. refl;
  is_null = λ nulls. ok (map some nulls);
  is_not_null = λ nulls. ok (map (λ b. some (not b)) nulls);
  is_null-ok = λ nulls. refl;
  is_not_null-ok = λ nulls. refl;
}

-- Floats of which there are two: a number and a NaN.
abbrev pub two_floats : Floats
two_floats = record {
  Float = Bool;
  float_eq = λ a b. false;
  is_nan = λ a. a;
  same_bits = λ a b. false;
}

abbrev amounts : Column two_floats
amounts = Column.int64 (some (pos 3) ∷ none ∷ some (negsuc 0) ∷ [])

abbrev amounts_batch : RecordBatch two_floats
amounts_batch = record { columns = ("amount", amounts) ∷ []; num_rows = 3 }

-- amount > 0 or not amount = -1.
abbrev amounts_filter : FilterExpr two_floats
amounts_filter =
    FilterExpr.or (FilterExpr.gt "amount" (Value.int64 (pos 0)))
      (FilterExpr.negation (FilterExpr.eq "amount" (Value.int64 (negsuc 0))))

-- The null row passes: its comparison is false, so the negation is true.
amounts_rows :
    evaluate_filter two_floats plain_kernels amounts_batch amounts_filter
    ≡ ok (some true ∷ some true ∷ some false ∷ [])
unfolding evaluate_filter get
amounts_rows = refl
