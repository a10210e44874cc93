-- ===== src/Repair/Dependencies/Cycles.antt =====
-- A plan that `sort_by_dependencies` calls cyclic has no order (crates/parqonaut-repair/src/deps.rs).
use parqonaut.Prelude.{
  suc, ◌+◌, ◌≤◌, ◌≡◌, ◌≢◌, refl, ap, ◌∙◌, subst, true, false, Bool-cases, inl, inr, some, List, [],
  ◌∷◌, ◌++◌, if◌then◌else◌, length, Text, All, text_eq, text_eq_iff, text_eq_refl, listed,
  listed-append, listed_differs, Distinct, arith,
}
use parqonaut.Repair.Dependencies.{RepairOperation, ids_of, op_at}
use parqonaut.Repair.Dependencies.Counts.{
  absent_from, missing, missing-none, op_at-found, op_at-absent,
}
use parqonaut.Repair.Dependencies.Order.{Ordered, Runnable, Closed}

abbrev without : Text → List Text → List Text
without x [] = []
without x (y ∷ ys) = let rest = without x ys in if text_eq y x then ys else y ∷ rest

length-without :
    (x : Text) (ys : List Text) → listed x ys ≡ true → suc (length (without x ys)) ≡ length ys
length-without x [] h = cc
length-without x (y ∷ ys) h = ground (arith, length-without x ys)

listed-without :
    (x z : Text) (ys : List Text) → text_eq x z ≡ false → listed z (without x ys) ≡ listed z ys
listed-without x z [] h = refl
listed-without x z (y ∷ ys) h =
    ground (arith, listed-without x z ys h, text_eq_iff y x, text_eq_iff x z, text_eq_iff y z)

-- Different texts of a list need as long a list.
pigeonhole :
    (xs ys : List Text)
    → Distinct xs
    → ((x : Text) → listed x xs ≡ true → listed x ys ≡ true)
    → length xs ≤ length ys
pigeonhole [] ys d h = omega arith
pigeonhole (x ∷ xs) ys (fresh, d) h =
    let here : listed x ys ≡ true = h x (ground (arith, text_eq_refl x)) in
    omega (
      arith,
      length-without x ys here,
      pigeonhole xs (without x ys) d (λ z among.
          listed-without x z ys (listed_differs x z xs fresh among) ∙ h z (ground arith)),
    )

absent_from-none :
    (done deps : List Text) → All (λ d. listed d done ≡ true) deps → absent_from done deps ≡ 0
absent_from-none done [] h = refl
absent_from-none done (d ∷ deps) (here, rest) = ground (arith, absent_from-none done deps rest)

op_at-listed :
    (x : Text) (op : RepairOperation) (ops : List RepairOperation)
    → op_at x ops ≡ some op
    → listed x (ids_of ops) ≡ true
op_at-listed x op ops e = elim (Bool-cases (listed x (ids_of ops))) [
  | inl here ↦ here
  | inr gone ↦ absurd (ground (arith, op_at-absent x ops gone))
]

-- With one operation of each id, what is missing of an id is what its operation lacks.
missing-op_at :
    (x : Text) (done : List Text) (op : RepairOperation) (ops : List RepairOperation)
    → Distinct (ids_of ops)
    → op_at x ops ≡ some op
    → missing x done ops ≡ absent_from done op.depends_on
missing-op_at x done op [] d e = cc
missing-op_at x done op (o ∷ ops) (fresh, d) e = elim (Bool-cases (listed x (ids_of ops))) [
  | inl later ↦
      let (p, found, same) = op_at-found x ops later in
      let is : p ≡ op = ground arith in
      let other : text_eq o.operation_id x ≡ false =
        listed_differs o.operation_id x (ids_of ops) fresh later in
      rw other (missing-op_at x done op ops d (found ∙ ap some is))
  | inr gone ↦
      let nothing_later = op_at-absent x ops gone in
      let here : text_eq o.operation_id x ≡ true = ground arith in
      let is : o ≡ op = ground arith in
      rw here (
        ap (λ n. absent_from done o.depends_on + n) (missing-none x done ops gone)
        ∙ omega arith
        ∙ ap (λ y. absent_from done y.depends_on) is)
]

length-ids_of : (ops : List RepairOperation) → length (ids_of ops) ≡ length ops
length-ids_of [] = refl
length-ids_of (op ∷ ops) = ap suc (length-ids_of ops)

module _ (ops : List RepairOperation) (distinct : Distinct (ids_of ops)) where
  abbrev OfPlan : List RepairOperation → Type 0
  OfPlan sorted = All (λ o. op_at o.operation_id ops ≡ some o) sorted

  OfPlan-listed :
      (sorted : List RepairOperation)
      → OfPlan sorted
      → (x : Text) → listed x (ids_of sorted) ≡ true
      → listed x (ids_of ops) ≡ true
  OfPlan-listed [] h x here = cc
  OfPlan-listed (o ∷ sorted) (found, rest) x here = elim (Bool-cases (text_eq o.operation_id x)) [
    | inl same ↦
        subst (λ y. listed y (ids_of ops) ≡ true) ((text_eq_iff o.operation_id x).0 same)
          (op_at-listed o.operation_id o ops found)
    | inr other ↦ OfPlan-listed sorted rest x (ground arith)
  ]

  module _ (done : List Text) (closed : Closed ops done) where
    All-done :
        (earlier deps : List Text)
        → ((x : Text) → listed x earlier ≡ true → listed x done ≡ true)
        → All (λ d. listed d earlier ≡ true) deps
        → All (λ d. listed d done ≡ true) deps
    All-done earlier [] sub h = tt
    All-done earlier (d ∷ deps) sub (here, rest) = (sub d here, All-done earlier deps sub rest)

    -- What stands in any order of the plan is done.
    order-done :
        (earlier : List Text) (order : List RepairOperation)
        → ((x : Text) → listed x earlier ≡ true → listed x done ≡ true)
        → Ordered earlier order
        → OfPlan order
        → (x : Text) → listed x (ids_of order) ≡ true
        → listed x done ≡ true
    order-done earlier [] sub h of x here = cc
    order-done earlier (o ∷ order) sub (first, rest) (found, others) x here =
        let lacks = absent_from-none done o.depends_on (All-done earlier o.depends_on sub first) in
        let o_done : listed o.operation_id done ≡ true =
          closed o.operation_id (op_at-listed o.operation_id o ops found)
            (missing-op_at o.operation_id done o ops distinct found ∙ lacks) in
        elim (Bool-cases (text_eq o.operation_id x)) [
          | inl same ↦
              subst (λ y. listed y done ≡ true) ((text_eq_iff o.operation_id x).0 same) o_done
          | inr other ↦
              order-done (earlier ++ (o.operation_id ∷ [])) order
                (λ y among. elim (Bool-cases (listed y earlier)) [
                  | inl before ↦ sub y before
                  | inr new ↦
                      let is : text_eq o.operation_id y ≡ true =
                        ground (arith, listed-append y o.operation_id earlier) in
                      subst (λ z. listed z done ≡ true) ((text_eq_iff o.operation_id y).0 is) o_done
                ])
                rest others x (ground arith)
        ]

  pub no_order :
      (sorted : List RepairOperation)
      → Runnable ops sorted
      → Closed ops (ids_of sorted)
      → length sorted ≢ length ops
      → (order : List RepairOperation) → Runnable ops order
      → length order ≢ length ops
  no_order sorted good closed part order runs whole =
      let at_most : length (ids_of sorted) ≤ length (ids_of ops) =
        pigeonhole (ids_of sorted) (ids_of ops) good.once (OfPlan-listed sorted good.of_plan) in
      let at_least : length (ids_of order) ≤ length (ids_of sorted) =
        pigeonhole (ids_of order) (ids_of sorted) runs.once
          (order-done (ids_of sorted) closed [] order (λ x h. cc) runs.ordered runs.of_plan) in
      part (
        omega (
          arith,
          at_most,
          at_least,
          whole,
          length-ids_of sorted,
          length-ids_of order,
          length-ids_of ops,
        ))
