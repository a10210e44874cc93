-- ===== src/Repair/Dependencies/Counts.antt =====
-- The dependencies that are still open, and what the maps of `sort_by_dependencies` say of them
-- (crates/parqonaut-repair/src/deps.rs).
use parqonaut.Prelude.{
  ℕ, suc, ◌+◌, ◌≡◌, refl, sym, ap, ◌∙◌, true, false, Bool-cases, Option-cases, inl, inr, none, some,
  List, [], ◌∷◌, ◌++◌, if◌then◌else◌, length, Text, All, text_eq, text_eq_iff, listed,
  listed-append, text_eq_instance, arith,
}
use parqonaut.Repair.Dependencies.{RepairOperation, ids_of, op_at}

abbrev pub count : Text → List Text → ℕ
count x [] = 0
count x (y ∷ ys) = let rest = count x ys in if text_eq y x then suc rest else rest

-- The dependencies that are not done.
abbrev pub absent_from : List Text → List Text → ℕ
absent_from done [] = 0
absent_from done (d ∷ deps) =
    let rest = absent_from done deps in if listed d done then rest else suc rest

abbrev pub missing : Text → List Text → List RepairOperation → ℕ
missing x done [] = 0
missing x done (op ∷ ops) =
    let rest = missing x done ops in
    if text_eq op.operation_id x then absent_from done op.depends_on + rest else rest

abbrev pub edges : Text → Text → List RepairOperation → ℕ
edges x d [] = 0
edges x d (op ∷ ops) =
    let rest = edges x d ops in
    if text_eq op.operation_id x then count d op.depends_on + rest else rest

pub count-append :
    (x y : Text) (ys : List Text)
    → count x (ys ++ (y ∷ [])) ≡ (if text_eq y x then suc (count x ys) else count x ys)
count-append x y [] = ground arith
count-append x y (z ∷ ys) = ground (arith, count-append x y ys)

absent_from-append :
    (id : Text) (done deps : List Text)
    → listed id done ≡ false
    → absent_from (done ++ (id ∷ [])) deps + count id deps ≡ absent_from done deps
absent_from-append id done [] h = omega arith
absent_from-append id done (d ∷ deps) h = ground (
  arith,
  absent_from-append id done deps h,
  listed-append d id done,
  text_eq_iff id d,
  text_eq_iff d id,
)

-- One more operation is done.
pub missing-append :
    (x id : Text) (done : List Text) (ops : List RepairOperation)
    → listed id done ≡ false
    → missing x (done ++ (id ∷ [])) ops + edges x id ops ≡ missing x done ops
missing-append x id done [] h = omega arith
missing-append x id done (op ∷ ops) h =
    ground (arith, missing-append x id done ops h, absent_from-append id done op.depends_on h)

pub missing-none :
    (x : Text) (done : List Text) (ops : List RepairOperation)
    → listed x (ids_of ops) ≡ false
    → missing x done ops ≡ 0
missing-none x done [] h = refl
missing-none x done (op ∷ ops) h = ground (arith, missing-none x done ops)

pub edges-none :
    (x d : Text) (ops : List RepairOperation) → listed x (ids_of ops) ≡ false → edges x d ops ≡ 0
edges-none x d [] h = refl
edges-none x d (op ∷ ops) h = ground (arith, edges-none x d ops)

pub absent_from-zero :
    (done deps : List Text) → absent_from done deps ≡ 0 → All (λ d. listed d done ≡ true) deps
absent_from-zero done [] h = tt
absent_from-zero done (d ∷ deps) h = (ground arith, absent_from-zero done deps (ground arith))

pub absent_from-nothing : (deps : List Text) → absent_from [] deps ≡ length deps
absent_from-nothing [] = refl
absent_from-nothing (d ∷ deps) = ap suc (absent_from-nothing deps)

pub op_at-absent :
    (id : Text) (ops : List RepairOperation) → listed id (ids_of ops) ≡ false → op_at id ops ≡ none
op_at-absent id [] h = refl
op_at-absent id (op ∷ ops) h =
    let other : text_eq op.operation_id id ≡ false = ground arith in
    rw (op_at-absent id ops (ground arith), other) refl

-- The operation that the map of operations has.
pub op_at-found :
    (id : Text) (ops : List RepairOperation)
    → listed id (ids_of ops) ≡ true
    → (op : RepairOperation) × (op_at id ops ≡ some op) × (op.operation_id ≡ id)
op_at-found id [] h = cc
op_at-found id (op ∷ ops) h = elim (Bool-cases (listed id (ids_of ops))) [
  | inl later ↦ let (o, found, same) = op_at-found id ops later in (o, rw found refl, same)
  | inr gone ↦
      let here : text_eq op.operation_id id ≡ true = ground arith in
      (op, rw (op_at-absent id ops gone, here) refl, ground (arith, text_eq_iff op.operation_id id))
]

pub op_at-missing :
    (id : Text) (done : List Text) (op : RepairOperation) (ops : List RepairOperation)
    → missing id done ops ≡ 0
    → op_at id ops ≡ some op
    → absent_from done op.depends_on ≡ 0
op_at-missing id done op [] h e = cc
op_at-missing id done op (o ∷ ops) h e = elim (Option-cases (op_at id ops)) [
  | inl gone ↦ elim (Bool-cases (text_eq o.operation_id id)) [
    | inl here ↦
        let same : o ≡ op = ground arith in
        let all_done : absent_from done o.depends_on ≡ 0 = ground arith in
        ap (λ x. absent_from done x.depends_on) (sym same) ∙ all_done
    | inr other ↦ absurd (ground arith)
  ]
  | inr (later, found) ↦
      let same : later ≡ op = ground arith in
      op_at-missing id done op ops (ground arith) (found ∙ ap some same)
]
