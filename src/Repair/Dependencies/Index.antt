-- ===== src/Repair/Dependencies/Index.antt =====
-- The maps that `sort_by_dependencies` builds of a plan (crates/parqonaut-repair/src/deps.rs).
use parqonaut.Prelude.{
  ℕ, zero, suc, ◌+◌, ◌≡◌, refl, sym, ap, ◌∙◌, subst, Bool, true, false, Bool-cases, Result-cases,
  inl, inr, some, List, [], ◌∷◌, ◌++◌, map, Result, ok, err, if◌then◌else◌, length, Text, text_eq,
  text_eq_iff, listed, Distinct, Dict, get, insert, get-insert, text_eq_instance, arith,
}
use parqonaut.Repair.Dependencies.{
  RepairOperation, DependencyError, ids_of, or_empty, children_of, index_deps, index_ops, zero_keys,
}
use parqonaut.Repair.Dependencies.Counts.{
  count, count-append, edges, missing, missing-none, absent_from-nothing,
}

abbrev pub keys : Dict Text ℕ → List Text
keys m = map (λ e. e.0) m

listed-keys-insert :
    (x k : Text) (n : ℕ) (m : Dict Text ℕ)
    → listed x (keys (insert k n m)) ≡ (if text_eq k x then true else listed x (keys m))
unfolding insert
listed-keys-insert x k n [] = refl
listed-keys-insert x k n ((j, v) ∷ m) =
    ground (arith, listed-keys-insert x k n m, text_eq_iff j k, text_eq_iff k x, text_eq_iff j x)

Distinct-keys-insert :
    (k : Text) (n : ℕ) (m : Dict Text ℕ) → Distinct (keys m) → Distinct (keys (insert k n m))
unfolding insert
Distinct-keys-insert k n [] d = (refl, tt)
Distinct-keys-insert k n ((j, v) ∷ m) (fresh, d) = elim (Bool-cases (text_eq j k)) [
  | inl here ↦
      let same : j ≡ k = ground (arith, text_eq_iff j k) in
      rw here (ap (λ x. listed x (keys m)) (sym same) ∙ fresh, d)
  | inr other ↦
      rw other
        (ground (arith, listed-keys-insert j k n m, text_eq_iff k j), Distinct-keys-insert k n m d)
]

listed-zero_keys :
    (x : Text) (m : Dict Text ℕ) → listed x (zero_keys m) ≡ true → listed x (keys m) ≡ true
listed-zero_keys x [] h = h
listed-zero_keys x ((k, zero) ∷ m) h = ground (arith, listed-zero_keys x m)
listed-zero_keys x ((k, suc n) ∷ m) h = ground (arith, listed-zero_keys x m)

unlisted-zero_keys :
    (x : Text) (m : Dict Text ℕ) → listed x (keys m) ≡ false → listed x (zero_keys m) ≡ false
unlisted-zero_keys x m h = elim (Bool-cases (listed x (zero_keys m))) [
  | inl here ↦ absurd (ground (arith, listed-zero_keys x m here))
  | inr gone ↦ gone
]

pub Distinct-zero_keys : (m : Dict Text ℕ) → Distinct (keys m) → Distinct (zero_keys m)
Distinct-zero_keys [] d = tt
Distinct-zero_keys ((k, zero) ∷ m) (fresh, d) =
    (unlisted-zero_keys k m fresh, Distinct-zero_keys m d)
Distinct-zero_keys ((k, suc n) ∷ m) (fresh, d) = Distinct-zero_keys m d

pub get-zero_keys :
    (x : Text) (m : Dict Text ℕ)
    → Distinct (keys m)
    → listed x (zero_keys m) ≡ true
    → get x m ≡ some 0
unfolding get
get-zero_keys x [] d h = cc
get-zero_keys x ((k, zero) ∷ m) (fresh, d) h = ground (arith, get-zero_keys x m d)
get-zero_keys x ((k, suc n) ∷ m) (fresh, d) h = elim (Bool-cases (text_eq k x)) [
  | inl here ↦
      let same : k ≡ x = ground (arith, text_eq_iff k x) in
      absurd (cc (ap (λ y. listed y (keys m)) same, fresh, listed-zero_keys x m h))
  | inr other ↦ rw other (get-zero_keys x m d h)
]

pub zero_keys-listed :
    (x : Text) (m : Dict Text ℕ) → get x m ≡ some 0 → listed x (zero_keys m) ≡ true
unfolding get
zero_keys-listed x [] h = cc
zero_keys-listed x ((k, zero) ∷ m) h = ground (arith, zero_keys-listed x m)
zero_keys-listed x ((k, suc n) ∷ m) h = ground (arith, zero_keys-listed x m)

children_of-insert :
    (d dep : Text) (cs : List Text) (dependents : Dict Text (List Text))
    → children_of d (insert dep cs dependents)
      ≡ (if text_eq dep d then cs else children_of d dependents)
children_of-insert d dep cs dependents =
    ap or_empty (get-insert dep d cs dependents) ∙ or_empty-if (text_eq dep d)
  where
    or_empty-if :
        (b : Bool)
        → or_empty (if b then some cs else get d dependents)
          ≡ (if b then cs else children_of d dependents)
    or_empty-if true = refl
    or_empty-if false = refl

module _ (ids : List Text) where
  -- The error names a dependency that is no operation of the plan.
  abbrev pub Refused : DependencyError → Type 0
  Refused (DependencyError.precondition_failed id dep) = listed dep ids ≡ false
  Refused DependencyError.invalid_plan = ⊥
  Refused DependencyError.panicked = ⊥

  abbrev Linked :
      Text
      → List Text
      → Dict Text (List Text)
      → Result DependencyError (Dict Text (List Text))
      → Type 0
  Linked id deps dependents (err e) = Refused e
  Linked id deps dependents (ok linked) =
      (x d : Text)
      → count x (children_of d linked)
        ≡ (if text_eq id x then count d deps else 0) + count x (children_of d dependents)

  linked_step :
      (id dep x d : Text) (dependents : Dict Text (List Text))
      → count x (children_of d (insert dep (children_of dep dependents ++ (id ∷ [])) dependents))
        ≡ (if text_eq dep d then (if text_eq id x then 1 else 0) else 0)
          + count x (children_of d dependents)
  linked_step id dep x d dependents =
      ap (count x) (children_of-insert d dep (children_of dep dependents ++ (id ∷ [])) dependents)
      ∙ elim (Bool-cases (text_eq dep d)) [
        | inl here ↦
            let same : dep ≡ d = ground (arith, text_eq_iff dep d) in
            rw here (
              count-append x id (children_of dep dependents)
              ∙ ap
                  (λ y.
                    if text_eq id x
                    then suc (count x (children_of y dependents))
                    else count x (children_of y dependents))
                  same
              ∙ ground arith)
        | inr other ↦ rw other (omega arith)
      ]

  Linked-step :
      (id dep : Text) (deps : List Text) (dependents : Dict Text (List Text))
      (r : Result DependencyError (Dict Text (List Text)))
      → Linked id deps (insert dep (children_of dep dependents ++ (id ∷ [])) dependents) r
      → Linked id (dep ∷ deps) dependents r
  Linked-step id dep deps dependents (ok linked) h =
      λ x d. ground (arith, h x d, linked_step id dep x d dependents)
  Linked-step id dep deps dependents (err e) h = h

  index_deps-Linked :
      (id : Text) (deps : List Text) (dependents : Dict Text (List Text))
      → Linked id deps dependents (index_deps ids id deps dependents)
  unfolding index_deps
  index_deps-Linked id [] dependents = λ x d. ground arith
  index_deps-Linked id (dep ∷ deps) dependents = elim (Bool-cases (listed dep ids)) [
    | inl there ↦ rw there (
        Linked-step id dep deps dependents _ (
          index_deps-Linked id deps
            (insert dep (children_of dep dependents ++ (id ∷ [])) dependents)))
    | inr gone ↦ rw gone gone
  ]

  -- What the two maps say of the operations that were read.
  pub record Indexed (ops : List RepairOperation) (indegree now_indegree : Dict Text ℕ)
      (dependents linked : Dict Text (List Text)) : Type 0 where
    pub degree :
        (x : Text) → listed x (ids_of ops) ≡ true → get x now_indegree ≡ some (missing x [] ops)
    pub other : (x : Text) → listed x (ids_of ops) ≡ false → get x now_indegree ≡ get x indegree
    pub waiters :
        (x d : Text)
        → count x (children_of d linked) ≡ edges x d ops + count x (children_of d dependents)
    pub once : Distinct (keys now_indegree)

  abbrev pub IndexedBy :
      List RepairOperation
      → Dict Text ℕ
      → Dict Text (List Text)
      → Result DependencyError (Dict Text ℕ × Dict Text (List Text))
      → Type 0
  IndexedBy ops indegree dependents (ok (now_indegree, linked)) =
      Indexed ops indegree now_indegree dependents linked
  IndexedBy ops indegree dependents (err e) = Refused e

  Indexed-cons :
      (op : RepairOperation) (ops : List RepairOperation) (indegree now_indegree : Dict Text ℕ)
      (dependents linked now_linked : Dict Text (List Text))
      → listed op.operation_id (ids_of ops) ≡ false
      → Linked op.operation_id op.depends_on dependents (ok linked)
      → Indexed ops
          (insert op.operation_id (length op.depends_on) indegree)
          now_indegree
          linked
          now_linked
      → Indexed (op ∷ ops) indegree now_indegree dependents now_linked
  Indexed-cons op ops indegree now_indegree dependents linked now_linked fresh link h = record {
    degree = λ x here. elim (Bool-cases (text_eq op.operation_id x)) [
      | inl same ↦
          let is_op : op.operation_id ≡ x = ground (arith, text_eq_iff op.operation_id x) in
          let gone : listed x (ids_of ops) ≡ false =
            ap (λ y. listed y (ids_of ops)) (sym is_op) ∙ fresh in
          h.other x gone
          ∙ get-insert op.operation_id x (length op.depends_on) indegree
          ∙ rw same (
              ap some
                (ground (arith, absent_from-nothing op.depends_on, missing-none x [] ops gone)))
      | inr differs ↦ h.degree x (ground arith) ∙ rw differs refl
    ];
    other = λ x gone.
        h.other x (ground arith)
        ∙ get-insert op.operation_id x (length op.depends_on) indegree
        ∙ ground arith;
    waiters = λ x d. ground (arith, h.waiters x d, link x d);
    once = h.once;
  }

  IndexedBy-cons :
      (op : RepairOperation) (ops : List RepairOperation) (indegree : Dict Text ℕ)
      (dependents linked : Dict Text (List Text))
      (r : Result DependencyError (Dict Text ℕ × Dict Text (List Text)))
      → listed op.operation_id (ids_of ops) ≡ false
      → Linked op.operation_id op.depends_on dependents (ok linked)
      → IndexedBy ops (insert op.operation_id (length op.depends_on) indegree) linked r
      → IndexedBy (op ∷ ops) indegree dependents r
  IndexedBy-cons op ops indegree dependents linked (ok (now_indegree, now_linked)) fresh link h =
      Indexed-cons op ops indegree now_indegree dependents linked now_linked fresh link h
  IndexedBy-cons op ops indegree dependents linked (err e) fresh link h = h

  pub index_ops-Indexed :
      (ops : List RepairOperation) (indegree : Dict Text ℕ) (dependents : Dict Text (List Text))
      → Distinct (ids_of ops)
      → Distinct (keys indegree)
      → IndexedBy ops indegree dependents (index_ops ids ops indegree dependents)
  unfolding index_ops
  index_ops-Indexed [] indegree dependents _ d = record {
    degree = λ x h. absurd (ground arith);
    other = λ x h. refl;
    waiters = λ x d. ground arith;
    once = d;
  }
  index_ops-Indexed (op ∷ ops) indegree dependents (fresh, rest) d =
      let step = index_deps-Linked op.operation_id op.depends_on dependents in
      elim (Result-cases (index_deps ids op.operation_id op.depends_on dependents)) [
        | inl (linked, e) ↦ rw e (
            IndexedBy-cons op ops indegree dependents linked _ fresh
              (subst (Linked op.operation_id op.depends_on dependents) e step)
              (index_ops-Indexed ops (insert op.operation_id (length op.depends_on) indegree) linked
                rest (Distinct-keys-insert op.operation_id (length op.depends_on) indegree d)))
        | inr (x, e) ↦ rw e (subst (Linked op.operation_id op.depends_on dependents) e step)
      ]
