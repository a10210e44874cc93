-- ===== src/Repair/Dependencies/Order.antt =====
-- The loop of `sort_by_dependencies` (crates/parqonaut-repair/src/deps.rs).
use parqonaut.Prelude.{
  ℕ, zero, suc, ◌+◌, ◌<◌, ◌≡◌, refl, sym, ap, ◌∙◌, subst, true, false, Bool-cases, inl, inr, some,
  List, [], ◌∷◌, ◌++◌, Result, ok, length, Text, All, All-append, text_eq, text_eq_iff,
  text_eq_refl, listed, listed-append, listed_differs, Distinct, Distinct-append, Dict, get,
  text_eq_instance, arith,
}
use mathlib.Core.List.{append-nil, append_assoc}
use parqonaut.Repair.Dependencies.{
  RepairOperation, DependencyError, ids_of, children_of, sort_by, text_lt, op_at, drain, total,
}
use parqonaut.Repair.Dependencies.Counts.{
  count, edges, missing, missing-append, edges-none, absent_from-zero, op_at-found, op_at-missing,
}
use parqonaut.Repair.Dependencies.Queue.{listed-sort_by, Distinct-sort_by, length-sort_by}
use parqonaut.Repair.Dependencies.Release.{Degrees, Free, release_children-Released}

-- Every operation stands after all that it depends on.
abbrev pub Ordered : List Text → List RepairOperation → Type 0
Ordered done [] = Unit
Ordered done (op ∷ rest) =
    All (λ d. listed d done ≡ true) op.depends_on × Ordered (done ++ (op.operation_id ∷ [])) rest

Ordered-append :
    (done : List Text) (sorted : List RepairOperation) (op : RepairOperation)
    → Ordered done sorted
    → All (λ d. listed d (done ++ ids_of sorted) ≡ true) op.depends_on
    → Ordered done (sorted ++ (op ∷ []))
Ordered-append done [] op h all_done =
    (subst (λ ds. All (λ d. listed d ds ≡ true) op.depends_on) (append-nil done) all_done, tt)
Ordered-append done (o ∷ sorted) op (here, rest) all_done = (
  here,
  Ordered-append (done ++ (o.operation_id ∷ [])) sorted op rest (
      subst (λ ds. All (λ d. listed d ds ≡ true) op.depends_on)
        (sym (append_assoc done (o.operation_id ∷ []) (ids_of sorted))) all_done),
)

ids_of-append :
    (sorted : List RepairOperation) (op : RepairOperation)
    → ids_of (sorted ++ (op ∷ [])) ≡ ids_of sorted ++ (op.operation_id ∷ [])
ids_of-append [] op = refl
ids_of-append (o ∷ sorted) op = ap (λ ids. o.operation_id ∷ ids) (ids_of-append sorted op)

module _ (ops : List RepairOperation) where
  -- A part of the plan in an order in which it can run.
  pub record Runnable (sorted : List RepairOperation) : Type 0 where
    pub ordered : Ordered [] sorted
    pub once : Distinct (ids_of sorted)
    pub of_plan : All (λ o. op_at o.operation_id ops ≡ some o) sorted

  -- Every operation whose dependencies are done is done.
  abbrev pub Closed : List Text → Type 0
  Closed done =
      (x : Text) → listed x (ids_of ops) ≡ true → missing x done ops ≡ 0 → listed x done ≡ true

  Runnable-append :
      (sorted : List RepairOperation) (op : RepairOperation)
      → Runnable sorted
      → All (λ d. listed d (ids_of sorted) ≡ true) op.depends_on
      → listed op.operation_id (ids_of sorted) ≡ false
      → op_at op.operation_id ops ≡ some op
      → Runnable (sorted ++ (op ∷ []))
  Runnable-append sorted op h all_done fresh found = record {
    ordered = Ordered-append [] sorted op h.ordered all_done;
    once =
        subst Distinct (sym (ids_of-append sorted op))
          (Distinct-append op.operation_id (ids_of sorted) h.once fresh);
    of_plan =
        All-append (λ o. op_at o.operation_id ops ≡ some o) sorted (op ∷ []) h.of_plan (found, tt);
  }

  pub Free-sort_by :
      (done ready : List Text) (indegree : Dict Text ℕ)
      → Free ops done ready indegree
      → Free ops done (sort_by text_lt ready) indegree
  unfolding text_lt
  Free-sort_by done ready indegree f = record {
    free = λ x here. f.free x (sym (listed-sort_by text_lt x ready) ∙ here);
    over = f.over;
    watched = λ x zero_there. elim (f.watched x zero_there) [
      | inl here ↦ inl (listed-sort_by text_lt x ready ∙ here)
      | inr was ↦ inr was
    ];
    once = Distinct-sort_by text_lt ready f.once;
  }

  -- The next operation that is ready.
  next-Free :
      (done : List Text) (id : Text) (ready : List Text) (indegree : Dict Text ℕ)
      → Free ops done (id ∷ ready) indegree
      → Free ops (done ++ (id ∷ [])) ready indegree
  next-Free done id ready indegree f =
      let (alone, rest) = f.once in
      let (closed, fresh) = f.free id (ground (arith, text_eq_refl id)) in
      record {
        free = λ x here.
            let (zero_there, new) = f.free x (ground arith) in
            (zero_there, listed-append x id done ∙ rw new (listed_differs id x ready alone here));
        over = λ x was. elim (Bool-cases (listed x done)) [
          | inl before ↦ f.over x before
          | inr new ↦
              let same : id ≡ x = ground (arith, listed-append x id done, text_eq_iff id x) in
              ap (λ y. get y indegree) (sym same) ∙ closed
        ];
        once = rest;
        watched = λ x zero_there. elim (f.watched x zero_there) [
          | inl here ↦ elim (Bool-cases (text_eq id x)) [
            | inl same ↦ inr (ground (arith, listed-append x id done))
            | inr other ↦ inl (ground arith)
          ]
          | inr was ↦ inr (ground (arith, listed-append x id done))
        ];
      }

  module _ (dependents : Dict Text (List Text))
      (waiters : (x d : Text) → count x (children_of d dependents) ≡ edges x d ops) where
    next-Degrees :
        (done : List Text) (id : Text) (indegree : Dict Text ℕ)
        → Degrees ops done [] indegree
        → listed id done ≡ false
        → Degrees ops (done ++ (id ∷ [])) (children_of id dependents) indegree
    next-Degrees done id indegree h fresh = record {
      known = λ x here.
          h.known x here
          ∙ ap some (omega (arith, missing-append x id done ops fresh, waiters x id));
      unknown = λ x gone. ((h.unknown x gone).0, waiters x id ∙ edges-none x id ops gone);
    }

    -- The operation that the loop takes.
    record Taken (id : Text) (sorted : List RepairOperation) : Type 0 where
      op : RepairOperation
      found : op_at id ops ≡ some op
      same : op.operation_id ≡ id
      all_done : All (λ d. listed d (ids_of sorted) ≡ true) op.depends_on

    take :
        (id : Text) (ready : List Text) (indegree : Dict Text ℕ) (sorted : List RepairOperation)
        → Degrees ops (ids_of sorted) [] indegree
        → get id indegree ≡ some 0
        → Taken id sorted
    take id ready indegree sorted h closed = elim (Bool-cases (listed id (ids_of ops))) [
      | inr gone ↦ let (absent, _) = h.unknown id gone in absurd (ground arith)
      | inl here ↦
          let (op, found, same) = op_at-found id ops here in
          let none_open : missing id (ids_of sorted) ops ≡ 0 = ground (arith, h.known id here) in
          record {
            op = op;
            found = found;
            same = same;
            all_done =
                absent_from-zero (ids_of sorted) op.depends_on
                  (op_at-missing id (ids_of sorted) op ops none_open found);
          }
    ]

    abbrev Drained : Result DependencyError (List RepairOperation) → Type 0
    Drained r =
        (sorted : List RepairOperation) × (r ≡ ok sorted) × Runnable sorted × Closed (ids_of sorted)

    pub drain-Drained :
        (fuel : ℕ) (ready : List Text) (indegree : Dict Text ℕ) (sorted : List RepairOperation)
        → Degrees ops (ids_of sorted) [] indegree
        → Free ops (ids_of sorted) ready indegree
        → Runnable sorted
        → length ready + total indegree < fuel
        → Drained (drain ops dependents fuel ready indegree sorted)
    unfolding drain text_lt
    drain-Drained zero ready indegree sorted h f r less = absurd (omega (arith, less))
    drain-Drained (suc fuel) [] indegree sorted h f r less = (
      sorted,
      refl,
      r,
      λ x here none_open. elim (f.watched x (h.known x here ∙ ap some (omega (arith, none_open)))) [
        | inl waits ↦ absurd (ground arith)
        | inr was ↦ was
      ],
    )
    drain-Drained (suc fuel) (id ∷ ready) indegree sorted h f r less =
        let (closed, fresh) = f.free id (ground (arith, text_eq_refl id)) in
        let taken = take id ready indegree sorted h closed in
        let done = ids_of sorted ++ (id ∷ []) in
        let (now_ready, now_indegree, is, degrees, is_free, smaller) =
          release_children-Released ops done (children_of id dependents) ready indegree
            (next-Degrees (ids_of sorted) id indegree h fresh)
            (next-Free (ids_of sorted) id ready indegree f) in
        let now_done : done ≡ ids_of (sorted ++ (taken.op ∷ [])) =
          ap (λ i. ids_of sorted ++ (i ∷ [])) (sym taken.same)
          ∙ sym (ids_of-append sorted taken.op) in
        let (out, rest, good, closed_then) =
          drain-Drained fuel (sort_by text_lt now_ready) now_indegree (sorted ++ (taken.op ∷ []))
            (subst (λ ds. Degrees ops ds [] now_indegree) now_done degrees)
            (subst (λ ds. Free ops ds (sort_by text_lt now_ready) now_indegree) now_done
              (Free-sort_by done now_ready now_indegree is_free))
            (Runnable-append sorted taken.op r taken.all_done
              (ap (λ i. listed i (ids_of sorted)) taken.same ∙ fresh)
              (ap (λ i. op_at i ops) taken.same ∙ taken.found))
            (omega (arith, less, smaller, length-sort_by text_lt now_ready)) in
        (out, rw (taken.found, is) rest, good, closed_then)
