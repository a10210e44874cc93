-- ===== src/Repair/Dependencies/Plans.antt =====
-- `sort_by_dependencies` of crates/parqonaut-repair/src/deps.rs on a whole plan.
use parqonaut.Prelude.{
  ℕ, suc, ◌+◌, ◌≡◌, ◌≢◌, refl, ap, ◌∙◌, subst, Bool-cases, Result-cases, inl, inr, some, List, [],
  Result, ok, err, ◌==◌, length, Text, Distinct, Dict, get, text_eq_instance, arith,
}
use parqonaut.Repair.Dependencies.{
  RepairOperation, DependencyError, ids_of, index_ops, zero_keys, sort_by, text_lt, sort_indexed,
  complete, total, sort_by_dependencies,
}
use parqonaut.Repair.Dependencies.Queue.{length-sort_by}
use parqonaut.Repair.Dependencies.Release.{Degrees, Free}
use parqonaut.Repair.Dependencies.Order.{Runnable, Free-sort_by, drain-Drained}
use parqonaut.Repair.Dependencies.Cycles.{no_order}
use parqonaut.Repair.Dependencies.Index.{
  Distinct-zero_keys, get-zero_keys, zero_keys-listed, Refused, Indexed, IndexedBy,
  index_ops-Indexed,
}

-- The order of the whole plan, or why there is none.
abbrev pub Sorts : List RepairOperation → Result DependencyError (List RepairOperation) → Type 0
Sorts ops (ok sorted) = Runnable ops sorted × (length sorted ≡ length ops)
Sorts ops (err DependencyError.invalid_plan) =
    (order : List RepairOperation) → Runnable ops order → length order ≢ length ops
Sorts ops (err e) = Refused (ids_of ops) e

refused :
    (ops : List RepairOperation) (e : DependencyError) → Refused (ids_of ops) e → Sorts ops (err e)
refused ops (DependencyError.precondition_failed id dep) h = h
refused ops DependencyError.invalid_plan h = elim h [ ]
refused ops DependencyError.panicked h = h

module _ (ops : List RepairOperation) (indegree : Dict Text ℕ) (dependents : Dict Text (List Text))
    (h : Indexed (ids_of ops) ops [] indegree [] dependents) where
  first-Degrees : Degrees ops [] [] indegree
  unfolding get
  first-Degrees = record {
    known = λ x here. h.degree x here ∙ ap some (omega arith);
    unknown = λ x gone. (h.other x gone, refl);
  }

  first-Free : Free ops [] (sort_by text_lt (zero_keys indegree)) indegree
  first-Free = Free-sort_by ops [] (zero_keys indegree) indegree (record {
    free = λ x here. (get-zero_keys x indegree h.once here, refl);
    over = λ x was. absurd (ground arith);
    watched = λ x zero_there. inl (zero_keys-listed x indegree zero_there);
    once = Distinct-zero_keys indegree h.once;
  })

  sort_indexed-Sorts : Distinct (ids_of ops) → Sorts ops (sort_indexed ops (indegree, dependents))
  unfolding complete get sort_indexed
  sort_indexed-Sorts distinct =
      let (sorted, is, good, closed) =
        drain-Drained ops dependents (λ x d. h.waiters x d ∙ ground arith)
          (suc (length (zero_keys indegree) + total indegree))
          (sort_by text_lt (zero_keys indegree)) indegree [] first-Degrees first-Free
          (record { ordered = tt; once = tt; of_plan = tt })
          (omega (arith, length-sort_by text_lt (zero_keys indegree))) in
      rw is (elim (Bool-cases (length sorted == length ops)) [
        | inl whole ↦ rw whole (good, ground arith)
        | inr part ↦ rw part (no_order ops distinct sorted good closed (λ e. ground arith))
      ])

-- A plan whose operations have different ids is put in an order that can run, or refused: no step
-- panics and the loop ends. In the order every operation of the plan stands once, after all that it
-- depends on; the plan is refused only with an operation's dependency that is not in the plan, or as
-- cyclic, and then it has no such order.
pub sort_by_dependencies-Sorts :
    (ops : List RepairOperation) → Distinct (ids_of ops) → Sorts ops (sort_by_dependencies ops)
unfolding sort_by_dependencies
sort_by_dependencies-Sorts ops distinct =
    let indexed = index_ops-Indexed (ids_of ops) ops [] [] distinct tt in
    elim (Result-cases (index_ops (ids_of ops) ops [] [])) [
      | inl ((indegree, dependents), e) ↦ rw e (
          sort_indexed-Sorts ops indegree dependents
            (subst (IndexedBy (ids_of ops) ops [] []) e indexed) distinct)
      | inr (x, e) ↦ rw e (refused ops x (subst (IndexedBy (ids_of ops) ops [] []) e indexed))
    ]
