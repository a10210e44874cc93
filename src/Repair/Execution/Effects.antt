-- ===== src/Repair/Execution/Effects.antt =====
-- What the run of a plan does, crates/parqonaut-repair/src/execute.rs.
use parqonaut.Prelude.{
  ℕ, ◌≡◌, refl, sym, ap, ◌∙◌, Bool, true, false, not, Bool-cases, inl, inr, Option, none, some,
  String, List, [], ◌∷◌, ◌++◌, map, Result, ok, err, if◌then◌else◌, Text, codes,
}
use mathlib.Core.List.{append-nil, append_assoc}
use parqonaut.Prelude.Eff.{Eff, pure, throw, ◌>>◌, bind_result}
use parqonaut.Repair.Dependencies.{
  RepairSafety, RepairOperation, DependencyError, ids_of, sort_by_dependencies,
}
use parqonaut.Repair.Execution.{
  AuthorizationSource, OperationAuditContext, OperationAuditRecord, audit_record,
  RepairOperationOutcome, RunError, RepairAuthorization, is_authorized, not_authorized_reason,
  applied, push_executed, push_skipped, run_operation, run_sorted, run_result,
  run_repair_operations,
}

abbrev pub filter : (RepairOperation → Bool) → List RepairOperation → List RepairOperation
filter test [] = []
filter test (op ∷ ops) = let rest = filter test ops in if test op then op ∷ rest else rest

chosen-append :
    (b : Bool) (op : RepairOperation) (rest : List RepairOperation) (xs : List Text)
    → (xs ++ ids_of (if b then op ∷ [] else [])) ++ ids_of rest
      ≡ xs ++ ids_of (if b then op ∷ rest else rest)
chosen-append true op rest xs = append_assoc xs (op.operation_id ∷ []) (ids_of rest)
chosen-append false op rest xs = ap (λ ys. ys ++ ids_of rest) (append-nil xs)

module _ (authorization : RepairAuthorization) where
  -- What the policy lets run: the safe operations, and those that the user has authorized after review.
  abbrev pub allowed_at : RepairSafety → Text → Bool
  allowed_at RepairSafety.safe id = true
  allowed_at RepairSafety.review_required id = is_authorized authorization id
  allowed_at RepairSafety.destructive id = false
  allowed_at RepairSafety.blocked id = false

  abbrev pub allowed : RepairOperation → Bool
  allowed op = allowed_at op.safety op.operation_id

  abbrev pub source_of : RepairSafety → Text → AuthorizationSource
  source_of RepairSafety.safe id = AuthorizationSource.automatic_safe_policy
  source_of RepairSafety.review_required id =
      if is_authorized authorization id
      then AuthorizationSource.explicit_user
      else AuthorizationSource.not_authorized
  source_of RepairSafety.destructive id = AuthorizationSource.blocked_by_policy
  source_of RepairSafety.blocked id = AuthorizationSource.blocked_by_policy

  abbrev pub reason_of : RepairSafety → Text → Option Text
  reason_of RepairSafety.safe id = none
  reason_of RepairSafety.review_required id =
      if is_authorized authorization id then none else some (not_authorized_reason id)
  reason_of RepairSafety.destructive id = some (codes "operation blocked by safety policy")
  reason_of RepairSafety.blocked id = some (codes "operation blocked by safety policy")

  module _ (ctx : OperationAuditContext) (now : Text → ℕ) where
    abbrev pub audit_of : RepairOperation → OperationAuditRecord
    audit_of op =
        audit_record ctx op.operation_id op.safety (source_of op.safety op.operation_id)
          (now op.operation_id) (allowed op) (reason_of op.safety op.operation_id)

    -- What the run adds to its outcome for these operations.
    abbrev pub ledger : List RepairOperation → RepairOperationOutcome → RepairOperationOutcome
    ledger ops out = record {
      executed = out.executed ++ ids_of (filter allowed ops);
      skipped = out.skipped ++ ids_of (filter (λ op. not (allowed op)) ops);
      audit = out.audit ++ map audit_of ops;
    }

    module _ (Work : Type 0)
        (apply_operation : RepairOperation → Work → Work × Result String (Unit {0})) where
      -- The operations one after the other, up to the first that fails.
      abbrev pub apply_all : List RepairOperation → Eff RunError Work (Unit {0})
      apply_all [] = pure tt
      apply_all (op ∷ ops) = applied Work apply_operation authorization ctx now op >> apply_all ops

      abbrev pub recorded :
          RepairOperationOutcome
          → Eff RunError Work (Unit {0})
          → Eff RunError Work RepairOperationOutcome
      recorded out work = work >> pure out

      once :
          (out same : RepairOperationOutcome) (r : Work × Result RunError (Unit {0}))
          → out ≡ same
          → bind_result {E = RunError} (λ _. pure out) r
            ≡ bind_result (λ _. pure same) (bind_result (λ _. pure tt) r)
      once out same (w, ok _) e = ap (λ o. (w, ok o)) e
      once out same (w, err x) e = refl

      abbrev at : RepairOperation → RepairSafety → RepairOperation
      at op safety = record op { safety = safety }

      abbrev push_ran :
          RepairOperation → AuthorizationSource → RepairOperationOutcome → RepairOperationOutcome
      push_ran = push_executed Work apply_operation authorization ctx now

      abbrev ran : RepairOperation → Eff RunError Work (Unit {0})
      ran = applied Work apply_operation authorization ctx now

      abbrev skip :
          RepairOperation
          → AuthorizationSource
          → Text
          → RepairOperationOutcome
          → RepairOperationOutcome
      skip = push_skipped Work apply_operation authorization ctx now

      ran-records :
          (op : RepairOperation) (source : AuthorizationSource) (out : RepairOperationOutcome)
          (w : Work)
          → bind_result (λ _. pure (push_ran op source out)) (ran op w)
            ≡ bind_result
                (λ _. pure (record (push_ran op source out) { skipped = out.skipped ++ [] }))
                (bind_result (λ _. pure tt) (ran op w))
      ran-records op source out w =
          once (push_ran op source out)
            (record (push_ran op source out) { skipped = out.skipped ++ [] }) (ran op w)
            (ap (λ s. record (push_ran op source out) { skipped = s })
              (sym (append-nil out.skipped)))

      skipped-records :
          (op : RepairOperation) (source : AuthorizationSource) (reason : Text)
          (out : RepairOperationOutcome) (w : Work)
          → ◌≡◌ {A = Work × Result RunError RepairOperationOutcome}
              (w, ok (skip op source reason out))
              (w, ok (record (skip op source reason out) { executed = out.executed ++ [] }))
      skipped-records op source reason out w =
          ap (λ s. (w, ok (record (skip op source reason out) { executed = s })))
            (sym (append-nil out.executed))

      run_operation-records :
          (op : RepairOperation) (safety : RepairSafety) (out : RepairOperationOutcome) (w : Work)
          → run_operation Work apply_operation authorization ctx now safety (at op safety) out w
            ≡ recorded
                (ledger (at op safety ∷ []) out)
                (apply_all (filter allowed (at op safety ∷ [])))
                w
      unfolding run_operation audit_record
      run_operation-records op RepairSafety.safe out w =
          ran-records (at op RepairSafety.safe) AuthorizationSource.automatic_safe_policy out w
      run_operation-records op RepairSafety.review_required out w =
          elim (Bool-cases (is_authorized authorization op.operation_id)) [
            | inl granted ↦ rw granted (
                ran-records (at op RepairSafety.review_required) AuthorizationSource.explicit_user
                  out w)
            | inr missing ↦ rw missing (
                skipped-records (at op RepairSafety.review_required)
                  AuthorizationSource.not_authorized (not_authorized_reason op.operation_id) out w)
          ]
      run_operation-records op RepairSafety.destructive out w =
          skipped-records (at op RepairSafety.destructive) AuthorizationSource.blocked_by_policy
            (codes "operation blocked by safety policy") out w
      run_operation-records op RepairSafety.blocked out w =
          skipped-records (at op RepairSafety.blocked) AuthorizationSource.blocked_by_policy
            (codes "operation blocked by safety policy") out w

      ledger-cons :
          (op : RepairOperation) (ops : List RepairOperation) (out : RepairOperationOutcome)
          → ledger ops (ledger (op ∷ []) out) ≡ ledger (op ∷ ops) out
      ledger-cons op ops out = λ i. record {
        executed = chosen-append (allowed op) op (filter allowed ops) out.executed i;
        skipped =
            chosen-append (not (allowed op)) op (filter (λ o. not (allowed o)) ops) out.skipped i;
        audit = append_assoc out.audit (audit_of op ∷ []) (map audit_of ops) i;
      }

      twice :
          (first last : RepairOperationOutcome)
          (add : RepairOperationOutcome → RepairOperationOutcome)
          (rest : Eff RunError Work (Unit {0})) (r : Work × Result RunError (Unit {0}))
          → add first ≡ last
          → bind_result
              (λ o. recorded (add o) rest)
              (bind_result (λ _. pure first) (bind_result (λ _. pure tt) r))
            ≡ bind_result (λ _. pure last) (bind_result (λ _. rest) r)
      twice first last add rest (w, ok _) e = ap (λ o. recorded o rest w) e
      twice first last add rest (w, err x) e = refl

      apply_chosen :
          (b : Bool) (first last : RepairOperationOutcome)
          (add : RepairOperationOutcome → RepairOperationOutcome) (op : RepairOperation)
          (rest : List RepairOperation) (w : Work)
          → add first ≡ last
          → bind_result
              (λ o. recorded (add o) (apply_all rest))
              (recorded first (apply_all (if b then op ∷ [] else [])) w)
            ≡ recorded last (apply_all (if b then op ∷ rest else rest)) w
      apply_chosen true first last add op rest w e =
          twice first last add (apply_all rest) (ran op w) e
      apply_chosen false first last add op rest w e = ap (λ o. recorded o (apply_all rest) w) e

      apply_all-cons :
          (op : RepairOperation) (ops : List RepairOperation) (out : RepairOperationOutcome)
          (w : Work)
          → bind_result
              (λ o. recorded (ledger ops o) (apply_all (filter allowed ops)))
              (recorded (ledger (op ∷ []) out) (apply_all (filter allowed (op ∷ []))) w)
            ≡ recorded (ledger (op ∷ ops) out) (apply_all (filter allowed (op ∷ ops))) w
      apply_all-cons op ops out w =
          apply_chosen (allowed op) (ledger (op ∷ []) out) (ledger (op ∷ ops) out) (ledger ops) op
            (filter allowed ops) w (ledger-cons op ops out)

      run_sorted-records :
          (ops : List RepairOperation) (out : RepairOperationOutcome) (w : Work)
          → run_sorted Work apply_operation authorization ctx now ops out w
            ≡ recorded (ledger ops out) (apply_all (filter allowed ops)) w
      unfolding run_sorted
      run_sorted-records [] out w = λ i. (
        w,
        ok (record {
          executed = sym (append-nil out.executed) i;
          skipped = sym (append-nil out.skipped) i;
          audit = sym (append-nil out.audit) i;
        }),
      )
      run_sorted-records (op ∷ ops) out w =
          (λ i.
            bind_result (λ o v. run_sorted-records ops o v i)
              (run_operation-records op op.safety out w i))
          ∙ apply_all-cons op ops out w

      -- The run of a plan, by its effects: without an order nothing is touched.
      abbrev pub effects :
          Result DependencyError (List RepairOperation) → Eff RunError Work RepairOperationOutcome
      effects (err e) = throw (RunError.dependency e)
      effects (ok sorted) =
          recorded (ledger sorted (record { executed = []; skipped = []; audit = [] }))
            (apply_all (filter allowed sorted))

      run_result-effects :
          (r : Result DependencyError (List RepairOperation)) (w : Work)
          → run_result Work apply_operation authorization ctx now r w ≡ effects r w
      unfolding run_result
      run_result-effects (err e) w = refl
      run_result-effects (ok sorted) w =
          run_sorted-records sorted (record { executed = []; skipped = []; audit = [] }) w

      -- The run of a plan does to the working files exactly what its allowed operations do one after
      -- the other, in the order of their dependencies and up to the first that fails: the safe ones, and
      -- those with review that the user has authorized by id; a destructive or blocked operation is
      -- never applied, whatever is authorized. If all succeed the outcome lists the applied and the
      -- skipped ids in this order, with one audit record for each operation; without an order nothing
      -- is touched.
      pub run_repair_operations-effects :
          (operations : List RepairOperation) (w : Work)
          → run_repair_operations Work apply_operation authorization ctx now operations w
            ≡ effects (sort_by_dependencies operations) w
      unfolding run_repair_operations
      run_repair_operations-effects operations w =
          run_result-effects (sort_by_dependencies operations) w
