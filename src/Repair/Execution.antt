-- ===== src/Repair/Execution.antt =====
-- crates/parqonaut-repair/src/execute.rs: run_repair_operations, with authorization.rs. What `apply_operation` does to
-- the working files, through the transforms, is a parameter, as is the clock, by operation.
pub mod Authorization
pub mod Effects
use parqonaut.Prelude.{
  ℕ, Bool, true, false, Option, none, some, String, List, [], ◌∷◌, ◌++◌, Result, ok, err,
  if◌then◌else◌, Text, codes, listed, text_eq,
}
use parqonaut.Prelude.Eff.{Eff, pure, throw, ◌>>=◌, ◌>>◌}
use parqonaut.Repair.Dependencies.{
  RepairSafety, RepairOperation, DependencyError, sort_by_dependencies,
}

pub data AuthorizationSource : Type 0 where
  automatic_safe_policy explicit_user not_authorized blocked_by_policy : AuthorizationSource

pub record OperationAuditContext : Type 0 where
  pub plan_id : String
  pub dataset_fingerprint : String
  pub policy_fingerprint : String
  pub executor_version : String

pub record OperationAuditRecord : Type 0 where
  pub operation_id : Text
  pub plan_id : String
  pub dataset_fingerprint : String
  pub policy_fingerprint : String
  pub executor_version : String
  pub safety : RepairSafety
  pub authorization_source : AuthorizationSource
  pub authorization_time : ℕ
  pub executed : Bool
  pub skip_reason : Option Text

-- `OperationAuditRecord::new`.
unfoldable pub audit_record :
    OperationAuditContext
    → Text
    → RepairSafety
    → AuthorizationSource
    → ℕ
    → Bool
    → Option Text
    → OperationAuditRecord
audit_record ctx id safety source time executed reason = record {
  operation_id = id;
  plan_id = ctx.plan_id;
  dataset_fingerprint = ctx.dataset_fingerprint;
  policy_fingerprint = ctx.policy_fingerprint;
  executor_version = ctx.executor_version;
  safety = safety;
  authorization_source = source;
  authorization_time = time;
  executed = executed;
  skip_reason = reason;
}

pub record RepairOperationOutcome : Type 0 where
  pub executed : List Text
  pub skipped : List Text
  pub audit : List OperationAuditRecord

pub data RunError : Type 0 where
  dependency : DependencyError → RunError
  transform_failed : String → RunError

-- The ids that the user has authorized.
abbrev pub RepairAuthorization : Type 0
RepairAuthorization = List Text

unfoldable pub is_authorized : RepairAuthorization → Text → Bool
is_authorized authorization id = listed id authorization

pub data AuthorizationError : Type 0 where
  review_required_not_authorized destructive_not_allowed : Text → AuthorizationError
  unsupported_operation : Text → String → AuthorizationError

unfoldable pub resolve :
    RepairAuthorization → Text → RepairSafety → Result AuthorizationError AuthorizationSource
unfolding is_authorized
resolve authorization id RepairSafety.safe = ok AuthorizationSource.automatic_safe_policy
resolve authorization id RepairSafety.review_required =
    if is_authorized authorization id
    then ok AuthorizationSource.explicit_user
    else err (AuthorizationError.review_required_not_authorized id)
resolve authorization id RepairSafety.destructive =
    err (AuthorizationError.destructive_not_allowed id)
resolve authorization id RepairSafety.blocked =
    err (AuthorizationError.unsupported_operation id "blocked")

abbrev pub not_authorized_reason : Text → Text
not_authorized_reason id = codes "review-required operation " ++ (id ++ codes " not authorized")

module _ (Work : Type 0)
    (apply_operation : RepairOperation → Work → Work × Result String (Unit {0}))
    (authorization : RepairAuthorization) (ctx : OperationAuditContext) (now : Text → ℕ) where
  abbrev pub Run : Type 0 → Type 0
  Run A = Eff RunError Work A

  abbrev pub as_run : Work × Result String (Unit {0}) → Work × Result RunError (Unit {0})
  as_run (w, ok _) = (w, ok tt)
  as_run (w, err message) = (w, err (RunError.transform_failed message))

  abbrev pub applied : RepairOperation → Run (Unit {0})
  applied op w = as_run (apply_operation op w)

  abbrev pub push_executed :
      RepairOperation → AuthorizationSource → RepairOperationOutcome → RepairOperationOutcome
  push_executed op source out = record out {
    executed = out.executed ++ (op.operation_id ∷ []);
    audit =
        out.audit
        ++ (audit_record ctx op.operation_id op.safety source (now op.operation_id) true none ∷ []);
  }

  abbrev pub push_skipped :
      RepairOperation → AuthorizationSource → Text → RepairOperationOutcome → RepairOperationOutcome
  push_skipped op source reason out = record out {
    skipped = out.skipped ++ (op.operation_id ∷ []);
    audit =
        out.audit
        ++ (audit_record ctx op.operation_id op.safety source (now op.operation_id) false
              (some reason)
            ∷ []);
  }

  -- The match on the safety of an operation.
  unfoldable pub run_operation :
      RepairSafety → RepairOperation → RepairOperationOutcome → Run RepairOperationOutcome
  unfolding is_authorized audit_record
  run_operation RepairSafety.safe op out = do
    applied op
    pure (push_executed op AuthorizationSource.automatic_safe_policy out)
  run_operation RepairSafety.review_required op out =
      if is_authorized authorization op.operation_id
      then applied op >> pure (push_executed op AuthorizationSource.explicit_user out)
      else pure (
          push_skipped op AuthorizationSource.not_authorized (not_authorized_reason op.operation_id)
            out)
  run_operation RepairSafety.destructive op out = pure (
      push_skipped op AuthorizationSource.blocked_by_policy
        (codes "operation blocked by safety policy") out)
  run_operation RepairSafety.blocked op out = pure (
      push_skipped op AuthorizationSource.blocked_by_policy
        (codes "operation blocked by safety policy") out)

  unfoldable pub run_sorted :
      List RepairOperation → RepairOperationOutcome → Run RepairOperationOutcome
  unfolding run_operation
  run_sorted [] out = pure out
  run_sorted (op ∷ ops) out = do then_out ← run_operation op.safety op out; run_sorted ops then_out

  -- After the sort.
  unfoldable pub run_result :
      Result DependencyError (List RepairOperation) → Run RepairOperationOutcome
  unfolding run_sorted
  run_result (err e) = throw (RunError.dependency e)
  run_result (ok sorted) = run_sorted sorted (record { executed = []; skipped = []; audit = [] })

  unfoldable pub run_repair_operations : List RepairOperation → Run RepairOperationOutcome
  unfolding run_result sort_by_dependencies
  run_repair_operations operations = run_result (sort_by_dependencies operations)
