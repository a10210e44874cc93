-- ===== src/Repair/Execution/Authorization.antt =====
-- `resolve` of crates/parqonaut-repair/src/authorization.rs beside the match of a run.
use parqonaut.Prelude.{◌≡◌, refl, Bool-cases, inl, inr, ok, err, if◌then◌else◌, Text}
use parqonaut.Repair.Dependencies.{RepairSafety}
use parqonaut.Repair.Execution.{AuthorizationError, RepairAuthorization, is_authorized, resolve}
use parqonaut.Repair.Execution.Effects.{allowed_at, source_of}

-- The error for an operation that may not run.
abbrev refusal : RepairSafety → Text → AuthorizationError
refusal RepairSafety.destructive id = AuthorizationError.destructive_not_allowed id
refusal RepairSafety.blocked id = AuthorizationError.unsupported_operation id "blocked"
refusal _ id = AuthorizationError.review_required_not_authorized id

-- `resolve` accepts exactly the operations that a run applies, with the source that the run records.
resolve-allowed :
    (authorization : RepairAuthorization) (id : Text) (safety : RepairSafety)
    → resolve authorization id safety ≡ (
        if allowed_at authorization safety id
        then ok (source_of authorization safety id)
        else err (refusal safety id))
unfolding resolve
resolve-allowed authorization id RepairSafety.safe = refl
resolve-allowed authorization id RepairSafety.review_required =
    elim (Bool-cases (is_authorized authorization id)) [
      | inl granted ↦ rw granted refl
      | inr missing ↦ rw missing refl
    ]
resolve-allowed authorization id RepairSafety.destructive = refl
resolve-allowed authorization id RepairSafety.blocked = refl
