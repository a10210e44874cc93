-- ===== src/Orchestrator/Executor.antt =====
-- crates/parqonaut-orchestrator/src/executor/mod.rs: the execution of one dataset, with its retries.
-- What the repair and storage crates, the file system and the clock answer in an attempt is a record
-- of answers; the cancel flag is its value at the start of each attempt, and so is whether the journal
-- accepts a row. Attempts are counted in u32 by the source and in ℕ here.
pub mod Loop
pub mod Retries
pub mod Endings
use parqonaut.Prelude.{
  ℕ, zero, suc, ◌+◌, ◌-◌, ◌≡◌, refl, Bool, true, false, ◌&&◌, not, Option, none, some, String, List,
  [], ◌∷◌, Result, ok, err, arith, if◌then◌else◌, ltb, Dict, get, insert, string_eq,
}
use parqonaut.Storage.Errors.{PublicationState}
use parqonaut.Orchestrator.State.{DatasetState, FailureClass, dataset_state_eq}
use parqonaut.Orchestrator.Journal.{DatasetRunRecord, Journal, upsert_dataset, dataset_row}

-- The variants of `RepairError`, without what their messages carry.
pub data RepairError : Type 0 where
  dataset_unreadable dataset_changed unsupported_operation review_required_not_authorized :
      RepairError
  destructive_not_allowed output_exists source_destination_overlap precondition_failed : RepairError
  verification_invariant_failed partial_execution invalid_plan unsupported_plan_version :
      RepairError
  scan_failed transform_failed io json storage publication : RepairError

pub classify_repair_error : RepairError → FailureClass
classify_repair_error RepairError.dataset_changed = FailureClass.stale_source
classify_repair_error RepairError.review_required_not_authorized = FailureClass.blocked
classify_repair_error RepairError.destructive_not_allowed = FailureClass.blocked
classify_repair_error RepairError.verification_invariant_failed = FailureClass.verification_failed
classify_repair_error RepairError.partial_execution = FailureClass.recoverable
classify_repair_error RepairError.io = FailureClass.recoverable
classify_repair_error RepairError.transform_failed = FailureClass.recoverable
classify_repair_error RepairError.storage = FailureClass.recoverable
classify_repair_error RepairError.publication = FailureClass.recoverable
classify_repair_error _ = FailureClass.permanent

unfoldable pub failure_state : FailureClass → DatasetState
failure_state FailureClass.recoverable = DatasetState.failed_recoverable
failure_state FailureClass.permanent = DatasetState.failed_permanent
failure_state FailureClass.blocked = DatasetState.blocked
failure_state FailureClass.stale_source = DatasetState.stale_source
failure_state FailureClass.verification_failed = DatasetState.verification_failed
failure_state FailureClass.cancelled = DatasetState.cancelled

pub record DatasetFailure : Type 0 where
  pub class : FailureClass
  pub message : String

pub record DatasetExecutionOutcome : Type 0 where
  pub dataset_id : String
  pub state : DatasetState
  pub attempts : ℕ
  pub error_class : Option FailureClass
  pub error_message : Option String
  pub skipped : Bool

-- The parts of a `DatasetPlan` that its rows carry.
pub record DatasetPlan : Type 0 where
  pub dataset_id : String
  pub output_path : String
  pub repair_plan_id : String
  pub policy_fingerprint : String
  pub source_digest : String

-- What one attempt meets, in the order in which it asks.
pub record Answers : Type 0 where
  pub locations : Result DatasetFailure (Unit {0})
  pub committed : Bool
  pub uses_storage : Bool
  pub lock : Result DatasetFailure (Unit {0})
  pub remote : Bool
  pub publication : Option PublicationState
  pub fingerprint : Result DatasetFailure String
  -- A scan that fails, or a task that cannot be joined, leaves the attempt at once, without a row.
  pub scan : Result DatasetFailure (Unit {0})
  pub execution : Result DatasetFailure (Unit {0})

unfoldable pub skipped_outcome : String → Option DatasetState → DatasetExecutionOutcome
skipped_outcome id (some prior) = record {
  dataset_id = id;
  state = prior;
  attempts = 0;
  error_class = none;
  error_message = none;
  skipped = true;
}
skipped_outcome id none = record {
  dataset_id = id;
  state = DatasetState.cancelled;
  attempts = 0;
  error_class = some FailureClass.cancelled;
  error_message = some "batch run cancelled before start";
  skipped = true;
}

-- A row of the dataset; `now` is the clock, and a journal that refuses the row is only warned about.
unfoldable pub upsert_record :
    ℕ
    → Bool
    → DatasetPlan
    → DatasetState
    → ℕ
    → Option String
    → Option FailureClass
    → Option String
    → Option ℕ
    → Option ℕ
    → Journal
    → Journal
unfolding upsert_dataset
upsert_record now accepts plan state attempts source_fingerprint class message started completed
      journal =
    if accepts
    then upsert_dataset
        (record {
          dataset_id = plan.dataset_id;
          output_path = plan.output_path;
          repair_plan_id = plan.repair_plan_id;
          policy_fingerprint = plan.policy_fingerprint;
          state = state;
          attempts = attempts;
          source_fingerprint = source_fingerprint;
          output_fingerprint = none;
          error_class = class;
          error_message = message;
          started_at = started;
          updated_at = now;
          completed_at = completed;
        })
        journal
    else journal

-- `Ok(Some(Current | Committed))`.
abbrev pub published : Option PublicationState → Bool
published (some PublicationState.current) = true
published (some PublicationState.committed) = true
published _ = false

module _ (now : ℕ) (accepts : Bool) (plan : DatasetPlan) where
  abbrev pub success : ℕ → Bool → DatasetExecutionOutcome
  success attempts skipped = record {
    dataset_id = plan.dataset_id;
    state = DatasetState.succeeded;
    attempts = attempts;
    error_class = none;
    error_message = none;
    skipped = skipped;
  }

  abbrev pub success_row : ℕ → Journal → Journal
  unfolding upsert_record
  success_row attempts journal =
      upsert_record now accepts plan DatasetState.succeeded attempts (some plan.source_digest) none
        none (some now) (some now) journal

  -- The match on the result of the execution.
  unfoldable pub executed :
      ℕ
      → Result DatasetFailure (Unit {0})
      → Journal
      → Journal × Result DatasetFailure DatasetExecutionOutcome
  unfolding upsert_record failure_state
  executed attempts (ok _) journal = (success_row attempts journal, ok (success attempts false))
  executed attempts (err failure) journal = (
    upsert_record now accepts plan (failure_state failure.class) attempts none (some failure.class)
        (some failure.message) (some now) (some now) journal,
    err failure,
  )

  unfoldable pub scanned :
      ℕ
      → Answers
      → Result DatasetFailure (Unit {0})
      → Journal
      → Journal × Result DatasetFailure DatasetExecutionOutcome
  unfolding executed
  scanned attempts answers (err failure) journal = (journal, err failure)
  scanned attempts answers (ok _) journal = executed attempts answers.execution journal

  -- From the check of the source's fingerprint on.
  unfoldable pub run_repair :
      ℕ
      → Answers
      → Result DatasetFailure String
      → Journal
      → Journal × Result DatasetFailure DatasetExecutionOutcome
  unfolding upsert_record scanned
  run_repair attempts answers (err failure) journal = (journal, err failure)
  run_repair attempts answers (ok current) journal = scanned attempts answers answers.scan (
      upsert_record now accepts plan DatasetState.running attempts (some current) none none
        (some now) none journal)

  unfoldable pub locked :
      ℕ
      → Answers
      → Result DatasetFailure (Unit {0})
      → Journal
      → Journal × Result DatasetFailure DatasetExecutionOutcome
  unfolding upsert_record run_repair
  locked attempts answers (err failure) journal = (journal, err failure)
  locked attempts answers (ok _) journal =
      if answers.remote && published answers.publication
      then (success_row attempts journal, ok (success attempts true))
      else run_repair attempts answers answers.fingerprint journal

  unfoldable pub located :
      ℕ
      → Answers
      → Result DatasetFailure (Unit {0})
      → Journal
      → Journal × Result DatasetFailure DatasetExecutionOutcome
  unfolding upsert_record locked
  located attempts answers (err failure) journal = (journal, err failure)
  located attempts answers (ok _) journal =
      if answers.committed
      then (success_row attempts journal, ok (success attempts true))
      else locked attempts answers (if answers.uses_storage then ok tt else answers.lock) journal

  unfoldable pub execute_dataset_once :
      ℕ → Answers → Journal → Journal × Result DatasetFailure DatasetExecutionOutcome
  unfolding located
  execute_dataset_once attempts answers journal = located attempts answers answers.locations journal
