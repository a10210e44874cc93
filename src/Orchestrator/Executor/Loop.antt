-- ===== src/Orchestrator/Executor/Loop.antt =====
-- `execute_dataset_with_retries` of crates/parqonaut-orchestrator/src/executor/mod.rs. The counter of
-- completed datasets, with which a test interrupts a run, is left out.
use parqonaut.Prelude.{
  ℕ, zero, suc, ◌+◌, ◌-◌, min, Bool, true, false, ◌&&◌, not, Option, none, some, Result, ok, err,
  if◌then◌else◌, ltb,
}
use parqonaut.Orchestrator.State.{DatasetState, FailureClass}
use parqonaut.Orchestrator.Journal.{DatasetRunRecord, Journal, dataset_row}
use parqonaut.Orchestrator.Executor.{
  DatasetFailure, DatasetExecutionOutcome, DatasetPlan, Answers, upsert_record, failure_state,
  execute_dataset_once,
}

-- What the loop meets: the clock, the journal, the cancel flag and an attempt's answers, by attempt.
pub record Environment : Type 0 where
  pub now : ℕ → ℕ
  pub accepts : ℕ → Bool
  pub cancelled : ℕ → Bool
  pub answers : ℕ → Answers
  pub prior_state : Option DatasetState
  pub max_retries : ℕ

abbrev pub is_recoverable : FailureClass → Bool
is_recoverable FailureClass.recoverable = true
is_recoverable _ = false

-- `prior_state != Some(DatasetState::Succeeded)`.
abbrev pub had_succeeded : Option DatasetState → Bool
had_succeeded (some DatasetState.succeeded) = true
had_succeeded _ = false

-- `config.max_retries.saturating_add(1)`.
unfoldable pub max_attempts : Environment → ℕ
max_attempts env = min (env.max_retries + 1) 4294967295

module _ (env : Environment) (plan : DatasetPlan) where
  unfoldable pub cancel_dataset : ℕ → Journal → Journal × DatasetExecutionOutcome
  unfolding upsert_record
  cancel_dataset attempts journal = (
    upsert_record (env.now attempts) (env.accepts attempts) plan DatasetState.cancelled attempts
        none (some FailureClass.cancelled) (some "batch run cancelled") none
        (some (env.now attempts)) journal,
    record {
      dataset_id = plan.dataset_id;
      state = DatasetState.cancelled;
      attempts = attempts;
      error_class = some FailureClass.cancelled;
      error_message = some "batch run cancelled";
      skipped = false;
    },
  )

  unfoldable pub fail_dataset : ℕ → DatasetFailure → Journal → Journal × DatasetExecutionOutcome
  unfolding upsert_record failure_state
  fail_dataset attempts failure journal = (
    upsert_record (env.now attempts) (env.accepts attempts) plan (failure_state failure.class)
        attempts none (some failure.class) (some failure.message) (some (env.now attempts))
        (some (env.now attempts)) journal,
    record {
      dataset_id = plan.dataset_id;
      state = failure_state failure.class;
      attempts = attempts;
      error_class = some failure.class;
      error_message = some failure.message;
      skipped = false;
    },
  )

  unfoldable pub retry_row : ℕ → DatasetFailure → Journal → Journal
  unfolding upsert_record
  retry_row attempts failure journal =
      upsert_record (env.now attempts) (env.accepts attempts) plan DatasetState.failed_recoverable
        attempts none (some failure.class) (some failure.message) none none journal

  unfoldable pub planned_row : ℕ → Journal → Journal
  unfolding upsert_record
  planned_row attempts journal =
      if not (had_succeeded env.prior_state)
      then upsert_record (env.now attempts) (env.accepts attempts) plan
          DatasetState.planning_validated attempts none none none (some (env.now attempts)) none
          journal
      else journal

  -- The match on the result of an attempt; `again` is the rest of the loop.
  unfoldable pub attempted :
      (ℕ → Journal → Option (Journal × DatasetExecutionOutcome))
      → ℕ
      → Journal × Result DatasetFailure DatasetExecutionOutcome
      → Option (Journal × DatasetExecutionOutcome)
  unfolding fail_dataset retry_row max_attempts
  attempted again attempts (journal, ok outcome) = some (journal, outcome)
  attempted again attempts (journal, err failure) =
      if is_recoverable failure.class && ltb attempts (max_attempts env)
      then again attempts (retry_row attempts failure journal)
      else some (fail_dataset attempts failure journal)

  -- The loop, for at most so many rounds.
  unfoldable pub attempt_loop : ℕ → ℕ → Journal → Option (Journal × DatasetExecutionOutcome)
  unfolding cancel_dataset planned_row attempted execute_dataset_once
  attempt_loop zero attempts journal = none
  attempt_loop (suc fuel) attempts journal =
      let again = attempt_loop fuel in
      if env.cancelled attempts
      then some (cancel_dataset attempts journal)
      else attempted again (suc attempts) (
          execute_dataset_once (env.now (suc attempts)) (env.accepts (suc attempts)) plan
            (suc attempts) (env.answers (suc attempts)) (planned_row (suc attempts) journal))

  -- The attempts that the journal has of a dataset; none where it has no row.
  abbrev pub prior_attempts : Option DatasetRunRecord → ℕ
  prior_attempts none = 0
  prior_attempts (some row) = row.attempts

  -- The rounds that the loop can need: one for each attempt that is left, and one more.
  unfoldable pub enough_fuel : ℕ → ℕ
  unfolding max_attempts
  enough_fuel attempts = suc (max_attempts env - attempts)

  unfoldable pub execute_dataset_with_retries : Journal → Option (Journal × DatasetExecutionOutcome)
  unfolding attempt_loop enough_fuel dataset_row
  execute_dataset_with_retries journal =
      let attempts = prior_attempts (dataset_row plan.dataset_id journal) in
      attempt_loop (enough_fuel attempts) attempts journal
