-- ===== src/Orchestrator/Executor/Retries.antt =====
-- What `execute_dataset_with_retries` of crates/parqonaut-orchestrator/src/executor/mod.rs returns and
-- leaves in the journal.
use parqonaut.Prelude.{
  ℕ, ◌≡◌, refl, ◌∙◌, ◌≢◌, Bool, true, false, ◌&&◌, Option, none, some, String, Result, ok, err,
  arith, if◌then◌else◌, string_eq,
}
use parqonaut.Orchestrator.State.{DatasetState, FailureClass}
use parqonaut.Orchestrator.Journal.{
  DatasetRunRecord, Journal, dataset_row, upsert_dataset-here, upsert_dataset-others,
}
use parqonaut.Orchestrator.Executor.{
  DatasetFailure, DatasetExecutionOutcome, DatasetPlan, Answers, upsert_record, failure_state,
  executed, scanned, run_repair, locked, located, execute_dataset_once, published, success,
}

-- The rows of the other datasets are the same.
abbrev pub OthersKept : String → Journal → Journal → Type 0
OthersKept id before after =
    (other : String) → other ≢ id → dataset_row other after ≡ dataset_row other before

-- The dataset has a row in that state, after that many attempts.
abbrev pub HasRow : String → Journal → DatasetState → ℕ → Type 0
HasRow id journal state attempts =
    (row : DatasetRunRecord) × (dataset_row id journal ≡ some row)
    × (row.state ≡ state)
    × (row.attempts ≡ attempts)

module _ (now : ℕ) (plan : DatasetPlan) (state : DatasetState) (attempts : ℕ) (fp : Option String)
    (class : Option FailureClass) (message : Option String) (started completed : Option ℕ)
    (journal : Journal) where
  pub upsert_record-others :
      (accepts : Bool)
      → OthersKept plan.dataset_id journal
          (upsert_record now accepts plan state attempts fp class message started completed journal)
  unfolding upsert_record
  upsert_record-others true other differ = upsert_dataset-others _ other journal differ
  upsert_record-others false other differ = refl

  pub upsert_record-here :
      (accepts : Bool)
      → accepts ≡ true
      → HasRow plan.dataset_id
          (upsert_record now accepts plan state attempts fp class message started completed journal)
          state
          attempts
  unfolding upsert_record
  upsert_record-here true h = (_, upsert_dataset-here _ journal, refl, refl)
  upsert_record-here false h = absurd (ground arith)

-- What a success rests on: the output is committed or published already, or the source's fingerprint
-- matched, the scan and the repair succeeded, and the output's lock was held if the repair needs it.
pub data Evidence (answers : Answers) : Type 0 where
  committed_output : answers.committed ≡ true → Evidence answers
  published_output : (answers.remote && published answers.publication) ≡ true → Evidence answers
  repaired :
      (digest : String)
      → (if answers.uses_storage then ok tt else answers.lock) ≡ ok tt
      → answers.fingerprint ≡ ok digest
      → answers.scan ≡ ok tt
      → answers.execution ≡ ok tt
      → Evidence answers

module _ (now : ℕ) (accepts : Bool) (plan : DatasetPlan) (attempts : ℕ) (before : Journal)
    (answers : Answers) where
  -- An attempt that succeeds has recorded so, and no attempt touches another dataset's row.
  abbrev pub Attempt : Journal × Result DatasetFailure DatasetExecutionOutcome → Type 0
  Attempt (after, ok outcome) =
      (outcome.dataset_id ≡ plan.dataset_id)
      × (outcome.state ≡ DatasetState.succeeded)
      × (outcome.attempts ≡ attempts)
      × Evidence answers
      × (accepts ≡ true → HasRow plan.dataset_id after DatasetState.succeeded attempts)
      × OthersKept plan.dataset_id before after
  Attempt (after, err failure) = OthersKept plan.dataset_id before after

  succeeded-Attempt :
      (skipped : Bool) (journal : Journal)
      → Evidence answers
      → OthersKept plan.dataset_id before journal
      → Attempt (
        upsert_record now accepts plan DatasetState.succeeded attempts
            (some plan.source_digest)
            none
            none
            (some now)
            (some now)
            journal,
        ok (success now accepts plan attempts skipped),
      )
  succeeded-Attempt skipped journal evidence kept = (
    refl,
    refl,
    refl,
    evidence,
    λ a.
        upsert_record-here now plan DatasetState.succeeded attempts (some plan.source_digest) none
          none (some now) (some now) journal accepts a,
    λ o d.
        upsert_record-others now plan DatasetState.succeeded attempts (some plan.source_digest) none
          none (some now) (some now) journal accepts o d
        ∙ kept o d,
  )

  executed-Attempt :
      (r : Result DatasetFailure (Unit {0})) (journal : Journal)
      → (r ≡ ok tt → Evidence answers)
      → OthersKept plan.dataset_id before journal
      → Attempt (executed now accepts plan attempts r journal)
  unfolding executed
  executed-Attempt (ok u) journal evidence kept =
      succeeded-Attempt false journal (evidence refl) kept
  executed-Attempt (err failure) journal evidence kept = λ o d.
      upsert_record-others now plan (failure_state failure.class) attempts none (some failure.class)
        (some failure.message) (some now) (some now) journal accepts o d
      ∙ kept o d

  scanned-Attempt :
      (current : String) (r : Result DatasetFailure (Unit {0})) (journal : Journal)
      → (if answers.uses_storage then ok tt else answers.lock) ≡ ok tt
      → answers.fingerprint ≡ ok current
      → answers.scan ≡ r
      → OthersKept plan.dataset_id before journal
      → Attempt (scanned now accepts plan attempts answers r journal)
  unfolding scanned
  scanned-Attempt current (ok u) journal lock same scan kept =
      executed-Attempt answers.execution journal
        (λ done. Evidence.repaired current lock same scan done) kept
  scanned-Attempt current (err failure) journal lock same scan kept = kept

  run_repair-Attempt :
      (r : Result DatasetFailure String)
      → (if answers.uses_storage then ok tt else answers.lock) ≡ ok tt
      → answers.fingerprint ≡ r
      → Attempt (run_repair now accepts plan attempts answers r before)
  unfolding run_repair
  run_repair-Attempt (err failure) lock same = λ o d. refl
  run_repair-Attempt (ok current) lock same =
      scanned-Attempt current answers.scan _ lock same refl (
        upsert_record-others now plan DatasetState.running attempts (some current) none none
          (some now) none before accepts)

  Attempt-if :
      (b : Bool) (x y : Journal × Result DatasetFailure DatasetExecutionOutcome)
      → (b ≡ true → Attempt x)
      → (b ≡ false → Attempt y)
      → Attempt (if b then x else y)
  Attempt-if true x y h k = h refl
  Attempt-if false x y h k = k refl

  locked-Attempt :
      (r : Result DatasetFailure (Unit {0}))
      → (if answers.uses_storage then ok tt else answers.lock) ≡ r
      → Attempt (locked now accepts plan attempts answers r before)
  unfolding locked
  locked-Attempt (err failure) lock = λ o d. refl
  locked-Attempt (ok u) lock =
      Attempt-if (answers.remote && published answers.publication) _ _
        (λ there. succeeded-Attempt true before (Evidence.published_output there) (λ o d. refl))
        (λ missing. run_repair-Attempt answers.fingerprint lock refl)

  located-Attempt :
      (r : Result DatasetFailure (Unit {0}))
      → Attempt (located now accepts plan attempts answers r before)
  unfolding located
  located-Attempt (err failure) = λ o d. refl
  located-Attempt (ok u) =
      Attempt-if answers.committed _ _
        (λ there. succeeded-Attempt true before (Evidence.committed_output there) (λ o d. refl))
        (λ missing. locked-Attempt (if answers.uses_storage then ok tt else answers.lock) refl)

  pub execute_dataset_once-Attempt :
      Attempt (execute_dataset_once now accepts plan attempts answers before)
  unfolding execute_dataset_once
  execute_dataset_once-Attempt = located-Attempt answers.locations
