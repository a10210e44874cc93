-- ===== src/Orchestrator/Executor/Endings.antt =====
-- How `execute_dataset_with_retries` of crates/parqonaut-orchestrator/src/executor/mod.rs ends.
use parqonaut.Prelude.{
  ℕ, zero, suc, ◌-◌, ◌≤◌, ◌<◌, max, ◌≡◌, ◌≢◌, refl, ◌∙◌, true, false, ◌&&◌, Option, none, some,
  Result, ok, err, arith, ltb, Bool-cases, inl, inr, ◌⊎◌,
}
use parqonaut.Orchestrator.State.{DatasetState, FailureClass, is_terminal}
use parqonaut.Orchestrator.Journal.{Journal, dataset_row}
use parqonaut.Orchestrator.Executor.{
  DatasetFailure, DatasetExecutionOutcome, DatasetPlan, failure_state, execute_dataset_once,
}
use parqonaut.Orchestrator.Executor.Loop.{
  Environment, max_attempts, cancel_dataset, fail_dataset, retry_row, planned_row, attempted,
  attempt_loop, enough_fuel, execute_dataset_with_retries, is_recoverable, had_succeeded,
  prior_attempts,
}
use parqonaut.Orchestrator.Executor.Retries.{
  OthersKept, HasRow, Attempt, Evidence, upsert_record-others, upsert_record-here,
  execute_dataset_once-Attempt,
}

terminal_or_recoverable :
    (c : FailureClass)
    → (is_terminal (failure_state c) ≡ true)
      ⊎ ((is_recoverable c ≡ true) × (failure_state c ≡ DatasetState.failed_recoverable))
unfolding is_terminal failure_state
terminal_or_recoverable c = ground arith

failure_state-ne-succeeded : (c : FailureClass) → failure_state c ≢ DatasetState.succeeded
unfolding failure_state
failure_state-ne-succeeded c e = ground arith

module _ (env : Environment) (plan : DatasetPlan) where
  -- The outcome is for the dataset, and either terminal or a recoverable failure with no attempt left; its
  -- attempts are bounded; the journal, if it accepts the rows, agrees with it; no other dataset's
  -- row has changed.
  pub record Ends (attempts : ℕ) (before : Journal) (r : Journal × DatasetExecutionOutcome)
      : Type 0 where
    pub named : r.1.dataset_id ≡ plan.dataset_id
    pub ended :
        (is_terminal r.1.state ≡ true)
        ⊎ ((r.1.state ≡ DatasetState.failed_recoverable) × (max_attempts env ≤ r.1.attempts))
    pub bound : r.1.attempts ≤ max (suc attempts) (max_attempts env)
    pub row : ((n : ℕ) → env.accepts n ≡ true) → HasRow plan.dataset_id r.0 r.1.state r.1.attempts
    pub others : OthersKept plan.dataset_id before r.0
    pub evidence :
        r.1.state ≡ DatasetState.succeeded → (n : ℕ) × (n ≤ r.1.attempts) × Evidence (env.answers n)

  abbrev Finishes : ℕ → Journal → Option (Journal × DatasetExecutionOutcome) → Type 0
  Finishes attempts before o =
      (r : Journal × DatasetExecutionOutcome) × (o ≡ some r) × Ends attempts before r

  planned_row-others :
      (n : ℕ) (j : Journal) → OthersKept plan.dataset_id j (planned_row env plan n j)
  unfolding planned_row
  planned_row-others n j o d = elim (Bool-cases (had_succeeded env.prior_state)) [
    | inl done ↦ rw done
    | inr other ↦ rw other (
        upsert_record-others (env.now n) plan DatasetState.planning_validated n none none none
          (some (env.now n)) none j (env.accepts n) o d)
  ]

  retry_row-others :
      (n : ℕ) (failure : DatasetFailure) (j : Journal)
      → OthersKept plan.dataset_id j (retry_row env plan n failure j)
  unfolding retry_row
  retry_row-others n failure j o d =
      upsert_record-others (env.now n) plan DatasetState.failed_recoverable n none
        (some failure.class) (some failure.message) none none j (env.accepts n) o d

  cancel_dataset-Ends : (n : ℕ) (j : Journal) → Ends n j (cancel_dataset env plan n j)
  unfolding cancel_dataset is_terminal
  cancel_dataset-Ends n j = record {
    named = refl;
    ended = inl refl;
    bound = ground arith;
    row = λ a.
        upsert_record-here (env.now n) plan DatasetState.cancelled n none
          (some FailureClass.cancelled) (some "batch run cancelled") none (some (env.now n)) j
          (env.accepts n) (a n);
    others = λ o d.
        upsert_record-others (env.now n) plan DatasetState.cancelled n none
          (some FailureClass.cancelled) (some "batch run cancelled") none (some (env.now n)) j
          (env.accepts n) o d;
    evidence = λ e. absurd (ground arith);
  }

  fail_dataset-Ends :
      (n : ℕ) (failure : DatasetFailure) (before j : Journal)
      → OthersKept plan.dataset_id before j
      → (is_recoverable failure.class && ltb (suc n) (max_attempts env)) ≡ false
      → Ends n before (fail_dataset env plan (suc n) failure j)
  unfolding fail_dataset
  fail_dataset-Ends n failure before j kept last = record {
    named = refl;
    ended = elim (terminal_or_recoverable failure.class) [
      | inl t ↦ inl t
      | inr (c, e) ↦ inr (e, ground arith)
    ];
    bound = ground arith;
    row = λ a.
        upsert_record-here (env.now (suc n)) plan (failure_state failure.class) (suc n) none
          (some failure.class) (some failure.message) (some (env.now (suc n)))
          (some (env.now (suc n))) j (env.accepts (suc n)) (a (suc n));
    others = λ o d.
        upsert_record-others (env.now (suc n)) plan (failure_state failure.class) (suc n) none
          (some failure.class) (some failure.message) (some (env.now (suc n)))
          (some (env.now (suc n))) j (env.accepts (suc n)) o d
        ∙ kept o d;
    evidence = λ e. absurd (failure_state-ne-succeeded failure.class e);
  }

  -- The ending of the rounds that follow an attempt is that of the loop.
  Ends-again :
      (n : ℕ) (before j : Journal) (r : Journal × DatasetExecutionOutcome)
      → suc n < max_attempts env
      → OthersKept plan.dataset_id before j
      → Ends (suc n) j r
      → Ends n before r
  Ends-again n before j r left kept e = record {
    named = e.named;
    ended = e.ended;
    bound = let b = e.bound in ground arith;
    row = e.row;
    others = λ o d. e.others o d ∙ kept o d;
    evidence = e.evidence;
  }

  attempted-Finishes :
      (again : ℕ → Journal → Option (Journal × DatasetExecutionOutcome)) (n : ℕ)
      (before j : Journal) (r : Journal × Result DatasetFailure DatasetExecutionOutcome)
      → OthersKept plan.dataset_id before j
      → (suc n < max_attempts env → (k : Journal) → Finishes (suc n) k (again (suc n) k))
      → Attempt (env.now (suc n)) (env.accepts (suc n)) plan (suc n) j (env.answers (suc n)) r
      → Finishes n before (attempted env plan again (suc n) r)
  unfolding attempted is_terminal
  attempted-Finishes again n before j (k, ok outcome) kept next
        (named, state, count, grounds, row, others) =
      (
        (k, outcome),
        refl,
        record {
          named = named;
          ended = inl (rw state);
          bound = rw count (ground arith);
          row = λ a. rw (state, count) (row (a (suc n)));
          others = λ o d. others o d ∙ kept o d;
          evidence = λ _. (suc n, rw count (ground arith), grounds);
        },
      )
  attempted-Finishes again n before j (k, err failure) kept next others =
      elim (Bool-cases (is_recoverable failure.class && ltb (suc n) (max_attempts env))) [
        | inr last ↦ rw last (
          fail_dataset env plan (suc n) failure k,
          refl,
          fail_dataset-Ends n failure before k (λ o d. others o d ∙ kept o d) last,
        )
        | inl more ↦
            let left : suc n < max_attempts env = ground arith in
            let (r, e, f) = next left (retry_row env plan (suc n) failure k) in
            rw more (
              r,
              e,
              Ends-again n before (retry_row env plan (suc n) failure k) r left
                  (λ o d. retry_row-others (suc n) failure k o d ∙ others o d ∙ kept o d) f,
            )
      ]

  attempt_loop-Finishes :
      (fuel attempts : ℕ) (before : Journal)
      → max_attempts env - attempts < fuel
      → Finishes attempts before (attempt_loop env plan fuel attempts before)
  unfolding attempt_loop
  attempt_loop-Finishes zero n before enough = absurd (ground arith)
  attempt_loop-Finishes (suc fuel) n before enough = elim (Bool-cases (env.cancelled n)) [
    | inl stop ↦ rw stop (cancel_dataset env plan n before, refl, cancel_dataset-Ends n before)
    | inr go ↦
        let planned = planned_row env plan (suc n) before in
        rw go (
          attempted-Finishes (attempt_loop env plan fuel) n before planned
            (execute_dataset_once (env.now (suc n)) (env.accepts (suc n)) plan (suc n)
              (env.answers (suc n)) planned)
            (planned_row-others (suc n) before)
            (λ left k. attempt_loop-Finishes fuel (suc n) k (ground arith))
            (execute_dataset_once-Attempt (env.now (suc n)) (env.accepts (suc n)) plan (suc n)
              planned (env.answers (suc n))))
  ]

  -- Whatever the attempts meet, the loop ends. Its outcome is for the dataset, in a terminal state or,
  -- with every attempt used up, in a recoverable failure; it counts at most one attempt more than the
  -- journal had, or `max_retries + 1` attempts if that is more; a journal that accepts the rows has the
  -- dataset in the outcome's state, after the outcome's attempts; no other dataset's row changes; and a
  -- success rests on an attempt that found the output committed or published, or that repaired it from
  -- a source whose fingerprint matched.
  pub execute_dataset_with_retries-Ends :
      (journal : Journal)
      → (r : Journal × DatasetExecutionOutcome) × (execute_dataset_with_retries env plan journal
          ≡ some r)
        × Ends (prior_attempts env plan (dataset_row plan.dataset_id journal)) journal r
  unfolding execute_dataset_with_retries enough_fuel
  execute_dataset_with_retries-Ends journal =
      let n = prior_attempts env plan (dataset_row plan.dataset_id journal) in
      attempt_loop-Finishes (enough_fuel env plan n) n journal (ground arith)
