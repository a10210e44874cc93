-- ===== src/Orchestrator/Checks.antt =====
-- The theorems on crates/parqonaut-orchestrator/src at concrete states, journals and batches.
use parqonaut.Prelude.{
  ℕ, ◌*◌, ◌≤◌, ◌+◌, ◌≡◌, refl, ◌⊎◌, ◌↔◌, true, false, none, some, String, List, [], ◌∷◌, ok, err,
  Text, codes, starts_with, trim_start, trim_end, text_eq, get, insert, if◌then◌else◌, ◌==◌,
}
use parqonaut.Storage.Location.{DatasetLocation, S3Location}
use parqonaut.Orchestrator.State.{
  DatasetState, FailureClass, transition, recover_after_crash, Settled, recover_after_crash-Settled,
}
use parqonaut.Orchestrator.Journal.{DatasetRunRecord, Journal, dataset_row, recover_journal_states}
use parqonaut.Orchestrator.Journal.Recovery.{recover_journal_states-Settled}
use parqonaut.Orchestrator.Executor.{DatasetPlan, DatasetExecutionOutcome, Answers}
use parqonaut.Orchestrator.Executor.Loop.{Environment, execute_dataset_with_retries, prior_attempts}
use parqonaut.Orchestrator.Executor.Endings.{Ends, execute_dataset_with_retries-Ends}
use parqonaut.Orchestrator.Scheduler.{Run, Event, step, start_run, new_scheduler, is_over}
use parqonaut.Orchestrator.Scheduler.Bounds.{
  Reaches, Bounded, Reaches-Bounded, Reaches-progress, own, steps,
}
use parqonaut.Orchestrator.Overlap.{
  BatchPathSpec, validate_batch_overlap, s3_prefixes_overlap, normalize_s3_prefix,
}
use parqonaut.Orchestrator.Overlap.Disjoint.{
  OwnApart, PairsApart, validate_batch_overlap-PairsApart, s3_prefixes_overlap-apart,
}

recover_after_crash-Settled_example :
    (transition DatasetState.running (recover_after_crash DatasetState.running)
      ≡ ok (recover_after_crash DatasetState.running))
    × Settled (recover_after_crash DatasetState.running)
    × (recover_after_crash (recover_after_crash DatasetState.running)
        ≡ recover_after_crash DatasetState.running)
    × (Settled DatasetState.running
        → recover_after_crash DatasetState.running ≡ DatasetState.running)
recover_after_crash-Settled_example = recover_after_crash-Settled DatasetState.running

abbrev row : DatasetState → DatasetRunRecord
row s = record {
  dataset_id = "a";
  output_path = "out";
  repair_plan_id = "plan";
  policy_fingerprint = "policy";
  state = s;
  attempts = 1;
  source_fingerprint = none;
  output_fingerprint = none;
  error_class = none;
  error_message = none;
  started_at = none;
  updated_at = 0;
  completed_at = none;
}

abbrev interrupted : Journal
interrupted = ("a", row DatasetState.running) ∷ []

abbrev message : DatasetState → String
message s = "recovered after interruption"

abbrev recovered : DatasetRunRecord
recovered = record {
  dataset_id = "a";
  output_path = "out";
  repair_plan_id = "plan";
  policy_fingerprint = "policy";
  state = DatasetState.failed_recoverable;
  attempts = 1;
  source_fingerprint = none;
  output_fingerprint = none;
  error_class = some FailureClass.recoverable;
  error_message = some "recovered after interruption";
  started_at = none;
  updated_at = 5;
  completed_at = none;
}

recovered-row : dataset_row "a" (recover_journal_states 5 message interrupted) ≡ some recovered
unfolding recover_journal_states dataset_row get insert
recovered-row = refl

recover_journal_states-Settled_example : Settled DatasetState.failed_recoverable
recover_journal_states-Settled_example =
    recover_journal_states-Settled 5 message interrupted "a" recovered (refl, tt) recovered-row

abbrev plan : DatasetPlan
plan = record {
  dataset_id = "a";
  output_path = "out";
  repair_plan_id = "plan";
  policy_fingerprint = "policy";
  source_digest = "digest";
}

-- An attempt whose repair fails once and then succeeds.
abbrev answer : ℕ → Answers
answer n = record {
  locations = ok tt;
  committed = false;
  uses_storage = false;
  lock = ok tt;
  remote = false;
  publication = none;
  fingerprint = ok "digest";
  scan = ok tt;
  execution =
      if n == 2 then err (record { class = FailureClass.recoverable; message = "io" }) else ok tt;
}

abbrev environment : Environment
environment = record {
  now = λ n. n;
  accepts = λ n. true;
  cancelled = λ n. false;
  answers = answer;
  prior_state = some DatasetState.failed_recoverable;
  max_retries = 2;
}

execute_dataset_with_retries-Ends_example :
    (r : Journal × DatasetExecutionOutcome) × (execute_dataset_with_retries environment plan
        interrupted
      ≡ some r)
    × Ends environment plan
        (prior_attempts environment plan (dataset_row "a" interrupted))
        interrupted
        r
execute_dataset_with_retries-Ends_example =
    execute_dataset_with_retries-Ends environment plan interrupted

abbrev spawned_run : Run
unfolding start_run new_scheduler
spawned_run = record (start_run (new_scheduler 2) 3) { pending = 2; permits = 1; waiting = 1 }

spawned-reached : Reaches (new_scheduler 2) 3 spawned_run
unfolding step start_run new_scheduler spawned_run
spawned-reached = Reaches.next Event.spawn (Reaches.next Event.take Reaches.here refl) refl

Reaches-Bounded_example : Bounded (new_scheduler 2) 3 spawned_run
Reaches-Bounded_example = Reaches-Bounded (new_scheduler 2) 3 spawned_run spawned-reached

Reaches-progress_example :
    (steps spawned-reached ≤ 5 * 3)
    × (((is_over spawned_run ≡ true)
          × (spawned_run.pending + spawned_run.results + spawned_run.lost ≡ 3)
          × (spawned_run.cancelled ≡ false → spawned_run.results + spawned_run.lost ≡ 3))
        ⊎ ((e : Event) × (s : Run) × (step (new_scheduler 2) e spawned_run ≡ some s) × (own e ≡ 1)))
Reaches-progress_example = Reaches-progress 2 3 spawned_run spawned-reached

abbrev at_prefix : Text → S3Location
at_prefix p = record { bucket = codes "b"; prefix = p }

abbrev spec : String → Text → Text → BatchPathSpec
spec id source output = record {
  dataset_id = id;
  source = DatasetLocation.s3 (at_prefix source);
  output = DatasetLocation.s3 (at_prefix output);
}

abbrev batch : List BatchPathSpec
batch = spec "a" (codes "in/a") (codes "out/a") ∷ spec "b" (codes "in/b") (codes "out/b") ∷ []

validate_batch_overlap-PairsApart_example :
    (validate_batch_overlap starts_with batch ≡ ok tt)
    ↔ (OwnApart starts_with batch × PairsApart starts_with batch)
validate_batch_overlap-PairsApart_example = validate_batch_overlap-PairsApart starts_with batch

prefixes-apart : s3_prefixes_overlap (at_prefix (codes "out/a")) (at_prefix (codes "out/b")) ≡ false
unfolding s3_prefixes_overlap starts_with trim_start trim_end text_eq
prefixes-apart = refl

key-in-a : starts_with (codes "out/a/x") (normalize_s3_prefix (codes "out/a")) ≡ true
unfolding normalize_s3_prefix starts_with trim_start trim_end
key-in-a = refl

s3_prefixes_overlap-apart_example :
    starts_with (codes "out/a/x") (normalize_s3_prefix (codes "out/b")) ≡ false
s3_prefixes_overlap-apart_example =
    s3_prefixes_overlap-apart (at_prefix (codes "out/a")) (at_prefix (codes "out/b"))
      (codes "out/a/x") prefixes-apart refl key-in-a
