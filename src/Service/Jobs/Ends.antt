-- ===== src/Service/Jobs/Ends.antt =====
-- The ends of a job, its cancellation and its reads (crates/paraclete-store/src/sqlite_store.rs).
use parqonaut.Prelude.{ℕ, Bool, true, false, ◌&&◌, Option, none, some, String, find, length}
use parqonaut.Prelude.Eff.{Eff, ◌>>=◌, pure, throw}
use parqonaut.Service.Jobs.{
  StoreError, JobCancelOutcome, JobStatus, ScanJobRow, Table, is_queued, has_id, runs, update_or,
  select,
}

abbrev pub succeeded_row : ℕ → Option String → Option String → ScanJobRow → ScanJobRow
succeeded_row now run result_ref r = record r {
  status = JobStatus.succeeded;
  completed_at = some now;
  run_id = run;
  result_ref_json = result_ref;
  worker_id = none;
  heartbeat_at = none;
  leased_until = none;
  cancel_requested = false;
}

abbrev pub stopped_row : ℕ → ScanJobRow → ScanJobRow
stopped_row now r = record r {
  status = JobStatus.canceled;
  completed_at = some now;
  failure_code = some "canceled";
  failure_message = some "job canceled by client request";
  worker_id = none;
  heartbeat_at = none;
  leased_until = none;
  cancel_requested = false;
}

abbrev pub failed_row : ℕ → String → String → ScanJobRow → ScanJobRow
failed_row now code message r = record r {
  status = JobStatus.failed;
  completed_at = some now;
  failure_code = some code;
  failure_message = some message;
  worker_id = none;
  heartbeat_at = none;
  leased_until = none;
}

unfoldable pub complete_application_job_success :
    ℕ → String → Option String → Option String → Eff StoreError Table (Unit {0})
complete_application_job_success now id run result_ref =
    update_or "application job not running or missing when completing success" (runs id)
      (succeeded_row now run result_ref)

unfoldable pub complete_scan_job_success : ℕ → String → String → Eff StoreError Table (Unit {0})
unfolding complete_application_job_success
complete_scan_job_success now id run = complete_application_job_success now id (some run) none

unfoldable pub complete_application_job_canceled : ℕ → String → Eff StoreError Table (Unit {0})
complete_application_job_canceled now id =
    update_or "application job not running or missing when completing cancel" (runs id)
      (stopped_row now)

unfoldable pub complete_scan_job_failure :
    ℕ → String → String → String → Eff StoreError Table (Unit {0})
complete_scan_job_failure now id code message =
    update_or "scan job not running or missing when completing failure" (runs id)
      (failed_row now code message)

unfoldable pub get_scan_job : String → Table → Option ScanJobRow
get_scan_job id t = find (has_id id) t

-- The match of `request_cancel_job` on the status that it has read. The row is found, so each update
-- selects it; another writer may have moved it on between the read and the update, and then the update
-- is an error.
unfoldable pub cancel_job : ℕ → String → JobStatus → Eff StoreError Table JobCancelOutcome
cancel_job now id JobStatus.queued =
    update_or "job left queued before cancel could apply" (λ r. has_id id r && is_queued r.status)
      (λ r. record r {
        status = JobStatus.canceled;
        completed_at = some now;
        failure_code = some "canceled";
        failure_message = some "job canceled before start";
      })
    >>= λ _. pure JobCancelOutcome.canceled_from_queued
cancel_job now id JobStatus.running =
    update_or "job left running before cancel could apply" (runs id)
      (λ r. record r { cancel_requested = true })
    >>= λ _. pure JobCancelOutcome.cancel_requested_for_running
cancel_job now id JobStatus.canceled = pure JobCancelOutcome.already_canceled
cancel_job now id _ = throw (StoreError.report_validation "job is already terminal")

unfoldable pub cancel_found : ℕ → String → Option ScanJobRow → Eff StoreError Table JobCancelOutcome
unfolding cancel_job
cancel_found now id none = throw (StoreError.job_not_found id)
cancel_found now id (some r) = cancel_job now id r.status

unfoldable pub request_cancel_job : ℕ → String → Eff StoreError Table JobCancelOutcome
unfolding cancel_found get_scan_job
request_cancel_job now id t = cancel_found now id (get_scan_job id t) t

abbrev requested : Option ScanJobRow → Bool
requested none = false
requested (some r) = r.cancel_requested

unfoldable pub job_cancel_requested : String → Table → Bool
job_cancel_requested id t = requested (find (runs id) t)

abbrev pub status_eq : JobStatus → JobStatus → Bool
status_eq JobStatus.queued JobStatus.queued = true
status_eq JobStatus.running JobStatus.running = true
status_eq JobStatus.succeeded JobStatus.succeeded = true
status_eq JobStatus.failed JobStatus.failed = true
status_eq JobStatus.canceled JobStatus.canceled = true
status_eq _ _ = false

unfoldable pub count_scan_jobs : Option JobStatus → Table → ℕ
count_scan_jobs (some st) t = length (select (λ r. status_eq r.status st) t)
count_scan_jobs none t = length t
