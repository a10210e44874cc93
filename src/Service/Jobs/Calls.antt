-- ===== src/Service/Jobs/Calls.antt =====
-- The statements on the table `application_jobs` (crates/paraclete-store/src/sqlite_store.rs) in any
-- order: from workers that hold a job or have lost it, and from clients.
use parqonaut.Prelude.{ℕ, Option, String, List, [], ◌∷◌}
use parqonaut.Service.Jobs.{
  JobKind, JobStatus, Table, insert_application_job, claim_next_queued_scan_job,
  renew_scan_job_lease,
}
use parqonaut.Service.Jobs.Recovery.{recover_stale_scan_jobs}
use parqonaut.Service.Jobs.Ends.{
  complete_application_job_success, complete_application_job_canceled, complete_scan_job_failure,
  cancel_job,
}

-- A cancellation names the status that its client has read, which may be an old one.
pub data Call : Type 0 where
  insert : ℕ → String → JobKind → String → String → String → Call
  claim : ℕ → String → ℕ → ℕ → Call
  renew : String → String → ℕ → ℕ → Call
  recover : ℕ → Call
  succeed : ℕ → String → Option String → Option String → Call
  stop : ℕ → String → Call
  fail : ℕ → String → String → String → Call
  cancel : ℕ → String → JobStatus → Call

unfoldable pub perform : ℕ → Call → Table → Table
unfolding insert_application_job claim_next_queued_scan_job renew_scan_job_lease
    recover_stale_scan_jobs complete_application_job_success complete_application_job_canceled
    complete_scan_job_failure cancel_job
perform max_attempts (Call.insert now id kind target_kind key request) t =
    (insert_application_job now id kind target_kind key request t).0
perform max_attempts (Call.claim now worker heartbeat until) t =
    (claim_next_queued_scan_job now worker heartbeat until t).0
perform max_attempts (Call.renew id worker heartbeat until) t =
    (renew_scan_job_lease id worker heartbeat until t).0
perform max_attempts (Call.recover now) t = (recover_stale_scan_jobs now max_attempts t).0
perform max_attempts (Call.succeed now id run result_ref) t =
    (complete_application_job_success now id run result_ref t).0
perform max_attempts (Call.stop now id) t = (complete_application_job_canceled now id t).0
perform max_attempts (Call.fail now id code message) t =
    (complete_scan_job_failure now id code message t).0
perform max_attempts (Call.cancel now id read) t = (cancel_job now id read t).0

unfoldable pub perform_all : ℕ → List Call → Table → Table
unfolding perform
perform_all max_attempts [] t = t
perform_all max_attempts (c ∷ calls) t = perform_all max_attempts calls (perform max_attempts c t)
