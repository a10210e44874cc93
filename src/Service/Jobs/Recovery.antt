-- ===== src/Service/Jobs/Recovery.antt =====
-- The recovery of jobs whose lease has expired (crates/paraclete-store/src/sqlite_store.rs).
use parqonaut.Prelude.{
  ℕ, ◌+◌, Bool, false, ◌&&◌, Option, none, some, List, [], ◌∷◌, if◌then◌else◌, ltb, leb,
}
use parqonaut.Service.Jobs.{
  StaleRecoveryStats, JobStatus, ScanJobRow, Table, is_running, runs, update_where, select,
}

abbrev pub expired : ℕ → Option ℕ → Bool
expired now none = false
expired now (some until) = ltb until now

abbrev pub is_stale : ℕ → ScanJobRow → Bool
is_stale now r = is_running r.status && expired now r.leased_until

abbrev pub exhausted_row : ℕ → ScanJobRow → ScanJobRow
exhausted_row now r = record r {
  status = JobStatus.failed;
  completed_at = some now;
  failure_code = some "job_retries_exhausted";
  failure_message = some "maximum job execution attempts reached after worker loss or lease expiry";
  worker_id = none;
  heartbeat_at = none;
  leased_until = none;
  recovery_note = some "retries_exhausted";
}

abbrev pub requeued_row : ScanJobRow → ScanJobRow
requeued_row r = record r {
  status = JobStatus.queued;
  started_at = none;
  worker_id = none;
  heartbeat_at = none;
  leased_until = none;
  recovery_note =
      some "requeued after lease expired without completion (worker lost or process died)";
}

-- One round of the loop, on a row that the SELECT found.
unfoldable pub recover_row :
    ℕ → ℕ → ScanJobRow → Table × StaleRecoveryStats → Table × StaleRecoveryStats
recover_row now max_attempts found (t, stats) =
    if leb max_attempts found.attempt_count
    then (
      update_where (runs found.job_id) (exhausted_row now) t,
      record stats { failed_retries_exhausted = stats.failed_retries_exhausted + 1 },
    )
    else (
      update_where (runs found.job_id) requeued_row t,
      record stats { requeued = stats.requeued + 1 },
    )

unfoldable pub recover_rows :
    ℕ → ℕ → List ScanJobRow → Table × StaleRecoveryStats → Table × StaleRecoveryStats
unfolding recover_row
recover_rows now max_attempts [] w = w
recover_rows now max_attempts (r ∷ found) w =
    recover_rows now max_attempts found (recover_row now max_attempts r w)

unfoldable pub recover_stale_scan_jobs : ℕ → ℕ → Table → Table × StaleRecoveryStats
unfolding recover_rows
recover_stale_scan_jobs now max_attempts t =
    recover_rows now max_attempts (select (is_stale now) t)
      (t, record { requeued = 0; failed_retries_exhausted = 0 })
