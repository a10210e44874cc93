-- ===== src/Service/Jobs/Consistency.antt =====
-- Consistent rows of `application_jobs` (crates/paraclete-store/src/sqlite_store.rs), and the changes that keep
-- them so.
use parqonaut.Prelude.{
  ℕ, ◌≤◌, ◌<◌, ◌≡◌, refl, inl, inr, true, false, Bool, Bool-cases, Option, none, some, String,
  arith, leb,
}
use parqonaut.Service.Jobs.{
  JobKind, JobStatus, ScanJobRow, is_running, is_queued, queued_row, claimed_row,
}
use parqonaut.Service.Jobs.Ends.{succeeded_row, stopped_row, failed_row}
use parqonaut.Service.Jobs.Recovery.{is_stale}
use parqonaut.Service.Jobs.Settled.{settle}

abbrev is_some {ℓ} : {A : Type ℓ} → Option A → Bool
is_some (some _) = true
is_some none = false

abbrev is_over : JobStatus → Bool
is_over JobStatus.queued = false
is_over JobStatus.running = false
is_over _ = true

-- Failed or canceled.
abbrev has_failed : JobStatus → Bool
has_failed JobStatus.failed = true
has_failed JobStatus.canceled = true
has_failed _ = false

-- Exactly the running jobs have a worker, a heartbeat and a lease, exactly those that are over have an end,
-- and exactly those that failed or were canceled have a failure code. No job has had more attempts than
-- it may, and one that waits may be tried again.
pub record Consistent (max_attempts : ℕ) (r : ScanJobRow) : Type 0 where
  pub worker : is_some r.worker_id ≡ is_running r.status
  pub heartbeat : is_some r.heartbeat_at ≡ is_running r.status
  pub lease : is_some r.leased_until ≡ is_running r.status
  pub completed : is_some r.completed_at ≡ is_over r.status
  pub failure : is_some r.failure_code ≡ has_failed r.status
  pub attempts : r.attempt_count ≤ max_attempts
  pub again : is_queued r.status ≡ true → r.attempt_count < max_attempts

module _ (max_attempts : ℕ) where
  pub claimed-Consistent :
      (now : ℕ) (worker : String) (heartbeat until : ℕ) (r : ScanJobRow)
      → is_queued r.status ≡ true
      → Consistent max_attempts r
      → Consistent max_attempts (claimed_row now worker heartbeat until r)
  claimed-Consistent now worker heartbeat until r queued h =
      let waits : r.attempt_count < max_attempts = h.again queued in
      record {
        worker = refl;
        heartbeat = refl;
        lease = refl;
        completed = ground arith;
        failure = ground arith;
        attempts = omega (arith, waits);
        again = λ e. cc;
      }

  pub settle-Consistent :
      (now : ℕ) (r : ScanJobRow)
      → is_stale now r ≡ true
      → Consistent max_attempts r
      → Consistent max_attempts (settle now max_attempts r)
  settle-Consistent now r stale h = elim (Bool-cases (leb max_attempts r.attempt_count)) [
    | inl out ↦ rw out (record {
      worker = refl;
      heartbeat = refl;
      lease = refl;
      completed = refl;
      failure = refl;
      attempts = h.attempts;
      again = λ e. cc;
    })
    | inr left ↦ rw left (record {
      worker = refl;
      heartbeat = refl;
      lease = refl;
      completed = ground arith;
      failure = ground arith;
      attempts = h.attempts;
      again = λ e. ground arith;
    })
  ]

  pub succeeded-Consistent :
      (now : ℕ) (run result_ref : Option String) (r : ScanJobRow)
      → is_running r.status ≡ true
      → Consistent max_attempts r
      → Consistent max_attempts (succeeded_row now run result_ref r)
  succeeded-Consistent now run result_ref r running h = record {
    worker = refl;
    heartbeat = refl;
    lease = refl;
    completed = refl;
    failure = ground arith;
    attempts = h.attempts;
    again = λ e. cc;
  }

  pub stopped-Consistent :
      (now : ℕ) (r : ScanJobRow)
      → is_running r.status ≡ true
      → Consistent max_attempts r
      → Consistent max_attempts (stopped_row now r)
  stopped-Consistent now r running h = record {
    worker = refl;
    heartbeat = refl;
    lease = refl;
    completed = refl;
    failure = refl;
    attempts = h.attempts;
    again = λ e. cc;
  }

  pub failed-Consistent :
      (now : ℕ) (code message : String) (r : ScanJobRow)
      → is_running r.status ≡ true
      → Consistent max_attempts r
      → Consistent max_attempts (failed_row now code message r)
  failed-Consistent now code message r running h = record {
    worker = refl;
    heartbeat = refl;
    lease = refl;
    completed = refl;
    failure = refl;
    attempts = h.attempts;
    again = λ e. cc;
  }

  pub queued-Consistent :
      (now : ℕ) (id : String) (kind : JobKind) (target_kind key request : String)
      → 0 < max_attempts
      → Consistent max_attempts (queued_row now id kind target_kind key request)
  queued-Consistent now id kind target_kind key request some_attempt = record {
    worker = refl;
    heartbeat = refl;
    lease = refl;
    completed = refl;
    failure = refl;
    attempts = omega arith;
    again = λ e. some_attempt;
  }
