-- ===== src/Service/Jobs/Refines.antt =====
-- The table of crates/paraclete-store/src/sqlite_store.rs implements the job queue: each statement moves each job
-- by one of the queue's steps at most.
use parqonaut.Prelude.{
  ℕ, ◌≡◌, refl, sym, ap, ◌∙◌, subst, inl, inr, true, Bool-cases, Option-cases, some, String, [],
  ◌∷◌, ◌++◌, arith, leb, str_eq, eq_iff, find, any, ◌&&◌,
}
use parqonaut.Service.Jobs.{
  JobKind, JobStatus, ScanJobRow, Table, is_running, is_queued, has_id, runs, update_where,
  update_or, queued_row, held_by, renews, insert_application_job, claim_row, claimed_row,
  claim_next_queued_scan_job, oldest_queued, renew_scan_job_lease,
}
use parqonaut.Service.Jobs.Recovery.{is_stale, exhausted_row}
use parqonaut.Service.Jobs.Ends.{get_scan_job, cancel_job}
use parqonaut.Service.Jobs.Spec.{
  Job, Ends, Step, Moves, view, job_of, view-running, view-queued, step_from, step_between,
}
use parqonaut.Service.Jobs.Rows.{All-weaken, after, update-Moves, select-Moves}
use parqonaut.Service.Jobs.Oldest.{Distinct, oldest_queued-queued, oldest_queued-only}
use parqonaut.Service.Jobs.Settled.{settle, settle-job_id, recover_stale_scan_jobs-settle}
use parqonaut.Service.Jobs.Calls.{Call, perform}

same_job : {id k : String} (r : ScanJobRow) → has_id id r ≡ true → r.job_id ≡ k → k ≡ id
same_job {id = id} r here named = sym named ∙ (eq_iff r.job_id id).0 here

module _ (max_attempts : ℕ) where
  -- A statement on a running job that leaves it over.
  finish-Moves :
      (call : String → Call)
      → ((i : String) → Ends i (call i))
      → (id : String) (change : ScanJobRow → ScanJobRow)
      → ((r : ScanJobRow) → (change r).job_id ≡ r.job_id)
      → ((r : ScanJobRow) → view (change r) ≡ Job.over (change r))
      → (message : String) (k : String) (t : Table)
      → Moves max_attempts
          (call id)
          k
          (job_of (find (has_id k) t))
          (job_of (find (has_id k) (update_or message (runs id) change t).0))
  finish-Moves call ended id change keeps ends message k t = elim (Bool-cases (any (runs id) t)) [
    | inr gone ↦ rw gone (inl refl)
    | inl there ↦ rw there (
        select-Moves (runs id) change keeps max_attempts (call id) k
          (λ r here named. subst (Moves max_attempts (call id) k (view r)) (sym (ends r)) (
            step_from max_attempts (call id) k (view-running r (ground arith)) (
              Step.finish r.attempt_count r.worker_id r.leased_until (change r) (
                subst (λ i. Ends k (call i)) (same_job {id = id} r (ground arith) named)
                  (ended k)))))
          t)
  ]

  append-Moves :
      (call : Call) (k : String) (q : ScanJobRow) (t : Table)
      → view q ≡ Job.waiting 0
      → (q.job_id ≡ k → Step max_attempts call k Job.absent (Job.waiting 0))
      → Moves max_attempts call k
          (job_of (find (has_id k) t))
          (job_of (find (has_id k) (t ++ (q ∷ []))))
  unfolding job_of
  append-Moves call k q [] h new = elim (Bool-cases (str_eq q.job_id k)) [
    | inl here ↦
        rw here (step_between max_attempts call k refl h (new ((eq_iff q.job_id k).0 here)))
    | inr other ↦ rw other (inl refl)
  ]
  append-Moves call k q (r ∷ t) h new = elim (Bool-cases (str_eq r.job_id k)) [
    | inl here ↦ rw here (inl refl)
    | inr other ↦ rw other (append-Moves call k q t h new)
  ]

  insert-Moves :
      (now : ℕ) (id : String) (kind : JobKind) (target_kind key request k : String) (t : Table)
      → Moves max_attempts
          (Call.insert now id kind target_kind key request)
          k
          (job_of (find (has_id k) t))
          (job_of
            (find (has_id k) (insert_application_job now id kind target_kind key request t).0))
  unfolding insert_application_job view
  insert-Moves now id kind target_kind key request k t = elim (Bool-cases (any (has_id id) t)) [
    | inl taken ↦ rw taken (inl refl)
    | inr new ↦ rw new (
        append-Moves (Call.insert now id kind target_kind key request) k
          (queued_row now id kind target_kind key request) t refl
          (λ named.
            Step.submit now kind target_kind key request
              (ap (λ i. Call.insert now i kind target_kind key request) named)))
  ]

  claim_row-Moves :
      (now : ℕ) (worker : String) (heartbeat until : ℕ) (k : String) (t : Table)
      → Distinct t
      → Moves max_attempts
          (Call.claim now worker heartbeat until)
          k
          (job_of (find (has_id k) t))
          (job_of (find (has_id k) (claim_next_queued_scan_job now worker heartbeat until t).0))
  unfolding claim_next_queued_scan_job claim_row view
  claim_row-Moves now worker heartbeat until k t d = elim (Option-cases (oldest_queued t)) [
    | inl gone ↦ rw gone (inl refl)
    | inr (q, there) ↦ rw there (
        update-Moves (has_id q.job_id) (claimed_row now worker heartbeat until) (λ r. refl)
          max_attempts (Call.claim now worker heartbeat until) k t
          (All-weaken (λ r. r.job_id ≡ q.job_id → r ≡ q)
            (λ r.
              r.job_id ≡ k
              → Moves max_attempts (Call.claim now worker heartbeat until) k (view r) (
                  view (
                    after (has_id q.job_id) (claimed_row now worker heartbeat until) (λ r. refl)
                      r)))
            t
            (λ r only named. elim (Bool-cases (has_id q.job_id r)) [
              | inr other ↦ rw other (inl refl)
              | inl here ↦
                  let same : r ≡ q = only ((eq_iff r.job_id q.job_id).0 here) in
                  rw here (
                    step_from max_attempts (Call.claim now worker heartbeat until) k
                      (view-queued r (
                        subst (λ x. is_queued x.status ≡ true) (sym same)
                          (oldest_queued-queued q t there)))
                      (Step.take r.attempt_count now worker heartbeat until refl))
            ])
            (oldest_queued-only q t d there)))
  ]

  abbrev renewed : ℕ → ℕ → ScanJobRow → ScanJobRow
  renewed heartbeat until r = record r { heartbeat_at = some heartbeat; leased_until = some until }

  renewed-Moves :
      (id k : String) (r : ScanJobRow) (heartbeat until : ℕ) (worker : String)
      → is_running r.status ≡ true
      → held_by worker r.worker_id ≡ true
      → k ≡ id
      → Moves max_attempts
          (Call.renew id worker heartbeat until)
          k
          (view r)
          (view (renewed heartbeat until r))
  renewed-Moves id k r heartbeat until worker running held named = elim (Option-cases r.worker_id) [
    | inl nobody ↦ absurd (ground arith)
    | inr (w, owner) ↦
        step_between max_attempts (Call.renew id worker heartbeat until) k
          (view-running r running ∙ ap (λ o. Job.held o r.attempt_count r.leased_until) owner)
          (view-running (renewed heartbeat until r) running
            ∙ ap (λ o. Job.held o r.attempt_count (some until)) owner)
          (Step.renew r.attempt_count w r.leased_until heartbeat until (
            ap (λ x. Call.renew id x heartbeat until) (sym ((eq_iff w worker).0 (ground arith)))
            ∙ ap (λ i. Call.renew i w heartbeat until) (sym named)))
  ]

  renew-Moves :
      (id worker : String) (heartbeat until : ℕ) (k : String) (t : Table)
      → Moves max_attempts
          (Call.renew id worker heartbeat until)
          k
          (job_of (find (has_id k) t))
          (job_of (find (has_id k) (renew_scan_job_lease id worker heartbeat until t).0))
  unfolding renew_scan_job_lease
  renew-Moves id worker heartbeat until k =
      select-Moves (renews id worker) (renewed heartbeat until) (λ r. refl) max_attempts
        (Call.renew id worker heartbeat until) k
        (λ r here named.
          renewed-Moves id k r heartbeat until worker (ground arith) (ground arith)
            (same_job {id = id} r (ground arith) named))

  settle-Moves :
      (now : ℕ) (k : String) (r : ScanJobRow)
      → is_stale now r ≡ true
      → Moves max_attempts (Call.recover now) k (view r) (view (settle now max_attempts r))
  unfolding view
  settle-Moves now k r h = elim (Option-cases r.leased_until) [
    | inl none_held ↦ absurd (ground arith)
    | inr (until, lease) ↦
        let from : view r ≡ Job.held r.worker_id r.attempt_count (some until) =
          view-running r (ground arith) ∙ ap (Job.held r.worker_id r.attempt_count) lease in
        elim (Bool-cases (leb max_attempts r.attempt_count)) [
          | inl out ↦ rw out (
              step_from max_attempts (Call.recover now) k from (
                Step.finish r.attempt_count r.worker_id (some until) (exhausted_row now r)
                  (Ends.recovers now)))
          | inr again ↦ rw again (
              step_from max_attempts (Call.recover now) k from (
                Step.lose r.attempt_count r.worker_id until now refl (ground arith) (ground arith)))
        ]
  ]

  recover-Moves :
      (now : ℕ) (k : String) (t : Table)
      → Moves max_attempts
          (Call.recover now)
          k
          (job_of (find (has_id k) t))
          (job_of (find (has_id k) (update_where (is_stale now) (settle now max_attempts) t)))
  recover-Moves now k =
      select-Moves (is_stale now) (settle now max_attempts) (settle-job_id now max_attempts)
        max_attempts (Call.recover now) k (λ r here named. settle-Moves now k r here)

  abbrev canceled_row : ℕ → ScanJobRow → ScanJobRow
  canceled_row now r = record r {
    status = JobStatus.canceled;
    completed_at = some now;
    failure_code = some "canceled";
    failure_message = some "job canceled before start";
  }

  -- A client's cancellation, of a job that waits or of one that runs.
  cancel-Moves :
      (now : ℕ) (id : String) (read : JobStatus) (k : String) (t : Table)
      → Moves max_attempts
          (Call.cancel now id read)
          k
          (job_of (find (has_id k) t))
          (job_of (find (has_id k) (cancel_job now id read t).0))
  unfolding cancel_job view
  cancel-Moves now id JobStatus.queued k t =
      elim (Bool-cases (any (λ r. has_id id r && is_queued r.status) t)) [
        | inr gone ↦ rw gone (inl refl)
        | inl there ↦ rw there (
            select-Moves (λ r. has_id id r && is_queued r.status) (canceled_row now) (λ r. refl)
              max_attempts (Call.cancel now id JobStatus.queued) k
              (λ r here named.
                step_from max_attempts (Call.cancel now id JobStatus.queued) k
                  (view-queued r (ground arith))
                  (Step.cancel r.attempt_count now (canceled_row now r)
                    (ap (λ i. Call.cancel now i JobStatus.queued)
                      (sym (same_job {id = id} r (ground arith) named)))
                    refl))
              t)
      ]
  cancel-Moves now id JobStatus.running k t = elim (Bool-cases (any (runs id) t)) [
    | inr gone ↦ rw gone (inl refl)
    | inl there ↦ rw there (
        select-Moves (runs id) (λ r. record r { cancel_requested = true }) (λ r. refl) max_attempts
          (Call.cancel now id JobStatus.running) k
          (λ r here named. inl (
            view-running r (ground arith)
            ∙ sym (view-running (record r { cancel_requested = true }) (ground arith))))
          t)
  ]
  cancel-Moves now id JobStatus.succeeded k t = inl refl
  cancel-Moves now id JobStatus.failed k t = inl refl
  cancel-Moves now id JobStatus.canceled k t = inl refl

  -- The table refines the queue of jobs: whatever statement a worker or a client sends, whether it holds
  -- the job or has lost it and whether it succeeds or fails, each job makes one step of the queue at
  -- most, and the statement is one that allows the step, on this job. So a job is submitted once, by an insertion; it
  -- starts only from waiting, by a claim, with one more attempt, and then the claiming worker has it under the claim's
  -- lease; a lease is renewed only by the worker that has the job; a job goes back to waiting only by a
  -- recovery, when its lease has expired and attempts are left; a job that a worker has ends only by a completion,
  -- a failure, a cancellation of running work or a recovery, and one that waits only by a
  -- client's cancellation; and the row of a job that is over never changes.
  pub perform-Moves :
      (c : Call) (k : String) (t : Table)
      → Distinct t
      → Moves max_attempts c k
          (job_of (get_scan_job k t))
          (job_of (get_scan_job k (perform max_attempts c t)))
  unfolding perform get_scan_job view
  perform-Moves (Call.insert now id kind target_kind key request) k t d =
      insert-Moves now id kind target_kind key request k t
  perform-Moves (Call.claim now worker heartbeat until) k t d =
      claim_row-Moves now worker heartbeat until k t d
  perform-Moves (Call.renew id worker heartbeat until) k t d =
      renew-Moves id worker heartbeat until k t
  perform-Moves (Call.recover now) k t d =
      subst
        (λ u.
          Moves max_attempts (Call.recover now) k (job_of (find (has_id k) t))
            (job_of (find (has_id k) u)))
        (sym (recover_stale_scan_jobs-settle now max_attempts t d)) (recover-Moves now k t)
  perform-Moves (Call.succeed now id run result_ref) k t d =
      finish-Moves (λ i. Call.succeed now i run result_ref) (λ i. Ends.succeeds now run result_ref)
        id _ (λ r. refl) (λ r. refl)
        "application job not running or missing when completing success" k t
  perform-Moves (Call.stop now id) k t d =
      finish-Moves (λ i. Call.stop now i) (λ i. Ends.stops now) id _ (λ r. refl) (λ r. refl)
        "application job not running or missing when completing cancel" k t
  perform-Moves (Call.fail now id code message) k t d =
      finish-Moves (λ i. Call.fail now i code message) (λ i. Ends.fails now code message) id _
        (λ r. refl) (λ r. refl) "scan job not running or missing when completing failure" k t
  perform-Moves (Call.cancel now id read) k t d = cancel-Moves now id read k t
