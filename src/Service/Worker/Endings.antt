-- ===== src/Service/Worker/Endings.antt =====
-- A claimed job ends (crates/paraclete-service/src/worker.rs).
use parqonaut.Prelude.{
  ℕ, ◌≡◌, ◌≢◌, refl, ◌∙◌, subst, List, ◌||◌, Bool, true, false, Option, none, some, String, arith,
  str_eq, eq_iff, find, if◌then◌else◌, ok, err,
}
use parqonaut.Service.Jobs.{
  held_by, JobKind, JobStatus, StoreError, ScanJobRow, Table, is_running, has_id, runs,
  update_where, update_or,
}
use parqonaut.Service.Jobs.Ends.{
  succeeded_row, stopped_row, failed_row, get_scan_job, job_cancel_requested,
  complete_scan_job_success, complete_application_job_success, complete_application_job_canceled,
  complete_scan_job_failure,
}
use parqonaut.Service.Jobs.Rows.{find-update, find-update_others, row_of_find}
use parqonaut.Service.Worker.Heartbeat.{Meanwhile, start_watch, meanwhile}
use parqonaut.Service.Worker.Meanwhiles.{
  read_in, find-test, find-runs, Kept, Watched, or_true, meanwhile-Watched,
}
use parqonaut.Service.Worker.{
  complete_scan, work_and_finish, run_batch_repair_job, run_batch_resume_job, AppError,
  app_error_to_job_failure_label, Stop, Answer, stored, run_scan_job, complete_with_result_ref,
  cancel_running_job, finish_job, run_repair_job, run_kind, run_claimed_job, fail_job, settle_work,
  work,
}

module _ (id : String) where
  -- The job's row, with the other rows as they were.
  pub record Ended (t u : Table) (st : JobStatus) : Type 0 where
    pub row : ScanJobRow
    pub is : get_scan_job id u ≡ some row
    pub status : row.status ≡ st
    pub others : (k : String) → k ≢ id → get_scan_job k u ≡ get_scan_job k t

  update-Ended :
      (change : ScanJobRow → ScanJobRow) (st : JobStatus) (message : String) (r : ScanJobRow)
      (t : Table)
      → ((x : ScanJobRow) → (change x).job_id ≡ x.job_id)
      → ((x : ScanJobRow) → (change x).status ≡ st)
      → find (has_id id) t ≡ some r
      → is_running r.status ≡ true
      → (update_or message (runs id) change t ≡ (update_where (runs id) change t, ok tt))
        × Ended t (update_where (runs id) change t) st
  unfolding get_scan_job
  update-Ended change st message r t keeps sets found running =
      let here : str_eq r.job_id id ≡ true = (eq_iff r.job_id id).1 (row_of_find id r t found) in
      (
        rw (find-test id (runs id) r t found (rw (here, running) refl)) refl,
        record {
          row = change r;
          is = find-update (runs id) change keeps id t ∙ rw (found, here, running) refl;
          status = sets r;
          others = λ k differ.
              find-update_others (runs id) change keeps id k
                (λ x selected. (eq_iff x.job_id id).0 (ground arith)) differ t;
        },
      )

-- How the queue promises that a job ends: a scan cannot be canceled once it runs, another job is
-- canceled by a request that is there before the work or that a heartbeat reads during it.
abbrev pub ending_of_work : Bool → Answer → JobStatus
ending_of_work canceled (err stop) = JobStatus.failed
ending_of_work canceled (ok _) = if canceled then JobStatus.canceled else JobStatus.succeeded

abbrev pub ending : JobKind → Bool → List Meanwhile → Answer → JobStatus
ending JobKind.scan canceled during answer = ending_of_work false answer
ending _ canceled during answer =
    if canceled then JobStatus.canceled else ending_of_work (read_in false during) answer

module _ (message : StoreError → String) (display : AppError → String) (now : ℕ)
    (id worker : String) (during : List Meanwhile) where
  module _ (r : ScanJobRow) (t : Table) (found : get_scan_job id t ≡ some r)
      (running : is_running r.status ≡ true) where
    failed-Ended :
        (code text : String)
        → Ended id t (complete_scan_job_failure now id code text t).0 JobStatus.failed
    unfolding complete_scan_job_failure get_scan_job
    failed-Ended code text =
        let (done, ended) =
          update-Ended id (failed_row now code text) JobStatus.failed
            "scan job not running or missing when completing failure" r t (λ x. refl) (λ x. refl)
            found running in
        rw done ended

    stopped-Ended :
        (stop : Stop)
        → Ended id t
            (settle_work message now id worker during display (t, err stop))
            JobStatus.failed
    unfolding settle_work fail_job
    stopped-Ended (Stop.failed e) = failed-Ended (app_error_to_job_failure_label e) (display e)
    stopped-Ended (Stop.panicked text) = failed-Ended "internal_error" text

    succeeded-Ended :
        (run result_ref : Option String)
        → Ended id t
            (settle_work message now id worker during display
              (stored message (complete_application_job_success now id run result_ref t)))
            JobStatus.succeeded
    unfolding complete_application_job_success settle_work get_scan_job
    succeeded-Ended run result_ref =
        let (done, ended) =
          update-Ended id (succeeded_row now run result_ref) JobStatus.succeeded
            "application job not running or missing when completing success" r t (λ x. refl)
            (λ x. refl) found running in
        rw done ended

    canceled-Ended :
        Ended id t
          (settle_work message now id worker during display
            (stored message (complete_application_job_canceled now id t)))
          JobStatus.canceled
    unfolding complete_application_job_canceled settle_work get_scan_job
    canceled-Ended =
        let (done, ended) =
          update-Ended id (stopped_row now) JobStatus.canceled
            "application job not running or missing when completing cancel" r t (λ x. refl)
            (λ x. refl) found running in
        rw done ended

    complete-Ended :
        (answer : Answer)
        → Ended id t
            (settle_work message now id worker during display
              (complete_scan message now id worker during answer t))
            (ending_of_work false answer)
    unfolding complete_scan complete_scan_job_success
    complete-Ended (ok run) = succeeded-Ended (some run) none
    complete-Ended (err stop) = stopped-Ended stop

    finish-Ended :
        (canceled : Bool) (answer : Answer)
        → Ended id t
            (settle_work message now id worker during display
              (finish_job message now id worker during canceled answer t))
            (ending_of_work canceled answer)
    unfolding finish_job complete_with_result_ref cancel_running_job
    finish-Ended canceled (err stop) = stopped-Ended stop
    finish-Ended true (ok result_ref) = canceled-Ended
    finish-Ended false (ok result_ref) = succeeded-Ended none (some result_ref)

  module _ (r : ScanJobRow) (t : Table) (found : get_scan_job id t ≡ some r)
      (running : is_running r.status ≡ true) (held : held_by worker r.worker_id ≡ true) where
    -- The table and the flag after the work.
    after_work :
        (canceled : Bool)
        → Watched id worker t
            (meanwhile id worker during (start_watch canceled t))
            (canceled || read_in r.cancel_requested during)
    after_work canceled =
        meanwhile-Watched id worker t during (start_watch canceled t) r.cancel_requested
          (record {
            row = r;
            found = found;
            running = running;
            held = held;
            flag = refl;
            others = λ k differ. refl;
          })
          (or_true canceled)

    -- What ends after the work has ended what was there before it.
    before_work :
        (u v : Table) (asked : Bool) (st : JobStatus)
        → Kept id worker t u asked
        → Ended id u v st
        → Ended id t v st
    before_work u v asked st kept ended = record {
      row = ended.row;
      is = ended.is;
      status = ended.status;
      others = λ k differ. ended.others k differ ∙ kept.others k differ;
    }

    scan-Ended :
        (canceled : Bool) (answer : Answer)
        → Ended id t
            (settle_work message now id worker during display
              (run_scan_job message now id worker during canceled answer t))
            (ending_of_work false answer)
    unfolding run_scan_job
    scan-Ended canceled answer =
        let w = after_work canceled in
        before_work (meanwhile id worker during (start_watch canceled t)).table _ w.asked _ w.kept (
          complete-Ended w.kept.row (meanwhile id worker during (start_watch canceled t)).table
            w.kept.found w.kept.running answer)

    work-finish-Ended :
        (answer : Answer)
        → Ended id t
            (settle_work message now id worker during display
              (work_and_finish message now id worker during false answer t))
            (ending_of_work (read_in r.cancel_requested during) answer)
    unfolding work_and_finish
    work-finish-Ended answer =
        let w = after_work false in
        before_work (meanwhile id worker during (start_watch false t)).table _ w.asked _ w.kept (
          subst
            (λ flag.
              Ended id (meanwhile id worker during (start_watch false t)).table
                (settle_work message now id worker during display (
                  finish_job message now id worker during
                    (meanwhile id worker during (start_watch false t)).flag answer
                    (meanwhile id worker during (start_watch false t)).table))
                (ending_of_work flag answer))
            w.flagged
            (finish-Ended w.kept.row (meanwhile id worker during (start_watch false t)).table
              w.kept.found w.kept.running (meanwhile id worker during (start_watch false t)).flag
              answer))

    repair-Ended :
        (canceled : Bool) (answer : Answer)
        → r.cancel_requested ≡ canceled
        → Ended id t
            (settle_work message now id worker during display
              (run_repair_job message now id worker during canceled answer t))
            (ending JobKind.repair canceled during answer)
    unfolding run_repair_job cancel_running_job
    repair-Ended true answer e = canceled-Ended r t found running
    repair-Ended false answer e =
        subst
          (λ asked.
            Ended id t
              (settle_work message now id worker during display
                (work_and_finish message now id worker during false answer t))
              (ending_of_work (read_in asked during) answer))
          e (work-finish-Ended answer)

    kind-Ended :
        (kind : JobKind) (canceled : Bool) (answer : Answer)
        → r.cancel_requested ≡ canceled
        → Ended id t
            (settle_work message now id worker during display
              (run_kind message now id worker during kind canceled answer t))
            (ending kind canceled during answer)
    unfolding run_kind run_batch_repair_job run_batch_resume_job run_repair_job
    kind-Ended JobKind.scan canceled answer e = scan-Ended canceled answer
    kind-Ended JobKind.repair canceled answer e = repair-Ended canceled answer e
    kind-Ended JobKind.batch_repair canceled answer e = repair-Ended canceled answer e
    kind-Ended JobKind.batch_resume canceled answer e = repair-Ended canceled answer e

    -- Where every call of the store gets through, the work of the worker that has a running job brings it
    -- to its end, whatever the service answers, an error or a panic included, and however the heartbeat
    -- and the clients' requests to cancel come in during it. A scan succeeds or fails with its work.
    -- Another job is canceled if its row asks for that before the work, or if a client asks during the
    -- work, a heartbeat comes after that and the work succeeds; a request that no heartbeat reads has no effect. Otherwise it
    -- succeeds or fails with its work. No other job is touched.
    pub work-Ended :
        (kind : JobKind) (answer : Answer)
        → Ended id t
            (work message now id worker during display kind answer t)
            (ending kind r.cancel_requested during answer)
    unfolding work run_claimed_job job_cancel_requested get_scan_job
    work-Ended kind answer =
        rw (find-runs id r t found running) (kind-Ended kind r.cancel_requested answer refl)
