-- ===== src/Service/Worker.antt =====
-- crates/paraclete-service/src/worker.rs: what a worker does with a job that it has claimed. The work
-- itself, which parqonaut-app does, is a parameter: the service's answer, or its panic. The
-- heartbeat and the clients act beside the work, in the order of a list.
pub mod Heartbeat
pub mod Meanwhiles
pub mod Endings
use parqonaut.Prelude.{
  ℕ, Bool, true, false, List, Option, none, some, String, Result, ok, err, if◌then◌else◌,
}
use parqonaut.Prelude.Eff.{Eff, pure, throw, ◌>>=◌}
use parqonaut.Service.Worker.Heartbeat.{Meanwhile, start_watch, meanwhile}
use parqonaut.Service.Jobs.{JobKind, StoreError, Table}
use parqonaut.Service.Jobs.Ends.{
  complete_scan_job_success, complete_application_job_success, complete_application_job_canceled,
  complete_scan_job_failure, job_cancel_requested,
}

pub data AppError : Type 0 where
  invalid_request invalid_json_request target_not_found : String → AppError
  scan_failed store internal unauthorized forbidden location_not_allowed : String → AppError
  run_not_found job_not_found token_not_found : AppError

unfoldable pub app_error_to_job_failure_label : AppError → String
app_error_to_job_failure_label (AppError.invalid_request _) = "invalid_request"
app_error_to_job_failure_label (AppError.invalid_json_request _) = "invalid_request"
app_error_to_job_failure_label (AppError.target_not_found _) = "target_not_found"
app_error_to_job_failure_label AppError.run_not_found = "store_error"
app_error_to_job_failure_label (AppError.scan_failed _) = "scan_failed"
app_error_to_job_failure_label (AppError.store _) = "store_error"
app_error_to_job_failure_label (AppError.internal _) = "internal_error"
app_error_to_job_failure_label _ = "internal_error"

-- How the work stops early: `?` on an error, or a panic, which `catch_unwind` catches.
pub data Stop : Type 0 where
  failed : AppError → Stop
  panicked : String → Stop

-- The service's answer to the claimed job: a run id for a scan, and a reference as JSON for the others.
abbrev pub Answer : Type 0
Answer = Result Stop String

-- A call of the store under `?`; `message` is the error's text.
abbrev pub stored :
    {A : Type 0} → (StoreError → String) → Table × Result StoreError A → Table × Result Stop A
stored message (t, ok a) = (t, ok a)
stored message (t, err e) = (t, err (Stop.failed (AppError.store (message e))))

module _ (message : StoreError → String) (now : ℕ) (id worker : String)
    (during : List Meanwhile) where
  unfoldable pub complete_scan : Answer → Eff Stop Table (Unit {0})
  complete_scan (ok run) t = stored message (complete_scan_job_success now id run t)
  complete_scan (err stop) t = (t, err stop)

  -- A scan does not read the flag.
  unfoldable pub run_scan_job : Bool → Answer → Eff Stop Table (Unit {0})
  unfolding complete_scan meanwhile
  run_scan_job canceled answer t =
      complete_scan answer (meanwhile id worker during (start_watch canceled t)).table

  unfoldable pub complete_with_result_ref : Option String → String → Eff Stop Table (Unit {0})
  complete_with_result_ref run result_ref t =
      stored message (complete_application_job_success now id run (some result_ref) t)

  unfoldable pub cancel_running_job : Eff Stop Table (Unit {0})
  cancel_running_job t = stored message (complete_application_job_canceled now id t)

  -- The end of a job that can be canceled, after its work. The reference is a record of strings and
  -- numbers, whose serialisation does not fail.
  unfoldable pub finish_job : Bool → Answer → Eff Stop Table (Unit {0})
  unfolding complete_with_result_ref cancel_running_job
  finish_job canceled (err stop) = throw stop
  finish_job canceled (ok result_ref) =
      if canceled then cancel_running_job else complete_with_result_ref none result_ref

  -- The work of such a job, and its end.
  unfoldable pub work_and_finish : Bool → Answer → Eff Stop Table (Unit {0})
  unfolding finish_job meanwhile
  work_and_finish canceled answer t =
      let w = meanwhile id worker during (start_watch canceled t) in
      finish_job w.flag answer w.table

  unfoldable pub run_repair_job : Bool → Answer → Eff Stop Table (Unit {0})
  unfolding work_and_finish cancel_running_job
  run_repair_job canceled answer =
      if canceled then cancel_running_job else work_and_finish canceled answer

  unfoldable pub run_batch_repair_job : Bool → Answer → Eff Stop Table (Unit {0})
  unfolding work_and_finish cancel_running_job
  run_batch_repair_job canceled answer =
      if canceled then cancel_running_job else work_and_finish canceled answer

  unfoldable pub run_batch_resume_job : Bool → Answer → Eff Stop Table (Unit {0})
  unfolding work_and_finish cancel_running_job
  run_batch_resume_job canceled answer =
      if canceled then cancel_running_job else work_and_finish canceled answer

  unfoldable pub run_kind : JobKind → Bool → Answer → Eff Stop Table (Unit {0})
  unfolding run_scan_job run_repair_job run_batch_repair_job run_batch_resume_job
  run_kind JobKind.scan canceled answer = run_scan_job canceled answer
  run_kind JobKind.repair canceled answer = run_repair_job canceled answer
  run_kind JobKind.batch_repair canceled answer = run_batch_repair_job canceled answer
  run_kind JobKind.batch_resume canceled answer = run_batch_resume_job canceled answer

  unfoldable pub run_claimed_job : JobKind → Answer → Eff Stop Table (Unit {0})
  unfolding run_kind job_cancel_requested
  run_claimed_job kind answer t = run_kind kind (job_cancel_requested id t) answer t

  unfoldable pub fail_job : (AppError → String) → AppError → Table → Table
  unfolding app_error_to_job_failure_label
  fail_job display e t =
      (complete_scan_job_failure now id (app_error_to_job_failure_label e) (display e) t).0

  -- The match on the result of the work; the results of its calls are dropped.
  unfoldable pub settle_work : (AppError → String) → Table × Result Stop (Unit {0}) → Table
  unfolding fail_job
  settle_work display (t, ok _) = t
  settle_work display (t, err (Stop.failed e)) = fail_job display e t
  settle_work display (t, err (Stop.panicked text)) =
      (complete_scan_job_failure now id "internal_error" text t).0

  unfoldable pub work : (AppError → String) → JobKind → Answer → Table → Table
  unfolding run_claimed_job settle_work
  work display kind answer t = settle_work display (run_claimed_job kind answer t)
