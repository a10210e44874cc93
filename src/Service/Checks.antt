-- ===== src/Service/Checks.antt =====
-- The job queue of crates/paraclete-store and the worker of crates/paraclete-service at concrete tables.
use parqonaut.Prelude.{subst, ◌≡◌, refl, some, String, List, [], ◌∷◌, ok, arith}
use parqonaut.Service.Jobs.{
  JobKind, JobStatus, StoreError, ScanJobRow, Table, queued_row, claimed_row,
  claim_next_queued_scan_job,
}
use parqonaut.Service.Jobs.Ends.{get_scan_job}
use parqonaut.Service.Jobs.Calls.{Call, perform, perform_all}
use parqonaut.Service.Jobs.Spec.{Moves, job_of}
use parqonaut.Service.Jobs.Refines.{perform-Moves}
use parqonaut.Service.Jobs.Histories.{Sound, perform_all-Sound}
use parqonaut.Service.Jobs.Claims.{Claims, claim_next_queued_scan_job-Claims}
use parqonaut.Service.Worker.Heartbeat.{Meanwhile}
use parqonaut.Service.Worker.{AppError, work}
use parqonaut.Service.Worker.Endings.{Ended, work-Ended}

abbrev submitted : List Call
submitted =
    Call.insert 5 "late" JobKind.scan "local_file" "/data/b" "{}"
    ∷ Call.insert 2 "early" JobKind.repair "local_file" "/data/a" "{}"
    ∷ []

abbrev waiting_jobs : Table
waiting_jobs =
    queued_row 5 "late" JobKind.scan "local_file" "/data/b" "{}"
    ∷ queued_row 2 "early" JobKind.repair "local_file" "/data/a" "{}"
    ∷ []

abbrev taken : ScanJobRow
taken = claimed_row 10 "w" 10 40 (queued_row 2 "early" JobKind.repair "local_file" "/data/a" "{}")

abbrev running_jobs : Table
running_jobs = queued_row 5 "late" JobKind.scan "local_file" "/data/b" "{}" ∷ taken ∷ []

submitted-waiting : perform_all 3 submitted [] ≡ waiting_jobs
unfolding perform_all
submitted-waiting = refl

-- The later call gets the job that was submitted first.
claimed-running : claim_next_queued_scan_job 10 "w" 10 40 waiting_jobs ≡ (running_jobs, some taken)
unfolding claim_next_queued_scan_job
claimed-running = refl

-- A worker that is lost three times uses up the attempts of its job.
abbrev lost_thrice : List Call
lost_thrice =
    Call.insert 1 "a" JobKind.repair "local_file" "/data/a" "{}"
    ∷ Call.claim 2 "w" 2 32
    ∷ Call.recover 40
    ∷ Call.claim 41 "v" 41 71
    ∷ Call.recover 80
    ∷ Call.claim 81 "w" 81 111
    ∷ Call.recover 120
    ∷ Call.claim 121 "w" 121 151
    ∷ []

abbrev StatusOf : List Call → Type 0
StatusOf calls =
    (r : ScanJobRow) × (get_scan_job "a" (perform_all 3 calls []) ≡ some r)
    × (r.status ≡ JobStatus.failed)

lost_thrice-failed : StatusOf lost_thrice
unfolding perform_all get_scan_job
lost_thrice-failed = (_, refl, refl)

perform_all-Sound_example : Sound 3 (perform_all 3 lost_thrice [])
perform_all-Sound_example = perform_all-Sound 3 lost_thrice [] (omega arith) (tt, tt)

waiting-Sound : Sound 3 waiting_jobs
waiting-Sound =
    subst (Sound 3) submitted-waiting (perform_all-Sound 3 submitted [] (omega arith) (tt, tt))

running-Sound : Sound 3 running_jobs
unfolding perform_all
running-Sound =
    perform_all-Sound 3 (Call.claim 10 "w" 10 40 ∷ []) waiting_jobs (omega arith) waiting-Sound

perform-Moves_example :
    Moves 3
      (Call.recover 50)
      "early"
      (job_of (get_scan_job "early" running_jobs))
      (job_of (get_scan_job "early" (perform 3 (Call.recover 50) running_jobs)))
perform-Moves_example = perform-Moves 3 (Call.recover 50) "early" running_jobs running-Sound.0

claim_next_queued_scan_job-Claims_example :
    Claims 10 "w" 10 40 waiting_jobs (claim_next_queued_scan_job 10 "w" 10 40 waiting_jobs)
claim_next_queued_scan_job-Claims_example =
    claim_next_queued_scan_job-Claims 10 "w" 10 40 waiting_jobs waiting-Sound.0

abbrev store_text : StoreError → String
store_text e = "store error"

abbrev app_text : AppError → String
app_text e = "error"

running-found : get_scan_job "early" running_jobs ≡ some taken
unfolding get_scan_job
running-found = refl

-- A client asks during the work, and a heartbeat comes after it.
abbrev asked_late : List Meanwhile
asked_late = Meanwhile.ask 12 ∷ Meanwhile.beat 15 45 ∷ []

work-Ended_example :
    Ended "early" running_jobs
      (work store_text 20 "early" "w" asked_late app_text JobKind.repair (ok "{}") running_jobs)
      JobStatus.canceled
work-Ended_example =
    work-Ended store_text app_text 20 "early" "w" asked_late taken running_jobs running-found refl
      refl JobKind.repair (ok "{}")
