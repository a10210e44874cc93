-- ===== src/Service/Worker/Heartbeat.antt =====
-- The heartbeat task of crates/paraclete-service/src/worker.rs beside the work on a job, and the requests for
-- a cancellation that clients send in the meantime.
use parqonaut.Prelude.{ℕ, Bool, true, false, not, ◌||◌, String, List, [], ◌∷◌, if◌then◌else◌}
use parqonaut.Service.Jobs.{Table, renew_scan_job_lease}
use parqonaut.Service.Jobs.Ends.{job_cancel_requested, request_cancel_job}

-- A client asks, or the heartbeat has slept its interval.
pub data Meanwhile : Type 0 where
  ask : ℕ → Meanwhile
  beat : ℕ → ℕ → Meanwhile

-- The table, the cancel flag that the work reads, and whether the loop goes on.
pub record Watch : Type 0 where
  pub table : Table
  pub flag : Bool
  pub alive : Bool

abbrev pub start_watch : Bool → Table → Watch
start_watch canceled t = record { table = t; flag = canceled; alive = true }

module _ (id worker : String) where
  -- One round of the loop.
  unfoldable pub heartbeat : ℕ → ℕ → Watch → Watch
  unfolding job_cancel_requested renew_scan_job_lease
  heartbeat now until w = if w.flag || not w.alive then record w { alive = false } else record {
    table = (renew_scan_job_lease id worker now until w.table).0;
    flag = job_cancel_requested id w.table;
    alive = (renew_scan_job_lease id worker now until w.table).1;
  }

  unfoldable pub meanwhile : List Meanwhile → Watch → Watch
  unfolding heartbeat request_cancel_job
  meanwhile [] w = w
  meanwhile (Meanwhile.ask now ∷ during) w =
      meanwhile during (record w { table = (request_cancel_job now id w.table).0 })
  meanwhile (Meanwhile.beat now until ∷ during) w = meanwhile during (heartbeat now until w)
