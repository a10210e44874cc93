-- ===== src/Service/Jobs.antt =====
-- The table `application_jobs` of crates/paraclete-store/src/sqlite_store.rs, with the row of models.rs and
-- the enumerations of crates/paraclete-types/src/job.rs. A statement changes the rows that its WHERE
-- selects. The times, RFC 3339 texts that are compared as texts, are numbers; the table's texts for a
-- status are the constructors of JobStatus. A statement that SQLite refuses changes nothing.
pub mod Recovery
pub mod Ends
pub mod Calls
pub mod Spec
pub mod Rows
pub mod Oldest
pub mod Settled
pub mod Refines
pub mod Consistency
pub mod Histories
pub mod Claims
use parqonaut.Prelude.{
  ℕ, ◌+◌, Bool, true, false, ◌&&◌, Option, none, some, String, List, [], ◌∷◌, ◌++◌, map, Result, ok,
  err, if◌then◌else◌, ltb, leb, ◌==◌, any, find, length, str_eq,
}
use parqonaut.Prelude.Eff.{Eff, pure, throw}

pub data JobKind : Type 0 where
  scan repair batch_repair batch_resume : JobKind

pub data JobStatus : Type 0 where
  queued running succeeded failed canceled : JobStatus

pub data StoreError : Type 0 where
  job_not_found report_validation database : String → StoreError

pub data JobCancelOutcome : Type 0 where
  canceled_from_queued cancel_requested_for_running already_canceled : JobCancelOutcome

pub record StaleRecoveryStats : Type 0 where
  pub requeued : ℕ
  pub failed_retries_exhausted : ℕ

pub record ScanJobRow : Type 0 where
  pub job_id : String
  pub submitted_at : ℕ
  pub started_at : Option ℕ
  pub completed_at : Option ℕ
  pub status : JobStatus
  pub target_kind : String
  pub normalized_target_key : String
  pub request_json : String
  pub failure_code : Option String
  pub failure_message : Option String
  pub run_id : Option String
  pub worker_id : Option String
  pub attempt_count : ℕ
  pub heartbeat_at : Option ℕ
  pub leased_until : Option ℕ
  pub recovery_note : Option String
  pub job_kind : JobKind
  pub payload_schema_version : ℕ
  pub cancel_requested : Bool
  pub result_ref_json : Option String

-- The rows in the order of their insertion.
abbrev pub Table : Type 0
Table = List ScanJobRow

abbrev pub is_queued : JobStatus → Bool
is_queued JobStatus.queued = true
is_queued _ = false

abbrev pub is_running : JobStatus → Bool
is_running JobStatus.running = true
is_running _ = false

abbrev pub has_id : String → ScanJobRow → Bool
has_id id r = str_eq r.job_id id

-- `WHERE job_id = ? AND status = 'running'`.
abbrev pub runs : String → ScanJobRow → Bool
runs id r = has_id id r && is_running r.status

-- `UPDATE … WHERE`, and its `rows_affected() > 0`.
abbrev pub update_where : (ScanJobRow → Bool) → (ScanJobRow → ScanJobRow) → Table → Table
update_where test change = map (λ r. if test r then change r else r)

-- An update that is an error if no row is selected.
abbrev pub update_or :
    String → (ScanJobRow → Bool) → (ScanJobRow → ScanJobRow) → Eff StoreError Table (Unit {0})
update_or message test change t =
    if any test t
    then (update_where test change t, ok tt)
    else (t, err (StoreError.report_validation message))

-- The rows of a SELECT.
abbrev pub select : (ScanJobRow → Bool) → Table → Table
select test [] = []
select test (r ∷ t) = let rest = select test t in if test r then r ∷ rest else rest

abbrev pub queued_row : ℕ → String → JobKind → String → String → String → ScanJobRow
queued_row now id kind target_kind key request_json = record {
  job_id = id;
  submitted_at = now;
  started_at = none;
  completed_at = none;
  status = JobStatus.queued;
  target_kind = target_kind;
  normalized_target_key = key;
  request_json = request_json;
  failure_code = none;
  failure_message = none;
  run_id = none;
  worker_id = none;
  attempt_count = 0;
  heartbeat_at = none;
  leased_until = none;
  recovery_note = none;
  job_kind = kind;
  payload_schema_version = 1;
  cancel_requested = false;
  result_ref_json = none;
}

-- `job_id` is the primary key.
unfoldable pub insert_application_job :
    ℕ → String → JobKind → String → String → String → Eff StoreError Table (Unit {0})
insert_application_job now id kind target_kind key request_json t =
    if any (has_id id) t
    then (t, err (StoreError.database "UNIQUE constraint failed: application_jobs.job_id"))
    else (t ++ (queued_row now id kind target_kind key request_json ∷ []), ok tt)

abbrev earlier : ScanJobRow → Option ScanJobRow → Option ScanJobRow
earlier r none = some r
earlier r (some s) = if leb r.submitted_at s.submitted_at then some r else some s

-- `WHERE status = 'queued' ORDER BY submitted_at ASC LIMIT 1`; of rows submitted at the same time, SQLite
-- may choose any, and the model takes the first.
unfoldable pub oldest_queued : Table → Option ScanJobRow
oldest_queued [] = none
oldest_queued (r ∷ t) =
    let rest = oldest_queued t in if is_queued r.status then earlier r rest else rest

abbrev pub claimed_row : ℕ → String → ℕ → ℕ → ScanJobRow → ScanJobRow
claimed_row now worker heartbeat until r = record r {
  status = JobStatus.running;
  started_at = some now;
  worker_id = some worker;
  heartbeat_at = some heartbeat;
  leased_until = some until;
  attempt_count = r.attempt_count + 1;
}

-- The update on the row that the subquery finds, with what it returns.
unfoldable pub claim_row :
    ℕ → String → ℕ → ℕ → Table → Option ScanJobRow → Table × Option ScanJobRow
claim_row now worker heartbeat until t none = (t, none)
claim_row now worker heartbeat until t (some r) = (
  update_where (has_id r.job_id) (claimed_row now worker heartbeat until) t,
  some (claimed_row now worker heartbeat until r),
)

unfoldable pub claim_next_queued_scan_job : ℕ → String → ℕ → ℕ → Table → Table × Option ScanJobRow
unfolding claim_row oldest_queued
claim_next_queued_scan_job now worker heartbeat until t =
    claim_row now worker heartbeat until t (oldest_queued t)

abbrev pub held_by : String → Option String → Bool
held_by worker none = false
held_by worker (some w) = str_eq w worker

abbrev pub renews : String → String → ScanJobRow → Bool
renews id worker r = has_id id r && held_by worker r.worker_id && is_running r.status

unfoldable pub renew_scan_job_lease : String → String → ℕ → ℕ → Table → Table × Bool
renew_scan_job_lease id worker heartbeat until t = (
  update_where (renews id worker)
      (λ r. record r { heartbeat_at = some heartbeat; leased_until = some until }) t,
  any (renews id worker) t,
)
