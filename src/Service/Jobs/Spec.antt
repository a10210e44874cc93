-- ===== src/Service/Jobs/Spec.antt =====
-- What the job queue of crates/paraclete-store/src/sqlite_store.rs promises of each job: the states and steps of
-- one job, without the table.
use parqonaut.Prelude.{
  ℕ, ◌+◌, ◌<◌, ◌≡◌, refl, ap, sym, subst, true, ◌⊎◌, inr, Option, none, some, String,
}
use parqonaut.Service.Jobs.Calls.{Call}
use parqonaut.Service.Jobs.{JobKind, JobStatus, ScanJobRow, is_running, is_queued}

-- A job waits, with the attempts made, or a worker has it, with its attempt and its lease, or it is over,
-- with its last row.
pub data Job : Type 0 where
  absent : Job
  waiting : ℕ → Job
  held : Option String → ℕ → Option ℕ → Job
  over : ScanJobRow → Job

-- The calls that can end job `id` while a worker has it.
pub data Ends (id : String) : Call → Type 0 where
  succeeds :
      (now : ℕ) (run result_ref : Option String) → Ends id (Call.succeed now id run result_ref)
  stops : (now : ℕ) → Ends id (Call.stop now id)
  fails : (now : ℕ) (code message : String) → Ends id (Call.fail now id code message)
  recovers : (now : ℕ) → Ends id (Call.recover now)

-- The steps of job `id` under one call.
pub data Step (max_attempts : ℕ) (call : Call) (id : String) : Job → Job → Type 0 where
  submit :
      (now : ℕ) (kind : JobKind) (target_kind key request : String)
      → call ≡ Call.insert now id kind target_kind key request
      → Step max_attempts call id Job.absent (Job.waiting 0)
  take :
      (n now : ℕ) (worker : String) (heartbeat until : ℕ)
      → call ≡ Call.claim now worker heartbeat until
      → Step max_attempts call id (Job.waiting n) (Job.held (some worker) (n + 1) (some until))
  renew :
      (n : ℕ) (worker : String) (lease : Option ℕ) (heartbeat until : ℕ)
      → call ≡ Call.renew id worker heartbeat until
      → Step max_attempts call id
          (Job.held (some worker) n lease)
          (Job.held (some worker) n (some until))
  lose :
      (n : ℕ) (worker : Option String) (until now : ℕ)
      → call ≡ Call.recover now
      → until < now
      → n < max_attempts
      → Step max_attempts call id (Job.held worker n (some until)) (Job.waiting n)
  finish :
      (n : ℕ) (worker : Option String) (lease : Option ℕ) (r : ScanJobRow)
      → Ends id call
      → Step max_attempts call id (Job.held worker n lease) (Job.over r)
  cancel :
      (n now : ℕ) (r : ScanJobRow)
      → call ≡ Call.cancel now id JobStatus.queued
      → r.status ≡ JobStatus.canceled
      → Step max_attempts call id (Job.waiting n) (Job.over r)

-- At most one step.
abbrev pub Moves : ℕ → Call → String → Job → Job → Type 0
Moves max_attempts call id a b = (a ≡ b) ⊎ Step max_attempts call id a b

abbrev pub view_at : JobStatus → ScanJobRow → Job
view_at JobStatus.queued r = Job.waiting r.attempt_count
view_at JobStatus.running r = Job.held r.worker_id r.attempt_count r.leased_until
view_at _ r = Job.over r

unfoldable pub view : ScanJobRow → Job
view r = view_at r.status r

unfoldable pub job_of : Option ScanJobRow → Job
unfolding view
job_of none = Job.absent
job_of (some r) = view r

pub is_running_sound : (st : JobStatus) → is_running st ≡ true → st ≡ JobStatus.running
is_running_sound JobStatus.running h = refl
is_running_sound JobStatus.queued h = cc
is_running_sound JobStatus.succeeded h = cc
is_running_sound JobStatus.failed h = cc
is_running_sound JobStatus.canceled h = cc

pub is_queued_sound : (st : JobStatus) → is_queued st ≡ true → st ≡ JobStatus.queued
is_queued_sound JobStatus.queued h = refl
is_queued_sound JobStatus.running h = cc
is_queued_sound JobStatus.succeeded h = cc
is_queued_sound JobStatus.failed h = cc
is_queued_sound JobStatus.canceled h = cc

pub view-running :
    (r : ScanJobRow)
    → is_running r.status ≡ true
    → view r ≡ Job.held r.worker_id r.attempt_count r.leased_until
unfolding view
view-running r h = ap (λ st. view_at st r) (is_running_sound r.status h)

pub view-queued :
    (r : ScanJobRow) → is_queued r.status ≡ true → view r ≡ Job.waiting r.attempt_count
unfolding view
view-queued r h = ap (λ st. view_at st r) (is_queued_sound r.status h)

pub step_from :
    (max_attempts : ℕ) (call : Call) (id : String) {a b c : Job}
    → a ≡ b
    → Step max_attempts call id b c
    → Moves max_attempts call id a c
step_from max_attempts call id {c = c} e s =
    subst (λ x. Moves max_attempts call id x c) (sym e) (inr s)

pub step_between :
    (max_attempts : ℕ) (call : Call) (id : String) {a b c d : Job}
    → a ≡ b
    → d ≡ c
    → Step max_attempts call id b c
    → Moves max_attempts call id a d
step_between max_attempts call id {a = a} {c = c} e f s =
    subst (λ x. Moves max_attempts call id a x) (sym f) (step_from max_attempts call id e s)
