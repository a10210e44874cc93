-- ===== src/Service/Jobs/Histories.antt =====
-- The table `application_jobs` (crates/paraclete-store/src/sqlite_store.rs) over any history of its statements.
use parqonaut.Prelude.{
  ℕ, ◌<◌, ◌≡◌, ◌≢◌, refl, sym, ◌∙◌, subst, inl, inr, true, false, Bool, Bool-cases, Option-cases,
  some, String, List, [], ◌∷◌, ◌++◌, All, All-append, arith, eq_iff, any, ◌&&◌,
}
use parqonaut.Service.Jobs.{
  JobKind, JobStatus, ScanJobRow, Table, is_running, is_queued, has_id, runs, update_where,
  update_or, queued_row, renews, insert_application_job, claim_row, claimed_row,
  claim_next_queued_scan_job, oldest_queued, renew_scan_job_lease,
}
use parqonaut.Service.Jobs.Recovery.{is_stale}
use parqonaut.Service.Jobs.Ends.{
  complete_application_job_success, complete_application_job_canceled, complete_scan_job_failure,
  cancel_job,
}
use parqonaut.Service.Jobs.Rows.{All-both, All-weaken, after, after-job_id, update-All}
use parqonaut.Service.Jobs.Oldest.{Distinct, oldest_queued-queued, oldest_queued-only}
use parqonaut.Service.Jobs.Settled.{settle, settle-job_id, recover_stale_scan_jobs-settle}
use parqonaut.Service.Jobs.Calls.{Call, perform, perform_all}
use parqonaut.Service.Jobs.Consistency.{
  Consistent, claimed-Consistent, settle-Consistent, succeeded-Consistent, stopped-Consistent,
  failed-Consistent, queued-Consistent,
}

module _ (max_attempts : ℕ) where
  -- A table with distinct ids and consistent rows.
  abbrev pub Sound : Table → Type 0
  Sound t = Distinct t × All (Consistent max_attempts) t

  module _ (test : ScanJobRow → Bool) (change : ScanJobRow → ScanJobRow)
      (keeps : (r : ScanJobRow) → (change r).job_id ≡ r.job_id) where
    others-update :
        (r : ScanJobRow) (t : Table)
        → All (λ s. s.job_id ≢ r.job_id) t
        → All (λ s. s.job_id ≢ (after test change keeps r).job_id) (update_where test change t)
    others-update r [] h = tt
    others-update r (s ∷ t) (differ, rest) = (
      λ e. differ (sym (after-job_id test change keeps s) ∙ (e ∙ after-job_id test change keeps r)),
      others-update r t rest,
    )

    update-Distinct : (t : Table) → Distinct t → Distinct (update_where test change t)
    update-Distinct [] d = tt
    update-Distinct (r ∷ t) (apart, d) = (others-update r t apart, update-Distinct t d)

    -- A statement that keeps each row that it selects consistent.
    select-Sound :
        ((r : ScanJobRow)
          → test r ≡ true
          → Consistent max_attempts r
          → Consistent max_attempts (change r))
        → (t : Table) → Sound t
        → Sound (update_where test change t)
    select-Sound step t (d, h) = (
      update-Distinct t d,
      update-All test change keeps (Consistent max_attempts) t (
          All-weaken (Consistent max_attempts)
            (λ r. Consistent max_attempts (after test change keeps r)) t
            (λ r here. elim (Bool-cases (test r)) [
              | inr other ↦ rw other here
              | inl selected ↦ rw selected (step r selected here)
            ])
            h),
    )

  finish-Sound :
      (id : String) (change : ScanJobRow → ScanJobRow)
      → ((r : ScanJobRow) → (change r).job_id ≡ r.job_id)
      → ((r : ScanJobRow)
          → is_running r.status ≡ true
          → Consistent max_attempts r
          → Consistent max_attempts (change r))
      → (message : String) (t : Table) → Sound t
      → Sound (update_or message (runs id) change t).0
  finish-Sound id change keeps step message t h = elim (Bool-cases (any (runs id) t)) [
    | inr gone ↦ rw gone h
    | inl there ↦
        rw there (select-Sound (runs id) change keeps (λ r here. step r (ground arith)) t h)
  ]

  append-Distinct :
      (q : ScanJobRow) (t : Table)
      → any (has_id q.job_id) t ≡ false
      → Distinct t
      → Distinct (t ++ (q ∷ []))
  append-Distinct q [] h d = (tt, tt)
  append-Distinct q (r ∷ t) h (apart, d) = (
    All-append (λ s. s.job_id ≢ r.job_id) t (q ∷ []) apart
        (λ e. ground (arith, eq_iff r.job_id q.job_id), tt),
    append-Distinct q t (ground arith) d,
  )

  claimed-All :
      (now : ℕ) (worker : String) (heartbeat until : ℕ) (q : ScanJobRow) (t : Table)
      → oldest_queued t ≡ some q
      → All (Consistent max_attempts) t
      → All (λ r. r.job_id ≡ q.job_id → r ≡ q) t
      → All
          (λ r.
            Consistent max_attempts
              (after (has_id q.job_id) (claimed_row now worker heartbeat until) (λ x. refl) r))
          t
  claimed-All now worker heartbeat until q t there h only =
      All-weaken (λ r. Consistent max_attempts r × (r.job_id ≡ q.job_id → r ≡ q))
        (λ r.
          Consistent max_attempts
            (after (has_id q.job_id) (claimed_row now worker heartbeat until) (λ x. refl) r))
        t
        (λ r (old, same). elim (Bool-cases (has_id q.job_id r)) [
          | inr other ↦ rw other old
          | inl here ↦ rw here (
              claimed-Consistent max_attempts now worker heartbeat until r
                (subst (λ x. is_queued x.status ≡ true)
                  (sym (same ((eq_iff r.job_id q.job_id).0 here))) (oldest_queued-queued q t there))
                old)
        ])
        (All-both (Consistent max_attempts) (λ r. r.job_id ≡ q.job_id → r ≡ q) t h only)

  claim-Sound :
      (now : ℕ) (worker : String) (heartbeat until : ℕ) (t : Table)
      → Sound t
      → Sound (claim_next_queued_scan_job now worker heartbeat until t).0
  unfolding claim_next_queued_scan_job claim_row
  claim-Sound now worker heartbeat until t (d, h) = elim (Option-cases (oldest_queued t)) [
    | inl gone ↦ rw gone (d, h)
    | inr (q, there) ↦ rw there (
      update-Distinct (has_id q.job_id) (claimed_row now worker heartbeat until) (λ r. refl) t d,
      update-All (has_id q.job_id) (claimed_row now worker heartbeat until) (λ r. refl)
          (Consistent max_attempts) t
          (claimed-All now worker heartbeat until q t there h (oldest_queued-only q t d there)),
    )
  ]

  cancel-Sound :
      (now : ℕ) (id : String) (read : JobStatus) (t : Table)
      → Sound t
      → Sound (cancel_job now id read t).0
  unfolding cancel_job
  cancel-Sound now id JobStatus.queued t h =
      elim (Bool-cases (any (λ r. has_id id r && is_queued r.status) t)) [
        | inr gone ↦ rw gone h
        | inl there ↦ rw there (
            select-Sound (λ r. has_id id r && is_queued r.status) _ (λ r. refl)
              (λ r here old. record {
                worker = ground arith;
                heartbeat = ground arith;
                lease = ground arith;
                completed = refl;
                failure = refl;
                attempts = old.attempts;
                again = λ e. cc;
              })
              t h)
      ]
  cancel-Sound now id JobStatus.running t h = elim (Bool-cases (any (runs id) t)) [
    | inr gone ↦ rw gone h
    | inl there ↦ rw there (
        select-Sound (runs id) (λ r. record r { cancel_requested = true }) (λ r. refl)
          (λ r here old. record {
            worker = old.worker;
            heartbeat = old.heartbeat;
            lease = old.lease;
            completed = old.completed;
            failure = old.failure;
            attempts = old.attempts;
            again = old.again;
          })
          t h)
  ]
  cancel-Sound now id JobStatus.succeeded t h = h
  cancel-Sound now id JobStatus.failed t h = h
  cancel-Sound now id JobStatus.canceled t h = h

  insert-Sound :
      (now : ℕ) (id : String) (kind : JobKind) (target_kind key request : String) (t : Table)
      → 0 < max_attempts
      → Sound t
      → Sound (insert_application_job now id kind target_kind key request t).0
  unfolding insert_application_job
  insert-Sound now id kind target_kind key request t some_attempt (d, h) =
      elim (Bool-cases (any (has_id id) t)) [
        | inl taken ↦ rw taken (d, h)
        | inr new ↦ rw new (
          append-Distinct (queued_row now id kind target_kind key request) t new d,
          All-append (Consistent max_attempts) t
              (queued_row now id kind target_kind key request ∷ []) h
              (queued-Consistent max_attempts now id kind target_kind key request some_attempt, tt),
        )
      ]

  perform-Sound :
      (c : Call) (t : Table) → 0 < max_attempts → Sound t → Sound (perform max_attempts c t)
  unfolding perform renew_scan_job_lease complete_application_job_success
      complete_application_job_canceled complete_scan_job_failure
  perform-Sound (Call.insert now id kind target_kind key request) t some_attempt h =
      insert-Sound now id kind target_kind key request t some_attempt h
  perform-Sound (Call.claim now worker heartbeat until) t some_attempt h =
      claim-Sound now worker heartbeat until t h
  perform-Sound (Call.renew id worker heartbeat until) t some_attempt h =
      select-Sound (renews id worker) _ (λ r. refl)
        (λ r here old. record {
          worker = old.worker;
          heartbeat = ground arith;
          lease = ground arith;
          completed = old.completed;
          failure = old.failure;
          attempts = old.attempts;
          again = old.again;
        })
        t h
  perform-Sound (Call.recover now) t some_attempt h =
      subst Sound (sym (recover_stale_scan_jobs-settle now max_attempts t h.0)) (
        select-Sound (is_stale now) (settle now max_attempts) (settle-job_id now max_attempts)
          (settle-Consistent max_attempts now) t h)
  perform-Sound (Call.succeed now id run result_ref) t some_attempt h =
      finish-Sound id _ (λ r. refl) (succeeded-Consistent max_attempts now run result_ref)
        "application job not running or missing when completing success" t h
  perform-Sound (Call.stop now id) t some_attempt h =
      finish-Sound id _ (λ r. refl) (stopped-Consistent max_attempts now)
        "application job not running or missing when completing cancel" t h
  perform-Sound (Call.fail now id code message) t some_attempt h =
      finish-Sound id _ (λ r. refl) (failed-Consistent max_attempts now code message)
        "scan job not running or missing when completing failure" t h
  perform-Sound (Call.cancel now id read) t some_attempt h = cancel-Sound now id read t h

  -- From a table whose rows are consistent, such as the empty one, every history of statements leads to
  -- such a table, if a job may be tried at all: no id stands twice, exactly the running jobs have a
  -- worker and a lease, exactly those that are over have an end, exactly those that failed or were
  -- canceled have a failure code, and no job is claimed more often than the recovery policy allows.
  pub perform_all-Sound :
      (calls : List Call) (t : Table)
      → 0 < max_attempts
      → Sound t
      → Sound (perform_all max_attempts calls t)
  unfolding perform_all
  perform_all-Sound [] t some_attempt h = h
  perform_all-Sound (c ∷ calls) t some_attempt h =
      perform_all-Sound calls (perform max_attempts c t) some_attempt
        (perform-Sound c t some_attempt h)
