-- ===== src/Service/Jobs/Claims.antt =====
-- `claim_next_queued_scan_job` of crates/paraclete-store/src/sqlite_store.rs: what a worker gets.
use parqonaut.Prelude.{
  ℕ, ◌≤◌, ◌≡◌, ◌≢◌, refl, sym, ap, ◌∙◌, inl, inr, true, false, Bool-cases, Option-cases, Option,
  none, some, String, [], ◌∷◌, All, str_eq, eq_iff, find,
}
use parqonaut.Service.Jobs.{
  ScanJobRow, Table, is_queued, has_id, update_where, claim_row, claimed_row,
  claim_next_queued_scan_job, oldest_queued,
}
use parqonaut.Service.Jobs.Ends.{get_scan_job}
use parqonaut.Service.Jobs.Rows.{find-update, find-update_others, All-find}
use parqonaut.Service.Jobs.Oldest.{
  Distinct, oldest_queued-queued, oldest_queued-first, oldest_queued-none, oldest_queued-cases,
}

absent-head :
    (r q : ScanJobRow) (t : Table)
    → All (λ s. s.job_id ≢ r.job_id) t
    → find (has_id q.job_id) t ≡ some q
    → str_eq r.job_id q.job_id ≡ false
absent-head r q t apart h = elim (Bool-cases (str_eq r.job_id q.job_id)) [
  | inr other ↦ other
  | inl same ↦ absurd (
      All-find (λ s. s.job_id ≢ r.job_id) (has_id q.job_id) q t apart h
        (sym ((eq_iff r.job_id q.job_id).0 same)))
]

-- The oldest waiting job is the one that its id finds.
find-oldest :
    (q : ScanJobRow) (t : Table)
    → Distinct t
    → oldest_queued t ≡ some q
    → find (has_id q.job_id) t ≡ some q
unfolding oldest_queued
find-oldest q [] d h = cc
find-oldest q (r ∷ t) (apart, d) h = elim (oldest_queued-cases r q t h) [
  | inl (same, queued, first) ↦
      let here : str_eq r.job_id q.job_id ≡ true =
        (eq_iff r.job_id q.job_id).1 (ap (λ x. x.job_id) same) in
      rw here (ap some same)
  | inr (there, later) ↦
      let other : str_eq r.job_id q.job_id ≡ false =
        absent-head r q t apart (find-oldest q t d there) in
      rw other (find-oldest q t d there)
]

module _ (now : ℕ) (worker : String) (heartbeat until : ℕ) where
  -- The claimed job was waiting, no waiting job was submitted before it, its row says that the worker has
  -- it now, and the other jobs are as they were.
  pub record Claimed (t u : Table) (r : ScanJobRow) : Type 0 where
    pub before : ScanJobRow
    pub was : get_scan_job r.job_id t ≡ some before
    pub waiting : is_queued before.status ≡ true
    pub oldest : All (λ s. is_queued s.status ≡ true → before.submitted_at ≤ s.submitted_at) t
    pub row : r ≡ claimed_row now worker heartbeat until before
    pub is : get_scan_job r.job_id u ≡ some r
    pub others : (id : String) → id ≢ r.job_id → get_scan_job id u ≡ get_scan_job id t

  claimed_row_lem :
      (t : Table) (q : ScanJobRow)
      → Distinct t
      → oldest_queued t ≡ some q
      → Claimed t
          (update_where (has_id q.job_id) (claimed_row now worker heartbeat until) t)
          (claimed_row now worker heartbeat until q)
  unfolding get_scan_job
  claimed_row_lem t q d there =
      let found : find (has_id q.job_id) t ≡ some q = find-oldest q t d there in
      let self : str_eq q.job_id q.job_id ≡ true = (eq_iff q.job_id q.job_id).1 refl in
      record {
        before = q;
        was = found;
        waiting = oldest_queued-queued q t there;
        oldest = oldest_queued-first q t there;
        row = refl;
        is =
            find-update (has_id q.job_id) (claimed_row now worker heartbeat until) (λ r. refl)
              q.job_id t
            ∙ rw (found, self) refl;
        others = λ id differ.
            find-update_others (has_id q.job_id) (claimed_row now worker heartbeat until)
              (λ r. refl) q.job_id id (λ r here. (eq_iff r.job_id q.job_id).0 here) differ t;
      }

  abbrev pub Claims : Table → Table × Option ScanJobRow → Type 0
  Claims t (u, none) = All (λ r. is_queued r.status ≡ false) t × (u ≡ t)
  Claims t (u, some r) = Claimed t u r

  -- A worker that claims gets the job that has waited longest, by its time of submission, if any job
  -- waits; that job is then its own, with one more attempt, so that no other claim gets it while it runs,
  -- and no other job is touched. If it gets none, no job waits.
  pub claim_next_queued_scan_job-Claims :
      (t : Table) → Distinct t → Claims t (claim_next_queued_scan_job now worker heartbeat until t)
  unfolding claim_next_queued_scan_job claim_row
  claim_next_queued_scan_job-Claims t d = elim (Option-cases (oldest_queued t)) [
    | inl gone ↦ rw gone (oldest_queued-none t gone, refl)
    | inr (q, there) ↦ rw there (claimed_row_lem t q d there)
  ]
