-- ===== src/Service/Jobs/Settled.antt =====
-- The loop of `recover_stale_scan_jobs` (crates/paraclete-store/src/sqlite_store.rs) settles each stale row
-- once, and no other.
use parqonaut.Prelude.{
  ℕ, ◌≡◌, ◌≢◌, refl, sym, ap, ◌∙◌, String, inl, inr, true, Bool, Bool-cases, [], ◌∷◌, All, arith,
  leb, if◌then◌else◌, str_eq, eq_iff, List,
}
use parqonaut.Service.Jobs.{
  StaleRecoveryStats, ScanJobRow, Table, runs, update_where, select, is_running,
}
use parqonaut.Service.Jobs.Recovery.{
  is_stale, exhausted_row, requeued_row, recover_row, recover_rows, recover_stale_scan_jobs,
}
use parqonaut.Service.Jobs.Oldest.{Distinct}

-- What becomes of a stale row.
abbrev pub settle : ℕ → ℕ → ScanJobRow → ScanJobRow
settle now max_attempts r =
    if leb max_attempts r.attempt_count then exhausted_row now r else requeued_row r

update-absent :
    (id : String) (change : ScanJobRow → ScanJobRow) (t : Table)
    → All (λ s. s.job_id ≢ id) t
    → update_where (runs id) change t ≡ t
update-absent id change [] h = refl
update-absent id change (r ∷ t) (differ, rest) = elim (Bool-cases (str_eq r.job_id id)) [
  | inl same ↦ absurd (differ ((eq_iff r.job_id id).0 same))
  | inr other ↦ rw (other, update-absent id change t rest) refl
]

select-All {κ} :
    (Holds : ScanJobRow → Type κ) (test : ScanJobRow → Bool) (t : Table)
    → All Holds t
    → All Holds (select test t)
select-All Holds test [] h = tt
select-All Holds test (r ∷ t) (here, rest) = elim (Bool-cases (test r)) [
  | inl selected ↦ rw selected (here, select-All Holds test t rest)
  | inr dropped ↦ rw dropped (select-All Holds test t rest)
]

module _ (now max_attempts : ℕ) where
  recover_row-cons :
      (r s : ScanJobRow) (t : Table) (stats : StaleRecoveryStats)
      → r.job_id ≢ s.job_id
      → recover_row now max_attempts r (s ∷ t, stats) ≡ (
        s ∷ (recover_row now max_attempts r (t, stats)).0,
        (recover_row now max_attempts r (t, stats)).1,
      )
  unfolding recover_row
  recover_row-cons r s t stats differ = elim (Bool-cases (str_eq s.job_id r.job_id)) [
    | inl same ↦ absurd (differ (sym ((eq_iff s.job_id r.job_id).0 same)))
    | inr other ↦ elim (Bool-cases (leb max_attempts r.attempt_count)) [
      | inl out ↦ rw (out, other) refl
      | inr again ↦ rw (again, other) refl
    ]
  ]

  -- A row that no found row names stays at the head of the table.
  recover_rows-cons :
      (found : List ScanJobRow) (s : ScanJobRow) (t : Table) (stats : StaleRecoveryStats)
      → All (λ r. r.job_id ≢ s.job_id) found
      → (recover_rows now max_attempts found (s ∷ t, stats)).0
        ≡ s ∷ (recover_rows now max_attempts found (t, stats)).0
  unfolding recover_rows
  recover_rows-cons [] s t stats h = refl
  recover_rows-cons (r ∷ found) s t stats (differ, rest) =
      ap (λ w. (recover_rows now max_attempts found w).0) (recover_row-cons r s t stats differ)
      ∙ recover_rows-cons found s (recover_row now max_attempts r (t, stats)).0
          (recover_row now max_attempts r (t, stats)).1 rest

  recover_row-head :
      (r : ScanJobRow) (t : Table) (stats : StaleRecoveryStats)
      → is_running r.status ≡ true
      → All (λ s. s.job_id ≢ r.job_id) t
      → (recover_row now max_attempts r (r ∷ t, stats)).0 ≡ settle now max_attempts r ∷ t
  unfolding recover_row
  recover_row-head r t stats running apart =
      let here : str_eq r.job_id r.job_id ≡ true = (eq_iff r.job_id r.job_id).1 refl in
      elim (Bool-cases (leb max_attempts r.attempt_count)) [
        | inl out ↦ rw (out, here, running, update-absent r.job_id (exhausted_row now) t apart) refl
        | inr again ↦ rw (again, here, running, update-absent r.job_id requeued_row t apart) refl
      ]

  pub settle-job_id : (r : ScanJobRow) → (settle now max_attempts r).job_id ≡ r.job_id
  settle-job_id r = ground arith

  select-others :
      (r : ScanJobRow) (t : Table)
      → All (λ s. s.job_id ≢ r.job_id) t
      → All (λ s. s.job_id ≢ r.job_id) (select (is_stale now) t)
  select-others r t = select-All (λ s. s.job_id ≢ r.job_id) (is_stale now) t

  recover_rows-settle :
      (t : Table) (stats : StaleRecoveryStats)
      → Distinct t
      → (recover_rows now max_attempts (select (is_stale now) t) (t, stats)).0
        ≡ update_where (is_stale now) (settle now max_attempts) t
  unfolding recover_rows
  recover_rows-settle [] stats d = refl
  recover_rows-settle (r ∷ t) stats (apart, d) = elim (Bool-cases (is_stale now r)) [
    | inr fresh ↦ rw fresh (
        recover_rows-cons (select (is_stale now) t) r t stats (select-others r t apart)
        ∙ ap (λ u. r ∷ u) (recover_rows-settle t stats d))
    | inl stale ↦
        let running : is_running r.status ≡ true = ground arith in
        let w = recover_row now max_attempts r (r ∷ t, stats) in
        rw stale (
          ap (λ u. (recover_rows now max_attempts (select (is_stale now) t) (u, w.1)).0)
            (recover_row-head r t stats running apart)
          ∙ recover_rows-cons (select (is_stale now) t) (settle now max_attempts r) t w.1
              (rw (settle-job_id r) (select-others r t apart))
          ∙ ap (λ u. settle now max_attempts r ∷ u) (recover_rows-settle t w.1 d))
  ]

  pub recover_stale_scan_jobs-settle :
      (t : Table)
      → Distinct t
      → (recover_stale_scan_jobs now max_attempts t).0
        ≡ update_where (is_stale now) (settle now max_attempts) t
  unfolding recover_stale_scan_jobs
  recover_stale_scan_jobs-settle t d =
      recover_rows-settle t (record { requeued = 0; failed_retries_exhausted = 0 }) d
