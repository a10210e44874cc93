-- ===== src/Service/Jobs/Oldest.antt =====
-- The job that `claim_next_queued_scan_job` of crates/paraclete-store/src/sqlite_store.rs takes.
use parqonaut.Prelude.{
  ◌≤◌, ◌≡◌, ◌≢◌, sym, ap, ◌∙◌, subst, ◌⊎◌, inl, inr, true, false, Bool-cases, Option-cases, none,
  some, [], ◌∷◌, All, arith, leb,
}
use parqonaut.Service.Jobs.{ScanJobRow, Table, is_queued, oldest_queued}
use parqonaut.Service.Jobs.Rows.{All-weaken}

-- The primary key: no two rows have the same id.
abbrev pub Distinct : Table → Type 0
Distinct [] = Unit
Distinct (r ∷ t) = All (λ s. s.job_id ≢ r.job_id) t × Distinct t

-- The oldest of the later rows is not before this one.
abbrev pub First : ScanJobRow → Table → Type 0
First r t =
    (oldest_queued t ≡ none)
    ⊎ ((s : ScanJobRow) × (oldest_queued t ≡ some s) × (r.submitted_at ≤ s.submitted_at))

pub oldest_queued-cases :
    (r q : ScanJobRow) (t : Table)
    → oldest_queued (r ∷ t) ≡ some q
    → ((r ≡ q) × (is_queued r.status ≡ true) × First r t)
      ⊎ ((oldest_queued t ≡ some q) × (is_queued r.status ≡ true → q.submitted_at ≤ r.submitted_at))
unfolding oldest_queued
oldest_queued-cases r q t h = elim (Bool-cases (is_queued r.status)) [
  | inr other ↦ inr ((rw other at h), λ e. cc)
  | inl queued ↦ elim (Option-cases (oldest_queued t)) [
    | inl gone ↦ inl (ground arith, queued, inl gone)
    | inr (s, there) ↦ elim (Bool-cases (leb r.submitted_at s.submitted_at)) [
      | inl before ↦ inl (ground arith, queued, inr (s, there, ground arith))
      | inr later ↦ inr (ground arith, λ e. ground arith)
    ]
  ]
]

pub oldest_queued-queued :
    (q : ScanJobRow) (t : Table) → oldest_queued t ≡ some q → is_queued q.status ≡ true
unfolding oldest_queued
oldest_queued-queued q [] h = cc
oldest_queued-queued q (r ∷ t) h = elim (oldest_queued-cases r q t h) [
  | inl (same, queued, first) ↦ subst (λ x. is_queued x.status ≡ true) same queued
  | inr (there, later) ↦ oldest_queued-queued q t there
]

pub oldest_queued-All {κ} :
    (Holds : ScanJobRow → Type κ) (q : ScanJobRow) (t : Table)
    → All Holds t
    → oldest_queued t ≡ some q
    → Holds q
unfolding oldest_queued
oldest_queued-All Holds q [] h e = absurd (ground arith)
oldest_queued-All Holds q (r ∷ t) (here, rest) e = elim (oldest_queued-cases r q t e) [
  | inl (same, queued, first) ↦ subst Holds same here
  | inr (there, later) ↦ oldest_queued-All Holds q t rest there
]

pub oldest_queued-only :
    (q : ScanJobRow) (t : Table)
    → Distinct t
    → oldest_queued t ≡ some q
    → All (λ r. r.job_id ≡ q.job_id → r ≡ q) t
unfolding oldest_queued
oldest_queued-only q [] d h = tt
oldest_queued-only q (r ∷ t) (apart, d) h = elim (oldest_queued-cases r q t h) [
  | inl (same, queued, first) ↦ (
    λ _. same,
    All-weaken (λ s. s.job_id ≢ r.job_id) (λ s. s.job_id ≡ q.job_id → s ≡ q) t
        (λ s differ e. absurd (differ (e ∙ ap (λ x. x.job_id) (sym same)))) apart,
  )
  | inr (there, later) ↦ (
    λ e. absurd (oldest_queued-All (λ s. s.job_id ≢ r.job_id) q t apart there (sym e)),
    oldest_queued-only q t d there,
  )
]

pub oldest_queued-none :
    (t : Table) → oldest_queued t ≡ none → All (λ r. is_queued r.status ≡ false) t
unfolding oldest_queued
oldest_queued-none [] h = tt
oldest_queued-none (r ∷ t) h = elim (Bool-cases (is_queued r.status)) [
  | inl queued ↦ elim (Option-cases (oldest_queued t)) [
    | inl gone ↦ absurd (ground arith)
    | inr (s, there) ↦ absurd (ground arith)
  ]
  | inr other ↦ (other, oldest_queued-none t (rw other at h))
]

pub oldest_queued-first :
    (q : ScanJobRow) (t : Table)
    → oldest_queued t ≡ some q
    → All (λ r. is_queued r.status ≡ true → q.submitted_at ≤ r.submitted_at) t
unfolding oldest_queued
oldest_queued-first q [] h = tt
oldest_queued-first q (r ∷ t) h = elim (oldest_queued-cases r q t h) [
  | inl (same, queued, inl gone) ↦ (
    λ _. ground arith,
    All-weaken (λ s. is_queued s.status ≡ false)
        (λ s. is_queued s.status ≡ true → q.submitted_at ≤ s.submitted_at) t
        (λ s h k. absurd (ground arith)) (oldest_queued-none t gone),
  )
  | inl (same, queued, inr (s, there, before)) ↦ (
    λ _. ground arith,
    All-weaken (λ x. is_queued x.status ≡ true → s.submitted_at ≤ x.submitted_at)
        (λ x. is_queued x.status ≡ true → q.submitted_at ≤ x.submitted_at) t
        (λ x h k. let next : s.submitted_at ≤ x.submitted_at = h k in ground arith)
        (oldest_queued-first s t there),
  )
  | inr (there, later) ↦ (later, oldest_queued-first q t there)
]
