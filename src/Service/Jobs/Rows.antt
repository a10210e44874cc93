-- ===== src/Service/Jobs/Rows.antt =====
-- What a statement does to the rows of `application_jobs` (crates/paraclete-store/src/sqlite_store.rs).
use mathlib.Core.Option
use parqonaut.Prelude.{
  ◌≢◌, subst, ℕ, ◌≡◌, refl, ap, sym, ◌∙◌, true, inl, inr, Bool, Bool-cases, some, String, List, [],
  ◌∷◌, if◌then◌else◌, find, any, All, str_eq, eq_iff, arith,
}
use parqonaut.Service.Jobs.{ScanJobRow, Table, has_id, update_where}
use parqonaut.Service.Jobs.Calls.{Call}
use parqonaut.Service.Jobs.Spec.{Moves, view, job_of}

pub All-of {ℓ κ} :
    {A : Type ℓ} (Holds : A → Type κ) (xs : List A) → ((x : A) → Holds x) → All Holds xs
All-of Holds [] h = tt
All-of Holds (x ∷ xs) h = (h x, All-of Holds xs h)

pub All-weaken {ℓ κ} :
    {A : Type ℓ} (P Q : A → Type κ) (xs : List A) → ((x : A) → P x → Q x) → All P xs → All Q xs
All-weaken P Q [] k h = tt
All-weaken P Q (x ∷ xs) k (h, rest) = (k x h, All-weaken P Q xs k rest)

pub All-both {ℓ κ} :
    {A : Type ℓ} (P Q : A → Type κ) (xs : List A) → All P xs → All Q xs → All (λ x. P x × Q x) xs
All-both P Q [] h k = tt
All-both P Q (x ∷ xs) (h, hs) (k, ks) = ((h, k), All-both P Q xs hs ks)

-- The row of a job, if the table has one.
pub row_of_find :
    (id : String) (r : ScanJobRow) (t : Table) → find (has_id id) t ≡ some r → r.job_id ≡ id
row_of_find id r [] h = cc
row_of_find id r (s ∷ t) h = elim (Bool-cases (str_eq s.job_id id)) [
  | inl here ↦
      let same : s ≡ r = ground arith in ap (λ x. x.job_id) (sym same) ∙ (eq_iff s.job_id id).0 here
  | inr other ↦ row_of_find id r t (ground arith)
]

-- What holds of all rows holds of the row that is found.
pub All-find {κ} :
    (Holds : ScanJobRow → Type κ) (test : ScanJobRow → Bool) (r : ScanJobRow) (t : Table)
    → All Holds t
    → find test t ≡ some r
    → Holds r
All-find Holds test r [] h e = absurd (ground arith)
All-find Holds test r (s ∷ t) (here, rest) e = elim (Bool-cases (test s)) [
  | inl yes_here ↦ let same : s ≡ r = ground arith in subst Holds same here
  | inr other ↦ All-find Holds test r t rest (ground arith)
]

module _ (test : ScanJobRow → Bool) (change : ScanJobRow → ScanJobRow)
    (keeps : (r : ScanJobRow) → (change r).job_id ≡ r.job_id) where
  abbrev pub after : ScanJobRow → ScanJobRow
  after r = if test r then change r else r

  pub after-job_id : (r : ScanJobRow) → (after r).job_id ≡ r.job_id
  after-job_id r = elim (Bool-cases (test r)) [
    | inl selected ↦ rw selected (keeps r)
    | inr kept ↦ rw kept
  ]

  pub find-update :
      (id : String) (t : Table)
      → find (has_id id) (update_where test change t) ≡ Option.map after (find (has_id id) t)
  find-update id [] = refl
  find-update id (r ∷ t) = elim (Bool-cases (str_eq r.job_id id)) [
    | inl here ↦ rw (after-job_id r, here) refl
    | inr other ↦ rw (after-job_id r, other) (find-update id t)
  ]

  pub any-update :
      (id : String) (t : Table) → any (has_id id) (update_where test change t) ≡ any (has_id id) t
  any-update id [] = refl
  any-update id (r ∷ t) = rw (after-job_id r, any-update id t) refl

  pub update-All {κ} :
      (Holds : ScanJobRow → Type κ) (t : Table)
      → All (λ r. Holds (after r)) t
      → All Holds (update_where test change t)
  update-All Holds [] h = tt
  update-All Holds (r ∷ t) (here, rest) = (here, update-All Holds t rest)

  -- A statement that moves the rows of a job by a step at most does so with the job.
  pub update-Moves :
      (max_attempts : ℕ) (call : Call) (id : String) (t : Table)
      → All (λ r. r.job_id ≡ id → Moves max_attempts call id (view r) (view (after r))) t
      → Moves max_attempts call id
          (job_of (find (has_id id) t))
          (job_of (find (has_id id) (update_where test change t)))
  unfolding job_of
  update-Moves max_attempts call id [] h = inl refl
  update-Moves max_attempts call id (r ∷ t) (here, rest) = elim (Bool-cases (str_eq r.job_id id)) [
    | inl same ↦ rw (after-job_id r, same) (here ((eq_iff r.job_id id).0 same))
    | inr other ↦ rw (after-job_id r, other) (update-Moves max_attempts call id t rest)
  ]

  -- The same where each row of the job that is selected moves.
  pub select-Moves :
      (max_attempts : ℕ) (call : Call) (id : String)
      → ((r : ScanJobRow)
          → test r ≡ true
          → r.job_id ≡ id
          → Moves max_attempts call id (view r) (view (change r)))
      → (t : Table)
      → Moves max_attempts call id
          (job_of (find (has_id id) t))
          (job_of (find (has_id id) (update_where test change t)))
  select-Moves max_attempts call id step t = update-Moves max_attempts call id t (
      All-of (λ r. r.job_id ≡ id → Moves max_attempts call id (view r) (view (after r))) t
        (λ r named. elim (Bool-cases (test r)) [
          | inr other ↦ rw other (inl refl)
          | inl here ↦ rw here (step r here named)
        ]))

  -- A statement on one job leaves the others.
  pub find-update_others :
      (id k : String)
      → ((r : ScanJobRow) → test r ≡ true → r.job_id ≡ id)
      → k ≢ id
      → (t : Table) → find (has_id k) (update_where test change t) ≡ find (has_id k) t
  find-update_others id k only differ [] = refl
  find-update_others id k only differ (r ∷ t) = elim (Bool-cases (str_eq r.job_id k)) [
    | inr other ↦ rw (after-job_id r, other) (find-update_others id k only differ t)
    | inl here ↦ elim (Bool-cases (test r)) [
      | inl selected ↦ absurd (differ (sym ((eq_iff r.job_id k).0 here) ∙ only r selected))
      | inr kept ↦ rw (kept, here) refl
    ]
  ]
