-- ===== src/Orchestrator/Scheduler/Bounds.antt =====
-- The runs of crates/parqonaut-orchestrator/src/scheduler/mod.rs stay within their bounds, lose no task
-- and come to an end.
use parqonaut.Prelude.{
  ℕ, ◌+◌, ◌*◌, ◌≤◌, ◌≡◌, refl, Bool, true, false, none, some, arith, if◌then◌else◌, ltb, Bool-cases,
  inl, inr, ◌⊎◌, subst,
}
use parqonaut.Orchestrator.Scheduler.{
  Run, Event, record_start, record_end, new_scheduler, join_set_len, start_run, step, is_over,
}

-- The states of a run of so many tasks.
pub data Reaches (max_jobs tasks : ℕ) : Run → Type 0 where
  here : Reaches max_jobs tasks (start_run max_jobs tasks)
  next :
      {r s : Run} (e : Event)
      → Reaches max_jobs tasks r
      → step max_jobs e r ≡ some s
      → Reaches max_jobs tasks s

-- Tasks in the join set are bounded, every task is in one place, and the metrics count the tasks that
-- run and those that have panicked.
pub record Bounded (max_jobs tasks : ℕ) (r : Run) : Type 0 where
  pub jobs : join_set_len r + r.taken ≤ max_jobs
  pub permits : r.permits + r.waiting + r.running ≡ max_jobs
  pub all_tasks : r.pending + r.taken + join_set_len r + r.results + r.lost ≡ tasks
  pub active : r.metrics.active ≡ r.running + r.crashed + r.lost
  pub peak : r.metrics.peak ≤ max_jobs + r.crashed + r.lost

start_run-Bounded : (max_jobs tasks : ℕ) → Bounded max_jobs tasks (start_run max_jobs tasks)
unfolding start_run join_set_len
start_run-Bounded max_jobs tasks = record {
  jobs = ground arith;
  permits = ground arith;
  all_tasks = ground arith;
  active = ground arith;
  peak = ground arith;
}

-- A step that is taken passed its guard.
taken : (b : Bool) (x s : Run) → (if b then some x else none) ≡ some s → (b ≡ true) × (x ≡ s)
taken true x s h = (refl, cc)
taken false x s h = absurd (ground arith)

same_run : (r s : Run) → some r ≡ some s → r ≡ s
same_run r s h = cc

step-Bounded :
    (max_jobs tasks : ℕ) (e : Event) (r s : Run)
    → Bounded max_jobs tasks r
    → step max_jobs e r ≡ some s
    → Bounded max_jobs tasks s
unfolding step join_set_len record_start record_end
step-Bounded m n Event.take r s b h =
    let j = b.jobs in
    let q = b.permits in
    let a = b.all_tasks in
    let c = b.active in
    let p = b.peak in
    let (g, same) = taken _ _ s h in
    subst (Bounded m n) same (record {
      jobs = ground arith;
      permits = ground arith;
      all_tasks = ground arith;
      active = ground arith;
      peak = ground arith;
    })
step-Bounded m n Event.spawn r s b h =
    let j = b.jobs in
    let q = b.permits in
    let a = b.all_tasks in
    let c = b.active in
    let p = b.peak in
    let (g, same) = taken _ _ s h in
    subst (Bounded m n) same (record {
      jobs = ground arith;
      permits = ground arith;
      all_tasks = ground arith;
      active = ground arith;
      peak = ground arith;
    })
step-Bounded m n Event.start r s b h =
    let j = b.jobs in
    let q = b.permits in
    let a = b.all_tasks in
    let c = b.active in
    let p = b.peak in
    let (g, same) = taken _ _ s h in
    subst (Bounded m n) same (record {
      jobs = ground arith;
      permits = ground arith;
      all_tasks = ground arith;
      active = ground arith;
      peak = ground arith;
    })
step-Bounded m n Event.finish r s b h =
    let j = b.jobs in
    let q = b.permits in
    let a = b.all_tasks in
    let c = b.active in
    let p = b.peak in
    let (g, same) = taken _ _ s h in
    subst (Bounded m n) same (record {
      jobs = ground arith;
      permits = ground arith;
      all_tasks = ground arith;
      active = ground arith;
      peak = ground arith;
    })
step-Bounded m n Event.panic r s b h =
    let j = b.jobs in
    let q = b.permits in
    let a = b.all_tasks in
    let c = b.active in
    let p = b.peak in
    let (g, same) = taken _ _ s h in
    subst (Bounded m n) same (record {
      jobs = ground arith;
      permits = ground arith;
      all_tasks = ground arith;
      active = ground arith;
      peak = ground arith;
    })
step-Bounded m n Event.join r s b h =
    let j = b.jobs in
    let q = b.permits in
    let a = b.all_tasks in
    let c = b.active in
    let p = b.peak in
    let (g, same) = taken _ _ s h in
    subst (Bounded m n) same (record {
      jobs = ground arith;
      permits = ground arith;
      all_tasks = ground arith;
      active = ground arith;
      peak = ground arith;
    })
step-Bounded m n Event.join_panic r s b h =
    let j = b.jobs in
    let q = b.permits in
    let a = b.all_tasks in
    let c = b.active in
    let p = b.peak in
    let (g, same) = taken _ _ s h in
    subst (Bounded m n) same (record {
      jobs = ground arith;
      permits = ground arith;
      all_tasks = ground arith;
      active = ground arith;
      peak = ground arith;
    })
step-Bounded m n Event.cancel r s b h = subst (Bounded m n) (same_run _ s h) (record {
  jobs = b.jobs;
  permits = b.permits;
  all_tasks = b.all_tasks;
  active = b.active;
  peak = b.peak;
})

-- In every state of a run, at most `max_jobs` tasks are in the join set, with the one that waits for a
-- permit; the permits that are free and those of the spawned tasks that have not ended are `max_jobs`; each task is
-- pending, taken, in the join set, among the results or lost to a panic; and the peak that the metrics record exceeds
-- `max_jobs` at most by the number of tasks that have panicked.
pub Reaches-Bounded :
    (max_jobs tasks : ℕ) (r : Run) → Reaches max_jobs tasks r → Bounded max_jobs tasks r
Reaches-Bounded m n r Reaches.here = start_run-Bounded m n
Reaches-Bounded m n r (Reaches.next {r = q} e path h) =
    step-Bounded m n e q r (Reaches-Bounded m n q path) h

-- What is left to do.
abbrev pub load : Run → ℕ
load r = 5 * r.pending + 4 * r.taken + 3 * r.waiting + 2 * r.running + r.finished + r.crashed

-- A step of the scheduler or of a task counts, a cancellation does not.
abbrev pub own : Event → ℕ
own Event.cancel = 0
own _ = 1

-- The steps of a run, cancellations apart.
abbrev pub steps : {max_jobs tasks : ℕ} {r : Run} → Reaches max_jobs tasks r → ℕ
steps Reaches.here = 0
steps (Reaches.next e path h) = own e + steps path

step-load :
    (max_jobs : ℕ) (e : Event) (r s : Run) → step max_jobs e r ≡ some s → own e + load s ≤ load r
unfolding step record_start record_end
step-load m Event.take r s h =
    let (g, same) = taken _ _ s h in subst (λ x. 1 + load x ≤ load r) same (ground arith)
step-load m Event.spawn r s h =
    let (g, same) = taken _ _ s h in subst (λ x. 1 + load x ≤ load r) same (ground arith)
step-load m Event.start r s h =
    let (g, same) = taken _ _ s h in subst (λ x. 1 + load x ≤ load r) same (ground arith)
step-load m Event.finish r s h =
    let (g, same) = taken _ _ s h in subst (λ x. 1 + load x ≤ load r) same (ground arith)
step-load m Event.panic r s h =
    let (g, same) = taken _ _ s h in subst (λ x. 1 + load x ≤ load r) same (ground arith)
step-load m Event.join r s h =
    let (g, same) = taken _ _ s h in subst (λ x. 1 + load x ≤ load r) same (ground arith)
step-load m Event.join_panic r s h =
    let (g, same) = taken _ _ s h in subst (λ x. 1 + load x ≤ load r) same (ground arith)
step-load m Event.cancel r s h = subst (λ x. 0 + load x ≤ load r) (same_run _ s h) (omega arith)

steps-load :
    (max_jobs tasks : ℕ) (r : Run) (path : Reaches max_jobs tasks r)
    → steps path + load r ≤ 5 * tasks
unfolding start_run
steps-load m n r Reaches.here = omega arith
steps-load m n r (Reaches.next {r = q} e path h) =
    let before = steps-load m n q path in let here = step-load m e q r h in omega arith

-- A run whose tasks are all joined has lost none of them.
over_complete :
    (max_jobs tasks : ℕ) (r : Run)
    → Bounded max_jobs tasks r
    → is_over r ≡ true
    → (r.pending + r.results + r.lost ≡ tasks) × (r.cancelled ≡ false → r.results + r.lost ≡ tasks)
unfolding is_over join_set_len
over_complete m n r b h = let a = b.all_tasks in (ground arith, λ c. ground arith)

some_if : (b : Bool) (x : Run) → b ≡ true → (if b then some x else none) ≡ some x
some_if true x h = refl
some_if false x h = absurd (ground arith)

can_step :
    (max_jobs tasks : ℕ) (r : Run)
    → Bounded (new_scheduler max_jobs) tasks r
    → is_over r ≡ false
    → (e : Event) × (s : Run) × (step (new_scheduler max_jobs) e r ≡ some s) × (own e ≡ 1)
unfolding step is_over join_set_len new_scheduler record_start record_end
can_step m n r b h =
    let j = b.jobs in
    let q = b.permits in
    elim (Bool-cases (ltb 0 r.taken)) [
      | inl t ↦ (Event.spawn, _, some_if _ _ (ground arith), refl)
      | inr t ↦ elim (Bool-cases (ltb 0 r.waiting)) [
        | inl w ↦ (Event.start, _, some_if _ _ w, refl)
        | inr w ↦ elim (Bool-cases (ltb 0 r.running)) [
          | inl u ↦ (Event.finish, _, some_if _ _ u, refl)
          | inr u ↦ elim (Bool-cases (ltb 0 r.finished)) [
            | inl f ↦ (Event.join, _, some_if _ _ (ground arith), refl)
            | inr f ↦ elim (Bool-cases (ltb 0 r.crashed)) [
              | inl c ↦ (Event.join_panic, _, some_if _ _ (ground arith), refl)
              | inr c ↦ (Event.take, _, some_if _ _ (ground arith), refl)
            ]
          ]
        ]
      ]
    ]

-- In whatever order the loop and the tasks take their steps, a run has at most five of them for each
-- task, cancellations apart, so it does not go on for ever. And it is never stuck: in each of its states it is
-- over, with every task joined that was taken and, if it was not cancelled, every task taken; or a
-- step other than a cancellation can be taken, also while the loop waits for a permit. A task that runs counts
-- as one that can end.
pub Reaches-progress :
    (max_jobs tasks : ℕ) (r : Run) (path : Reaches (new_scheduler max_jobs) tasks r)
    → (steps path ≤ 5 * tasks)
      × (((is_over r ≡ true)
            × (r.pending + r.results + r.lost ≡ tasks)
            × (r.cancelled ≡ false → r.results + r.lost ≡ tasks))
          ⊎ ((e : Event) × (s : Run) × (step (new_scheduler max_jobs) e r ≡ some s) × (own e ≡ 1)))
Reaches-progress m n r path =
    let bounded = Reaches-Bounded _ n r path in
    let all_steps = steps-load _ n r path in
    (
      omega arith,
      elim (Bool-cases (is_over r)) [
        | inl over ↦ let (left, whole) = over_complete _ n r bounded over in inl (over, left, whole)
        | inr open_run ↦ inr (can_step m n r bounded open_run)
      ],
    )
