-- ===== src/Orchestrator/Scheduler.antt =====
-- crates/parqonaut-orchestrator/src/scheduler/mod.rs: the bounded scheduler of a batch run. The loop,
-- its tasks and the cancel flag move in the steps of `step`; tokio chooses their order. A task is
-- taken, gets a permit of the semaphore and is spawned, waits for its turn, runs to a result or to a
-- panic, which gives the permit back, and is joined. While the loop waits for a permit it joins nothing.
pub mod Bounds
use parqonaut.Prelude.{
  ℕ, zero, suc, ◌+◌, ◌-◌, max, ◌≡◌, Bool, true, false, ◌&&◌, not, Option, none, some, if◌then◌else◌,
  ltb, ◌==◌,
}

pub record ConcurrencyMetrics : Type 0 where
  pub active : ℕ
  pub peak : ℕ

unfoldable pub record_start : ConcurrencyMetrics → ConcurrencyMetrics
record_start m = record { active = m.active + 1; peak = max m.peak (m.active + 1) }

-- `fetch_sub`; the counter is not 0 here, since the task that ends has counted itself.
unfoldable pub record_end : ConcurrencyMetrics → ConcurrencyMetrics
record_end m = record { active = m.active - 1; peak = m.peak }

-- `BatchScheduler::new`.
unfoldable pub new_scheduler : ℕ → ℕ
new_scheduler max_jobs = max max_jobs 1

pub record Run : Type 0 where
  pub pending : ℕ
  pub taken : ℕ  -- from the iterator, and without a permit
  pub permits : ℕ  -- free permits of the semaphore
  pub waiting : ℕ  -- spawned, and not started
  pub running : ℕ
  pub finished : ℕ  -- ended, and not joined
  pub crashed : ℕ  -- panicked, and not joined
  pub results : ℕ
  pub lost : ℕ  -- joined after a panic
  pub metrics : ConcurrencyMetrics
  pub cancelled : Bool

-- `join_set.len()`.
unfoldable pub join_set_len : Run → ℕ
join_set_len r = r.waiting + r.running + r.finished + r.crashed

unfoldable pub start_run : ℕ → ℕ → Run
start_run max_jobs tasks = record {
  pending = tasks;
  taken = 0;
  permits = max_jobs;
  waiting = 0;
  running = 0;
  finished = 0;
  crashed = 0;
  results = 0;
  lost = 0;
  metrics = record { active = 0; peak = 0 };
  cancelled = false;
}

pub data Event : Type 0 where
  take spawn start finish panic join join_panic cancel : Event

-- A step, where it can be taken.
unfoldable pub step : ℕ → Event → Run → Option Run
unfolding join_set_len record_start record_end
step max_jobs Event.take r =
    if not r.cancelled && ltb (join_set_len r) max_jobs && ltb 0 r.pending && r.taken == 0
    then some (record r { pending = r.pending - 1; taken = r.taken + 1 })
    else none
step max_jobs Event.spawn r =
    if ltb 0 r.taken && ltb 0 r.permits
    then some (record r { taken = r.taken - 1; permits = r.permits - 1; waiting = r.waiting + 1 })
    else none
step max_jobs Event.start r =
    if ltb 0 r.waiting
    then some (record r {
      waiting = r.waiting - 1;
      running = r.running + 1;
      metrics = record_start r.metrics;
    })
    else none
step max_jobs Event.finish r =
    if ltb 0 r.running
    then some (record r {
      running = r.running - 1;
      permits = r.permits + 1;
      finished = r.finished + 1;
      metrics = record_end r.metrics;
    })
    else none
step max_jobs Event.panic r =
    if ltb 0 r.running
    then some
        (record r { running = r.running - 1; permits = r.permits + 1; crashed = r.crashed + 1 })
    else none
step max_jobs Event.join r =
    if ltb 0 r.finished && r.taken == 0
    then some (record r { finished = r.finished - 1; results = r.results + 1 })
    else none
step max_jobs Event.join_panic r =
    if ltb 0 r.crashed && r.taken == 0
    then some (record r { crashed = r.crashed - 1; lost = r.lost + 1 })
    else none
step max_jobs Event.cancel r = some (record r { cancelled = true })

-- The loops are left: nothing is in the join set or waits for a permit, and nothing more is to be
-- spawned.
unfoldable pub is_over : Run → Bool
unfolding join_set_len
is_over r =
    (join_set_len r == 0) && (r.taken == 0) && (if r.cancelled then true else r.pending == 0)
