-- ===== src/Orchestrator/State.antt =====
-- crates/parqonaut-orchestrator/src/state.rs and the classes of failure of error.rs: the states of a
-- dataset in a batch run.
use parqonaut.Prelude.{
  ℕ, ◌≡◌, refl, ◌⊎◌, inl, inr, Bool, true, false, Result, ok, err, arith, if◌then◌else◌, ◌==◌,
}

pub data DatasetState : Type 0 where
  pending planning_validated running repair_complete verifying succeeded : DatasetState
  blocked failed_recoverable failed_permanent cancelled stale_source : DatasetState
  verification_failed : DatasetState

pub data FailureClass : Type 0 where
  recoverable permanent blocked stale_source verification_failed cancelled : FailureClass

pub data StateTransitionError : Type 0 where
  illegal : DatasetState → DatasetState → StateTransitionError

-- The derived `PartialEq`: states are equal when their discriminants are.
unfoldable pub state_tag : DatasetState → ℕ
state_tag DatasetState.pending = 0
state_tag DatasetState.planning_validated = 1
state_tag DatasetState.running = 2
state_tag DatasetState.repair_complete = 3
state_tag DatasetState.verifying = 4
state_tag DatasetState.succeeded = 5
state_tag DatasetState.blocked = 6
state_tag DatasetState.failed_recoverable = 7
state_tag DatasetState.failed_permanent = 8
state_tag DatasetState.cancelled = 9
state_tag DatasetState.stale_source = 10
state_tag DatasetState.verification_failed = 11

unfoldable pub dataset_state_eq : DatasetState → DatasetState → Bool
unfolding state_tag
dataset_state_eq a b = state_tag a == state_tag b

unfoldable pub is_terminal : DatasetState → Bool
is_terminal DatasetState.succeeded = true
is_terminal DatasetState.blocked = true
is_terminal DatasetState.failed_permanent = true
is_terminal DatasetState.cancelled = true
is_terminal DatasetState.verification_failed = true
is_terminal DatasetState.stale_source = true
is_terminal _ = false

unfoldable pub is_runnable : DatasetState → Bool
is_runnable DatasetState.pending = true
is_runnable DatasetState.failed_recoverable = true
is_runnable _ = false

unfoldable pub is_resumable : DatasetState → Bool
is_resumable DatasetState.pending = true
is_resumable DatasetState.planning_validated = true
is_resumable DatasetState.running = true
is_resumable DatasetState.failed_recoverable = true
is_resumable DatasetState.cancelled = true
is_resumable _ = false

unfoldable pub recover_after_crash : DatasetState → DatasetState
recover_after_crash DatasetState.running = DatasetState.failed_recoverable
recover_after_crash DatasetState.repair_complete = DatasetState.failed_recoverable
recover_after_crash DatasetState.verifying = DatasetState.failed_recoverable
recover_after_crash DatasetState.planning_validated = DatasetState.failed_recoverable
recover_after_crash other = other

-- The `matches!` of `can_transition_to`.
allowed : DatasetState → DatasetState → Bool
allowed DatasetState.pending DatasetState.planning_validated = true
allowed DatasetState.planning_validated DatasetState.running = true
allowed DatasetState.running DatasetState.repair_complete = true
allowed DatasetState.repair_complete DatasetState.verifying = true
allowed DatasetState.verifying DatasetState.succeeded = true
allowed DatasetState.pending DatasetState.stale_source = true
allowed DatasetState.planning_validated DatasetState.stale_source = true
allowed DatasetState.running DatasetState.failed_recoverable = true
allowed DatasetState.repair_complete DatasetState.failed_recoverable = true
allowed DatasetState.verifying DatasetState.failed_recoverable = true
allowed DatasetState.running DatasetState.failed_permanent = true
allowed DatasetState.repair_complete DatasetState.failed_permanent = true
allowed DatasetState.verifying DatasetState.failed_permanent = true
allowed DatasetState.running DatasetState.verification_failed = true
allowed DatasetState.repair_complete DatasetState.verification_failed = true
allowed DatasetState.verifying DatasetState.verification_failed = true
allowed DatasetState.pending DatasetState.cancelled = true
allowed DatasetState.planning_validated DatasetState.cancelled = true
allowed DatasetState.running DatasetState.cancelled = true
allowed DatasetState.planning_validated DatasetState.blocked = true
allowed DatasetState.failed_recoverable DatasetState.running = true
allowed DatasetState.planning_validated DatasetState.failed_recoverable = true
allowed DatasetState.cancelled DatasetState.failed_recoverable = true
allowed DatasetState.stale_source DatasetState.stale_source = true
allowed _ _ = false

unfoldable pub can_transition_to : DatasetState → DatasetState → Bool
unfolding allowed dataset_state_eq
can_transition_to self to = if dataset_state_eq self to then true else allowed self to

unfoldable pub transition : DatasetState → DatasetState → Result StateTransitionError DatasetState
unfolding can_transition_to
transition self to =
    if can_transition_to self to then ok to else err (StateTransitionError.illegal self to)

-- `apply_transition` on `&mut self`: the state after it, with its result.
unfoldable pub apply_transition :
    DatasetState → DatasetState → DatasetState × Result StateTransitionError (Unit {0})
unfolding transition
apply_transition self to = elim (transition self to) [ ok s ↦ (s, ok tt) | err e ↦ (self, err e) ]

abbrev pub Settled : DatasetState → Type 0
Settled s = (is_terminal s ≡ true) ⊎ (is_runnable s ≡ true)

-- What a resumed run makes of a state that it finds: the move is legal, it leads to a state that is
-- terminal or can be run, and a second recovery changes nothing; a state that was already such a
-- one is left as it is.
pub recover_after_crash-Settled :
    (s : DatasetState)
    → (transition s (recover_after_crash s) ≡ ok (recover_after_crash s))
      × Settled (recover_after_crash s)
      × (recover_after_crash (recover_after_crash s) ≡ recover_after_crash s)
      × (Settled s → recover_after_crash s ≡ s)
unfolding transition recover_after_crash is_terminal is_runnable
recover_after_crash-Settled DatasetState.pending = (refl, inr refl, refl, λ _. refl)
recover_after_crash-Settled DatasetState.planning_validated =
    (refl, inr refl, refl, λ h. absurd (ground arith))
recover_after_crash-Settled DatasetState.running =
    (refl, inr refl, refl, λ h. absurd (ground arith))
recover_after_crash-Settled DatasetState.repair_complete =
    (refl, inr refl, refl, λ h. absurd (ground arith))
recover_after_crash-Settled DatasetState.verifying =
    (refl, inr refl, refl, λ h. absurd (ground arith))
recover_after_crash-Settled DatasetState.failed_recoverable = (refl, inr refl, refl, λ _. refl)
recover_after_crash-Settled DatasetState.succeeded = (refl, inl refl, refl, λ _. refl)
recover_after_crash-Settled DatasetState.blocked = (refl, inl refl, refl, λ _. refl)
recover_after_crash-Settled DatasetState.failed_permanent = (refl, inl refl, refl, λ _. refl)
recover_after_crash-Settled DatasetState.cancelled = (refl, inl refl, refl, λ _. refl)
recover_after_crash-Settled DatasetState.stale_source = (refl, inl refl, refl, λ _. refl)
recover_after_crash-Settled DatasetState.verification_failed = (refl, inl refl, refl, λ _. refl)
