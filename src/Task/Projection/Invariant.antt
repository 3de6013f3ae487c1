-- ===== src/Task/Projection/Invariant.antt =====
-- artifacts/task-event-model.ts: what holds of every projection of a task's events.
pub mod Preservation
pub mod Events
use agent_harness_os.Base.{
  ◌≤◌, ◌≡◌, true, false, Option, none, some, ◌==◌, nat_eq, string_eq, option_eq, is_some,
}
use agent_harness_os.Task.Types.{
  succeeded, ValidationOutcome, EvaluationOutcome, in_progress, ended, not_requested,
  AttemptProjection, TaskEventProjection, call_eq, validation_eq, evaluation_eq, policy_eq,
  task_status_eq, application_eq,
}
use agent_harness_os.Domain.{RunStatus, worker_mode_eq, capability_eq, run_status_eq}

-- The evidence of an attempt comes in order, and a flag says that its outcome is there.
pub record IsOrdered (a : AttemptProjection) : Type 0 where
  pub worker_known : is_some a.worker_outcome ≡ a.worker_completed
  pub validation_known : is_some a.validation_outcome ≡ a.validation_completed
  pub evaluation_known : is_some a.evaluation_outcome ≡ a.evaluation_completed
  pub worker_first : a.validation_completed ≡ true → a.worker_completed ≡ true
  pub validation_first : a.evaluation_completed ≡ true → a.validation_completed ≡ true
  pub patch_after_worker : is_some a.patch_sha256 ≡ true → a.worker_completed ≡ true
  pub patch_counted : is_some a.patch_changed_file_count ≡ is_some a.patch_sha256

-- An attempt whose worker succeeded and whose checks did not fail.
pub record IsSound (a : AttemptProjection) : Type 0 where
  pub worker_succeeded : a.worker_outcome ≡ some succeeded
  pub validated : a.validation_completed ≡ true
  pub validation_passed : (a.validation_outcome == some ValidationOutcome.failed) ≡ false
  pub evaluation_passed : (a.evaluation_outcome == some EvaluationOutcome.failed) ≡ false
  pub no_failure : a.failure_code ≡ none

-- The status of a task that has ended is the one of its last attempt.
abbrev pub IsLastStatus : Option AttemptProjection → RunStatus → Type 0
IsLastStatus none s = s ≡ RunStatus.timed_out
IsLastStatus (some a) s = a.status ≡ some s

abbrev pub IsActive : TaskEventProjection → AttemptProjection → Type 0
IsActive p a =
    (a.attempt_number ≡ p.summary.attempt_count)
    × (is_some p.strategy ≡ true)
    × (p.summary.status ≡ in_progress)
    × IsOrdered a

abbrev pub HasEnded : AttemptProjection → Type 0
HasEnded a =
    (is_some a.status ≡ true) × IsOrdered a × (a.status ≡ some RunStatus.completed → IsSound a)

-- The patch of a completed task that is being applied.
abbrev pub IsApplying : TaskEventProjection → Type 0
IsApplying p =
    (a : AttemptProjection) × (p.last_attempt ≡ some a)
    × (p.summary.status ≡ ended RunStatus.completed)
    × (a.status ≡ some RunStatus.completed)
    × (is_some a.patch_sha256 ≡ true)
    × (p.application_run_id ≡ some a.run_id)

pub record TaskInv (p : TaskEventProjection) : Type 0 where
  pub attempts_bounded : p.summary.attempt_count ≤ p.max_attempts
  pub unrouted : is_some p.strategy ≡ false → p.summary.attempt_count ≡ 0
  pub active_current : (a : AttemptProjection) → p.active_attempt ≡ some a → IsActive p a
  pub last_ended : (a : AttemptProjection) → p.last_attempt ≡ some a → HasEnded a
  pub ended_status : (s : RunStatus) → p.summary.status ≡ ended s → IsLastStatus p.last_attempt s
  pub application : (p.summary.patch_application_status == not_requested) ≡ false → IsApplying p
