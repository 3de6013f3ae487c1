-- ===== src/Task/Attempts.antt =====
-- artifacts/task-event-model.ts, `projectTaskEvent`: the events of the active attempt. A guard is the
-- condition of the source's `throw`.
use agent_harness_os.Base.{
  ℕ, ◌+◌, String, Bool, true, not, ◌&&◌, ◌||◌, Option, none, some, leb, if◌then◌else◌, ◌==◌, nat_eq,
  string_eq, option_eq, is_none, is_some, HarnessError, harness_error, Result, ok, err, ◌>>=◌,
  throw_if,
}
use agent_harness_os.Task.Types.{
  CallOutcome, succeeded, ValidationOutcome, EvaluationOutcome, inconclusive, EvaluationPolicy,
  default, strict, AttemptProjection, TaskEventProjection, ModelTurnCompleted, ToolCalled,
  WorkerCompleted, PatchProduced, ValidationCompleted, EvaluationCompleted, AttemptCompleted,
  call_eq, validation_eq, evaluation_eq, policy_eq, task_status_eq, application_eq,
}
use agent_harness_os.Domain.{RunStatus, worker_mode_eq, capability_eq, run_status_eq}

unfoldable pub task_transition_error : Bool → HarnessError
task_transition_error append =
    harness_error (if append then "INVALID_TASK_EVENT_TRANSITION" else "INVALID_TASK_JOURNAL")

unfoldable pub get_active_run : Option AttemptProjection → String → Bool → Result AttemptProjection
get_active_run none run_id append = err (task_transition_error append)
get_active_run (some a) run_id append =
    throw_if (not (a.run_id == run_id)) (task_transition_error append) >>= λ _. ok a

-- An event on the active attempt: the check of its run, a guard, and a change of the attempt.
unfoldable pub change_attempt :
    TaskEventProjection
    → String
    → Bool
    → (AttemptProjection → Bool)
    → (AttemptProjection → AttemptProjection)
    → Result TaskEventProjection
unfolding get_active_run
change_attempt next run_id append refused change =
    get_active_run next.active_attempt run_id append >>= λ a.
    throw_if (refused a) (task_transition_error append) >>= λ _.
    ok (record next { active_attempt = some (change a) })

unfoldable pub model_turn_refused : ModelTurnCompleted → AttemptProjection → Bool
model_turn_refused e a =
    a.worker_completed
    || a.model_terminal
    || not (a.observed_tool_call_count == a.expected_tool_call_count)
    || not (e.iteration == a.last_model_iteration + 1)

abbrev pub after_model_turn : ModelTurnCompleted → AttemptProjection → AttemptProjection
after_model_turn e a = record a {
  last_model_iteration = e.iteration;
  model_failed = e.outcome == CallOutcome.failed;
  model_terminal = e.outcome == CallOutcome.failed || e.tool_call_count == 0;
  expected_tool_call_count = e.tool_call_count;
  observed_tool_call_count = 0;
}

unfoldable pub tool_call_refused : ℕ → ToolCalled → AttemptProjection → Bool
tool_call_refused version e a =
    a.worker_completed
    || (leb 7 version
        && (a.model_failed
            || not (e.iteration == a.last_model_iteration)
            || leb a.expected_tool_call_count a.observed_tool_call_count))

abbrev pub after_tool_call : AttemptProjection → AttemptProjection
after_tool_call a = record a { observed_tool_call_count = a.observed_tool_call_count + 1 }

unfoldable pub worker_completion_refused : ℕ → WorkerCompleted → AttemptProjection → Bool
worker_completion_refused version e a =
    a.worker_completed
    || (leb 7 version
        && (not (a.observed_tool_call_count == a.expected_tool_call_count)
            || (a.model_failed && not (e.outcome == CallOutcome.failed))
            || (e.outcome == succeeded && (not a.model_terminal || a.model_failed))))

abbrev pub after_worker : WorkerCompleted → AttemptProjection → AttemptProjection
after_worker e a = record a { worker_completed = true; worker_outcome = some e.outcome }

unfoldable pub patch_refused : AttemptProjection → Bool
patch_refused a = not a.worker_completed || a.validation_completed || is_some a.patch_sha256

abbrev pub after_patch : PatchProduced → AttemptProjection → AttemptProjection
after_patch e a = record a {
  patch_sha256 = some e.patch_sha256;
  patch_changed_file_count = some e.changed_file_count;
}

unfoldable pub validation_refused : AttemptProjection → Bool
validation_refused a = not a.worker_completed || a.validation_completed

abbrev pub after_validation : ValidationCompleted → AttemptProjection → AttemptProjection
after_validation e a = record a { validation_completed = true; validation_outcome = some e.outcome }

unfoldable pub evaluation_refused : AttemptProjection → Bool
evaluation_refused a = not a.validation_completed || a.evaluation_completed

-- `event.data.evaluationPolicy ?? 'default'`
abbrev pub policy_or_default : Option EvaluationPolicy → EvaluationPolicy
policy_or_default none = default
policy_or_default (some p) = p

abbrev pub after_evaluation : EvaluationCompleted → AttemptProjection → AttemptProjection
after_evaluation e a = record a {
  evaluation_completed = true;
  evaluation_outcome = some e.outcome;
  evaluation_policy = some (policy_or_default e.evaluation_policy);
}

unfoldable pub evidence_missing : ℕ → AttemptProjection → Bool
evidence_missing version a =
    not a.validation_completed || (leb 2 version && not a.evaluation_completed)

-- A completed attempt that its evidence contradicts.
unfoldable pub success_contradicted : AttemptCompleted → AttemptProjection → Bool
success_contradicted e a =
    e.status == RunStatus.completed
    && (not (a.worker_outcome == some succeeded)
        || a.validation_outcome == some ValidationOutcome.failed
        || a.evaluation_outcome == some EvaluationOutcome.failed
        || (a.evaluation_policy == some strict && a.evaluation_outcome == some inconclusive)
        || is_some e.failure_code)

-- A failed attempt whose evaluation did not fail.
unfoldable pub failure_contradicted : ℕ → AttemptCompleted → AttemptProjection → Bool
failure_contradicted version e a =
    leb 2 version
    && not (e.status == RunStatus.completed)
    && not (a.evaluation_outcome == some EvaluationOutcome.failed)
    && not (
        leb 3 version
        && e.status == RunStatus.failed
        && a.evaluation_policy == some strict
        && a.evaluation_outcome == some inconclusive
        && e.failure_code == some "EVALUATION_INCONCLUSIVE")

unfoldable pub attempt_contradicted : ℕ → AttemptCompleted → AttemptProjection → Bool
attempt_contradicted version e a =
    success_contradicted e a
    || failure_contradicted version e a
    || (not (e.status == RunStatus.completed) && is_none e.failure_code)

abbrev pub after_attempt : AttemptCompleted → AttemptProjection → AttemptProjection
after_attempt e a = record a { status = some e.status; failure_code = e.failure_code }

unfoldable pub project_attempt_completed :
    TaskEventProjection → AttemptCompleted → Bool → Result TaskEventProjection
unfolding get_active_run
project_attempt_completed next e append =
    get_active_run next.active_attempt e.run_id append >>= λ a.
    throw_if (evidence_missing next.event_schema_version a) (task_transition_error append) >>= λ _.
    throw_if (attempt_contradicted next.event_schema_version e a) (task_transition_error append)
    >>= λ _. ok (record next { active_attempt = none; last_attempt = some (after_attempt e a) })
