-- ===== src/Task/Projection.antt =====
-- artifacts/task-event-model.ts: `projectTaskEvent`.
pub mod Invariant
use agent_harness_os.Base.{
  ℕ, ◌+◌, ◌-◌, code, String, Bool, true, false, not, ◌&&◌, ◌||◌, Option, none, some, [],
  starts_with, ltb, if◌then◌else◌, ◌==◌, nat_eq, string_eq, option_eq, is_none, is_some, get_elem?,
  contains, set_add, Result, ok, err, ◌>>=◌, throw_if,
}
use agent_harness_os.Task.Types.{
  in_progress, ended, PatchApplicationStatus, not_requested, pending, approved, applied, rejected,
  AttemptProjection, TaskEventProjection, TaskCreated, RouteSelected, WorkerStarted, TaskCompleted,
  TaskEventData, task_created, route_selected, worker_started, model_turn_completed, tool_called,
  worker_completed, patch_produced, validation_completed, evaluation_completed, attempt_completed,
  task_completed, patch_application_requested, patch_approved, patch_applied,
  patch_application_rejected, TaskEvent, call_eq, validation_eq, evaluation_eq, policy_eq,
  task_status_eq, application_eq,
}
use agent_harness_os.Domain.{RunStatus, worker_mode_eq, capability_eq, run_status_eq}
use agent_harness_os.Task.Attempts.{
  task_transition_error, change_attempt, model_turn_refused, after_model_turn, tool_call_refused,
  after_tool_call, worker_completion_refused, after_worker, patch_refused, after_patch,
  validation_refused, after_validation, evaluation_refused, after_evaluation,
  project_attempt_completed,
}

-- `knownRunIds.has` and `workerIds.includes` read lists, and `add` keeps a set.
unfoldable pub is_fallback_eligible : AttemptProjection → Bool
is_fallback_eligible a = a.status == some RunStatus.failed && elim a.failure_code [
  | none ↦ false
  | some code ↦ starts_with code "PROVIDER_" || code == "WORKER_EMPTY_RESPONSE"
]

abbrev pub may_follow : Option AttemptProjection → Bool
may_follow none = true
may_follow (some a) = is_fallback_eligible a

unfoldable pub project_route_selected :
    TaskEventProjection → RouteSelected → Bool → Result TaskEventProjection
project_route_selected next e append =
    throw_if (is_some next.strategy || is_some next.active_attempt || is_some next.last_attempt)
      (task_transition_error append)
    >>= λ _. ok (record next {
      strategy = some e.strategy;
      candidate_worker_ids = e.candidate_worker_ids;
      max_attempts = e.max_attempts;
    })

unfoldable pub worker_start_refused : TaskEventProjection → WorkerStarted → Bool
worker_start_refused next e =
    is_none next.strategy
    || is_some next.active_attempt
    || contains next.known_run_ids e.run_id
    || not (e.attempt_number == next.summary.attempt_count + 1)
    || ltb next.max_attempts e.attempt_number
    || not (get_elem? next.candidate_worker_ids (e.attempt_number - 1) == some e.worker_id)
    || not (may_follow next.last_attempt)

abbrev pub new_attempt : WorkerStarted → AttemptProjection
new_attempt e = record {
  run_id = e.run_id;
  worker_id = e.worker_id;
  attempt_number = e.attempt_number;
  last_model_iteration = 0;
  model_failed = false;
  model_terminal = false;
  expected_tool_call_count = 0;
  observed_tool_call_count = 0;
  worker_completed = false;
  worker_outcome = none;
  patch_sha256 = none;
  patch_changed_file_count = none;
  validation_completed = false;
  validation_outcome = none;
  evaluation_completed = false;
  evaluation_outcome = none;
  evaluation_policy = none;
  status = none;
  failure_code = none;
}

unfoldable pub project_worker_started :
    TaskEventProjection → WorkerStarted → Bool → Result TaskEventProjection
project_worker_started next e append =
    throw_if (worker_start_refused next e) (task_transition_error append) >>= λ _. ok (record next {
      active_attempt = some (new_attempt e);
      known_run_ids = set_add next.known_run_ids e.run_id;
      summary = record (next.summary) {
        attempt_count = e.attempt_number;
        latest_run_id = some e.run_id;
        worker_ids = set_add next.summary.worker_ids e.worker_id;
      };
    })

-- Whether the run and the status of `TaskCompleted` contradict the last attempt.
unfoldable pub task_outcome_refused : Option AttemptProjection → TaskCompleted → Bool
task_outcome_refused none e = is_some e.run_id || not (e.status == RunStatus.timed_out)
task_outcome_refused (some a) e = not (e.run_id == some a.run_id) || not (some e.status == a.status)

unfoldable pub project_task_completed :
    TaskEventProjection → TaskCompleted → Bool → Result TaskEventProjection
project_task_completed next e append =
    throw_if (is_none next.strategy || is_some next.active_attempt) (task_transition_error append)
    >>= λ _.
        throw_if (task_outcome_refused next.last_attempt e) (task_transition_error append) >>= λ _.
        ok (record next {
          summary = record (next.summary) {
            status = ended e.status;
            latest_run_id = if is_some e.run_id then e.run_id else next.summary.latest_run_id;
          };
        })

-- `lastAttempt?.runId === runId`, and the patch of a completed attempt.
unfoldable pub has_applicable_patch : Option AttemptProjection → String → Bool
has_applicable_patch none run_id = false
has_applicable_patch (some a) run_id =
    a.run_id == run_id && a.status == some RunStatus.completed && is_some a.patch_sha256

unfoldable pub is_applicable_run : TaskEventProjection → String → Bool
is_applicable_run next run_id =
    next.summary.status == ended RunStatus.completed
    && has_applicable_patch next.last_attempt run_id

unfoldable pub project_application_requested :
    TaskEventProjection → String → Bool → Result TaskEventProjection
project_application_requested next run_id append =
    throw_if (not (is_applicable_run next run_id)) (task_transition_error append) >>= λ _.
    throw_if
      (not (next.summary.patch_application_status == not_requested)
        && not (next.summary.patch_application_status == rejected))
      (task_transition_error append)
    >>= λ _. ok (record next {
      application_run_id = some run_id;
      summary = record (next.summary) { patch_application_status = pending };
    })

unfoldable pub application_refused : TaskEventProjection → String → PatchApplicationStatus → Bool
application_refused next run_id expected_status =
    not (next.application_run_id == some run_id)
    || not (next.summary.patch_application_status == expected_status)

unfoldable pub project_patch_approved :
    TaskEventProjection → String → Bool → Result TaskEventProjection
project_patch_approved next run_id append =
    throw_if (application_refused next run_id pending) (task_transition_error append) >>= λ _.
    ok (record next { summary = record (next.summary) { patch_application_status = approved } })

-- `lastAttempt?.patchChangedFileCount`, which is never equal to a number where it is missing or `null`.
abbrev pub patched_files : Option AttemptProjection → Option ℕ
patched_files none = none
patched_files (some a) = a.patch_changed_file_count

unfoldable pub project_patch_applied :
    TaskEventProjection → String → ℕ → Bool → Result TaskEventProjection
project_patch_applied next run_id changed_file_count append =
    throw_if (application_refused next run_id approved) (task_transition_error append) >>= λ _.
    throw_if (not (some changed_file_count == patched_files next.last_attempt))
      (task_transition_error append)
    >>= λ _.
        ok (record next { summary = record (next.summary) { patch_application_status = applied } })

unfoldable pub project_application_rejected :
    TaskEventProjection → String → Bool → Result TaskEventProjection
project_application_rejected next run_id append =
    throw_if
      (not (next.application_run_id == some run_id)
        || (not (next.summary.patch_application_status == pending)
            && not (next.summary.patch_application_status == approved)))
      (task_transition_error append)
    >>= λ _.
        ok (record next { summary = record (next.summary) { patch_application_status = rejected } })

-- The `switch` on the event's type, over the cloned projection.
unfoldable pub project_task_data :
    TaskEventProjection → TaskEventData → Bool → Result TaskEventProjection
project_task_data next (task_created e) append = err (task_transition_error append)
project_task_data next (route_selected e) append = project_route_selected next e append
project_task_data next (worker_started e) append = project_worker_started next e append
project_task_data next (model_turn_completed e) append =
    change_attempt next e.run_id append (model_turn_refused e) (after_model_turn e)
project_task_data next (tool_called e) append =
    change_attempt next e.run_id append (tool_call_refused next.event_schema_version e)
      after_tool_call
project_task_data next (worker_completed e) append =
    change_attempt next e.run_id append (worker_completion_refused next.event_schema_version e)
      (after_worker e)
project_task_data next (patch_produced e) append =
    change_attempt next e.run_id append patch_refused (after_patch e)
project_task_data next (validation_completed e) append =
    change_attempt next e.run_id append validation_refused (after_validation e)
project_task_data next (evaluation_completed e) append =
    change_attempt next e.run_id append evaluation_refused (after_evaluation e)
project_task_data next (attempt_completed e) append = project_attempt_completed next e append
project_task_data next (task_completed e) append = project_task_completed next e append
project_task_data next (patch_application_requested run_id) append =
    project_application_requested next run_id append
project_task_data next (patch_approved run_id) append = project_patch_approved next run_id append
project_task_data next (patch_applied run_id files) append =
    project_patch_applied next run_id files append
project_task_data next (patch_application_rejected run_id failure) append =
    project_application_rejected next run_id append

abbrev pub is_patch_application_event : TaskEventData → Bool
is_patch_application_event (patch_application_requested run_id) = true
is_patch_application_event (patch_approved run_id) = true
is_patch_application_event (patch_applied run_id files) = true
is_patch_application_event (patch_application_rejected run_id failure) = true
is_patch_application_event _ = false

unfoldable pub clone_task_projection :
    TaskEventProjection → TaskEvent → String → TaskEventProjection
clone_task_projection current event event_sha256 = record current {
  summary = record (current.summary) {
    updated_at = event.occurred_at;
    event_count = event.sequence;
    latest_event_sha256 = event_sha256;
  };
}

unfoldable pub first_task_projection : TaskCreated → TaskEvent → String → TaskEventProjection
first_task_projection e event event_sha256 = record {
  summary = record {
    task_id = event.task_id;
    objective = e.objective;
    mode = e.mode;
    repository_path = e.repository_path;
    base_commit = e.base_commit;
    created_at = event.occurred_at;
    updated_at = event.occurred_at;
    status = in_progress;
    attempt_count = 0;
    latest_run_id = none;
    worker_ids = [];
    event_count = 1;
    latest_event_sha256 = event_sha256;
    patch_application_status = not_requested;
    policy_sha256 = e.policy_sha256;
  };
  strategy = none;
  candidate_worker_ids = [];
  max_attempts = 0;
  active_attempt = none;
  last_attempt = none;
  known_run_ids = [];
  application_run_id = none;
  event_schema_version = event.schema_version;
}

-- The first event.
unfoldable pub project_task_created :
    Option TaskEventProjection
    → TaskCreated
    → TaskEvent
    → String
    → Bool
    → Result TaskEventProjection
project_task_created (some current) e event sha append = err (task_transition_error append)
project_task_created none e event sha append = ok (first_task_projection e event sha)

-- Any later event.
unfoldable pub project_task_later :
    Option TaskEventProjection → TaskEvent → String → Bool → Result TaskEventProjection
project_task_later none event sha append = err (task_transition_error append)
project_task_later (some current) event sha append =
    throw_if (not (event.schema_version == current.event_schema_version))
      (task_transition_error append)
    >>= λ _.
        throw_if
          (not (current.summary.status == in_progress)
            && not (is_patch_application_event event.payload))
          (task_transition_error append)
        >>= λ _. project_task_data (clone_task_projection current event sha) event.payload append

-- By the event's type: `TaskCreated` is the only first event.
unfoldable pub project_task_payload :
    TaskEventData
    → Option TaskEventProjection
    → TaskEvent
    → String
    → Bool
    → Result TaskEventProjection
project_task_payload (task_created e) current event sha append =
    project_task_created current e event sha append
project_task_payload _ current event sha append = project_task_later current event sha append

unfoldable pub project_task_event :
    Option TaskEventProjection → TaskEvent → String → Bool → Result TaskEventProjection
project_task_event current event sha append =
    project_task_payload event.payload current event sha append
