-- ===== src/Workflow/Projection.antt =====
-- workflow/event-model.ts: approvals, completion, and `projectWorkflowEvent`, which dispatches on the
-- event's type.
pub mod Invariant
pub mod Preservation
pub mod Behaviour
use agent_harness_os.Base.{
  String, Bool, true, false, not, ◌&&◌, ◌||◌, Option, none, some, leb, if◌then◌else◌, ◌==◌, nat_eq,
  string_eq, option_eq, is_none, is_some, Result, ok, err, ◌>>=◌, ◌>>◌, throw_if,
}
use agent_harness_os.Workflow.Types.{
  plan, implement, repair, StageName, worker, approval, Definition, Status, pending,
  waiting_for_approval, Decision, approved, rejected, FinalStatus, final_status, Projection,
  EventData, workflow_created, stage_started, stage_interrupted, dependency_state_changed,
  stage_completed, approval_requested, approval_decided, workflow_completed, Event, worker_stage_eq,
  stage_eq, status_eq, decision_eq,
}
use agent_harness_os.Domain.{worker_mode_eq, capability_eq, run_status_eq}
use agent_harness_os.Workflow.Definition.{Dates, validate_workflow_definition}
use agent_harness_os.Workflow.Stages.{
  transition_error, is_terminal_workflow_status, clone_projection, project_dependency_state_changed,
  project_stage_started, project_stage_interrupted, project_stage_completed,
}

unfoldable pub approval_request_refused : Projection → String → Bool
approval_request_refused next candidate_run_id =
    not (next.summary.current_stage == some approval)
    || is_some next.summary.active_execution_id
    || not (some candidate_run_id == next.summary.candidate_run_id)
    || next.approval_requested

unfoldable pub project_approval_requested : Projection → String → Bool → Result Projection
project_approval_requested next candidate_run_id append = do
  throw_if (approval_request_refused next candidate_run_id) (transition_error append)
  ok (record next {
    approval_requested = true;
    summary = record (next.summary) { approval_decision = none; status = waiting_for_approval };
  })

unfoldable pub approval_decision_refused : Projection → Decision → Option StageName → Bool
approval_decision_refused next decision next_stage =
    not next.approval_requested
    || not (next.summary.status == waiting_for_approval)
    || not (next.summary.current_stage == some approval)
    || (decision == approved && is_some next_stage)
    || (decision == rejected && is_some next_stage && not (next_stage == some (worker repair)))
    || (next_stage == some (worker repair)
        && (is_none next.definition.stages.repair_stage
            || leb next.definition.max_repair_attempts next.summary.repair_attempt_count))

unfoldable pub project_approval_decided :
    Projection → Decision → Option StageName → Bool → Result Projection
project_approval_decided next decision next_stage append = do
  throw_if (approval_decision_refused next decision next_stage) (transition_error append)
  ok (record next {
    approval_requested = false;
    summary = record (next.summary) {
      approval_decision = some decision;
      current_stage = next_stage;
      status = pending;
      last_failure_code = elim decision [
        | approved ↦ next.summary.last_failure_code
        | rejected ↦ some "WORKFLOW_APPROVAL_REJECTED"
      ];
    };
  })

unfoldable pub completion_refused : Projection → FinalStatus → Option String → Option String → Bool
completion_refused next status failure_code candidate_run_id =
    let done = final_status status == Status.completed in
    is_some next.summary.active_execution_id
    || (next.approval_requested && done)
    || not (candidate_run_id == next.summary.candidate_run_id)
    || (done
        && (not (next.summary.approval_decision == some approved)
            || is_none next.summary.candidate_run_id
            || is_some failure_code))
    || (not done && is_none failure_code)

unfoldable pub project_workflow_completed :
    Projection → FinalStatus → Option String → Option String → Bool → Result Projection
project_workflow_completed next status failure_code candidate_run_id append = do
  throw_if (completion_refused next status failure_code candidate_run_id) (transition_error append)
  ok (record next {
    approval_requested = false;
    summary = record (next.summary) {
      current_stage = none;
      status = final_status status;
      last_failure_code = failure_code;
    };
  })

-- The `switch` on the event's type, over the cloned projection. A second `WorkflowCreated` is refused
-- before it, in `project_workflow_event`.
unfoldable pub project_data : Projection → EventData → Bool → Result Projection
project_data next (workflow_created d) append = err (transition_error append)
project_data next (dependency_state_changed state) append =
    project_dependency_state_changed next state append
project_data next (stage_started e) append = project_stage_started next e append
project_data next (stage_interrupted stage execution_id reason) append =
    project_stage_interrupted next stage execution_id append
project_data next (stage_completed e) append = project_stage_completed next e append
project_data next (approval_requested id) append = project_approval_requested next id append
project_data next (approval_decided decision feedback next_stage) append =
    project_approval_decided next decision next_stage append
project_data next (workflow_completed status failure_code candidate_run_id) append =
    project_workflow_completed next status failure_code candidate_run_id append

unfoldable pub first_projection : Definition → Event → String → Projection
first_projection d event event_sha256 = record {
  definition = d;
  approval_requested = false;
  retry_transitions = λ _. none;
  summary = record {
    workflow_id = event.workflow_id;
    objective = d.objective;
    repository_path = d.repository_path;
    base_commit = d.base_commit;
    created_at = event.occurred_at;
    updated_at = event.occurred_at;
    deadline_at = d.deadline_at;
    status = pending;
    current_stage = some (worker (if is_none d.stages.plan_stage then implement else plan));
    active_execution_id = none;
    candidate_run_id = none;
    transition_count = 0;
    repair_attempt_count = 0;
    stage_attempts = λ _. none;
    approval_decision = none;
    last_failure_code = none;
    event_count = 1;
    latest_event_sha256 = event_sha256;
  };
}

unfoldable pub project_created :
    Dates → Option Projection → Definition → Event → String → Bool → Result Projection
project_created dates (some current) d event sha append = err (transition_error append)
project_created dates none d event sha append = do
  throw_if (not (validate_workflow_definition dates d)) (transition_error append)
  ok (first_projection d event sha)

unfoldable pub project_current : Option Projection → Event → String → Bool → Result Projection
project_current none event sha append = err (transition_error append)
project_current (some current) event sha append = do
  throw_if (is_terminal_workflow_status current.summary.status) (transition_error append)
  project_data (clone_projection current event sha) event.payload append

unfoldable pub project_workflow_event :
    Dates → Option Projection → Event → String → Bool → Result Projection
project_workflow_event dates current event sha append = elim event.payload [
  | workflow_created d ↦ project_created dates current d event sha append
  | _ ↦ project_current current event sha append
]
