-- ===== src/Workflow/Stages.antt =====
-- workflow/event-model.ts: how the events of a stage change a projection. `appendOperation` only
-- chooses the code of the error. A `throw` is `err`.
use agent_harness_os.Base.{
  ℕ, ◌+◌, String, xor, Bool, true, false, not, ◌&&◌, ◌||◌, Option, none, some, ltb, leb, nat_beq,
  if◌then◌else◌, ◌==◌, nat_eq, string_eq, option_eq, is_none, is_some, length, HarnessError,
  harness_error, Result, ok, ◌>>◌, throw_if,
}
use agent_harness_os.Workflow.Types.{
  WorkerStageName, plan, implement, test, review, repair, StageName, worker, approval, Definition,
  stage_of, Status, pending, running, waiting_for_dependency, DependencyState, waiting, ready,
  StageCounts, Projection, Started, StageResult, Event, worker_stage_eq, stage_eq, status_eq,
  decision_eq, with_count,
}
use agent_harness_os.Domain.{RunStatus, worker_mode_eq, capability_eq, run_status_eq}
use agent_harness_os.Workflow.Transitions.{
  next_candidate_stage, is_retryable_workflow_failure, is_repairable_workflow_failure,
}
use agent_harness_os.Workflow.Definition.{is_uuid}

unfoldable pub transition_error : Bool → HarnessError
transition_error append_operation =
    harness_error
      (if append_operation then "INVALID_WORKFLOW_TRANSITION" else "INVALID_WORKFLOW_JOURNAL")

unfoldable pub is_terminal_workflow_status : Status → Bool
is_terminal_workflow_status Status.completed = true
is_terminal_workflow_status Status.failed = true
is_terminal_workflow_status Status.blocked = true
is_terminal_workflow_status Status.timed_out = true
is_terminal_workflow_status Status.cancelled = true
is_terminal_workflow_status _ = false

-- `counts[stage] ?? 0`
abbrev pub count_of : StageCounts → WorkerStageName → ℕ
count_of counts stage = elim (counts stage) [ none ↦ 0 | some n ↦ n ]

-- `definition.stages[stage]?.retryLimit ?? 0`
abbrev pub retry_limit_of : Definition → WorkerStageName → ℕ
retry_limit_of d stage = elim (stage_of d stage) [ none ↦ 0 | some s ↦ s.retry_limit ]

unfoldable pub clone_projection : Projection → Event → String → Projection
clone_projection current event event_sha256 = record current {
  summary = record (current.summary) {
    updated_at = event.occurred_at;
    event_count = event.sequence;
    latest_event_sha256 = event_sha256;
  };
}

unfoldable pub dependency_change_refused : Projection → DependencyState → Bool
dependency_change_refused next state =
    nat_beq (length next.definition.dependency_workflow_ids) 0
    || is_some next.summary.active_execution_id
    || next.approval_requested
    || elim state [
      | waiting ↦ not (next.summary.status == pending)
      | ready ↦ not (next.summary.status == waiting_for_dependency)
    ]

unfoldable pub project_dependency_state_changed :
    Projection → DependencyState → Bool → Result Projection
project_dependency_state_changed next state append = do
  throw_if (dependency_change_refused next state) (transition_error append)
  ok (record next {
    summary = record (next.summary) {
      status = elim state [ waiting ↦ waiting_for_dependency | ready ↦ pending ];
    };
  })

abbrev pub expected_source : Projection → WorkerStageName → Option String
expected_source next plan = none
expected_source next implement = none
expected_source next _ = next.summary.candidate_run_id

unfoldable pub stage_start_refused : Projection → Started → Bool
stage_start_refused next e =
    is_none (stage_of next.definition e.stage)
    || not (next.summary.current_stage == some (worker e.stage))
    || is_some next.summary.active_execution_id
    || next.approval_requested
    || not (e.attempt_number == count_of next.summary.stage_attempts e.stage + 1)
    || (e.stage == repair
        && leb next.definition.max_repair_attempts next.summary.repair_attempt_count)
    || not (e.source_run_id == expected_source next e.stage)
    || leb next.definition.max_transitions next.summary.transition_count

unfoldable pub project_stage_started : Projection → Started → Bool → Result Projection
project_stage_started next e append = do
  throw_if (stage_start_refused next e) (transition_error append)
  ok (record next {
    summary = record (next.summary) {
      stage_attempts = with_count next.summary.stage_attempts e.stage e.attempt_number;
      transition_count = next.summary.transition_count + 1;
      active_execution_id = some e.execution_id;
      status = running;
    };
  })

unfoldable pub interrupt_refused : Projection → WorkerStageName → String → Bool
interrupt_refused next stage execution_id =
    not (next.summary.active_execution_id == some execution_id)
    || not (next.summary.current_stage == some (worker stage))

unfoldable pub project_stage_interrupted :
    Projection → WorkerStageName → String → Bool → Result Projection
project_stage_interrupted next stage execution_id append = do
  throw_if (interrupt_refused next stage execution_id) (transition_error append)
  ok (record next {
    summary = record (next.summary) { active_execution_id = none; status = pending };
  })

-- `isAllowedNextStage`, where the attempt failed but may go on.
unfoldable pub is_allowed_after_failure : Projection → StageResult → Bool
is_allowed_after_failure next e = elim e.next_stage [
  | none ↦ true
  | some target ↦ elim e.failure_code [
    | none ↦ false
    | some failure ↦
        if target == worker repair
        then is_some next.definition.stages.repair_stage
          && is_repairable_workflow_failure failure
          && ltb (next.summary.repair_attempt_count + (if e.stage == repair then 1 else 0))
              next.definition.max_repair_attempts
        else if target == worker e.stage
        then is_retryable_workflow_failure failure
          && ltb (count_of next.retry_transitions e.stage) (retry_limit_of next.definition e.stage)
        else false
  ]
]

unfoldable pub is_allowed_after_success : Definition → WorkerStageName → Option StageName → Bool
is_allowed_after_success d plan target = target == some (worker implement)
is_allowed_after_success d implement target = target == some (next_candidate_stage d)
is_allowed_after_success d test target =
    target == some (if is_none d.stages.review_stage then approval else worker review)
is_allowed_after_success d review target = target == some approval
is_allowed_after_success d repair target = target == some (next_candidate_stage d)

unfoldable pub is_allowed_next_stage : Projection → StageResult → Bool
unfolding is_allowed_after_failure is_allowed_after_success
is_allowed_next_stage next e = elim e.status [
  | RunStatus.cancelled ↦ is_none e.next_stage
  | RunStatus.timed_out ↦ is_none e.next_stage
  | RunStatus.policy_violation ↦ is_none e.next_stage
  | RunStatus.completed ↦ is_allowed_after_success next.definition e.stage e.next_stage
  | _ ↦ is_allowed_after_failure next e
]

-- The tests of `projectStageCompleted` that compare the event's fields with one another and with the
-- current candidate.
unfoldable pub result_refused : Projection → StageResult → Bool
result_refused next e =
    let done = e.status == RunStatus.completed in
    let planned = e.stage == plan in
    xor (is_none e.run_id) (is_none e.task_id)
    || (done && is_none e.run_id)
    || elim e.run_id [ none ↦ false | some id ↦ not (is_uuid id) ]
    || elim e.task_id [ none ↦ false | some id ↦ not (is_uuid id) ]
    || (done && is_some e.failure_code)
    || (not done && is_none e.failure_code)
    || (done && not planned && is_none e.candidate_run_id)
    || (done && not planned && not (e.candidate_run_id == e.run_id))
    || (planned && not (e.candidate_run_id == next.summary.candidate_run_id))
    || (not done
        && not (e.next_stage == some (worker repair))
        && not (e.candidate_run_id == next.summary.candidate_run_id))
    || (not done
        && e.next_stage == some (worker e.stage)
        && (is_none e.task_id || is_none e.run_id))
    || (not done
        && e.next_stage == some (worker repair)
        && (is_none e.task_id || is_none e.run_id || not (e.candidate_run_id == e.run_id)))

unfoldable pub stage_completion_refused : Projection → StageResult → Bool
stage_completion_refused next e =
    not (next.summary.current_stage == some (worker e.stage))
    || not (next.summary.active_execution_id == some e.execution_id)
    || result_refused next e
    || not (is_allowed_next_stage next e)

unfoldable pub retries_after : Projection → StageResult → StageCounts
retries_after next e =
    if not (e.stage == repair) && e.next_stage == some (worker e.stage)
    then with_count next.retry_transitions e.stage (count_of next.retry_transitions e.stage + 1)
    else next.retry_transitions

unfoldable pub project_stage_completed : Projection → StageResult → Bool → Result Projection
project_stage_completed next e append = do
  throw_if (stage_completion_refused next e) (transition_error append)
  ok (record next {
    retry_transitions = retries_after next e;
    summary = record (next.summary) {
      active_execution_id = none;
      repair_attempt_count =
          next.summary.repair_attempt_count + (if e.stage == repair then 1 else 0);
      candidate_run_id = e.candidate_run_id;
      current_stage = e.next_stage;
      last_failure_code = e.failure_code;
      status = pending;
    };
  })
