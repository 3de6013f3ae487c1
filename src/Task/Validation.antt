-- ===== src/Task/Validation.antt =====
-- artifacts/task-event-model.ts, `validateTaskEvent`, on a typed event: the tests of a field's `typeof`
-- and of its literal values hold by its type, and a key that is missing is a field that is `none`.
-- workflow/provenance.ts: the provenance of a task that a workflow starts.
use agent_harness_os.Base.{
  ℕ, String, xor, Bool, true, false, not, ◌&&◌, ◌||◌, Option, none, some, List, ltb, leb, nat_beq,
  if◌then◌else◌, ◌==◌, nat_eq, string_eq, option_eq, is_none, length, get_elem?, all, contains,
  unique, HarnessError, harness_error, Result, ok, ◌>>◌, throw_if,
}
use agent_harness_os.Task.Types.{
  CallOutcome, succeeded, ValidationOutcome, skipped, EvaluationOutcome, inconclusive,
  EvaluationDimensionId, Timing, WorkflowTaskProvenance, TaskCreated, RouteSelected, WorkerStarted,
  ModelTurnCompleted, ToolCalled, WorkerCompleted, PatchProduced, ValidationCompleted,
  EvaluationCompleted, AttemptCompleted, TaskCompleted, TaskEventData, task_created, route_selected,
  worker_started, model_turn_completed, tool_called, worker_completed, patch_produced,
  validation_completed, evaluation_completed, attempt_completed, task_completed,
  patch_application_requested, patch_approved, patch_applied, patch_application_rejected, TaskEvent,
  call_eq, validation_eq, evaluation_eq, policy_eq, task_status_eq, application_eq, dimension_eq,
}
use agent_harness_os.Workflow.Types.{worker_stage_eq, stage_eq, status_eq, decision_eq}
use agent_harness_os.Domain.{worker_mode_eq, capability_eq, run_status_eq}
use agent_harness_os.Workflow.Definition.{
  Dates, is_iso_date, is_integer_in_range, is_bounded_string, is_bounded_string_array, is_uuid,
  is_sha256,
}

-- `hasExactKeys` for one key: it is there where the schema version has it, and only there.
abbrev pub has_key {ℓ} : {A : Type ℓ} → Bool → Option A → Bool
has_key expected none = not expected
has_key expected (some a) = expected

-- A test of a field that fails where the field is missing.
abbrev pub some_and {ℓ} : {A : Type ℓ} → (A → Bool) → Option A → Bool
some_and p none = false
some_and p (some a) = p a

-- A test of a field that may be `null`.
abbrev pub none_or {ℓ} : {A : Type ℓ} → (A → Bool) → Option A → Bool
none_or p none = true
none_or p (some a) = p a

-- `Number.isSafeInteger`, on a number that is not negative.
abbrev pub is_non_negative_integer : ℕ → Bool
is_non_negative_integer n = leb n 9007199254740991

abbrev pub is_positive_integer : ℕ → Bool
is_positive_integer n = is_non_negative_integer n && ltb 0 n

abbrev pub has_timing_keys : Bool → Timing → Bool
has_timing_keys expected t =
    has_key expected t.started_at
    && has_key expected t.completed_at
    && has_key expected t.duration_ms

unfoldable pub is_timing : Dates → Timing → Bool
is_timing dates t =
    some_and (is_iso_date dates) t.started_at
    && some_and (is_iso_date dates) t.completed_at
    && some_and is_non_negative_integer t.duration_ms

unfoldable pub is_workflow_task_provenance : WorkflowTaskProvenance → Bool
is_workflow_task_provenance p =
    is_uuid p.workflow_id
    && is_uuid p.execution_id
    && is_sha256 p.stage_contract_sha256
    && none_or is_uuid p.source_run_id

unfoldable pub workflow_provenance_equals :
    Option WorkflowTaskProvenance → Option WorkflowTaskProvenance → Bool
workflow_provenance_equals none right = is_none right
workflow_provenance_equals (some left) none = false
workflow_provenance_equals (some left) (some right) =
    left.workflow_id == right.workflow_id
    && left.stage == right.stage
    && left.execution_id == right.execution_id
    && left.stage_contract_sha256 == right.stage_contract_sha256
    && left.source_run_id == right.source_run_id

unfoldable pub is_unique_bounded_string_array : List String → ℕ → ℕ → Bool
is_unique_bounded_string_array xs max_items max_item_length =
    is_bounded_string_array xs 0 max_items max_item_length
    && ltb 0 (length xs)
    && nat_beq (length (unique xs)) (length xs)

unfoldable pub is_evaluation_dimension_ids : List EvaluationDimensionId → Bool
is_evaluation_dimension_ids xs = leb (length xs) 16 && nat_beq (length (unique xs)) (length xs)

unfoldable pub are_evaluation_dimension_sets_disjoint :
    List EvaluationDimensionId → List EvaluationDimensionId → Bool
are_evaluation_dimension_sets_disjoint first second =
    is_evaluation_dimension_ids first
    && is_evaluation_dimension_ids second
    && all (λ dimension. not (contains second dimension)) first

unfoldable pub is_task_created : Dates → ℕ → ℕ → TaskCreated → Bool
is_task_created dates version sequence e =
    sequence == 1
    && has_key (leb 7 version) e.execution_started_at
    && has_key (leb 4 version) e.policy_sha256
    && has_key (leb 4 version) e.policy_source_count
    && (leb 7 version || has_key (leb 6 version) e.workflow_provenance)
    && is_bounded_string e.objective 4000
    && is_bounded_string e.repository_path 4096
    && is_bounded_string e.base_commit 1024
    && (ltb version 7 || some_and (is_iso_date dates) e.execution_started_at)
    && (ltb version 4
        || (some_and is_sha256 e.policy_sha256
            && some_and (λ n. is_integer_in_range n 0 2) e.policy_source_count))
    && (not (version == 6) || some_and is_workflow_task_provenance e.workflow_provenance)
    && (ltb version 7 || none_or is_workflow_task_provenance e.workflow_provenance)

-- The evidence of the route that a version from 5 on has.
unfoldable pub is_route_evidence : RouteSelected → Bool
is_route_evidence e =
    some_and is_sha256 e.evidence_sha256
    && some_and (λ n. is_integer_in_range n 0 100) e.evidence_task_count
    && some_and (λ n. is_integer_in_range n 0 800) e.evidence_attempt_count
    && some_and is_sha256 e.decision_sha256

unfoldable pub is_route_selected : Dates → ℕ → RouteSelected → Bool
is_route_selected dates version e =
    has_timing_keys (leb 7 version) e.timing
    && has_key (leb 5 version) e.evidence_sha256
    && has_key (leb 5 version) e.evidence_task_count
    && has_key (leb 5 version) e.evidence_attempt_count
    && has_key (leb 5 version) e.decision_sha256
    && is_bounded_string_array e.candidate_worker_ids 0 64 64
    && not (nat_beq (length e.candidate_worker_ids) 0)
    && nat_beq (length (unique e.candidate_worker_ids)) (length e.candidate_worker_ids)
    && is_integer_in_range e.max_attempts 1 8
    && leb e.max_attempts (length e.candidate_worker_ids)
    && (ltb version 7 || is_timing dates e.timing)
    && (ltb version 5 || is_route_evidence e)

unfoldable pub is_worker_started : WorkerStarted → Bool
is_worker_started e =
    is_uuid e.run_id && is_bounded_string e.worker_id 64 && is_integer_in_range e.attempt_number 1 8

unfoldable pub is_model_turn_completed : Dates → ℕ → ModelTurnCompleted → Bool
is_model_turn_completed dates version e =
    leb 7 version
    && has_timing_keys true e.timing
    && is_uuid e.run_id
    && is_integer_in_range e.iteration 1 64
    && is_integer_in_range e.tool_call_count 0 32
    && (not (e.outcome == CallOutcome.failed) || nat_beq e.tool_call_count 0)
    && is_timing dates e.timing

unfoldable pub is_tool_called : Dates → ℕ → ToolCalled → Bool
is_tool_called dates version e =
    has_key (leb 7 version) e.timing.started_at
    && has_key (leb 7 version) e.timing.completed_at
    && has_key true e.timing.duration_ms
    && is_uuid e.run_id
    && is_bounded_string e.tool_name 100
    && (if leb 7 version
        then is_integer_in_range e.iteration 1 64
        else is_positive_integer e.iteration)
    && is_non_negative_integer e.input_bytes
    && is_non_negative_integer e.output_bytes
    && some_and is_non_negative_integer e.timing.duration_ms
    && (ltb version 7 || is_timing dates e.timing)

unfoldable pub is_worker_completed : WorkerCompleted → Bool
is_worker_completed e =
    is_uuid e.run_id
    && none_or (λ s. is_bounded_string s 200) e.failure_code
    && not (xor (e.outcome == succeeded) (is_none e.failure_code))
    && is_non_negative_integer e.request_count

unfoldable pub is_patch_produced : PatchProduced → Bool
is_patch_produced e =
    is_uuid e.run_id
    && is_sha256 e.patch_sha256
    && is_positive_integer e.patch_bytes
    && is_integer_in_range e.changed_file_count 1 10000

unfoldable pub is_validation_completed : Dates → ℕ → ValidationCompleted → Bool
is_validation_completed dates version e =
    has_timing_keys (leb 7 version) e.timing
    && is_uuid e.run_id
    && is_integer_in_range e.command_count 0 20
    && (not (e.outcome == skipped) || nat_beq e.command_count 0)
    && (not (e.outcome == ValidationOutcome.passed) || not (nat_beq e.command_count 0))
    && (ltb version 7 || is_timing dates e.timing)

-- An evaluation's outcome is the one that its lists of dimensions give.
unfoldable pub is_consistent_evaluation : EvaluationCompleted → Bool
is_consistent_evaluation e =
    (not (e.outcome == EvaluationOutcome.passed)
      || (nat_beq (length e.failed_dimensions) 0 && nat_beq (length e.unknown_dimensions) 0))
    && (not (e.outcome == EvaluationOutcome.failed) || not (nat_beq (length e.failed_dimensions) 0))
    && (not (e.outcome == inconclusive)
        || (nat_beq (length e.failed_dimensions) 0
            && not (nat_beq (length e.unknown_dimensions) 0)))

unfoldable pub is_evaluation_completed : Dates → ℕ → EvaluationCompleted → Bool
is_evaluation_completed dates version e =
    leb 2 version
    && has_timing_keys (leb 7 version) e.timing
    && has_key (leb 3 version) e.evaluation_policy
    && is_uuid e.run_id
    && is_unique_bounded_string_array e.evaluator_ids 8 100
    && get_elem? e.evaluator_ids 0 == some "deterministic-v1"
    && is_evaluation_dimension_ids e.failed_dimensions
    && is_evaluation_dimension_ids e.unknown_dimensions
    && are_evaluation_dimension_sets_disjoint e.failed_dimensions e.unknown_dimensions
    && is_consistent_evaluation e
    && (ltb version 7 || is_timing dates e.timing)

unfoldable pub is_attempt_completed : Dates → ℕ → AttemptCompleted → Bool
is_attempt_completed dates version e =
    has_key (leb 7 version) e.timing.started_at
    && has_key (leb 7 version) e.timing.completed_at
    && has_key (leb 5 version) e.timing.duration_ms
    && has_key (leb 5 version) e.provider_latency_ms
    && has_key (leb 5 version) e.total_tokens
    && has_key (leb 5 version) e.estimated_cost_micro_usd
    && is_uuid e.run_id
    && none_or (λ s. is_bounded_string s 200) e.failure_code
    && (ltb version 7 || is_timing dates e.timing)
    && (ltb version 5
        || (some_and is_non_negative_integer e.timing.duration_ms
            && some_and is_non_negative_integer e.provider_latency_ms
            && some_and is_non_negative_integer e.total_tokens
            && some_and (none_or is_non_negative_integer) e.estimated_cost_micro_usd))

unfoldable pub is_task_completed : Dates → ℕ → TaskCompleted → Bool
is_task_completed dates version e =
    has_key false e.timing.started_at
    && has_key (leb 7 version) e.timing.completed_at
    && has_key (leb 7 version) e.timing.duration_ms
    && none_or is_uuid e.run_id
    && (ltb version 7
        || (some_and (is_iso_date dates) e.timing.completed_at
            && some_and is_non_negative_integer e.timing.duration_ms))

-- The `switch` on the event's type.
unfoldable pub is_task_event_data : Dates → ℕ → ℕ → TaskEventData → Bool
is_task_event_data dates version sequence (task_created e) =
    is_task_created dates version sequence e
is_task_event_data dates version sequence (route_selected e) = is_route_selected dates version e
is_task_event_data dates version sequence (worker_started e) = is_worker_started e
is_task_event_data dates version sequence (model_turn_completed e) =
    is_model_turn_completed dates version e
is_task_event_data dates version sequence (tool_called e) = is_tool_called dates version e
is_task_event_data dates version sequence (worker_completed e) = is_worker_completed e
is_task_event_data dates version sequence (patch_produced e) = is_patch_produced e
is_task_event_data dates version sequence (validation_completed e) =
    is_validation_completed dates version e
is_task_event_data dates version sequence (evaluation_completed e) =
    is_evaluation_completed dates version e
is_task_event_data dates version sequence (attempt_completed e) =
    is_attempt_completed dates version e
is_task_event_data dates version sequence (task_completed e) = is_task_completed dates version e
is_task_event_data dates version sequence (patch_application_requested run_id) = is_uuid run_id
is_task_event_data dates version sequence (patch_approved run_id) = is_uuid run_id
is_task_event_data dates version sequence (patch_applied run_id files) =
    is_uuid run_id && is_integer_in_range files 1 10000
is_task_event_data dates version sequence (patch_application_rejected run_id failure) =
    is_uuid run_id && is_bounded_string failure 200

unfoldable pub is_task_envelope : Dates → TaskEvent → String → ℕ → Bool
is_task_envelope dates event task_id sequence =
    is_integer_in_range event.schema_version 1 7
    && is_uuid event.event_id
    && event.task_id == task_id
    && event.sequence == sequence
    && is_iso_date dates event.occurred_at
    && (if sequence == 1
        then is_none event.previous_event_sha256
        else some_and is_sha256 event.previous_event_sha256)

abbrev pub invalid_task_journal : HarnessError
invalid_task_journal = harness_error "INVALID_TASK_JOURNAL"

-- `validateTaskEvent`: the event is returned where it is valid.
unfoldable pub validate_task_event : Dates → TaskEvent → String → ℕ → Result TaskEvent
validate_task_event dates event task_id sequence = do
  throw_if (not (is_task_envelope dates event task_id sequence)) invalid_task_journal
  throw_if (not (is_task_event_data dates event.schema_version sequence event.payload))
      invalid_task_journal
  ok event
