-- ===== src/Task/Types.antt =====
-- The task types of domain/types.ts, and `TaskEventProjection` of artifacts/task-event-model.ts. A field
-- that only some schema versions have is an option.
use agent_harness_os.Base.{
  ℕ, suc, String, ◌≡◌, ◌↔◌, Bool, true, Option, List, arith, nat_beq, Eq, eq_by_tag,
}
use agent_harness_os.Domain.{WorkerMode, RoutingStrategy, RunStatus, run_status_tag}
use agent_harness_os.Workflow.Types.{WorkerStageName}

pub data CallOutcome : Type 0 where
  succeeded failed : CallOutcome

pub data ValidationOutcome : Type 0 where
  passed failed skipped : ValidationOutcome

pub data EvaluationOutcome : Type 0 where
  passed failed inconclusive : EvaluationOutcome

pub data EvaluationPolicy : Type 0 where
  default strict : EvaluationPolicy

pub data EvaluationDimensionId : Type 0 where
  worker_execution tests lint typecheck changed_files_scope : EvaluationDimensionId
  acceptance_criteria patch_size new_warnings security_policy_compliance : EvaluationDimensionId
  correctness maintainability architecture_fit test_quality : EvaluationDimensionId

pub data TaskStatus : Type 0 where
  in_progress : TaskStatus
  ended : RunStatus → TaskStatus

pub data PatchApplicationStatus : Type 0 where
  not_requested pending approved applied rejected : PatchApplicationStatus

pub record AttemptProjection : Type 0 where
  pub run_id : String
  pub worker_id : String
  pub attempt_number : ℕ
  pub last_model_iteration : ℕ
  pub model_failed : Bool
  pub model_terminal : Bool
  pub expected_tool_call_count : ℕ
  pub observed_tool_call_count : ℕ
  pub worker_completed : Bool
  pub worker_outcome : Option CallOutcome
  pub patch_sha256 : Option String
  pub patch_changed_file_count : Option ℕ
  pub validation_completed : Bool
  pub validation_outcome : Option ValidationOutcome
  pub evaluation_completed : Bool
  pub evaluation_outcome : Option EvaluationOutcome
  pub evaluation_policy : Option EvaluationPolicy
  pub status : Option RunStatus
  pub failure_code : Option String

pub record TaskSummary : Type 0 where
  pub task_id : String
  pub objective : String
  pub mode : WorkerMode
  pub repository_path : String
  pub base_commit : String
  pub created_at : String
  pub updated_at : String
  pub status : TaskStatus
  pub attempt_count : ℕ
  pub latest_run_id : Option String
  pub worker_ids : List String
  pub event_count : ℕ
  pub latest_event_sha256 : String
  pub patch_application_status : PatchApplicationStatus
  pub policy_sha256 : Option String

pub record TaskEventProjection : Type 0 where
  pub summary : TaskSummary
  pub strategy : Option RoutingStrategy
  pub candidate_worker_ids : List String
  pub max_attempts : ℕ
  pub active_attempt : Option AttemptProjection
  pub last_attempt : Option AttemptProjection
  pub known_run_ids : List String
  pub application_run_id : Option String
  pub event_schema_version : ℕ

-- `startedAt`, `completedAt` and `durationMs`, as far as an event has them.
pub record Timing : Type 0 where
  pub started_at : Option String
  pub completed_at : Option String
  pub duration_ms : Option ℕ

pub record WorkflowTaskProvenance : Type 0 where
  pub workflow_id : String
  pub stage : WorkerStageName
  pub execution_id : String
  pub stage_contract_sha256 : String
  pub source_run_id : Option String

pub record TaskCreated : Type 0 where
  pub objective : String
  pub mode : WorkerMode
  pub repository_path : String
  pub base_commit : String
  pub execution_started_at : Option String
  pub policy_sha256 : Option String
  pub policy_source_count : Option ℕ
  pub workflow_provenance : Option WorkflowTaskProvenance

pub record RouteSelected : Type 0 where
  pub strategy : RoutingStrategy
  pub candidate_worker_ids : List String
  pub max_attempts : ℕ
  pub timing : Timing
  pub evidence_sha256 : Option String
  pub evidence_task_count : Option ℕ
  pub evidence_attempt_count : Option ℕ
  pub decision_sha256 : Option String

pub record WorkerStarted : Type 0 where
  pub run_id : String
  pub worker_id : String
  pub attempt_number : ℕ

pub record ModelTurnCompleted : Type 0 where
  pub run_id : String
  pub iteration : ℕ
  pub outcome : CallOutcome
  pub tool_call_count : ℕ
  pub timing : Timing

pub record ToolCalled : Type 0 where
  pub run_id : String
  pub tool_name : String
  pub iteration : ℕ
  pub outcome : CallOutcome
  pub input_bytes : ℕ
  pub output_bytes : ℕ
  pub timing : Timing

pub record WorkerCompleted : Type 0 where
  pub run_id : String
  pub outcome : CallOutcome
  pub failure_code : Option String
  pub request_count : ℕ

pub record PatchProduced : Type 0 where
  pub run_id : String
  pub patch_sha256 : String
  pub patch_bytes : ℕ
  pub changed_file_count : ℕ

pub record ValidationCompleted : Type 0 where
  pub run_id : String
  pub outcome : ValidationOutcome
  pub command_count : ℕ
  pub timing : Timing

pub record EvaluationCompleted : Type 0 where
  pub run_id : String
  pub evaluator_ids : List String
  pub outcome : EvaluationOutcome
  pub evaluation_policy : Option EvaluationPolicy
  pub failed_dimensions : List EvaluationDimensionId
  pub unknown_dimensions : List EvaluationDimensionId
  pub timing : Timing

pub record AttemptCompleted : Type 0 where
  pub run_id : String
  pub status : RunStatus
  pub failure_code : Option String
  pub timing : Timing
  pub provider_latency_ms : Option ℕ
  pub total_tokens : Option ℕ
  -- A cost that is `null` is `some none`.
  pub estimated_cost_micro_usd : Option (Option ℕ)

pub record TaskCompleted : Type 0 where
  pub run_id : Option String
  pub status : RunStatus
  pub timing : Timing

-- An event's `type` with its `data`.
pub data TaskEventData : Type 0 where
  task_created : TaskCreated → TaskEventData
  route_selected : RouteSelected → TaskEventData
  worker_started : WorkerStarted → TaskEventData
  model_turn_completed : ModelTurnCompleted → TaskEventData
  tool_called : ToolCalled → TaskEventData
  worker_completed : WorkerCompleted → TaskEventData
  patch_produced : PatchProduced → TaskEventData
  validation_completed : ValidationCompleted → TaskEventData
  evaluation_completed : EvaluationCompleted → TaskEventData
  attempt_completed : AttemptCompleted → TaskEventData
  task_completed : TaskCompleted → TaskEventData
  patch_application_requested patch_approved : String → TaskEventData
  patch_applied : String → ℕ → TaskEventData
  patch_application_rejected : String → String → TaskEventData

pub record TaskEvent : Type 0 where
  pub schema_version : ℕ
  pub event_id : String
  pub task_id : String
  pub sequence : ℕ
  pub occurred_at : String
  pub previous_event_sha256 : Option String
  pub payload : TaskEventData

abbrev pub call_tag : CallOutcome → ℕ
call_tag succeeded = 0
call_tag CallOutcome.failed = 1

pub call_tag_iff : (a b : CallOutcome) → (nat_beq (call_tag a) (call_tag b) ≡ true) ↔ (a ≡ b)
call_tag_iff a b = ground arith

instance abbrev pub call_eq : Eq CallOutcome
call_eq = eq_by_tag call_tag call_tag_iff

abbrev pub validation_tag : ValidationOutcome → ℕ
validation_tag ValidationOutcome.passed = 0
validation_tag ValidationOutcome.failed = 1
validation_tag skipped = 2

pub validation_tag_iff :
    (a b : ValidationOutcome) → (nat_beq (validation_tag a) (validation_tag b) ≡ true) ↔ (a ≡ b)
validation_tag_iff a b = ground arith

instance abbrev pub validation_eq : Eq ValidationOutcome
validation_eq = eq_by_tag validation_tag validation_tag_iff

abbrev pub evaluation_tag : EvaluationOutcome → ℕ
evaluation_tag EvaluationOutcome.passed = 0
evaluation_tag EvaluationOutcome.failed = 1
evaluation_tag inconclusive = 2

pub evaluation_tag_iff :
    (a b : EvaluationOutcome) → (nat_beq (evaluation_tag a) (evaluation_tag b) ≡ true) ↔ (a ≡ b)
evaluation_tag_iff a b = ground arith

instance abbrev pub evaluation_eq : Eq EvaluationOutcome
evaluation_eq = eq_by_tag evaluation_tag evaluation_tag_iff

abbrev pub policy_tag : EvaluationPolicy → ℕ
policy_tag default = 0
policy_tag strict = 1

pub policy_tag_iff :
    (a b : EvaluationPolicy) → (nat_beq (policy_tag a) (policy_tag b) ≡ true) ↔ (a ≡ b)
policy_tag_iff a b = ground arith

instance abbrev pub policy_eq : Eq EvaluationPolicy
policy_eq = eq_by_tag policy_tag policy_tag_iff

abbrev pub task_status_tag : TaskStatus → ℕ
task_status_tag in_progress = 0
task_status_tag (ended s) = suc (run_status_tag s)

pub task_status_tag_iff :
    (a b : TaskStatus) → (nat_beq (task_status_tag a) (task_status_tag b) ≡ true) ↔ (a ≡ b)
task_status_tag_iff a b = ground arith

instance abbrev pub task_status_eq : Eq TaskStatus
task_status_eq = eq_by_tag task_status_tag task_status_tag_iff

abbrev pub application_tag : PatchApplicationStatus → ℕ
application_tag not_requested = 0
application_tag pending = 1
application_tag approved = 2
application_tag applied = 3
application_tag rejected = 4

pub application_tag_iff :
    (a b : PatchApplicationStatus)
    → (nat_beq (application_tag a) (application_tag b) ≡ true) ↔ (a ≡ b)
application_tag_iff a b = ground arith

instance abbrev pub application_eq : Eq PatchApplicationStatus
application_eq = eq_by_tag application_tag application_tag_iff

abbrev pub dimension_tag : EvaluationDimensionId → ℕ
dimension_tag worker_execution = 0
dimension_tag tests = 1
dimension_tag lint = 2
dimension_tag typecheck = 3
dimension_tag changed_files_scope = 4
dimension_tag acceptance_criteria = 5
dimension_tag patch_size = 6
dimension_tag new_warnings = 7
dimension_tag security_policy_compliance = 8
dimension_tag correctness = 9
dimension_tag maintainability = 10
dimension_tag architecture_fit = 11
dimension_tag test_quality = 12

pub dimension_tag_iff :
    (a b : EvaluationDimensionId) → (nat_beq (dimension_tag a) (dimension_tag b) ≡ true) ↔ (a ≡ b)
dimension_tag_iff a b = ground arith

instance abbrev pub dimension_eq : Eq EvaluationDimensionId
dimension_eq = eq_by_tag dimension_tag dimension_tag_iff
