-- ===== src/Workflow/Types.antt =====
-- The workflow types of domain/types.ts, and `WorkflowProjection` of workflow/event-model.ts.
use agent_harness_os.Base.{
  ℕ, String, ◌≡◌, ◌↔◌, Bool, true, Option, some, List, arith, nat_beq, if◌then◌else◌, Eq, ◌==◌,
  nat_eq, eq_by_tag, string_eq, option_eq,
}
use agent_harness_os.Domain.{
  WorkerRoutingPolicy, RunStatus, CommandSpec, worker_mode_eq, capability_eq, run_status_eq,
}

pub data WorkerStageName : Type 0 where
  plan implement test review repair : WorkerStageName

pub data StageName : Type 0 where
  worker : WorkerStageName → StageName
  approval : StageName

pub record WorkerStage : Type 0 where
  pub objective : String
  pub allowed_paths : List String
  pub prohibited_paths : List String
  pub acceptance_criteria : List String
  pub required_commands : List CommandSpec
  pub max_iterations : ℕ
  pub timeout_seconds : ℕ
  pub allow_network : Bool
  pub routing : WorkerRoutingPolicy
  pub retry_limit : ℕ

pub record Stages : Type 0 where
  pub plan_stage : Option WorkerStage
  pub implement_stage : WorkerStage
  pub test_stage : Option WorkerStage
  pub review_stage : Option WorkerStage
  pub repair_stage : Option WorkerStage

pub record Definition : Type 0 where
  pub objective : String
  pub repository_path : String
  pub base_commit : String
  pub deadline_at : String
  pub max_transitions : ℕ
  pub max_repair_attempts : ℕ
  pub dependency_workflow_ids : List String
  pub stages : Stages

-- `definition.stages[stage]`
abbrev pub stage_of : Definition → WorkerStageName → Option WorkerStage
stage_of d plan = d.stages.plan_stage
stage_of d implement = some d.stages.implement_stage
stage_of d test = d.stages.test_stage
stage_of d review = d.stages.review_stage
stage_of d repair = d.stages.repair_stage

pub data Status : Type 0 where
  pending running waiting_for_dependency waiting_for_approval : Status
  completed failed blocked timed_out cancelled : Status

pub data Decision : Type 0 where
  approved rejected : Decision

pub data DependencyState : Type 0 where
  waiting ready : DependencyState

pub data InterruptReason : Type 0 where
  resume cancel deadline : InterruptReason

-- The statuses that a `WorkflowCompleted` event can carry.
pub data FinalStatus : Type 0 where
  completed failed blocked timed_out cancelled : FinalStatus

abbrev pub final_status : FinalStatus → Status
final_status FinalStatus.completed = Status.completed
final_status FinalStatus.failed = Status.failed
final_status FinalStatus.blocked = Status.blocked
final_status FinalStatus.timed_out = Status.timed_out
final_status FinalStatus.cancelled = Status.cancelled

-- `Partial<Record<WorkflowWorkerStageName, number>>`
abbrev pub StageCounts : Type 0
StageCounts = WorkerStageName → Option ℕ

pub record Summary : Type 0 where
  pub workflow_id : String
  pub objective : String
  pub repository_path : String
  pub base_commit : String
  pub created_at : String
  pub updated_at : String
  pub deadline_at : String
  pub status : Status
  pub current_stage : Option StageName
  pub active_execution_id : Option String
  pub candidate_run_id : Option String
  pub transition_count : ℕ
  pub repair_attempt_count : ℕ
  pub stage_attempts : StageCounts
  pub approval_decision : Option Decision
  pub last_failure_code : Option String
  pub event_count : ℕ
  pub latest_event_sha256 : String

pub record Projection : Type 0 where
  pub definition : Definition
  pub summary : Summary
  pub approval_requested : Bool
  pub retry_transitions : StageCounts

pub record Started : Type 0 where
  pub stage : WorkerStageName
  pub execution_id : String
  pub attempt_number : ℕ
  pub source_run_id : Option String

pub record StageResult : Type 0 where
  pub stage : WorkerStageName
  pub execution_id : String
  pub task_id : Option String
  pub run_id : Option String
  pub status : RunStatus
  pub failure_code : Option String
  pub candidate_run_id : Option String
  pub next_stage : Option StageName

-- An event's `type` with its `data`.
pub data EventData : Type 0 where
  workflow_created : Definition → EventData
  stage_started : Started → EventData
  stage_interrupted : WorkerStageName → String → InterruptReason → EventData
  dependency_state_changed : DependencyState → EventData
  stage_completed : StageResult → EventData
  approval_requested : String → EventData
  approval_decided : Decision → String → Option StageName → EventData
  workflow_completed : FinalStatus → Option String → Option String → EventData

pub record Event : Type 0 where
  pub event_id : String
  pub workflow_id : String
  pub sequence : ℕ
  pub occurred_at : String
  pub previous_event_sha256 : Option String
  pub payload : EventData

abbrev pub worker_stage_tag : WorkerStageName → ℕ
worker_stage_tag plan = 0
worker_stage_tag implement = 1
worker_stage_tag test = 2
worker_stage_tag review = 3
worker_stage_tag repair = 4

pub worker_stage_tag_iff :
    (a b : WorkerStageName) → (nat_beq (worker_stage_tag a) (worker_stage_tag b) ≡ true) ↔ (a ≡ b)
worker_stage_tag_iff a b = ground arith

instance abbrev pub worker_stage_eq : Eq WorkerStageName
worker_stage_eq = eq_by_tag worker_stage_tag worker_stage_tag_iff

abbrev pub stage_tag : StageName → ℕ
stage_tag (worker plan) = 0
stage_tag (worker implement) = 1
stage_tag (worker test) = 2
stage_tag (worker review) = 3
stage_tag (worker repair) = 4
stage_tag approval = 5

pub stage_tag_iff : (a b : StageName) → (nat_beq (stage_tag a) (stage_tag b) ≡ true) ↔ (a ≡ b)
stage_tag_iff a b = ground arith

instance abbrev pub stage_eq : Eq StageName
stage_eq = eq_by_tag stage_tag stage_tag_iff

abbrev pub status_tag : Status → ℕ
status_tag Status.pending = 0
status_tag Status.running = 1
status_tag Status.waiting_for_dependency = 2
status_tag Status.waiting_for_approval = 3
status_tag Status.completed = 4
status_tag Status.failed = 5
status_tag Status.blocked = 6
status_tag Status.timed_out = 7
status_tag Status.cancelled = 8

pub status_tag_iff : (a b : Status) → (nat_beq (status_tag a) (status_tag b) ≡ true) ↔ (a ≡ b)
status_tag_iff a b = ground arith

instance abbrev pub status_eq : Eq Status
status_eq = eq_by_tag status_tag status_tag_iff

abbrev pub decision_tag : Decision → ℕ
decision_tag approved = 0
decision_tag rejected = 1

pub decision_tag_iff :
    (a b : Decision) → (nat_beq (decision_tag a) (decision_tag b) ≡ true) ↔ (a ≡ b)
decision_tag_iff a b = ground arith

instance abbrev pub decision_eq : Eq Decision
decision_eq = eq_by_tag decision_tag decision_tag_iff

-- A count with one stage's entry replaced.
abbrev pub with_count : StageCounts → WorkerStageName → ℕ → StageCounts
with_count counts s n t = if t == s then some n else counts t
