-- ===== src/Evaluation.antt =====
-- evaluation/: what a run is worth. Commands is `classifyValidationCommand`, Deterministic the evaluator,
-- Schema the tests of a result and of a summary, Recording what worker/service.ts makes of the results.
-- Texts has the summary and the evidence of each dimension.
pub mod Commands
pub mod Texts
pub mod Deterministic
pub mod Schema
pub mod Recording
pub mod Meaning
pub mod Bounds
pub mod Valid
pub mod Consistent
pub mod Tests
use agent_harness_os.Base.{
  ℕ, String, ◌≡◌, ◌↔◌, Bool, true, false, Option, List, arith, nat_beq, Eq, eq_by_tag,
}
use agent_harness_os.Task.Types.{EvaluationOutcome, EvaluationDimensionId}
use agent_harness_os.Domain.{RunStatus, CommandSpec}

pub data DimensionStatus : Type 0 where
  passed failed unknown not_applicable : DimensionStatus

abbrev pub dimension_status_tag : DimensionStatus → ℕ
dimension_status_tag DimensionStatus.passed = 0
dimension_status_tag DimensionStatus.failed = 1
dimension_status_tag unknown = 2
dimension_status_tag not_applicable = 3

pub dimension_status_tag_iff :
    (a b : DimensionStatus)
    → (nat_beq (dimension_status_tag a) (dimension_status_tag b) ≡ true) ↔ (a ≡ b)
dimension_status_tag_iff a b = ground arith

instance abbrev pub dimension_status_eq : Eq DimensionStatus
dimension_status_eq = eq_by_tag dimension_status_tag dimension_status_tag_iff

pub record DimensionResult : Type 0 where
  pub id : EvaluationDimensionId
  pub status : DimensionStatus
  pub summary : String
  pub evidence : List String

pub data EvaluatorKind : Type 0 where
  deterministic model : EvaluatorKind

abbrev pub is_deterministic : EvaluatorKind → Bool
is_deterministic deterministic = true
is_deterministic model = false

pub record EvaluationResult : Type 0 where
  pub evaluator_id : String
  pub evaluator_kind : EvaluatorKind
  pub evaluated_at : String
  pub outcome : EvaluationOutcome
  pub dimensions : List DimensionResult

pub record EvaluationSummary : Type 0 where
  pub evaluated_at : String
  pub outcome : EvaluationOutcome
  pub results : List EvaluationResult

-- The status of an acceptance criterion.
pub data CriterionStatus : Type 0 where
  passed failed unknown : CriterionStatus

pub record AcceptanceCriterionResult : Type 0 where
  pub criterion : String
  pub criterion_status : CriterionStatus

abbrev pub is_failed_status : CriterionStatus → Bool
is_failed_status CriterionStatus.failed = true
is_failed_status _ = false

abbrev pub is_passed_status : CriterionStatus → Bool
is_passed_status CriterionStatus.passed = true
is_passed_status _ = false

abbrev pub is_criterion_failed : AcceptanceCriterionResult → Bool
is_criterion_failed c = is_failed_status c.criterion_status

abbrev pub is_criterion_passed : AcceptanceCriterionResult → Bool
is_criterion_passed c = is_passed_status c.criterion_status

pub record CommandResult : Type 0 where
  pub exit_code : Option ℕ
  pub signal : Option String
  pub stdout : String
  pub stderr : String
  pub timed_out : Bool
  pub output_truncated : Bool

-- The fields of `EvaluationInput` that the deterministic evaluator reads.
pub record EvaluationInput : Type 0 where
  pub run_status : RunStatus
  pub failure_code : Option String
  pub required_commands : List CommandSpec
  pub command_results : List CommandResult
  pub changed_files : List String
  pub patch_bytes : ℕ
  pub acceptance_criteria : List AcceptanceCriterionResult
  pub policy_violations : List String
  pub warnings : List String
  pub max_changed_files : ℕ
  pub max_patch_bytes : ℕ
