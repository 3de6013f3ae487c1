-- ===== src/Evaluation/Deterministic.antt =====
-- evaluation/deterministic.ts: `DeterministicEvaluator`.
use agent_harness_os.Base.{
  truncate_utf8, or_text, ◌+◌, String, Bool, true, not, ◌&&◌, ◌||◌, Option, none, some, List, [],
  ◌∷◌, map, ltb, leb, nat_beq, if◌then◌else◌, ◌==◌, nat_eq, string_eq, option_eq, is_some, length,
  get_elem?, any, all, filter, contains, take,
}
use agent_harness_os.Task.Types.{
  EvaluationOutcome, inconclusive, EvaluationDimensionId, worker_execution, tests, lint, typecheck,
  changed_files_scope, acceptance_criteria, patch_size, new_warnings, security_policy_compliance,
  call_eq, validation_eq, evaluation_eq, policy_eq, task_status_eq, application_eq, dimension_eq,
}
use agent_harness_os.Domain.{RunStatus, CommandSpec, worker_mode_eq, capability_eq, run_status_eq}
use agent_harness_os.Evaluation.{
  DimensionStatus, not_applicable, dimension_status_eq, DimensionResult, deterministic,
  EvaluationResult, AcceptanceCriterionResult, is_criterion_failed, is_criterion_passed,
  CommandResult, EvaluationInput,
}
use agent_harness_os.Evaluation.Texts.{
  rest_of, put_if, is_changed_file_violation, command_warnings, dimension_evidence,
  dimension_summary,
}
use agent_harness_os.Evaluation.Commands.{classify_validation_command}

-- `deterministicEvaluationDimensionIds` of evaluation/dimensions.ts.
abbrev pub deterministic_evaluation_dimension_ids : List EvaluationDimensionId
deterministic_evaluation_dimension_ids =
    worker_execution ∷ tests ∷ lint ∷ typecheck ∷ changed_files_scope ∷ acceptance_criteria
    ∷ patch_size ∷ new_warnings ∷ security_policy_compliance ∷ []

-- `commandFailed`: a result that is missing failed.
unfoldable pub command_failed : Option CommandResult → Bool
command_failed none = true
command_failed (some r) = not (r.exit_code == some 0) || is_some r.signal || r.timed_out

-- The results at the indices of the commands of a dimension.
unfoldable pub matching_results :
    EvaluationDimensionId → List CommandSpec → List CommandResult → List (Option CommandResult)
matching_results d [] results = []
matching_results d (c ∷ cs) results =
    put_if (contains (classify_validation_command c) d) (get_elem? results 0)
      (matching_results d cs (rest_of results))

abbrev pub status_of_results : List (Option CommandResult) → DimensionStatus
status_of_results [] = not_applicable
status_of_results (r ∷ rs) =
    if any command_failed (r ∷ rs) then DimensionStatus.failed else DimensionStatus.passed

unfoldable pub evaluate_commands : EvaluationDimensionId → EvaluationInput → DimensionStatus
evaluate_commands d input =
    status_of_results (matching_results d input.required_commands input.command_results)

unfoldable pub evaluate_changed_files : EvaluationInput → DimensionStatus
evaluate_changed_files input =
    let scope_violations = filter is_changed_file_violation input.policy_violations in
    if nat_beq (length input.changed_files) 0 && nat_beq (length scope_violations) 0
    then not_applicable
    else if ltb input.max_changed_files (length input.changed_files)
        || ltb 0 (length scope_violations)
    then DimensionStatus.failed
    else DimensionStatus.passed

abbrev pub criteria_status : List AcceptanceCriterionResult → DimensionStatus
criteria_status [] = not_applicable
criteria_status (c ∷ cs) =
    if any is_criterion_failed (c ∷ cs)
    then DimensionStatus.failed
    else if all is_criterion_passed (c ∷ cs)
    then DimensionStatus.passed
    else DimensionStatus.unknown

unfoldable pub evaluate_acceptance_criteria : EvaluationInput → DimensionStatus
evaluate_acceptance_criteria input = criteria_status input.acceptance_criteria

unfoldable pub evaluate_patch_size : EvaluationInput → DimensionStatus
evaluate_patch_size input =
    if input.failure_code == some "PATCH_TOO_LARGE"
      || input.failure_code == some "ARTIFACT_FILE_TOO_LARGE"
    then DimensionStatus.failed
    else if nat_beq input.patch_bytes 0
    then not_applicable
    else if leb input.patch_bytes input.max_patch_bytes
    then DimensionStatus.passed
    else DimensionStatus.failed

unfoldable pub evaluate_warnings : EvaluationInput → DimensionStatus
evaluate_warnings input =
    if nat_beq (length input.warnings + command_warnings input.command_results) 0
      && nat_beq (length (filter (λ r. r.output_truncated) input.command_results)) 0
    then DimensionStatus.passed
    else DimensionStatus.unknown

-- `evaluateDimension`, by the dimension's status.
unfoldable pub evaluate_dimension : EvaluationInput → EvaluationDimensionId → DimensionStatus
evaluate_dimension input worker_execution =
    if input.run_status == RunStatus.completed
    then DimensionStatus.passed
    else DimensionStatus.failed
evaluate_dimension input tests = evaluate_commands tests input
evaluate_dimension input lint = evaluate_commands lint input
evaluate_dimension input typecheck = evaluate_commands typecheck input
evaluate_dimension input changed_files_scope = evaluate_changed_files input
evaluate_dimension input acceptance_criteria = evaluate_acceptance_criteria input
evaluate_dimension input patch_size = evaluate_patch_size input
evaluate_dimension input new_warnings = evaluate_warnings input
evaluate_dimension input security_policy_compliance =
    if nat_beq (length input.policy_violations) 0
    then DimensionStatus.passed
    else DimensionStatus.failed
evaluate_dimension input _ = not_applicable

abbrev pub has_status : DimensionStatus → List DimensionResult → Bool
has_status s dimensions = any (λ d. d.status == s) dimensions

unfoldable pub get_outcome : List DimensionResult → EvaluationOutcome
get_outcome dimensions =
    if has_status DimensionStatus.failed dimensions
    then EvaluationOutcome.failed
    else if has_status DimensionStatus.unknown dimensions
    then inconclusive
    else EvaluationOutcome.passed

-- `result`: the texts are cut to their limits, and a piece of evidence that is empty is named.
abbrev pub result : EvaluationDimensionId → DimensionStatus → String → List String → DimensionResult
result id status summary evidence = record {
  id = id;
  status = status;
  summary = truncate_utf8 summary 500;
  evidence =
      map (λ value. or_text (truncate_utf8 value 1000) "[empty evidence]") (take 20 evidence);
}

abbrev pub evaluated_dimension : EvaluationInput → EvaluationDimensionId → DimensionResult
evaluated_dimension input d =
    result d (evaluate_dimension input d) (dimension_summary input d (evaluate_dimension input d))
      (dimension_evidence input d)

abbrev pub evaluate_dimensions : EvaluationInput → List DimensionResult
evaluate_dimensions input = map (evaluated_dimension input) deterministic_evaluation_dimension_ids

-- `evaluate` at a time.
unfoldable pub evaluate : EvaluationInput → String → EvaluationResult
evaluate input evaluated_at = record {
  evaluator_id = "deterministic-v1";
  evaluator_kind = deterministic;
  evaluated_at = evaluated_at;
  outcome = get_outcome (evaluate_dimensions input);
  dimensions = evaluate_dimensions input;
}
