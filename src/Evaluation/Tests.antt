-- ===== src/Evaluation/Tests.antt =====
-- evaluation/: a run whose tests passed, one whose tests failed, and two evaluators that disagree.
use agent_harness_os.Base.{
  same_text, concat, join_with_space, decimal_digits, ℕ, ◌+◌, ◌≤◌, String, ◌≡◌, refl, sym, ◌⊎◌,
  true, false, false≢true, none, some, [], ◌∷◌, arith, nat_eq, string_eq, option_eq, length,
  get_elem?, all, contains, ok,
}
use agent_harness_os.Task.Types.{
  succeeded, ValidationOutcome, EvaluationOutcome, default, strict, EvaluationDimensionId, tests,
  lint, typecheck, new_warnings, AttemptProjection, Timing, AttemptCompleted, call_eq,
  validation_eq, evaluation_eq, policy_eq, task_status_eq, application_eq, dimension_eq,
}
use agent_harness_os.Domain.{RunStatus, CommandSpec, worker_mode_eq, capability_eq, run_status_eq}
use agent_harness_os.Workflow.Definition.{Dates}
use agent_harness_os.Task.Attempts.{attempt_contradicted}
use agent_harness_os.Task.Projection.{new_attempt}
use agent_harness_os.Task.Validation.{
  is_evaluation_dimension_ids, are_evaluation_dimension_sets_disjoint, is_consistent_evaluation,
}
use agent_harness_os.Evaluation.{
  DimensionStatus, dimension_status_eq, model, EvaluationResult, EvaluationSummary, CriterionStatus,
  AcceptanceCriterionResult, is_criterion_passed, CommandResult, EvaluationInput,
}
use agent_harness_os.Evaluation.Texts.{
  is_changed_file_violation, count_warnings_after, count_warnings, command_warnings,
  commands_evidence, dimension_evidence, dimension_summary,
}
use agent_harness_os.Evaluation.Commands.{
  command_name, package_script, has_part, classify_validation_command,
}
use agent_harness_os.Evaluation.Deterministic.{
  command_failed, matching_results, evaluate_commands, evaluate_changed_files,
  evaluate_acceptance_criteria, evaluate_patch_size, evaluate_warnings, evaluate_dimension,
  get_outcome, evaluate,
}
use agent_harness_os.Evaluation.Schema.{
  are_valid_dimensions, expected_outcome, validate_evaluation_result, validate_results,
  joint_outcome, is_deterministic_first, validate_evaluation_summary,
}
use agent_harness_os.Evaluation.Recording.{
  aggregate_evaluation_results, collect_dimension_ids, evaluation_event, status_after_evaluation,
}
use agent_harness_os.Evaluation.Meaning.{evaluate-passed}
use agent_harness_os.Evaluation.Valid.{evaluate-valid, settled_attempt_accepted}
use agent_harness_os.Evaluation.Consistent.{evaluation_event-consistent}

abbrev all_dates : Dates
all_dates = record { parses = λ s. true; to_iso_string = λ s. s }

abbrev test_command : CommandSpec
test_command = record { command = "npm"; args = "run" ∷ "test" ∷ []; timeout_ms = none }

abbrev exits : ℕ → CommandResult
exits n = record {
  exit_code = some n;
  signal = none;
  stdout = "ok";
  stderr = "";
  timed_out = false;
  output_truncated = false;
}

abbrev met : AcceptanceCriterionResult
met = record { criterion = "The tests pass"; criterion_status = CriterionStatus.passed }

abbrev input_with : CommandResult → EvaluationInput
input_with r = record {
  run_status = RunStatus.completed;
  failure_code = none;
  required_commands = test_command ∷ [];
  command_results = r ∷ [];
  changed_files = "src/a.ts" ∷ [];
  patch_bytes = 10;
  acceptance_criteria = met ∷ [];
  policy_violations = [];
  warnings = [];
  max_changed_files = 20;
  max_patch_bytes = 1000;
}

failed_evidence :
    dimension_evidence (input_with (exits 1)) tests
    ≡ "npm run test: exit=1 signal=none timedOut=false" ∷ []
unfolding dimension_evidence commands_evidence concat join_with_space decimal_digits
    classify_validation_command command_name package_script has_part
failed_evidence = refl

npm_test : classify_validation_command test_command ≡ tests ∷ []
unfolding classify_validation_command command_name package_script has_part
npm_test = refl

warnings_counted : count_warnings "warning: a Warning, no warnings" ≡ 2
unfolding count_warnings_after
warnings_counted = refl

passed_run : (evaluate (input_with (exits 0)) "now").outcome ≡ EvaluationOutcome.passed
unfolding evaluate get_outcome evaluate_dimension evaluate_commands matching_results command_failed
    evaluate_changed_files evaluate_acceptance_criteria evaluate_patch_size evaluate_warnings
    command_warnings count_warnings_after classify_validation_command command_name package_script
    has_part same_text
passed_run = refl

failed_run : (evaluate (input_with (exits 1)) "now").outcome ≡ EvaluationOutcome.failed
unfolding evaluate get_outcome evaluate_dimension evaluate_commands matching_results command_failed
    evaluate_changed_files evaluate_acceptance_criteria evaluate_patch_size evaluate_warnings
    command_warnings count_warnings_after classify_validation_command command_name package_script
    has_part same_text
failed_run = refl

evaluate-passed_example :
    (RunStatus.completed ≡ RunStatus.completed)
    × (length {A = String} [] ≡ 0)
    × (1 ≤ 20)
    × (10 ≤ 1000)
    × (all is_criterion_passed (met ∷ []) ≡ true)
    × (0 + command_warnings (exits 0 ∷ []) ≡ 0)
    × ((d : EvaluationDimensionId) (i : ℕ) (c : CommandSpec)
        → (d ≡ tests) ⊎ ((d ≡ lint) ⊎ (d ≡ typecheck))
        → get_elem? (test_command ∷ []) i ≡ some c
        → contains (classify_validation_command c) d ≡ true
        → (r : CommandResult) × (get_elem? (exits 0 ∷ []) i ≡ some r)
          × (r.exit_code ≡ some 0)
          × (r.signal ≡ none)
          × (r.timed_out ≡ false))
evaluate-passed_example = evaluate-passed (input_with (exits 0)) "now" passed_run

evaluate-valid_example :
    validate_evaluation_result all_dates
      (some "deterministic-v1")
      (evaluate (input_with (exits 1)) "now")
    ≡ ok tt
evaluate-valid_example = evaluate-valid all_dates (input_with (exits 1)) "now" refl

abbrev one_result : EvaluationSummary
one_result = aggregate_evaluation_results "now" (evaluate (input_with (exits 1)) "now" ∷ [])

one_result_valid : validate_evaluation_summary all_dates (λ s. 100) one_result ≡ ok tt
unfolding validate_evaluation_summary validate_results validate_evaluation_result
    are_valid_dimensions expected_outcome is_deterministic_first joint_outcome
    aggregate_evaluation_results evaluate get_outcome evaluate_dimension evaluate_commands
    matching_results command_failed evaluate_changed_files evaluate_acceptance_criteria
    evaluate_patch_size evaluate_warnings command_warnings count_warnings_after
    classify_validation_command command_name package_script has_part same_text dimension_summary
    dimension_evidence commands_evidence concat join_with_space decimal_digits
    is_changed_file_violation
one_result_valid = refl

abbrev no_time : Timing
no_time = record { started_at = none; completed_at = none; duration_ms = none }

evaluation_event-consistent_example :
    is_consistent_evaluation (evaluation_event "run" strict no_time one_result) ≡ true
evaluation_event-consistent_example =
    evaluation_event-consistent all_dates (λ s. 100) one_result "run" strict no_time
      one_result_valid

-- A second evaluator that knows more of a dimension which the deterministic one left unknown.
abbrev warned_input : EvaluationInput
warned_input = record (input_with (exits 0)) { warnings = "careful" ∷ [] }

abbrev second_opinion : EvaluationResult
second_opinion = record {
  evaluator_id = "model-v1";
  evaluator_kind = model;
  evaluated_at = "now";
  outcome = EvaluationOutcome.failed;
  dimensions =
      record {
        id = new_warnings;
        status = DimensionStatus.failed;
        summary = "Too many warnings";
        evidence = "The log" ∷ [];
      }
      ∷ [];
}

abbrev disagreement : EvaluationSummary
disagreement =
    aggregate_evaluation_results "now" (evaluate warned_input "now" ∷ second_opinion ∷ [])

-- The summary is valid, and the event that records it is not.
disagreement_refused :
    (validate_evaluation_summary all_dates (λ s. 100) disagreement ≡ ok tt)
    × (are_evaluation_dimension_sets_disjoint
          (evaluation_event "run" default no_time disagreement).failed_dimensions
          (evaluation_event "run" default no_time disagreement).unknown_dimensions
        ≡ false)
unfolding validate_evaluation_summary validate_results validate_evaluation_result
    are_valid_dimensions expected_outcome is_deterministic_first joint_outcome
    aggregate_evaluation_results evaluate get_outcome evaluate_dimension evaluate_commands
    matching_results command_failed evaluate_changed_files evaluate_acceptance_criteria
    evaluate_patch_size evaluate_warnings command_warnings count_warnings_after
    classify_validation_command command_name package_script has_part same_text evaluation_event
    collect_dimension_ids are_evaluation_dimension_sets_disjoint is_evaluation_dimension_ids
    dimension_summary dimension_evidence commands_evidence concat join_with_space decimal_digits
    is_changed_file_violation
disagreement_refused = (refl, refl)

-- The attempt whose tests failed, with the worker and the evaluation that the projection has for it.
abbrev evaluated_attempt : AttemptProjection
evaluated_attempt =
    record (new_attempt (record { run_id = "run"; worker_id = "local"; attempt_number = 1 })) {
      worker_completed = true;
      worker_outcome = some succeeded;
      validation_completed = true;
      validation_outcome = some ValidationOutcome.passed;
      evaluation_completed = true;
      evaluation_outcome = some one_result.outcome;
      evaluation_policy = some default;
    }

abbrev settled_event : AttemptCompleted
settled_event = record {
  run_id = "run";
  status = (status_after_evaluation default one_result.outcome RunStatus.completed none).0;
  failure_code = (status_after_evaluation default one_result.outcome RunStatus.completed none).1;
  timing = no_time;
  provider_latency_ms = none;
  total_tokens = none;
  estimated_cost_micro_usd = none;
}

settled_attempt_accepted_example : attempt_contradicted 7 settled_event evaluated_attempt ≡ false
settled_attempt_accepted_example =
    settled_attempt_accepted (input_with (exits 1)) "now" "now" [] default none 7 evaluated_attempt
      settled_event (omega arith) refl refl (λ h. (refl, refl, refl))
      (λ h. absurd (false≢true (sym h))) refl refl
