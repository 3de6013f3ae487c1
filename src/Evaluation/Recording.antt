-- ===== src/Evaluation/Recording.antt =====
-- worker/service.ts: the evaluators of a run, the event that records what they found, and the status of the
-- attempt after them.
use agent_harness_os.Base.{
  ℕ, String, Bool, ◌&&◌, ◌||◌, Option, some, List, [], ◌∷◌, ◌++◌, map, if◌then◌else◌, ◌==◌, nat_eq,
  string_eq, option_eq, unique, Result, ok, ◌>>=◌, ◌>>◌,
}
use agent_harness_os.Task.Types.{
  EvaluationOutcome, inconclusive, EvaluationPolicy, strict, EvaluationDimensionId, Timing,
  EvaluationCompleted, call_eq, validation_eq, evaluation_eq, policy_eq, task_status_eq,
  application_eq, dimension_eq,
}
use agent_harness_os.Domain.{RunStatus, worker_mode_eq, capability_eq, run_status_eq}
use agent_harness_os.Workflow.Definition.{Dates}
use agent_harness_os.Evaluation.{
  DimensionStatus, dimension_status_eq, DimensionResult, EvaluationResult, EvaluationSummary,
  EvaluationInput,
}
use agent_harness_os.Evaluation.Deterministic.{evaluate}
use agent_harness_os.Evaluation.Schema.{
  validate_evaluation_result, joint_outcome, validate_evaluation_summary,
}

-- An evaluator, whose answer is not under the control of the service. What `evaluateWithCancellation` comes to for it
-- is its result, or the error that it threw or with which it was cancelled.
pub record Evaluator : Type 0 where
  pub evaluator_name : String
  pub run_evaluator : EvaluationInput → Result EvaluationResult

unfoldable pub aggregate_evaluation_results : String → List EvaluationResult → EvaluationSummary
aggregate_evaluation_results now results = record {
  evaluated_at = now;
  outcome = joint_outcome results;
  results = results;
}

-- The loop of `evaluateAll`.
unfoldable pub run_evaluators :
    Dates → EvaluationInput → List Evaluator → Result (List EvaluationResult)
run_evaluators dates input [] = ok []
run_evaluators dates input (e ∷ es) = do
  r ← e.run_evaluator input
  validate_evaluation_result dates (some e.evaluator_name) r
  results ← run_evaluators dates input es
  ok (r ∷ results)

unfoldable pub evaluate_all :
    Dates
    → (EvaluationSummary → ℕ)
    → String
    → List Evaluator
    → EvaluationInput
    → Result EvaluationSummary
evaluate_all dates bytes_of now evaluators input = do
  results ← run_evaluators dates input evaluators
  validate_evaluation_summary dates bytes_of (aggregate_evaluation_results now results)
  ok (aggregate_evaluation_results now results)

-- `evaluateInterrupted`: the deterministic evaluator alone.
unfoldable pub evaluate_interrupted :
    Dates → (EvaluationSummary → ℕ) → String → EvaluationInput → Result EvaluationSummary
evaluate_interrupted dates bytes_of now input = do
  validate_evaluation_result dates (some "deterministic-v1") (evaluate input now)
  validate_evaluation_summary dates bytes_of
      (aggregate_evaluation_results now (evaluate input now ∷ []))
  ok (aggregate_evaluation_results now (evaluate input now ∷ []))

abbrev pub ids_with : DimensionStatus → List DimensionResult → List EvaluationDimensionId
ids_with s [] = []
ids_with s (d ∷ ds) = if d.status == s then d.id ∷ ids_with s ds else ids_with s ds

abbrev pub all_ids_with : DimensionStatus → List EvaluationResult → List EvaluationDimensionId
all_ids_with s [] = []
all_ids_with s (r ∷ rs) = ids_with s r.dimensions ++ all_ids_with s rs

unfoldable pub collect_dimension_ids :
    EvaluationSummary → DimensionStatus → List EvaluationDimensionId
collect_dimension_ids evaluation s = unique (all_ids_with s evaluation.results)

-- The data of `EvaluationCompleted`.
unfoldable pub evaluation_event :
    String → EvaluationPolicy → Timing → EvaluationSummary → EvaluationCompleted
evaluation_event run_id policy timing evaluation = record {
  run_id = run_id;
  evaluator_ids = map (λ (r : EvaluationResult). r.evaluator_id) evaluation.results;
  outcome = evaluation.outcome;
  evaluation_policy = some policy;
  failed_dimensions = collect_dimension_ids evaluation DimensionStatus.failed;
  unknown_dimensions = collect_dimension_ids evaluation DimensionStatus.unknown;
  timing = timing;
}

-- The status of the attempt, with its failure code, after the evaluation.
abbrev pub failure_of : EvaluationOutcome → String
failure_of EvaluationOutcome.failed = "EVALUATION_FAILED"
failure_of _ = "EVALUATION_INCONCLUSIVE"

abbrev pub fails_attempt : EvaluationPolicy → EvaluationOutcome → Bool
fails_attempt policy o = o == EvaluationOutcome.failed || (policy == strict && o == inconclusive)

unfoldable pub status_after_evaluation :
    EvaluationPolicy → EvaluationOutcome → RunStatus → Option String → RunStatus × Option String
status_after_evaluation policy o status failure =
    if status == RunStatus.completed && fails_attempt policy o
    then (RunStatus.failed, some (failure_of o))
    else (status, failure)
