-- ===== src/Evaluation/Schema.antt =====
-- evaluation/schema.ts: which results and summaries are valid. The values are typed, so the tests of keys,
-- of `typeof` and of the names of dimensions and statuses hold by construction.
use agent_harness_os.Base.{
  has_bytes, ℕ, String, Bool, true, false, not, ◌&&◌, ◌||◌, Option, none, some, List, [], ◌∷◌, ltb,
  leb, nat_beq, if◌then◌else◌, ◌==◌, nat_eq, string_eq, option_eq, length, any, all, contains,
  HarnessError, harness_error, Result, ok, ◌>>◌, throw_if,
}
use agent_harness_os.Task.Types.{
  EvaluationOutcome, inconclusive, EvaluationDimensionId, call_eq, validation_eq, evaluation_eq,
  policy_eq, task_status_eq, application_eq, dimension_eq,
}
use agent_harness_os.Domain.{worker_mode_eq, capability_eq, run_status_eq}
use agent_harness_os.Workflow.Definition.{Dates}
use agent_harness_os.Evaluation.{
  DimensionStatus, dimension_status_eq, DimensionResult, is_deterministic, EvaluationResult,
  EvaluationSummary,
}
use agent_harness_os.Evaluation.Deterministic.{deterministic_evaluation_dimension_ids, has_status}

abbrev pub invalid_evaluation : HarnessError
invalid_evaluation = harness_error "INVALID_EVALUATION_RESULT"

abbrev pub max_evaluation_summary_bytes : ℕ
max_evaluation_summary_bytes = 3000000

-- `isBoundedStringArray`
abbrev pub has_texts : List String → ℕ → ℕ → Bool
has_texts texts max_items max_item_length =
    ltb 0 (length texts)
    && leb (length texts) max_items
    && all (λ item. has_bytes item max_item_length) texts

-- The loop over the dimensions: none comes twice (`seenIds`), and their texts are bounded.
unfoldable pub are_valid_dimensions : List EvaluationDimensionId → List DimensionResult → Bool
are_valid_dimensions seen [] = true
are_valid_dimensions seen (d ∷ ds) =
    not (contains seen d.id)
    && has_bytes d.summary 500
    && has_texts d.evidence 20 1000
    && are_valid_dimensions (d.id ∷ seen) ds

-- The outcome that the statuses give.
unfoldable pub expected_outcome : List DimensionResult → EvaluationOutcome
expected_outcome dimensions =
    if has_status DimensionStatus.failed dimensions
    then EvaluationOutcome.failed
    else if has_status DimensionStatus.unknown dimensions
    then inconclusive
    else EvaluationOutcome.passed

abbrev pub is_expected_id : Option String → String → Bool
is_expected_id none id = true
is_expected_id (some expected) id = id == expected

unfoldable pub validate_evaluation_result :
    Dates → Option String → EvaluationResult → Result (Unit {0})
validate_evaluation_result dates expected r = do
  throw_if
      (not (has_bytes r.evaluator_id 100)
        || not (is_expected_id expected r.evaluator_id)
        || not (dates.parses r.evaluated_at)
        || nat_beq (length r.dimensions) 0
        || ltb 16 (length r.dimensions))
      invalid_evaluation
  throw_if (not (are_valid_dimensions [] r.dimensions)) invalid_evaluation
  throw_if (not (r.outcome == expected_outcome r.dimensions)) invalid_evaluation

-- The loop over the results of a summary.
unfoldable pub validate_results : Dates → List String → List EvaluationResult → Result (Unit {0})
validate_results dates seen [] = ok tt
validate_results dates seen (r ∷ rs) = do
  validate_evaluation_result dates none r
  throw_if (contains seen r.evaluator_id) invalid_evaluation
  validate_results dates (r.evaluator_id ∷ seen) rs

abbrev pub has_outcome : EvaluationOutcome → List EvaluationResult → Bool
has_outcome o results = any (λ r. r.outcome == o) results

unfoldable pub joint_outcome : List EvaluationResult → EvaluationOutcome
joint_outcome results =
    if has_outcome EvaluationOutcome.failed results
    then EvaluationOutcome.failed
    else if has_outcome inconclusive results
    then inconclusive
    else EvaluationOutcome.passed

abbrev pub same_ids : List DimensionResult → List EvaluationDimensionId → Bool
same_ids [] [] = true
same_ids [] (i ∷ is) = false
same_ids (d ∷ ds) [] = false
same_ids (d ∷ ds) (i ∷ is) = d.id == i && same_ids ds is

unfoldable pub is_deterministic_first : List EvaluationResult → Bool
is_deterministic_first [] = false
is_deterministic_first (r ∷ rs) =
    r.evaluator_id == "deterministic-v1"
    && is_deterministic r.evaluator_kind
    && same_ids r.dimensions deterministic_evaluation_dimension_ids

-- The size of a summary's JSON text is a parameter.
unfoldable pub validate_evaluation_summary :
    Dates → (EvaluationSummary → ℕ) → EvaluationSummary → Result (Unit {0})
validate_evaluation_summary dates bytes_of s = do
  throw_if
      (not (dates.parses s.evaluated_at)
        || nat_beq (length s.results) 0
        || ltb 8 (length s.results))
      invalid_evaluation
  validate_results dates [] s.results
  throw_if (not (is_deterministic_first s.results) || ltb max_evaluation_summary_bytes (bytes_of s))
      invalid_evaluation
  throw_if (not (s.outcome == joint_outcome s.results)) invalid_evaluation
