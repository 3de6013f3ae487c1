-- ===== src/Evaluation/Valid.antt =====
-- evaluation/ with worker/service.ts and artifacts/task-event-model.ts: the deterministic result is valid, and
-- the status of an attempt after its evaluation agrees with the evidence in the task's projection.
use agent_harness_os.Base.{
  same_text, ℕ, ◌≤◌, code, String, ◌≡◌, refl, sym, ap, ◌∙◌, inl, inr, Bool, true, false, not, ◌&&◌,
  ◌||◌, false≢true, Option, none, some, List, [], ◌∷◌, map, arith, leb, Bool-cases, ◌==◌, ==_sound,
  ==_refl, nat_eq, string_eq, option_eq, is_none, is_some, or-eq-false, contains, ok,
}
use agent_harness_os.Task.Types.{
  succeeded, ValidationOutcome, EvaluationOutcome, inconclusive, EvaluationPolicy, default, strict,
  EvaluationDimensionId, AttemptProjection, AttemptCompleted, call_eq, validation_eq, evaluation_eq,
  policy_eq, task_status_eq, application_eq, dimension_eq,
}
use agent_harness_os.Domain.{RunStatus, worker_mode_eq, capability_eq, run_status_eq}
use agent_harness_os.Workflow.Definition.{Dates}
use agent_harness_os.Task.Attempts.{
  success_contradicted, failure_contradicted, attempt_contradicted,
}
use agent_harness_os.Evaluation.{dimension_status_eq, EvaluationResult, EvaluationInput}
use agent_harness_os.Evaluation.Deterministic.{
  deterministic_evaluation_dimension_ids, evaluate_dimension, get_outcome, evaluated_dimension,
  evaluate_dimensions, evaluate,
}
use agent_harness_os.Evaluation.Schema.{
  are_valid_dimensions, expected_outcome, validate_evaluation_result, joint_outcome,
}
use agent_harness_os.Evaluation.Recording.{
  aggregate_evaluation_results, failure_of, fails_attempt, status_after_evaluation,
}
use agent_harness_os.Evaluation.Bounds.{has_valid_texts}

-- Distinct identifiers, none of which was seen.
abbrev are_distinct : List EvaluationDimensionId → List EvaluationDimensionId → Bool
are_distinct seen [] = true
are_distinct seen (d ∷ ds) = not (contains seen d) && are_distinct (d ∷ seen) ds

dimensions_valid :
    (input : EvaluationInput) (seen ids : List EvaluationDimensionId)
    → are_distinct seen ids ≡ true
    → are_valid_dimensions seen (map (evaluated_dimension input) ids) ≡ true
unfolding are_valid_dimensions
dimensions_valid input seen [] h = refl
dimensions_valid input seen (d ∷ ds) h =
    let (fresh, others) = both (not (contains seen d)) (are_distinct (d ∷ seen) ds) h in
    let (summary, evidence) = has_valid_texts input d in
    rw (fresh, summary, evidence, dimensions_valid input (d ∷ seen) ds others) refl
  where
    both : (a b : Bool) → (a && b) ≡ true → (a ≡ true) × (b ≡ true)
    both a b k = ground arith

deterministic_dimensions_valid :
    (input : EvaluationInput) → are_valid_dimensions [] (evaluate_dimensions input) ≡ true
unfolding are_valid_dimensions
deterministic_dimensions_valid input =
    dimensions_valid input [] deterministic_evaluation_dimension_ids refl

-- The result of the deterministic evaluator passes the test that the service makes of it, at every time that
-- Date.parse reads: its dimensions are distinct, each has a summary of 1 to 500 bytes and 1 to 20 pieces of evidence
-- of 1 to 1,000 bytes, and its outcome is the one that the statuses give.
pub evaluate-valid :
    (dates : Dates) (input : EvaluationInput) (now : String)
    → dates.parses now ≡ true
    → validate_evaluation_result dates (some "deterministic-v1") (evaluate input now) ≡ ok tt
unfolding validate_evaluation_result evaluate expected_outcome get_outcome same_text
evaluate-valid dates input now h =
    rw (h, deterministic_dimensions_valid input, ==_refl (get_outcome (evaluate_dimensions input)))
      refl

-- A run that did not complete has a failed evaluation.
incomplete_fails :
    (input : EvaluationInput) (now later : String) (rs : List EvaluationResult)
    → (input.run_status == RunStatus.completed) ≡ false
    → (aggregate_evaluation_results later (evaluate input now ∷ rs)).outcome
      ≡ EvaluationOutcome.failed
unfolding aggregate_evaluation_results joint_outcome evaluate get_outcome evaluate_dimension
incomplete_fails input now later rs h = rw h refl

coded_lem : (code : Option String) → is_some code ≡ true → is_none code ≡ false
coded_lem none h = absurd (false≢true h)
coded_lem (some c) h = refl

weigh :
    (x y f a b c d : Bool)
    → y ≡ true
    → f || (a && b && c && d) ≡ true
    → (x && true && not f && not (y && a && b && c && d)) || false ≡ false
weigh x y f a b c d h w = ground arith

-- The attempt's evidence, by the outcome and the policy that it was evaluated with.
contradicted_lem :
    (version : ℕ) (e : AttemptCompleted) (a : AttemptProjection) (o : EvaluationOutcome)
    (policy : EvaluationPolicy)
    → a.evaluation_outcome ≡ some o
    → a.evaluation_policy ≡ some policy
    → 3 ≤ version
    → (e.status ≡ RunStatus.completed
        → (e.failure_code ≡ none)
          × (a.worker_outcome ≡ some succeeded)
          × ((a.validation_outcome == some ValidationOutcome.failed) ≡ false)
          × ((o == EvaluationOutcome.failed) ≡ false)
          × ((policy == strict && o == inconclusive) ≡ false))
    → ((e.status == RunStatus.completed) ≡ false
        → (is_some e.failure_code ≡ true)
          × ((o == EvaluationOutcome.failed
                || (e.status == RunStatus.failed
                    && policy == strict
                    && o == inconclusive
                    && e.failure_code == some "EVALUATION_INCONCLUSIVE"))
              ≡ true))
    → attempt_contradicted version e a ≡ false
unfolding attempt_contradicted success_contradicted failure_contradicted
contradicted_lem version e a o policy ho hp recent good bad =
    elim (Bool-cases (e.status == RunStatus.completed)) [
      | inl done ↦
          let (no_code, worker, valid, not_failed, firm) = good (==_sound _ _ done) in
          rw (ho, hp, done, no_code, worker, valid, not_failed, firm) (ground arith)
      | inr other ↦
          let (coded, why) = bad other in
          rw (ho, hp, other, coded_lem e.failure_code coded)
            (weigh (leb 2 version) (leb 3 version) (o == EvaluationOutcome.failed)
              (e.status == RunStatus.failed) (policy == strict) (o == inconclusive)
              (e.failure_code == some "EVALUATION_INCONCLUSIVE") (ground arith) why)
    ]

failure_code_lem :
    (policy : EvaluationPolicy) (o : EvaluationOutcome)
    → fails_attempt policy o ≡ true
    → (o == EvaluationOutcome.failed
        || (RunStatus.failed == RunStatus.failed
            && policy == strict
            && o == inconclusive
            && some (failure_of o) == some "EVALUATION_INCONCLUSIVE"))
      ≡ true
unfolding same_text
failure_code_lem policy EvaluationOutcome.failed h = refl
failure_code_lem policy EvaluationOutcome.passed h = ground arith
failure_code_lem strict inconclusive h = refl
failure_code_lem default inconclusive h = absurd (false≢true h)

-- A completed attempt after its evaluation.
completed_after :
    (policy : EvaluationPolicy) (o : EvaluationOutcome) (status : RunStatus)
    (failure : Option String)
    → (status_after_evaluation policy o status failure).0 ≡ RunStatus.completed
    → (status ≡ RunStatus.completed)
      × ((status_after_evaluation policy o status failure).1 ≡ failure)
      × (fails_attempt policy o ≡ false)
unfolding status_after_evaluation
completed_after policy o status failure h = elim (Bool-cases (status == RunStatus.completed)) [
  | inr other ↦ absurd (false≢true (sym other ∙ ap (λ s. s == RunStatus.completed) (rw other at h)))
  | inl done ↦ elim (Bool-cases (fails_attempt policy o)) [
    | inl f ↦ absurd (false≢true (ap (λ s. s == RunStatus.completed) (rw (done, f) at h)))
    | inr f ↦ (==_sound _ _ done, rw (done, f) refl, f)
  ]
]

-- An attempt that is not completed after its evaluation.
ended_after :
    (policy : EvaluationPolicy) (o : EvaluationOutcome) (status : RunStatus)
    (failure : Option String)
    → ((status == RunStatus.completed) ≡ false
        → (is_some failure ≡ true) × (o ≡ EvaluationOutcome.failed))
    → ((status_after_evaluation policy o status failure).0 == RunStatus.completed) ≡ false
    → (is_some (status_after_evaluation policy o status failure).1 ≡ true)
      × ((o == EvaluationOutcome.failed
            || ((status_after_evaluation policy o status failure).0 == RunStatus.failed
                && policy == strict
                && o == inconclusive
                && (status_after_evaluation policy o status failure).1
                  == some "EVALUATION_INCONCLUSIVE"))
          ≡ true)
unfolding status_after_evaluation
ended_after policy o status failure bad h = elim (Bool-cases (status == RunStatus.completed)) [
  | inr other ↦ let (coded, fails) = bad other in rw (other, fails) (coded, refl)
  | inl done ↦ elim (Bool-cases (fails_attempt policy o)) [
    | inl f ↦ rw (done, f) (refl, failure_code_lem policy o f)
    | inr f ↦ absurd (false≢true (sym (rw (done, f) at h) ∙ done))
  ]
]

-- The attempt that the service completes after its evaluation is not contradicted by the evidence in the
-- task's projection: where the evaluation began with the deterministic one, for the status that the run had
-- then, where a completed run has no failure code, a worker that succeeded and no failed validation, and
-- where a run that did not complete has a failure code.
pub settled_attempt_accepted :
    (input : EvaluationInput) (now later : String) (rs : List EvaluationResult)
    (policy : EvaluationPolicy) (failure : Option String) (version : ℕ) (a : AttemptProjection)
    (e : AttemptCompleted)
    → 3 ≤ version
    → a.evaluation_outcome
      ≡ some (aggregate_evaluation_results later (evaluate input now ∷ rs)).outcome
    → a.evaluation_policy ≡ some policy
    → (input.run_status ≡ RunStatus.completed
        → (failure ≡ none)
          × (a.worker_outcome ≡ some succeeded)
          × ((a.validation_outcome == some ValidationOutcome.failed) ≡ false))
    → ((input.run_status == RunStatus.completed) ≡ false → is_some failure ≡ true)
    → e.status
      ≡ (status_after_evaluation policy
          (aggregate_evaluation_results later (evaluate input now ∷ rs)).outcome
          input.run_status
          failure).0
    → e.failure_code
      ≡ (status_after_evaluation policy
          (aggregate_evaluation_results later (evaluate input now ∷ rs)).outcome
          input.run_status
          failure).1
    → attempt_contradicted version e a ≡ false
settled_attempt_accepted input now later rs policy failure version a e recent outcome same_policy
      good bad es ec =
    let o = (aggregate_evaluation_results later (evaluate input now ∷ rs)).outcome in
    contradicted_lem version e a o policy outcome same_policy recent
      (λ h.
        let (done, code, firm) = completed_after policy o input.run_status failure (sym es ∙ h) in
        let (no_code, worker, valid) = good done in
        let (not_failed, strict_passed) =
          or-eq-false (o == EvaluationOutcome.failed) (policy == strict && o == inconclusive)
            firm in
        (ec ∙ code ∙ no_code, worker, valid, not_failed, strict_passed))
      (λ h.
        let (coded, why) =
          ended_after policy o input.run_status failure
            (λ other. (bad other, incomplete_fails input now later rs other))
            (ap (λ s. s == RunStatus.completed) (sym es) ∙ h) in
        (ap is_some ec ∙ coded, rw (es, ec) why))
