-- ===== src/Evaluation/Meaning.antt =====
-- evaluation/deterministic.ts: what a passed deterministic evaluation means.
use agent_harness_os.Base.{
  ℕ, zero, suc, ◌+◌, ◌≤◌, String, ◌≡◌, refl, sym, ap, subst, ◌∙◌, ◌⊎◌, inl, inr, Bool, true, false,
  false≢true, Option, none, some, List, [], ◌∷◌, map, arith, if◌then◌else◌, Bool-cases, ◌==◌,
  ==_sound, nat_eq, string_eq, option_eq, or-eq-false, length, get_elem?, any, all, contains, In,
}
use agent_harness_os.Task.Types.{
  EvaluationOutcome, inconclusive, EvaluationDimensionId, worker_execution, tests, lint, typecheck,
  changed_files_scope, acceptance_criteria, patch_size, new_warnings, security_policy_compliance,
  call_eq, validation_eq, evaluation_eq, policy_eq, task_status_eq, application_eq, dimension_eq,
}
use agent_harness_os.Domain.{RunStatus, CommandSpec, worker_mode_eq, capability_eq, run_status_eq}
use agent_harness_os.Evaluation.{
  DimensionStatus, dimension_status_eq, DimensionResult, AcceptanceCriterionResult,
  is_criterion_failed, is_criterion_passed, CommandResult, EvaluationInput,
}
use agent_harness_os.Evaluation.Texts.{rest_of, put_if, command_warnings}
use agent_harness_os.Evaluation.Commands.{classify_validation_command}
use agent_harness_os.Evaluation.Deterministic.{
  deterministic_evaluation_dimension_ids, command_failed, matching_results, status_of_results,
  evaluate_commands, evaluate_changed_files, criteria_status, evaluate_acceptance_criteria,
  evaluate_patch_size, evaluate_warnings, evaluate_dimension, has_status, get_outcome,
  evaluated_dimension, evaluate_dimensions, evaluate,
}

passed_case :
    (f u : Bool)
    → (if f then EvaluationOutcome.failed else if u then inconclusive else EvaluationOutcome.passed)
      ≡ EvaluationOutcome.passed
    → (f ≡ false) × (u ≡ false)
passed_case true u h = cc
passed_case false true h = cc
passed_case false false h = (refl, refl)

abbrev rated : EvaluationInput → List EvaluationDimensionId → List DimensionResult
rated input ids = map (evaluated_dimension input) ids

rated_lem :
    (input : EvaluationInput) (s : DimensionStatus) (ids : List EvaluationDimensionId)
    (d : EvaluationDimensionId)
    → has_status s (rated input ids) ≡ false
    → In d ids
    → (evaluate_dimension input d == s) ≡ false
rated_lem input s [] d h m = absurd m
rated_lem input s (i ∷ is) d h (inl e) =
    subst (λ x. (evaluate_dimension input x == s) ≡ false) (sym e)
      (or-eq-false (evaluate_dimension input i == s) (has_status s (rated input is)) h).0
rated_lem input s (i ∷ is) d h (inr m) =
    rated_lem input s is d
      (or-eq-false (evaluate_dimension input i == s) (has_status s (rated input is)) h).1 m

get_elem-rest : (rs : List CommandResult) (i : ℕ) → get_elem? rs (suc i) ≡ get_elem? (rest_of rs) i
get_elem-rest [] i = refl
get_elem-rest (r ∷ rs) i = refl

put_if-any :
    (b : Bool) (r : Option CommandResult) (rs : List (Option CommandResult))
    → any command_failed (put_if b r rs) ≡ false
    → (b ≡ true → command_failed r ≡ false) × (any command_failed rs ≡ false)
put_if-any true r rs h =
    let (here, there) = or-eq-false (command_failed r) (any command_failed rs) h in
    (λ _. here, there)
put_if-any false r rs h = (λ b. cc, h)

-- A command that counts for a dimension did not fail.
matching_lem :
    (d : EvaluationDimensionId) (cs : List CommandSpec) (rs : List CommandResult) (i : ℕ)
    (c : CommandSpec)
    → any command_failed (matching_results d cs rs) ≡ false
    → get_elem? cs i ≡ some c
    → contains (classify_validation_command c) d ≡ true
    → command_failed (get_elem? rs i) ≡ false
unfolding matching_results
matching_lem d [] rs i c h e k = absurd (cc)
matching_lem d (x ∷ cs) rs zero c h e k =
    (put_if-any (contains (classify_validation_command x) d) (get_elem? rs 0)
        (matching_results d cs (rest_of rs)) h).0
      (ap (λ y. contains (classify_validation_command y) d) (same e) ∙ k)
  where
    same : some x ≡ some c → x ≡ c
    same e = cc
matching_lem d (x ∷ cs) rs (suc i) c h e k =
    ap command_failed (get_elem-rest rs i)
    ∙ matching_lem d cs (rest_of rs) i c
        (put_if-any (contains (classify_validation_command x) d) (get_elem? rs 0)
          (matching_results d cs (rest_of rs)) h).1
        e k

command_failed_inv :
    (r : Option CommandResult)
    → command_failed r ≡ false
    → (x : CommandResult) × (r ≡ some x)
      × (x.exit_code ≡ some 0)
      × (x.signal ≡ none)
      × (x.timed_out ≡ false)
unfolding command_failed
command_failed_inv none h = absurd (cc)
command_failed_inv (some r) h =
    (r, refl, ==_sound _ (some 0) (ground arith), ground arith, ground arith)

-- A list of commands whose status is not a failure has no failed one among those that count.
commands_lem :
    (d : EvaluationDimensionId) (input : EvaluationInput)
    → (evaluate_commands d input == DimensionStatus.failed) ≡ false
    → any command_failed (matching_results d input.required_commands input.command_results) ≡ false
unfolding evaluate_commands
commands_lem d input h =
    by_list (matching_results d input.required_commands input.command_results) h
  where
    by_list :
        (rs : List (Option CommandResult))
        → (status_of_results rs == DimensionStatus.failed) ≡ false
        → any command_failed rs ≡ false
    by_list [] h = refl
    by_list (r ∷ rs) h = elim (Bool-cases (any command_failed (r ∷ rs))) [
      | inl bad ↦ absurd (false≢true (sym h ∙ (rw bad refl)))
      | inr good ↦ good
    ]

criteria_lem :
    (cs : List AcceptanceCriterionResult)
    → (criteria_status cs == DimensionStatus.failed) ≡ false
    → (criteria_status cs == DimensionStatus.unknown) ≡ false
    → all is_criterion_passed cs ≡ true
criteria_lem [] h k = refl
criteria_lem (c ∷ cs) h k =
    three (any is_criterion_failed (c ∷ cs)) (all is_criterion_passed (c ∷ cs)) h k
  where
    three :
        (f p : Bool)
        → ((if f
              then DimensionStatus.failed
              else if p
              then DimensionStatus.passed
              else DimensionStatus.unknown)
            == DimensionStatus.failed)
          ≡ false
        → ((if f
              then DimensionStatus.failed
              else if p
              then DimensionStatus.passed
              else DimensionStatus.unknown)
            == DimensionStatus.unknown)
          ≡ false
        → p ≡ true
    three true p h k = absurd (false≢true (sym h))
    three false true h k = refl
    three false false h k = absurd (false≢true (sym k))

module _ (input : EvaluationInput) where
  files_lem :
      (evaluate_dimension input changed_files_scope == DimensionStatus.failed) ≡ false
      → length input.changed_files ≤ input.max_changed_files
  unfolding evaluate_dimension evaluate_changed_files
  files_lem h = ground arith

  patch_lem :
      (evaluate_dimension input patch_size == DimensionStatus.failed) ≡ false
      → input.patch_bytes ≤ input.max_patch_bytes
  unfolding evaluate_dimension evaluate_patch_size
  patch_lem h = ground arith

  warnings_lem :
      (evaluate_dimension input new_warnings == DimensionStatus.unknown) ≡ false
      → length input.warnings + command_warnings input.command_results ≡ 0
  unfolding evaluate_dimension evaluate_warnings
  warnings_lem h = ground arith

  worker_lem :
      (evaluate_dimension input worker_execution == DimensionStatus.failed) ≡ false
      → input.run_status ≡ RunStatus.completed
  unfolding evaluate_dimension
  worker_lem h = elim (Bool-cases (input.run_status == RunStatus.completed)) [
    | inl done ↦ ==_sound _ _ done
    | inr other ↦ absurd (false≢true (sym h ∙ (rw other refl)))
  ]

  violations_lem :
      (evaluate_dimension input security_policy_compliance == DimensionStatus.failed) ≡ false
      → length input.policy_violations ≡ 0
  unfolding evaluate_dimension
  violations_lem h = ground arith

  command_dimension_lem :
      (d : EvaluationDimensionId)
      → (d ≡ tests) ⊎ ((d ≡ lint) ⊎ (d ≡ typecheck))
      → has_status DimensionStatus.failed (evaluate_dimensions input) ≡ false
      → any command_failed (matching_results d input.required_commands input.command_results)
        ≡ false
  unfolding evaluate_dimension
  command_dimension_lem d (inl e) h =
      subst
        (λ x.
          any command_failed (matching_results x input.required_commands input.command_results)
          ≡ false)
        (sym e)
        (commands_lem tests input (
          rated_lem input DimensionStatus.failed deterministic_evaluation_dimension_ids tests h
            (inr (inl refl))))
  command_dimension_lem d (inr (inl e)) h =
      subst
        (λ x.
          any command_failed (matching_results x input.required_commands input.command_results)
          ≡ false)
        (sym e)
        (commands_lem lint input (
          rated_lem input DimensionStatus.failed deterministic_evaluation_dimension_ids lint h
            (inr (inr (inl refl)))))
  command_dimension_lem d (inr (inr e)) h =
      subst
        (λ x.
          any command_failed (matching_results x input.required_commands input.command_results)
          ≡ false)
        (sym e)
        (commands_lem typecheck input (
          rated_lem input DimensionStatus.failed deterministic_evaluation_dimension_ids typecheck h
            (inr (inr (inr (inl refl))))))

  -- A deterministic evaluation that passes means that the worker completed, that there is no policy
  -- violation, that the changed files and the patch are within their limits, that every acceptance
  -- criterion passed, that no warning was captured, and that every required command that counts as tests, lint
  -- or typecheck has a result with exit code 0, no signal and no timeout.
  pub evaluate-passed :
      (now : String)
      → (evaluate input now).outcome ≡ EvaluationOutcome.passed
      → (input.run_status ≡ RunStatus.completed)
        × (length input.policy_violations ≡ 0)
        × (length input.changed_files ≤ input.max_changed_files)
        × (input.patch_bytes ≤ input.max_patch_bytes)
        × (all is_criterion_passed input.acceptance_criteria ≡ true)
        × (length input.warnings + command_warnings input.command_results ≡ 0)
        × ((d : EvaluationDimensionId) (i : ℕ) (c : CommandSpec)
            → (d ≡ tests) ⊎ ((d ≡ lint) ⊎ (d ≡ typecheck))
            → get_elem? input.required_commands i ≡ some c
            → contains (classify_validation_command c) d ≡ true
            → (r : CommandResult) × (get_elem? input.command_results i ≡ some r)
              × (r.exit_code ≡ some 0)
              × (r.signal ≡ none)
              × (r.timed_out ≡ false))
  unfolding evaluate get_outcome evaluate_dimension evaluate_acceptance_criteria
  evaluate-passed now h =
      let (no_failed, no_unknown) =
        passed_case (has_status DimensionStatus.failed (evaluate_dimensions input))
          (has_status DimensionStatus.unknown (evaluate_dimensions input)) h in
      let good = rated_lem input DimensionStatus.failed deterministic_evaluation_dimension_ids in
      let known = rated_lem input DimensionStatus.unknown deterministic_evaluation_dimension_ids in
      (
        worker_lem (good worker_execution no_failed (inl refl)),
        violations_lem (
            good security_policy_compliance no_failed
              (inr (inr (inr (inr (inr (inr (inr (inr (inl refl)))))))))),
        files_lem (good changed_files_scope no_failed (inr (inr (inr (inr (inl refl)))))),
        patch_lem (good patch_size no_failed (inr (inr (inr (inr (inr (inr (inl refl)))))))),
        criteria_lem input.acceptance_criteria
            (good acceptance_criteria no_failed (inr (inr (inr (inr (inr (inl refl)))))))
            (known acceptance_criteria no_unknown (inr (inr (inr (inr (inr (inl refl))))))),
        warnings_lem
            (known new_warnings no_unknown (inr (inr (inr (inr (inr (inr (inr (inl refl))))))))),
        λ d i c kind at counts. command_failed_inv (get_elem? input.command_results i) (
            matching_lem d input.required_commands input.command_results i c
              (command_dimension_lem d kind no_failed) at counts),
      )
