-- ===== src/Evaluation/Texts.antt =====
-- evaluation/deterministic.ts: the summary and the evidence of each dimension, before `result` cuts them.
use agent_harness_os.Base.{
  concat, join_with_space, decimal, ℕ, ◌+◌, code, String, Bool, true, false, not, ◌&&◌, ◌||◌,
  Option, none, some, List, [], ◌∷◌, map, ltb, leb, nat_beq, if◌then◌else◌, ◌==◌, nat_eq, string_eq,
  option_eq, codes, length, get_elem?, filter, contains, take,
}
use agent_harness_os.Task.Types.{
  EvaluationDimensionId, worker_execution, tests, lint, typecheck, changed_files_scope,
  acceptance_criteria, patch_size, new_warnings, security_policy_compliance, call_eq, validation_eq,
  evaluation_eq, policy_eq, task_status_eq, application_eq, dimension_eq,
}
use agent_harness_os.Domain.{
  RunStatus, blocked, policy_violation, cancelled, CommandSpec, worker_mode_eq, capability_eq,
  run_status_eq,
}
use agent_harness_os.Evaluation.{
  DimensionStatus, not_applicable, dimension_status_eq, CriterionStatus, AcceptanceCriterionResult,
  CommandResult, EvaluationInput,
}
use agent_harness_os.Evaluation.Commands.{is_one_of, fold_ascii, classify_validation_command}

abbrev pub rest_of {ℓ} : {A : Type ℓ} → List A → List A
rest_of [] = []
rest_of (x ∷ xs) = xs

abbrev pub put_if {ℓ} : {A : Type ℓ} → Bool → A → List A → List A
put_if true x xs = x ∷ xs
put_if false x xs = xs

abbrev pub changed_file_violation_codes : List String
changed_file_violation_codes =
    "CHANGED_FILE_LIMIT" ∷ "CHANGED_SYMLINK_DENIED" ∷ "CONTROL_PATH_WRITE_DENIED"
    ∷ "HARD_LINK_DENIED" ∷ "INVALID_PATH" ∷ "PATH_NOT_ALLOWED" ∷ "PATH_TRAVERSAL_DENIED"
    ∷ "PATH_VALIDATION_FAILED" ∷ "SENSITIVE_PATH_DENIED" ∷ "UNSUPPORTED_CHANGED_FILE_TYPE" ∷ []

-- `split(':', 1)[0]`
abbrev pub before_colon : List ℕ → List ℕ
before_colon [] = []
before_colon (c ∷ cs) = if nat_beq c b':' then [] else c ∷ before_colon cs

unfoldable pub is_changed_file_violation : String → Bool
is_changed_file_violation value =
    is_one_of (before_colon (codes value)) changed_file_violation_codes

-- `\w` of `\bwarning\b`
abbrev pub is_word_character : ℕ → Bool
is_word_character c =
    (leb 48 c && leb c 57) || (leb 65 c && leb c 90) || (leb 97 c && leb c 122) || nat_beq c 95

abbrev pub word_ends_here : List ℕ → List ℕ → Bool
word_ends_here [] [] = true
word_ends_here [] (c ∷ cs) = not (is_word_character c)
word_ends_here (w ∷ ws) [] = false
word_ends_here (w ∷ ws) (c ∷ cs) = nat_beq (fold_ascii c) w && word_ends_here ws cs

-- The matches of `/\bwarning\b/gi`: no two of them overlap.
unfoldable pub count_warnings_after : Bool → List ℕ → ℕ
count_warnings_after in_word [] = 0
count_warnings_after in_word (c ∷ cs) =
    (if not in_word && word_ends_here (codes "warning") (c ∷ cs) then 1 else 0)
    + count_warnings_after (is_word_character c) cs

abbrev pub count_warnings : String → ℕ
count_warnings value = count_warnings_after false (codes value)

unfoldable pub command_warnings : List CommandResult → ℕ
command_warnings [] = 0
command_warnings (r ∷ rs) = count_warnings r.stdout + count_warnings r.stderr + command_warnings rs

-- The value of an entry that may be missing, or a text for it.
abbrev pub text_or {ℓ} : {A : Type ℓ} → (A → String) → String → Option A → String
text_or show fallback none = fallback
text_or show fallback (some a) = show a

abbrev pub boolean_text : Bool → String
boolean_text true = "true"
boolean_text false = "false"

abbrev pub run_status_text : RunStatus → String
run_status_text RunStatus.completed = "completed"
run_status_text RunStatus.failed = "failed"
run_status_text blocked = "blocked"
run_status_text policy_violation = "policy_violation"
run_status_text RunStatus.timed_out = "timed_out"
run_status_text cancelled = "cancelled"

abbrev pub criterion_status_text : CriterionStatus → String
criterion_status_text CriterionStatus.passed = "passed"
criterion_status_text CriterionStatus.failed = "failed"
criterion_status_text CriterionStatus.unknown = "unknown"

abbrev pub command_dimension_text : EvaluationDimensionId → String
command_dimension_text tests = "tests"
command_dimension_text lint = "lint"
command_dimension_text typecheck = "typecheck"
command_dimension_text _ = ""

-- `commandEvidence`, for a command that is there.
abbrev pub command_evidence : CommandSpec → Option CommandResult → String
command_evidence c none = concat (join_with_space (c.command ∷ c.args) ∷ ": no harness result" ∷ [])
command_evidence c (some r) = concat (
    join_with_space (c.command ∷ c.args)
    ∷ ": exit="
    ∷ text_or decimal "null" r.exit_code
    ∷ " signal="
    ∷ text_or (λ s. s) "none" r.signal
    ∷ " timedOut="
    ∷ boolean_text r.timed_out
    ∷ [])

-- The evidence of the commands of a dimension.
unfoldable pub commands_evidence :
    EvaluationDimensionId → List CommandSpec → List CommandResult → List String
commands_evidence d [] results = []
commands_evidence d (c ∷ cs) results =
    put_if (contains (classify_validation_command c) d) (command_evidence c (get_elem? results 0))
      (commands_evidence d cs (rest_of results))

abbrev pub or_unclassified : List String → List String
or_unclassified [] = "Only explicitly classified harness-run commands count as evidence." ∷ []
or_unclassified (x ∷ xs) = x ∷ xs

abbrev pub counted_of : String → ℕ → ℕ → String
counted_of label n maximum = concat (label ∷ decimal n ∷ "; maximum: " ∷ decimal maximum ∷ [])

abbrev pub changed_files_evidence : EvaluationInput → List String
changed_files_evidence input =
    let scope_violations = filter is_changed_file_violation input.policy_violations in
    if nat_beq (length input.changed_files) 0 && nat_beq (length scope_violations) 0
    then "Changed file count: 0" ∷ []
    else if ltb input.max_changed_files (length input.changed_files)
        || ltb 0 (length scope_violations)
    then counted_of "Changed file count: " (length input.changed_files) input.max_changed_files
      ∷ take 19 scope_violations
    else counted_of "Changed file count: " (length input.changed_files) input.max_changed_files ∷ []

abbrev pub criteria_evidence : List AcceptanceCriterionResult → List String
criteria_evidence [] = "Acceptance criterion count: 0" ∷ []
criteria_evidence (c ∷ cs) =
    map
      (λ (x : AcceptanceCriterionResult).
        concat (criterion_status_text x.criterion_status ∷ ": " ∷ x.criterion ∷ []))
      (c ∷ cs)

abbrev pub is_capture_failure : Option String → Bool
is_capture_failure code = code == some "PATCH_TOO_LARGE" || code == some "ARTIFACT_FILE_TOO_LARGE"

abbrev pub patch_evidence : EvaluationInput → List String
patch_evidence input =
    if is_capture_failure input.failure_code
    then concat ("Harness failure: " ∷ text_or (λ s. s) "" input.failure_code ∷ [])
      ∷ "Exact patch bytes were not retained after the bounded capture failed."
      ∷ []
    else if nat_beq input.patch_bytes 0
    then "Patch bytes: 0" ∷ []
    else counted_of "Patch bytes: " input.patch_bytes input.max_patch_bytes ∷ []

abbrev pub counted : String → ℕ → String
counted label n = concat (label ∷ decimal n ∷ [])

abbrev pub truncated_outputs : EvaluationInput → ℕ
truncated_outputs input =
    length (filter (λ (r : CommandResult). r.output_truncated) input.command_results)

abbrev pub warnings_evidence : EvaluationInput → List String
warnings_evidence input =
    if nat_beq (length input.warnings + command_warnings input.command_results) 0
      && nat_beq (truncated_outputs input) 0
    then "Harness and validation warning count: 0" ∷ []
    else counted "Harness warning count: " (length input.warnings)
      ∷ counted "Validation output warning count: " (command_warnings input.command_results)
      ∷ counted "Truncated validation output count: " (truncated_outputs input)
      ∷ "A base-commit warning comparison was not executed."
      ∷ []

abbrev pub execution_evidence : EvaluationInput → String
execution_evidence input =
    if input.run_status == RunStatus.completed
    then "The harness reached completed status before evaluation."
    else text_or
        (λ code.
          concat ("Run status: " ∷ run_status_text input.run_status ∷ "; failure: " ∷ code ∷ []))
        (concat ("Run status: " ∷ run_status_text input.run_status ∷ [])) input.failure_code

unfoldable pub dimension_evidence : EvaluationInput → EvaluationDimensionId → List String
dimension_evidence input worker_execution = execution_evidence input ∷ []
dimension_evidence input tests =
    or_unclassified (commands_evidence tests input.required_commands input.command_results)
dimension_evidence input lint =
    or_unclassified (commands_evidence lint input.required_commands input.command_results)
dimension_evidence input typecheck =
    or_unclassified (commands_evidence typecheck input.required_commands input.command_results)
dimension_evidence input changed_files_scope = changed_files_evidence input
dimension_evidence input acceptance_criteria = take 20 (criteria_evidence input.acceptance_criteria)
dimension_evidence input patch_size = patch_evidence input
dimension_evidence input new_warnings = warnings_evidence input
dimension_evidence input security_policy_compliance =
    if nat_beq (length input.policy_violations) 0
    then "Harness policy violation count: 0" ∷ []
    else counted "Harness policy violation count: " (length input.policy_violations)
      ∷ take 19 input.policy_violations
dimension_evidence input _ = "This evaluator does not implement model-based dimensions." ∷ []

-- The summary of a command dimension.
abbrev pub command_summary : EvaluationDimensionId → DimensionStatus → String
command_summary d DimensionStatus.passed =
    concat (command_dimension_text d ∷ " validation passed" ∷ [])
command_summary d DimensionStatus.failed =
    concat (command_dimension_text d ∷ " validation failed" ∷ [])
command_summary d _ = concat ("No " ∷ command_dimension_text d ∷ " command was required" ∷ [])

abbrev pub changed_files_summary : DimensionStatus → String
changed_files_summary DimensionStatus.passed = "Changed files remained within the validated scope"
changed_files_summary DimensionStatus.failed = "Changed files exceeded the permitted scope"
changed_files_summary _ = "No changed files were captured"

abbrev pub criteria_summary : DimensionStatus → String
criteria_summary DimensionStatus.passed = "Acceptance criteria passed"
criteria_summary DimensionStatus.failed = "Acceptance criteria failed"
criteria_summary DimensionStatus.unknown =
    "Acceptance criteria need explicit deterministic evidence"
criteria_summary not_applicable = "No acceptance criteria were supplied"

abbrev pub patch_summary : Bool → DimensionStatus → String
patch_summary true status = "Patch exceeded a bounded capture limit"
patch_summary false DimensionStatus.passed = "Patch size is within the artifact limit"
patch_summary false DimensionStatus.failed = "Patch size exceeds the artifact limit"
patch_summary false _ = "No patch was captured"

abbrev pub execution_summary : RunStatus → String
execution_summary RunStatus.completed = "Worker execution completed"
execution_summary status = concat ("Worker execution ended " ∷ run_status_text status ∷ [])

-- The summary of a dimension with its status.
unfoldable pub dimension_summary :
    EvaluationInput → EvaluationDimensionId → DimensionStatus → String
dimension_summary input worker_execution status = execution_summary input.run_status
dimension_summary input tests status = command_summary tests status
dimension_summary input lint status = command_summary lint status
dimension_summary input typecheck status = command_summary typecheck status
dimension_summary input changed_files_scope status = changed_files_summary status
dimension_summary input acceptance_criteria status = criteria_summary status
dimension_summary input patch_size status =
    patch_summary (is_capture_failure input.failure_code) status
dimension_summary input new_warnings DimensionStatus.passed = "No warnings were captured"
dimension_summary input new_warnings status = "Warnings were captured without a trusted baseline"
dimension_summary input security_policy_compliance DimensionStatus.passed =
    "No policy violations were captured"
dimension_summary input security_policy_compliance status =
    "Harness policy violations were captured"
dimension_summary input _ status = "Dimension is not deterministic"
