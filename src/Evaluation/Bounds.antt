-- ===== src/Evaluation/Bounds.antt =====
-- evaluation/deterministic.ts: the texts of a dimension keep the bounds that evaluation/schema.ts sets.
use Prim.Native.Char.{Char, len_utf8}
use Prim.Native.Nat.{◌-◌, compare as compare_number, Ordering}
use Prim.Native.String.{String, len, slice, fits}
use Prim.Native.String.len
use Prim.Native.String.slice
use native.Mathlib.Bridge.{IsLe, le_by_compare}
use text.Mathlib.TextPositions.{len_utf8-pos}
use agent_harness_os.Base.{
  concat, truncate_utf8, or_text, has_bytes, ℕ, zero, suc, ◌+◌, ◌≤◌, ◌≡◌, refl, Bool, true, false,
  ◌&&◌, ◌||◌, List, [], ◌∷◌, map, arith, ltb, leb, nat_beq, if◌then◌else◌, length, all, filter,
  take,
}
use agent_harness_os.Task.Types.{
  EvaluationDimensionId, worker_execution, tests, lint, typecheck, changed_files_scope,
  acceptance_criteria, patch_size, new_warnings, security_policy_compliance,
}
use agent_harness_os.Domain.{RunStatus, blocked, policy_violation, cancelled}
use agent_harness_os.Evaluation.{
  DimensionStatus, not_applicable, AcceptanceCriterionResult, EvaluationInput,
}
use agent_harness_os.Evaluation.Texts.{
  is_changed_file_violation, command_warnings, or_unclassified, criteria_evidence,
  is_capture_failure, truncated_outputs, dimension_evidence, patch_summary, execution_summary,
  dimension_summary,
}
use agent_harness_os.Evaluation.Deterministic.{evaluate_dimension, evaluated_dimension}
use agent_harness_os.Evaluation.Schema.{has_texts}

len-fits :
    (o : Ordering) (c : Char) (r : String) (n : ℕ)
    → (IsLe o → len_utf8 c ≤ n)
    → len r ≤ n - len_utf8 c
    → len (fits o c r) ≤ n
unfolding IsLe
len-fits Ordering.lt c r n h k = rw (len.cons c r) (omega (arith, h tt, k))
len-fits Ordering.eq c r n h k = rw (len.cons c r) (omega (arith, h tt, k))
len-fits Ordering.gt c r n h k = omega arith

len-truncate : (s : String) (n : ℕ) → len (truncate_utf8 s n) ≤ n
len-truncate String.[] n = rw (slice.nil 0 n) (omega arith)
len-truncate (String.◌∷◌ c s) n = rw (slice.cons-zero c s n) (
    len-fits (compare_number (len_utf8 c) n) c (slice s 0 (n - len_utf8 c)) n
      (le_by_compare (len_utf8 c) n) (len-truncate s (n - len_utf8 c)))

within_bytes : (n m : ℕ) → 1 ≤ n → n ≤ m → (ltb 0 n && leb n m) ≡ true
within_bytes n m h k = ground (arith, h, k)

evidence_item : String → String
evidence_item value = or_text (truncate_utf8 value 1000) "[empty evidence]"

or_text-has_bytes :
    (t : String) → len t ≤ 1000 → has_bytes (or_text t "[empty evidence]") 1000 ≡ true
or_text-has_bytes String.[] h = refl
or_text-has_bytes (String.◌∷◌ c s) h =
    let (k, wide) = len_utf8-pos c in
    within_bytes (len (String.◌∷◌ c s)) 1000 (rw (len.cons c s, wide) (omega arith)) h

all_items : (xs : List String) → all (λ item. has_bytes item 1000) (map evidence_item xs) ≡ true
unfolding evidence_item
all_items [] = refl
all_items (x ∷ xs) =
    rw (or_text-has_bytes (truncate_utf8 x 1000) (len-truncate x 1000), all_items xs) refl

length-taken : (n : ℕ) (xs : List String) → length (map evidence_item (take n xs)) ≤ n
length-taken zero xs = omega arith
length-taken (suc n) [] = omega arith
length-taken (suc n) (x ∷ xs) = omega (arith, length-taken n xs)

some_taken :
    (n : ℕ) (xs : List String) → 1 ≤ length xs → 1 ≤ length (map evidence_item (take (suc n) xs))
some_taken n [] h = h
some_taken n (x ∷ xs) h = omega arith

all_three : {a b c : Bool} → a ≡ true → b ≡ true → c ≡ true → (a && b && c) ≡ true
all_three h k l = rw (h, k, l) refl

some_items : (n : ℕ) → 1 ≤ n → ltb 0 n ≡ true
some_items n h = ground (arith, h)

few_items : (n m : ℕ) → n ≤ m → leb n m ≡ true
few_items n m h = ground (arith, h)

evidence-has_texts :
    (xs : List String) → 1 ≤ length xs → has_texts (map evidence_item (take 20 xs)) 20 1000 ≡ true
evidence-has_texts xs h =
    all_three (some_items _ (some_taken 19 xs h)) (few_items _ 20 (length-taken 20 xs))
      (all_items (take 20 xs))

length-if :
    (b : Bool) (xs ys : List String)
    → 1 ≤ length xs
    → 1 ≤ length ys
    → 1 ≤ length (if b then xs else ys)
length-if true xs ys h k = h
length-if false xs ys h k = k

some_commands : (xs : List String) → 1 ≤ length (or_unclassified xs)
some_commands [] = omega arith
some_commands (x ∷ xs) = omega arith

some_criteria : (cs : List AcceptanceCriterionResult) → 1 ≤ length (take 20 (criteria_evidence cs))
some_criteria [] = omega arith
some_criteria (c ∷ cs) = omega arith

some_evidence :
    (input : EvaluationInput) (d : EvaluationDimensionId) → 1 ≤ length (dimension_evidence input d)
unfolding dimension_evidence
some_evidence input worker_execution = omega arith
some_evidence input tests = some_commands _
some_evidence input lint = some_commands _
some_evidence input typecheck = some_commands _
some_evidence input changed_files_scope =
    let violations = filter is_changed_file_violation input.policy_violations in
    length-if (nat_beq (length input.changed_files) 0 && nat_beq (length violations) 0) _ _
      (omega arith)
      (length-if
        (ltb input.max_changed_files (length input.changed_files) || ltb 0 (length violations)) _ _
        (omega arith) (omega arith))
some_evidence input acceptance_criteria = some_criteria input.acceptance_criteria
some_evidence input patch_size =
    length-if (is_capture_failure input.failure_code) _ _ (omega arith)
      (length-if (nat_beq input.patch_bytes 0) _ _ (omega arith) (omega arith))
some_evidence input new_warnings =
    length-if
      (nat_beq (length input.warnings + command_warnings input.command_results) 0
        && nat_beq (truncated_outputs input) 0)
      _ _ (omega arith) (omega arith)
some_evidence input security_policy_compliance =
    length-if (nat_beq (length input.policy_violations) 0) _ _ (omega arith) (omega arith)
some_evidence input _ = omega arith

execution-has_bytes :
    (s : RunStatus) → has_bytes (truncate_utf8 (execution_summary s) 500) 500 ≡ true
unfolding concat
execution-has_bytes RunStatus.completed = refl
execution-has_bytes RunStatus.failed = refl
execution-has_bytes blocked = refl
execution-has_bytes policy_violation = refl
execution-has_bytes RunStatus.timed_out = refl
execution-has_bytes cancelled = refl

-- The summary of every dimension has between 1 and 500 bytes.
summary-has_bytes :
    (input : EvaluationInput) (d : EvaluationDimensionId) (s : DimensionStatus)
    → has_bytes (truncate_utf8 (dimension_summary input d s) 500) 500 ≡ true
unfolding dimension_summary concat
summary-has_bytes input worker_execution s = execution-has_bytes input.run_status
summary-has_bytes input patch_size s = patch-has_bytes (is_capture_failure input.failure_code) s
  where
    patch-has_bytes :
        (b : Bool) (s : DimensionStatus)
        → has_bytes (truncate_utf8 (patch_summary b s) 500) 500 ≡ true
    patch-has_bytes true s = refl
    patch-has_bytes false DimensionStatus.passed = refl
    patch-has_bytes false DimensionStatus.failed = refl
    patch-has_bytes false DimensionStatus.unknown = refl
    patch-has_bytes false not_applicable = refl
summary-has_bytes input tests DimensionStatus.passed = refl
summary-has_bytes input tests DimensionStatus.failed = refl
summary-has_bytes input tests DimensionStatus.unknown = refl
summary-has_bytes input tests not_applicable = refl
summary-has_bytes input lint DimensionStatus.passed = refl
summary-has_bytes input lint DimensionStatus.failed = refl
summary-has_bytes input lint DimensionStatus.unknown = refl
summary-has_bytes input lint not_applicable = refl
summary-has_bytes input typecheck DimensionStatus.passed = refl
summary-has_bytes input typecheck DimensionStatus.failed = refl
summary-has_bytes input typecheck DimensionStatus.unknown = refl
summary-has_bytes input typecheck not_applicable = refl
summary-has_bytes input changed_files_scope DimensionStatus.passed = refl
summary-has_bytes input changed_files_scope DimensionStatus.failed = refl
summary-has_bytes input changed_files_scope DimensionStatus.unknown = refl
summary-has_bytes input changed_files_scope not_applicable = refl
summary-has_bytes input acceptance_criteria DimensionStatus.passed = refl
summary-has_bytes input acceptance_criteria DimensionStatus.failed = refl
summary-has_bytes input acceptance_criteria DimensionStatus.unknown = refl
summary-has_bytes input acceptance_criteria not_applicable = refl
summary-has_bytes input new_warnings DimensionStatus.passed = refl
summary-has_bytes input new_warnings DimensionStatus.failed = refl
summary-has_bytes input new_warnings DimensionStatus.unknown = refl
summary-has_bytes input new_warnings not_applicable = refl
summary-has_bytes input security_policy_compliance DimensionStatus.passed = refl
summary-has_bytes input security_policy_compliance DimensionStatus.failed = refl
summary-has_bytes input security_policy_compliance DimensionStatus.unknown = refl
summary-has_bytes input security_policy_compliance not_applicable = refl
summary-has_bytes input _ s = refl

pub has_valid_texts :
    (input : EvaluationInput) (d : EvaluationDimensionId)
    → (has_bytes (evaluated_dimension input d).summary 500 ≡ true)
      × (has_texts (evaluated_dimension input d).evidence 20 1000 ≡ true)
unfolding evidence_item
has_valid_texts input d = (
  summary-has_bytes input d (evaluate_dimension input d),
  evidence-has_texts (dimension_evidence input d) (some_evidence input d),
)
