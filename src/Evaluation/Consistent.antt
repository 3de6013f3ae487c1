-- ===== src/Evaluation/Consistent.antt =====
-- evaluation/schema.ts with artifacts/task-event-model.ts: the event that records a valid summary has the
-- outcome that its dimensions give.
use Prim.Native.String.{len}
use agent_harness_os.Base.{
  ℕ, String, ◌≡◌, refl, ap, ◌∙◌, inl, inr, Bool, true, false, not, ◌&&◌, ◌||◌, Option, none, List,
  [], ◌∷◌, ◌++◌, arith, ltb, leb, nat_beq, if◌then◌else◌, Bool-cases, ◌==◌, ==_sound, nat_eq,
  string_eq, option_eq, not-eq-false, or-eq-false, length, All, any, contains, unique, In, ok,
  throw_if, >>=-eq-ok, throw_if-eq-ok, In-unique,
}
use agent_harness_os.Task.Types.{
  EvaluationOutcome, inconclusive, EvaluationPolicy, EvaluationDimensionId, Timing, call_eq,
  validation_eq, evaluation_eq, policy_eq, task_status_eq, application_eq, dimension_eq,
}
use agent_harness_os.Workflow.Definition.{Dates}
use agent_harness_os.Task.Validation.{is_consistent_evaluation}
use agent_harness_os.Evaluation.{
  DimensionStatus, dimension_status_eq, DimensionResult, EvaluationResult, EvaluationSummary,
}
use agent_harness_os.Evaluation.Deterministic.{has_status}
use agent_harness_os.Evaluation.Schema.{
  invalid_evaluation, max_evaluation_summary_bytes, are_valid_dimensions, expected_outcome,
  is_expected_id, validate_evaluation_result, validate_results, has_outcome, joint_outcome,
  is_deterministic_first, validate_evaluation_summary,
}
use agent_harness_os.Evaluation.Recording.{
  ids_with, all_ids_with, collect_dimension_ids, evaluation_event,
}

abbrev is_empty {ℓ} : {A : Type ℓ} → List A → Bool
is_empty [] = true
is_empty (x ∷ xs) = false

length-is_empty {ℓ} : {A : Type ℓ} (xs : List A) → nat_beq (length xs) 0 ≡ is_empty xs
length-is_empty [] = refl
length-is_empty (x ∷ xs) = ground arith

append-is_empty {ℓ} :
    {A : Type ℓ} (xs ys : List A) → is_empty (xs ++ ys) ≡ is_empty xs && is_empty ys
append-is_empty [] ys = refl
append-is_empty (x ∷ xs) ys = refl

unique-is_empty : (xs : List EvaluationDimensionId) → is_empty (unique xs) ≡ is_empty xs
unique-is_empty [] = refl
unique-is_empty (x ∷ xs) = holds (unique (x ∷ xs)) ((In-unique (x ∷ xs) x).1 (inl refl))
  where
    holds : (ys : List EvaluationDimensionId) → In x ys → is_empty ys ≡ false
    holds [] h = absurd h
    holds (y ∷ ys) h = refl

ids_with-is_empty :
    (s : DimensionStatus) (ds : List DimensionResult)
    → is_empty (ids_with s ds) ≡ not (has_status s ds)
ids_with-is_empty s [] = refl
ids_with-is_empty s (d ∷ ds) = elim (Bool-cases (d.status == s)) [
  | inl here ↦ rw here refl
  | inr there ↦ rw there (ids_with-is_empty s ds)
]

both : (a b c d : Bool) → a ≡ not c → b ≡ not d → a && b ≡ not (c || d)
both a b c d h k = ground arith

or-same : {a b c d : Bool} → a ≡ c → b ≡ d → a || b ≡ c || d
or-same h k = rw (h, k) refl

abbrev shows : DimensionStatus → List EvaluationResult → Bool
shows s rs = any (λ r. has_status s r.dimensions) rs

all_ids_with-is_empty :
    (s : DimensionStatus) (rs : List EvaluationResult)
    → is_empty (all_ids_with s rs) ≡ not (shows s rs)
all_ids_with-is_empty s [] = refl
all_ids_with-is_empty s (r ∷ rs) =
    append-is_empty (ids_with s r.dimensions) (all_ids_with s rs)
    ∙ both _ _ (has_status s r.dimensions) (shows s rs) (ids_with-is_empty s r.dimensions)
        (all_ids_with-is_empty s rs)

collect-is_empty :
    (evaluation : EvaluationSummary) (s : DimensionStatus)
    → nat_beq (length (collect_dimension_ids evaluation s)) 0 ≡ not (shows s evaluation.results)
unfolding collect_dimension_ids
collect-is_empty evaluation s =
    length-is_empty (unique (all_ids_with s evaluation.results))
    ∙ unique-is_empty (all_ids_with s evaluation.results)
    ∙ all_ids_with-is_empty s evaluation.results

abbrev AreExpected : List EvaluationResult → Type 0
AreExpected rs = All (λ r. r.outcome ≡ expected_outcome r.dimensions) rs

expected-failed :
    (ds : List DimensionResult)
    → (expected_outcome ds == EvaluationOutcome.failed) ≡ has_status DimensionStatus.failed ds
unfolding expected_outcome
expected-failed ds = elim (Bool-cases (has_status DimensionStatus.failed ds)) [
  | inl h ↦ rw h refl
  | inr h ↦ elim (Bool-cases (has_status DimensionStatus.unknown ds)) [
    | inl k ↦ rw (h, k) refl
    | inr k ↦ rw (h, k) refl
  ]
]

expected-inconclusive :
    (ds : List DimensionResult)
    → has_status DimensionStatus.failed ds ≡ false
    → (expected_outcome ds == inconclusive) ≡ has_status DimensionStatus.unknown ds
unfolding expected_outcome
expected-inconclusive ds h = elim (Bool-cases (has_status DimensionStatus.unknown ds)) [
  | inl k ↦ rw (h, k) refl
  | inr k ↦ rw (h, k) refl
]

has_outcome-failed :
    (rs : List EvaluationResult)
    → AreExpected rs
    → has_outcome EvaluationOutcome.failed rs ≡ shows DimensionStatus.failed rs
has_outcome-failed [] e = refl
has_outcome-failed (r ∷ rs) (e, es) =
    or-same (ap (λ o. o == EvaluationOutcome.failed) e ∙ expected-failed r.dimensions)
      (has_outcome-failed rs es)

has_outcome-inconclusive :
    (rs : List EvaluationResult)
    → AreExpected rs
    → shows DimensionStatus.failed rs ≡ false
    → has_outcome inconclusive rs ≡ shows DimensionStatus.unknown rs
has_outcome-inconclusive [] e h = refl
has_outcome-inconclusive (r ∷ rs) (e, es) h =
    let (here, there) =
      or-eq-false (has_status DimensionStatus.failed r.dimensions) (shows DimensionStatus.failed rs)
        h in
    or-same (ap (λ o. o == inconclusive) e ∙ expected-inconclusive r.dimensions here)
      (has_outcome-inconclusive rs es there)

validate_evaluation_result-expected :
    (dates : Dates) (expected : Option String) (r : EvaluationResult) {u : Unit {0}}
    → validate_evaluation_result dates expected r ≡ ok u
    → r.outcome ≡ expected_outcome r.dimensions
unfolding validate_evaluation_result
validate_evaluation_result-expected dates expected r h =
    let (_, c1, h1) =
      >>=-eq-ok
        (throw_if
          (not (ltb 0 (len r.evaluator_id) && leb (len r.evaluator_id) 100)
            || not (is_expected_id expected r.evaluator_id)
            || not (dates.parses r.evaluated_at)
            || nat_beq (length r.dimensions) 0
            || ltb 16 (length r.dimensions))
          invalid_evaluation)
        _ h in
    let (_, c2, h2) =
      >>=-eq-ok (throw_if (not (are_valid_dimensions [] r.dimensions)) invalid_evaluation) _ h1 in
    ==_sound _ _ (not-eq-false (throw_if-eq-ok _ _ h2))

validate_results-expected :
    (dates : Dates) (seen : List String) (rs : List EvaluationResult) {u : Unit {0}}
    → validate_results dates seen rs ≡ ok u
    → AreExpected rs
unfolding validate_results
validate_results-expected dates seen [] h = tt
validate_results-expected dates seen (r ∷ rs) h =
    let (_, c1, h1) = >>=-eq-ok (validate_evaluation_result dates none r) _ h in
    let (_, c2, h2) = >>=-eq-ok (throw_if (contains seen r.evaluator_id) invalid_evaluation) _ h1 in
    (
      validate_evaluation_result-expected dates none r c1,
      validate_results-expected dates (r.evaluator_id ∷ seen) rs h2,
    )

joint_lem :
    (rs : List EvaluationResult)
    → AreExpected rs
    → joint_outcome rs ≡ (
        if shows DimensionStatus.failed rs
        then EvaluationOutcome.failed
        else if shows DimensionStatus.unknown rs
        then inconclusive
        else EvaluationOutcome.passed)
unfolding joint_outcome
joint_lem rs e = elim (Bool-cases (shows DimensionStatus.failed rs)) [
  | inl h ↦ rw (has_outcome-failed rs e, h) refl
  | inr h ↦ rw (has_outcome-failed rs e, h, has_outcome-inconclusive rs e h) refl
]

-- The outcome of a valid summary, by what its results show.
valid_outcome :
    (dates : Dates) (bytes_of : EvaluationSummary → ℕ) (s : EvaluationSummary) {u : Unit {0}}
    → validate_evaluation_summary dates bytes_of s ≡ ok u
    → (s.outcome ≡ joint_outcome s.results) × AreExpected s.results
unfolding validate_evaluation_summary
valid_outcome dates bytes_of s h =
    let (_, c1, h1) =
      >>=-eq-ok
        (throw_if
          (not (dates.parses s.evaluated_at)
            || nat_beq (length s.results) 0
            || ltb 8 (length s.results))
          invalid_evaluation)
        _ h in
    let (_, c2, h2) = >>=-eq-ok (validate_results dates [] s.results) _ h1 in
    let (_, c3, h3) =
      >>=-eq-ok
        (throw_if
          (not (is_deterministic_first s.results) || ltb max_evaluation_summary_bytes (bytes_of s))
          invalid_evaluation)
        _ h2 in
    (
      ==_sound _ _ (not-eq-false (throw_if-eq-ok _ _ h3)),
      validate_results-expected dates [] s.results c2,
    )

consistent_lem :
    (f u no_failed no_unknown : Bool) (o : EvaluationOutcome)
    → o ≡ (
        if f
        then EvaluationOutcome.failed
        else if u
        then inconclusive
        else EvaluationOutcome.passed)
    → no_failed ≡ not f
    → no_unknown ≡ not u
    → ((not (o == EvaluationOutcome.passed) || (no_failed && no_unknown))
        && (not (o == EvaluationOutcome.failed) || not no_failed)
        && (not (o == inconclusive) || (no_failed && not no_unknown)))
      ≡ true
consistent_lem true u a b o h k l = rw (h, k) refl
consistent_lem false true a b o h k l = rw (h, k, l) refl
consistent_lem false false a b o h k l = rw (h, k, l) refl

-- The event that records a summary which validateEvaluationSummary accepts has the outcome that its lists of
-- failed and unknown dimensions give, as validateTaskEvent asks for.
pub evaluation_event-consistent :
    (dates : Dates) (bytes_of : EvaluationSummary → ℕ) (s : EvaluationSummary) (run_id : String)
    (policy : EvaluationPolicy) (timing : Timing)
    → validate_evaluation_summary dates bytes_of s ≡ ok tt
    → is_consistent_evaluation (evaluation_event run_id policy timing s) ≡ true
unfolding is_consistent_evaluation evaluation_event
evaluation_event-consistent dates bytes_of s run_id policy timing h =
    let (outcome, expected) = valid_outcome dates bytes_of s h in
    consistent_lem (shows DimensionStatus.failed s.results)
      (shows DimensionStatus.unknown s.results) _ _ s.outcome
      (outcome ∙ joint_lem s.results expected) (collect-is_empty s DimensionStatus.failed)
      (collect-is_empty s DimensionStatus.unknown)
