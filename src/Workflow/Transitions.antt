-- ===== src/Workflow/Transitions.antt =====
-- workflow/transitions.ts: which stage follows, and which failures may be retried or repaired.
use agent_harness_os.Base.{
  String, Bool, ◌||◌, starts_with, if◌then◌else◌, ◌==◌, nat_eq, string_eq, option_eq, is_none,
}
use agent_harness_os.Workflow.Types.{
  WorkerStageName, plan, implement, test, review, StageName, worker, approval, Definition,
  worker_stage_eq, stage_eq, status_eq, decision_eq,
}

unfoldable pub next_candidate_stage : Definition → StageName
next_candidate_stage d =
    if is_none d.stages.test_stage
    then (if is_none d.stages.review_stage then approval else worker review)
    else worker test

unfoldable pub next_successful_stage : Definition → WorkerStageName → StageName
next_successful_stage d plan = worker implement
next_successful_stage d test = if is_none d.stages.review_stage then approval else worker review
next_successful_stage d review = approval
next_successful_stage d _ = next_candidate_stage d

unfoldable pub is_retryable_workflow_failure : String → Bool
is_retryable_workflow_failure c =
    starts_with c "PROVIDER_" || c == "WORKER_EMPTY_RESPONSE" || c == "WORKER_NO_CHANGES"

unfoldable pub is_repairable_workflow_failure : String → Bool
is_repairable_workflow_failure c =
    c == "VALIDATION_COMMAND_FAILED" || c == "EVALUATION_FAILED" || c == "EVALUATION_INCONCLUSIVE"
