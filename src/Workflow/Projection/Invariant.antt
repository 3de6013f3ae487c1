-- ===== src/Workflow/Projection/Invariant.antt =====
-- workflow/event-model.ts: what every projection of a journal satisfies.
use agent_harness_os.Base.{
  ℕ, ◌+◌, ◌≤◌, ◌<◌, String, ◌≡◌, refl, Bool, true, false, none, some, arith, ◌==◌, ==_sound, nat_eq,
  string_eq, option_eq, is_some, Ensures, Ensures-guarded,
}
use agent_harness_os.Workflow.Types.{
  WorkerStageName, plan, implement, test, review, repair, worker, approval, stage_of, Status,
  running, waiting_for_approval, approved, DependencyState, StageCounts, Projection, Started,
  StageResult, worker_stage_eq, stage_eq, status_eq, decision_eq,
}
use agent_harness_os.Domain.{worker_mode_eq, capability_eq, run_status_eq}
use agent_harness_os.Workflow.Transitions.{next_candidate_stage}
use agent_harness_os.Workflow.Stages.{
  is_terminal_workflow_status, count_of, retry_limit_of, dependency_change_refused,
  project_dependency_state_changed, stage_start_refused, project_stage_started, interrupt_refused,
  project_stage_interrupted, is_allowed_next_stage, stage_completion_refused, retries_after,
  project_stage_completed,
}

-- The number of stage starts that a projection has counted, over all stages.
abbrev pub total_attempts : StageCounts → ℕ
total_attempts counts =
    count_of counts plan
    + count_of counts implement
    + count_of counts test
    + count_of counts review
    + count_of counts repair

-- The active execution runs a stage of the definition that is the current one.
abbrev pub RunsStage : Projection → Type 0
RunsStage p =
    (stage : WorkerStageName) × (p.summary.current_stage ≡ some (worker stage))
    × (is_some (stage_of p.definition stage) ≡ true)
    × (stage ≡ repair → p.summary.repair_attempt_count < p.definition.max_repair_attempts)

pub record Inv (p : Projection) : Type 0 where
  pub transitions_bounded : p.summary.transition_count ≤ p.definition.max_transitions
  pub attempts_counted : total_attempts p.summary.stage_attempts ≡ p.summary.transition_count
  pub repairs_bounded : p.summary.repair_attempt_count ≤ p.definition.max_repair_attempts
  pub retries_bounded :
      (stage : WorkerStageName)
      → count_of p.retry_transitions stage ≤ retry_limit_of p.definition stage
  pub running_iff : (p.summary.status == running) ≡ is_some p.summary.active_execution_id
  pub awaiting_iff : (p.summary.status == waiting_for_approval) ≡ p.approval_requested
  pub awaiting_stage : p.approval_requested ≡ true → p.summary.current_stage ≡ some approval
  pub active_stage : is_some p.summary.active_execution_id ≡ true → RunsStage p
  pub stage_defined :
      (s : WorkerStageName)
      → p.summary.current_stage ≡ some (worker s)
      → is_some (stage_of p.definition s) ≡ true
  pub approved_stage : p.summary.approval_decision ≡ some approved → p.summary.current_stage ≡ none
  pub terminal_stage :
      is_terminal_workflow_status p.summary.status ≡ true → p.summary.current_stage ≡ none
  pub completed_approved :
      p.summary.status ≡ Status.completed
      → (p.summary.approval_decision ≡ some approved)
        × (is_some p.summary.candidate_run_id ≡ true)
        × (p.summary.last_failure_code ≡ none)

module _ (p : Projection) (v : Inv p) where
  pub project_dependency_state_changed-Inv :
      (state : DependencyState) (append : Bool)
      → Ensures Inv (project_dependency_state_changed p state append)
  unfolding project_dependency_state_changed dependency_change_refused is_terminal_workflow_status
  project_dependency_state_changed-Inv state append = Ensures-guarded Inv _ _ _ λ h. record {
    transitions_bounded = v.transitions_bounded;
    attempts_counted = v.attempts_counted;
    repairs_bounded = v.repairs_bounded;
    retries_bounded = v.retries_bounded;
    running_iff = ground arith;
    awaiting_iff = ground arith;
    awaiting_stage = v.awaiting_stage;
    active_stage = v.active_stage;
    stage_defined = v.stage_defined;
    approved_stage = v.approved_stage;
    terminal_stage = ground arith;
    completed_approved = ground arith;
  }

  pub project_stage_started-Inv :
      (e : Started) (append : Bool) → Ensures Inv (project_stage_started p e append)
  unfolding project_stage_started stage_start_refused is_terminal_workflow_status
  project_stage_started-Inv e append = Ensures-guarded Inv _ _ _ λ h. record {
    transitions_bounded = ground arith;
    attempts_counted = ground (arith, v.attempts_counted);
    repairs_bounded = v.repairs_bounded;
    retries_bounded = v.retries_bounded;
    running_iff = refl;
    awaiting_iff = ground arith;
    awaiting_stage = v.awaiting_stage;
    active_stage = λ _. (e.stage, ground arith, ground arith, ground arith);
    stage_defined = v.stage_defined;
    approved_stage = v.approved_stage;
    terminal_stage = ground arith;
    completed_approved = ground arith;
  }

  pub project_stage_interrupted-Inv :
      (stage : WorkerStageName) (execution_id : String) (append : Bool)
      → Ensures Inv (project_stage_interrupted p stage execution_id append)
  unfolding project_stage_interrupted interrupt_refused is_terminal_workflow_status
  project_stage_interrupted-Inv stage execution_id append = Ensures-guarded Inv _ _ _ λ h. record {
    transitions_bounded = v.transitions_bounded;
    attempts_counted = v.attempts_counted;
    repairs_bounded = v.repairs_bounded;
    retries_bounded = v.retries_bounded;
    running_iff = refl;
    awaiting_iff = ground arith;
    awaiting_stage = v.awaiting_stage;
    active_stage = λ x. cc;
    stage_defined = v.stage_defined;
    approved_stage = v.approved_stage;
    terminal_stage = λ x. cc;
    completed_approved = λ x. cc;
  }

  -- What an accepted completion says of the state before it.
  pub completion_facts :
      (e : StageResult)
      → stage_completion_refused p e ≡ false
      → (p.summary.current_stage ≡ some (worker e.stage))
        × (p.summary.active_execution_id ≡ some e.execution_id)
        × (is_allowed_next_stage p e ≡ true)
  unfolding stage_completion_refused
  completion_facts e h = (==_sound _ _ (ground arith), ==_sound _ _ (ground arith), ground arith)

  retries_after_bounded :
      (e : StageResult) (t : WorkerStageName)
      → is_allowed_next_stage p e ≡ true
      → count_of (retries_after p e) t ≤ retry_limit_of p.definition t
  unfolding retries_after is_allowed_next_stage next_candidate_stage
  retries_after_bounded e t h = ground (arith, v.retries_bounded t)

  -- An admitted next stage is a stage of the definition.
  next_stage_defined :
      (e : StageResult)
      → p.summary.current_stage ≡ some (worker e.stage)
      → is_allowed_next_stage p e ≡ true
      → (s : WorkerStageName) → e.next_stage ≡ some (worker s)
      → is_some (stage_of p.definition s) ≡ true
  unfolding is_allowed_next_stage next_candidate_stage
  next_stage_defined e at allowed s f = ground (arith, v.stage_defined e.stage)

  pub project_stage_completed-Inv :
      (e : StageResult) (append : Bool) → Ensures Inv (project_stage_completed p e append)
  unfolding project_stage_completed is_terminal_workflow_status
  project_stage_completed-Inv e append = Ensures-guarded Inv _ _ _ λ h.
      let (at, active, allowed) = completion_facts e h in
      let runs : RunsStage p = v.active_stage (ground arith) in
      record {
        transitions_bounded = v.transitions_bounded;
        attempts_counted = v.attempts_counted;
        repairs_bounded = ground arith;
        retries_bounded = λ t. retries_after_bounded e t allowed;
        running_iff = refl;
        awaiting_iff = ground (arith, v.awaiting_iff, v.running_iff);
        awaiting_stage = λ x. absurd (cc (v.awaiting_stage x));
        active_stage = λ x. cc;
        stage_defined = λ s f. next_stage_defined e at allowed s f;
        approved_stage = λ x. absurd (cc (v.approved_stage x));
        terminal_stage = λ x. cc;
        completed_approved = λ x. cc;
      }
