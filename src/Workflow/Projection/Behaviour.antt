-- ===== src/Workflow/Projection/Behaviour.antt =====
-- workflow/event-model.ts: what the events do to a projection, error branches included.
use agent_harness_os.Base.{
  String, ◌≡◌, refl, ◌↔◌, Bool, true, Option, some, nat_eq, string_eq, option_beq_iff, option_eq,
  err,
}
use agent_harness_os.Workflow.Types.{
  WorkerStageName, plan, implement, test, review, repair, StageName, Definition, Projection,
  StageResult, EventData, workflow_created, Event, worker_stage_eq, stage_eq, status_eq,
  decision_eq,
}
use agent_harness_os.Domain.{RunStatus, worker_mode_eq, capability_eq, run_status_eq}
use agent_harness_os.Workflow.Transitions.{next_successful_stage}
use agent_harness_os.Workflow.Definition.{Dates}
use agent_harness_os.Workflow.Stages.{
  transition_error, is_terminal_workflow_status, is_allowed_after_success, is_allowed_next_stage,
}
use agent_harness_os.Workflow.Projection.{project_created, project_current, project_workflow_event}

is_allowed_after_success_lem :
    (d : Definition) (s : WorkerStageName) (t : Option StageName)
    → (is_allowed_after_success d s t ≡ true) ↔ (t ≡ some (next_successful_stage d s))
unfolding is_allowed_after_success next_successful_stage
is_allowed_after_success_lem d plan t = option_beq_iff _ _
is_allowed_after_success_lem d implement t = option_beq_iff _ _
is_allowed_after_success_lem d test t = option_beq_iff _ _
is_allowed_after_success_lem d review t = option_beq_iff _ _
is_allowed_after_success_lem d repair t = option_beq_iff _ _

-- After a completed attempt the projection admits as the next stage exactly the one that
-- `nextSuccessfulStage` names.
pub is_allowed_next_stage-next_successful_stage :
    (p : Projection) (e : StageResult)
    → e.status ≡ RunStatus.completed
    → (is_allowed_next_stage p e ≡ true)
      ↔ (e.next_stage ≡ some (next_successful_stage p.definition e.stage))
unfolding is_allowed_next_stage
is_allowed_next_stage-next_successful_stage p e done =
    rw (done, is_allowed_next_stage)
      (is_allowed_after_success_lem p.definition e.stage e.next_stage)

-- After a terminal status every event is refused, and the code of the error tells an append from a
-- replay.
pub terminal_refuses :
    (dates : Dates) (p : Projection) (event : Event) (sha : String) (append : Bool)
    → is_terminal_workflow_status p.summary.status ≡ true
    → project_workflow_event dates (some p) event sha append ≡ err (transition_error append)
unfolding project_workflow_event project_current project_created
terminal_refuses dates p event sha append over = refused event.payload refl
  where
    refused :
        (x : EventData)
        → event.payload ≡ x
        → project_workflow_event dates (some p) event sha append ≡ err (transition_error append)
    refused (workflow_created d) e = rw (e, project_workflow_event)
    refused _ e = rw (e, over, project_workflow_event, project_current)
