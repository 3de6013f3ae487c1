-- ===== src/Workflow/Projection/Preservation.antt =====
-- workflow/event-model.ts: every accepted event keeps the invariant of projections.
use agent_harness_os.Base.{
  String, ◌≡◌, refl, inl, inr, Bool, Option, none, some, arith, Bool-cases, ==_sound, nat_eq,
  string_eq, option_eq, ok, Ensures, Ensures-guarded, Ensures-ok,
}
use agent_harness_os.Workflow.Types.{
  StageName, Definition, Decision, FinalStatus, Projection, EventData, workflow_created,
  stage_started, stage_interrupted, dependency_state_changed, stage_completed, approval_requested,
  approval_decided, workflow_completed, Event, worker_stage_eq, stage_eq, status_eq, decision_eq,
}
use agent_harness_os.Domain.{worker_mode_eq, capability_eq, run_status_eq}
use agent_harness_os.Workflow.Definition.{Dates}
use agent_harness_os.Workflow.Stages.{is_terminal_workflow_status, clone_projection}
use agent_harness_os.Workflow.Projection.{
  approval_request_refused, project_approval_requested, approval_decision_refused,
  project_approval_decided, completion_refused, project_workflow_completed, project_data,
  first_projection, project_created, project_current, project_workflow_event,
}
use agent_harness_os.Workflow.Projection.Invariant.{
  Inv, project_dependency_state_changed-Inv, project_stage_started-Inv,
  project_stage_interrupted-Inv, project_stage_completed-Inv,
}

module _ (p : Projection) (v : Inv p) where
  project_approval_requested-Inv :
      (id : String) (append : Bool) → Ensures Inv (project_approval_requested p id append)
  unfolding project_approval_requested approval_request_refused is_terminal_workflow_status
  project_approval_requested-Inv id append = Ensures-guarded Inv _ _ _ λ h. record {
    transitions_bounded = v.transitions_bounded;
    attempts_counted = v.attempts_counted;
    repairs_bounded = v.repairs_bounded;
    retries_bounded = v.retries_bounded;
    running_iff = ground arith;
    awaiting_iff = refl;
    awaiting_stage = λ _. ==_sound _ _ (ground arith);
    active_stage = v.active_stage;
    stage_defined = v.stage_defined;
    approved_stage = λ x. cc;
    terminal_stage = λ x. cc;
    completed_approved = λ x. cc;
  }

  project_approval_decided-Inv :
      (decision : Decision) (target : Option StageName) (append : Bool)
      → Ensures Inv (project_approval_decided p decision target append)
  unfolding project_approval_decided approval_decision_refused is_terminal_workflow_status
  project_approval_decided-Inv decision target append = Ensures-guarded Inv _ _ _ λ h. record {
    transitions_bounded = v.transitions_bounded;
    attempts_counted = v.attempts_counted;
    repairs_bounded = v.repairs_bounded;
    retries_bounded = v.retries_bounded;
    running_iff = ground arith;
    awaiting_iff = refl;
    awaiting_stage = λ x. cc;
    active_stage = ground arith;
    stage_defined = λ s f. ground arith;
    approved_stage = ground arith;
    terminal_stage = λ x. cc;
    completed_approved = λ x. cc;
  }

  project_workflow_completed-Inv :
      (status : FinalStatus) (failure candidate : Option String) (append : Bool)
      → Ensures Inv (project_workflow_completed p status failure candidate append)
  unfolding project_workflow_completed completion_refused is_terminal_workflow_status
  project_workflow_completed-Inv status failure candidate append = Ensures-guarded Inv _ _ _ λ h.
      record {
        transitions_bounded = v.transitions_bounded;
        attempts_counted = v.attempts_counted;
        repairs_bounded = v.repairs_bounded;
        retries_bounded = v.retries_bounded;
        running_iff = ground arith;
        awaiting_iff = ground arith;
        awaiting_stage = λ x. cc;
        active_stage = ground arith;
        stage_defined = λ s f. cc;
        approved_stage = λ _. refl;
        terminal_stage = λ _. refl;
        completed_approved = ground arith;
      }

  project_data-Inv : (x : EventData) (append : Bool) → Ensures Inv (project_data p x append)
  unfolding project_data
  project_data-Inv (workflow_created d) append = tt
  project_data-Inv (stage_started e) append = project_stage_started-Inv p v e append
  project_data-Inv (stage_interrupted s id reason) append =
      project_stage_interrupted-Inv p v s id append
  project_data-Inv (dependency_state_changed s) append =
      project_dependency_state_changed-Inv p v s append
  project_data-Inv (stage_completed e) append = project_stage_completed-Inv p v e append
  project_data-Inv (approval_requested id) append = project_approval_requested-Inv id append
  project_data-Inv (approval_decided d f t) append = project_approval_decided-Inv d t append
  project_data-Inv (workflow_completed s f c) append = project_workflow_completed-Inv s f c append

pub clone_projection-Inv :
    (p : Projection) (event : Event) (sha : String) → Inv p → Inv (clone_projection p event sha)
unfolding clone_projection
clone_projection-Inv p event sha v = record {
  transitions_bounded = v.transitions_bounded;
  attempts_counted = v.attempts_counted;
  repairs_bounded = v.repairs_bounded;
  retries_bounded = v.retries_bounded;
  running_iff = v.running_iff;
  awaiting_iff = v.awaiting_iff;
  awaiting_stage = v.awaiting_stage;
  active_stage = v.active_stage;
  stage_defined = v.stage_defined;
  approved_stage = v.approved_stage;
  terminal_stage = v.terminal_stage;
  completed_approved = v.completed_approved;
}

first_projection-Inv :
    (d : Definition) (event : Event) (sha : String) → Inv (first_projection d event sha)
unfolding first_projection is_terminal_workflow_status
first_projection-Inv d event sha = record {
  transitions_bounded = omega arith;
  attempts_counted = omega arith;
  repairs_bounded = omega arith;
  retries_bounded = λ t. omega arith;
  running_iff = refl;
  awaiting_iff = refl;
  awaiting_stage = λ x. cc;
  active_stage = λ x. cc;
  stage_defined = λ s f. ground arith;
  approved_stage = λ x. cc;
  terminal_stage = λ x. cc;
  completed_approved = λ x. cc;
}

-- Either there is no projection yet, or it satisfies the invariant.
abbrev pub StartsFrom : Option Projection → Type 0
StartsFrom none = Unit
StartsFrom (some p) = Inv p

project_current-Inv :
    (current : Option Projection) (event : Event) (sha : String) (append : Bool)
    → StartsFrom current
    → Ensures Inv (project_current current event sha append)
unfolding project_current
project_current-Inv none event sha append v = tt
project_current-Inv (some p) event sha append v =
    elim (Bool-cases (is_terminal_workflow_status p.summary.status)) [
      | inl over ↦ rw over tt
      | inr open_still ↦ rw open_still (
          project_data-Inv (clone_projection p event sha) (clone_projection-Inv p event sha v)
            event.payload append)
    ]

project_created-Inv :
    (dates : Dates) (current : Option Projection) (d : Definition) (event : Event) (sha : String)
    (append : Bool)
    → Ensures Inv (project_created dates current d event sha append)
unfolding project_created
project_created-Inv dates (some p) d event sha append = tt
project_created-Inv dates none d event sha append =
    Ensures-guarded Inv _ _ _ (λ _. first_projection-Inv d event sha)

module _ (dates : Dates) (current : Option Projection) where
  project_payload-Inv :
      (event : Event) (x : EventData) (sha : String) (append : Bool)
      → event.payload ≡ x
      → StartsFrom current
      → Ensures Inv (project_workflow_event dates current event sha append)
  unfolding project_workflow_event
  project_payload-Inv event (workflow_created d) sha append e v =
      rw (e, project_workflow_event) (project_created-Inv dates current d event sha append)
  project_payload-Inv event _ sha append e v =
      rw (e, project_workflow_event) (project_current-Inv current event sha append v)

  -- An event that is accepted leads from a projection with the invariant, or from none, to one with
  -- the invariant: the transition, repair and retry budgets hold, the attempts of all stages add up
  -- to the transitions, the status says whether a stage runs or an approval is awaited, and a
  -- completed workflow is approved and has a candidate.
  pub project_workflow_event-Inv :
      (event : Event) (sha : String) (append : Bool) {p : Projection}
      → StartsFrom current
      → project_workflow_event dates current event sha append ≡ ok p
      → Inv p
  project_workflow_event-Inv event sha append v e =
      Ensures-ok Inv _ (project_payload-Inv event event.payload sha append refl v) e
