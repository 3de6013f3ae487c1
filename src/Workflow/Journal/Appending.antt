-- ===== src/Workflow/Journal/Appending.antt =====
-- workflow/journal.ts, `append` then `readTimeline`: what was appended is read back.
use agent_harness_os.Base.{
  String, ◌≡◌, refl, inl, inr, Bool, true, false, Option, none, some, Bool-cases, HarnessError, ok,
  ◌>>=◌, throw_if, >>=-eq-ok, throw_if-eq-ok, Ensures, Ensures-guarded,
}
use agent_harness_os.Workflow.Types.{
  Projection, EventData, workflow_created, stage_started, stage_interrupted,
  dependency_state_changed, stage_completed, approval_requested, approval_decided,
  workflow_completed, Event,
}
use agent_harness_os.Workflow.Definition.{Dates}
use agent_harness_os.Workflow.Stages.{
  is_terminal_workflow_status, clone_projection, project_dependency_state_changed,
  project_stage_started, project_stage_interrupted, project_stage_completed,
}
use agent_harness_os.Workflow.Projection.{
  project_approval_requested, project_approval_decided, project_workflow_completed, project_data,
  first_projection, project_created, project_current, project_workflow_event,
}

-- Whether an event is accepted does not depend on `appendOperation`, which only chooses the error.
throw_if-eq-ok_any :
    {A : Type 0} (b : Bool) (e e' : HarnessError) (a a' : A)
    → (throw_if b e >>= λ _. ok a) ≡ ok a'
    → (throw_if b e' >>= λ _. ok a) ≡ ok a'
throw_if-eq-ok_any true e e' a a' h = cc
throw_if-eq-ok_any false e e' a a' h = h

project_data-append :
    (p q : Projection) (x : EventData)
    → project_data p x true ≡ ok q
    → project_data p x false ≡ ok q
unfolding project_data project_stage_started project_stage_completed project_stage_interrupted
    project_dependency_state_changed project_approval_requested project_approval_decided
    project_workflow_completed
project_data-append p q (workflow_created d) h = cc
project_data-append p q (stage_started e) h = throw_if-eq-ok_any _ _ _ _ _ h
project_data-append p q (stage_interrupted s id reason) h = throw_if-eq-ok_any _ _ _ _ _ h
project_data-append p q (dependency_state_changed s) h = throw_if-eq-ok_any _ _ _ _ _ h
project_data-append p q (stage_completed e) h = throw_if-eq-ok_any _ _ _ _ _ h
project_data-append p q (approval_requested id) h = throw_if-eq-ok_any _ _ _ _ _ h
project_data-append p q (approval_decided d f t) h = throw_if-eq-ok_any _ _ _ _ _ h
project_data-append p q (workflow_completed s f c) h = throw_if-eq-ok_any _ _ _ _ _ h

project_current-append :
    (p q : Projection) (event : Event) (sha : String)
    → project_current (some p) event sha true ≡ ok q
    → project_current (some p) event sha false ≡ ok q
unfolding project_current
project_current-append p q event sha h =
    let (_, open_still, rest) = >>=-eq-ok _ _ h in
    let closed : is_terminal_workflow_status p.summary.status ≡ false =
      throw_if-eq-ok _ _ open_still in
    rw closed (project_data-append (clone_projection p event sha) q event.payload rest)

pub project_workflow_event-append :
    (dates : Dates) (p q : Projection) (event : Event) (x : EventData) (sha : String)
    → event.payload ≡ x
    → project_workflow_event dates (some p) event sha true ≡ ok q
    → project_workflow_event dates (some p) event sha false ≡ ok q
unfolding project_workflow_event project_created
project_workflow_event-append dates p q event (workflow_created d) sha e h =
    absurd (cc (rw (e, project_workflow_event) at h))
project_workflow_event-append dates p q event _ sha e h =
    rw (e, project_workflow_event)
      (project_current-append p q event sha (rw (e, project_workflow_event) at h))

-- An accepted event leaves its digest in the projection.
abbrev pub HasLatest : String → Projection → Type 0
HasLatest sha q = q.summary.latest_event_sha256 ≡ sha

project_data-HasLatest :
    (p : Projection) (sha : String) (x : EventData) (on_append : Bool)
    → HasLatest sha p
    → Ensures (HasLatest sha) (project_data p x on_append)
unfolding project_data project_stage_started project_stage_completed project_stage_interrupted
    project_dependency_state_changed project_approval_requested project_approval_decided
    project_workflow_completed
project_data-HasLatest p sha (workflow_created d) a h = tt
project_data-HasLatest p sha (stage_started e) a h = Ensures-guarded (HasLatest sha) _ _ _ (λ _. h)
project_data-HasLatest p sha (stage_interrupted s id r) a h =
    Ensures-guarded (HasLatest sha) _ _ _ (λ _. h)
project_data-HasLatest p sha (dependency_state_changed s) a h =
    Ensures-guarded (HasLatest sha) _ _ _ (λ _. h)
project_data-HasLatest p sha (stage_completed e) a h =
    Ensures-guarded (HasLatest sha) _ _ _ (λ _. h)
project_data-HasLatest p sha (approval_requested id) a h =
    Ensures-guarded (HasLatest sha) _ _ _ (λ _. h)
project_data-HasLatest p sha (approval_decided d f t) a h =
    Ensures-guarded (HasLatest sha) _ _ _ (λ _. h)
project_data-HasLatest p sha (workflow_completed s f c) a h =
    Ensures-guarded (HasLatest sha) _ _ _ (λ _. h)

project_current-HasLatest :
    (current : Option Projection) (event : Event) (sha : String) (on_append : Bool)
    → Ensures (HasLatest sha) (project_current current event sha on_append)
unfolding project_current clone_projection
project_current-HasLatest none event sha a = tt
project_current-HasLatest (some p) event sha a =
    elim (Bool-cases (is_terminal_workflow_status p.summary.status)) [
      | inl over ↦ rw over tt
      | inr closed ↦
          rw closed (project_data-HasLatest (clone_projection p event sha) sha event.payload a refl)
    ]

pub project_workflow_event-HasLatest :
    (dates : Dates) (current : Option Projection) (event : Event) (x : EventData) (sha : String)
    (on_append : Bool)
    → event.payload ≡ x
    → Ensures (HasLatest sha) (project_workflow_event dates current event sha on_append)
unfolding project_workflow_event project_created first_projection
project_workflow_event-HasLatest dates none event (workflow_created d) sha a e =
    rw (e, project_workflow_event) (Ensures-guarded (HasLatest sha) _ _ _ (λ _. refl))
project_workflow_event-HasLatest dates (some p) event (workflow_created d) sha a e =
    rw (e, project_workflow_event) tt
project_workflow_event-HasLatest dates current event _ sha a e =
    rw (e, project_workflow_event) (project_current-HasLatest current event sha a)
