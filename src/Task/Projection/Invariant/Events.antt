-- ===== src/Task/Projection/Invariant/Events.antt =====
-- artifacts/task-event-model.ts: the patch application, and the invariant of `projectTaskEvent`.
use agent_harness_os.Base.{
  ℕ, String, ◌≡◌, refl, sym, ap, subst, Bool, true, false, not, ◌&&◌, Option, none, some, arith,
  ◌==◌, ==_sound, nat_eq, string_eq, option_eq, is_some, HarnessError, ok, ◌>>=◌, throw_if,
  throw_if-eq-ok, Ensures, Ensures-guarded, Ensures->>=, Ensures-ok,
}
use agent_harness_os.Task.Types.{
  in_progress, ended, PatchApplicationStatus, not_requested, pending, approved, applied, rejected,
  AttemptProjection, TaskEventProjection, TaskCreated, TaskEventData, task_created, route_selected,
  worker_started, model_turn_completed, tool_called, worker_completed, patch_produced,
  validation_completed, evaluation_completed, attempt_completed, task_completed,
  patch_application_requested, patch_approved, patch_applied, patch_application_rejected, TaskEvent,
  call_eq, validation_eq, evaluation_eq, policy_eq, task_status_eq, application_eq, dimension_eq,
}
use agent_harness_os.Domain.{RunStatus, worker_mode_eq, capability_eq, run_status_eq}
use agent_harness_os.Task.Projection.{
  has_applicable_patch, is_applicable_run, project_application_requested, application_refused,
  project_patch_approved, project_patch_applied, project_application_rejected, project_task_data,
  is_patch_application_event, clone_task_projection, first_task_projection, project_task_created,
  project_task_later, project_task_payload, project_task_event,
}
use agent_harness_os.Task.Projection.Invariant.{IsApplying, TaskInv}
use agent_harness_os.Task.Projection.Invariant.Preservation.{
  model_turn-KeepsOrder, tool_call-KeepsOrder, worker-KeepsOrder, patch-KeepsOrder,
  validation-KeepsOrder, evaluation-KeepsOrder, change_attempt-TaskInv,
  project_attempt_completed-TaskInv, project_route_selected-TaskInv, project_worker_started-TaskInv,
  project_task_completed-TaskInv,
}

abbrev IsPatchOf : Option AttemptProjection → String → Type 0
IsPatchOf last run_id =
    (a : AttemptProjection) × (last ≡ some a)
    × (a.status ≡ some RunStatus.completed)
    × (is_some a.patch_sha256 ≡ true)
    × (some run_id ≡ some a.run_id)

has_applicable_patch_lem :
    (last : Option AttemptProjection) (run_id : String)
    → has_applicable_patch last run_id ≡ true
    → IsPatchOf last run_id
unfolding has_applicable_patch
has_applicable_patch_lem none run_id h = absurd (cc)
has_applicable_patch_lem (some a) run_id h = (
  a,
  refl,
  ==_sound _ _ (ground arith),
  ground arith,
  ap some (sym (==_sound a.run_id run_id (ground arith))),
)

is_applicable_run_lem :
    (p : TaskEventProjection) (run_id : String)
    → not (is_applicable_run p run_id) ≡ false
    → (p.summary.status ≡ ended RunStatus.completed) × IsPatchOf p.last_attempt run_id
unfolding is_applicable_run
is_applicable_run_lem p run_id h =
    (==_sound _ _ (ground arith), has_applicable_patch_lem p.last_attempt run_id (ground arith))

clone-TaskInv :
    (p : TaskEventProjection) (event : TaskEvent) (sha : String)
    → TaskInv p
    → TaskInv (clone_task_projection p event sha)
unfolding clone_task_projection
clone-TaskInv p event sha v = record {
  attempts_bounded = v.attempts_bounded;
  unrouted = v.unrouted;
  active_current = v.active_current;
  last_ended = v.last_ended;
  ended_status = v.ended_status;
  application = v.application;
}

first-TaskInv :
    (e : TaskCreated) (event : TaskEvent) (sha : String)
    → TaskInv (first_task_projection e event sha)
unfolding first_task_projection
first-TaskInv e event sha = record {
  attempts_bounded = omega arith;
  unrouted = λ h. refl;
  active_current = λ a h. cc;
  last_ended = λ a h. cc;
  ended_status = λ s h. cc;
  application = λ h. absurd (cc);
}

module _ (p : TaskEventProjection) (v : TaskInv p) where
  project_application_requested-TaskInv :
      (run_id : String) (append : Bool)
      → Ensures TaskInv (project_application_requested p run_id append)
  unfolding project_application_requested
  project_application_requested-TaskInv run_id append =
      Ensures->>= TaskInv (throw_if (not (is_applicable_run p run_id)) _) _ λ u applicable.
        Ensures-guarded TaskInv _ _ _ λ h. record {
          attempts_bounded = v.attempts_bounded;
          unrouted = v.unrouted;
          active_current = v.active_current;
          last_ended = v.last_ended;
          ended_status = v.ended_status;
          application = λ f.
              let (done, patched) =
                is_applicable_run_lem p run_id (throw_if-eq-ok _ _ applicable) in
              let (a, last, success, patch, run) = patched in (a, last, done, success, patch, run);
        }

  -- A later step of the application changes its status and nothing else.
  application_step-TaskInv :
      (refused : Bool) (e : HarnessError) (status : PatchApplicationStatus)
      → (refused ≡ false → IsApplying p)
      → Ensures TaskInv (
          throw_if refused e >>= λ _.
          ok (record p { summary = record (p.summary) { patch_application_status = status } }))
  application_step-TaskInv refused e status applying = Ensures-guarded TaskInv refused e _ λ h.
      record {
        attempts_bounded = v.attempts_bounded;
        unrouted = v.unrouted;
        active_current = v.active_current;
        last_ended = v.last_ended;
        ended_status = v.ended_status;
        application = λ f. applying h;
      }

  application_refused_lem :
      (run_id : String) (expected : PatchApplicationStatus)
      → (expected == not_requested) ≡ false
      → application_refused p run_id expected ≡ false
      → IsApplying p
  unfolding application_refused
  application_refused_lem run_id expected known h =
      v.application
        (subst (λ s. (s == not_requested) ≡ false) (sym (==_sound _ expected (ground arith))) known)

  project_application_rejected-TaskInv :
      (run_id : String) (append : Bool)
      → Ensures TaskInv (project_application_rejected p run_id append)
  unfolding project_application_rejected
  project_application_rejected-TaskInv run_id append =
      application_step-TaskInv _ _ rejected λ h. v.application (ground arith)

  project_patch_applied-TaskInv :
      (run_id : String) (files : ℕ) (append : Bool)
      → Ensures TaskInv (project_patch_applied p run_id files append)
  unfolding project_patch_applied
  project_patch_applied-TaskInv run_id files append =
      Ensures->>= TaskInv (throw_if (application_refused p run_id approved) _) _ λ u current.
        application_step-TaskInv _ _ applied
          λ h. application_refused_lem run_id approved refl (throw_if-eq-ok _ _ current)

  project_task_data-TaskInv :
      (d : TaskEventData) (append : Bool)
      → (not (p.summary.status == in_progress) && not (is_patch_application_event d)) ≡ false
      → Ensures TaskInv (project_task_data p d append)
  unfolding project_task_data
  project_task_data-TaskInv (task_created e) append h = tt
  project_task_data-TaskInv (route_selected e) append h =
      project_route_selected-TaskInv p v e append
  project_task_data-TaskInv (worker_started e) append h =
      project_worker_started-TaskInv p v e append (==_sound _ _ (ground arith))
  project_task_data-TaskInv (model_turn_completed e) append h =
      change_attempt-TaskInv p v e.run_id append _ _ (model_turn-KeepsOrder e)
  project_task_data-TaskInv (tool_called e) append h =
      change_attempt-TaskInv p v e.run_id append _ _ (tool_call-KeepsOrder _ e)
  project_task_data-TaskInv (worker_completed e) append h =
      change_attempt-TaskInv p v e.run_id append _ _ (worker-KeepsOrder _ e)
  project_task_data-TaskInv (patch_produced e) append h =
      change_attempt-TaskInv p v e.run_id append _ _ (patch-KeepsOrder e)
  project_task_data-TaskInv (validation_completed e) append h =
      change_attempt-TaskInv p v e.run_id append _ _ (validation-KeepsOrder e)
  project_task_data-TaskInv (evaluation_completed e) append h =
      change_attempt-TaskInv p v e.run_id append _ _ (evaluation-KeepsOrder e)
  project_task_data-TaskInv (attempt_completed e) append h =
      project_attempt_completed-TaskInv p v e append
  project_task_data-TaskInv (task_completed e) append h =
      project_task_completed-TaskInv p v e append (==_sound _ _ (ground arith))
  project_task_data-TaskInv (patch_application_requested run_id) append h =
      project_application_requested-TaskInv run_id append
  project_task_data-TaskInv (patch_approved run_id) append h =
      unfold project_patch_approved in
      application_step-TaskInv _ _ approved (application_refused_lem run_id pending refl)
  project_task_data-TaskInv (patch_applied run_id files) append h =
      project_patch_applied-TaskInv run_id files append
  project_task_data-TaskInv (patch_application_rejected run_id failure) append h =
      project_application_rejected-TaskInv run_id append

abbrev pub IsSomeTask : Option TaskEventProjection → Type 0
IsSomeTask none = Unit
IsSomeTask (some p) = TaskInv p

clone-open :
    (p : TaskEventProjection) (event : TaskEvent) (sha : String)
    → (not (p.summary.status == in_progress) && not (is_patch_application_event event.payload))
      ≡ false
    → (not ((clone_task_projection p event sha).summary.status == in_progress)
        && not (is_patch_application_event event.payload))
      ≡ false
unfolding clone_task_projection
clone-open p event sha h = h

project_task_later-TaskInv :
    (current : Option TaskEventProjection) (event : TaskEvent) (sha : String) (append : Bool)
    → IsSomeTask current
    → Ensures TaskInv (project_task_later current event sha append)
unfolding project_task_later
project_task_later-TaskInv none event sha append v = tt
project_task_later-TaskInv (some p) event sha append v =
    Ensures->>= TaskInv (throw_if (not (event.schema_version == p.event_schema_version)) _) _
      λ u same_version.
        Ensures->>= TaskInv
          (throw_if
            (not (p.summary.status == in_progress)
              && not (is_patch_application_event event.payload))
            _)
          _
          λ w open_task.
            project_task_data-TaskInv (clone_task_projection p event sha)
              (clone-TaskInv p event sha v) event.payload append
              (clone-open p event sha (throw_if-eq-ok _ _ open_task))

project_task_created-TaskInv :
    (current : Option TaskEventProjection) (e : TaskCreated) (event : TaskEvent) (sha : String)
    (append : Bool)
    → Ensures TaskInv (project_task_created current e event sha append)
unfolding project_task_created
project_task_created-TaskInv (some p) e event sha append = tt
project_task_created-TaskInv none e event sha append = first-TaskInv e event sha

project_task_payload-TaskInv :
    (d : TaskEventData) (current : Option TaskEventProjection) (event : TaskEvent) (sha : String)
    (append : Bool)
    → IsSomeTask current
    → Ensures TaskInv (project_task_payload d current event sha append)
unfolding project_task_payload
project_task_payload-TaskInv (task_created e) current event sha append v =
    project_task_created-TaskInv current e event sha append
project_task_payload-TaskInv _ current event sha append v =
    project_task_later-TaskInv current event sha append v

-- What one more event leaves has the invariant, where what it starts from has it.
pub project_task_event-TaskInv :
    (current : Option TaskEventProjection) (event : TaskEvent) (sha : String) (append : Bool)
    → IsSomeTask current
    → (q : TaskEventProjection) → project_task_event current event sha append ≡ ok q
    → TaskInv q
unfolding project_task_event
project_task_event-TaskInv current event sha append v q h =
    Ensures-ok TaskInv _ (project_task_payload-TaskInv event.payload current event sha append v) h
