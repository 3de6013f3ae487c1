-- ===== src/Task/Journal/History.antt =====
-- artifacts/task-journal.ts: what a task's history that was read says of its own events.
use agent_harness_os.Base.{
  ℕ, ◌≤◌, String, ◌≡◌, subst, ◌∙◌, Bool, true, false, not, some, List, arith, ◌==◌, ==_sound,
  nat_eq, string_eq, option_eq, length, In, Result, throw_if, throw_if-eq-ok, Ensures,
  Ensures-guarded, Ensures->>=, Ensures-map,
}
use agent_harness_os.Task.Types.{
  PatchApplicationStatus, approved, applied, TaskEventProjection, RouteSelected, TaskEventData,
  task_created, route_selected, worker_started, model_turn_completed, tool_called, worker_completed,
  patch_produced, validation_completed, evaluation_completed, attempt_completed, task_completed,
  patch_application_requested, patch_approved, patch_applied, patch_application_rejected, TaskEvent,
  call_eq, validation_eq, evaluation_eq, policy_eq, task_status_eq, application_eq, dimension_eq,
}
use agent_harness_os.Domain.{worker_mode_eq, capability_eq, run_status_eq}
use agent_harness_os.Workflow.Definition.{Dates}
use agent_harness_os.Task.Validation.{is_route_selected, is_task_event_data}
use agent_harness_os.Task.Projection.{
  project_route_selected, is_applicable_run, project_application_requested, application_refused,
  project_patch_approved, project_patch_applied, project_application_rejected, project_task_data,
}
use agent_harness_os.Task.Journal.Frames.{
  IsFramed, change_attempt-IsFramed, project_attempt_completed-IsFramed,
  project_worker_started-IsFramed, project_task_completed-IsFramed,
}

-- Whether the application of the patch has got its approval.
abbrev pub is_approved : PatchApplicationStatus → Bool
is_approved approved = true
is_approved applied = true
is_approved _ = false

-- What a projection owes to the events that it was made of.
pub record Recorded (events : List TaskEvent) (p : TaskEventProjection) : Type 0 where
  pub limit_bounded : p.max_attempts ≤ 8
  pub limit_covered : p.max_attempts ≤ length p.candidate_worker_ids
  pub counted : p.summary.event_count ≡ length events
  pub approval_recorded :
      is_approved p.summary.patch_application_status ≡ true
      → (run_id : String) × (e : TaskEvent) × (p.application_run_id ≡ some run_id)
        × In e events
        × (e.payload ≡ patch_approved run_id)

pub approval_status_lem :
    (s : PatchApplicationStatus) → not (s == approved) ≡ false → is_approved s ≡ true
approval_status_lem s h = ground arith

module _ (events : List TaskEvent) (p : TaskEventProjection) (v : Recorded events p) where
  framed-Recorded : (q : TaskEventProjection) → IsFramed p q → Recorded events q
  framed-Recorded q f = record {
    limit_bounded = rw f.same_limit v.limit_bounded;
    limit_covered = rw (f.same_limit, f.same_candidates) v.limit_covered;
    counted = f.same_count ∙ v.counted;
    approval_recorded = λ h.
        let (run_id, e, run, known, approval) =
          v.approval_recorded (subst (λ s. is_approved s ≡ true) f.same_application h) in
        (run_id, e, f.same_run ∙ run, known, approval);
  }

  framed-Ensures :
      (m : Result TaskEventProjection) → Ensures (IsFramed p) m → Ensures (Recorded events) m
  framed-Ensures m = Ensures-map (IsFramed p) (Recorded events) m framed-Recorded

  project_route_selected-Recorded :
      (dates : Dates) (version : ℕ) (e : RouteSelected) (append : Bool)
      → is_route_selected dates version e ≡ true
      → Ensures (Recorded events) (project_route_selected p e append)
  unfolding project_route_selected is_route_selected
  project_route_selected-Recorded dates version e append valid =
      Ensures-guarded (Recorded events) _ _ _ λ h. record {
        limit_bounded = ground arith;
        limit_covered = ground arith;
        counted = v.counted;
        approval_recorded = v.approval_recorded;
      }

  project_application_requested-Recorded :
      (run_id : String) (append : Bool)
      → Ensures (Recorded events) (project_application_requested p run_id append)
  unfolding project_application_requested
  project_application_requested-Recorded run_id append =
      Ensures->>= (Recorded events) (throw_if (not (is_applicable_run p run_id)) _) _
        λ u applicable. Ensures-guarded (Recorded events) _ _ _ λ h. record {
          limit_bounded = v.limit_bounded;
          limit_covered = v.limit_covered;
          counted = v.counted;
          approval_recorded = λ f. cc;
        }

  project_patch_approved-Recorded :
      (e : TaskEvent) (run_id : String) (append : Bool)
      → In e events
      → e.payload ≡ patch_approved run_id
      → Ensures (Recorded events) (project_patch_approved p run_id append)
  unfolding project_patch_approved application_refused
  project_patch_approved-Recorded e run_id append known approval =
      Ensures-guarded (Recorded events) _ _ _ λ h. record {
        limit_bounded = v.limit_bounded;
        limit_covered = v.limit_covered;
        counted = v.counted;
        approval_recorded =
            λ f. (run_id, e, ==_sound _ (some run_id) (ground arith), known, approval);
      }

  project_patch_applied-Recorded :
      (run_id : String) (files : ℕ) (append : Bool)
      → Ensures (Recorded events) (project_patch_applied p run_id files append)
  unfolding project_patch_applied application_refused
  project_patch_applied-Recorded run_id files append =
      Ensures->>= (Recorded events) (throw_if (application_refused p run_id approved) _) _
        λ u current. Ensures-guarded (Recorded events) _ _ _ λ h. record {
          limit_bounded = v.limit_bounded;
          limit_covered = v.limit_covered;
          counted = v.counted;
          approval_recorded = λ f. v.approval_recorded (was_approved (throw_if-eq-ok _ _ current));
        }
    where
      was_approved :
          application_refused p run_id approved ≡ false
          → is_approved p.summary.patch_application_status ≡ true
      was_approved h = approval_status_lem _ (ground arith)

  project_application_rejected-Recorded :
      (run_id : String) (append : Bool)
      → Ensures (Recorded events) (project_application_rejected p run_id append)
  unfolding project_application_rejected
  project_application_rejected-Recorded run_id append = Ensures-guarded (Recorded events) _ _ _ λ h.
      record {
        limit_bounded = v.limit_bounded;
        limit_covered = v.limit_covered;
        counted = v.counted;
        approval_recorded = λ f. cc;
      }

  pub project_task_data-Recorded :
      (dates : Dates) (version sequence : ℕ) (e : TaskEvent) (d : TaskEventData) (append : Bool)
      → In e events
      → e.payload ≡ d
      → is_task_event_data dates version sequence d ≡ true
      → Ensures (Recorded events) (project_task_data p d append)
  unfolding project_task_data is_task_event_data
  project_task_data-Recorded dates version sequence e (task_created c) append m f valid = tt
  project_task_data-Recorded dates version sequence e (route_selected c) append m f valid =
      project_route_selected-Recorded dates version c append valid
  project_task_data-Recorded dates version sequence e (worker_started c) append m f valid =
      framed-Ensures _ (project_worker_started-IsFramed p append c)
  project_task_data-Recorded dates version sequence e (model_turn_completed c) append m f valid =
      framed-Ensures _ (change_attempt-IsFramed p append c.run_id _ _)
  project_task_data-Recorded dates version sequence e (tool_called c) append m f valid =
      framed-Ensures _ (change_attempt-IsFramed p append c.run_id _ _)
  project_task_data-Recorded dates version sequence e (worker_completed c) append m f valid =
      framed-Ensures _ (change_attempt-IsFramed p append c.run_id _ _)
  project_task_data-Recorded dates version sequence e (patch_produced c) append m f valid =
      framed-Ensures _ (change_attempt-IsFramed p append c.run_id _ _)
  project_task_data-Recorded dates version sequence e (validation_completed c) append m f valid =
      framed-Ensures _ (change_attempt-IsFramed p append c.run_id _ _)
  project_task_data-Recorded dates version sequence e (evaluation_completed c) append m f valid =
      framed-Ensures _ (change_attempt-IsFramed p append c.run_id _ _)
  project_task_data-Recorded dates version sequence e (attempt_completed c) append m f valid =
      framed-Ensures _ (project_attempt_completed-IsFramed p append c)
  project_task_data-Recorded dates version sequence e (task_completed c) append m f valid =
      framed-Ensures _ (project_task_completed-IsFramed p append c)
  project_task_data-Recorded dates version sequence e (patch_application_requested r) append m f
        valid =
      project_application_requested-Recorded r append
  project_task_data-Recorded dates version sequence e (patch_approved r) append m f valid =
      project_patch_approved-Recorded e r append m f
  project_task_data-Recorded dates version sequence e (patch_applied r files) append m f valid =
      project_patch_applied-Recorded r files append
  project_task_data-Recorded dates version sequence e (patch_application_rejected r why) append m f
        valid =
      project_application_rejected-Recorded r append
