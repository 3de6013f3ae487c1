-- ===== src/Task/Projection/Invariant/Preservation.antt =====
-- artifacts/task-event-model.ts: every accepted event keeps the invariant.
use agent_harness_os.Base.{
  ℕ, ◌≤◌, String, ◌≡◌, refl, sym, ap, subst, ◌∙◌, Bool, false, not, ◌||◌, Option, none, some, arith,
  ◌==◌, ==_sound, nat_eq, string_eq, option_eq, is_none, is_some, some-same, set_add, ok, throw_if,
  throw_if-eq-ok, Ensures, Ensures-guarded, Ensures->>=, ok-injective, throw_if_inv,
}
use agent_harness_os.Task.Types.{
  in_progress, ended, not_requested, AttemptProjection, TaskEventProjection, RouteSelected,
  WorkerStarted, ModelTurnCompleted, ToolCalled, WorkerCompleted, PatchProduced,
  ValidationCompleted, EvaluationCompleted, AttemptCompleted, TaskCompleted, call_eq, validation_eq,
  evaluation_eq, policy_eq, task_status_eq, application_eq, dimension_eq,
}
use agent_harness_os.Domain.{RunStatus, worker_mode_eq, capability_eq, run_status_eq}
use agent_harness_os.Task.Attempts.{
  task_transition_error, get_active_run, change_attempt, model_turn_refused, after_model_turn,
  tool_call_refused, after_tool_call, worker_completion_refused, after_worker, patch_refused,
  after_patch, validation_refused, after_validation, evaluation_refused, after_evaluation,
  evidence_missing, success_contradicted, attempt_contradicted, after_attempt,
  project_attempt_completed,
}
use agent_harness_os.Task.Projection.{
  project_route_selected, worker_start_refused, new_attempt, project_worker_started,
  task_outcome_refused, project_task_completed,
}
use agent_harness_os.Task.Projection.Invariant.{
  IsOrdered, IsLastStatus, IsActive, HasEnded, TaskInv,
}

-- A change of the active attempt that keeps its number and the order of its evidence.
abbrev pub KeepsOrder :
    (AttemptProjection → Bool) → (AttemptProjection → AttemptProjection) → Type 0
KeepsOrder refused change =
    (a : AttemptProjection)
    → refused a ≡ false
    → IsOrdered a
    → IsOrdered (change a) × ((change a).attempt_number ≡ a.attempt_number)

pub model_turn-KeepsOrder :
    (e : ModelTurnCompleted) → KeepsOrder (model_turn_refused e) (after_model_turn e)
model_turn-KeepsOrder e a h o = (
  record {
    worker_known = o.worker_known;
    validation_known = o.validation_known;
    evaluation_known = o.evaluation_known;
    worker_first = o.worker_first;
    validation_first = o.validation_first;
    patch_after_worker = o.patch_after_worker;
    patch_counted = o.patch_counted;
  },
  refl,
)

pub tool_call-KeepsOrder :
    (version : ℕ) (e : ToolCalled) → KeepsOrder (tool_call_refused version e) after_tool_call
tool_call-KeepsOrder version e a h o = (
  record {
    worker_known = o.worker_known;
    validation_known = o.validation_known;
    evaluation_known = o.evaluation_known;
    worker_first = o.worker_first;
    validation_first = o.validation_first;
    patch_after_worker = o.patch_after_worker;
    patch_counted = o.patch_counted;
  },
  refl,
)

pub worker-KeepsOrder :
    (version : ℕ) (e : WorkerCompleted)
    → KeepsOrder (worker_completion_refused version e) (after_worker e)
worker-KeepsOrder version e a h o = (
  record {
    worker_known = refl;
    validation_known = o.validation_known;
    evaluation_known = o.evaluation_known;
    worker_first = λ _. refl;
    validation_first = o.validation_first;
    patch_after_worker = λ _. refl;
    patch_counted = o.patch_counted;
  },
  refl,
)

pub patch-KeepsOrder : (e : PatchProduced) → KeepsOrder patch_refused (after_patch e)
unfolding patch_refused
patch-KeepsOrder e a h o = (
  record {
    worker_known = o.worker_known;
    validation_known = o.validation_known;
    evaluation_known = o.evaluation_known;
    worker_first = o.worker_first;
    validation_first = o.validation_first;
    patch_after_worker = λ _. ground arith;
    patch_counted = refl;
  },
  refl,
)

pub validation-KeepsOrder :
    (e : ValidationCompleted) → KeepsOrder validation_refused (after_validation e)
unfolding validation_refused
validation-KeepsOrder e a h o = (
  record {
    worker_known = o.worker_known;
    validation_known = refl;
    evaluation_known = o.evaluation_known;
    worker_first = λ _. ground arith;
    validation_first = λ _. refl;
    patch_after_worker = o.patch_after_worker;
    patch_counted = o.patch_counted;
  },
  refl,
)

pub evaluation-KeepsOrder :
    (e : EvaluationCompleted) → KeepsOrder evaluation_refused (after_evaluation e)
unfolding evaluation_refused
evaluation-KeepsOrder e a h o = (
  record {
    worker_known = o.worker_known;
    validation_known = o.validation_known;
    evaluation_known = refl;
    worker_first = o.worker_first;
    validation_first = λ _. ground arith;
    patch_after_worker = o.patch_after_worker;
    patch_counted = o.patch_counted;
  },
  refl,
)

after_attempt-HasEnded :
    (version : ℕ) (e : AttemptCompleted) (a : AttemptProjection)
    → evidence_missing version a ≡ false
    → attempt_contradicted version e a ≡ false
    → IsOrdered a
    → HasEnded (after_attempt e a)
unfolding evidence_missing attempt_contradicted success_contradicted
after_attempt-HasEnded version e a h k o = (
  refl,
  record {
    worker_known = o.worker_known;
    validation_known = o.validation_known;
    evaluation_known = o.evaluation_known;
    worker_first = o.worker_first;
    validation_first = o.validation_first;
    patch_after_worker = o.patch_after_worker;
    patch_counted = o.patch_counted;
  },
  λ done. record {
    worker_succeeded = ==_sound _ _ (ground arith);
    validated = ground arith;
    validation_passed = ground arith;
    evaluation_passed = ground arith;
    no_failure = ground arith;
  },
)

get_active_run-some :
    (active : Option AttemptProjection) (run_id : String) (append : Bool) (a : AttemptProjection)
    → get_active_run active run_id append ≡ ok a
    → active ≡ some a
unfolding get_active_run
get_active_run-some none run_id append a h = absurd (cc)
get_active_run-some (some b) run_id append a h =
    ap some
      (ok-injective (throw_if_inv (not (b.run_id == run_id)) (task_transition_error append) _ h).1)

new_attempt-IsOrdered : (e : WorkerStarted) → IsOrdered (new_attempt e)
new_attempt-IsOrdered e = record {
  worker_known = refl;
  validation_known = refl;
  evaluation_known = refl;
  worker_first = λ h. cc;
  validation_first = λ h. cc;
  patch_after_worker = λ h. cc;
  patch_counted = refl;
}

task_outcome_lem :
    (last : Option AttemptProjection) (e : TaskCompleted)
    → task_outcome_refused last e ≡ false
    → IsLastStatus last e.status
unfolding task_outcome_refused
task_outcome_lem none e h = ==_sound _ _ (ground arith)
task_outcome_lem (some a) e h = sym (==_sound (some e.status) a.status (ground arith))

pub ended-same : {s t : RunStatus} → ended s ≡ ended t → s ≡ t
ended-same h = cc

abbrev started : TaskEventProjection → WorkerStarted → TaskEventProjection
started p e = record p {
  active_attempt = some (new_attempt e);
  known_run_ids = set_add p.known_run_ids e.run_id;
  summary = record (p.summary) {
    attempt_count = e.attempt_number;
    latest_run_id = some e.run_id;
    worker_ids = set_add p.summary.worker_ids e.worker_id;
  };
}

module _ (p : TaskEventProjection) (v : TaskInv p) where
  pub change_attempt-TaskInv :
      (run_id : String) (append : Bool) (refused : AttemptProjection → Bool)
      (change : AttemptProjection → AttemptProjection)
      → KeepsOrder refused change
      → Ensures TaskInv (change_attempt p run_id append refused change)
  unfolding change_attempt
  change_attempt-TaskInv run_id append refused change keeps =
      Ensures->>= TaskInv (get_active_run p.active_attempt run_id append) _ λ a taken.
        Ensures-guarded TaskInv (refused a) (task_transition_error append) _ λ h.
          let (number, routed, running, order) =
            v.active_current a (get_active_run-some _ _ _ _ taken) in
          let (order', number') = keeps a h order in
          record {
            attempts_bounded = v.attempts_bounded;
            unrouted = v.unrouted;
            active_current =
                λ b e. subst (IsActive p) (some-same e) (number' ∙ number, routed, running, order');
            last_ended = v.last_ended;
            ended_status = v.ended_status;
            application = v.application;
          }

  pub project_attempt_completed-TaskInv :
      (e : AttemptCompleted) (append : Bool)
      → Ensures TaskInv (project_attempt_completed p e append)
  unfolding project_attempt_completed
  project_attempt_completed-TaskInv e append =
      Ensures->>= TaskInv (get_active_run p.active_attempt e.run_id append) _ λ a taken.
        Ensures->>= TaskInv (throw_if (evidence_missing p.event_schema_version a) _) _ λ u present.
          Ensures-guarded TaskInv (attempt_contradicted p.event_schema_version e a) _ _ λ h.
            let (number, routed, running, order) =
              v.active_current a (get_active_run-some _ _ _ _ taken) in
            let ended_now =
              after_attempt-HasEnded p.event_schema_version e a
                (throw_if-eq-ok (evidence_missing p.event_schema_version a) _ present) h order in
            record {
              attempts_bounded = v.attempts_bounded;
              unrouted = v.unrouted;
              active_current = λ b f. cc;
              last_ended = λ b f. subst HasEnded (some-same f) ended_now;
              ended_status = λ s f. cc;
              application = λ f. absurd (not_applying running f);
            }
    where
      not_applying :
          p.summary.status ≡ in_progress
          → (p.summary.patch_application_status == not_requested) ≡ false
          → ⊥
      not_applying running f = let (a, _, done, _, _, _) = v.application f in cc

  pub project_route_selected-TaskInv :
      (e : RouteSelected) (append : Bool) → Ensures TaskInv (project_route_selected p e append)
  unfolding project_route_selected
  project_route_selected-TaskInv e append = Ensures-guarded TaskInv _ _ _ λ h. record {
    attempts_bounded = no_attempts h;
    unrouted = λ f. cc;
    active_current = λ a f. ground arith;
    last_ended = v.last_ended;
    ended_status = v.ended_status;
    application = v.application;
  }
    where
      no_attempts :
          (is_some p.strategy || is_some p.active_attempt || is_some p.last_attempt) ≡ false
          → p.summary.attempt_count ≤ e.max_attempts
      no_attempts h = let none_yet = v.unrouted (ground arith) in omega (arith, none_yet)

  pub project_worker_started-TaskInv :
      (e : WorkerStarted) (append : Bool)
      → p.summary.status ≡ in_progress
      → Ensures TaskInv (project_worker_started p e append)
  unfolding project_worker_started worker_start_refused
  project_worker_started-TaskInv e append running = Ensures-guarded TaskInv _ _ _ λ h. record {
    attempts_bounded = ground arith;
    unrouted = λ f. ground arith;
    active_current = λ a f.
        subst (IsActive (started p e)) (some-same f)
          (refl, ground arith, running, new_attempt-IsOrdered e);
    last_ended = v.last_ended;
    ended_status = v.ended_status;
    application = v.application;
  }

  pub project_task_completed-TaskInv :
      (e : TaskCompleted) (append : Bool)
      → p.summary.status ≡ in_progress
      → Ensures TaskInv (project_task_completed p e append)
  unfolding project_task_completed
  project_task_completed-TaskInv e append running =
      Ensures->>= TaskInv (throw_if (is_none p.strategy || is_some p.active_attempt) _) _ λ u idle.
        Ensures-guarded TaskInv (task_outcome_refused p.last_attempt e) _ _ λ h. record {
          attempts_bounded = v.attempts_bounded;
          unrouted = v.unrouted;
          active_current = λ a f. absurd (no_active (throw_if-eq-ok _ _ idle) a f);
          last_ended = v.last_ended;
          ended_status = λ s f.
              subst (IsLastStatus p.last_attempt) (ended-same f)
                (task_outcome_lem p.last_attempt e h);
          application = λ f. absurd (not_applying f);
        }
    where
      no_active :
          (is_none p.strategy || is_some p.active_attempt) ≡ false
          → (a : AttemptProjection) → p.active_attempt ≡ some a
          → ⊥
      no_active h a f = ground arith

      not_applying : (p.summary.patch_application_status == not_requested) ≡ false → ⊥
      not_applying f = let (a, _, done, _, _, _) = v.application f in cc
