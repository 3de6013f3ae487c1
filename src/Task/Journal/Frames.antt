-- ===== src/Task/Journal/Frames.antt =====
-- artifacts/task-event-model.ts: what an event leaves as it was.
use agent_harness_os.Base.{
  String, ◌≡◌, refl, Bool, ◌||◌, is_none, is_some, throw_if, Ensures, Ensures-guarded, Ensures->>=,
}
use agent_harness_os.Task.Types.{
  AttemptProjection, TaskEventProjection, WorkerStarted, AttemptCompleted, TaskCompleted,
}
use agent_harness_os.Task.Attempts.{
  get_active_run, change_attempt, evidence_missing, project_attempt_completed,
}
use agent_harness_os.Task.Projection.{project_worker_started, project_task_completed}

-- The patch application, the route and the count of the events are the same.
pub record IsFramed (p q : TaskEventProjection) : Type 0 where
  pub same_application : q.summary.patch_application_status ≡ p.summary.patch_application_status
  pub same_run : q.application_run_id ≡ p.application_run_id
  pub same_limit : q.max_attempts ≡ p.max_attempts
  pub same_candidates : q.candidate_worker_ids ≡ p.candidate_worker_ids
  pub same_count : q.summary.event_count ≡ p.summary.event_count

module _ (p : TaskEventProjection) (append : Bool) where
  pub change_attempt-IsFramed :
      (run_id : String) (refused : AttemptProjection → Bool)
      (change : AttemptProjection → AttemptProjection)
      → Ensures (IsFramed p) (change_attempt p run_id append refused change)
  unfolding change_attempt
  change_attempt-IsFramed run_id refused change =
      Ensures->>= (IsFramed p) (get_active_run p.active_attempt run_id append) _ λ a taken.
        Ensures-guarded (IsFramed p) _ _ _ λ h. record {
          same_application = refl;
          same_run = refl;
          same_limit = refl;
          same_candidates = refl;
          same_count = refl;
        }

  pub project_attempt_completed-IsFramed :
      (e : AttemptCompleted) → Ensures (IsFramed p) (project_attempt_completed p e append)
  unfolding project_attempt_completed
  project_attempt_completed-IsFramed e =
      Ensures->>= (IsFramed p) (get_active_run p.active_attempt e.run_id append) _ λ a taken.
        Ensures->>= (IsFramed p) (throw_if (evidence_missing p.event_schema_version a) _) _
          λ u present. Ensures-guarded (IsFramed p) _ _ _ λ h. record {
            same_application = refl;
            same_run = refl;
            same_limit = refl;
            same_candidates = refl;
            same_count = refl;
          }

  pub project_worker_started-IsFramed :
      (e : WorkerStarted) → Ensures (IsFramed p) (project_worker_started p e append)
  unfolding project_worker_started
  project_worker_started-IsFramed e = Ensures-guarded (IsFramed p) _ _ _ λ h. record {
    same_application = refl;
    same_run = refl;
    same_limit = refl;
    same_candidates = refl;
    same_count = refl;
  }

  pub project_task_completed-IsFramed :
      (e : TaskCompleted) → Ensures (IsFramed p) (project_task_completed p e append)
  unfolding project_task_completed
  project_task_completed-IsFramed e =
      Ensures->>= (IsFramed p) (throw_if (is_none p.strategy || is_some p.active_attempt) _) _
        λ u idle. Ensures-guarded (IsFramed p) _ _ _ λ h. record {
          same_application = refl;
          same_run = refl;
          same_limit = refl;
          same_candidates = refl;
          same_count = refl;
        }
