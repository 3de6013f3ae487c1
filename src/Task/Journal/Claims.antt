-- ===== src/Task/Journal/Claims.antt =====
-- artifacts/task-journal.ts: what the history of a task shows of its patch and of its attempts.
use agent_harness_os.Base.{
  ◌≤◌, String, ◌≡◌, sym, ap, ◌∙◌, true, some, List, arith, ◌==◌, nat_eq, string_eq, option_eq,
  is_some, some-same, length, In, ok,
}
use agent_harness_os.Task.Types.{
  ended, not_requested, applied, AttemptProjection, patch_approved, TaskEvent, call_eq,
  validation_eq, evaluation_eq, policy_eq, task_status_eq, application_eq, dimension_eq,
}
use agent_harness_os.Domain.{RunStatus, worker_mode_eq, capability_eq, run_status_eq}
use agent_harness_os.Task.Projection.Invariant.{IsOrdered, IsSound}
use agent_harness_os.Task.Journal.{TaskRuntime, TaskFile, TaskReadResult, read_task_timeline}
use agent_harness_os.Task.Journal.History.{is_approved}
use agent_harness_os.Task.Journal.Reading.{read_task_timeline-Recorded}

module _ (rt : TaskRuntime) (task_id first_sha256 : String) where
  -- Where the history of a task can be read and its projection says that a patch was applied, the task
  -- was completed by its last attempt, whose worker succeeded, whose validation ran and did not fail, whose
  -- evaluation did not fail, which has no failure code and a patch, and the history holds an approval of
  -- the run of that attempt.
  pub applied_patch :
      (files : List TaskFile) (r : TaskReadResult)
      → read_task_timeline rt task_id first_sha256 files ≡ ok r
      → r.result_projection.summary.patch_application_status ≡ applied
      → (a : AttemptProjection) × (e : TaskEvent) × (r.result_projection.last_attempt ≡ some a)
        × (r.result_projection.summary.status ≡ ended RunStatus.completed)
        × IsSound a
        × (is_some a.patch_sha256 ≡ true)
        × In e r.result_events
        × (e.payload ≡ patch_approved a.run_id)
  applied_patch files r h status =
      let (lawful, recorded, n) = read_task_timeline-Recorded rt task_id first_sha256 files r h in
      let (a, last, done, success, patch, run) =
        lawful.application (ap (λ s. s == not_requested) status) in
      let (run_id, e, run', known, approval) = recorded.approval_recorded (ap is_approved status) in
      let (over, order, sound) = lawful.last_ended a last in
      (
        a,
        e,
        last,
        done,
        sound success,
        patch,
        known,
        approval ∙ ap patch_approved (some-same (sym run' ∙ run)),
      )

  -- Where the history of a task can be read, it has as many events as files, as many attempts as its
  -- route allows at most, no more attempts than 8 or than the route's candidates, and at most one
  -- attempt is under way, which is the last one to have started and has its evidence in order.
  pub attempts_within_limits :
      (files : List TaskFile) (r : TaskReadResult)
      → read_task_timeline rt task_id first_sha256 files ≡ ok r
      → (r.result_projection.summary.event_count ≡ length files)
        × (r.result_projection.summary.attempt_count ≤ r.result_projection.max_attempts)
        × (r.result_projection.summary.attempt_count ≤ 8)
        × (r.result_projection.summary.attempt_count
            ≤ length r.result_projection.candidate_worker_ids)
        × ((a : AttemptProjection)
            → r.result_projection.active_attempt ≡ some a
            → (a.attempt_number ≡ r.result_projection.summary.attempt_count) × IsOrdered a)
  attempts_within_limits files r h =
      let (lawful, recorded, n) = read_task_timeline-Recorded rt task_id first_sha256 files r h in
      let bounded = lawful.attempts_bounded in
      let limit = recorded.limit_bounded in
      let covered = recorded.limit_covered in
      (
        recorded.counted ∙ n,
        bounded,
        omega (arith, bounded, limit),
        omega (arith, bounded, covered),
        λ a active.
            let (number, routed, running, order) = lawful.active_current a active in
            (number, order),
      )
