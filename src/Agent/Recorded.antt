-- ===== src/Agent/Recorded.antt =====
-- worker/service.ts with artifacts/task-journal.ts: the journal refuses no event of a run of the agent loop for its
-- place in the history of the task.
use Prim.Native.String.{len}
use agent_harness_os.Base.{
  same_text, ℕ, ◌+◌, String, ◌≡◌, refl, sym, ap, subst, ◌∙◌, ◌⊎◌, inl, inr, Bool, true, false, not,
  ◌&&◌, Option, some, List, [], ◌∷◌, ltb, leb, ◌==◌, nat_eq, string_eq, option_eq, ==_same, length,
  HarnessError, harness_error, Result, ok, err, ◌>>=◌, ◌>>◌, throw_if, >>=-eq-ok, ok-injective,
  pass, throw_if-pass,
}
use agent_harness_os.Task.Types.{
  in_progress, AttemptProjection, TaskEventProjection, WorkerStarted, ModelTurnCompleted,
  ToolCalled, WorkerCompleted, TaskEventData, model_turn_completed, tool_called, worker_completed,
  TaskEvent, call_eq, validation_eq, evaluation_eq, policy_eq, task_status_eq, application_eq,
  dimension_eq,
}
use agent_harness_os.Domain.{worker_mode_eq, capability_eq, run_status_eq}
use agent_harness_os.Task.Attempts.{
  task_transition_error, get_active_run, change_attempt, model_turn_refused, after_model_turn,
  tool_call_refused, after_tool_call, worker_completion_refused, after_worker,
}
use agent_harness_os.Task.Validation.{invalid_task_journal, validate_task_event}
use agent_harness_os.Task.Projection.{
  new_attempt, project_task_data, is_patch_application_event, clone_task_projection,
  project_task_later, project_task_payload, project_task_event,
}
use agent_harness_os.Task.Journal.{
  TaskRuntime, TaskReadResult, max_task_event_bytes, max_events_per_task, max_task_timeline_bytes,
  task_event_limit, task_contains_secret, redact_event_input, create_task_event,
  serialize_task_event,
}
use agent_harness_os.Agent.{
  Observation, tool_call, model_turn, AgentLoopLimits, Agent, run_agent_loop,
}
use agent_harness_os.Agent.Observing.{
  observed_event, Stamps, finish_recording, check_recorded, record_event, record_observations,
  completed_worker,
}
use agent_harness_os.Agent.Evidence.{project_observations, run_agent_loop-projected}

-- An error other than that of an event out of its place.
abbrev pub OtherError {ℓ} : {A : Type ℓ} → Result A → Type ℓ
OtherError {A = A} m =
    (e : HarnessError) × (m ≡ err e) × ((e.error_code == "INVALID_TASK_EVENT_TRANSITION") ≡ false)

-- A result with a property, or an error other than that of an event out of its place.
abbrev pub Unless {ℓ} : {A : Type ℓ} → (A → Type ℓ) → Result A → Type ℓ
Unless {A = A} P m = ((a : A) × (m ≡ ok a) × P a) ⊎ OtherError m

Unless->>= :
    {A B : Type 0} {P : A → Type 0} {Q : B → Type 0} (m : Result A) (k : A → Result B)
    → Unless P m
    → ((a : A) → P a → Unless Q (k a))
    → Unless Q (m >>= k)
Unless->>= {Q = Q} m k (inl (a, same, h)) next = subst (Unless Q) (sym (pass k same)) (next a h)
Unless->>= m k (inr (e, same, other)) next = inr (e, ap (λ x. x >>= k) same, other)

Unless-guard :
    {A : Type 0} {Q : A → Type 0} (b : Bool) (e : HarnessError) (k : Result A)
    → (e.error_code == "INVALID_TASK_EVENT_TRANSITION") ≡ false
    → Unless Q k
    → Unless Q (throw_if b e >> k)
Unless-guard true e k other h = inr (e, refl, other)
Unless-guard false e k other h = h

-- What the events of a worker need of a projection.
pub record Agrees (p p' : TaskEventProjection) : Type 0 where
  pub same_attempt : p'.active_attempt ≡ p.active_attempt
  pub same_version : p'.event_schema_version ≡ p.event_schema_version
  pub in_course : p'.summary.status ≡ in_progress

-- A projection that has taken an event, like another one.
abbrev Taken : TaskEventProjection → Result TaskEventProjection → Type 0
Taken q m = (q' : TaskEventProjection) × (m ≡ ok q') × Agrees q q'

change_attempt-Taken :
    (p p' q : TaskEventProjection) (run_id : String) (refused : AttemptProjection → Bool)
    (change : AttemptProjection → AttemptProjection)
    → Agrees p p'
    → change_attempt p run_id true refused change ≡ ok q
    → Taken q (change_attempt p' run_id true refused change)
unfolding change_attempt
change_attempt-Taken p p' q run_id refused change agrees h =
    let (a, active, h1) = >>=-eq-ok (get_active_run p.active_attempt run_id true) _ h in
    let (_, allowed, h2) = >>=-eq-ok (throw_if (refused a) (task_transition_error true)) _ h1 in
    let same = ok-injective h2 in
    (
      record p' { active_attempt = some (change a) },
      pass _ (ap (λ x. get_active_run x run_id true) agrees.same_attempt ∙ active) ∙ pass _ allowed,
      record {
        same_attempt = ap (λ x. x.active_attempt) same;
        same_version = agrees.same_version ∙ ap (λ x. x.event_schema_version) same;
        in_course = agrees.in_course;
      },
    )

-- The events of a worker at work.
data WorkerEvent : TaskEventData → Type 0 where
  turn : (e : ModelTurnCompleted) → WorkerEvent (model_turn_completed e)
  tool : (e : ToolCalled) → WorkerEvent (tool_called e)
  worker : (e : WorkerCompleted) → WorkerEvent (worker_completed e)

observed-WorkerEvent : (run_id : String) (o : Observation) → WorkerEvent (observed_event run_id o)
unfolding observed_event
observed-WorkerEvent run_id (model_turn t) = turn _
observed-WorkerEvent run_id (tool_call t) = tool _

module _ (rt : TaskRuntime) where
  project_task_data-Taken :
      {d : TaskEventData} (p p' q : TaskEventProjection)
      → WorkerEvent d
      → Agrees p p'
      → project_task_data p d true ≡ ok q
      → Taken q (project_task_data p' (redact_event_input rt d) true)
  unfolding project_task_data redact_event_input tool_call_refused worker_completion_refused
  project_task_data-Taken p p' q (turn e) agrees h =
      change_attempt-Taken p p' q e.run_id (model_turn_refused e) (after_model_turn e) agrees h
  project_task_data-Taken p p' q (tool e) agrees h =
      subst (λ v. Taken q (change_attempt p' e.run_id true (tool_call_refused v e) after_tool_call))
        (sym agrees.same_version)
        (change_attempt-Taken p p' q e.run_id (tool_call_refused p.event_schema_version e)
          after_tool_call agrees h)
  project_task_data-Taken p p' q (worker e) agrees h =
      subst
        (λ v.
          Taken q
            (change_attempt p' e.run_id true (worker_completion_refused v e) (after_worker e)))
        (sym agrees.same_version)
        (change_attempt-Taken p p' q e.run_id (worker_completion_refused p.event_schema_version e)
          (after_worker e) agrees h)

  clone-Agrees :
      (p p' : TaskEventProjection) (event : TaskEvent) (sha : String)
      → Agrees p p'
      → Agrees p (clone_task_projection p' event sha)
  unfolding clone_task_projection
  clone-Agrees p p' event sha agrees = record {
    same_attempt = agrees.same_attempt;
    same_version = agrees.same_version;
    in_course = agrees.in_course;
  }

  later_lem :
      (p' q' : TaskEventProjection) (event : TaskEvent) (sha : String)
      → p'.summary.status ≡ in_progress
      → event.schema_version ≡ p'.event_schema_version
      → project_task_data (clone_task_projection p' event sha) event.payload true ≡ ok q'
      → project_task_later (some p') event sha true ≡ ok q'
  unfolding project_task_later
  later_lem p' q' event sha in_course version h =
      throw_if-pass _ _ (==_same version)
      ∙ throw_if-pass _ _
          (none_and (not (is_patch_application_event event.payload)) (==_same in_course))
      ∙ h
    where
      none_and : {a : Bool} (b : Bool) → a ≡ false → (a && b) ≡ false
      none_and b k = rw k refl

  payload_later :
      {d : TaskEventData} (p' : TaskEventProjection) (event : TaskEvent) (sha : String)
      → WorkerEvent d
      → project_task_payload (redact_event_input rt d) (some p') event sha true
        ≡ project_task_later (some p') event sha true
  unfolding project_task_payload redact_event_input
  payload_later p' event sha (turn e) = refl
  payload_later p' event sha (tool e) = refl
  payload_later p' event sha (worker e) = refl

  project_task_event-Taken :
      {d : TaskEventData} (p p' q : TaskEventProjection) (event : TaskEvent) (sha : String)
      → WorkerEvent d
      → Agrees p p'
      → project_task_data p d true ≡ ok q
      → event.payload ≡ redact_event_input rt d
      → event.schema_version ≡ p'.event_schema_version
      → Taken q (project_task_event (some p') event sha true)
  unfolding project_task_event
  project_task_event-Taken p p' q event sha w agrees h payload version =
      let (q', taken, same) =
        project_task_data-Taken p (clone_task_projection p' event sha) q w
          (clone-Agrees p p' event sha agrees) h in
      (
        q',
        ap (λ x. project_task_payload x (some p') event sha true) payload
            ∙ payload_later p' event sha w
            ∙ later_lem p' q' event sha agrees.in_course version (
                ap (λ x. project_task_data (clone_task_projection p' event sha) x true) payload
                ∙ taken),
        same,
      )

  create_task_event-Unless :
      (version : ℕ) (task_id : String) (sequence : ℕ) (previous : Option String)
      (event_id occurred_at : String) (payload : TaskEventData)
      → Unless
          (λ (event : TaskEvent). (event.payload ≡ payload) × (event.schema_version ≡ version))
          (create_task_event rt version task_id sequence previous event_id occurred_at payload)
  unfolding create_task_event validate_task_event same_text
  create_task_event-Unless version task_id sequence previous event_id occurred_at payload =
      Unless-guard _ invalid_task_journal _ refl
        (Unless-guard _ invalid_task_journal _ refl (inl (_, refl, (refl, refl))))

  serialize_task_event-Unless :
      (event : TaskEvent) → Unless (λ (s : String). Unit {0}) (serialize_task_event rt event)
  unfolding serialize_task_event same_text
  serialize_task_event-Unless event =
      Unless-guard (ltb max_task_event_bytes (len (rt.stringify event)))
        (harness_error "TASK_EVENT_TOO_LARGE") (ok (rt.stringify event)) refl
        (inl (rt.stringify event, refl, tt))

  finish_recording-Unless :
      (q next : TaskEventProjection) (current : TaskReadResult) (event : TaskEvent)
      (serialized : String)
      → Agrees q next
      → Unless
          (λ (r : TaskReadResult). Agrees q r.result_projection)
          (finish_recording current event serialized next)
  unfolding finish_recording same_text
  finish_recording-Unless q next current event serialized same =
      Unless-guard (ltb max_task_timeline_bytes (current.result_bytes + len serialized))
        task_event_limit _ refl (inl (_, refl, same))

  check_recorded-Unless :
      {d : TaskEventData} (p q : TaskEventProjection) (current : TaskReadResult) (event : TaskEvent)
      → WorkerEvent d
      → Agrees p current.result_projection
      → project_task_data p d true ≡ ok q
      → event.payload ≡ redact_event_input rt d
      → event.schema_version ≡ current.result_projection.event_schema_version
      → Unless
          (λ (next : TaskReadResult). Agrees q next.result_projection)
          (check_recorded rt current event)
  unfolding check_recorded same_text
  check_recorded-Unless p q current event w agrees h payload version =
      Unless-guard (rt.contains_credential_material event) task_contains_secret _ refl (
        Unless->>= {P = λ (s : String). Unit {0}} (serialize_task_event rt event)
          (λ serialized.
            project_task_event (some current.result_projection) event (rt.sha256 serialized) true
            >>= λ next. finish_recording current event serialized next)
          (serialize_task_event-Unless event)
          λ serialized u.
            Unless->>= {P = Agrees q}
              (project_task_event (some current.result_projection) event (rt.sha256 serialized)
                true)
              (λ next. finish_recording current event serialized next)
              (inl (
                project_task_event-Taken p current.result_projection q event (rt.sha256 serialized)
                  w agrees h payload version))
              λ next same. finish_recording-Unless q next current event serialized same)

  record_event-Unless :
      {d : TaskEventData} (stamps : Stamps) (p q : TaskEventProjection) (current : TaskReadResult)
      → WorkerEvent d
      → Agrees p current.result_projection
      → project_task_data p d true ≡ ok q
      → Unless
          (λ (next : TaskReadResult). Agrees q next.result_projection)
          (record_event rt stamps current d)
  unfolding record_event same_text
  record_event-Unless {d} stamps p q current w agrees h =
      Unless-guard (leb max_events_per_task (length current.result_events)) task_event_limit _ refl
        (Unless->>=
          {P = λ (event : TaskEvent).
            (event.payload ≡ redact_event_input rt d)
            × (event.schema_version ≡ current.result_projection.event_schema_version)}
          (create_task_event rt current.result_projection.event_schema_version
            current.result_projection.summary.task_id (length current.result_events + 1)
            (some current.result_projection.summary.latest_event_sha256)
            (stamps.event_id_at (length current.result_events + 1))
            (stamps.occurred_at (length current.result_events + 1)) (redact_event_input rt d))
          (check_recorded rt current) (create_task_event-Unless _ _ _ _ _ _ _)
          λ event (payload, version).
            check_recorded-Unless p q current event w agrees h payload version)

  record_observations-Unless :
      (stamps : Stamps) (run_id : String) (os : List Observation) (p q : TaskEventProjection)
      (current : TaskReadResult)
      → Agrees p current.result_projection
      → project_observations p run_id os ≡ ok q
      → Unless
          (λ (next : TaskReadResult). Agrees q next.result_projection)
          (record_observations rt stamps current run_id os)
  unfolding record_observations project_observations
  record_observations-Unless stamps run_id [] p q current agrees h =
      inl (current, refl, subst (λ x. Agrees x current.result_projection) (ok-injective h) agrees)
  record_observations-Unless stamps run_id (o ∷ os) p q current agrees h =
      let (p₁, first, rest) =
        >>=-eq-ok (project_task_data p (observed_event run_id o) true)
          (λ y. project_observations y run_id os) h in
      Unless->>= {P = λ (next : TaskReadResult). Agrees p₁ next.result_projection} _ _
        (record_event-Unless stamps p p₁ current (observed-WorkerEvent run_id o) agrees first)
        λ next same. record_observations-Unless stamps run_id os p₁ q next same rest

Unless-map :
    {A : Type 0} {P Q : A → Type 0} (m : Result A) → Unless P m → ((a : A) → P a → Q a) → Unless Q m
Unless-map m (inl (a, same, h)) f = inl (a, same, f a h)
Unless-map m (inr other) f = inr other

-- The projection of a task whose active attempt has a worker that has completed, with all its tool calls observed.
pub record WorkerIsDone (r : TaskReadResult) : Type 0 where
  pub attempt : AttemptProjection
  pub is_active : r.result_projection.active_attempt ≡ some attempt
  pub is_done : attempt.worker_completed ≡ true
  pub all_observed : attempt.observed_tool_call_count ≡ attempt.expected_tool_call_count

-- Where the timeline of a task in progress has an attempt that has just started, then, whatever the provider and the
-- tools do in a run of the loop, recording its observations and then the `WorkerCompleted` event succeeds and leaves
-- the attempt with its worker done and with as many tool calls observed as its last turn asked for, or it fails with
-- another error than that of an event out of its place.
pub run_agent_loop-recorded :
    {World Json : Type 0} (agent : Agent World Json) (limits : AgentLoopLimits)
    (system_prompt user_prompt : String) (max_iterations requests : ℕ) (w : World)
    (rt : TaskRuntime) (stamps : Stamps) (current : TaskReadResult) (e : WorkerStarted)
    → current.result_projection.summary.status ≡ in_progress
    → current.result_projection.active_attempt ≡ some (new_attempt e)
    → Unless WorkerIsDone (
        record_observations rt stamps current e.run_id
          (run_agent_loop agent limits system_prompt user_prompt max_iterations w).1.observations
        >>= λ next. record_event rt stamps next (
            worker_completed (
              completed_worker e.run_id requests
                (run_agent_loop agent limits system_prompt user_prompt max_iterations w).0)))
run_agent_loop-recorded agent limits system_prompt user_prompt max_iterations requests w rt stamps
      current e in_course active =
    let run = run_agent_loop agent limits system_prompt user_prompt max_iterations w in
    let (q, q', a, observed, last_event, now_active, is_done, all_observed) =
      run_agent_loop-projected agent limits system_prompt user_prompt max_iterations requests w
        current.result_projection e active in
    Unless->>= {P = λ (next : TaskReadResult). Agrees q next.result_projection}
      (record_observations rt stamps current e.run_id run.1.observations)
      (λ next.
        record_event rt stamps next (worker_completed (completed_worker e.run_id requests run.0)))
      (record_observations-Unless rt stamps e.run_id run.1.observations current.result_projection q
        current (record { same_attempt = refl; same_version = refl; in_course = in_course })
        observed)
      λ next same.
        Unless-map _
          (record_event-Unless rt stamps q q' next
            (worker (completed_worker e.run_id requests run.0)) same last_event)
          λ r last. record {
            attempt = a;
            is_active = last.same_attempt ∙ now_active;
            is_done = is_done;
            all_observed = all_observed;
          }
