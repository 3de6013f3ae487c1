-- ===== src/Task/Journal/Tests.antt =====
-- artifacts/task-journal.ts: a task whose patch was applied, in twelve files.
use Prim.Native.String.{len}
use agent_harness_os.Base.{
  same_text, utf16_length, ℕ, zero, suc, ◌≤◌, String, ◌≡◌, refl, xor, Bool, true, false, Option,
  none, some, List, [], ◌∷◌, is_some, length, get_elem?, In, Result, ok, err,
}
use agent_harness_os.Task.Types.{
  succeeded, skipped, ended, applied, AttemptProjection, TaskSummary, TaskEventProjection, Timing,
  TaskCreated, TaskEventData, task_created, route_selected, worker_started, worker_completed,
  patch_produced, validation_completed, attempt_completed, task_completed,
  patch_application_requested, patch_approved, patch_applied, TaskEvent,
}
use agent_harness_os.Domain.{implementation, balanced, RunStatus}
use agent_harness_os.Workflow.Definition.{is_iso_date, is_uuid, is_sha256}
use agent_harness_os.Task.Validation.{
  is_task_created, is_route_selected, is_worker_started, is_worker_completed, is_patch_produced,
  is_validation_completed, is_attempt_completed, is_task_completed, is_task_event_data,
  is_task_envelope, validate_task_event,
}
use agent_harness_os.Task.Attempts.{
  get_active_run, change_attempt, worker_completion_refused, patch_refused, validation_refused,
  evidence_missing, success_contradicted, failure_contradicted, attempt_contradicted,
  project_attempt_completed,
}
use agent_harness_os.Task.Projection.{
  project_route_selected, worker_start_refused, project_worker_started, task_outcome_refused,
  project_task_completed, has_applicable_patch, is_applicable_run, project_application_requested,
  application_refused, project_patch_approved, project_patch_applied, project_task_data,
  clone_task_projection, first_task_projection, project_task_created, project_task_later,
  project_task_payload, project_task_event,
}
use agent_harness_os.Task.Projection.Invariant.{IsOrdered, IsSound, TaskInv}
use agent_harness_os.Task.Projection.Invariant.Events.{project_task_event-TaskInv}
use agent_harness_os.Task.Journal.{
  TaskRuntime, TaskFile, TaskReadResult, CreateTaskInput, created_schema_version, map_some,
  parsed_task_event, create_task_event, serialize_task_event, read_task_event, read_task_events,
  task_read_result, read_task_timeline, create_task,
}
use agent_harness_os.Task.Journal.Reading.{read_task_timeline-Recorded}
use agent_harness_os.Task.Journal.Claims.{applied_patch, attempts_within_limits}
use agent_harness_os.Task.Journal.Creating.{made, create-read}

abbrev task_uuid : String
task_uuid = "00000000-0000-4000-8000-000000000000"

abbrev run_uuid : String
run_uuid = "00000000-0000-4000-8000-000000000003"

abbrev digest : String
digest = "00000000000000000000000000000000000000000000000000000000000000ab"

abbrev untimed : Timing
untimed = record { started_at = none; completed_at = none; duration_ms = none }

abbrev created_task : TaskCreated
created_task = record {
  objective = "Change";
  mode = implementation;
  repository_path = "/repository";
  base_commit = "0000";
  execution_started_at = none;
  policy_sha256 = none;
  policy_source_count = none;
  workflow_provenance = none;
}

-- The payloads, in their order.
abbrev payloads : List TaskEventData
payloads =
    task_created created_task
    ∷ route_selected (record {
      strategy = balanced;
      candidate_worker_ids = "local" ∷ [];
      max_attempts = 1;
      timing = untimed;
      evidence_sha256 = none;
      evidence_task_count = none;
      evidence_attempt_count = none;
      decision_sha256 = none;
    })
    ∷ worker_started (record { run_id = run_uuid; worker_id = "local"; attempt_number = 1 })
    ∷ worker_completed
        (record { run_id = run_uuid; outcome = succeeded; failure_code = none; request_count = 2 })
    ∷ patch_produced (record {
      run_id = run_uuid;
      patch_sha256 = digest;
      patch_bytes = 10;
      changed_file_count = 1;
    })
    ∷ validation_completed
        (record { run_id = run_uuid; outcome = skipped; command_count = 0; timing = untimed })
    ∷ attempt_completed (record {
      run_id = run_uuid;
      status = RunStatus.completed;
      failure_code = none;
      timing = untimed;
      provider_latency_ms = none;
      total_tokens = none;
      estimated_cost_micro_usd = none;
    })
    ∷ task_completed
        (record { run_id = some run_uuid; status = RunStatus.completed; timing = untimed })
    ∷ patch_application_requested run_uuid
    ∷ patch_approved run_uuid
    ∷ patch_applied run_uuid 1
    ∷ []

abbrev event_at : ℕ → ℕ → Option String → TaskEventData → TaskEvent
event_at version sequence previous payload = record {
  schema_version = version;
  event_id = run_uuid;
  task_id = task_uuid;
  sequence = sequence;
  occurred_at = "2026-01-01";
  previous_event_sha256 = previous;
  payload = payload;
}

-- The contents of the file of an event is a text of as many characters as its sequence number.
abbrev text_of : ℕ → String
text_of zero = ""
text_of (suc n) = String.◌∷◌ "x" (text_of n)

abbrev event_of : ℕ → Option TaskEvent
event_of zero = none
event_of (suc zero) = some (event_at 1 1 none (task_created created_task))
event_of (suc (suc n)) =
    map_some (event_at 1 (suc (suc n)) (some digest)) (get_elem? payloads (suc n))

abbrev example_rt : TaskRuntime
example_rt = record {
  dates = record { parses = λ s. true; to_iso_string = λ s. s };
  sha256 = λ s. digest;
  stringify = λ e. text_of e.sequence;
  parse = λ s. event_of (len s);
  contains_credential_material = λ e. false;
  redact = λ s. s;
}

abbrev files_from : ℕ → ℕ → List TaskFile
files_from n zero = []
files_from n (suc m) =
    record { file_sequence = n; file_sha256 = digest; contents = text_of n } ∷ files_from (suc n) m

abbrev created_input : CreateTaskInput
created_input = record {
  objective = "Change";
  mode = implementation;
  repository_path = "/repository";
  base_commit = "0000";
  execution_started_at = none;
  policy = none;
  workflow_provenance = none;
}

-- A result without its error, which a successful computation does not need.
abbrev value_or {ℓ} : {A : Type ℓ} → A → Result A → A
value_or d (err e) = d
value_or d (ok a) = a

abbrev is_ok {ℓ} : {A : Type ℓ} → Result A → Bool
is_ok (err e) = false
is_ok (ok a) = true

ok_value_or {ℓ} : {A : Type ℓ} (d : A) (m : Result A) → is_ok m ≡ true → m ≡ ok (value_or d m)
ok_value_or d (err e) h = cc
ok_value_or d (ok a) h = refl

abbrev nothing_read : TaskReadResult
nothing_read = record {
  result_projection =
      first_task_projection created_task (event_at 1 1 none (task_created created_task)) digest;
  result_events = [];
  result_bytes = 0;
}

abbrev history : Result TaskReadResult
history = read_task_timeline example_rt task_uuid digest (files_from 1 11)

history_read :
    (is_ok history ≡ true)
    × ((value_or nothing_read history).result_projection.summary.patch_application_status ≡ applied)
unfolding read_task_timeline read_task_events read_task_event parsed_task_event validate_task_event
    is_task_envelope is_task_event_data task_read_result is_uuid is_sha256 is_iso_date
    is_task_created is_route_selected is_worker_started is_worker_completed is_patch_produced
    is_validation_completed is_attempt_completed is_task_completed utf16_length same_text xor
    project_task_event project_task_payload project_task_created project_task_later
    project_task_data clone_task_projection first_task_projection project_route_selected
    project_worker_started worker_start_refused change_attempt get_active_run
    worker_completion_refused patch_refused validation_refused evidence_missing success_contradicted
    failure_contradicted attempt_contradicted project_attempt_completed project_task_completed
    task_outcome_refused project_application_requested is_applicable_run has_applicable_patch
    project_patch_approved application_refused project_patch_applied
history_read = (refl, refl)

applied_patch_example :
    (a : AttemptProjection) × (e : TaskEvent) × ((value_or nothing_read
        history).result_projection.last_attempt
      ≡ some a)
    × ((value_or nothing_read history).result_projection.summary.status ≡ ended RunStatus.completed)
    × IsSound a
    × (is_some a.patch_sha256 ≡ true)
    × In e (value_or nothing_read history).result_events
    × (e.payload ≡ patch_approved a.run_id)
applied_patch_example =
    applied_patch example_rt task_uuid digest (files_from 1 11) (value_or nothing_read history)
      (ok_value_or nothing_read history history_read.0) history_read.1

attempts_within_limits_example :
    ((value_or nothing_read history).result_projection.summary.event_count
      ≡ length (files_from 1 11))
    × ((value_or nothing_read history).result_projection.summary.attempt_count
        ≤ (value_or nothing_read history).result_projection.max_attempts)
    × ((value_or nothing_read history).result_projection.summary.attempt_count ≤ 8)
    × ((value_or nothing_read history).result_projection.summary.attempt_count
        ≤ length (value_or nothing_read history).result_projection.candidate_worker_ids)
    × ((a : AttemptProjection)
        → (value_or nothing_read history).result_projection.active_attempt ≡ some a
        → (a.attempt_number
            ≡ (value_or nothing_read history).result_projection.summary.attempt_count)
          × IsOrdered a)
attempts_within_limits_example =
    attempts_within_limits example_rt task_uuid digest (files_from 1 11)
      (value_or nothing_read history) (ok_value_or nothing_read history history_read.0)

-- The event that `create` makes has schema version 3 where there is no policy and no workflow.
abbrev creating_rt : TaskRuntime
creating_rt = record example_rt {
  parse = λ s. some (event_at 3 1 none (task_created created_task));
}

abbrev creation : Result (TaskSummary × TaskFile)
creation = create_task creating_rt task_uuid run_uuid "2026-01-01" created_input

abbrev created_default : TaskSummary × TaskFile
created_default = (
  nothing_read.result_projection.summary,
  record { file_sequence = 0; file_sha256 = ""; contents = "" },
)

created_ok : is_ok creation ≡ true
unfolding create_task create_task_event created_schema_version serialize_task_event
    validate_task_event is_task_envelope is_task_event_data is_task_created is_uuid is_iso_date
    utf16_length same_text project_task_event project_task_payload project_task_created
created_ok = refl

create-read_example :
    (r : TaskReadResult) × (read_task_timeline creating_rt task_uuid
        (value_or created_default creation).1.file_sha256
        ((value_or created_default creation).1 ∷ [])
      ≡ ok r)
    × (r.result_projection.summary ≡ (value_or created_default creation).0)
    × (length r.result_events ≡ 1)
unfolding is_uuid created_schema_version
create-read_example =
    create-read creating_rt task_uuid run_uuid "2026-01-01" created_input
      (value_or created_default creation).0 (value_or created_default creation).1 task_is_uuid
      parsed (ok_value_or created_default creation created_ok)
  where
    parsed :
        creating_rt.parse
          (creating_rt.stringify (made creating_rt task_uuid run_uuid "2026-01-01" created_input))
        ≡ some (made creating_rt task_uuid run_uuid "2026-01-01" created_input)
    parsed = refl

    task_is_uuid : is_uuid task_uuid ≡ true
    task_is_uuid = refl

-- The completed task, whose patch is requested next.
abbrev completed_task : Result TaskReadResult
completed_task = read_task_timeline example_rt task_uuid digest (files_from 1 8)

abbrev request : Result TaskEventProjection
request =
    project_task_event (some (value_or nothing_read completed_task).result_projection)
      (event_at 1 9 (some digest) (patch_application_requested run_uuid)) digest true

request_accepted : (is_ok completed_task ≡ true) × (is_ok request ≡ true)
unfolding read_task_timeline read_task_events read_task_event parsed_task_event validate_task_event
    is_task_envelope is_task_event_data task_read_result is_uuid is_sha256 is_iso_date
    is_task_created is_route_selected is_worker_started is_worker_completed is_patch_produced
    is_validation_completed is_attempt_completed is_task_completed utf16_length same_text xor
    project_task_event project_task_payload project_task_created project_task_later
    project_task_data clone_task_projection first_task_projection project_route_selected
    project_worker_started worker_start_refused change_attempt get_active_run
    worker_completion_refused patch_refused validation_refused evidence_missing success_contradicted
    failure_contradicted attempt_contradicted project_attempt_completed project_task_completed
    task_outcome_refused project_application_requested is_applicable_run has_applicable_patch
    project_patch_approved application_refused project_patch_applied
request_accepted = (refl, refl)

project_task_event-TaskInv_example : TaskInv (value_or nothing_read.result_projection request)
project_task_event-TaskInv_example =
    project_task_event-TaskInv (some (value_or nothing_read completed_task).result_projection)
      (event_at 1 9 (some digest) (patch_application_requested run_uuid)) digest true
      (read_task_timeline-Recorded example_rt task_uuid digest (files_from 1 8)
        (value_or nothing_read completed_task)
        (ok_value_or nothing_read completed_task request_accepted.0)).0
      (value_or nothing_read.result_projection request)
      (ok_value_or nothing_read.result_projection request request_accepted.1)
