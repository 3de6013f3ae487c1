-- ===== src/Workflow/Journal/Examples.antt =====
-- workflow/: one run of a workflow, from its creation to its completion, in a journal.
use agent_harness_os.Base.{
  same_text, utf16_length, ℕ, ◌≤◌, String, ◌≡◌, refl, ◌↔◌, xor, true, false, Option, none, some,
  List, [], ◌∷◌, ◌++◌, if◌then◌else◌, ◌==◌, nat_eq, string_eq, option_eq, ok,
}
use agent_harness_os.Workflow.Types.{
  implement, approval, WorkerStage, Definition, Status, approved, FinalStatus, Projection,
  StageResult, EventData, workflow_created, stage_started, stage_completed, approval_requested,
  approval_decided, workflow_completed, Event, worker_stage_eq, stage_eq, status_eq, decision_eq,
  with_count,
}
use agent_harness_os.Domain.{balanced, RunStatus, worker_mode_eq, capability_eq, run_status_eq}
use agent_harness_os.Workflow.Transitions.{next_candidate_stage, next_successful_stage}
use agent_harness_os.Workflow.Definition.{
  is_iso_date, is_uuid, is_git_commit, is_sha256, is_workflow_stage, validate_workflow_definition,
}
use agent_harness_os.Workflow.Stages.{
  transition_error, is_terminal_workflow_status, clone_projection, stage_start_refused,
  project_stage_started, is_allowed_after_success, is_allowed_next_stage, result_refused,
  stage_completion_refused, retries_after, project_stage_completed,
}
use agent_harness_os.Workflow.Projection.{
  approval_request_refused, project_approval_requested, approval_decision_refused,
  project_approval_decided, completion_refused, project_workflow_completed, project_data,
  first_projection, project_created, project_current, project_workflow_event,
}
use agent_harness_os.Workflow.Projection.Invariant.{Inv}
use agent_harness_os.Workflow.Projection.Preservation.{project_workflow_event-Inv}
use agent_harness_os.Workflow.Projection.Behaviour.{is_allowed_next_stage-next_successful_stage}
use agent_harness_os.Workflow.Journal.{
  Runtime, EventFile, ReadResult, is_nullable_uuid, is_nullable_bounded_string, validate_event_data,
  envelope_refused, validate_workflow_event, parse_event, read_event, read_events, finish_reading,
  read_timeline, create_workflow_event, write_event, append,
}
use agent_harness_os.Workflow.Journal.History.{
  total_starts, total_repairs, approval_log, Explained, read_timeline-Explained,
  completed_was_approved, budgets_kept,
}
use agent_harness_os.Workflow.Journal.RoundTrip.{read_timeline-append}
use agent_harness_os.Workflow.Journal.Ending.{ended_journal_is_final}

abbrev digest_1 : String
digest_1 = "0000000000000000000000000000000000000000000000000000000000000001"

abbrev digest_2 : String
digest_2 = "0000000000000000000000000000000000000000000000000000000000000002"

abbrev digest_3 : String
digest_3 = "0000000000000000000000000000000000000000000000000000000000000003"

abbrev digest_4 : String
digest_4 = "0000000000000000000000000000000000000000000000000000000000000004"

abbrev digest_5 : String
digest_5 = "0000000000000000000000000000000000000000000000000000000000000005"

abbrev digest_6 : String
digest_6 = "0000000000000000000000000000000000000000000000000000000000000006"

abbrev workflow_uuid : String
workflow_uuid = "00000000-0000-4000-8000-000000000000"

abbrev event_uuid : String
event_uuid = "00000000-0000-4000-8000-000000000001"

abbrev execution_uuid : String
execution_uuid = "00000000-0000-4000-8000-000000000002"

abbrev run_uuid : String
run_uuid = "00000000-0000-4000-8000-000000000003"

abbrev example_stage : WorkerStage
example_stage = record {
  objective = "Implement";
  allowed_paths = "src" ∷ [];
  prohibited_paths = [];
  acceptance_criteria = [];
  required_commands = [];
  max_iterations = 4;
  timeout_seconds = 60;
  allow_network = false;
  routing = record {
    preferred_worker_id = none;
    required_capabilities = [];
    strategy = balanced;
    max_cost_tier = none;
    max_latency_tier = none;
    allow_fallback = true;
    max_attempts = 1;
  };
  retry_limit = 0;
}

abbrev pub example_definition : Definition
example_definition = record {
  objective = "Change";
  repository_path = "/repository";
  base_commit = "0000000000000000000000000000000000000000";
  deadline_at = "2026-01-02";
  max_transitions = 3;
  max_repair_attempts = 0;
  dependency_workflow_ids = [];
  stages = record {
    plan_stage = none;
    implement_stage = example_stage;
    test_stage = none;
    review_stage = none;
    repair_stage = none;
  };
}

abbrev event_at : ℕ → Option String → EventData → Event
event_at sequence previous payload = record {
  event_id = event_uuid;
  workflow_id = workflow_uuid;
  sequence = sequence;
  occurred_at = "2026-01-01";
  previous_event_sha256 = previous;
  payload = payload;
}

abbrev event_1 : Event
event_1 = event_at 1 none (workflow_created example_definition)

abbrev event_2 : Event
event_2 = event_at 2 (some digest_1) (
    stage_started (record {
      stage = implement;
      execution_id = execution_uuid;
      attempt_number = 1;
      source_run_id = none;
    }))

abbrev implemented : StageResult
implemented = record {
  stage = implement;
  execution_id = execution_uuid;
  task_id = some run_uuid;
  run_id = some run_uuid;
  status = RunStatus.completed;
  failure_code = none;
  candidate_run_id = some run_uuid;
  next_stage = some approval;
}

abbrev event_3 : Event
event_3 = event_at 3 (some digest_2) (stage_completed implemented)

abbrev event_4 : Event
event_4 = event_at 4 (some digest_3) (approval_requested run_uuid)

abbrev event_5 : Event
event_5 = event_at 5 (some digest_4) (approval_decided approved "" none)

abbrev last_payload : EventData
last_payload = workflow_completed FinalStatus.completed none (some run_uuid)

abbrev event_6 : Event
event_6 = event_at 6 (some digest_5) last_payload

abbrev number_text : ℕ → String
number_text n =
    if n == 1
    then "1"
    else if n == 2
    then "2"
    else if n == 3
    then "3"
    else if n == 4
    then "4"
    else if n == 5
    then "5"
    else "6"

abbrev at_text : {A : Type 0} → A → A → A → A → A → A → String → A
at_text a b c d e f s =
    if s == "1"
    then a
    else if s == "2"
    then b
    else if s == "3"
    then c
    else if s == "4"
    then d
    else if s == "5"
    then e
    else f

abbrev example_runtime : Runtime
example_runtime = record {
  dates = record { parses = λ s. true; to_iso_string = λ s. s };
  sha256 = at_text digest_1 digest_2 digest_3 digest_4 digest_5 digest_6;
  stringify = λ e. number_text e.sequence;
  parse = λ s. some (at_text event_1 event_2 event_3 event_4 event_5 event_6 s);
  contains_credential_material = λ e. false;
}

abbrev file_at : ℕ → String → String → EventFile
file_at n digest contents = record { file_sequence = n; file_sha256 = digest; contents = contents }

abbrev five_files : List EventFile
five_files =
    file_at 1 digest_1 "1"
    ∷ file_at 2 digest_2 "2"
    ∷ file_at 3 digest_3 "3"
    ∷ file_at 4 digest_4 "4"
    ∷ file_at 5 digest_5 "5"
    ∷ []

abbrev six_files : List EventFile
six_files = five_files ++ file_at 6 digest_6 "6" ∷ []

abbrev last_projection : Projection
last_projection = record {
  definition = example_definition;
  approval_requested = false;
  retry_transitions = λ s. none;
  summary = record {
    workflow_id = workflow_uuid;
    objective = "Change";
    repository_path = "/repository";
    base_commit = "0000000000000000000000000000000000000000";
    created_at = "2026-01-01";
    updated_at = "2026-01-01";
    deadline_at = "2026-01-02";
    status = Status.completed;
    current_stage = none;
    active_execution_id = none;
    candidate_run_id = some run_uuid;
    transition_count = 1;
    repair_attempt_count = 0;
    stage_attempts = with_count (λ s. none) implement 1;
    approval_decision = some approved;
    last_failure_code = none;
    event_count = 6;
    latest_event_sha256 = digest_6;
  };
}

abbrev six_events : ReadResult
six_events = record {
  result_projection = last_projection;
  result_events = event_1 ∷ event_2 ∷ event_3 ∷ event_4 ∷ event_5 ∷ event_6 ∷ [];
  result_bytes = 6;
}

six_files_read : read_timeline example_runtime workflow_uuid digest_1 six_files ≡ ok six_events
unfolding same_text utf16_length is_uuid is_git_commit validate_workflow_definition
    is_workflow_stage project_workflow_event project_created project_current first_projection
    project_data clone_projection project_stage_started stage_start_refused project_stage_completed
    stage_completion_refused result_refused is_allowed_next_stage is_allowed_after_success
    retries_after project_approval_requested approval_request_refused project_approval_decided
    approval_decision_refused project_workflow_completed completion_refused
    is_terminal_workflow_status transition_error next_candidate_stage next_successful_stage
    read_timeline finish_reading read_events read_event parse_event validate_workflow_event
    envelope_refused validate_event_data is_nullable_uuid is_nullable_bounded_string is_sha256
    is_iso_date xor
six_files_read = refl

six_round_trip : example_runtime.parse (example_runtime.stringify event_6) ≡ some event_6
unfolding same_text xor
six_round_trip = refl

completed_is_terminal : is_terminal_workflow_status last_projection.summary.status ≡ true
unfolding is_terminal_workflow_status
completed_is_terminal = refl

completed_was_approved_example :
    (id : String) × (last_projection.summary.candidate_run_id ≡ some id)
    × (approval_log none six_events.result_events ≡ some (id, some approved))
    × (last_projection.summary.last_failure_code ≡ none)
completed_was_approved_example =
    completed_was_approved example_runtime workflow_uuid digest_1 six_files six_events
      six_files_read refl

budgets_kept_example :
    (total_starts six_events.result_events ≤ 3) × (total_repairs six_events.result_events ≤ 0)
budgets_kept_example =
    budgets_kept example_runtime workflow_uuid digest_1 six_files six_events six_files_read

read_timeline-Explained_example :
    Explained
      (some last_projection)
      (total_starts six_events.result_events)
      (total_repairs six_events.result_events)
      (approval_log none six_events.result_events)
read_timeline-Explained_example =
    read_timeline-Explained example_runtime workflow_uuid digest_1 six_files six_events
      six_files_read

last_append :
    append example_runtime workflow_uuid digest_1 five_files event_uuid "2026-01-01" last_payload
    ≡ ok (event_6, six_files)
unfolding same_text utf16_length is_uuid is_git_commit validate_workflow_definition
    is_workflow_stage project_workflow_event project_created project_current first_projection
    project_data clone_projection project_stage_started stage_start_refused project_stage_completed
    stage_completion_refused result_refused is_allowed_next_stage is_allowed_after_success
    retries_after project_approval_requested approval_request_refused project_approval_decided
    approval_decision_refused project_workflow_completed completion_refused
    is_terminal_workflow_status transition_error next_candidate_stage next_successful_stage append
    write_event create_workflow_event read_timeline finish_reading read_events read_event
    parse_event validate_workflow_event envelope_refused validate_event_data is_nullable_uuid
    is_nullable_bounded_string is_sha256 is_iso_date xor
last_append = refl

read_timeline-append_example :
    (before after : ReadResult) × (read_timeline example_runtime workflow_uuid digest_1 five_files
      ≡ ok before)
    × (read_timeline example_runtime workflow_uuid digest_1 six_files ≡ ok after)
    × (after.result_events ≡ before.result_events ++ event_6 ∷ [])
    × (last_payload ≡ last_payload)
read_timeline-append_example =
    read_timeline-append example_runtime workflow_uuid digest_1 event_6 six_round_trip five_files
      six_files event_uuid "2026-01-01" last_payload last_append

first_created :
    project_workflow_event example_runtime.dates none event_1 digest_1 true
    ≡ ok (first_projection example_definition event_1 digest_1)
unfolding same_text utf16_length is_uuid is_git_commit validate_workflow_definition
    is_workflow_stage project_workflow_event project_created is_iso_date xor
first_created = refl

project_workflow_event-Inv_example : Inv (first_projection example_definition event_1 digest_1)
project_workflow_event-Inv_example =
    project_workflow_event-Inv example_runtime.dates none event_1 digest_1 true tt first_created

is_allowed_next_stage-next_successful_stage_example :
    (is_allowed_next_stage last_projection implemented ≡ true)
    ↔ (some approval ≡ some (next_successful_stage example_definition implement))
is_allowed_next_stage-next_successful_stage_example =
    is_allowed_next_stage-next_successful_stage last_projection implemented refl

ended_journal_is_final_example :
    (¬ (
      append example_runtime workflow_uuid digest_1 six_files event_uuid "2026-01-01" last_payload
      ≡ ok (event_6, six_files)))
    × (¬ (
        read_timeline example_runtime workflow_uuid digest_1 (six_files ++ file_at 7 "7" "7" ∷ [])
        ≡ ok six_events))
ended_journal_is_final_example =
    ended_journal_is_final example_runtime workflow_uuid digest_1 six_files six_events
      six_files_read completed_is_terminal event_uuid "2026-01-01" last_payload event_6 six_files
      (file_at 7 "7" "7") [] six_events
