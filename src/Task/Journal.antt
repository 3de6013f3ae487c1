-- ===== src/Task/Journal.antt =====
-- artifacts/task-journal.ts: creating a task, appending to its journal and reading it back.
-- The events directory is the list of its event files in the order of their names. Staging files, the
-- ready marker's file, the routing index, the abort signal and the checks of private directories are not
-- modelled, nor is the listing of tasks; the digest in the ready marker is an argument.
pub mod Frames
pub mod History
pub mod Reading
pub mod Claims
pub mod Creating
pub mod Tests
use Prim.Native.String.{len}
use agent_harness_os.Base.{
  ℕ, suc, ◌+◌, String, Bool, true, false, not, ◌&&◌, Option, none, some, List, [], ◌∷◌, ◌++◌, ltb,
  leb, nat_beq, if◌then◌else◌, ◌==◌, nat_eq, string_eq, option_eq, is_none, is_some, length,
  HarnessError, harness_error, Result, ok, err, ◌>>=◌, ◌>>◌, throw_if,
}
use agent_harness_os.Task.Types.{
  TaskSummary, TaskEventProjection, WorkflowTaskProvenance, TaskCreated, TaskEventData,
  task_created, tool_called, worker_completed, attempt_completed, patch_application_rejected,
  TaskEvent, call_eq, validation_eq, evaluation_eq, policy_eq, task_status_eq, application_eq,
  dimension_eq,
}
use agent_harness_os.Domain.{WorkerMode, worker_mode_eq, capability_eq, run_status_eq}
use agent_harness_os.Workflow.Definition.{Dates, is_uuid}
use agent_harness_os.Task.Validation.{invalid_task_journal, validate_task_event}
use agent_harness_os.Task.Projection.{project_task_event}

-- What the journal calls and does not implement: SHA-256, `JSON.stringify` and `JSON.parse` (with UTF-8
-- decoding, to a typed event or to nothing), dates, and the redactor that the constructor takes.
pub record TaskRuntime : Type 0 where
  pub dates : Dates
  pub sha256 : String → String
  pub stringify : TaskEvent → String
  pub parse : String → Option TaskEvent
  pub contains_credential_material : TaskEvent → Bool
  pub redact : String → String

-- `file_sha256` is the digest in the file's name, in lower case.
pub record TaskFile : Type 0 where
  pub file_sequence : ℕ
  pub file_sha256 : String
  pub contents : String

pub record TaskReadState : Type 0 where
  pub projection : Option TaskEventProjection
  pub previous_event_sha256 : Option String
  pub bytes_read : ℕ
  pub events : List TaskEvent

pub record TaskReadResult : Type 0 where
  pub result_projection : TaskEventProjection
  pub result_events : List TaskEvent
  pub result_bytes : ℕ

abbrev pub max_task_event_bytes : ℕ
max_task_event_bytes = 65536

abbrev pub max_events_per_task : ℕ
max_events_per_task = 10000

abbrev pub max_task_timeline_bytes : ℕ
max_task_timeline_bytes = 8388608

abbrev pub task_event_limit : HarnessError
task_event_limit = harness_error "TASK_EVENT_LIMIT"

abbrev pub task_contains_secret : HarnessError
task_contains_secret = harness_error "TASK_CONTAINS_SECRET"

abbrev pub initial_read : TaskReadState
initial_read = record {
  projection = none;
  previous_event_sha256 = none;
  bytes_read = 0;
  events = [];
}

-- What `create` is given: the policy is its digest and the number of its sources.
pub record CreateTaskInput : Type 0 where
  pub objective : String
  pub mode : WorkerMode
  pub repository_path : String
  pub base_commit : String
  pub execution_started_at : Option String
  pub policy : Option (String × ℕ)
  pub workflow_provenance : Option WorkflowTaskProvenance

-- The schema version that `create` gives a task.
unfoldable pub created_schema_version : CreateTaskInput → ℕ
created_schema_version input =
    if is_none input.execution_started_at
    then (if is_none input.workflow_provenance then (if is_none input.policy then 3 else 5) else 6)
    else 7

abbrev pub map_some {ℓ κ} : {A : Type ℓ} {B : Type κ} → (A → B) → Option A → Option B
map_some f none = none
map_some f (some a) = some (f a)

module _ (rt : TaskRuntime) where
  unfoldable pub redact_event_input : TaskEventData → TaskEventData
  redact_event_input (tool_called e) = tool_called (record e { tool_name = rt.redact e.tool_name })
  redact_event_input (worker_completed e) =
      worker_completed (record e { failure_code = map_some rt.redact e.failure_code })
  redact_event_input (attempt_completed e) =
      attempt_completed (record e { failure_code = map_some rt.redact e.failure_code })
  redact_event_input (patch_application_rejected run_id failure) =
      patch_application_rejected run_id (rt.redact failure)
  redact_event_input d = d

  unfoldable pub parsed_task_event : Option TaskEvent → String → ℕ → Result TaskEvent
  parsed_task_event none task_id sequence = err invalid_task_journal
  parsed_task_event (some e) task_id sequence = validate_task_event rt.dates e task_id sequence

  -- `createEvent`: the new identifier and the time come from the runtime.
  unfoldable pub create_task_event :
      ℕ → String → ℕ → Option String → String → String → TaskEventData → Result TaskEvent
  create_task_event version task_id sequence previous event_id occurred_at payload =
      validate_task_event rt.dates
        (record {
          schema_version = version;
          event_id = event_id;
          task_id = task_id;
          sequence = sequence;
          occurred_at = occurred_at;
          previous_event_sha256 = previous;
          payload = payload;
        })
        task_id sequence

  unfoldable pub serialize_task_event : TaskEvent → Result String
  serialize_task_event event =
      throw_if (ltb max_task_event_bytes (len (rt.stringify event)))
        (harness_error "TASK_EVENT_TOO_LARGE")
      >> ok (rt.stringify event)

  -- The file that is written for an event, under the name that `eventFileName` gives.
  abbrev pub task_file : TaskEvent → String → TaskFile
  task_file event serialized = record {
    file_sequence = event.sequence;
    file_sha256 = rt.sha256 serialized;
    contents = serialized;
  }

  -- One round of the loop of `readTimeline`.
  unfoldable pub read_task_event :
      String → String → ℕ → TaskReadState → TaskFile → Result TaskReadState
  read_task_event task_id first_sha256 sequence st file = do
    throw_if (not (file.file_sequence == sequence)) invalid_task_journal
    throw_if (ltb max_task_timeline_bytes (st.bytes_read + len file.contents)) task_event_limit
    event ← parsed_task_event (rt.parse file.contents) task_id sequence
    throw_if (rt.contains_credential_material event) task_contains_secret
    throw_if (not (rt.sha256 file.contents == file.file_sha256)) invalid_task_journal
    throw_if (not (event.previous_event_sha256 == st.previous_event_sha256)) invalid_task_journal
    throw_if (sequence == 1 && not (file.file_sha256 == first_sha256)) invalid_task_journal
    p ← project_task_event st.projection event file.file_sha256 false
    ok (record {
      projection = some p;
      previous_event_sha256 = some file.file_sha256;
      bytes_read = st.bytes_read + len file.contents;
      events = st.events ++ event ∷ [];
    })

  unfoldable pub read_task_events :
      String → String → ℕ → TaskReadState → List TaskFile → Result TaskReadState
  read_task_events task_id first_sha256 sequence st [] = ok st
  read_task_events task_id first_sha256 sequence st (file ∷ files) =
      read_task_event task_id first_sha256 sequence st file >>= λ st'.
      read_task_events task_id first_sha256 (suc sequence) st' files

  unfoldable pub task_read_result :
      Option TaskEventProjection → TaskReadState → Result TaskReadResult
  task_read_result none st = err invalid_task_journal
  task_read_result (some p) st =
      ok (record { result_projection = p; result_events = st.events; result_bytes = st.bytes_read })

  unfoldable pub read_task_timeline : String → String → List TaskFile → Result TaskReadResult
  read_task_timeline task_id first_sha256 files = do
    throw_if (not (is_uuid task_id)) (harness_error "INVALID_TASK_ID")
    throw_if (nat_beq (length files) 0) invalid_task_journal
    throw_if (ltb max_events_per_task (length files)) task_event_limit
    st ← read_task_events task_id first_sha256 1 initial_read files
    task_read_result st.projection st

  -- The second half of `append`: the new event is checked and written.
  unfoldable pub write_task_event :
      TaskReadResult → List TaskFile → TaskEvent → Result (TaskEvent × List TaskFile)
  write_task_event current files event = do
    throw_if (rt.contains_credential_material event) task_contains_secret
    serialized ← serialize_task_event event
    p ← project_task_event (some current.result_projection) event (rt.sha256 serialized) true
    throw_if (ltb max_task_timeline_bytes (current.result_bytes + len serialized)) task_event_limit
    ok (event, files ++ task_file event serialized ∷ [])

  -- `append`: the event, and the files after it was written.
  unfoldable pub append_task_event :
      String
      → String
      → List TaskFile
      → String
      → String
      → TaskEventData
      → Result (TaskEvent × List TaskFile)
  append_task_event task_id first_sha256 files event_id occurred_at input = do
    current ← read_task_timeline task_id first_sha256 files
    throw_if (leb max_events_per_task (length current.result_events)) task_event_limit
    event ←
        create_task_event current.result_projection.event_schema_version task_id
          (length current.result_events + 1)
          (some current.result_projection.summary.latest_event_sha256) event_id occurred_at
          (redact_event_input input)
    write_task_event current files event

  abbrev pub created_data : CreateTaskInput → TaskCreated
  created_data input = record {
    objective = rt.redact input.objective;
    mode = input.mode;
    repository_path = input.repository_path;
    base_commit = input.base_commit;
    execution_started_at = input.execution_started_at;
    policy_sha256 = map_some (λ (p : String × ℕ). p.0) input.policy;
    policy_source_count = map_some (λ (p : String × ℕ). p.1) input.policy;
    workflow_provenance = input.workflow_provenance;
  }

  -- `create`: the summary, and the only event file of the new journal.
  unfoldable pub create_task :
      String → String → String → CreateTaskInput → Result (TaskSummary × TaskFile)
  create_task task_id event_id occurred_at input = do
    throw_if (is_some input.execution_started_at && is_none input.policy)
        (harness_error "INVALID_TASK_EVENT")
    event ←
        create_task_event (created_schema_version input) task_id 1 none event_id occurred_at
          (task_created (created_data input))
    throw_if (rt.contains_credential_material event) task_contains_secret
    serialized ← serialize_task_event event
    p ← project_task_event none event (rt.sha256 serialized) true
    ok (p.summary, task_file event serialized)
