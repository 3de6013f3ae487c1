-- ===== src/Workflow/Journal.antt =====
-- workflow/journal.ts: appending to a workflow's journal, and reading it back. The event directory is
-- the list of its event files in the order of their names. Staging files, the ready marker's file and
-- the checks of private directories are not modelled; the digest in the ready marker is an argument.
-- The contents of a file are valid UTF-8, and `len` is the number of bytes of a text.
pub mod Reading
pub mod Trace
pub mod History
pub mod Ending
pub mod Appending
pub mod RoundTrip
pub mod Examples
use Prim.Native.String.{len}
use agent_harness_os.Base.{
  ℕ, suc, ◌+◌, String, Bool, true, false, not, ◌&&◌, ◌||◌, Option, none, some, List, [], ◌∷◌, ◌++◌,
  ltb, leb, nat_beq, ◌==◌, nat_eq, string_eq, option_eq, length, HarnessError, harness_error,
  Result, ok, err, ◌>>=◌, ◌>>◌, throw_if,
}
use agent_harness_os.Workflow.Types.{
  Projection, EventData, workflow_created, stage_started, stage_interrupted,
  dependency_state_changed, stage_completed, approval_requested, approval_decided,
  workflow_completed, Event, worker_stage_eq, stage_eq, status_eq, decision_eq,
}
use agent_harness_os.Domain.{worker_mode_eq, capability_eq, run_status_eq}
use agent_harness_os.Workflow.Definition.{
  Dates, is_iso_date, is_integer_in_range, is_bounded_string, is_uuid, is_sha256,
  validate_workflow_definition,
}
use agent_harness_os.Workflow.Projection.{project_workflow_event}

-- What the journal calls and does not implement: SHA-256, `JSON.stringify` and `JSON.parse` (with
-- UTF-8 decoding, to a typed event or to nothing), and dates; the redactor that the constructor takes.
pub record Runtime : Type 0 where
  pub dates : Dates
  pub sha256 : String → String
  pub stringify : Event → String
  pub parse : String → Option Event
  pub contains_credential_material : Event → Bool

pub record EventFile : Type 0 where
  pub file_sequence : ℕ
  pub file_sha256 : String
  pub contents : String

pub record ReadState : Type 0 where
  pub projection : Option Projection
  pub previous_event_sha256 : Option String
  pub bytes_read : ℕ
  pub events : List Event

pub record ReadResult : Type 0 where
  pub result_projection : Projection
  pub result_events : List Event
  pub result_bytes : ℕ

abbrev pub max_event_bytes : ℕ
max_event_bytes = 65536

abbrev pub max_events_per_workflow : ℕ
max_events_per_workflow = 512

abbrev pub max_timeline_bytes : ℕ
max_timeline_bytes = 2097152

abbrev pub invalid_journal : HarnessError
invalid_journal = harness_error "INVALID_WORKFLOW_JOURNAL"

abbrev pub event_limit : HarnessError
event_limit = harness_error "WORKFLOW_EVENT_LIMIT"

abbrev pub contains_secret : HarnessError
contains_secret = harness_error "WORKFLOW_CONTAINS_SECRET"

-- `validateWorkflowEvent` and `validateWorkflowEventData` on a typed event.
pub is_nullable_uuid : Option String → Bool
is_nullable_uuid none = true
is_nullable_uuid (some id) = is_uuid id

pub is_nullable_bounded_string : Option String → ℕ → Bool
is_nullable_bounded_string none maximum = true
is_nullable_bounded_string (some s) maximum = is_bounded_string s maximum

pub validate_event_data : Dates → EventData → Bool
validate_event_data dates (workflow_created d) = validate_workflow_definition dates d
validate_event_data dates (stage_started e) =
    is_uuid e.execution_id
    && is_integer_in_range e.attempt_number 1 64
    && is_nullable_uuid e.source_run_id
validate_event_data dates (dependency_state_changed state) = true
validate_event_data dates (stage_interrupted stage id reason) = is_uuid id
validate_event_data dates (stage_completed e) =
    is_uuid e.execution_id
    && is_nullable_uuid e.task_id
    && is_nullable_uuid e.run_id
    && is_nullable_bounded_string e.failure_code 200
    && is_nullable_uuid e.candidate_run_id
validate_event_data dates (approval_requested id) = is_uuid id
validate_event_data dates (approval_decided decision feedback target) = leb (len feedback) 4000
validate_event_data dates (workflow_completed status failure candidate) =
    is_nullable_bounded_string failure 200 && is_nullable_uuid candidate

pub envelope_refused : Dates → Event → String → ℕ → Bool
envelope_refused dates e workflow_id sequence =
    not (is_uuid e.event_id)
    || not (e.workflow_id == workflow_id)
    || not (e.sequence == sequence)
    || not (is_iso_date dates e.occurred_at)
    || elim e.previous_event_sha256 [ none ↦ false | some s ↦ not (is_sha256 s) ]

pub validate_workflow_event : Dates → Event → String → ℕ → Result Event
validate_workflow_event dates e workflow_id sequence = do
  throw_if (envelope_refused dates e workflow_id sequence) invalid_journal
  throw_if (not (validate_event_data dates e.payload)) invalid_journal
  ok e

abbrev pub initial_state : ReadState
initial_state = record {
  projection = none;
  previous_event_sha256 = none;
  bytes_read = 0;
  events = [];
}

module _ (rt : Runtime) (workflow_id : String) where
  pub parse_event : String → ℕ → Result Event
  parse_event contents sequence = elim (rt.parse contents) [
    | none ↦ err invalid_journal
    | some e ↦ validate_workflow_event rt.dates e workflow_id sequence
  ]

  -- One round of the loop of `readTimeline`.
  pub read_event : String → ℕ → ReadState → EventFile → Result ReadState
  read_event first_sha256 sequence st file = do
    throw_if (not (file.file_sequence == sequence)) invalid_journal
    throw_if (ltb max_timeline_bytes (st.bytes_read + len file.contents)) event_limit
    throw_if (not (rt.sha256 file.contents == file.file_sha256)) invalid_journal
    event ← parse_event file.contents sequence
    throw_if (rt.contains_credential_material event) contains_secret
    throw_if (not (event.previous_event_sha256 == st.previous_event_sha256)) invalid_journal
    throw_if (sequence == 1 && not (file.file_sha256 == first_sha256)) invalid_journal
    p ← project_workflow_event rt.dates st.projection event file.file_sha256 false
    ok (record {
      projection = some p;
      previous_event_sha256 = some file.file_sha256;
      bytes_read = st.bytes_read + len file.contents;
      events = st.events ++ event ∷ [];
    })

  pub read_events : String → ℕ → ReadState → List EventFile → Result ReadState
  read_events first_sha256 sequence st [] = ok st
  read_events first_sha256 sequence st (file ∷ files) =
      read_event first_sha256 sequence st file >>= λ st'.
      read_events first_sha256 (suc sequence) st' files

  pub finish_reading : ReadState → Result ReadResult
  finish_reading st = elim st.projection [
    | none ↦ err invalid_journal
    | some p ↦
        ok (record {
          result_projection = p;
          result_events = st.events;
          result_bytes = st.bytes_read;
        })
  ]

  pub read_timeline : String → List EventFile → Result ReadResult
  read_timeline first_sha256 files = do
    throw_if (nat_beq (length files) 0) invalid_journal
    throw_if (ltb max_events_per_workflow (length files)) event_limit
    st ← read_events first_sha256 1 initial_state files
    finish_reading st

  -- `createWorkflowEvent`: the new identifier and the time come from the runtime.
  pub create_workflow_event : String → String → ℕ → Option String → EventData → Event
  create_workflow_event event_id occurred_at sequence previous payload = record {
    event_id = event_id;
    workflow_id = workflow_id;
    sequence = sequence;
    occurred_at = occurred_at;
    previous_event_sha256 = previous;
    payload = payload;
  }

  -- The file that `append` writes for an event, under the name that `eventFileName` gives.
  abbrev pub event_file : Event → EventFile
  event_file event = record {
    file_sequence = event.sequence;
    file_sha256 = rt.sha256 (rt.stringify event);
    contents = rt.stringify event;
  }

  -- The second half of `append`: the new event is checked and written.
  pub write_event : ReadResult → List EventFile → Event → Result (Event × List EventFile)
  write_event current files event = do
    throw_if (rt.contains_credential_material event) contains_secret
    throw_if (ltb max_event_bytes (len (rt.stringify event))) event_limit
    valid ← validate_workflow_event rt.dates event workflow_id (length current.result_events + 1)
    p ←
        project_workflow_event rt.dates (some current.result_projection) event
          (rt.sha256 (rt.stringify event)) true
    throw_if (ltb max_timeline_bytes (current.result_bytes + len (rt.stringify event))) event_limit
    ok (event, files ++ event_file event ∷ [])

  -- `append`: the event, and the files after it was written.
  pub append :
      String → List EventFile → String → String → EventData → Result (Event × List EventFile)
  append first_sha256 files event_id occurred_at payload = do
    current ← read_timeline first_sha256 files
    throw_if (leb max_events_per_workflow (length current.result_events)) event_limit
    write_event current files (
        create_workflow_event event_id occurred_at (length current.result_events + 1)
          (some current.result_projection.summary.latest_event_sha256) payload)
