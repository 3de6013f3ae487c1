-- ===== src/Agent/Tests.antt =====
-- worker/agent-loop.ts: a model that calls one tool and then answers.
use agent_harness_os.Base.{
  same_text, utf16_length, ℕ, zero, suc, ◌≤◌, String, ◌≡◌, refl, xor, true, false, none, some, [],
  ◌∷◌, length, harness_error, Result, ok, err, ◌>>=◌,
}
use agent_harness_os.Task.Types.{
  in_progress, not_requested, TaskEventProjection, Timing, WorkerStarted, worker_started,
  worker_completed, TaskEvent,
}
use agent_harness_os.Domain.{implementation, balanced}
use agent_harness_os.Workflow.Definition.{is_iso_date, is_uuid, is_sha256}
use agent_harness_os.Task.Attempts.{
  get_active_run, change_attempt, model_turn_refused, tool_call_refused, worker_completion_refused,
}
use agent_harness_os.Task.Validation.{
  is_timing, is_model_turn_completed, is_tool_called, is_worker_completed, is_task_event_data,
  is_task_envelope, validate_task_event,
}
use agent_harness_os.Task.Projection.{
  new_attempt, project_task_data, clone_task_projection, project_task_later, project_task_payload,
  project_task_event,
}
use agent_harness_os.Task.Journal.{
  TaskRuntime, TaskReadResult, redact_event_input, create_task_event, serialize_task_event,
}
use agent_harness_os.Agent.{
  Completion, AgentLoopLimits, AgentLoopResult, Agent, LoopState, is_blank, check_completion,
  run_tool, run_tools, answer, take_calls, take_completion, checked_completion, completed_turn,
  run_turn, run_turns, run_agent_loop,
}
use agent_harness_os.Agent.Observing.{
  observed_event, Stamps, finish_recording, check_recorded, record_event, record_observations,
  completed_worker,
}
use agent_harness_os.Agent.Bounds.{tool_calls_in, turns_in, run_agent_loop-limits}
use agent_harness_os.Agent.Recorded.{Unless, WorkerIsDone, run_agent_loop-recorded}

abbrev task_uuid : String
task_uuid = "00000000-0000-4000-8000-000000000000"

abbrev run_uuid : String
run_uuid = "00000000-0000-4000-8000-000000000003"

abbrev digest : String
digest = "00000000000000000000000000000000000000000000000000000000000000ab"

abbrev some_time : Timing
some_time = record {
  started_at = some "2026-01-01";
  completed_at = some "2026-01-01";
  duration_ms = some 5;
}

abbrev one_call : Completion
one_call = record {
  content = none;
  tool_calls =
      record { call_id = "1"; function_name = "read_file"; function_arguments = "{}" } ∷ [];
}

abbrev an_answer : Completion
an_answer = record { content = some "Done"; tool_calls = [] }

-- The state is the number of completions so far.
abbrev next_completion : ℕ → Result Completion
next_completion zero = ok one_call
next_completion (suc n) = ok an_answer

abbrev example_agent : Agent ℕ String
example_agent = record {
  complete = λ n messages. (next_completion n, suc n);
  execute = λ n name arguments. (record { result_content = "text"; is_error = false }, n);
  parse_json = λ text. some text;
  request_bytes = λ messages. length messages;
  timing_of = λ n. some_time;
}

abbrev example_limits : AgentLoopLimits
example_limits = record {
  max_total_tool_calls = 4;
  max_context_bytes = 100;
  max_assistant_content_bytes = 100;
}

abbrev example_run : Result AgentLoopResult × LoopState ℕ
example_run = run_agent_loop example_agent example_limits "System" "User" 3 0

-- The model is asked twice.
two_turns :
    (example_run.0 ≡ ok (record { final_response = "Done"; iterations = 2 }))
    × (tool_calls_in example_run.1.observations ≡ 1)
    × (turns_in example_run.1.observations ≡ 2)
unfolding run_agent_loop run_turns run_turn completed_turn check_completion checked_completion
    take_completion take_calls run_tools run_tool answer is_blank
two_turns = (refl, refl, refl)

run_agent_loop-limits_example :
    (tool_calls_in example_run.1.observations ≤ 4)
    × (turns_in example_run.1.observations ≤ 3)
    × ((x : AgentLoopResult)
        → example_run.0 ≡ ok x
        → x.iterations ≡ turns_in example_run.1.observations)
run_agent_loop-limits_example =
    run_agent_loop-limits example_agent example_limits "System" "User" 3 0

abbrev started_worker : WorkerStarted
started_worker = record { run_id = run_uuid; worker_id = "local"; attempt_number = 1 }

abbrev running_task : TaskEventProjection
running_task = record {
  summary = record {
    task_id = task_uuid;
    objective = "Change";
    mode = implementation;
    repository_path = "/repository";
    base_commit = "0000";
    created_at = "2026-01-01";
    updated_at = "2026-01-01";
    status = in_progress;
    attempt_count = 1;
    latest_run_id = some run_uuid;
    worker_ids = "local" ∷ [];
    event_count = 3;
    latest_event_sha256 = digest;
    patch_application_status = not_requested;
    policy_sha256 = none;
  };
  strategy = some balanced;
  candidate_worker_ids = "local" ∷ [];
  max_attempts = 1;
  active_attempt = some (new_attempt started_worker);
  last_attempt = none;
  known_run_ids = run_uuid ∷ [];
  application_run_id = none;
  event_schema_version = 7;
}

abbrev example_runtime : TaskRuntime
example_runtime = record {
  dates = record { parses = λ s. true; to_iso_string = λ s. s };
  sha256 = λ s. digest;
  stringify = λ e. "{}";
  parse = λ s. none;
  contains_credential_material = λ e. false;
  redact = λ s. s;
}

abbrev example_stamps : Stamps
example_stamps = record {
  event_id_at = λ n. "00000000-0000-4000-8000-000000000009";
  occurred_at = λ n. "2026-01-01";
}

-- The event before the run.
abbrev prior_event : TaskEvent
prior_event = record {
  schema_version = 7;
  event_id = "00000000-0000-4000-8000-000000000008";
  task_id = task_uuid;
  sequence = 1;
  occurred_at = "2026-01-01";
  previous_event_sha256 = none;
  payload = worker_started started_worker;
}

abbrev running_timeline : TaskReadResult
running_timeline = record {
  result_projection = running_task;
  result_events = prior_event ∷ [];
  result_bytes = 0;
}

abbrev recorded_run : Result TaskReadResult
recorded_run =
    record_observations example_runtime example_stamps running_timeline run_uuid
      example_run.1.observations
    >>= λ next.
        record_event example_runtime example_stamps next
          (worker_completed (completed_worker run_uuid 2 example_run.0))

abbrev events_of : Result TaskReadResult → ℕ
events_of (err e) = 0
events_of (ok r) = length r.result_events

-- Two turns, a tool call and the worker's end are recorded after the event before the run.
four_recorded : events_of recorded_run ≡ 5
unfolding run_agent_loop run_turns run_turn completed_turn check_completion checked_completion
    take_completion take_calls run_tools run_tool answer is_blank record_observations record_event
    check_recorded finish_recording observed_event completed_worker create_task_event
    validate_task_event redact_event_input serialize_task_event is_task_envelope is_task_event_data
    is_model_turn_completed is_tool_called is_worker_completed is_timing is_uuid is_sha256
    is_iso_date same_text utf16_length xor project_task_event project_task_payload
    project_task_later project_task_data clone_task_projection change_attempt get_active_run
    model_turn_refused tool_call_refused worker_completion_refused
four_recorded = refl

-- A tool name of the provider that is empty is refused, not for its place.
abbrev nameless_agent : Agent ℕ String
nameless_agent = record example_agent {
  complete = λ n messages. (
    ok (record one_call {
      tool_calls = record { call_id = "1"; function_name = ""; function_arguments = "{}" } ∷ [];
    }),
    suc n,
  );
}

abbrev nameless_recorded : Result TaskReadResult
nameless_recorded =
    record_observations example_runtime example_stamps running_timeline run_uuid
      (run_agent_loop nameless_agent example_limits "System" "User" 1 0).1.observations

nameless_refused : nameless_recorded ≡ err (harness_error "INVALID_TASK_JOURNAL")
unfolding run_agent_loop run_turns run_turn completed_turn check_completion checked_completion
    take_completion take_calls run_tools run_tool answer is_blank record_observations record_event
    check_recorded finish_recording observed_event completed_worker create_task_event
    validate_task_event redact_event_input serialize_task_event is_task_envelope is_task_event_data
    is_model_turn_completed is_tool_called is_worker_completed is_timing is_uuid is_sha256
    is_iso_date same_text utf16_length xor project_task_event project_task_payload
    project_task_later project_task_data clone_task_projection change_attempt get_active_run
    model_turn_refused tool_call_refused worker_completion_refused
nameless_refused = refl

run_agent_loop-recorded_example : Unless WorkerIsDone recorded_run
run_agent_loop-recorded_example =
    run_agent_loop-recorded example_agent example_limits "System" "User" 3 2 0 example_runtime
      example_stamps running_timeline started_worker refl refl
