-- ===== src/Agent/Observing.antt =====
-- worker/service.ts, `runTask`: the observations of the agent loop become events of the run's task.
use Prim.Native.String.{len}
use agent_harness_os.Base.{
  ℕ, ◌+◌, String, true, Option, none, some, List, [], ◌∷◌, ◌++◌, ltb, leb, length, Result, ok, err,
  ◌>>=◌, ◌>>◌, throw_if,
}
use agent_harness_os.Task.Types.{
  CallOutcome, succeeded, TaskEventProjection, WorkerCompleted, TaskEventData, model_turn_completed,
  tool_called, TaskEvent,
}
use agent_harness_os.Task.Projection.{project_task_event}
use agent_harness_os.Task.Journal.{
  TaskRuntime, TaskReadResult, max_events_per_task, max_task_timeline_bytes, task_event_limit,
  task_contains_secret, redact_event_input, create_task_event, serialize_task_event,
}
use agent_harness_os.Agent.{Observation, tool_call, model_turn, AgentLoopResult}

unfoldable pub observed_event : String → Observation → TaskEventData
observed_event run_id (model_turn t) = model_turn_completed (record {
  run_id = run_id;
  iteration = t.turn_iteration;
  outcome = t.turn_outcome;
  tool_call_count = t.tool_call_count;
  timing = t.turn_timing;
})
observed_event run_id (tool_call t) = tool_called (record {
  run_id = run_id;
  tool_name = t.tool_name;
  iteration = t.tool_iteration;
  outcome = t.tool_outcome;
  input_bytes = t.input_bytes;
  output_bytes = t.output_bytes;
  timing = t.tool_timing;
})

-- The identifier and the time that the runtime gives the event with a sequence number.
pub record Stamps : Type 0 where
  pub event_id_at : ℕ → String
  pub occurred_at : ℕ → String

-- The timeline with an event that `append` has written.
unfoldable pub finish_recording :
    TaskReadResult → TaskEvent → String → TaskEventProjection → Result TaskReadResult
finish_recording current event serialized p = do
  throw_if (ltb max_task_timeline_bytes (current.result_bytes + len serialized)) task_event_limit
  ok (record {
    result_projection = p;
    result_events = current.result_events ++ event ∷ [];
    result_bytes = current.result_bytes + len serialized;
  })

unfoldable pub check_recorded : TaskRuntime → TaskReadResult → TaskEvent → Result TaskReadResult
check_recorded rt current event = do
  throw_if (rt.contains_credential_material event) task_contains_secret
  serialized ← serialize_task_event rt event
  p ← project_task_event (some current.result_projection) event (rt.sha256 serialized) true
  finish_recording current event serialized p

-- What `append` of the task's journal does with the data of an event, once it has read the timeline: the timeline that
-- holds the event, which the next `append` reads.
unfoldable pub record_event :
    TaskRuntime → Stamps → TaskReadResult → TaskEventData → Result TaskReadResult
record_event rt stamps current input = do
  throw_if (leb max_events_per_task (length current.result_events)) task_event_limit
  event ←
      create_task_event rt current.result_projection.event_schema_version
        current.result_projection.summary.task_id (length current.result_events + 1)
        (some current.result_projection.summary.latest_event_sha256)
        (stamps.event_id_at (length current.result_events + 1))
        (stamps.occurred_at (length current.result_events + 1)) (redact_event_input rt input)
  check_recorded rt current event

-- The events of the observations, in their order, up to the first that is refused. The observer names that error as
-- the cause of `TASK_HISTORY_RECORDING_FAILED`.
unfoldable pub record_observations :
    TaskRuntime → Stamps → TaskReadResult → String → List Observation → Result TaskReadResult
record_observations rt stamps current run_id [] = ok current
record_observations rt stamps current run_id (o ∷ os) =
    record_event rt stamps current (observed_event run_id o) >>= λ next.
    record_observations rt stamps next run_id os

-- `WorkerCompleted` after the loop: it succeeded where the loop returned.
abbrev pub loop_outcome : Result AgentLoopResult → CallOutcome
loop_outcome (ok r) = succeeded
loop_outcome (err e) = CallOutcome.failed

abbrev pub loop_failure : Result AgentLoopResult → Option String
loop_failure (ok r) = none
loop_failure (err e) = some e.error_code

unfoldable pub completed_worker : String → ℕ → Result AgentLoopResult → WorkerCompleted
completed_worker run_id requests r = record {
  run_id = run_id;
  outcome = loop_outcome r;
  failure_code = loop_failure r;
  request_count = requests;
}
