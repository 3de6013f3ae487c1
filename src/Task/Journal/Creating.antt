-- ===== src/Task/Journal/Creating.antt =====
-- artifacts/task-journal.ts, `create`: what it writes is the history of the task that it returns.
use Prim.Native.String.{len}
use agent_harness_os.Base.{
  ℕ, ◌+◌, ◌≤◌, String, ◌≡◌, refl, sym, ap, subst, ◌∙◌, true, false, not, ◌&&◌, none, some, [], ◌∷◌,
  ◌++◌, arith, ltb, ◌==◌, nat_eq, string_eq, option_eq, is_none, is_some, ltb-eq-false, ==_same,
  ltb-false_of_le, length, ok, ◌>>=◌, ◌>>◌, throw_if, throw_if-eq-ok, Ensures, Ensures->>=,
  Ensures-checked, Ensures-ok, ok-injective, pass, throw_if-pass, throw_if_inv,
}
use agent_harness_os.Task.Types.{
  TaskSummary, TaskEventProjection, TaskCreated, task_created, TaskEvent, call_eq, validation_eq,
  evaluation_eq, policy_eq, task_status_eq, application_eq, dimension_eq,
}
use agent_harness_os.Domain.{worker_mode_eq, capability_eq, run_status_eq}
use agent_harness_os.Workflow.Definition.{Dates, is_uuid}
use agent_harness_os.Task.Validation.{is_task_event_data, is_task_envelope, validate_task_event}
use agent_harness_os.Task.Projection.{
  first_task_projection, project_task_created, project_task_payload, project_task_event,
}
use agent_harness_os.Task.Journal.{
  TaskRuntime, TaskFile, TaskReadState, TaskReadResult, max_task_event_bytes,
  max_task_timeline_bytes, task_contains_secret, initial_read, CreateTaskInput,
  created_schema_version, parsed_task_event, create_task_event, serialize_task_event, task_file,
  read_task_event, read_task_events, task_read_result, read_task_timeline, created_data,
  create_task,
}

validate_task_event-same :
    (dates : Dates) (event event' : TaskEvent) (task_id : String) (sequence : ℕ)
    → validate_task_event dates event task_id sequence ≡ ok event'
    → event ≡ event'
unfolding validate_task_event
validate_task_event-same dates event event' task_id sequence h =
    let (envelope, h1) = throw_if_inv (not (is_task_envelope dates event task_id sequence)) _ _ h in
    let (content, h2) =
      throw_if_inv (not (is_task_event_data dates event.schema_version sequence event.payload)) _ _
        h1 in
    ok-injective h2

module _ (rt : TaskRuntime) where
  -- The first event, as `create` makes it.
  abbrev pub first_event : ℕ → String → String → String → TaskCreated → TaskEvent
  first_event version task_id event_id occurred_at e = record {
    schema_version = version;
    event_id = event_id;
    task_id = task_id;
    sequence = 1;
    occurred_at = occurred_at;
    previous_event_sha256 = none;
    payload = task_created e;
  }

  -- The file alone is read back to the summary.
  abbrev IsReadBack : String → TaskSummary × TaskFile → Type 0
  IsReadBack task_id (summary, file) =
      (r : TaskReadResult) × (read_task_timeline rt task_id file.file_sha256 (file ∷ []) ≡ ok r)
      × (r.result_projection.summary ≡ summary)
      × (length r.result_events ≡ 1)

-- What it takes for a file to be read.
read_accepted :
    (rt : TaskRuntime) (task_id first_sha256 : String) (sequence : ℕ) (st : TaskReadState)
    (file : TaskFile) (event : TaskEvent) (p : TaskEventProjection)
    → file.file_sequence ≡ sequence
    → st.bytes_read + len file.contents ≤ max_task_timeline_bytes
    → rt.sha256 file.contents ≡ file.file_sha256
    → parsed_task_event rt (rt.parse file.contents) task_id sequence ≡ ok event
    → rt.contains_credential_material event ≡ false
    → event.previous_event_sha256 ≡ st.previous_event_sha256
    → (sequence == 1 && not (file.file_sha256 == first_sha256)) ≡ false
    → project_task_event st.projection event file.file_sha256 false ≡ ok p
    → read_task_event rt task_id first_sha256 sequence st file
      ≡ ok (record {
        projection = some p;
        previous_event_sha256 = some file.file_sha256;
        bytes_read = st.bytes_read + len file.contents;
        events = st.events ++ event ∷ [];
      })
unfolding read_task_event
read_accepted rt task_id first_sha256 sequence st file event p numbered short digest parsed safe
      chained anchored projected =
    throw_if-pass _ _ (==_same numbered)
    ∙ throw_if-pass _ _ (ltb-false_of_le short)
    ∙ pass _ parsed
    ∙ throw_if-pass _ _ safe
    ∙ throw_if-pass _ _ (==_same digest)
    ∙ throw_if-pass _ _ (==_same chained)
    ∙ throw_if-pass _ _ anchored
    ∙ pass _ projected

module _ (rt : TaskRuntime) (version : ℕ) (task_id event_id occurred_at : String) (e : TaskCreated)
    (valid : validate_task_event rt.dates
        (first_event rt version task_id event_id occurred_at e)
        task_id
        1
      ≡ ok (first_event rt version task_id event_id occurred_at e))
    (reversible : rt.parse (rt.stringify (first_event rt version task_id event_id occurred_at e))
      ≡ some (first_event rt version task_id event_id occurred_at e)) where
  abbrev event : TaskEvent
  event = first_event rt version task_id event_id occurred_at e

  abbrev sha : String
  sha = rt.sha256 (rt.stringify event)

  read_first :
      rt.contains_credential_material event ≡ false
      → len (rt.stringify event) ≤ max_task_event_bytes
      → read_task_event rt task_id sha 1 initial_read (task_file rt event (rt.stringify event))
        ≡ ok (record {
          projection = some (first_task_projection e event sha);
          previous_event_sha256 = some sha;
          bytes_read = 0 + len (rt.stringify event);
          events = event ∷ [];
        })
  unfolding parsed_task_event project_task_event project_task_payload project_task_created
  read_first safe short =
      read_accepted rt task_id sha 1 initial_read (task_file rt event (rt.stringify event)) event
        (first_task_projection e event sha) refl (omega (arith, short)) refl
        (ap (λ o. parsed_task_event rt o task_id 1) reversible ∙ valid) safe refl
        (==_same {a = sha} {b = sha} refl) refl

  finish_creation :
      is_uuid task_id ≡ true
      → Ensures (IsReadBack rt task_id) (do
        throw_if (rt.contains_credential_material event) task_contains_secret
        serialized ← serialize_task_event rt event
        p ← project_task_event none event (rt.sha256 serialized) true
        ok (p.summary, task_file rt event serialized))
  unfolding serialize_task_event project_task_event project_task_payload project_task_created
      read_task_timeline read_task_events task_read_result
  finish_creation uuid =
      Ensures->>= (IsReadBack rt task_id) (throw_if (rt.contains_credential_material event) _) _
        λ u safe.
          Ensures-checked (IsReadBack rt task_id)
            (ltb max_task_event_bytes (len (rt.stringify event))) _ _ _
            λ short. (
              _,
              throw_if-pass {b = not (is_uuid task_id)} _ _ (ap not uuid)
                  ∙ pass _ (pass _ (read_first (throw_if-eq-ok _ _ safe) (ltb-eq-false short))),
              refl,
              refl,
            )

-- The event that `create` makes.
abbrev pub made : TaskRuntime → String → String → String → CreateTaskInput → TaskEvent
made rt task_id event_id occurred_at input =
    first_event rt (created_schema_version input) task_id event_id occurred_at
      (created_data rt input)

-- Where the new task's identifier is a UUID and `JSON.parse` undoes `JSON.stringify` on the event that
-- `create` makes, the file that it writes can be read back alone, with its digest in the ready marker, to the summary that
-- `create` returned and one event.
pub create-read :
    (rt : TaskRuntime) (task_id event_id occurred_at : String) (input : CreateTaskInput)
    (summary : TaskSummary) (file : TaskFile)
    → is_uuid task_id ≡ true
    → rt.parse (rt.stringify (made rt task_id event_id occurred_at input))
      ≡ some (made rt task_id event_id occurred_at input)
    → create_task rt task_id event_id occurred_at input ≡ ok (summary, file)
    → (r : TaskReadResult) × (read_task_timeline rt task_id file.file_sha256 (file ∷ []) ≡ ok r)
      × (r.result_projection.summary ≡ summary)
      × (length r.result_events ≡ 1)
unfolding create_task create_task_event
create-read rt task_id event_id occurred_at input summary file uuid reversible h =
    Ensures-ok (IsReadBack rt task_id) _
      (Ensures->>= (IsReadBack rt task_id)
        (throw_if (is_some input.execution_started_at && is_none input.policy) _) _
        λ u c1.
          Ensures->>= (IsReadBack rt task_id)
            (validate_task_event rt.dates (made rt task_id event_id occurred_at input) task_id 1) _
            λ event c2.
              let same =
                validate_task_event-same rt.dates (made rt task_id event_id occurred_at input) event
                  task_id 1 c2 in
              subst
                (λ x. Ensures (IsReadBack rt task_id) (do
                  throw_if (rt.contains_credential_material x) task_contains_secret
                  serialized ← serialize_task_event rt x
                  p ← project_task_event none x (rt.sha256 serialized) true
                  ok (p.summary, task_file rt x serialized)))
                same
                (finish_creation rt (created_schema_version input) task_id event_id occurred_at
                  (created_data rt input) (c2 ∙ ap ok (sym same)) reversible uuid))
      h
