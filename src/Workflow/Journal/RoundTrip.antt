-- ===== src/Workflow/Journal/RoundTrip.antt =====
-- workflow/journal.ts: an event that `append` wrote is the last event of the next `readTimeline`.
use Prim.Native.String.{len}
use agent_harness_os.Base.{
  ℕ, ◌+◌, ◌≤◌, ◌<◌, String, ◌≡◌, refl, sym, ap, subst, ◌∙◌, Bool, true, false, not, ◌&&◌, some,
  List, [], ◌∷◌, ◌++◌, arith, ◌==◌, nat_eq, string_eq, option_eq, ltb-eq-false, leb-eq-false,
  length, length-append, ok, >>=-eq-ok, Ensures-ok, ok-injective, pass, throw_if_inv,
}
use agent_harness_os.Workflow.Types.{
  Projection, EventData, Event, worker_stage_eq, stage_eq, status_eq, decision_eq,
}
use agent_harness_os.Domain.{worker_mode_eq, capability_eq, run_status_eq}
use agent_harness_os.Workflow.Definition.{Dates}
use agent_harness_os.Workflow.Projection.{project_workflow_event}
use agent_harness_os.Workflow.Journal.{
  Runtime, EventFile, ReadState, ReadResult, max_events_per_workflow, max_timeline_bytes,
  validate_workflow_event, initial_state, parse_event, read_timeline, create_workflow_event,
  event_file, write_event, append,
}
use agent_harness_os.Workflow.Journal.Reading.{
  EventRead, EventRead-read_event, read_events-induction, read_events_one, read_events-append,
  TimelineRead, read_timeline-TimelineRead, TimelineRead-read_timeline, read_events-length,
}
use agent_harness_os.Workflow.Journal.Appending.{
  project_workflow_event-append, HasLatest, project_workflow_event-HasLatest,
}

-- The previous digest that the loop keeps is the latest one of the projection.
abbrev IsLinked : ReadState → Type 0
IsLinked st =
    (p : Projection)
    → st.projection ≡ some p
    → st.previous_event_sha256 ≡ some p.summary.latest_event_sha256

module _ (rt : Runtime) (workflow_id first_sha256 : String) where
  read_event-IsLinked :
      (sequence : ℕ) (st st' : ReadState) (file : EventFile)
      → EventRead rt workflow_id first_sha256 sequence st file st'
      → IsLinked st
      → IsLinked st'
  read_event-IsLinked sequence st st' file r h p e =
      let latest : r.projected.summary.latest_event_sha256 ≡ file.file_sha256 =
        Ensures-ok (HasLatest file.file_sha256) _
          (project_workflow_event-HasLatest rt.dates st.projection r.event r.event.payload
            file.file_sha256 false refl)
          r.projects in
      cc (r.after, latest, e)

  -- What it took for an event to be written after a timeline that was read.
  record Written (current : ReadResult) (files : List EventFile) (event : Event)
      (files' : List EventFile) : Type 0 where
    clean : rt.contains_credential_material event ≡ false
    valid :
        validate_workflow_event rt.dates event workflow_id (length current.result_events + 1)
        ≡ ok event
    next : Projection
    projects :
        project_workflow_event rt.dates
          (some current.result_projection)
          event
          (rt.sha256 (rt.stringify event))
          true
        ≡ ok next
    within : current.result_bytes + len (rt.stringify event) ≤ max_timeline_bytes
    written : files' ≡ files ++ event_file rt workflow_id event ∷ []

  validate_workflow_event-same :
      (dates : Dates) (e v : Event) (id : String) (n : ℕ)
      → validate_workflow_event dates e id n ≡ ok v
      → validate_workflow_event dates e id n ≡ ok e
  unfolding validate_workflow_event
  validate_workflow_event-same dates e v id n h = ground arith

  write_event-Written :
      (current : ReadResult) (files : List EventFile) (e event : Event) {files' : List EventFile}
      → write_event rt workflow_id current files e ≡ ok (event, files')
      → Written current files e files' × (event ≡ e)
  unfolding write_event
  write_event-Written current files e event h =
      let (clean, h1) = throw_if_inv _ _ _ h in
      let (_, h2) = throw_if_inv _ _ _ h1 in
      let (v, c, h3) = >>=-eq-ok _ _ h2 in
      let (p, projects, h4) = >>=-eq-ok _ _ h3 in
      let (within, h5) = throw_if_inv _ _ _ h4 in
      let same = ok-injective h5 in
      (
        record {
          clean = clean;
          valid = validate_workflow_event-same rt.dates _ v _ _ c;
          next = p;
          projects = projects;
          within = ltb-eq-false within;
          written = ap (λ r. r.1) (sym same);
        },
        ap (λ r. r.0) (sym same),
      )

  parse_event-stringify :
      (e : Event) (n : ℕ)
      → rt.parse (rt.stringify e) ≡ some e
      → validate_workflow_event rt.dates e workflow_id n ≡ ok e
      → parse_event rt workflow_id (rt.stringify e) n ≡ ok e
  unfolding parse_event
  parse_event-stringify e n h v = rw (h, parse_event) v

  -- A later file is not held to the ready marker.
  not_first : (n : ℕ) (b : Bool) → 1 < n → (n == 1 && b) ≡ false
  not_first n b h = ground arith

  module _ (event : Event) (parse_stringify : rt.parse (rt.stringify event) ≡ some event) where
    -- The loop's last round, over the file that was written.
    last_round :
        {current : ReadResult} {files files' : List EventFile}
        (t : TimelineRead rt workflow_id first_sha256 files current)
        → event.sequence ≡ length files + 1
        → 1 < event.sequence
        → length current.result_events ≡ length files
        → event.previous_event_sha256 ≡ some current.result_projection.summary.latest_event_sha256
        → IsLinked t.last
        → (w : Written current files event files')
        → EventRead rt workflow_id first_sha256
            (1 + length files)
            t.last
            (event_file rt workflow_id event)
            (record {
              projection = some w.next;
              previous_event_sha256 = some (rt.sha256 (rt.stringify event));
              bytes_read = t.last.bytes_read + len (rt.stringify event);
              events = t.last.events ++ event ∷ [];
            })
    last_round {current} {files} t numbered later count links linked w = record {
      event = event;
      projected = w.next;
      in_sequence = omega arith;
      within = omega (arith, w.within, t.all_bytes);
      digest = refl;
      parsed = parse_event-stringify event _ parse_stringify (
          let n : length current.result_events + 1 ≡ 1 + length files = omega arith in
          subst (λ n. validate_workflow_event rt.dates event workflow_id n ≡ ok event) n w.valid);
      redacted = w.clean;
      chained = links ∙ sym (linked current.result_projection t.projected);
      anchored =
          not_first (1 + length files) (not (rt.sha256 (rt.stringify event) == first_sha256))
            (omega arith);
      projects =
          rw t.projected
            (project_workflow_event-append rt.dates _ _ event event.payload _ refl w.projects);
      after = refl;
    }

    timeline_after :
        {current : ReadResult} {files files' : List EventFile}
        → TimelineRead rt workflow_id first_sha256 files current
        → event.sequence ≡ length current.result_events + 1
        → event.previous_event_sha256 ≡ some current.result_projection.summary.latest_event_sha256
        → length current.result_events < max_events_per_workflow
        → Written current files event files'
        → (after : ReadResult) × (read_timeline rt workflow_id first_sha256 files' ≡ ok after)
          × (after.result_events ≡ current.result_events ++ event ∷ [])
    timeline_after {current} {files} {files'} t numbered links room w =
        let linked : IsLinked t.last =
          read_events-induction rt workflow_id first_sha256 IsLinked read_event-IsLinked 1
            initial_state files (λ p e. cc) t.loop in
        let count : length t.last.events ≡ length files =
          omega
            (arith, read_events-length rt workflow_id first_sha256 1 initial_state files t.loop) in
        let counted : length current.result_events ≡ length files = rw t.all_events count in
        let some_file : 0 < length files = ground (arith, t.some_files) in
        let final : ReadState = record {
          projection = some w.next;
          previous_event_sha256 = some (rt.sha256 (rt.stringify event));
          bytes_read = t.last.bytes_read + len (rt.stringify event);
          events = t.last.events ++ event ∷ [];
        } in
        let after : ReadResult = record {
          result_projection = w.next;
          result_events = final.events;
          result_bytes = final.bytes_read;
        } in
        let more : length (files ++ event_file rt workflow_id event ∷ []) ≡ length files + 1 =
          length-append files (event_file rt workflow_id event ∷ []) in
        let round =
          EventRead-read_event rt workflow_id first_sha256 (1 + length files) t.last _
            (last_round t (omega arith) (omega arith) counted links linked w) in
        (
          after,
          rw w.written (
              TimelineRead-read_timeline rt workflow_id first_sha256 _ after (record {
                last = final;
                enough = omega arith;
                some_files = ground arith;
                loop =
                    read_events-append rt workflow_id first_sha256 1 initial_state files _ refl
                    ∙ pass _ t.loop
                    ∙ read_events_one rt workflow_id first_sha256 (1 + length files) t.last _ round;
                projected = refl;
                all_events = refl;
                all_bytes = refl;
              })),
          rw t.all_events refl,
        )

    -- When `append` succeeds with an event that `JSON.parse` gives back from its text, the journal with the new file is read, its events are those of the old
    -- journal followed by the appended one, and that event carries the given data.
    pub read_timeline-append :
        (files files' : List EventFile) (id at : String) (payload : EventData)
        → append rt workflow_id first_sha256 files id at payload ≡ ok (event, files')
        → (before after : ReadResult) × (read_timeline rt workflow_id first_sha256 files
            ≡ ok before)
          × (read_timeline rt workflow_id first_sha256 files' ≡ ok after)
          × (after.result_events ≡ before.result_events ++ event ∷ [])
          × (event.payload ≡ payload)
    unfolding append create_workflow_event
    read_timeline-append files files' id at payload h =
        let (current, reads, h1) = >>=-eq-ok _ _ h in
        let (room, h2) = throw_if_inv _ _ _ h1 in
        let made =
          create_workflow_event rt workflow_id id at (length current.result_events + 1)
            (some current.result_projection.summary.latest_event_sha256) payload in
        let (w, same) = write_event-Written current files made event h2 in
        let t = read_timeline-TimelineRead rt workflow_id first_sha256 files current reads in
        let (after, read, grown) =
          timeline_after t (rw same refl) (rw same refl) (leb-eq-false room) (rw same w) in
        (current, after, reads, read, grown, rw same refl)
