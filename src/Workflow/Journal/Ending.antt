-- ===== src/Workflow/Journal/Ending.antt =====
-- workflow/journal.ts: a workflow that has ended takes no further event.
use Prim.Native.String.{len}
use agent_harness_os.Base.{
  ◌+◌, String, ◌≡◌, refl, sym, ap, subst, ◌∙◌, true, false, some, List, ◌∷◌, ◌++◌, ltb, leb, length,
  ok, >>=-eq-ok, ok-injective, pass, throw_if_inv,
}
use agent_harness_os.Workflow.Types.{EventData, Event}
use agent_harness_os.Workflow.Stages.{is_terminal_workflow_status}
use agent_harness_os.Workflow.Projection.{project_workflow_event}
use agent_harness_os.Workflow.Projection.Behaviour.{terminal_refuses}
use agent_harness_os.Workflow.Journal.{
  Runtime, EventFile, ReadResult, max_event_bytes, max_events_per_workflow, validate_workflow_event,
  initial_state, read_events, read_timeline, write_event, append,
}
use agent_harness_os.Workflow.Journal.Reading.{
  read_event-EventRead, read_events-append, read_timeline-TimelineRead,
}

module _ (rt : Runtime) (workflow_id first_sha256 : String) (files : List EventFile)
    (r : ReadResult) (read : read_timeline rt workflow_id first_sha256 files ≡ ok r)
    (over : is_terminal_workflow_status r.result_projection.summary.status ≡ true) where
  write_refused :
      (event written : Event) (files' : List EventFile)
      → ¬ (write_event rt workflow_id r files event ≡ ok (written, files'))
  unfolding write_event
  write_refused event written files' h =
      let (_, h1) = throw_if_inv (rt.contains_credential_material event) _ _ h in
      let (_, h2) = throw_if_inv (ltb max_event_bytes (len (rt.stringify event))) _ _ h1 in
      let (_, _, h3) =
        >>=-eq-ok (validate_workflow_event rt.dates event workflow_id (length r.result_events + 1))
          _ h2 in
      let (q, projects, h4) =
        >>=-eq-ok
          (project_workflow_event rt.dates (some r.result_projection) event
            (rt.sha256 (rt.stringify event)) true)
          _ h3 in
      cc (
        projects,
        terminal_refuses rt.dates r.result_projection event (rt.sha256 (rt.stringify event)) true
            over,
      )

  append_refused :
      (event_id occurred_at : String) (payload : EventData) (written : Event)
      (files' : List EventFile)
      → ¬ (
          append rt workflow_id first_sha256 files event_id occurred_at payload
          ≡ ok (written, files'))
  unfolding append
  append_refused event_id occurred_at payload written files' h =
      let (_, h1) =
        throw_if_inv (leb max_events_per_workflow (length r.result_events)) _ _
          (sym (pass _ read) ∙ h) in
      write_refused _ written files' h1

  longer_refused :
      (file : EventFile) (rest : List EventFile) (r' : ReadResult)
      → ¬ (read_timeline rt workflow_id first_sha256 (files ++ file ∷ rest) ≡ ok r')
  unfolding read_events
  longer_refused file rest r' h =
      let short = read_timeline-TimelineRead rt workflow_id first_sha256 files r read in
      let long =
        read_timeline-TimelineRead rt workflow_id first_sha256 (files ++ file ∷ rest) r' h in
      let both =
        sym
          (read_events-append rt workflow_id first_sha256 1 initial_state files (file ∷ rest) refl)
        ∙ long.loop in
      let (st, first, second) = >>=-eq-ok _ _ both in
      let same : st ≡ short.last = ok-injective (sym first ∙ short.loop) in
      let (st', next, _) = >>=-eq-ok _ _ second in
      let one = read_event-EventRead rt workflow_id first_sha256 _ st file next in
      let here : st.projection ≡ some r.result_projection =
        ap (λ x. x.projection) same ∙ short.projected in
      let accepted_anyway =
        subst
          (λ x.
            project_workflow_event rt.dates x one.event file.file_sha256 false ≡ ok one.projected)
          here one.projects in
      cc (
        accepted_anyway,
        terminal_refuses rt.dates r.result_projection one.event file.file_sha256 false over,
      )

  -- Where a journal is read and its workflow has ended, no append to it succeeds, and no longer journal that
  -- begins with its files can be read.
  pub ended_journal_is_final :
      (event_id occurred_at : String) (payload : EventData) (written : Event)
      (files' : List EventFile) (file : EventFile) (rest : List EventFile) (r' : ReadResult)
      → (¬ (
          append rt workflow_id first_sha256 files event_id occurred_at payload
          ≡ ok (written, files')))
        × (¬ (read_timeline rt workflow_id first_sha256 (files ++ file ∷ rest) ≡ ok r'))
  ended_journal_is_final event_id occurred_at payload written files' file rest r' =
      (append_refused event_id occurred_at payload written files', longer_refused file rest r')
