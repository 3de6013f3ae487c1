-- ===== src/Workflow/Journal/History.antt =====
-- workflow/journal.ts: what the events of a journal that was read say about the workflow.
use agent_harness_os.Base.{
  ℕ, ◌+◌, ◌≤◌, String, ◌≡◌, refl, subst, inl, inr, false, Option, none, some, List, [], ◌∷◌, ◌++◌,
  arith, Bool-cases, ok, Ensures, Ensures-guarded, Ensures-ok,
}
use agent_harness_os.Workflow.Types.{
  Definition, Status, approved, Projection, EventData, workflow_created, Event,
}
use agent_harness_os.Workflow.Definition.{Dates}
use agent_harness_os.Workflow.Stages.{is_terminal_workflow_status, clone_projection}
use agent_harness_os.Workflow.Projection.{
  first_projection, project_created, project_current, project_workflow_event,
}
use agent_harness_os.Workflow.Projection.Invariant.{Inv}
use agent_harness_os.Workflow.Projection.Preservation.{
  clone_projection-Inv, StartsFrom, project_workflow_event-Inv,
}
use agent_harness_os.Workflow.Journal.{
  Runtime, EventFile, ReadState, ReadResult, initial_state, read_timeline,
}
use agent_harness_os.Workflow.Journal.Reading.{
  EventRead, read_events-induction, read_timeline-TimelineRead,
}
use agent_harness_os.Workflow.Journal.Trace.{
  ApprovalLog, log_step, starts, repairs, Explains, project_data-Explains,
}

pub total_starts : List Event → ℕ
total_starts [] = 0
total_starts (e ∷ es) = starts e.payload + total_starts es

pub total_repairs : List Event → ℕ
total_repairs [] = 0
total_repairs (e ∷ es) = repairs e.payload + total_repairs es

unfoldable pub approval_log : ApprovalLog → List Event → ApprovalLog
approval_log log [] = log
approval_log log (e ∷ es) = approval_log (log_step log e.payload) es

total_starts_snoc :
    (es : List Event) (e : Event) → total_starts (es ++ e ∷ []) ≡ total_starts es + starts e.payload
unfolding total_starts
total_starts_snoc [] e = omega arith
total_starts_snoc (x ∷ es) e = omega (arith, total_starts_snoc es e)

total_repairs_snoc :
    (es : List Event) (e : Event)
    → total_repairs (es ++ e ∷ []) ≡ total_repairs es + repairs e.payload
unfolding total_repairs
total_repairs_snoc [] e = omega arith
total_repairs_snoc (x ∷ es) e = omega (arith, total_repairs_snoc es e)

approval_log_snoc :
    (log : ApprovalLog) (es : List Event) (e : Event)
    → approval_log log (es ++ e ∷ []) ≡ log_step (approval_log log es) e.payload
unfolding approval_log
approval_log_snoc log [] e = refl
approval_log_snoc log (x ∷ es) e = approval_log_snoc (log_step log x.payload) es e

-- The projection so far, if there is one, explained by three summaries of the events.
abbrev pub Explained : Option Projection → ℕ → ℕ → ApprovalLog → Type 0
Explained none n r log = (n ≡ 0) × (r ≡ 0) × (log ≡ none)
Explained (some p) n r log = Inv p × Explains p n r log

clone_projection-Explains :
    (p : Projection) (event : Event) (sha : String) {n r : ℕ} {log : ApprovalLog}
    → Explains p n r log
    → Explains (clone_projection p event sha) n r log
unfolding clone_projection
clone_projection-Explains p event sha x = record {
  starts_counted = x.starts_counted;
  repairs_counted = x.repairs_counted;
  decision_logged = x.decision_logged;
  request_logged = x.request_logged;
  approval_logged = x.approval_logged;
}

module _ (dates : Dates) (event : Event) (sha : String) (n r : ℕ) (log : ApprovalLog) where
  abbrev Next : EventData → Projection → Type 0
  Next x q = Explains q (n + starts x) (r + repairs x) (log_step log x)

  project_current-Explains :
      (current : Option Projection) (x : EventData)
      → event.payload ≡ x
      → Explained current n r log
      → Ensures (Next x) (project_current current event sha false)
  unfolding project_current clone_projection
  project_current-Explains none x e h = tt
  project_current-Explains (some p) x e (v, h) =
      elim (Bool-cases (is_terminal_workflow_status p.summary.status)) [
        | inl over ↦ rw over tt
        | inr open_still ↦
            rw (open_still, e)
              (project_data-Explains (clone_projection p event sha) n r log
                (clone_projection-Inv p event sha v) (clone_projection-Explains p event sha h) x
                false)
      ]

  project_created-Explains :
      (current : Option Projection) (d : Definition)
      → Explained current n r log
      → Ensures (Next (workflow_created d)) (project_created dates current d event sha false)
  unfolding project_created first_projection
  project_created-Explains (some p) d h = tt
  project_created-Explains none d (hn, hr, hl) =
      Ensures-guarded (Next (workflow_created d)) _ _ _ λ _. record {
        starts_counted = omega arith;
        repairs_counted = omega arith;
        decision_logged = rw hl;
        request_logged = λ y. cc;
        approval_logged = λ y. cc;
      }

  project_payload-Explains :
      (current : Option Projection) (x : EventData)
      → event.payload ≡ x
      → Explained current n r log
      → Ensures (Next x) (project_workflow_event dates current event sha false)
  unfolding project_workflow_event
  project_payload-Explains current (workflow_created d) e h =
      rw (e, project_workflow_event) (project_created-Explains current d h)
  project_payload-Explains current x e h =
      rw (e, project_workflow_event) (project_current-Explains current _ e h)

  Explained-StartsFrom :
      (current : Option Projection) → Explained current n r log → StartsFrom current
  Explained-StartsFrom none h = tt
  Explained-StartsFrom (some p) h = h.0

  -- One accepted event extends the explanation.
  pub project_workflow_event-Explained :
      (current : Option Projection) {q : Projection}
      → Explained current n r log
      → project_workflow_event dates current event sha false ≡ ok q
      → Explained
          (some q)
          (n + starts event.payload)
          (r + repairs event.payload)
          (log_step log event.payload)
  project_workflow_event-Explained current h e = (
    project_workflow_event-Inv dates current event sha false (Explained-StartsFrom current h) e,
    Ensures-ok (Next event.payload) _ (project_payload-Explains current event.payload refl h) e,
  )

approved_request :
    (p : Projection) {n r : ℕ} (log : ApprovalLog)
    → Inv p
    → Explains p n r log
    → p.summary.status ≡ Status.completed
    → (id : String) × (p.summary.candidate_run_id ≡ some id)
      × (log ≡ some (id, some approved))
      × (p.summary.last_failure_code ≡ none)
approved_request p none v x done = absurd (cc ((v.completed_approved done).0, x.decision_logged))
approved_request p (some (id, d)) v x done =
    let (decided, candidate, clean) = v.completed_approved done in
    (id, x.approval_logged decided, cc (decided, x.decision_logged), clean)

module _ (rt : Runtime) (workflow_id first_sha256 : String) where
  abbrev StateExplained : ReadState → Type 0
  StateExplained st =
      Explained st.projection (total_starts st.events) (total_repairs st.events)
        (approval_log none st.events)

  read_event-Explained :
      (sequence : ℕ) (st st' : ReadState) (file : EventFile)
      → EventRead rt workflow_id first_sha256 sequence st file st'
      → StateExplained st
      → StateExplained st'
  read_event-Explained sequence st st' file read h =
      let next =
        project_workflow_event-Explained rt.dates read.event file.file_sha256
          (total_starts st.events) (total_repairs st.events) (approval_log none st.events)
          st.projection h read.projects in
      rw
        (
          read.after,
          total_starts_snoc st.events read.event,
          total_repairs_snoc st.events read.event,
          approval_log_snoc none st.events read.event,
        )
        next

  -- A journal that is read has a projection with the invariant; as many stage starts and repairs as
  -- the projection counts; and the approval state that its latest request and decision give.
  pub read_timeline-Explained :
      (files : List EventFile) (r : ReadResult)
      → read_timeline rt workflow_id first_sha256 files ≡ ok r
      → Explained
          (some r.result_projection)
          (total_starts r.result_events)
          (total_repairs r.result_events)
          (approval_log none r.result_events)
  unfolding total_starts total_repairs approval_log
  read_timeline-Explained files r h =
      let run = read_timeline-TimelineRead rt workflow_id first_sha256 files r h in
      let explained : StateExplained run.last =
        read_events-induction rt workflow_id first_sha256 StateExplained read_event-Explained 1
          initial_state files (refl, refl, refl) run.loop in
      rw run.all_events (
        subst
          (λ o.
            Explained o (total_starts run.last.events) (total_repairs run.last.events)
              (approval_log none run.last.events))
          run.projected explained)

  -- A workflow that its journal says is completed has a candidate run, no failure code, and a latest
  -- approval request for that very run that was decided with an approval.
  pub completed_was_approved :
      (files : List EventFile) (r : ReadResult)
      → read_timeline rt workflow_id first_sha256 files ≡ ok r
      → r.result_projection.summary.status ≡ Status.completed
      → (id : String) × (r.result_projection.summary.candidate_run_id ≡ some id)
        × (approval_log none r.result_events ≡ some (id, some approved))
        × (r.result_projection.summary.last_failure_code ≡ none)
  completed_was_approved files r h done =
      let (v, x) = read_timeline-Explained files r h in
      approved_request r.result_projection _ v x done

  -- No journal that is read holds more stage starts than its definition's transition budget, or more
  -- completed repairs than its repair budget.
  pub budgets_kept :
      (files : List EventFile) (r : ReadResult)
      → read_timeline rt workflow_id first_sha256 files ≡ ok r
      → (total_starts r.result_events ≤ r.result_projection.definition.max_transitions)
        × (total_repairs r.result_events ≤ r.result_projection.definition.max_repair_attempts)
  budgets_kept files r h =
      let (v, x) = read_timeline-Explained files r h in
      (
        omega (arith, v.transitions_bounded, x.starts_counted),
        omega (arith, v.repairs_bounded, x.repairs_counted),
      )
