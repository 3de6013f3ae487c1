-- ===== src/Workflow/Journal/Trace.antt =====
-- workflow/: what a journal that was read says of its own events, in terms of the events alone.
use agent_harness_os.Base.{
  ℕ, ◌+◌, String, ◌≡◌, refl, sym, Bool, true, Option, none, some, arith, if◌then◌else◌, ◌==◌,
  ==_sound, nat_eq, string_eq, option_eq, is_some, Ensures, Ensures-guarded,
}
use agent_harness_os.Workflow.Types.{
  repair, Decision, approved, Projection, EventData, workflow_created, stage_started,
  stage_interrupted, dependency_state_changed, stage_completed, approval_requested,
  approval_decided, workflow_completed, worker_stage_eq, stage_eq, status_eq, decision_eq,
}
use agent_harness_os.Domain.{worker_mode_eq, capability_eq, run_status_eq}
use agent_harness_os.Workflow.Stages.{
  project_dependency_state_changed, project_stage_started, project_stage_interrupted,
  project_stage_completed,
}
use agent_harness_os.Workflow.Projection.{
  approval_request_refused, project_approval_requested, approval_decision_refused,
  project_approval_decided, project_workflow_completed, project_data,
}
use agent_harness_os.Workflow.Projection.Invariant.{Inv, completion_facts}

-- The latest approval request, by its candidate, with the decision on it if there is one.
abbrev pub ApprovalLog : Type 0
ApprovalLog = Option (String × Option Decision)

abbrev pub log_step : ApprovalLog → EventData → ApprovalLog
log_step log (approval_requested id) = some (id, none)
log_step log (approval_decided d feedback target) = elim log [
  | none ↦ none
  | some (id, old) ↦ some (id, some d)
]
log_step log _ = log

abbrev pub log_request : ApprovalLog → Option String
log_request none = none
log_request (some (id, d)) = some id

abbrev pub log_decision : ApprovalLog → Option Decision
log_decision none = none
log_decision (some (id, d)) = d

-- The stage starts, and the completions of a repair.
abbrev pub starts : EventData → ℕ
starts (stage_started e) = 1
starts _ = 0

abbrev pub repairs : EventData → ℕ
repairs (stage_completed e) = if e.stage == repair then 1 else 0
repairs _ = 0

pub record Explains (p : Projection) (started repaired : ℕ) (log : ApprovalLog) : Type 0 where
  pub starts_counted : p.summary.transition_count ≡ started
  pub repairs_counted : p.summary.repair_attempt_count ≡ repaired
  pub decision_logged : p.summary.approval_decision ≡ log_decision log
  pub request_logged :
      p.approval_requested ≡ true
      → (p.summary.candidate_run_id ≡ log_request log) × (is_some (log_request log) ≡ true)
  pub approval_logged :
      p.summary.approval_decision ≡ some approved → p.summary.candidate_run_id ≡ log_request log

-- What holds before an event, together.
module _ (p : Projection) (n r : ℕ) (log : ApprovalLog) (v : Inv p) (x : Explains p n r log) where
  abbrev pub ExplainsNext : EventData → Projection → Type 0
  ExplainsNext event q = Explains q (n + starts event) (r + repairs event) (log_step log event)

  pub project_data-Explains :
      (event : EventData) (on_append : Bool)
      → Ensures (ExplainsNext event) (project_data p event on_append)
  unfolding project_data project_stage_started project_stage_completed project_stage_interrupted
      project_dependency_state_changed project_approval_requested project_approval_decided
      project_workflow_completed approval_request_refused approval_decision_refused
  project_data-Explains (workflow_created d) on_append = tt
  project_data-Explains (stage_started e) on_append =
      Ensures-guarded (ExplainsNext (stage_started e)) _ _ _ λ h. record {
        starts_counted = omega (arith, x.starts_counted);
        repairs_counted = omega (arith, x.repairs_counted);
        decision_logged = x.decision_logged;
        request_logged = x.request_logged;
        approval_logged = x.approval_logged;
      }
  project_data-Explains (stage_interrupted s id reason) on_append =
      Ensures-guarded (ExplainsNext (stage_interrupted s id reason)) _ _ _ λ h. record {
        starts_counted = omega (arith, x.starts_counted);
        repairs_counted = omega (arith, x.repairs_counted);
        decision_logged = x.decision_logged;
        request_logged = x.request_logged;
        approval_logged = x.approval_logged;
      }
  project_data-Explains (dependency_state_changed s) on_append =
      Ensures-guarded (ExplainsNext (dependency_state_changed s)) _ _ _ λ h. record {
        starts_counted = omega (arith, x.starts_counted);
        repairs_counted = omega (arith, x.repairs_counted);
        decision_logged = x.decision_logged;
        request_logged = x.request_logged;
        approval_logged = x.approval_logged;
      }
  project_data-Explains (stage_completed e) on_append =
      Ensures-guarded (ExplainsNext (stage_completed e)) _ _ _ λ h.
        let (at, active, allowed) = completion_facts p v e h in
        record {
          starts_counted = omega (arith, x.starts_counted);
          repairs_counted = omega (arith, x.repairs_counted);
          decision_logged = x.decision_logged;
          request_logged = λ y. absurd (cc (v.awaiting_stage y));
          approval_logged = λ y. absurd (cc (v.approved_stage y));
        }
  project_data-Explains (approval_requested id) on_append =
      Ensures-guarded (ExplainsNext (approval_requested id)) _ _ _ λ h. record {
        starts_counted = omega (arith, x.starts_counted);
        repairs_counted = omega (arith, x.repairs_counted);
        decision_logged = refl;
        request_logged = λ _. (sym (==_sound _ _ (ground arith)), refl);
        approval_logged = λ y. cc;
      }
  project_data-Explains (approval_decided d f t) on_append =
      Ensures-guarded (ExplainsNext (approval_decided d f t)) _ _ _ λ h.
        let (same, present) = x.request_logged (ground arith) in
        record {
          starts_counted = omega (arith, x.starts_counted);
          repairs_counted = omega (arith, x.repairs_counted);
          decision_logged = ground arith;
          request_logged = λ y. cc;
          approval_logged = λ y. ground arith;
        }
  project_data-Explains (workflow_completed s f c) on_append =
      Ensures-guarded (ExplainsNext (workflow_completed s f c)) _ _ _ λ h. record {
        starts_counted = omega (arith, x.starts_counted);
        repairs_counted = omega (arith, x.repairs_counted);
        decision_logged = x.decision_logged;
        request_logged = λ y. cc;
        approval_logged = x.approval_logged;
      }
