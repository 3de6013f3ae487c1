-- ===== src/Agent/Evidence.antt =====
-- worker/agent-loop.ts with artifacts/task-event-model.ts: the task's projection accepts what a loop observes.
use agent_harness_os.Base.{
  ℕ, zero, suc, ◌+◌, String, ◌≡◌, refl, sym, ap, ◌∙◌, inl, inr, Bool, true, false, Option, some,
  List, [], ◌∷◌, ◌++◌, arith, ltb, nat_beq, Bool-cases, nat_eq, string_eq, option_eq, ==_same,
  length, HarnessError, Result, ok, err, ◌>>=◌, >>=-eq-ok, ok-injective, pass, throw_if-pass,
}
use agent_harness_os.Task.Types.{
  AttemptProjection, TaskEventProjection, WorkerStarted, ModelTurnCompleted, ToolCalled,
  worker_completed, call_eq, validation_eq, evaluation_eq, policy_eq, task_status_eq,
  application_eq, dimension_eq,
}
use agent_harness_os.Task.Attempts.{
  get_active_run, change_attempt, model_turn_refused, after_model_turn, tool_call_refused,
  after_tool_call, worker_completion_refused, after_worker,
}
use agent_harness_os.Task.Projection.{new_attempt, project_task_data}
use agent_harness_os.Agent.{
  ToolCall, Completion, ToolObservation, TurnObservation, Observation, tool_call, model_turn,
  AgentLoopLimits, AgentLoopResult, Agent, LoopState, Turn, answered, continued, check_completion,
  run_tool, run_tools, answer, take_calls, take_completion, fail_turn, checked_completion,
  completed_turn, run_turn, after_turn, run_turns, first_state, run_agent_loop,
}
use agent_harness_os.Agent.Observing.{observed_event, completed_worker}

-- What the events of observations do to a projection, without the rest of `append`.
unfoldable pub project_observations :
    TaskEventProjection → String → List Observation → Result TaskEventProjection
project_observations p run_id [] = ok p
project_observations p run_id (o ∷ os) =
    project_task_data p (observed_event run_id o) true >>= λ q. project_observations q run_id os

project_observations_snoc :
    (p : TaskEventProjection) (run_id : String) (os : List Observation) (o : Observation)
    (q r : TaskEventProjection)
    → project_observations p run_id os ≡ ok q
    → project_task_data q (observed_event run_id o) true ≡ ok r
    → project_observations p run_id (os ++ o ∷ []) ≡ ok r
unfolding project_observations
project_observations_snoc p run_id [] o q r h k =
    ap (λ m. m >>= λ x. ok x)
      (ap (λ x. project_task_data x (observed_event run_id o) true) (ok-injective h) ∙ k)
project_observations_snoc p run_id (x ∷ os) o q r h k =
    let (p₁, first, rest) =
      >>=-eq-ok (project_task_data p (observed_event run_id x) true)
        (λ y. project_observations y run_id os) h in
    pass (λ y. project_observations y run_id (os ++ o ∷ [])) first
    ∙ project_observations_snoc p₁ run_id os o q r rest k

abbrev with_attempt : TaskEventProjection → AttemptProjection → TaskEventProjection
with_attempt p a = record p { active_attempt = some a }

-- The attempt before a round of the loop.
pub record IsReady (iteration : ℕ) (a : AttemptProjection) : Type 0 where
  pub last_iteration : a.last_model_iteration + 1 ≡ iteration
  pub not_terminal : a.model_terminal ≡ false
  pub not_failed : a.model_failed ≡ false
  pub all_observed : a.observed_tool_call_count ≡ a.expected_tool_call_count
  pub working : a.worker_completed ≡ false

-- The attempt while the tool calls of a round are made, `left` of which are still to come.
pub record IsCalling (iteration left : ℕ) (a : AttemptProjection) : Type 0 where
  pub this_iteration : a.last_model_iteration ≡ iteration
  pub not_terminal : a.model_terminal ≡ false
  pub not_failed : a.model_failed ≡ false
  pub yet_to_observe : a.observed_tool_call_count + left ≡ a.expected_tool_call_count
  pub working : a.worker_completed ≡ false

-- The attempt after the loop.
pub record IsSettled (r : Result AgentLoopResult) (a : AttemptProjection) : Type 0 where
  pub all_observed : a.observed_tool_call_count ≡ a.expected_tool_call_count
  pub working : a.worker_completed ≡ false
  pub answer_last :
      (x : AgentLoopResult) → r ≡ ok x → (a.model_terminal ≡ true) × (a.model_failed ≡ false)

change_attempt-accepted :
    (p : TaskEventProjection) (a : AttemptProjection) (run_id : String)
    (refused : AttemptProjection → Bool) (change : AttemptProjection → AttemptProjection)
    → a.run_id ≡ run_id
    → refused a ≡ false
    → change_attempt (with_attempt p a) run_id true refused change ≡ ok (with_attempt p (change a))
unfolding change_attempt get_active_run
change_attempt-accepted p a run_id refused change same h =
    pass _ (throw_if-pass _ _ (==_same same)) ∙ throw_if-pass _ _ h

model_turn_accepted :
    (e : ModelTurnCompleted) (a : AttemptProjection)
    → IsReady e.iteration a
    → model_turn_refused e a ≡ false
unfolding model_turn_refused
model_turn_accepted e a ready =
    rw
      (
        ready.working,
        ready.not_terminal,
        ==_same ready.all_observed,
        ==_same (sym ready.last_iteration),
      )
      refl

tool_call_accepted :
    (version : ℕ) (e : ToolCalled) (left : ℕ) (a : AttemptProjection)
    → IsCalling e.iteration (suc left) a
    → tool_call_refused version e a ≡ false
unfolding tool_call_refused
tool_call_accepted version e left a calling =
    ground (arith, calling.yet_to_observe, calling.this_iteration)

module _ (p : TaskEventProjection) (run_id : String) where
  -- The observations so far are accepted, and leave this attempt.
  pub record Shown (os : List Observation) (a : AttemptProjection) : Type 0 where
    pub recorded : project_observations p run_id os ≡ ok (with_attempt p a)
    pub same_run : a.run_id ≡ run_id

  abbrev turn_event : TurnObservation → ModelTurnCompleted
  turn_event t = record {
    run_id = run_id;
    iteration = t.turn_iteration;
    outcome = t.turn_outcome;
    tool_call_count = t.tool_call_count;
    timing = t.turn_timing;
  }

  turn-Shown :
      (t : TurnObservation) (os : List Observation) (a : AttemptProjection)
      → Shown os a
      → IsReady t.turn_iteration a
      → Shown (os ++ model_turn t ∷ []) (after_model_turn (turn_event t) a)
  unfolding project_task_data observed_event
  turn-Shown t os a shown ready = record {
    recorded =
        project_observations_snoc p run_id os (model_turn t) (with_attempt p a) _ shown.recorded (
          change_attempt-accepted p a run_id (model_turn_refused (turn_event t))
            (after_model_turn (turn_event t)) shown.same_run
            (model_turn_accepted (turn_event t) a ready));
    same_run = shown.same_run;
  }

  tool-Shown :
      (t : ToolObservation) (left : ℕ) (os : List Observation) (a : AttemptProjection)
      → Shown os a
      → IsCalling t.tool_iteration (suc left) a
      → Shown (os ++ tool_call t ∷ []) (after_tool_call a)
        × IsCalling t.tool_iteration left (after_tool_call a)
  unfolding project_task_data observed_event
  tool-Shown t left os a shown calling = (
    record {
      recorded =
          project_observations_snoc p run_id os (tool_call t) (with_attempt p a) _ shown.recorded (
            change_attempt-accepted p a run_id _ after_tool_call shown.same_run
              (tool_call_accepted p.event_schema_version _ left a calling));
      same_run = shown.same_run;
    },
    record {
      this_iteration = calling.this_iteration;
      not_terminal = calling.not_terminal;
      not_failed = calling.not_failed;
      yet_to_observe = omega (arith, calling.yet_to_observe);
      working = calling.working;
    },
  )

module _ {World Json : Type 0} (agent : Agent World Json) (limits : AgentLoopLimits)
    (p : TaskEventProjection) (run_id : String) where
  abbrev Settled : Result AgentLoopResult × LoopState World → Type 0
  Settled (r, st) = (a : AttemptProjection) × Shown p run_id st.observations a × IsSettled r a

  abbrev TurnShown : ℕ → Turn × LoopState World → Type 0
  TurnShown iteration (answered r, st) = Settled (r, st)
  TurnShown iteration (continued, st) =
      (a : AttemptProjection) × Shown p run_id st.observations a × IsReady (suc iteration) a

  run_tool-Shown :
      (iteration left : ℕ) (st : LoopState World) (call : ToolCall) (a : AttemptProjection)
      → Shown p run_id st.observations a
      → IsCalling iteration (suc left) a
      → Shown p run_id (run_tool agent limits iteration st call).observations (after_tool_call a)
        × IsCalling iteration left (after_tool_call a)
  unfolding run_tool
  run_tool-Shown iteration left st call a shown calling =
      tool-Shown p run_id _ left st.observations a shown calling

  run_tools-Shown :
      (iteration : ℕ) (calls : List ToolCall) (st : LoopState World) (a : AttemptProjection)
      → Shown p run_id st.observations a
      → IsCalling iteration (length calls) a
      → (b : AttemptProjection) × Shown p run_id
          (run_tools agent limits iteration st calls).observations
          b
        × IsReady (suc iteration) b
  unfolding run_tools
  run_tools-Shown iteration [] st a shown calling = (
    a,
    shown,
    record {
      last_iteration = omega (arith, calling.this_iteration);
      not_terminal = calling.not_terminal;
      not_failed = calling.not_failed;
      all_observed = omega (arith, calling.yet_to_observe);
      working = calling.working;
    },
  )
  run_tools-Shown iteration (call ∷ calls) st a shown calling =
      let (shown', calling') = run_tool-Shown iteration (length calls) st call a shown calling in
      run_tools-Shown iteration calls (run_tool agent limits iteration st call) (after_tool_call a)
        shown' calling'

  fail_turn-Shown :
      (iteration : ℕ) (st : LoopState World) (e : HarnessError) (a : AttemptProjection)
      → Shown p run_id st.observations a
      → IsReady iteration a
      → TurnShown iteration (fail_turn agent limits iteration st e)
  unfolding fail_turn
  fail_turn-Shown iteration st e a shown ready = (
    _,
    turn-Shown p run_id _ st.observations a shown ready,
    record { all_observed = refl; working = ready.working; answer_last = λ x h. absurd (cc) },
  )

  answer_lem :
      (iteration : ℕ) (content : Option String) (a : AttemptProjection)
      → a.observed_tool_call_count ≡ a.expected_tool_call_count
      → a.worker_completed ≡ false
      → a.model_terminal ≡ true
      → a.model_failed ≡ false
      → IsSettled (answer agent limits iteration content) a
  answer_lem iteration content a observed working terminal good = record {
    all_observed = observed;
    working = working;
    answer_last = λ x h. (terminal, good);
  }

  -- The turn that was taken, and its calls to come.
  take_calls-Shown :
      (iteration : ℕ) (content : Option String) (calls : List ToolCall) (st : LoopState World)
      (a : AttemptProjection)
      → Shown p run_id st.observations a
      → a.last_model_iteration ≡ iteration
      → a.model_failed ≡ false
      → a.model_terminal ≡ nat_beq (length calls) 0
      → a.expected_tool_call_count ≡ length calls
      → a.observed_tool_call_count ≡ 0
      → a.worker_completed ≡ false
      → TurnShown iteration (take_calls agent limits iteration content st calls)
  unfolding take_calls
  take_calls-Shown iteration content [] st a shown i good terminal expected observed working =
      (a, shown, answer_lem iteration content a (observed ∙ sym expected) working terminal good)
  take_calls-Shown iteration content (call ∷ calls) st a shown i good terminal expected observed
        working =
      run_tools-Shown iteration (call ∷ calls) st a shown (record {
        this_iteration = i;
        not_terminal = ground arith;
        not_failed = good;
        yet_to_observe = omega (arith, expected, observed);
        working = working;
      })

  take_completion-Shown :
      (iteration : ℕ) (st : LoopState World) (c : Completion) (a : AttemptProjection)
      → Shown p run_id st.observations a
      → IsReady iteration a
      → TurnShown iteration (take_completion agent limits iteration st c)
  unfolding take_completion
  take_completion-Shown iteration st c a shown ready =
      take_calls-Shown iteration c.content c.tool_calls _ _
        (turn-Shown p run_id _ st.observations a shown ready) refl refl refl refl refl ready.working

  completed_turn-Shown :
      (iteration : ℕ) (st : LoopState World) (completion : Result Completion)
      (a : AttemptProjection)
      → Shown p run_id st.observations a
      → IsReady iteration a
      → TurnShown iteration (completed_turn agent limits iteration st completion)
  unfolding completed_turn
  completed_turn-Shown iteration st (err e) a shown ready =
      fail_turn-Shown iteration st e a shown ready
  completed_turn-Shown iteration st (ok c) a shown ready =
      checked (check_completion limits st.total_tool_calls c)
    where
      checked :
          (checks : Result (Unit {0}))
          → TurnShown iteration (checked_completion agent limits iteration st c checks)
      checked (err e) = unfold checked_completion in fail_turn-Shown iteration st e a shown ready
      checked (ok u) =
          unfold checked_completion in take_completion-Shown iteration st c a shown ready

  run_turn-Shown :
      (iteration : ℕ) (st : LoopState World) (a : AttemptProjection)
      → Shown p run_id st.observations a
      → IsReady iteration a
      → TurnShown iteration (run_turn agent limits iteration st)
  unfolding run_turn
  run_turn-Shown iteration st a shown ready =
      elim (Bool-cases (ltb limits.max_context_bytes (agent.request_bytes st.messages))) [
        | inl over ↦ rw over (
          a,
          shown,
          record {
            all_observed = ready.all_observed;
            working = ready.working;
            answer_last = λ x h. absurd (cc);
          },
        )
        | inr within ↦ rw within (
            completed_turn-Shown iteration
              (record st { world = (agent.complete st.world st.messages).1 })
              (agent.complete st.world st.messages).0 a shown ready)
      ]

  after_turn-Settled :
      (iteration : ℕ) (turn : Turn × LoopState World)
      (next : LoopState World → Result AgentLoopResult × LoopState World)
      → TurnShown iteration turn
      → ((st : LoopState World) (a : AttemptProjection)
          → Shown p run_id st.observations a
          → IsReady (suc iteration) a
          → Settled (next st))
      → Settled (after_turn agent limits turn next)
  after_turn-Settled iteration (answered r, st) next settled go_on = settled
  after_turn-Settled iteration (continued, st) next (a, shown, ready) go_on = go_on st a shown ready

  run_turns-Settled :
      (n iteration : ℕ) (st : LoopState World) (a : AttemptProjection)
      → Shown p run_id st.observations a
      → IsReady iteration a
      → Settled (run_turns agent limits n iteration st)
  unfolding run_turns
  run_turns-Settled zero iteration st a shown ready = (
    a,
    shown,
    record {
      all_observed = ready.all_observed;
      working = ready.working;
      answer_last = λ x h. absurd (cc);
    },
  )
  run_turns-Settled (suc n) iteration st a shown ready =
      after_turn-Settled iteration (run_turn agent limits iteration st)
        (λ st'. run_turns agent limits n (suc iteration) st')
        (run_turn-Shown iteration st a shown ready) (run_turns-Settled n (suc iteration))

settled_worker_accepted :
    (version requests : ℕ) (run_id : String) (r : Result AgentLoopResult) (a : AttemptProjection)
    → IsSettled r a
    → worker_completion_refused version (completed_worker run_id requests r) a ≡ false
unfolding worker_completion_refused completed_worker
settled_worker_accepted version requests run_id (ok x) a settled =
    let (terminal, good) = settled.answer_last x refl in
    rw (settled.working, ==_same settled.all_observed, terminal, good) (ground arith)
settled_worker_accepted version requests run_id (err e) a settled =
    rw (settled.working, ==_same settled.all_observed) (ground arith)

-- A run of the loop for an attempt that has just started leaves observations that the switch of the task's projection
-- takes one after the other, and then the `WorkerCompleted` event.
pub run_agent_loop-projected :
    {World Json : Type 0} (agent : Agent World Json) (limits : AgentLoopLimits)
    (system_prompt user_prompt : String) (max_iterations requests : ℕ) (w : World)
    (p : TaskEventProjection) (e : WorkerStarted)
    → p.active_attempt ≡ some (new_attempt e)
    → (q : TaskEventProjection) × (q' : TaskEventProjection) × (a : AttemptProjection)
      × (project_observations p e.run_id
            (run_agent_loop agent limits system_prompt user_prompt max_iterations w).1.observations
          ≡ ok q)
      × (project_task_data q
            (worker_completed (
              completed_worker e.run_id requests
                (run_agent_loop agent limits system_prompt user_prompt max_iterations w).0))
            true
          ≡ ok q')
      × (q'.active_attempt ≡ some a)
      × (a.worker_completed ≡ true)
      × (a.observed_tool_call_count ≡ a.expected_tool_call_count)
unfolding run_agent_loop project_task_data project_observations completed_worker
run_agent_loop-projected agent limits system_prompt user_prompt max_iterations requests w p e
      active =
    let (a, shown, settled) =
      run_turns-Settled agent limits p e.run_id max_iterations 1
        (first_state agent limits system_prompt user_prompt w) (new_attempt e)
        (record {
          recorded = ap (λ x. ok (record p { active_attempt = x })) active;
          same_run = refl;
        })
        (record {
          last_iteration = refl;
          not_terminal = refl;
          not_failed = refl;
          all_observed = refl;
          working = refl;
        }) in
    let r =
      (run_turns agent limits max_iterations 1
        (first_state agent limits system_prompt user_prompt w)).0 in
    let done = completed_worker e.run_id requests r in
    (
      with_attempt p a,
      with_attempt p (after_worker done a),
      after_worker done a,
      shown.recorded,
      change_attempt-accepted p a e.run_id (worker_completion_refused p.event_schema_version done)
          (after_worker done) shown.same_run
          (settled_worker_accepted p.event_schema_version requests e.run_id r a settled),
      refl,
      refl,
      settled.all_observed,
    )
