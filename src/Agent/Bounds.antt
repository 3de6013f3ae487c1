-- ===== src/Agent/Bounds.antt =====
-- worker/agent-loop.ts: the limits of a run.
use agent_harness_os.Base.{
  ℕ, zero, suc, ◌+◌, ◌≤◌, String, ◌≡◌, refl, sym, ap, subst, ◌∙◌, inl, inr, Option, none, some,
  List, [], ◌∷◌, ◌++◌, arith, ltb, Bool-cases, ltb-eq-false, length, HarnessError, Result, ok, err,
  ok-injective, throw_if_inv,
}
use agent_harness_os.Agent.{
  ToolCall, Completion, Observation, tool_call, model_turn, AgentLoopLimits, AgentLoopResult, Agent,
  LoopState, Turn, answered, continued, content_bytes, check_completion, run_tool, run_tools,
  answer, take_calls, take_completion, fail_turn, checked_completion, completed_turn, run_turn,
  after_turn, run_turns, first_state, run_agent_loop,
}

abbrev pub tool_calls_in : List Observation → ℕ
tool_calls_in [] = 0
tool_calls_in (tool_call t ∷ os) = suc (tool_calls_in os)
tool_calls_in (model_turn t ∷ os) = tool_calls_in os

abbrev pub turns_in : List Observation → ℕ
turns_in [] = 0
turns_in (tool_call t ∷ os) = turns_in os
turns_in (model_turn t ∷ os) = suc (turns_in os)

tool_calls_in-append :
    (os ps : List Observation) → tool_calls_in (os ++ ps) ≡ tool_calls_in os + tool_calls_in ps
tool_calls_in-append [] ps = omega arith
tool_calls_in-append (tool_call t ∷ os) ps = omega (arith, tool_calls_in-append os ps)
tool_calls_in-append (model_turn t ∷ os) ps = omega (arith, tool_calls_in-append os ps)

turns_in-append : (os ps : List Observation) → turns_in (os ++ ps) ≡ turns_in os + turns_in ps
turns_in-append [] ps = omega arith
turns_in-append (tool_call t ∷ os) ps = omega (arith, turns_in-append os ps)
turns_in-append (model_turn t ∷ os) ps = omega (arith, turns_in-append os ps)

check_completion-within :
    (limits : AgentLoopLimits) (total : ℕ) (c : Completion) {u : Unit {0}}
    → check_completion limits total c ≡ ok u
    → total + length c.tool_calls ≤ limits.max_total_tool_calls
unfolding check_completion
check_completion-within limits total c h =
    let (_, h1) =
      throw_if_inv (ltb limits.max_assistant_content_bytes (content_bytes c.content)) _ _ h in
    let (within, h2) =
      throw_if_inv (ltb limits.max_total_tool_calls (total + length c.tool_calls)) _ _ h1 in
    ltb-eq-false within

module _ {World Json : Type 0} (agent : Agent World Json) (limits : AgentLoopLimits) where
  -- Before a round, after `rounds` of them.
  pub record Counted (rounds : ℕ) (st : LoopState World) : Type 0 where
    pub tools_counted : tool_calls_in st.observations ≡ st.total_tool_calls
    pub tools_within : st.total_tool_calls ≤ limits.max_total_tool_calls
    pub turns_counted : turns_in st.observations ≡ rounds

  -- After the loop, with at most this many rounds.
  pub record Ended (rounds : ℕ) (r : Result AgentLoopResult) (st : LoopState World) : Type 0 where
    pub tools_bounded : tool_calls_in st.observations ≤ limits.max_total_tool_calls
    pub turns_bounded : turns_in st.observations ≤ rounds
    pub turns_told : (x : AgentLoopResult) → r ≡ ok x → x.iterations ≡ turns_in st.observations

  abbrev TurnCounted : ℕ → Turn × LoopState World → Type 0
  TurnCounted rounds (answered r, st) = Ended (suc rounds) r st
  TurnCounted rounds (continued, st) = Counted (suc rounds) st

  run_tools-Counted :
      (iteration rounds : ℕ) (calls : List ToolCall) (st : LoopState World)
      → tool_calls_in st.observations + length calls ≡ st.total_tool_calls
      → st.total_tool_calls ≤ limits.max_total_tool_calls
      → turns_in st.observations ≡ rounds
      → Counted rounds (run_tools agent limits iteration st calls)
  unfolding run_tools run_tool
  run_tools-Counted iteration rounds [] st counted within turns = record {
    tools_counted = omega (arith, counted);
    tools_within = within;
    turns_counted = turns;
  }
  run_tools-Counted iteration rounds (call ∷ calls) st counted within turns =
      run_tools-Counted iteration rounds calls (run_tool agent limits iteration st call)
        (omega (arith, counted, tool_calls_in-append st.observations _)) within
        (omega (arith, turns, turns_in-append st.observations _))

  answer-iterations :
      (iteration : ℕ) (content : Option String) (x : AgentLoopResult)
      → answer agent limits iteration content ≡ ok x
      → x.iterations ≡ iteration
  unfolding answer
  answer-iterations iteration none x h = absurd (cc)
  answer-iterations iteration (some text) x h =
      sym (ap (λ (y : AgentLoopResult). y.iterations) (ok-injective h))

  take_calls-Counted :
      (rounds : ℕ) (content : Option String) (calls : List ToolCall) (st : LoopState World)
      → tool_calls_in st.observations + length calls ≡ st.total_tool_calls
      → st.total_tool_calls ≤ limits.max_total_tool_calls
      → turns_in st.observations ≡ suc rounds
      → TurnCounted rounds (take_calls agent limits (suc rounds) content st calls)
  unfolding take_calls
  take_calls-Counted rounds content [] st counted within turns = record {
    tools_bounded = omega (arith, counted, within);
    turns_bounded = omega (arith, turns);
    turns_told = λ x h. answer-iterations (suc rounds) content x h ∙ sym turns;
  }
  take_calls-Counted rounds content (call ∷ calls) st counted within turns =
      run_tools-Counted (suc rounds) (suc rounds) (call ∷ calls) st counted within turns

  fail_turn-Ended :
      (rounds : ℕ) (st : LoopState World) (e : HarnessError)
      → Counted rounds st
      → TurnCounted rounds (fail_turn agent limits (suc rounds) st e)
  unfolding fail_turn
  fail_turn-Ended rounds st e h =
      let tools = h.tools_counted in
      let within = h.tools_within in
      let turns = h.turns_counted in
      record {
        tools_bounded = omega (arith, tools, within, tool_calls_in-append st.observations _);
        turns_bounded = omega (arith, turns, turns_in-append st.observations _);
        turns_told = λ x f. absurd (cc);
      }

  completed_turn-Counted :
      (rounds : ℕ) (st : LoopState World) (completion : Result Completion)
      → Counted rounds st
      → TurnCounted rounds (completed_turn agent limits (suc rounds) st completion)
  unfolding completed_turn take_completion
  completed_turn-Counted rounds st (err e) h = fail_turn-Ended rounds st e h
  completed_turn-Counted rounds st (ok c) h =
      checked (check_completion limits st.total_tool_calls c) refl
    where
      checked :
          (checks : Result (Unit {0}))
          → check_completion limits st.total_tool_calls c ≡ checks
          → TurnCounted rounds (checked_completion agent limits (suc rounds) st c checks)
      checked (err e) f = unfold checked_completion in fail_turn-Ended rounds st e h
      checked (ok u) f =
          let tools = h.tools_counted in
          let turns = h.turns_counted in
          unfold checked_completion in
          take_calls-Counted rounds c.content c.tool_calls _
            (omega (arith, tools, tool_calls_in-append st.observations _))
            (check_completion-within limits st.total_tool_calls c f)
            (omega (arith, turns, turns_in-append st.observations _))

  run_turn-Counted :
      (rounds : ℕ) (st : LoopState World)
      → Counted rounds st
      → TurnCounted rounds (run_turn agent limits (suc rounds) st)
  unfolding run_turn
  run_turn-Counted rounds st h =
      elim (Bool-cases (ltb limits.max_context_bytes (agent.request_bytes st.messages))) [
        | inl over ↦ rw over (record {
          tools_bounded = omega (arith, h.tools_counted, h.tools_within);
          turns_bounded = omega (arith, h.turns_counted);
          turns_told = λ x f. absurd (cc);
        })
        | inr within ↦ rw within (
            completed_turn-Counted rounds
              (record st { world = (agent.complete st.world st.messages).1 })
              (agent.complete st.world st.messages).0
              (record {
                tools_counted = h.tools_counted;
                tools_within = h.tools_within;
                turns_counted = h.turns_counted;
              }))
      ]

  after_turn-Ended :
      (rounds n : ℕ) (turn : Turn × LoopState World)
      (next : LoopState World → Result AgentLoopResult × LoopState World)
      → TurnCounted rounds turn
      → ((st : LoopState World)
          → Counted (suc rounds) st
          → Ended (rounds + suc n) (next st).0 (next st).1)
      → Ended
          (rounds + suc n)
          (after_turn agent limits turn next).0
          (after_turn agent limits turn next).1
  after_turn-Ended rounds n (answered r, st) next h go_on = record {
    tools_bounded = h.tools_bounded;
    turns_bounded = omega (arith, h.turns_bounded);
    turns_told = h.turns_told;
  }
  after_turn-Ended rounds n (continued, st) next h go_on = go_on st h

  run_turns-Ended :
      (n rounds : ℕ) (st : LoopState World)
      → Counted rounds st
      → Ended
          (rounds + n)
          (run_turns agent limits n (suc rounds) st).0
          (run_turns agent limits n (suc rounds) st).1
  unfolding run_turns
  run_turns-Ended zero rounds st h = record {
    tools_bounded = omega (arith, h.tools_counted, h.tools_within);
    turns_bounded = omega (arith, h.turns_counted);
    turns_told = λ x f. absurd (cc);
  }
  run_turns-Ended (suc n) rounds st h =
      after_turn-Ended rounds n (run_turn agent limits (suc rounds) st)
        (λ st'. run_turns agent limits n (suc (suc rounds)) st') (run_turn-Counted rounds st h)
        (λ st' h'.
          subst
            (λ k.
              Ended k (run_turns agent limits n (suc (suc rounds)) st').0
                (run_turns agent limits n (suc (suc rounds)) st').1)
            (omega arith) (run_turns-Ended n (suc rounds) st' h'))

  -- Whatever the provider and the tools do, a run of the loop ends after at most `maxIterations` model
  -- turns and at most `maxTotalToolCalls` tool calls, and an answer tells the number of the turns.
  pub run_agent_loop-limits :
      (system_prompt user_prompt : String) (max_iterations : ℕ) (w : World)
      → (tool_calls_in
            (run_agent_loop agent limits system_prompt user_prompt max_iterations w).1.observations
          ≤ limits.max_total_tool_calls)
        × (turns_in
              (run_agent_loop agent limits system_prompt user_prompt max_iterations
                w).1.observations
            ≤ max_iterations)
        × ((x : AgentLoopResult)
            → (run_agent_loop agent limits system_prompt user_prompt max_iterations w).0 ≡ ok x
            → x.iterations
              ≡ turns_in
                  (run_agent_loop agent limits system_prompt user_prompt max_iterations
                    w).1.observations)
  unfolding run_agent_loop
  run_agent_loop-limits system_prompt user_prompt max_iterations w =
      let h =
        run_turns-Ended max_iterations 0 (first_state agent limits system_prompt user_prompt w)
          (record { tools_counted = refl; tools_within = omega arith; turns_counted = refl }) in
      let turns = h.turns_bounded in (h.tools_bounded, omega (arith, turns), h.turns_told)
