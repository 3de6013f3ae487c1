-- ===== src/Agent.antt =====
-- worker/agent-loop.ts: the turns of a worker with its model and its tools. The provider, the tool
-- executor, `JSON.parse`, the size of a request and the clock are parameters over a state of their own
-- (World). The abort signal is part of that state, the definitions of the tools are part of the size of
-- a request, and the transcript, which the loop only writes, is not modelled. The observer is a list.
pub mod Observing
pub mod Bounds
pub mod Evidence
pub mod Recorded
pub mod Appending
pub mod Tests
use Prim.Native.String.{len}
use agent_harness_os.Base.{
  ℕ, zero, suc, ◌+◌, String, Bool, true, false, ◌&&◌, ◌||◌, Option, none, some, List, [], ◌∷◌, ◌++◌,
  ltb, leb, nat_beq, if◌then◌else◌, codes, length, all, HarnessError, harness_error, Result, ok,
  err, ◌>>=◌, ◌>>◌, throw_if,
}
use agent_harness_os.Task.Types.{CallOutcome, succeeded, Timing}

pub record ToolCall : Type 0 where
  pub call_id : String
  pub function_name : String
  pub function_arguments : String

pub record Completion : Type 0 where
  pub content : Option String
  pub tool_calls : List ToolCall

pub record ToolResult : Type 0 where
  pub result_content : String
  pub is_error : Bool

-- A message with its `role`.
pub data Message : Type 0 where
  system_message user_message : String → Message
  assistant_message : Option String → List ToolCall → Message
  tool_message : String → String → Message

-- The arguments of a call: the value that was parsed, or `_invalidJson` with the text.
pub data ToolArguments (Json : Type 0) : Type 0 where
  parsed_arguments : Json → ToolArguments Json
  invalid_json : String → ToolArguments Json

pub record ToolObservation : Type 0 where
  pub tool_name : String
  pub tool_iteration : ℕ
  pub tool_outcome : CallOutcome
  pub input_bytes : ℕ
  pub output_bytes : ℕ
  pub tool_timing : Timing

pub record TurnObservation : Type 0 where
  pub turn_iteration : ℕ
  pub turn_outcome : CallOutcome
  pub tool_call_count : ℕ
  pub turn_timing : Timing

pub data Observation : Type 0 where
  tool_call : ToolObservation → Observation
  model_turn : TurnObservation → Observation

pub record AgentLoopLimits : Type 0 where
  pub max_total_tool_calls : ℕ
  pub max_context_bytes : ℕ
  pub max_assistant_content_bytes : ℕ

pub record AgentLoopResult : Type 0 where
  pub final_response : String
  pub iterations : ℕ

-- The provider, the executor and the runtime.
pub record Agent (World Json : Type 0) : Type 0 where
  pub complete : World → List Message → Result Completion × World
  pub execute : World → String → ToolArguments Json → ToolResult × World
  pub parse_json : String → Option Json
  pub request_bytes : List Message → ℕ
  pub timing_of : World → Timing

pub record LoopState (World : Type 0) : Type 0 where
  pub world : World
  pub messages : List Message
  pub total_tool_calls : ℕ
  pub observations : List Observation

-- A round of the loop that ends it, or that the next one follows.
pub data Turn : Type 0 where
  answered : Result AgentLoopResult → Turn
  continued : Turn

-- The characters that `trim` takes away.
abbrev is_js_space : ℕ → Bool
is_js_space c =
    (leb 9 c && leb c 13)
    || nat_beq c 32
    || nat_beq c 160
    || nat_beq c 5760
    || (leb 8192 c && leb c 8202)
    || nat_beq c 8232
    || nat_beq c 8233
    || nat_beq c 8239
    || nat_beq c 8287
    || nat_beq c 12288
    || nat_beq c 65279

-- `content === null || content.trim() === ''`
unfoldable pub is_blank : Option String → Bool
is_blank none = true
is_blank (some s) = all is_js_space (codes s)

abbrev pub content_bytes : Option String → ℕ
content_bytes none = 0
content_bytes (some s) = len s

-- The checks of a completion: its size, the number of its tool calls, and that it holds something.
unfoldable pub check_completion : AgentLoopLimits → ℕ → Completion → Result (Unit {0})
check_completion limits total c = do
  throw_if (ltb limits.max_assistant_content_bytes (content_bytes c.content))
      (harness_error "WORKER_ASSISTANT_CONTENT_LIMIT")
  throw_if (ltb limits.max_total_tool_calls (total + length c.tool_calls))
      (harness_error "WORKER_TOOL_CALL_LIMIT")
  throw_if (nat_beq (length c.tool_calls) 0 && is_blank c.content)
      (harness_error "WORKER_EMPTY_RESPONSE")

abbrev pub outcome_of : Bool → CallOutcome
outcome_of true = CallOutcome.failed
outcome_of false = succeeded

module _ {World Json : Type 0} (agent : Agent World Json) (limits : AgentLoopLimits) where
  abbrev pub observe : Observation → LoopState World → LoopState World
  observe o st = record st { observations = st.observations ++ o ∷ [] }

  abbrev pub turn_observation : ℕ → CallOutcome → ℕ → World → Observation
  turn_observation iteration outcome count w = model_turn (record {
    turn_iteration = iteration;
    turn_outcome = outcome;
    tool_call_count = count;
    turn_timing = agent.timing_of w;
  })

  abbrev pub parse_arguments : String → ToolArguments Json
  parse_arguments text = elim (agent.parse_json text) [
    | none ↦ invalid_json text
    | some json ↦ parsed_arguments json
  ]

  -- One tool call of a completion.
  unfoldable pub run_tool : ℕ → LoopState World → ToolCall → LoopState World
  run_tool iteration st call =
      let done =
        agent.execute st.world call.function_name (parse_arguments call.function_arguments) in
      record {
        world = done.1;
        messages = st.messages ++ tool_message call.call_id done.0.result_content ∷ [];
        total_tool_calls = st.total_tool_calls;
        observations =
            st.observations
            ++ tool_call (record {
              tool_name = call.function_name;
              tool_iteration = iteration;
              tool_outcome = outcome_of done.0.is_error;
              input_bytes = len call.function_arguments;
              output_bytes = len done.0.result_content;
              tool_timing = agent.timing_of done.1;
            })
              ∷ [];
      }

  unfoldable pub run_tools : ℕ → LoopState World → List ToolCall → LoopState World
  run_tools iteration st [] = st
  run_tools iteration st (call ∷ calls) = run_tools iteration (run_tool iteration st call) calls

  -- The answer of a completion without tool calls.
  unfoldable pub answer : ℕ → Option String → Result AgentLoopResult
  answer iteration none = err (harness_error "WORKER_EMPTY_RESPONSE")
  answer iteration (some text) = ok (record { final_response = text; iterations = iteration })

  -- A completion without tool calls is the answer; the calls of another one are made.
  unfoldable pub take_calls :
      ℕ → Option String → LoopState World → List ToolCall → Turn × LoopState World
  take_calls iteration content st [] = (answered (answer iteration content), st)
  take_calls iteration content st (call ∷ calls) =
      (continued, run_tools iteration st (call ∷ calls))

  -- The rest of a round, after a completion that was accepted.
  unfoldable pub take_completion : ℕ → LoopState World → Completion → Turn × LoopState World
  take_completion iteration st c =
      take_calls iteration c.content
        (record st {
          messages = st.messages ++ assistant_message c.content c.tool_calls ∷ [];
          total_tool_calls = st.total_tool_calls + length c.tool_calls;
          observations =
              st.observations
              ++ turn_observation iteration succeeded (length c.tool_calls) st.world ∷ [];
        })
        c.tool_calls

  unfoldable pub fail_turn : ℕ → LoopState World → HarnessError → Turn × LoopState World
  fail_turn iteration st e =
      (answered (err e), observe (turn_observation iteration CallOutcome.failed 0 st.world) st)

  unfoldable pub checked_completion :
      ℕ → LoopState World → Completion → Result (Unit {0}) → Turn × LoopState World
  checked_completion iteration st c (err e) = fail_turn iteration st e
  checked_completion iteration st c (ok u) = take_completion iteration st c

  unfoldable pub completed_turn : ℕ → LoopState World → Result Completion → Turn × LoopState World
  completed_turn iteration st (err e) = fail_turn iteration st e
  completed_turn iteration st (ok c) =
      checked_completion iteration st c (check_completion limits st.total_tool_calls c)

  -- One round of the loop.
  unfoldable pub run_turn : ℕ → LoopState World → Turn × LoopState World
  run_turn iteration st =
      if ltb limits.max_context_bytes (agent.request_bytes st.messages)
      then (answered (err (harness_error "WORKER_CONTEXT_LIMIT")), st)
      else completed_turn iteration (record st { world = (agent.complete st.world st.messages).1 })
          (agent.complete st.world st.messages).0

  -- What a round leads to, given the rounds after it.
  abbrev pub after_turn :
      Turn × LoopState World
      → (LoopState World → Result AgentLoopResult × LoopState World)
      → Result AgentLoopResult × LoopState World
  after_turn (answered r, st) next = (r, st)
  after_turn (continued, st) next = next st

  -- The loop, with the number of rounds that are left.
  unfoldable pub run_turns : ℕ → ℕ → LoopState World → Result AgentLoopResult × LoopState World
  run_turns zero iteration st = (err (harness_error "WORKER_ITERATION_LIMIT"), st)
  run_turns (suc n) iteration st =
      after_turn (run_turn iteration st) (λ st'. run_turns n (suc iteration) st')

  abbrev pub first_state : String → String → World → LoopState World
  first_state system_prompt user_prompt w = record {
    world = w;
    messages = system_message system_prompt ∷ user_message user_prompt ∷ [];
    total_tool_calls = 0;
    observations = [];
  }

  -- `runAgentLoop` with the two prompts and `task.maxIterations`.
  unfoldable pub run_agent_loop :
      String → String → ℕ → World → Result AgentLoopResult × LoopState World
  run_agent_loop system_prompt user_prompt max_iterations w =
      run_turns max_iterations 1 (first_state system_prompt user_prompt w)
