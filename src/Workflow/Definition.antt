-- ===== src/Workflow/Definition.antt =====
-- workflow/event-model.ts, the validation of a definition. The values are typed here, so the tests of
-- an object's keys and of a field's `typeof` hold by construction, and what is left are the bounds.
use agent_harness_os.Base.{
  utf16_length, ℕ, zero, suc, String, Bool, true, false, not, ◌&&◌, ◌||◌, Option, none, some, List,
  [], ◌∷◌, ltb, leb, nat_beq, if◌then◌else◌, ◌==◌, nat_eq, string_eq, option_eq, is_none, is_some,
  codes, length, all, unique,
}
use agent_harness_os.Workflow.Types.{
  WorkerStageName, plan, implement, test, review, repair, WorkerStage, Definition, worker_stage_eq,
  stage_eq, status_eq, decision_eq,
}
use agent_harness_os.Domain.{
  WorkerRoutingPolicy, CommandSpec, worker_mode_eq, capability_eq, run_status_eq,
}

-- `Date.parse` and `Date.prototype.toISOString` of the JavaScript runtime.
pub record Dates : Type 0 where
  pub parses : String → Bool
  pub to_iso_string : String → String

unfoldable pub is_iso_date : Dates → String → Bool
is_iso_date dates s = dates.parses s && dates.to_iso_string s == s

abbrev pub is_integer_in_range : ℕ → ℕ → ℕ → Bool
is_integer_in_range n minimum maximum = leb minimum n && leb n maximum

abbrev pub is_bounded_string : String → ℕ → Bool
is_bounded_string s maximum = ltb 0 (utf16_length s) && leb (utf16_length s) maximum

abbrev pub is_bounded_string_array : List String → ℕ → ℕ → ℕ → Bool
is_bounded_string_array xs minimum maximum max_item_length =
    leb minimum (length xs)
    && leb (length xs) maximum
    && all (λ x. is_bounded_string x max_item_length) xs

abbrev pub in_range : ℕ → ℕ → ℕ → Bool
in_range lo hi c = leb lo c && leb c hi

-- A hexadecimal digit in either case.
abbrev pub is_hex : ℕ → Bool
is_hex c = in_range b'0' b'9' c || in_range b'a' b'f' c || in_range b'A' b'F' c

abbrev pub is_dash : ℕ → Bool
is_dash c = nat_beq c b'-'

-- The text fits a pattern that has one test for each character.
pub fits : List (ℕ → Bool) → List ℕ → Bool
fits [] [] = true
fits [] (c ∷ cs) = false
fits (p ∷ ps) [] = false
fits (p ∷ ps) (c ∷ cs) = p c && fits ps cs

pub hex_run : ℕ → List (ℕ → Bool) → List (ℕ → Bool)
hex_run zero rest = rest
hex_run (suc n) rest = is_hex ∷ hex_run n rest

-- `uuidPattern`
uuid_pattern : List (ℕ → Bool)
uuid_pattern = hex_run 8 (
    is_dash
    ∷ hex_run 4 (
        is_dash
        ∷ in_range b'1' b'5'
        ∷ hex_run 3 (
            is_dash
            ∷ (λ c.
                nat_beq c b'8'
                || nat_beq c b'9'
                || nat_beq c b'a'
                || nat_beq c b'b'
                || nat_beq c b'A'
                || nat_beq c b'B')
            ∷ hex_run 3 (is_dash ∷ hex_run 12 []))))

unfoldable pub is_uuid : String → Bool
unfolding fits hex_run uuid_pattern
is_uuid s = fits uuid_pattern (codes s)

-- `gitCommitPattern`: 40 or 64 hexadecimal digits.
unfoldable pub is_git_commit : String → Bool
unfolding fits hex_run
is_git_commit s = fits (hex_run 40 []) (codes s) || fits (hex_run 64 []) (codes s)

-- `sha256Pattern`
unfoldable pub is_sha256 : String → Bool
unfolding fits hex_run
is_sha256 s = fits (hex_run 64 []) (codes s)

pub is_unique_uuid_array : List String → ℕ → Bool
is_unique_uuid_array xs maximum =
    leb (length xs) maximum && all is_uuid xs && nat_beq (length (unique xs)) (length xs)

pub is_command_specs : List CommandSpec → Bool
is_command_specs xs =
    leb (length xs) 20
    && all
        (λ item.
          is_bounded_string item.command 100
          && leb (length item.args) 100
          && all (λ argument. leb (utf16_length argument) 2000) item.args
          && elim item.timeout_ms [ none ↦ true | some ms ↦ is_integer_in_range ms 1000 900000 ])
        xs

pub is_routing_policy : WorkerRoutingPolicy → Bool
is_routing_policy r =
    elim r.preferred_worker_id [ none ↦ true | some id ↦ is_bounded_string id 64 ]
    && leb (length r.required_capabilities) 16
    && nat_beq (length (unique r.required_capabilities)) (length r.required_capabilities)
    && is_integer_in_range r.max_attempts 1 8

unfoldable pub is_workflow_stage : WorkerStage → WorkerStageName → Bool
unfolding is_command_specs is_routing_policy
is_workflow_stage s name =
    is_bounded_string s.objective 4000
    && is_bounded_string_array s.allowed_paths 1 100 1024
    && is_bounded_string_array s.prohibited_paths 0 100 1024
    && is_bounded_string_array s.acceptance_criteria 0 100 2000
    && is_command_specs s.required_commands
    && is_integer_in_range s.max_iterations 1 64
    && is_integer_in_range s.timeout_seconds 30 3600
    && is_routing_policy s.routing
    && is_integer_in_range s.retry_limit 0 2
    && ((not (name == plan) && not (name == review)) || nat_beq (length s.required_commands) 0)
    && (not (name == repair) || nat_beq s.retry_limit 0)

pub is_nullable_workflow_stage : Option WorkerStage → WorkerStageName → Bool
is_nullable_workflow_stage none name = true
is_nullable_workflow_stage (some s) name = is_workflow_stage s name

unfoldable pub validate_workflow_definition : Dates → Definition → Bool
unfolding is_iso_date is_unique_uuid_array is_nullable_workflow_stage
validate_workflow_definition dates d =
    is_bounded_string d.objective 4000
    && is_bounded_string d.repository_path 4096
    && is_git_commit d.base_commit
    && is_iso_date dates d.deadline_at
    && is_integer_in_range d.max_transitions 1 64
    && is_integer_in_range d.max_repair_attempts 0 5
    && is_unique_uuid_array d.dependency_workflow_ids 16
    && is_nullable_workflow_stage d.stages.plan_stage plan
    && is_workflow_stage d.stages.implement_stage implement
    && is_nullable_workflow_stage d.stages.test_stage test
    && is_nullable_workflow_stage d.stages.review_stage review
    && is_nullable_workflow_stage d.stages.repair_stage repair
    && (if nat_beq d.max_repair_attempts 0
        then is_none d.stages.repair_stage
        else is_some d.stages.repair_stage)
