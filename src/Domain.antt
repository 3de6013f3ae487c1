-- ===== src/Domain.antt =====
-- domain/types.ts: the enumerations and records that several components share. A `number` that the
-- source validates as a non-negative integer is a natural number, and `null` is `none`.
use agent_harness_os.Base.{
  ℕ, String, ◌≡◌, ◌↔◌, Bool, true, Option, List, arith, nat_beq, Eq, nat_eq, eq_by_tag, string_eq,
  option_eq,
}

pub data WorkerMode : Type 0 where
  research implementation testing review : WorkerMode

pub data WorkerCapability : Type 0 where
  mode_capability : WorkerMode → WorkerCapability
  tool_calling long_context private_use : WorkerCapability

pub data WorkerCostTier : Type 0 where
  low medium high : WorkerCostTier

pub data WorkerLatencyTier : Type 0 where
  fast standard slow : WorkerLatencyTier

pub data RoutingStrategy : Type 0 where
  balanced cost latency quality : RoutingStrategy

pub record WorkerRoutingPolicy : Type 0 where
  pub preferred_worker_id : Option String
  pub required_capabilities : List WorkerCapability
  pub strategy : RoutingStrategy
  pub max_cost_tier : Option WorkerCostTier
  pub max_latency_tier : Option WorkerLatencyTier
  pub allow_fallback : Bool
  pub max_attempts : ℕ

pub data RunStatus : Type 0 where
  completed failed blocked policy_violation timed_out cancelled : RunStatus

pub record CommandSpec : Type 0 where
  pub command : String
  pub args : List String
  pub timeout_ms : Option ℕ

abbrev pub worker_mode_tag : WorkerMode → ℕ
worker_mode_tag research = 0
worker_mode_tag implementation = 1
worker_mode_tag testing = 2
worker_mode_tag review = 3

pub worker_mode_tag_iff :
    (a b : WorkerMode) → (nat_beq (worker_mode_tag a) (worker_mode_tag b) ≡ true) ↔ (a ≡ b)
worker_mode_tag_iff a b = ground arith

instance abbrev pub worker_mode_eq : Eq WorkerMode
worker_mode_eq = eq_by_tag worker_mode_tag worker_mode_tag_iff

abbrev pub capability_tag : WorkerCapability → ℕ
capability_tag (mode_capability research) = 0
capability_tag (mode_capability implementation) = 1
capability_tag (mode_capability testing) = 2
capability_tag (mode_capability review) = 3
capability_tag tool_calling = 4
capability_tag long_context = 5
capability_tag private_use = 6

pub capability_tag_iff :
    (a b : WorkerCapability) → (nat_beq (capability_tag a) (capability_tag b) ≡ true) ↔ (a ≡ b)
capability_tag_iff a b = ground arith

instance abbrev pub capability_eq : Eq WorkerCapability
capability_eq = eq_by_tag capability_tag capability_tag_iff

abbrev pub run_status_tag : RunStatus → ℕ
run_status_tag completed = 0
run_status_tag failed = 1
run_status_tag blocked = 2
run_status_tag policy_violation = 3
run_status_tag timed_out = 4
run_status_tag cancelled = 5

pub run_status_tag_iff :
    (a b : RunStatus) → (nat_beq (run_status_tag a) (run_status_tag b) ≡ true) ↔ (a ≡ b)
run_status_tag_iff a b = ground arith

instance abbrev pub run_status_eq : Eq RunStatus
run_status_eq = eq_by_tag run_status_tag run_status_tag_iff
