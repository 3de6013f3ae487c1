-- ===== src/Policy/Resolution.antt =====
-- policy/engine.ts: the policy of a task, from its own limits, those of the configuration and those of the
-- documents that were loaded. The contents of the policy files and the SHA-256 digests are parameters.
pub mod Tiers
pub mod Strictness
pub mod Enforcement
use agent_harness_os.Base.{
  ℕ, min, String, Bool, true, ◌&&◌, Option, none, some, List, [], ◌∷◌, ◌++◌, map, ltb,
  if◌then◌else◌, nat_eq, string_eq, option_eq, all, unique, Result, ok, ◌>>=◌,
}
use agent_harness_os.Domain.{
  WorkerCapability, WorkerCostTier, WorkerLatencyTier, RoutingStrategy, WorkerRoutingPolicy,
  worker_mode_eq, capability_eq, run_status_eq,
}
use agent_harness_os.Router.{cost_rank, latency_rank}
use agent_harness_os.Policy.Documents.{Json, PolicyDocument, parse_policy_document}

pub data PolicyScope : Type 0 where
  organization repository : PolicyScope

pub record PolicySource : Type 0 where
  pub scope : PolicyScope
  pub location : String
  pub sha256 : String

pub record LoadedPolicy : Type 0 where
  pub document : PolicyDocument
  pub source : PolicySource

pub record PolicyConfig : Type 0 where
  pub default_strategy : RoutingStrategy
  pub default_max_attempts : ℕ
  pub limit_changed_files : ℕ

-- The fields of a task that a policy reads or binds.
pub record WorkerTask : Type 0 where
  pub prohibited_paths : List String
  pub max_iterations : ℕ
  pub timeout_seconds : ℕ
  pub allow_network : Bool
  pub routing : Option WorkerRoutingPolicy

pub record ResolvedRouting : Type 0 where
  pub required_capabilities : List WorkerCapability
  pub max_cost_tier : Option WorkerCostTier
  pub max_latency_tier : Option WorkerLatencyTier
  pub allow_fallback : Bool
  pub max_attempts : ℕ

-- The policy without the digest of it.
pub record ResolvedPolicy : Type 0 where
  pub sources : List PolicySource
  pub max_changed_files : ℕ
  pub max_iterations : ℕ
  pub max_task_seconds : ℕ
  pub allow_network : Bool
  pub prohibited_paths : List String
  pub routing : ResolvedRouting

pub record PolicyBoundTask : Type 0 where
  pub bound_task : WorkerTask
  pub policy : ResolvedPolicy
  pub digest : String

-- `Math.min` of a number and of those that a document sets.
unfoldable pub minimum : ℕ → List (Option ℕ) → ℕ
minimum n [] = n
minimum n (none ∷ rest) = minimum n rest
minimum n (some m ∷ rest) = min m (minimum n rest)

-- The fold of `strictestTier` over the tiers that are present, by their place in the ordered list.
unfoldable pub reduce_tier : {A : Type 0} → (A → ℕ) → A → List (Option A) → A
reduce_tier rank strictest [] = strictest
reduce_tier rank strictest (none ∷ values) = reduce_tier rank strictest values
reduce_tier rank strictest (some value ∷ values) =
    reduce_tier rank (if ltb (rank value) (rank strictest) then value else strictest) values

unfoldable pub strictest_tier : {A : Type 0} → (A → ℕ) → List (Option A) → Option A
strictest_tier rank [] = none
strictest_tier rank (none ∷ values) = strictest_tier rank values
strictest_tier rank (some value ∷ values) = some (reduce_tier rank value values)

-- `policies.flatMap(read)`
abbrev pub flat_map : {A : Type 0} → (LoadedPolicy → List A) → List LoadedPolicy → List A
flat_map read [] = []
flat_map read (p ∷ ps) = read p ++ flat_map read ps

-- `value !== false`
abbrev pub not_denied : Option Bool → Bool
not_denied none = true
not_denied (some b) = b

unfoldable pub task_routing : PolicyConfig → WorkerTask → WorkerRoutingPolicy
task_routing config task = elim task.routing [
  | some routing ↦ routing
  | none ↦ record {
    preferred_worker_id = none;
    required_capabilities = [];
    strategy = config.default_strategy;
    max_cost_tier = none;
    max_latency_tier = none;
    allow_fallback = true;
    max_attempts = config.default_max_attempts;
  }
]

unfoldable pub effective_task_routing :
    WorkerRoutingPolicy → List LoadedPolicy → WorkerRoutingPolicy
effective_task_routing routing policies = record routing {
  required_capabilities = unique (
      routing.required_capabilities
      ++ flat_map (λ p. p.document.routing.required_capabilities) policies);
  max_cost_tier =
      strictest_tier cost_rank
        (routing.max_cost_tier ∷ map (λ p. p.document.routing.max_cost_tier) policies);
  max_latency_tier =
      strictest_tier latency_rank
        (routing.max_latency_tier ∷ map (λ p. p.document.routing.max_latency_tier) policies);
  allow_fallback =
      routing.allow_fallback && all (λ p. not_denied p.document.routing.allow_fallback) policies;
  max_attempts = minimum routing.max_attempts (map (λ p. p.document.routing.max_attempts) policies);
}

unfoldable pub resolved_policy : PolicyConfig → WorkerTask → List LoadedPolicy → ResolvedPolicy
resolved_policy config task policies = record {
  sources = map (λ p. p.source) policies;
  max_changed_files =
      minimum config.limit_changed_files (map (λ p. p.document.max_changed_files) policies);
  max_iterations = minimum task.max_iterations (map (λ p. p.document.max_iterations) policies);
  max_task_seconds = minimum task.timeout_seconds (map (λ p. p.document.max_task_seconds) policies);
  allow_network = task.allow_network && all (λ p. not_denied p.document.allow_network) policies;
  prohibited_paths =
      unique (task.prohibited_paths ++ flat_map (λ p. p.document.prohibited_paths) policies);
  routing =
      let routing = effective_task_routing (task_routing config task) policies in
      record {
        required_capabilities = routing.required_capabilities;
        max_cost_tier = routing.max_cost_tier;
        max_latency_tier = routing.max_latency_tier;
        allow_fallback = routing.allow_fallback;
        max_attempts = routing.max_attempts;
      };
}

module _ (parse_json : String → Option Json) (sha256 : String → String) where
  -- A file that was read, or `none` where there is none.
  load_policy : PolicyScope → String → Option String → Result (List LoadedPolicy)
  load_policy scope location none = ok []
  load_policy scope location (some contents) =
      parse_policy_document parse_json contents >>= λ document. ok (
        record {
          document = document;
          source = record { scope = scope; location = location; sha256 = sha256 contents };
        }
        ∷ [])

  unfoldable pub load_policies : Option String → Option String → Result (List LoadedPolicy)
  unfolding load_policy
  load_policies organization_contents repository_contents =
      load_policy organization "AGENT_OS_ORGANIZATION_POLICY_PATH" organization_contents
      >>= λ first. load_policy repository ".agent-os/policy.json" repository_contents >>= λ second.
          ok (first ++ second)

  unfoldable pub resolve_task_policy :
      (ResolvedPolicy → String)
      → PolicyConfig
      → Option String
      → Option String
      → WorkerTask
      → Result PolicyBoundTask
  unfolding load_policies resolved_policy effective_task_routing task_routing strictest_tier
      reduce_tier minimum
  resolve_task_policy stringify config organization_contents repository_contents task =
      load_policies organization_contents repository_contents >>= λ policies.
      let policy = resolved_policy config task policies in
      ok (record {
        bound_task = record {
          prohibited_paths = policy.prohibited_paths;
          max_iterations = policy.max_iterations;
          timeout_seconds = policy.max_task_seconds;
          allow_network = policy.allow_network;
          routing = some (effective_task_routing (task_routing config task) policies);
        };
        policy = policy;
        digest = sha256 (stringify policy);
      })
