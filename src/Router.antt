-- ===== src/Router.antt =====
-- provider/router.ts and the parts of config.ts it reads: the choice of the workers for a task. The run
-- without historical evidence is modelled, where `applyRoutingEvidence` returns its argument.
-- `localeCompare` is a parameter, since it is the runtime's.
pub mod Sorting
pub mod Routes
pub mod Tests
use agent_harness_os.Base.{
  ℕ, ◌+◌, ◌-◌, ◌*◌, min, String, Bool, true, false, not, ◌&&◌, Option, none, some, List, [], ◌∷◌,
  ◌++◌, map, ltb, leb, if◌then◌else◌, ◌==◌, nat_eq, string_eq, option_eq, is_some, length, all,
  filter, contains, unique, harness_error, Result, ok, err, ◌>>◌, throw_if,
}
use agent_harness_os.Domain.{
  WorkerMode, WorkerCapability, mode_capability, tool_calling, WorkerCostTier, low, medium, high,
  WorkerLatencyTier, fast, standard, slow, RoutingStrategy, balanced, cost, latency, quality,
  WorkerRoutingPolicy, worker_mode_eq, capability_eq, run_status_eq,
}

pub record WorkerProfile : Type 0 where
  pub backing_worker_id : String
  pub role : WorkerMode

-- The fields that the router reads. A priority is an integer of at least 0.
pub record WorkerConfig : Type 0 where
  pub id : String
  pub enabled : Bool
  pub capabilities : List WorkerCapability
  pub priority : ℕ
  pub cost_tier : WorkerCostTier
  pub latency_tier : WorkerLatencyTier
  pub configuration_issues : List String
  pub profile : Option WorkerProfile

pub record HarnessConfig : Type 0 where
  pub workers : List WorkerConfig
  pub default_worker_id : Option String
  pub max_attempts : ℕ

pub data Reason : Type 0 where
  preferred_worker_reason : Reason
  cost_reason : WorkerCostTier → Reason
  latency_reason : WorkerLatencyTier → Reason
  quality_reason : ℕ → Reason
  balanced_reason : ℕ → WorkerCostTier → WorkerLatencyTier → Reason

pub record WorkerRouteCandidate : Type 0 where
  pub worker : WorkerConfig
  pub score : ℕ
  pub reasons : List Reason

pub record WorkerRoute : Type 0 where
  pub strategy : RoutingStrategy
  pub required_capabilities : List WorkerCapability
  pub candidates : List WorkerRouteCandidate
  pub max_attempts : ℕ
  pub fallback_enabled : Bool

-- The sign of a comparison.
pub data Ordering : Type 0 where
  less same greater : Ordering

abbrev pub is_greater : Ordering → Bool
is_greater less = false
is_greater same = false
is_greater greater = true

abbrev pub cost_rank : WorkerCostTier → ℕ
cost_rank low = 0
cost_rank medium = 1
cost_rank high = 2

abbrev pub latency_rank : WorkerLatencyTier → ℕ
latency_rank fast = 0
latency_rank standard = 1
latency_rank slow = 2

abbrev pub is_worker_configured : WorkerConfig → Bool
is_worker_configured w = w.enabled && length w.configuration_issues == 0

unfoldable pub within_tier : {A : Type 0} → (A → ℕ) → A → Option A → Bool
within_tier rank tier none = true
within_tier rank tier (some limit) = leb (rank tier) (rank limit)

unfoldable pub has_role : WorkerMode → Option WorkerProfile → Bool
has_role mode none = true
has_role mode (some profile) = profile.role == mode

unfoldable pub worker_satisfies_policy :
    WorkerMode → List WorkerCapability → WorkerRoutingPolicy → WorkerConfig → Bool
worker_satisfies_policy mode required_capabilities policy w =
    is_worker_configured w
    && has_role mode w.profile
    && all (λ c. contains w.capabilities c) required_capabilities
    && within_tier cost_rank w.cost_tier policy.max_cost_tier
    && within_tier latency_rank w.latency_tier policy.max_latency_tier

abbrev pub strategy_score : RoutingStrategy → WorkerConfig → ℕ
strategy_score cost w =
    (2 - cost_rank w.cost_tier) * 20000 + (2 - latency_rank w.latency_tier) * 500
strategy_score latency w =
    (2 - latency_rank w.latency_tier) * 20000 + (2 - cost_rank w.cost_tier) * 500
strategy_score quality w = w.priority * 20000
strategy_score balanced w =
    (2 - cost_rank w.cost_tier) * 5000 + (2 - latency_rank w.latency_tier) * 5000

abbrev pub strategy_reason : RoutingStrategy → WorkerConfig → Reason
strategy_reason cost w = cost_reason w.cost_tier
strategy_reason latency w = latency_reason w.latency_tier
strategy_reason quality w = quality_reason w.priority
strategy_reason balanced w = balanced_reason w.priority w.cost_tier w.latency_tier

pub score_worker : RoutingStrategy → Option String → WorkerConfig → WorkerRouteCandidate
score_worker strategy preferred_worker_id w =
    let preferred = some w.id == preferred_worker_id in
    record {
      worker = w;
      score = w.priority * 100 + (if preferred then 1000000 else 0) + strategy_score strategy w;
      reasons =
          (if preferred then preferred_worker_reason ∷ [] else [])
          ++ strategy_reason strategy w ∷ [];
    }

-- `workers.find(worker => worker.id === id)`
pub find_worker : String → List WorkerConfig → Option WorkerConfig
find_worker id [] = none
find_worker id (w ∷ ws) = if w.id == id then some w else find_worker id ws

unfoldable pub required_for : WorkerMode → WorkerRoutingPolicy → List WorkerCapability
required_for mode policy =
    unique (mode_capability mode ∷ tool_calling ∷ policy.required_capabilities)

pub declared_candidates :
    HarnessConfig → WorkerMode → WorkerRoutingPolicy → List WorkerRouteCandidate
declared_candidates config mode policy =
    let default_worker_id =
      if is_some policy.preferred_worker_id
      then policy.preferred_worker_id
      else config.default_worker_id in
    map (score_worker policy.strategy default_worker_id) (
      filter (worker_satisfies_policy mode (required_for mode policy) policy)
        (filter is_worker_configured config.workers))

-- The checks of a preferred worker, by what the search for it found.
pub check_found : WorkerMode → WorkerRoutingPolicy → Option WorkerConfig → Result (Unit {0})
check_found mode policy none = err (harness_error "WORKER_NOT_FOUND")
check_found mode policy (some w) =
    throw_if (not (worker_satisfies_policy mode (required_for mode policy) policy w))
      (harness_error "WORKER_DOES_NOT_SATISFY_ROUTE")

pub check_preferred_worker :
    HarnessConfig → WorkerMode → WorkerRoutingPolicy → Option String → Result (Unit {0})
check_preferred_worker config mode policy none = ok tt
check_preferred_worker config mode policy (some id) =
    check_found mode policy (find_worker id config.workers)

pub attempts : HarnessConfig → WorkerRoutingPolicy → List WorkerRouteCandidate → Bool → ℕ
attempts config policy candidates fallback_enabled =
    if fallback_enabled
    then min policy.max_attempts (min config.max_attempts (length candidates))
    else 1

abbrev pub route_of :
    HarnessConfig → WorkerMode → WorkerRoutingPolicy → List WorkerRouteCandidate → WorkerRoute
route_of config mode policy candidates =
    let fallback_enabled = policy.allow_fallback && ltb 1 (length candidates) in
    record {
      strategy = policy.strategy;
      required_capabilities = required_for mode policy;
      candidates = candidates;
      max_attempts = attempts config policy candidates fallback_enabled;
      fallback_enabled = fallback_enabled;
    }

module _ (locale_compare : String → String → Ordering) where
  pub compare_candidates : WorkerRouteCandidate → WorkerRouteCandidate → Ordering
  compare_candidates left right =
      if ltb right.score left.score
      then less
      else if ltb left.score right.score
      then greater
      else locale_compare left.worker.id right.worker.id

  pub compare_candidates_with_preference :
      Option String → WorkerRouteCandidate → WorkerRouteCandidate → Ordering
  compare_candidates_with_preference preferred_worker_id left right =
      if left.worker.id == right.worker.id
      then same
      else if some left.worker.id == preferred_worker_id
      then less
      else if some right.worker.id == preferred_worker_id
      then greater
      else compare_candidates left right

  -- `Array.prototype.sort`, which is stable: an item goes before the first one it is not greater than.
  pub insert_candidate :
      Option String → WorkerRouteCandidate → List WorkerRouteCandidate → List WorkerRouteCandidate
  insert_candidate preferred c [] = c ∷ []
  insert_candidate preferred c (d ∷ ds) =
      if is_greater (compare_candidates_with_preference preferred c d)
      then d ∷ insert_candidate preferred c ds
      else c ∷ d ∷ ds

  pub sort_candidates : Option String → List WorkerRouteCandidate → List WorkerRouteCandidate
  sort_candidates preferred [] = []
  sort_candidates preferred (c ∷ cs) = insert_candidate preferred c (sort_candidates preferred cs)

  unfoldable pub route_workers :
      HarnessConfig → WorkerMode → WorkerRoutingPolicy → Result WorkerRoute
  unfolding check_preferred_worker check_found declared_candidates sort_candidates insert_candidate
      compare_candidates_with_preference compare_candidates attempts required_for
      worker_satisfies_policy score_worker find_worker within_tier has_role
  route_workers config mode policy =
      check_preferred_worker config mode policy policy.preferred_worker_id
      >> (let candidates =
            sort_candidates policy.preferred_worker_id (declared_candidates config mode policy) in
          throw_if (length candidates == 0) (harness_error "NO_WORKER_ROUTE")
          >> ok (route_of config mode policy candidates))
