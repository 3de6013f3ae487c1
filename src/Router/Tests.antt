-- ===== src/Router/Tests.antt =====
-- provider/router.ts: the routes of two workers.
use agent_harness_os.Base.{
  same_text, ℕ, ◌≤◌, String, ◌≡◌, refl, ◌↔◌, inl, xor, Bool, true, false, Option, none, some, [],
  ◌∷◌, arith, In, ok,
}
use agent_harness_os.Domain.{
  testing, mode_capability, tool_calling, WorkerCostTier, low, medium, high, standard, cost,
  WorkerRoutingPolicy,
}
use agent_harness_os.Router.{
  WorkerConfig, HarnessConfig, preferred_worker_reason, cost_reason, WorkerRouteCandidate,
  WorkerRoute, Ordering, same, within_tier, has_role, worker_satisfies_policy, required_for,
  route_workers,
}
use agent_harness_os.Router.Sorting.{StartsWith}
use agent_harness_os.Router.Routes.{
  route_workers-candidates, route_workers-preferred_first, route_workers-attempts,
  route_workers_found,
}

abbrev worker_named : String → ℕ → WorkerCostTier → WorkerConfig
worker_named id priority tier = record {
  id = id;
  enabled = true;
  capabilities = mode_capability testing ∷ tool_calling ∷ [];
  priority = priority;
  cost_tier = tier;
  latency_tier = standard;
  configuration_issues = [];
  profile = none;
}

abbrev worker_a : WorkerConfig
worker_a = worker_named "a" 50 low

abbrev worker_b : WorkerConfig
worker_b = worker_named "b" 60 medium

abbrev two_workers : HarnessConfig
two_workers = record {
  workers = worker_a ∷ worker_b ∷ worker_named "c" 90 high ∷ [];
  default_worker_id = none;
  max_attempts = 3;
}

abbrev policy_with : Option String → WorkerRoutingPolicy
policy_with preferred = record {
  preferred_worker_id = preferred;
  required_capabilities = [];
  strategy = cost;
  max_cost_tier = some medium;
  max_latency_tier = none;
  allow_fallback = true;
  max_attempts = 2;
}

abbrev all_same : String → String → Ordering
all_same a b = same

abbrev candidate_a : WorkerRouteCandidate
candidate_a = record { worker = worker_a; score = 45500; reasons = cost_reason low ∷ [] }

abbrev preferred_b : WorkerRouteCandidate
preferred_b = record {
  worker = worker_b;
  score = 1026500;
  reasons = preferred_worker_reason ∷ cost_reason medium ∷ [];
}

abbrev route : WorkerRoute
route = record {
  strategy = cost;
  required_capabilities = mode_capability testing ∷ tool_calling ∷ [];
  candidates = preferred_b ∷ candidate_a ∷ [];
  max_attempts = 2;
  fallback_enabled = true;
}

route_found : route_workers all_same two_workers testing (policy_with (some "b")) ≡ ok route
unfolding route_workers same_text xor
route_found = refl

abbrev satisfies_route : WorkerConfig → Bool
satisfies_route =
    worker_satisfies_policy testing (required_for testing (policy_with (some "b")))
      (policy_with (some "b"))

route_workers-candidates_example :
    ((c : WorkerRouteCandidate) × In c route.candidates × (c.worker ≡ worker_a))
    ↔ (In worker_a two_workers.workers × (satisfies_route worker_a ≡ true))
route_workers-candidates_example =
    route_workers-candidates all_same two_workers testing (policy_with (some "b")) route route_found
      worker_a

route_workers-preferred_first_example : StartsWith all_same (some "b") "b" route.candidates
route_workers-preferred_first_example =
    route_workers-preferred_first all_same two_workers testing (policy_with (some "b")) route "b"
      refl route_found

route_workers-attempts_example :
    (1 ≤ 2) × (2 ≤ 2) × (2 ≤ 2) × (true ≡ false → route.max_attempts ≡ 1)
route_workers-attempts_example =
    route_workers-attempts all_same two_workers testing (policy_with (some "b")) route (omega arith)
      (omega arith) route_found

a_satisfies :
    worker_satisfies_policy testing
      (required_for testing (policy_with none))
      (policy_with none)
      worker_a
    ≡ true
unfolding worker_satisfies_policy required_for within_tier has_role same_text xor
a_satisfies = refl

route_workers_found_example :
    (r : WorkerRoute) × (route_workers all_same two_workers testing (policy_with none) ≡ ok r)
route_workers_found_example =
    route_workers_found all_same two_workers testing (policy_with none) worker_a refl (inl refl)
      a_satisfies
