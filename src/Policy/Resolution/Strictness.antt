-- ===== src/Policy/Resolution/Strictness.antt =====
-- policy/engine.ts: the policy of a task is no laxer than the task, the configuration and each document.
use agent_harness_os.Base.{
  ℕ, ◌≤◌, String, ◌≡◌, refl, sym, ap, subst, ◌∙◌, ◌↔◌, ◌⊎◌, inl, inr, Bool, true, ◌&&◌, Option,
  none, some, List, [], ◌∷◌, ◌++◌, arith, nat_eq, string_eq, option_eq, all, contains, In,
  In-append_left, In-append_right, In-append_inv, In-map, ok, ok-injective, pass, contains-In,
  In-unique, all-In,
}
use agent_harness_os.Domain.{
  WorkerMode, WorkerCapability, mode_capability, tool_calling, WorkerRoutingPolicy, worker_mode_eq,
  capability_eq, run_status_eq,
}
use agent_harness_os.Router.{
  WorkerConfig, HarnessConfig, WorkerRouteCandidate, WorkerRoute, Ordering, cost_rank, latency_rank,
  within_tier, worker_satisfies_policy, required_for, route_workers,
}
use agent_harness_os.Router.Routes.{route_workers-candidates}
use agent_harness_os.Policy.Documents.{Json, PolicyRoutingConstraints}
use agent_harness_os.Policy.Resolution.{
  LoadedPolicy, PolicyConfig, WorkerTask, ResolvedPolicy, PolicyBoundTask, minimum, flat_map,
  not_denied, task_routing, effective_task_routing, resolved_policy, load_policies,
  resolve_task_policy,
}
use agent_harness_os.Policy.Resolution.Tiers.{minimum-le, minimum-le_of, strictest_tier-within}

-- A limit of a document, where it sets one.
abbrev pub AtMost : ℕ → Option ℕ → Type 0
AtMost n none = Unit
AtMost n (some m) = n ≤ m

both_true : (a b : Bool) → (a && b) ≡ true → (a ≡ true) × (b ≡ true)
both_true a b h = ground arith

true_both : (a b : Bool) → a ≡ true → b ≡ true → (a && b) ≡ true
true_both a b h k = ground arith

some-injective : {A : Type 0} {a c : A} → some a ≡ some c → a ≡ c
some-injective h = cc

minimum-AtMost :
    (n : ℕ) (limit : Option ℕ) (xs : List (Option ℕ)) → In limit xs → AtMost (minimum n xs) limit
minimum-AtMost n none xs h = tt
minimum-AtMost n (some m) xs h = minimum-le_of n m xs h

In-flat_map :
    {A : Type 0} (read : LoadedPolicy → List A) (x : A) (ps : List LoadedPolicy)
    → In x (flat_map read ps) ↔ ((p : LoadedPolicy) × In p ps × In x (read p))
In-flat_map read x [] = (λ h. absurd h, λ (p, m, h). m)
In-flat_map read x (q ∷ qs) =
    let (to, from) = In-flat_map read x qs in
    (
      λ h. elim (In-append_inv x (read q) (flat_map read qs) h) [
        | inl m ↦ (q, inl refl, m)
        | inr m ↦ let (p, n, k) = to m in (p, inr n, k)
      ],
      λ (p, m, h). elim m [
        | inl e ↦ In-append_left x (read q) (flat_map read qs) (subst (λ z. In x (read z)) e h)
        | inr n ↦ In-append_right x (read q) (flat_map read qs) (from (p, n, h))
      ],
    )

-- A worker keeps the constraints of a document.
pub record Keeps (c : PolicyRoutingConstraints) (w : WorkerConfig) : Type 0 where
  pub capabilities : (a : WorkerCapability) → In a c.required_capabilities → In a w.capabilities
  pub cost_tier : within_tier cost_rank w.cost_tier c.max_cost_tier ≡ true
  pub latency_tier : within_tier latency_rank w.latency_tier c.max_latency_tier ≡ true

satisfies-parts :
    (mode : WorkerMode) (required : List WorkerCapability) (policy : WorkerRoutingPolicy)
    (w : WorkerConfig)
    → worker_satisfies_policy mode required policy w ≡ true
    → (all (λ c. contains w.capabilities c) required ≡ true)
      × (within_tier cost_rank w.cost_tier policy.max_cost_tier ≡ true)
      × (within_tier latency_rank w.latency_tier policy.max_latency_tier ≡ true)
unfolding worker_satisfies_policy
satisfies-parts mode required policy w h = ground arith

module _ (mode : WorkerMode) (routing : WorkerRoutingPolicy) (policies : List LoadedPolicy) where
  abbrev bound : WorkerRoutingPolicy
  bound = effective_task_routing routing policies

  required-In :
      (p : LoadedPolicy) (a : WorkerCapability)
      → In p policies
      → In a p.document.routing.required_capabilities
      → In a (required_for mode bound)
  unfolding effective_task_routing required_for
  required-In p a m h =
      let inside =
        In-append_right a routing.required_capabilities _
          ((In-flat_map (λ q. q.document.routing.required_capabilities) a policies).1 (p, m, h)) in
      (In-unique (mode_capability mode ∷ tool_calling ∷ bound.required_capabilities) a).1
        (inr (inr ((In-unique _ a).1 inside)))

  satisfies-Keeps :
      (p : LoadedPolicy) (w : WorkerConfig)
      → In p policies
      → worker_satisfies_policy mode (required_for mode bound) bound w ≡ true
      → Keeps p.document.routing w
  unfolding effective_task_routing
  satisfies-Keeps p w m h =
      let (capable, cost_kept, latency_kept) =
        satisfies-parts mode (required_for mode bound) bound w h in
      record {
        capabilities = λ a n. (contains-In w.capabilities a).0 (
            (all-In (λ c. contains w.capabilities c) (required_for mode bound)).0 capable a
              (required-In p a m n));
        cost_tier =
            strictest_tier-within cost_rank w.cost_tier _ _ cost_kept
              (inr (In-map (λ q. q.document.routing.max_cost_tier) p policies m));
        latency_tier =
            strictest_tier-within latency_rank w.latency_tier _ _ latency_kept
              (inr (In-map (λ q. q.document.routing.max_latency_tier) p policies m));
      }

module _ (parse_json : String → Option Json) (sha256 : String → String)
    (stringify : ResolvedPolicy → String) (config : PolicyConfig)
    (organization_contents repository_contents : Option String) (task : WorkerTask)
    (policies : List LoadedPolicy) (b : PolicyBoundTask)
    (loaded : load_policies parse_json sha256 organization_contents repository_contents
      ≡ ok policies)
    (resolved : resolve_task_policy parse_json sha256 stringify config organization_contents
        repository_contents task
      ≡ ok b) where
  policy-lem :
      (b.policy ≡ resolved_policy config task policies)
      × (b.bound_task.routing ≡ some (effective_task_routing (task_routing config task) policies))
      × (b.bound_task.max_iterations ≡ b.policy.max_iterations)
      × (b.bound_task.timeout_seconds ≡ b.policy.max_task_seconds)
  unfolding resolve_task_policy
  policy-lem =
      let built = sym (pass _ loaded) ∙ resolved in
      let same_task = ok-injective built in
      subst
        (λ (x : PolicyBoundTask).
          (x.policy ≡ resolved_policy config task policies)
          × (x.bound_task.routing
              ≡ some (effective_task_routing (task_routing config task) policies))
          × (x.bound_task.max_iterations ≡ x.policy.max_iterations)
          × (x.bound_task.timeout_seconds ≡ x.policy.max_task_seconds))
        same_task (refl, refl, refl, refl)

  -- The bound task has at most the iterations and the seconds that the task asked for, and its policy at
  -- most the changed files of the configuration; and none of these is above what a loaded document sets.
  pub resolve_task_policy-limits :
      (b.bound_task.max_iterations ≤ task.max_iterations)
      × (b.bound_task.timeout_seconds ≤ task.timeout_seconds)
      × (b.policy.max_changed_files ≤ config.limit_changed_files)
      × ((p : LoadedPolicy)
          → In p policies
          → AtMost b.bound_task.max_iterations p.document.max_iterations
            × AtMost b.bound_task.timeout_seconds p.document.max_task_seconds
            × AtMost b.policy.max_changed_files p.document.max_changed_files)
  unfolding resolved_policy
  resolve_task_policy-limits =
      let (built, _, iterations, seconds) = policy-lem in
      let it = iterations ∙ ap (λ x. x.max_iterations) built in
      let se = seconds ∙ ap (λ x. x.max_task_seconds) built in
      let fi = ap (λ x. x.max_changed_files) built in
      (
        subst (λ n. n ≤ task.max_iterations) (sym it) (minimum-le task.max_iterations _),
        subst (λ n. n ≤ task.timeout_seconds) (sym se) (minimum-le task.timeout_seconds _),
        subst (λ n. n ≤ config.limit_changed_files) (sym fi)
            (minimum-le config.limit_changed_files _),
        λ p m. (
          subst (λ n. AtMost n p.document.max_iterations) (sym it)
              (minimum-AtMost task.max_iterations _ _
                (In-map (λ q. q.document.max_iterations) p policies m)),
          subst (λ n. AtMost n p.document.max_task_seconds) (sym se)
              (minimum-AtMost task.timeout_seconds _ _
                (In-map (λ q. q.document.max_task_seconds) p policies m)),
          subst (λ n. AtMost n p.document.max_changed_files) (sym fi)
              (minimum-AtMost config.limit_changed_files _ _
                (In-map (λ q. q.document.max_changed_files) p policies m)),
        ),
      )

  bound-lem :
      (b.bound_task.prohibited_paths ≡ b.policy.prohibited_paths)
      × (b.bound_task.allow_network ≡ b.policy.allow_network)
  unfolding resolve_task_policy
  bound-lem =
      subst
        (λ (x : PolicyBoundTask).
          (x.bound_task.prohibited_paths ≡ x.policy.prohibited_paths)
          × (x.bound_task.allow_network ≡ x.policy.allow_network))
        (ok-injective (sym (pass _ loaded) ∙ resolved)) (refl, refl)

  -- The bound task prohibits a pattern exactly if the task or a loaded document prohibits it.
  pub resolve_task_policy-prohibited_paths :
      (path : String)
      → In path b.bound_task.prohibited_paths ↔ (
          In path task.prohibited_paths
          ⊎ ((p : LoadedPolicy) × In p policies × In path p.document.prohibited_paths))
  unfolding resolved_policy
  resolve_task_policy-prohibited_paths path =
      let list = bound-lem.0 ∙ ap (λ x. x.prohibited_paths) policy-lem.0 in
      let (to, from) = In-flat_map (λ p. p.document.prohibited_paths) path policies in
      let (unlisted, listed) =
        In-unique (task.prohibited_paths ++ flat_map (λ p. p.document.prohibited_paths) policies)
          path in
      (
        λ h.
            elim (In-append_inv path task.prohibited_paths _
              (unlisted (subst (λ l. In path l) list h))) [ inl m ↦ inl m | inr m ↦ inr (to m) ],
        λ h.
            subst (λ l. In path l) (sym list)
              (listed (elim h [
                | inl m ↦ In-append_left path task.prohibited_paths _ m
                | inr m ↦ In-append_right path task.prohibited_paths _ (from m)
              ])),
      )

  -- The bound task allows the network exactly if the task allows it and no loaded document denies it.
  pub resolve_task_policy-network : (b.bound_task.allow_network ≡ true) ↔ (
      (task.allow_network ≡ true)
      × ((p : LoadedPolicy) → In p policies → not_denied p.document.allow_network ≡ true))
  unfolding resolved_policy
  resolve_task_policy-network =
      let flag = bound-lem.1 ∙ ap (λ x. x.allow_network) policy-lem.0 in
      let (to, from) = all-In (λ p. not_denied p.document.allow_network) policies in
      (
        λ h. let (first, rest) = both_true task.allow_network _ (sym flag ∙ h) in (first, to rest),
        λ (h, k). flag ∙ true_both task.allow_network _ h (from k),
      )

  -- Whatever worker a route for the bound task holds, it keeps the constraints of each loaded document: its
  -- capabilities, its cost tier and its latency tier.
  pub routes-Keeps :
      (locale_compare : String → String → Ordering) (workers : HarnessConfig) (mode : WorkerMode)
      (routing : WorkerRoutingPolicy) (r : WorkerRoute) (c : WorkerRouteCandidate)
      (p : LoadedPolicy)
      → b.bound_task.routing ≡ some routing
      → route_workers locale_compare workers mode routing ≡ ok r
      → In c r.candidates
      → In p policies
      → Keeps p.document.routing c.worker
  routes-Keeps locale_compare workers mode routing r c p e h m n =
      let (_, bound_routing, _, _) = policy-lem in
      let taken = some-injective (sym e ∙ bound_routing) in
      let (_, fits) =
        (route_workers-candidates locale_compare workers mode routing r h c.worker).0
          (c, m, refl) in
      satisfies-Keeps mode (task_routing config task) policies p c.worker n (
        subst (λ x. worker_satisfies_policy mode (required_for mode x) x c.worker ≡ true) taken
          fits)
