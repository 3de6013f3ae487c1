-- ===== src/Policy/Tests.antt =====
-- policy/engine.ts: a task under one repository policy.
use agent_harness_os.Base.{
  same_text, utf16_length, ◌≤◌, String, ◌≡◌, refl, ◌↔◌, ◌⊎◌, inl, inr, xor, true, false, Option,
  none, some, List, [], ◌∷◌, ◌++◌, map, codes, In, ok,
}
use agent_harness_os.Domain.{
  testing, mode_capability, tool_calling, low, medium, standard, balanced, WorkerRoutingPolicy,
}
use agent_harness_os.Glob.{
  normalize_path, match_normalized_glob, match_glob, some_glob, matches_any_glob,
}
use agent_harness_os.Paths.{
  PathPolicy, new_path_policy, normalize_and_validate_relative_path, assert_allowed_with_budget,
  assert_writable, regular_file, FileSystem, assert_safe_entry, assert_safe_changed_path,
}
use agent_harness_os.Paths.Defaults.{default_prohibited_paths, default_write_prohibited_paths}
use agent_harness_os.Paths.Safe.{Fits}
use agent_harness_os.Router.{
  WorkerConfig, HarnessConfig, balanced_reason, WorkerRouteCandidate, WorkerRoute, Ordering, same,
  route_workers,
}
use agent_harness_os.Runner.{ExecutionConfig, assert_local_execution, container_network}
use agent_harness_os.Policy.Documents.{
  Json, whole_number, text, array, object, no_items, item, Fields, empty_object, field,
  PolicyRoutingConstraints, PolicyDocument, parse_policy_document,
}
use agent_harness_os.Policy.Documents.Bounds.{IsBounded, parse_policy_document-IsBounded}
use agent_harness_os.Policy.Resolution.{
  repository, LoadedPolicy, PolicyConfig, WorkerTask, ResolvedPolicy, PolicyBoundTask, minimum,
  reduce_tier, strictest_tier, not_denied, task_routing, effective_task_routing, resolved_policy,
  load_policies, resolve_task_policy,
}
use agent_harness_os.Policy.Resolution.Strictness.{
  AtMost, Keeps, resolve_task_policy-limits, routes-Keeps,
}
use agent_harness_os.Policy.Resolution.Enforcement.{changed_path_keeps_policy, commands_keep_policy}

abbrev parsed_fields : Fields
parsed_fields = field "schemaVersion" (whole_number 1) (
    field "maxIterations" (whole_number 3) (
      field "prohibitedPaths" (array (item (text "secrets/**") no_items))
        (field "routing" (object (field "maxCostTier" (text "medium") empty_object)) empty_object)))

abbrev parse_example : String → Option Json
parse_example s = some (object parsed_fields)

abbrev example_constraints : PolicyRoutingConstraints
example_constraints = record {
  required_capabilities = [];
  max_cost_tier = some medium;
  max_latency_tier = none;
  allow_fallback = none;
  max_attempts = none;
}

abbrev example_document : PolicyDocument
example_document = record {
  max_changed_files = none;
  max_iterations = some 3;
  max_task_seconds = none;
  allow_network = none;
  prohibited_paths = "secrets/**" ∷ [];
  routing = example_constraints;
}

document_parsed : parse_policy_document parse_example "{}" ≡ ok example_document
unfolding parse_policy_document same_text utf16_length xor
document_parsed = refl

parse_policy_document-IsBounded_example : IsBounded example_document
parse_policy_document-IsBounded_example =
    parse_policy_document-IsBounded parse_example "{}" example_document document_parsed

abbrev digest_of : String → String
digest_of s = "digest"

abbrev loaded_policy : LoadedPolicy
loaded_policy = record {
  document = example_document;
  source = record { scope = repository; location = ".agent-os/policy.json"; sha256 = "digest" };
}

abbrev loaded_list : List LoadedPolicy
loaded_list = loaded_policy ∷ []

abbrev example_config : PolicyConfig
example_config = record {
  default_strategy = balanced;
  default_max_attempts = 2;
  limit_changed_files = 50;
}

abbrev example_task : WorkerTask
example_task = record {
  prohibited_paths = ".git/**" ∷ [];
  max_iterations = 8;
  timeout_seconds = 600;
  allow_network = true;
  routing = none;
}

policies_loaded : load_policies parse_example digest_of none (some "{}") ≡ ok loaded_list
unfolding load_policies parse_policy_document same_text utf16_length xor
policies_loaded = refl

abbrev bound_routing : WorkerRoutingPolicy
bound_routing = effective_task_routing (task_routing example_config example_task) loaded_list

abbrev text_of : ResolvedPolicy → String
text_of p = "{}"

abbrev bound_example : PolicyBoundTask
bound_example = record {
  bound_task = record {
    prohibited_paths = (resolved_policy example_config example_task loaded_list).prohibited_paths;
    max_iterations = (resolved_policy example_config example_task loaded_list).max_iterations;
    timeout_seconds = (resolved_policy example_config example_task loaded_list).max_task_seconds;
    allow_network = (resolved_policy example_config example_task loaded_list).allow_network;
    routing = some bound_routing;
  };
  policy = resolved_policy example_config example_task loaded_list;
  digest = "digest";
}

task_bound :
    resolve_task_policy parse_example digest_of text_of example_config none (some "{}") example_task
    ≡ ok bound_example
unfolding resolve_task_policy load_policies parse_policy_document same_text utf16_length xor
task_bound = refl

resolve_task_policy-limits_example :
    (bound_example.bound_task.max_iterations ≤ 8)
    × (bound_example.bound_task.timeout_seconds ≤ 600)
    × (bound_example.policy.max_changed_files ≤ 50)
    × ((p : LoadedPolicy)
        → In p loaded_list
        → AtMost bound_example.bound_task.max_iterations p.document.max_iterations
          × AtMost bound_example.bound_task.timeout_seconds p.document.max_task_seconds
          × AtMost bound_example.policy.max_changed_files p.document.max_changed_files)
resolve_task_policy-limits_example =
    resolve_task_policy-limits parse_example digest_of text_of example_config none (some "{}")
      example_task loaded_list bound_example policies_loaded task_bound

abbrev bound_paths : PathPolicy
bound_paths = record {
  allowed_paths = codes "src/**" ∷ [];
  prohibited_paths =
      map codes default_prohibited_paths ++ map codes bound_example.bound_task.prohibited_paths;
  write_prohibited_paths = map codes default_write_prohibited_paths;
}

bound_paths_made :
    new_path_policy (codes "src/**" ∷ []) (map codes bound_example.bound_task.prohibited_paths)
    ≡ ok bound_paths
unfolding new_path_policy
bound_paths_made = refl

-- A repository in which every path is a regular file with one link.
abbrev bound_files : FileSystem
bound_files = record {
  resolve = λ path. path;
  relative_to_root = λ path. path;
  lstat = λ path. regular_file 1;
}

source_accepted :
    assert_safe_changed_path (λ path. path) bound_files bound_paths (codes "src/a")
    ≡ some (ok (codes "src/a"))
unfolding assert_safe_changed_path assert_writable assert_allowed_with_budget assert_safe_entry
    normalize_and_validate_relative_path matches_any_glob some_glob match_glob normalize_path
    match_normalized_glob resolved_policy same_text
source_accepted = refl

changed_path_keeps_policy_example : ¬ Fits (codes "secrets/**") (codes "src/a")
changed_path_keeps_policy_example =
    changed_path_keeps_policy parse_example digest_of text_of example_config none (some "{}")
      example_task loaded_list bound_example policies_loaded task_bound (λ path. path) bound_files
      (codes "src/**" ∷ []) bound_paths (codes "src/a") (codes "src/a") "secrets/**"
      bound_paths_made source_accepted (inr (loaded_policy, inl refl, inl refl))

abbrev bridge_execution : ExecutionConfig
bridge_execution = record { allow_unsandboxed_local = true; docker_network = "bridge" }

abbrev ExampleNetwork : Type 0
ExampleNetwork =
    (true ≡ true)
    × ((p : LoadedPolicy) → In p loaded_list → not_denied p.document.allow_network ≡ true)

commands_keep_policy_example :
    ((assert_local_execution bridge_execution bound_example.bound_task ≡ ok tt)
      ↔ ((true ≡ true) × ExampleNetwork))
    × ((ExampleNetwork × (container_network bridge_execution bound_example.bound_task ≡ "bridge"))
        ⊎ ((¬ ExampleNetwork)
            × (container_network bridge_execution bound_example.bound_task ≡ "none")))
commands_keep_policy_example =
    commands_keep_policy parse_example digest_of text_of example_config none (some "{}")
      example_task loaded_list bound_example policies_loaded task_bound bridge_execution

abbrev capable_worker : WorkerConfig
capable_worker = record {
  id = "a";
  enabled = true;
  capabilities = mode_capability testing ∷ tool_calling ∷ [];
  priority = 50;
  cost_tier = low;
  latency_tier = standard;
  configuration_issues = [];
  profile = none;
}

abbrev one_worker : HarnessConfig
one_worker = record { workers = capable_worker ∷ []; default_worker_id = none; max_attempts = 3 }

abbrev all_same : String → String → Ordering
all_same a b = same

abbrev only_candidate : WorkerRouteCandidate
only_candidate = record {
  worker = capable_worker;
  score = 20000;
  reasons = balanced_reason 50 low standard ∷ [];
}

abbrev only_route : WorkerRoute
only_route = record {
  strategy = balanced;
  required_capabilities = mode_capability testing ∷ tool_calling ∷ [];
  candidates = only_candidate ∷ [];
  max_attempts = 1;
  fallback_enabled = false;
}

route_found : route_workers all_same one_worker testing bound_routing ≡ ok only_route
unfolding route_workers effective_task_routing task_routing strictest_tier reduce_tier minimum
    same_text xor
route_found = refl

routes-Keeps_example : Keeps example_constraints capable_worker
routes-Keeps_example =
    routes-Keeps parse_example digest_of text_of example_config none (some "{}") example_task
      loaded_list bound_example policies_loaded task_bound all_same one_worker testing bound_routing
      only_route only_candidate loaded_policy refl route_found (inl refl) (inl refl)
