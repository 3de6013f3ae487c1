-- ===== src/Policy/Documents.antt =====
-- policy/engine.ts: reading a policy document. `JSON.parse` is a parameter. Where a text names a key twice,
-- its object holds the last value only, so the keys of an object differ.
pub mod Bounds
use agent_harness_os.Base.{
  ℕ, suc, String, Bool, true, false, not, ◌&&◌, Option, none, some, List, [], ◌∷◌, ltb, leb,
  if◌then◌else◌, ◌==◌, nat_eq, string_eq, option_eq, codes, length, contains, unique, utf16_length,
  HarnessError, harness_error, Result, ok, err, ◌>>=◌, ◌>>◌, throw_if,
}
use agent_harness_os.Domain.{
  research, implementation, testing, review, WorkerCapability, mode_capability, tool_calling,
  long_context, private_use, WorkerCostTier, low, medium, high, WorkerLatencyTier, fast, standard,
  slow, worker_mode_eq, capability_eq, run_status_eq,
}

mutual
  pub data Json : Type 0 where
    null_value : Json
    boolean_value : Bool → Json
    -- An integer of at least 0, and any other number.
    whole_number : ℕ → Json
    other_number : Json
    text : String → Json
    array : Items → Json
    object : Fields → Json

  pub data Items : Type 0 where
    no_items : Items
    item : Json → Items → Items

  pub data Fields : Type 0 where
    empty_object : Fields
    field : String → Json → Fields → Fields

pub record PolicyRoutingConstraints : Type 0 where
  pub required_capabilities : List WorkerCapability
  pub max_cost_tier : Option WorkerCostTier
  pub max_latency_tier : Option WorkerLatencyTier
  pub allow_fallback : Option Bool
  pub max_attempts : Option ℕ

pub record PolicyDocument : Type 0 where
  pub max_changed_files : Option ℕ
  pub max_iterations : Option ℕ
  pub max_task_seconds : Option ℕ
  pub allow_network : Option Bool
  pub prohibited_paths : List String
  pub routing : PolicyRoutingConstraints

abbrev pub invalid_policy : HarnessError
invalid_policy = harness_error "INVALID_POLICY"

-- `value[key]`, where `none` is `undefined`.
pub get_field : Fields → String → Option Json
get_field empty_object key = none
get_field (field k v fs) key = if k == key then some v else get_field fs key

pub has_only_keys : Fields → List String → Bool
has_only_keys empty_object allowed = true
has_only_keys (field k v fs) allowed = contains allowed k && has_only_keys fs allowed

pub optional_integer : ℕ → ℕ → Option Json → Result (Option ℕ)
optional_integer minimum maximum none = ok none
optional_integer minimum maximum (some (whole_number n)) =
    throw_if (not (leb minimum n && leb n maximum)) invalid_policy >>= λ _. ok (some n)
optional_integer minimum maximum (some value) = err invalid_policy

pub optional_boolean : Option Json → Result (Option Bool)
optional_boolean none = ok none
optional_boolean (some (boolean_value b)) = ok (some b)
optional_boolean (some value) = err invalid_policy

-- One item of `isBoundedStringArray`.
pub bounded_text : ℕ → Json → Option String
bounded_text max_item_length (text s) =
    if leb 1 (utf16_length s) && leb (utf16_length s) max_item_length && not (contains (codes s) 0)
    then some s
    else none
bounded_text max_item_length value = none

pub add_item : {A : Type 0} → Option A → Option (List A) → Option (List A)
add_item none rest = none
add_item (some a) none = none
add_item (some a) (some rest) = some (a ∷ rest)

-- The items of an array, if each of them is read.
pub read_items : {A : Type 0} → (Json → Option A) → Items → Option (List A)
read_items read no_items = some []
read_items read (item value items) = add_item (read value) (read_items read items)

pub or_invalid : {A : Type 0} → Option A → Result A
or_invalid none = err invalid_policy
or_invalid (some a) = ok a

abbrev pub count_items : Items → ℕ
count_items no_items = 0
count_items (item value items) = suc (count_items items)

pub optional_string_array : ℕ → ℕ → Option Json → Result (List String)
optional_string_array max_items max_item_length none = ok []
optional_string_array max_items max_item_length (some (array items)) =
    throw_if (ltb max_items (count_items items)) invalid_policy
    >> (or_invalid (read_items (bounded_text max_item_length) items) >>= λ texts. ok (unique texts))
optional_string_array max_items max_item_length (some value) = err invalid_policy

pub worker_capability : Json → Option WorkerCapability
worker_capability (text s) =
    if s == "research"
    then some (mode_capability research)
    else if s == "implementation"
    then some (mode_capability implementation)
    else if s == "testing"
    then some (mode_capability testing)
    else if s == "review"
    then some (mode_capability review)
    else if s == "tool-calling"
    then some tool_calling
    else if s == "long-context"
    then some long_context
    else if s == "private"
    then some private_use
    else none
worker_capability value = none

pub parse_capabilities : Option Json → Result (List WorkerCapability)
parse_capabilities none = ok []
parse_capabilities (some (array items)) =
    throw_if (ltb 16 (count_items items)) invalid_policy
    >> (or_invalid (read_items worker_capability items) >>= λ capabilities.
        throw_if (not (length (unique capabilities) == length capabilities)) invalid_policy
        >> ok capabilities)
parse_capabilities (some value) = err invalid_policy

pub optional_cost_tier : Option Json → Result (Option WorkerCostTier)
optional_cost_tier none = ok none
optional_cost_tier (some (text s)) =
    if s == "low"
    then ok (some low)
    else if s == "medium"
    then ok (some medium)
    else if s == "high"
    then ok (some high)
    else err invalid_policy
optional_cost_tier (some value) = err invalid_policy

pub optional_latency_tier : Option Json → Result (Option WorkerLatencyTier)
optional_latency_tier none = ok none
optional_latency_tier (some (text s)) =
    if s == "fast"
    then ok (some fast)
    else if s == "standard"
    then ok (some standard)
    else if s == "slow"
    then ok (some slow)
    else err invalid_policy
optional_latency_tier (some value) = err invalid_policy

abbrev pub routing_keys : List String
routing_keys =
    "requiredCapabilities" ∷ "maxCostTier" ∷ "maxLatencyTier" ∷ "allowFallback" ∷ "maxAttempts" ∷ []

abbrev pub document_keys : List String
document_keys =
    "schemaVersion" ∷ "maxChangedFiles" ∷ "maxIterations" ∷ "maxTaskSeconds" ∷ "allowNetwork"
    ∷ "prohibitedPaths" ∷ "routing" ∷ []

abbrev pub no_routing_constraints : PolicyRoutingConstraints
no_routing_constraints = record {
  required_capabilities = [];
  max_cost_tier = none;
  max_latency_tier = none;
  allow_fallback = none;
  max_attempts = none;
}

pub parse_routing_constraints : Option Json → Result PolicyRoutingConstraints
parse_routing_constraints none = ok no_routing_constraints
parse_routing_constraints (some (object entries)) =
    throw_if (not (has_only_keys entries routing_keys)) invalid_policy
    >> (parse_capabilities (get_field entries "requiredCapabilities") >>= λ required_capabilities.
        optional_cost_tier (get_field entries "maxCostTier") >>= λ max_cost_tier.
        optional_latency_tier (get_field entries "maxLatencyTier") >>= λ max_latency_tier.
        optional_boolean (get_field entries "allowFallback") >>= λ allow_fallback.
        optional_integer 1 8 (get_field entries "maxAttempts") >>= λ max_attempts. ok (record {
          required_capabilities = required_capabilities;
          max_cost_tier = max_cost_tier;
          max_latency_tier = max_latency_tier;
          allow_fallback = allow_fallback;
          max_attempts = max_attempts;
        }))
parse_routing_constraints (some value) = err invalid_policy

pub is_version_one : Option Json → Bool
is_version_one (some (whole_number n)) = n == 1
is_version_one value = false

pub read_policy_document : Option Json → Result PolicyDocument
read_policy_document (some (object entries)) =
    throw_if
      (not
        (has_only_keys entries document_keys && is_version_one (get_field entries "schemaVersion")))
      invalid_policy
    >> (optional_integer 1 10000 (get_field entries "maxChangedFiles") >>= λ max_changed_files.
        optional_integer 1 64 (get_field entries "maxIterations") >>= λ max_iterations.
        optional_integer 30 3600 (get_field entries "maxTaskSeconds") >>= λ max_task_seconds.
        optional_boolean (get_field entries "allowNetwork") >>= λ allow_network.
        optional_string_array 100 1024 (get_field entries "prohibitedPaths") >>= λ prohibited_paths.
        parse_routing_constraints (get_field entries "routing") >>= λ routing. ok (record {
          max_changed_files = max_changed_files;
          max_iterations = max_iterations;
          max_task_seconds = max_task_seconds;
          allow_network = allow_network;
          prohibited_paths = prohibited_paths;
          routing = routing;
        }))
read_policy_document value = err invalid_policy

unfoldable pub parse_policy_document : (String → Option Json) → String → Result PolicyDocument
unfolding read_policy_document parse_routing_constraints optional_integer optional_boolean
    optional_string_array parse_capabilities optional_cost_tier optional_latency_tier get_field
    has_only_keys is_version_one or_invalid read_items add_item bounded_text worker_capability
parse_policy_document parse_json contents = read_policy_document (parse_json contents)
