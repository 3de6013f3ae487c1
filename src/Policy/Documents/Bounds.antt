-- ===== src/Policy/Documents/Bounds.antt =====
-- policy/engine.ts: the numbers and the lists of a policy document are within the bounds of the format.
use agent_harness_os.Base.{
  ℕ, suc, ◌+◌, ◌≤◌, String, ◌≡◌, refl, ap, subst, not, Option, none, some, List, [], ◌∷◌, arith,
  ltb, Eq, ◌==◌, nat_eq, string_eq, option_eq, ltb-eq-false, length, length-append, set_add,
  set_from, unique, ok, >>=-eq-ok, Ensures, Ensures-guarded, Ensures-ok, ok-injective, throw_if_inv,
}
use agent_harness_os.Domain.{WorkerCapability, worker_mode_eq, capability_eq, run_status_eq}
use agent_harness_os.Policy.Documents.{
  Json, null_value, boolean_value, whole_number, other_number, text, array, object, Items, no_items,
  item, PolicyRoutingConstraints, PolicyDocument, invalid_policy, get_field, has_only_keys,
  optional_integer, optional_boolean, bounded_text, add_item, read_items, or_invalid, count_items,
  optional_string_array, worker_capability, parse_capabilities, optional_cost_tier,
  optional_latency_tier, routing_keys, parse_routing_constraints, read_policy_document,
  parse_policy_document,
}

-- A number that is set is in a range.
abbrev pub Within : ℕ → ℕ → Option ℕ → Type 0
Within minimum maximum none = Unit
Within minimum maximum (some n) = (minimum ≤ n) × (n ≤ maximum)

pub record IsBounded (d : PolicyDocument) : Type 0 where
  pub changed_files : Within 1 10000 d.max_changed_files
  pub iterations : Within 1 64 d.max_iterations
  pub task_seconds : Within 30 3600 d.max_task_seconds
  pub attempts : Within 1 8 d.routing.max_attempts
  pub path_count : length d.prohibited_paths ≤ 100
  pub capability_count : length d.routing.required_capabilities ≤ 16

optional_integer-Within :
    (minimum maximum : ℕ) (value : Option Json)
    → Ensures (Within minimum maximum) (optional_integer minimum maximum value)
unfolding optional_integer
optional_integer-Within minimum maximum none = tt
optional_integer-Within minimum maximum (some (whole_number n)) =
    Ensures-guarded (Within minimum maximum) _ invalid_policy (some n) (λ h. ground arith)
optional_integer-Within minimum maximum (some null_value) = tt
optional_integer-Within minimum maximum (some (boolean_value b)) = tt
optional_integer-Within minimum maximum (some other_number) = tt
optional_integer-Within minimum maximum (some (text s)) = tt
optional_integer-Within minimum maximum (some (array items)) = tt
optional_integer-Within minimum maximum (some (object entries)) = tt

add_item-some :
    {A : Type 0} (first : Option A) (others : Option (List A)) (xs : List A)
    → add_item first others ≡ some xs
    → (rest : List A) × (others ≡ some rest) × (length xs ≡ suc (length rest))
unfolding add_item
add_item-some none others xs h = absurd (cc)
add_item-some (some a) none xs h = absurd (cc)
add_item-some (some a) (some rest) xs h = (rest, refl, ground arith)

or_invalid-ok : {A : Type 0} (o : Option A) (a : A) → or_invalid o ≡ ok a → o ≡ some a
unfolding or_invalid
or_invalid-ok none a h = absurd (cc)
or_invalid-ok (some b) a h = ap some (ok-injective h)

read_items-count :
    {A : Type 0} (read : Json → Option A) (items : Items) (xs : List A)
    → read_items read items ≡ some xs
    → length xs ≡ count_items items
unfolding read_items
read_items-count read no_items xs h = ground arith
read_items-count read (item value items) xs h =
    let (rest, e, grown) = add_item-some (read value) (read_items read items) xs h in
    ground (arith, read_items-count read items rest e)

length-set_from :
    {A : Type 0} ⦃e : Eq A⦄ (seen xs : List A) → length (set_from seen xs) ≤ length seen + length xs
length-set_from seen [] = omega arith
length-set_from seen (x ∷ xs) =
    ground (arith, length-set_from (set_add seen x) xs, length-append seen (x ∷ []))

strings-bound :
    (max_items max_item_length : ℕ) (value : Option Json) (xs : List String)
    → optional_string_array max_items max_item_length value ≡ ok xs
    → length xs ≤ max_items
unfolding optional_string_array
strings-bound max_items max_item_length none xs h = ground arith
strings-bound max_items max_item_length (some (array items)) xs h =
    let (few, read) = throw_if_inv (ltb max_items (count_items items)) invalid_policy _ h in
    let (texts, found, built) =
      >>=-eq-ok (or_invalid (read_items (bounded_text max_item_length) items)) _ read in
    let count = read_items-count _ items texts (or_invalid-ok _ texts found) in
    subst (λ l. length l ≤ max_items) (ok-injective built)
      (omega (arith, length-set_from [] texts, count, ltb-eq-false few))
strings-bound max_items max_item_length (some null_value) xs h = absurd (cc)
strings-bound max_items max_item_length (some (boolean_value b)) xs h = absurd (cc)
strings-bound max_items max_item_length (some other_number) xs h = absurd (cc)
strings-bound max_items max_item_length (some (text s)) xs h = absurd (cc)
strings-bound max_items max_item_length (some (whole_number n)) xs h = absurd (cc)
strings-bound max_items max_item_length (some (object entries)) xs h = absurd (cc)

capabilities-bound :
    (value : Option Json) (cs : List WorkerCapability)
    → parse_capabilities value ≡ ok cs
    → length cs ≤ 16
unfolding parse_capabilities
capabilities-bound none cs h = ground arith
capabilities-bound (some (array items)) cs h =
    let (few, rest) = throw_if_inv (ltb 16 (count_items items)) invalid_policy _ h in
    let (found, e, checked) = >>=-eq-ok (or_invalid (read_items worker_capability items)) _ rest in
    let (_, built) =
      throw_if_inv (not (length (unique found) == length found)) invalid_policy _ checked in
    let count = read_items-count worker_capability items found (or_invalid-ok _ found e) in
    subst (λ l. length l ≤ 16) (ok-injective built) (omega (arith, count, ltb-eq-false few))
capabilities-bound (some null_value) cs h = absurd (cc)
capabilities-bound (some (boolean_value b)) cs h = absurd (cc)
capabilities-bound (some other_number) cs h = absurd (cc)
capabilities-bound (some (text s)) cs h = absurd (cc)
capabilities-bound (some (whole_number n)) cs h = absurd (cc)
capabilities-bound (some (object entries)) cs h = absurd (cc)

abbrev RoutingBounds : PolicyRoutingConstraints → Type 0
RoutingBounds r = Within 1 8 r.max_attempts × (length r.required_capabilities ≤ 16)

routing-bounds :
    (value : Option Json) (r : PolicyRoutingConstraints)
    → parse_routing_constraints value ≡ ok r
    → RoutingBounds r
unfolding parse_routing_constraints
routing-bounds none r h = subst RoutingBounds (ok-injective h) (tt, omega arith)
routing-bounds (some (object entries)) r h =
    let (_, parsed) = throw_if_inv (not (has_only_keys entries routing_keys)) invalid_policy _ h in
    let (capabilities, few, h1) =
      >>=-eq-ok (parse_capabilities (get_field entries "requiredCapabilities")) _ parsed in
    let (cost_tier, _, h2) =
      >>=-eq-ok (optional_cost_tier (get_field entries "maxCostTier")) _ h1 in
    let (latency_tier, _, h3) =
      >>=-eq-ok (optional_latency_tier (get_field entries "maxLatencyTier")) _ h2 in
    let (fallback, _, h4) = >>=-eq-ok (optional_boolean (get_field entries "allowFallback")) _ h3 in
    let (attempts, some_left, h5) =
      >>=-eq-ok (optional_integer 1 8 (get_field entries "maxAttempts")) _ h4 in
    subst RoutingBounds (ok-injective h5) (
      Ensures-ok (Within 1 8) _ (optional_integer-Within 1 8 (get_field entries "maxAttempts"))
          some_left,
      capabilities-bound (get_field entries "requiredCapabilities") capabilities few,
    )
routing-bounds (some null_value) r h = absurd (cc)
routing-bounds (some (boolean_value b)) r h = absurd (cc)
routing-bounds (some other_number) r h = absurd (cc)
routing-bounds (some (text s)) r h = absurd (cc)
routing-bounds (some (whole_number n)) r h = absurd (cc)
routing-bounds (some (array items)) r h = absurd (cc)

read_policy_document-IsBounded :
    (value : Option Json) (d : PolicyDocument) → read_policy_document value ≡ ok d → IsBounded d
unfolding read_policy_document
read_policy_document-IsBounded (some (object entries)) d h =
    let (_, parsed) = throw_if_inv _ invalid_policy _ h in
    let (files, e1, h1) =
      >>=-eq-ok (optional_integer 1 10000 (get_field entries "maxChangedFiles")) _ parsed in
    let (iterations, e2, h2) =
      >>=-eq-ok (optional_integer 1 64 (get_field entries "maxIterations")) _ h1 in
    let (seconds, e3, h3) =
      >>=-eq-ok (optional_integer 30 3600 (get_field entries "maxTaskSeconds")) _ h2 in
    let (network, _, h4) = >>=-eq-ok (optional_boolean (get_field entries "allowNetwork")) _ h3 in
    let (paths, e5, h5) =
      >>=-eq-ok (optional_string_array 100 1024 (get_field entries "prohibitedPaths")) _ h4 in
    let (routing, e6, h6) =
      >>=-eq-ok (parse_routing_constraints (get_field entries "routing")) _ h5 in
    let (attempts, capabilities) = routing-bounds (get_field entries "routing") routing e6 in
    subst IsBounded (ok-injective h6) (record {
      changed_files =
          Ensures-ok (Within 1 10000) _
            (optional_integer-Within 1 10000 (get_field entries "maxChangedFiles")) e1;
      iterations =
          Ensures-ok (Within 1 64) _
            (optional_integer-Within 1 64 (get_field entries "maxIterations")) e2;
      task_seconds =
          Ensures-ok (Within 30 3600) _
            (optional_integer-Within 30 3600 (get_field entries "maxTaskSeconds")) e3;
      attempts = attempts;
      path_count = strings-bound 100 1024 (get_field entries "prohibitedPaths") paths e5;
      capability_count = capabilities;
    })
read_policy_document-IsBounded none d h = absurd (cc)
read_policy_document-IsBounded (some null_value) d h = absurd (cc)
read_policy_document-IsBounded (some (boolean_value b)) d h = absurd (cc)
read_policy_document-IsBounded (some other_number) d h = absurd (cc)
read_policy_document-IsBounded (some (text s)) d h = absurd (cc)
read_policy_document-IsBounded (some (whole_number n)) d h = absurd (cc)
read_policy_document-IsBounded (some (array items)) d h = absurd (cc)

-- A policy document that is accepted sets only limits within the bounds of the format: 1 to 10,000 changed
-- files, 1 to 64 iterations, 30 to 3,600 seconds, 1 to 8 attempts, at most 100 prohibited paths and at
-- most 16 capabilities, whatever text it was read from.
pub parse_policy_document-IsBounded :
    (parse_json : String → Option Json) (contents : String) (d : PolicyDocument)
    → parse_policy_document parse_json contents ≡ ok d
    → IsBounded d
unfolding parse_policy_document
parse_policy_document-IsBounded parse_json contents d h =
    read_policy_document-IsBounded (parse_json contents) d h
