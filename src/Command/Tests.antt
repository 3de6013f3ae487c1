-- ===== src/Command/Tests.antt =====
-- security/command-policy.ts: commands that are allowed and denied.
use agent_harness_os.Base.{
  same_text, String, ◌≡◌, refl, xor, true, false, none, some, List, [], ◌∷◌, codes, any, In,
  harness_error, ok, err,
}
use agent_harness_os.Domain.{CommandSpec}
use agent_harness_os.Command.{
  is_prohibited_argument, is_prohibited_script, is_package_manager, get_package_manager_action,
  assert_allowed,
}
use agent_harness_os.Command.Scripts.{
  is_destructive, segments, is_prohibited_script-segments, IsSafeAction,
  assert_allowed-IsSafeAction,
}

abbrev run_command : List String → CommandSpec
run_command args = record { command = "npm"; args = args; timeout_ms = none }

deploy_denied :
    assert_allowed ("npm" ∷ []) (run_command ("run" ∷ "app:Deploy" ∷ []))
    ≡ err (harness_error "COMMAND_SCRIPT_DENIED")
unfolding assert_allowed same_text xor
deploy_denied = refl

-- An argument that follows the word `--prefix` is not seen, one that is joined to it is.
separate_prefix :
    assert_allowed ("npm" ∷ []) (run_command ("run" ∷ "build" ∷ "--prefix" ∷ "/" ∷ [])) ≡ ok tt
unfolding assert_allowed same_text xor
separate_prefix = refl

joined_prefix :
    assert_allowed ("npm" ∷ []) (run_command ("run" ∷ "build" ∷ "--prefix=/" ∷ []))
    ≡ err (harness_error "COMMAND_ARGUMENT_DENIED")
unfolding assert_allowed same_text xor
joined_prefix = refl

abbrev prefixed : CommandSpec
prefixed = run_command ("run" ∷ "build" ∷ "--prefix" ∷ "/" ∷ [])

abbrev only_npm : List String
only_npm = "npm" ∷ []

assert_allowed-IsSafeAction_example :
    In prefixed.command only_npm
    × ((a : String) → In a prefixed.args → is_prohibited_argument a ≡ false)
    × ((action : String)
        → is_package_manager prefixed.command ≡ true
        → get_package_manager_action prefixed.args ≡ some action
        → IsSafeAction prefixed action)
assert_allowed-IsSafeAction_example = assert_allowed-IsSafeAction only_npm prefixed separate_prefix

is_prohibited_script-segments_example :
    is_prohibited_script "app:deploy" ≡ any is_destructive (segments (codes "app:deploy"))
is_prohibited_script-segments_example = is_prohibited_script-segments "app:deploy"
