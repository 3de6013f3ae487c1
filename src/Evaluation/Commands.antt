-- ===== src/Evaluation/Commands.antt =====
-- evaluation/deterministic.ts, `classifyValidationCommand`: what a required command is evidence of. Texts
-- are lists of code points.
use agent_harness_os.Base.{
  ℕ, ◌+◌, String, Bool, true, false, not, ◌&&◌, ◌||◌, Option, none, some, List, [], ◌∷◌, ◌++◌, map,
  leb, nat_beq, if◌then◌else◌, nat_eq, string_eq, option_eq, codes, get_elem?, any, set_add,
}
use agent_harness_os.Task.Types.{
  EvaluationDimensionId, tests, lint, typecheck, call_eq, validation_eq, evaluation_eq, policy_eq,
  task_status_eq, application_eq, dimension_eq,
}
use agent_harness_os.Domain.{CommandSpec, worker_mode_eq, capability_eq, run_status_eq}

-- `toLowerCase` as far as the tests below can tell: of the other characters only the Kelvin sign
-- (8490) has a letter from a to z as its lower case, and `İ` (304) gives two characters.
abbrev pub lower_case : ℕ → ℕ
lower_case c = if leb 65 c && leb c 90 then c + 32 else (if nat_beq c 8490 then 107 else c)

abbrev pub same_codes : List ℕ → List ℕ → Bool
same_codes [] [] = true
same_codes [] (c ∷ cs) = false
same_codes (c ∷ cs) [] = false
same_codes (c ∷ cs) (d ∷ ds) = nat_beq c d && same_codes cs ds

abbrev pub is_text : List ℕ → String → Bool
is_text cs s = same_codes cs (codes s)

abbrev pub is_one_of : List ℕ → List String → Bool
is_one_of cs texts = any (λ s. is_text cs s) texts

abbrev pub lowered : List ℕ → List ℕ
lowered cs = map lower_case cs

-- `split(/[\\/]/).at(-1)`
abbrev pub last_segment : List ℕ → List ℕ → List ℕ
last_segment so_far [] = so_far
last_segment so_far (c ∷ cs) =
    if nat_beq c b'/' || nat_beq c 92
    then last_segment [] cs
    else last_segment (so_far ++ c ∷ []) cs

-- `replace(/\.(?:cmd|exe)$/i, '')`
abbrev pub fold_ascii : ℕ → ℕ
fold_ascii c = if leb 65 c && leb c 90 then c + 32 else c

abbrev pub without_extension : List ℕ → List ℕ
without_extension [] = []
without_extension (c ∷ cs) =
    if is_one_of (map fold_ascii (c ∷ cs)) (".cmd" ∷ ".exe" ∷ [])
    then []
    else c ∷ without_extension cs

unfoldable pub command_name : String → List ℕ
command_name command = lowered (without_extension (last_segment [] (codes command)))

abbrev pub argument_is : List (List ℕ) → ℕ → String → Bool
argument_is args i s = elim (get_elem? args i) [ none ↦ false | some a ↦ is_text a s ]

unfoldable pub package_script : List ℕ → List (List ℕ) → Option (List ℕ)
package_script command args =
    if not (is_one_of command ("npm" ∷ "pnpm" ∷ "yarn" ∷ "bun" ∷ []))
    then none
    else if argument_is args 0 "test"
    then some (codes "test")
    else if argument_is args 0 "run"
    then get_elem? args 1
    else get_elem? args 0

-- A pattern `(^|[:_-])(…|…)([:_-]|$)`.
abbrev pub is_separator : ℕ → Bool
is_separator c = nat_beq c b':' || nat_beq c b'_' || nat_beq c b'-'

abbrev pub ends_here : List ℕ → Bool
ends_here [] = true
ends_here (c ∷ cs) = is_separator c

abbrev pub part_here : List ℕ → List ℕ → Bool
part_here [] cs = ends_here cs
part_here (w ∷ ws) [] = false
part_here (w ∷ ws) (c ∷ cs) = nat_beq c w && part_here ws cs

unfoldable pub has_part : List String → Bool → List ℕ → Bool
has_part words at_start [] = false
has_part words at_start (c ∷ cs) =
    (at_start && any (λ w. part_here (codes w) (c ∷ cs)) words)
    || has_part words (is_separator c) cs

abbrev pub script_has : Option (List ℕ) → List String → Bool
script_has none words = false
script_has (some script) words = has_part words true script

abbrev pub is_test_runner : List ℕ → List (List ℕ) → Bool
is_test_runner command args =
    (is_one_of command ("vitest" ∷ "jest" ∷ "mocha" ∷ "pytest" ∷ "cargo" ∷ "go" ∷ "dotnet" ∷ [])
      || (is_text command "node" && any (λ a. is_text a "--test") args))
    && (not (is_one_of command ("cargo" ∷ "go" ∷ "dotnet" ∷ [])) || argument_is args 0 "test")

abbrev pub is_linter : List ℕ → List (List ℕ) → Bool
is_linter command args =
    is_one_of command ("eslint" ∷ "stylelint" ∷ "ruff" ∷ "golangci-lint" ∷ [])
    || (is_text command "biome" && (argument_is args 0 "check" || argument_is args 0 "lint"))

abbrev pub add_if :
    Bool → EvaluationDimensionId → List EvaluationDimensionId → List EvaluationDimensionId
add_if b d ds = if b then set_add ds d else ds

unfoldable pub classify_validation_command : CommandSpec → List EvaluationDimensionId
classify_validation_command specification =
    let command = command_name specification.command in
    let args = map (λ a. lowered (codes a)) specification.args in
    let script = package_script command args in
    add_if (script_has script ("typecheck" ∷ "type-check" ∷ "check-types" ∷ "tsc" ∷ [])) typecheck (
      add_if (script_has script ("lint" ∷ "eslint" ∷ "stylelint" ∷ [])) lint (
        add_if (script_has script ("test" ∷ "tests" ∷ "spec" ∷ "specs" ∷ [])) tests (
          add_if (is_one_of command ("tsc" ∷ "mypy" ∷ "pyright" ∷ [])) typecheck (
            add_if (is_linter command args) lint (add_if (is_test_runner command args) tests [])))))
