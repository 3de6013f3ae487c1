-- ===== src/Command.antt =====
-- security/command-policy.ts: which commands a worker may run. A regular expression is a function on the
-- code points of a text; the flag `i` folds the letters A to Z.
pub mod Scripts
pub mod Tests
use agent_harness_os.Base.{
  ℕ, ◌+◌, String, Bool, true, false, not, ◌&&◌, ◌||◌, Option, none, some, List, [], ◌∷◌, leb,
  if◌then◌else◌, ◌==◌, nat_eq, string_eq, option_eq, codes, any, filter, contains, harness_error,
  Result, ok, ◌>>◌, throw_if,
}
use agent_harness_os.Domain.{CommandSpec, worker_mode_eq, capability_eq, run_status_eq}

abbrev pub colon : ℕ
colon = b':'

abbrev pub dash : ℕ
dash = b'-'

abbrev pub to_lower : ℕ → ℕ
to_lower c = if leb 65 c && leb c 90 then c + 32 else c

-- `\s`
pub is_space : ℕ → Bool
is_space c =
    (leb 9 c && leb c 13)
    || c == 32
    || c == 160
    || c == 5760
    || (leb 8192 c && leb c 8202)
    || contains (8232 ∷ 8233 ∷ 8239 ∷ 8287 ∷ 12288 ∷ 65279 ∷ []) c

-- One of `prohibitedArgumentPatterns`: the word, and what may follow it beside white space.
pub record ArgumentPattern : Type 0 where
  pub word : List ℕ
  pub equals_follows : Bool
  pub end_follows : Bool

abbrev argument_pattern : String → Bool → Bool → ArgumentPattern
argument_pattern word equals_follows end_follows = record {
  word = codes word;
  equals_follows = equals_follows;
  end_follows = end_follows;
}

pub prohibited_argument_patterns : List ArgumentPattern
prohibited_argument_patterns =
    argument_pattern "prefix" true false
    ∷ argument_pattern "global" true true
    ∷ argument_pattern "location=global" false true
    ∷ argument_pattern "unsafe-perm" true true
    ∷ []

pub follows : ArgumentPattern → List ℕ → Bool
follows p [] = p.end_follows
follows p (c ∷ cs) = is_space c || (p.equals_follows && c == b'=')

pub word_then_follows : ArgumentPattern → List ℕ → List ℕ → Bool
word_then_follows p [] cs = follows p cs
word_then_follows p (w ∷ ws) [] = false
word_then_follows p (w ∷ ws) (c ∷ cs) = to_lower c == w && word_then_follows p ws cs

-- `--?` and the word.
pub dashed_word : ArgumentPattern → List ℕ → Bool
dashed_word p [] = false
dashed_word p (c ∷ []) = false
dashed_word p (c ∷ d ∷ cs) =
    c == dash
    && (if d == dash then word_then_follows p p.word cs else word_then_follows p p.word (d ∷ cs))

-- The search for a pattern, after the start of the text or after white space if the flag is set.
pub search_argument : ArgumentPattern → Bool → List ℕ → Bool
search_argument p boundary [] = false
search_argument p boundary (c ∷ cs) =
    (boundary && dashed_word p (c ∷ cs)) || search_argument p (is_space c) cs

pub is_prohibited_argument : String → Bool
is_prohibited_argument argument =
    any (λ p. search_argument p true (codes argument)) prohibited_argument_patterns

abbrev pub destructive_words : List (List ℕ)
destructive_words =
    codes "deploy"
    ∷ codes "publish"
    ∷ codes "release"
    ∷ codes "migrate"
    ∷ codes "migration"
    ∷ codes "seed"
    ∷ codes "destroy"
    ∷ codes "production"
    ∷ codes "prod"
    ∷ []

-- A word of `prohibitedScriptPattern`, up to a colon or the end.
pub word_here : List ℕ → List ℕ → Bool
word_here [] [] = true
word_here [] (c ∷ cs) = c == colon
word_here (w ∷ ws) [] = false
word_here (w ∷ ws) (c ∷ cs) = to_lower c == w && word_here ws cs

pub search_script : Bool → List ℕ → Bool
search_script boundary [] = boundary && any (λ w. word_here w []) destructive_words
search_script boundary (c ∷ cs) =
    (boundary && any (λ w. word_here w (c ∷ cs)) destructive_words) || search_script (c == colon) cs

pub is_prohibited_script : String → Bool
is_prohibited_script script = search_script true (codes script)

pub is_package_manager : String → Bool
is_package_manager command =
    command == "npm" || command == "pnpm" || command == "yarn" || command == "bun"

abbrev pub allowed_package_manager_actions : String → List String
allowed_package_manager_actions command =
    if command == "npm" then "run" ∷ "run-script" ∷ "test" ∷ "t" ∷ [] else "run" ∷ "test" ∷ []

abbrev pub starts_with_dash : String → Bool
starts_with_dash argument = elim (codes argument) [ [] ↦ false | c ∷ cs ↦ c == dash ]

pub get_package_manager_action : List String → Option String
get_package_manager_action [] = none
get_package_manager_action (a ∷ rest) =
    if not (starts_with_dash a) then some a else get_package_manager_action rest

-- `args.slice(args.indexOf(action) + 1)`, or nothing where the action is no argument.
pub arguments_after : String → List String → List String
arguments_after action [] = []
arguments_after action (a ∷ rest) = if a == action then rest else arguments_after action rest

pub get_run_script_candidates : List String → String → List String
get_run_script_candidates args action =
    if action == "test" || action == "t"
    then "test" ∷ []
    else filter (λ a. not (a == "--") && not (starts_with_dash a)) (arguments_after action args)

pub assert_action : CommandSpec → Option String → Result (Unit {0})
assert_action specification none = ok tt
assert_action specification (some action) =
    throw_if (not (contains (allowed_package_manager_actions specification.command) action))
      (harness_error "PACKAGE_MUTATION_DENIED")
    >> throw_if (any is_prohibited_script (get_run_script_candidates specification.args action))
        (harness_error "COMMAND_SCRIPT_DENIED")

unfoldable pub assert_allowed : List String → CommandSpec → Result (Unit {0})
unfolding assert_action get_package_manager_action get_run_script_candidates arguments_after
    is_package_manager is_prohibited_script search_script word_here is_prohibited_argument
    search_argument dashed_word word_then_follows follows prohibited_argument_patterns is_space
assert_allowed allowed_commands specification =
    throw_if (not (contains allowed_commands specification.command))
      (harness_error "COMMAND_NOT_ALLOWED")
    >> (throw_if (any is_prohibited_argument specification.args)
          (harness_error "COMMAND_ARGUMENT_DENIED")
        >> (if is_package_manager specification.command
            then assert_action specification (get_package_manager_action specification.args)
            else ok tt))
