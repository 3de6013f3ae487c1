-- ===== src/Glob.antt =====
-- lib/glob.ts: matching a path against a glob pattern by a worklist over states, with a budget of
-- states. Texts are lists of UTF-16 code units.
pub mod Tests
pub mod Search
pub mod Keys
pub mod Views
pub mod Meaning
pub mod Correct
pub mod Complete
pub mod Converse
pub mod Decides
use agent_harness_os.Base.{
  ℕ, zero, suc, ◌+◌, ◌*◌, Bool, true, false, not, ◌&&◌, Option, none, some, List, [], ◌∷◌, ◌++◌,
  ltb, leb, if◌then◌else◌, ◌==◌, nat_eq, string_eq, option_eq, length, get_elem?, contains,
  harness_error, Result, ok, err,
}

pub record GlobState : Type 0 where
  pub value_index : ℕ
  pub pattern_index : ℕ
  pub globstar_slash_active : Bool

abbrev pub max_glob_states : ℕ
max_glob_states = 200000

abbrev pub slash : ℕ
slash = b'/'

abbrev pub star : ℕ
star = b'*'

abbrev pub question : ℕ
question = b'?'

abbrev pub backslash : ℕ
backslash = 92

-- `value.replaceAll('\\', '/')`
pub replace_backslashes : List ℕ → List ℕ
replace_backslashes [] = []
replace_backslashes (c ∷ cs) = (if c == backslash then slash else c) ∷ replace_backslashes cs

-- `.replace(/^\.\//, '')`
pub drop_dot_slash : List ℕ → List ℕ
drop_dot_slash [] = []
drop_dot_slash (c ∷ []) = c ∷ []
drop_dot_slash (c ∷ d ∷ cs) = if c == b'.' && d == slash then cs else c ∷ d ∷ cs

unfoldable pub normalize_path : List ℕ → List ℕ
unfolding replace_backslashes drop_dot_slash
normalize_path value = drop_dot_slash (replace_backslashes value)

pub state_key : ℕ → GlobState → ℕ
state_key value_width s =
    (s.pattern_index * value_width + s.value_index) * 2 + (if s.globstar_slash_active then 1 else 0)

module _ (value pattern : List ℕ) where
  pub accepts : GlobState → Bool
  accepts s =
      not s.globstar_slash_active
      && leb (length pattern) s.pattern_index
      && s.value_index == length value

  -- The pushes of each branch, the last one first, as the stack holds them.
  pub active_steps : GlobState → List GlobState
  active_steps s =
      if leb (length value) s.value_index
      then []
      else (if get_elem? value s.value_index == some slash
          then record {
            value_index = s.value_index + 1;
            pattern_index = s.pattern_index + 3;
            globstar_slash_active = false;
          }
            ∷ []
          else [])
        ++ record s { value_index = s.value_index + 1 } ∷ []

  pub globstar_slash_steps : GlobState → List GlobState
  globstar_slash_steps s =
      (if ltb s.value_index (length value)
        then record s { globstar_slash_active = true } ∷ []
        else [])
      ++ record s { pattern_index = s.pattern_index + 3 } ∷ []

  pub globstar_steps : GlobState → List GlobState
  globstar_steps s =
      (if ltb s.value_index (length value)
        then record s { value_index = s.value_index + 1 } ∷ []
        else [])
      ++ record s { pattern_index = s.pattern_index + 2 } ∷ []

  pub star_steps : GlobState → List GlobState
  star_steps s =
      (if ltb s.value_index (length value) && not (get_elem? value s.value_index == some slash)
        then record s { value_index = s.value_index + 1 } ∷ []
        else [])
      ++ record s { pattern_index = s.pattern_index + 1 } ∷ []

  pub character_steps : GlobState → Option ℕ → List GlobState
  character_steps s character =
      let advance =
        record s { value_index = s.value_index + 1; pattern_index = s.pattern_index + 1 } ∷ [] in
      if ltb s.value_index (length value)
        && character == some question
        && not (get_elem? value s.value_index == some slash)
      then advance
      else if character == get_elem? value s.value_index
      then advance
      else []

  pub pattern_steps : GlobState → List GlobState
  pattern_steps s =
      let character = get_elem? pattern s.pattern_index in
      let next_character = get_elem? pattern (s.pattern_index + 1) in
      let following_character = get_elem? pattern (s.pattern_index + 2) in
      if character == some star && next_character == some star
      then (if following_character == some slash then globstar_slash_steps s else globstar_steps s)
      else if character == some star
      then star_steps s
      else character_steps s character

  pub steps : GlobState → List GlobState
  steps s =
      if s.globstar_slash_active
      then active_steps s
      else if leb (length pattern) s.pattern_index
      then []
      else pattern_steps s

  -- The loop, with the answer and the budget that is left. A budget below 0 acts as one of 0, since the
  -- next state that is charged to it throws. Fuel that ran out is `none`.
  pub search_glob : ℕ → List GlobState → List ℕ → ℕ → Option (Result (Bool × ℕ))
  search_glob fuel [] visited budget = some (ok (false, budget))
  search_glob zero (s ∷ pending) visited budget = none
  search_glob (suc fuel) (s ∷ pending) visited budget =
      let key = state_key (length value + 1) s in
      let seen = search_glob fuel pending visited budget in
      let explored = λ (left : ℕ). search_glob fuel (steps s ++ pending) (key ∷ visited) left in
      if contains visited key then seen else elim budget [
        | zero ↦ some (err (harness_error "GLOB_MATCH_LIMIT"))
        | suc left ↦ if accepts s then some (ok (true, left)) else explored left
      ]

  abbrev pub initial_glob_state : GlobState
  initial_glob_state = record { value_index = 0; pattern_index = 0; globstar_slash_active = false }

  unfoldable pub match_normalized_glob : ℕ → Option (Result (Bool × ℕ))
  unfolding search_glob state_key accepts steps active_steps pattern_steps globstar_slash_steps
      globstar_steps star_steps character_steps
  match_normalized_glob budget = search_glob (2 * budget + 2) (initial_glob_state ∷ []) [] budget

unfoldable pub match_glob : List ℕ → List ℕ → ℕ → Option (Result (Bool × ℕ))
match_glob value pattern budget =
    match_normalized_glob (normalize_path value) (normalize_path pattern) budget

-- `patterns.some(...)` on the answer for one pattern and the run over the others.
unfoldable pub some_glob :
    Option (Result (Bool × ℕ)) → (ℕ → Option (Result (Bool × ℕ))) → Option (Result (Bool × ℕ))
some_glob none others = none
some_glob (some (err e)) others = some (err e)
some_glob (some (ok (true, left))) others = some (ok (true, left))
some_glob (some (ok (false, left))) others = others left

unfoldable pub matches_any_glob : List ℕ → List (List ℕ) → ℕ → Option (Result (Bool × ℕ))
unfolding some_glob
matches_any_glob value [] budget = some (ok (false, budget))
matches_any_glob value (pattern ∷ patterns) budget =
    some_glob (match_glob value pattern budget) (λ left. matches_any_glob value patterns left)
