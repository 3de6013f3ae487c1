-- ===== src/Glob/Views.antt =====
-- lib/glob.ts: a state seen as the pattern and the value that are left, with the steps over those.
use agent_harness_os.Base.{
  ℕ, ◌+◌, ◌-◌, ◌<◌, ◌≡◌, refl, Bool, true, false, not, ◌&&◌, List, [], ◌∷◌, ◌++◌, map, arith, ltb,
  leb, if◌then◌else◌, ◌==◌, nat_eq, string_eq, option_eq, length, get_elem?, drop, length-drop,
  drop-drop, get_elem?-drop,
}
use agent_harness_os.Glob.{
  GlobState, slash, star, question, accepts, active_steps, globstar_slash_steps, globstar_steps,
  star_steps, character_steps, pattern_steps, steps,
}

pub record View : Type 0 where
  pub active : Bool
  pub rest_pattern : List ℕ
  pub rest_value : List ℕ

abbrev pub view_of : Bool → List ℕ → List ℕ → View
view_of a q v = record { active = a; rest_pattern = q; rest_value = v }

pub data Token : Type 0 where
  globstar_slash globstar any_run any_one : Token
  literal : ℕ → Token

abbrev pub single : ℕ → Token
single c = if c == star then any_run else if c == question then any_one else literal c

-- The first token of a pattern that is not empty, and what follows it.
abbrev pub next_token : ℕ → List ℕ → Token × List ℕ
next_token a [] = (single a, [])
next_token a (b ∷ []) = if a == star && b == star then (globstar, []) else (single a, b ∷ [])
next_token a (b ∷ c ∷ r) =
    if a == star && b == star
    then (if c == slash then (globstar_slash, r) else (globstar, c ∷ r))
    else (single a, b ∷ c ∷ r)

-- The views that follow one where a token comes next.
abbrev pub token_steps : List ℕ → Token → List ℕ → List ℕ → List View
token_steps q globstar_slash r [] = view_of false r [] ∷ []
token_steps q globstar_slash r (x ∷ w) = view_of true q (x ∷ w) ∷ view_of false r (x ∷ w) ∷ []
token_steps q globstar r [] = view_of false r [] ∷ []
token_steps q globstar r (x ∷ w) = view_of false q w ∷ view_of false r (x ∷ w) ∷ []
token_steps q any_run r [] = view_of false r [] ∷ []
token_steps q any_run r (x ∷ w) =
    (if not (x == slash) then view_of false q w ∷ [] else []) ++ view_of false r (x ∷ w) ∷ []
token_steps q any_one r [] = []
token_steps q any_one r (x ∷ w) = if not (x == slash) then view_of false r w ∷ [] else []
token_steps q (literal c) r [] = []
token_steps q (literal c) r (x ∷ w) = if c == x then view_of false r w ∷ [] else []

abbrev pub view_steps : View → List View
view_steps u = elim u.active [
  | true ↦ elim u.rest_value [
    | [] ↦ []
    | x ∷ w ↦
        (if x == slash then view_of false (drop 3 u.rest_pattern) w ∷ [] else [])
        ++ view_of true u.rest_pattern w ∷ []
  ]
  | false ↦ elim u.rest_pattern [
    | [] ↦ []
    | a ∷ q ↦ token_steps (a ∷ q) (next_token a q).0 (next_token a q).1 u.rest_value
  ]
]

abbrev pub view_accepts : View → Bool
view_accepts u = not u.active && leb (length u.rest_pattern) 0 && leb (length u.rest_value) 0

module _ (value pattern : List ℕ) where
  abbrev pub view : GlobState → View
  view s = view_of s.globstar_slash_active (drop s.pattern_index pattern) (drop s.value_index value)

  -- The tests and the texts of a state, read off its view.
  record Reads (s : GlobState) (q v : List ℕ) : Type 0 where
    character : get_elem? pattern s.pattern_index ≡ get_elem? q 0
    next_character : get_elem? pattern (s.pattern_index + 1) ≡ get_elem? q 1
    following_character : get_elem? pattern (s.pattern_index + 2) ≡ get_elem? q 2
    value_character : get_elem? value s.value_index ≡ get_elem? v 0
    value_left : ltb s.value_index (length value) ≡ ltb 0 (length v)
    value_over : leb (length value) s.value_index ≡ leb (length v) 0
    pattern_over : leb (length pattern) s.pattern_index ≡ leb (length q) 0
    here_pattern : drop s.pattern_index pattern ≡ q
    here_value : drop s.value_index value ≡ v
    after_one : drop (s.pattern_index + 1) pattern ≡ drop 1 q
    after_two : drop (s.pattern_index + 2) pattern ≡ drop 2 q
    after_three : drop (s.pattern_index + 3) pattern ≡ drop 3 q
    after_value : drop (s.value_index + 1) value ≡ drop 1 v

  Reads-view :
      (s : GlobState) (q v : List ℕ)
      → drop s.pattern_index pattern ≡ q
      → drop s.value_index value ≡ v
      → Reads s q v
  Reads-view s q v eq ev =
      let p = s.pattern_index in
      let i = s.value_index in
      let lq : length q ≡ length pattern - p = rw (← eq) (length-drop p pattern) in
      let lv : length v ≡ length value - i = rw (← ev) (length-drop i value) in
      record {
        character = rw (← eq) (get_elem?-drop p 0 p pattern (omega arith));
        next_character = rw (← eq) (get_elem?-drop p 1 (p + 1) pattern refl);
        following_character = rw (← eq) (get_elem?-drop p 2 (p + 2) pattern refl);
        value_character = rw (← ev) (get_elem?-drop i 0 i value (omega arith));
        value_left = ground (arith, lv);
        value_over = ground (arith, lv);
        pattern_over = ground (arith, lq);
        here_pattern = eq;
        here_value = ev;
        after_one = rw (← eq) (drop-drop p 1 (p + 1) pattern refl);
        after_two = rw (← eq) (drop-drop p 2 (p + 2) pattern refl);
        after_three = rw (← eq) (drop-drop p 3 (p + 3) pattern refl);
        after_value = rw (← ev) (drop-drop i 1 (i + 1) value refl);
      }

  active_steps-view :
      (s : GlobState) (q v : List ℕ)
      → s.globstar_slash_active ≡ true
      → Reads s q v
      → map view (active_steps value pattern s) ≡ view_steps (view_of true q v)
  unfolding active_steps
  active_steps-view s q [] a r = ground arith
  active_steps-view s q (x ∷ w) a r = ground arith

  pattern_steps-view :
      (s : GlobState) (a : ℕ) (q v : List ℕ)
      → s.globstar_slash_active ≡ false
      → Reads s (a ∷ q) v
      → map view (pattern_steps value pattern s) ≡ view_steps (view_of false (a ∷ q) v)
  unfolding pattern_steps globstar_slash_steps globstar_steps star_steps character_steps
  pattern_steps-view s a [] [] i r = ground arith
  pattern_steps-view s a [] (x ∷ w) i r = ground arith
  pattern_steps-view s a (b ∷ []) [] i r = ground arith
  pattern_steps-view s a (b ∷ []) (x ∷ w) i r = ground arith
  pattern_steps-view s a (b ∷ c ∷ q) [] i r = ground arith
  pattern_steps-view s a (b ∷ c ∷ q) (x ∷ w) i r = ground arith

  steps-view_cases :
      (s : GlobState) (a : Bool) (q v : List ℕ)
      → s.globstar_slash_active ≡ a
      → Reads s q v
      → map view (steps value pattern s) ≡ view_steps (view_of a q v)
  unfolding steps
  steps-view_cases s true q v e r = ground (arith, active_steps-view s q v e r)
  steps-view_cases s false [] v e r = rw (e, r.pattern_over, steps)
  steps-view_cases s false (a ∷ q) v e r = ground (arith, pattern_steps-view s a q v e r)

  -- The steps of the source are those of the views.
  pub steps-view : (s : GlobState) → map view (steps value pattern s) ≡ view_steps (view s)
  steps-view s = steps-view_cases s _ _ _ refl (Reads-view s _ _ refl refl)

  pub accepts-view :
      (s : GlobState)
      → s.value_index < length value + 1
      → accepts value pattern s ≡ view_accepts (view s)
  unfolding accepts
  accepts-view s h =
      ground (arith, length-drop s.pattern_index pattern, length-drop s.value_index value)
