-- ===== src/Glob/Decides.antt =====
-- lib/glob.ts: `matchesNormalizedGlob` decides whether a path matches a pattern.
use agent_harness_os.Base.{
  ℕ, ◌+◌, ◌*◌, ◌≡◌, refl, sym, ap, subst, ◌∙◌, ◌↔◌, ◌⊎◌, inl, inr, Bool, true, false, false≢true,
  Option, none, some, List, [], ◌∷◌, arith, length, In, In-map, In-map_inv, Result, ok, err,
}
use agent_harness_os.Glob.{
  GlobState, normalize_path, steps, initial_glob_state, match_normalized_glob, match_glob,
  some_glob, matches_any_glob,
}
use agent_harness_os.Glob.Search.{Wins, now, later, search_glob_total, search_glob_sound}
use agent_harness_os.Glob.Keys.{IsInside}
use agent_harness_os.Glob.Views.{View, view_steps, view_accepts, view, steps-view, accepts-view}
use agent_harness_os.Glob.Meaning.{tokens, Matches, ViewWins, accepted, onward}
use agent_harness_os.Glob.Correct.{ViewWins-Means}
use agent_harness_os.Glob.Complete.{steps-IsInside, IsClosed, search_glob_complete}
use agent_harness_os.Glob.Converse.{Matches-ViewWins}

module _ (value pattern : List ℕ) where
  Wins-ViewWins :
      {s : GlobState}
      → IsInside (length value + 1) s
      → Wins value pattern s
      → ViewWins (view value pattern s)
  Wins-ViewWins {s} i (now a) = accepted (sym (accepts-view value pattern s i) ∙ a)
  Wins-ViewWins {s} i (later {t = t} m w) =
      onward
        (subst (λ l. In (view value pattern t) l) (steps-view value pattern s)
          (In-map (view value pattern) t (steps value pattern s) m))
        (Wins-ViewWins (steps-IsInside value pattern s t i m) w)

  ViewWins-Wins :
      {u : View} (s : GlobState)
      → IsInside (length value + 1) s
      → u ≡ view value pattern s
      → ViewWins u
      → Wins value pattern s
  ViewWins-Wins s i e (accepted a) =
      now (accepts-view value pattern s i ∙ sym (ap view_accepts e) ∙ a)
  ViewWins-Wins {u} s i e (onward {t = t} m w) =
      let (next, step, same_view) =
        In-map_inv (view value pattern) t (steps value pattern s)
          (subst (λ l. In t l) (ap view_steps e ∙ sym (steps-view value pattern s)) m) in
      later step (ViewWins-Wins next (steps-IsInside value pattern s next i step) same_view w)

  nothing_visited : IsClosed value pattern [] (initial_glob_state value pattern ∷ [])
  nothing_visited s i seen = absurd (cc)

  -- With the fuel that it is given, the match always ends, with an answer or with the error of a budget
  -- that is used up.
  pub match_normalized_glob_total :
      (budget : ℕ) → (r : Result (Bool × ℕ)) × (match_normalized_glob value pattern budget ≡ some r)
  unfolding match_normalized_glob
  match_normalized_glob_total budget =
      search_glob_total value pattern (2 * budget + 2) (initial_glob_state value pattern ∷ []) []
        budget (omega arith)

  -- Where the match answers, its answer is true exactly if the value matches the pattern, read as the
  -- tokens `**/`, `**`, `*`, `?` and characters from left to right.
  pub match_normalized_glob_decides :
      (budget : ℕ) (answer : Bool) (left : ℕ)
      → match_normalized_glob value pattern budget ≡ some (ok (answer, left))
      → (answer ≡ true) ↔ Matches (tokens pattern) value
  unfolding match_normalized_glob
  match_normalized_glob_decides budget true left h =
      let (s, m, w) =
        search_glob_sound value pattern (2 * budget + 2) (initial_glob_state value pattern ∷ []) []
          budget h in
      elim m [
        | inl e ↦ (
          λ _. ViewWins-Means (Wins-ViewWins (omega arith) (subst (Wins value pattern) e w)),
          λ _. refl,
        )
        | inr none_left ↦ absurd none_left
      ]
  match_normalized_glob_decides budget false left h = (
    λ e. absurd (false≢true e),
    λ m. absurd (
        search_glob_complete value pattern (2 * budget + 2) (initial_glob_state value pattern ∷ [])
          [] budget nothing_visited (omega arith, tt) h (initial_glob_state value pattern)
          (omega arith) (inr (inl refl))
          (ViewWins-Wins (initial_glob_state value pattern) (omega arith) refl
            (Matches-ViewWins m pattern refl))),
  )

abbrev answered : Bool → ℕ → Option (Result (Bool × ℕ))
answered answer left = some (ok (answer, left))

answer_true :
    (l left : ℕ) (answer : Bool)
    → answered true l ≡ answered answer left
    → (l ≡ left) × (answer ≡ true)
answer_true l left answer h = (cc, cc)

some_glob_cases :
    (m : Option (Result (Bool × ℕ))) (others : ℕ → Option (Result (Bool × ℕ))) (answer : Bool)
    (left : ℕ)
    → some_glob m others ≡ some (ok (answer, left))
    → ((m ≡ some (ok (true, left))) × (answer ≡ true))
      ⊎ ((between : ℕ) × (m ≡ some (ok (false, between)))
          × (others between ≡ some (ok (answer, left))))
unfolding some_glob
some_glob_cases none others answer left h = absurd (cc)
some_glob_cases (some (err e)) others answer left h = absurd (cc)
some_glob_cases (some (ok (true, l))) others answer left h =
    inl (ground (arith, answer_true l left answer h))
some_glob_cases (some (ok (false, l))) others answer left h = inr (l, refl, h)

match_glob_decides :
    (value pattern : List ℕ) (budget : ℕ) (answer : Bool) (left : ℕ)
    → match_glob value pattern budget ≡ some (ok (answer, left))
    → (answer ≡ true) ↔ Matches (tokens (normalize_path pattern)) (normalize_path value)
unfolding match_glob
match_glob_decides value pattern budget answer left h =
    match_normalized_glob_decides (normalize_path value) (normalize_path pattern) budget answer left
      h

-- Where `matchesAnyGlob` answers, its answer is true exactly if one of the patterns matches the value, both
-- after normalization, whatever budget the patterns share.
pub matches_any_glob_decides :
    (value : List ℕ) (patterns : List (List ℕ)) (budget : ℕ) (answer : Bool) (left : ℕ)
    → matches_any_glob value patterns budget ≡ some (ok (answer, left))
    → (answer ≡ true)
      ↔ ((p : List ℕ) × In p patterns × Matches (tokens (normalize_path p)) (normalize_path value))
unfolding matches_any_glob
matches_any_glob_decides value [] budget answer left h = (λ e. absurd (cc), λ (p, m, _). absurd m)
matches_any_glob_decides value (pattern ∷ patterns) budget answer left h =
    elim (some_glob_cases (match_glob value pattern budget) (λ l. matches_any_glob value patterns l)
      answer left h) [
        | inl (first, yes_now) ↦ (
          λ _.
              (pattern, inl refl, (match_glob_decides value pattern budget true left first).0 refl),
          λ _. yes_now,
        )
        | inr (between, first, others) ↦
            let (to, from) = matches_any_glob_decides value patterns between answer left others in
            (
              λ e. let (p, m, w) = to e in (p, inr m, w),
              λ (p, m, w). elim m [
                | inl this_one ↦ absurd (
                    false≢true (
                      (match_glob_decides value pattern budget false between first).1 (
                        subst (λ x. Matches (tokens (normalize_path x)) (normalize_path value))
                          this_one w)))
                | inr n ↦ from (p, n, w)
              ],
            )
      ]
