-- ===== src/Glob/Tests.antt =====
-- lib/glob.ts: test runs.
use agent_harness_os.Base.{
  ℕ, ◌≡◌, refl, ◌↔◌, Bool, true, false, some, List, [], ◌∷◌, codes, In, harness_error, Result, ok,
  err,
}
use agent_harness_os.Glob.{normalize_path, match_normalized_glob, match_glob, matches_any_glob}
use agent_harness_os.Glob.Meaning.{tokens, Matches}
use agent_harness_os.Glob.Decides.{
  match_normalized_glob_total, match_normalized_glob_decides, matches_any_glob_decides,
}

globstar_matches :
    match_glob (codes "src/a/b.ts") (codes "./src/**/*.ts") 200000 ≡ some (ok (true, 199981))
unfolding match_glob normalize_path match_normalized_glob
globstar_matches = refl

star_stops : match_glob (codes "a/b") (codes "*") 200000 ≡ some (ok (false, 199996))
unfolding match_glob normalize_path match_normalized_glob
star_stops = refl

budget_spent :
    match_glob (codes "aaaa") (codes "**a**b") 5 ≡ some (err (harness_error "GLOB_MATCH_LIMIT"))
unfolding match_glob normalize_path match_normalized_glob
budget_spent = refl

short_match : match_normalized_glob (codes "a/b") (codes "**/b") 10 ≡ some (ok (true, 5))
unfolding match_normalized_glob
short_match = refl

match_normalized_glob_decides_example :
    (true ≡ true) ↔ Matches (tokens (codes "**/b")) (codes "a/b")
match_normalized_glob_decides_example =
    match_normalized_glob_decides (codes "a/b") (codes "**/b") 10 true 5 short_match

match_normalized_glob_total_example :
    (r : Result (Bool × ℕ)) × (match_normalized_glob (codes "a/b") (codes "*") 10 ≡ some r)
match_normalized_glob_total_example = match_normalized_glob_total (codes "a/b") (codes "*") 10

two_patterns :
    matches_any_glob (codes "a/b") (codes "c" ∷ codes "**/b" ∷ []) 20 ≡ some (ok (true, 14))
unfolding matches_any_glob match_glob normalize_path match_normalized_glob
two_patterns = refl

matches_any_glob_decides_example : (true ≡ true) ↔ (
    (p : List ℕ) × In p (codes "c" ∷ codes "**/b" ∷ [])
    × Matches (tokens (normalize_path p)) (normalize_path (codes "a/b")))
matches_any_glob_decides_example =
    matches_any_glob_decides (codes "a/b") (codes "c" ∷ codes "**/b" ∷ []) 20 true 14 two_patterns
