-- ===== src/Paths/Total.antt =====
-- security/path-policy.ts: every check of a path ends, with a path or with an error.
use agent_harness_os.Base.{
  ℕ, zero, suc, ◌≤◌, String, ◌≡◌, refl, sym, ap, ◌∙◌, ◌⊎◌, inl, inr, Bool, true, false, not,
  false≢true, Option, some, List, [], ◌∷◌, arith, ==_refl, nat_eq, string_eq, option_eq, length,
  harness_error, Result, ok, err,
}
use agent_harness_os.Glob.{max_glob_states, normalize_path, match_glob, some_glob, matches_any_glob}
use agent_harness_os.Glob.Decides.{match_normalized_glob_total}
use agent_harness_os.Paths.{
  PathPolicy, is_rooted, with_answer, refuse_if, after_result, normalize_and_validate_relative_path,
  assert_allowed_with_budget, assert_writable, Lstat, missing, unreadable, symbolic_link,
  regular_file, other_entry, FileSystem, escapes, assert_safe_entry, assert_safe_changed_path,
}
use agent_harness_os.Paths.Resolving.{
  LinkedFiles, same_path, check_overwritten, parent_found, find_existing_parent, resolve_for_write,
}

match_glob_total :
    (value pattern : List ℕ) (budget : ℕ)
    → (r : Result (Bool × ℕ)) × (match_glob value pattern budget ≡ some r)
unfolding match_glob
match_glob_total value pattern budget =
    match_normalized_glob_total (normalize_path value) (normalize_path pattern) budget

-- An outcome that is there.
abbrev Ends {ℓ} : {A : Type ℓ} → Option (Result A) → Type ℓ
Ends {A = A} m = (r : Result A) × (m ≡ some r)

some_glob-Ends :
    (m : Option (Result (Bool × ℕ))) (others : ℕ → Option (Result (Bool × ℕ)))
    → Ends m
    → ((left : ℕ) → Ends (others left))
    → Ends (some_glob m others)
unfolding some_glob
some_glob-Ends m others (r, found) ends =
    let (r', ended) = finish r in (r', ap (λ m. some_glob m others) found ∙ ended)
  where
    finish : (r : Result (Bool × ℕ)) → Ends (some_glob (some r) others)
    finish (err e) = (err e, refl)
    finish (ok (true, left)) = (ok (true, left), refl)
    finish (ok (false, left)) = ends left

matches_any_glob_total :
    (value : List ℕ) (patterns : List (List ℕ)) (budget : ℕ)
    → Ends (matches_any_glob value patterns budget)
unfolding matches_any_glob
matches_any_glob_total value [] budget = (ok (false, budget), refl)
matches_any_glob_total value (pattern ∷ patterns) budget =
    some_glob-Ends (match_glob value pattern budget) (λ left. matches_any_glob value patterns left)
      (match_glob_total value pattern budget) (λ left. matches_any_glob_total value patterns left)

with_answer-Ends :
    {A : Type 0} (value : List ℕ) (patterns : List (List ℕ)) (budget : ℕ)
    (next : Bool → ℕ → Option (Result A))
    → ((answer : Bool) (left : ℕ) → Ends (next answer left))
    → Ends (with_answer (matches_any_glob value patterns budget) next)
with_answer-Ends {A} value patterns budget next ends =
    let (r, found) = matches_any_glob_total value patterns budget in
    let (r', ended) = finish r in (r', ap (λ m. with_answer m next) found ∙ ended)
  where
    finish : (r : Result (Bool × ℕ)) → Ends (with_answer (some r) next)
    finish (err e) = (err e, refl)
    finish (ok (answer, left)) = ends answer left

refuse_if-Ends :
    {A : Type 0} (b : Bool) (e : String) (next : Option (Result A))
    → Ends next
    → Ends (refuse_if b e next)
refuse_if-Ends true e next ends = (err (harness_error e), refl)
refuse_if-Ends false e next ends = ends

after_result-Ends :
    {A B : Type 0} (m : Option (Result A)) (next : A → Option (Result B))
    → Ends m
    → ((a : A) → Ends (next a))
    → Ends (after_result m next)
after_result-Ends {A} {B} m next (r, found) ends =
    let (r', ended) = finish r in (r', ap (λ m. after_result m next) found ∙ ended)
  where
    finish : (r : Result A) → Ends (after_result (some r) next)
    finish (err e) = (err e, refl)
    finish (ok a) = ends a

assert_writable_total :
    (posix_normalize : List ℕ → List ℕ) (policy : PathPolicy) (value : List ℕ)
    → Ends (assert_writable posix_normalize policy value)
unfolding assert_writable assert_allowed_with_budget
assert_writable_total posix_normalize policy value =
    after_result-Ends (some (normalize_and_validate_relative_path posix_normalize value)) _
      (_, refl)
      λ n.
        after_result-Ends (assert_allowed_with_budget posix_normalize policy n max_glob_states) _
          (with_answer-Ends n policy.allowed_paths max_glob_states _ λ yes_answer left.
            refuse_if-Ends (not yes_answer) _ _ (
              with_answer-Ends n policy.prohibited_paths left _
                λ bad rest. refuse_if-Ends bad _ _ (_, refl)))
          λ left.
            with_answer-Ends n policy.write_prohibited_paths left _
              λ bad rest. refuse_if-Ends bad _ _ (_, refl)

-- The check of a changed path ends with a path or an error, whatever the path, the patterns and the file system.
assert_safe_changed_path_total :
    (posix_normalize : List ℕ → List ℕ) (fs : FileSystem) (policy : PathPolicy) (value : List ℕ)
    → (r : Result (List ℕ)) × (assert_safe_changed_path posix_normalize fs policy value ≡ some r)
unfolding assert_safe_changed_path
assert_safe_changed_path_total posix_normalize fs policy value =
    after_result-Ends (assert_writable posix_normalize policy value) _
      (assert_writable_total posix_normalize policy value)
      λ n. refuse_if-Ends (escapes (fs.relative_to_root (fs.resolve n))) _ _ (
        after_result-Ends (some (assert_safe_entry (fs.lstat (fs.resolve n)))) _ (_, refl)
          λ u. (_, refl))

same_path_refl : (path : List ℕ) → same_path path path ≡ true
unfolding same_path
same_path_refl [] = refl
same_path_refl (c ∷ cs) = rw (==_refl c, same_path_refl cs) refl

parent_found-Ends :
    (entry : Lstat) (current : List ℕ) (at_top : Bool) (rest : Option (Result (List ℕ)))
    → (at_top ≡ false → Ends rest)
    → Ends (parent_found entry current at_top rest)
parent_found-Ends missing current true rest ends = (_, refl)
parent_found-Ends missing current false rest ends = ends refl
parent_found-Ends (unreadable e) current at_top rest ends = (_, refl)
parent_found-Ends symbolic_link current at_top rest ends = (_, refl)
parent_found-Ends (regular_file links) current at_top rest ends = (_, refl)
parent_found-Ends other_entry current at_top rest ends = (_, refl)

-- `dirname` keeps an absolute path absolute and shortens it, unless it is the top.
abbrev pub DirnameGoesUp : LinkedFiles → Type 0
DirnameGoesUp disk =
    (path : List ℕ)
    → is_rooted path ≡ true
    → (is_rooted (disk.dirname path) ≡ true)
      × ((disk.dirname path ≡ path) ⊎ (suc (length (disk.dirname path)) ≤ length path))

module _ (disk : LinkedFiles) (dirname_goes_up : DirnameGoesUp disk) where
  -- A round for each character of the path and one more are enough to find a parent or the top.
  find_existing_parent_total :
      (fuel : ℕ) (path : List ℕ)
      → is_rooted path ≡ true
      → suc (length path) ≤ fuel
      → Ends (find_existing_parent disk fuel path)
  unfolding find_existing_parent
  find_existing_parent_total zero path rooted enough = absurd (omega (arith, enough))
  find_existing_parent_total (suc fuel) path rooted enough =
      parent_found-Ends (disk.files.lstat path) path (same_path (disk.dirname path) path) _ λ below.
        let (still, up) = dirname_goes_up path rooted in
        elim up [
          | inl top ↦
              absurd (false≢true (sym below ∙ ap (λ d. same_path d path) top ∙ same_path_refl path))
          | inr shorter ↦
              find_existing_parent_total fuel (disk.dirname path) still
                (omega (arith, shorter, enough))
        ]

  -- The resolution of a path for writing ends with a path or an error, where `resolve` makes absolute paths, and
  -- `dirname` keeps an absolute path absolute and shortens it, unless it is the top.
  pub resolve_for_write_total :
      ((n : List ℕ) → is_rooted (disk.files.resolve n) ≡ true)
      → (posix_normalize : List ℕ → List ℕ) (policy : PathPolicy) (value : List ℕ)
      → (r : Result (List ℕ)) × (resolve_for_write disk posix_normalize policy value ≡ some r)
  unfolding resolve_for_write
  resolve_for_write_total absolute posix_normalize policy value =
      after_result-Ends (assert_writable posix_normalize policy value) _
        (assert_writable_total posix_normalize policy value)
        λ n. refuse_if-Ends (escapes (disk.files.relative_to_root (disk.files.resolve n))) _ _ (
          after_result-Ends (some (check_overwritten (disk.files.lstat (disk.files.resolve n)))) _
            (_, refl)
            λ u.
              after_result-Ends (find_existing_parent disk _ (disk.dirname (disk.files.resolve n)))
                _
                (find_existing_parent_total _ (disk.dirname (disk.files.resolve n))
                  (dirname_goes_up (disk.files.resolve n) (absolute n)).0 (omega arith))
                λ top. (_, refl))
