-- ===== src/Paths/Safe.antt =====
-- security/path-policy.ts: what a path that passes the policy is, in terms of what its patterns mean.
use agent_harness_os.Base.{
  ℕ, ◌≤◌, String, ◌≡◌, refl, sym, subst, ◌⊎◌, inl, inr, Bool, true, false, not, ◌||◌, false≢true,
  Option, none, some, List, ◌++◌, map, ltb, nat_beq, nat_eq, string_eq, option_eq, not-eq-false,
  ltb-eq-false, or-eq-false, some-same, codes, length, contains, In, In-append_left,
  In-append_right, In-map, Result, ok, err, throw_if, >>=-eq-ok, throw_if-eq-ok, ok-injective,
  throw_if_inv,
}
use agent_harness_os.Glob.{max_glob_states, normalize_path, matches_any_glob}
use agent_harness_os.Glob.Meaning.{tokens, Matches}
use agent_harness_os.Glob.Decides.{matches_any_glob_decides}
use agent_harness_os.Paths.{
  PathPolicy, new_path_policy, is_rooted, is_outside, with_answer, refuse_if, after_result,
  normalize_and_validate_relative_path, assert_allowed_with_budget, assert_allowed, assert_writable,
  Lstat, missing, unreadable, symbolic_link, regular_file, other_entry, FileSystem, escapes,
  assert_safe_entry, assert_safe_changed_path,
}
use agent_harness_os.Paths.Defaults.{default_prohibited_paths, default_write_prohibited_paths}

abbrev pub Fits : List ℕ → List ℕ → Type 0
Fits pattern path = Matches (tokens (normalize_path pattern)) (normalize_path path)

-- A path inside the repository that fits an allowed pattern and no prohibited one.
pub record IsAllowed (policy : PathPolicy) (path : List ℕ) : Type 0 where
  pub inside : is_outside path ≡ false
  pub unrooted : is_rooted path ≡ false
  pub permitted : (p : List ℕ) × In p policy.allowed_paths × Fits p path
  pub not_prohibited : (p : List ℕ) → In p policy.prohibited_paths → ¬ Fits p path

pub record IsWritable (policy : PathPolicy) (path : List ℕ) : Type 0 where
  pub readable : IsAllowed policy path
  pub not_control : (p : List ℕ) → In p policy.write_prohibited_paths → ¬ Fits p path

pub with_answer_inv {ℓ} :
    {A : Type ℓ} (m : Option (Result (Bool × ℕ))) (next : Bool → ℕ → Option (Result A)) (x : A)
    → with_answer m next ≡ some (ok x)
    → (answer : Bool) × (left : ℕ) × (m ≡ some (ok (answer, left)))
      × (next answer left ≡ some (ok x))
with_answer_inv none next x h = cc
with_answer_inv (some (err e)) next x h = cc
with_answer_inv (some (ok (answer, left))) next x h = (answer, left, refl, h)

pub after_result_inv {ℓ κ} :
    {A : Type ℓ} {B : Type κ} (m : Option (Result A)) (next : A → Option (Result B)) (x : B)
    → after_result m next ≡ some (ok x)
    → (a : A) × (m ≡ some (ok a)) × (next a ≡ some (ok x))
after_result_inv none next x h = cc
after_result_inv (some (err e)) next x h = cc
after_result_inv (some (ok a)) next x h = (a, refl, h)

pub refuse_if_inv {ℓ} :
    {A : Type ℓ} (b : Bool) (e : String) (next : Option (Result A)) (x : A)
    → refuse_if b e next ≡ some (ok x)
    → (b ≡ false) × (next ≡ some (ok x))
refuse_if_inv true e next x h = cc
refuse_if_inv false e next x h = (refl, h)

pub some-ok {ℓ} : {A : Type ℓ} {a b : A} → some (ok a) ≡ some (ok b) → a ≡ b
some-ok h = cc

-- A match that answers no fits none of the patterns.
none_match :
    (path : List ℕ) (patterns : List (List ℕ)) (budget left : ℕ)
    → matches_any_glob path patterns budget ≡ some (ok (false, left))
    → (p : List ℕ) → In p patterns
    → ¬ Fits p path
none_match path patterns budget left h p m w =
    false≢true ((matches_any_glob_decides path patterns budget false left h).1 (p, m, w))

module _ (posix_normalize : List ℕ → List ℕ) where
  normalize_and_validate-inside :
      (value path : List ℕ)
      → normalize_and_validate_relative_path posix_normalize value ≡ ok path
      → (is_outside path ≡ false) × (is_rooted path ≡ false)
  unfolding normalize_and_validate_relative_path
  normalize_and_validate-inside value path h =
      let (_, c1, h1) = >>=-eq-ok (throw_if (contains value 0) _) _ h in
      let (_, c2, h2) =
        >>=-eq-ok
          (throw_if
            (is_outside (normalize_path (posix_normalize (normalize_path value)))
              || is_rooted (normalize_path (posix_normalize (normalize_path value))))
            _)
          _ h1 in
      subst (λ x. (is_outside x ≡ false) × (is_rooted x ≡ false)) (ok-injective h2)
        (or-eq-false _ _ (throw_if-eq-ok _ _ c2))

  module _ (policy : PathPolicy) where
    assert_allowed_with_budget_lem :
        (path : List ℕ) (budget left : ℕ)
        → assert_allowed_with_budget posix_normalize policy path budget ≡ some (ok left)
        → ((p : List ℕ) × In p policy.allowed_paths × Fits p path)
          × ((p : List ℕ) → In p policy.prohibited_paths → ¬ Fits p path)
    unfolding assert_allowed_with_budget
    assert_allowed_with_budget_lem path budget left h =
        let (yes_answer, l1, first, h1) =
          with_answer_inv (matches_any_glob path policy.allowed_paths budget) _ left h in
        let (let_in, h2) = refuse_if_inv (not yes_answer) _ _ left h1 in
        let (bad, l2, second, h3) =
          with_answer_inv (matches_any_glob path policy.prohibited_paths l1) _ left h2 in
        let (clean, h4) = refuse_if_inv bad _ _ left h3 in
        (
          (matches_any_glob_decides path policy.allowed_paths budget yes_answer l1 first).0
              (not-eq-false let_in),
          none_match path policy.prohibited_paths l1 l2 (
              subst (λ b. matches_any_glob path policy.prohibited_paths l1 ≡ some (ok (b, l2)))
                clean second),
        )

    -- A path that a worker may read is inside the repository, fits an allowed pattern and no prohibited one.
    pub assert_allowed-IsAllowed :
        (value path : List ℕ)
        → assert_allowed posix_normalize policy value ≡ some (ok path)
        → IsAllowed policy path
    unfolding assert_allowed
    assert_allowed-IsAllowed value path h =
        let (n, first, h1) =
          after_result_inv (some (normalize_and_validate_relative_path posix_normalize value)) _
            path h in
        let (left, second, h2) =
          after_result_inv (assert_allowed_with_budget posix_normalize policy n max_glob_states) _
            path h1 in
        let (inside, unrooted) = normalize_and_validate-inside value n (some-same first) in
        let (permitted, not_prohibited) =
          assert_allowed_with_budget_lem n max_glob_states left second in
        subst (IsAllowed policy) (some-ok h2) (record {
          inside = inside;
          unrooted = unrooted;
          permitted = permitted;
          not_prohibited = not_prohibited;
        })

    -- A path that a worker may write is inside the repository, fits an allowed pattern, no prohibited one and none
    -- of the control plane.
    pub assert_writable-IsWritable :
        (value path : List ℕ)
        → assert_writable posix_normalize policy value ≡ some (ok path)
        → IsWritable policy path
    unfolding assert_writable
    assert_writable-IsWritable value path h =
        let (n, first, h1) =
          after_result_inv (some (normalize_and_validate_relative_path posix_normalize value)) _
            path h in
        let (left, second, h2) =
          after_result_inv (assert_allowed_with_budget posix_normalize policy n max_glob_states) _
            path h1 in
        let (bad, rest, third, h3) =
          with_answer_inv (matches_any_glob n policy.write_prohibited_paths left) _ path h2 in
        let (clean, h4) = refuse_if_inv bad _ _ path h3 in
        let (inside, unrooted) = normalize_and_validate-inside value n (some-same first) in
        let (permitted, not_prohibited) =
          assert_allowed_with_budget_lem n max_glob_states left second in
        subst (IsWritable policy) (some-ok h4) (record {
          readable = record {
            inside = inside;
            unrooted = unrooted;
            permitted = permitted;
            not_prohibited = not_prohibited;
          };
          not_control = none_match n policy.write_prohibited_paths left rest (
              subst
                (λ b. matches_any_glob n policy.write_prohibited_paths left ≡ some (ok (b, rest)))
                clean third);
        })

    -- What an entry that may be in a patch is.
    safe_entry_lem :
        (entry : Lstat) (u : Unit {0})
        → some (assert_safe_entry entry) ≡ some (ok u)
        → (entry ≡ missing) ⊎ ((links : ℕ) × (entry ≡ regular_file links) × (links ≤ 1))
    unfolding assert_safe_entry
    safe_entry_lem missing u h = inl refl
    safe_entry_lem (unreadable e) u h = absurd (cc)
    safe_entry_lem symbolic_link u h = absurd (cc)
    safe_entry_lem other_entry u h = absurd (cc)
    safe_entry_lem (regular_file links) u h =
        inr (links, refl, ltb-eq-false (throw_if-eq-ok (ltb 1 links) _ (some-same h)))

new_path_policy_lem :
    (allowed prohibited : List (List ℕ)) (policy : PathPolicy)
    → new_path_policy allowed prohibited ≡ ok policy
    → (policy.allowed_paths ≡ allowed)
      × (policy.prohibited_paths ≡ map codes default_prohibited_paths ++ prohibited)
      × (policy.write_prohibited_paths ≡ map codes default_write_prohibited_paths)
unfolding new_path_policy
new_path_policy_lem allowed prohibited policy h =
    let (empty, h1) = throw_if_inv (nat_beq (length allowed) 0) _ _ h in
    subst
      (λ (x : PathPolicy).
        (x.allowed_paths ≡ allowed)
        × (x.prohibited_paths ≡ map codes default_prohibited_paths ++ prohibited)
        × (x.write_prohibited_paths ≡ map codes default_write_prohibited_paths))
      (ok-injective h1) (refl, refl, refl)

-- Where a changed path passes the policy of a task, it is inside the repository, fits one of the task's
-- allowed patterns, none of its prohibited patterns, none of the paths that every policy prohibits and none of
-- those that it keeps from being written, and on the disk it is missing or a regular file with one link.
pub changed_path_is_safe :
    (posix_normalize : List ℕ → List ℕ) (fs : FileSystem) (allowed prohibited : List (List ℕ))
    (policy : PathPolicy) (value path : List ℕ)
    → new_path_policy allowed prohibited ≡ ok policy
    → assert_safe_changed_path posix_normalize fs policy value ≡ some (ok path)
    → (is_outside path ≡ false)
      × (is_rooted path ≡ false)
      × ((p : List ℕ) × In p allowed × Fits p path)
      × ((p : List ℕ) → In p prohibited → ¬ Fits p path)
      × ((s : String) → In s default_prohibited_paths → ¬ Fits (codes s) path)
      × ((s : String) → In s default_write_prohibited_paths → ¬ Fits (codes s) path)
      × (escapes (fs.relative_to_root (fs.resolve path)) ≡ false)
      × ((fs.lstat (fs.resolve path) ≡ missing)
          ⊎ ((links : ℕ) × (fs.lstat (fs.resolve path) ≡ regular_file links) × (links ≤ 1)))
unfolding assert_safe_changed_path
changed_path_is_safe posix_normalize fs allowed prohibited policy value path made h =
    let (same_allowed, ps, ws) = new_path_policy_lem allowed prohibited policy made in
    let (n, first, h1) = after_result_inv (assert_writable posix_normalize policy value) _ path h in
    let (stays, h2) = refuse_if_inv (escapes (fs.relative_to_root (fs.resolve n))) _ _ path h1 in
    let (u, entry, h3) =
      after_result_inv (some (assert_safe_entry (fs.lstat (fs.resolve n)))) _ path h2 in
    let w = assert_writable-IsWritable posix_normalize policy value n first in
    let (p, m, fits) = w.readable.permitted in
    subst
      (λ x.
        (is_outside x ≡ false)
        × (is_rooted x ≡ false)
        × ((p : List ℕ) × In p allowed × Fits p x)
        × ((p : List ℕ) → In p prohibited → ¬ Fits p x)
        × ((s : String) → In s default_prohibited_paths → ¬ Fits (codes s) x)
        × ((s : String) → In s default_write_prohibited_paths → ¬ Fits (codes s) x)
        × (escapes (fs.relative_to_root (fs.resolve x)) ≡ false)
        × ((fs.lstat (fs.resolve x) ≡ missing)
            ⊎ ((links : ℕ) × (fs.lstat (fs.resolve x) ≡ regular_file links) × (links ≤ 1))))
      (some-ok h3)
      (
        w.readable.inside,
        w.readable.unrooted,
        (p, subst (λ l. In p l) same_allowed m, fits),
        (λ q m. w.readable.not_prohibited q (
            subst (λ l. In q l) (sym ps)
              (In-append_right q (map codes default_prohibited_paths) prohibited m))),
        (λ s m. w.readable.not_prohibited (codes s) (
            subst (λ l. In (codes s) l) (sym ps)
              (In-append_left (codes s) (map codes default_prohibited_paths) prohibited
                (In-map codes s default_prohibited_paths m)))),
        (λ s m. w.not_control (codes s) (
            subst (λ l. In (codes s) l) (sym ws)
              (In-map codes s default_write_prohibited_paths m))),
        stays,
        safe_entry_lem posix_normalize policy (fs.lstat (fs.resolve n)) u entry,
      )
