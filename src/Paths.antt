-- ===== src/Paths.antt =====
-- security/path-policy.ts: which paths a worker may read and write. Texts are lists of UTF-16 code units, as
-- in Glob. `path.posix.normalize` and the file system are parameters.
pub mod Defaults
pub mod Safe
pub mod Resolving
pub mod Total
pub mod Tests
use agent_harness_os.Base.{
  ℕ, String, Bool, true, false, not, ◌&&◌, ◌||◌, Option, none, some, List, [], ◌∷◌, ◌++◌, map, ltb,
  nat_beq, if◌then◌else◌, nat_eq, string_eq, option_eq, codes, length, contains, HarnessError,
  harness_error, Result, ok, err, ◌>>=◌, ◌>>◌, throw_if,
}
use agent_harness_os.Glob.{max_glob_states, normalize_path, matches_any_glob}
use agent_harness_os.Paths.Defaults.{default_prohibited_paths, default_write_prohibited_paths}

pub record PathPolicy : Type 0 where
  pub allowed_paths : List (List ℕ)
  pub prohibited_paths : List (List ℕ)
  pub write_prohibited_paths : List (List ℕ)

-- The constructor.
unfoldable pub new_path_policy : List (List ℕ) → List (List ℕ) → Result PathPolicy
new_path_policy allowed prohibited = do
  throw_if (nat_beq (length allowed) 0) (harness_error "EMPTY_PATH_ALLOWLIST")
  ok (record {
    allowed_paths = allowed;
    prohibited_paths = map codes default_prohibited_paths ++ prohibited;
    write_prohibited_paths = map codes default_write_prohibited_paths;
  })

abbrev pub is_rooted : List ℕ → Bool
is_rooted [] = false
is_rooted (c ∷ cs) = nat_beq c b'/'

-- `''`, `'.'`, `'..'` or a text that starts with `'../'`.
abbrev pub is_outside : List ℕ → Bool
is_outside [] = true
is_outside (a ∷ []) = nat_beq a b'.'
is_outside (a ∷ b ∷ []) = nat_beq a b'.' && nat_beq b b'.'
is_outside (a ∷ b ∷ c ∷ cs) = nat_beq a b'.' && nat_beq b b'.' && nat_beq c b'/'

-- The answer of a glob match that is used with the budget that it leaves.
abbrev pub with_answer {ℓ} :
    {A : Type ℓ} → Option (Result (Bool × ℕ)) → (Bool → ℕ → Option (Result A)) → Option (Result A)
with_answer none next = none
with_answer (some (err e)) next = some (err e)
with_answer (some (ok (answer, left))) next = next answer left

abbrev pub refuse_if {ℓ} : {A : Type ℓ} → Bool → String → Option (Result A) → Option (Result A)
refuse_if true e next = some (err (harness_error e))
refuse_if false e next = next

abbrev pub after_result {ℓ κ} :
    {A : Type ℓ} {B : Type κ} → Option (Result A) → (A → Option (Result B)) → Option (Result B)
after_result none next = none
after_result (some (err e)) next = some (err e)
after_result (some (ok a)) next = next a

module _ (posix_normalize : List ℕ → List ℕ) where
  unfoldable pub normalize_and_validate_relative_path : List ℕ → Result (List ℕ)
  normalize_and_validate_relative_path value = do
    throw_if (contains value 0) (harness_error "INVALID_PATH")
    throw_if
        (is_outside (normalize_path (posix_normalize (normalize_path value)))
          || is_rooted (normalize_path (posix_normalize (normalize_path value))))
        (harness_error "INVALID_PATH")
    ok (normalize_path (posix_normalize (normalize_path value)))

  module _ (policy : PathPolicy) where
    -- `assertAllowedWithBudget`, with the budget that is left.
    unfoldable pub assert_allowed_with_budget : List ℕ → ℕ → Option (Result ℕ)
    assert_allowed_with_budget normalized budget =
        with_answer (matches_any_glob normalized policy.allowed_paths budget) λ is_allowed left.
          refuse_if (not is_allowed) "PATH_NOT_ALLOWED" (
            with_answer (matches_any_glob normalized policy.prohibited_paths left)
              λ is_prohibited rest.
                refuse_if is_prohibited "SENSITIVE_PATH_DENIED" (some (ok rest)))

    unfoldable pub is_allowed : List ℕ → Option (Result Bool)
    is_allowed relative_path =
        after_result (some (normalize_and_validate_relative_path relative_path)) λ normalized.
          with_answer (matches_any_glob normalized policy.allowed_paths max_glob_states)
            λ allowed left.
              if allowed
              then with_answer (matches_any_glob normalized policy.prohibited_paths left)
                  (λ bad rest. some (ok (not bad)))
              else some (ok false)

    unfoldable pub is_prohibited : List ℕ → Option (Result Bool)
    is_prohibited relative_path =
        after_result (some (normalize_and_validate_relative_path relative_path)) λ normalized.
          with_answer (matches_any_glob normalized policy.prohibited_paths max_glob_states)
            λ bad rest. some (ok bad)

    unfoldable pub assert_allowed : List ℕ → Option (Result (List ℕ))
    assert_allowed relative_path =
        after_result (some (normalize_and_validate_relative_path relative_path)) λ normalized.
          after_result (assert_allowed_with_budget normalized max_glob_states)
            λ left. some (ok normalized)

    unfoldable pub assert_writable : List ℕ → Option (Result (List ℕ))
    assert_writable relative_path =
        after_result (some (normalize_and_validate_relative_path relative_path)) λ normalized.
          after_result (assert_allowed_with_budget normalized max_glob_states) λ left.
            with_answer (matches_any_glob normalized policy.write_prohibited_paths left)
              λ bad rest. refuse_if bad "CONTROL_PATH_WRITE_DENIED" (some (ok normalized))

-- What `lstat` tells of a path.
pub data Lstat : Type 0 where
  missing : Lstat
  unreadable : HarnessError → Lstat
  symbolic_link : Lstat
  regular_file : ℕ → Lstat
  other_entry : Lstat

-- The parts of `path` and `fs` that a policy uses, for its root.
pub record FileSystem : Type 0 where
  pub resolve : List ℕ → List ℕ
  pub relative_to_root : List ℕ → List ℕ
  pub lstat : List ℕ → Lstat

-- `relative.startsWith('..') || path.isAbsolute(relative)`
abbrev pub escapes : List ℕ → Bool
escapes (a ∷ b ∷ cs) = (nat_beq a b'.' && nat_beq b b'.') || nat_beq a b'/'
escapes cs = is_rooted cs

unfoldable pub assert_safe_entry : Lstat → Result (Unit {0})
assert_safe_entry missing = ok tt
assert_safe_entry (unreadable e) = err e
assert_safe_entry symbolic_link = err (harness_error "CHANGED_SYMLINK_DENIED")
assert_safe_entry other_entry = err (harness_error "UNSUPPORTED_CHANGED_FILE_TYPE")
assert_safe_entry (regular_file links) = throw_if (ltb 1 links) (harness_error "HARD_LINK_DENIED")

-- `assertSafeChangedPath`
unfoldable pub assert_safe_changed_path :
    (List ℕ → List ℕ) → FileSystem → PathPolicy → List ℕ → Option (Result (List ℕ))
assert_safe_changed_path posix_normalize fs policy relative_path =
    after_result (assert_writable posix_normalize policy relative_path) λ normalized.
      refuse_if (escapes (fs.relative_to_root (fs.resolve normalized))) "PATH_TRAVERSAL_DENIED" (
        after_result (some (assert_safe_entry (fs.lstat (fs.resolve normalized))))
          λ u. some (ok normalized))
