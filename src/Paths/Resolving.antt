-- ===== src/Paths/Resolving.antt =====
-- security/path-policy.ts: `resolveForRead` and `resolveForWrite`, over a file system with links. An error of the
-- file system is kept by its code, as those of the harness are.
pub mod Links
use agent_harness_os.Base.{
  ℕ, zero, suc, Bool, true, false, ◌&&◌, Option, none, some, List, [], ◌∷◌, ltb, nat_beq, length,
  harness_error, Result, ok, err, ◌>>=◌, ◌>>◌, throw_if,
}
use agent_harness_os.Paths.{
  PathPolicy, refuse_if, after_result, assert_allowed, assert_writable, Lstat, missing, unreadable,
  symbolic_link, regular_file, other_entry, FileSystem, escapes,
}

-- The parts of `path` and `fs` that follow links or go up.
pub record LinkedFiles : Type 0 where
  pub files : FileSystem
  -- `realpath` of the policy's root, and of a path.
  pub real_root : Result (List ℕ)
  pub realpath : List ℕ → Result (List ℕ)
  pub relative : List ℕ → List ℕ → List ℕ
  pub stat : List ℕ → Lstat
  pub dirname : List ℕ → List ℕ

unfoldable pub assert_safe_link_count : ℕ → Result (Unit {0})
assert_safe_link_count links = throw_if (ltb 1 links) (harness_error "HARD_LINK_DENIED")

unfoldable pub same_path : List ℕ → List ℕ → Bool
same_path [] [] = true
same_path [] (d ∷ ds) = false
same_path (c ∷ cs) [] = false
same_path (c ∷ cs) (d ∷ ds) = nat_beq c d && same_path cs ds

-- The test of the target of a link, which `stat` has followed.
unfoldable pub check_target : Lstat → Result (Unit {0})
check_target missing = err (harness_error "ENOENT")
check_target (unreadable e) = err e
check_target symbolic_link = ok tt
check_target (regular_file links) = assert_safe_link_count links
check_target other_entry = ok tt

-- The test of the entry that is written to.
unfoldable pub check_overwritten : Lstat → Result (Unit {0})
check_overwritten missing = ok tt
check_overwritten (unreadable e) = err e
check_overwritten symbolic_link = err (harness_error "SYMLINK_WRITE_DENIED")
check_overwritten (regular_file links) = assert_safe_link_count links
check_overwritten other_entry = ok tt

-- One round of the search for an existing parent, where `rest` are the rounds that follow.
abbrev pub parent_found :
    Lstat → List ℕ → Bool → Option (Result (List ℕ)) → Option (Result (List ℕ))
parent_found missing current true rest = some (err (harness_error "PATH_RESOLUTION_FAILED"))
parent_found missing current false rest = rest
parent_found (unreadable e) current at_top rest = some (err e)
parent_found symbolic_link current at_top rest = some (ok current)
parent_found (regular_file links) current at_top rest = some (ok current)
parent_found other_entry current at_top rest = some (ok current)

module _ (disk : LinkedFiles) where
  unfoldable pub assert_inside_root : List ℕ → Result (Unit {0})
  assert_inside_root candidate = do
    root ← disk.real_root
    resolved ← disk.realpath candidate
    throw_if (escapes (disk.relative root resolved)) (harness_error "PATH_TRAVERSAL_DENIED")

  -- What `resolveForRead` asks of the entry that it finds.
  unfoldable pub check_entry : List ℕ → Lstat → Result (Unit {0})
  check_entry candidate missing = err (harness_error "ENOENT")
  check_entry candidate (unreadable e) = err e
  check_entry candidate symbolic_link = do
    target ← disk.realpath candidate
    assert_inside_root target
    check_target (disk.stat target)
  check_entry candidate (regular_file links) = assert_safe_link_count links
  check_entry candidate other_entry = ok tt

  -- The loop runs on fuel.
  unfoldable pub find_existing_parent : ℕ → List ℕ → Option (Result (List ℕ))
  find_existing_parent zero current = none
  find_existing_parent (suc fuel) current =
      let rest = find_existing_parent fuel (disk.dirname current) in
      parent_found (disk.files.lstat current) current (same_path (disk.dirname current) current)
        rest

  module _ (posix_normalize : List ℕ → List ℕ) (policy : PathPolicy) where
    unfoldable pub resolve_for_read : List ℕ → Option (Result (List ℕ))
    resolve_for_read relative_path =
        after_result (assert_allowed posix_normalize policy relative_path) λ normalized. some (do
          assert_inside_root (disk.files.resolve normalized)
          check_entry (disk.files.resolve normalized)
              (disk.files.lstat (disk.files.resolve normalized))
          ok (disk.files.resolve normalized))

    -- The search for a parent gets a round for each character of the path, and one more.
    unfoldable pub resolve_for_write : List ℕ → Option (Result (List ℕ))
    resolve_for_write relative_path =
        after_result (assert_writable posix_normalize policy relative_path) λ normalized.
          refuse_if (escapes (disk.files.relative_to_root (disk.files.resolve normalized)))
            "PATH_TRAVERSAL_DENIED"
            (after_result
              (some (check_overwritten (disk.files.lstat (disk.files.resolve normalized))))
              λ u.
                after_result
                  (find_existing_parent
                    (suc (length (disk.dirname (disk.files.resolve normalized))))
                    (disk.dirname (disk.files.resolve normalized)))
                  λ existing_parent.
                    some
                      (do assert_inside_root existing_parent; ok (disk.files.resolve normalized)))
