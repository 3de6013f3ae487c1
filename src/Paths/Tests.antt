-- ===== src/Paths/Tests.antt =====
-- security/path-policy.ts: a changed source file, and one of the control plane.
use agent_harness_os.Base.{
  ℕ, ◌≤◌, String, ◌≡◌, refl, sym, ap, ◌⊎◌, inl, inr, true, false, false≢true, some, List, [], ◌∷◌,
  ◌++◌, map, arith, ==_sound, nat_eq, string_eq, option_eq, codes, length, drop, In, harness_error,
  Result, ok, err,
}
use agent_harness_os.Glob.{
  normalize_path, match_normalized_glob, match_glob, some_glob, matches_any_glob,
}
use agent_harness_os.Paths.{
  PathPolicy, new_path_policy, is_rooted, is_outside, normalize_and_validate_relative_path,
  assert_allowed_with_budget, assert_allowed, assert_writable, missing, symbolic_link, regular_file,
  FileSystem, escapes, assert_safe_entry, assert_safe_changed_path,
}
use agent_harness_os.Paths.Defaults.{default_prohibited_paths, default_write_prohibited_paths}
use agent_harness_os.Paths.Safe.{Fits, IsAllowed, IsWritable, changed_path_is_safe}
use agent_harness_os.Paths.Resolving.{
  LinkedFiles, assert_safe_link_count, same_path, check_overwritten, assert_inside_root,
  check_entry, find_existing_parent, resolve_for_read, resolve_for_write,
}
use agent_harness_os.Paths.Resolving.Links.{
  IsInsideRoot, Above, write_stays_inside, read_stays_inside,
}
use agent_harness_os.Paths.Total.{DirnameGoesUp, resolve_for_write_total}

abbrev src_policy : Result PathPolicy
src_policy = new_path_policy (codes "src/**" ∷ []) (codes "src/gen/**" ∷ [])

abbrev made_policy : PathPolicy
made_policy = record {
  allowed_paths = codes "src/**" ∷ [];
  prohibited_paths = map codes default_prohibited_paths ++ codes "src/gen/**" ∷ [];
  write_prohibited_paths = map codes default_write_prohibited_paths;
}

policy_made : src_policy ≡ ok made_policy
unfolding new_path_policy
policy_made = refl

-- A repository in which every path is a regular file with one link.
abbrev plain_files : FileSystem
plain_files = record {
  resolve = λ path. path;
  relative_to_root = λ path. path;
  lstat = λ path. regular_file 1;
}

source_changed :
    assert_safe_changed_path (λ path. path) plain_files made_policy (codes "./src/a")
    ≡ some (ok (codes "src/a"))
unfolding assert_safe_changed_path assert_writable assert_allowed_with_budget assert_safe_entry
    normalize_and_validate_relative_path matches_any_glob match_glob normalize_path
    match_normalized_glob
source_changed = refl

manifest_denied :
    assert_safe_changed_path (λ path. path) plain_files made_policy (codes "src/go.mod")
    ≡ some (err (harness_error "CONTROL_PATH_WRITE_DENIED"))
unfolding assert_safe_changed_path assert_writable assert_allowed_with_budget assert_safe_entry
    normalize_and_validate_relative_path matches_any_glob match_glob normalize_path
    match_normalized_glob
manifest_denied = refl

changed_path_is_safe_example :
    (is_outside (codes "src/a") ≡ false)
    × (is_rooted (codes "src/a") ≡ false)
    × ((p : List ℕ) × In p (codes "src/**" ∷ []) × Fits p (codes "src/a"))
    × ((p : List ℕ) → In p (codes "src/gen/**" ∷ []) → ¬ Fits p (codes "src/a"))
    × ((s : String) → In s default_prohibited_paths → ¬ Fits (codes s) (codes "src/a"))
    × ((s : String) → In s default_write_prohibited_paths → ¬ Fits (codes s) (codes "src/a"))
    × (escapes (plain_files.relative_to_root (plain_files.resolve (codes "src/a"))) ≡ false)
    × ((plain_files.lstat (plain_files.resolve (codes "src/a")) ≡ missing)
        ⊎ ((links : ℕ) × (plain_files.lstat (plain_files.resolve (codes "src/a"))
              ≡ regular_file links)
            × (links ≤ 1)))
changed_path_is_safe_example =
    changed_path_is_safe (λ path. path) plain_files (codes "src/**" ∷ []) (codes "src/gen/**" ∷ [])
      made_policy (codes "./src/a") (codes "src/a") policy_made source_changed

-- The same files under a root `/`, without links.
abbrev plain_disk : LinkedFiles
plain_disk = record {
  files = record {
    resolve = λ path. b'/' ∷ path;
    relative_to_root = λ path. drop 1 path;
    lstat = λ path. regular_file 1;
  };
  real_root = ok (codes "/");
  realpath = ok;
  relative = λ from to. drop (length from) to;
  stat = λ path. regular_file 1;
  dirname = λ path. codes "/";
}

top_path : (path : List ℕ) → is_rooted path ≡ true → (codes "/" ≡ path) ⊎ (2 ≤ length path)
top_path [] h = absurd (false≢true h)
top_path (c ∷ []) h = inl (ap (λ x. x ∷ []) (sym (==_sound c b'/' h)))
top_path (c ∷ d ∷ cs) h = inr (omega arith)

plain_disk-DirnameGoesUp : DirnameGoesUp plain_disk
plain_disk-DirnameGoesUp path h = (refl, top_path path h)

source_written :
    resolve_for_write plain_disk (λ path. path) made_policy (codes "./src/a")
    ≡ some (ok (codes "/src/a"))
unfolding resolve_for_write find_existing_parent assert_inside_root check_overwritten
    assert_safe_link_count same_path assert_writable assert_allowed_with_budget
    normalize_and_validate_relative_path matches_any_glob some_glob match_glob normalize_path
    match_normalized_glob
source_written = refl

source_read :
    resolve_for_read plain_disk (λ path. path) made_policy (codes "src/a")
    ≡ some (ok (codes "/src/a"))
unfolding resolve_for_read assert_inside_root check_entry assert_safe_link_count assert_allowed
    assert_allowed_with_budget normalize_and_validate_relative_path matches_any_glob some_glob
    match_glob normalize_path match_normalized_glob
source_read = refl

write_stays_inside_example :
    ((n : List ℕ) × IsWritable made_policy n × (codes "/src/a" ≡ plain_disk.files.resolve n))
    × (escapes (plain_disk.files.relative_to_root (codes "/src/a")) ≡ false)
    × ¬ (plain_disk.files.lstat (codes "/src/a") ≡ symbolic_link)
    × ((links : ℕ) → plain_disk.files.lstat (codes "/src/a") ≡ regular_file links → links ≤ 1)
    × ((top : List ℕ) × Above plain_disk (plain_disk.dirname (codes "/src/a")) top
        × (¬ (plain_disk.files.lstat top ≡ missing))
        × IsInsideRoot plain_disk top)
write_stays_inside_example =
    write_stays_inside plain_disk (λ path. path) made_policy (codes "./src/a") (codes "/src/a")
      source_written

read_stays_inside_example :
    ((n : List ℕ) × IsAllowed made_policy n × (codes "/src/a" ≡ plain_disk.files.resolve n))
    × IsInsideRoot plain_disk (codes "/src/a")
    × (¬ (plain_disk.files.lstat (codes "/src/a") ≡ missing))
    × ((links : ℕ) → plain_disk.files.lstat (codes "/src/a") ≡ regular_file links → links ≤ 1)
    × (plain_disk.files.lstat (codes "/src/a") ≡ symbolic_link
        → (target : List ℕ) × (plain_disk.realpath (codes "/src/a") ≡ ok target)
          × IsInsideRoot plain_disk target
          × ((links : ℕ) → plain_disk.stat target ≡ regular_file links → links ≤ 1))
read_stays_inside_example =
    read_stays_inside plain_disk (λ path. path) made_policy (codes "src/a") (codes "/src/a")
      source_read

resolve_for_write_total_example :
    (r : Result (List ℕ)) × (resolve_for_write plain_disk
        (λ path. path)
        made_policy
        (codes "./src/a")
      ≡ some r)
resolve_for_write_total_example =
    resolve_for_write_total plain_disk plain_disk-DirnameGoesUp (λ n. refl) (λ path. path)
      made_policy (codes "./src/a")
