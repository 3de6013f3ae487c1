-- ===== src/Paths/Resolving/Links.antt =====
-- security/path-policy.ts: a path that is resolved for reading or writing stays inside the repository, with the
-- links on the way followed.
use agent_harness_os.Base.{
  ℕ, zero, suc, ◌≤◌, ◌≡◌, refl, sym, subst, ◌⊎◌, inl, inr, Bool, true, false, Option, some, List,
  ltb, ltb-eq-false, some-same, length, Result, ok, >>=-eq-ok, throw_if-eq-ok, ok-injective,
}
use agent_harness_os.Paths.{
  PathPolicy, assert_allowed, assert_writable, Lstat, missing, unreadable, symbolic_link,
  regular_file, other_entry, escapes,
}
use agent_harness_os.Paths.Safe.{
  IsAllowed, IsWritable, after_result_inv, refuse_if_inv, some-ok, assert_allowed-IsAllowed,
  assert_writable-IsWritable,
}
use agent_harness_os.Paths.Resolving.{
  LinkedFiles, assert_safe_link_count, same_path, check_target, check_overwritten, parent_found,
  assert_inside_root, check_entry, find_existing_parent, resolve_for_read, resolve_for_write,
}

-- A path whose links lead to a place inside the root.
pub record IsInsideRoot (disk : LinkedFiles) (path : List ℕ) : Type 0 where
  pub root : List ℕ
  pub place : List ℕ
  pub root_found : disk.real_root ≡ ok root
  pub place_found : disk.realpath path ≡ ok place
  pub stays : escapes (disk.relative root place) ≡ false

-- A path, or one of the directories above it.
pub data Above (disk : LinkedFiles) : List ℕ → List ℕ → Type 0 where
  itself : {path : List ℕ} → Above disk path path
  higher : {path top : List ℕ} → Above disk (disk.dirname path) top → Above disk path top

module _ (disk : LinkedFiles) where
  assert_inside_root-IsInsideRoot :
      (path : List ℕ) (u : Unit {0}) → assert_inside_root disk path ≡ ok u → IsInsideRoot disk path
  unfolding assert_inside_root
  assert_inside_root-IsInsideRoot path u h =
      let (root, root_found, h1) = >>=-eq-ok disk.real_root _ h in
      let (place, place_found, h2) = >>=-eq-ok (disk.realpath path) _ h1 in
      record {
        root = root;
        place = place;
        root_found = root_found;
        place_found = place_found;
        stays = throw_if-eq-ok _ _ h2;
      }

  link_count_lem : (links : ℕ) (u : Unit {0}) → assert_safe_link_count links ≡ ok u → links ≤ 1
  unfolding assert_safe_link_count
  link_count_lem links u h = ltb-eq-false (throw_if-eq-ok (ltb 1 links) _ h)

  parent_found_inv :
      (entry : Lstat) (current : List ℕ) (at_top : Bool) (rest : Option (Result (List ℕ)))
      (top : List ℕ)
      → parent_found entry current at_top rest ≡ some (ok top)
      → ((top ≡ current) × ¬ (entry ≡ missing)) ⊎ (rest ≡ some (ok top))
  parent_found_inv missing current true rest top h = absurd (cc)
  parent_found_inv missing current false rest top h = inr h
  parent_found_inv (unreadable e) current at_top rest top h = absurd (cc)
  parent_found_inv symbolic_link current at_top rest top h = inl (sym (some-ok h), λ m. cc)
  parent_found_inv (regular_file links) current at_top rest top h = inl (sym (some-ok h), λ m. cc)
  parent_found_inv other_entry current at_top rest top h = inl (sym (some-ok h), λ m. cc)

  -- The search finds a directory that is there, at or above the path.
  find_existing_parent_lem :
      (fuel : ℕ) (path top : List ℕ)
      → find_existing_parent disk fuel path ≡ some (ok top)
      → Above disk path top × ¬ (disk.files.lstat top ≡ missing)
  unfolding find_existing_parent
  find_existing_parent_lem zero path top h = absurd (cc)
  find_existing_parent_lem (suc fuel) path top h =
      elim (parent_found_inv (disk.files.lstat path) path (same_path (disk.dirname path) path)
        (find_existing_parent disk fuel (disk.dirname path)) top h) [
          | inl (same, there) ↦
              subst (λ x. Above disk path x × ¬ (disk.files.lstat x ≡ missing)) (sym same)
                (itself, there)
          | inr further ↦
              let (above, there) = find_existing_parent_lem fuel (disk.dirname path) top further in
              (higher above, there)
        ]

  links_of : {a b : ℕ} → regular_file a ≡ regular_file b → a ≡ b
  links_of m = cc

  target_lem :
      (links : ℕ) (entry : Lstat) (u : Unit {0})
      → entry ≡ regular_file links
      → check_target entry ≡ ok u
      → links ≤ 1
  unfolding check_target
  target_lem links entry u m h = link_count_lem links u (subst (λ x. check_target x ≡ ok u) m h)

  entry_written_lem :
      (entry : Lstat) (u : Unit {0})
      → some (check_overwritten entry) ≡ some (ok u)
      → ¬ (entry ≡ symbolic_link) × ((links : ℕ) → entry ≡ regular_file links → links ≤ 1)
  unfolding check_overwritten
  entry_written_lem missing u h = (λ m. cc, λ links m. absurd (cc))
  entry_written_lem (unreadable e) u h = absurd (cc)
  entry_written_lem symbolic_link u h = absurd (cc)
  entry_written_lem other_entry u h = (λ m. cc, λ links m. absurd (cc))
  entry_written_lem (regular_file n) u h =
      (λ m. cc, λ links m. subst (λ x. x ≤ 1) (links_of m) (link_count_lem n u (some-same h)))

  -- A path that is resolved for writing belongs to a path that the policy lets a worker write, lies in the root,
  -- is no symbolic link and no file with several links, and the directory at or above its own that is there leads,
  -- with all links followed, to a place inside the root.
  pub write_stays_inside :
      (posix_normalize : List ℕ → List ℕ) (policy : PathPolicy) (value path : List ℕ)
      → resolve_for_write disk posix_normalize policy value ≡ some (ok path)
      → ((n : List ℕ) × IsWritable policy n × (path ≡ disk.files.resolve n))
        × (escapes (disk.files.relative_to_root path) ≡ false)
        × ¬ (disk.files.lstat path ≡ symbolic_link)
        × ((links : ℕ) → disk.files.lstat path ≡ regular_file links → links ≤ 1)
        × ((top : List ℕ) × Above disk (disk.dirname path) top
            × (¬ (disk.files.lstat top ≡ missing))
            × IsInsideRoot disk top)
  unfolding resolve_for_write
  write_stays_inside posix_normalize policy value path h =
      let (n, first, h1) =
        after_result_inv (assert_writable posix_normalize policy value) _ path h in
      let (stays, h2) =
        refuse_if_inv (escapes (disk.files.relative_to_root (disk.files.resolve n))) _ _ path h1 in
      let (u, entry, h3) =
        after_result_inv (some (check_overwritten (disk.files.lstat (disk.files.resolve n)))) _ path
          h2 in
      let (top, found, h4) =
        after_result_inv
          (find_existing_parent disk (suc (length (disk.dirname (disk.files.resolve n))))
            (disk.dirname (disk.files.resolve n)))
          _ path h3 in
      let (v, inside, h5) = >>=-eq-ok (assert_inside_root disk top) _ (some-same h4) in
      let (no_link, links) = entry_written_lem (disk.files.lstat (disk.files.resolve n)) u entry in
      let (above, there) =
        find_existing_parent_lem _ (disk.dirname (disk.files.resolve n)) top found in
      subst
        (λ x.
          ((n : List ℕ) × IsWritable policy n × (x ≡ disk.files.resolve n))
          × (escapes (disk.files.relative_to_root x) ≡ false)
          × ¬ (disk.files.lstat x ≡ symbolic_link)
          × ((links : ℕ) → disk.files.lstat x ≡ regular_file links → links ≤ 1)
          × ((top : List ℕ) × Above disk (disk.dirname x) top
              × (¬ (disk.files.lstat top ≡ missing))
              × IsInsideRoot disk top))
        (ok-injective h5)
        (
          (n, assert_writable-IsWritable posix_normalize policy value n first, refl),
          stays,
          no_link,
          links,
          (top, above, there, assert_inside_root-IsInsideRoot top v inside),
        )

  entry_read_lem :
      (path : List ℕ) (entry : Lstat) (u : Unit {0})
      → check_entry disk path entry ≡ ok u
      → ¬ (entry ≡ missing)
        × ((links : ℕ) → entry ≡ regular_file links → links ≤ 1)
        × (entry ≡ symbolic_link
            → (target : List ℕ) × (disk.realpath path ≡ ok target)
              × IsInsideRoot disk target
              × ((links : ℕ) → disk.stat target ≡ regular_file links → links ≤ 1))
  unfolding check_entry
  entry_read_lem path missing u h = absurd (cc)
  entry_read_lem path (unreadable e) u h = absurd (cc)
  entry_read_lem path other_entry u h = (λ m. cc, λ links m. absurd (cc), λ m. absurd (cc))
  entry_read_lem path (regular_file n) u h =
      (λ m. cc, λ links m. subst (λ x. x ≤ 1) (links_of m) (link_count_lem n u h), λ m. absurd (cc))
  entry_read_lem path symbolic_link u h =
      let (target, found, h1) = >>=-eq-ok (disk.realpath path) _ h in
      let (v, inside, h2) = >>=-eq-ok (assert_inside_root disk target) _ h1 in
      (
        λ m. cc,
        λ links m. absurd (cc),
        λ m. (
          target,
          found,
          assert_inside_root-IsInsideRoot target v inside,
          λ links entry. target_lem links (disk.stat target) u entry h2,
        ),
      )

  -- A path that is resolved for reading belongs to a path that the policy allows, is there, leads to a place inside
  -- the root, and is no file with several links; where it is a symbolic link, its target leads to a place inside
  -- the root and is no file with several links.
  pub read_stays_inside :
      (posix_normalize : List ℕ → List ℕ) (policy : PathPolicy) (value path : List ℕ)
      → resolve_for_read disk posix_normalize policy value ≡ some (ok path)
      → ((n : List ℕ) × IsAllowed policy n × (path ≡ disk.files.resolve n))
        × IsInsideRoot disk path
        × (¬ (disk.files.lstat path ≡ missing))
        × ((links : ℕ) → disk.files.lstat path ≡ regular_file links → links ≤ 1)
        × (disk.files.lstat path ≡ symbolic_link
            → (target : List ℕ) × (disk.realpath path ≡ ok target)
              × IsInsideRoot disk target
              × ((links : ℕ) → disk.stat target ≡ regular_file links → links ≤ 1))
  unfolding resolve_for_read
  read_stays_inside posix_normalize policy value path h =
      let (n, first, h1) =
        after_result_inv (assert_allowed posix_normalize policy value) _ path h in
      let (u, inside, h2) =
        >>=-eq-ok (assert_inside_root disk (disk.files.resolve n)) _ (some-same h1) in
      let (v, entry, h3) =
        >>=-eq-ok
          (check_entry disk (disk.files.resolve n) (disk.files.lstat (disk.files.resolve n))) _
          h2 in
      let (there, one_link, followed) =
        entry_read_lem (disk.files.resolve n) (disk.files.lstat (disk.files.resolve n)) v entry in
      subst
        (λ x.
          ((n : List ℕ) × IsAllowed policy n × (x ≡ disk.files.resolve n))
          × IsInsideRoot disk x
          × (¬ (disk.files.lstat x ≡ missing))
          × ((links : ℕ) → disk.files.lstat x ≡ regular_file links → links ≤ 1)
          × (disk.files.lstat x ≡ symbolic_link
              → (target : List ℕ) × (disk.realpath x ≡ ok target)
                × IsInsideRoot disk target
                × ((links : ℕ) → disk.stat target ≡ regular_file links → links ≤ 1)))
        (ok-injective h3)
        (
          (n, assert_allowed-IsAllowed posix_normalize policy value n first, refl),
          assert_inside_root-IsInsideRoot (disk.files.resolve n) u inside,
          there,
          one_link,
          followed,
        )
