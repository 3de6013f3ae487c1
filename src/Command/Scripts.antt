-- ===== src/Command/Scripts.antt =====
-- security/command-policy.ts: a script is prohibited by a part of its name between colons.
use agent_harness_os.Base.{
  ℕ, String, ◌≡◌, refl, sym, ap, subst, ◌∙◌, inl, inr, Bool, true, false, not, ◌&&◌, ◌||◌, some,
  List, [], ◌∷◌, arith, if◌then◌else◌, Bool-cases, ◌==◌, nat_eq, string_eq, option_eq, not-eq-false,
  codes, All, any, all, contains, In, harness_error, ok, throw_if-eq-ok, throw_if_inv, contains-In,
}
use agent_harness_os.Domain.{CommandSpec, worker_mode_eq, capability_eq, run_status_eq}
use agent_harness_os.Command.{
  colon, to_lower, is_prohibited_argument, destructive_words, word_here, search_script,
  is_prohibited_script, is_package_manager, allowed_package_manager_actions,
  get_package_manager_action, get_run_script_candidates, assert_action, assert_allowed,
}

-- The parts of a text between its colons.
pub first_segment : List ℕ → List ℕ
first_segment [] = []
first_segment (c ∷ cs) = if c == colon then [] else c ∷ first_segment cs

pub other_segments : List ℕ → List (List ℕ)
other_segments [] = []
other_segments (c ∷ cs) =
    if c == colon then first_segment cs ∷ other_segments cs else other_segments cs

-- A segment is a word, in either case.
pub is_word : List ℕ → List ℕ → Bool
is_word [] [] = true
is_word [] (c ∷ cs) = false
is_word (w ∷ ws) [] = false
is_word (w ∷ ws) (c ∷ cs) = to_lower c == w && is_word ws cs

abbrev pub is_destructive : List ℕ → Bool
is_destructive segment = any (λ w. is_word w segment) destructive_words

abbrev HasNoColon : List ℕ → Type 0
HasNoColon w = all (λ c. not (c == colon)) w ≡ true

all-tail : (w : ℕ) (ws : List ℕ) → HasNoColon (w ∷ ws) → (not (w == colon) ≡ true) × HasNoColon ws
all-tail w ws h = ground arith

colon_differs :
    (c w : ℕ) → (c == colon) ≡ true → not (w == colon) ≡ true → (to_lower c == w) ≡ false
colon_differs c w h k = ground arith

word_here-is_word : (w cs : List ℕ) → HasNoColon w → word_here w cs ≡ is_word w (first_segment cs)
unfolding word_here is_word first_segment
word_here-is_word [] [] h = refl
word_here-is_word [] (c ∷ cs) h = elim (Bool-cases (c == colon)) [
  | inl found ↦ rw found refl
  | inr off ↦ rw off refl
]
word_here-is_word (w ∷ ws) [] h = refl
word_here-is_word (w ∷ ws) (c ∷ cs) h =
    let (differs, rest) = all-tail w ws h in
    elim (Bool-cases (c == colon)) [
      | inl here ↦ rw (here, colon_differs c w here differs) refl
      | inr off ↦ rw off (ap (λ b. to_lower c == w && b) (word_here-is_word ws cs rest))
    ]

any-same :
    (ws : List (List ℕ)) (cs : List ℕ)
    → All HasNoColon ws
    → any (λ w. word_here w cs) ws ≡ any (λ w. is_word w (first_segment cs)) ws
any-same [] cs h = refl
any-same (w ∷ ws) cs h = cc (word_here-is_word w cs h.0, any-same ws cs h.1)

words_without_colon : All HasNoColon destructive_words
words_without_colon = (refl, (refl, (refl, (refl, (refl, (refl, (refl, (refl, (refl, tt)))))))))

or_false : (a b c : Bool) → b ≡ c → (a || b) ≡ (a || c)
or_false a b c h = ap (λ x. a || x) h

-- The search over a text is a test of its segments.
search_script-segments :
    (boundary : Bool) (cs : List ℕ)
    → search_script boundary cs
      ≡ ((boundary && is_destructive (first_segment cs)) || any is_destructive (other_segments cs))
unfolding search_script other_segments
search_script-segments boundary [] =
    ground (arith, any-same destructive_words [] words_without_colon)
search_script-segments boundary (c ∷ cs) =
    let here = any-same destructive_words (c ∷ cs) words_without_colon in
    let later = search_script-segments (c == colon) cs in
    elim (Bool-cases (c == colon)) [
      | inl found ↦ rw (here, later, found, other_segments) refl
      | inr off ↦ rw (here, later, off, other_segments) refl
    ]

abbrev pub segments : List ℕ → List (List ℕ)
segments cs = first_segment cs ∷ other_segments cs

-- A script name is prohibited exactly if one of its parts between colons is, in either case, one of the
-- destructive words.
pub is_prohibited_script-segments :
    (script : String) → is_prohibited_script script ≡ any is_destructive (segments (codes script))
unfolding is_prohibited_script
is_prohibited_script-segments script = search_script-segments true (codes script)

or-false-parts : (a b : Bool) → (a || b) ≡ false → (a ≡ false) × (b ≡ false)
or-false-parts a b h = ground arith

any-false :
    {A : Type 0} (p : A → Bool) (xs : List A) → any p xs ≡ false → (x : A) → In x xs → p x ≡ false
any-false p [] h x m = absurd m
any-false p (y ∷ ys) h x (inl e) = ap p e ∙ (or-false-parts (p y) (any p ys) h).0
any-false p (y ∷ ys) h x (inr m) = any-false p ys (or-false-parts (p y) (any p ys) h).1 x m

-- What a package manager's command must keep, by its action.
pub record IsSafeAction (specification : CommandSpec) (action : String) : Type 0 where
  pub allowed_action : In action (allowed_package_manager_actions specification.command)
  pub harmless :
      (script : String)
      → In script (get_run_script_candidates specification.args action)
      → (segment : List ℕ) → In segment (segments (codes script))
      → is_destructive segment ≡ false

assert_action-IsSafeAction :
    (specification : CommandSpec) (action : String)
    → assert_action specification (some action) ≡ ok tt
    → IsSafeAction specification action
unfolding assert_action
assert_action-IsSafeAction specification action h =
    let (known, scripts) =
      throw_if_inv (not (contains (allowed_package_manager_actions specification.command) action))
        (harness_error "PACKAGE_MUTATION_DENIED") _ h in
    let clean =
      throw_if-eq-ok
        (any is_prohibited_script (get_run_script_candidates specification.args action))
        (harness_error "COMMAND_SCRIPT_DENIED") scripts in
    record {
      allowed_action =
          (contains-In (allowed_package_manager_actions specification.command) action).0
            (not-eq-false known);
      harmless = λ script m segment n.
          any-false is_destructive (segments (codes script))
            (sym (is_prohibited_script-segments script)
              ∙ any-false is_prohibited_script (get_run_script_candidates specification.args action)
                  clean script m)
            segment n;
    }

-- A command that is allowed is in the allowlist and has no prohibited argument; and if it is a package
-- manager's with an action, then the action is one of those of that manager, and no script that it names
-- has a destructive word between its colons.
pub assert_allowed-IsSafeAction :
    (allowed_commands : List String) (specification : CommandSpec)
    → assert_allowed allowed_commands specification ≡ ok tt
    → In specification.command allowed_commands
      × ((a : String) → In a specification.args → is_prohibited_argument a ≡ false)
      × ((action : String)
          → is_package_manager specification.command ≡ true
          → get_package_manager_action specification.args ≡ some action
          → IsSafeAction specification action)
unfolding assert_allowed
assert_allowed-IsSafeAction allowed_commands specification h =
    let (listed, h1) =
      throw_if_inv (not (contains allowed_commands specification.command))
        (harness_error "COMMAND_NOT_ALLOWED") _ h in
    let (clean, h2) =
      throw_if_inv (any is_prohibited_argument specification.args)
        (harness_error "COMMAND_ARGUMENT_DENIED") _ h1 in
    (
      (contains-In allowed_commands specification.command).0 (not-eq-false listed),
      any-false is_prohibited_argument specification.args clean,
      λ action manager found.
          assert_action-IsSafeAction specification action
            (subst (λ o. assert_action specification o ≡ ok tt) found (rw manager at h2)),
    )
