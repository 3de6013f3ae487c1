-- ===== src/Glob/Search.antt =====
-- lib/glob.ts: the worklist explores exactly the states that can be reached, and stops.
use agent_harness_os.Base.{
  ℕ, zero, suc, ◌+◌, ◌*◌, ◌≤◌, ◌≡◌, refl, inl, inr, Bool, true, false, some, List, [], ◌∷◌, ◌++◌,
  arith, Bool-cases, nat_eq, string_eq, option_eq, length, length-append, contains, In,
  In-append_inv, harness_error, Result, ok, err,
}
use agent_harness_os.Glob.{
  GlobState, state_key, accepts, active_steps, globstar_slash_steps, globstar_steps, star_steps,
  character_steps, pattern_steps, steps, search_glob,
}

module _ (value pattern : List ℕ) where
  -- An accepting state can be reached.
  pub data Wins : GlobState → Type 0 where
    now : {s : GlobState} → accepts value pattern s ≡ true → Wins s
    later : {s t : GlobState} → In t (steps value pattern s) → Wins t → Wins s

  abbrev pub key_of : GlobState → ℕ
  key_of = state_key (length value + 1)

  length-steps : (s : GlobState) → length (steps value pattern s) ≤ 2
  unfolding steps active_steps pattern_steps globstar_slash_steps globstar_steps star_steps
      character_steps
  length-steps s = ground arith

  -- The loop ends: each round takes a state off the stack or a unit off the budget.
  pub search_glob_total :
      (fuel : ℕ) (pending : List GlobState) (visited : List ℕ) (budget : ℕ)
      → length pending + 2 * budget ≤ fuel
      → (r : Result (Bool × ℕ)) × (search_glob value pattern fuel pending visited budget ≡ some r)
  unfolding search_glob
  search_glob_total fuel [] visited budget h = (ok (false, budget), refl)
  search_glob_total zero (s ∷ pending) visited budget h = absurd (omega arith)
  search_glob_total (suc fuel) (s ∷ pending) visited zero h =
      elim (Bool-cases (contains visited (key_of s))) [
        | inl seen ↦ rw seen (search_glob_total fuel pending visited 0 (omega arith))
        | inr fresh ↦ rw fresh (err (harness_error "GLOB_MATCH_LIMIT"), refl)
      ]
  search_glob_total (suc fuel) (s ∷ pending) visited (suc left) h =
      elim (Bool-cases (contains visited (key_of s))) [
        | inl seen ↦ rw seen (search_glob_total fuel pending visited (suc left) (omega arith))
        | inr fresh ↦ elim (Bool-cases (accepts value pattern s)) [
          | inl yes_now ↦ rw (fresh, yes_now) (ok (true, left), refl)
          | inr not_now ↦
              rw (fresh, not_now)
                (search_glob_total fuel (steps value pattern s ++ pending) (key_of s ∷ visited) left
                  (omega (arith, length-append (steps value pattern s) pending, length-steps s)))
        ]
      ]

  -- The answer true is right: an accepting state can be reached from a pending one.
  pub search_glob_sound :
      (fuel : ℕ) (pending : List GlobState) (visited : List ℕ) (budget : ℕ) {b : ℕ}
      → search_glob value pattern fuel pending visited budget ≡ some (ok (true, b))
      → (s : GlobState) × In s pending × Wins s
  unfolding search_glob
  search_glob_sound fuel [] visited budget h = absurd (cc)
  search_glob_sound zero (s ∷ pending) visited budget h = absurd (cc)
  search_glob_sound (suc fuel) (s ∷ pending) visited zero h =
      elim (Bool-cases (contains visited (key_of s))) [
        | inl seen ↦
            let (t, m, w) = search_glob_sound fuel pending visited 0 (rw seen at h) in (t, inr m, w)
        | inr fresh ↦ absurd (cc (rw fresh at h))
      ]
  search_glob_sound (suc fuel) (s ∷ pending) visited (suc left) h =
      elim (Bool-cases (contains visited (key_of s))) [
        | inl seen ↦
            let (t, m, w) = search_glob_sound fuel pending visited (suc left) (rw seen at h) in
            (t, inr m, w)
        | inr fresh ↦ elim (Bool-cases (accepts value pattern s)) [
          | inl yes_now ↦ (s, inl refl, now yes_now)
          | inr not_now ↦
              let (t, m, w) =
                search_glob_sound fuel (steps value pattern s ++ pending) (key_of s ∷ visited) left
                  (rw (fresh, not_now) at h) in
              elim (In-append_inv t (steps value pattern s) pending m) [
                | inl step ↦ (s, inl refl, later step w)
                | inr rest ↦ (t, inr rest, w)
              ]
        ]
      ]
