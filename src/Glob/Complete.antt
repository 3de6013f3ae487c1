-- ===== src/Glob/Complete.antt =====
-- lib/glob.ts: the answer false is right. What was visited is closed under the steps, up to what is
-- still pending.
use agent_harness_os.Base.{
  ℕ, zero, suc, ◌+◌, ◌<◌, ◌≡◌, sym, ◌∙◌, ◌⊎◌, inl, inr, true, false, false≢true, some, List, [],
  ◌∷◌, ◌++◌, arith, ltb, Bool-cases, nat_eq, string_eq, option_eq, ltb-eq-false, length, All,
  contains, get_elem?-beyond, get_elem?-within, In, In-append_left, In-append_right, ok,
}
use agent_harness_os.Glob.{
  GlobState, state_key, accepts, active_steps, globstar_slash_steps, globstar_steps, star_steps,
  character_steps, pattern_steps, steps, search_glob,
}
use agent_harness_os.Glob.Search.{Wins, now, later, key_of}
use agent_harness_os.Glob.Keys.{IsInside, state_key-injective}

module _ (value pattern : List ℕ) where
  abbrev width : ℕ
  width = length value + 1

  abbrev Seen : List ℕ → GlobState → Type 0
  Seen visited s = contains visited (state_key width s) ≡ true

  -- Steps stay inside the value.
  character_steps-IsInside :
      (s : GlobState) (c : ℕ)
      → IsInside width s
      → All (IsInside width) (character_steps value pattern s (some c))
  unfolding character_steps
  character_steps-IsInside s c h = elim (Bool-cases (ltb s.value_index (length value))) [
    | inl inside ↦ ground arith
    | inr outside ↦ rw (outside, get_elem?-beyond value s.value_index (ltb-eq-false outside)) tt
  ]

  pattern_steps-IsInside :
      (s : GlobState)
      → IsInside width s
      → s.pattern_index < length pattern
      → All (IsInside width) (pattern_steps value pattern s)
  unfolding pattern_steps globstar_slash_steps globstar_steps star_steps
  pattern_steps-IsInside s h p =
      let (c, e) = get_elem?-within pattern s.pattern_index p in
      ground (arith, e, character_steps-IsInside s c h)

  steps-All : (s : GlobState) → IsInside width s → All (IsInside width) (steps value pattern s)
  unfolding steps active_steps
  steps-All s h = ground (arith, pattern_steps-IsInside s h)

  In-All :
      (t : GlobState) (ts : List GlobState) → All (IsInside width) ts → In t ts → IsInside width t
  In-All t (u ∷ ts) (h, hs) (inl e) = rw e h
  In-All t (u ∷ ts) (h, hs) (inr m) = In-All t ts hs m
  In-All t [] h m = absurd m

  pub steps-IsInside :
      (s t : GlobState) → IsInside width s → In t (steps value pattern s) → IsInside width t
  steps-IsInside s t h m = In-All t (steps value pattern s) (steps-All s h) m

  -- Every visited state is rejected, and its steps are visited or pending.
  abbrev pub IsClosed : List ℕ → List GlobState → Type 0
  IsClosed visited pending =
      (s : GlobState)
      → IsInside width s
      → Seen visited s
      → (accepts value pattern s ≡ false)
        × ((t : GlobState) → In t (steps value pattern s) → Seen visited t ⊎ In t pending)

  closed_loses :
      {s : GlobState} (visited : List ℕ)
      → IsClosed visited []
      → IsInside width s
      → Seen visited s
      → Wins value pattern s
      → ⊥
  closed_loses visited c i seen (now a) = false≢true (sym (c _ i seen).0 ∙ a)
  closed_loses {s} visited c i seen (later {t = t} m w) = elim ((c s i seen).1 t m) [
    | inl next ↦ closed_loses visited c (steps-IsInside s t i m) next w
    | inr none_left ↦ none_left
  ]

  -- A visited state may be dropped from the stack.
  IsClosed-drop :
      (s : GlobState) (visited : List ℕ) (pending : List GlobState)
      → Seen visited s
      → IsClosed visited (s ∷ pending)
      → IsClosed visited pending
  IsClosed-drop s visited pending seen c u i su =
      let (rejected, next) = c u i su in
      (
        rejected,
        λ t m. elim (next t m) [
          | inl st ↦ inl st
          | inr (inl same) ↦ inl (rw same seen)
          | inr (inr rest) ↦ inr rest
        ],
      )

  Seen-cons : (k : ℕ) (visited : List ℕ) (s : GlobState) → Seen visited s → Seen (k ∷ visited) s
  Seen-cons k visited s h = ground arith

  Seen-here : (visited : List ℕ) (s : GlobState) → Seen (state_key width s ∷ visited) s
  Seen-here visited s = ground arith

  Seen-cases :
      (k : ℕ) (visited : List ℕ) (s : GlobState)
      → Seen (k ∷ visited) s
      → (k ≡ state_key width s) ⊎ Seen visited s
  Seen-cases k visited s h = ground arith

  -- A state that is rejected may be visited, if its steps become pending.
  IsClosed-visit :
      (s : GlobState) (visited : List ℕ) (pending : List GlobState)
      → IsInside width s
      → accepts value pattern s ≡ false
      → IsClosed visited (s ∷ pending)
      → IsClosed (state_key width s ∷ visited) (steps value pattern s ++ pending)
  IsClosed-visit s visited pending inside rejected c u i su =
      elim (Seen-cases (state_key width s) visited u su) [
        | inl key ↦
            let same = state_key-injective width s u inside i key in
            rw (← same) (rejected, λ t m. inr (In-append_left t (steps value pattern s) pending m))
        | inr old ↦
            let (r, next) = c u i old in
            (
              r,
              λ t m. elim (next t m) [
                | inl st ↦ inl (Seen-cons (state_key width s) visited t st)
                | inr (inl same) ↦ inl (rw same (Seen-here visited s))
                | inr (inr rest) ↦ inr (In-append_right t (steps value pattern s) pending rest)
              ],
            )
      ]

  dropped :
      (x : GlobState) (visited : List ℕ) (pending : List GlobState)
      → Seen visited x
      → (s : GlobState) → Seen visited s ⊎ In s (x ∷ pending)
      → Seen visited s ⊎ In s pending
  dropped x visited pending seen s (inl h) = inl h
  dropped x visited pending seen s (inr (inl e)) = inl (rw e seen)
  dropped x visited pending seen s (inr (inr h)) = inr h

  explored :
      (x : GlobState) (visited : List ℕ) (pending : List GlobState) (s : GlobState)
      → Seen visited s ⊎ In s (x ∷ pending)
      → Seen (state_key width x ∷ visited) s ⊎ In s (steps value pattern x ++ pending)
  explored x visited pending s (inl h) = inl (Seen-cons (state_key width x) visited s h)
  explored x visited pending s (inr (inl e)) = inl (rw e (Seen-here visited x))
  explored x visited pending s (inr (inr h)) =
      inr (In-append_right s (steps value pattern x) pending h)

  All-append :
      (xs ys : List GlobState)
      → All (IsInside width) xs
      → All (IsInside width) ys
      → All (IsInside width) (xs ++ ys)
  All-append [] ys h k = k
  All-append (x ∷ xs) ys h k = (h.0, All-append xs ys h.1 k)

  -- The answer false is right: no accepting state can be reached from a visited or pending one.
  pub search_glob_complete :
      (fuel : ℕ) (pending : List GlobState) (visited : List ℕ) (budget : ℕ) {b : ℕ}
      → IsClosed visited pending
      → All (IsInside width) pending
      → search_glob value pattern fuel pending visited budget ≡ some (ok (false, b))
      → (s : GlobState) → IsInside width s
      → Seen visited s ⊎ In s pending
      → ¬ Wins value pattern s
  unfolding search_glob
  search_glob_complete fuel [] visited budget c a h s i (inl seen) w =
      closed_loses visited c i seen w
  search_glob_complete fuel [] visited budget c a h s i (inr m) w = m
  search_glob_complete zero (x ∷ pending) visited budget c a h s i m w = absurd (cc)
  search_glob_complete (suc fuel) (x ∷ pending) visited zero c a h s i m w =
      elim (Bool-cases (contains visited (key_of value pattern x))) [
        | inl seen ↦
            search_glob_complete fuel pending visited 0 (IsClosed-drop x visited pending seen c) a.1
              (rw seen at h) s i (dropped x visited pending seen s m) w
        | inr fresh ↦ absurd (cc (rw fresh at h))
      ]
  search_glob_complete (suc fuel) (x ∷ pending) visited (suc left) c a h s i m w =
      elim (Bool-cases (contains visited (key_of value pattern x))) [
        | inl seen ↦
            search_glob_complete fuel pending visited (suc left)
              (IsClosed-drop x visited pending seen c) a.1 (rw seen at h) s i
              (dropped x visited pending seen s m) w
        | inr fresh ↦ elim (Bool-cases (accepts value pattern x)) [
          | inl yes_now ↦ absurd (cc (rw (fresh, yes_now) at h))
          | inr not_now ↦
              search_glob_complete fuel (steps value pattern x ++ pending)
                (key_of value pattern x ∷ visited) left
                (IsClosed-visit x visited pending a.0 not_now c)
                (All-append (steps value pattern x) pending (steps-All x a.0) a.1)
                (rw (fresh, not_now) at h) s i (explored x visited pending s m) w
        ]
      ]
