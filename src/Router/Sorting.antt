-- ===== src/Router/Sorting.antt =====
-- provider/router.ts: the sort of the candidates.
use agent_harness_os.Base.{
  suc, String, ◌≡◌, refl, sym, ap, ◌∙◌, ◌↔◌, inl, inr, true, false, Option, some, List, [], ◌∷◌,
  arith, Bool-cases, ==_sound, ==_refl, nat_eq, string_eq, option_eq, length, In,
}
use agent_harness_os.Domain.{worker_mode_eq, capability_eq, run_status_eq}
use agent_harness_os.Router.{
  WorkerRouteCandidate, Ordering, is_greater, compare_candidates,
  compare_candidates_with_preference, insert_candidate, sort_candidates,
}

module _ (locale_compare : String → String → Ordering) (preferred : Option String) where
  abbrev insert : WorkerRouteCandidate → List WorkerRouteCandidate → List WorkerRouteCandidate
  insert = insert_candidate locale_compare preferred

  abbrev sort : List WorkerRouteCandidate → List WorkerRouteCandidate
  sort = sort_candidates locale_compare preferred

  abbrev compare : WorkerRouteCandidate → WorkerRouteCandidate → Ordering
  compare = compare_candidates_with_preference locale_compare preferred

  -- Sorting neither adds nor loses a candidate.
  In-insert :
      (x c : WorkerRouteCandidate) (ds : List WorkerRouteCandidate)
      → In x (insert c ds) ↔ In x (c ∷ ds)
  unfolding insert_candidate
  In-insert x c [] = (λ h. h, λ h. h)
  In-insert x c (d ∷ ds) =
      let (to, from) = In-insert x c ds in
      elim (Bool-cases (is_greater (compare c d))) [
        | inr before ↦ rw before (λ h. h, λ h. h)
        | inl after ↦ rw after (
          λ h. elim h [
            | inl e ↦ inr (inl e)
            | inr m ↦ elim (to m) [ inl e ↦ inl e | inr n ↦ inr (inr n) ]
          ],
          λ h. elim h [
            | inl e ↦ inr (from (inl e))
            | inr (inl e) ↦ inl e
            | inr (inr n) ↦ inr (from (inr n))
          ],
        )
      ]

  pub In-sort :
      (x : WorkerRouteCandidate) (cs : List WorkerRouteCandidate) → In x (sort cs) ↔ In x cs
  unfolding sort_candidates
  In-sort x [] = (λ h. h, λ h. h)
  In-sort x (c ∷ cs) =
      let (to, from) = In-insert x c (sort cs) in
      let (into, back) = In-sort x cs in
      (
        λ h. elim (to h) [ inl e ↦ inl e | inr m ↦ inr (into m) ],
        λ h. elim h [ inl e ↦ from (inl e) | inr m ↦ from (inr (back m)) ],
      )

  length-insert :
      (c : WorkerRouteCandidate) (ds : List WorkerRouteCandidate)
      → length (insert c ds) ≡ suc (length ds)
  unfolding insert_candidate
  length-insert c [] = refl
  length-insert c (d ∷ ds) = elim (Bool-cases (is_greater (compare c d))) [
    | inr before ↦ rw before refl
    | inl after ↦ rw after (ap suc (length-insert c ds))
  ]

  pub length-sort : (cs : List WorkerRouteCandidate) → length (sort cs) ≡ length cs
  unfolding sort_candidates
  length-sort [] = refl
  length-sort (c ∷ cs) = length-insert c (sort cs) ∙ ap suc (length-sort cs)

  -- No candidate is greater than the next one.
  abbrev pub IsOrdered : List WorkerRouteCandidate → Type 0
  IsOrdered [] = Unit
  IsOrdered (c ∷ []) = Unit
  IsOrdered (c ∷ d ∷ ds) = (is_greater (compare c d) ≡ false) × IsOrdered (d ∷ ds)

  module _
      (asymmetric : (a b : String)
        → is_greater (locale_compare a b) ≡ true
        → is_greater (locale_compare b a) ≡ false) where
    compare_asymmetric :
        (c d : WorkerRouteCandidate)
        → is_greater (compare c d) ≡ true
        → is_greater (compare d c) ≡ false
    unfolding compare_candidates_with_preference compare_candidates
    compare_asymmetric c d h = ground (
      arith,
      asymmetric c.worker.id d.worker.id,
      ==_sound c.worker.id d.worker.id,
      ==_sound d.worker.id c.worker.id,
      ==_refl c.worker.id,
    )

    insert-IsOrdered :
        (c : WorkerRouteCandidate) (ds : List WorkerRouteCandidate)
        → IsOrdered ds
        → IsOrdered (insert c ds)
    unfolding insert_candidate
    insert-IsOrdered c [] h = tt
    insert-IsOrdered c (d ∷ []) h = elim (Bool-cases (is_greater (compare c d))) [
      | inr before ↦ rw before (before, tt)
      | inl after ↦ rw after (compare_asymmetric c d after, tt)
    ]
    insert-IsOrdered c (d ∷ e ∷ ds) h = elim (Bool-cases (is_greater (compare c d))) [
      | inr before ↦ rw before (before, h)
      | inl after ↦
          let rest = insert-IsOrdered c (e ∷ ds) h.1 in
          elim (Bool-cases (is_greater (compare c e))) [
            | inr first ↦ rw (after, first) (compare_asymmetric c d after, rw first at rest)
            | inl second ↦ rw (after, second) (h.0, rw second at rest)
          ]
    ]

    pub sort-IsOrdered : (cs : List WorkerRouteCandidate) → IsOrdered (sort cs)
    unfolding sort_candidates
    sort-IsOrdered [] = tt
    sort-IsOrdered (c ∷ cs) = insert-IsOrdered c (sort cs) (sort-IsOrdered cs)

  -- The preferred worker comes first.
  abbrev pub StartsWith : String → List WorkerRouteCandidate → Type 0
  StartsWith id [] = ⊥
  StartsWith id (c ∷ cs) = c.worker.id ≡ id

  before_others :
      (c d : WorkerRouteCandidate) (id : String)
      → preferred ≡ some id
      → c.worker.id ≡ id
      → is_greater (compare c d) ≡ false
  unfolding compare_candidates_with_preference
  before_others c d id p e = ground (arith, ==_refl c.worker.id)

  after_preferred :
      (c d : WorkerRouteCandidate) (id : String)
      → preferred ≡ some id
      → d.worker.id ≡ id
      → is_greater (compare c d) ≡ false
      → c.worker.id ≡ id
  unfolding compare_candidates_with_preference
  after_preferred c d id p e h =
      ground (arith, ==_sound c.worker.id d.worker.id, ==_refl d.worker.id, ==_sound c.worker.id id)

  insert-first :
      (c : WorkerRouteCandidate) (ds : List WorkerRouteCandidate) (id : String)
      → preferred ≡ some id
      → c.worker.id ≡ id
      → StartsWith id (insert c ds)
  unfolding insert_candidate
  insert-first c [] id p e = e
  insert-first c (d ∷ ds) id p e = rw (before_others c d id p e) e

  insert-later :
      (c : WorkerRouteCandidate) (ds : List WorkerRouteCandidate) (id : String)
      → preferred ≡ some id
      → StartsWith id ds
      → StartsWith id (insert c ds)
  unfolding insert_candidate
  insert-later c [] id p e = absurd e
  insert-later c (d ∷ ds) id p e = elim (Bool-cases (is_greater (compare c d))) [
    | inl after ↦ rw after e
    | inr before ↦ rw before (after_preferred c d id p e before)
  ]

  pub sort-StartsWith :
      (id : String) (x : WorkerRouteCandidate) (cs : List WorkerRouteCandidate)
      → preferred ≡ some id
      → x.worker.id ≡ id
      → In x cs
      → StartsWith id (sort cs)
  unfolding sort_candidates
  sort-StartsWith id x [] p e h = absurd h
  sort-StartsWith id x (c ∷ cs) p e (inl same_one) =
      insert-first c (sort cs) id p (sym (ap (λ y. y.worker.id) same_one) ∙ e)
  sort-StartsWith id x (c ∷ cs) p e (inr h) =
      insert-later c (sort cs) id p (sort-StartsWith id x cs p e h)
