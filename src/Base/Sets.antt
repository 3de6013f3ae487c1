-- ===== src/Base/Sets.antt =====
-- Membership in the lists that stand for sets.
use mathlib.Core.Path.{◌≡◌, refl, sym, ap, subst, ◌∙◌}
use mathlib.Core.Logic.{◌↔◌, ◌⊎◌, inl, inr}
use mathlib.Core.List.{List, [], ◌∷◌}
use mathlib.Core.Bool.{Bool, true, false≢true}
use agent_harness_os.Base.Tests.{Eq, ◌==◌, ==_sound, ==_refl, Bool-cases}
use agent_harness_os.Base.Lists.{contains, set_add, set_from, unique, all}
use agent_harness_os.Base.Members.{In, In-append_left, In-append_right, In-append_inv}

module _ {A : Type 0} ⦃e : Eq A⦄ where
  pub contains-In : (xs : List A) (x : A) → (contains xs x ≡ true) ↔ In x xs
  contains-In [] x = (λ h. absurd (cc), λ h. absurd h)
  contains-In (y ∷ ys) x =
      let (to, from) = contains-In ys x in
      elim (Bool-cases (y == x)) [
        | inl equal ↦ (λ h. inl (sym (==_sound y x equal)), λ h. rw equal refl)
        | inr other ↦ (
          λ h. inr (to (rw other at h)),
          λ h. elim h [
            | inl s ↦ absurd (false≢true (sym other ∙ ap (λ z. z == x) (sym s) ∙ ==_refl x))
            | inr m ↦ rw other (from m)
          ],
        )
      ]

  In-set_add : (seen : List A) (y x : A) → In x (set_add seen y) ↔ (In x seen ⊎ (x ≡ y))
  In-set_add seen y x = elim (Bool-cases (contains seen y)) [
    | inl old ↦ rw old (
      λ h. inl h,
      λ h. elim h [
        | inl m ↦ m
        | inr s ↦ subst (λ z. In z seen) (sym s) ((contains-In seen y).0 old)
      ],
    )
    | inr fresh ↦ rw fresh (
      λ h. elim (In-append_inv x seen (y ∷ []) h) [
        | inl m ↦ inl m
        | inr (inl s) ↦ inr s
        | inr (inr none_left) ↦ absurd none_left
      ],
      λ h. elim h [
        | inl m ↦ In-append_left x seen (y ∷ []) m
        | inr s ↦ In-append_right x seen (y ∷ []) (inl s)
      ],
    )
  ]

  In-set_from : (seen xs : List A) (x : A) → In x (set_from seen xs) ↔ (In x seen ⊎ In x xs)
  In-set_from seen [] x = (λ h. inl h, λ h. elim h [ inl m ↦ m | inr none_left ↦ absurd none_left ])
  In-set_from seen (y ∷ ys) x =
      let (to, from) = In-set_from (set_add seen y) ys x in
      let (split, join) = In-set_add seen y x in
      (
        λ h. elim (to h) [
          | inr m ↦ inr (inr m)
          | inl m ↦ elim (split m) [ inl o ↦ inl o | inr s ↦ inr (inl s) ]
        ],
        λ h. elim h [
          | inl m ↦ from (inl (join (inl m)))
          | inr (inl s) ↦ from (inl (join (inr s)))
          | inr (inr m) ↦ from (inr m)
        ],
      )

  pub In-unique : (xs : List A) (x : A) → In x (unique xs) ↔ In x xs
  In-unique xs x =
      let (to, from) = In-set_from [] xs x in
      (λ h. elim (to h) [ inl none_left ↦ absurd none_left | inr m ↦ m ], λ m. from (inr m))

pub all-In :
    {A : Type 0} (p : A → Bool) (xs : List A) → (all p xs ≡ true) ↔ ((x : A) → In x xs → p x ≡ true)
all-In p [] = (λ h x m. absurd m, λ h. refl)
all-In p (y ∷ ys) =
    let (to, from) = all-In p ys in
    elim (Bool-cases (p y)) [
      | inr fails ↦ rw fails (λ h. absurd (false≢true h), λ h. sym fails ∙ h y (inl refl))
      | inl holds ↦ rw holds (
        λ h x m. elim m [ inl s ↦ ap p s ∙ holds | inr n ↦ to h x n ],
        λ h. from (λ x m. h x (inr m)),
      )
    ]
