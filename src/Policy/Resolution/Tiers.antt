-- ===== src/Policy/Resolution/Tiers.antt =====
-- policy/engine.ts: the smallest number and the strictest tier of several.
use agent_harness_os.Base.{
  ℕ, ◌≤◌, min, ◌≡◌, refl, sym, ap, subst, ◌∙◌, ◌⊎◌, inl, inr, true, Option, none, some, List, [],
  ◌∷◌, arith, ltb, if◌then◌else◌, In,
}
use agent_harness_os.Router.{within_tier}
use agent_harness_os.Policy.Resolution.{minimum, reduce_tier, strictest_tier}

pub minimum-le : (n : ℕ) (xs : List (Option ℕ)) → minimum n xs ≤ n
unfolding minimum
minimum-le n [] = omega arith
minimum-le n (none ∷ xs) = minimum-le n xs
minimum-le n (some m ∷ xs) = ground (arith, minimum-le n xs)

pub minimum-le_of : (n m : ℕ) (xs : List (Option ℕ)) → In (some m) xs → minimum n xs ≤ m
unfolding minimum
minimum-le_of n m [] h = absurd h
minimum-le_of n m (none ∷ xs) (inl e) = absurd (cc)
minimum-le_of n m (none ∷ xs) (inr h) = minimum-le_of n m xs h
minimum-le_of n m (some k ∷ xs) (inl e) = ground arith
minimum-le_of n m (some k ∷ xs) (inr h) = ground (arith, minimum-le_of n m xs h)

min-cases : (a b : ℕ) → (min a b ≡ a) ⊎ (min a b ≡ b)
min-cases a b = ground arith

-- The minimum is one of the numbers.
pub minimum_attained :
    (n : ℕ) (xs : List (Option ℕ)) → (minimum n xs ≡ n) ⊎ In (some (minimum n xs)) xs
unfolding minimum
minimum_attained n [] = inl refl
minimum_attained n (none ∷ xs) = elim (minimum_attained n xs) [
  | inl e ↦ inl e
  | inr h ↦ inr (inr h)
]
minimum_attained n (some m ∷ xs) = elim (min-cases m (minimum n xs)) [
  | inl e ↦ inr (inl (ap some e))
  | inr e ↦ elim (minimum_attained n xs) [
    | inl s ↦ inl (e ∙ s)
    | inr h ↦ inr (inr (subst (λ k. In (some k) xs) (sym e) h))
  ]
]

module _ {A : Type 0} (rank : A → ℕ) where
  reduce_tier-le : (s : A) (values : List (Option A)) → rank (reduce_tier rank s values) ≤ rank s
  unfolding reduce_tier
  reduce_tier-le s [] = omega arith
  reduce_tier-le s (none ∷ values) = reduce_tier-le s values
  reduce_tier-le s (some v ∷ values) =
      ground (arith, reduce_tier-le (if ltb (rank v) (rank s) then v else s) values)

  reduce_tier-le_of :
      (s v : A) (values : List (Option A))
      → In (some v) values
      → rank (reduce_tier rank s values) ≤ rank v
  unfolding reduce_tier
  reduce_tier-le_of s v [] h = absurd h
  reduce_tier-le_of s v (none ∷ values) (inl e) = absurd (cc)
  reduce_tier-le_of s v (none ∷ values) (inr h) = reduce_tier-le_of s v values h
  reduce_tier-le_of s v (some w ∷ values) (inl e) =
      ground (arith, reduce_tier-le (if ltb (rank w) (rank s) then w else s) values)
  reduce_tier-le_of s v (some w ∷ values) (inr h) =
      reduce_tier-le_of (if ltb (rank w) (rank s) then w else s) v values h

  -- What is within the strictest tier is within each of them.
  pub strictest_tier-within :
      (t : A) (values : List (Option A)) (v : Option A)
      → within_tier rank t (strictest_tier rank values) ≡ true
      → In v values
      → within_tier rank t v ≡ true
  unfolding strictest_tier within_tier
  strictest_tier-within t values none h m = refl
  strictest_tier-within t [] (some v) h m = absurd m
  strictest_tier-within t (none ∷ values) (some v) h (inl e) = absurd (cc)
  strictest_tier-within t (none ∷ values) (some v) h (inr m) =
      strictest_tier-within t values (some v) h m
  strictest_tier-within t (some w ∷ values) (some v) h (inl e) =
      ground (arith, reduce_tier-le w values)
  strictest_tier-within t (some w ∷ values) (some v) h (inr m) =
      ground (arith, reduce_tier-le_of w v values m)
