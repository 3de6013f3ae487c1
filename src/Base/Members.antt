-- ===== src/Base/Members.antt =====
-- Membership in a list.
use mathlib.Core.Path.{◌≡◌, refl, ap}
use mathlib.Core.Logic.{◌⊎◌, inl, inr}
use mathlib.Core.List.{List, [], ◌∷◌, ◌++◌, map}
use mathlib.Core.Bool.{Bool, true, false}
use agent_harness_os.Base.Tests.{if◌then◌else◌}

-- Membership by recursion, which computes to a sum.
abbrev pub In : {A : Type 0} → A → List A → Type 0
In x [] = ⊥
In x (y ∷ ys) = (x ≡ y) ⊎ In x ys

module _ {A : Type 0} (x : A) where
  pub In-append_left : (xs ys : List A) → In x xs → In x (xs ++ ys)
  In-append_left [] ys h = absurd h
  In-append_left (y ∷ xs) ys (inl e) = inl e
  In-append_left (y ∷ xs) ys (inr h) = inr (In-append_left xs ys h)

  pub In-append_right : (xs ys : List A) → In x ys → In x (xs ++ ys)
  In-append_right [] ys h = h
  In-append_right (y ∷ xs) ys h = inr (In-append_right xs ys h)

  pub In-append_inv : (xs ys : List A) → In x (xs ++ ys) → In x xs ⊎ In x ys
  In-append_inv [] ys h = inr h
  In-append_inv (y ∷ xs) ys (inl e) = inl (inl e)
  In-append_inv (y ∷ xs) ys (inr h) = elim (In-append_inv xs ys h) [
    | inl a ↦ inl (inr a)
    | inr b ↦ inr b
  ]

module _ {A B : Type 0} (f : A → B) where
  pub In-map : (x : A) (xs : List A) → In x xs → In (f x) (map f xs)
  In-map x [] h = absurd h
  In-map x (y ∷ xs) (inl e) = inl (ap f e)
  In-map x (y ∷ xs) (inr h) = inr (In-map x xs h)

  pub In-map_inv : (b : B) (xs : List A) → In b (map f xs) → (x : A) × In x xs × (b ≡ f x)
  In-map_inv b [] h = absurd h
  In-map_inv b (y ∷ xs) (inl e) = (y, inl refl, e)
  In-map_inv b (y ∷ xs) (inr h) = let (x, m, e) = In-map_inv b xs h in (x, inr m, e)

-- A list that holds one item if a test passes.
module _ {A : Type 0} (x y : A) where
  pub In-when : (b : Bool) → In x (if b then y ∷ [] else []) → (b ≡ true) × (x ≡ y)
  In-when true (inl e) = (refl, e)
  In-when true (inr h) = absurd h
  In-when false h = absurd h

  pub In-when_append :
      (b : Bool) (xs : List A)
      → In x ((if b then y ∷ [] else []) ++ xs)
      → ((b ≡ true) × (x ≡ y)) ⊎ In x xs
  In-when_append true xs (inl e) = inl (refl, e)
  In-when_append true xs (inr h) = inr h
  In-when_append false xs h = inr h

  pub when-In : (b : Bool) → b ≡ true → x ≡ y → In x (if b then y ∷ [] else [])
  when-In true h e = inl e
  when-In false h e = cc

  pub when_append-In :
      (b : Bool) (xs : List A) → b ≡ true → x ≡ y → In x ((if b then y ∷ [] else []) ++ xs)
  when_append-In true xs h e = inl e
  when_append-In false xs h e = cc
