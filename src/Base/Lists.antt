-- ===== src/Base/Lists.antt =====
-- Lists measured by native numbers, Boolean searches in them, and the distinct items of a list.
use Prim.Native.Nat.{ℕ, zero, suc, ◌+◌, ◌-◌, ◌≤◌, ◌<◌}
use Prim.Native.Char.{code}
use Prim.Native.String.{String}
use mathlib.Core.Bool.{Bool, true, false, ◌&&◌, ◌||◌}
use mathlib.Core.Path.{◌≡◌, refl, sym}
use mathlib.Core.Option.{Option, none, some}
use mathlib.Core.List.{List, [], ◌∷◌, ◌++◌}
use native.Mathlib.Omega.{arith}
use agent_harness_os.Base.Tests.{Eq, ◌==◌, if◌then◌else◌, ltb}

-- The code points of a text.
abbrev pub codes : String → List ℕ
codes String.[] = []
codes (String.◌∷◌ c s) = code c ∷ codes s

module _ {ℓ} {A : Type ℓ} where
  abbrev pub length : List A → ℕ
  length [] = 0
  length (x ∷ xs) = suc (length xs)

  abbrev pub get_elem? : List A → ℕ → Option A
  get_elem? [] i = none
  get_elem? (x ∷ xs) zero = some x
  get_elem? (x ∷ xs) (suc i) = get_elem? xs i

  abbrev pub All {κ} : (A → Type κ) → List A → Type κ
  All P [] = Unit
  All P (x ∷ xs) = P x × All P xs

  -- `Array.prototype.some`, `every` and `filter`.
  abbrev pub any : (A → Bool) → List A → Bool
  any p [] = false
  any p (x ∷ xs) = p x || any p xs

  abbrev pub all : (A → Bool) → List A → Bool
  all p [] = true
  all p (x ∷ xs) = p x && all p xs

  abbrev pub filter : (A → Bool) → List A → List A
  filter p [] = []
  filter p (x ∷ xs) = if p x then x ∷ filter p xs else filter p xs

  pub length-append : (xs ys : List A) → length (xs ++ ys) ≡ length xs + length ys
  length-append [] ys = omega arith
  length-append (x ∷ xs) ys = omega (arith, length-append xs ys)

  pub length-filter-le : (p : A → Bool) (xs : List A) → length (filter p xs) ≤ length xs
  length-filter-le p [] = omega arith
  length-filter-le p (x ∷ xs) = ground (arith, length-filter-le p xs)

-- `includes`.
abbrev pub contains {ℓ} : {A : Type ℓ} ⦃e : Eq A⦄ → List A → A → Bool
contains [] a = false
contains (x ∷ xs) a = x == a || contains xs a

-- The values of `new Set(xs)` in insertion order.
abbrev pub set_add {ℓ} : {A : Type ℓ} ⦃e : Eq A⦄ → List A → A → List A
set_add seen x = if contains seen x then seen else seen ++ x ∷ []

abbrev pub set_from {ℓ} : {A : Type ℓ} ⦃e : Eq A⦄ → List A → List A → List A
set_from seen [] = seen
set_from seen (x ∷ xs) = set_from (set_add seen x) xs

abbrev pub unique {ℓ} : {A : Type ℓ} ⦃e : Eq A⦄ → List A → List A
unique xs = set_from [] xs

-- `String.prototype.length`: a character beyond the basic plane takes two code units.
abbrev pub code_units : List ℕ → ℕ
code_units [] = 0
code_units (c ∷ cs) = (if ltb c 65536 then 1 else 2) + code_units cs

unfoldable pub utf16_length : String → ℕ
utf16_length s = code_units (codes s)

module _ {ℓ} {A : Type ℓ} where
  pub get_elem?-beyond : (xs : List A) (i : ℕ) → length xs ≤ i → get_elem? xs i ≡ none
  get_elem?-beyond [] i h = refl
  get_elem?-beyond (x ∷ xs) zero h = absurd (omega arith)
  get_elem?-beyond (x ∷ xs) (suc i) h = get_elem?-beyond xs i (omega arith)

  pub get_elem?-within : (xs : List A) (i : ℕ) → i < length xs → (a : A) × (get_elem? xs i ≡ some a)
  get_elem?-within [] i h = absurd (omega arith)
  get_elem?-within (x ∷ xs) zero h = (x, refl)
  get_elem?-within (x ∷ xs) (suc i) h = get_elem?-within xs i (omega arith)

module _ {ℓ} {A : Type ℓ} where
  abbrev pub take : ℕ → List A → List A
  take zero xs = []
  take (suc n) [] = []
  take (suc n) (x ∷ xs) = x ∷ take n xs

  abbrev pub drop : ℕ → List A → List A
  drop zero xs = xs
  drop (suc n) [] = []
  drop (suc n) (x ∷ xs) = drop n xs

  pub length-drop : (n : ℕ) (xs : List A) → length (drop n xs) ≡ length xs - n
  length-drop zero xs = omega arith
  length-drop (suc n) [] = omega arith
  length-drop (suc n) (x ∷ xs) = omega (arith, length-drop n xs)

  pub drop-nil : (n : ℕ) → drop n [] ≡ []
  drop-nil zero = refl
  drop-nil (suc n) = refl

  pub drop-drop : (n m k : ℕ) (xs : List A) → k ≡ n + m → drop k xs ≡ drop m (drop n xs)
  drop-drop zero m k xs e = let same : k ≡ m = omega arith in rw same
  drop-drop (suc n) m zero xs e = absurd (omega arith)
  drop-drop (suc n) m (suc k) [] e = sym (drop-nil m)
  drop-drop (suc n) m (suc k) (x ∷ xs) e = drop-drop n m k xs (omega arith)

  pub get_elem?-drop :
      (n m k : ℕ) (xs : List A) → k ≡ n + m → get_elem? xs k ≡ get_elem? (drop n xs) m
  get_elem?-drop zero m k xs e = let same : k ≡ m = omega arith in rw same
  get_elem?-drop (suc n) m k [] e = refl
  get_elem?-drop (suc n) m zero (x ∷ xs) e = absurd (omega arith)
  get_elem?-drop (suc n) m (suc k) (x ∷ xs) e = get_elem?-drop n m k xs (omega arith)
