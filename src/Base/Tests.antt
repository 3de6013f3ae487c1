-- ===== src/Base/Tests.antt =====
-- Boolean tests: the conditional, `<` and `<=` on numbers, and `===` as an interface.
use Prim.Native.Nat.{ℕ, ◌≤◌, ◌<◌, compare, Ordering}
use Prim.Native.String.{String}
use mathlib.Core.Path.{◌≡◌, refl}
use mathlib.Core.Logic.{◌↔◌, ◌⊎◌, inl, inr}
use mathlib.Core.Bool.{Bool, true, false, not, ◌||◌}
use mathlib.Core.Option.{Option, none, some}
use native.Mathlib.Omega.{arith}
use text.Mathlib.Text.{◌==◌ as str_eq}
use text.Mathlib.TextEquality.{eq_iff}

abbrev pub ltb : ℕ → ℕ → Bool
ltb a b = elim (compare a b) [ Ordering.lt ↦ true | _ ↦ false ]

abbrev pub leb : ℕ → ℕ → Bool
leb a b = elim (compare a b) [ Ordering.gt ↦ false | _ ↦ true ]

abbrev pub nat_beq : ℕ → ℕ → Bool
nat_beq a b = elim (compare a b) [ Ordering.eq ↦ true | _ ↦ false ]

infix 1 if◌then◌else◌
abbrev pub if◌then◌else◌ {ℓ} : {A : Type ℓ} → Bool → A → A → A
if true then x else y = x
if false then x else y = y

pub nat_beq_iff : (a b : ℕ) → (nat_beq a b ≡ true) ↔ (a ≡ b)
nat_beq_iff a b = ground arith

pub Bool-cases : (b : Bool) → (b ≡ true) ⊎ (b ≡ false)
Bool-cases true = inl refl
Bool-cases false = inr refl

pub Option-cases {ℓ} : {A : Type ℓ} (o : Option A) → (o ≡ none) ⊎ ((a : A) × (o ≡ some a))
Option-cases none = inl refl
Option-cases (some a) = inr (a, refl)

-- `===` on the values of a type, with what it decides.
pub record Eq {κ} (Value : Type κ) : Type κ where
  pub beq : Value → Value → Bool
  pub beq_iff : (x y : Value) → (beq x y ≡ true) ↔ (x ≡ y)

infix 50 ◌==◌
abbrev pub ◌==◌ {κ} : {Value : Type κ} ⦃same : Eq Value⦄ → Value → Value → Bool
◌==◌ ⦃same⦄ x y = same.beq x y

pub ==_sound {ℓ} : {A : Type ℓ} ⦃e : Eq A⦄ (a b : A) → (a == b) ≡ true → a ≡ b
==_sound ⦃e⦄ a b h = (e.beq_iff a b).0 h

pub ==_refl {ℓ} : {A : Type ℓ} ⦃e : Eq A⦄ (a : A) → (a == a) ≡ true
==_refl ⦃e⦄ a = (e.beq_iff a a).1 refl

pub ==_ne {ℓ} : {A : Type ℓ} ⦃e : Eq A⦄ (a b : A) → ¬ (a ≡ b) → (a == b) ≡ false
==_ne ⦃e⦄ a b n = elim (Bool-cases (a == b)) [ inl h ↦ absurd (n (==_sound a b h)) | inr h ↦ h ]

instance abbrev pub nat_eq : Eq ℕ
nat_eq = record { beq = nat_beq; beq_iff = nat_beq_iff }

-- The equality of an enumeration, by a number for each constructor.
abbrev pub eq_by_tag {ℓ} :
    {A : Type ℓ} (tag : A → ℕ) → ((a b : A) → (nat_beq (tag a) (tag b) ≡ true) ↔ (a ≡ b)) → Eq A
eq_by_tag tag law = record { beq = λ a b. nat_beq (tag a) (tag b); beq_iff = law }

-- A shut test keeps comparisons of texts small in goals; `same_text` unfolds in tests.
unfoldable pub same_text : String → String → Bool
same_text s t = str_eq s t

pub same_text_iff : (s t : String) → (same_text s t ≡ true) ↔ (s ≡ t)
unfolding same_text
same_text_iff s t = eq_iff s t

instance abbrev pub string_eq : Eq String
string_eq = record { beq = same_text; beq_iff = same_text_iff }

module _ {ℓ} {A : Type ℓ} ⦃e : Eq A⦄ where
  abbrev pub option_beq : Option A → Option A → Bool
  option_beq none none = true
  option_beq none (some b) = false
  option_beq (some a) none = false
  option_beq (some a) (some b) = a == b

  pub option_beq_iff : (a b : Option A) → (option_beq a b ≡ true) ↔ (a ≡ b)
  option_beq_iff none none = (λ _. refl, λ _. refl)
  option_beq_iff none (some b) = (λ h. cc, λ h. cc)
  option_beq_iff (some a) none = (λ h. cc, λ h. cc)
  option_beq_iff (some a) (some b) =
      (λ h. cc (==_sound a b h), λ h. (e.beq_iff a b).1 (ground arith))

instance abbrev pub option_eq {ℓ} : {A : Type ℓ} ⦃e : Eq A⦄ → Eq (Option A)
option_eq = record { beq = option_beq; beq_iff = option_beq_iff }

abbrev pub is_none {ℓ} : {A : Type ℓ} → Option A → Bool
is_none none = true
is_none (some a) = false

abbrev pub is_some {ℓ} : {A : Type ℓ} → Option A → Bool
is_some none = false
is_some (some a) = true

pub not-eq-false : {b : Bool} → not b ≡ false → b ≡ true
not-eq-false {b = true} h = refl
not-eq-false {b = false} h = cc

pub ltb-eq-false : {a b : ℕ} → ltb a b ≡ false → b ≤ a
ltb-eq-false {a} {b} h = ground arith

pub leb-eq-false : {a b : ℕ} → leb a b ≡ false → b < a
leb-eq-false {a} {b} h = ground arith

pub ==_same {ℓ} : {A : Type ℓ} ⦃e : Eq A⦄ {a b : A} → a ≡ b → not (a == b) ≡ false
==_same ⦃e⦄ {a} {b} h = rw ((e.beq_iff a b).1 h)

pub ltb-false_of_le : {a b : ℕ} → b ≤ a → ltb a b ≡ false
ltb-false_of_le {a} {b} h = ground arith

pub or-eq-false : (a b : Bool) → a || b ≡ false → (a ≡ false) × (b ≡ false)
or-eq-false a b h = (ground arith, ground arith)

pub some-same {ℓ} : {A : Type ℓ} {a b : A} → some a ≡ some b → a ≡ b
some-same h = cc
