-- ===== src/Base/Results.antt =====
-- `HarnessError` (lib/errors.ts) by its code, and computations that may throw one.
use Prim.Native.String.{String}
use mathlib.Core.Path.{◌≡◌, refl, subst, ap}
use mathlib.Core.Bool.{Bool, true, false}

pub record HarnessError : Type 0 where
  pub error_code : String

abbrev pub harness_error : String → HarnessError
harness_error c = record { error_code = c }

pub data Result {κ} (Value : Type κ) : Type κ where
  ok : Value → Result Value
  err : HarnessError → Result Value

infixl 5 ◌>>=◌ ◌>>◌
abbrev pub ◌>>=◌ {κ ι} : {V : Type κ} {W : Type ι} → Result V → (V → Result W) → Result W
err thrown >>= next = err thrown
ok value >>= next = next value

abbrev pub ◌>>◌ {κ} : {W : Type κ} → Result (Unit {0}) → Result W → Result W
check >> next = check >>= λ _. next

-- `if (test) throw ...`
abbrev pub throw_if : Bool → HarnessError → Result (Unit {0})
throw_if true e = err e
throw_if false e = ok tt

pub >>=-eq-ok {κ ι} :
    {V : Type κ} {W : Type ι} (m : Result V) (next : V → Result W) {result : W}
    → (m >>= next) ≡ ok result
    → (v : V) × (m ≡ ok v) × (next v ≡ ok result)
>>=-eq-ok (err thrown) next h = cc
>>=-eq-ok (ok v) next h = (v, refl, h)

pub throw_if-eq-ok : (b : Bool) (e : HarnessError) {u : Unit {0}} → throw_if b e ≡ ok u → b ≡ false
throw_if-eq-ok true e h = cc
throw_if-eq-ok false e h = refl

-- A postcondition of the results that are no error.
abbrev pub Ensures {ℓ κ} : {A : Type ℓ} → (A → Type κ) → Result A → Type κ
Ensures P (ok a) = P a
Ensures P (err e) = Unit

pub Ensures-guarded {ℓ κ} :
    {A : Type ℓ} (P : A → Type κ) (refused : Bool) (e : HarnessError) (a : A)
    → (refused ≡ false → P a)
    → Ensures P (throw_if refused e >>= λ _. ok a)
Ensures-guarded P true e a h = tt
Ensures-guarded P false e a h = h refl

-- A postcondition of a bind is one of its second part, on what the first one returns.
pub Ensures->>= {ℓ κ ι} :
    {A : Type ℓ} {B : Type κ} (P : B → Type ι) (m : Result A) (f : A → Result B)
    → ((a : A) → m ≡ ok a → Ensures P (f a))
    → Ensures P (m >>= f)
Ensures->>= P (ok a) f h = h a refl
Ensures->>= P (err e) f h = tt

-- The same where the first part is a guarded value.
pub Ensures-checked {ℓ κ ι} :
    {A : Type ℓ} {B : Type κ} (P : B → Type ι) (refused : Bool) (e : HarnessError) (a : A)
    (f : A → Result B)
    → (refused ≡ false → Ensures P (f a))
    → Ensures P ((throw_if refused e >> ok a) >>= f)
Ensures-checked P true e a f h = tt
Ensures-checked P false e a f h = h refl

pub Ensures-map {ℓ κ ι} :
    {A : Type ℓ} (P : A → Type κ) (Q : A → Type ι) (m : Result A)
    → ((a : A) → P a → Q a)
    → Ensures P m
    → Ensures Q m
Ensures-map P Q (ok a) f h = f a h
Ensures-map P Q (err e) f h = tt

pub Ensures-ok {ℓ κ} :
    {A : Type ℓ} (P : A → Type κ) (m : Result A) {a : A} → Ensures P m → m ≡ ok a → P a
Ensures-ok P (ok b) h e = subst (Ensures P) e h
Ensures-ok P (err x) h e = cc

pub ok-injective {ℓ} : {A : Type ℓ} {a b : A} → ok a ≡ ok b → a ≡ b
ok-injective h = cc

-- Regrouping a bind, whatever its first part returns.
pub >>=_regroup {ℓ κ ι} :
    {A : Type ℓ} {B : Type κ} {C : Type ι} (m : Result A) (f : A → Result C) (g : A → Result B)
    (k : B → Result C)
    → ((a : A) → f a ≡ (g a >>= k))
    → (m >>= f) ≡ ((m >>= g) >>= k)
>>=_regroup (ok a) f g k h = h a
>>=_regroup (err e) f g k h = refl

-- A step that passes is gone.
pub pass {ℓ κ} :
    {A : Type ℓ} {B : Type κ} {m : Result A} {a : A} (f : A → Result B) → m ≡ ok a → (m >>= f) ≡ f a
pass f h = ap (λ m. m >>= f) h

pub throw_if-pass {κ} :
    {B : Type κ} {b : Bool} (e : HarnessError) (f : Unit {0} → Result B)
    → b ≡ false
    → (throw_if b e >>= f) ≡ f tt
throw_if-pass e f h = pass f (ap (λ b. throw_if b e) h)

-- Inversion of a check that passed.
pub throw_if_inv {κ} :
    {B : Type κ} (b : Bool) (e : HarnessError) (k : Result B) {r : B}
    → (throw_if b e >> k) ≡ ok r
    → (b ≡ false) × (k ≡ ok r)
throw_if_inv true e k h = cc
throw_if_inv false e k h = (refl, h)
