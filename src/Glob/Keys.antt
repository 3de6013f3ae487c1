-- ===== src/Glob/Keys.antt =====
-- lib/glob.ts: `stateKey` tells the states of one run apart.
use agent_harness_os.Base.{
  ℕ, suc, ◌+◌, ◌*◌, ◌<◌, ◌≡◌, refl, sym, ap, Bool, true, false, arith, if◌then◌else◌,
}
use agent_harness_os.Glob.{GlobState, state_key}

-- A state of the loop stands inside the value or at its end.
abbrev pub IsInside : ℕ → GlobState → Type 0
IsInside width s = s.value_index < width

-- `p * w + v` with `v < w` determines `p` and `v`.
quotient-le : (w p v q u : ℕ) → v < w → p * w + v ≡ q * w + u → q < suc p
quotient-le w p v q u h e = grind arith

quotient-eq : (w p v q u : ℕ) → v < w → u < w → p * w + v ≡ q * w + u → (v ≡ u) × (p ≡ q)
quotient-eq w p v q u h k e =
    let same : p ≡ q = omega (arith, quotient-le w p v q u h e, quotient-le w q u p v k (sym e)) in
    (omega (arith, ap (λ n. n * w) same), same)

halves :
    (m n : ℕ) (a b : Bool)
    → m * 2 + (if a then 1 else 0) ≡ n * 2 + (if b then 1 else 0)
    → (m ≡ n) × (a ≡ b)
halves m n true true e = (omega arith, refl)
halves m n true false e = absurd (omega arith)
halves m n false true e = absurd (omega arith)
halves m n false false e = (omega arith, refl)

key_inverse :
    (w : ℕ) (s t : GlobState)
    → IsInside w s
    → IsInside w t
    → state_key w s ≡ state_key w t
    → (s.value_index ≡ t.value_index)
      × (s.pattern_index ≡ t.pattern_index)
      × (s.globstar_slash_active ≡ t.globstar_slash_active)
unfolding state_key
key_inverse w s t hs ht e =
    let (same, active) = halves _ _ _ _ e in
    let (v, p) = quotient-eq w _ _ _ _ hs ht same in (v, p, active)

pub state_key-injective :
    (w : ℕ) (s t : GlobState) → IsInside w s → IsInside w t → state_key w s ≡ state_key w t → s ≡ t
state_key-injective w s t hs ht e =
    let (v, p, a) = key_inverse w s t hs ht e in
    λ i. record { value_index = v i; pattern_index = p i; globstar_slash_active = a i }
