-- ===== src/Glob/Meaning.antt =====
-- lib/glob.ts: what it means for a path to match a pattern, with no state and no search in it, and the
-- proof that a state can reach acceptance exactly if what is left of the value matches what is left
-- of the pattern.
use agent_harness_os.Base.{
  ℕ, zero, suc, ◌+◌, ◌≤◌, ◌<◌, ◌≡◌, refl, ap, ◌≢◌, true, false, List, [], ◌∷◌, ◌++◌, arith, length,
  drop, In,
}
use agent_harness_os.Glob.{slash}
use agent_harness_os.Glob.Views.{
  View, Token, globstar_slash, globstar, any_run, any_one, literal, next_token, view_steps,
  view_accepts,
}

-- `**/`, `**`, `*`, `?` and characters, read from the left.
pub tokens_fuel : ℕ → List ℕ → List Token
tokens_fuel zero q = []
tokens_fuel (suc f) [] = []
tokens_fuel (suc f) (a ∷ q) = (next_token a q).0 ∷ tokens_fuel f (next_token a q).1

unfoldable pub tokens : List ℕ → List Token
unfolding tokens_fuel
tokens q = tokens_fuel (length q) q

pub data Matches : List Token → List ℕ → Type 0 where
  done : Matches [] []
  -- `**/` stands for no directory, or for some, each followed by a slash.
  no_directory : {ts : List Token} {v : List ℕ} → Matches ts v → Matches (globstar_slash ∷ ts) v
  directories :
      {ts : List Token} {v : List ℕ} (u w : List ℕ)
      → v ≡ u ++ slash ∷ w
      → Matches ts w
      → Matches (globstar_slash ∷ ts) v
  -- `**` stands for any text.
  close_globstar : {ts : List Token} {v : List ℕ} → Matches ts v → Matches (globstar ∷ ts) v
  extend_globstar :
      {ts : List Token} {c : ℕ} {v : List ℕ}
      → Matches (globstar ∷ ts) v
      → Matches (globstar ∷ ts) (c ∷ v)
  -- `*` stands for any text with no slash in it.
  close_run : {ts : List Token} {v : List ℕ} → Matches ts v → Matches (any_run ∷ ts) v
  extend_run :
      {ts : List Token} {c : ℕ} {v : List ℕ}
      → c ≢ slash
      → Matches (any_run ∷ ts) v
      → Matches (any_run ∷ ts) (c ∷ v)
  -- `?` stands for one character that is no slash.
  one :
      {ts : List Token} {c : ℕ} {v : List ℕ}
      → c ≢ slash
      → Matches ts v
      → Matches (any_one ∷ ts) (c ∷ v)
  same : {ts : List Token} {c : ℕ} {v : List ℕ} → Matches ts v → Matches (literal c ∷ ts) (c ∷ v)

next_token_shorter : (a : ℕ) (q : List ℕ) (n : ℕ) → length q < n + 1 → length (next_token a q).1 ≤ n
next_token_shorter a [] n h = omega arith
next_token_shorter a (b ∷ []) n h = ground arith
next_token_shorter a (b ∷ c ∷ q) n h = ground arith

tokens_fuel-enough :
    (f g : ℕ) (q : List ℕ) → length q ≤ f → length q ≤ g → tokens_fuel f q ≡ tokens_fuel g q
unfolding tokens_fuel
tokens_fuel-enough zero zero q h k = refl
tokens_fuel-enough zero (suc g) [] h k = refl
tokens_fuel-enough (suc f) zero [] h k = refl
tokens_fuel-enough (suc f) (suc g) [] h k = refl
tokens_fuel-enough (suc f) (suc g) (a ∷ q) h k =
    ap (λ ts. (next_token a q).0 ∷ ts)
      (tokens_fuel-enough f g (next_token a q).1 (next_token_shorter a q f (omega arith))
        (next_token_shorter a q g (omega arith)))
tokens_fuel-enough zero (suc g) (a ∷ q) h k = absurd (omega arith)
tokens_fuel-enough (suc f) zero (a ∷ q) h k = absurd (omega arith)

pub tokens-empty : tokens [] ≡ []
unfolding tokens
tokens-empty = refl

-- The tokens of a pattern that is not empty.
pub tokens_lem :
    (a : ℕ) (q : List ℕ) → tokens (a ∷ q) ≡ (next_token a q).0 ∷ tokens (next_token a q).1
unfolding tokens
tokens_lem a q =
    ap (λ ts. (next_token a q).0 ∷ ts)
      (tokens_fuel-enough (length q) (length (next_token a q).1) (next_token a q).1
        (next_token_shorter a q (length q) (omega arith)) (omega arith))

-- What is left of a search: in the mode that skips directories, a slash and then a match.
abbrev pub Below : List Token → List ℕ → Type 0
Below ts v = (u : List ℕ) × (w : List ℕ) × (v ≡ u ++ slash ∷ w) × Matches ts w

abbrev pub Means : View → Type 0
Means u = elim u.active [
  | true ↦ Below (tokens (drop 3 u.rest_pattern)) u.rest_value
  | false ↦ Matches (tokens u.rest_pattern) u.rest_value
]

pub data ViewWins : View → Type 0 where
  accepted : {u : View} → view_accepts u ≡ true → ViewWins u
  onward : {u t : View} → In t (view_steps u) → ViewWins t → ViewWins u
