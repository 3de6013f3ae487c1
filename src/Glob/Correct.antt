-- ===== src/Glob/Correct.antt =====
-- lib/glob.ts: acceptance can be reached from a view exactly if what is left of the value matches what
-- is left of the pattern.
use agent_harness_os.Base.{
  ℕ, ◌≡◌, refl, sym, ap, subst, ◌≢◌, inl, inr, Bool, true, false, not, List, [], ◌∷◌, arith, ◌==◌,
  nat_eq, string_eq, option_eq, drop, In, In-when, In-when_append,
}
use agent_harness_os.Glob.{slash}
use agent_harness_os.Glob.Views.{
  View, view_of, Token, globstar_slash, globstar, any_run, any_one, literal, next_token,
  token_steps, view_steps, view_accepts,
}
use agent_harness_os.Glob.Meaning.{
  tokens, Matches, done, no_directory, directories, close_globstar, extend_globstar, close_run,
  extend_run, one, same, tokens_lem, Below, Means, ViewWins, accepted, onward,
}

not-slash : (c : ℕ) → not (c == slash) ≡ true → c ≢ slash
not-slash c h = ground arith

pub slash-not : (c : ℕ) → c ≢ slash → not (c == slash) ≡ true
slash-not c h = ground arith

same_character : (c x : ℕ) → (c == x) ≡ true → c ≡ x
same_character c x h = ground arith

-- Soundness of the steps: what the next view means, the view before it means.
module _ (q : List ℕ) (t : View) (m : Means t) where
  then_value : {v r : List ℕ} → t ≡ view_of false r v → Matches (tokens r) v
  then_value s = subst Means s m

  same_pattern :
      (k : Token) (r v : List ℕ)
      → tokens q ≡ k ∷ tokens r
      → t ≡ view_of false q v
      → Matches (k ∷ tokens r) v
  same_pattern k r v e s = subst (λ ts. Matches ts v) e (subst Means s m)

  token_means :
      (k : Token) (r v : List ℕ)
      → tokens q ≡ k ∷ tokens r
      → (k ≡ globstar_slash → drop 3 q ≡ r)
      → In t (token_steps q k r v)
      → Matches (k ∷ tokens r) v
  token_means globstar_slash r [] e d (inl s) = no_directory (then_value s)
  token_means globstar_slash r (x ∷ w) e d (inl s) =
      let (u, rest, split, inside) : Below (tokens (drop 3 q)) (x ∷ w) = subst Means s m in
      directories u rest split (subst (λ p. Matches (tokens p) rest) (d refl) inside)
  token_means globstar_slash r (x ∷ w) e d (inr (inl s)) = no_directory (then_value s)
  token_means globstar r [] e d (inl s) = close_globstar (then_value s)
  token_means globstar r (x ∷ w) e d (inl s) = extend_globstar (same_pattern globstar r w e s)
  token_means globstar r (x ∷ w) e d (inr (inl s)) = close_globstar (then_value s)
  token_means any_run r [] e d (inl s) = close_run (then_value s)
  token_means any_run r (x ∷ w) e d h =
      elim (In-when_append t (view_of false q w) (not (x == slash)) (view_of false r (x ∷ w) ∷ [])
        h) [
          | inl (other, s) ↦ extend_run (not-slash x other) (same_pattern any_run r w e s)
          | inr (inl s) ↦ close_run (then_value s)
          | inr (inr no_more) ↦ absurd no_more
        ]
  token_means any_one r (x ∷ w) e d h =
      let (other, s) = In-when t (view_of false r w) (not (x == slash)) h in
      one (not-slash x other) (then_value s)
  token_means (literal c) r (x ∷ w) e d h =
      let (equal, s) = In-when t (view_of false r w) (c == x) h in
      subst (λ y. Matches (literal c ∷ tokens r) (y ∷ w)) (same_character c x equal)
        (same (then_value s))
  token_means any_one r [] e d h = absurd h
  token_means (literal c) r [] e d h = absurd h
  token_means globstar_slash r [] e d (inr h) = absurd h
  token_means globstar_slash r (x ∷ w) e d (inr (inr h)) = absurd h
  token_means globstar r [] e d (inr h) = absurd h
  token_means globstar r (x ∷ w) e d (inr (inr h)) = absurd h
  token_means any_run r [] e d (inr h) = absurd h

pub drops_three :
    (a : ℕ) (q : List ℕ) → (next_token a q).0 ≡ globstar_slash → drop 3 (a ∷ q) ≡ (next_token a q).1
drops_three a [] h = ground arith
drops_three a (b ∷ []) h = ground arith
drops_three a (b ∷ c ∷ q) h = ground arith

view-Means :
    (a : Bool) (q v : List ℕ) (t : View)
    → In t (view_steps (view_of a q v))
    → Means t
    → Means (view_of a q v)
view-Means true q [] t h m = absurd h
view-Means true q (x ∷ w) t h m =
    elim (In-when_append t (view_of false (drop 3 q) w) (x == slash) (view_of true q w ∷ []) h) [
      | inl (at_slash, s) ↦
          ([], w, ap (λ c. c ∷ w) (same_character x slash at_slash), subst Means s m)
      | inr (inl s) ↦
          let (u, rest, split, inside) : Below (tokens (drop 3 q)) w = subst Means s m in
          (x ∷ u, rest, ap (λ l. x ∷ l) split, inside)
      | inr (inr no_more) ↦ absurd no_more
    ]
view-Means false [] v t h m = absurd h
view-Means false (a ∷ q) v t h m =
    subst (λ ts. Matches ts v) (sym (tokens_lem a q))
      (token_means (a ∷ q) t m (next_token a q).0 (next_token a q).1 v (tokens_lem a q)
        (drops_three a q) h)

accepted-Means :
    (a : Bool) (q v : List ℕ) → view_accepts (view_of a q v) ≡ true → Means (view_of a q v)
unfolding tokens
accepted-Means false [] [] h = done
accepted-Means true q v h = cc
accepted-Means false (x ∷ q) v h = absurd (ground arith)
accepted-Means false [] (x ∷ v) h = absurd (ground arith)

pub ViewWins-Means : {u : View} → ViewWins u → Means u
ViewWins-Means {u} (accepted h) = accepted-Means u.active u.rest_pattern u.rest_value h
ViewWins-Means {u} (onward {t = t} h w) =
    view-Means u.active u.rest_pattern u.rest_value t h (ViewWins-Means w)
