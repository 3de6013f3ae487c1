-- ===== src/Glob/Converse.antt =====
-- lib/glob.ts: a match of what is left of the value with what is left of the pattern leads the views
-- to acceptance.
use agent_harness_os.Base.{
  ℕ, ◌≡◌, refl, sym, subst, ◌∙◌, inl, inr, true, false, not, List, [], ◌∷◌, ◌++◌, arith,
  if◌then◌else◌, ◌==◌, ==_refl, nat_eq, string_eq, option_eq, drop, In, In-append_right,
}
use agent_harness_os.Glob.{slash}
use agent_harness_os.Glob.Views.{
  View, view_of, Token, globstar_slash, globstar, any_run, next_token, token_steps, view_steps,
}
use agent_harness_os.Glob.Meaning.{
  tokens, Matches, done, no_directory, directories, close_globstar, extend_globstar, close_run,
  extend_run, one, same, tokens-empty, tokens_lem, ViewWins, accepted, onward,
}
use agent_harness_os.Glob.Correct.{slash-not, drops_three}

-- What a pattern that starts with a token looks like.
record Splits (k : Token) (ts : List Token) (q : List ℕ) : Type 0 where
  rest : List ℕ
  rest_tokens : ts ≡ tokens rest
  follows : (v : List ℕ) → view_steps (view_of false q v) ≡ token_steps q k rest v
  below : k ≡ globstar_slash → drop 3 q ≡ rest

cons-head : (k l : Token) (ts us : List Token) → k ∷ ts ≡ l ∷ us → (k ≡ l) × (ts ≡ us)
cons-head k l ts us e = ground arith

splits : (k : Token) (ts : List Token) (q : List ℕ) → k ∷ ts ≡ tokens q → Splits k ts q
splits k ts [] e = absurd (ground (arith, tokens-empty))
splits k ts (a ∷ q) e =
    let (first, others) = cons-head _ _ _ _ (e ∙ tokens_lem a q) in
    record {
      rest = (next_token a q).1;
      rest_tokens = others;
      follows = λ v. rw first refl;
      below = λ h. drops_three a q (sym first ∙ h);
    }

onward_by :
    {k : Token} {ts : List Token} {q : List ℕ} (s : Splits k ts q) (v : List ℕ) (t : View)
    → In t (token_steps q k s.rest v)
    → ViewWins t
    → ViewWins (view_of false q v)
onward_by s v t h w = onward (subst (λ l. In t l) (sym (s.follows v)) h) w

skip_slash : (q r v : List ℕ) → In (view_of false r v) (token_steps q globstar_slash r v)
skip_slash q r [] = inl refl
skip_slash q r (x ∷ w) = inr (inl refl)

skip_globstar : (q r v : List ℕ) → In (view_of false r v) (token_steps q globstar r v)
skip_globstar q r [] = inl refl
skip_globstar q r (x ∷ w) = inr (inl refl)

skip_run : (q r v : List ℕ) → In (view_of false r v) (token_steps q any_run r v)
skip_run q r [] = inl refl
skip_run q r (x ∷ w) =
    In-append_right (view_of false r (x ∷ w))
      (if not (x == slash) then view_of false q w ∷ [] else []) (view_of false r (x ∷ w) ∷ [])
      (inl refl)

-- The mode that skips directories stops after any slash.
active_wins :
    (q u w : List ℕ)
    → ViewWins (view_of false (drop 3 q) w)
    → ViewWins (view_of true q (u ++ slash ∷ w))
active_wins q [] w h = onward (inl refl) h
active_wins q (x ∷ u) w h =
    onward
      (In-append_right (view_of true q (u ++ slash ∷ w))
        (if x == slash then view_of false (drop 3 q) (u ++ slash ∷ w) ∷ [] else [])
        (view_of true q (u ++ slash ∷ w) ∷ []) (inl refl))
      (active_wins q u w h)

enter_slash :
    (q r u w : List ℕ)
    → In (view_of true q (u ++ slash ∷ w)) (token_steps q globstar_slash r (u ++ slash ∷ w))
enter_slash q r [] w = inl refl
enter_slash q r (x ∷ u) w = inl refl

pub Matches-ViewWins :
    {ts : List Token} {v : List ℕ}
    → Matches ts v
    → (q : List ℕ) → ts ≡ tokens q
    → ViewWins (view_of false q v)
Matches-ViewWins done [] e = accepted refl
Matches-ViewWins done (a ∷ q) e = absurd (ground (arith, tokens_lem a q))
Matches-ViewWins (no_directory {v = v} m) q e =
    let s = splits _ _ q e in
    onward_by s v _ (skip_slash q s.rest v) (Matches-ViewWins m s.rest s.rest_tokens)
Matches-ViewWins (directories u w split m) q e =
    let s = splits _ _ q e in
    subst (λ v. ViewWins (view_of false q v)) (sym split)
      (onward_by s (u ++ slash ∷ w) _ (enter_slash q s.rest u w) (
        active_wins q u w (
          subst (λ p. ViewWins (view_of false p w)) (sym (s.below refl))
            (Matches-ViewWins m s.rest s.rest_tokens))))
Matches-ViewWins (close_globstar {v = v} m) q e =
    let s = splits _ _ q e in
    onward_by s v _ (skip_globstar q s.rest v) (Matches-ViewWins m s.rest s.rest_tokens)
Matches-ViewWins (extend_globstar {c = c} {v = v} m) q e =
    let s = splits _ _ q e in
    onward_by s (c ∷ v) (view_of false q v) (inl refl) (Matches-ViewWins m q e)
Matches-ViewWins (close_run {v = v} m) q e =
    let s = splits _ _ q e in
    onward_by s v _ (skip_run q s.rest v) (Matches-ViewWins m s.rest s.rest_tokens)
Matches-ViewWins (extend_run {c = c} {v = v} n m) q e =
    let s = splits _ _ q e in
    onward_by s (c ∷ v) (view_of false q v) (rw (slash-not c n) (inl refl)) (Matches-ViewWins m q e)
Matches-ViewWins (one {c = c} {v = v} n m) q e =
    let s = splits _ _ q e in
    onward_by s (c ∷ v) (view_of false s.rest v) (rw (slash-not c n) (inl refl))
      (Matches-ViewWins m s.rest s.rest_tokens)
Matches-ViewWins (same {c = c} {v = v} m) q e =
    let s = splits _ _ q e in
    onward_by s (c ∷ v) (view_of false s.rest v) (rw (==_refl c) (inl refl))
      (Matches-ViewWins m s.rest s.rest_tokens)
