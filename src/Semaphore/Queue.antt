-- ===== src/Semaphore/Queue.antt =====
-- lib/semaphore.ts: to whom a release hands its permit.
use agent_harness_os.Base.{
  ℕ, ◌≡◌, refl, sym, ap, ◌⊎◌, inl, inr, Bool, true, false, List, [], ◌∷◌, ◌++◌, arith, Bool-cases,
  nat_eq, string_eq, option_eq, All, contains, In,
}
use agent_harness_os.Semaphore.{
  SemaphoreWaiter, Outcome, resolved, rejected, Semaphore, is_aborted, release_next, release,
}

-- A waiter of the first entries of a queue that a release has passed over: it had settled, or its signal is
-- aborted and the release rejects it.
abbrev pub PassedOver :
    (ℕ → Bool) → List ℕ → List Outcome → List SemaphoreWaiter → SemaphoreWaiter → Type 0
PassedOver aborted settled os before w =
    (contains settled w.waiter ≡ true)
    ⊎ (In (rejected w.waiter) os
        × (v : SemaphoreWaiter) × In v before
        × (v.waiter ≡ w.waiter)
        × (is_aborted aborted v.signal ≡ true))

-- What a queue was when a release resolved a waiter of it.
pub record Served (aborted : ℕ → Bool) (available : ℕ) (ws : List SemaphoreWaiter)
    (settled : List ℕ) (id : ℕ) (r : Semaphore × List Outcome) : Type 0 where
  pub before : List SemaphoreWaiter
  pub served : SemaphoreWaiter
  pub split : ws ≡ before ++ served ∷ r.0.waiting
  pub served_id : served.waiter ≡ id
  pub live : is_aborted aborted served.signal ≡ false
  pub unsettled : contains settled id ≡ false
  pub now_settled : contains r.0.settled id ≡ true
  pub overtaken : All (PassedOver aborted settled r.1 before) before
  pub kept : r.0.available ≡ available

All-weaken :
    {A : Type 0} (P Q : A → Type 0) (xs : List A) → ((a : A) → P a → Q a) → All P xs → All Q xs
All-weaken P Q [] f h = tt
All-weaken P Q (x ∷ xs) f h = (f x h.0, All-weaken P Q xs f h.1)

resolved-injective : (a b : ℕ) → resolved a ≡ resolved b → a ≡ b
resolved-injective a b h = ground arith

contains-cons :
    (x y : ℕ) (xs : List ℕ) → contains (x ∷ xs) y ≡ true → (y ≡ x) ⊎ (contains xs y ≡ true)
contains-cons x y xs h = ground arith

uncontained : (x y : ℕ) (xs : List ℕ) → contains (x ∷ xs) y ≡ false → contains xs y ≡ false
uncontained x y xs h = ground arith

overtaken_later :
    (aborted : ℕ → Bool) (settled : List ℕ) (os : List Outcome) (w : SemaphoreWaiter)
    (before : List SemaphoreWaiter) (g : SemaphoreWaiter)
    → PassedOver aborted settled os before g
    → PassedOver aborted settled os (w ∷ before) g
overtaken_later aborted settled os w before g (inl old) = inl old
overtaken_later aborted settled os w before g (inr (m, v, n, same, gone)) =
    inr (m, v, inr n, same, gone)

overtaken_after_rejected :
    (aborted : ℕ → Bool) (settled : List ℕ) (os : List Outcome) (w : SemaphoreWaiter)
    (before : List SemaphoreWaiter)
    → is_aborted aborted w.signal ≡ true
    → (g : SemaphoreWaiter) → PassedOver aborted (w.waiter ∷ settled) os before g
    → PassedOver aborted settled (rejected w.waiter ∷ os) (w ∷ before) g
overtaken_after_rejected aborted settled os w before gone g (inr (m, v, n, same, also)) =
    inr (inr m, v, inr n, same, also)
overtaken_after_rejected aborted settled os w before gone g (inl c) =
    elim (contains-cons w.waiter g.waiter settled c) [
      | inl e ↦ inr (inl (ap rejected e), w, inl refl, sym e, gone)
      | inr old ↦ inl old
    ]

release_next-Served :
    (aborted : ℕ → Bool) (available : ℕ) (ws : List SemaphoreWaiter) (settled : List ℕ) (id : ℕ)
    → In (resolved id) (release_next aborted available ws settled).1
    → Served aborted available ws settled id (release_next aborted available ws settled)
unfolding release_next
release_next-Served aborted available [] settled id h = absurd h
release_next-Served aborted available (w ∷ ws) settled id h =
    elim (Bool-cases (contains settled w.waiter)) [
      | inl old ↦
          let s = release_next-Served aborted available ws settled id (rw old at h) in
          rw old (record {
            before = w ∷ s.before;
            served = s.served;
            split = ap (λ l. w ∷ l) s.split;
            served_id = s.served_id;
            live = s.live;
            unsettled = s.unsettled;
            now_settled = s.now_settled;
            overtaken = (
              inl old,
              All-weaken _ _ s.before
                  (overtaken_later aborted settled (release_next aborted available ws settled).1 w
                    s.before)
                  s.overtaken,
            );
            kept = s.kept;
          })
      | inr fresh ↦ elim (Bool-cases (is_aborted aborted w.signal)) [
        | inl gone ↦ elim (rw (fresh, gone) at h) [
          | inl e ↦ absurd (cc)
          | inr m ↦
              let s = release_next-Served aborted available ws (w.waiter ∷ settled) id m in
              let os = (release_next aborted available ws (w.waiter ∷ settled)).1 in
              rw (fresh, gone)
                (record {
                  before = w ∷ s.before;
                  served = s.served;
                  split = ap (λ l. w ∷ l) s.split;
                  served_id = s.served_id;
                  live = s.live;
                  unsettled = uncontained w.waiter id settled s.unsettled;
                  now_settled = s.now_settled;
                  overtaken = (
                    inr (inl refl, w, inl refl, refl, gone),
                    All-weaken _ _ s.before
                        (overtaken_after_rejected aborted settled os w s.before gone) s.overtaken,
                  );
                  kept = s.kept;
                })
        ]
        | inr live ↦ elim (rw (fresh, live) at h) [
          | inr none_left ↦ absurd none_left
          | inl e ↦
              let same_id : id ≡ w.waiter = resolved-injective id w.waiter e in
              rw (fresh, live)
                (record {
                  before = [];
                  served = w;
                  split = refl;
                  served_id = sym same_id;
                  live = live;
                  unsettled = rw same_id fresh;
                  now_settled = ground (arith, same_id);
                  overtaken = tt;
                  kept = refl;
                })
        ]
      ]
    ]

-- A release that resolves a waiter takes the first one of the queue that has not settled and whose signal
-- is not aborted: each waiter before it had settled, or its signal is aborted and the release rejects it, the
-- waiters after it stay in their order, the resolved one counts as settled from then on, and no permit becomes free.
pub release-Served :
    (aborted : ℕ → Bool) (s : Semaphore) (id : ℕ)
    → In (resolved id) (release aborted s).1
    → Served aborted s.available s.waiting s.settled id (release aborted s)
unfolding release
release-Served aborted s id h = release_next-Served aborted s.available s.waiting s.settled id h
