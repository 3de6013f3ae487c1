-- ===== src/Semaphore/Permits.antt =====
-- lib/semaphore.ts: no permit is lost or made, and no one waits while a permit is free.
use agent_harness_os.Base.{
  ℕ, ◌+◌, ◌≡◌, refl, subst, ◌⊎◌, inl, inr, Bool, List, [], ◌∷◌, arith, ltb, Bool-cases, nat_eq,
  string_eq, option_eq, contains, harness_error, ok-injective, throw_if_inv,
}
use agent_harness_os.Semaphore.{
  SemaphoreWaiter, Semaphore, is_aborted, acquire, remove_waiter, abort, release_next, release,
  count_resolved, Step, acquiring, aborting, releasing, Reachable, start, next,
}

-- With permits left, nobody waits.
abbrev pub NoneWaits : Semaphore → Type 0
NoneWaits s = (s.waiting ≡ []) ⊎ (s.available ≡ 0)

release_next-permits :
    (aborted : ℕ → Bool) (available : ℕ) (ws : List SemaphoreWaiter) (settled : List ℕ)
    → (ws ≡ []) ⊎ (available ≡ 0)
    → let r = release_next aborted available ws settled in
      (r.0.available + count_resolved r.1 ≡ available + 1) × NoneWaits r.0
unfolding release_next count_resolved
release_next-permits aborted available [] settled h = (omega arith, inl refl)
release_next-permits aborted available (w ∷ ws) settled (inl e) = absurd (cc)
release_next-permits aborted available (w ∷ ws) settled (inr e) =
    elim (Bool-cases (contains settled w.waiter)) [
      | inl old ↦ rw old (release_next-permits aborted available ws settled (inr e))
      | inr fresh ↦ elim (Bool-cases (is_aborted aborted w.signal)) [
        | inl gone ↦
            rw (fresh, gone)
              (release_next-permits aborted available ws (w.waiter ∷ settled) (inr e))
        | inr live ↦ rw (fresh, live) (refl, inr e)
      ]
    ]

remove_waiter-empty :
    (waiter : ℕ) (ws : List SemaphoreWaiter) → ws ≡ [] → remove_waiter waiter ws ≡ []
unfolding remove_waiter
remove_waiter-empty waiter [] h = refl
remove_waiter-empty waiter (w ∷ ws) h = absurd (cc)

Step-permits :
    {x y : Semaphore × ℕ} (limit : ℕ)
    → Step x y
    → (x.0.available + x.1 ≡ limit) × NoneWaits x.0
    → (y.0.available + y.1 ≡ limit) × NoneWaits y.0
unfolding count_resolved acquire abort release
Step-permits limit (acquiring {s = s} aborted waiter signal) (total, free) =
    elim (Bool-cases (is_aborted aborted signal)) [
      | inl gone ↦ rw gone (omega arith, free)
      | inr live ↦ elim (Bool-cases (ltb 0 s.available)) [
        | inl some_left ↦ rw (live, some_left) (ground arith, ground arith)
        | inr none_left ↦ rw (live, none_left) (omega arith, inr (ground arith))
      ]
    ]
Step-permits limit (aborting {s = s} waiter) (total, free) =
    elim (Bool-cases (contains s.settled waiter)) [
      | inl old ↦ rw old (omega arith, free)
      | inr fresh ↦ rw fresh (
        omega arith,
        elim free [ inl e ↦ inl (remove_waiter-empty waiter s.waiting e) | inr e ↦ inr e ],
      )
    ]
Step-permits limit (releasing {s = s} {held = held} aborted) (total, free) =
    let (kept, none_waits) = release_next-permits aborted s.available s.waiting s.settled free in
    (omega (arith, kept, total), none_waits)

-- In every state that a semaphore reaches, the free permits and the operations that hold one make up the
-- limit it was made with, and if anyone waits then no permit is free.
pub Reachable-permits :
    (limit : ℕ) {x : Semaphore × ℕ}
    → Reachable limit x
    → (x.0.available + x.1 ≡ limit) × NoneWaits x.0
Reachable-permits limit (start h) =
    let (_, built) =
      throw_if_inv (ltb limit 1) (harness_error "Semaphore limit must be a positive integer") _ h in
    subst (λ s. (s.available + 0 ≡ limit) × NoneWaits s) (ok-injective built)
      (omega arith, inl refl)
Reachable-permits limit (next r t) = Step-permits limit t (Reachable-permits limit r)
