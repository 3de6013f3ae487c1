-- ===== src/Semaphore/Tests.antt =====
-- lib/semaphore.ts: a queue of two waiters, the first with an aborted signal.
use agent_harness_os.Base.{
  ℕ, ◌+◌, ◌≡◌, refl, inl, inr, Bool, none, some, [], ◌∷◌, ◌==◌, nat_eq, string_eq, option_eq, In,
}
use agent_harness_os.Semaphore.{
  resolved, Semaphore, acquire, release, count_resolved, acquiring, Reachable, start, next,
}
use agent_harness_os.Semaphore.Queue.{Served, release-Served}
use agent_harness_os.Semaphore.Permits.{NoneWaits, Reachable-permits}

abbrev aborted_one : ℕ → Bool
aborted_one s = s == 1

abbrev two_waiting : Semaphore
two_waiting = record {
  available = 0;
  waiting = record { waiter = 7; signal = some 1 } ∷ record { waiter = 8; signal = none } ∷ [];
  settled = [];
}

eight_resolved : In (resolved 8) (release aborted_one two_waiting).1
unfolding release
eight_resolved = inr (inl refl)

release-Served_example :
    Served aborted_one 0 two_waiting.waiting [] 8 (release aborted_one two_waiting)
release-Served_example = release-Served aborted_one two_waiting 8 eight_resolved

abbrev fresh_semaphore : Semaphore
fresh_semaphore = record { available = 2; waiting = []; settled = [] }

abbrev after_acquire : Semaphore × ℕ
after_acquire = (
  (acquire aborted_one 7 none fresh_semaphore).0,
  0 + count_resolved (acquire aborted_one 7 none fresh_semaphore).1,
)

one_acquired : Reachable 2 after_acquire
one_acquired = next (start refl) (acquiring aborted_one 7 none)

Reachable-permits_example :
    (after_acquire.0.available + after_acquire.1 ≡ 2) × NoneWaits after_acquire.0
Reachable-permits_example = Reachable-permits 2 one_acquired
