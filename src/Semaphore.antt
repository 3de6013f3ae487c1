-- ===== src/Semaphore.antt =====
-- lib/semaphore.ts: permits, a queue of waiters, and signals that abort a wait. A waiter is named by a
-- number and its signal by another one; whether a signal is aborted is an argument of each operation, since
-- it is the signal's state. What a promise comes to is an outcome.
pub mod Queue
pub mod Permits
pub mod Tests
use agent_harness_os.Base.{
  ℕ, suc, ◌+◌, ◌-◌, ◌≡◌, Bool, false, Option, none, some, List, [], ◌∷◌, ◌++◌, ltb, if◌then◌else◌,
  ◌==◌, nat_eq, string_eq, option_eq, contains, harness_error, Result, ok, ◌>>=◌, throw_if,
}

pub record SemaphoreWaiter : Type 0 where
  pub waiter : ℕ
  pub signal : Option ℕ

pub data Outcome : Type 0 where
  resolved rejected : ℕ → Outcome

pub record Semaphore : Type 0 where
  pub available : ℕ
  pub waiting : List SemaphoreWaiter
  -- The waiters with the flag `settled`.
  pub settled : List ℕ

abbrev pub new_semaphore : ℕ → Result Semaphore
new_semaphore limit =
    throw_if (ltb limit 1) (harness_error "Semaphore limit must be a positive integer") >>= λ _.
    ok (record { available = limit; waiting = []; settled = [] })

-- `signal?.aborted === true`
pub is_aborted : (ℕ → Bool) → Option ℕ → Bool
is_aborted aborted none = false
is_aborted aborted (some s) = aborted s

unfoldable pub acquire : (ℕ → Bool) → ℕ → Option ℕ → Semaphore → Semaphore × List Outcome
unfolding is_aborted
acquire aborted waiter signal s =
    if is_aborted aborted signal
    then (s, rejected waiter ∷ [])
    else if ltb 0 s.available
    then (record s { available = s.available - 1 }, resolved waiter ∷ [])
    else (record s { waiting = s.waiting ++ record { waiter = waiter; signal = signal } ∷ [] }, [])

-- `indexOf` and `splice` of the first entry of a waiter.
pub remove_waiter : ℕ → List SemaphoreWaiter → List SemaphoreWaiter
remove_waiter waiter [] = []
remove_waiter waiter (w ∷ ws) = if w.waiter == waiter then ws else w ∷ remove_waiter waiter ws

-- The listener that a waiter adds to its signal.
unfoldable pub abort : ℕ → Semaphore → Semaphore × List Outcome
unfolding remove_waiter
abort waiter s = if contains s.settled waiter then (s, []) else (
  record s { waiting = remove_waiter waiter s.waiting; settled = waiter ∷ s.settled },
  rejected waiter ∷ [],
)

-- The loop of `release` over the queue.
pub release_next : (ℕ → Bool) → ℕ → List SemaphoreWaiter → List ℕ → Semaphore × List Outcome
release_next aborted available [] settled =
    (record { available = available + 1; waiting = []; settled = settled }, [])
release_next aborted available (w ∷ ws) settled =
    let passed_over = release_next aborted available ws settled in
    let dropped = release_next aborted available ws (w.waiter ∷ settled) in
    if contains settled w.waiter
    then passed_over
    else if is_aborted aborted w.signal
    then (dropped.0, rejected w.waiter ∷ dropped.1)
    else (
      record { available = available; waiting = ws; settled = w.waiter ∷ settled },
      resolved w.waiter ∷ [],
    )

unfoldable pub release : (ℕ → Bool) → Semaphore → Semaphore × List Outcome
unfolding release_next is_aborted
release aborted s = release_next aborted s.available s.waiting s.settled

pub count_resolved : List Outcome → ℕ
count_resolved [] = 0
count_resolved (resolved w ∷ os) = suc (count_resolved os)
count_resolved (rejected w ∷ os) = count_resolved os

-- A run of the semaphore: its state and the number of operations that hold a permit.
pub data Step : Semaphore × ℕ → Semaphore × ℕ → Type 0 where
  acquiring :
      {s : Semaphore} {held : ℕ} (aborted : ℕ → Bool) (waiter : ℕ) (signal : Option ℕ)
      → Step
          (s, held)
          (
            (acquire aborted waiter signal s).0,
            held + count_resolved (acquire aborted waiter signal s).1,
          )
  aborting :
      {s : Semaphore} {held : ℕ} (waiter : ℕ)
      → Step (s, held) ((abort waiter s).0, held + count_resolved (abort waiter s).1)
  -- An operation has ended.
  releasing :
      {s : Semaphore} {held : ℕ} (aborted : ℕ → Bool)
      → Step (s, suc held) ((release aborted s).0, held + count_resolved (release aborted s).1)

pub data Reachable (limit : ℕ) : Semaphore × ℕ → Type 0 where
  start : {s : Semaphore} → new_semaphore limit ≡ ok s → Reachable limit (s, 0)
  next : {x y : Semaphore × ℕ} → Reachable limit x → Step x y → Reachable limit y
