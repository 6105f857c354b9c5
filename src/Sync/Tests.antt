-- ===== src/Sync/Tests.antt =====
-- The theorems of the blocking classes at small runs of two or three uThreads.
use u_threads.Base.{
  ℕ, zero, suc, ◌≡◌, refl, ◌≢◌, ◌≤◌, ◌+◌, true, false, [], ◌∷◌, ◌++◌, some, arith, incr_word,
  decr_word, get_elem?,
}
use u_threads.Sync.{
  MutexState, new_mutex, internal_acquire, internal_release, acquire, release, acquire_assert,
  release_assert,
}
use u_threads.Sync.Mutex
use u_threads.Sync.Mutex.Invariant.{mutual_exclusion, asserts_hold, no_deadlock}
use u_threads.Sync.Mutex.Order.{call, calls, releases, acquires, bounded_wait}
use u_threads.Sync.OwnerLock
use u_threads.Sync.OwnerLock.Invariant.{owner_exclusion, acquire_result, nested_acquire}
use u_threads.Sync.OwnerLock.Race.{inner_result, last_result, last_result_race}
use u_threads.Sync.ConditionVariable.{Cv, signal_all}
use u_threads.Sync.ConditionVariable.Laws as Waits
use u_threads.Sync.ConditionVariable.Laws.{calls-fifo, signal_all_lem}
use u_threads.Sync.Semaphore
use u_threads.Sync.Semaphore.Invariant.{permits, suspended_only_at_zero}

-- uThread 1 is inside and uThread 2 waits.
abbrev contended : Mutex.System
contended = Mutex.acquire_by 2 (Mutex.acquire_by 1 Mutex.initial)

contended-Reach : Mutex.Reach contended
unfolding Mutex.initial Mutex.acquire_by new_mutex acquire
contended-Reach =
    Mutex.later (Mutex.later Mutex.start (Mutex.acquires Mutex.initial 1 (omega arith) refl))
      (Mutex.acquires (Mutex.acquire_by 1 Mutex.initial) 2 (omega arith) refl)

mutual_exclusion_example : ◌≡◌ {A = ℕ} 1 1
unfolding Mutex.initial Mutex.acquire_by new_mutex acquire
mutual_exclusion_example = mutual_exclusion contended-Reach 1 1 refl refl

asserts_hold_case :
    (contended.pc 1 ≡ Mutex.outside
      → ◌≢◌ {A = ℕ} 1 0
      → acquire_assert false 1 contended.mutex ≡ true)
    × (contended.pc 1 ≡ Mutex.inside → release_assert 1 contended.mutex ≡ true)
asserts_hold_case = asserts_hold contended-Reach 1

no_deadlock_example : (t : ℕ) × (contended.pc t ≡ Mutex.inside)
unfolding Mutex.initial Mutex.acquire_by new_mutex acquire
no_deadlock_example = no_deadlock contended-Reach 2 refl

abbrev queued_mutex : MutexState
queued_mutex = record { owner = 1; bq = 2 ∷ 3 ∷ [] }

three_ahead : (k u : ℕ) → k ≤ 1 → get_elem? (2 ∷ 3 ∷ []) k ≡ some u → u ≢ 0
three_ahead zero u h e = ground arith
three_ahead (suc zero) u h e = ground arith
three_ahead (suc (suc k)) u h e = absurd (omega arith)

bounded_wait_example :
    (call releases (calls (acquires 4 ∷ releases ∷ acquires 1 ∷ []) queued_mutex)).owner ≡ 3
bounded_wait_example =
    bounded_wait (acquires 4 ∷ releases ∷ acquires 1 ∷ []) queued_mutex 1 3
      (record { held = omega arith; place = refl; ahead = three_ahead }) refl

-- uThread 1 has acquired the lock, and uThread 2 waits for it.
abbrev granted_once : OwnerLock.System
granted_once = OwnerLock.acquire_by 1 0 OwnerLock.initial

abbrev owned_once : OwnerLock.System
owned_once = (OwnerLock.count_by 1 0 granted_once).0

abbrev awaited : OwnerLock.System
awaited = OwnerLock.acquire_by 2 0 owned_once

granted-Reach : OwnerLock.Reach granted_once
unfolding OwnerLock.initial
granted-Reach =
    OwnerLock.later OwnerLock.start (OwnerLock.enters OwnerLock.initial 1 (omega arith) refl)

owned-Reach : OwnerLock.Reach owned_once
unfolding OwnerLock.initial OwnerLock.acquire_by new_mutex internal_acquire
owned-Reach = OwnerLock.later granted-Reach (OwnerLock.counts granted_once 1 0 refl (omega arith))

awaited-Reach : OwnerLock.Reach awaited
unfolding OwnerLock.initial OwnerLock.acquire_by OwnerLock.count_by new_mutex internal_acquire
awaited-Reach = OwnerLock.later owned-Reach (OwnerLock.enters owned_once 2 (omega arith) refl)

owner_exclusion_example : (◌≡◌ {A = ℕ} 1 1) × (◌≡◌ {A = ℕ} 1 1)
unfolding OwnerLock.initial OwnerLock.acquire_by OwnerLock.count_by new_mutex internal_acquire
owner_exclusion_example = owner_exclusion awaited-Reach 1 1 1 1 refl refl

acquire_result_case : (OwnerLock.count_by 1 0 granted_once).1 ≡ 1
unfolding OwnerLock.initial OwnerLock.acquire_by new_mutex internal_acquire
acquire_result_case = acquire_result granted-Reach 1 0 refl (omega arith)

nested_twice : (OwnerLock.acquire_by 1 1 awaited).pc 1 ≡ OwnerLock.granted 1
unfolding OwnerLock.initial OwnerLock.acquire_by OwnerLock.count_by new_mutex internal_acquire
nested_twice = nested_acquire awaited-Reach 1 1 refl

last_result_race_example :
    let t = (OwnerLock.count_by 2 0 (OwnerLock.release_by 1 0 awaited)).0 in
    OwnerLock.Reach t × (t.pc 1 ≡ OwnerLock.returning 0) × (OwnerLock.result t ≡ 1)
unfolding OwnerLock.initial OwnerLock.acquire_by OwnerLock.count_by new_mutex internal_acquire
last_result_race_example = last_result_race awaited-Reach 1 2 [] refl refl

abbrev released : OwnerLock.System
released = OwnerLock.release_by 1 0 owned_once

released-Reach : OwnerLock.Reach released
unfolding OwnerLock.initial OwnerLock.acquire_by OwnerLock.count_by new_mutex internal_acquire
released-Reach = OwnerLock.later owned-Reach (OwnerLock.releases owned_once 1 0 refl)

last_result_at_zero : OwnerLock.result released ≡ 0
unfolding OwnerLock.initial OwnerLock.acquire_by OwnerLock.count_by OwnerLock.release_by new_mutex
    internal_acquire internal_release incr_word decr_word
last_result_at_zero = last_result released-Reach 1 refl refl

abbrev owned_twice : OwnerLock.System
owned_twice = (OwnerLock.count_by 1 1 (OwnerLock.acquire_by 1 1 owned_once)).0

abbrev released_inner : OwnerLock.System
released_inner = OwnerLock.release_by 1 1 owned_twice

released_inner-Reach : OwnerLock.Reach released_inner
unfolding OwnerLock.initial OwnerLock.acquire_by OwnerLock.count_by new_mutex internal_acquire
    incr_word
released_inner-Reach =
    OwnerLock.later
      (OwnerLock.later (OwnerLock.later owned-Reach (OwnerLock.nests owned_once 1 1 refl))
        (OwnerLock.counts (OwnerLock.acquire_by 1 1 owned_once) 1 1 refl (omega arith)))
      (OwnerLock.releases owned_twice 1 1 refl)

inner_result_at_one : OwnerLock.result released_inner ≡ 1
unfolding OwnerLock.initial OwnerLock.acquire_by OwnerLock.count_by OwnerLock.release_by new_mutex
    internal_acquire internal_release incr_word decr_word
inner_result_at_one = inner_result released_inner-Reach 1 0 refl

-- Two waiters on a condition variable, with the mutex held by uThread 3.
abbrev two_wait : Cv
two_wait = record { mutex = record { owner = 3; bq = 5 ∷ [] }; bq = 1 ∷ 2 ∷ [] }

signal_all_lem_case :
    signal_all two_wait
    ≡ (record { mutex = (release two_wait.mutex).0; bq = [] }, 1 ∷ 2 ∷ (release two_wait.mutex).1)
signal_all_lem_case = signal_all_lem two_wait

calls-fifo_example :
    (Waits.calls (Waits.waits 3 ∷ Waits.signals ∷ Waits.signals_all ∷ []) two_wait).1
      ++ (Waits.calls (Waits.waits 3 ∷ Waits.signals ∷ Waits.signals_all ∷ []) two_wait).0.bq
    ≡ 1 ∷ 2 ∷ 3 ∷ []
calls-fifo_example = calls-fifo (Waits.waits 3 ∷ Waits.signals ∷ Waits.signals_all ∷ []) two_wait

-- A semaphore that starts at 1: uThread 1 takes it, and uThread 2 waits for it.
abbrev taken_sem : Semaphore.System
taken_sem =
    Semaphore.body_p 1 (Semaphore.enter Semaphore.p_lock Semaphore.p_body 1 (Semaphore.initial 1))

abbrev waited_sem : Semaphore.System
waited_sem = Semaphore.body_p 2 (Semaphore.enter Semaphore.p_lock Semaphore.p_body 2 taken_sem)

waited-Reach : Semaphore.Reach 1 waited_sem
unfolding Semaphore.initial Semaphore.enter Semaphore.body_p new_mutex acquire release
waited-Reach =
    Semaphore.later
      (Semaphore.later
        (Semaphore.later
          (Semaphore.later Semaphore.start
            (Semaphore.starts_p (Semaphore.initial 1) 1 (omega arith) refl))
          (Semaphore.takes
            (Semaphore.enter Semaphore.p_lock Semaphore.p_body 1 (Semaphore.initial 1)) 1 refl))
        (Semaphore.starts_p taken_sem 2 (omega arith) refl))
      (Semaphore.takes (Semaphore.enter Semaphore.p_lock Semaphore.p_body 2 taken_sem) 2 refl)

permits_case : waited_sem.taken ≤ 1 + waited_sem.given
permits_case = permits 1 waited-Reach

suspended_only_at_zero_example :
    (waited_sem.sem.counter ≡ 0) × (waited_sem.taken ≡ 1 + waited_sem.given)
unfolding Semaphore.initial Semaphore.enter Semaphore.body_p new_mutex acquire release
suspended_only_at_zero_example = suspended_only_at_zero 1 waited-Reach 2 refl
