-- ===== src/Sync.antt =====
-- src/runtime/BlockingSync.h and BlockingSync.cpp: the classes that block uThreads.
-- A uThread is its address, and `nullptr` is 0. An operation returns the new state and the uThreads
-- on which it calls `resume()`, in order. What runs under a base lock, up to the `push_back` and
-- the unlock that a suspension makes on the next uThread's stack, is one step.
mod Tests
pub mod Mutex
pub mod OwnerLock
pub mod ConditionVariable
pub mod Semaphore
use u_threads.Base.{ℕ, Bool, true, false, not, ◌&&◌, ◌||◌, List, [], ◌∷◌, ◌++◌, ◌==◌, if◌then◌else◌}

-- `postSwitchFunc`: the uThread goes to the end of the blocking queue.
abbrev pub push_back : ℕ → List ℕ → List ℕ
push_back ut bq = bq ++ ut ∷ []

-- `Mutex`: the owner and the blocked uThreads, the first one first.
pub record MutexState : Type 0 where
  pub owner : ℕ
  pub bq : List ℕ

unfoldable pub new_mutex : MutexState
new_mutex = record { owner = 0; bq = [] }

-- `internalAcquire<OL>`; whether the caller is suspended.
unfoldable pub internal_acquire : Bool → ℕ → MutexState → MutexState × Bool
internal_acquire ol me m =
    if not (m.owner == 0) && (not ol || not (m.owner == me))
    then (record m { bq = push_back me m.bq }, true)
    else (record m { owner = me }, false)

-- `BlockingQueue::signal(std::mutex&, uThread*&)` and `internalRelease`.
unfoldable pub release_to : List ℕ → MutexState × List ℕ
release_to [] = (record { owner = 0; bq = [] }, [])
release_to (ut ∷ bq) = (record { owner = ut; bq = bq }, ut ∷ [])

unfoldable pub internal_release : MutexState → MutexState × List ℕ
unfolding release_to
internal_release m = release_to m.bq

-- `Mutex::acquire` and `Mutex::release`.
unfoldable pub acquire : ℕ → MutexState → MutexState × Bool
unfolding internal_acquire
acquire me m = internal_acquire false me m

unfoldable pub release : MutexState → MutexState × List ℕ
unfolding internal_release
release m = internal_release m

-- The conditions that `internalAcquire<OL>` and the `release`s assert.
abbrev pub acquire_assert : Bool → ℕ → MutexState → Bool
acquire_assert ol me m = ol || not (m.owner == me)

abbrev pub release_assert : ℕ → MutexState → Bool
release_assert me m = m.owner == me
