-- ===== src/Sync/ConditionVariable.antt =====
-- src/runtime/BlockingSync.h and BlockingSync.cpp: the class `ConditionVariable`, beside the mutex
-- that its callers pass.
pub mod Laws
use u_threads.Base.{ℕ, Bool, true, false, List, [], ◌∷◌, ◌++◌}
use u_threads.Sync.{MutexState, release, push_back}

pub record Cv : Type 0 where
  pub mutex : MutexState
  pub bq : List ℕ

-- `wait` up to its suspension: the uThread goes to the end of the blocking queue, and only then is
-- the mutex released. What is left of `wait` is an `acquire` of the mutex.
unfoldable pub wait : ℕ → Cv → Cv × List ℕ
wait me c = (record { mutex = (release c.mutex).0; bq = push_back me c.bq }, (release c.mutex).1)

-- `BlockingQueue::signal(Mutex&)` and `signal`, which release the mutex either way.
unfoldable pub signal_first : List ℕ → MutexState → Cv × List ℕ
signal_first [] m = (record { mutex = (release m).0; bq = [] }, (release m).1)
signal_first (ut ∷ bq) m = (record { mutex = (release m).0; bq = bq }, (release m).1 ++ ut ∷ [])

unfoldable pub signal : Cv → Cv × List ℕ
unfolding signal_first
signal c = signal_first c.bq c.mutex

-- The loop of `signalAll`: what is left in the queue, and the uThreads resumed, in order.
signal_loop : List ℕ → List ℕ → List ℕ × List ℕ
signal_loop [] resumed = ([], resumed)
signal_loop (ut ∷ bq) resumed = signal_loop bq (push_back ut resumed)

unfoldable pub signal_all : Cv → Cv × List ℕ
unfolding signal_loop
signal_all c =
    let (bq, resumed) = signal_loop c.bq [] in
    (record { mutex = (release c.mutex).0; bq = bq }, resumed ++ (release c.mutex).1)

abbrev is_empty : List ℕ → Bool
is_empty [] = true
is_empty (ut ∷ bq) = false

pub empty : Cv → Bool
empty c = is_empty c.bq
