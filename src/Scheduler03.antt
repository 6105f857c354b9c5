-- ===== src/Scheduler03.antt =====
-- src/runtime/schedulers/Scheduler_03.h: a run queue under a `std::mutex`, on which its kThread waits
-- with a condition variable. What runs under the mutex is one step, and whether `try_to_lock` gets it
-- is an argument. `bulkPush` over the kThreads of a cluster.
pub mod Order
mod Bulk
pub mod Fifo
mod Tests
use u_threads.Base.{
  ℕ, suc, ◌+◌, Bool, true, false, not, ◌||◌, List, [], ◌∷◌, ◌++◌, Option, none, some, ◌>>=◌, ltb,
  if◌then◌else◌,
}
use u_threads.Intrusive.{Links}
use u_threads.Intrusive.Queue.{IntrusiveQueue, empty, push, pop, transfer_all_from}

-- The run queue, the memory of its links, and whether the kThread is in `cv.wait`.
pub record Scheduler : Type 0 where
  pub run_queue : IntrusiveQueue
  pub links : Links
  pub asleep : Bool

-- `schedule`: a push, and `notify_one`.
unfoldable pub schedule : ℕ → Scheduler → Option Scheduler
schedule ut s = do
  (q, h) ← push ut s.run_queue s.links
  some (record { run_queue = q; links = h; asleep = false })

-- `schedule(queue, count)`: all of the other queue, which is empty then.
unfoldable pub schedule_many : IntrusiveQueue → Scheduler → Option (IntrusiveQueue × Scheduler)
schedule_many eq s = do
  (q, eq', h) ← transfer_all_from s.run_queue eq s.links
  some (eq', record { run_queue = q; links = h; asleep = false })

-- `front` and `pop` of a queue that is not empty.
unfoldable pub take_front : Scheduler → Option (ℕ × Scheduler)
take_front s = do
  (ut, q, h) ← pop s.run_queue s.links
  some (s.run_queue.head, record { run_queue = q; links = h; asleep = false })

-- `__tryPop`: 0 is `nullptr`.
unfoldable pub try_pop : Bool → Scheduler → Option (ℕ × Scheduler)
unfolding take_front
try_pop owns_lock s =
    if not owns_lock || empty s.run_queue
    then some (0, record s { asleep = false })
    else take_front s

-- A round of the loop of `__Pop`, which a spurious wake-up repeats: it waits, or takes the front.
unfoldable pub pop_round : Scheduler → Option (ℕ × Scheduler)
unfolding take_front
pop_round s = if empty s.run_queue then some (0, record s { asleep = true }) else take_front s
