-- ===== src/Scheduler04/Same.antt =====
-- src/runtime/schedulers/Scheduler_03.h and Scheduler_04.h: the program is built with one or the other.
use u_threads.Base.{ℕ, ◌≡◌, Bool, List, Option, some}
use u_threads.RunQueue.Calls.{Call, run_calls, spec_calls, AllFresh, calls-Refines}
use u_threads.Scheduler03.{Scheduler as MutexScheduler}
use u_threads.Scheduler03.Fifo.{Queues as MutexQueues, mutex_queue}
use u_threads.Scheduler04.{Scheduler}
use u_threads.Scheduler04.Order.{Queues, node_queue}

-- From states that stand for the same uThreads, the run queue with a mutex and the one with nodes give
-- their kThreads the same uThreads, call by call, as long as no uThread is scheduled twice and the
-- kThread of the first gets its mutex whenever it tries.
pub same_results :
    (fresh : ℕ) (is_yield : Bool) (cs : List Call) (s3 : MutexScheduler) (s4 : Scheduler)
    (xs : List ℕ)
    → AllFresh cs xs
    → MutexQueues s3 xs
    → Queues fresh s4 xs
    → (rs : List (Option ℕ)) × (s3' : MutexScheduler) × (s4' : Scheduler) × (run_calls mutex_queue
          cs s3
        ≡ some (rs, s3'))
      × (run_calls (node_queue fresh is_yield) cs s4 ≡ some (rs, s4'))
same_results fresh is_yield cs s3 s4 xs f h3 h4 =
    let (s3', e3, h3') = calls-Refines mutex_queue cs s3 xs f h3 in
    let (s4', e4, h4') = calls-Refines (node_queue fresh is_yield) cs s4 xs f h4 in
    ((spec_calls cs xs).0, s3', s4', e3, e4)
