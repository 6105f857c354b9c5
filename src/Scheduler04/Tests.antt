-- ===== src/Scheduler04/Tests.antt =====
-- Runs of the scheduler of src/runtime/schedulers/Scheduler_04.h.
use u_threads.Base.{ℕ, ◌+◌, ◌≡◌, refl, true, false, List, [], ◌∷◌, Option, none, some, arith}
use u_threads.RunQueue.Calls.{Call, schedule_call, choose_call, run_calls, spec_calls, AllFresh}
use u_threads.Scheduler04.{Scheduler, get_scheduler, new_queue, blocking_switch_end}
use u_threads.Scheduler04.Nodes.{Holds, spare}
use u_threads.Scheduler04.Order.{Queues, node_queue, nodes-in_order}
use u_threads.Scheduler03.{Scheduler as MutexScheduler}
use u_threads.Scheduler03.Fifo.{mutex_queue}
use u_threads.Scheduler03.Order.{Holds as MutexHolds}
use u_threads.Intrusive.{Links}
use u_threads.Intrusive.Queue.{empty_queue}
use u_threads.Intrusive.Queue.Laws.{empty_queue-IsQueue}
use u_threads.Scheduler04.Same.{same_results}
use u_threads.Scheduler04.Stale.{drain, drain-reads_null}

-- The stub is node 1, `new` returns node 2 and the uThread `u` has node `u + 3`.
abbrev start : Scheduler
start = get_scheduler 1 (λ u. u + 3)

start-Holds : Holds 2 start [] []
unfolding get_scheduler new_queue spare
start-Holds = record {
  chain = (refl, ground arith, refl);
  tail = refl;
  states = refl;
  marked = λ e. refl;
  distinct = (refl, (refl, tt));
  spare_ne = λ e. ground arith;
  owns = λ u o. ground arith;
  one_owner = λ u v o e. omega (arith, e);
  uthreads = tt;
  outside = λ u. ground arith;
}

abbrev calls : List Call
calls =
    choose_call
    ∷ schedule_call 8
    ∷ schedule_call 16
    ∷ choose_call
    ∷ schedule_call 8
    ∷ choose_call
    ∷ choose_call
    ∷ choose_call
    ∷ []

calls-AllFresh : AllFresh calls []
unfolding AllFresh
calls-AllFresh = ground arith

nodes-in_order_example :
    (s' : Scheduler) × (run_calls (node_queue 2 false) calls start
      ≡ some ((spec_calls calls []).0, s'))
    × Queues 2 s' (spec_calls calls []).1
nodes-in_order_example = nodes-in_order 2 false calls start [] calls-AllFresh ([], start-Holds)

results : (spec_calls calls []).0 ≡ none ∷ some 8 ∷ some 16 ∷ some 8 ∷ none ∷ []
unfolding spec_calls
results = refl

drain-reads_null_example :
    (s' : Scheduler) × (drain 2 8 start ≡ some s')
    × (s'.leaving ≡ some 0)
    × (blocking_switch_end 2 s' ≡ none)
unfolding get_scheduler new_queue
drain-reads_null_example = drain-reads_null 2 8 start [] start-Holds refl

abbrev links : Links
links = record { prev = λ p. 0; next = λ p. 0 }

abbrev mutex_start : MutexScheduler
mutex_start = record { run_queue = empty_queue; links = links; asleep = false }

mutex_start-Holds : MutexHolds mutex_start []
mutex_start-Holds = record {
  queue = empty_queue-IsQueue links;
  unlinked = λ a o. refl;
  sleeps = λ e. refl;
}

same_results_example :
    (rs : List (Option ℕ)) × (s3 : MutexScheduler) × (s4 : Scheduler) × (run_calls mutex_queue calls
        mutex_start
      ≡ some (rs, s3))
    × (run_calls (node_queue 2 true) calls start ≡ some (rs, s4))
same_results_example =
    same_results 2 true calls mutex_start start [] calls-AllFresh (mutex_start-Holds, refl)
      ([], start-Holds)
