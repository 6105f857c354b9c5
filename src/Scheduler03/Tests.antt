-- ===== src/Scheduler03/Tests.antt =====
-- A run queue that gets two uThreads, and a bulk push to two kThreads.
use u_threads.Base.{ℕ, ◌≡◌, refl, true, false, List, [], ◌∷◌, ◌++◌, some, arith}
use u_threads.Intrusive.{Links}
use u_threads.Intrusive.Queue.{empty_queue}
use u_threads.Intrusive.Queue.Laws.{empty_queue-IsQueue}
use u_threads.Scheduler03.{Scheduler}
use u_threads.Scheduler03.Order.{
  Call, schedule_call, schedule_many_call, try_pop_call, pop_call, run_calls, spec_calls, spec,
  Holds, AllFresh, Fresh, calls-in_order,
}
use u_threads.Scheduler03.Bulk.{Bulk, bulk_push, prepare_all, homed, bulk_push-homed}

abbrev links : Links
links = record { prev = λ p. 0; next = λ p. 0 }

abbrev start : Scheduler
start = record { run_queue = empty_queue; links = links; asleep = false }

start-Holds : Holds start []
start-Holds = record {
  queue = empty_queue-IsQueue links;
  unlinked = λ a o. refl;
  sleeps = λ e. refl;
}

abbrev calls : List Call
calls =
    pop_call
    ∷ schedule_call 8
    ∷ schedule_call 16
    ∷ try_pop_call false
    ∷ pop_call
    ∷ try_pop_call true
    ∷ pop_call
    ∷ schedule_many_call (24 ∷ 32 ∷ [])
    ∷ pop_call
    ∷ []

calls-AllFresh : AllFresh calls []
unfolding AllFresh Fresh spec
calls-AllFresh = ground arith

calls-in_order_example :
    (s' : Scheduler) × (run_calls calls start ≡ some ((spec_calls calls []).0, s'))
    × Holds s' (spec_calls calls []).1
calls-in_order_example = calls-in_order calls start [] start-Holds calls-AllFresh

results : (spec_calls calls []).0 ≡ 0 ∷ 0 ∷ 8 ∷ 16 ∷ 0 ∷ 24 ∷ []
unfolding spec_calls spec
results = refl

abbrev none_prepared : ℕ → Bulk
none_prepared k = record { bulk_queue = []; bulk_counter = 0; run_queue = k ∷ [] }

abbrev clusters : List (List ℕ)
clusters = (1 ∷ 2 ∷ []) ∷ (3 ∷ []) ∷ []

abbrev unblocked : List (ℕ × ℕ)
unblocked = (3, 8) ∷ (1, 16) ∷ (3, 24) ∷ []

bulk_push-homed_case :
    ((bulk_push clusters (prepare_all unblocked none_prepared) 3).run_queue
      ≡ (3 ∷ []) ++ homed 3 unblocked)
    × ((bulk_push clusters (prepare_all unblocked none_prepared) 3).bulk_queue ≡ [])
bulk_push-homed_case = bulk_push-homed clusters unblocked none_prepared 3 (refl, refl) refl
