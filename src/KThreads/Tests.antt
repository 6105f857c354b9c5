-- ===== src/KThreads/Tests.antt =====
-- The default kThread, two others, and their counters.
use u_threads.Base.{◌+◌, ◌%◌, ◌^◌, ◌≡◌, refl, [], ◌∷◌, Option, none, some, incr_word, decr_word}
use u_threads.UThread.{new_uthread}
use u_threads.Cluster.{add_kthread}
use u_threads.KThreads.{
  Kernel, new_kthread, make_uthread, create_main_ut, initial_synchronization, initialize,
  initialize_main_ut, initialize_default_ut, run, add_to_cluster, make_kthread, make_default,
  destroy_kthread,
}
use u_threads.KThreads.Events.{made, made_func, ran, ended, run_event, run_events}
use u_threads.KThreads.Counts.{EventsCounted, events-Counted, func_kthread-undercounts}

abbrev nothing : Kernel
nothing = record {
  kts = λ k. new_kthread 0 0;
  clusters = λ c. record { id = c; kthreads = []; kt_last = 0; number_of_kthreads = 0 };
  uts = λ u. new_uthread u 0 0 0;
  total_kts = 0;
  total_uts = 0;
  ut_master_id = 0;
  init_ut = 0;
}

abbrev kernel : Option Kernel → Kernel
kernel none = nothing
kernel (some w) = w

-- kThread 1 in cluster 1, with scheduler 5, its default uThread 40 and the initial uThread 50.
abbrev started : Kernel
started = kernel (make_default 1 1 5 40 30 64 20 50 nothing)

started_counts :
    (started.total_uts ≡ 1)
    × (started.total_kts ≡ 1)
    × (started.ut_master_id ≡ 2)
    × ((started.clusters 1).kthreads ≡ 1 ∷ [])
    × ((started.kts 1).main_ut ≡ 40)
    × ((started.kts 1).current_ut ≡ 50)
    × ((started.uts 50).home_kthread ≡ 1)
unfolding make_default new_kthread initialize initialize_default_ut create_main_ut make_uthread
    add_to_cluster add_kthread initial_synchronization incr_word decr_word new_uthread
started_counts = (refl, refl, refl, refl, refl, refl, refl)

abbrev ended_one : Kernel
ended_one = kernel (run_events (made 2 1 6 ∷ ran 2 60 ∷ ended 2 1 ∷ []) started)

events-Counted_example : EventsCounted (made 2 1 6 ∷ ran 2 60 ∷ ended 2 1 ∷ []) started ended_one
unfolding run_events run_event make_default make_kthread run new_kthread initialize
    initialize_default_ut initialize_main_ut create_main_ut make_uthread add_to_cluster add_kthread
    initial_synchronization destroy_kthread incr_word decr_word new_uthread
events-Counted_example =
    events-Counted (made 2 1 6 ∷ ran 2 60 ∷ ended 2 1 ∷ []) started ended_one refl

-- The kThread that has ended is still in the vector of its cluster.
still_there : (ended_one.clusters 1).kthreads ≡ 1 ∷ 2 ∷ []
unfolding run_events run_event make_default make_kthread run new_kthread initialize
    initialize_default_ut initialize_main_ut create_main_ut make_uthread add_to_cluster add_kthread
    initial_synchronization destroy_kthread incr_word decr_word new_uthread
still_there = refl

func_kthread-undercounts_example :
    (w' : Kernel) × (run_events (made_func 3 1 6 ∷ ended 3 1 ∷ []) started ≡ some w')
    × (((w'.clusters 1).number_of_kthreads + 1) % 2 ^ 32
        ≡ (started.clusters 1).number_of_kthreads % 2 ^ 32)
    × (w'.total_kts % 2 ^ 32 ≡ started.total_kts % 2 ^ 32)
    × ((w'.clusters 1).kthreads ≡ (started.clusters 1).kthreads)
func_kthread-undercounts_example = func_kthread-undercounts 3 1 6 started
