-- ===== src/KThreads.antt =====
-- src/runtime/kThread.cpp: how kThreads come to be and end, with the uThread that is their default, and
-- the counters of kThreads and uThreads. The addresses that `new` and `malloc` give are arguments.
mod Events
mod Counts
mod Tests
use u_threads.Base.{
  ℕ, ◌+◌, ◌-◌, ◌^◌, ◌%◌, Bool, true, false, List, [], ◌∷◌, Option, none, some, ◌>>=◌, ltb, ◌==◌,
  if◌then◌else◌, update, incr_word, decr_word,
}
use u_threads.UThread.{UThread, running, ready, new_uthread}
use u_threads.Cluster.{Cluster, add_kthread}

-- `current_kt` and `ktlocal` are those of the kernel thread of each kThread: whether `initialize` ran.
pub record KThread : Type 0 where
  pub local_cluster : ℕ
  pub scheduler : ℕ
  pub main_ut : ℕ
  pub current_ut : ℕ
  pub initialized : Bool

-- `totalNumberofKTs` is an `atomic_uint`, the counters of uThreads are words.
pub record Kernel : Type 0 where
  pub kts : ℕ → KThread
  pub clusters : ℕ → Cluster
  pub uts : ℕ → UThread
  pub total_kts : ℕ
  pub total_uts : ℕ
  pub ut_master_id : ℕ
  pub init_ut : ℕ

-- `new uThread(sb, ss)` at an address: it is counted and gets the next number.
unfoldable pub make_uthread : ℕ → ℕ → ℕ → Kernel → Kernel
unfolding new_uthread incr_word
make_uthread this sb ss w = record w {
  uts = update w.uts this (new_uthread this sb ss w.ut_master_id);
  total_uts = incr_word w.total_uts;
  ut_master_id = incr_word w.ut_master_id;
}

-- `uThread::createMainUT`.
unfoldable pub create_main_ut : ℕ → ℕ → Kernel → Kernel
unfolding make_uthread
create_main_ut this cluster w =
    let w1 = make_uthread this 0 0 w in
    record w1 { uts = update w1.uts this (record (w1.uts this) { current_cluster = cluster }) }

-- `initialSynchronization`: none is `exit`. `UINTMAX_MAX` is that of 64 bits, and the sum that is
-- compared with it is an `unsigned int`.
unfoldable pub initial_synchronization : Kernel → Option Kernel
initial_synchronization w =
    if ltb (2 ^ 64 - 1) ((w.total_kts + 1) % 2 ^ 32)
    then none
    else some (record w { total_kts = (w.total_kts + 1) % 2 ^ 32 })

unfoldable pub initialize : ℕ → Kernel → Kernel
initialize kt w = record w { kts = update w.kts kt (record (w.kts kt) { initialized = true }) }

-- `initializeMainUT(false)`, in the new kernel thread: the default uThread takes its stack.
unfoldable pub initialize_main_ut : ℕ → ℕ → Kernel → Kernel
unfolding create_main_ut decr_word
initialize_main_ut kt ut w =
    let w1 = create_main_ut ut (w.kts kt).local_cluster w in
    record w1 {
      kts = update w1.kts kt (record (w1.kts kt) { main_ut = ut; current_ut = ut });
      uts = update w1.uts ut (record (w1.uts ut) { state = running });
      total_uts = decr_word w1.total_uts;
    }

-- `initializeMainUT(true)`: the default uThread has a stack of its own, which `stackInit` prepares.
unfoldable pub initialize_default_ut : ℕ → ℕ → ℕ → ℕ → ℕ → Kernel → Kernel
unfolding make_uthread decr_word
initialize_default_ut kt ut mem ss stack w =
    let w1 = make_uthread ut mem ss w in
    record w1 {
      kts = update w1.kts kt (record (w1.kts kt) { main_ut = ut });
      uts = update w1.uts ut (record (w1.uts ut) { stack_pointer = stack; state = ready });
      total_uts = decr_word w1.total_uts;
    }

-- `kThread::run` up to its loop, which is in Runtime.
unfoldable pub run : ℕ → ℕ → Kernel → Kernel
unfolding initialize initialize_main_ut
run kt ut w = initialize_main_ut kt ut (initialize kt w)

unfoldable pub new_kthread : ℕ → ℕ → KThread
new_kthread cluster scheduler = record {
  local_cluster = cluster;
  scheduler = scheduler;
  main_ut = 0;
  current_ut = 0;
  initialized = false;
}

unfoldable pub add_to_cluster : ℕ → ℕ → Kernel → Kernel
unfolding add_kthread
add_to_cluster kt cluster w = record w {
  clusters = update w.clusters cluster (add_kthread kt (w.clusters cluster));
}

-- `kThread(Cluster&)`.
unfoldable pub make_kthread : ℕ → ℕ → ℕ → Kernel → Option Kernel
unfolding new_kthread add_to_cluster initial_synchronization
make_kthread kt cluster scheduler w =
    initial_synchronization (
      add_to_cluster kt cluster
        (record w { kts = update w.kts kt (new_kthread cluster scheduler) }))

-- `kThread(Cluster&, func, args)`: it runs one function and is not given to the cluster.
unfoldable pub make_kthread_func : ℕ → ℕ → ℕ → Kernel → Option Kernel
unfolding new_kthread initial_synchronization
make_kthread_func kt cluster scheduler w =
    initial_synchronization (record w { kts = update w.kts kt (new_kthread cluster scheduler) })

-- `kThread()`: the default kThread, with its default uThread and the initial uThread, which runs `main`
-- on the stack of the process.
unfoldable pub make_default : ℕ → ℕ → ℕ → ℕ → ℕ → ℕ → ℕ → ℕ → Kernel → Option Kernel
unfolding new_kthread initialize initialize_default_ut create_main_ut add_to_cluster
    initial_synchronization
make_default kt cluster scheduler main mem ss stack init w =
    let w1 = initialize kt (record w { kts = update w.kts kt (new_kthread cluster scheduler) }) in
    let w2 = create_main_ut init cluster (initialize_default_ut kt main mem ss stack w1) in
    let w3 = add_to_cluster kt cluster (record w2 {
      uts = update w2.uts init (record (w2.uts init) { home_kthread = kt });
      init_ut = init;
    }) in
    initial_synchronization
      (record w3 { kts = update w3.kts kt (record (w3.kts kt) { current_ut = init }) })

-- `~kThread()`.
unfoldable pub destroy_kthread : ℕ → Kernel → Kernel
destroy_kthread kt w =
    let cluster = (w.kts kt).local_cluster in
    let c = w.clusters cluster in
    record w {
      total_kts = (w.total_kts + (2 ^ 32 - 1)) % 2 ^ 32;
      clusters =
          update w.clusters cluster
            (record c { number_of_kthreads = (c.number_of_kthreads + (2 ^ 32 - 1)) % 2 ^ 32 });
    }
