-- ===== src/KThreads/Events.antt =====
-- src/runtime/kThread.cpp: sequences of kThreads that are made, run and end.
use u_threads.Base.{ℕ, ◌+◌, List, [], ◌∷◌, ◌++◌, Option, none, some, ◌>>=◌, ◌==◌, if◌then◌else◌}
use u_threads.KThreads.{Kernel, run, make_kthread, make_kthread_func, destroy_kthread}

-- A constructor, `run` in the new kernel thread, or the destructor: the address of the kThread, and
-- its cluster.
pub data Event : Type 0 where
  made : ℕ → ℕ → ℕ → Event
  made_func : ℕ → ℕ → ℕ → Event
  ran : ℕ → ℕ → Event
  ended : ℕ → ℕ → Event

unfoldable pub run_event : Event → Kernel → Option Kernel
unfolding make_kthread make_kthread_func run destroy_kthread
run_event (made kt cluster scheduler) w = make_kthread kt cluster scheduler w
run_event (made_func kt cluster scheduler) w = make_kthread_func kt cluster scheduler w
run_event (ran kt ut) w = some (run kt ut w)
run_event (ended kt cluster) w =
    if (w.kts kt).local_cluster == cluster then some (destroy_kthread kt w) else none

unfoldable pub run_events : List Event → Kernel → Option Kernel
unfolding run_event
run_events [] w = some w
run_events (e ∷ es) w = let rest = run_events es in do w' ← run_event e w; rest w'

-- How many kThreads the events make and end, in all and in the cluster `c`, and which are given to it.
abbrev pub makes : Event → ℕ
makes (made kt cluster scheduler) = 1
makes (made_func kt cluster scheduler) = 1
makes (ran kt ut) = 0
makes (ended kt cluster) = 0

abbrev pub ends : Event → ℕ
ends (made kt cluster scheduler) = 0
ends (made_func kt cluster scheduler) = 0
ends (ran kt ut) = 0
ends (ended kt cluster) = 1

abbrev pub joins : ℕ → Event → List ℕ
joins c (made kt cluster scheduler) = if c == cluster then kt ∷ [] else []
joins c (made_func kt cluster scheduler) = []
joins c (ran kt ut) = []
joins c (ended kt cluster) = []

abbrev pub adds : ℕ → Event → ℕ
adds c (made kt cluster scheduler) = if c == cluster then 1 else 0
adds c (made_func kt cluster scheduler) = 0
adds c (ran kt ut) = 0
adds c (ended kt cluster) = 0

abbrev pub leaves : ℕ → Event → ℕ
leaves c (made kt cluster scheduler) = 0
leaves c (made_func kt cluster scheduler) = 0
leaves c (ran kt ut) = 0
leaves c (ended kt cluster) = if c == cluster then 1 else 0

abbrev pub sum : (Event → ℕ) → List Event → ℕ
sum f [] = 0
sum f (e ∷ es) = f e + sum f es

abbrev pub all_joins : ℕ → List Event → List ℕ
all_joins c [] = []
all_joins c (e ∷ es) = joins c e ++ all_joins c es
