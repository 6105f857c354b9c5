-- ===== src/Pool/Tests.antt =====
-- A first task makes the uThread 5, which ends it; a second one goes to the queue.
use u_threads.Base.{ℕ, ◌≢◌, refl, arith, []}
use u_threads.Pool.{Pool, absent, waits, new_pool, load_idle, execute_new, execute_queue, end_task}
use u_threads.Pool.Run.{Reach, at_first, loads, executes_new, executes_queue, ends}
use u_threads.Pool.Awake.{queued-awake}

abbrev p1 : Pool
p1 = load_idle 0 new_pool

abbrev p2 : Pool
p2 = execute_new 0 1 5 p1

abbrev p3 : Pool
p3 = load_idle 0 (end_task 5 p2)

abbrev p4 : Pool
p4 = execute_queue 0 2 p3

p4-Reach : Reach p4
unfolding new_pool load_idle execute_new end_task
p4-Reach = executes_queue 0 2 0 p3 refl (
    loads 0 (end_task 5 p2)
      (ends 1 5 p2 refl (executes_new 0 1 5 p1 refl refl (loads 0 new_pool at_first))))

is_queued : p4.tasks ≢ []
unfolding execute_queue load_idle execute_new end_task new_pool
is_queued = ground arith

queued-awake_example : (w : ℕ) × (p4.pc w ≢ absent) × (p4.pc w ≢ waits)
queued-awake_example = queued-awake p4 p4-Reach is_queued
