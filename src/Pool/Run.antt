-- ===== src/Pool/Run.antt =====
-- All interleavings of callers of `uThreadExecute` and the uThreads of the pool.
use u_threads.Base.{ℕ, suc, ◌≡◌, some}
use u_threads.Pool.{
  Pool, absent, runs, idle, new_pool, load_idle, execute_new, execute_queue, end_task, next_task,
}

pub data Reach : Pool → Type 0 where
  at_first : Reach new_pool
  loads : (me : ℕ) (p : Pool) → Reach p → Reach (load_idle me p)
  executes_new :
      (me task w : ℕ) (p : Pool)
      → p.seen me ≡ some 0
      → p.pc w ≡ absent
      → Reach p
      → Reach (execute_new me task w p)
  executes_queue :
      (me task n : ℕ) (p : Pool)
      → p.seen me ≡ some (suc n)
      → Reach p
      → Reach (execute_queue me task p)
  ends : (task w : ℕ) (p : Pool) → p.pc w ≡ runs task → Reach p → Reach (end_task w p)
  nexts : (w : ℕ) (p : Pool) → p.pc w ≡ idle → Reach p → Reach (next_task w p)
