-- ===== src/Pool.antt =====
-- src/runtime/uThreadPool.h and src/runtime/uThreadPool.cpp: the class `uThreadPool`. What runs under
-- its mutex is one step, for `Sync.Mutex` keeps others out of it; a task is a number.
mod Run
mod Awake
mod Tests
use u_threads.Base.{
  ℕ, zero, suc, ◌+◌, ◌-◌, Bool, true, false, List, [], ◌∷◌, ◌++◌, Option, none, some, ◌==◌,
  if◌then◌else◌, update,
}

-- Where a uThread of the pool is: it does not exist; it runs a task; it is before the increment of
-- `idleuThreads`, or behind it and before the mutex; it waits in `cv`.
pub data Pc : Type 0 where
  absent : Pc
  runs : ℕ → Pc
  idle : Pc
  waits : Pc

-- `seen` is what each caller of `uThreadExecute` has read from `idleuThreads`.
pub record Pool : Type 0 where
  pub total : ℕ
  pub idle_count : ℕ
  pub tasks : List ℕ
  pub cv : List ℕ
  pub pc : ℕ → Pc
  pub seen : ℕ → Option ℕ

-- The constructor.
unfoldable pub new_pool : Pool
new_pool = record {
  total = 0;
  idle_count = 0;
  tasks = [];
  cv = [];
  pc = λ w. absent;
  seen = λ c. none;
}

-- `idleuThreads.load()`.
unfoldable pub load_idle : ℕ → Pool → Pool
load_idle me p = record p { seen = update p.seen me (some p.idle_count) }

-- The branch for 0: a new uThread `w` with its first task.
unfoldable pub execute_new : ℕ → ℕ → ℕ → Pool → Pool
execute_new me task w p = record p {
  total = p.total + 1;
  pc = update p.pc w (runs task);
  seen = update p.seen me none;
}

-- `cv.signal(mutex)` takes the first waiter, which goes on before the mutex.
abbrev pub rest_of : List ℕ → List ℕ
rest_of [] = []
rest_of (w ∷ ws) = ws

abbrev pub wake : List ℕ → (ℕ → Pc) → ℕ → Pc
wake [] pc = pc
wake (w ∷ ws) pc = update pc w idle

-- The other branch: the task goes to the queue and one uThread is woken.
unfoldable pub execute_queue : ℕ → ℕ → Pool → Pool
execute_queue me task p = record p {
  tasks = p.tasks ++ task ∷ [];
  cv = rest_of p.cv;
  pc = wake p.cv p.pc;
  seen = update p.seen me none;
}

-- A task of `run` ends, and `idleuThreads++`.
unfoldable pub end_task : ℕ → Pool → Pool
end_task w p = record p { idle_count = p.idle_count + 1; pc = update p.pc w idle }

-- `run` under the mutex: it waits while there is no task, or takes the first one.
unfoldable pub next_of : ℕ → List ℕ → Pool → Pool
next_of w [] p = record p { cv = p.cv ++ w ∷ []; pc = update p.pc w waits }
next_of w (task ∷ tasks) p = record p {
  idle_count = p.idle_count - 1;
  tasks = tasks;
  pc = update p.pc w (runs task);
}

unfoldable pub next_task : ℕ → Pool → Pool
unfolding next_of
next_task w p = next_of w p.tasks p
