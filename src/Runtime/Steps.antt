-- ===== src/Runtime/Steps.antt =====
-- The steps of a program: its uThreads call the runtime, and its kThreads switch between them, in
-- any order.
use u_threads.Base.{ℕ, ◌+◌, ◌-◌, ◌≡◌, ◌≢◌, Bool, true, false, [], Option, none, some}
use u_threads.UThread.{initialized}
use u_threads.Runtime.{
  Runtime, runs, switching, switched, landing, resume, resumable, start, yield, migrate, suspend,
  terminate, switch_context, default_run, post_leave, post_arrive, unpark, create_cached,
  create_new,
}

-- The current uThread of a kThread is in its own code, and it is not the main one.
abbrev pub Runs : ℕ → Runtime → Type 0
Runs k s = ((s.kts k).phase ≡ runs) × ((s.kts k).current_ut ≢ (s.kts k).main_ut)

-- A uThread is started once, and a waker resumes one that is parked. `resumes` is any other call of
-- `resume`; `stray` tells whether there are calls that the guard of `resume` lets through, of a uThread
-- that goes on after a `yield` with nobody else to run, or that has not been left yet by its kThread.
pub data Step (stray : Bool) : Runtime → Runtime → Type 0 where
  yields : (k : ℕ) (s : Runtime) → Runs k s → Step stray s (yield k s)
  migrates :
      (cluster choice k : ℕ) (s : Runtime) → Runs k s → Step stray s (migrate cluster choice k s)
  suspends : (k : ℕ) (s : Runtime) → Runs k s → Step stray s (suspend k s)
  terminates : (k : ℕ) (s : Runtime) → Runs k s → Step stray s (terminate k s)
  switches : (k : ℕ) (s : Runtime) → (s.kts k).phase ≡ switching → Step stray s (switch_context k s)
  waits :
      (k : ℕ) (s : Runtime)
      → (s.kts k).phase ≡ runs
      → (s.kts k).current_ut ≡ (s.kts k).main_ut
      → Step stray s (default_run k s)
  leaves :
      (is_cached : Bool) (choice next k : ℕ) (s : Runtime)
      → (s.kts k).phase ≡ switched next
      → Step stray s (post_leave is_cached choice next k s)
  lands :
      (next k : ℕ) (s : Runtime)
      → (s.kts k).phase ≡ landing next
      → Step stray s (post_arrive next k s)
  unparks : (choice p : ℕ) (s : Runtime) → s.parked p ≡ true → Step stray s (unpark choice p s)
  resumes :
      (choice p : ℕ) (s : Runtime)
      → (stray ≡ false → resumable (s.uts p).state ≡ false)
      → Step stray s (resume choice p s)
  starts :
      (cluster choice p : ℕ) (s : Runtime)
      → s.fresh p ≡ true
      → Step stray s (start cluster choice p s)
  reuses :
      (is_joinable : Bool) (p : ℕ) (s : Runtime)
      → s.cached p ≡ true
      → Step stray s (create_cached is_joinable p s)
  creates :
      (is_joinable : Bool) (size_of stack_size mem : ℕ) (s : Runtime)
      → s.allocated (mem + stack_size - size_of) ≡ false
      → Step stray s (create_new is_joinable size_of stack_size mem s)

-- At first the default kThread runs `initUT`, which runs `main()`, every other one runs its main
-- uThread, and there is no other uThread; `main_of` tells whose main uThread an address is.
pub record Initial (main_of : ℕ → Option ℕ) (default : ℕ) (s : Runtime) : Type 0 where
  pub main : (k : ℕ) → main_of (s.kts k).main_ut ≡ some k
  pub current : (k : ℕ) → k ≢ default → (s.kts k).current_ut ≡ (s.kts k).main_ut
  pub init_ut : main_of (s.kts default).current_ut ≡ none
  pub init_state : (s.uts (s.kts default).current_ut).state ≡ initialized
  pub init_allocated : s.allocated (s.kts default).current_ut ≡ true
  pub phase : (k : ℕ) → (s.kts k).phase ≡ runs
  pub queue : (k : ℕ) → s.ready_queue k ≡ []
  pub parked : (p : ℕ) → s.parked p ≡ false
  pub cached : (p : ℕ) → s.cached p ≡ false
  pub fresh : (p : ℕ) → s.fresh p ≡ false
  pub allocated : (p k : ℕ) → main_of p ≡ some k → s.allocated p ≡ true

pub data Reach (stray : Bool) (main_of : ℕ → Option ℕ) : Runtime → Type 0 where
  at_first : (default : ℕ) (s : Runtime) → Initial main_of default s → Reach stray main_of s
  step : (s s' : Runtime) → Reach stray main_of s → Step stray s s' → Reach stray main_of s'
