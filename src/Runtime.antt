-- ===== src/Runtime.antt =====
-- src/runtime/uThread.cpp and src/runtime/kThread.cpp: how uThreads start, yield, migrate, suspend,
-- resume and end, and how a kThread switches between them.
-- A kThread, a uThread and a cluster are addresses. The run queue of a kThread is the list of its
-- uThreads, as the scheduler's queue is read from its front; a switch takes the steps that the code
-- takes: the running uThread sets its state, the scheduler gives the next uThread, and
-- `postSwitchFunc` runs on the stack of that one.
mod Steps
mod Places
mod Invariant
mod RoundRobin
mod Tests
use u_threads.Base.{
  ℕ, ◌+◌, ◌-◌, Bool, true, false, List, [], ◌∷◌, ◌++◌, ◌==◌, if◌then◌else◌, update,
}
use u_threads.Base.{incr_word, decr_word}
use u_threads.UThread.{
  UThread, State, initialized, ready, running, yielding, migrating, waiting, terminated, JState,
  joinable, reset, new_uthread,
}

-- Where a kThread is: it runs its current uThread; that one has set its state and the scheduler is
-- to choose another; the stack of that other one is in use and `postSwitchFunc` is to run; that has
-- dealt with the uThread that was left, and `currentUT` has still to change.
pub data Phase : Type 0 where
  runs : Phase
  switching : Phase
  switched : ℕ → Phase
  landing : ℕ → Phase

abbrev pub is_landing : Phase → Bool
is_landing runs = false
is_landing switching = false
is_landing (switched n) = false
is_landing (landing n) = true

pub record KThread : Type 0 where
  pub local_cluster : ℕ
  pub current_ut : ℕ
  pub main_ut : ℕ
  pub phase : Phase

-- `parked` are the uThreads that a `postSuspendFunc` has been given and nobody has resumed,
-- `cached` those in `utCache`, `fresh` those that `create` has returned and nobody has started.
-- `allocated` is the heap: `malloc` gives an address that is not.
pub record Runtime : Type 0 where
  pub uts : ℕ → UThread
  pub kts : ℕ → KThread
  pub ready_queue : ℕ → List ℕ
  pub parked : ℕ → Bool
  pub cached : ℕ → Bool
  pub fresh : ℕ → Bool
  pub allocated : ℕ → Bool
  pub total : ℕ
  pub master_id : ℕ

abbrev pub set_state : ℕ → State → Runtime → Runtime
set_state p st s = record s { uts = update s.uts p (record (s.uts p) { state = st }) }

abbrev pub set_phase : ℕ → Phase → Runtime → Runtime
set_phase k ph s = record s { kts = update s.kts k (record (s.kts k) { phase = ph }) }

-- The guard of `resume`.
abbrev pub resumable : State → Bool
resumable initialized = true
resumable ready = false
resumable running = false
resumable yielding = true
resumable migrating = true
resumable waiting = true
resumable terminated = false

-- The kThread that `resume` schedules on, for the one that `assignkThread` would choose.
abbrev pub home_of : ℕ → UThread → ℕ
home_of choice ut = if ut.home_kthread == 0 then choice else ut.home_kthread

-- `resume` and `Scheduler::schedule`.
unfoldable pub resume : ℕ → ℕ → Runtime → Runtime
resume choice p s =
    let home = home_of choice (s.uts p) in
    if resumable (s.uts p).state
    then record s {
      uts = update s.uts p (record (s.uts p) { state = ready; home_kthread = home });
      ready_queue = update s.ready_queue home (s.ready_queue home ++ p ∷ []);
    }
    else s

-- `start` on a cluster.
unfoldable pub start : ℕ → ℕ → ℕ → Runtime → Runtime
unfolding resume
start cluster choice p s = resume choice p (record s {
  uts = update s.uts p (record (s.uts p) { current_cluster = cluster });
  fresh = update s.fresh p false;
})

-- The part of `yield`, `migrate`, `suspend` and `terminate` before the scheduler's choice.
unfoldable pub yield : ℕ → Runtime → Runtime
yield k s = set_phase k switching (set_state (s.kts k).current_ut yielding s)

unfoldable pub migrate : ℕ → ℕ → ℕ → Runtime → Runtime
migrate cluster choice k s =
    let p = (s.kts k).current_ut in
    if (s.kts k).local_cluster == cluster
    then s
    else set_phase k switching (record s {
      uts = update s.uts p (record (s.uts p) {
        current_cluster = cluster;
        home_kthread = choice;
        state = migrating;
      });
    })

unfoldable pub suspend : ℕ → Runtime → Runtime
suspend k s = set_phase k switching (set_state (s.kts k).current_ut waiting s)

unfoldable pub terminate : ℕ → Runtime → Runtime
terminate k s = set_phase k switching (set_state (s.kts k).current_ut terminated s)

-- `nonBlockingSwitch` and what `switchContext` does with its result: the first uThread of the run
-- queue, else none when the current one yields, else the main uThread.
abbrev pub choose : ℕ → State → List ℕ → Phase
choose main yielding [] = runs
choose main st [] = switched main
choose main st (p ∷ ps) = switched p

abbrev pub rest : List ℕ → List ℕ
rest [] = []
rest (p ∷ ps) = ps

unfoldable pub switch_context : ℕ → Runtime → Runtime
switch_context k s =
    set_phase k (choose (s.kts k).main_ut (s.uts (s.kts k).current_ut).state (s.ready_queue k))
      (record s { ready_queue = update s.ready_queue k (rest (s.ready_queue k)) })

-- `defaultRun` of the main uThread: it waits in `blockingSwitch` while there is nothing to run.
abbrev pub wait_next : List ℕ → Phase
wait_next [] = runs
wait_next (p ∷ ps) = switched p

unfoldable pub default_run : ℕ → Runtime → Runtime
default_run k s =
    set_phase k (wait_next (s.ready_queue k))
      (record s { ready_queue = update s.ready_queue k (rest (s.ready_queue k)) })

-- `destory(false)`, for whether `utCache.push` takes the uThread.
unfoldable pub destroy : Bool → ℕ → Runtime → Runtime
destroy is_cached p s =
    if is_cached
    then record s {
      uts = update s.uts p (reset p (s.uts p));
      cached = update s.cached p true;
      total = decr_word s.total;
    }
    else record s { allocated = update s.allocated p false; total = decr_word s.total }

-- What `postSwitchFunc` does with the uThread that was left, by its state.
pub leave : Bool → ℕ → ℕ → State → Runtime → Runtime
unfolding destroy resume
leave is_cached choice p terminated s = destroy is_cached p s
leave is_cached choice p yielding s = resume choice p s
leave is_cached choice p migrating s = resume choice p s
leave is_cached choice p waiting s = record s { parked = update s.parked p true }
leave is_cached choice p initialized s = s
leave is_cached choice p ready s = s
leave is_cached choice p running s = s

-- The switch statement of `postSwitchFunc`. Another kThread may run the uThread as soon as it is resumed.
unfoldable pub post_leave : Bool → ℕ → ℕ → ℕ → Runtime → Runtime
unfolding leave
post_leave is_cached choice next k s =
    let p = (s.kts k).current_ut in
    let s' = set_phase k (landing next) s in
    if p == (s.kts k).main_ut then s' else leave is_cached choice p (s.uts p).state s'

-- The end of `postSwitchFunc`: the current uThread changes.
unfoldable pub post_arrive : ℕ → ℕ → Runtime → Runtime
post_arrive next k s = record s {
  uts = update s.uts next (record (s.uts next) { state = running });
  kts = update s.kts k (record (s.kts k) { current_ut = next; phase = runs });
}

-- `postSwitchFunc` with no other kThread in between.
unfoldable pub post_switch : Bool → ℕ → ℕ → ℕ → Runtime → Runtime
unfolding post_leave post_arrive
post_switch is_cached choice next k s = post_arrive next k (post_leave is_cached choice next k s)

-- A waker resumes a parked uThread.
unfoldable pub unpark : ℕ → ℕ → Runtime → Runtime
unfolding resume
unpark choice p s = resume choice p (record s { parked = update s.parked p false })

-- `create`: a uThread of the cache, or a new one, which lies at the end of the memory that `malloc`
-- gives for its stack.
unfoldable pub create_cached : Bool → ℕ → Runtime → Runtime
create_cached is_joinable p s = record s {
  uts = if is_joinable then update s.uts p (record (s.uts p) { j_state = joinable }) else s.uts;
  cached = update s.cached p false;
  fresh = update s.fresh p true;
  total = incr_word s.total;
}

unfoldable pub create_new : Bool → ℕ → ℕ → ℕ → Runtime → Runtime
create_new is_joinable size_of stack_size mem s =
    let p = mem + stack_size - size_of in
    let ut = new_uthread p mem stack_size s.master_id in
    record s {
      uts = update s.uts p (if is_joinable then record ut { j_state = joinable } else ut);
      allocated = update s.allocated p true;
      fresh = update s.fresh p true;
      total = incr_word s.total;
      master_id = incr_word s.master_id;
    }
