-- ===== src/Scheduler01/Run.antt =====
-- Histories of the scheduler of src/runtime/schedulers/Scheduler_01.h: uThreads are scheduled and
-- kThreads switch, wait and wake up, in any order.
use u_threads.Base.{
  ℕ, ◌+◌, ◌-◌, ◌<◌, ◌^◌, ◌≡◌, ◌≢◌, ◌⊎◌, Bool, false, List, [], ◌∷◌, ◌++◌, Option, none, some, ◌>>=◌,
  update, length, take,
}
use u_threads.Scheduler01.{running, waiting, notified, Scheduler, new_scheduler, push, push_many}
use u_threads.Scheduler01.Switch.{
  System, Next, none_to_run, main_ut, ut_to_run, non_blocking_switch, blocking_switch,
  blocking_switch_wake, blocking_switch_leave,
}

-- A call of the scheduler, or a step of one: with the number of kThreads, and the kThread that calls.
pub data Call : Type 0 where
  schedule_call : ℕ → Call
  schedule_many_call : List ℕ → Call
  non_blocking_call : Bool → ℕ → Bool → ℕ → Call
  blocking_call : ℕ → ℕ → Call
  wake_call : ℕ → ℕ → Call
  leave_call : ℕ → Call
  poller_call : ℕ → Call

-- What a call has put into the run queue, and what its kThread has moved to its local queue and taken
-- from it.
pub record Event : Type 0 where
  pub pushed : List ℕ
  pub kt : ℕ
  pub moved : List ℕ
  pub ran : List ℕ

unfoldable pub ran_of : Next → List ℕ
ran_of none_to_run = []
ran_of main_ut = []
ran_of (ut_to_run ut) = ut ∷ []

unfoldable pub ran_of_option : Option Next → List ℕ
unfolding ran_of
ran_of_option none = []
ran_of_option (some r) = ran_of r

-- What has left the front of the run queue.
unfoldable pub left_queue : List ℕ → List ℕ → List ℕ
left_queue xs ys = take (length xs - length ys) xs

unfoldable pub event : ℕ → List ℕ → Scheduler → Scheduler → Event
unfolding left_queue
event k ran s s' = record { pushed = []; kt = k; moved = left_queue s.queue s'.queue; ran = ran }

unfoldable pub pushes : List ℕ → Event
pushes uts = record { pushed = uts; kt = 0; moved = []; ran = [] }

unfoldable pub run_call : Call → System → Option (Event × System)
unfolding push push_many non_blocking_switch blocking_switch blocking_switch_wake
    blocking_switch_leave event pushes ran_of ran_of_option
run_call (schedule_call ut) s =
    some (pushes (ut ∷ []), record s { scheduler = push ut s.scheduler })
run_call (schedule_many_call uts) s =
    some (pushes uts, record s { scheduler = push_many uts (length uts) s.scheduler })
run_call (non_blocking_call owns_lock numkt is_yield k) s = do
  (r, sc) ← non_blocking_switch owns_lock numkt is_yield k s.scheduler
  some (event k (ran_of r) s.scheduler sc, record s { scheduler = sc })
run_call (blocking_call numkt k) s = do
  s' ← blocking_switch numkt k s
  some (event k [] s.scheduler s'.scheduler, s')
run_call (wake_call numkt k) s = do
  s' ← blocking_switch_wake numkt k s
  some (event k [] s.scheduler s'.scheduler, s')
run_call (leave_call k) s = do
  (r, s') ← blocking_switch_leave k s
  some (event k (ran_of_option r) s.scheduler s'.scheduler, s')
run_call (poller_call n) s = some (pushes [], record s { io_sem = n })

unfoldable pub new_system : System
unfolding new_scheduler
new_system = record { scheduler = new_scheduler; io_sem = 0; leaving = λ k. none }

-- Whether a call can happen. `size` has room for what is scheduled; a kThread calls a switch while it
-- runs and is not in another; it wakes up when it was notified,
-- or spuriously. `late` tells whether it may wake up spuriously when its `cv_flag` is set already, which
-- `std::condition_variable` allows.
unfoldable pub Enabled : Bool → Call → System → Type 0
Enabled late (schedule_call ut) s = length s.scheduler.queue + 1 < 2 ^ 32
Enabled late (schedule_many_call uts) s = length s.scheduler.queue + length uts < 2 ^ 32
Enabled late (non_blocking_call owns_lock numkt is_yield k) s =
    (0 < numkt) × (s.scheduler.kt_state k ≡ running) × (s.leaving k ≡ none)
Enabled late (blocking_call numkt k) s =
    (0 < numkt) × (s.scheduler.kt_state k ≡ running) × (s.leaving k ≡ none)
Enabled late (wake_call numkt k) s =
    (0 < numkt)
    × ((s.scheduler.kt_state k ≡ notified)
        ⊎ ((s.scheduler.kt_state k ≡ waiting) × (late ≡ false → s.scheduler.cv_flag k ≡ false)))
Enabled late (leave_call k) s = s.leaving k ≢ none
Enabled late (poller_call n) s = Unit {0}

-- All that was put into the run queue and moved out of it, and what each kThread has moved and run.
pub record History : Type 0 where
  pub pushed : List ℕ
  pub moved : List ℕ
  pub moved_by : ℕ → List ℕ
  pub ran_by : ℕ → List ℕ

unfoldable pub no_history : History
no_history = record { pushed = []; moved = []; moved_by = λ k. []; ran_by = λ k. [] }

unfoldable pub add_event : History → Event → History
add_event h e = record {
  pushed = h.pushed ++ e.pushed;
  moved = h.moved ++ e.moved;
  moved_by = update h.moved_by e.kt (h.moved_by e.kt ++ e.moved);
  ran_by = update h.ran_by e.kt (h.ran_by e.kt ++ e.ran);
}

-- The reachable states, with their histories.
pub data Run (late : Bool) : History → System → Type 0 where
  start : Run late no_history new_system
  next :
      {h : History} {s s' : System} (e : Event) (c : Call)
      → Run late h s
      → Enabled late c s
      → run_call c s ≡ some (e, s')
      → Run late (add_event h e) s'
