-- ===== src/Scheduler01/Switch.antt =====
-- src/runtime/schedulers/Scheduler_01.h: `nonBlockingSwitch`, `blockingSwitch` and `getScheduler`.
-- `nonblockingPoll`, which the first calls, is in Io.
use u_threads.Base.{
  ℕ, zero, suc, ◌+◌, ◌-◌, Bool, true, false, not, List, [], ◌∷◌, Option, none, some, ◌>>=◌, ◌==◌,
  if◌then◌else◌, update,
}
use u_threads.Scheduler01.{Scheduler, new_scheduler, try_pop_many, pop_many, pop_many_wake}

-- The run queue, the semaphore of the poller, and what `__popMany` returned to each kThread that is
-- still in the loop on that semaphore.
pub record System : Type 0 where
  pub scheduler : Scheduler
  pub io_sem : ℕ
  pub leaving : ℕ → Option ℕ

-- What a switch returns: `nullptr`, `kt.mainUT` or a uThread of the local queue.
pub data Next : Type 0 where
  none_to_run : Next
  main_ut : Next
  ut_to_run : ℕ → Next

unfoldable pub take_from : List ℕ → ℕ → Scheduler → Option (Next × Scheduler)
take_from [] k s = none
take_from (ut ∷ uts) k s = some (ut_to_run ut, record s { lrq = update s.lrq k uts })

-- `front` and `pop` of the local queue, after the assertion that it is not empty.
unfoldable pub take_local : ℕ → Scheduler → Option (Next × Scheduler)
unfolding take_from
take_local k s = take_from (s.lrq k) k s

unfoldable pub is_empty : List ℕ → Bool
is_empty [] = true
is_empty (x ∷ xs) = false

-- `nonBlockingSwitch` once the local queue is empty: none is the result -1 of `__tryPopMany`.
unfoldable pub after_try : Bool → ℕ → Option ℕ × Scheduler → Option (Next × Scheduler)
unfolding take_local
after_try is_yield k (none, s) = some (main_ut, s)
after_try is_yield k (some zero, s) = some (if is_yield then none_to_run else main_ut, s)
after_try is_yield k (some (suc n), s) = take_local k s

unfoldable pub non_blocking_switch : Bool → ℕ → Bool → ℕ → Scheduler → Option (Next × Scheduler)
unfolding take_local is_empty after_try try_pop_many
non_blocking_switch owns_lock numkt is_yield k s =
    if not (is_empty (s.lrq k))
    then take_local k s
    else (do r ← try_pop_many owns_lock numkt k s; after_try is_yield k r)

-- `__popMany` in `blockingSwitch` has returned, or waits.
unfoldable pub popped : ℕ → System → Option ℕ × Scheduler → System
popped k s (none, sc) = record s { scheduler = sc }
popped k s (some n, sc) = record s { scheduler = sc; leaving = update s.leaving k (some n) }

-- `blockingSwitch` up to the first wait or the end of `__popMany`.
unfoldable pub blocking_switch : ℕ → ℕ → System → Option System
unfolding popped pop_many
blocking_switch numkt k s = do
  r ← pop_many numkt k s.scheduler
  some (popped k (record s { io_sem = s.io_sem + 1 }) r)

-- `blockingSwitch` after a wait.
unfoldable pub blocking_switch_wake : ℕ → ℕ → System → Option System
unfolding popped pop_many_wake
blocking_switch_wake numkt k s = do r ← pop_many_wake numkt k s.scheduler; some (popped k s r)

-- The result 0 of `__popMany` is a `nullptr`.
unfoldable pub next_local : ℕ → ℕ → Scheduler → Option (Next × Scheduler)
unfolding take_local
next_local n k s = if n == 0 then some (none_to_run, s) else take_local k s

-- A round of the loop on the poller's semaphore: the kThread leaves `blockingSwitch` if `trywait`
-- takes it.
unfoldable pub leave : ℕ → System → Next × Scheduler → Option Next × System
leave k s (r, sc) = if s.io_sem == 0 then (none, s) else (
  some r,
  record s { scheduler = sc; io_sem = s.io_sem - 1; leaving = update s.leaving k none },
)

-- The end of `blockingSwitch`: the first none is a kThread that is not in that loop, or an assertion
-- that fails.
unfoldable pub blocking_switch_leave : ℕ → System → Option (Option Next × System)
unfolding next_local leave
blocking_switch_leave k s = do n ← s.leaving k; r ← next_local n k s.scheduler; some (leave k s r)

-- `getScheduler`: the scheduler of a cluster is made by the first kThread that asks for it.
unfoldable pub get_scheduler : Option Scheduler → Scheduler
unfolding new_scheduler
get_scheduler none = new_scheduler
get_scheduler (some s) = s
