-- ===== src/Scheduler02.antt =====
-- src/runtime/schedulers/Scheduler_02.h: one kThread with its run queue and its semaphore, the
-- producers that schedule uThreads on it, and the switches that take them, step by step.
pub mod Bulk
mod Tests
pub mod Run
pub mod Wakeup
use u_threads.Base.{ℕ, ◌+◌, ◌-◌, ◌≡◌, Bool, true, false, Option, none, some, ◌==◌, if◌then◌else◌}
use u_threads.Intrusive.{Links, ◌>>=◌}
use u_threads.Intrusive.Queue.{IntrusiveQueue, remove_all}
use u_threads.Mpsc.{MpscQueue, Outcome, goes_on, returns, init, exchange, link, pop_step}

-- What the kThread does: it runs a uThread; it is in the `pop` of `nonBlockingSwitch`; it is about
-- to post the poller's semaphore in `blockingSwitch`; it waits on its own semaphore; it is in the
-- `pop` of `blockingSwitch`; it takes its post back from the poller's semaphore, with the uThread
-- that it will run at hand.
pub data Phase : Type 0 where
  running : Phase
  switching : Phase
  entering : Phase
  waiting : Phase
  draining : Phase
  leaving : ℕ → Phase

-- `posting` counts the producers to whom `push` reported an empty queue and who have yet to post;
-- `io_sem` is the count of the poller's semaphore.
pub record Scheduler : Type 0 where
  pub queue : MpscQueue
  pub sem : ℕ
  pub posting : ℕ
  pub io_sem : ℕ
  pub phase : Phase

-- `getScheduler`: a new scheduler, before its kThread has run anything.
unfoldable pub get_scheduler : ℕ → Scheduler
get_scheduler stub = record {
  queue = init stub;
  sem = 0;
  posting = 0;
  io_sem = 0;
  phase = entering;
}

-- `runQueue.push` up to the exchange, and the test of its result.
unfoldable pub push_chain : ℕ → ℕ → Scheduler → Scheduler
push_chain first last s = record s {
  queue = (exchange first last s.queue).0;
  posting = if (exchange first last s.queue).1 then s.posting + 1 else s.posting;
}

-- `schedule(uThread*, kThread&)` and `schedule(uThread*)`.
pub schedule : ℕ → Scheduler → Scheduler
unfolding push_chain
schedule ut s = push_chain ut ut s

-- `schedule(IntrusiveQueue&, count)`: all that the bulk queue holds, as one chain. The links of
-- both queues are the same memory.
unfoldable pub schedule_many :
    IntrusiveQueue → (ℕ → ℕ) → Scheduler → Option (IntrusiveQueue × Scheduler)
unfolding push_chain
schedule_many bulk prev s = do
  (last, bulk', h) ← remove_all bulk (record { prev = prev; next = s.queue.next })
  some (bulk', push_chain bulk.head last (record s { queue = record s.queue { next = h.next } }))

-- The last store of a producer's `push`.
unfoldable pub schedule_link : ℕ → Scheduler → Scheduler
schedule_link prev s = record s { queue = link prev s.queue }

-- `sem.post()` of a producer.
unfoldable pub schedule_post : Scheduler → Scheduler
schedule_post s = record s { posting = s.posting - 1; sem = s.sem + 1 }

-- `nonBlockingSwitch` behind its `pop`: a uThread that yields goes on when there is none to run,
-- and any other one hands over to the main uThread, which calls `blockingSwitch`.
pub after_pop : Bool → Outcome → Phase
after_pop is_yield goes_on = switching
after_pop is_yield (returns p) = if p == 0 then if is_yield then running else entering else running

-- The loop of `blockingSwitch` behind its `pop`.
pub after_wait : Outcome → Phase
after_wait goes_on = draining
after_wait (returns p) = if p == 0 then waiting else leaving p

-- The kThread's next step, for the stub's address and whether its current uThread yields. A wait
-- on a semaphore at 0 changes nothing.
pub switch_at : ℕ → Bool → Scheduler → Phase → Scheduler
switch_at stub is_yield s running = record s { phase = switching }
switch_at stub is_yield s switching = record s {
  queue = (pop_step stub s.queue).0;
  phase = after_pop is_yield (pop_step stub s.queue).1;
}
switch_at stub is_yield s entering = record s { io_sem = s.io_sem + 1; phase = waiting }
switch_at stub is_yield s waiting =
    if s.sem == 0 then s else record s { sem = s.sem - 1; phase = draining }
switch_at stub is_yield s draining = record s {
  queue = (pop_step stub s.queue).0;
  phase = after_wait (pop_step stub s.queue).1;
}
switch_at stub is_yield s (leaving p) =
    if s.io_sem == 0 then s else record s { io_sem = s.io_sem - 1; phase = running }

unfoldable pub switch_step : ℕ → Bool → Scheduler → Scheduler
unfolding switch_at after_pop after_wait
switch_step stub is_yield s = switch_at stub is_yield s s.phase

-- What a step of the kThread takes from the run queue.
unfoldable pub taken_at : ℕ → Scheduler → Phase → Outcome
taken_at stub s running = goes_on
taken_at stub s switching = (pop_step stub s.queue).1
taken_at stub s entering = goes_on
taken_at stub s waiting = goes_on
taken_at stub s draining = (pop_step stub s.queue).1
taken_at stub s (leaving p) = goes_on
