-- ===== src/Scheduler02/Run.antt =====
-- Histories of a scheduler: producers, the poller and the kThread, in any order.
use u_threads.Base.{ℕ, ◌≢◌, ◌<◌, Bool, List, [], ◌∷◌, ◌++◌, update}
use u_threads.Intrusive.Seg.{Seg, last_of}
use u_threads.Mpsc.{relink}
use u_threads.Mpsc.Run.{IsFresh, returned}
use u_threads.Scheduler02.{
  Scheduler, get_scheduler, push_chain, schedule_link, schedule_post, switch_step, taken_at,
}

-- The reachable states, with the uThreads that were scheduled and those that were taken, in order.
-- Other kThreads and the poller post and take the poller's semaphore at will.
pub data Run (stub : ℕ) : Scheduler → List ℕ → List ℕ → Type 0 where
  start : Run stub (get_scheduler stub) [] []
  prepares :
      {s : Scheduler} {pushed popped : List ℕ} (a v : ℕ)
      → Run stub s pushed popped
      → IsFresh stub pushed popped (a ∷ [])
      → Run stub
          (record s { queue = record s.queue { next = update s.queue.next a v } })
          pushed
          popped
  schedules :
      {s : Scheduler} {pushed popped : List ℕ} (v x : ℕ) (xs : List ℕ)
      → Run stub s pushed popped
      → Seg s.queue.next x (x ∷ xs) v
      → IsFresh stub pushed popped (x ∷ xs)
      → Run stub (push_chain x (last_of x xs) s) (pushed ++ x ∷ xs) popped
  links :
      {s : Scheduler} {pushed popped : List ℕ} (prev : ℕ)
      → Run stub s pushed popped
      → s.queue.pending prev ≢ 0
      → s.queue.pc ≢ relink prev
      → Run stub (schedule_link prev s) pushed popped
  posts :
      {s : Scheduler} {pushed popped : List ℕ}
      → Run stub s pushed popped
      → 0 < s.posting
      → Run stub (schedule_post s) pushed popped
  polls :
      {s : Scheduler} {pushed popped : List ℕ} (n : ℕ)
      → Run stub s pushed popped
      → Run stub (record s { io_sem = n }) pushed popped
  switches :
      {s : Scheduler} {pushed popped : List ℕ} (is_yield : Bool)
      → Run stub s pushed popped
      → Run stub (switch_step stub is_yield s) pushed (popped ++ returned (taken_at stub s s.phase))
