-- ===== src/Scheduler04.antt =====
-- src/runtime/schedulers/Scheduler_04.h: a run queue of nodes, of which a uThread owns one while it is
-- not in the queue, and the semaphore of its kThread. Each call of the queue is one step: how the halves
-- of an insert interleave with `pop` is in Mpsc, for the queue of which this one is a variant.
mod Nodes
mod Switches
mod Order
mod Stale
mod Same
mod Tests
use u_threads.Base.{
  ℕ, ◌+◌, ◌-◌, Bool, true, false, List, [], ◌∷◌, Option, none, some, ◌>>=◌, ◌==◌, if◌then◌else◌,
  update,
}

-- The mark is the lowest bit of `tail`.
pub record NodeQueue : Type 0 where
  pub next : ℕ → ℕ
  pub state : ℕ → ℕ
  pub head : ℕ
  pub tail : ℕ
  pub marked : Bool

unfoldable pub new_queue : ℕ → NodeQueue
new_queue stub = record { next = λ p. 0; state = λ p. 0; head = stub; tail = stub; marked = true }

-- `insert`, with whether the queue was empty.
unfoldable pub insert : ℕ → ℕ → NodeQueue → Bool × NodeQueue
insert first last q = (
  q.marked,
  record q { next = update (update q.next last 0) q.tail first; tail = last; marked = false },
)

unfoldable pub push : ℕ → NodeQueue → Bool × NodeQueue
unfolding insert
push elem q = insert elem elem q

-- `pop`: 0 is `nullptr`, and none the wait for a producer in the middle of an insert. The node that it
-- returns is the old head, which gets the state of the new one.
unfoldable pub pop : NodeQueue → Option (ℕ × NodeQueue)
pop q =
    if q.next q.head == 0
    then if q.marked
      then some (0, q)
      else if q.head == q.tail
      then some (0, record q { marked = true })
      else none
    else some (
      q.head,
      record q { head = q.next q.head; state = update q.state q.head (q.state (q.next q.head)) },
    )

-- `node_of` is `utvar->node` of each uThread; `leaving` is the node that `blockingSwitch` has popped,
-- 0 for `nullptr`, while its kThread is in the loop on the semaphore of the poller.
pub record Scheduler : Type 0 where
  pub run_queue : NodeQueue
  pub sem : ℕ
  pub io_sem : ℕ
  pub tmp_node : ℕ
  pub node_of : ℕ → ℕ
  pub leaving : Option ℕ

-- `getScheduler`.
unfoldable pub get_scheduler : ℕ → (ℕ → ℕ) → Scheduler
unfolding new_queue
get_scheduler stub node_of = record {
  run_queue = new_queue stub;
  sem = 0;
  io_sem = 0;
  tmp_node = 0;
  node_of = node_of;
  leaving = none;
}

-- `schedule`: none if the uThread has no node, which the assertion excludes.
unfoldable pub schedule : ℕ → Scheduler → Option Scheduler
unfolding push
schedule ut s =
    let node = s.node_of ut in
    let q = record s.run_queue { state = update s.run_queue.state node ut } in
    let (was_empty, q') = push node q in
    if node == 0
    then none
    else some (record s {
      run_queue = q';
      node_of = update s.node_of ut 0;
      sem = if was_empty then s.sem + 1 else s.sem;
    })

-- The uThread of a node that was popped gets another node: the one kept from the last time, or a new
-- one at the address that `new` returns.
unfoldable pub take_node : ℕ → ℕ → Scheduler → ℕ × Scheduler
take_node fresh node s =
    let ut = s.run_queue.state node in
    (
      ut,
      record s {
        node_of = update s.node_of ut (if s.tmp_node == 0 then fresh else s.tmp_node);
        tmp_node = node;
      },
    )

-- What a switch returns: `nullptr`, `kt.mainUT` or a uThread of the run queue.
pub data Next : Type 0 where
  none_to_run : Next
  main_ut : Next
  ut_to_run : ℕ → Next

unfoldable pub after_pop : ℕ → Bool → ℕ → Scheduler → Next × Scheduler
unfolding take_node
after_pop fresh is_yield node s =
    if node == 0
    then (if is_yield then none_to_run else main_ut, s)
    else let (ut, s') = take_node fresh node s in (ut_to_run ut, s')

-- `nonBlockingSwitch` after the poll.
unfoldable pub non_blocking_switch : ℕ → Bool → Scheduler → Option (Next × Scheduler)
unfolding pop after_pop
non_blocking_switch fresh is_yield s = do
  (node, q) ← pop s.run_queue
  some (after_pop fresh is_yield node (record s { run_queue = q }))

-- `blockingSwitch` up to its wait: the poller is told.
unfoldable pub blocking_switch : Scheduler → Scheduler
blocking_switch s = record s { io_sem = s.io_sem + 1 }

-- `sem.wait`, which goes on only with a post, and `pop`.
unfoldable pub blocking_switch_pop : Scheduler → Option Scheduler
unfolding pop
blocking_switch_pop s = do
  (node, q) ← pop s.run_queue
  some (if s.sem == 0 then s else record s { run_queue = q; sem = s.sem - 1; leaving = some node })

unfoldable pub node_state : ℕ → ℕ → Scheduler → Option (ℕ × Scheduler)
unfolding take_node
node_state fresh node s = if node == 0 then none else some (take_node fresh node s)

-- A round of the loop on the poller's semaphore, and the rest of `blockingSwitch` if `trywait` takes
-- it: none is a read of the state of `nullptr`, or a kThread that is not in the loop.
unfoldable pub blocking_switch_end : ℕ → Scheduler → Option (Option ℕ × Scheduler)
unfolding node_state
blocking_switch_end fresh s = do
  node ← s.leaving
  if s.io_sem == 0 then some (none, s) else (do
    (ut, s') ← node_state fresh node (record s { io_sem = s.io_sem - 1; leaving = none })
    some (some ut, s'))

-- `schedule` of many, `prepareBulkPush` and `bulkPush` end the program.
unfoldable pub schedule_many : List ℕ → ℕ → Scheduler → Option Scheduler
schedule_many uts count s = none

unfoldable pub prepare_bulk_push : ℕ → Scheduler → Option Scheduler
prepare_bulk_push ut s = none

unfoldable pub bulk_push : Scheduler → Option Scheduler
bulk_push s = none
