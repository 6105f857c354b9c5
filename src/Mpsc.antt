-- ===== src/Mpsc.antt =====
-- src/generic/IntrusiveContainers.h: the class `BlockingMPSCQueue`, the run queue of the default
-- scheduler, as the atomic steps of its producers and of its one consumer, in any order.
pub mod Linked
mod Tests
pub mod Run
use u_threads.Base.{
  ℕ, zero, suc, ◌+◌, ◌-◌, ◌%◌, ◌≡◌, ◌≢◌, Bool, List, [], ◌∷◌, ◌++◌, Option, none, some, ◌==◌,
  if◌then◌else◌, update, Distinct, Apart,
}
use u_threads.Intrusive.Seg.{Seg, last_of}

-- `(uintptr_t)p & 1`, `p & ~1` and `p | 1`, at a word.
unfoldable pub is_marked : ℕ → Bool
is_marked p = p % 2 == 1

unfoldable pub unmark : ℕ → ℕ
unmark p = p - p % 2

unfoldable pub mark : ℕ → ℕ
mark p = unmark p + 1

-- Where the consumer is in `pop()`: not in it; before its compare-and-exchange; in the first wait
-- loop; about to insert the stub again; in that insert, behind the exchange, with `prev` at hand;
-- in the second wait loop.
pub data Pc : Type 0 where
  outside : Pc
  cas : Pc
  wait_stub : Pc
  reinsert : Pc
  relink : ℕ → Pc
  wait_next : Pc

-- `pending prev` is the element that the insert which took `prev` from `tail` has yet to link
-- behind it, and 0 where there is none.
pub record MpscQueue : Type 0 where
  pub head : ℕ
  pub tail : ℕ
  pub next : ℕ → ℕ
  pub pending : ℕ → ℕ
  pub pc : Pc

-- The constructor.
unfoldable pub init : ℕ → MpscQueue
init stub = record { head = stub; tail = mark stub; next = λ _. 0; pending = λ _. 0; pc = outside }

-- `insert` up to its exchange, and the value that it will return.
unfoldable pub exchange : ℕ → ℕ → MpscQueue → MpscQueue × Bool
exchange first last q = (
  record q {
    next = update q.next last 0;
    tail = last;
    pending = update q.pending (unmark q.tail) first;
  },
  is_marked q.tail,
)

-- The last store of `insert`.
unfoldable pub link : ℕ → MpscQueue → MpscQueue
link prev q = record q {
  next = update q.next prev (q.pending prev);
  pending = update q.pending prev 0;
}

-- What a step of the consumer ends in: `pop()` goes on, or returns.
pub data Outcome : Type 0 where
  goes_on : Outcome
  returns : ℕ → Outcome

-- The next atomic step of `pop()` at each place of it, for the stub's address. In a wait loop that
-- has to go round once more nothing changes.
pub pop_at : ℕ → MpscQueue → Pc → MpscQueue × Outcome
pop_at stub q outside =
    if q.head == stub
    then if is_marked q.tail then (q, returns 0) else (record q { pc = cas }, goes_on)
    else (record q { pc = wait_next }, goes_on)
pop_at stub q cas =
    if q.tail == stub
    then (record q { tail = mark stub; pc = outside }, returns 0)
    else (record q { pc = wait_stub }, goes_on)
pop_at stub q wait_stub =
    if q.next stub == 0
    then (q, goes_on)
    else (record q { head = q.next stub; pc = reinsert }, goes_on)
pop_at stub q reinsert = (record (exchange stub stub q).0 { pc = relink (unmark q.tail) }, goes_on)
pop_at stub q (relink prev) = (record (link prev q) { pc = wait_next }, goes_on)
pop_at stub q wait_next = if q.next q.head == 0 then (q, goes_on) else (
  record q { head = q.next q.head; next = update q.next q.head 0; pc = outside },
  returns q.head,
)

unfoldable pub pop_step : ℕ → MpscQueue → MpscQueue × Outcome
unfolding pop_at
pop_step stub q = pop_at stub q q.pc

abbrev pub continue :
    (MpscQueue → Option (MpscQueue × ℕ)) → MpscQueue × Outcome → Option (MpscQueue × ℕ)
continue go_on (q, returns p) = some (q, p)
continue go_on (q, goes_on) = go_on q

-- `pop()` run with no other thread in between; `none` when the fuel is used up.
unfoldable pub pop : ℕ → ℕ → MpscQueue → Option (MpscQueue × ℕ)
pop zero stub q = none
pop (suc fuel) stub q = continue (pop fuel stub) (pop_step stub q)
