-- ===== src/Intrusive/Queue.antt =====
-- src/generic/IntrusiveContainers.h: the class `IntrusiveQueue`, over the memory of links.
pub mod Laws
pub mod Moves
use u_threads.Base.{
  ℕ, zero, suc, ◌+◌, ◌-◌, Bool, List, [], ◌∷◌, Option, none, some, ◌==◌, if◌then◌else◌,
}
use u_threads.Intrusive.{Links, ◌>>=◌, load_next, store_next}

pub record IntrusiveQueue : Type 0 where
  pub head : ℕ
  pub tail : ℕ

pub empty_queue : IntrusiveQueue
empty_queue = record { head = 0; tail = 0 }

pub empty : IntrusiveQueue → Bool
empty q = q.head == 0

-- `push(T& first, T& last)`: a linked chain goes to the end.
unfoldable pub push_chain : ℕ → ℕ → IntrusiveQueue → Links → Option (IntrusiveQueue × Links)
push_chain first last q h =
    if q.head == 0
    then some (record { head = first; tail = last }, h)
    else do h' ← store_next q.tail first h; some (record q { tail = last }, h')

unfoldable pub push : ℕ → IntrusiveQueue → Links → Option (IntrusiveQueue × Links)
unfolding push_chain
push elem q h = push_chain elem elem q h

-- What the two `pop`s do with `last`, the last element that they take.
cut : ℕ → IntrusiveQueue → Links → Option (IntrusiveQueue × Links)
cut last q h = do
  n ← load_next last h
  h' ← store_next last 0 h
  some (record { head = n; tail = if q.tail == last then 0 else q.tail }, h')

pub pop : IntrusiveQueue → Links → Option (ℕ × IntrusiveQueue × Links)
unfolding cut
pop q h = do (q', h') ← cut q.head q h; some (q.head, q', h')

-- The loop of `pop(size_t& count)` with `rounds` of its rounds left: the last element and `count`.
unfoldable pub walk : ℕ → ℕ → ℕ → ℕ → Links → Option (ℕ × ℕ)
walk zero last i count h = some (last, count)
walk (suc rounds) last i count h = do
  n ← load_next last h
  if n == 0 then some (last, i) else walk rounds n (i + 1) count h

pub pop_many : ℕ → IntrusiveQueue → Links → Option (ℕ × ℕ × IntrusiveQueue × Links)
unfolding walk cut
pop_many count q h = do
  (last, count') ← walk (count - 1) q.head 1 count h
  (q', h') ← cut last q h
  some (last, count', q', h')

-- `transferFrom(eq, count)`: `count`, this queue, `eq` and the memory afterwards.
pub transfer_from :
    ℕ
    → IntrusiveQueue
    → IntrusiveQueue
    → Links
    → Option (ℕ × IntrusiveQueue × IntrusiveQueue × Links)
unfolding pop_many push_chain
transfer_from count q eq h = do
  (last, count', eq', h') ← pop_many count eq h
  (q', h'') ← push_chain eq.head last q h'
  some (count', q', eq', h'')

unfoldable pub remove_all : IntrusiveQueue → Links → Option (ℕ × IntrusiveQueue × Links)
unfolding empty_queue
remove_all q h = do h' ← store_next q.tail 0 h; some (q.tail, empty_queue, h')

pub transfer_all_from :
    IntrusiveQueue → IntrusiveQueue → Links → Option (IntrusiveQueue × IntrusiveQueue × Links)
unfolding empty_queue push_chain
transfer_all_from q eq h = do
  h' ← store_next eq.tail 0 h
  (q', h'') ← push_chain eq.head eq.tail q h'
  some (q', empty_queue, h'')
