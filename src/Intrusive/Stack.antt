-- ===== src/Intrusive/Stack.antt =====
-- src/generic/IntrusiveContainers.h: the class `IntrusiveStack`. The stack is its head pointer.
pub mod Laws
use u_threads.Base.{ℕ, zero, suc, ◌+◌, ◌-◌, Bool, Option, none, some, ◌==◌, if◌then◌else◌}
use u_threads.Intrusive.{Links, ◌>>=◌, load_next, store_next}
use u_threads.Intrusive.Queue.{walk}

pub empty : ℕ → Bool
empty head = head == 0

-- `push(T& first, T& last)`.
pub push_chain : ℕ → ℕ → ℕ → Links → Option (ℕ × Links)
push_chain first last head h = do h' ← store_next last head h; some (first, h')

unfoldable pub push : ℕ → ℕ → Links → Option (ℕ × Links)
unfolding push_chain
push elem head h = push_chain elem elem head h

-- What the two `pop`s do with `last`, the last element that they take: the new head.
cut : ℕ → Links → Option (ℕ × Links)
cut last h = do n ← load_next last h; h' ← store_next last 0 h; some (n, h')

unfoldable pub pop : ℕ → Links → Option (ℕ × ℕ × Links)
unfolding cut
pop head h = do (head', h') ← cut head h; some (head, head', h')

-- `pop(size_t& count)`, whose loop is that of the queue: the last element, `count`, the new head.
pub pop_many : ℕ → ℕ → Links → Option (ℕ × ℕ × ℕ × Links)
unfolding cut
pop_many count head h = do
  (last, count') ← walk (count - 1) head 1 count h
  (head', h') ← cut last h
  some (last, count', head', h')

-- `transferFrom(es, count)`: `count`, this stack, `es` and the memory afterwards.
pub transfer_from : ℕ → ℕ → ℕ → Links → Option (ℕ × ℕ × ℕ × Links)
unfolding pop_many push_chain
transfer_from count head es h = do
  (last, count', es', h') ← pop_many count es h
  (head', h'') ← push_chain es last head h'
  some (count', head', es', h'')
