-- ===== src/Intrusive/Ring.antt =====
-- src/generic/IntrusiveContainers.h: the class `IntrusiveList`, a ring of links through an anchor.
mod Laws
mod Many
mod Undo
mod All
mod Tests
use u_threads.Base.{ℕ, Bool, Option, none, some, ◌==◌, if◌then◌else◌}
use u_threads.Intrusive.{Links, ◌>>=◌, load_next, load_prev, store_next, store_prev}

-- The constructor at the address of the anchor.
pub new_ring : ℕ → Links → Option Links
new_ring anchor h = do h' ← store_prev anchor anchor h; store_next anchor anchor h'

pub ring_empty : ℕ → Links → Bool
ring_empty anchor h = h.next anchor == anchor

-- `insert_before(next, elem)`.
pub insert_before : ℕ → ℕ → Links → Option Links
insert_before next elem h = do
  p ← load_prev next h
  h1 ← store_next p elem h
  h2 ← store_prev elem p h1
  h3 ← store_prev next elem h2
  store_next elem next h3

-- `insert_after(prev, first, last)`.
pub insert_after : ℕ → ℕ → ℕ → Links → Option Links
insert_after prev first last h = do
  n ← load_next prev h
  h1 ← store_prev n last h
  h2 ← store_next last n h1
  h3 ← store_next prev first h2
  store_prev first prev h3

-- `remove(elem)`.
pub remove : ℕ → Links → Option Links
remove elem h = do
  p ← load_prev elem h
  n ← load_next elem h
  h1 ← store_next p n h
  h2 ← store_prev n p h1
  h3 ← store_prev elem 0 h2
  store_next elem 0 h3

pub push_front : ℕ → ℕ → Links → Option Links
unfolding insert_before
push_front anchor elem h = do f ← load_next anchor h; insert_before f elem h

pub push_back : ℕ → ℕ → Links → Option Links
unfolding insert_after
push_back anchor elem h = do b ← load_prev anchor h; insert_after b elem elem h

pub pop_front : ℕ → Links → Option (ℕ × Links)
unfolding remove
pop_front anchor h = do f ← load_next anchor h; h' ← remove f h; some (f, h')
