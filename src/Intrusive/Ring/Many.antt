-- ===== src/Intrusive/Ring/Many.antt =====
-- src/generic/IntrusiveContainers.h: `IntrusiveList`, the operations on its back and on many elements.
use u_threads.Base.{ℕ, zero, suc, ◌+◌, ◌-◌, Option, some, ◌==◌, if◌then◌else◌}
use u_threads.Intrusive.{Links, ◌>>=◌, load_next, load_prev, store_next, store_prev}
use u_threads.Intrusive.Ring.{insert_after, remove}

-- `pop_back()`.
unfoldable pub pop_back : ℕ → Links → Option (ℕ × Links)
unfolding remove
pop_back anchor h = do b ← load_prev anchor h; h' ← remove b h; some (b, h')

-- `splice_back(first, last)`.
unfoldable pub splice_back : ℕ → ℕ → ℕ → Links → Option Links
unfolding insert_after
splice_back anchor first last h = do b ← load_prev anchor h; insert_after b first last h

-- The loop of `remove(first, count)`, with the rounds that are left, `i` and the count: it stops before
-- the anchor, and sets the count then.
unfoldable pub walk : ℕ → ℕ → ℕ → ℕ → ℕ → Links → Option (ℕ × ℕ)
walk zero anchor i count last h = some (last, count)
walk (suc n) anchor i count last h =
    let rest = walk n anchor (i + 1) count (h.next last) h in
    do next ← load_next last h; if next == anchor then some (last, i) else rest

-- The elements from `first` to `last` are cut out.
unfoldable pub cut : ℕ → ℕ → Links → Option Links
cut first last h = do
  p ← load_prev first h
  n ← load_next last h
  h1 ← store_next p n h
  h2 ← store_prev n p h1
  h3 ← store_prev first 0 h2
  store_next last 0 h3

-- `remove(first, count)`: its result, and the count as it is then.
unfoldable pub remove_many : ℕ → ℕ → ℕ → Links → Option (ℕ × ℕ × Links)
unfolding walk cut
remove_many anchor first count h = do
  (last, count') ← walk (count - 1) anchor 1 count first h
  h' ← cut first last h
  some (last, count', h')

-- `removeAll()`: the anchor keeps its links.
unfoldable pub remove_all : ℕ → Links → Option (ℕ × Links)
remove_all anchor h = do
  first ← load_next anchor h
  last ← load_prev anchor h
  h1 ← store_prev first 0 h
  h2 ← store_next last 0 h1
  some (last, h2)

-- `transferFrom(el, count)`.
unfoldable pub transfer_from : ℕ → ℕ → ℕ → Links → Option (ℕ × Links)
unfolding remove_many splice_back
transfer_from anchor el count h = do
  first ← load_next el h
  (last, count', h1) ← remove_many el first count h
  h2 ← splice_back anchor first last h1
  some (count', h2)

-- `transferAllFrom(el)`.
unfoldable pub transfer_all_from : ℕ → ℕ → Links → Option Links
unfolding splice_back
transfer_all_from anchor el h = do
  first ← load_next el h
  last ← load_prev el h
  h1 ← store_prev first 0 h
  h2 ← store_next last 0 h1
  h3 ← store_prev el el h2
  h4 ← store_next el el h3
  splice_back anchor first last h4
