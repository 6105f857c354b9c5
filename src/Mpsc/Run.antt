-- ===== src/Mpsc/Run.antt =====
-- Histories of a `BlockingMPSCQueue`: any number of producers, one consumer, any interleaving.
pub mod Inv
pub mod Steps
pub mod Consumer
pub mod Fifo
pub mod Total
use u_threads.Base.{
  ℕ, ◌%◌, ◌≡◌, ◌≢◌, false, List, [], ◌∷◌, ◌++◌, ◌==◌, if◌then◌else◌, update, has, Distinct, Apart,
}
use u_threads.Intrusive.Seg.{Seg, last_of}
use u_threads.Mpsc.{MpscQueue, Outcome, goes_on, returns, relink, init, exchange, link, pop_step}

-- Aligned addresses of objects.
abbrev pub Aligned : List ℕ → Type 0
Aligned [] = Unit {0}
Aligned (x ∷ xs) = (x ≢ 0) × (x % 2 ≡ 0) × Aligned xs

-- What is pushed: aligned elements, each once, none of them the stub, and none that was pushed and
-- not popped since.
pub record IsFresh (stub : ℕ) (pushed popped xs : List ℕ) : Type 0 where
  pub aligned : Aligned xs
  pub distinct : Distinct xs
  pub not_stub : has stub xs ≡ false
  pub apart : (c : List ℕ) → pushed ≡ popped ++ c → Apart xs c

-- `pop()` returns an element, or the null pointer.
abbrev pub returned : Outcome → List ℕ
returned goes_on = []
returned (returns p) = if p == 0 then [] else p ∷ []

-- The reachable states, with all that was pushed, in the order of the exchanges, and all that was
-- popped, in order.
pub data Run (stub : ℕ) : MpscQueue → List ℕ → List ℕ → Type 0 where
  start : Run stub (init stub) [] []
  prepares :
      {q : MpscQueue} {pushed popped : List ℕ} (a v : ℕ)
      → Run stub q pushed popped
      → IsFresh stub pushed popped (a ∷ [])
      → Run stub (record q { next = update q.next a v }) pushed popped
  pushes :
      {q : MpscQueue} {pushed popped : List ℕ} (v x : ℕ) (xs : List ℕ)
      → Run stub q pushed popped
      → Seg q.next x (x ∷ xs) v
      → IsFresh stub pushed popped (x ∷ xs)
      → Run stub (exchange x (last_of x xs) q).0 (pushed ++ x ∷ xs) popped
  links :
      {q : MpscQueue} {pushed popped : List ℕ} (prev : ℕ)
      → Run stub q pushed popped
      → q.pending prev ≢ 0
      → q.pc ≢ relink prev
      → Run stub (link prev q) pushed popped
  pops :
      {q : MpscQueue} {pushed popped : List ℕ}
      → Run stub q pushed popped
      → Run stub (pop_step stub q).0 pushed (popped ++ returned (pop_step stub q).1)
