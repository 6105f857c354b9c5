-- ===== src/Scheduler02/Wakeup.antt =====
-- No wake-up is lost.
use u_threads.Base.{
  ℕ, ◌+◌, ◌≡◌, refl, ◌<◌, ◌⊎◌, inl, inr, Bool, true, List, [], ◌∷◌, ◌++◌, arith, ◌==◌, subst,
  append-nil, Bool-cases,
}
use u_threads.Mpsc.{Outcome, goes_on, returns, is_marked, init, exchange, link, pop_step}
use u_threads.Mpsc.Run.{Aligned, returned}
use u_threads.Mpsc.Run as Queue
use u_threads.Mpsc.Run.Inv.{unmark-mark}
use u_threads.Mpsc.Run.Fifo.{fifo, pop-null, empty_of_marked}
use u_threads.Scheduler02.{
  Scheduler, Phase, running, switching, entering, waiting, draining, leaving, get_scheduler,
  push_chain, schedule_link, schedule_post, switch_at, switch_step, after_pop, after_wait, taken_at,
}
use u_threads.Scheduler02.Run.{Run, start, prepares, schedules, links, posts, polls, switches}

-- Where the kThread is about to wait or waits, the queue is marked empty, or a post is there or on
-- its way.
abbrev Wakes : Phase → Scheduler → Type 0
Wakes running s = Unit {0}
Wakes switching s = Unit {0}
Wakes entering s = (is_marked s.queue.tail ≡ true) ⊎ (0 < s.sem + s.posting)
Wakes waiting s = (is_marked s.queue.tail ≡ true) ⊎ (0 < s.sem + s.posting)
Wakes draining s = Unit {0}
Wakes (leaving p) s = Unit {0}

record Inv (stub : ℕ) (s : Scheduler) (pushed popped : List ℕ) : Type 0 where
  queue : Queue.Run stub s.queue pushed popped
  wakes : Wakes s.phase s

push_chain-Wakes :
    (first last : ℕ) (s : Scheduler) (p : Phase) → Wakes p s → Wakes p (push_chain first last s)
unfolding push_chain exchange
push_chain-Wakes first last s entering w = ground arith
push_chain-Wakes first last s waiting w = ground arith
push_chain-Wakes first last s running w = tt
push_chain-Wakes first last s switching w = tt
push_chain-Wakes first last s draining w = tt
push_chain-Wakes first last s (leaving q) w = tt

-- Only the tail, the semaphore and the posts on their way matter.
Wakes-same :
    (s t : Scheduler) (p : Phase)
    → t.queue.tail ≡ s.queue.tail
    → t.sem ≡ s.sem
    → t.posting ≡ s.posting
    → Wakes p s
    → Wakes p t
Wakes-same s t entering a b c w = ground arith
Wakes-same s t waiting a b c w = ground arith
Wakes-same s t running a b c w = tt
Wakes-same s t switching a b c w = tt
Wakes-same s t draining a b c w = tt
Wakes-same s t (leaving q) a b c w = tt

schedule_post-Wakes :
    (s : Scheduler) (p : Phase) → 0 < s.posting → Wakes p s → Wakes p (schedule_post s)
unfolding schedule_post
schedule_post-Wakes s entering h w = ground arith
schedule_post-Wakes s waiting h w = ground arith
schedule_post-Wakes s running h w = tt
schedule_post-Wakes s switching h w = tt
schedule_post-Wakes s draining h w = tt
schedule_post-Wakes s (leaving q) h w = tt

-- Where the tail is marked, any phase may follow.
marked-Wakes : (s : Scheduler) (p : Phase) → is_marked s.queue.tail ≡ true → Wakes p s
marked-Wakes s entering m = inl m
marked-Wakes s waiting m = inl m
marked-Wakes s running m = tt
marked-Wakes s switching m = tt
marked-Wakes s draining m = tt
marked-Wakes s (leaving q) m = tt

after_pop-Wakes :
    (y : Bool) (s : Scheduler) (out : Outcome)
    → (out ≡ returns 0 → is_marked s.queue.tail ≡ true)
    → Wakes (after_pop y out) s
unfolding after_pop
after_pop-Wakes y s goes_on m = tt
after_pop-Wakes y s (returns p) m = elim (Bool-cases (p == 0)) [
  | inl z ↦ marked-Wakes s (after_pop y (returns p)) (ground (arith, m))
  | inr z ↦ rw z tt
]

after_wait-Wakes :
    (s : Scheduler) (out : Outcome)
    → (out ≡ returns 0 → is_marked s.queue.tail ≡ true)
    → Wakes (after_wait out) s
unfolding after_wait
after_wait-Wakes s goes_on m = tt
after_wait-Wakes s (returns p) m = elim (Bool-cases (p == 0)) [
  | inl z ↦ marked-Wakes s (after_wait (returns p)) (ground (arith, m))
  | inr z ↦ rw z tt
]

switch_at-Wakes :
    (stub : ℕ) (y : Bool) (s : Scheduler) (p : Phase)
    → s.phase ≡ p
    → ((pop_step stub s.queue).1 ≡ returns 0 → is_marked (pop_step stub s.queue).0.tail ≡ true)
    → Wakes p s
    → Wakes (switch_at stub y s p).phase (switch_at stub y s p)
unfolding switch_at
switch_at-Wakes stub y s running e m w = tt
switch_at-Wakes stub y s switching e m w =
    after_pop-Wakes y (switch_at stub y s switching) (pop_step stub s.queue).1 m
switch_at-Wakes stub y s entering e m w = w
switch_at-Wakes stub y s waiting e m w = elim (Bool-cases (s.sem == 0)) [
  | inl z ↦ rw z (rw e w)
  | inr z ↦ rw z tt
]
switch_at-Wakes stub y s draining e m w =
    after_wait-Wakes (switch_at stub y s draining) (pop_step stub s.queue).1 m
switch_at-Wakes stub y s (leaving q) e m w = elim (Bool-cases (s.io_sem == 0)) [
  | inl z ↦ rw z (rw e tt)
  | inr z ↦ rw z tt
]

-- A step of the kThread is a step of the queue's consumer, or none.
switch_at-queue :
    (stub : ℕ) (y : Bool) (s : Scheduler) (p : Phase) {pushed popped : List ℕ}
    → Queue.Run stub s.queue pushed popped
    → Queue.Run stub (switch_at stub y s p).queue pushed (popped ++ returned (taken_at stub s p))
unfolding switch_at taken_at
switch_at-queue stub y s switching r = Queue.pops r
switch_at-queue stub y s draining r = Queue.pops r
switch_at-queue stub y s waiting {pushed} {popped} r = elim (Bool-cases (s.sem == 0)) [
  | inl z ↦ rw (z, append-nil popped) r
  | inr z ↦ rw (z, append-nil popped) r
]
switch_at-queue stub y s (leaving q) {pushed} {popped} r = elim (Bool-cases (s.io_sem == 0)) [
  | inl z ↦ rw (z, append-nil popped) r
  | inr z ↦ rw (z, append-nil popped) r
]
switch_at-queue stub y s running {pushed} {popped} r = rw (append-nil popped) r
switch_at-queue stub y s entering {pushed} {popped} r = rw (append-nil popped) r

Run-Inv :
    (stub : ℕ) {s : Scheduler} {pushed popped : List ℕ}
    → Aligned (stub ∷ [])
    → Run stub s pushed popped
    → Inv stub s pushed popped
unfolding get_scheduler push_chain schedule_link schedule_post switch_step init link
Run-Inv stub al start = record { queue = Queue.start; wakes = inl ((unmark-mark stub al.1).1) }
Run-Inv stub al (prepares {s} a v r f) =
    let i = Run-Inv stub al r in
    record {
      queue = Queue.prepares a v i.queue f;
      wakes = Wakes-same s _ s.phase refl refl refl i.wakes;
    }
Run-Inv stub al (schedules {s} v x xs r c f) =
    let i = Run-Inv stub al r in
    record {
      queue = Queue.pushes v x xs i.queue c f;
      wakes = push_chain-Wakes x _ s s.phase i.wakes;
    }
Run-Inv stub al (links {s} prev r ne own) =
    let i = Run-Inv stub al r in
    record {
      queue = Queue.links prev i.queue ne own;
      wakes = Wakes-same s _ s.phase refl refl refl i.wakes;
    }
Run-Inv stub al (posts {s} r h) =
    let i = Run-Inv stub al r in
    record { queue = i.queue; wakes = schedule_post-Wakes s s.phase h i.wakes }
Run-Inv stub al (polls {s} n r) =
    let i = Run-Inv stub al r in
    record { queue = i.queue; wakes = Wakes-same s _ s.phase refl refl refl i.wakes }
Run-Inv stub al (switches {s} y r) =
    let i = Run-Inv stub al r in
    record {
      queue = switch_at-queue stub y s s.phase i.queue;
      wakes = switch_at-Wakes stub y s s.phase refl (λ n. (pop-null stub al i.queue n).1) i.wakes;
    }

-- While the kThread waits on its semaphore with no post there or on its way, every uThread that
-- was scheduled on it has been taken.
pub no_lost_wakeup :
    (stub : ℕ) {s : Scheduler} {pushed popped : List ℕ}
    → Aligned (stub ∷ [])
    → Run stub s pushed popped
    → s.phase ≡ waiting
    → s.sem ≡ 0
    → s.posting ≡ 0
    → pushed ≡ popped
no_lost_wakeup stub {s} al r e none_there none_coming =
    let i = Run-Inv stub al r in
    let w : Wakes waiting s = subst (λ p. Wakes p s) e i.wakes in
    (empty_of_marked stub al i.queue (ground arith)).0

-- uThreads are taken in the order in which they were scheduled.
pub taken_in_order :
    (stub : ℕ) {s : Scheduler} {pushed popped : List ℕ}
    → Aligned (stub ∷ [])
    → Run stub s pushed popped
    → (rest : List ℕ) × (pushed ≡ popped ++ rest)
taken_in_order stub al r = fifo stub al (Run-Inv stub al r).queue
