-- ===== src/Runtime/RoundRobin.antt =====
-- `yield` gives the kThread to the first uThread of its run queue and goes to the end of it.
use u_threads.Base.{ℕ, ◌≡◌, ◌≢◌, refl, Bool, true, false, List, [], ◌∷◌, ◌++◌, ◌==◌, arith}
use u_threads.UThread.{ready, running}
use u_threads.Runtime.{
  Runtime, runs, switched, yield, switch_context, post_switch, post_leave, post_arrive, resume,
  home_of, leave,
}

-- A whole `yield`, from its call to the end of `postSwitchFunc` on the stack of `next`.
pub yield_to : Bool → ℕ → ℕ → ℕ → Runtime → Runtime
yield_to is_cached choice next k s =
    post_switch is_cached choice next k (switch_context k (yield k s))

self : (a : ℕ) → (a == a) ≡ true
self a = ground arith

yield-chooses :
    (k q : ℕ) (qs : List ℕ) (s : Runtime)
    → s.ready_queue k ≡ q ∷ qs
    → ((switch_context k (yield k s)).kts k).phase ≡ switched q
unfolding yield switch_context
yield-chooses k q qs s e = rw (self k, self (s.kts k).current_ut, e) refl

-- The uThread that yields lives on `k`, where others wait: the first of them runs, and it goes to the
-- end of the queue, READY.
pub yield-round_robin :
    (is_cached : Bool) (choice k q : ℕ) (qs : List ℕ) (s : Runtime)
    → s.ready_queue k ≡ q ∷ qs
    → (s.kts k).current_ut ≢ (s.kts k).main_ut
    → home_of choice (s.uts (s.kts k).current_ut) ≡ k
    → q ≢ (s.kts k).current_ut
    → (((switch_context k (yield k s)).kts k).phase ≡ switched q)
      × (((yield_to is_cached choice q k s).kts k).current_ut ≡ q)
      × (((yield_to is_cached choice q k s).uts q).state ≡ running)
      × ((yield_to is_cached choice q k s).ready_queue k ≡ qs ++ (s.kts k).current_ut ∷ [])
      × (((yield_to is_cached choice q k s).uts (s.kts k).current_ut).state ≡ ready)
unfolding yield_to yield switch_context post_switch post_leave post_arrive leave resume
yield-round_robin is_cached choice k q qs s e n home ne =
    let p = (s.kts k).current_ut in
    let other : (p == (s.kts k).main_ut) ≡ false = ground arith in
    let apart : (p == q) ≡ false = ground arith in
    (
      yield-chooses k q qs s e,
      rw (self k) refl,
      rw (self k, self q) refl,
      ground (arith, e, home),
      ground (arith, home),
    )

-- A uThread that yields with nobody waiting goes on, in the state YIELD, so that a `resume` of it by
-- another uThread schedules it while it is running.
pub yield_alone-resumes :
    (choice k : ℕ) (s : Runtime)
    → s.ready_queue k ≡ []
    → (((switch_context k (yield k s)).kts k).phase ≡ runs)
      × (((switch_context k (yield k s)).kts k).current_ut ≡ (s.kts k).current_ut)
      × ((resume choice (s.kts k).current_ut (switch_context k (yield k s))).ready_queue
            (home_of choice (s.uts (s.kts k).current_ut))
          ≡ (switch_context k (yield k s)).ready_queue (home_of choice (s.uts (s.kts k).current_ut))
            ++ (s.kts k).current_ut ∷ [])
unfolding yield switch_context resume
yield_alone-resumes choice k s e =
    let p = (s.kts k).current_ut in
    (rw (self k, self p, e) refl, rw (self k) refl, ground (arith, e))
