-- ===== src/Scheduler04/Stale.antt =====
-- src/runtime/schedulers/Scheduler_04.h: the post that `nonBlockingSwitch` leaves on the semaphore.
use u_threads.Base.{
  ℕ, ◌+◌, ◌-◌, ◌≡◌, refl, true, false, List, [], ◌∷◌, Option, none, some, ◌>>=◌, ◌==◌, arith,
}
use u_threads.Scheduler04.{
  NodeQueue, Scheduler, schedule, non_blocking_switch, blocking_switch, blocking_switch_pop,
  blocking_switch_end, node_state, pop,
}
use u_threads.Scheduler04.Nodes.{Holds, schedule-Holds}
use u_threads.Scheduler04.Switches.{mark, taken, pop-nil, switch-nil, switch-cons}

-- The calls of a kThread whose uThread gets the next one from the queue, which then finds it empty.
unfoldable pub drain : ℕ → ℕ → Scheduler → Option Scheduler
unfolding schedule non_blocking_switch blocking_switch blocking_switch_pop
drain fresh ut s = do
  s1 ← schedule ut s
  (r, s2) ← non_blocking_switch fresh false s1
  (r', s3) ← non_blocking_switch fresh false s2
  blocking_switch_pop (blocking_switch s3)

pops_null :
    (s : Scheduler) (q : NodeQueue)
    → pop s.run_queue ≡ some (0, q)
    → (s.sem == 0) ≡ false
    → let s3 = blocking_switch s in
      blocking_switch_pop s3
      ≡ some (record s3 { run_queue = q; sem = s3.sem - 1; leaving = some 0 })
unfolding blocking_switch_pop blocking_switch
pops_null s q e posted = rw (e, posted) refl

taken-posted :
    (fresh ut : ℕ) (s s1 : Scheduler)
    → s1.sem ≡ s.sem + 1
    → ((mark (taken fresh ut s1)).sem == 0) ≡ false
unfolding mark taken
taken-posted fresh ut s s1 e = ground (arith, e)

told : (s : Scheduler) → ((blocking_switch s).io_sem == 0) ≡ false
unfolding blocking_switch
told s = ground arith

ends_null :
    (fresh : ℕ) (s : Scheduler)
    → s.leaving ≡ some 0
    → (s.io_sem == 0) ≡ false
    → blocking_switch_end fresh s ≡ none
unfolding blocking_switch_end node_state
ends_null fresh s e f = rw (e, f) refl

-- With an empty queue that is marked, whose uThread keeps running as it yielded: a uThread that is
-- scheduled is taken by `nonBlockingSwitch`, and when the queue is empty again `blockingSwitch` does not
-- wait, for the post of that `schedule` is still there, and reads the state of `nullptr`.
pub drain-reads_null :
    (fresh ut : ℕ) (s : Scheduler) (nodes : List ℕ)
    → Holds fresh s [] nodes
    → s.run_queue.marked ≡ true
    → (s' : Scheduler) × (drain fresh ut s ≡ some s')
      × (s'.leaving ≡ some 0)
      × (blocking_switch_end fresh s' ≡ none)
unfolding drain
drain-reads_null fresh ut s [] i m =
    let (s1, e1, i1, sem1) = schedule-Holds fresh ut s [] [] i refl in
    let (e2, i2) = switch-cons fresh ut (s.node_of ut) false s1 [] [] i1 in
    let s2 = taken fresh ut s1 in
    let (e3, i3) = switch-nil fresh false s2 [] i2 in
    let (e4, i4) = pop-nil fresh (mark s2) [] i3 in
    let posted : s1.sem ≡ s.sem + 1 = rw (sem1, m) refl in
    let s3 = blocking_switch (mark s2) in
    let s4 = record s3 {
      run_queue = (mark (mark s2)).run_queue;
      sem = s3.sem - 1;
      leaving = some 0;
    } in
    (
      s4,
      rw (e1, e2, e3)
          (pops_null (mark s2) (mark (mark s2)).run_queue e4 (taken-posted fresh ut s s1 posted)),
      refl,
      ends_null fresh s4 refl (told (mark s2)),
    )
drain-reads_null fresh ut s (n ∷ ns) i m = absurd (ground (arith, i.states))
