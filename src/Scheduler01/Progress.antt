-- ===== src/Scheduler01/Progress.antt =====
-- src/runtime/schedulers/Scheduler_01.h: a kThread goes on while there are uThreads.
use u_threads.Base.{
  ℕ, ◌<◌, ◌≡◌, ◌≢◌, refl, ap, ◌∙◌, false, List, [], ◌∷◌, ◌++◌, some, ◌==◌, update, length, take,
  arith,
}
use u_threads.Scheduler01.{
  waiting, notified, Scheduler, move_share, wake_rest, awake, pop_many_wake,
}
use u_threads.Scheduler01.Share.{move_share-Share, finish_pop, pop_finish-divides}
use u_threads.Scheduler01.Switch.{System, popped, blocking_switch_wake}
use u_threads.Scheduler01.Run.{History, Run}
use u_threads.Scheduler01.Moves.{finish-same}
use u_threads.Scheduler01.Awake.{work-Noticed}

finish_pop-takes :
    (numkt k : ℕ) (s : Scheduler)
    → s.size ≡ length s.queue
    → 0 < s.size
    → let (n, s') = finish_pop numkt k s in (0 < n) × (s'.lrq k ≡ s.lrq k ++ take n s.queue)
unfolding wake_rest
finish_pop-takes numkt k s e pos =
    let (share, c, l, a, len) = move_share-Share numkt k s e pos in
    let s1 = (move_share numkt k s).1 in
    let (q, lrq) = finish-same (s1.size == 0) s1 in
    (omega (arith, share.some_work), ap (λ f. f k) lrq ∙ l)

awake-takes :
    (numkt k : ℕ) (s : Scheduler)
    → s.size ≡ length s.queue
    → 0 < s.size
    → let (n, s') = finish_pop numkt k (awake k s) in
      (0 < n) × (s'.lrq k ≡ s.lrq k ++ take n s.queue)
unfolding awake
awake-takes numkt k s e pos = finish_pop-takes numkt k (awake k s) e pos

length-pos : (xs : List ℕ) → xs ≢ [] → 0 < length xs
length-pos [] ne = absurd (ne refl)
length-pos (x ∷ xs) ne = omega arith

wake-leaves :
    (numkt k : ℕ) (s : System)
    → 0 < numkt
    → (s.scheduler.size == 0) ≡ false
    → let (n, sc) = finish_pop numkt k (awake k s.scheduler) in
      blocking_switch_wake numkt k s
      ≡ some (record s { scheduler = sc; leaving = update s.leaving k (some n) })
unfolding blocking_switch_wake popped pop_many_wake
wake-leaves numkt k s some_kt z =
    rw (z, pop_finish-divides numkt k (awake k s.scheduler) (ground (arith, some_kt))) refl

-- Without a spurious wake-up of a kThread whose flag is set already, and in a cluster that counts a
-- kThread: when a kThread waits while there are uThreads, some kThread was notified and does not wait
-- again if it gets the mutex now: its `blockingSwitch` goes on with at least one uThread, from the front
-- of the run queue, at the back of its local queue.
pub waiting-takes :
    (h : History) (s : System) (numkt k : ℕ)
    → Run false h s
    → 0 < numkt
    → s.scheduler.kt_state k ≡ waiting
    → s.scheduler.queue ≢ []
    → (j : ℕ) × (s' : System) × (n : ℕ) × (s.scheduler.kt_state j ≡ notified)
      × (blocking_switch_wake numkt j s ≡ some s')
      × (s'.leaving j ≡ some n)
      × (0 < n)
      × (s'.scheduler.lrq j ≡ s.scheduler.lrq j ++ take n s.scheduler.queue)
waiting-takes h s numkt k run some_kt waits ne =
    let (counts, others, succeeds) = work-Noticed h s run in
    let (j, told) = others k waits ne in
    let pos : 0 < s.scheduler.size = omega (arith, length-pos s.scheduler.queue ne, counts) in
    let (n, sc) = finish_pop numkt j (awake j s.scheduler) in
    let (more, moved) = awake-takes numkt j s.scheduler counts pos in
    (
      j,
      record s { scheduler = sc; leaving = update s.leaving j (some n) },
      n,
      told,
      wake-leaves numkt j s some_kt (ground (arith, pos)),
      ground arith,
      more,
      moved,
    )
