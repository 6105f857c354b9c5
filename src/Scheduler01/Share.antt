-- ===== src/Scheduler01/Share.antt =====
-- src/runtime/schedulers/Scheduler_01.h: how much `__removeMany` takes, and in which order.
use native.Mathlib.Nat.{div-le_self}
use u_threads.Base.{
  ℕ, ◌+◌, ◌/◌, ◌≤◌, ◌<◌, ◌≡◌, ◌++◌, length, take, length-take, length-drop, length-append,
  take-append-drop, arith, refl, none, some, true, false, ◌==◌,
}
use u_threads.Scheduler01.{Scheduler, share_num, move_share, remove_many, wake_rest, pop_finish}

pub record Share (numkt size last n : ℕ) : Type 0 where
  pub some_work : 1 ≤ n
  pub no_more : n ≤ size
  pub fair : size / numkt ≤ n
  pub again : last ≤ size → last ≤ n

pub share_num-Share :
    (numkt size last : ℕ) → 0 < size → Share numkt size last (share_num numkt size last)
unfolding share_num
share_num-Share numkt size last pos = record {
  some_work = ground (arith, div-le_self size numkt);
  no_more = ground (arith, div-le_self size numkt);
  fair = ground (arith, div-le_self size numkt);
  again = λ h. ground (arith, div-le_self size numkt);
}

pub share_num-le : (numkt size last : ℕ) → share_num numkt size last ≤ size
unfolding share_num
share_num-le numkt size last = ground arith

pub move_share-Share :
    (numkt k : ℕ) (s : Scheduler)
    → s.size ≡ length s.queue
    → 0 < s.size
    → let (n, s') = move_share numkt k s in
      Share numkt s.size s.last_pop_num n
      × (s'.size ≡ length s'.queue)
      × (s'.lrq k ≡ s.lrq k ++ take n s.queue)
      × (take n s.queue ++ s'.queue ≡ s.queue)
      × (length (s'.lrq k) ≡ length (s.lrq k) + n)
unfolding move_share
move_share-Share numkt k s e pos =
    let sh = share_num-Share numkt s.size s.last_pop_num pos in
    let n = share_num numkt s.size s.last_pop_num in
    (
      sh,
      omega (arith, length-drop n s.queue),
      ground arith,
      take-append-drop n s.queue,
      ground (arith, length-append (s.lrq k) (take n s.queue), length-take n s.queue, sh.no_more),
    )

-- `__removeMany` of a cluster that counts a kThread, on a queue that is not empty, moves the front of it to
-- the back of the local queue: at least one uThread, at least the kThread's share, at least as many as
-- the last time where there are as many, and never more than the queue holds, whose size it keeps. Of a
-- cluster that counts no kThread, it divides by 0.
pub remove_many-Share :
    (numkt k : ℕ) (s : Scheduler)
    → s.size ≡ length s.queue
    → 0 < s.size
    → (0 < numkt
        → (n : ℕ) × (s' : Scheduler) × (remove_many numkt k s ≡ some (n, s'))
          × Share numkt s.size s.last_pop_num n
          × (s'.size ≡ length s'.queue)
          × (s'.lrq k ≡ s.lrq k ++ take n s.queue)
          × (take n s.queue ++ s'.queue ≡ s.queue)
          × (length (s'.lrq k) ≡ length (s.lrq k) + n))
      × (numkt ≡ 0 → remove_many numkt k s ≡ none)
unfolding remove_many
remove_many-Share numkt k s e pos = (
  λ some_kt.
      let divides : (numkt == 0) ≡ false = ground (arith, some_kt) in
      let (n, s') = move_share numkt k s in
      let (sh, c, l, a, len) = move_share-Share numkt k s e pos in
      (n, s', rw divides refl, sh, c, l, a, len),
  λ no_kt. rw no_kt refl,
)

-- `finish_pop` is the end of `__popMany` with that share.
abbrev pub finish_pop : ℕ → ℕ → Scheduler → ℕ × Scheduler
finish_pop numkt k s = wake_rest (move_share numkt k s)

pub pop_finish-divides :
    (numkt k : ℕ) (s : Scheduler)
    → (numkt == 0) ≡ false
    → pop_finish numkt k s ≡ some (some (finish_pop numkt k s).0, (finish_pop numkt k s).1)
unfolding pop_finish remove_many
pop_finish-divides numkt k s d = rw d refl

pub pop_finish-faults :
    (numkt k : ℕ) (s : Scheduler) → (numkt == 0) ≡ true → pop_finish numkt k s ≡ none
unfolding pop_finish remove_many
pop_finish-faults numkt k s z = rw z refl
