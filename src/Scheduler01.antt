-- ===== src/Scheduler01.antt =====
-- src/runtime/schedulers/Scheduler_01.h: one run queue of a cluster under a `std::mutex`, a local
-- queue for each kThread, and a stack of the kThreads that wait for uThreads. A queue stands here for
-- the list of the uThreads it links, and what runs under the mutex is one step. `numkt` is
-- `getNumberOfkThreads()` of the cluster.
mod Spin
mod Switch
mod Share
mod Run
mod Moves
mod Order
mod Stack
mod Popping
mod Switched
mod Good
mod Awake
mod Places
mod Progress
mod Bulk
mod Tests
use u_threads.Base.{
  ℕ, ◌+◌, ◌-◌, ◌/◌, ◌%◌, ◌^◌, Bool, true, false, not, ◌||◌, List, [], ◌∷◌, ◌++◌, Option, none, some,
  ◌>>=◌, ltb, ◌==◌, ◌&&◌, if◌then◌else◌, update, has, take, drop,
}

-- A kThread runs, is blocked in `cv.wait`, or was notified and has yet to get the mutex back.
pub data KtState : Type 0 where
  running : KtState
  waiting : KtState
  notified : KtState

-- The back of `kt_stack` comes first. `cv_flag` and `lrq` are those of `KTVar` and `KTLocal` of each
-- kThread.
pub record Scheduler : Type 0 where
  pub size : ℕ
  pub queue : List ℕ
  pub kt_stack : List ℕ
  pub last_pop_num : ℕ
  pub cv_flag : ℕ → Bool
  pub kt_state : ℕ → KtState
  pub lrq : ℕ → List ℕ

-- `Scheduler()`, before any kThread has waited or has got a uThread.
unfoldable pub new_scheduler : Scheduler
new_scheduler = record {
  size = 0;
  queue = [];
  kt_stack = [];
  last_pop_num = 0;
  cv_flag = λ k. false;
  kt_state = λ k. running;
  lrq = λ k. [];
}

-- How many `__removeMany` takes from `numkt` kThreads' run queue, behind the division: a kThread's share,
-- or as many as the last time, but not more than there are.
unfoldable pub share_num : ℕ → ℕ → ℕ → ℕ
share_num numkt size last =
    let share = if size / numkt == 0 then 1 else size / numkt in
    let most = if ltb share last then last else share in if ltb size most then size else most

-- The rest of `__removeMany`, into the local queue of a kThread. The number is at most the size: no
-- wrap-around.
unfoldable pub move_share : ℕ → ℕ → Scheduler → ℕ × Scheduler
unfolding share_num
move_share numkt k s =
    let n = share_num numkt s.size s.last_pop_num in
    (
      n,
      record s {
        size = s.size - n;
        queue = drop n s.queue;
        last_pop_num = n;
        lrq = update s.lrq k (s.lrq k ++ take n s.queue);
      },
    )

-- `__removeMany`: none is the division by 0 in a cluster that counts no kThread.
unfoldable pub remove_many : ℕ → ℕ → Scheduler → Option (ℕ × Scheduler)
unfolding move_share
remove_many numkt k s = if numkt == 0 then none else some (move_share numkt k s)

-- `notify_one` on the condition variable of one kThread: it is lost if the kThread does not wait.
unfoldable pub notify_one : KtState → KtState
notify_one running = running
notify_one waiting = notified
notify_one notified = notified

unfoldable pub wake_back : List ℕ → Scheduler → Scheduler
unfolding notify_one
wake_back [] s = s
wake_back (k ∷ ks) s = record s {
  kt_stack = ks;
  cv_flag = update s.cv_flag k true;
  kt_state = update s.kt_state k (notify_one (s.kt_state k));
}

-- `__unBlock`.
unfoldable pub un_block : Scheduler → Scheduler
unfolding wake_back
un_block s = wake_back s.kt_stack s

-- `__tryPop`: 0 is `nullptr`.
unfoldable pub try_pop : Bool → Scheduler → ℕ × Scheduler
try_pop owns_lock s = elim s.queue [
  | [] ↦ (0, s)
  | ut ∷ uts ↦
      if owns_lock && not (s.size == 0)
      then (ut, record s { queue = uts; size = s.size - 1 })
      else (0, s)
]

-- `__tryPopMany`: the inner none is the result -1, the mutex is not free.
unfoldable pub try_pop_many : Bool → ℕ → ℕ → Scheduler → Option (Option ℕ × Scheduler)
unfolding remove_many
try_pop_many owns_lock numkt k s =
    if not owns_lock
    then some (none, s)
    else if s.size == 0
    then some (some 0, s)
    else (do (n, s') ← remove_many numkt k s; some (some n, s'))

-- `push_back` on the intrusive stack. A kThread that is linked already cannot be linked again.
unfoldable pub stack_push : ℕ → List ℕ → Option (List ℕ)
stack_push k ks = if has k ks then none else some (k ∷ ks)

unfoldable pub stack_remove : ℕ → List ℕ → List ℕ
stack_remove k [] = []
stack_remove k (x ∷ xs) = if k == x then xs else x ∷ stack_remove k xs

-- The end of `__popMany`: the next kThread is woken if uThreads are left.
unfoldable pub wake_rest : ℕ × Scheduler → ℕ × Scheduler
unfolding un_block
wake_rest (n, s) = (n, if s.size == 0 then s else un_block s)

unfoldable pub pop_finish : ℕ → ℕ → Scheduler → Option (Option ℕ × Scheduler)
unfolding remove_many wake_rest
pop_finish numkt k s = do r ← remove_many numkt k s; some (some (wake_rest r).0, (wake_rest r).1)

-- `cv.wait`, with the stack as it is then.
unfoldable pub wait : ℕ → Scheduler → List ℕ → Option ℕ × Scheduler
wait k s ks = (none, record s { kt_stack = ks; kt_state = update s.kt_state k waiting })

-- `__popMany` up to its first wait, or to its end: none is a wait.
unfoldable pub pop_many : ℕ → ℕ → Scheduler → Option (Option ℕ × Scheduler)
unfolding pop_finish stack_push wait
pop_many numkt k s =
    if s.size == 0
    then (do
      ks ← stack_push k s.kt_stack
      some (wait k (record s { cv_flag = update s.cv_flag k false }) ks))
    else pop_finish numkt k s

-- A kThread that is awake before it was notified removes itself from the stack.
unfoldable pub awake : ℕ → Scheduler → Scheduler
unfolding stack_remove
awake k s = record s {
  kt_stack = if s.cv_flag k then s.kt_stack else stack_remove k s.kt_stack;
  kt_state = update s.kt_state k running;
}

-- `__popMany` from the return of `cv.wait` to the next wait, or to its end.
unfoldable pub pop_many_wake : ℕ → ℕ → Scheduler → Option (Option ℕ × Scheduler)
unfolding pop_finish stack_push wait awake
pop_many_wake numkt k s =
    if s.size == 0
    then (do
      ks ← if s.cv_flag k then stack_push k s.kt_stack else some s.kt_stack
      some (wait k s ks))
    else pop_finish numkt k (awake k s)

-- `__push` of one uThread, as both `schedule` of one uThread call it. `size` is an `unsigned int`.
unfoldable pub push : ℕ → Scheduler → Scheduler
unfolding un_block
push ut s = un_block (record s { queue = s.queue ++ ut ∷ []; size = (s.size + 1) % 2 ^ 32 })

-- `__push` of another queue and the count of its uThreads.
unfoldable pub push_many : List ℕ → ℕ → Scheduler → Scheduler
unfolding un_block
push_many uts count s =
    un_block (record s { queue = s.queue ++ uts; size = (s.size + count) % 2 ^ 32 })
