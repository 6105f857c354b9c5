-- ===== src/Scheduler03/Fifo.antt =====
-- src/runtime/schedulers/Scheduler_03.h: its run queue as a RunQueue, whose kThread gets the mutex.
use u_threads.Base.{
  ℕ, ◌≡◌, ◌≢◌, refl, true, false, List, [], ◌∷◌, ◌++◌, Option, none, some, ◌>>=◌, ◌==◌,
  if◌then◌else◌, has, has-append, Succeeds, arith,
}
use u_threads.RunQueue.{RunQueue, ChoseNone, Chose}
use u_threads.Scheduler03.{Scheduler, schedule, try_pop}
use u_threads.Scheduler03.Order.{Holds, empty-nil, empty-cons, take_front-cons, schedule-snoc}

-- `nullptr` is 0.
unfoldable pub chosen : ℕ → Option ℕ
chosen ut = if ut == 0 then none else some ut

unfoldable pub choose : Scheduler → Option (Option ℕ × Scheduler)
unfolding chosen try_pop
choose s = do (ut, s') ← try_pop true s; some (chosen ut, s')

-- No uThread lies at `nullptr`.
abbrev pub Queues : Scheduler → List ℕ → Type 0
Queues s xs = Holds s xs × (has 0 xs ≡ false)

pub schedule-law :
    (ut : ℕ) (s : Scheduler) (xs : List ℕ)
    → ut ≢ 0
    → has ut xs ≡ false
    → Queues s xs
    → Succeeds (λ s'. Queues s' (xs ++ ut ∷ [])) (schedule ut s)
schedule-law ut s xs ne out (i, z) =
    let (s', e, i') = schedule-snoc ut s xs ne out i in
    rw e (i', ground (arith, has-append 0 xs (ut ∷ []), z))

pub choose-nil : (s : Scheduler) → Queues s [] → Succeeds (ChoseNone Queues) (choose s)
unfolding choose chosen try_pop
choose-nil s (i, z) =
    rw (empty-nil s i)
      (refl, (record { queue = i.queue; unlinked = i.unlinked; sleeps = λ e. refl }, refl))

pub choose-cons :
    (s : Scheduler) (x : ℕ) (xs : List ℕ)
    → Queues s (x ∷ xs)
    → Succeeds (Chose Queues x xs) (choose s)
unfolding choose chosen try_pop
choose-cons s x xs (i, z) =
    let (s', e, i') = take_front-cons s x xs i in
    let ne : (x == 0) ≡ false = ground (arith, z) in
    rw (empty-cons s x xs i, e, ne) (refl, (i', ground (arith, z)))

abbrev pub mutex_queue : RunQueue
mutex_queue = record {
  Queue = Scheduler;
  Holds = Queues;
  schedule = schedule;
  choose = choose;
  schedule-snoc = schedule-law;
  choose-nil = choose-nil;
  choose-cons = choose-cons;
}
