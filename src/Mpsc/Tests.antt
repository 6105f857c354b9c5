-- ===== src/Mpsc/Tests.antt =====
-- A short history of a `BlockingMPSCQueue` with its stub at 2: a push of 4 and one `pop()`.
use mathlib.Core.Option
use u_threads.Base.{ℕ, ◌≡◌, refl, ◌≢◌, subst, inl, true, List, [], ◌∷◌, ◌++◌, some, arith, Apart}
use u_threads.Mpsc.{
  MpscQueue, outside, relink, is_marked, unmark, mark, init, exchange, link, pop_step, pop,
}
use u_threads.Mpsc.Run.{Aligned, IsFresh, Run, start, pushes, links, pops}
use u_threads.Mpsc.Run.Fifo.{Waits, fifo, pop-null, push-was_empty, pop-Waits}
use u_threads.Mpsc.Run.Total.{Pops, IsCalm, pop-Pops}

two-Aligned : Aligned (2 ∷ [])
two-Aligned = omega arith

Apart-nil_of_eq : (xs c : List ℕ) → Apart xs [] → [] ≡ c → Apart xs c
Apart-nil_of_eq xs c a e = subst (λ l. Apart xs l) e a

four-IsFresh : IsFresh 2 [] [] (4 ∷ [])
four-IsFresh = record {
  aligned = omega arith;
  distinct = (refl, tt);
  not_stub = refl;
  apart = λ c e. Apart-nil_of_eq (4 ∷ []) c (refl, tt) e;
}

abbrev pushed_queue : MpscQueue
pushed_queue = (exchange 4 4 (init 2)).0

abbrev linked_queue : MpscQueue
linked_queue = link 2 pushed_queue

pushed_run : Run 2 pushed_queue (4 ∷ []) []
unfolding init exchange link pop pop_step is_marked unmark mark
pushed_run = pushes 0 4 [] start (refl, omega arith, refl) four-IsFresh

linked_run : Run 2 linked_queue (4 ∷ []) []
unfolding init exchange link pop pop_step is_marked unmark mark
linked_run = links 2 pushed_run (λ e. absurd (cc)) (λ e. absurd (cc))

linked-IsCalm : IsCalm linked_queue
unfolding init exchange link pop pop_step is_marked unmark mark
linked-IsCalm a ne = absurd (ground arith)

-- The queue before the last step of a `pop()`.
abbrev waiting_queue : MpscQueue
waiting_queue =
    (pop_step 2 (pop_step 2 (pop_step 2 (pop_step 2 (pop_step 2 linked_queue).0).0).0).0).0

waiting_run : Run 2 waiting_queue (4 ∷ []) []
unfolding init exchange link pop pop_step is_marked unmark mark
waiting_run = pops (pops (pops (pops (pops linked_run))))

popped_run : Run 2 (pop_step 2 waiting_queue).0 (4 ∷ []) (4 ∷ [])
unfolding init exchange link pop pop_step is_marked unmark mark
popped_run = pops waiting_run

fifo_example : (rest : List ℕ) × (4 ∷ [] ≡ (4 ∷ []) ++ rest)
fifo_example = fifo 2 two-Aligned popped_run

pop-null_case : (◌≡◌ {A = List ℕ} [] []) × (is_marked (pop_step 2 (init 2)).0.tail ≡ true)
unfolding init exchange link pop pop_step is_marked unmark mark
pop-null_case = pop-null 2 two-Aligned start refl

push-was_empty_case : (◌≡◌ {A = List ℕ} [] []) × ((init 2).pc ≡ outside)
unfolding init exchange link pop pop_step is_marked unmark mark
push-was_empty_case = push-was_empty 2 two-Aligned start 4 4 refl

-- The consumer at its first wait, with the push of 4 not linked yet.
abbrev blocked_queue : MpscQueue
blocked_queue = (pop_step 2 (pop_step 2 pushed_queue).0).0

blocked_run : Run 2 blocked_queue (4 ∷ []) []
unfolding init exchange link pop pop_step is_marked unmark mark
blocked_run = pops (pops pushed_run)

pop-Waits_case :
    (prev : ℕ) × (blocked_queue.pending prev ≢ 0)
    × (blocked_queue.pc ≢ relink prev)
    × ¬ Waits 2 (link prev blocked_queue)
unfolding init exchange link pop pop_step is_marked unmark mark
pop-Waits_case = pop-Waits 2 two-Aligned blocked_run (inl (refl, refl))

pop-Pops_example : Pops 2 (4 ∷ []) [] (pop 6 2 linked_queue)
unfolding init exchange link pop pop_step is_marked unmark mark
pop-Pops_example = pop-Pops 6 2 two-Aligned linked_run linked-IsCalm (omega arith)

pop_four : Option.map (λ r. r.1) (pop 6 2 linked_queue) ≡ some 4
unfolding init exchange link pop pop_step is_marked unmark mark
pop_four = refl
