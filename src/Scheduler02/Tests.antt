-- ===== src/Scheduler02/Tests.antt =====
-- One uThread, at address 4, is scheduled on a kThread that waits, and is run to its end.
use u_threads.Base.{ℕ, zero, suc, ◌≡◌, refl, subst, false, List, [], ◌∷◌, ◌++◌, some, arith, Apart}
use u_threads.Mpsc.{init, exchange, link, pop_step, is_marked, unmark, mark}
use u_threads.Mpsc.Run.{Aligned, IsFresh, returned}
use u_threads.Scheduler02.{
  Scheduler, get_scheduler, push_chain, schedule_link, schedule_post, switch_step, taken_at,
}
use u_threads.Scheduler02.Run.{Run, start, schedules, links, posts, switches}
use u_threads.Intrusive.Queue.Laws.{IsQueue}
use u_threads.Scheduler02.Bulk.{
  KtVar, links as links_of, prepare_bulk_push, bulk_push_one, bulk_push_one-Run,
  prepare_bulk_push-Run,
}
use u_threads.Scheduler02.Wakeup.{no_lost_wakeup, taken_in_order}

two-Aligned : Aligned (2 ∷ [])
two-Aligned = omega arith

Apart-nil_of_eq : (xs c : List ℕ) → Apart xs [] → [] ≡ c → Apart xs c
Apart-nil_of_eq xs c a e = subst (λ l. Apart xs l) e a

four-IsFresh : IsFresh 2 [] [] (4 ∷ [])
four-IsFresh = record {
  aligned = omega arith;
  distinct = (refl, tt);
  not_stub = refl;
  apart = λ c e. Apart-nil_of_eq (4 ∷ []) c (refl, tt) e;
}

-- The kThread makes `n` steps, its current uThread not yielding.
abbrev steps : ℕ → Scheduler → Scheduler
steps zero s = s
steps (suc n) s = steps n (switch_step 2 false s)

abbrev taken : ℕ → Scheduler → List ℕ → List ℕ
taken zero s popped = popped
taken (suc n) s popped = taken n (switch_step 2 false s) (popped ++ returned (taken_at 2 s s.phase))

run_steps :
    (n : ℕ) {s : Scheduler} {pushed popped : List ℕ}
    → Run 2 s pushed popped
    → Run 2 (steps n s) pushed (taken n s popped)
run_steps zero r = r
run_steps (suc n) r = run_steps n (switches false r)

abbrev posted : Scheduler
posted = schedule_post (schedule_link 2 (push_chain 4 4 (steps 1 (get_scheduler 2))))

posted_run : Run 2 posted (4 ∷ []) []
unfolding get_scheduler push_chain schedule_link schedule_post switch_step taken_at init exchange
    is_marked unmark mark
posted_run =
    posts
      (links 2 (schedules 0 4 [] (run_steps 1 start) (refl, omega arith, refl) four-IsFresh)
        (λ e. absurd (cc)) (λ e. absurd (cc)))
      (omega arith)

no_lost_wakeup_example : 4 ∷ [] ≡ taken 12 posted []
unfolding get_scheduler push_chain schedule_link schedule_post switch_step taken_at init exchange
    link pop_step is_marked unmark mark
no_lost_wakeup_example = no_lost_wakeup 2 two-Aligned (run_steps 12 posted_run) refl refl refl

taken_by_two : (rest : List ℕ) × (4 ∷ [] ≡ taken 8 posted [] ++ rest)
taken_by_two = taken_in_order 2 two-Aligned (run_steps 8 posted_run)

-- A kThread with uThread 4 in its bulk queue.
abbrev prepared : KtVar
prepared = record {
  bulk_queue = record { head = 4; tail = 4 };
  bulk_counter = 1;
  prev = λ p. 0;
  scheduler = get_scheduler 2;
}

prepared-IsQueue : IsQueue (links_of prepared) prepared.bulk_queue (4 ∷ [])
unfolding get_scheduler init
prepared-IsQueue = record { chain = (refl, omega arith, refl); tail = refl; distinct = (refl, tt) }

bulk_push_one-Run_example :
    (k' : KtVar) × (bulk_push_one prepared ≡ some k')
    × Run 2 k'.scheduler (4 ∷ []) []
    × (k'.bulk_counter ≡ 0)
    × IsQueue (links_of k') k'.bulk_queue []
bulk_push_one-Run_example =
    bulk_push_one-Run 2 prepared (4 ∷ []) [] [] start prepared-IsQueue refl four-IsFresh

prepared_twice :
    (k' : KtVar) × (prepare_bulk_push 8 prepared ≡ some k')
    × Run 2 k'.scheduler [] []
    × (k'.bulk_counter ≡ 2)
    × IsQueue (links_of k') k'.bulk_queue (4 ∷ 8 ∷ [])
unfolding get_scheduler init
prepared_twice =
    prepare_bulk_push-Run 2 8 prepared (4 ∷ []) [] [] start prepared-IsQueue refl four-IsFresh
      (omega arith) refl refl
