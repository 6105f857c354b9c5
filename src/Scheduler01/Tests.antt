-- ===== src/Scheduler01/Tests.antt =====
-- Runs of the scheduler of src/runtime/schedulers/Scheduler_01.h.
use u_threads.Base.{
  ℕ, ◌<◌, ◌≤◌, ◌+◌, ◌≡◌, ◌≢◌, refl, inl, true, List, [], ◌∷◌, ◌++◌, Option, none, some, length,
  take, has, arith, forget_order, gather, false, inr, Bool-cases, ◌==◌, if◌then◌else◌,
}
use u_threads.Scheduler01.{
  wait, stack_push, wake_back, notify_one, pop_finish, wake_rest, awake, running, waiting, notified,
  Scheduler, new_scheduler, share_num, move_share, remove_many, un_block, push, push_many, pop_many,
  pop_many_wake,
}
use u_threads.Scheduler01.Spin.{Spun, spin_lock, spin_lock-bounded}
use u_threads.Scheduler01.Share.{Share, remove_many-Share}
use u_threads.Scheduler01.Switch.{System, blocking_switch, popped, blocking_switch_wake}
use u_threads.Scheduler01.Run.{
  Call, schedule_call, blocking_call, wake_call, Event, event, pushes, left_queue, Enabled,
  run_call, History, no_history, add_event, new_system, Run, start, next,
}
use u_threads.Scheduler01.Order.{scheduled-in_order}
use u_threads.Scheduler01.Places.{Covers, places-kept}
use u_threads.Scheduler01.Awake.{work-Noticed}
use u_threads.Scheduler01.Progress.{waiting-takes}
use u_threads.Scheduler01.Bulk.{
  Cluster, bulk_push, prepare_all, members, pushed_at_once, bulk_push-members,
}

abbrev five : Scheduler
five = push_many (10 ∷ 11 ∷ 12 ∷ 13 ∷ 14 ∷ []) 5 new_scheduler

-- Five uThreads and two kThreads: the first takes two.
remove_many-Share_example :
    (0 < 2
      → (n : ℕ) × (s' : Scheduler) × (remove_many 2 7 five ≡ some (n, s'))
        × Share 2 five.size five.last_pop_num n
        × (s'.size ≡ length s'.queue)
        × (s'.lrq 7 ≡ five.lrq 7 ++ take n five.queue)
        × (take n five.queue ++ s'.queue ≡ five.queue)
        × (length (s'.lrq 7) ≡ length (five.lrq 7) + n))
    × (◌≡◌ {A = ℕ} 2 0 → remove_many 2 7 five ≡ none)
unfolding push_many un_block new_scheduler
remove_many-Share_example = remove_many-Share 2 7 five refl (omega arith)

takes_two : (move_share 2 7 five).0 ≡ 2
unfolding move_share push_many un_block new_scheduler share_num
takes_two = refl

divides_by_zero : remove_many 0 7 five ≡ none
unfolding remove_many
divides_by_zero = refl

spin_lock-bounded_case :
    (r : Spun) × (spin_lock 11 (λ i. false) ≡ some r)
    × (r.tries ≤ 11)
    × (r.pauses < 8192)
    × (r.blocked ≡ false → (i : ℕ) × (r.tries ≡ i + 1) × (false ≡ true))
spin_lock-bounded_case = spin_lock-bounded (λ i. false)

abbrev result : Option (Event × System) → Event × System
result none = (pushes [], new_system)
result (some r) = r

-- A kThread waits; two uThreads are scheduled, of which the first wakes it.
abbrev waits : Event × System
waits = result (run_call (blocking_call 1 7) new_system)

abbrev first : Event × System
first = result (run_call (schedule_call 20) waits.1)

abbrev second : Event × System
second = result (run_call (schedule_call 21) first.1)

abbrev woken : Event × System
woken = result (run_call (wake_call 1 7) second.1)

abbrev history : History
history = add_event (add_event (add_event (add_event no_history waits.0) first.0) second.0) woken.0

second-Run :
    Run false (add_event (add_event (add_event no_history waits.0) first.0) second.0) second.1
unfolding run_call Enabled blocking_switch pop_many wait stack_push popped push un_block wake_back
    notify_one new_system new_scheduler event pushes left_queue
second-Run =
    next second.0 (schedule_call 21)
      (next first.0 (schedule_call 20)
        (next waits.0 (blocking_call 1 7) start (omega arith, refl, refl) refl) (omega arith) refl)
      (omega arith) refl

woken-Run : Run false history woken.1
unfolding run_call Enabled blocking_switch pop_many wait stack_push popped push un_block wake_back
    notify_one blocking_switch_wake pop_many_wake awake pop_finish wake_rest remove_many move_share
    share_num new_system new_scheduler event pushes left_queue
woken-Run = next woken.0 (wake_call 1 7) second-Run (omega arith, inl refl) refl

scheduled-in_order_example :
    (history.moved ++ woken.1.scheduler.queue ≡ history.pushed)
    × ((k : ℕ) → history.ran_by k ++ woken.1.scheduler.lrq k ≡ history.moved_by k)
scheduled-in_order_example = scheduled-in_order false history woken.1 woken-Run

work-Noticed_example :
    (woken.1.scheduler.size ≡ length woken.1.scheduler.queue)
    × ((k : ℕ)
        → woken.1.scheduler.kt_state k ≡ waiting
        → woken.1.scheduler.queue ≢ []
        → (j : ℕ) × (woken.1.scheduler.kt_state j ≡ notified))
    × ((c : Call) → Enabled false c woken.1 → (r : Event × System) × (run_call c woken.1 ≡ some r))
work-Noticed_example = work-Noticed history woken.1 woken-Run

takes_both : history.moved ≡ 20 ∷ 21 ∷ []
unfolding run_call blocking_switch pop_many wait stack_push popped push un_block wake_back
    notify_one blocking_switch_wake pop_many_wake awake pop_finish wake_rest remove_many move_share
    share_num new_system new_scheduler event pushes left_queue add_event no_history
takes_both = refl

only_seven : Covers (7 ∷ []) history
unfolding run_call blocking_switch pop_many wait stack_push popped push un_block wake_back
    notify_one blocking_switch_wake pop_many_wake awake pop_finish wake_rest remove_many move_share
    share_num new_system new_scheduler event pushes left_queue add_event no_history
only_seven k out =
    let other : (k == 7) ≡ false = ground arith in
    elim (Bool-cases (k == 0)) [ inl t ↦ rw (other, t) refl | inr t ↦ rw (other, t) refl ]

places-kept_example :
    forget_order history.pushed
    ≡ forget_order (
        gather (7 ∷ []) (λ k. history.ran_by k ++ woken.1.scheduler.lrq k)
        ++ woken.1.scheduler.queue)
places-kept_example = places-kept (7 ∷ []) false history woken.1 woken-Run (refl, tt) only_seven

-- A kThread that was notified finds the queue empty and waits again, with its flag set; a spurious
-- wake-up then would put it on the stack a second time.
abbrev flagged : Scheduler
flagged = record new_scheduler {
  kt_stack = 7 ∷ [];
  cv_flag = λ k. k == 7;
  kt_state = λ k. if k == 7 then waiting else running;
}

twice_on_stack : pop_many_wake 1 7 flagged ≡ none
unfolding pop_many_wake stack_push new_scheduler
twice_on_stack = refl

abbrev none_prepared : ℕ → Cluster
none_prepared c = record { bulk_queue = []; bulk_counter = 0; scheduler = new_scheduler }

abbrev unblocked : List (ℕ × ℕ)
unblocked = (1, 8) ∷ (2, 16) ∷ (1, 24) ∷ []

bulk_push-members_example :
    (s' : ℕ → Cluster) × (bulk_push (1 ∷ 2 ∷ []) (prepare_all unblocked none_prepared) ≡ some s')
    × ((c : ℕ)
        → has c (1 ∷ 2 ∷ []) ≡ true
        → ((s' c).scheduler ≡ pushed_at_once (members c unblocked) (none_prepared c).scheduler)
          × ((s' c).bulk_queue ≡ [])
          × ((s' c).bulk_counter ≡ 0))
bulk_push-members_example =
    bulk_push-members (1 ∷ 2 ∷ []) unblocked none_prepared (λ c. (refl, refl))

-- Two kThreads wait, and a uThread is scheduled.
abbrev other_waits : Event × System
other_waits = result (run_call (blocking_call 2 5) waits.1)

abbrev scheduled : Event × System
scheduled = result (run_call (schedule_call 20) other_waits.1)

scheduled-Run :
    Run false
      (add_event (add_event (add_event no_history waits.0) other_waits.0) scheduled.0)
      scheduled.1
unfolding run_call Enabled blocking_switch pop_many wait stack_push popped push un_block wake_back
    notify_one new_system new_scheduler event pushes left_queue
scheduled-Run =
    next scheduled.0 (schedule_call 20)
      (next other_waits.0 (blocking_call 2 5)
        (next waits.0 (blocking_call 1 7) start (omega arith, refl, refl) refl)
        (omega arith, refl, refl) refl)
      (omega arith) refl

seven_waits : scheduled.1.scheduler.kt_state 7 ≡ waiting
unfolding run_call Enabled blocking_switch pop_many wait stack_push popped push un_block wake_back
    notify_one new_system new_scheduler event pushes left_queue
seven_waits = refl

one_queued : scheduled.1.scheduler.queue ≢ []
unfolding run_call Enabled blocking_switch pop_many wait stack_push popped push un_block wake_back
    notify_one new_system new_scheduler event pushes left_queue
one_queued = λ e. ground arith

waiting-takes_example :
    (j : ℕ) × (s' : System) × (n : ℕ) × (scheduled.1.scheduler.kt_state j ≡ notified)
    × (blocking_switch_wake 2 j scheduled.1 ≡ some s')
    × (s'.leaving j ≡ some n)
    × (0 < n)
    × (s'.scheduler.lrq j ≡ scheduled.1.scheduler.lrq j ++ take n scheduled.1.scheduler.queue)
waiting-takes_example =
    waiting-takes (add_event (add_event (add_event no_history waits.0) other_waits.0) scheduled.0)
      scheduled.1 2 7 scheduled-Run (omega arith) seven_waits one_queued
