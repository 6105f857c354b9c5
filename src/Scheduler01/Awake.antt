-- ===== src/Scheduler01/Awake.antt =====
-- src/runtime/schedulers/Scheduler_01.h: the stack and the condition variables of the kThreads. No
-- kThread sleeps on uThreads that no other was told of, and no call fails.
use u_threads.Base.{
  false, ◌⊎◌, ◌<◌, ℕ, ◌+◌, ◌≡◌, ◌≢◌, refl, ◌∙◌, sym, inl, inr, List, [], ◌∷◌, Option, none, some,
  length, arith, Succeeds, bind-Succeeds, Succeeds-some, Succeeds-result, Option-cases,
}
use u_threads.Scheduler01.{
  running, waiting, notified, new_scheduler, pop_many, pop_many_wake, push, push_many,
}
use u_threads.Scheduler01.Switch.{
  System, Next, next_local, non_blocking_switch, popped, leave, blocking_switch,
  blocking_switch_wake, blocking_switch_leave,
}
use u_threads.Scheduler01.Run.{
  ran_of, ran_of_option, Event, event, Call, schedule_call, schedule_many_call, non_blocking_call,
  blocking_call, wake_call, leave_call, poller_call, run_call, History, new_system, Run, start,
  next, Enabled,
}
use u_threads.Scheduler01.Stack.{Wakes}
use u_threads.Scheduler01.Popping.{HasPopped, pop_many-Popped, pop_many_wake-Popped}
use u_threads.Scheduler01.Switched.{HasSwitched, non_blocking_switch-Switched}
use u_threads.Scheduler01.Good.{
  Good, CallGood, pushed-Good, Switched-Good, popped-Good, leave-Good, wake-idle, leaves-Succeeds,
  grown-Core,
}

blocking_switch-Good :
    (numkt k : ℕ) (s : System)
    → 0 < numkt
    → s.leaving k ≡ none
    → s.scheduler.kt_state k ≡ running
    → Good s
    → Succeeds Good (blocking_switch numkt k s)
unfolding blocking_switch
blocking_switch-Good numkt k s some_kt idle run g =
    bind-Succeeds Good (HasPopped k s.scheduler) (pop_many numkt k s.scheduler)
      (λ r. some (popped k (record s { io_sem = s.io_sem + 1 }) r))
      (pop_many-Popped numkt k s.scheduler some_kt run g.core)
      (λ r p. popped-Good k s (s.io_sem + 1) r idle p g)

blocking_switch_wake-Good :
    (numkt k : ℕ) (s : System)
    → 0 < numkt
    → Wakes k s.scheduler
    → Good s
    → Succeeds Good (blocking_switch_wake numkt k s)
unfolding blocking_switch_wake
blocking_switch_wake-Good numkt k s some_kt w g =
    bind-Succeeds Good (HasPopped k s.scheduler) (pop_many_wake numkt k s.scheduler)
      (λ r. some (popped k s r)) (pop_many_wake-Popped numkt k s.scheduler some_kt w g.core)
      (λ r p. popped-Good k s s.io_sem r (wake-idle k s w g) p g)

abbrev LeftGood : Option Next × System → Type 0
LeftGood (r, s) = Good s

blocking_switch_leave-Good :
    (k : ℕ) (s : System)
    → s.leaving k ≢ none
    → Good s
    → Succeeds LeftGood (blocking_switch_leave k s)
unfolding blocking_switch_leave
blocking_switch_leave-Good k s ne g = elim (Option-cases (s.leaving k)) [
  | inl e ↦ absurd (ne e)
  | inr (n, e) ↦ rw e (
      bind-Succeeds LeftGood (HasSwitched k s.scheduler) (next_local n k s.scheduler)
        (λ r. some (leave k s r)) (leaves-Succeeds k n s e g)
        (λ (r, sc) w. leave-Good k s r sc w g))
]

wakes :
    (k : ℕ) (s : System)
    → (s.scheduler.kt_state k ≡ notified)
      ⊎ ((s.scheduler.kt_state k ≡ waiting) × (false ≡ false → s.scheduler.cv_flag k ≡ false))
    → Wakes k s.scheduler
wakes k s (inl n) = inl n
wakes k s (inr (w, f)) = inr (w, f refl)

run_call-Good :
    (c : Call) (s : System) → Enabled false c s → Good s → Succeeds CallGood (run_call c s)
unfolding Enabled run_call push push_many
run_call-Good (schedule_call ut) s en g =
    pushed-Good s _ refl refl (grown-Core s.scheduler (ut ∷ []) 1 refl en g.core) g
run_call-Good (schedule_many_call uts) s en g =
    pushed-Good s _ refl refl (grown-Core s.scheduler uts (length uts) refl en g.core) g
run_call-Good (non_blocking_call owns_lock numkt is_yield k) s en g =
    bind-Succeeds CallGood (HasSwitched k s.scheduler)
      (non_blocking_switch owns_lock numkt is_yield k s.scheduler)
      (λ (r, sc). some (event k (ran_of r) s.scheduler sc, record s { scheduler = sc }))
      (non_blocking_switch-Switched owns_lock numkt is_yield k s.scheduler en.0 g.core)
      (λ (r, sc) w. Switched-Good k s sc en.2 w g)
run_call-Good (blocking_call numkt k) s en g =
    bind-Succeeds CallGood Good (blocking_switch numkt k s)
      (λ s'. some (event k [] s.scheduler s'.scheduler, s'))
      (blocking_switch-Good numkt k s en.0 en.2 en.1 g) (λ s' i. i)
run_call-Good (wake_call numkt k) s en g =
    bind-Succeeds CallGood Good (blocking_switch_wake numkt k s)
      (λ s'. some (event k [] s.scheduler s'.scheduler, s'))
      (blocking_switch_wake-Good numkt k s en.0 (wakes k s en.1) g) (λ s' i. i)
run_call-Good (leave_call k) s en g =
    bind-Succeeds CallGood LeftGood (blocking_switch_leave k s)
      (λ (r, s'). some (event k (ran_of_option r) s.scheduler s'.scheduler, s'))
      (blocking_switch_leave-Good k s en g) (λ (r, s') i. i)
run_call-Good (poller_call n) s en g = record {
  core = g.core;
  noticed = g.noticed;
  leaves = g.leaves;
}

Run-Good : (h : History) (s : System) → Run false h s → Good s
unfolding new_system new_scheduler
Run-Good h s start = record {
  core = record {
    counts = refl;
    distinct = tt;
    on_stack = λ k. refl;
    flagged = λ k e. absurd (ground arith);
  };
  noticed = λ ne. absurd (ne refl);
  leaves = λ k n e. absurd (ground arith);
}
Run-Good h s' (next {h = h0} {s = s} e c run en eq) =
    Succeeds-some CallGood (run_call c s) (e, s') (run_call-Good c s en (Run-Good h0 s run)) eq

length-zero : (xs : List ℕ) → length xs ≡ 0 → xs ≡ []
length-zero [] e = refl
length-zero (x ∷ xs) e = absurd (omega (arith, e))

-- In every state that is reached without a spurious wake-up of a kThread whose flag is set already:
-- `size` is the number of uThreads in the run queue; if a kThread waits while there are some, then
-- another one has been notified and has yet to run; and every further call of that kind succeeds, in a
-- cluster that counts a kThread and with fewer than 2^32 uThreads: the assertions hold, and no kThread is
-- linked into the stack twice.
pub work-Noticed :
    (h : History) (s : System)
    → Run false h s
    → (s.scheduler.size ≡ length s.scheduler.queue)
      × ((k : ℕ)
          → s.scheduler.kt_state k ≡ waiting
          → s.scheduler.queue ≢ []
          → (j : ℕ) × (s.scheduler.kt_state j ≡ notified))
      × ((c : Call) → Enabled false c s → (r : Event × System) × (run_call c s ≡ some r))
work-Noticed h s run =
    let g = Run-Good h s run in
    (
      g.core.counts,
      λ k w ne. elim (g.noticed (λ z. ne (length-zero s.scheduler.queue (sym g.core.counts ∙ z)))) [
        | inl empty_stack ↦ absurd (ground (arith, w, g.core.on_stack k, empty_stack))
        | inr other ↦ other
      ],
      λ c en.
          let (r, e, p) = Succeeds-result CallGood (run_call c s) (run_call-Good c s en g) in
          (r, e),
    )
