-- ===== src/Scheduler01/Order.antt =====
-- src/runtime/schedulers/Scheduler_01.h: uThreads leave the run queue in the order of their arrival,
-- and each kThread runs what it has moved, in that order.
use u_threads.Base.{
  Bool, ℕ, ◌+◌, ◌≡◌, refl, sym, inl, inr, false, Bool-cases, List, [], ◌∷◌, ◌++◌, append-nil,
  append_laws, Option, none, some, ◌==◌, length, ◌%◌, ◌^◌, ◌>>=◌, arith, Ensures, bind-Ensures_any,
  bind-Ensures_map, Ensures-some, ◌∙◌,
}
use u_threads.Scheduler01.{Scheduler, new_scheduler, pop_many, pop_many_wake, push, push_many}
use u_threads.Scheduler01.Switch.{
  System, Next, take_local, next_local, non_blocking_switch, popped, leave, blocking_switch,
  blocking_switch_wake, blocking_switch_leave,
}
use u_threads.Scheduler01.Run.{
  ran_of, ran_of_option, Event, event, pushes, Call, schedule_call, schedule_many_call,
  non_blocking_call, blocking_call, wake_call, leave_call, poller_call, run_call, History,
  no_history, add_event, new_system, Run, start, next,
}
use u_threads.Scheduler01.Moves.{
  Moves, Moved, Takes, Taken, Switches, Moves-none, Moves-Takes, take_from-Takes, un_block-same,
  pop_many-Moves, pop_many_wake-Moves, non_blocking_switch-Switches,
}

-- What an event says of the queues before and after it.
record Follows (s s' : Scheduler) (e : Event) : Type 0 where
  pub front : e.moved ++ s'.queue ≡ s.queue ++ e.pushed
  pub mine : e.ran ++ s'.lrq e.kt ≡ s.lrq e.kt ++ e.moved
  pub others : (j : ℕ) → (j == e.kt) ≡ false → s'.lrq j ≡ s.lrq j

Moves-Follows :
    (k : ℕ) (ran : List ℕ) (s s' : Scheduler) → Moves k ran s s' → Follows s s' (event k ran s s')
unfolding event
Moves-Follows k ran s s' m = record {
  front = m.front ∙ sym (append-nil s.queue);
  mine = m.mine;
  others = m.others;
}

pushes-Follows :
    (uts : List ℕ) (s s' : Scheduler)
    → s'.queue ≡ s.queue ++ uts
    → s'.lrq ≡ s.lrq
    → Follows s s' (pushes uts)
unfolding pushes
pushes-Follows uts s s' q l = record {
  front = q;
  mine = rw l (sym (append-nil (s.lrq 0)));
  others = λ j ne. rw l refl;
}

abbrev CallFollows : System → Event × System → Type 0
CallFollows s (e, s') = Follows s.scheduler s'.scheduler e

popped-scheduler : (k : ℕ) (s : System) (r : Option ℕ × Scheduler) → (popped k s r).scheduler ≡ r.1
unfolding popped
popped-scheduler k s (none, sc) = refl
popped-scheduler k s (some n, sc) = refl

abbrev Popped : ℕ → System → System → Type 0
Popped k s s' = Moves k [] s.scheduler s'.scheduler

popped-Popped :
    (k : ℕ) (s t : System) (r : Option ℕ × Scheduler)
    → Moved k s.scheduler r
    → Popped k s (popped k t r)
unfolding popped
popped-Popped k s t (none, sc) m = m
popped-Popped k s t (some n, sc) m = m

blocking_switch-Popped :
    (numkt k : ℕ) (s : System) → Ensures (Popped k s) (blocking_switch numkt k s)
unfolding blocking_switch
blocking_switch-Popped numkt k s =
    let t = record s { io_sem = s.io_sem + 1 } in
    bind-Ensures_map (Popped k s) (Moved k s.scheduler) (pop_many numkt k s.scheduler) (popped k t)
      (pop_many-Moves numkt k s.scheduler) (popped-Popped k s t)

blocking_switch_wake-Popped :
    (numkt k : ℕ) (s : System) → Ensures (Popped k s) (blocking_switch_wake numkt k s)
unfolding blocking_switch_wake
blocking_switch_wake-Popped numkt k s =
    bind-Ensures_map (Popped k s) (Moved k s.scheduler) (pop_many_wake numkt k s.scheduler)
      (popped k s) (pop_many_wake-Moves numkt k s.scheduler) (popped-Popped k s s)

next_local-Taken : (n k : ℕ) (s : Scheduler) → Ensures (Taken k s) (next_local n k s)
unfolding next_local take_local ran_of
next_local-Taken n k s = elim (Bool-cases (n == 0)) [
  | inl z ↦ rw z (record { same = refl; mine = refl; others = λ j ne. refl })
  | inr z ↦ rw z (take_from-Takes (s.lrq k) k s refl)
]

abbrev Leaves : ℕ → System → Option Next × System → Type 0
Leaves k s (r, s') = Moves k (ran_of_option r) s.scheduler s'.scheduler

leave-Leaves :
    (k : ℕ) (s : System) (r : Next) (sc : Scheduler)
    → Takes k (ran_of r) s.scheduler sc
    → Leaves k s (leave k s (r, sc))
unfolding leave ran_of_option
leave-Leaves k s r sc t = elim (Bool-cases (s.io_sem == 0)) [
  | inl z ↦ rw z (Moves-none k s.scheduler s.scheduler refl refl)
  | inr z ↦ rw z (
      Moves-Takes k (ran_of r) s.scheduler s.scheduler sc
        (Moves-none k s.scheduler s.scheduler refl refl) t)
]

blocking_switch_leave-Leaves :
    (k : ℕ) (s : System) → Ensures (Leaves k s) (blocking_switch_leave k s)
unfolding blocking_switch_leave
blocking_switch_leave-Leaves k s =
    bind-Ensures_any (Leaves k s) (s.leaving k)
      (λ n. next_local n k s.scheduler >>= (λ r. some (leave k s r)))
      (λ n.
        bind-Ensures_map (Leaves k s) (Taken k s.scheduler) (next_local n k s.scheduler) (leave k s)
          (next_local-Taken n k s.scheduler) (λ (r, sc) t. leave-Leaves k s r sc t))

run_call-Follows : (c : Call) (s : System) → Ensures (CallFollows s) (run_call c s)
unfolding run_call push push_many
run_call-Follows (schedule_call ut) s =
    let sc = s.scheduler in
    let (q, l) =
      un_block-same (record sc { queue = sc.queue ++ ut ∷ []; size = (sc.size + 1) % 2 ^ 32 }) in
    pushes-Follows (ut ∷ []) sc (push ut sc) q l
run_call-Follows (schedule_many_call uts) s =
    let sc = s.scheduler in
    let (q, l) =
      un_block-same
        (record sc { queue = sc.queue ++ uts; size = (sc.size + length uts) % 2 ^ 32 }) in
    pushes-Follows uts sc (push_many uts (length uts) sc) q l
run_call-Follows (non_blocking_call owns_lock numkt is_yield k) s =
    bind-Ensures_map (CallFollows s) (Switches k s.scheduler)
      (non_blocking_switch owns_lock numkt is_yield k s.scheduler)
      (λ (r, sc). (event k (ran_of r) s.scheduler sc, record s { scheduler = sc }))
      (non_blocking_switch-Switches owns_lock numkt is_yield k s.scheduler)
      (λ (r, sc) m. Moves-Follows k (ran_of r) s.scheduler sc m)
run_call-Follows (blocking_call numkt k) s =
    bind-Ensures_map (CallFollows s) (Popped k s) (blocking_switch numkt k s)
      (λ s'. (event k [] s.scheduler s'.scheduler, s')) (blocking_switch-Popped numkt k s)
      (λ s' m. Moves-Follows k [] s.scheduler s'.scheduler m)
run_call-Follows (wake_call numkt k) s =
    bind-Ensures_map (CallFollows s) (Popped k s) (blocking_switch_wake numkt k s)
      (λ s'. (event k [] s.scheduler s'.scheduler, s')) (blocking_switch_wake-Popped numkt k s)
      (λ s' m. Moves-Follows k [] s.scheduler s'.scheduler m)
run_call-Follows (leave_call k) s =
    bind-Ensures_map (CallFollows s) (Leaves k s) (blocking_switch_leave k s)
      (λ (r, s'). (event k (ran_of_option r) s.scheduler s'.scheduler, s'))
      (blocking_switch_leave-Leaves k s)
      (λ (r, s') m. Moves-Follows k (ran_of_option r) s.scheduler s'.scheduler m)
run_call-Follows (poller_call n) s =
    pushes-Follows [] s.scheduler s.scheduler (sym (append-nil s.scheduler.queue)) refl

own-next :
    (h : History) (s s' : Scheduler) (e : Event)
    → Follows s s' e
    → ((k : ℕ) → h.ran_by k ++ s.lrq k ≡ h.moved_by k)
    → (k : ℕ) → (add_event h e).ran_by k ++ s'.lrq k ≡ (add_event h e).moved_by k
unfolding add_event
own-next h s s' e f own k = elim (Bool-cases (k == e.kt)) [
  | inl t ↦
      let same : k ≡ e.kt = ground arith in
      rw (t, same) (simp (append_laws, f.mine, ← own e.kt) refl)
  | inr t ↦ rw (t, f.others k t) (own k)
]

-- In every reachable state, the uThreads that have left the run queue, in the order in which they left
-- it, followed by those in it are the uThreads that were scheduled, in the order in which they were;
-- and what each kThread has run, followed by its local queue, is what it has moved from the run queue.
pub scheduled-in_order :
    (late : Bool) (h : History) (s : System)
    → Run late h s
    → (h.moved ++ s.scheduler.queue ≡ h.pushed)
      × ((k : ℕ) → h.ran_by k ++ s.scheduler.lrq k ≡ h.moved_by k)
unfolding no_history new_system new_scheduler add_event
scheduled-in_order late h s start = (refl, λ k. refl)
scheduled-in_order late h s' (next {h = h0} {s = s} e c run en eq) =
    let (all, own) = scheduled-in_order late h0 s run in
    let f = Ensures-some (CallFollows s) (run_call c s) (e, s') (run_call-Follows c s) eq in
    (simp (append_laws, f.front, ← all) refl, λ k. own-next h0 s.scheduler s'.scheduler e f own k)
