-- ===== src/Runtime/Tests.antt =====
-- One uThread at the address 64 that is created, started on the kThread 3, run, and suspended. The
-- main uThread of the kThread `k` is at `k + 1000`; the kThread 0 is the default one, and `initUT` is at
-- 500.
use u_threads.Base.{
  Bool, ◌==◌, ℕ, ◌+◌, ◌-◌, ◌≡◌, refl, true, false, [], ◌∷◌, ◌++◌, Option, none, some, ltb,
  if◌then◌else◌, has, Distinct, arith,
}
use u_threads.UThread.{ready, running, new_uthread}
use u_threads.Runtime.{
  Runtime, runs, switched, create_new, start, default_run, post_leave, post_arrive, is_landing,
  suspend, switch_context, unpark, yield, resume, home_of,
}
use u_threads.Runtime.Steps.{
  Reach, Initial, at_first, step, yields, resumes, creates, starts, waits, leaves, lands, suspends,
  switches,
}
use u_threads.Runtime.Invariant.{one_kthread, queued_once, unpark-schedules}
use u_threads.Runtime.RoundRobin.{yield_to, yield-round_robin, yield_alone-resumes}

abbrev main_of : ℕ → Option ℕ
main_of p = if ltb p 1000 then none else some (p - 1000)

abbrev s0 : Runtime
s0 = record {
  uts = λ p. new_uthread p 0 0 0;
  kts = λ k. record {
    local_cluster = 1;
    current_ut = if k == 0 then 500 else k + 1000;
    main_ut = k + 1000;
    phase = runs;
  };
  ready_queue = λ k. [];
  parked = λ p. false;
  cached = λ p. false;
  fresh = λ p. false;
  allocated = λ p. if ltb p 1000 then p == 500 else true;
  total = 0;
  master_id = 0;
}

s0-Initial : Initial main_of 0 s0
unfolding new_uthread
s0-Initial = record {
  main = λ k. ground arith;
  current = λ k ne. let other : (k == 0) ≡ false = ground arith in rw other refl;
  init_ut = refl;
  init_state = refl;
  init_allocated = refl;
  phase = λ k. refl;
  queue = λ k. refl;
  parked = λ p. refl;
  cached = λ p. refl;
  fresh = λ p. refl;
  allocated = λ p k e. ground arith;
}

abbrev s1 : Runtime
s1 = create_new false 16 48 32 s0

abbrev s2 : Runtime
s2 = start 1 3 64 s1

abbrev s3 : Runtime
s3 = default_run 3 s2

abbrev s4 : Runtime
s4 = post_arrive 64 3 (post_leave true 3 64 3 s3)

abbrev s5 : Runtime
s5 = suspend 3 s4

abbrev s6 : Runtime
s6 = switch_context 3 s5

abbrev s7 : Runtime
s7 = post_arrive 1003 3 (post_leave true 3 1003 3 s6)

s2-Reach : (stray : Bool) → Reach stray main_of s2
unfolding create_new start resume
s2-Reach stray =
    step s1 s2 (step s0 s1 (at_first 0 s0 s0-Initial) (creates false 16 48 32 s0 refl))
      (starts 1 3 64 s1 refl)

s4-Reach : (stray : Bool) → Reach stray main_of s4
unfolding create_new start resume default_run post_leave post_arrive new_uthread
s4-Reach stray =
    step (post_leave true 3 64 3 s3) s4
      (step s3 (post_leave true 3 64 3 s3) (step s2 s3 (s2-Reach stray) (waits 3 s2 refl refl))
        (leaves true 3 64 3 s3 refl))
      (lands 64 3 (post_leave true 3 64 3 s3) refl)

s7-Reach : Reach false main_of s7
unfolding create_new start resume default_run post_leave post_arrive suspend switch_context
    new_uthread
s7-Reach =
    step (post_leave true 3 1003 3 s6) s7
      (step s6 (post_leave true 3 1003 3 s6)
        (step s5 s6 (step s4 s5 (s4-Reach false) (suspends 3 s4 (refl, ground arith)))
          (switches 3 s5 refl))
        (leaves true 3 1003 3 s6 refl))
      (lands 1003 3 (post_leave true 3 1003 3 s6) refl)

-- A stray `resume` of 64, which has yielded with nobody else to run, puts it in a run queue while its
-- kThread runs it.
abbrev lone : Runtime
lone = switch_context 3 (yield 3 s4)

abbrev astray : Runtime
astray = resume 3 64 lone

astray-Reach : Reach true main_of astray
unfolding create_new start resume default_run post_leave post_arrive yield switch_context
    new_uthread
astray-Reach =
    step lone astray
      (step (yield 3 s4) lone
        (step s4 (yield 3 s4) (s4-Reach true) (yields 3 s4 (refl, ground arith)))
        (switches 3 (yield 3 s4) refl))
      (resumes 3 64 lone (λ e. ground arith))

queued_and_current :
    (has 64 (astray.ready_queue 3) ≡ true)
    × ((astray.kts 3).current_ut ≡ 64)
    × (is_landing (astray.kts 3).phase ≡ false)
unfolding create_new start resume default_run post_leave post_arrive yield switch_context
    new_uthread
queued_and_current = (refl, refl, refl)

abbrev third : ℕ
third = 3

one_kthread_example : third ≡ third
unfolding create_new start resume default_run post_leave post_arrive new_uthread
one_kthread_example = one_kthread main_of s4 third third (s4-Reach false) refl refl refl

in_queue : has 64 (s2.ready_queue 3) ≡ true
unfolding create_new start resume new_uthread
in_queue = refl

queued_once_example :
    ((s2.uts 64).state ≡ ready)
    × Distinct (s2.ready_queue 3)
    × ((j : ℕ) → has 64 (s2.ready_queue j) ≡ true → j ≡ 3)
    × ((j : ℕ) → (s2.kts j).current_ut ≡ 64 → is_landing (s2.kts j).phase ≡ true)
    × (s2.parked 64 ≡ false)
queued_once_example = queued_once main_of s2 3 64 (s2-Reach false) in_queue

is_parked : s7.parked 64 ≡ true
unfolding create_new start resume default_run post_leave post_arrive suspend switch_context
    new_uthread
is_parked = refl

unpark-schedules_example :
    ((unpark 3 64 s7).ready_queue (home_of 3 (s7.uts 64))
      ≡ s7.ready_queue (home_of 3 (s7.uts 64)) ++ 64 ∷ [])
    × (((unpark 3 64 s7).uts 64).state ≡ ready)
unpark-schedules_example = unpark-schedules main_of s7 3 64 s7-Reach is_parked

-- On the kThread 3 runs 64, which lives there, and 72 waits.
abbrev two : Runtime
two = record s0 {
  uts = λ p. record (new_uthread p 0 0 0) { home_kthread = 3; state = running };
  kts = λ k. record { local_cluster = 1; current_ut = 64; main_ut = 1003; phase = runs };
  ready_queue = λ k. 72 ∷ [];
}

abbrev alone : Runtime
alone = record two { ready_queue = λ k. [] }

home : home_of 3 (two.uts 64) ≡ 3
unfolding new_uthread
home = refl

yield-round_robin_example :
    (((switch_context 3 (yield 3 two)).kts 3).phase ≡ switched 72)
    × (((yield_to true 3 72 3 two).kts 3).current_ut ≡ 72)
    × (((yield_to true 3 72 3 two).uts 72).state ≡ running)
    × ((yield_to true 3 72 3 two).ready_queue 3 ≡ 64 ∷ [])
    × (((yield_to true 3 72 3 two).uts 64).state ≡ ready)
yield-round_robin_example =
    yield-round_robin true 3 3 72 [] two refl (omega arith) home (omega arith)

yield_alone-resumes_example :
    (((switch_context 3 (yield 3 alone)).kts 3).phase ≡ runs)
    × (((switch_context 3 (yield 3 alone)).kts 3).current_ut ≡ 64)
    × ((resume 3 64 (switch_context 3 (yield 3 alone))).ready_queue (home_of 3 (alone.uts 64))
        ≡ (switch_context 3 (yield 3 alone)).ready_queue (home_of 3 (alone.uts 64)) ++ 64 ∷ [])
yield_alone-resumes_example = yield_alone-resumes 3 3 alone refl
