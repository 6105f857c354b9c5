-- ===== src/Runtime/Invariant.antt =====
-- Every uThread is in one place only: in one run queue, once, or parked, cached, not started yet, or
-- on one kThread.
use u_threads.Base.{
  sym, ap, ◌∙◌, if◌then◌else◌, ℕ, ◌+◌, ◌-◌, ◌≡◌, ◌≢◌, refl, inl, inr, true, false, Option, none,
  some, [], ◌∷◌, ◌++◌, ◌==◌, update, has, Distinct, Bool-cases, Option-cases, arith,
}
use u_threads.UThread.{initialized, ready, yielding, migrating, waiting, terminated}
use u_threads.Runtime.{
  Runtime, is_landing, resume, yield, migrate, suspend, terminate, unpark, home_of,
}
use u_threads.Runtime.Steps.{Step, Reach, Initial}
use u_threads.Runtime.Places.Moves.{depart-Placed}
use u_threads.Runtime.Places.Switch.{switch_context-Placed, default_run-Placed, post_arrive-Placed}
use u_threads.Runtime.Places.Create.{create_cached-Placed, create_new-Placed}
use u_threads.Runtime.Places.{Place, nowhere, fresh_at, current_at, main_at, Placed}
use u_threads.Runtime.Places.Resume.{post_leave-Placed, unpark-Placed, start-Placed}

Step-Placed :
    (s s' : Runtime) (place : ℕ → Place)
    → Step false s s'
    → Placed place s
    → (place' : ℕ → Place) × Placed place' s'
unfolding yield migrate suspend terminate resume
Step-Placed _ _ place (Step.yields k s r) i = (
  place,
  depart-Placed k (record (s.uts (s.kts k).current_ut) { state = yielding }) s place r refl i,
)
Step-Placed _ _ place (Step.migrates cluster choice k s r) i =
    elim (Bool-cases ((s.kts k).local_cluster == cluster)) [
      | inl e ↦ (place, rw e i)
      | inr e ↦ (
        place,
        rw e (
            depart-Placed k
              (record (s.uts (s.kts k).current_ut) {
                current_cluster = cluster;
                home_kthread = choice;
                state = migrating;
              })
              s place r refl i),
      )
    ]
Step-Placed _ _ place (Step.suspends k s r) i = (
  place,
  depart-Placed k (record (s.uts (s.kts k).current_ut) { state = waiting }) s place r refl i,
)
Step-Placed _ _ place (Step.terminates k s r) i = (
  place,
  depart-Placed k (record (s.uts (s.kts k).current_ut) { state = terminated }) s place r refl i,
)
Step-Placed _ _ place (Step.switches k s e) i = switch_context-Placed k s place e i
Step-Placed _ _ place (Step.waits k s e m) i = default_run-Placed k s place e m i
Step-Placed _ _ place (Step.leaves is_cached choice n k s e) i =
    post_leave-Placed is_cached choice n k s place e i
Step-Placed _ _ place (Step.lands n k s e) i = (
  if n == (s.kts k).main_ut then place else update place n (current_at k),
  post_arrive-Placed n k s place e i,
)
Step-Placed _ _ place (Step.resumes choice p s ok) i = (place, rw (ok refl) i)
Step-Placed _ _ place (Step.unparks choice p s e) i = unpark-Placed choice p s place e i
Step-Placed _ _ place (Step.starts cluster choice p s e) i =
    start-Placed cluster choice p s place e i
Step-Placed _ _ place (Step.reuses is_joinable p s e) i =
    (update place p fresh_at, create_cached-Placed is_joinable p s place e i)
Step-Placed _ _ place (Step.creates is_joinable size_of stack_size mem s e) i = (
  update place (mem + stack_size - size_of) fresh_at,
  create_new-Placed is_joinable size_of stack_size mem s place e i,
)

abbrev first_place : Option ℕ → Place
first_place none = nowhere
first_place (some k) = main_at k

abbrev place_at_first : (ℕ → Option ℕ) → ℕ → Runtime → ℕ → Place
place_at_first main_of default s p =
    if p == (s.kts default).current_ut then current_at default else first_place (main_of p)

unused_first :
    (main_of : ℕ → Option ℕ) (default : ℕ) (s : Runtime)
    → Initial main_of default s
    → (q : ℕ) → s.allocated q ≡ false
    → place_at_first main_of default s q ≡ nowhere
unused_first main_of default s z q h =
    let other : (q == (s.kts default).current_ut) ≡ false =
      elim (Bool-cases (q == (s.kts default).current_ut)) [
        | inl t ↦
            let same : q ≡ (s.kts default).current_ut = ground arith in
            absurd (ground (arith, sym (ap s.allocated same ∙ z.init_allocated) ∙ h))
        | inr t ↦ t
      ] in
    elim (Option-cases (main_of q)) [
      | inl e ↦ rw (other, e) refl
      | inr (k, e) ↦ let used = z.allocated q k e in ground arith
    ]

main-place :
    (main_of : ℕ → Option ℕ) (default : ℕ) (s : Runtime)
    → Initial main_of default s
    → (k : ℕ) → place_at_first main_of default s (s.kts k).main_ut ≡ main_at k
main-place main_of default s z k =
    elim (Bool-cases ((s.kts k).main_ut == (s.kts default).current_ut)) [
      | inl t ↦
          let same : (s.kts k).main_ut ≡ (s.kts default).current_ut = ground arith in
          absurd (ground (arith, sym (z.main k) ∙ (ap main_of same ∙ z.init_ut)))
      | inr t ↦ rw (t, z.main k) refl
    ]

current-place :
    (main_of : ℕ → Option ℕ) (default : ℕ) (s : Runtime)
    → Initial main_of default s
    → (k : ℕ) → (s.kts k).current_ut ≢ (s.kts k).main_ut
    → (k ≡ default)
      × (place_at_first main_of default s (s.kts k).current_ut ≡ current_at k)
      × ((s.uts (s.kts k).current_ut).state ≡ initialized)
current-place main_of default s z k ne = elim (Bool-cases (k == default)) [
  | inl t ↦
      let same : k ≡ default = ground arith in
      let itself : ((s.kts default).current_ut == (s.kts default).current_ut) ≡ true =
        ground arith in
      (
        same,
        rw (same, itself) refl,
        ap (λ j. (s.uts (s.kts j).current_ut).state) same ∙ z.init_state,
      )
  | inr t ↦ absurd (ne (z.current k (ground arith)))
]

Initial-Placed :
    (main_of : ℕ → Option ℕ) (default : ℕ) (s : Runtime)
    → Initial main_of default s
    → Placed (place_at_first main_of default s) s
Initial-Placed main_of default s z = record {
  queued =
      λ j q h. let nobody : has q (s.ready_queue j) ≡ false = rw (z.queue j) refl in ground arith;
  once = λ j. rw (z.queue j) tt;
  parked = λ q h. ground (arith, z.parked q);
  cached = λ q h. ground (arith, z.cached q);
  fresh = λ q h. ground (arith, z.fresh q);
  unused = unused_first main_of default s z;
  main = main-place main_of default s z;
  current = λ j a m. (current-place main_of default s z j m).1;
  up = λ j a e m. rw (current-place main_of default s z j m).2 refl;
  leaving = λ j a e. ground (arith, z.phase j);
  left = λ j m a e me. ground (arith, z.phase j);
  next = λ j m e. ground (arith, z.phase j);
  arriving = λ j m e. ground (arith, z.phase j);
}

Reach-Placed :
    (main_of : ℕ → Option ℕ) (s : Runtime)
    → Reach false main_of s
    → (place : ℕ → Place) × Placed place s
Reach-Placed main_of _ (Reach.at_first default s z) =
    (place_at_first main_of default s, Initial-Placed main_of default s z)
Reach-Placed main_of _ (Reach.step s s' r st) =
    let (place, i) = Reach-Placed main_of s r in Step-Placed s s' place st i

-- Without stray calls of `resume`, no uThread is the current one of two kThreads at once, once each is
-- behind the switch statement of `postSwitchFunc` with which it left another one.
pub one_kthread :
    (main_of : ℕ → Option ℕ) (s : Runtime) (j k : ℕ)
    → Reach false main_of s
    → is_landing (s.kts j).phase ≡ false
    → is_landing (s.kts k).phase ≡ false
    → (s.kts j).current_ut ≡ (s.kts k).current_ut
    → j ≡ k
one_kthread main_of s j k r lj lk e =
    let (place, i) = Reach-Placed main_of s r in
    ground (arith, i.current j, i.current k, i.main j, i.main k)

-- Without stray calls of `resume`, a uThread in a run queue is READY, stands there once, is in no other
-- run queue, is current only on a kThread that is about to leave it, at the end of `postSwitchFunc`, and
-- nobody holds it as parked.
pub queued_once :
    (main_of : ℕ → Option ℕ) (s : Runtime) (k p : ℕ)
    → Reach false main_of s
    → has p (s.ready_queue k) ≡ true
    → ((s.uts p).state ≡ ready)
      × Distinct (s.ready_queue k)
      × ((j : ℕ) → has p (s.ready_queue j) ≡ true → j ≡ k)
      × ((j : ℕ) → (s.kts j).current_ut ≡ p → is_landing (s.kts j).phase ≡ true)
      × (s.parked p ≡ false)
queued_once main_of s k p r h =
    let (place, i) = Reach-Placed main_of s r in
    let at = i.queued k p in
    (
      (at h).1,
      i.once k,
      λ j g. ground (arith, i.queued j p, at),
      λ j e. ground (arith, i.current j, i.main j, at),
      ground (arith, i.parked p, at),
    )

-- Without stray calls of `resume`, a waker's `resume` of a parked uThread is never dropped by the guard:
-- the uThread goes to the end of its home's run queue.
pub unpark-schedules :
    (main_of : ℕ → Option ℕ) (s : Runtime) (choice p : ℕ)
    → Reach false main_of s
    → s.parked p ≡ true
    → ((unpark choice p s).ready_queue (home_of choice (s.uts p))
        ≡ s.ready_queue (home_of choice (s.uts p)) ++ p ∷ [])
      × (((unpark choice p s).uts p).state ≡ ready)
unfolding unpark resume
unpark-schedules main_of s choice p r e =
    let (place, i) = Reach-Placed main_of s r in let st = (i.parked p e).1 in ground arith
