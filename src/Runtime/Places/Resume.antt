-- ===== src/Runtime/Places/Resume.antt =====
-- `postSwitchFunc`, and the calls that resume a uThread, leave every uThread in one place.
use u_threads.Base.{
  subst, sym, ap, ◌∙◌, ℕ, ◌≡◌, ◌≢◌, refl, inl, inr, Bool, true, false, ◌==◌, if◌then◌else◌, update,
  Bool-cases, arith,
}
use u_threads.UThread.{State, initialized, ready, running, yielding, migrating, waiting, terminated}
use u_threads.Runtime.{
  Runtime, switched, landing, set_phase, start, post_leave, unpark, leave, home_of,
}
use u_threads.Runtime.Places.Moves.{resume-Placed, park-Placed, destroy-Placed}
use u_threads.Runtime.Places.{
  Place, nowhere, cached_at, parked_at, queued_at, current_at, is_leaving, Placed,
}

-- The switch statement of `postSwitchFunc`, by the state of the uThread that was left.
leave-Placed :
    (is_cached : Bool) (choice k n : ℕ) (st : State) (s : Runtime) (place : ℕ → Place)
    → (s.uts (s.kts k).current_ut).state ≡ st
    → is_leaving st ≡ true
    → (s.kts k).phase ≡ landing n
    → place (s.kts k).current_ut ≡ current_at k
    → (s.kts k).current_ut ≢ (s.kts k).main_ut
    → Placed place s
    → (place' : ℕ → Place) × Placed place' (leave is_cached choice (s.kts k).current_ut st s)
unfolding leave
leave-Placed is_cached choice k n terminated s place e ok ph here ne i = (
  update place (s.kts k).current_ut (if is_cached then cached_at else nowhere),
  destroy-Placed is_cached k n s place ph here ne i,
)
leave-Placed is_cached choice k n waiting s place e ok ph here ne i =
    (update place (s.kts k).current_ut parked_at, park-Placed k n s place ph here ne e i)
leave-Placed is_cached choice k n yielding s place e ok ph here ne i = (
  update place (s.kts k).current_ut (queued_at (home_of choice (s.uts (s.kts k).current_ut))),
  resume-Placed choice (s.kts k).current_ut s place (inr (inr (k, here, rw ph refl))) (rw e refl) i,
)
leave-Placed is_cached choice k n migrating s place e ok ph here ne i = (
  update place (s.kts k).current_ut (queued_at (home_of choice (s.uts (s.kts k).current_ut))),
  resume-Placed choice (s.kts k).current_ut s place (inr (inr (k, here, rw ph refl))) (rw e refl) i,
)
leave-Placed is_cached choice k n initialized s place e ok ph here ne i = ground arith
leave-Placed is_cached choice k n ready s place e ok ph here ne i = ground arith
leave-Placed is_cached choice k n running s place e ok ph here ne i = ground arith

landing-Placed :
    (k n : ℕ) (s : Runtime) (place : ℕ → Place)
    → (s.kts k).phase ≡ switched n
    → Placed place s
    → Placed place (set_phase k (landing n) s)
landing-Placed k n s place ph i = record {
  queued = i.queued;
  once = i.once;
  parked = i.parked;
  cached = i.cached;
  fresh = i.fresh;
  unused = i.unused;
  main = λ j. ground (arith, i.main j);
  current = λ j a m. ground (arith, i.current j);
  up = λ j a e m. ground (arith, i.up j);
  leaving = λ j a e. ground (arith, i.leaving j);
  left = λ j m a e me. ground (arith, i.left j m);
  next = λ j m e. ground (arith, i.next j m);
  arriving = λ j m e. ground (arith, i.next j m, i.arriving j m);
}

pub post_leave-Placed :
    (is_cached : Bool) (choice n k : ℕ) (s : Runtime) (place : ℕ → Place)
    → (s.kts k).phase ≡ switched n
    → Placed place s
    → (place' : ℕ → Place) × Placed place' (post_leave is_cached choice n k s)
unfolding post_leave
post_leave-Placed is_cached choice n k s place ph i =
    let i' = landing-Placed k n s place ph i in
    elim (Bool-cases ((s.kts k).current_ut == (s.kts k).main_ut)) [
      | inl e ↦ (place, rw e i')
      | inr e ↦
          let ne : (s.kts k).current_ut ≢ (s.kts k).main_ut = ground arith in
          let out = i.left k n (rw ph refl) ph ne in
          let here = i.current k (rw ph refl) ne in
          let s' = set_phase k (landing n) s in
          let st = (s.uts (s.kts k).current_ut).state in
          let same : (k == k) ≡ true = ground arith in
          let cur : (s'.kts k).current_ut ≡ (s.kts k).current_ut = rw same refl in
          let main : (s'.kts k).main_ut ≡ (s.kts k).main_ut = rw same refl in
          rw e (
            subst (λ p. (place' : ℕ → Place) × Placed place' (leave is_cached choice p st s')) cur
              (leave-Placed is_cached choice k n st s' place (ap (λ p. (s.uts p).state) cur) out
                (rw same refl) (ap place cur ∙ here) (λ z. ne (sym cur ∙ (z ∙ main))) i'))
    ]

pub unpark-Placed :
    (choice p : ℕ) (s : Runtime) (place : ℕ → Place)
    → s.parked p ≡ true
    → Placed place s
    → (place' : ℕ → Place) × Placed place' (unpark choice p s)
unfolding unpark
unpark-Placed choice p s place e i =
    let s' = record s { parked = update s.parked p false } in
    let i' : Placed place s' = record {
      queued = i.queued;
      once = i.once;
      parked = λ q h. ground (arith, i.parked q);
      cached = i.cached;
      fresh = i.fresh;
      unused = i.unused;
      main = i.main;
      current = i.current;
      up = i.up;
      leaving = i.leaving;
      left = i.left;
      next = i.next;
      arriving = i.arriving;
    } in
    (
      update place p (queued_at (home_of choice (s.uts p))),
      resume-Placed choice p s' place (inl ((i.parked p e).0, ground arith))
          (rw (i.parked p e).1 refl) i',
    )

pub start-Placed :
    (cluster choice p : ℕ) (s : Runtime) (place : ℕ → Place)
    → s.fresh p ≡ true
    → Placed place s
    → (place' : ℕ → Place) × Placed place' (start cluster choice p s)
unfolding start
start-Placed cluster choice p s place e i =
    let s' = record s {
      uts = update s.uts p (record (s.uts p) { current_cluster = cluster });
      fresh = update s.fresh p false;
    } in
    let i' : Placed place s' = record {
      queued = λ j q h. ground (arith, i.queued j q, i.fresh p);
      once = i.once;
      parked = λ q h. ground (arith, i.parked q, i.fresh p);
      cached = λ q h. ground (arith, i.cached q, i.fresh p);
      fresh = λ q h. ground (arith, i.fresh q, i.fresh p);
      unused = i.unused;
      main = i.main;
      current = i.current;
      up = λ j a e m. ground (arith, i.up j, i.fresh p);
      leaving = λ j a e. ground (arith, i.leaving j, i.fresh p);
      left = λ j m a e me. ground (arith, i.left j m, i.fresh p);
      next = λ j m e. ground (arith, i.next j m, i.fresh p);
      arriving = λ j m e. ground (arith, i.arriving j m, i.fresh p);
    } in
    (
      update place p (queued_at (home_of choice (s'.uts p))),
      resume-Placed choice p s' place (inr (inl ((i.fresh p e).0, ground arith)))
          (ground (arith, i.fresh p)) i',
    )
