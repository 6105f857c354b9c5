-- ===== src/Runtime/Places/Moves.antt =====
-- A uThread that moves from one place to another leaves every other one in its place.
use u_threads.Base.{
  ℕ, ◌≡◌, ◌≢◌, ◌⊎◌, Bool, true, false, List, [], ◌∷◌, ◌++◌, ◌==◌, if◌then◌else◌, update, has-append,
  Distinct, Distinct-snoc, arith,
}
use u_threads.UThread.{UThread, waiting, reset}
use u_threads.Runtime.{
  Runtime, switching, landing, is_landing, resume, set_phase, destroy, home_of, resumable,
}
use u_threads.Runtime.Steps.{Runs}
use u_threads.Runtime.Places.{
  Place, nowhere, fresh_at, cached_at, parked_at, queued_at, current_at, is_leaving, Placed,
}

pub depart-Placed :
    (k : ℕ) (u : UThread) (s : Runtime) (place : ℕ → Place)
    → Runs k s
    → is_leaving u.state ≡ true
    → Placed place s
    → Placed place (set_phase k switching (record s { uts = update s.uts (s.kts k).current_ut u }))
depart-Placed k u s place r ok i =
    let here = i.current k in
    record {
      queued = λ j p h. ground (arith, i.queued j p, here);
      once = i.once;
      parked = λ p h. ground (arith, i.parked p, here);
      cached = λ p h. ground (arith, i.cached p, here);
      fresh = λ p h. ground (arith, i.fresh p, here);
      unused = i.unused;
      main = λ j. ground (arith, i.main j);
      current = λ j a n. ground (arith, i.current j);
      up = λ j a e n. ground (arith, i.up j, i.current j, here);
      leaving = λ j a e. ground (arith, i.leaving j, i.current j, here);
      left = λ j n a e ne. ground (arith, i.left j n, i.current j, here);
      next = λ j n e. ground (arith, i.next j n, here);
      arriving = λ j n e. ground (arith, i.arriving j n, here);
    }

pub Distinct-if :
    (b : Bool) (xs ys : List ℕ) → Distinct xs → Distinct ys → Distinct (if b then xs else ys)
Distinct-if true xs ys dx dy = dx
Distinct-if false xs ys dx dy = dy

-- `p` is about to be resumed: whoever held it has let go of it.
abbrev pub Released : (ℕ → Place) → ℕ → Runtime → Type 0
Released place p s =
    ((place p ≡ parked_at) × (s.parked p ≡ false))
    ⊎ ((place p ≡ fresh_at) × (s.fresh p ≡ false))
    ⊎ ((k : ℕ) × (place p ≡ current_at k) × (is_landing (s.kts k).phase ≡ true))

pub resume-Placed :
    (choice p : ℕ) (s : Runtime) (place : ℕ → Place)
    → Released place p s
    → resumable (s.uts p).state ≡ true
    → Placed place s
    → Placed (update place p (queued_at (home_of choice (s.uts p)))) (resume choice p s)
unfolding resume
resume-Placed choice p s place r ok i = rw ok (record {
  queued = λ j q h. ground (arith, i.queued j q, has-append q (s.ready_queue j) (p ∷ []));
  once = λ j.
      Distinct-if (j == home_of choice (s.uts p))
        (s.ready_queue (home_of choice (s.uts p)) ++ p ∷ []) (s.ready_queue j)
        (Distinct-snoc p (s.ready_queue (home_of choice (s.uts p)))
          (ground (arith, i.queued (home_of choice (s.uts p)) p))
          (i.once (home_of choice (s.uts p))))
        (i.once j);
  parked = λ q h. ground (arith, i.parked q);
  cached = λ q h. ground (arith, i.cached q);
  fresh = λ q h. ground (arith, i.fresh q);
  unused = λ q h. ground (arith, i.unused q);
  main = λ j. ground (arith, i.main j);
  current = λ j a n. ground (arith, i.current j);
  up = λ j a e n. ground (arith, i.up j, i.current j);
  leaving = λ j a e. ground (arith, i.leaving j, i.current j);
  left = λ j n a e ne. ground (arith, i.left j n, i.current j);
  next = λ j n e. ground (arith, i.next j n);
  arriving = λ j n e. ground (arith, i.arriving j n);
})

-- The uThread that a kThread leaves suspended goes to its `postSuspendFunc`.
pub park-Placed :
    (k n : ℕ) (s : Runtime) (place : ℕ → Place)
    → (s.kts k).phase ≡ landing n
    → place (s.kts k).current_ut ≡ current_at k
    → (s.kts k).current_ut ≢ (s.kts k).main_ut
    → (s.uts (s.kts k).current_ut).state ≡ waiting
    → Placed place s
    → Placed
        (update place (s.kts k).current_ut parked_at)
        (record s { parked = update s.parked (s.kts k).current_ut true })
park-Placed k n s place ph here ne st i = record {
  queued = λ j q h. ground (arith, i.queued j q, here);
  once = i.once;
  parked = λ q h. ground (arith, i.parked q, here);
  cached = λ q h. ground (arith, i.cached q, here);
  fresh = λ q h. ground (arith, i.fresh q, here);
  unused = λ q h. ground (arith, i.unused q, here);
  main = λ j. ground (arith, i.main j, here);
  current = λ j a m. ground (arith, i.current j, here);
  up = λ j a e m. ground (arith, i.up j, i.current j, here);
  leaving = λ j a e. ground (arith, i.leaving j);
  left = λ j m a e me. ground (arith, i.left j m, i.current j, here);
  next = λ j m e. ground (arith, i.next j m, here);
  arriving = λ j m e. ground (arith, i.arriving j m, here);
}

pub destroy-Placed :
    (is_cached : Bool) (k n : ℕ) (s : Runtime) (place : ℕ → Place)
    → (s.kts k).phase ≡ landing n
    → place (s.kts k).current_ut ≡ current_at k
    → (s.kts k).current_ut ≢ (s.kts k).main_ut
    → Placed place s
    → Placed
        (update place (s.kts k).current_ut (if is_cached then cached_at else nowhere))
        (destroy is_cached (s.kts k).current_ut s)
unfolding destroy reset
destroy-Placed true k n s place ph here ne i = record {
  queued = λ j q h. ground (arith, i.queued j q, here);
  once = i.once;
  parked = λ q h. ground (arith, i.parked q, here);
  cached = λ q h. ground (arith, i.cached q, here);
  fresh = λ q h. ground (arith, i.fresh q, here);
  unused = λ q h. ground (arith, i.unused q, here);
  main = λ j. ground (arith, i.main j, here);
  current = λ j a m. ground (arith, i.current j, here);
  up = λ j a e m. ground (arith, i.up j, i.current j, here);
  leaving = λ j a e. ground (arith, i.leaving j, i.current j, here);
  left = λ j m a e me. ground (arith, i.left j m, i.current j, here);
  next = λ j m e. ground (arith, i.next j m, here);
  arriving = λ j m e. ground (arith, i.arriving j m, here);
}
destroy-Placed false k n s place ph here ne i = record {
  queued = λ j q h. ground (arith, i.queued j q, here);
  once = i.once;
  parked = λ q h. ground (arith, i.parked q, here);
  cached = λ q h. ground (arith, i.cached q, here);
  fresh = λ q h. ground (arith, i.fresh q, here);
  unused = λ q h. ground (arith, i.unused q, here);
  main = λ j. ground (arith, i.main j, here);
  current = λ j a m. ground (arith, i.current j, here);
  up = λ j a e m. ground (arith, i.up j, i.current j, here);
  leaving = λ j a e. ground (arith, i.leaving j);
  left = λ j m a e me. ground (arith, i.left j m, i.current j, here);
  next = λ j m e. ground (arith, i.next j m, here);
  arriving = λ j m e. ground (arith, i.arriving j m, here);
}
