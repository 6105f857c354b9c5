-- ===== src/Runtime/Places/Switch.antt =====
-- A uThread that moves from one place to another leaves every other one in its place.
use u_threads.Base.{
  false, ℕ, ◌≡◌, ◌≢◌, refl, subst, ◌⊎◌, inl, inr, true, List, [], ◌∷◌, ◌==◌, if◌then◌else◌, update,
  Distinct, arith,
}
use u_threads.UThread.{State, initialized, ready, running, yielding, migrating, waiting, terminated}
use u_threads.Runtime.{
  Runtime, Phase, runs, switching, switched, landing, is_landing, post_arrive, switch_context,
  set_phase, default_run, choose, rest,
}
use u_threads.Runtime.Places.Moves.{Distinct-if}
use u_threads.Runtime.Places.{Place, current_at, next_at, is_up, Placed}

-- The end of `postSwitchFunc`.
pub post_arrive-Placed :
    (n k : ℕ) (s : Runtime) (place : ℕ → Place)
    → (s.kts k).phase ≡ landing n
    → Placed place s
    → Placed
        (if n == (s.kts k).main_ut then place else update place n (current_at k))
        (post_arrive n k s)
unfolding post_arrive
post_arrive-Placed n k s place ph i =
    let here = i.arriving k n in
    let mine = i.main k in
    record {
      queued = λ j q h. ground (arith, i.queued j q, here, mine);
      once = i.once;
      parked = λ q h. ground (arith, i.parked q, here, mine);
      cached = λ q h. ground (arith, i.cached q, here, mine);
      fresh = λ q h. ground (arith, i.fresh q, here, mine);
      unused = λ q h. ground (arith, i.unused q, here, mine);
      main = λ j. ground (arith, i.main j, here, mine);
      current = λ j a m. ground (arith, i.current j, here, mine);
      up = λ j a e m. ground (arith, i.up j, i.current j, here, mine);
      leaving = λ j a e. ground (arith, i.leaving j, i.current j, here, mine);
      left = λ j m a e me. ground (arith, i.left j m, i.current j, here, mine);
      next = λ j m e. ground (arith, i.next j m, here, mine);
      arriving = λ j m e. ground (arith, i.arriving j m, here, mine);
    }

rest-Distinct : (ps : List ℕ) → Distinct ps → Distinct (rest ps)
rest-Distinct [] d = d
rest-Distinct (p ∷ ps) d = d.1

-- Nothing is chosen: the run queues stay as they are.
quiet-Placed :
    (k : ℕ) (ph : Phase) (s : Runtime) (place : ℕ → Place)
    → s.ready_queue k ≡ []
    → (ph ≡ runs) ⊎ (ph ≡ switched (s.kts k).main_ut)
    → (ph ≡ runs
        → (s.kts k).current_ut ≢ (s.kts k).main_ut
        → is_up (s.uts (s.kts k).current_ut).state ≡ true)
    → (ph ≡ switched (s.kts k).main_ut → (s.kts k).phase ≡ switching)
    → is_landing (s.kts k).phase ≡ false
    → Placed place s
    → Placed place (set_phase k ph (record s { ready_queue = update s.ready_queue k [] }))
quiet-Placed k ph s place e p up sw here i = record {
  queued = λ j q h. ground (arith, i.queued j q, i.main k, up, sw, here);
  once = λ j. Distinct-if (j == k) [] (s.ready_queue j) tt (i.once j);
  parked = λ q h. ground (arith, i.parked q, i.main k, up, sw, here);
  cached = λ q h. ground (arith, i.cached q, i.main k, up, sw, here);
  fresh = λ q h. ground (arith, i.fresh q, i.main k, up, sw, here);
  unused = λ q h. ground (arith, i.unused q, i.main k, up, sw, here);
  main = λ j. ground (arith, i.main j, i.main k, up, sw, here);
  current = λ j a m. ground (arith, i.current j, i.main k, up, sw, here);
  up = λ j a e m. ground (arith, i.up j, i.current j, i.main k, up, sw, here);
  leaving = λ j a e. ground (arith, i.leaving j, i.current j, i.main k, up, sw, here);
  left = λ j m a e me. ground (arith, i.left j m, i.current j, i.leaving j, i.main k, up, sw, here);
  next = λ j m e. ground (arith, i.next j m, i.main k, up, sw, here);
  arriving = λ j m e. ground (arith, i.arriving j m, i.main k, up, sw, here);
}

-- The first uThread of the run queue is chosen.
chosen-Placed :
    (k p : ℕ) (ps : List ℕ) (s : Runtime) (place : ℕ → Place)
    → s.ready_queue k ≡ p ∷ ps
    → ((s.kts k).phase ≡ switching) ⊎ ((s.kts k).current_ut ≡ (s.kts k).main_ut)
    → Placed place s
    → Placed
        (update place p (next_at k))
        (set_phase k (switched p) (record s { ready_queue = update s.ready_queue k ps }))
chosen-Placed k p ps s place e ph i =
    let d : Distinct (p ∷ ps) = subst Distinct e (i.once k) in
    let first = i.queued k p (rw e (ground arith)) in
    record {
      queued = λ j q h. ground (arith, i.queued j q, i.queued k q, first, d.0, e);
      once = λ j. Distinct-if (j == k) ps (s.ready_queue j) d.1 (i.once j);
      parked = λ q h. ground (arith, i.parked q, i.main k, first);
      cached = λ q h. ground (arith, i.cached q, i.main k, first);
      fresh = λ q h. ground (arith, i.fresh q, i.main k, first);
      unused = λ q h. ground (arith, i.unused q, i.main k, first);
      main = λ j. ground (arith, i.main j, i.main k, first);
      current = λ j a m. ground (arith, i.current j, i.main k, first);
      up = λ j a e m. ground (arith, i.up j, i.current j, i.main k, first);
      leaving = λ j a e. ground (arith, i.leaving j, i.current j, i.main k, first);
      left = λ j m a e me. ground (arith, i.left j m, i.current j, i.leaving j, i.main k, first);
      next = λ j m e. ground (arith, i.next j m, i.main k, first);
      arriving = λ j m e. ground (arith, i.arriving j m, i.main k, first);
    }

List-cases : (ps : List ℕ) → (ps ≡ []) ⊎ ((p : ℕ) × (qs : List ℕ) × (ps ≡ p ∷ qs))
List-cases [] = inl refl
List-cases (p ∷ ps) = inr (p, ps, refl)

choose-nil :
    (main : ℕ) (st : State)
    → ((choose main st [] ≡ runs) × (st ≡ yielding)) ⊎ (choose main st [] ≡ switched main)
choose-nil main initialized = inr refl
choose-nil main ready = inr refl
choose-nil main running = inr refl
choose-nil main yielding = inl (refl, refl)
choose-nil main migrating = inr refl
choose-nil main waiting = inr refl
choose-nil main terminated = inr refl

choose-cons : (main p : ℕ) (ps : List ℕ) (st : State) → choose main st (p ∷ ps) ≡ switched p
choose-cons main p ps initialized = refl
choose-cons main p ps ready = refl
choose-cons main p ps running = refl
choose-cons main p ps yielding = refl
choose-cons main p ps migrating = refl
choose-cons main p ps waiting = refl
choose-cons main p ps terminated = refl

pub switch_context-Placed :
    (k : ℕ) (s : Runtime) (place : ℕ → Place)
    → (s.kts k).phase ≡ switching
    → Placed place s
    → (place' : ℕ → Place) × Placed place' (switch_context k s)
unfolding switch_context
switch_context-Placed k s place ph i =
    let main = (s.kts k).main_ut in
    let st = (s.uts (s.kts k).current_ut).state in
    elim (List-cases (s.ready_queue k)) [
      | inl e ↦ elim (choose-nil main st) [
        | inl (c, y) ↦ (
          place,
          rw (e, c)
              (quiet-Placed k runs s place e (inl refl) (λ u n. rw y refl) (λ q. ph) (rw ph refl)
                i),
        )
        | inr c ↦ (
          place,
          rw (e, c)
              (quiet-Placed k (switched main) s place e (inr refl) (λ u n. ground arith) (λ q. ph)
                (rw ph refl) i),
        )
      ]
      | inr (p, ps, e) ↦ (
        update place p (next_at k),
        rw (e, choose-cons main p ps st) (chosen-Placed k p ps s place e (inl ph) i),
      )
    ]

pub default_run-Placed :
    (k : ℕ) (s : Runtime) (place : ℕ → Place)
    → (s.kts k).phase ≡ runs
    → (s.kts k).current_ut ≡ (s.kts k).main_ut
    → Placed place s
    → (place' : ℕ → Place) × Placed place' (default_run k s)
unfolding default_run
default_run-Placed k s place ph m i = elim (List-cases (s.ready_queue k)) [
  | inl e ↦ (
    place,
    rw e (
        quiet-Placed k runs s place e (inl refl) (λ u n. ground arith) (λ q. ground arith)
          (rw ph refl) i),
  )
  | inr (p, ps, e) ↦ (update place p (next_at k), rw e (chosen-Placed k p ps s place e (inr m) i))
]
