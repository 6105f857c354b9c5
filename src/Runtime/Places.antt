-- ===== src/Runtime/Places.antt =====
-- Every uThread is in one place only: in one run queue, once, or parked, cached, not started yet, or
-- on one kThread.
pub mod Moves
pub mod Switch
pub mod Create
pub mod Resume
use u_threads.Base.{
  ℕ, zero, suc, ◌+◌, ◌-◌, ◌≡◌, ◌≢◌, refl, sym, ap, ◌⊎◌, inl, inr, Bool, true, false, ◌||◌, not,
  Option, none, some, List, [], ◌∷◌, ◌++◌, ◌==◌, if◌then◌else◌, update, has, has-append, Distinct,
  Distinct-snoc, Bool-cases, arith,
}
use u_threads.UThread.{
  UThread, State, initialized, ready, running, yielding, migrating, waiting, terminated, JState,
  joinable, reset, new_uthread,
}
use u_threads.Runtime.{
  Runtime, KThread, Phase, runs, switching, switched, landing, is_landing, resume, start, yield,
  migrate, suspend, terminate, switch_context, set_phase, default_run, post_switch, unpark,
  create_cached, create_new, leave, destroy, home_of, resumable, choose, rest, wait_next,
}
use u_threads.Runtime.Steps.{Step, Reach, Initial, Runs}

pub data Place : Type 0 where
  nowhere : Place
  fresh_at : Place
  cached_at : Place
  parked_at : Place
  queued_at : ℕ → Place
  current_at : ℕ → Place
  next_at : ℕ → Place
  main_at : ℕ → Place

abbrev pub is_up : State → Bool
is_up running = true
is_up yielding = true
is_up initialized = true
is_up ready = false
is_up migrating = false
is_up waiting = false
is_up terminated = false

abbrev pub is_leaving : State → Bool
is_leaving running = false
is_leaving yielding = true
is_leaving initialized = false
is_leaving ready = false
is_leaving migrating = true
is_leaving waiting = true
is_leaving terminated = true

-- The places of the uThreads of a runtime; the uThread that a kThread is about to leave, behind the
-- switch statement of `postSwitchFunc`, may be elsewhere already.
pub record Placed (place : ℕ → Place) (s : Runtime) : Type 0 where
  pub queued :
      (k p : ℕ)
      → has p (s.ready_queue k) ≡ true
      → (place p ≡ queued_at k) × ((s.uts p).state ≡ ready)
  pub once : (k : ℕ) → Distinct (s.ready_queue k)
  pub parked : (p : ℕ) → s.parked p ≡ true → (place p ≡ parked_at) × ((s.uts p).state ≡ waiting)
  pub cached : (p : ℕ) → s.cached p ≡ true → (place p ≡ cached_at) × ((s.uts p).state ≡ initialized)
  pub fresh : (p : ℕ) → s.fresh p ≡ true → (place p ≡ fresh_at) × ((s.uts p).state ≡ initialized)
  pub unused : (p : ℕ) → s.allocated p ≡ false → place p ≡ nowhere
  pub main : (k : ℕ) → place (s.kts k).main_ut ≡ main_at k
  pub current :
      (k : ℕ)
      → is_landing (s.kts k).phase ≡ false
      → (s.kts k).current_ut ≢ (s.kts k).main_ut
      → place (s.kts k).current_ut ≡ current_at k
  pub up :
      (k : ℕ)
      → is_landing (s.kts k).phase ≡ false
      → (s.kts k).phase ≡ runs
      → (s.kts k).current_ut ≢ (s.kts k).main_ut
      → is_up (s.uts (s.kts k).current_ut).state ≡ true
  pub leaving :
      (k : ℕ)
      → is_landing (s.kts k).phase ≡ false
      → (s.kts k).phase ≡ switching
      → ((s.kts k).current_ut ≢ (s.kts k).main_ut)
        × (is_leaving (s.uts (s.kts k).current_ut).state ≡ true)
  pub left :
      (k n : ℕ)
      → is_landing (s.kts k).phase ≡ false
      → (s.kts k).phase ≡ switched n
      → (s.kts k).current_ut ≢ (s.kts k).main_ut
      → is_leaving (s.uts (s.kts k).current_ut).state ≡ true
  pub next :
      (k n : ℕ)
      → (s.kts k).phase ≡ switched n
      → (n ≡ (s.kts k).main_ut) ⊎ ((place n ≡ next_at k) × ((s.uts n).state ≡ ready))
  pub arriving :
      (k n : ℕ)
      → (s.kts k).phase ≡ landing n
      → (n ≡ (s.kts k).main_ut) ⊎ ((place n ≡ next_at k) × ((s.uts n).state ≡ ready))
