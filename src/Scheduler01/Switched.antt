-- ===== src/Scheduler01/Switched.antt =====
-- src/runtime/schedulers/Scheduler_01.h: `nonBlockingSwitch` does not fail, and leaves the stack alone.
use u_threads.Base.{
  ℕ, zero, suc, ◌<◌, ◌≡◌, ◌≢◌, refl, inl, inr, Bool, true, false, Bool-cases, List, [], ◌∷◌, some,
  ◌>>=◌, ◌==◌, arith, Succeeds,
}
use u_threads.Scheduler01.{Scheduler, move_share, remove_many, try_pop_many}
use u_threads.Scheduler01.Switch.{
  Next, take_from, take_local, is_empty, after_try, non_blocking_switch,
}
use u_threads.Scheduler01.Share.{move_share-Share}
use u_threads.Scheduler01.Stack.{Core, move_share-Core}
use u_threads.Scheduler01.Popping.{move_share-others, length-pos}

-- A switch that does not wait leaves the stack alone.
pub record Switched (k : ℕ) (s s' : Scheduler) : Type 0 where
  pub core : Core s'
  pub fewer : s'.size ≢ 0 → s.size ≢ 0
  pub stack : s'.kt_stack ≡ s.kt_stack
  pub states : s'.kt_state ≡ s.kt_state
  pub others : (j : ℕ) → (j == k) ≡ false → s'.lrq j ≡ s.lrq j

abbrev pub HasSwitched : ℕ → Scheduler → Next × Scheduler → Type 0
HasSwitched k s (r, s') = Switched k s s'

pub take_from-Switched :
    (uts : List ℕ) (k : ℕ) (s t : Scheduler)
    → uts ≢ []
    → Switched k s t
    → Succeeds (HasSwitched k s) (take_from uts k t)
unfolding take_from
take_from-Switched [] k s t ne w = absurd (ne refl)
take_from-Switched (ut ∷ uts) k s t ne w = record {
  core = record {
    counts = w.core.counts;
    distinct = w.core.distinct;
    on_stack = w.core.on_stack;
    flagged = w.core.flagged;
  };
  fewer = w.fewer;
  stack = w.stack;
  states = w.states;
  others = λ j o. rw o (w.others j o);
}

pub same-Switched : (k : ℕ) (s : Scheduler) → Core s → Switched k s s
same-Switched k s i = record {
  core = i;
  fewer = λ ne. ne;
  stack = refl;
  states = refl;
  others = λ j o. refl;
}

move_share-Switched :
    (numkt k : ℕ) (s : Scheduler) → s.size ≢ 0 → Core s → Switched k s (move_share numkt k s).1
unfolding move_share
move_share-Switched numkt k s ne i = record {
  core = move_share-Core numkt k s i;
  fewer = λ e. ne;
  stack = refl;
  states = refl;
  others = λ j o. move_share-others numkt k j s o;
}

after_try-Switched :
    (is_yield : Bool) (k : ℕ) (s : Scheduler) (n : ℕ) (t : Scheduler)
    → 0 < n
    → t.lrq k ≢ []
    → Switched k s t
    → Succeeds (HasSwitched k s) (after_try is_yield k (some n, t))
unfolding after_try take_local
after_try-Switched is_yield k s zero t pos ne w = absurd (omega arith)
after_try-Switched is_yield k s (suc n) t pos ne w = take_from-Switched (t.lrq k) k s t ne w

empty-Switched :
    (owns_lock : Bool) (numkt : ℕ) (is_yield : Bool) (k : ℕ) (s : Scheduler)
    → 0 < numkt
    → Core s
    → Succeeds
        (HasSwitched k s)
        (try_pop_many owns_lock numkt k s >>= (λ r. after_try is_yield k r))
unfolding after_try try_pop_many remove_many
empty-Switched false numkt is_yield k s some_kt i = same-Switched k s i
empty-Switched true numkt is_yield k s some_kt i = elim (Bool-cases (s.size == 0)) [
  | inl z ↦ rw z (same-Switched k s i)
  | inr z ↦
      let (share, c, l, a, len) = move_share-Share numkt k s i.counts (ground arith) in
      let (n, t) = move_share numkt k s in
      let divides : (numkt == 0) ≡ false = ground (arith, some_kt) in
      rw (z, divides)
        (after_try-Switched is_yield k s n t share.some_work
          (length-pos _ (omega (arith, len, share.some_work)))
          (move_share-Switched numkt k s (λ e. absurd (ground arith)) i))
]

is_empty-nil : (xs : List ℕ) → is_empty xs ≡ false → xs ≢ []
unfolding is_empty
is_empty-nil [] h e = absurd (ground arith)
is_empty-nil (x ∷ xs) h e = absurd (ground arith)

pub non_blocking_switch-Switched :
    (owns_lock : Bool) (numkt : ℕ) (is_yield : Bool) (k : ℕ) (s : Scheduler)
    → 0 < numkt
    → Core s
    → Succeeds (HasSwitched k s) (non_blocking_switch owns_lock numkt is_yield k s)
unfolding non_blocking_switch take_local
non_blocking_switch-Switched owns_lock numkt is_yield k s some_kt i =
    elim (Bool-cases (is_empty (s.lrq k))) [
      | inl z ↦ rw z (empty-Switched owns_lock numkt is_yield k s some_kt i)
      | inr z ↦
          rw z (take_from-Switched (s.lrq k) k s s (is_empty-nil (s.lrq k) z) (same-Switched k s i))
    ]
