-- ===== src/Scheduler01/Spin.antt =====
-- src/runtime/schedulers/Scheduler_01.h: the exponential spin of `__spinLock`.
use u_threads.Base.{
  ℕ, zero, suc, ◌+◌, ◌*◌, ◌<◌, ◌≤◌, ◌≡◌, refl, inl, inr, Bool, true, false, Bool-cases, Option,
  none, some, ltb, if◌then◌else◌, arith,
}

abbrev spin_start : ℕ
spin_start = 4

abbrev spin_end : ℕ
spin_end = 4 * 1024

-- Whether `lock` was called in the end, and how often `try_lock` and `pause` were.
pub record Spun : Type 0 where
  pub blocked : Bool
  pub tries : ℕ
  pub pauses : ℕ

-- The loop, with the result of each `try_lock`. None is a loop that goes on for too long.
unfoldable pub spin_loop : ℕ → (ℕ → Bool) → ℕ → ℕ → ℕ → Option Spun
spin_loop zero try_lock tries pauses spin = none
spin_loop (suc fuel) try_lock tries pauses spin =
    let rest = spin_loop fuel try_lock (tries + 1) (pauses + spin) (spin + spin) in
    if try_lock tries
    then some (record { blocked = false; tries = tries + 1; pauses = pauses })
    else if ltb spin_end (spin + spin)
    then some (record { blocked = true; tries = tries + 1; pauses = pauses + spin })
    else rest

unfoldable pub spin_lock : ℕ → (ℕ → Bool) → Option Spun
unfolding spin_loop
spin_lock fuel try_lock = spin_loop fuel try_lock 0 0 spin_start

doubled : ℕ → ℕ → ℕ
doubled zero spin = spin
doubled (suc n) spin = doubled n (spin + spin)

-- The pauses are what the spin has grown by, and without `lock` the last `try_lock` got the mutex.
pub record Bounded (try_lock : ℕ → Bool) (fuel tries pauses spin : ℕ) (r : Spun) : Type 0 where
  pub at_most : r.tries ≤ tries + fuel
  pub paused : r.pauses + spin ≤ pauses + 2 * spin_end
  pub got : r.blocked ≡ false → (i : ℕ) × (r.tries ≡ i + 1) × (try_lock i ≡ true)

spin_loop-Bounded :
    (fuel : ℕ) (try_lock : ℕ → Bool) (tries pauses spin : ℕ)
    → spin ≤ spin_end
    → spin_end < doubled fuel spin
    → (r : Spun) × (spin_loop fuel try_lock tries pauses spin ≡ some r)
      × Bounded try_lock fuel tries pauses spin r
unfolding spin_loop doubled
spin_loop-Bounded zero try_lock tries pauses spin le lt = absurd (omega arith)
spin_loop-Bounded (suc fuel) try_lock tries pauses spin le lt = elim (Bool-cases (try_lock tries)) [
  | inl t ↦ (
    record { blocked = false; tries = tries + 1; pauses = pauses },
    rw t refl,
    record { at_most = omega arith; paused = omega arith; got = λ f. (tries, refl, t) },
  )
  | inr f ↦ elim (Bool-cases (ltb spin_end (spin + spin))) [
    | inl m ↦ (
      record { blocked = true; tries = tries + 1; pauses = pauses + spin },
      rw (f, m) refl,
      record { at_most = omega arith; paused = omega arith; got = λ b. ground arith },
    )
    | inr m ↦
        let (r, e, b) =
          spin_loop-Bounded fuel try_lock (tries + 1) (pauses + spin) (spin + spin) (ground arith)
            lt in
        (
          r,
          rw (f, m) e,
          record {
            at_most = omega (arith, b.at_most);
            paused = omega (arith, b.paused);
            got = b.got;
          },
        )
  ]
]

-- `__spinLock` gets the mutex after at most 11 calls of `try_lock` and fewer than 8192 pauses,
-- whatever these calls return: if it does not block in `lock`, its last `try_lock` got the mutex.
pub spin_lock-bounded :
    (try_lock : ℕ → Bool)
    → (r : Spun) × (spin_lock 11 try_lock ≡ some r)
      × (r.tries ≤ 11)
      × (r.pauses < 8192)
      × (r.blocked ≡ false → (i : ℕ) × (r.tries ≡ i + 1) × (try_lock i ≡ true))
unfolding spin_lock doubled
spin_lock-bounded try_lock =
    let (r, e, b) = spin_loop-Bounded 11 try_lock 0 0 spin_start (omega arith) (omega arith) in
    (r, e, b.at_most, omega (arith, b.paused), b.got)
