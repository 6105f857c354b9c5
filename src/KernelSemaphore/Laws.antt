-- ===== src/KernelSemaphore/Laws.antt =====
-- src/generic/Semaphore.h: what the calls do to the count, however often they are tried again.
use u_threads.Base.{
  ℕ, zero, suc, ◌+◌, ◌≡◌, ◌≢◌, refl, List, [], ◌∷◌, ◌++◌, some, ◌>>=◌, if◌then◌else◌, Ensures,
  arith,
}
use u_threads.KernelSemaphore.{
  Result, done, interrupted, timed_out, failed, take_post, wait, timedwait, post,
}

-- Results of calls that are tried again by `wait` and `post`, and by `timedwait`.
abbrev pub AllFail : List Result → Type 0
AllFail [] = Unit {0}
AllFail (r ∷ rs) = (r ≢ done) × AllFail rs

post-done : (fs rs : List Result) (n : ℕ) → AllFail fs → post (fs ++ done ∷ rs) n ≡ some (n + 1, rs)
unfolding post
post-done [] rs n f = refl
post-done (done ∷ fs) rs n f = absurd (f.0 refl)
post-done (interrupted ∷ fs) rs n f = post-done fs rs n f.1
post-done (timed_out ∷ fs) rs n f = post-done fs rs n f.1
post-done (failed e ∷ fs) rs n f = post-done fs rs n f.1

wait-done :
    (fs rs : List Result) (n : ℕ) → AllFail fs → wait (fs ++ done ∷ rs) (suc n) ≡ some (n, rs)
unfolding wait take_post
wait-done [] rs n f = refl
wait-done (done ∷ fs) rs n f = absurd (f.0 refl)
wait-done (interrupted ∷ fs) rs n f = wait-done fs rs n f.1
wait-done (timed_out ∷ fs) rs n f = wait-done fs rs n f.1
wait-done (failed e ∷ fs) rs n f = wait-done fs rs n f.1

-- However often the calls of a `post` and of the `wait` behind it are interrupted or fail, once each has
-- succeeded the count is what it was, and no further call has been made.
pub wait-post :
    (fs gs rs : List Result) (n : ℕ)
    → AllFail fs
    → AllFail gs
    → (do (n', rest) ← post (fs ++ done ∷ (gs ++ done ∷ rs)) n; wait rest n') ≡ some (n, rs)
wait-post fs gs rs n f g =
    let more : n + 1 ≡ suc n = omega arith in
    rw (post-done fs (gs ++ done ∷ rs) n f, more) (wait-done gs rs n g)

-- A `timedwait` that returns has taken a post, or has taken none since the time was over.
pub timedwait-counts :
    (rs : List Result) (n : ℕ)
    → Ensures (λ (late, n', rest). n ≡ (if late then n' else n' + 1)) (timedwait rs n)
unfolding timedwait take_post
timedwait-counts [] n = tt
timedwait-counts (done ∷ rs) zero = tt
timedwait-counts (done ∷ rs) (suc n) = ground arith
timedwait-counts (interrupted ∷ rs) n = timedwait-counts rs n
timedwait-counts (timed_out ∷ rs) n = refl
timedwait-counts (failed e ∷ rs) n = timedwait-counts rs n
