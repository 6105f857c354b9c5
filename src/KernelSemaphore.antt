-- ===== src/KernelSemaphore.antt =====
-- src/generic/Semaphore.h: the class `semaphore` around a `sem_t`, whose calls are tried again until they
-- succeed. What the calls of the system return is a list of results, the next call's first.
mod Laws
mod Tests
use u_threads.Base.{
  ℕ, zero, suc, ◌+◌, ◌-◌, Bool, true, false, List, [], ◌∷◌, Option, none, some, ◌==◌, if◌then◌else◌,
}

-- 0, or -1 with `errno`: a signal handler interrupted the call, the time is over, or another error.
pub data Result : Type 0 where
  done : Result
  interrupted : Result
  timed_out : Result
  failed : ℕ → Result

-- `sem_wait`, `sem_trywait` and `sem_timedwait` return 0 only by taking a post: none is a result that
-- the system does not give.
unfoldable pub take_post : ℕ → Option ℕ
take_post zero = none
take_post (suc n) = some n

-- `wait`: the count and the results that are left; none while it still waits.
unfoldable pub wait : List Result → ℕ → Option (ℕ × List Result)
unfolding take_post
wait [] n = none
wait (done ∷ rs) n = elim (take_post n) [ none ↦ none | some n' ↦ some (n', rs) ]
wait (interrupted ∷ rs) n = wait rs n
wait (timed_out ∷ rs) n = wait rs n
wait (failed e ∷ rs) n = wait rs n

-- `trywait` is one call.
unfoldable pub trywait : ℕ → Bool × ℕ
unfolding take_post
trywait n = elim (take_post n) [ none ↦ (false, n) | some n' ↦ (true, n') ]

-- `timedwait`: whether the time was over, first.
unfoldable pub timedwait : List Result → ℕ → Option (Bool × ℕ × List Result)
unfolding take_post
timedwait [] n = none
timedwait (done ∷ rs) n = elim (take_post n) [ none ↦ none | some n' ↦ some (false, n', rs) ]
timedwait (interrupted ∷ rs) n = timedwait rs n
timedwait (timed_out ∷ rs) n = some (true, n, rs)
timedwait (failed e ∷ rs) n = timedwait rs n

-- `post`.
unfoldable pub post : List Result → ℕ → Option (ℕ × List Result)
post [] n = none
post (done ∷ rs) n = some (n + 1, rs)
post (interrupted ∷ rs) n = post rs n
post (timed_out ∷ rs) n = post rs n
post (failed e ∷ rs) n = post rs n
