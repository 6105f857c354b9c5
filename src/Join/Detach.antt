-- ===== src/Join/Detach.antt =====
-- `detach` while another uThread waits in `joinWait`.
use u_threads.Base.{ℕ, ◌≡◌, ◌≢◌, false, List, [], ◌∷◌, arith}
unfoldable use u_threads.Sync.{acquire, release, internal_acquire, internal_release, release_to}
use u_threads.Sync.{release_assert}
use u_threads.Sync.ConditionVariable.{Cv}
unfoldable use u_threads.Sync.ConditionVariable.{signal, signal_first}

-- `detach` of the uThread `me` up to its last `release`, when it gets the mutex at once.
pub detach_signal : ℕ → Cv → Cv × List ℕ
detach_signal me c =
    let locked : Cv = record c { mutex = (acquire me c.mutex).0 } in
    elim locked.bq [ [] ↦ (locked, []) | ut ∷ bq ↦ signal locked ]

-- With somebody waiting, `signal` has released the mutex: the last `release` of `detach` fails its
-- assertion, and takes the mutex from a uThread that has acquired it in between.
pub detach-releases_twice :
    (me other ut : ℕ) (bq : List ℕ) (c : Cv)
    → me ≢ 0
    → other ≢ 0
    → c.bq ≡ ut ∷ bq
    → (c.mutex.owner ≡ 0) × (c.mutex.bq ≡ [])
    → (release_assert me (detach_signal me c).0.mutex ≡ false)
      × ((acquire other (detach_signal me c).0.mutex).0.owner ≡ other)
      × ((release (acquire other (detach_signal me c).0.mutex).0).0.owner ≡ 0)
unfolding detach_signal acquire signal release signal_first release_to internal_acquire
    internal_release
detach-releases_twice me other ut bq c n m e (o, q) = rw (e, o, q) (ground arith)
