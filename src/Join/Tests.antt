-- ===== src/Join/Tests.antt =====
-- The uThread 8 ends while 16 calls `join`, in both orders; and 24 detaches it.
use u_threads.Base.{◌+◌, ◌<◌, ◌≡◌, ◌⊎◌, refl, true, false, [], ◌∷◌, arith}
use u_threads.Sync.{acquire, release, release_assert}
use u_threads.Sync.ConditionVariable.{Cv}
use u_threads.Join.{Joinable, finished, enter, enter_at, leave_wait, new_joinable}
use u_threads.Join.Run.{Step, Reach, enters, leaves, at_first, step}
use u_threads.Join.Meet.{end-joined, meet-goes_on, left}
use u_threads.Join.Detach.{detach_signal, detach-releases_twice}

abbrev s1 : Joinable
s1 = enter false new_joinable

abbrev s2 : Joinable
s2 = enter true s1

abbrev s3 : Joinable
s3 = leave_wait false s2

s1-Reach : Reach s1
unfolding new_joinable
s1-Reach = step new_joinable s1 at_first (enters false new_joinable refl)

s3-Reach : Reach s3
unfolding new_joinable enter enter_at
s3-Reach = step s2 s3 (step s1 s2 s1-Reach (enters true s1 refl)) (leaves false s2 refl)

is_finished : s3.pc false ≡ finished
unfolding new_joinable enter enter_at leave_wait
is_finished = refl

end-joined_example : s3.pc true ≡ finished
end-joined_example = end-joined s3 s3-Reach is_finished

meet-goes_on_example :
    ((s1.pc true ≡ finished) × (s1.pc false ≡ finished))
    ⊎ ((s' : Joinable) × Step s1 s'
        × (left (s'.pc true) + left (s'.pc false) < left (s1.pc true) + left (s1.pc false)))
meet-goes_on_example = meet-goes_on s1 s1-Reach

abbrev one_waits : Cv
one_waits = record { mutex = record { owner = 0; bq = [] }; bq = 16 ∷ [] }

detach-releases_twice_example :
    (release_assert 24 (detach_signal 24 one_waits).0.mutex ≡ false)
    × ((acquire 32 (detach_signal 24 one_waits).0.mutex).0.owner ≡ 32)
    × ((release (acquire 32 (detach_signal 24 one_waits).0.mutex).0).0.owner ≡ 0)
detach-releases_twice_example =
    detach-releases_twice 24 32 16 [] one_waits (omega arith) (omega arith) refl (refl, refl)
