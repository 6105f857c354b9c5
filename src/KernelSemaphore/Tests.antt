-- ===== src/KernelSemaphore/Tests.antt =====
-- A post that is interrupted, and the wait behind it.
use u_threads.Base.{◌≡◌, [], ◌∷◌, some, ◌>>=◌, arith}
use u_threads.KernelSemaphore.{done, interrupted, failed, post, wait}
use u_threads.KernelSemaphore.Laws.{wait-post}

wait-post_case :
    (do
      (n', rest) ← post (interrupted ∷ done ∷ failed 22 ∷ done ∷ interrupted ∷ []) 3
      wait rest n')
    ≡ some (3, interrupted ∷ [])
wait-post_case =
    wait-post (interrupted ∷ []) (failed 22 ∷ []) (interrupted ∷ []) 3 (ground arith) (ground arith)
