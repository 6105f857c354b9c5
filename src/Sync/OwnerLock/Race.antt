-- ===== src/Sync/OwnerLock/Race.antt =====
-- What `OwnerLock::release` returns.
use u_threads.Base.{
  ℕ, suc, ◌≡◌, refl, ◌≢◌, List, ◌∷◌, arith, decr_word, incr_word-lt, decr_word-suc,
}
use u_threads.Sync.{internal_release}
use u_threads.Sync.OwnerLock.{
  granted, inside, returning, System, count_by, release_by, result, counts, releases, Reach, later,
}
use u_threads.Sync.OwnerLock.Invariant.{Holds, Reach-Inv}

-- Behind a release that is not the last one, `release` returns the number of times that the
-- caller still holds the lock, whatever others have done since.
pub inner_result :
    {s : System} → Reach s → (me d : ℕ) → s.pc me ≡ returning (suc d) → result s ≡ suc d
unfolding result
inner_result r me d e = let i = Reach-Inv r in ground (arith, i.owns me (suc d))

-- Behind the last release, with nobody holding the lock, `release` returns 0.
pub last_result :
    {s : System}
    → Reach s
    → (me : ℕ) → s.pc me ≡ returning 0
    → s.lock.mutex.owner ≡ 0
    → result s ≡ 0
unfolding result
last_result r me e free = let i = Reach-Inv r in ground (arith, i.free)

read_me :
    (t : System) (me x : ℕ)
    → me ≢ x
    → t.pc me ≡ returning 0
    → (count_by x 0 t).0.pc me ≡ returning 0
unfolding count_by
read_me t me x ne e = ground arith

read_count : (t : System) (x : ℕ) → t.lock.counter ≡ 0 → result (count_by x 0 t).0 ≡ 1
unfolding count_by result
read_count t x c = rw c (incr_word-lt 0 (omega arith))

-- The last release, with `x` first in the queue: `x` is granted the lock, and the caller has yet to
-- read the counter.
handed :
    (s : System) (me x : ℕ) (bq : List ℕ)
    → s.pc me ≡ inside 1
    → s.lock.mutex.bq ≡ x ∷ bq
    → Holds s
    → let t = release_by me 0 s in
      (t.pc x ≡ granted 0) × (t.pc me ≡ returning 0) × (t.lock.counter ≡ 0) × (me ≢ x)
unfolding release_by internal_release
handed s me x bq e q i =
    let (own, ne, c) = i.owns me 1 (ground arith) in
    let down : decr_word s.lock.counter ≡ 0 = rw c (decr_word-suc 0 (omega arith)) in
    let other : me ≢ x = ground (arith, i.waits x) in
    rw (down, q) (ground arith, ground arith, refl, other)

-- Behind the last release `release` may return 1: whenever a uThread waits for the lock, it can be
-- granted it and count its acquire before the caller reads the counter.
pub last_result_race :
    {s : System}
    → Reach s
    → (me x : ℕ) (bq : List ℕ) → s.pc me ≡ inside 1
    → s.lock.mutex.bq ≡ x ∷ bq
    → let t = (count_by x 0 (release_by me 0 s)).0 in
      Reach t × (t.pc me ≡ returning 0) × (result t ≡ 1)
last_result_race {s} r me x bq e q =
    let (gx, rm, c, ne) = handed s me x bq e q (Reach-Inv r) in
    let t = release_by me 0 s in
    (
      later (later r (releases s me 0 e)) (counts t x 0 gx (omega arith)),
      read_me t me x ne rm,
      read_count t x c,
    )
