-- ===== src/Sync/OwnerLock/Invariant.antt =====
-- The counter of an `OwnerLock` is the number of times that its owner has acquired it.
use u_threads.Base.{
  ℕ, zero, suc, ◌≡◌, refl, ◌≢◌, ◌<◌, ◌^◌, inl, inr, true, false, List, [], ◌∷◌, Option, none, some,
  arith, ◌==◌, has, has-append, Distinct, Distinct-snoc, Bool-cases, incr_word, decr_word,
  incr_word-lt, decr_word-suc,
}
use u_threads.Sync.{new_mutex, internal_acquire, internal_release}
use u_threads.Sync.OwnerLock.{
  Pc, outside, blocked, granted, inside, returning, System, initial, acquire_by, count_by,
  release_by, return_by, Step, enters, nests, counts, releases, reads, Reach, start, later,
}

-- How often a uThread holds the lock, where it does.
abbrev pub depth : Pc → Option ℕ
depth outside = none
depth blocked = none
depth (granted d) = some d
depth (inside d) = some d
depth (returning zero) = none
depth (returning (suc d)) = some (suc d)

pub record Inv (owner counter : ℕ) (bq : List ℕ) (pc : ℕ → Pc) : Type 0 where
  pub free : owner ≡ 0 → (bq ≡ []) × (counter ≡ 0)
  pub owns : (t d : ℕ) → depth (pc t) ≡ some d → (t ≡ owner) × (t ≢ 0) × (counter ≡ d)
  pub owned : owner ≢ 0 → depth (pc owner) ≡ some counter
  pub queued : (t : ℕ) → pc t ≡ blocked → has t bq ≡ true
  pub waits : (t : ℕ) → has t bq ≡ true → (pc t ≡ blocked) × (t ≢ 0)
  pub once : Distinct bq
  pub small : counter < 2 ^ 64

abbrev pub Holds : System → Type 0
Holds s = Inv s.lock.mutex.owner s.lock.counter s.lock.mutex.bq s.pc

enter-Inv : (s : System) (me : ℕ) → me ≢ 0 → s.pc me ≡ outside → Holds s → Holds (acquire_by me 0 s)
unfolding acquire_by internal_acquire
enter-Inv s me ne out i = elim (Bool-cases (s.lock.mutex.owner == 0)) [
  | inl free ↦ rw free (record {
    free = λ z. absurd (ne z);
    owns = λ t d e. ground (arith, i.owns t d, i.free);
    owned = λ n. ground (arith, i.free);
    queued = λ t e. ground (arith, i.queued t);
    waits = λ t h. ground (arith, i.waits t, i.free);
    once = i.once;
    small = i.small;
  })
  | inr busy ↦
      rw (busy, busy_other busy)
        (record {
          free = λ z. ground arith;
          owns = λ t d e. ground (arith, i.owns t d);
          owned = λ n. ground (arith, i.owned);
          queued = λ t e. ground (arith, i.queued t, has-append t s.lock.mutex.bq (me ∷ []));
          waits = λ t h. ground (arith, i.waits t, has-append t s.lock.mutex.bq (me ∷ []));
          once = Distinct-snoc me s.lock.mutex.bq (ground (arith, i.waits me)) i.once;
          small = i.small;
        })
]
  where
    busy_other : (s.lock.mutex.owner == 0) ≡ false → (s.lock.mutex.owner == me) ≡ false
    busy_other b = ground (arith, i.owned)

nest-Inv : (s : System) (me d : ℕ) → s.pc me ≡ inside d → Holds s → Holds (acquire_by me d s)
unfolding acquire_by internal_acquire
nest-Inv s me d e i =
    let (own, ne, c) = i.owns me d (ground arith) in
    let test : (s.lock.mutex.owner == me) ≡ true = ground arith in
    rw test (elim (Bool-cases (s.lock.mutex.owner == 0)) [
      | inl z ↦ absurd (ground arith)
      | inr z ↦ rw z (record {
        free = λ z. absurd (ne z);
        owns = λ t d' e'. ground (arith, i.owns t d');
        owned = λ n. ground arith;
        queued = λ t e'. ground (arith, i.queued t);
        waits = λ t h. ground (arith, i.waits t);
        once = i.once;
        small = i.small;
      })
    ])

count-Inv :
    (s : System) (me d : ℕ)
    → s.pc me ≡ granted d
    → suc d < 2 ^ 64
    → Holds s
    → Holds (count_by me d s).0
unfolding count_by
count-Inv s me d e lt i =
    let (own, ne, c) = i.owns me d (ground arith) in
    let up : incr_word s.lock.counter ≡ suc d = rw c (incr_word-lt d lt) in
    record {
      free = λ z. absurd (ground arith);
      owns = λ t d' e'. ground (arith, i.owns t d');
      owned = λ n. ground arith;
      queued = λ t e'. ground (arith, i.queued t);
      waits = λ t h. ground (arith, i.waits t);
      once = i.once;
      small = omega arith;
    }

return-Inv : (s : System) (me d : ℕ) → s.pc me ≡ returning d → Holds s → Holds (return_by me d s)
unfolding return_by
return-Inv s me zero e i = record {
  free = i.free;
  owns = λ t d' e'. ground (arith, i.owns t d');
  owned = λ n. ground (arith, i.owned);
  queued = λ t e'. ground (arith, i.queued t);
  waits = λ t h. ground (arith, i.waits t);
  once = i.once;
  small = i.small;
}
return-Inv s me (suc d) e i = record {
  free = i.free;
  owns = λ t d' e'. ground (arith, i.owns t d');
  owned = λ n. ground (arith, i.owned);
  queued = λ t e'. ground (arith, i.queued t);
  waits = λ t h. ground (arith, i.waits t);
  once = i.once;
  small = i.small;
}

abbrev lock_of : ℕ → ℕ → List ℕ → (ℕ → Pc) → System
lock_of owner counter bq pc = record {
  lock = record { mutex = record { owner = owner; bq = bq }; counter = counter };
  pc = pc;
}

last-release-Inv :
    (owner counter : ℕ) (bq : List ℕ) (pc : ℕ → Pc) (me : ℕ)
    → pc me ≡ inside 1
    → Inv owner counter bq pc
    → Holds (release_by me 0 (lock_of owner counter bq pc))
unfolding release_by internal_release
last-release-Inv owner counter [] pc me e i =
    let (own, ne, c) = i.owns me 1 (ground arith) in
    let down : decr_word counter ≡ 0 = rw c (decr_word-suc 0 (omega arith)) in
    rw down (record {
      free = λ z. (refl, refl);
      owns = λ t d e'. ground (arith, i.owns t d);
      owned = λ n. absurd (n refl);
      queued = λ t e'. ground (arith, i.queued t);
      waits = λ t h. absurd (cc);
      once = tt;
      small = omega arith;
    })
last-release-Inv owner counter (x ∷ bq) pc me e i =
    let (own, ne, c) = i.owns me 1 (ground arith) in
    let down : decr_word counter ≡ 0 = rw c (decr_word-suc 0 (omega arith)) in
    rw down (record {
      free = λ z. absurd (ground (arith, i.waits x));
      owns = λ t d e'. ground (arith, i.owns t d, i.waits x);
      owned = λ n. ground arith;
      queued = λ t e'. ground (arith, i.queued t);
      waits = λ t h. ground (arith, i.waits t);
      once = i.once.1;
      small = omega arith;
    })

inner-release-Inv :
    (s : System) (me d : ℕ)
    → s.pc me ≡ inside (suc (suc d))
    → Holds s
    → Holds (release_by me (suc d) s)
unfolding release_by
inner-release-Inv s me d e i =
    let (own, ne, c) = i.owns me (suc (suc d)) (ground arith) in
    let down : decr_word s.lock.counter ≡ suc d =
      rw c (decr_word-suc (suc d) (omega (arith, i.small))) in
    let more : (decr_word s.lock.counter == 0) ≡ false = ground arith in
    rw more (record {
      free = λ z. absurd (ground arith);
      owns = λ t d' e'. ground (arith, i.owns t d');
      owned = λ n. ground arith;
      queued = λ t e'. ground (arith, i.queued t);
      waits = λ t h. ground (arith, i.waits t);
      once = i.once;
      small = omega (arith, i.small);
    })

release-Inv :
    (s : System) (me d : ℕ) → s.pc me ≡ inside (suc d) → Holds s → Holds (release_by me d s)
release-Inv s me zero e i =
    last-release-Inv s.lock.mutex.owner s.lock.counter s.lock.mutex.bq s.pc me e i
release-Inv s me (suc d) e i = inner-release-Inv s me d e i

initial-Inv : Holds initial
unfolding initial new_mutex
initial-Inv = record {
  free = λ z. (refl, refl);
  owns = λ t d e. absurd (cc);
  owned = λ n. absurd (n refl);
  queued = λ t e. absurd (cc);
  waits = λ t h. absurd (cc);
  once = tt;
  small = omega arith;
}

Step-Inv : {s t : System} → Step s t → Holds s → Holds t
Step-Inv (enters s me ne e) i = enter-Inv s me ne e i
Step-Inv (nests s me d e) i = nest-Inv s me d e i
Step-Inv (counts s me d e lt) i = count-Inv s me d e lt i
Step-Inv (releases s me d e) i = release-Inv s me d e i
Step-Inv (reads s me d e) i = return-Inv s me d e i

-- In every reachable state the one uThread that holds the lock is its owner, and the counter is
-- the number of times that it holds it; a free lock has no waiter and a counter of 0.
pub Reach-Inv : {s : System} → Reach s → Holds s
Reach-Inv start = initial-Inv
Reach-Inv (later r st) = Step-Inv st (Reach-Inv r)

-- Two uThreads never hold the lock together, however often each has acquired it.
pub owner_exclusion :
    {s : System}
    → Reach s
    → (a b d e : ℕ) → depth (s.pc a) ≡ some d
    → depth (s.pc b) ≡ some e
    → (a ≡ b) × (d ≡ e)
owner_exclusion r a b d e ea eb = let i = Reach-Inv r in ground (arith, i.owns a d, i.owns b e)

-- `acquire` returns the number of times that the caller now holds the lock.
pub acquire_result :
    {s : System}
    → Reach s
    → (me d : ℕ) → s.pc me ≡ granted d
    → suc d < 2 ^ 64
    → (count_by me d s).1 ≡ suc d
unfolding count_by
acquire_result {s} r me d e lt =
    let i = Reach-Inv r in let (own, ne, c) = i.owns me d (ground arith) in rw c (incr_word-lt d lt)

-- A uThread that holds the lock is not suspended by a further `acquire`.
pub nested_acquire :
    {s : System} → Reach s → (me d : ℕ) → s.pc me ≡ inside d → (acquire_by me d s).pc me ≡ granted d
unfolding acquire_by internal_acquire
nested_acquire {s} r me d e = let i = Reach-Inv r in ground (arith, i.owns me d)
