-- ===== src/Sync/OwnerLock.antt =====
-- src/runtime/BlockingSync.h: the class `OwnerLock` and the uThreads that use it. What `acquire`
-- and `release` do outside the base lock, the increment and the read of `counter`, are steps of
-- their own.
pub mod Invariant
pub mod Race
use u_threads.Base.{
  ℕ, zero, suc, ◌≡◌, ◌≢◌, ◌<◌, ◌^◌, Bool, true, List, [], ◌∷◌, ◌==◌, if◌then◌else◌, update,
  incr_word, decr_word,
}
use u_threads.Sync.{MutexState, new_mutex, internal_acquire, internal_release}

pub record OwnerLockState : Type 0 where
  pub mutex : MutexState
  pub counter : ℕ

-- Where a uThread is, with the number of times that it has acquired the lock: outside; suspended
-- in `acquire`; behind `internalAcquire`, before the increment; inside; behind the locked part of
-- `release`, before the read of `counter` that it returns.
pub data Pc : Type 0 where
  outside : Pc
  blocked : Pc
  granted : ℕ → Pc
  inside : ℕ → Pc
  returning : ℕ → Pc

pub record System : Type 0 where
  pub lock : OwnerLockState
  pub pc : ℕ → Pc

unfoldable pub initial : System
initial = record { lock = record { mutex = new_mutex; counter = 0 }; pc = λ _. outside }

-- `internalAcquire<true>` by the uThread `me`, which holds the lock `depth` times.
unfoldable pub acquire_by : ℕ → ℕ → System → System
acquire_by me depth s = record {
  lock = record s.lock { mutex = (internal_acquire true me s.lock.mutex).0 };
  pc =
      update s.pc me (if (internal_acquire true me s.lock.mutex).1 then blocked else granted depth);
}

-- `return ++counter`: the result, and the state behind it.
unfoldable pub count_by : ℕ → ℕ → System → System × ℕ
count_by me depth s = (
  record {
    lock = record s.lock { counter = incr_word s.lock.counter };
    pc = update s.pc me (inside (suc depth));
  },
  incr_word s.lock.counter,
)

abbrev pub resume_all : List ℕ → (ℕ → Pc) → ℕ → Pc
resume_all [] pc = pc
resume_all (ut ∷ uts) pc = resume_all uts (update pc ut (granted 0))

-- The locked part of `release` by a uThread that holds the lock `suc depth` times.
unfoldable pub release_by : ℕ → ℕ → System → System
release_by me depth s =
    if decr_word s.lock.counter == 0
    then record {
      lock = record {
        mutex = (internal_release s.lock.mutex).0;
        counter = decr_word s.lock.counter;
      };
      pc = resume_all (internal_release s.lock.mutex).1 (update s.pc me (returning depth));
    }
    else record {
      lock = record s.lock { counter = decr_word s.lock.counter };
      pc = update s.pc me (returning depth);
    }

-- What `return counter` reads.
unfoldable pub result : System → ℕ
result s = s.lock.counter

abbrev pub behind : ℕ → Pc
behind zero = outside
behind (suc depth) = inside (suc depth)

unfoldable pub return_by : ℕ → ℕ → System → System
return_by me depth s = record s { pc = update s.pc me (behind depth) }

-- No uThread nests 2 ^ 64 acquires.
pub data Step : System → System → Type 0 where
  enters : (s : System) (me : ℕ) → me ≢ 0 → s.pc me ≡ outside → Step s (acquire_by me 0 s)
  nests : (s : System) (me depth : ℕ) → s.pc me ≡ inside depth → Step s (acquire_by me depth s)
  counts :
      (s : System) (me depth : ℕ)
      → s.pc me ≡ granted depth
      → suc depth < 2 ^ 64
      → Step s (count_by me depth s).0
  releases :
      (s : System) (me depth : ℕ) → s.pc me ≡ inside (suc depth) → Step s (release_by me depth s)
  reads : (s : System) (me depth : ℕ) → s.pc me ≡ returning depth → Step s (return_by me depth s)

pub data Reach : System → Type 0 where
  start : Reach initial
  later : {s t : System} → Reach s → Step s t → Reach t
