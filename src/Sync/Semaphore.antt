-- ===== src/Sync/Semaphore.antt =====
-- src/runtime/BlockingSync.h: the class `Semaphore` and the uThreads that use it. Each call first
-- acquires the semaphore's mutex, and its body runs once the caller owns the mutex.
pub mod Queues
pub mod Invariant
use u_threads.Base.{
  ℕ, zero, suc, ◌≡◌, ◌≢◌, ◌<◌, ◌+◌, ◌-◌, ◌^◌, Bool, List, [], ◌∷◌, ◌++◌, ltb, if◌then◌else◌, update,
  incr_word,
}
use u_threads.Sync.{MutexState, new_mutex, acquire, release, push_back}

pub record SemaphoreState : Type 0 where
  pub mutex : MutexState
  pub bq : List ℕ
  pub counter : ℕ

-- Where a uThread is: outside; suspended in the `acquire` of `P` or of `V`; before the body of
-- `P` or of `V`, as the owner of the mutex; suspended on the semaphore.
pub data Pc : Type 0 where
  outside : Pc
  p_lock : Pc
  v_lock : Pc
  p_body : Pc
  v_body : Pc
  blocked : Pc

-- The semaphore, its users, and how many calls of `P` have returned and of `V` have taken effect.
pub record System : Type 0 where
  pub sem : SemaphoreState
  pub pc : ℕ → Pc
  pub taken : ℕ
  pub given : ℕ

unfoldable pub initial : ℕ → System
initial c = record {
  sem = record { mutex = new_mutex; bq = []; counter = c };
  pc = λ _. outside;
  taken = 0;
  given = 0;
}

-- What a uThread does when it is resumed.
abbrev pub resumed : Pc → Pc
resumed outside = outside
resumed p_lock = p_body
resumed v_lock = v_body
resumed p_body = p_body
resumed v_body = v_body
resumed blocked = outside

abbrev pub resume_all : List ℕ → (ℕ → Pc) → ℕ → Pc
resume_all [] pc = pc
resume_all (ut ∷ uts) pc = resume_all uts (update pc ut (resumed (pc ut)))

-- The `mutex.acquire()` of `P` and of `V`.
unfoldable pub enter : Pc → Pc → ℕ → System → System
enter lock body me s = record s {
  sem = record s.sem { mutex = (acquire me s.sem.mutex).0 };
  pc = update s.pc me (if (acquire me s.sem.mutex).1 then lock else body);
}

-- `internalP`: wait behind those who wait, or take one; the mutex is released either way.
unfoldable pub body_p : ℕ → System → System
body_p me s =
    if ltb s.sem.counter 1
    then record s {
      sem = record s.sem { mutex = (release s.sem.mutex).0; bq = push_back me s.sem.bq };
      pc = resume_all (release s.sem.mutex).1 (update s.pc me blocked);
    }
    else record {
      sem = record s.sem { mutex = (release s.sem.mutex).0; counter = s.sem.counter - 1 };
      pc = resume_all (release s.sem.mutex).1 (update s.pc me outside);
      taken = s.taken + 1;
      given = s.given;
    }

-- `V` behind its `acquire`: pass on to the first who waits, or add one. `bq.signal(mutex)` and
-- `mutex.release()` release the mutex.
pub give_to : ℕ → List ℕ → System → System
give_to me [] s = record s {
  sem = record s.sem { mutex = (release s.sem.mutex).0; counter = incr_word s.sem.counter };
  pc = resume_all (release s.sem.mutex).1 (update s.pc me outside);
  given = s.given + 1;
}
give_to me (ut ∷ bq) s = record {
  sem = record s.sem { mutex = (release s.sem.mutex).0; bq = bq };
  pc = resume_all ((release s.sem.mutex).1 ++ ut ∷ []) (update s.pc me outside);
  taken = s.taken + 1;
  given = s.given + 1;
}

unfoldable pub body_v : ℕ → System → System
unfolding give_to
body_v me s = give_to me s.sem.bq s

-- The counter does not reach 2 ^ 64.
pub data Step : System → System → Type 0 where
  starts_p : (s : System) (me : ℕ) → me ≢ 0 → s.pc me ≡ outside → Step s (enter p_lock p_body me s)
  starts_v : (s : System) (me : ℕ) → me ≢ 0 → s.pc me ≡ outside → Step s (enter v_lock v_body me s)
  takes : (s : System) (me : ℕ) → s.pc me ≡ p_body → Step s (body_p me s)
  gives :
      (s : System) (me : ℕ) → s.pc me ≡ v_body → suc s.sem.counter < 2 ^ 64 → Step s (body_v me s)

pub data Reach (c : ℕ) : System → Type 0 where
  start : Reach c (initial c)
  later : {s t : System} → Reach c s → Step s t → Reach c t
