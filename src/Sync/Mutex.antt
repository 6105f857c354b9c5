-- ===== src/Sync/Mutex.antt =====
-- The uThreads that use one `Mutex`, each in any order of calls: `acquire` from outside, `release`
-- from inside.
pub mod Invariant
pub mod Order
use u_threads.Base.{ℕ, ◌≡◌, ◌≢◌, List, [], ◌∷◌, if◌then◌else◌, ◌==◌, update}
use u_threads.Sync.{MutexState, new_mutex, acquire, release}

-- Where a uThread is: outside, suspended in `acquire`, or behind an `acquire` that has returned.
pub data Pc : Type 0 where
  outside : Pc
  blocked : Pc
  inside : Pc

pub record System : Type 0 where
  pub mutex : MutexState
  pub pc : ℕ → Pc

unfoldable pub initial : System
initial = record { mutex = new_mutex; pc = λ _. outside }

-- The uThreads that an operation resumes return from their `acquire`.
abbrev pub resume_all : List ℕ → (ℕ → Pc) → ℕ → Pc
resume_all [] pc = pc
resume_all (ut ∷ uts) pc = resume_all uts (update pc ut inside)

unfoldable pub acquire_by : ℕ → System → System
acquire_by me s = record {
  mutex = (acquire me s.mutex).0;
  pc = update s.pc me (if (acquire me s.mutex).1 then blocked else inside);
}

unfoldable pub release_by : ℕ → System → System
release_by me s = record {
  mutex = (release s.mutex).0;
  pc = resume_all (release s.mutex).1 (update s.pc me outside);
}

pub data Step : System → System → Type 0 where
  acquires : (s : System) (me : ℕ) → me ≢ 0 → s.pc me ≡ outside → Step s (acquire_by me s)
  releases : (s : System) (me : ℕ) → s.pc me ≡ inside → Step s (release_by me s)

pub data Reach : System → Type 0 where
  start : Reach initial
  later : {s t : System} → Reach s → Step s t → Reach t
