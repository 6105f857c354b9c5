-- ===== src/RunQueue.antt =====
-- What the kThreads rely on in the run queues of src/runtime/schedulers/Scheduler_03.h and
-- Scheduler_04.h: `schedule` and the choice of the next uThread. Each of them fills this interface.
pub mod Calls
use u_threads.Base.{ℕ, ◌≡◌, ◌≢◌, false, List, [], ◌∷◌, ◌++◌, Option, none, some, has, Succeeds}

-- The choice with an empty queue, of a kThread that does not wait.
abbrev pub ChoseNone : {Q : Type 0} → (Q → List ℕ → Type 0) → Option ℕ × Q → Type 0
ChoseNone Holds (r, q) = (r ≡ none) × Holds q []

abbrev pub Chose : {Q : Type 0} → (Q → List ℕ → Type 0) → ℕ → List ℕ → Option ℕ × Q → Type 0
Chose Holds x xs (r, q) = (r ≡ some x) × Holds q xs

-- `Holds q xs` says that the state `q` stands for the uThreads `xs`, the next one first.
pub record RunQueue : Type 1 where
  pub Queue : Type 0
  pub Holds : Queue → List ℕ → Type 0
  pub schedule : ℕ → Queue → Option Queue
  pub choose : Queue → Option (Option ℕ × Queue)
  pub schedule-snoc :
      (ut : ℕ) (q : Queue) (xs : List ℕ)
      → ut ≢ 0
      → has ut xs ≡ false
      → Holds q xs
      → Succeeds (λ q'. Holds q' (xs ++ ut ∷ [])) (schedule ut q)
  pub choose-nil : (q : Queue) → Holds q [] → Succeeds (ChoseNone Holds) (choose q)
  pub choose-cons :
      (q : Queue) (x : ℕ) (xs : List ℕ) → Holds q (x ∷ xs) → Succeeds (Chose Holds x xs) (choose q)
