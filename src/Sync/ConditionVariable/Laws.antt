-- ===== src/Sync/ConditionVariable/Laws.antt =====
-- Waits and signals.
use u_threads.Base.{
  ℕ, ◌≡◌, refl, ap, ◌∙◌, sym, List, [], ◌∷◌, ◌++◌, append_assoc, append-nil, length, length-append,
  take, drop, ◌-◌, arith,
}
use u_threads.Sync.{MutexState, release, push_back}
use u_threads.Sync.ConditionVariable.{Cv, wait, signal_first, signal, signal_loop, signal_all}

signal_loop-append : (bq resumed : List ℕ) → signal_loop bq resumed ≡ ([], resumed ++ bq)
unfolding signal_loop
signal_loop-append [] resumed = ap (λ l. ([], l)) (sym (append-nil resumed))
signal_loop-append (x ∷ bq) resumed =
    signal_loop-append bq (push_back x resumed)
    ∙ ap (λ l. ([], l)) (append_assoc resumed (x ∷ []) bq)

-- `signalAll` resumes every waiting uThread once, in the order of their waits, then releases the
-- mutex, and leaves nobody waiting.
pub signal_all_lem :
    (c : Cv)
    → signal_all c ≡ (record { mutex = (release c.mutex).0; bq = [] }, c.bq ++ (release c.mutex).1)
unfolding signal_all
signal_all_lem c = rw (signal_loop-append c.bq [])

-- Calls on one condition variable.
pub data Call : Type 0 where
  waits : ℕ → Call
  signals : Call
  signals_all : Call

unfoldable pub call : Call → Cv → Cv × List ℕ
call (waits me) c = wait me c
call signals c = signal c
call signals_all c = signal_all c

-- What the condition variable itself resumes: the release of the mutex resumes its next owner, before
-- the others in `wait` and `signal` and behind them in `signalAll`.
unfoldable pub woken : Call → List ℕ → List ℕ → List ℕ
woken (waits me) owner resumed = drop (length owner) resumed
woken signals owner resumed = drop (length owner) resumed
woken signals_all owner resumed = take (length resumed - length owner) resumed

-- The state behind the calls, and all that the condition variable has resumed.
unfoldable pub calls : List Call → Cv → Cv × List ℕ
unfolding call woken
calls [] c = (c, [])
calls (x ∷ xs) c =
    let (c', resumed) = call x c in
    let (c'', out) = calls xs c' in (c'', woken x (release c.mutex).1 resumed ++ out)

abbrev pub waiters : Call → List ℕ
waiters (waits me) = me ∷ []
waiters signals = []
waiters signals_all = []

abbrev pub all_waiters : List Call → List ℕ
all_waiters [] = []
all_waiters (x ∷ xs) = waiters x ++ all_waiters xs

drop-length : (xs ys : List ℕ) → drop (length xs) (xs ++ ys) ≡ ys
drop-length [] ys = refl
drop-length (x ∷ xs) ys = drop-length xs ys

drop-all : (xs : List ℕ) → drop (length xs) xs ≡ []
drop-all [] = refl
drop-all (x ∷ xs) = drop-all xs

take-length : (xs ys : List ℕ) → take (length xs) (xs ++ ys) ≡ xs
take-length [] ys = refl
take-length (x ∷ xs) ys = ap (λ l. x ∷ l) (take-length xs ys)

signal-in_order :
    (bq : List ℕ) (m : MutexState)
    → woken signals (release m).1 (signal_first bq m).1 ++ (signal_first bq m).0.bq ≡ bq
unfolding signal_first woken
signal-in_order [] m =
    let none_left : drop (length (release m).1) (release m).1 ≡ [] = drop-all (release m).1 in
    rw none_left refl
signal-in_order (x ∷ bq) m = rw (drop-length (release m).1 (x ∷ [])) refl

call-in_order :
    (x : Call) (c : Cv)
    → woken x (release c.mutex).1 (call x c).1 ++ (call x c).0.bq ≡ c.bq ++ waiters x
unfolding call wait signal woken
call-in_order (waits me) c = rw (drop-all (release c.mutex).1) refl
call-in_order signals c = signal-in_order c.bq c.mutex ∙ sym (append-nil c.bq)
call-in_order signals_all c =
    let owner = (release c.mutex).1 in
    let shared : length (c.bq ++ owner) - length owner ≡ length c.bq =
      omega (arith, length-append c.bq owner) in
    rw (signal_all_lem c, shared, take-length c.bq owner) refl

-- Over any calls, the uThreads that the condition variable has resumed and those that still wait are
-- those that waited at first and those that came to wait, in that order: no waiter is lost, resumed
-- twice or overtaken.
pub calls-fifo :
    (xs : List Call) (c : Cv) → (calls xs c).1 ++ (calls xs c).0.bq ≡ c.bq ++ all_waiters xs
unfolding calls
calls-fifo [] c = sym (append-nil c.bq)
calls-fifo (x ∷ xs) c =
    let c' = (call x c).0 in
    let out = woken x (release c.mutex).1 (call x c).1 in
    append_assoc out (calls xs c').1 (calls xs c').0.bq
    ∙ (ap (λ l. out ++ l) (calls-fifo xs c')
        ∙ (sym (append_assoc out c'.bq (all_waiters xs))
            ∙ (ap (λ l. l ++ all_waiters xs) (call-in_order x c)
                ∙ append_assoc c.bq (waiters x) (all_waiters xs))))
