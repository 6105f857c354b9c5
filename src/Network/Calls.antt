-- ===== src/Network/Calls.antt =====
-- The loop of the operations that may block.
use u_threads.Base.{ℕ, zero, suc, ◌≡◌, ◌≢◌, refl, List, [], ◌∷◌, ◌++◌, some, arith}
use u_threads.Network.{Result, success, would_block, failure, Op, io_call, waits_to_read}

abbrev pub repeat {ℓ} : {A : Type ℓ} → ℕ → A → List A
repeat zero a = []
repeat (suc n) a = a ∷ repeat n a

-- An operation returns the first result that is not `EAGAIN`, behind one wait in its direction for
-- each `EAGAIN` before it, and makes no system call after it.
pub io_call-first :
    (op : Op) (n : ℕ) (r : Result) (rs : List Result)
    → r ≢ would_block
    → io_call op (repeat n would_block ++ r ∷ rs) ≡ some (r, repeat n (waits_to_read op), rs)
unfolding io_call
io_call-first op zero (success k) rs ne = refl
io_call-first op zero would_block rs ne = ground (arith, ne refl)
io_call-first op zero (failure e) rs ne = refl
io_call-first op (suc n) r rs ne = rw (io_call-first op n r rs ne) refl
