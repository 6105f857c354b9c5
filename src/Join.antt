-- ===== src/Join.antt =====
-- src/runtime/uThread.h: `waitOrSignal`, through which `join` and `terminate` of src/runtime/uThread.cpp
-- meet; and `detach`. What runs under `joinMtx` is one step, for `Sync.Mutex` keeps others out of it;
-- so is a call of `P` or `V` of `afterJoin` up to where it blocks.
mod Run
mod Meet
mod Detach
mod Tests
use u_threads.Base.{ℕ, ◌+◌, ◌-◌, Bool, true, false, not, List, [], ◌∷◌, ltb, ◌==◌, if◌then◌else◌}
use u_threads.UThread.{JState, detached, joinable, joining}

-- Where a caller is: before the call; suspended in `joinWait`; resumed there; before `afterJoin.V`
-- and before `afterJoin.P`; suspended in `P`; behind the call.
pub data Pc : Type 0 where
  before : Pc
  in_wait : Pc
  woken : Pc
  to_post : Pc
  to_take : Pc
  in_take : Pc
  finished : Pc

-- `join_wait` holds who waits there, `true` for the caller of `join` and `false` for the uThread that
-- ends, the first one first; `after_join` is the counter of the semaphore.
pub record Joinable : Type 0 where
  pub join_wait : List Bool
  pub after_join : ℕ
  pub pc : Bool → Pc

abbrev pub at : Bool → Pc → (Bool → Pc) → Bool → Pc
at true v f true = v
at true v f false = f false
at false v f true = f true
at false v f false = v

-- `join`, up to the call: whether it makes it, and `jState`.
unfoldable pub join_state : JState → Bool × JState
join_state detached = (false, detached)
join_state joinable = (true, joining)
join_state joining = (false, joining)

-- The first section of `waitOrSignal` under `joinMtx`: wait, or resume the one who waits.
enter_at : Bool → List Bool → Joinable → Joinable
enter_at caller [] s = record s { join_wait = caller ∷ []; pc = at caller in_wait s.pc }
enter_at caller (other ∷ rest) s = record s {
  join_wait = rest;
  pc = at caller (if caller then finished else to_take) (at other woken s.pc);
}

unfoldable pub enter : Bool → Joinable → Joinable
unfolding enter_at
enter caller s = enter_at caller s.join_wait s

-- Behind the wait: the mutex is acquired and released, and the caller of `join` goes on to `V`.
unfoldable pub leave_wait : Bool → Joinable → Joinable
leave_wait caller s = record s { pc = at caller (if caller then to_post else finished) s.pc }

-- `afterJoin.V()` of the caller of `join`.
abbrev pub resumed_by_post : Pc → Bool
resumed_by_post before = false
resumed_by_post in_wait = false
resumed_by_post woken = false
resumed_by_post to_post = false
resumed_by_post to_take = false
resumed_by_post in_take = true
resumed_by_post finished = false

unfoldable pub post : Joinable → Joinable
post s =
    if resumed_by_post (s.pc false)
    then record s { pc = at true finished (at false finished s.pc) }
    else record s { after_join = s.after_join + 1; pc = at true finished s.pc }

-- `afterJoin.P()` of the uThread that ends.
unfoldable pub take : Joinable → Joinable
take s =
    if ltb s.after_join 1
    then record s { pc = at false in_take s.pc }
    else record s { after_join = s.after_join - 1; pc = at false finished s.pc }

-- A joinable uThread that nobody has joined.
unfoldable pub new_joinable : Joinable
new_joinable = record { join_wait = []; after_join = 0; pc = λ b. before }
