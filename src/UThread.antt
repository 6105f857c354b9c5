-- ===== src/UThread.antt =====
-- src/runtime/uThread.h: the fields of a `uThread`, its states, and `reset` of
-- src/runtime/uThread.cpp. A uThread, a kThread and a cluster are addresses, `nullptr` is 0.
use u_threads.Base.{ℕ}

pub data State : Type 0 where
  initialized : State
  ready : State
  running : State
  yielding : State
  migrating : State
  waiting : State
  terminated : State

pub data JState : Type 0 where
  detached : JState
  joinable : JState
  joining : JState

pub record UThread : Type 0 where
  pub current_cluster : ℕ
  pub home_kthread : ℕ
  pub stack_pointer : ℕ
  pub stack_bottom : ℕ
  pub stack_size : ℕ
  pub id : ℕ
  pub state : State
  pub j_state : JState

-- The constructor at the address `this`, for the number that `uThreadMasterID++` gives.
unfoldable pub new_uthread : ℕ → ℕ → ℕ → ℕ → UThread
new_uthread this sb ss number = record {
  current_cluster = 0;
  home_kthread = 0;
  stack_pointer = this;
  stack_bottom = sb;
  stack_size = ss;
  id = number;
  state = initialized;
  j_state = detached;
}

-- `reset` of the uThread at the address `this`.
unfoldable pub reset : ℕ → UThread → UThread
reset this ut = record ut {
  stack_pointer = this;
  current_cluster = 0;
  home_kthread = 0;
  state = initialized;
  j_state = detached;
}
