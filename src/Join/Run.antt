-- ===== src/Join/Run.antt =====
-- All orders in which one caller of `join` and the uThread that ends go through `waitOrSignal`.
use u_threads.Base.{◌≡◌, Bool, true, false}
use u_threads.Join.{
  Joinable, before, woken, to_post, to_take, enter, leave_wait, post, take, new_joinable,
}

pub data Step : Joinable → Joinable → Type 0 where
  enters : (caller : Bool) (s : Joinable) → s.pc caller ≡ before → Step s (enter caller s)
  leaves : (caller : Bool) (s : Joinable) → s.pc caller ≡ woken → Step s (leave_wait caller s)
  posts : (s : Joinable) → s.pc true ≡ to_post → Step s (post s)
  takes : (s : Joinable) → s.pc false ≡ to_take → Step s (take s)

pub data Reach : Joinable → Type 0 where
  at_first : Reach new_joinable
  step : (s s' : Joinable) → Reach s → Step s s' → Reach s'
