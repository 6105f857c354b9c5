-- ===== src/Runtime/Places/Create.antt =====
-- A uThread that `create` returns is in no other place.
use u_threads.Base.{ℕ, ◌+◌, ◌-◌, ◌≡◌, Bool, true, false, update, arith}
use u_threads.UThread.{new_uthread}
use u_threads.Runtime.{Runtime, create_cached, create_new}
use u_threads.Runtime.Places.{Place, fresh_at, Placed}

pub create_cached-Placed :
    (is_joinable : Bool) (p : ℕ) (s : Runtime) (place : ℕ → Place)
    → s.cached p ≡ true
    → Placed place s
    → Placed (update place p fresh_at) (create_cached is_joinable p s)
unfolding create_cached
create_cached-Placed true p s place c i =
    let here = i.cached p in
    record {
      queued = λ j q h. ground (arith, i.queued j q, here);
      once = i.once;
      parked = λ q h. ground (arith, i.parked q, here);
      cached = λ q h. ground (arith, i.cached q, here);
      fresh = λ q h. ground (arith, i.fresh q, here);
      unused = λ q h. ground (arith, i.unused q, here);
      main = λ j. ground (arith, i.main j, here);
      current = λ j a m. ground (arith, i.current j, here);
      up = λ j a e m. ground (arith, i.up j, i.current j, here);
      leaving = λ j a e. ground (arith, i.leaving j, i.current j, here);
      left = λ j m a e me. ground (arith, i.left j m, i.current j, i.leaving j, here);
      next = λ j m e. ground (arith, i.next j m, here);
      arriving = λ j m e. ground (arith, i.arriving j m, here);
    }
create_cached-Placed false p s place c i =
    let here = i.cached p in
    record {
      queued = λ j q h. ground (arith, i.queued j q, here);
      once = i.once;
      parked = λ q h. ground (arith, i.parked q, here);
      cached = λ q h. ground (arith, i.cached q, here);
      fresh = λ q h. ground (arith, i.fresh q, here);
      unused = λ q h. ground (arith, i.unused q, here);
      main = λ j. ground (arith, i.main j, here);
      current = λ j a m. ground (arith, i.current j, here);
      up = λ j a e m. ground (arith, i.up j, i.current j, here);
      leaving = λ j a e. ground (arith, i.leaving j, i.current j, here);
      left = λ j m a e me. ground (arith, i.left j m, i.current j, i.leaving j, here);
      next = λ j m e. ground (arith, i.next j m, here);
      arriving = λ j m e. ground (arith, i.arriving j m, here);
    }

pub create_new-Placed :
    (is_joinable : Bool) (size_of stack_size mem : ℕ) (s : Runtime) (place : ℕ → Place)
    → s.allocated (mem + stack_size - size_of) ≡ false
    → Placed place s
    → Placed
        (update place (mem + stack_size - size_of) fresh_at)
        (create_new is_joinable size_of stack_size mem s)
unfolding create_new new_uthread
create_new-Placed true size_of stack_size mem s place c i =
    let here = i.unused (mem + stack_size - size_of) in
    record {
      queued = λ j q h. ground (arith, i.queued j q, here);
      once = i.once;
      parked = λ q h. ground (arith, i.parked q, here);
      cached = λ q h. ground (arith, i.cached q, here);
      fresh = λ q h. ground (arith, i.fresh q, here);
      unused = λ q h. ground (arith, i.unused q, here);
      main = λ j. ground (arith, i.main j, here);
      current = λ j a m. ground (arith, i.current j, here);
      up = λ j a e m. ground (arith, i.up j, i.current j, here);
      leaving = λ j a e. ground (arith, i.leaving j, i.current j, here);
      left = λ j m a e me. ground (arith, i.left j m, i.current j, i.leaving j, here);
      next = λ j m e. ground (arith, i.next j m, here);
      arriving = λ j m e. ground (arith, i.arriving j m, here);
    }
create_new-Placed false size_of stack_size mem s place c i =
    let here = i.unused (mem + stack_size - size_of) in
    record {
      queued = λ j q h. ground (arith, i.queued j q, here);
      once = i.once;
      parked = λ q h. ground (arith, i.parked q, here);
      cached = λ q h. ground (arith, i.cached q, here);
      fresh = λ q h. ground (arith, i.fresh q, here);
      unused = λ q h. ground (arith, i.unused q, here);
      main = λ j. ground (arith, i.main j, here);
      current = λ j a m. ground (arith, i.current j, here);
      up = λ j a e m. ground (arith, i.up j, i.current j, here);
      leaving = λ j a e. ground (arith, i.leaving j, i.current j, here);
      left = λ j m a e me. ground (arith, i.left j m, i.current j, i.leaving j, here);
      next = λ j m e. ground (arith, i.next j m, here);
      arriving = λ j m e. ground (arith, i.arriving j m, here);
    }
