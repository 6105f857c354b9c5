-- ===== src/Cache/Tests.antt =====
-- A cache of size 2 that is filled, refuses a third uThread and a caller without the lock, and
-- gives the last one first.
use u_threads.Base.{◌≡◌, refl, true, false, [], ◌∷◌, some, none, arith, List}
use u_threads.UThread.{new_uthread}
use u_threads.Cache.{Store, new_cache}
use u_threads.Cache.Laws.{
  Call, pushed, popped, push_call, pop_call, run_calls, spec_calls, IsCache, AllFresh, Fresh, spec,
  calls-refine, new_cache-IsCache,
}

abbrev start : Store
start = record {
  cache = new_cache 2;
  links = record { prev = λ _. 0; next = λ _. 0 };
  uts = λ p. new_uthread p 0 0 p;
}

abbrev calls : List Call
calls =
    push_call true 8
    ∷ push_call false 16
    ∷ push_call true 16
    ∷ push_call true 24
    ∷ pop_call true
    ∷ pop_call true
    ∷ pop_call true
    ∷ []

calls-AllFresh : AllFresh 2 calls []
unfolding AllFresh Fresh spec
calls-AllFresh = ground arith

calls-refine_example :
    (s' : Store) × (run_calls calls start ≡ some ((spec_calls 2 calls []).0, s'))
    × IsCache 2 s' (spec_calls 2 calls []).1
calls-refine_example =
    calls-refine 2 calls start [] (new_cache-IsCache 2 start.links start.uts) calls-AllFresh

results : (spec_calls 2 calls []).0 ≡ (
    pushed (some 1)
    ∷ pushed none
    ∷ pushed (some 2)
    ∷ pushed none
    ∷ popped 16
    ∷ popped 8
    ∷ popped 0
    ∷ [])
unfolding spec_calls spec
results = refl
