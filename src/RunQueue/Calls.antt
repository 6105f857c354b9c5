-- ===== src/RunQueue/Calls.antt =====
-- Sequences of calls of a run queue, whichever it is: first in, first out.
use u_threads.Base.{
  ℕ, ◌≡◌, ◌≢◌, refl, false, List, [], ◌∷◌, ◌++◌, Option, none, some, ◌>>=◌, has, Succeeds-result,
}
use u_threads.RunQueue.{RunQueue, ChoseNone, Chose}

pub data Call : Type 0 where
  schedule_call : ℕ → Call
  choose_call : Call

-- The list that the queue stands for, and what the kThread gets.
unfoldable pub spec_calls : List Call → List ℕ → List (Option ℕ) × List ℕ
spec_calls [] xs = ([], xs)
spec_calls (schedule_call ut ∷ cs) xs = spec_calls cs (xs ++ ut ∷ [])
spec_calls (choose_call ∷ cs) [] = let (rs, ys) = spec_calls cs [] in (none ∷ rs, ys)
spec_calls (choose_call ∷ cs) (x ∷ xs) = let (rs, ys) = spec_calls cs xs in (some x ∷ rs, ys)

-- A uThread that is scheduled is not in the queue already.
unfoldable pub AllFresh : List Call → List ℕ → Type 0
AllFresh [] xs = Unit {0}
AllFresh (schedule_call ut ∷ cs) xs = (ut ≢ 0) × (has ut xs ≡ false) × AllFresh cs (xs ++ ut ∷ [])
AllFresh (choose_call ∷ cs) [] = AllFresh cs []
AllFresh (choose_call ∷ cs) (x ∷ xs) = AllFresh cs xs

module _ (R : RunQueue) where
  open R use {Queue, Holds, schedule, choose, schedule-snoc, choose-nil, choose-cons}

  unfoldable pub run_calls : List Call → Queue → Option (List (Option ℕ) × Queue)
  run_calls [] q = some ([], q)
  run_calls (schedule_call ut ∷ cs) q = let rest = run_calls cs in do q' ← schedule ut q; rest q'
  run_calls (choose_call ∷ cs) q =
      let rest = run_calls cs in do (r, q') ← choose q; (rs, q'') ← rest q'; some (r ∷ rs, q'')

  abbrev pub Refines : List Call → Queue → List ℕ → Type 0
  Refines cs q xs =
      (q' : Queue) × (run_calls cs q ≡ some ((spec_calls cs xs).0, q'))
      × Holds q' (spec_calls cs xs).1

  pub calls-Refines :
      (cs : List Call) (q : Queue) (xs : List ℕ) → AllFresh cs xs → Holds q xs → Refines cs q xs
  unfolding run_calls spec_calls AllFresh
  calls-Refines [] q xs f h = (q, refl, h)
  calls-Refines (schedule_call ut ∷ cs) q xs (ne, out, f) h =
      let (q1, e, h1) =
        Succeeds-result (λ q'. Holds q' (xs ++ ut ∷ [])) (schedule ut q)
          (schedule-snoc ut q xs ne out h) in
      let (q', e', h') = calls-Refines cs q1 (xs ++ ut ∷ []) f h1 in (q', rw e e', h')
  calls-Refines (choose_call ∷ cs) q [] f h =
      let ((r, q1), e, (c, h1)) = Succeeds-result (ChoseNone Holds) (choose q) (choose-nil q h) in
      let (q', e', h') = calls-Refines cs q1 [] f h1 in (q', rw (e, e', c) refl, h')
  calls-Refines (choose_call ∷ cs) q (x ∷ xs) f h =
      let ((r, q1), e, (c, h1)) =
        Succeeds-result (Chose Holds x xs) (choose q) (choose-cons q x xs h) in
      let (q', e', h') = calls-Refines cs q1 xs f h1 in (q', rw (e, e', c) refl, h')
