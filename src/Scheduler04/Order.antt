-- ===== src/Scheduler04/Order.antt =====
-- src/runtime/schedulers/Scheduler_04.h: the run queue is first in, first out, and nodes go round.
use u_threads.Base.{
  ℕ, ◌≡◌, ◌≢◌, refl, Bool, true, false, List, [], ◌∷◌, ◌++◌, Option, none, some, ◌>>=◌, has,
  Succeeds, arith,
}
use u_threads.RunQueue.{RunQueue, ChoseNone, Chose}
use u_threads.RunQueue.Calls.{Call, run_calls, spec_calls, AllFresh, calls-Refines}
use u_threads.Scheduler04.{
  Scheduler, Next, none_to_run, main_ut, ut_to_run, schedule, non_blocking_switch,
}
use u_threads.Scheduler04.Nodes.{Holds, schedule-Holds}
use u_threads.Scheduler04.Switches.{switch-nil, switch-cons}

-- A state stands for the uThreads of the nodes behind the head.
abbrev pub Queues : ℕ → Scheduler → List ℕ → Type 0
Queues fresh s xs = (nodes : List ℕ) × Holds fresh s xs nodes

unfoldable pub chosen : Next → Option ℕ
chosen none_to_run = none
chosen main_ut = none
chosen (ut_to_run ut) = some ut

-- What a kThread gets from `nonBlockingSwitch`: none if it keeps its uThread or runs `mainUT`.
unfoldable pub choose : ℕ → Bool → Scheduler → Option (Option ℕ × Scheduler)
unfolding chosen non_blocking_switch
choose fresh is_yield s = do (r, s') ← non_blocking_switch fresh is_yield s; some (chosen r, s')

pub schedule-snoc :
    (fresh ut : ℕ) (s : Scheduler) (xs : List ℕ)
    → ut ≢ 0
    → has ut xs ≡ false
    → Queues fresh s xs
    → Succeeds (λ s'. Queues fresh s' (xs ++ ut ∷ [])) (schedule ut s)
schedule-snoc fresh ut s xs ne out (nodes, i) =
    let (s', e, i', sem) = schedule-Holds fresh ut s xs nodes i out in
    rw e (nodes ++ s.node_of ut ∷ [], i')

pub choose-nil :
    (fresh : ℕ) (is_yield : Bool) (s : Scheduler)
    → Queues fresh s []
    → Succeeds (ChoseNone (Queues fresh)) (choose fresh is_yield s)
unfolding choose chosen
choose-nil fresh true s (nodes, i) =
    let (e, i') = switch-nil fresh true s nodes i in rw e (refl, (nodes, i'))
choose-nil fresh false s (nodes, i) =
    let (e, i') = switch-nil fresh false s nodes i in rw e (refl, (nodes, i'))

pub choose-cons :
    (fresh : ℕ) (is_yield : Bool) (s : Scheduler) (x : ℕ) (xs : List ℕ)
    → Queues fresh s (x ∷ xs)
    → Succeeds (Chose (Queues fresh) x xs) (choose fresh is_yield s)
unfolding choose chosen
choose-cons fresh is_yield s x xs ([], i) = absurd (ground (arith, i.states))
choose-cons fresh is_yield s x xs (n ∷ ns, i) =
    let (e, i') = switch-cons fresh x n is_yield s xs ns i in rw e (refl, (ns, i'))

abbrev pub node_queue : ℕ → Bool → RunQueue
node_queue fresh is_yield = record {
  Queue = Scheduler;
  Holds = Queues fresh;
  schedule = schedule;
  choose = choose fresh is_yield;
  schedule-snoc = schedule-snoc fresh;
  choose-nil = choose-nil fresh is_yield;
  choose-cons = choose-cons fresh is_yield;
}

-- Any calls of `schedule` and `nonBlockingSwitch` that schedule no uThread twice take the uThreads in
-- the order in which they were scheduled, each once, and leave a state in which exactly the uThreads
-- outside the queue own a node, each its own: the node that a switch gives to a uThread is never in use.
pub nodes-in_order :
    (fresh : ℕ) (is_yield : Bool) (cs : List Call) (s : Scheduler) (xs : List ℕ)
    → AllFresh cs xs
    → Queues fresh s xs
    → (s' : Scheduler) × (run_calls (node_queue fresh is_yield) cs s
        ≡ some ((spec_calls cs xs).0, s'))
      × Queues fresh s' (spec_calls cs xs).1
nodes-in_order fresh is_yield cs s xs f i = calls-Refines (node_queue fresh is_yield) cs s xs f i
