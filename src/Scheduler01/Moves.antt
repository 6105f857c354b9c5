-- ===== src/Scheduler01/Moves.antt =====
-- src/runtime/schedulers/Scheduler_01.h: what the operations of a kThread do to the run queue
-- and to its local queue.
use u_threads.Base.{
  ℕ, zero, suc, ◌-◌, ◌≡◌, refl, sym, ap, inl, inr, Bool, true, false, Bool-cases, List, [], ◌∷◌,
  ◌++◌, append-nil, Option, none, some, ◌==◌, if◌then◌else◌, update, length, take, drop,
  take-append-drop, length-drop, arith, Ensures, bind-Ensures, bind-Ensures_any, Ensures-imp, ◌∙◌,
}
use u_threads.Scheduler01.Run.{left_queue, ran_of}
use u_threads.Scheduler01.Switch.{
  after_try, is_empty, non_blocking_switch, take_from, take_local, Next,
}
use u_threads.Scheduler01.Share.{finish_pop, pop_finish-divides, pop_finish-faults}
use u_threads.Scheduler01.{
  stack_push, wait, awake, Scheduler, move_share, remove_many, wake_rest, wake_back, un_block,
  try_pop_many, pop_finish, pop_many, pop_many_wake,
}

-- Between two states one kThread moves the front of the run queue to its local queue, and runs
-- uThreads from the front of that.
pub record Moves (k : ℕ) (ran : List ℕ) (s s' : Scheduler) : Type 0 where
  pub front : left_queue s.queue s'.queue ++ s'.queue ≡ s.queue
  pub mine : ran ++ s'.lrq k ≡ s.lrq k ++ left_queue s.queue s'.queue
  pub others : (j : ℕ) → (j == k) ≡ false → s'.lrq j ≡ s.lrq j

left_queue-drop : (n : ℕ) (xs : List ℕ) → left_queue xs (drop n xs) ≡ take n xs
unfolding left_queue
left_queue-drop zero xs =
    let none_left : length xs - length xs ≡ 0 = omega arith in rw none_left refl
left_queue-drop (suc n) [] = refl
left_queue-drop (suc n) (x ∷ xs) =
    let more : suc (length xs) - length (drop n xs) ≡ suc (length xs - length (drop n xs)) =
      omega (arith, length-drop n xs) in
    rw more (ap (λ ys. x ∷ ys) (left_queue-drop n xs))

Moves-drop :
    (n k : ℕ) (s s' : Scheduler)
    → s'.queue ≡ drop n s.queue
    → s'.lrq ≡ update s.lrq k (s.lrq k ++ take n s.queue)
    → Moves k [] s s'
Moves-drop n k s s' q l = record {
  front = rw (q, left_queue-drop n s.queue) (take-append-drop n s.queue);
  mine = rw (q, left_queue-drop n s.queue, l) (ground arith);
  others = λ j ne. rw l (ground arith);
}

pub Moves-none : (k : ℕ) (s s' : Scheduler) → s'.queue ≡ s.queue → s'.lrq ≡ s.lrq → Moves k [] s s'
Moves-none k s s' q l = record {
  front = rw (q, left_queue-drop 0 s.queue) refl;
  mine = rw (q, left_queue-drop 0 s.queue, l) (sym (append-nil (s.lrq k)));
  others = λ j ne. rw l refl;
}

wake_back-same :
    (ks : List ℕ) (s : Scheduler)
    → ((wake_back ks s).queue ≡ s.queue) × ((wake_back ks s).lrq ≡ s.lrq)
unfolding wake_back
wake_back-same [] s = (refl, refl)
wake_back-same (k ∷ ks) s = (refl, refl)

pub finish-same :
    (b : Bool) (s : Scheduler)
    → ((if b then s else un_block s).queue ≡ s.queue) × ((if b then s else un_block s).lrq ≡ s.lrq)
unfolding un_block
finish-same true s = (refl, refl)
finish-same false s = wake_back-same s.kt_stack s

finish_pop-Moves : (numkt k : ℕ) (s : Scheduler) → Moves k [] s (finish_pop numkt k s).1
unfolding move_share wake_rest
finish_pop-Moves numkt k s =
    let s1 = (move_share numkt k s).1 in
    let (q, l) = finish-same (s1.size == 0) s1 in
    Moves-drop (move_share numkt k s).0 k s (finish_pop numkt k s).1 q l

abbrev pub Moved : ℕ → Scheduler → Option ℕ × Scheduler → Type 0
Moved k s (n, s') = Moves k [] s s'

pop_finish-Moves : (numkt k : ℕ) (s : Scheduler) → Ensures (Moved k s) (pop_finish numkt k s)
pop_finish-Moves numkt k s = elim (Bool-cases (numkt == 0)) [
  | inl z ↦ rw (pop_finish-faults numkt k s z) tt
  | inr z ↦ rw (pop_finish-divides numkt k s z) (finish_pop-Moves numkt k s)
]

pub pop_many-Moves : (numkt k : ℕ) (s : Scheduler) → Ensures (Moved k s) (pop_many numkt k s)
unfolding pop_many wait
pop_many-Moves numkt k s = elim (Bool-cases (s.size == 0)) [
  | inl z ↦
      let s1 = record s { cv_flag = update s.cv_flag k false } in
      rw z (
        bind-Ensures_any (Moved k s) (stack_push k s.kt_stack) (λ ks. some (wait k s1 ks))
          (λ ks. Moves-none k s (wait k s1 ks).1 refl refl))
  | inr z ↦ rw z (pop_finish-Moves numkt k s)
]

pub pop_many_wake-Moves :
    (numkt k : ℕ) (s : Scheduler) → Ensures (Moved k s) (pop_many_wake numkt k s)
unfolding pop_many_wake wait awake
pop_many_wake-Moves numkt k s = elim (Bool-cases (s.size == 0)) [
  | inl z ↦ rw z (
      bind-Ensures_any (Moved k s)
        (if s.cv_flag k then stack_push k s.kt_stack else some s.kt_stack)
        (λ ks. some (wait k s ks)) (λ ks. Moves-none k s (wait k s ks).1 refl refl))
  | inr z ↦ rw z (
      Ensures-imp (Moved k (awake k s)) (Moved k s) (pop_finish numkt k (awake k s))
        (pop_finish-Moves numkt k (awake k s))
        (λ (n, s') m. record { front = m.front; mine = m.mine; others = m.others }))
]

pub un_block-same : (s : Scheduler) → ((un_block s).queue ≡ s.queue) × ((un_block s).lrq ≡ s.lrq)
unfolding un_block
un_block-same s = wake_back-same s.kt_stack s

-- A kThread takes the front of its local queue.
pub record Takes (k : ℕ) (ran : List ℕ) (s s' : Scheduler) : Type 0 where
  pub same : s'.queue ≡ s.queue
  pub mine : ran ++ s'.lrq k ≡ s.lrq k
  pub others : (j : ℕ) → (j == k) ≡ false → s'.lrq j ≡ s.lrq j

pub take_from-Takes :
    (uts : List ℕ) (k : ℕ) (s : Scheduler)
    → s.lrq k ≡ uts
    → Ensures (λ r. Takes k (ran_of r.0) s r.1) (take_from uts k s)
unfolding take_from ran_of
take_from-Takes [] k s e = tt
take_from-Takes (ut ∷ uts) k s e = record {
  same = refl;
  mine = ground (arith, e);
  others = λ j ne. ground arith;
}

pub Moves-Takes :
    (k : ℕ) (ran : List ℕ) (s s1 s2 : Scheduler)
    → Moves k [] s s1
    → Takes k ran s1 s2
    → Moves k ran s s2
Moves-Takes k ran s s1 s2 m t = record {
  front = rw t.same m.front;
  mine = rw t.same (t.mine ∙ m.mine);
  others = λ j ne. t.others j ne ∙ m.others j ne;
}

abbrev pub Taken : ℕ → Scheduler → Next × Scheduler → Type 0
Taken k s (r, s') = Takes k (ran_of r) s s'

abbrev pub Switches : ℕ → Scheduler → Next × Scheduler → Type 0
Switches k s (r, s') = Moves k (ran_of r) s s'

after_try-Switches :
    (is_yield : Bool) (k : ℕ) (s : Scheduler) (n : Option ℕ) (s1 : Scheduler)
    → Moves k [] s s1
    → Ensures (Switches k s) (after_try is_yield k (n, s1))
unfolding after_try take_local ran_of
after_try-Switches is_yield k s none s1 m = m
after_try-Switches true k s (some zero) s1 m = m
after_try-Switches false k s (some zero) s1 m = m
after_try-Switches is_yield k s (some (suc n)) s1 m =
    Ensures-imp (Taken k s1) (Switches k s) (take_from (s1.lrq k) k s1)
      (take_from-Takes (s1.lrq k) k s1 refl) (λ r t. Moves-Takes k (ran_of r.0) s s1 r.1 m t)

try_pop_many-Moves :
    (owns_lock : Bool) (numkt k : ℕ) (s : Scheduler)
    → Ensures (Moved k s) (try_pop_many owns_lock numkt k s)
unfolding try_pop_many remove_many move_share
try_pop_many-Moves false numkt k s = Moves-none k s s refl refl
try_pop_many-Moves true numkt k s = elim (Bool-cases (s.size == 0)) [
  | inl z ↦ rw z (Moves-none k s s refl refl)
  | inr z ↦ elim (Bool-cases (numkt == 0)) [
    | inl none_kt ↦ rw (z, none_kt) tt
    | inr some_kt ↦
        rw (z, some_kt) (Moves-drop (move_share numkt k s).0 k s (move_share numkt k s).1 refl refl)
  ]
]

pub non_blocking_switch-Switches :
    (owns_lock : Bool) (numkt : ℕ) (is_yield : Bool) (k : ℕ) (s : Scheduler)
    → Ensures (Switches k s) (non_blocking_switch owns_lock numkt is_yield k s)
unfolding non_blocking_switch take_local
non_blocking_switch-Switches owns_lock numkt is_yield k s = elim (Bool-cases (is_empty (s.lrq k))) [
  | inl z ↦ rw z (
      bind-Ensures (Switches k s) (Moved k s) (try_pop_many owns_lock numkt k s)
        (λ r. after_try is_yield k r) (try_pop_many-Moves owns_lock numkt k s)
        (λ (n, s') m. after_try-Switches is_yield k s n s' m))
  | inr z ↦ rw z (
      Ensures-imp (Taken k s) (Switches k s) (take_from (s.lrq k) k s)
        (take_from-Takes (s.lrq k) k s refl)
        (λ r t. Moves-Takes k (ran_of r.0) s s r.1 (Moves-none k s s refl refl) t))
]
