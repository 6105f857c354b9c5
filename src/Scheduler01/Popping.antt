-- ===== src/Scheduler01/Popping.antt =====
-- src/runtime/schedulers/Scheduler_01.h: what `__popMany` leaves, whether it waits or returns.
use u_threads.Base.{
  ℕ, ◌<◌, ◌≡◌, ◌≢◌, refl, ◌∙◌, sym, ap, subst, inl, inr, Bool, true, false, Bool-cases, List, [],
  ◌∷◌, Option, some, ◌>>=◌, ◌==◌, if◌then◌else◌, update, length, arith, Succeeds,
}
use u_threads.Scheduler01.{
  running, Scheduler, move_share, stack_push, wake_rest, wait, awake, pop_many, pop_many_wake,
}
use u_threads.Scheduler01.Share.{move_share-Share, finish_pop, pop_finish-divides}
use u_threads.Scheduler01.Moves.{finish-same}
use u_threads.Scheduler01.Stack.{
  is_waiting, Core, Noticed, finish_pop-Kept, Wakes, awake-Core, wait-Core_push, wait-Core_again,
}

-- What a call of `__popMany` by a kThread leaves, with its result if it has returned.
pub record Popped (k : ℕ) (s : Scheduler) (r : Option ℕ) (s' : Scheduler) : Type 0 where
  pub core : Core s'
  pub noticed : s'.size ≢ 0 → Noticed s'
  pub stays : (j : ℕ) → (j == k) ≡ false → s.kt_state j ≡ running → s'.kt_state j ≡ running
  pub others : (j : ℕ) → (j == k) ≡ false → s'.lrq j ≡ s.lrq j
  pub result : (n : ℕ) → r ≡ some n → (n ≢ 0) × (s'.kt_state k ≡ running) × (s'.lrq k ≢ [])

abbrev pub HasPopped : ℕ → Scheduler → Option ℕ × Scheduler → Type 0
HasPopped k s (r, s') = Popped k s r s'

pub length-pos : (xs : List ℕ) → 0 < length xs → xs ≢ []
length-pos [] h e = absurd (omega arith)
length-pos (x ∷ xs) h e = ground arith

pub move_share-others :
    (numkt k j : ℕ) (s : Scheduler) → (j == k) ≡ false → (move_share numkt k s).1.lrq j ≡ s.lrq j
unfolding move_share
move_share-others numkt k j s o = rw o refl

finish_pop-Popped :
    (numkt k : ℕ) (s : Scheduler)
    → s.kt_state k ≡ running
    → s.size ≢ 0
    → Core s
    → HasPopped k s (some (finish_pop numkt k s).0, (finish_pop numkt k s).1)
unfolding wake_rest
finish_pop-Popped numkt k s run ne i =
    let kept = finish_pop-Kept numkt k s i in
    let s1 = (move_share numkt k s).1 in
    let (share, c, l, a, len) = move_share-Share numkt k s i.counts (omega arith) in
    let (q, lrq) = finish-same (s1.size == 0) s1 in
    let more : 0 < length (s1.lrq k) = omega (arith, len, share.some_work) in
    record {
      core = kept.core;
      noticed = kept.noticed;
      stays = λ j o. kept.stays j;
      others = λ j o. ap (λ f. f j) lrq ∙ move_share-others numkt k j s o;
      result = λ n e. (
        ground (arith, e, share.some_work),
        kept.stays k run,
        length-pos _ (subst (λ f. 0 < length (f k)) (sym lrq) more),
      );
    }

wait-Popped :
    (k : ℕ) (s : Scheduler) (flags : ℕ → Bool) (ks : List ℕ)
    → (s.size == 0) ≡ true
    → let r = wait k (record s { cv_flag = flags }) ks in Core r.1 → HasPopped k s r
unfolding wait
wait-Popped k s flags ks z i = record {
  core = i;
  noticed = λ ne. absurd (ground arith);
  stays = λ j o h. rw o h;
  others = λ j o. refl;
  result = λ n e. absurd (ground arith);
}

reset-Core :
    (k : ℕ) (s : Scheduler)
    → s.kt_state k ≡ running
    → Core s
    → Core (record s { cv_flag = update s.cv_flag k false })
reset-Core k s run i = record {
  counts = i.counts;
  distinct = i.distinct;
  on_stack = i.on_stack;
  flagged = λ j h. elim (Bool-cases (j == k)) [
    | inl t ↦ let jk : j ≡ k = ground arith in absurd (ground (arith, ap s.kt_state jk))
    | inr t ↦ rw t (i.flagged j h)
  ];
}

pub pop_many-Popped :
    (numkt k : ℕ) (s : Scheduler)
    → 0 < numkt
    → s.kt_state k ≡ running
    → Core s
    → Succeeds (HasPopped k s) (pop_many numkt k s)
unfolding pop_many
pop_many-Popped numkt k s some_kt run i = elim (Bool-cases (s.size == 0)) [
  | inl z ↦
      let s1 = record s { cv_flag = update s.cv_flag k false } in
      let (e, c) = wait-Core_push k s1 (ap is_waiting run) (reset-Core k s run i) in
      rw (z, e) (wait-Popped k s s1.cv_flag (k ∷ s.kt_stack) z c)
  | inr z ↦
      rw (z, pop_finish-divides numkt k s (ground (arith, some_kt)))
        (finish_pop-Popped numkt k s run (ground arith) i)
]

awake-running : (k : ℕ) (s : Scheduler) → (awake k s).kt_state k ≡ running
unfolding awake
awake-running k s = ground arith

awake-Popped :
    (k : ℕ) (s : Scheduler) (r : Option ℕ × Scheduler) → HasPopped k (awake k s) r → HasPopped k s r
unfolding awake
awake-Popped k s r p = record {
  core = p.core;
  noticed = p.noticed;
  stays = λ j o h. p.stays j o (rw o h);
  others = p.others;
  result = p.result;
}

wake-Popped :
    (k : ℕ) (s : Scheduler)
    → Wakes k s
    → (s.size == 0) ≡ true
    → Core s
    → Succeeds (HasPopped k s) (
        (if s.cv_flag k then stack_push k s.kt_stack else some s.kt_stack)
        >>= (λ ks. some (wait k s ks)))
wake-Popped k s (inl n) z i =
    let (e, c) = wait-Core_push k s (ap is_waiting n) i in
    rw (i.flagged k n, e) (wait-Popped k s s.cv_flag (k ∷ s.kt_stack) z c)
wake-Popped k s (inr (w, f)) z i =
    rw f (wait-Popped k s s.cv_flag s.kt_stack z (wait-Core_again k s w i))

pub pop_many_wake-Popped :
    (numkt k : ℕ) (s : Scheduler)
    → 0 < numkt
    → Wakes k s
    → Core s
    → Succeeds (HasPopped k s) (pop_many_wake numkt k s)
unfolding pop_many_wake awake
pop_many_wake-Popped numkt k s some_kt w i = elim (Bool-cases (s.size == 0)) [
  | inl z ↦ rw z (wake-Popped k s w z i)
  | inr z ↦
      let t = awake k s in
      rw (z, pop_finish-divides numkt k t (ground (arith, some_kt)))
        (awake-Popped k s (some (finish_pop numkt k t).0, (finish_pop numkt k t).1)
          (finish_pop-Popped numkt k t (awake-running k s) (λ e. absurd (ground arith))
            (awake-Core k s w i)))
]
