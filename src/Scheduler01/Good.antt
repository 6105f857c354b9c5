-- ===== src/Scheduler01/Good.antt =====
-- src/runtime/schedulers/Scheduler_01.h: what holds in the scheduler between two calls, and that the
-- parts of a call keep it.
use u_threads.Base.{
  ℕ, ◌+◌, ◌<◌, ◌%◌, ◌^◌, ◌≡◌, ◌≢◌, ◌∙◌, sym, ap, inl, inr, false, Bool-cases, List, [], ◌++◌,
  Option, none, some, ◌==◌, length, length-append, arith, Succeeds, Option-cases,
}
use u_threads.Scheduler01.{running, Scheduler, un_block}
use u_threads.Scheduler01.Switch.{System, Next, take_local, next_local, popped, leave}
use u_threads.Scheduler01.Run.{Event}
use u_threads.Scheduler01.Moves.{un_block-same}
use u_threads.Scheduler01.Stack.{Core, Noticed, un_block-Core, un_block-StaysRunning, Wakes}
use u_threads.Scheduler01.Popping.{HasPopped}
use u_threads.Scheduler01.Switched.{Switched, HasSwitched, take_from-Switched, same-Switched}

-- A kThread that leaves `blockingSwitch` runs, and has uThreads.
pub record Good (s : System) : Type 0 where
  pub core : Core s.scheduler
  pub noticed : s.scheduler.size ≢ 0 → Noticed s.scheduler
  pub leaves :
      (k n : ℕ)
      → s.leaving k ≡ some n
      → (n ≢ 0) × (s.scheduler.kt_state k ≡ running) × (s.scheduler.lrq k ≢ [])

abbrev pub CallGood : Event × System → Type 0
CallGood (e, s) = Good s

pub pushed-Good :
    (s : System) (sc : Scheduler)
    → sc.lrq ≡ s.scheduler.lrq
    → sc.kt_state ≡ s.scheduler.kt_state
    → Core sc
    → Good s
    → Good (record s { scheduler = un_block sc })
pushed-Good s sc l st i g =
    let (c, n) = un_block-Core sc i in
    let (q, same) = un_block-same sc in
    record {
      core = c;
      noticed = λ ne. n;
      leaves = λ k m e.
          let (pos, run, has_work) = g.leaves k m e in
          (pos, un_block-StaysRunning sc k (rw st run), rw (same, l) has_work);
    }

pub Switched-Good :
    (k : ℕ) (s : System) (sc : Scheduler)
    → s.leaving k ≡ none
    → Switched k s.scheduler sc
    → Good s
    → Good (record s { scheduler = sc })
Switched-Good k s sc idle w g = record {
  core = w.core;
  noticed = λ ne. rw (w.stack, w.states) (g.noticed (w.fewer ne));
  leaves = λ j m e. elim (Bool-cases (j == k)) [
    | inl t ↦
        let jk : j ≡ k = ground arith in absurd (ground (arith, sym e ∙ ap s.leaving jk ∙ idle))
    | inr t ↦ rw (w.states, w.others j t) (g.leaves j m e)
  ];
}

pub popped-Good :
    (k : ℕ) (s : System) (io : ℕ) (r : Option ℕ × Scheduler)
    → s.leaving k ≡ none
    → HasPopped k s.scheduler r
    → Good s
    → Good (popped k (record s { io_sem = io }) r)
unfolding popped
popped-Good k s io (none, sc) idle p g = record {
  core = p.core;
  noticed = p.noticed;
  leaves = λ j m e. elim (Bool-cases (j == k)) [
    | inl t ↦
        let jk : j ≡ k = ground arith in absurd (ground (arith, sym e ∙ ap s.leaving jk ∙ idle))
    | inr t ↦
        let (pos, run, has_work) = g.leaves j m e in
        (pos, p.stays j t run, rw (p.others j t) has_work)
  ];
}
popped-Good k s io (some n, sc) idle p g = record {
  core = p.core;
  noticed = p.noticed;
  leaves = λ j m e. elim (Bool-cases (j == k)) [
    | inl t ↦
        let jk : j ≡ k = ground arith in
        let same : n ≡ m = ground (arith, e) in rw jk (p.result m (ap some same))
    | inr t ↦
        let (pos, run, has_work) = g.leaves j m (ground (arith, e)) in
        (pos, p.stays j t run, rw (p.others j t) has_work)
  ];
}

pub leave-Good :
    (k : ℕ) (s : System) (r : Next) (sc : Scheduler)
    → Switched k s.scheduler sc
    → Good s
    → Good (leave k s (r, sc)).1
unfolding leave
leave-Good k s r sc w g = elim (Bool-cases (s.io_sem == 0)) [
  | inl z ↦ rw z g
  | inr z ↦ rw z (record {
    core = w.core;
    noticed = λ ne. rw (w.stack, w.states) (g.noticed (w.fewer ne));
    leaves = λ j m e. elim (Bool-cases (j == k)) [
      | inl t ↦ absurd (ground (arith, e))
      | inr t ↦ rw (w.states, w.others j t) (g.leaves j m (ground (arith, e)))
    ];
  })
]

pub wake-idle : (k : ℕ) (s : System) → Wakes k s.scheduler → Good s → s.leaving k ≡ none
wake-idle k s w g = elim (Option-cases (s.leaving k)) [
  | inl e ↦ e
  | inr (n, e) ↦
      let (pos, run, has_work) = g.leaves k n e in
      elim w [
        | inl st ↦ absurd (ground (arith, sym run ∙ st))
        | inr (st, f) ↦ absurd (ground (arith, sym run ∙ st))
      ]
]

pub leaves-Succeeds :
    (k n : ℕ) (s : System)
    → s.leaving k ≡ some n
    → Good s
    → Succeeds (HasSwitched k s.scheduler) (next_local n k s.scheduler)
unfolding next_local take_local
leaves-Succeeds k n s e g =
    let (pos, run, has_work) = g.leaves k n e in
    let ne : (n == 0) ≡ false = ground (arith, pos) in
    let sc = s.scheduler in
    rw ne (take_from-Switched (sc.lrq k) k sc sc has_work (same-Switched k sc g.core))

pub grown-Core :
    (s : Scheduler) (uts : List ℕ) (n : ℕ)
    → n ≡ length uts
    → length s.queue + n < 2 ^ 32
    → Core s
    → Core (record s { queue = s.queue ++ uts; size = (s.size + n) % 2 ^ 32 })
grown-Core s uts n e lt i = record {
  counts = ground (arith, i.counts, length-append s.queue uts, e, lt);
  distinct = i.distinct;
  on_stack = i.on_stack;
  flagged = i.flagged;
}
