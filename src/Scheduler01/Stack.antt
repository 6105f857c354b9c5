-- ===== src/Scheduler01/Stack.antt =====
-- src/runtime/schedulers/Scheduler_01.h: the stack of the kThreads that wait, kept by every operation.
use u_threads.Base.{
  ℕ, ◌≡◌, ◌≢◌, ◌⊎◌, refl, ◌∙◌, sym, ap, subst, inl, inr, Bool, true, false, Bool-cases, List, [],
  ◌∷◌, some, ◌==◌, if◌then◌else◌, has, Distinct, length, length-drop, arith,
}
use u_threads.Scheduler01.Share.{finish_pop}
use u_threads.Scheduler01.{
  KtState, running, waiting, notified, Scheduler, notify_one, move_share, wake_back, un_block,
  stack_push, stack_remove, wake_rest, wait, awake,
}

abbrev pub is_waiting : KtState → Bool
is_waiting running = false
is_waiting waiting = true
is_waiting notified = false

-- The stack holds the kThreads that wait, each once; a kThread that was notified has its flag set.
pub record Core (s : Scheduler) : Type 0 where
  pub counts : s.size ≡ length s.queue
  pub distinct : Distinct s.kt_stack
  pub on_stack : (k : ℕ) → has k s.kt_stack ≡ is_waiting (s.kt_state k)
  pub flagged : (k : ℕ) → s.kt_state k ≡ notified → s.cv_flag k ≡ true

abbrev pub Noticed : Scheduler → Type 0
Noticed s = (s.kt_stack ≡ []) ⊎ ((k : ℕ) × (s.kt_state k ≡ notified))

has-stack_remove :
    (j k : ℕ) (ks : List ℕ)
    → Distinct ks
    → has j (stack_remove k ks) ≡ (if j == k then false else has j ks)
unfolding stack_remove
has-stack_remove j k [] d = ground arith
has-stack_remove j k (x ∷ xs) d = elim (Bool-cases (k == x)) [
  | inl z ↦
      let kx : k ≡ x = ground arith in
      elim (Bool-cases (j == k)) [
        | inl t ↦ let jx : j ≡ x = ground arith in rw (z, t, jx) d.0
        | inr t ↦ let ne : (j == x) ≡ false = ground arith in rw (z, t, ne) refl
      ]
  | inr z ↦ rw (z, has-stack_remove j k xs d.1) (ground arith)
]

Distinct-stack_remove : (k : ℕ) (ks : List ℕ) → Distinct ks → Distinct (stack_remove k ks)
unfolding stack_remove
Distinct-stack_remove k [] d = tt
Distinct-stack_remove k (x ∷ xs) d = elim (Bool-cases (k == x)) [
  | inl z ↦ rw z d.1
  | inr z ↦ rw z (ground (arith, has-stack_remove x k xs d.1, d.0), Distinct-stack_remove k xs d.1)
]

notify_one-waiting : (st : KtState) → is_waiting st ≡ true → notify_one st ≡ notified
unfolding notify_one
notify_one-waiting running h = ground arith
notify_one-waiting waiting h = refl
notify_one-waiting notified h = refl

pub wake_back-Core :
    (ks : List ℕ) (s : Scheduler)
    → s.kt_stack ≡ ks
    → Core s
    → Core (wake_back ks s) × Noticed (wake_back ks s)
unfolding wake_back
wake_back-Core [] s e i = (i, inl e)
wake_back-Core (k ∷ ks) s e i =
    let was : is_waiting (s.kt_state k) ≡ true = sym (i.on_stack k) ∙ rw e (ground arith) in
    let out : Distinct (k ∷ ks) = subst Distinct e i.distinct in
    let now = notify_one-waiting (s.kt_state k) was in
    (
      record {
        counts = i.counts;
        distinct = out.1;
        on_stack = λ j. elim (Bool-cases (j == k)) [
          | inl t ↦ let jk : j ≡ k = ground arith in rw (jk, now) (ground (arith, out.0))
          | inr t ↦ ground (arith, i.on_stack j, e, t)
        ];
        flagged = λ j h. elim (Bool-cases (j == k)) [
          | inl t ↦ rw t refl
          | inr t ↦ ground (arith, i.flagged j, h, t)
        ];
      },
      inr (k, ground (arith, now)),
    )

pub un_block-Core : (s : Scheduler) → Core s → Core (un_block s) × Noticed (un_block s)
unfolding un_block
un_block-Core s i = wake_back-Core s.kt_stack s refl i

abbrev pub StaysRunning : Scheduler → Scheduler → Type 0
StaysRunning s s' = (j : ℕ) → s.kt_state j ≡ running → s'.kt_state j ≡ running

wake_back-StaysRunning : (ks : List ℕ) (s : Scheduler) → StaysRunning s (wake_back ks s)
unfolding wake_back notify_one
wake_back-StaysRunning [] s j h = h
wake_back-StaysRunning (k ∷ ks) s j h = elim (Bool-cases (j == k)) [
  | inl t ↦ let jk : j ≡ k = ground arith in rw (t, sym (ap s.kt_state jk), h) refl
  | inr t ↦ rw t h
]

pub un_block-StaysRunning : (s : Scheduler) → StaysRunning s (un_block s)
unfolding un_block
un_block-StaysRunning s = wake_back-StaysRunning s.kt_stack s

-- After the end of a call, a kThread was notified if uThreads are left and kThreads wait.
pub record Kept (s s' : Scheduler) : Type 0 where
  pub core : Core s'
  pub noticed : s'.size ≢ 0 → Noticed s'
  pub stays : StaysRunning s s'

pub move_share-Core : (numkt k : ℕ) (s : Scheduler) → Core s → Core (move_share numkt k s).1
unfolding move_share
move_share-Core numkt k s i = record {
  counts = ground (arith, i.counts, length-drop (move_share numkt k s).0 s.queue);
  distinct = i.distinct;
  on_stack = i.on_stack;
  flagged = i.flagged;
}

finish-Kept :
    (b : Bool) (s : Scheduler) → (b ≡ (s.size == 0)) → Core s → Kept s (if b then s else un_block s)
unfolding un_block
finish-Kept true s e i = record {
  core = i;
  noticed = λ ne. absurd (ground arith);
  stays = λ j h. h;
}
finish-Kept false s e i =
    let (c, n) = wake_back-Core s.kt_stack s refl i in
    record { core = c; noticed = λ ne. n; stays = wake_back-StaysRunning s.kt_stack s }

pub finish_pop-Kept : (numkt k : ℕ) (s : Scheduler) → Core s → Kept s (finish_pop numkt k s).1
unfolding move_share wake_rest
finish_pop-Kept numkt k s i =
    let s1 = (move_share numkt k s).1 in
    let kept = finish-Kept (s1.size == 0) s1 refl (move_share-Core numkt k s i) in
    record { core = kept.core; noticed = kept.noticed; stays = kept.stays }

-- A kThread wakes up when it was notified, or spuriously before that.
abbrev pub Wakes : ℕ → Scheduler → Type 0
Wakes k s = (s.kt_state k ≡ notified) ⊎ ((s.kt_state k ≡ waiting) × (s.cv_flag k ≡ false))

pub awake-Core : (k : ℕ) (s : Scheduler) → Wakes k s → Core s → Core (awake k s)
unfolding awake
awake-Core k s (inl n) i = record {
  counts = i.counts;
  distinct = rw (i.flagged k n) i.distinct;
  on_stack = λ j. elim (Bool-cases (j == k)) [
    | inl t ↦
        let jk : j ≡ k = ground arith in rw (t, jk, i.flagged k n) (i.on_stack k ∙ ap is_waiting n)
    | inr t ↦ ground (arith, i.on_stack j, i.flagged k n)
  ];
  flagged = λ j h. ground (arith, i.flagged j, h);
}
awake-Core k s (inr (w, f)) i = record {
  counts = i.counts;
  distinct = rw f (Distinct-stack_remove k s.kt_stack i.distinct);
  on_stack = λ j. ground (arith, has-stack_remove j k s.kt_stack i.distinct, i.on_stack j, f);
  flagged = λ j h. ground (arith, i.flagged j, h);
}

-- The wait of a kThread that is not on the stack, and of one that is.
pub wait-Core_push :
    (k : ℕ) (s : Scheduler)
    → is_waiting (s.kt_state k) ≡ false
    → Core s
    → (stack_push k s.kt_stack ≡ some (k ∷ s.kt_stack)) × Core (wait k s (k ∷ s.kt_stack)).1
unfolding stack_push wait
wait-Core_push k s out i =
    let off : has k s.kt_stack ≡ false = i.on_stack k ∙ out in
    (
      rw off refl,
      record {
        counts = i.counts;
        distinct = (off, i.distinct);
        on_stack = λ j. ground (arith, i.on_stack j);
        flagged = λ j h. ground (arith, i.flagged j, h);
      },
    )

pub wait-Core_again :
    (k : ℕ) (s : Scheduler) → s.kt_state k ≡ waiting → Core s → Core (wait k s s.kt_stack).1
unfolding wait
wait-Core_again k s w i = record {
  counts = i.counts;
  distinct = i.distinct;
  on_stack = λ j. elim (Bool-cases (j == k)) [
    | inl t ↦ let jk : j ≡ k = ground arith in rw (t, jk) (i.on_stack k ∙ ap is_waiting w)
    | inr t ↦ ground (arith, i.on_stack j)
  ];
  flagged = λ j h. ground (arith, i.flagged j, h);
}
