-- ===== src/Sync/Semaphore/Queues.antt =====
-- The mutex of a `Semaphore` and its blocking queue, as its users come and go.
use u_threads.Base.{
  ℕ, ◌≡◌, refl, ◌≢◌, ◌<◌, ◌+◌, ◌↔◌, inl, inr, Bool, true, false, List, [], ◌∷◌, ◌++◌, arith, ◌==◌,
  update, has, has-append, Distinct, Distinct-snoc, Bool-cases,
}
use u_threads.Sync.{MutexState, acquire, release, push_back}
use u_threads.Sync.Semaphore.{
  Pc, outside, p_lock, v_lock, p_body, v_body, blocked, System, enter, resume_all, resumed,
}

abbrev pub in_body : Pc → Bool
in_body outside = false
in_body p_lock = false
in_body v_lock = false
in_body p_body = true
in_body v_body = true
in_body blocked = false

abbrev pub at_lock : Pc → Bool
at_lock outside = false
at_lock p_lock = true
at_lock v_lock = true
at_lock p_body = false
at_lock v_body = false
at_lock blocked = false

-- The mutex: its owner is the one uThread in a body, and its queue holds those at its lock.
pub record Lock (owner : ℕ) (mq : List ℕ) (pc : ℕ → Pc) : Type 0 where
  pub free : owner ≡ 0 → mq ≡ []
  pub owns : (t : ℕ) → in_body (pc t) ≡ true → (t ≡ owner) × (t ≢ 0)
  pub owned : owner ≢ 0 → in_body (pc owner) ≡ true
  pub waits : (t : ℕ) → has t mq ≡ true → (at_lock (pc t) ≡ true) × (t ≢ 0)
  pub queued : (t : ℕ) → at_lock (pc t) ≡ true → has t mq ≡ true
  pub once : Distinct mq

-- The semaphore's queue.
pub record Sleepers (bq : List ℕ) (pc : ℕ → Pc) : Type 0 where
  pub sleeps : (t : ℕ) → has t bq ≡ true → (pc t ≡ blocked) × (t ≢ 0)
  pub asleep : (t : ℕ) → pc t ≡ blocked → has t bq ≡ true
  pub each : Distinct bq

pub record Inv (c : ℕ) (s : System) : Type 0 where
  pub lock : Lock s.sem.mutex.owner s.sem.mutex.bq s.pc
  pub sleepers : Sleepers s.sem.bq s.pc
  pub none_waits : 0 < s.sem.counter → s.sem.bq ≡ []
  pub count : c + s.given ≡ s.sem.counter + s.taken

pub enter-Inv :
    (c : ℕ) (lock body : Pc) (s : System) (me : ℕ)
    → at_lock lock ≡ true
    → in_body body ≡ true
    → me ≢ 0
    → s.pc me ≡ outside
    → Inv c s
    → Inv c (enter lock body me s)
unfolding enter acquire
enter-Inv c lock body s me l b ne out iv =
    let i = iv.lock in
    let k = iv.sleepers in
    elim (Bool-cases (s.sem.mutex.owner == 0)) [
      | inl free ↦ rw free (record {
        lock = record {
          free = λ z. absurd (ne z);
          owns = λ t e. ground (arith, i.owns t, i.owned);
          owned = λ n. ground arith;
          waits = λ t h. ground (arith, i.waits t, i.free);
          queued = λ t e. ground (arith, i.queued t);
          once = i.once;
        };
        sleepers = record {
          sleeps = λ t h. ground (arith, k.sleeps t);
          asleep = λ t e. ground (arith, k.asleep t);
          each = k.each;
        };
        none_waits = iv.none_waits;
        count = iv.count;
      })
      | inr busy ↦ rw busy (record {
        lock = record {
          free = λ z. ground arith;
          owns = λ t e. ground (arith, i.owns t);
          owned = λ n. ground (arith, i.owned);
          waits = λ t h. ground (arith, i.waits t, has-append t s.sem.mutex.bq (me ∷ []));
          queued = λ t e. ground (arith, i.queued t, has-append t s.sem.mutex.bq (me ∷ []));
          once = Distinct-snoc me s.sem.mutex.bq (ground (arith, i.waits me)) i.once;
        };
        sleepers = record {
          sleeps = λ t h. ground (arith, k.sleeps t);
          asleep = λ t e. ground (arith, k.asleep t);
          each = k.each;
        };
        none_waits = iv.none_waits;
        count = iv.count;
      })
    ]

abbrev pub mutex_of : ℕ → List ℕ → MutexState
mutex_of owner mq = record { owner = owner; bq = mq }

-- The owner leaves its body and releases the mutex.
pub leave-Lock :
    (owner : ℕ) (mq : List ℕ) (pc : ℕ → Pc) (me : ℕ) (next : Pc)
    → in_body (pc me) ≡ true
    → in_body next ≡ false
    → at_lock next ≡ false
    → Lock owner mq pc
    → Lock
        (release (mutex_of owner mq)).0.owner
        (release (mutex_of owner mq)).0.bq
        (resume_all (release (mutex_of owner mq)).1 (update pc me next))
unfolding release
leave-Lock owner [] pc me next b nb nl i = record {
  free = λ z. refl;
  owns = λ t e. ground (arith, i.owns t, i.owns me);
  owned = λ n. absurd (n refl);
  waits = λ t h. absurd (cc);
  queued = λ t e. ground (arith, i.queued t);
  once = tt;
}
leave-Lock owner (x ∷ mq) pc me next b nb nl i = record {
  free = λ z. ground (arith, i.waits x);
  owns = λ t e. ground (arith, i.owns t, i.owns me, i.waits x);
  owned = λ n. ground (arith, i.waits x);
  waits = λ t h. ground (arith, i.waits t, i.owns me);
  queued = λ t e. ground (arith, i.queued t);
  once = i.once.1;
}

-- That wakes or suspends nobody else.
pub leave_blocked :
    (owner : ℕ) (mq : List ℕ) (pc : ℕ → Pc) (me : ℕ) (next : Pc) (t : ℕ)
    → in_body (pc me) ≡ true
    → Lock owner mq pc
    → t ≢ me
    → (resume_all (release (mutex_of owner mq)).1 (update pc me next) t ≡ blocked)
      ↔ (pc t ≡ blocked)
unfolding release
leave_blocked owner [] pc me next t b i ne = (λ e. ground arith, λ e. ground arith)
leave_blocked owner (x ∷ mq) pc me next t b i ne =
    (λ e. ground (arith, i.waits x), λ e. ground (arith, i.waits x))

pub leave_me :
    (owner : ℕ) (mq : List ℕ) (pc : ℕ → Pc) (me : ℕ) (next : Pc)
    → in_body (pc me) ≡ true
    → Lock owner mq pc
    → resume_all (release (mutex_of owner mq)).1 (update pc me next) me ≡ next
unfolding release
leave_me owner [] pc me next b i = ground arith
leave_me owner (x ∷ mq) pc me next b i = ground (arith, i.waits x)

-- Two states of the uThreads that agree on who is suspended on the semaphore, but for `me`.
abbrev pub AlikeBut : ℕ → (ℕ → Pc) → (ℕ → Pc) → Type 0
AlikeBut me pc pc' = (t : ℕ) → t ≢ me → (pc' t ≡ blocked) ↔ (pc t ≡ blocked)

pub Sleepers-push :
    (bq : List ℕ) (pc pc' : ℕ → Pc) (me : ℕ)
    → me ≢ 0
    → pc me ≢ blocked
    → pc' me ≡ blocked
    → AlikeBut me pc pc'
    → Sleepers bq pc
    → Sleepers (push_back me bq) pc'
Sleepers-push bq pc pc' me ne awake now alike k =
    let ha = λ (t : ℕ). has-append t bq (me ∷ []) in
    let new : has me bq ≡ false = ground (arith, k.sleeps me) in
    record {
      sleeps = λ t h. elim (Bool-cases (t == me)) [
        | inl z ↦ ground arith
        | inr z ↦ ground (arith, ha t, k.sleeps t, alike t (λ q. ground arith))
      ];
      asleep = λ t e. elim (Bool-cases (t == me)) [
        | inl z ↦ ground (arith, ha t)
        | inr z ↦ ground (arith, ha t, k.asleep t, alike t (λ q. ground arith))
      ];
      each = Distinct-snoc me bq new k.each;
    }

pub Sleepers-keep :
    (bq : List ℕ) (pc pc' : ℕ → Pc) (me : ℕ)
    → pc me ≢ blocked
    → pc' me ≢ blocked
    → AlikeBut me pc pc'
    → Sleepers bq pc
    → Sleepers bq pc'
Sleepers-keep bq pc pc' me awake now alike k = record {
  sleeps = λ t h. elim (Bool-cases (t == me)) [
    | inl z ↦ absurd (ground (arith, k.sleeps t))
    | inr z ↦ ground (arith, k.sleeps t, alike t (λ q. ground arith))
  ];
  asleep = λ t e. elim (Bool-cases (t == me)) [
    | inl z ↦ absurd (ground arith)
    | inr z ↦ ground (arith, k.asleep t, alike t (λ q. ground arith))
  ];
  each = k.each;
}

pub Sleepers-wake :
    (x : ℕ) (bq : List ℕ) (pc : ℕ → Pc)
    → Sleepers (x ∷ bq) pc
    → Sleepers bq (update pc x (resumed (pc x)))
Sleepers-wake x bq pc k = record {
  sleeps = λ t h. ground (arith, k.sleeps t);
  asleep = λ t e. ground (arith, k.asleep t, k.sleeps x);
  each = k.each.1;
}

pub wake-Lock :
    (owner : ℕ) (mq : List ℕ) (pc : ℕ → Pc) (x : ℕ)
    → pc x ≡ blocked
    → Lock owner mq pc
    → Lock owner mq (update pc x (resumed (pc x)))
wake-Lock owner mq pc x b i = record {
  free = i.free;
  owns = λ t e. ground (arith, i.owns t);
  owned = λ n. ground (arith, i.owned);
  waits = λ t h. ground (arith, i.waits t);
  queued = λ t e. ground (arith, i.queued t);
  once = i.once;
}

pub resume_all-append :
    (xs ys : List ℕ) (pc : ℕ → Pc) → resume_all (xs ++ ys) pc ≡ resume_all ys (resume_all xs pc)
resume_all-append [] ys pc = refl
resume_all-append (x ∷ xs) ys pc = resume_all-append xs ys (update pc x (resumed (pc x)))
