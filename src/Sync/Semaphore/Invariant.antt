-- ===== src/Sync/Semaphore/Invariant.antt =====
-- What a `Semaphore` counts.
use u_threads.Base.{
  ℕ, suc, ◌≡◌, refl, ◌<◌, ◌^◌, ◌+◌, inl, inr, true, List, [], ◌∷◌, arith, update, Bool-cases, subst,
  ◌≤◌, incr_word-lt, ltb,
}
use u_threads.Sync.{new_mutex, release}
use u_threads.Sync.Semaphore.{
  Pc, outside, p_lock, v_lock, p_body, v_body, blocked, System, initial, body_p, body_v, resume_all,
  give_to, Step, starts_p, starts_v, takes, gives, Reach, start, later,
}
use u_threads.Sync.Semaphore.Queues.{
  in_body, Sleepers, Inv, enter-Inv, leave-Lock, leave_blocked, leave_me, Sleepers-push,
  Sleepers-keep, Sleepers-wake, wake-Lock, resume_all-append,
}

body_p-Inv : (c : ℕ) (s : System) (me : ℕ) → s.pc me ≡ p_body → Inv c s → Inv c (body_p me s)
unfolding body_p
body_p-Inv c s me e iv =
    let k = iv.sleepers in
    let b : in_body (s.pc me) ≡ true = ground arith in
    let other = λ (next : Pc) (t : ℕ).
      leave_blocked s.sem.mutex.owner s.sem.mutex.bq s.pc me next t b iv.lock in
    let mine = λ (next : Pc). leave_me s.sem.mutex.owner s.sem.mutex.bq s.pc me next b iv.lock in
    elim (Bool-cases (ltb s.sem.counter 1)) [
      | inl z ↦ rw z (record {
        lock = leave-Lock s.sem.mutex.owner s.sem.mutex.bq s.pc me blocked b refl refl iv.lock;
        sleepers =
            Sleepers-push s.sem.bq s.pc _ me (iv.lock.owns me b).1 (λ q. ground arith)
              (mine blocked) (other blocked) k;
        none_waits = λ h. ground arith;
        count = iv.count;
      })
      | inr z ↦ rw z (record {
        lock = leave-Lock s.sem.mutex.owner s.sem.mutex.bq s.pc me outside b refl refl iv.lock;
        sleepers =
            Sleepers-keep s.sem.bq s.pc _ me (λ q. ground arith) (λ q. ground (arith, mine outside))
              (other outside) k;
        none_waits = λ h. ground (arith, iv.none_waits);
        count = ground (arith, iv.count);
      })
    ]

give_to-Inv :
    (c : ℕ) (s : System) (me : ℕ) (bq : List ℕ)
    → s.pc me ≡ v_body
    → suc s.sem.counter < 2 ^ 64
    → s.sem.bq ≡ bq
    → Inv c s
    → Inv c (give_to me bq s)
unfolding give_to
give_to-Inv c s me [] e lt q iv =
    let b : in_body (s.pc me) ≡ true = ground arith in
    let other =
      λ (t : ℕ). leave_blocked s.sem.mutex.owner s.sem.mutex.bq s.pc me outside t b iv.lock in
    let mine = leave_me s.sem.mutex.owner s.sem.mutex.bq s.pc me outside b iv.lock in
    record {
      lock = leave-Lock s.sem.mutex.owner s.sem.mutex.bq s.pc me outside b refl refl iv.lock;
      sleepers =
          Sleepers-keep s.sem.bq s.pc _ me (λ q. ground arith) (λ q. ground (arith, mine)) other
            iv.sleepers;
      none_waits = λ h. q;
      count = omega (arith, iv.count, incr_word-lt s.sem.counter lt);
    }
give_to-Inv c s me (x ∷ bq) e lt q iv =
    let b : in_body (s.pc me) ≡ true = ground arith in
    let other =
      λ (t : ℕ). leave_blocked s.sem.mutex.owner s.sem.mutex.bq s.pc me outside t b iv.lock in
    let mine = leave_me s.sem.mutex.owner s.sem.mutex.bq s.pc me outside b iv.lock in
    let left = leave-Lock s.sem.mutex.owner s.sem.mutex.bq s.pc me outside b refl refl iv.lock in
    let k =
      Sleepers-keep s.sem.bq s.pc _ me (λ q. ground arith) (λ q. ground (arith, mine)) other
        iv.sleepers in
    let k' =
      subst (λ l. Sleepers l (resume_all (release s.sem.mutex).1 (update s.pc me outside))) q k in
    record {
      lock =
          rw (resume_all-append (release s.sem.mutex).1 (x ∷ []) (update s.pc me outside))
            (wake-Lock _ _ _ x ((k'.sleeps x (ground arith)).0) left);
      sleepers =
          rw (resume_all-append (release s.sem.mutex).1 (x ∷ []) (update s.pc me outside))
            (Sleepers-wake x bq _ k');
      none_waits = λ h. absurd (ground (arith, iv.none_waits));
      count = omega (arith, iv.count);
    }

body_v-Inv :
    (c : ℕ) (s : System) (me : ℕ)
    → s.pc me ≡ v_body
    → suc s.sem.counter < 2 ^ 64
    → Inv c s
    → Inv c (body_v me s)
unfolding body_v
body_v-Inv c s me e lt iv = give_to-Inv c s me s.sem.bq e lt refl iv

initial-Inv : (c : ℕ) → Inv c (initial c)
unfolding initial new_mutex
initial-Inv c = record {
  lock = record {
    free = λ z. refl;
    owns = λ t e. absurd (cc);
    owned = λ n. absurd (n refl);
    waits = λ t h. absurd (cc);
    queued = λ t e. absurd (cc);
    once = tt;
  };
  sleepers = record { sleeps = λ t h. absurd (cc); asleep = λ t e. absurd (cc); each = tt };
  none_waits = λ h. refl;
  count = refl;
}

Step-Inv : (c : ℕ) {s t : System} → Step s t → Inv c s → Inv c t
Step-Inv c (starts_p s me ne e) i = enter-Inv c p_lock p_body s me refl refl ne e i
Step-Inv c (starts_v s me ne e) i = enter-Inv c v_lock v_body s me refl refl ne e i
Step-Inv c (takes s me e) i = body_p-Inv c s me e i
Step-Inv c (gives s me e lt) i = body_v-Inv c s me e lt i

-- In every reachable state the mutex is well kept, the blocking queue holds each suspended uThread
-- once, nobody is suspended while the counter is positive, and the counter is its first value plus
-- the calls of `V` less those calls of `P` that returned.
pub Reach-Inv : (c : ℕ) {s : System} → Reach c s → Inv c s
Reach-Inv c start = initial-Inv c
Reach-Inv c (later r st) = Step-Inv c st (Reach-Inv c r)

-- Never do more calls of `P` return than the first value and the calls of `V` allow.
pub permits : (c : ℕ) {s : System} → Reach c s → s.taken ≤ c + s.given
permits c r = let i = Reach-Inv c r in omega (arith, i.count)

-- A uThread is suspended in `P` only when all permits are taken: no wake-up is lost.
pub suspended_only_at_zero :
    (c : ℕ) {s : System}
    → Reach c s
    → (me : ℕ) → s.pc me ≡ blocked
    → (s.sem.counter ≡ 0) × (s.taken ≡ c + s.given)
suspended_only_at_zero c {s} r me e =
    let i = Reach-Inv c r in
    let zero_left : s.sem.counter ≡ 0 = ground (arith, i.none_waits, i.sleepers.asleep me) in
    (zero_left, omega (arith, i.count))
