-- ===== src/Sync/Mutex/Invariant.antt =====
-- Who owns the mutex and who waits for it.
use u_threads.Base.{
  ℕ, ◌≡◌, refl, ◌≢◌, inl, inr, true, false, List, [], ◌∷◌, arith, ◌==◌, has, has-append, Bool-cases,
  Distinct, Distinct-snoc,
}
use u_threads.Sync.{new_mutex, acquire, release, acquire_assert, release_assert}
use u_threads.Sync.Mutex.{
  Pc, outside, blocked, inside, System, initial, acquire_by, release_by, Step, acquires, releases,
  Reach, start, later,
}

pub record Inv (owner : ℕ) (bq : List ℕ) (pc : ℕ → Pc) : Type 0 where
  pub free : owner ≡ 0 → bq ≡ []
  pub owns : (t : ℕ) → pc t ≡ inside → (t ≡ owner) × (t ≢ 0)
  pub owned : owner ≢ 0 → pc owner ≡ inside
  pub queued : (t : ℕ) → pc t ≡ blocked → has t bq ≡ true
  pub waits : (t : ℕ) → has t bq ≡ true → (pc t ≡ blocked) × (t ≢ 0)
  pub once : Distinct bq

abbrev pub Holds : System → Type 0
Holds s = Inv s.mutex.owner s.mutex.bq s.pc

acquire-Inv : (s : System) (me : ℕ) → me ≢ 0 → s.pc me ≡ outside → Holds s → Holds (acquire_by me s)
unfolding acquire_by acquire
acquire-Inv s me ne out i = elim (Bool-cases (s.mutex.owner == 0)) [
  | inl free ↦ rw free (record {
    free = λ z. absurd (ne z);
    owns = λ t e. ground (arith, i.owns t);
    owned = λ n. ground arith;
    queued = λ t e. ground (arith, i.queued t);
    waits = λ t h. ground (arith, i.waits t, i.free);
    once = i.once;
  })
  | inr busy ↦ rw busy (record {
    free = λ z. ground arith;
    owns = λ t e. ground (arith, i.owns t);
    owned = λ n. ground arith;
    queued = λ t e. ground (arith, i.queued t, has-append t s.mutex.bq (me ∷ []));
    waits = λ t h. ground (arith, i.waits t, has-append t s.mutex.bq (me ∷ []));
    once = Distinct-snoc me s.mutex.bq (ground (arith, i.waits me)) i.once;
  })
]

release_to-Inv :
    (owner : ℕ) (bq : List ℕ) (pc : ℕ → Pc) (me : ℕ)
    → pc me ≡ inside
    → Inv owner bq pc
    → Holds (release_by me (record { mutex = record { owner = owner; bq = bq }; pc = pc }))
unfolding release_by release
release_to-Inv owner [] pc me in_me i = record {
  free = λ z. refl;
  owns = λ t e. ground (arith, i.owns t, i.owns me);
  owned = λ n. absurd (n refl);
  queued = λ t e. ground (arith, i.queued t);
  waits = λ t h. cc;
  once = tt;
}
release_to-Inv owner (x ∷ bq) pc me in_me i = record {
  free = λ z. ground (arith, i.waits x);
  owns = λ t e. ground (arith, i.owns t, i.owns me, i.waits x);
  owned = λ n. ground arith;
  queued = λ t e. ground (arith, i.queued t);
  waits = λ t h. ground (arith, i.waits t, i.owns me);
  once = i.once.1;
}

initial-Inv : Holds initial
unfolding initial new_mutex
initial-Inv = record {
  free = λ z. refl;
  owns = λ t e. absurd (cc);
  owned = λ n. absurd (n refl);
  queued = λ t e. absurd (cc);
  waits = λ t h. absurd (cc);
  once = tt;
}

Step-Inv : {s t : System} → Step s t → Holds s → Holds t
Step-Inv (acquires s me ne out) i = acquire-Inv s me ne out i
Step-Inv (releases s me in_me) i = release_to-Inv s.mutex.owner s.mutex.bq s.pc me in_me i

-- In every reachable state the owner is the one uThread inside, the blocking queue holds each
-- suspended uThread once, and nobody waits for a free mutex.
pub Reach-Inv : {s : System} → Reach s → Holds s
Reach-Inv start = initial-Inv
Reach-Inv (later r st) = Step-Inv st (Reach-Inv r)

-- Two uThreads are never inside together.
pub mutual_exclusion :
    {s : System} → Reach s → (a b : ℕ) → s.pc a ≡ inside → s.pc b ≡ inside → a ≡ b
mutual_exclusion r a b ea eb = let i = Reach-Inv r in ground (arith, i.owns a, i.owns b)

-- The assertions of `acquire` and `release` hold wherever a uThread calls them.
pub asserts_hold :
    {s : System}
    → Reach s
    → (me : ℕ)
    → (s.pc me ≡ outside → me ≢ 0 → acquire_assert false me s.mutex ≡ true)
      × (s.pc me ≡ inside → release_assert me s.mutex ≡ true)
asserts_hold {s} r me =
    let i = Reach-Inv r in (λ e n. ground (arith, i.owned), λ e. ground (arith, i.owns me))

-- While a uThread is suspended, another one is inside, who will release the mutex.
pub no_deadlock :
    {s : System} → Reach s → (me : ℕ) → s.pc me ≡ blocked → (t : ℕ) × (s.pc t ≡ inside)
no_deadlock {s} r me e =
    let i = Reach-Inv r in (s.mutex.owner, ground (arith, i.owned, i.free, i.queued me))
