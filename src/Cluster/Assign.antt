-- ===== src/Cluster/Assign.antt =====
-- The choice of kThreads goes round, and stays in range however the calls interleave.
use u_threads.Base.{
  ℕ, zero, suc, ◌+◌, ◌%◌, ◌<◌, ◌≡◌, refl, false, Option, none, some, List, [], ◌∷◌, length,
  Bool-cases, inl, inr, length-append, get_elem?, ◌>>=◌, if◌then◌else◌, arith, ◌==◌,
}
use native.Mathlib.Nat.{mod-lt, mod-add-mod, mod-eq_of_lt}
use u_threads.Cluster.{Cluster, add_kthread, assign_next, assign_exchange, assign_kthread}

pub get_elem?-lt :
    {A : Type 0} (xs : List A) (i : ℕ) → i < length xs → (x : A) × (get_elem? xs i ≡ some x)
get_elem?-lt [] i h = ground arith
get_elem?-lt (x ∷ xs) zero h = (x, refl)
get_elem?-lt (x ∷ xs) (suc i) h = get_elem?-lt xs i (omega (arith, h))

-- `n` calls in a row, and what they return.
pub assign_many : ℕ → Cluster → Option (List ℕ × Cluster)
unfolding assign_kthread
assign_many zero c = some ([], c)
assign_many (suc n) c =
    let rest = assign_many n in
    do (kt, c') ← assign_kthread c; (kts, c'') ← rest c'; some (kt ∷ kts, c'')

assign_kthread-in_range :
    (c : Cluster)
    → c.kt_last < length c.kthreads
    → (kt : ℕ) × (get_elem? c.kthreads c.kt_last ≡ some kt)
      × (assign_kthread c ≡ some (kt, record c { kt_last = (c.kt_last + 1) % length c.kthreads }))
unfolding assign_kthread assign_next assign_exchange
assign_kthread-in_range c h =
    let (kt, e) = get_elem?-lt c.kthreads c.kt_last h in
    let some_kt : (length c.kthreads == 0) ≡ false = ground arith in (kt, e, rw (some_kt, e) refl)

place-suc : (a i n : ℕ) → ((a + 1) % n + i) % n ≡ (a + suc i) % n
place-suc a i n =
    let e : a + 1 + i ≡ a + suc i = omega arith in rw (mod-add-mod (a + 1) n i, e) refl

first-place : (a n : ℕ) → a < n → (a + 0) % n ≡ a
first-place a n h = let e : a + 0 ≡ a = omega arith in rw (e, mod-eq_of_lt h) refl

-- The first call and those that follow it.
row-cons :
    (kt n : ℕ) (kts : List ℕ) (c : Cluster)
    → c.kt_last < length c.kthreads
    → get_elem? c.kthreads c.kt_last ≡ some kt
    → ((i : ℕ)
        → i < n
        → get_elem? kts i
          ≡ get_elem? c.kthreads (((c.kt_last + 1) % length c.kthreads + i) % length c.kthreads))
    → (i : ℕ) → i < suc n
    → get_elem? (kt ∷ kts) i ≡ get_elem? c.kthreads ((c.kt_last + i) % length c.kthreads)
row-cons kt n kts c h at rest zero l = rw (first-place c.kt_last (length c.kthreads) h, at) refl
row-cons kt n kts c h at rest (suc i) l =
    rw (rest i (omega (arith, l)), place-suc c.kt_last i (length c.kthreads)) refl

-- Call `i` of a row, counted from 0, gives the kThread at `kt_last + i`, round and round.
pub assign_many-round_robin :
    (n : ℕ) (c : Cluster)
    → c.kt_last < length c.kthreads
    → (kts : List ℕ) × (c' : Cluster) × (assign_many n c ≡ some (kts, c'))
      × ((i : ℕ)
          → i < n
          → get_elem? kts i ≡ get_elem? c.kthreads ((c.kt_last + i) % length c.kthreads))
unfolding assign_many
assign_many-round_robin zero c h = ([], c, refl, λ i l. ground arith)
assign_many-round_robin (suc n) c h =
    let (kt, at, e) = assign_kthread-in_range c h in
    let c1 : Cluster = record c { kt_last = (c.kt_last + 1) % length c.kthreads } in
    let (kts, c2, e2, round) =
      assign_many-round_robin n c1 (mod-lt (c.kt_last + 1) (omega (arith, h))) in
    (kt ∷ kts, c2, rw (e, e2) refl, row-cons kt n kts c h at round)

-- Any interleaving of the loads, the exchanges and the calls of `addNewkThread`, from a cluster with
-- a first kThread; `pending` is what a uThread has loaded and not stored yet.
pub data Reach (kt0 : ℕ) : Cluster → (ℕ → Option ℕ) → Type 0 where
  start : (c : Cluster) → c.kthreads ≡ kt0 ∷ [] → c.kt_last ≡ 0 → Reach kt0 c (λ _. none)
  load :
      (me next : ℕ) (c : Cluster) (pending : ℕ → Option ℕ)
      → assign_next c ≡ some next
      → Reach kt0 c pending
      → Reach kt0 c (λ q. if q == me then some next else pending q)
  exchange :
      (me next : ℕ) (c : Cluster) (pending : ℕ → Option ℕ)
      → pending me ≡ some next
      → Reach kt0 c pending
      → Reach kt0 (assign_exchange next c).1 (λ q. if q == me then none else pending q)
  add :
      (kt : ℕ) (c : Cluster) (pending : ℕ → Option ℕ)
      → Reach kt0 c pending
      → Reach kt0 (add_kthread kt c) pending

record InRange (c : Cluster) (pending : ℕ → Option ℕ) : Type 0 where
  last : c.kt_last < length c.kthreads
  next : (me n : ℕ) → pending me ≡ some n → n < length c.kthreads

assign_next-lt : (c : Cluster) (n : ℕ) → assign_next c ≡ some n → n < length c.kthreads
unfolding assign_next
assign_next-lt c n e =
    let lt : 0 < length c.kthreads → (c.kt_last + 1) % length c.kthreads < length c.kthreads =
      λ p. mod-lt (c.kt_last + 1) p in
    elim (Bool-cases (length c.kthreads == 0)) [
      | inl empty ↦ ground arith
      | inr more ↦
          let positive : 0 < length c.kthreads = ground arith in ground (arith, lt positive)
    ]

Reach-InRange :
    (kt0 : ℕ) (c : Cluster) (pending : ℕ → Option ℕ) → Reach kt0 c pending → InRange c pending
unfolding assign_exchange add_kthread
Reach-InRange kt0 _ _ (start c e z) = record { last = ground arith; next = λ me n h. ground arith }
Reach-InRange kt0 _ _ (load me next c pending e r) =
    let i = Reach-InRange kt0 c pending r in
    let lt = assign_next-lt c next e in
    record { last = i.last; next = λ q n h. ground (arith, i.next q n) }
Reach-InRange kt0 _ _ (exchange me next c pending e r) =
    let i = Reach-InRange kt0 c pending r in
    record { last = i.next me next e; next = λ q n h. ground (arith, i.next q n) }
Reach-InRange kt0 _ _ (add kt c pending r) =
    let i = Reach-InRange kt0 c pending r in
    let more = length-append c.kthreads (kt ∷ []) in
    record { last = omega (arith, i.last, more); next = λ q n h. omega (arith, i.next q n h, more) }

-- In every interleaving the next exchange reads a kThread of the cluster.
pub assign_exchange-in_range :
    (kt0 next : ℕ) (c : Cluster) (pending : ℕ → Option ℕ)
    → Reach kt0 c pending
    → (kt : ℕ) × ((assign_exchange next c).0 ≡ some kt)
unfolding assign_exchange
assign_exchange-in_range kt0 next c pending r =
    get_elem?-lt c.kthreads c.kt_last (Reach-InRange kt0 c pending r).last
