-- ===== src/Mpsc/Run/Consumer.antt =====
-- The consumer's steps: each keeps the invariant, over an order from which just what `pop()`
-- returns is gone.
use u_threads.Base.{
  ℕ, ◌≡◌, refl, ◌≢◌, ◌⊎◌, inl, inr, false, List, [], ◌∷◌, ◌++◌, arith, ◌==◌, has, Distinct,
  has-append, append-nil, Bool-cases,
}
use u_threads.Intrusive.Seg.{has-last_of}
use u_threads.Intrusive.Queue.Laws.{tail_of}
use u_threads.Mpsc.{
  MpscQueue, Pc, outside, cas, wait_stub, reinsert, relink, wait_next, is_marked, unmark, mark,
  exchange, link, pop_at, pop_step, Outcome,
}
use u_threads.Mpsc.Linked.{Linked-store}
use u_threads.Mpsc.Run.{returned}
use u_threads.Mpsc.Run.Inv.{
  StartsAt, Knows, Shape, Inv, without, without-append, unmark-even, unmark-mark, unmarked,
}
use u_threads.Mpsc.Run.Steps.{exchange-Shape, link-Shape}

-- After a step: the invariant over an order without what was returned.
abbrev pub Keeps : ℕ → List ℕ → MpscQueue × Outcome → Type 0
Keeps stub xs (q', out) =
    (ys : List ℕ) × Inv stub q' ys × (without stub xs ≡ returned out ++ without stub ys)

Shape-pc :
    (stub : ℕ) (q : MpscQueue) (pc : Pc) (xs : List ℕ)
    → Shape stub q xs
    → Shape stub (record q { pc = pc }) xs
Shape-pc stub q pc xs i = record {
  stub_aligned = i.stub_aligned;
  linked = i.linked;
  first = i.first;
  last = i.last;
  distinct = i.distinct;
  aligned = i.aligned;
  quiet = i.quiet;
}

-- An order that starts and ends at one element is that element.
pub ends_alone : (x : ℕ) (xs : List ℕ) → Distinct (x ∷ xs) → tail_of (x ∷ xs) ≡ x → xs ≡ []
ends_alone x [] d e = refl
ends_alone x (y ∷ ys) d e = absurd (ground (arith, has-last_of y ys))

busy :
    (stub : ℕ) (q : MpscQueue) (xs : List ℕ)
    → (q.head == stub) ≡ false
    → StartsAt q.head xs
    → (is_marked q.tail ≡ false) ⊎ ((q.tail ≡ mark stub) × (xs ≡ stub ∷ []))
    → is_marked q.tail ≡ false
busy stub q [] ne f k = absurd f
busy stub q (x ∷ xs) ne f k = ground arith

outside-Keeps :
    (stub : ℕ) (q : MpscQueue) (xs : List ℕ)
    → q.pc ≡ outside
    → Shape stub q xs
    → Knows stub outside q xs
    → Keeps stub xs (pop_at stub q outside)
unfolding pop_at
outside-Keeps stub q xs e i k = elim (Bool-cases (q.head == stub)) [
  | inl empty ↦ elim (Bool-cases (is_marked q.tail)) [
    | inl m ↦ rw (empty, m) (xs, record { shape = i; knows = rw e k }, refl)
    | inr m ↦
        rw (empty, m)
          (xs, record { shape = Shape-pc stub q cas xs i; knows = (k.0, m, ground arith) }, refl)
  ]
  | inr ne ↦ rw ne (
    xs,
    record {
      shape = Shape-pc stub q wait_next xs i;
      knows = (k.0, busy stub q xs ne i.first k.1, ground arith);
    },
    refl,
  )
]

cas-Keeps :
    (stub : ℕ) (q : MpscQueue) (xs : List ℕ)
    → Shape stub q xs
    → Knows stub cas q xs
    → Keeps stub xs (pop_at stub q cas)
unfolding pop_at
cas-Keeps stub q [] i k = absurd i.first
cas-Keeps stub q (x ∷ xs) i k = elim (Bool-cases (q.tail == stub)) [
  | inl won ↦ rw won (
    x ∷ xs,
    record {
      shape = record {
        stub_aligned = i.stub_aligned;
        linked = i.linked;
        first = i.first;
        last =
            ground
              (arith, i.last, unmark-mark stub i.stub_aligned.1, unmark-even stub i.stub_aligned.1);
        distinct = i.distinct;
        aligned = i.aligned;
        quiet = i.quiet;
      };
      knows = (
        k.0,
        inr (
          refl,
          ground (
            arith,
            i.first,
            i.last,
            unmark-even stub i.stub_aligned.1,
            ends_alone x xs i.distinct,
          ),
        ),
      );
    },
    refl,
  )
  | inr lost ↦ rw lost (
    x ∷ xs,
    record { shape = Shape-pc stub q wait_stub (x ∷ xs) i; knows = (k.0, k.1, k.2, ground arith) },
    refl,
  )
]

wait_stub-Keeps :
    (stub : ℕ) (q : MpscQueue) (xs : List ℕ)
    → q.pc ≡ wait_stub
    → Shape stub q xs
    → Knows stub wait_stub q xs
    → Keeps stub xs (pop_at stub q wait_stub)
unfolding pop_at
wait_stub-Keeps stub q [] e i k = absurd i.first
wait_stub-Keeps stub q (x ∷ []) e i k = absurd (ground (arith, unmarked q.tail k.1))
wait_stub-Keeps stub q (x ∷ y ∷ r) e i k = elim (Bool-cases (q.next stub == 0)) [
  | inl again ↦ rw again (x ∷ y ∷ r, record { shape = i; knows = rw e k }, refl)
  | inr linked ↦ rw linked (
    y ∷ r,
    record {
      shape = record {
        stub_aligned = i.stub_aligned;
        linked = i.linked.1;
        first = ground arith;
        last = i.last;
        distinct = i.distinct.1;
        aligned = i.aligned.2;
        quiet = λ a o. ground (arith, i.quiet a);
      };
      knows = (ground arith, k.1);
    },
    ground arith,
  )
]

reinsert-Keeps :
    (stub : ℕ) (q : MpscQueue) (xs : List ℕ)
    → Shape stub q xs
    → Knows stub reinsert q xs
    → Keeps stub xs (pop_at stub q reinsert)
unfolding pop_at exchange
reinsert-Keeps stub q xs i k =
    let al = i.stub_aligned in
    let i' =
      exchange-Shape stub q (q.next stub) stub xs [] i (refl, al.0, refl) al (refl, tt) (k.0, tt) in
    (
      xs ++ stub ∷ [],
      record {
        shape = Shape-pc stub _ (relink (unmark q.tail)) (xs ++ stub ∷ []) i';
        knows = (
          ground (arith, has-append stub xs (stub ∷ [])),
          (unmark-even stub al.1).1,
          starts xs i.first k.0,
          ground arith,
        );
      },
      ground (arith, without-append stub xs (stub ∷ []), append-nil (without stub xs)),
    )
  where
    starts : (xs : List ℕ) → StartsAt q.head xs → has stub xs ≡ false → q.head ≢ stub
    starts [] f o = absurd f
    starts (x ∷ xs) f o = ground arith

relink-Keeps :
    (stub p : ℕ) (q : MpscQueue) (xs : List ℕ)
    → Shape stub q xs
    → Knows stub (relink p) q xs
    → Keeps stub xs (pop_at stub q (relink p))
unfolding pop_at link
relink-Keeps stub p q xs i k = (
  xs,
  record {
    shape =
        Shape-pc stub _ wait_next xs (link-Shape stub q p xs (ground (arith, i.stub_aligned.0)) i);
    knows = (k.0, k.1, k.2);
  },
  refl,
)

wait_next-Keeps :
    (stub : ℕ) (q : MpscQueue) (xs : List ℕ)
    → q.pc ≡ wait_next
    → Shape stub q xs
    → Knows stub wait_next q xs
    → Keeps stub xs (pop_at stub q wait_next)
unfolding pop_at
wait_next-Keeps stub q [] e i k = absurd i.first
wait_next-Keeps stub q (x ∷ []) e i k = absurd (ground arith)
wait_next-Keeps stub q (x ∷ y ∷ r) e i k = elim (Bool-cases (q.next q.head == 0)) [
  | inl again ↦ rw again (x ∷ y ∷ r, record { shape = i; knows = rw e k }, refl)
  | inr linked ↦ rw linked (
    y ∷ r,
    record {
      shape = record {
        stub_aligned = i.stub_aligned;
        linked = Linked-store q.next q.pending q.head 0 (y ∷ r) (ground arith) i.linked.1;
        first = ground arith;
        last = i.last;
        distinct = i.distinct.1;
        aligned = i.aligned.2;
        quiet = λ a o. ground (arith, i.quiet a);
      };
      knows = (ground arith, inl k.1);
    },
    ground arith,
  )
]

pop_at-Keeps :
    (stub : ℕ) (q : MpscQueue) (pc : Pc) (xs : List ℕ)
    → q.pc ≡ pc
    → Shape stub q xs
    → Knows stub pc q xs
    → Keeps stub xs (pop_at stub q pc)
pop_at-Keeps stub q outside xs e i k = outside-Keeps stub q xs e i k
pop_at-Keeps stub q cas xs e i k = cas-Keeps stub q xs i k
pop_at-Keeps stub q wait_stub xs e i k = wait_stub-Keeps stub q xs e i k
pop_at-Keeps stub q reinsert xs e i k = reinsert-Keeps stub q xs i k
pop_at-Keeps stub q (relink p) xs e i k = relink-Keeps stub p q xs i k
pop_at-Keeps stub q wait_next xs e i k = wait_next-Keeps stub q xs e i k

pub pop_step-Keeps :
    (stub : ℕ) (q : MpscQueue) (xs : List ℕ) → Inv stub q xs → Keeps stub xs (pop_step stub q)
unfolding pop_step
pop_step-Keeps stub q xs i = pop_at-Keeps stub q q.pc xs refl i.shape i.knows
